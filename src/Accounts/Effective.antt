-- ===== src/Accounts/Effective.antt =====
-- What a sign-in is granted, and to whom it is refused.
use repo_karta.Accounts.Resolve.{
  Resolution, highest, identity_by_claims, identity_group_roles, mapped_role, member_roles,
  provider_roles, resolve_identity, saved, trimmed_claims, with_bound, with_row, with_user,
}
use repo_karta.Accounts.Tables.{Result, Tables, deprovisioned, done, error}
use repo_karta.Common.Equal.{has_text, is_blank}
use repo_karta.Common.Text.{Text, text_eq, trim_space}
use repo_karta.Common.{
  ℕ, ◌≡◌, ◌∙◌, refl, ap, Bool, true, false, ◌||◌, ◌&&◌, ◌++◌, ◌⊎◌, ◌↔◌, inl, inr, sym, Bool-cases,
  not, Option, none, some, List, [], ◌∷◌, arith, any, if_rule,
}
use repo_karta.Identity.Matrix.{allows-max_role, normalize_role-role_name}
use repo_karta.Identity.Roles.{Permission, allows, max_role, normalize_role, role_name}
use repo_karta.Identity.Users.{Claims, Group, Mapping, User}

-- A property of a result that is no error.
abbrev pub IfDone : {A : Type 0} → (A → Type 0) → Result A → Type 0
IfDone P (error e) = Unit
IfDone P (done a) = P a

-- Some element of a list.
abbrev pub Exists : {A : Type 0} → (A → Type 0) → List A → Type 0
Exists P [] = ⊥
Exists P (x ∷ xs) = P x ⊎ Exists P xs

-- The first element that passes a test.
abbrev pub First : {A : Type 0} → (A → Bool) → (A → Type 0) → List A → Type 0
First test P [] = ⊥
First test P (x ∷ xs) = ((test x ≡ true) × P x) ⊎ ((test x ≡ false) × First test P xs)

or_cases : (a b : Bool) → (a || b) ≡ true → (a ≡ true) ⊎ (b ≡ true)
or_cases true b h = inl refl
or_cases false b h = inr h

either_true : (a b : Bool) → (a ≡ true) ⊎ (b ≡ true) → (a || b) ≡ true
either_true true b h = refl
either_true false b (inl h) = absurd cc
either_true false b (inr h) = h

any-append :
    {A : Type 0} (f : A → Bool) (xs ys : List A) → any f (xs ++ ys) ≡ (any f xs || any f ys)
any-append f [] ys = refl
any-append f (x ∷ xs) ys = ground (arith, any-append f xs ys)

module _ (wide : ℕ → ℕ) (sql_lower : Text → Text) where
  highest-allows :
      (role : Text) (roles : List Text) (p : Permission)
      → allows wide (highest wide sql_lower role roles) p
        ≡ (allows wide role p || any (λ r. allows wide r p) roles)
  unfolding highest
  highest-allows role [] p = ground arith
  highest-allows role (r ∷ rs) p =
      let rest = highest-allows (role_name (max_role wide role r)) rs p in
      let here = allows-max_role wide role r p in ground arith

  own_role :
      (role : Text) (p : Permission)
      → allows wide (role_name (normalize_role wide role)) p ≡ allows wide role p
  unfolding allows
  own_role role p = rw (normalize_role-role_name wide (normalize_role wide role)) refl

  abbrev pub is_mapped : Text → Text → Mapping → Bool
  is_mapped provider value m =
      text_eq m.provider provider
      && text_eq (sql_lower m.group_value) (sql_lower (trim_space value))

  -- A permission is allowed by a user's own role, by the role of a group that has the user, or by the
  -- role of the first mapping of one of the provider's groups.
  abbrev pub IsEntitled : Text → Text → Claims → Tables → Permission → Type 0
  IsEntitled role id c t p =
      (allows wide role p ≡ true)
      ⊎ (Exists (λ (g : Group). (has_text id g.members ≡ true) × (allows wide g.role p ≡ true))
            t.groups
          ⊎ Exists
              (λ value.
                First (is_mapped c.provider value) (λ (m : Mapping). allows wide m.role p ≡ true)
                  t.mappings)
              c.groups)

  -- A user is active, and may do what it is entitled to.
  abbrev pub IsEffective : Claims → Tables → Resolution → Type 0
  IsEffective c t r =
      (r.user.active ≡ true)
      × ((p : Permission) → (allows wide r.role p ≡ true) ↔ IsEntitled r.user.role r.user.id c t p)

  module _ (p : Permission) where
    abbrev grants : Text → Bool
    grants role = allows wide role p

    member_roles-Exists :
        (id : Text) (gs : List Group)
        → (any grants (member_roles wide sql_lower id gs) ≡ true)
          ↔ Exists (λ (g : Group). (has_text id g.members ≡ true) × (grants g.role ≡ true)) gs
    unfolding member_roles
    member_roles-Exists id [] = (λ h. absurd cc, λ h. absurd h)
    member_roles-Exists id (g ∷ gs) =
        let (f, b) = member_roles-Exists id gs in
        elim (Bool-cases (has_text id g.members)) [
          | inl e ↦ (
            λ h.
                elim (or_cases (grants g.role) (any grants (member_roles wide sql_lower id gs))
                  (rw e at h)) [ inl k ↦ inl (e, k) | inr k ↦ inr (f k) ],
            λ h. rw e (
                either_true (grants g.role) (any grants (member_roles wide sql_lower id gs))
                  (elim h [ inl k ↦ inl k.1 | inr k ↦ inr (b k) ])),
          )
          | inr e ↦ (
            λ h. inr (f (rw e at h)),
            λ h. rw e (elim h [ inl k ↦ absurd (let n = k.0 in cc) | inr k ↦ b k ]),
          )
        ]

    mapped_role-First :
        (provider value : Text) (ms : List Mapping)
        → (any grants (mapped_role wide sql_lower provider value ms) ≡ true)
          ↔ First (is_mapped provider value) (λ (m : Mapping). grants m.role ≡ true) ms
    unfolding mapped_role
    mapped_role-First provider value [] = (λ h. absurd cc, λ h. absurd h)
    mapped_role-First provider value (m ∷ ms) =
        let (f, b) = mapped_role-First provider value ms in
        elim (Bool-cases (is_mapped provider value m)) [
          | inl e ↦ (
            λ h. elim (or_cases (grants m.role) false (rw e at h)) [
              | inl k ↦ inl (e, k)
              | inr k ↦ absurd cc
            ],
            λ h. rw e (
                either_true (grants m.role) false
                  (elim h [ inl k ↦ inl k.1 | inr k ↦ absurd (let n = k.0 in cc) ])),
          )
          | inr e ↦ (
            λ h. inr (e, f (rw e at h)),
            λ h. rw e (elim h [ inl k ↦ absurd (let n = k.0 in cc) | inr k ↦ b k.1 ]),
          )
        ]

    provider_roles-Exists :
        (provider : Text) (values : List Text) (ms : List Mapping)
        → (any grants (provider_roles wide sql_lower provider values ms) ≡ true)
          ↔ Exists
              (λ value. First (is_mapped provider value) (λ (m : Mapping). grants m.role ≡ true) ms)
              values
    unfolding provider_roles
    provider_roles-Exists provider [] ms = (λ h. absurd cc, λ h. absurd h)
    provider_roles-Exists provider (value ∷ values) ms =
        let here = mapped_role wide sql_lower provider value ms in
        let later = provider_roles wide sql_lower provider values ms in
        let (f, b) = mapped_role-First provider value ms in
        let (g, d) = provider_roles-Exists provider values ms in
        let joined = any-append grants here later in
        (
          λ h. elim (or_cases (any grants here) (any grants later) (sym joined ∙ h)) [
            | inl k ↦ inl (f k)
            | inr k ↦ inr (g k)
          ],
          λ h.
              joined
              ∙ either_true (any grants here) (any grants later)
                  (elim h [ inl k ↦ inl (b k) | inr k ↦ inr (d k) ]),
        )

    -- The highest role allows what one of the roles allows.
    highest-IsEntitled :
        (role id : Text) (c : Claims) (t : Tables)
        → (grants (
              highest wide sql_lower
                (role_name (normalize_role wide role))
                (identity_group_roles wide sql_lower id c.provider c.groups t))
            ≡ true)
          ↔ IsEntitled role id c t p
    unfolding identity_group_roles
    highest-IsEntitled role id c t =
        let members = member_roles wide sql_lower id t.groups in
        let mapped = provider_roles wide sql_lower c.provider c.groups t.mappings in
        let (f, b) = member_roles-Exists id t.groups in
        let (g, d) = provider_roles-Exists c.provider c.groups t.mappings in
        let all_roles =
          highest-allows (role_name (normalize_role wide role)) (members ++ mapped) p
          ∙ ap (λ o. o || any grants (members ++ mapped)) (own_role role p)
          ∙ ap (λ o. grants role || o) (any-append grants members mapped) in
        (
          λ h.
              elim (or_cases (grants role) (any grants members || any grants mapped)
                (sym all_roles ∙ h)) [
                  | inl k ↦ inl k
                  | inr k ↦ inr (elim (or_cases (any grants members) (any grants mapped) k) [
                    | inl m ↦ inl (f m)
                    | inr m ↦ inr (g m)
                  ])
                ],
          λ h.
              all_roles
              ∙ either_true (grants role) (any grants members || any grants mapped) (elim h [
                | inl k ↦ inl k
                | inr k ↦ inr (
                    either_true (any grants members) (any grants mapped)
                      (elim k [ inl m ↦ inl (b m) | inr m ↦ inr (d m) ]))
              ]),
        )

  with_user-IsEffective :
      (c : Claims) (known : Bool) (u : User) (t : Tables)
      → IfDone (IsEffective c t) (with_user wide sql_lower c known u t)
  unfolding with_user
  with_user-IsEffective c known u t =
      if_rule (IfDone (IsEffective c t)) (not u.active) (error deprovisioned) _ (λ _. tt)
        (λ active. (ground arith, λ p. highest-IsEntitled p u.role u.id c t))

  saved-IsEffective :
      (c : Claims) (r : Tables × Result User)
      → IfDone (IsEffective c (saved wide sql_lower c r).0) (saved wide sql_lower c r).1
  saved-IsEffective c (t, error e) = tt
  saved-IsEffective c (t, done u) = with_user-IsEffective c false u t

  with_row-IsEffective :
      (now : ℕ) (fresh second : Text) (c : Claims) (t : Tables) (o : Option User)
      → IfDone
          (IsEffective c (with_row wide sql_lower now fresh second c t o).0)
          (with_row wide sql_lower now fresh second c t o).1
  unfolding with_row with_bound
  with_row-IsEffective now fresh second c t none = saved-IsEffective c _
  with_row-IsEffective now fresh second c t (some u) =
      if_rule (λ (r : Tables × Result Resolution). IfDone (IsEffective c r.0) r.1)
        (is_blank u.auth_provider) _ _ (λ _. with_user-IsEffective c true _ _)
        (λ _. with_user-IsEffective c true u t)

  -- Whom ResolveIdentity lets in is active, and may do exactly what its own role allows, or the role
  -- of a group that lists it as a member, or the role of the first mapping of the provider and of one of
  -- the groups that the provider names, by the tables that the call leaves.
  pub resolve_identity-IsEffective :
      (now : ℕ) (fresh second : Text) (claims : Claims) (t : Tables)
      → let (after, result) = resolve_identity wide sql_lower now fresh second claims t in
        IfDone (IsEffective (trimmed_claims claims) after) result
  unfolding resolve_identity
  resolve_identity-IsEffective now fresh second claims t =
      let c = trimmed_claims claims in
      if_rule (λ (r : Tables × Result Resolution). IfDone (IsEffective c r.0) r.1)
        (is_blank c.provider || is_blank c.subject) _ _ (λ _. tt)
        (λ _.
          with_row-IsEffective now fresh second c t (identity_by_claims wide sql_lower c t.users))
