-- ===== src/Accounts/Refused.antt =====
-- To whom a sign-in is refused.
use repo_karta.Accounts.Resolve.{
  Resolution, first_row, identity_by_claims, is_awaited, is_bound, new_user, no_user, or_row,
  sign_in_name, resolve_identity, saved, trimmed_claims, with_bound, with_row, with_user,
  after_first_save,
}
use repo_karta.Accounts.Tables.{
  Result, Tables, cleaned, clashes, conflict, selected, delete_user, deprovisioned, error,
  save_user, suspend, user_row, write_user, upsert,
}
use repo_karta.Common.Equal.{is_blank, text_eq_self}
use repo_karta.Common.Text.{Text, text_eq, trim_left, trim_right, trim_space}
use repo_karta.Common.{
  ℕ, ◌≡◌, ◌∙◌, refl, ap, subst, Bool, true, false, ◌&&◌, ◌||◌, not, arith, Option, none, some, List,
  [], ◌∷◌, any, if◌then◌else◌, if_rule, Bool-cases, inl, inr,
}
use repo_karta.Identity.Users.{Claims, User}

-- The row that a suspension leaves.
abbrev marked : ℕ → Text → User → User
marked now id u = if text_eq u.id id then record u { active = false; updated_at = now } else u

abbrev map_row : (User → User) → Option User → Option User
map_row f none = none
map_row f (some u) = some (f u)

-- Where a condition does not look at the activity, the suspension changes no search.
first_row-suspend :
    (p : User → Bool) (now : ℕ) (id : Text) (us : List User)
    → ((u : User) → p (record u { active = false; updated_at = now }) ≡ p u)
    → first_row p (suspend now id us) ≡ map_row (marked now id) (first_row p us)
unfolding first_row suspend
first_row-suspend p now id [] inv = refl
first_row-suspend p now id (u ∷ us) inv =
    let rest = first_row-suspend p now id us inv in
    elim (Bool-cases (text_eq u.id id)) [
      | inl same ↦ elim (Bool-cases (p u)) [
        | inl e ↦ rw (same, inv u, e) (rw same refl)
        | inr e ↦ rw (same, inv u, e) rest
      ]
      | inr other ↦ elim (Bool-cases (p u)) [
        | inl e ↦ rw (other, e) (rw other refl)
        | inr e ↦ rw (other, e) rest
      ]
    ]

or_row-map :
    (f : User → User) (a b : Option User)
    → or_row (map_row f a) (map_row f b) ≡ map_row f (or_row a b)
or_row-map f none b = refl
or_row-map f (some u) b = refl

module _ (wide : ℕ → ℕ) (sql_lower : Text → Text) where
  identity_by_claims-suspend :
      (c : Claims) (now : ℕ) (id : Text) (us : List User)
      → identity_by_claims wide sql_lower c (suspend now id us)
        ≡ map_row (marked now id) (identity_by_claims wide sql_lower c us)
  unfolding identity_by_claims is_bound is_awaited
  identity_by_claims-suspend c now id us =
      let mark = marked now id in
      let bound = first_row (is_bound c) us in
      let by_id =
        first_row (λ u. is_awaited wide sql_lower c u && text_eq u.external_id c.subject) us in
      let awaited = first_row (is_awaited wide sql_lower c) us in
      rw
        (
          first_row-suspend (is_bound c) now id us (λ u. refl),
          first_row-suspend (λ u. is_awaited wide sql_lower c u && text_eq u.external_id c.subject)
              now id us (λ u. refl),
          first_row-suspend (is_awaited wide sql_lower c) now id us (λ u. refl),
        )
        (ap (or_row (map_row mark bound)) (or_row-map mark by_id awaited)
          ∙ or_row-map mark bound (or_row by_id awaited))

  with_row_inactive :
      (now : ℕ) (fresh second : Text) (c : Claims) (t : Tables) (u : User)
      → u.active ≡ false
      → (with_row wide sql_lower now fresh second c t (some u)).1 ≡ error deprovisioned
  unfolding with_row with_bound with_user
  with_row_inactive now fresh second c t u h =
      if_rule (λ (r : Tables × Result Resolution). r.1 ≡ error deprovisioned)
        (is_blank u.auth_provider) _ _ (λ _. rw h refl) (λ _. rw h refl)

  -- If a sign-in finds a user, then after the user is suspended it is refused as deprovisioned.
  pub resolve_identity-delete_user :
      (now later : ℕ) (id fresh second : Text) (claims : Claims) (t after : Tables) (u : User)
      → (is_blank (trim_space claims.provider) || is_blank (trim_space claims.subject)) ≡ false
      → identity_by_claims wide sql_lower (trimmed_claims claims) t.users ≡ some u
      → text_eq u.id (trim_space id) ≡ true
      → delete_user now id t ≡ some after
      → (resolve_identity wide sql_lower later fresh second claims after).1 ≡ error deprovisioned
  unfolding delete_user
  resolve_identity-delete_user now later id fresh second claims t after u filled found same gone =
      subst AfterDelete gone (
        if_rule AfterDelete (any (λ (v : User). text_eq v.id (trim_space id)) t.users)
          (some (record t { users = suspend now (trim_space id) t.users })) none (λ _. on_suspended)
          (λ _. tt))
    where
      AfterDelete : Option Tables → Type 0
      AfterDelete none = Unit
      AfterDelete (some after) =
          (resolve_identity wide sql_lower later fresh second claims after).1 ≡ error deprovisioned

      on_suspended :
          (resolve_identity wide sql_lower later fresh second claims
            (record t { users = suspend now (trim_space id) t.users })).1
          ≡ error deprovisioned
      on_suspended =
          unfold resolve_identity trimmed_claims in
          rw
            (
              filled,
              identity_by_claims-suspend (trimmed_claims claims) now (trim_space id) t.users,
              found,
            )
            (with_row_inactive later fresh second (trimmed_claims claims) _ _ (rw same refl))

  -- The row behind a write is the written one.
  upsert-IsAlike :
      (new : User) (us : List User)
      → (u : User) × (user_row new.id (upsert new us) ≡ some u)
        × (u.active ≡ new.active)
        × (u.auth_provider ≡ new.auth_provider)
        × (u.auth_subject ≡ new.auth_subject)
  unfolding user_row upsert
  upsert-IsAlike new [] = (new, rw (text_eq_self new.id) refl, refl, refl, refl)
  upsert-IsAlike new (u ∷ us) = elim (Bool-cases (text_eq u.id new.id)) [
    | inl e ↦
        rw e (
          record new { created_at = u.created_at },
          rw (text_eq_self new.id) refl,
          refl,
          refl,
          refl,
        )
    | inr e ↦ let (v, found, x, y, z) = upsert-IsAlike new us in rw e (v, rw e found, x, y, z)
  ]

  -- Another row has the name of a user, but for case.
  abbrev pub has_name : User → User → Bool
  has_name new old =
      not (text_eq old.id new.id) && text_eq (sql_lower old.user_name) (sql_lower new.user_name)

  any_name-clashes :
      (new : User) (us : List User)
      → any (has_name new) us ≡ true
      → any (clashes sql_lower new) us ≡ true
  unfolding clashes
  any_name-clashes new [] h = h
  any_name-clashes new (u ∷ us) h = elim (Bool-cases (has_name new u)) [
    | inl e ↦ ground arith
    | inr e ↦ let later = any_name-clashes new us (rw e at h) in ground arith
  ]

  -- What SaveUser is asked to save behind a conflict.
  abbrev pub second_user : ℕ → Text → Claims → User
  second_user now second c =
      cleaned wide sql_lower now second (record no_user { user_name = sign_in_name c })

  neither : (a b : Bool) → (a || b) ≡ false → (a ≡ false) × (b ≡ false)
  neither a b h = (ground arith, ground arith)

  write_user-conflict :
      (new : User) (t : Tables)
      → is_blank new.user_name ≡ false
      → any (clashes sql_lower new) t.users ≡ true
      → write_user wide sql_lower new t ≡ (t, error conflict)
  unfolding write_user
  write_user-conflict new t h k = rw (h, k) refl

  write_user-done :
      (new : User) (t : Tables)
      → is_blank new.user_name ≡ false
      → any (clashes sql_lower new) t.users ≡ false
      → let after = record t { users = upsert new t.users } in
        write_user wide sql_lower new t
        ≡ (after, selected wide sql_lower (user_row new.id after.users))
  unfolding write_user
  write_user-done new t h k = rw (h, k) refl

  with_user_inactive :
      (c : Claims) (u : User) (t : Tables)
      → u.active ≡ false
      → with_user wide sql_lower c false u t ≡ error deprovisioned
  unfolding with_user
  with_user_inactive c u t h = rw h refl

  -- If no row is found for a sign-in and another row has, but for case, the name that the new user
  -- would have, but none clashes with the name that is made of the provider and the subject, neither
  -- name being blank, then behind the call there is a row without provider and subject that is not
  -- active, and the sign-in is refused as deprovisioned.
  pub resolve_identity-taken :
      (now : ℕ) (fresh second : Text) (claims : Claims) (t : Tables)
      → let c = trimmed_claims claims in
        let new = cleaned wide sql_lower now fresh (new_user c) in
        let placeholder = second_user now second c in
        let (after, result) = resolve_identity wide sql_lower now fresh second claims t in
        (is_blank c.provider || is_blank c.subject) ≡ false
        → identity_by_claims wide sql_lower c t.users ≡ none
        → (is_blank new.user_name || is_blank placeholder.user_name) ≡ false
        → any (has_name new) t.users ≡ true
        → any (clashes sql_lower placeholder) t.users ≡ false
        → (u : User) × (user_row placeholder.id after.users ≡ some u)
          × (u.active ≡ false)
          × (u.auth_provider ≡ [])
          × (u.auth_subject ≡ [])
          × (result ≡ error deprovisioned)
  unfolding resolve_identity with_row after_first_save save_user
  resolve_identity-taken now fresh second claims t filled unknown named taken free =
      let c = trimmed_claims claims in
      let new = cleaned wide sql_lower now fresh (new_user c) in
      let placeholder = second_user now second c in
      let (u, found, inactive, provider, subject) = upsert-IsAlike placeholder t.users in
      let (first_named, second_named) = neither _ _ named in
      let after = record t { users = upsert placeholder t.users } in
      let call : resolve_identity wide sql_lower now fresh second claims t
          ≡ saved wide sql_lower c
              (after_first_save wide sql_lower now second c (write_user wide sql_lower new t)) =
        rw (filled, unknown) refl in
      let first = write_user-conflict new t first_named (any_name-clashes new t.users taken) in
      let both =
        write_user-done placeholder t second_named free
        ∙ ap (λ o. (after, selected wide sql_lower o)) found in
      let whole =
        call
        ∙ ap (λ r. saved wide sql_lower c (after_first_save wide sql_lower now second c r)) first
        ∙ ap (saved wide sql_lower c) both in
      (
        u,
        ap (λ r. user_row placeholder.id r.0.users) whole ∙ found,
        inactive ∙ unfold cleaned in refl,
        provider ∙ unfold cleaned trim_space trim_left trim_right in refl,
        subject ∙ unfold cleaned trim_space trim_left trim_right in refl,
        ap (λ r. r.1) whole ∙ with_user_inactive c u after (inactive ∙ unfold cleaned in refl),
      )
