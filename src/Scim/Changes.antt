-- ===== src/Scim/Changes.antt =====
-- What a patch of a group leaves as it is, and what it changes.
use repo_karta.Common.Equal.{has_text, is_blank}
use repo_karta.Common.Text.{Text, codes, has_prefix, text_eq, to_lower, trim_space}
use repo_karta.Common.{
  ℕ, ◌≡◌, ◌∙◌, refl, ap, subst, Bool, true, false, ◌&&◌, ◌||◌, not, Option, none, some, List, [],
  ◌∷◌, arith, if◌then◌else◌, Bool-cases, inl, inr,
}
use repo_karta.Scim.Members.{
  add_members, append_unique, member_filter_value, member_values, removal,
}
use repo_karta.Scim.Paths.{Names, is_named, is_named-Names}
use repo_karta.Scim.Membership.{
  IsProper, append_unique-IsProper, has_text-append_unique, has_text-retain, member_values-IsProper,
  retain-IsProper,
}
use repo_karta.Scim.Patches.{
  Operation, Value, apply_group_patch, ask, carried, group_operation, is_removal, map_option,
  patch_group_role, patch_members, patch_string, ◌>>=◌,
}
use repo_karta.Scim.Resources.{Group}

-- A property of a result, where there is one.
abbrev pub IfSome : {A : Type 0} → (A → Type 0) → Option A → Type 0
IfSome P none = Unit
IfSome P (some a) = P a

pub IfSome-map :
    {A B : Type 0} (P : B → Type 0) (f : A → B) (o : Option A)
    → ((a : A) → P (f a))
    → IfSome P (map_option f o)
IfSome-map P f none h = tt
IfSome-map P f (some a) h = h a

pub IfSome-bind :
    {A B : Type 0} (Q : A → Type 0) (P : B → Type 0) (f : A → Option B) (o : Option A)
    → IfSome Q o
    → ((a : A) → Q a → IfSome P (f a))
    → IfSome P (o >>= f)
IfSome-bind Q P f none q h = tt
IfSome-bind Q P f (some a) q h = h a q

-- The rest of a chain of cases.
pub IfSome-if :
    {A : Type 0} (P : A → Type 0) (b : Bool) (x y : Option A)
    → IfSome P x
    → IfSome P y
    → IfSome P (if b then x else y)
IfSome-if P true x y h k = h
IfSome-if P false x y h k = k

-- Whether a text is one of those that an operation carries, without the white space around it.
abbrev pub carries : Text → List Text → Bool
carries s [] = false
carries s (m ∷ members) = text_eq s (trim_space m) || carries s members

twice : (a b : Bool) → (a && (a && b)) ≡ (a && b)
twice a b = ground arith

-- There is a group behind an operation, and it has a member or not.
abbrev pub Leaves : Option Group → Text → Bool → Type 0
Leaves o s b = (h : Group) × (o ≡ some h) × (has_text s h.members ≡ b)

-- The group is the same one, and its members are proper.
abbrev pub IsKept : Group → Group → Type 0
IsKept g h = IsProper h.members × (h.id ≡ g.id) × (h.created_at ≡ g.created_at)

module _ (wide : ℕ → ℕ) where
  patch_members-IsKept :
      (g : Group) (op path : Text) (members : List Text)
      → IsProper g.members
      → IfSome (IsKept g) (patch_members wide g op path members)
  unfolding patch_members
  patch_members-IsKept g op path members p =
      IfSome-if (IsKept g) (text_eq op (codes "replace")) _ _
        (member_values-IsProper members, refl, refl)
        (IfSome-if (IsKept g) (text_eq op (codes "add")) _ _
          (append_unique-IsProper g.members (member_values members) p, refl, refl)
          (IfSome-if (IsKept g) (is_removal wide op) _ _
            (retain-IsProper (removal path (member_values members)) g.members p, refl, refl) tt))

  patch_group_role-IsKept :
      (g : Group) (op : Text) (value : Value)
      → IsProper g.members
      → IfSome (IsKept g) (patch_group_role wide g op value)
  unfolding patch_group_role
  patch_group_role-IsKept g op value p =
      IfSome-if (IsKept g) (is_removal wide op) _ _ (p, refl, refl)
        (IfSome-map (IsKept g) _ (ask [] value.as_text) (λ _. (p, refl, refl)))

  group_operation-IsKept :
      (g : Group) (o : Operation)
      → IsProper g.members
      → IfSome (IsKept g) (group_operation wide g o)
  unfolding group_operation
  group_operation-IsKept g o p =
      let op = to_lower wide (trim_space o.op) in
      let path = to_lower wide (trim_space o.path) in
      IfSome-if (IsKept g) (text_eq path (codes "displayname")) _ _
        (IfSome-map (IsKept g) _ (patch_string g.display_name op o.value) (λ _. (p, refl, refl)))
        (IfSome-if (IsKept g) (text_eq path (codes "externalid")) _ _
          (IfSome-map (IsKept g) _ (patch_string g.external_id op o.value) (λ _. (p, refl, refl)))
          (IfSome-if (IsKept g)
            (text_eq path (codes "urn:repokarta:params:scim:schemas:extension:2.0:group:role")) _ _
            (patch_group_role-IsKept g op o.value p)
            (IfSome-if (IsKept g) (has_prefix path (codes "members")) _ _
              (IfSome-bind (λ _. Unit {0}) (IsKept g) (patch_members wide g op path)
                (carried wide o.value) (any_members (carried wide o.value))
                (λ members _. patch_members-IsKept g op path members p))
              tt)))
    where
      any_members : (o : Option (List Text)) → IfSome (λ _. Unit {0}) o
      any_members none = tt
      any_members (some ms) = tt

  group_patch-IsKept :
      (g : Group) (os : List Operation)
      → IsProper g.members
      → IfSome (IsKept g) (apply_group_patch wide g os)
  unfolding apply_group_patch
  group_patch-IsKept g [] p = (p, refl, refl)
  group_patch-IsKept g (o ∷ os) p =
      IfSome-bind (IsKept g) (IsKept g) (λ h. apply_group_patch wide h os)
        (group_operation wide g o) (group_operation-IsKept g o p)
        (λ h k. onwards h k (apply_group_patch wide h os) (group_patch-IsKept h os k.0))
    where
      onwards :
          (h : Group) → IsKept g h → (r : Option Group) → IfSome (IsKept h) r → IfSome (IsKept g) r
      onwards h k none i = tt
      onwards h k (some i) j = (j.0, j.1 ∙ k.1, j.2 ∙ k.2)

  -- A group whose members are neither empty nor listed twice stays such a group under every patch that
  -- succeeds, and keeps its identifier and its time of creation.
  pub apply_group_patch-IsKept :
      (g h : Group) (os : List Operation)
      → IsProper g.members
      → apply_group_patch wide g os ≡ some h
      → IsKept g h
  apply_group_patch-IsKept g h os p e = subst (IfSome (IsKept g)) e (group_patch-IsKept g os p)

  has_text-removal :
      (s path : Text) (values : List Text)
      → has_text s (removal path values) ≡ (
          has_text s values
          || (not (is_blank (member_filter_value path)) && text_eq s (member_filter_value path)))
  unfolding removal has_text
  has_text-removal s path values = elim (Bool-cases (is_blank (member_filter_value path))) [
    | inl e ↦ rw e (ground arith)
    | inr e ↦ rw e (ground arith)
  ]

  blank_differs : (s t : Text) → is_blank t ≡ true → (not (is_blank s) && text_eq s t) ≡ false
  unfolding text_eq
  blank_differs [] t h = refl
  blank_differs (c ∷ s) [] h = refl
  blank_differs (c ∷ s) (d ∷ t) h = absurd cc

  has_text-add_members :
      (s : Text) (values members : List Text)
      → has_text s (add_members values members)
        ≡ (has_text s values || (not (is_blank s) && carries s members))
  unfolding add_members
  has_text-add_members s values [] = ground arith
  has_text-add_members s values (m ∷ members) = elim (Bool-cases (is_blank (trim_space m))) [
    | inl e ↦
        let differs = blank_differs s (trim_space m) e in
        rw e (has_text-add_members s values members ∙ ground (arith, differs))
    | inr e ↦
        let more = has_text-append_unique s values (trim_space m ∷ []) in
        let one : has_text s (trim_space m ∷ []) ≡ (text_eq s (trim_space m) || false) =
          unfold has_text in refl in
        rw e (
          has_text-add_members s (append_unique values (trim_space m ∷ [])) members
          ∙ ground (arith, more, one))
  ]

  has_text-member_values :
      (s : Text) (members : List Text)
      → has_text s (member_values members) ≡ (not (is_blank s) && carries s members)
  unfolding member_values
  has_text-member_values s members = has_text-add_members s [] members ∙ unfold has_text in refl

  -- Whom an operation on the members leaves in a group: behind "replace" those that it carries, without
  -- white space around them and if not empty, behind "add" these and the old ones, and behind "remove"
  -- the old ones but for these and for the one that the path names. The path has no quotation mark and names nobody, or it has
  -- `value eq "`, what it names, and another quotation mark, with no v in front.
  pub patch_members-has :
      (g : Group) (path : Text) (members : List Text) (s : Text) (named : Option Text)
      → Names path named
      → let carried = not (is_blank s) && carries s members in
        Leaves (patch_members wide g (codes "replace") path members) s carried
        × Leaves
            (patch_members wide g (codes "add") path members)
            s
            (has_text s g.members || carried)
        × Leaves
            (patch_members wide g (codes "remove") path members)
            s
            (has_text s g.members && not (carried || is_named s named))
  unfolding patch_members is_removal text_eq
  patch_members-has g path members s named n = (
    (_, refl, has_text-member_values s members),
    (
      _,
      refl,
      has_text-append_unique s g.members (member_values members)
          ∙ ap (λ b. has_text s g.members || (not (is_blank s) && b))
              (has_text-member_values s members)
          ∙ ap (λ b. has_text s g.members || b) (twice (not (is_blank s)) (carries s members)),
    ),
    (
      _,
      refl,
      has_text-retain s (removal path (member_values members)) g.members
          ∙ ap (λ b. has_text s g.members && not b)
              (has_text-removal s path (member_values members)
                ∙ ap (λ b. has_text s (member_values members) || b) (is_named-Names s path named n)
                ∙ ap (λ b. b || is_named s named) (has_text-member_values s members)),
    ),
  )
