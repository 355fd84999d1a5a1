-- ===== src/Filters/Sets.antt =====
-- What the sets of repository identifiers hold (internal/codeintel/query_language.go).
use repo_karta.Common.{
  ℕ, ◌≡◌, ◌∙◌, refl, ap, Bool, true, false, ◌&&◌, ◌||◌, not, List, [], ◌∷◌, ◌++◌, arith, any,
  select, select_yes, select_no, ◌==◌, ==_iff, if◌then◌else◌, if_rule, Bool-cases, inl, inr,
}
use repo_karta.Filters.Ids.{
  Scope, accept, apply_query_repository_filters, concat, in_set, intersect_optional_ids, is_nil,
  union_from, union_ids,
}

pub in_set-append : (x : ℕ) (xs ys : List ℕ) → in_set x (xs ++ ys) ≡ (in_set x xs || in_set x ys)
in_set-append x [] ys = refl
in_set-append x (y ∷ xs) ys = ground (arith, in_set-append x xs ys)

same_test : (p : ℕ → Bool) (x y : ℕ) → (x == y) ≡ true → p x ≡ p y
same_test p x y e = ap p ((==_iff x y).0 e)

pub in_set-select :
    (p : ℕ → Bool) (x : ℕ) (l : List ℕ) → in_set x (select p l) ≡ (in_set x l && p x)
in_set-select p x [] = refl
in_set-select p x (y ∷ l) =
    let rest = in_set-select p x l in
    elim (Bool-cases (x == y)) [
      | inl same ↦
          let alike = same_test p x y same in
          elim (Bool-cases (p y)) [
            | inl kept ↦ rw (select_yes p y l kept, alike, kept, same) refl
            | inr out ↦ rw (select_no p y l out, rest, alike, out) (ground arith)
          ]
      | inr other ↦ elim (Bool-cases (p y)) [
        | inl kept ↦ rw (select_yes p y l kept, other) rest
        | inr out ↦ rw (select_no p y l out, other) rest
      ]
    ]

in_set-union_from :
    (x : ℕ) (seen l : List ℕ) → in_set x (union_from seen l) ≡ (in_set x l && not (in_set x seen))
unfolding union_from
in_set-union_from x seen [] = refl
in_set-union_from x seen (y ∷ l) =
    let skip = in_set-union_from x seen l in
    let keep = in_set-union_from x (y ∷ seen) l in
    let alike = same_test (λ z. in_set z seen) x y in
    elim (Bool-cases (in_set y seen)) [
      | inl old ↦ rw old (ground (arith, skip, alike))
      | inr new ↦ rw new (ground (arith, keep, alike))
    ]

in_set-concat : (x : ℕ) (groups : List (List ℕ)) → in_set x (concat groups) ≡ any (in_set x) groups
unfolding concat
in_set-concat x [] = refl
in_set-concat x (g ∷ groups) =
    in_set-append x g (concat groups) ∙ ap (λ b. in_set x g || b) (in_set-concat x groups)

-- A union holds what one of its groups holds.
pub in_set-union_ids :
    (x : ℕ) (groups : List (List ℕ)) → in_set x (union_ids groups) ≡ any (in_set x) groups
unfolding union_ids
in_set-union_ids x groups =
    let all_groups = in_set-concat x groups in
    let all_ids = in_set-union_from x [] (concat groups) in ground arith

-- No identifier stands in a list twice.
abbrev pub AllOnce : List ℕ → Type 0
AllOnce [] = Unit
AllOnce (x ∷ xs) = (in_set x xs ≡ false) × AllOnce xs

union_from-AllOnce : (seen l : List ℕ) → AllOnce (union_from seen l)
unfolding union_from
union_from-AllOnce seen [] = tt
union_from-AllOnce seen (x ∷ l) =
    if_rule AllOnce (in_set x seen) _ _ (λ _. union_from-AllOnce seen l)
      (λ _. (fresh, union_from-AllOnce (x ∷ seen) l))
  where
    fresh : in_set x (union_from (x ∷ seen) l) ≡ false
    fresh =
        let e = in_set-union_from x (x ∷ seen) l in let own = (==_iff x x).1 refl in ground arith

-- The union of identifier lists has each identifier of one of them, once, and no other.
union_ids-AllOnce :
    (groups : List (List ℕ))
    → AllOnce (union_ids groups) × ((x : ℕ) → in_set x (union_ids groups) ≡ any (in_set x) groups)
unfolding union_ids
union_ids-AllOnce groups = (union_from-AllOnce [] (concat groups), λ x. in_set-union_ids x groups)

-- An intersection where one side is empty is the other.
pub in_set-intersect :
    (x : ℕ) (left right : List ℕ)
    → in_set x (intersect_optional_ids left right) ≡ (
        (is_nil left && in_set x right)
        || (is_nil right && in_set x left)
        || (in_set x left && in_set x right))
unfolding intersect_optional_ids
in_set-intersect x [] right = ground arith
in_set-intersect x (l ∷ left) [] = ground arith
in_set-intersect x (l ∷ left) (r ∷ right) = in_set-select (λ y. in_set y (r ∷ right)) x (l ∷ left)

-- The base is cut down to what is accepted where no scopes are given, and the scopes where some are;
-- without either, what is allowed stands for the base; and the last result says that all is lost.
apply_query_repository_filters_lem :
    (base allowed denied : List ℕ) (scopes : List Scope) (active : Bool) (x : ℕ)
    → let accepted = accept denied allowed active in
      let (ids, kept, nothing) = apply_query_repository_filters base scopes allowed active denied in
      (in_set x ids ≡ (
        if not (is_nil scopes)
        then in_set x base
        else if not (is_nil base)
        then in_set x base && accepted x
        else active && in_set x allowed && accepted x))
      × (kept ≡ select (λ t. accepted t.repository_id) scopes)
      × (nothing ≡ (
          if not (is_nil scopes) then is_nil kept else (active || not (is_nil base)) && is_nil ids))
unfolding apply_query_repository_filters
apply_query_repository_filters_lem base allowed denied (s ∷ scopes) active x = (refl, refl, refl)
apply_query_repository_filters_lem (b ∷ base) allowed denied [] true x =
    (in_set-select (accept denied allowed true) x (b ∷ base), refl, refl)
apply_query_repository_filters_lem (b ∷ base) allowed denied [] false x =
    (in_set-select (accept denied allowed false) x (b ∷ base), refl, refl)
apply_query_repository_filters_lem [] allowed denied [] true x =
    (in_set-select (accept denied allowed true) x allowed, refl, refl)
apply_query_repository_filters_lem [] allowed denied [] false x = (refl, refl, refl)
