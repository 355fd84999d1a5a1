-- ===== src/Filters/Ids.antt =====
-- Sets of repository identifiers in internal/codeintel/query_language.go.
use repo_karta.Common.Text.{Text}
use repo_karta.Common.{
  ℕ, Bool, true, false, not, List, [], ◌∷◌, ◌++◌, any, select, ◌==◌, if◌then◌else◌,
}

-- Whether `idSet` holds an identifier.
abbrev pub in_set : ℕ → List ℕ → Bool
in_set x ids = any (λ y. x == y) ids

abbrev pub is_nil {ℓ} : {A : Type ℓ} → List A → Bool
is_nil [] = true
is_nil (_ ∷ _) = false

-- The loops of `unionIDs`, over what was seen.
unfoldable pub union_from : List ℕ → List ℕ → List ℕ
union_from seen [] = []
union_from seen (x ∷ xs) =
    let skip = union_from seen xs in
    let keep = x ∷ union_from (x ∷ seen) xs in if in_set x seen then skip else keep

unfoldable pub concat : List (List ℕ) → List ℕ
concat [] = []
concat (g ∷ groups) = g ++ concat groups

-- `unionIDs`
unfoldable pub union_ids : List (List ℕ) → List ℕ
union_ids groups = union_from [] (concat groups)

-- `intersectOptionalIDs`
unfoldable pub intersect_optional_ids : List ℕ → List ℕ → List ℕ
intersect_optional_ids left right =
    if is_nil left then right else if is_nil right then left else select (λ x. in_set x right) left

-- `accept` of `applyQueryRepositoryFilters`
unfoldable pub accept : List ℕ → List ℕ → Bool → ℕ → Bool
accept denied allowed allowed_active x =
    if in_set x denied then false else if not allowed_active then true else in_set x allowed

-- `search.Scope`
pub record Scope : Type 0 where
  pub repository_id : ℕ
  pub repository : Text
  pub kind : Text
  pub path : Text
  pub symbol : Text
  pub start_line : ℕ
  pub end_line : ℕ

-- `applyQueryRepositoryFilters`
unfoldable pub apply_query_repository_filters :
    List ℕ → List Scope → List ℕ → Bool → List ℕ → List ℕ × List Scope × Bool
apply_query_repository_filters base (s ∷ scopes) allowed allowed_active denied =
    let filtered =
      select (λ t. accept denied allowed allowed_active t.repository_id) (s ∷ scopes) in
    (base, filtered, is_nil filtered)
apply_query_repository_filters (b ∷ base) [] allowed allowed_active denied =
    let filtered = select (accept denied allowed allowed_active) (b ∷ base) in
    (filtered, [], is_nil filtered)
apply_query_repository_filters [] [] allowed allowed_active denied =
    let filtered = select (accept denied allowed allowed_active) allowed in
    if allowed_active then (filtered, [], is_nil filtered) else ([], [], false)
