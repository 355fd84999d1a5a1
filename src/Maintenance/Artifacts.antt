-- ===== src/Maintenance/Artifacts.antt =====
-- What the names of files tell: `repositoryArtifactPattern`, `mapGroup` and `repositoryIDFromPath`
-- of internal/maintenance/maintenance.go.
use Prim.Native.Nat.{◌^◌}
use repo_karta.Common.Equal.{is_blank, split_text}
use repo_karta.Common.Text.{Text, codes, has_prefix, split, text_eq}
use repo_karta.Common.{
  ℕ, ◌+◌, ◌-◌, ◌*◌, Bool, true, false, ◌&&◌, ◌||◌, not, Option, none, some, List, [], ◌∷◌, ◌++◌,
  drop, ltb, leb, ◌==◌, if◌then◌else◌,
}

-- The digits in front of a text, and what follows.
unfoldable pub leading_digits : Text → Text × Text
leading_digits [] = ([], [])
leading_digits (c ∷ s) =
    let (digits, rest) = leading_digits s in
    if leb b'0' c && leb c b'9' then (c ∷ digits, rest) else ([], c ∷ s)

-- `(?:[._-]|$)`
abbrev pub is_boundary : Text → Bool
is_boundary [] = true
is_boundary (c ∷ s) = c == b'.' || c == b'_' || c == b'-'

unfoldable pub digits_match : Text × Text → Option Text
digits_match (digits, rest) =
    if not (is_blank digits) && is_boundary rest then some digits else none

-- The submatch of `repositoryArtifactPattern`
unfoldable pub repository_artifact : Text → Option Text
unfolding has_prefix digits_match leading_digits
repository_artifact name =
    if has_prefix name (codes "repository-")
    then digits_match (leading_digits (drop 11 name))
    else if has_prefix name (codes "repo-")
    then digits_match (leading_digits (drop 5 name))
    else none

-- `strconv.ParseInt(digits, 10, 64)`, whose error is ignored: beyond the range it is the last
-- number.
unfoldable pub value_of : ℕ → Text → ℕ
value_of n [] = n
value_of n (c ∷ s) = value_of (n * 10 + (c - b'0')) s

unfoldable pub parsed_id : Text → ℕ
unfolding value_of
parsed_id digits = let n = value_of 0 digits in if ltb n (2 ^ 63) then n else 2 ^ 63 - 1

unfoldable pub first_id : List Text → ℕ
unfolding repository_artifact parsed_id
first_id [] = 0
first_id (part ∷ parts) = elim (repository_artifact part) [
  | none ↦ first_id parts
  | some digits ↦ parsed_id digits
]

unfoldable pub repository_id_from_path : Text → ℕ
unfolding first_id split
repository_id_from_path relative = first_id (split b'/' relative)

-- `strings.Contains`
abbrev pub is_found : Option (Text × Text) → Bool
is_found none = false
is_found (some p) = true

abbrev pub contains : Text → Text → Bool
contains s pattern = is_found (split_text pattern s)

-- `strings.HasSuffix`
unfoldable pub ends_in : Text → Text → Bool
unfolding text_eq
ends_in s [] = true
ends_in [] (c ∷ p) = false
ends_in (a ∷ s) (c ∷ p) = text_eq (a ∷ s) (c ∷ p) || ends_in s (c ∷ p)

-- `mapGroup`
unfoldable pub map_group : Text → Text
unfolding repository_artifact has_prefix
map_group name = elim (repository_artifact name) [
  | some digits ↦ codes "repository-" ++ digits
  | none ↦ if has_prefix name (codes "all-") then codes "all" else name
]

-- The last component of a clean relative path
abbrev pub last_of : Text → List Text → Text
last_of p [] = p
last_of p (q ∷ ps) = last_of q ps

unfoldable pub base : Text → Text
unfolding split
base path = last_of [] (split b'/' path)
