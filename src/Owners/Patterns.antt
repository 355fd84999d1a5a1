-- ===== src/Owners/Patterns.antt =====
-- `codeownersPatternMatches` of internal/graph/codeowners.go. The regular expression that it
-- writes is modelled by its pieces, and package regexp by what the pieces match. A byte that is
-- not ASCII is quoted alone, which is no valid UTF-8, so that the expression does not compile. The
-- bounds that package regexp puts on the size of an expression are left out.
use repo_karta.Common.Equal.{is_blank}
use repo_karta.Common.Text.{Text, has_prefix, trim_prefix, trim_space}
use repo_karta.Common.{
  ℕ, Bool, true, false, ◌&&◌, ◌||◌, not, Option, none, some, List, [], ◌∷◌, any, ltb, ◌==◌,
  if◌then◌else◌,
}

-- `strings.ReplaceAll` of two bytes by one
unfoldable pub replace_pair : ℕ → ℕ → ℕ → Text → Text
replace_pair a b new [] = []
replace_pair a b new (c ∷ []) = c ∷ []
replace_pair a b new (c ∷ d ∷ s) = elim (c == a && d == b) [
  | true ↦ new ∷ replace_pair a b new s
  | false ↦ c ∷ replace_pair a b new (d ∷ s)
]

-- `strings.HasSuffix`, for a suffix of one byte
unfoldable pub has_suffix : ℕ → Text → Bool
has_suffix p [] = false
has_suffix p (c ∷ []) = c == p
has_suffix p (c ∷ d ∷ s) = has_suffix p (d ∷ s)

-- `strings.TrimSuffix`, for a suffix of one byte
unfoldable pub trim_suffix : ℕ → Text → Text
trim_suffix p [] = []
trim_suffix p (c ∷ []) = if c == p then [] else c ∷ []
trim_suffix p (c ∷ d ∷ s) = c ∷ trim_suffix p (d ∷ s)

-- `.*`, `[^/]*`, `[^/]`, and a quoted byte
pub data Piece : Type 0 where
  any_run segment_run one : Piece
  literal : ℕ → Piece

unfoldable pub piece_of : ℕ → Option Piece
piece_of c =
    if c == b'*'
    then some segment_run
    else if c == b'?'
    then some one
    else if ltb c 0x80
    then some (literal c)
    else none

unfoldable pub cons_piece : Option Piece → Option (List Piece) → Option (List Piece)
cons_piece (some p) (some ps) = some (p ∷ ps)
cons_piece _ _ = none

-- The loop that writes the expression, none where it does not compile.
unfoldable pub pieces : Text → Option (List Piece)
unfolding piece_of cons_piece
pieces [] = some []
pieces (c ∷ []) = cons_piece (piece_of c) (some [])
pieces (c ∷ d ∷ s) = elim (c == b'*' && d == b'*') [
  | true ↦ cons_piece (some any_run) (pieces s)
  | false ↦ cons_piece (piece_of c) (pieces (d ∷ s))
]

abbrev pub is_slash : ℕ → Bool
is_slash c = c == b'/'

-- `.` matches all but a line feed.
abbrev pub is_line_feed : ℕ → Bool
is_line_feed c = c == 10

-- The end of the expression: `$`, or `(?:/.*)?$` for a directory.
unfoldable pub fits_end : Bool → Text → Bool
fits_end directory [] = true
fits_end directory (c ∷ s) = directory && (is_slash c && not (any is_line_feed s))

-- Whether the rest of the expression matches a text from its first byte on.
unfoldable pub fits : Bool → List Piece → Text → Bool
unfolding fits_end
fits directory [] s = fits_end directory s
fits directory (literal c ∷ ps) [] = false
fits directory (literal c ∷ ps) (d ∷ s) = elim (d == c) [
  | true ↦ fits directory ps s
  | false ↦ false
]
fits directory (one ∷ ps) [] = false
fits directory (one ∷ ps) (d ∷ s) = elim (is_slash d) [ true ↦ false | false ↦ fits directory ps s ]
fits directory (segment_run ∷ ps) [] = fits directory ps []
fits directory (segment_run ∷ ps) (d ∷ s) = elim (is_slash d) [
  | true ↦ fits directory ps (d ∷ s)
  | false ↦ fits directory ps (d ∷ s) || fits directory (segment_run ∷ ps) s
]
fits directory (any_run ∷ ps) [] = fits directory ps []
fits directory (any_run ∷ ps) (d ∷ s) = elim (is_line_feed d) [
  | true ↦ fits directory ps (d ∷ s)
  | false ↦ fits directory ps (d ∷ s) || fits directory (any_run ∷ ps) s
]

-- The search for `(?:^|.*/)` in front of the pieces, behind the first byte.
unfoldable pub fits_behind : Bool → List Piece → Text → Bool
unfolding fits
fits_behind directory ps [] = false
fits_behind directory ps (c ∷ s) = (is_slash c && fits directory ps s) || fits_behind directory ps s

-- `MatchString`; the pieces stand behind `^` or behind `(?:^|.*/)`.
unfoldable pub match_string : Bool → Bool → Option (List Piece) → Text → Bool
unfolding fits fits_behind
match_string from_start directory none s = false
match_string true directory (some ps) s = fits directory ps s
match_string false directory (some ps) s = fits directory ps s || fits_behind directory ps s

-- What follows the test of the trimmed pattern.
unfoldable pub match_body : Bool → Text → Text → Bool
unfolding has_suffix trim_suffix match_string pieces
match_body anchored pattern file_path =
    let body = trim_suffix b'/' pattern in
    if is_blank body
    then false
    else match_string (anchored || any is_slash body) (has_suffix b'/' pattern) (pieces body)
        file_path

abbrev pub is_bracket : ℕ → Bool
is_bracket c = c == b'[' || c == b']'

unfoldable pub codeowners_pattern_matches : Text → Text → Bool
unfolding replace_pair match_body has_prefix trim_prefix
codeowners_pattern_matches pattern file_path =
    let trimmed = trim_space (replace_pair 92 32 32 pattern) in
    if is_blank trimmed || has_prefix trimmed (b'!' ∷ []) || any is_bracket trimmed
    then false
    else match_body (has_prefix trimmed (b'/' ∷ [])) (trim_prefix b'/' trimmed) file_path
