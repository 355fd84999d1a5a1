-- ===== src/Owners/Matches.antt =====
-- `codeownersPatternMatches` as a whole: which patterns match which paths.
use repo_karta.Common.Equal.{is_blank}
use repo_karta.Common.Text.{Text, has_prefix, trim_prefix, trim_space}
use repo_karta.Common.{Bool, true, false, ◌||◌, List, [], ◌∷◌, any, ◌≡◌, ◌⊎◌}
use repo_karta.Owners.Globs.{Behind, Fits}
use repo_karta.Owners.Spelled.{Spells}
use repo_karta.Owners.Patterns.{Piece, has_suffix, is_bracket, is_slash, replace_pair, trim_suffix}

-- Where a pattern may begin in a path: at its start, and else behind any slash, if the pattern
-- has no slash in front or within.
abbrev pub Placed : Bool → Bool → List Piece → Text → Type 0
Placed true directory ps s = Fits directory ps s
Placed false directory ps s = Fits directory ps s ⊎ Behind directory ps s

-- The pattern without white space around it, and without the slash in front.
abbrev pub trimmed : Text → Text
trimmed pattern = trim_space (replace_pair 92 32 32 pattern)

abbrev pub inner : Text → Text
inner pattern = trim_prefix b'/' (trimmed pattern)

abbrev pub is_unusable : Text → Bool
is_unusable t = is_blank t || has_prefix t (b'!' ∷ []) || any is_bracket t

-- A pattern that can be used, written with pieces that can be placed in the path.
abbrev pub Describes : Text → Text → Type 0
Describes pattern s =
    (ps : List Piece) × (is_unusable (trimmed pattern) ≡ false)
    × (is_blank (trim_suffix b'/' (inner pattern)) ≡ false)
    × Spells ps (trim_suffix b'/' (inner pattern))
    × Placed
        (has_prefix (trimmed pattern) (b'/' ∷ [])
          || any is_slash (trim_suffix b'/' (inner pattern)))
        (has_suffix b'/' (inner pattern)) ps s
