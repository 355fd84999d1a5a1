-- ===== src/Common/Text.antt =====
-- Go strings, and the functions of packages strings, unicode and unicode/utf8 that the program
-- calls. A string is the list of what `range` visits: the code points in order, and a byte `b`
-- that belongs to no valid encoding as the number 0x110000 + b. Every Go string has exactly one
-- such list, and slicing at a rune boundary is slicing the list.
use Prim.Native.Char.{code}
use Prim.Native.Nat.{ℕ, ◌-◌, ◌/◌, ◌%◌, ◌+◌}
use Prim.Native.String.{String}
use mathlib.Core.Bool.{Bool, true, false, ◌&&◌, ◌||◌}
use mathlib.Core.List.{List, [], ◌∷◌, ◌++◌}
use repo_karta.Common.Lists.{all}
use repo_karta.Common.Tests.{ltb, leb, ◌==◌, if◌then◌else◌}

abbrev pub Text : Type 0
Text = List ℕ

abbrev pub codes : String → Text
codes String.[] = []
codes (String.◌∷◌ c s) = code c ∷ codes s

-- one past the last code point
abbrev pub rune_limit : ℕ
rune_limit = 0x110000

abbrev pub rune_error : ℕ
rune_error = 0xfffd

-- The rune that `range` and `DecodeRuneInString` deliver.
unfoldable pub rune : ℕ → ℕ
rune c = if ltb c rune_limit then c else rune_error

-- The number of bytes that it takes in the string.
unfoldable pub width : ℕ → ℕ
width c =
    if ltb c 0x80
    then 1
    else if ltb c 0x800
    then 2
    else if ltb c 0x10000
    then 3
    else if ltb c rune_limit
    then 4
    else 1

unfoldable pub byte_length : Text → ℕ
byte_length [] = 0
byte_length (c ∷ s) = width c + byte_length s

unfoldable pub is_valid : Text → Bool
is_valid = all (λ c. ltb c rune_limit)

unfoldable pub text_eq : Text → Text → Bool
text_eq [] [] = true
text_eq (a ∷ s) (b ∷ t) = a == b && text_eq s t
text_eq _ _ = false

-- `strings.HasPrefix`, for a prefix with no byte of a broken encoding
unfoldable pub has_prefix : Text → Text → Bool
has_prefix s [] = true
has_prefix [] (c ∷ p) = false
has_prefix (a ∷ s) (c ∷ p) = a == c && has_prefix s p

-- `strings.TrimPrefix`, for a prefix of one byte
unfoldable pub trim_prefix : ℕ → Text → Text
trim_prefix p [] = []
trim_prefix p (c ∷ s) = if c == p then s else c ∷ s

-- The bytes of one element of a text.
unfoldable pub encode : ℕ → List ℕ
encode c =
    if ltb c 0x80
    then c ∷ []
    else if ltb c 0x800
    then (0xc0 + c / 0x40) ∷ (0x80 + c % 0x40) ∷ []
    else if ltb c 0x10000
    then (0xe0 + c / 0x1000) ∷ (0x80 + c / 0x40 % 0x40) ∷ (0x80 + c % 0x40) ∷ []
    else if ltb c rune_limit
    then (0xf0 + c / 0x40000)
      ∷ (0x80 + c / 0x1000 % 0x40)
      ∷ (0x80 + c / 0x40 % 0x40)
      ∷ (0x80 + c % 0x40)
      ∷ []
    else (c - rune_limit) ∷ []

unfoldable pub bytes : Text → List ℕ
unfolding encode
bytes [] = []
bytes (c ∷ s) = encode c ++ bytes s

unfoldable pub bytes_lt : List ℕ → List ℕ → Bool
bytes_lt s [] = false
bytes_lt [] (b ∷ t) = true
bytes_lt (a ∷ s) (b ∷ t) = ltb a b || (a == b && bytes_lt s t)

-- `<` on strings compares their bytes.
unfoldable pub text_lt : Text → Text → Bool
unfolding bytes bytes_lt
text_lt s t = bytes_lt (bytes s) (bytes t)

-- `strings.Cut` at a byte: what stands before, behind, and whether it was found.
unfoldable pub cut : ℕ → Text → Text × Text × Bool
cut sep [] = ([], [], false)
cut sep (c ∷ s) =
    let (before, after, found) = cut sep s in
    if c == sep then ([], s, true) else (c ∷ before, after, found)

-- `strings.Split` at a byte: there is always a last piece.
unfoldable pub cons_head : ℕ → List Text → List Text
cons_head c [] = (c ∷ []) ∷ []
cons_head c (l ∷ ls) = (c ∷ l) ∷ ls

unfoldable pub split : ℕ → Text → List Text
unfolding cons_head
split sep [] = [] ∷ []
split sep (c ∷ s) = let rest = split sep s in if c == sep then [] ∷ rest else cons_head c rest

-- `unicode.IsSpace`
unfoldable pub is_white : ℕ → Bool
is_white c =
    (leb 9 c && leb c 13)
    || c == 0x20
    || c == 0x85
    || c == 0xa0
    || c == 0x1680
    || (leb 0x2000 c && leb c 0x200a)
    || c == 0x2028
    || c == 0x2029
    || c == 0x202f
    || c == 0x205f
    || c == 0x3000

unfoldable pub trim_left : Text → Text
unfolding is_white
trim_left [] = []
trim_left (c ∷ s) = if is_white c then trim_left s else c ∷ s

-- `c` in front of a text whose white space at the end is gone.
unfoldable pub cons_right : ℕ → Text → Text
unfolding is_white
cons_right c [] = if is_white c then [] else c ∷ []
cons_right c (d ∷ s) = c ∷ d ∷ s

unfoldable pub trim_right : Text → Text
unfolding cons_right
trim_right [] = []
trim_right (c ∷ s) = cons_right c (trim_right s)

-- `strings.TrimSpace`
unfoldable pub trim_space : Text → Text
unfolding trim_left trim_right
trim_space s = trim_right (trim_left s)

-- `strings.Join` of a list of strings with a separator
unfoldable pub join : Text → List Text → Text
join sep [] = []
join sep (s ∷ []) = s
join sep (s ∷ t ∷ rest) = s ++ (sep ++ join sep (t ∷ rest))

-- `strings.ToLower`; `wide` is the table of `unicode.ToLower` from code point 0x80 on.
module _ (wide : ℕ → ℕ) where
  unfoldable pub lower_rune : ℕ → ℕ
  unfolding rune
  lower_rune c =
      if leb b'A' c && leb c b'Z' then c + 32 else if ltb c 0x80 then c else wide (rune c)

  unfoldable pub to_lower : Text → Text
  unfolding lower_rune
  to_lower [] = []
  to_lower (c ∷ s) = lower_rune c ∷ to_lower s
