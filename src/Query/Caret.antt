-- ===== src/Query/Caret.antt =====
-- Positions in a query (internal/querylang/complete.go): UTF-16 offsets, and the token at the caret.
use repo_karta.Common.Text.{Text, rune, width, byte_length, encode, rune_limit}
use repo_karta.Common.{
  ℕ, ◌+◌, ◌-◌, Bool, false, not, ◌&&◌, ◌||◌, take, drop, Option, none, some, List, [], ◌∷◌, ◌++◌,
  ◌==◌, ltb, leb, if◌then◌else◌,
}
use mathlib.Core.List.{map}
use repo_karta.Query.Token.{is_space}

-- The number of UTF-16 units of a rune.
unfoldable pub units : ℕ → ℕ
unfolding rune
units c = if ltb 0xffff (rune c) then 2 else 1

-- The encoded length that `utf8.RuneLen` gives: 3 for the replacement rune of a broken byte.
unfoldable pub rune_len : ℕ → ℕ
unfolding rune width
rune_len c = width (rune c)

-- The loop of `byteOffsetForUTF16`, at byte `offset` with `used` units behind it.
unfoldable pub offset_from : ℕ → ℕ → ℕ → Text → ℕ
unfolding units rune_len
offset_from limit used offset [] = offset
offset_from limit used offset (c ∷ s) =
    let rest = offset_from limit (used + units c) (offset + width c) s in
    if ltb limit (used + units c)
    then offset
    else if used + units c == limit
    then offset + rune_len c
    else rest

-- `byteOffsetForUTF16`, for an offset that is not negative
unfoldable pub byte_offset_for_utf16 : Text → ℕ → ℕ
unfolding offset_from
byte_offset_for_utf16 value limit = if leb limit 0 then 0 else offset_from limit 0 0 value

-- `utf16Length`
unfoldable pub utf16_length : Text → ℕ
unfolding units
utf16_length [] = 0
utf16_length (c ∷ s) = units c + utf16_length s

-- `quoted` and `start` behind one rune of the loops below.
abbrev pub quote_after : Bool → ℕ → Bool
quote_after quoted r = if r == b'"' then not quoted else quoted

abbrev pub start_after : ℕ → Bool → ℕ → ℕ → ℕ
start_after start quoted r next = if not quoted && is_space r then next else start

-- The first loop of `activeTokenBounds`: where the token at `cursor` starts, and whether a quote
-- is open there.
unfoldable pub token_start : ℕ → ℕ → Bool → ℕ → Text → ℕ × Bool
unfolding is_space
token_start start offset quoted cursor [] = (start, quoted)
token_start start offset quoted cursor (c ∷ s) =
    let quoted' = quote_after quoted (rune c) in
    let start' = start_after start quoted' (rune c) (offset + width c) in
    let rest = token_start start' (offset + width c) quoted' cursor s in
    if ltb offset cursor then rest else (start, quoted)

-- The second loop: the first white space outside quotes from `offset` on.
unfoldable pub token_end : ℕ → Bool → Text → ℕ
unfolding is_space
token_end offset quoted [] = offset
token_end offset quoted (c ∷ s) =
    let quoted' = quote_after quoted (rune c) in
    let rest = token_end (offset + width c) quoted' s in
    if not quoted' && is_space (rune c) then offset else rest

-- Bytes of a rune that a slice has cut through: each is a broken byte of the new string.
abbrev pub broken : List ℕ → Text
broken = map (◌+◌ rune_limit)

-- `value[n:]` and `value[:n]`, for `n` not past the end
unfoldable pub drop_bytes : ℕ → Text → Text
unfolding width encode
drop_bytes n [] = []
drop_bytes n (c ∷ s) =
    let rest = drop_bytes (n - width c) s in
    if leb n 0 then c ∷ s else if leb (width c) n then rest else broken (drop n (encode c)) ++ s

unfoldable pub take_bytes : ℕ → Text → Text
unfolding width encode
take_bytes n [] = []
take_bytes n (c ∷ s) =
    let rest = c ∷ take_bytes (n - width c) s in
    if leb n 0 then [] else if leb (width c) n then rest else broken (take n (encode c))

-- `value[from:to]`; a slice past the end panics.
unfoldable pub slice_bytes : ℕ → ℕ → Text → Option Text
unfolding drop_bytes take_bytes byte_length
slice_bytes from to value =
    if ltb to from || ltb (byte_length value) to
    then none
    else some (drop_bytes from (take_bytes to value))

-- `activeTokenBounds`, for a cursor inside the text
unfoldable pub active_token_bounds : Text → ℕ → ℕ × ℕ
unfolding token_start token_end drop_bytes
active_token_bounds raw cursor =
    let at = (if ltb (byte_length raw) cursor then byte_length raw else cursor) in
    let (start, quoted) = token_start 0 0 false at raw in
    (start, token_end at quoted (drop_bytes at raw))
