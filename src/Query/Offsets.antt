-- ===== src/Query/Offsets.antt =====
-- Offsets of the caret (internal/querylang/complete.go): UTF-16 positions are read back, and on a
-- valid query no slice is out of range.

use repo_karta.Common.Slices.{length-drop}
use repo_karta.Common.Text.{Text, rune, rune_limit, width, encode, byte_length, is_valid}
use repo_karta.Common.{
  ℕ, ◌+◌, ◌≤◌, ◌<◌, ◌≡◌, refl, Bool, true, false, not, ◌&&◌, some, List, [], ◌∷◌, ◌++◌, arith,
  Bool-cases, if_rule, &&_true, inl, inr, ltb, leb, length, drop, ◌-◌,
}
use repo_karta.Query.Caret.{
  units, rune_len, offset_from, byte_offset_for_utf16, utf16_length, token_start, quote_after,
  start_after, active_token_bounds, slice_bytes, token_end, broken, drop_bytes, take_bytes,
}
use repo_karta.Query.Complete.{Completion, complete}
use repo_karta.Query.Token.{is_space}
use repo_karta.Query.Values.{CompletionOptions}

valid_width : (c : ℕ) → ltb c rune_limit ≡ true → rune_len c ≡ width c
unfolding rune_len
valid_width c h = ground arith

units_pos : (c : ℕ) → 0 < units c
unfolding units
units_pos c = ground arith

offset_from-prefix :
    (c : ℕ) (p rest : Text) (limit used offset : ℕ)
    → is_valid (c ∷ p) ≡ true
    → limit ≡ used + utf16_length (c ∷ p)
    → offset_from limit used offset (c ∷ (p ++ rest)) ≡ offset + byte_length (c ∷ p)
unfolding offset_from utf16_length byte_length is_valid
offset_from-prefix c [] rest limit used offset v e = ground (arith, valid_width c)
offset_from-prefix c (d ∷ p) rest limit used offset v e =
    ground
      (arith, units_pos d, offset_from-prefix d p rest limit (used + units c) (offset + width c))

-- The UTF-16 length of the text before the caret is turned into its length in bytes.
pub byte_offset-utf16_length :
    (p rest : Text)
    → is_valid p ≡ true
    → byte_offset_for_utf16 (p ++ rest) (utf16_length p) ≡ byte_length p
unfolding byte_offset_for_utf16 utf16_length byte_length
byte_offset-utf16_length [] rest v = refl
byte_offset-utf16_length (c ∷ p) rest v =
    ground (arith, units_pos c, offset_from-prefix c p rest (units c + utf16_length p) 0 0)

offset_from-le :
    (limit used offset : ℕ) (s : Text)
    → is_valid s ≡ true
    → offset_from limit used offset s ≤ offset + byte_length s
unfolding offset_from byte_length is_valid
offset_from-le limit used offset [] v = omega arith
offset_from-le limit used offset (c ∷ s) v =
    ground (arith, valid_width c, offset_from-le limit (used + units c) (offset + width c) s)

space_width : (c : ℕ) → is_space (rune c) ≡ true → width c ≡ 1
unfolding is_space rune width
space_width c h = ground arith

start_after-le :
    (start offset cursor c : ℕ) (quoted : Bool)
    → start ≤ cursor
    → offset < cursor
    → start_after start quoted (rune c) (offset + width c) ≤ cursor
start_after-le start offset cursor c quoted h k =
    if_rule (λ n. n ≤ cursor) (not quoted && is_space (rune c)) _ _
      (λ e. omega (arith, space_width c (&&_true (not quoted) (is_space (rune c)) e).1)) (λ _. h)

-- The token starts no later than the caret.
token_start-le :
    (cursor : ℕ) (s : Text) (start offset : ℕ) (quoted : Bool)
    → start ≤ cursor
    → (token_start start offset quoted cursor s).0 ≤ cursor
unfolding token_start
token_start-le cursor [] start offset quoted h = h
token_start-le cursor (c ∷ s) start offset quoted h =
    let quoted' = quote_after quoted (rune c) in
    let start' = start_after start quoted' (rune c) (offset + width c) in
    if_rule (λ (r : ℕ × Bool). r.0 ≤ cursor) (ltb offset cursor) _ _
      (λ more.
        token_start-le cursor s start' (offset + width c) quoted'
          (start_after-le start offset cursor c quoted' h (ground arith)))
      (λ _. h)

byte_offset-le :
    (raw : Text) (cursor : ℕ)
    → is_valid raw ≡ true
    → byte_offset_for_utf16 raw cursor ≤ byte_length raw
unfolding byte_offset_for_utf16
byte_offset-le raw cursor v = ground (arith, offset_from-le cursor 0 0 raw)

active_start-le :
    (raw : Text) (cursor : ℕ)
    → cursor ≤ byte_length raw
    → (active_token_bounds raw cursor).0 ≤ cursor
unfolding active_token_bounds
active_start-le raw cursor h = elim (Bool-cases (ltb (byte_length raw) cursor)) [
  | inl past ↦ absurd (ground arith)
  | inr inside ↦ rw inside (token_start-le cursor raw 0 0 false (omega arith))
]

slice-some :
    (from to : ℕ) (value : Text)
    → from ≤ to
    → to ≤ byte_length value
    → (s : Text) × (slice_bytes from to value ≡ some s)
unfolding slice_bytes
slice-some from to value h k = (drop_bytes from (take_bytes to value), ground arith)

encode-length : (c : ℕ) → length (encode c) ≡ width c
unfolding encode width
encode-length c = ground arith

broken_width : (b : ℕ) → width (rune_limit + b) ≡ 1
unfolding width
broken_width b = ground arith

byte_length-broken :
    (bs : List ℕ) (s : Text) → byte_length (broken bs ++ s) ≡ length bs + byte_length s
unfolding byte_length
byte_length-broken [] s = omega arith
byte_length-broken (b ∷ bs) s = rw (broken_width b, byte_length-broken bs s) (omega arith)

-- What is left behind a cut.
byte_length-drop_bytes : (n : ℕ) (s : Text) → byte_length (drop_bytes n s) ≤ byte_length s - n
unfolding drop_bytes byte_length
byte_length-drop_bytes n [] = omega arith
byte_length-drop_bytes n (c ∷ s) =
    let P = λ (t : Text). byte_length t ≤ width c + byte_length s - n in
    if_rule P (leb n 0) _ _ (λ h. ground arith)
      (λ h.
        if_rule P (leb (width c) n) _ _
          (λ k. ground (arith, byte_length-drop_bytes (n - width c) s))
          (λ k. ground (
            arith,
            byte_length-broken (drop n (encode c)) s,
            length-drop n (encode c),
            encode-length c,
          )))

token_end-le :
    (offset : ℕ) (quoted : Bool) (s : Text) → token_end offset quoted s ≤ offset + byte_length s
unfolding token_end byte_length
token_end-le offset quoted [] = omega arith
token_end-le offset quoted (c ∷ s) =
    let quoted' = quote_after quoted (rune c) in
    if_rule (λ n. n ≤ offset + (width c + byte_length s)) (not quoted' && is_space (rune c)) _ _
      (λ h. omega arith) (λ h. omega (arith, token_end-le (offset + width c) quoted' s))

active_end-le :
    (raw : Text) (cursor : ℕ)
    → cursor ≤ byte_length raw
    → (active_token_bounds raw cursor).1 ≤ byte_length raw
unfolding active_token_bounds
active_end-le raw cursor h = elim (Bool-cases (ltb (byte_length raw) cursor)) [
  | inl past ↦ absurd (ground arith)
  | inr inside ↦
      let quoted = (token_start 0 0 false cursor raw).1 in
      rw inside (
        omega (
          arith,
          h,
          token_end-le cursor quoted (drop_bytes cursor raw),
          byte_length-drop_bytes cursor raw,
        ))
]

-- On a valid query `Complete` returns at every caret: none of its three slices is out of range.
pub complete-some :
    (wide : ℕ → ℕ) (raw : Text) (cursor : ℕ) (dynamic : CompletionOptions)
    → is_valid raw ≡ true
    → (cs : List Completion) × (complete wide raw cursor dynamic ≡ some cs)
unfolding complete
complete-some wide raw cursor dynamic v =
    let at = byte_offset_for_utf16 raw cursor in
    let inside = byte_offset-le raw cursor v in
    let start = (active_token_bounds raw at).0 in
    let stop = (active_token_bounds raw at).1 in
    let early = active_start-le raw at inside in
    let (s, e) = slice-some start at raw early inside in
    let (b, f) = slice-some 0 start raw (omega arith) (omega (arith, early, inside)) in
    let (u, g) = slice-some 0 stop raw (omega arith) (active_end-le raw at inside) in
    rw (e, f, g) (_, refl)
