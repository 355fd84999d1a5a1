-- ===== src/Query/Token.antt =====
-- `tokenize` of internal/querylang/query.go: words at white space, with quoting and escapes.
use repo_karta.Common.Text.{Text, rune, width}
use repo_karta.Common.{
  ℕ, zero, suc, ◌+◌, Bool, true, false, not, ◌&&◌, ◌||◌, List, [], ◌∷◌, ◌++◌, ◌==◌, if◌then◌else◌,
  length,
}
use repo_karta.Query.Fields.{Field}

-- The errors of `tokenize` and `Parse`. `out_of_fuel` belongs to the model only.
pub data Error : Type 0 where
  invalid_utf8 incomplete_escape unterminated_quote : Error
  missing_value : Field → Error
  missing_content : Error
  out_of_fuel : Error

pub data Result {ℓ} (A : Type ℓ) : Type ℓ where
  ok : A → Result A
  err : Error → Result A

infixl 5 ◌>>=◌
abbrev pub ◌>>=◌ {ℓ κ} : {A : Type ℓ} {B : Type κ} → Result A → (A → Result B) → Result B
ok a >>= f = f a
err e >>= f = err e

-- `token`; `end` is `stop` here.
pub record Token : Type 0 where
  pub value : Text
  pub start : ℕ
  pub stop : ℕ

-- `isSpace`
unfoldable pub is_space : ℕ → Bool
is_space r = r == b' ' || r == b'\t' || r == b'\r' || r == b'\n'

-- The first inner loop: past the white space, with the offset.
unfoldable pub skip_space : ℕ → Text → ℕ × Text
unfolding is_space
skip_space offset [] = (offset, [])
skip_space offset (c ∷ s) =
    let skipped = skip_space (offset + width c) s in
    if is_space (rune c) then skipped else (offset, c ∷ s)

-- What the second inner loop leaves: its variables, and the text from `offset` on.
pub record Reading : Type 0 where
  pub value : Text
  pub quoted : Bool
  pub escaped : Bool
  pub offset : ℕ
  pub rest : Text

-- The second inner loop, over `value`, `quoted`, `escaped` and `offset`.
unfoldable pub read_word : Text → Bool → Bool → ℕ → Text → Reading
unfolding is_space
read_word value quoted escaped offset [] = record {
  value = value;
  quoted = quoted;
  escaped = escaped;
  offset = offset;
  rest = [];
}
read_word value quoted escaped offset (c ∷ s) =
    let r = rune c in
    let next = offset + width c in
    let append = read_word (value ++ r ∷ []) quoted false next s in
    let escape = read_word value quoted true next s in
    let toggle = read_word value (not quoted) false next s in
    if escaped
    then append
    else if r == b'\\' && quoted
    then escape
    else if r == b'"'
    then toggle
    else if not quoted && is_space r
    then record { value = value; quoted = quoted; escaped = escaped; offset = offset; rest = c ∷ s }
    else append

-- `if value.Len() > 0 { output = append(output, token{…}) }`
abbrev pub keep_word : List Token → ℕ → Reading → List Token
keep_word output start r = elim r.value [
  | [] ↦ output
  | _ ∷ _ ↦ output ++ record { value = r.value; start = start; stop = r.offset } ∷ []
]

-- What the outer loop does behind its inner loops; `more` makes its next rounds.
unfoldable pub after_word :
    (List Token → ℕ → Text → Result (List Token)) → List Token → ℕ → Reading → Result (List Token)
after_word more output start r =
    if r.escaped
    then err incomplete_escape
    else if r.quoted
    then err unterminated_quote
    else more (keep_word output start r) r.offset r.rest

unfoldable pub word_at :
    (List Token → ℕ → Text → Result (List Token)) → List Token → ℕ × Text → Result (List Token)
unfolding after_word
word_at more output (start, []) = ok output
word_at more output (start, c ∷ s) =
    after_word more output start (read_word [] false false start (c ∷ s))

-- The outer loop.
unfoldable pub words : ℕ → List Token → ℕ → Text → Result (List Token)
unfolding word_at
words zero output offset s = err out_of_fuel
words (suc fuel) output offset s = word_at (words fuel) output (skip_space offset s)

-- `tokenize`. Every round but the last reads at least one rune.
unfoldable pub tokenize : Text → Result (List Token)
unfolding words
tokenize raw = words (suc (length raw)) [] 0 raw
