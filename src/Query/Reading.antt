-- ===== src/Query/Reading.antt =====
-- How the inner loop of `tokenize` reads plain text, and a quoted value.
use repo_karta.Common.Text.{Text, rune, rune_limit, width, byte_length, is_valid}
use repo_karta.Common.{
  ℕ, ◌+◌, ◌≡◌, refl, sym, ap, ◌∙◌, Bool, true, false, not, ◌&&◌, [], ◌∷◌, ◌++◌, arith, ◌==◌, ltb,
  all, all-append, append-nil, append_assoc, Bool-cases, &&_true, inl, inr,
}
use repo_karta.Query.Quote.{needs_quotes, escape_rune, escape, quote_completion_value}
use repo_karta.Query.Token.{Reading, ok, is_space, skip_space, read_word, words, tokenize}

-- A rune that `tokenize` copies outside quotes.
abbrev pub is_plain : ℕ → Bool
is_plain c = ltb c rune_limit && (not (is_space c) && not (c == b'"'))

pub rune-valid : (c : ℕ) → ltb c rune_limit ≡ true → rune c ≡ c
unfolding rune
rune-valid c h = rw h

byte_length-append : (s t : Text) → byte_length (s ++ t) ≡ byte_length s + byte_length t
unfolding byte_length
byte_length-append [] t = omega arith
byte_length-append (c ∷ s) t = omega (arith, byte_length-append s t)

read_plain :
    (c o : ℕ) (value t : Text)
    → is_plain c ≡ true
    → read_word value false false o (c ∷ t)
      ≡ read_word (value ++ c ∷ []) false false (o + width c) t
unfolding read_word
read_plain c o value t h = ground (arith, rune-valid c)

read_escape :
    (c o : ℕ) (value t : Text)
    → ltb c rune_limit ≡ true
    → read_word value true false o (escape_rune c ++ t)
      ≡ read_word (value ++ c ∷ []) true false (o + byte_length (escape_rune c)) t
unfolding read_word escape_rune byte_length width rune
read_escape c o value t h = ground arith

read_word-plain :
    (v rest value : Text) (o : ℕ)
    → all is_plain v ≡ true
    → read_word value false false o (v ++ rest)
      ≡ read_word (value ++ v) false false (o + byte_length v) rest
unfolding byte_length
read_word-plain [] rest value o h =
    rw append-nil (ap (λ k. read_word value false false k rest) (omega arith))
read_word-plain (c ∷ v) rest value o h =
    let (plain, others) = &&_true (is_plain c) (all is_plain v) h in
    read_plain c o value (v ++ rest) plain
    ∙ read_word-plain v rest (value ++ c ∷ []) (o + width c) others
    ∙ rw append_assoc (ap (λ k. read_word (value ++ c ∷ v) false false k rest) (omega arith))

read_word-escape :
    (v rest value : Text) (o : ℕ)
    → is_valid v ≡ true
    → read_word value true false o (escape v ++ rest)
      ≡ read_word (value ++ v) true false (o + byte_length (escape v)) rest
unfolding byte_length escape is_valid
read_word-escape [] rest value o h =
    rw append-nil (ap (λ k. read_word value true false k rest) (omega arith))
read_word-escape (c ∷ v) rest value o h =
    let (here, others) = &&_true (ltb c rune_limit) (is_valid v) h in
    rw (append_assoc) (
      read_escape c o value (escape v ++ rest) here
      ∙ read_word-escape v rest (value ++ c ∷ []) (o + byte_length (escape_rune c)) others
      ∙ rw append_assoc (
          ap (λ k. read_word (value ++ c ∷ v) true false k rest)
            (omega (arith, byte_length-append (escape_rune c) (escape v)))))

-- A value that needs no quotes is plain throughout.
plain_unless_quoted :
    (v : Text) → is_valid v ≡ true → needs_quotes v ≡ false → all is_plain v ≡ true
unfolding is_valid needs_quotes
plain_unless_quoted [] h k = refl
plain_unless_quoted (c ∷ v) h k = ground (arith, plain_unless_quoted v)

read-closing :
    (value : Text) (o : ℕ)
    → read_word value true false o (b'"' ∷ [])
      ≡ record { value = value; quoted = false; escaped = false; offset = o + 1; rest = [] }
unfolding read_word rune width
read-closing value o = refl

read-opening :
    (value t : Text) (o : ℕ)
    → read_word value false false o (b'"' ∷ t) ≡ read_word value true false (o + 1) t
unfolding read_word rune width
read-opening value t o = refl

abbrev whole : Text → ℕ → Reading
whole value o = record { value = value; quoted = false; escaped = false; offset = o; rest = [] }

read_word-all_plain :
    (v : Text) → all is_plain v ≡ true → read_word [] false false 0 v ≡ whole v (byte_length v)
unfolding read_word byte_length
read_word-all_plain v h =
    ap (read_word [] false false 0) (sym (append-nil v))
    ∙ read_word-plain v [] [] 0 h
    ∙ ap (whole v) (omega arith)

quoted_length :
    (p e : Text)
    → 0 + byte_length p + 1 + byte_length e + 1 ≡ byte_length (p ++ b'"' ∷ (e ++ b'"' ∷ []))
unfolding byte_length width
quoted_length p e =
    omega (arith, byte_length-append p (b'"' ∷ (e ++ b'"' ∷ [])), byte_length-append e (b'"' ∷ []))

-- The inner loop reads plain text and a quoted value behind it as one word.
read_word-quote :
    (p v : Text)
    → all is_plain p ≡ true
    → is_valid v ≡ true
    → read_word [] false false 0 (p ++ quote_completion_value v)
      ≡ whole (p ++ v) (byte_length (p ++ quote_completion_value v))
unfolding quote_completion_value
read_word-quote p v hp hv = elim (Bool-cases (needs_quotes v)) [
  | inl quotes ↦ rw quotes (
      read_word-plain p (b'"' ∷ (escape v ++ b'"' ∷ [])) [] 0 hp
      ∙ read-opening p _ _
      ∙ read_word-escape v (b'"' ∷ []) p _ hv
      ∙ read-closing (p ++ v) _
      ∙ ap (whole (p ++ v)) (quoted_length p (escape v)))
  | inr bare ↦
      rw bare
        (read_word-all_plain (p ++ v) (all-append is_plain p v hp (plain_unless_quoted v hv bare)))
]

skip_space-plain : (c o : ℕ) (s : Text) → is_plain c ≡ true → skip_space o (c ∷ s) ≡ (o, c ∷ s)
unfolding skip_space
skip_space-plain c o s h = ground (arith, rune-valid c)

skip_space-nil : (o : ℕ) → skip_space o [] ≡ (o, [])
unfolding skip_space
skip_space-nil o = refl

-- `tokenize` gives one word back: plain text, and a value that may be quoted behind it.
pub tokenize-quote :
    (c : ℕ) (p v : Text)
    → all is_plain (c ∷ p) ≡ true
    → is_valid v ≡ true
    → let raw = c ∷ (p ++ quote_completion_value v) in
      tokenize raw ≡ ok (record { value = c ∷ (p ++ v); start = 0; stop = byte_length raw } ∷ [])
unfolding tokenize words
tokenize-quote c p v hp hv =
    let first = &&_true (is_plain c) (all is_plain p) hp in
    rw (skip_space-plain c 0 (p ++ quote_completion_value v) first.0)
      (rw (read_word-quote (c ∷ p) v hp hv) (rw skip_space-nil refl))
