-- ===== src/Query/RoundTrip.antt =====
-- A completion that `Complete` inserts is read back by `Parse` as the filter that it stands for.
use repo_karta.Common.Text.{Text, rune_limit, is_valid, cut, trim_space, join, byte_length}
use repo_karta.Common.{
  ℕ, ◌≡◌, ◌≢◌, refl, Bool, true, false, not, ◌&&◌, some, [], ◌∷◌, ◌++◌, arith, ◌==◌, ltb, all,
  all-append, append_assoc,
}
use repo_karta.Query.Complete.{signed}
use repo_karta.Query.Fields.{Field}
use repo_karta.Query.Parse.{
  Parts, Query, split_sign, push_filter, known_filter, field_of, keyed_token, parse_token,
  parse_valid, parse,
}
use repo_karta.Query.Quote.{escape, quote_completion_value}
use repo_karta.Query.Reading.{is_plain, tokenize-quote}
use repo_karta.Query.Token.{ok, is_space, tokenize}

-- A rune of a field's name.
abbrev pub is_key : ℕ → Bool
is_key c = is_plain c && not (c == b':')

-- What the proofs use of a field's name: two runes at least, all of them plain, and no sign.
pub record IsKey (c d : ℕ) (p : Text) : Type 0 where
  pub runes : all is_key (c ∷ d ∷ p) ≡ true
  pub not_minus : (c == b'-') ≡ false
  pub not_plus : (c == b'+') ≡ false

escape-valid : (v : Text) → is_valid v ≡ true → is_valid (escape v) ≡ true
unfolding escape is_valid
escape-valid [] h = refl
escape-valid (c ∷ v) h = ground (arith, escape-valid v)

quote-valid : (v : Text) → is_valid v ≡ true → is_valid (quote_completion_value v) ≡ true
unfolding quote_completion_value is_valid
quote-valid v h =
    ground (arith, all-append (λ c. ltb c rune_limit) (escape v) (b'"' ∷ []), escape-valid v)

key-plain : (s : Text) → all is_key s ≡ true → all is_plain s ≡ true
key-plain [] h = refl
key-plain (c ∷ s) h = ground (arith, key-plain s)

plain-valid : (s : Text) → all is_plain s ≡ true → is_valid s ≡ true
unfolding is_valid
plain-valid [] h = refl
plain-valid (c ∷ s) h = ground (arith, plain-valid s)

cut-key : (s v : Text) → all is_key s ≡ true → cut b':' (s ++ b':' ∷ v) ≡ (s, v, true)
unfolding cut
cut-key [] v h = refl
cut-key (c ∷ s) v h = ground (arith, cut-key s v)

split_sign-signed :
    (n : Bool) (c d : ℕ) (s : Text)
    → (c == b'-') ≡ false
    → (c == b'+') ≡ false
    → split_sign (signed n (c ∷ d ∷ s)) ≡ (n, c ∷ d ∷ s)
unfolding split_sign
split_sign-signed true c d s h k = refl
split_sign-signed false c d s h k = rw (h, k) refl

known_filter-some :
    (parts : Parts) (f : Field) (n : Bool) (v : Text)
    → v ≢ []
    → known_filter parts f n v ≡ ok (push_filter parts f v n)
unfolding known_filter
known_filter-some parts f n [] h = absurd (h refl)
known_filter-some parts f n (c ∷ v) h = refl

abbrev pub one_filter : Text → Field → Text → Bool → Query
one_filter raw f v n = record {
  raw = raw;
  text = [];
  filters = record { field = f; value = v; negative = n } ∷ [];
}

raw-valid :
    (c d : ℕ) (p v : Text) (n : Bool)
    → IsKey c d p
    → is_valid v ≡ true
    → is_valid (signed n (c ∷ d ∷ (p ++ b':' ∷ quote_completion_value v))) ≡ true
unfolding is_valid
raw-valid c d p v true k hv =
    all-append (λ c. ltb c rune_limit) (b'-' ∷ c ∷ d ∷ p) (b':' ∷ quote_completion_value v)
      (plain-valid (c ∷ d ∷ p) (key-plain (c ∷ d ∷ p) k.runes)) (quote-valid v hv)
raw-valid c d p v false k hv =
    all-append (λ c. ltb c rune_limit) (c ∷ d ∷ p) (b':' ∷ quote_completion_value v)
      (plain-valid (c ∷ d ∷ p) (key-plain (c ∷ d ∷ p) k.runes)) (quote-valid v hv)

-- The colon behind a name is plain too.
colon-plain : (s : Text) → all is_key s ≡ true → all is_plain (s ++ b':' ∷ []) ≡ true
unfolding is_space
colon-plain s h = all-append is_plain s (b':' ∷ []) (key-plain s h) refl

minus-plain : (s : Text) → all is_plain s ≡ true → all is_plain (b'-' ∷ s) ≡ true
unfolding is_space
minus-plain s h = h

tokenize-key :
    (c d : ℕ) (p v : Text) (n : Bool)
    → IsKey c d p
    → is_valid v ≡ true
    → let raw = signed n (c ∷ d ∷ (p ++ b':' ∷ quote_completion_value v)) in
      tokenize raw
      ≡ ok (
          record { value = signed n (c ∷ d ∷ (p ++ b':' ∷ v)); start = 0; stop = byte_length raw }
          ∷ [])
tokenize-key c d p v true k hv =
    rw (append_assoc p (b':' ∷ []) (quote_completion_value v), append_assoc p (b':' ∷ []) v) at
      (tokenize-quote b'-' (c ∷ d ∷ (p ++ b':' ∷ [])) v
        (minus-plain (c ∷ d ∷ (p ++ b':' ∷ [])) (colon-plain (c ∷ d ∷ p) k.runes)) hv)
tokenize-key c d p v false k hv =
    rw (append_assoc p (b':' ∷ []) (quote_completion_value v), append_assoc p (b':' ∷ []) v) at
      (tokenize-quote c (d ∷ (p ++ b':' ∷ [])) v (colon-plain (c ∷ d ∷ p) k.runes) hv)

module _ (wide : ℕ → ℕ) where
  parse-is_valid : (raw : Text) → is_valid raw ≡ true → parse wide raw ≡ parse_valid wide raw
  unfolding parse
  parse-is_valid raw h = rw h refl

  parse_token-key :
      (c d : ℕ) (p v : Text) (n : Bool) (f : Field) (parts : Parts)
      → IsKey c d p
      → field_of wide (c ∷ d ∷ p) ≡ some f
      → parse_token wide parts (signed n (c ∷ d ∷ (p ++ b':' ∷ v)))
        ≡ known_filter parts f n (trim_space v)
  unfolding parse_token
  parse_token-key c d p v n f parts k h =
      rw (split_sign-signed n c d (p ++ b':' ∷ v) k.not_minus k.not_plus)
        (rw (cut-key (c ∷ d ∷ p) v k.runes) (rw (h, keyed_token) refl))

  -- The query that is one completed filter.
  pub parse-key :
      (c d : ℕ) (p v : Text) (n : Bool) (f : Field)
      → IsKey c d p
      → field_of wide (c ∷ d ∷ p) ≡ some f
      → is_valid v ≡ true
      → trim_space v ≢ []
      → let raw = signed n (c ∷ d ∷ (p ++ b':' ∷ quote_completion_value v)) in
        parse wide raw ≡ ok (one_filter raw f (trim_space v) n)
  unfolding parse_valid trim_space join
  parse-key c d p v n f k h hv ne =
      let raw = signed n (c ∷ d ∷ (p ++ b':' ∷ quote_completion_value v)) in
      rw (parse-is_valid raw (raw-valid c d p v n k hv)) (
        rw (tokenize-key c d p v n k hv) (
          rw (parse_token-key c d p v n f _ k h)
            (rw (known_filter-some _ f n (trim_space v) ne) refl)))
