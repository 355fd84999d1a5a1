-- ===== src/Query/Sound.antt =====
-- What a parsed query is like (internal/querylang/query.go).
use repo_karta.Common.Text.{Text, codes, is_valid, trim_space, byte_length, cut, join}
use repo_karta.Common.{
  ℕ, ◌≡◌, ◌≢◌, refl, Bool, true, false, none, some, List, [], ◌∷◌, All, All-append, Bool-cases, inl,
  inr,
}
use repo_karta.Query.Fields.{Field, content}
use repo_karta.Query.Parse.{
  Filter, Query, Parts, push_filter, split_sign, known_filter, unknown_filter, field_of,
  keyed_token, parse_token, parse_tokens, parse_valid, parse,
}
use repo_karta.Query.Token.{
  invalid_utf8, incomplete_escape, unterminated_quote, missing_content, out_of_fuel, Result, ok,
  err, ◌>>=◌, Token, tokenize,
}
use repo_karta.Query.Total.{Answer, tokenize-Answer}

-- A filter has a value; free text is never negated into a filter on another field.
abbrev pub HasValue : Filter → Type 0
HasValue f = f.value ≢ []

abbrev PartsAnswer : Result Parts → Type 0
PartsAnswer (ok parts) = All HasValue parts.filters
PartsAnswer (err out_of_fuel) = ⊥
PartsAnswer (err invalid_utf8) = ⊥
PartsAnswer (err _) = Unit

push_filter-HasValue :
    (parts : Parts) (f : Field) (c : ℕ) (v : Text) (n : Bool)
    → All HasValue parts.filters
    → All HasValue (push_filter parts f (c ∷ v) n).filters
push_filter-HasValue parts f c v n h = All-append HasValue parts.filters _ h ((λ e. cc), tt)

known_filter-Answer :
    (parts : Parts) (f : Field) (n : Bool) (v : Text)
    → All HasValue parts.filters
    → PartsAnswer (known_filter parts f n v)
unfolding known_filter
known_filter-Answer parts f n [] h = tt
known_filter-Answer parts f n (c ∷ v) h = push_filter-HasValue parts f c v n h

unknown_filter-Answer :
    (parts : Parts) (whole v : Text) (n : Bool)
    → All HasValue parts.filters
    → PartsAnswer (unknown_filter parts whole v n)
unfolding unknown_filter trim_space
unknown_filter-Answer parts whole [] true h = tt
unknown_filter-Answer parts whole (c ∷ v) true h =
    elim (trim_space (c ∷ v))
      as (λ t. PartsAnswer (elim t [
        | [] ↦ err missing_content
        | _ ∷ _ ↦ ok (push_filter parts content (c ∷ v) true)
      ])) [ [] ↦ tt | _ ∷ _ ↦ push_filter-HasValue parts content c v true h ]
unknown_filter-Answer parts whole v false h = h

module _ (wide : ℕ → ℕ) where
  keyed_token-Answer :
      (parts : Parts) (whole : Text) (n : Bool) (v : Text) (r : Text × Text × Bool)
      → All HasValue parts.filters
      → PartsAnswer (keyed_token wide parts whole n v r)
  unfolding keyed_token
  keyed_token-Answer parts whole n v (key, value, false) h = unknown_filter-Answer parts whole v n h
  keyed_token-Answer parts whole n v (key, value, true) h =
      elim (field_of wide key)
        as (λ o. PartsAnswer (elim o [
          | some f ↦ known_filter parts f n (trim_space value)
          | none ↦ unknown_filter parts whole v n
        ])) [
          | some f ↦ known_filter-Answer parts f n (trim_space value) h
          | none ↦ unknown_filter-Answer parts whole v n h
        ]

  parse_token-Answer :
      (parts : Parts) (whole : Text)
      → All HasValue parts.filters
      → PartsAnswer (parse_token wide parts whole)
  unfolding parse_token
  parse_token-Answer parts whole h =
      keyed_token-Answer parts whole (split_sign whole).0 (split_sign whole).1
        (cut b':' (split_sign whole).1) h

  bind-Answer :
      (r : Result Parts) (ts : List Token)
      → PartsAnswer r
      → ((parts : Parts) → All HasValue parts.filters → PartsAnswer (parse_tokens wide parts ts))
      → PartsAnswer (r >>= λ parts. parse_tokens wide parts ts)
  bind-Answer (ok parts) ts h k = k parts h
  bind-Answer (err out_of_fuel) ts h k = h
  bind-Answer (err invalid_utf8) ts h k = absurd h
  bind-Answer (err _) ts h k = tt

  parse_tokens-Answer :
      (ts : List Token) (parts : Parts)
      → All HasValue parts.filters
      → PartsAnswer (parse_tokens wide parts ts)
  unfolding parse_tokens
  parse_tokens-Answer [] parts h = h
  parse_tokens-Answer (t ∷ ts) parts h =
      bind-Answer (parse_token wide parts t.value) ts (parse_token-Answer parts t.value h)
        (parse_tokens-Answer ts)

-- What `Parse` answers for a text: a query for that text whose filters all have a value, or one of
-- its errors; the encoding is refused exactly if it is broken.
abbrev pub QueryAnswer : Text → Result Query → Type 0
QueryAnswer raw (ok q) = (is_valid raw ≡ true) × (q.raw ≡ raw) × All HasValue q.filters
QueryAnswer raw (err invalid_utf8) = is_valid raw ≡ false
QueryAnswer raw (err out_of_fuel) = ⊥
QueryAnswer raw (err _) = is_valid raw ≡ true

module _ (raw : Text) (valid : is_valid raw ≡ true) where
  finish-Answer :
      (r : Result Parts)
      → PartsAnswer r
      → QueryAnswer raw (
          r >>= λ parts. ok (record {
            raw = raw;
            text = trim_space (join (codes " ") parts.free);
            filters = parts.filters;
          }))
  finish-Answer (ok parts) h = (valid, refl, h)
  finish-Answer (err invalid_utf8) h = absurd h
  finish-Answer (err out_of_fuel) h = h
  finish-Answer (err _) h = valid

  tokens-Answer :
      (wide : ℕ → ℕ) (r : Result (List Token))
      → Answer (byte_length raw) r
      → QueryAnswer raw (
          r >>= λ tokens. parse_tokens wide (record { filters = []; free = [] }) tokens >>= λ parts.
          ok (record {
            raw = raw;
            text = trim_space (join (codes " ") parts.free);
            filters = parts.filters;
          }))
  tokens-Answer wide (ok ts) h = finish-Answer _ (parse_tokens-Answer wide ts _ tt)
  tokens-Answer wide (err incomplete_escape) h = valid
  tokens-Answer wide (err unterminated_quote) h = valid
  tokens-Answer wide (err _) h = absurd h

-- `Parse` always ends; a query keeps the text, and each of its filters has a value.
pub parse-Answer : (wide : ℕ → ℕ) (raw : Text) → QueryAnswer raw (parse wide raw)
unfolding parse_valid
parse-Answer wide raw = elim (Bool-cases (is_valid raw)) [
  | inl valid ↦
      unfold parse in rw valid (tokens-Answer raw valid wide (tokenize raw) (tokenize-Answer raw))
  | inr broken ↦ unfold parse in rw broken broken
]
