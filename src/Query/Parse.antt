-- ===== src/Query/Parse.antt =====
-- `Parse` of internal/querylang/query.go: filters with a documented field name, and free text.
use repo_karta.Common.Text.{Text, codes, is_valid, cut, trim_space, to_lower, join, rune, width}
use repo_karta.Common.{
  ℕ, Bool, true, false, Option, none, some, List, [], ◌∷◌, ◌++◌, ◌==◌, if◌then◌else◌,
}
use repo_karta.Query.Fields.{Field, content, field_aliases}
use repo_karta.Query.Token.{
  invalid_utf8, missing_value, missing_content, Result, ok, err, ◌>>=◌, Token, skip_space,
  read_word, tokenize,
}

pub record Filter : Type 0 where
  pub field : Field
  pub value : Text
  pub negative : Bool

pub record Query : Type 0 where
  pub raw : Text
  pub text : Text
  pub filters : List Filter

-- What the loop of `Parse` has collected: `parsed.Filters` and `free`.
pub record Parts : Type 0 where
  pub filters : List Filter
  pub free : List Text

-- The sign in front of a token, and what stands behind it; a sign alone is text.
unfoldable pub split_sign : Text → Bool × Text
split_sign [] = (false, [])
split_sign (c ∷ []) = (false, c ∷ [])
split_sign (c ∷ d ∷ s) =
    if c == b'-' then (true, d ∷ s) else if c == b'+' then (false, d ∷ s) else (false, c ∷ d ∷ s)

abbrev pub push_filter : Parts → Field → Text → Bool → Parts
push_filter parts f v n = record parts {
  filters = parts.filters ++ record { field = f; value = v; negative = n } ∷ [];
}

-- The body of the `if found && known` branch, on the trimmed value.
unfoldable pub known_filter : Parts → Field → Bool → Text → Result Parts
known_filter parts f negative [] = err (missing_value f)
known_filter parts f negative (c ∷ v) = ok (push_filter parts f (c ∷ v) negative)

-- The rest of the loop's body: a negated word, or free text.
unfoldable pub unknown_filter : Parts → Text → Text → Bool → Result Parts
unknown_filter parts whole value true = elim (trim_space value) [
  | [] ↦ err missing_content
  | _ ∷ _ ↦ ok (push_filter parts content value true)
]
unknown_filter parts whole value false = ok (record parts { free = parts.free ++ whole ∷ [] })

module _ (wide : ℕ → ℕ) where
  -- The field that a key names: `fieldAliases[strings.ToLower(strings.TrimSpace(key))]`.
  unfoldable pub field_of : Text → Option Field
  field_of key = field_aliases (to_lower wide (trim_space key))

  -- The body behind the cut at a colon: the key, the value behind it, and whether one was found.
  unfoldable pub keyed_token : Parts → Text → Bool → Text → Text × Text × Bool → Result Parts
  keyed_token parts whole negative value (key, filter_value, true) = elim (field_of key) [
    | some f ↦ known_filter parts f negative (trim_space filter_value)
    | none ↦ unknown_filter parts whole value negative
  ]
  keyed_token parts whole negative value (key, filter_value, false) =
      unknown_filter parts whole value negative

  unfoldable pub signed_token : Parts → Text → Bool × Text → Result Parts
  unfolding keyed_token
  signed_token parts whole (negative, value) =
      keyed_token parts whole negative value (cut b':' value)

  -- The body of the loop over the tokens.
  unfoldable pub parse_token : Parts → Text → Result Parts
  unfolding signed_token
  parse_token parts whole = signed_token parts whole (split_sign whole)

  unfoldable pub parse_tokens : Parts → List Token → Result Parts
  parse_tokens parts [] = ok parts
  parse_tokens parts (t ∷ ts) = do parts' ← parse_token parts t.value; parse_tokens parts' ts

  -- `Parse` behind its check of the encoding.
  unfoldable pub parse_valid : Text → Result Query
  unfolding parse_tokens tokenize
  parse_valid raw = do
    tokens ← tokenize raw
    parts ← parse_tokens (record { filters = []; free = [] }) tokens
    ok (record {
      raw = raw;
      text = trim_space (join (codes " ") parts.free);
      filters = parts.filters;
    })

  -- `Parse`
  unfoldable pub parse : Text → Result Query
  unfolding split_sign parse_token known_filter unknown_filter parse_valid skip_space read_word
      field_of is_valid cut trim_space to_lower join field_aliases rune width
  parse raw = if is_valid raw then parse_valid raw else err invalid_utf8
