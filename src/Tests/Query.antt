-- ===== src/Tests/Query.antt =====
-- Package querylang at inputs of its tests.
use repo_karta.Common.Text.{
  Text, codes, to_lower, has_prefix, cut, trim_prefix, is_valid, trim_space, text_lt, byte_length,
  rune_limit,
}
use repo_karta.Common.{ℕ, ◌+◌, ◌≡◌, refl, Option, some, none, List, [], ◌∷◌, ◌++◌, true, false, All}
use repo_karta.Query.Caret.{byte_offset_for_utf16, utf16_length, active_token_bounds, slice_bytes}
use repo_karta.Query.Complete.{
  Caret, Completion, complete_at, complete, signed, limit_completions, sort_stable,
}
use repo_karta.Query.Fields.{repository, language, path, file, result_type, field_aliases}
use repo_karta.Query.Inserted.{Reads, parse-inserted, complete_at-Reads}
use repo_karta.Query.Offsets.{byte_offset-utf16_length, complete-some}
use repo_karta.Query.Parse.{parse}
use repo_karta.Query.Quote.{quote_completion_value}
use repo_karta.Query.RoundTrip.{one_filter}
use repo_karta.Query.Sound.{QueryAnswer, parse-Answer}
use repo_karta.Query.Token.{ok, err, unterminated_quote, missing_value, tokenize}
use repo_karta.Query.Total.{Answer, tokenize-Answer}
use repo_karta.Query.Values.{CompletionOptions, canonical_field_name, completion_values}

-- A table of lower-case letters that changes nothing.
abbrev same : ℕ → ℕ
same c = c

abbrev sample : Text
sample = codes "payment retry repo:checkout lang:Go path:\"internal api\" -file:_test.go"

parse-sample :
    parse same sample
    ≡ ok (record {
      raw = sample;
      text = codes "payment retry";
      filters =
          record { field = repository; value = codes "checkout"; negative = false }
          ∷ record { field = language; value = codes "Go"; negative = false }
          ∷ record { field = path; value = codes "internal api"; negative = false }
          ∷ record { field = file; value = codes "_test.go"; negative = true }
          ∷ [];
    })
unfolding parse
parse-sample = refl

parse_errors :
    (parse same (codes "repo:") ≡ err (missing_value repository))
    × (parse same (codes "path:\"unterminated") ≡ err unterminated_quote)
unfolding parse
parse_errors = (refl, refl)

abbrev no_options : CompletionOptions
no_options = record { repositories = []; revisions = []; owners = [] }

inserted_texts : Option (List Completion) → List Text
inserted_texts none = []
inserted_texts (some []) = []
inserted_texts (some (c ∷ cs)) = c.insert_text ∷ inserted_texts (some cs)

complete-sample :
    (inserted_texts (complete same (codes "needle rep") 10 no_options) ≡ codes "repository:" ∷ [])
    × (inserted_texts (complete same (codes "-type:ref") 9 no_options)
        ≡ codes "-result_type:reference" ∷ [])
unfolding inserted_texts complete byte_offset_for_utf16 active_token_bounds slice_bytes utf16_length
    byte_length has_prefix to_lower trim_prefix cut field_aliases canonical_field_name
    quote_completion_value text_lt limit_completions sort_stable completion_values
complete-sample = (refl, refl)

parse-inserted_example :
    let raw =
      signed true
        (canonical_field_name path ++ b':' ∷ quote_completion_value (codes "internal api")) in
    parse same raw ≡ ok (one_filter raw path (trim_space (codes "internal api")) true)
unfolding is_valid trim_space
parse-inserted_example = parse-inserted same path true (codes "internal api") refl (λ e. cc)

abbrev caret : Caret
caret = record { current = codes "-type:ref"; replace_start = 0; replace_end = 9 }

complete_at-Reads_example :
    All
      (Reads same result_type (has_prefix caret.current (b'-' ∷ [])))
      (complete_at same caret no_options)
unfolding cut trim_prefix field_aliases to_lower
complete_at-Reads_example =
    complete_at-Reads same caret no_options (codes "type") (codes "ref") result_type
      (record { repositories_usable = refl; revisions_usable = refl; owners_usable = refl }) refl
      refl

tokenize-Answer_example : Answer (byte_length sample) (tokenize sample)
tokenize-Answer_example = tokenize-Answer sample

parse-Answer_example : QueryAnswer sample (parse same sample)
parse-Answer_example = parse-Answer same sample

-- A character of two UTF-16 units and four bytes stands before the caret.
byte_offset-utf16_length_example :
    byte_offset_for_utf16 (0x1f50e ∷ codes " repo:pay") (utf16_length (0x1f50e ∷ codes " repo:"))
    ≡ byte_length (0x1f50e ∷ codes " repo:")
unfolding is_valid
byte_offset-utf16_length_example =
    byte_offset-utf16_length (0x1f50e ∷ codes " repo:") (codes "pay") refl

complete-some_example : (cs : List Completion) × (complete same sample 7 no_options ≡ some cs)
unfolding is_valid
complete-some_example = complete-some same sample 7 no_options refl

-- On a query that is one broken byte the caret is placed behind its end, and the slice panics.
complete_broken : complete same ((rune_limit + 0xff) ∷ []) 1 no_options ≡ none
unfolding complete byte_offset_for_utf16 active_token_bounds slice_bytes utf16_length byte_length
complete_broken = refl
