-- ===== src/Query/Complete.antt =====
-- `Complete` of internal/querylang/complete.go: the completions of the token at the caret.
use repo_karta.Common.Text.{Text, has_prefix, trim_prefix, text_lt, cut, to_lower}
use repo_karta.Common.{
  true, false, ℕ, Bool, not, Option, none, some, List, [], ◌∷◌, ◌++◌, ltb, if◌then◌else◌, take,
  length,
}
use repo_karta.Query.Fields.{Field, field_aliases}
use repo_karta.Query.Caret.{byte_offset_for_utf16, utf16_length, active_token_bounds, slice_bytes}
use repo_karta.Query.Quote.{quote_completion_value}
use repo_karta.Query.Values.{
  Choice, CompletionOptions, FieldDefinition, completion_fields, canonical_field_name,
  completion_values,
}

infixl 10 ◌>>=◌
abbrev pub ◌>>=◌ : {A B : Type 0} → Option A → (A → Option B) → Option B
none >>= f = none
some a >>= f = f a

pub record Completion : Type 0 where
  pub label : Text
  pub detail : Text
  pub insert_text : Text
  pub replace_start : ℕ
  pub replace_end : ℕ

-- `MaximumCompletions`
abbrev pub maximum_completions : ℕ
maximum_completions = 20

-- `limitCompletions`
unfoldable pub limit_completions : List Completion → List Completion
limit_completions cs =
    if ltb maximum_completions (length cs) then take maximum_completions cs else cs

-- `sort.SliceStable` by label: behind the ones that it is not less than.
unfoldable pub insert_sorted : Completion → List Completion → List Completion
insert_sorted c [] = c ∷ []
insert_sorted c (d ∷ ds) =
    let later = d ∷ insert_sorted c ds in if text_lt d.label c.label then later else c ∷ d ∷ ds

unfoldable pub sort_stable : List Completion → List Completion
unfolding insert_sorted
sort_stable [] = []
sort_stable (c ∷ cs) = insert_sorted c (sort_stable cs)

abbrev pub signed : Bool → Text → Text
signed negative insert = if negative then b'-' ∷ insert else insert

-- What the token at the caret is read as.
pub record Caret : Type 0 where
  pub current : Text
  pub replace_start : ℕ
  pub replace_end : ℕ

abbrev pub propose : Caret → Text → Text → Completion
propose caret insert detail = record {
  label = insert;
  detail = detail;
  insert_text = insert;
  replace_start = caret.replace_start;
  replace_end = caret.replace_end;
}

module _ (wide : ℕ → ℕ) where
  -- The loop over `completionFields`.
  unfoldable pub field_completions : Caret → Bool → List FieldDefinition → List Completion
  field_completions caret negative [] = []
  field_completions caret negative (d ∷ ds) =
      let insert = signed negative (d.name ++ b':' ∷ []) in
      let rest = field_completions caret negative ds in
      if not (has_prefix insert (to_lower wide caret.current))
      then rest
      else propose caret insert d.detail ∷ rest

  -- The loop over the values of a field.
  unfoldable pub value_completions : Caret → Bool → Text → Text → List Choice → List Completion
  value_completions caret negative canonical prefix [] = []
  value_completions caret negative canonical prefix (o ∷ os) =
      let insert = signed negative (canonical ++ b':' ∷ quote_completion_value o.value) in
      let rest = value_completions caret negative canonical prefix os in
      if not (has_prefix (to_lower wide o.value) (to_lower wide prefix))
      then rest
      else propose caret insert o.label ∷ rest

  -- The values of the field that a key names.
  unfoldable pub keyed_completions :
      Caret → CompletionOptions → Bool → Text → Option Field → List Completion
  unfolding value_completions
  keyed_completions caret dynamic negative prefix none = []
  keyed_completions caret dynamic negative prefix (some f) = limit_completions (
      sort_stable (
        value_completions caret negative (canonical_field_name f) prefix
          (completion_values f dynamic)))

  -- `Complete` behind the cut of the token at a colon: the key, the prefix, and whether one is there.
  unfoldable pub cut_completions :
      Caret → CompletionOptions → Bool → Text × Text × Bool → List Completion
  unfolding keyed_completions field_completions
  cut_completions caret dynamic negative (key, prefix, false) =
      limit_completions (field_completions caret negative completion_fields)
  cut_completions caret dynamic negative (key, prefix, true) =
      keyed_completions caret dynamic negative prefix (field_aliases (to_lower wide key))

  -- `Complete` on the token at the caret, which loses its sign for the lookup.
  unfoldable pub complete_at : Caret → CompletionOptions → List Completion
  unfolding cut_completions
  complete_at caret dynamic =
      cut_completions caret dynamic (has_prefix caret.current (b'-' ∷ []))
        (cut b':' (trim_prefix b'+' (trim_prefix b'-' caret.current)))

  -- `Complete`; `none` is the panic of a slice out of range.
  unfoldable pub complete : Text → ℕ → CompletionOptions → Option (List Completion)
  unfolding complete_at
  complete raw cursor dynamic =
      let byte_cursor = byte_offset_for_utf16 raw cursor in
      let (start, stop) = active_token_bounds raw byte_cursor in
      do
        current ← slice_bytes start byte_cursor raw
        before ← slice_bytes 0 start raw
        until ← slice_bytes 0 stop raw
        some (
            complete_at
              (record {
                current = current;
                replace_start = utf16_length before;
                replace_end = utf16_length until;
              })
              dynamic)
