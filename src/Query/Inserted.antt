-- ===== src/Query/Inserted.antt =====
-- Every value that `Complete` proposes, read back by `Parse` (internal/querylang).
use repo_karta.Common.Text.{
  Text, is_valid, trim_space, to_lower, text_eq, has_prefix, cut, trim_prefix, text_lt,
}
use repo_karta.Common.{
  ℕ, ◌≡◌, ◌≢◌, refl, Bool, true, false, not, ◌&&◌, some, List, [], ◌∷◌, ◌++◌, all, All, &&_true,
  length, drop, All-take, all-append, Bool-cases, inl, inr, ltb,
}
use repo_karta.Query.Complete.{
  Caret, Completion, signed, value_completions, insert_sorted, sort_stable, limit_completions,
  keyed_completions, complete_at,
}
use repo_karta.Query.Fields.{Field, content, repository, revision, owner, field_aliases}
use repo_karta.Query.Parse.{field_of, parse}
use repo_karta.Query.Quote.{quote_completion_value}
use repo_karta.Query.RoundTrip.{IsKey, one_filter, parse-key}
use repo_karta.Query.Token.{ok, is_space}
use repo_karta.Query.Values.{Choice, CompletionOptions, canonical_field_name, completion_values}

abbrev rune_at : ℕ → Text → ℕ
rune_at n s = elim (drop n s) [ [] ↦ 0 | c ∷ _ ↦ c ]

-- A field's canonical name is a key, and `Parse` knows it as that field.
record KeyOf (wide : ℕ → ℕ) (f : Field) : Type 0 where
  spelled :
      canonical_field_name f
      ≡ rune_at 0 (canonical_field_name f)
        ∷ rune_at 1 (canonical_field_name f)
        ∷ drop 2 (canonical_field_name f)
  key :
      IsKey
        (rune_at 0 (canonical_field_name f))
        (rune_at 1 (canonical_field_name f))
        (drop 2 (canonical_field_name f))
  known : field_of wide (canonical_field_name f) ≡ some f

canonical-KeyOf : (wide : ℕ → ℕ) (f : Field) → KeyOf wide f
unfolding canonical_field_name is_space field_of field_aliases trim_space to_lower
canonical-KeyOf wide content = record {
  spelled = refl;
  key = record { runes = refl; not_minus = refl; not_plus = refl };
  known = refl;
}
canonical-KeyOf wide _ = record {
  spelled = refl;
  key = record { runes = refl; not_minus = refl; not_plus = refl };
  known = refl;
}

-- A value that a filter can hold.
pub usable : Choice → Bool
usable o = is_valid o.value && not (elim (trim_space o.value) [ [] ↦ true | _ ∷ _ ↦ false ])

trim-ne : (s : Text) → not (elim s [ [] ↦ true | _ ∷ _ ↦ false ]) ≡ true → s ≢ []
trim-ne [] h = cc
trim-ne (c ∷ s) h = λ e. cc

-- What a completion stands for: one filter on `f`, with the sign `n` and a value of its own.
abbrev pub Reads : (ℕ → ℕ) → Field → Bool → Completion → Type 0
Reads wide f n c = (v : Text) × (parse wide c.insert_text ≡ ok (one_filter c.insert_text f v n))

module _ (wide : ℕ → ℕ) (f : Field) (n : Bool) where
  -- The text that `Complete` inserts for a value is that filter, with the value trimmed.
  pub parse-inserted :
      (v : Text)
      → is_valid v ≡ true
      → trim_space v ≢ []
      → let raw = signed n (canonical_field_name f ++ b':' ∷ quote_completion_value v) in
        parse wide raw ≡ ok (one_filter raw f (trim_space v) n)
  parse-inserted v hv ne =
      let k = canonical-KeyOf wide f in
      let s = canonical_field_name f in
      rw k.spelled (
        parse-key wide (rune_at 0 s) (rune_at 1 s) (drop 2 s) v n f k.key (rw k.spelled at k.known)
          hv ne)

  value_completions-Reads :
      (caret : Caret) (prefix : Text) (os : List Choice)
      → all usable os ≡ true
      → All (Reads wide f n) (value_completions wide caret n (canonical_field_name f) prefix os)
  unfolding value_completions usable
  value_completions-Reads caret prefix [] h = tt
  value_completions-Reads caret prefix (o ∷ os) h =
      let (here, later) = &&_true (usable o) (all usable os) h in
      let (valid, full) = &&_true (is_valid o.value) _ here in
      let rest = value_completions-Reads caret prefix os later in
      elim (Bool-cases (has_prefix (to_lower wide o.value) (to_lower wide prefix))) [
        | inl fits ↦
            rw fits ((trim_space o.value, parse-inserted o.value valid (trim-ne _ full)), rest)
        | inr misses ↦ rw misses rest
      ]

module _ (P : Completion → Type 0) where
  insert_sorted-All :
      (c : Completion) (cs : List Completion) → P c → All P cs → All P (insert_sorted c cs)
  unfolding insert_sorted
  insert_sorted-All c [] h k = (h, tt)
  insert_sorted-All c (d ∷ ds) h k = elim (Bool-cases (text_lt d.label c.label)) [
    | inl less ↦ rw less (k.0, insert_sorted-All c ds h k.1)
    | inr stays ↦ rw stays (h, k)
  ]

  sort_stable-All : (cs : List Completion) → All P cs → All P (sort_stable cs)
  unfolding sort_stable
  sort_stable-All [] h = tt
  sort_stable-All (c ∷ cs) h = insert_sorted-All c (sort_stable cs) h.0 (sort_stable-All cs h.1)

  limit_completions-All : (cs : List Completion) → All P cs → All P (limit_completions cs)
  unfolding limit_completions
  limit_completions-All cs h = elim (Bool-cases (ltb 20 (length cs))) [
    | inl over ↦ rw over (All-take P 20 cs h)
    | inr fits ↦ rw fits h
  ]

-- Each value that the model proposes by itself is usable; those of the caller are a premise.
pub record IsUsable (dynamic : CompletionOptions) : Type 0 where
  pub repositories_usable : all usable dynamic.repositories ≡ true
  pub revisions_usable : all usable dynamic.revisions ≡ true
  pub owners_usable : all usable dynamic.owners ≡ true

completion_values-usable :
    (f : Field) (dynamic : CompletionOptions)
    → IsUsable dynamic
    → all usable (completion_values f dynamic) ≡ true
unfolding completion_values usable is_valid trim_space text_eq
completion_values-usable repository dynamic u = u.repositories_usable
completion_values-usable revision dynamic u = u.revisions_usable
completion_values-usable owner dynamic u = all-append _ dynamic.owners _ u.owners_usable refl
completion_values-usable _ dynamic u = refl

-- Behind a known key and a colon, each completion of `Complete` is read by `Parse` as exactly one
-- filter: on the field of that key, with the sign of the token.
pub complete_at-Reads :
    (wide : ℕ → ℕ) (caret : Caret) (dynamic : CompletionOptions) (key prefix : Text) (f : Field)
    → IsUsable dynamic
    → cut b':' (trim_prefix b'+' (trim_prefix b'-' caret.current)) ≡ (key, prefix, true)
    → field_aliases (to_lower wide key) ≡ some f
    → All (Reads wide f (has_prefix caret.current (b'-' ∷ []))) (complete_at wide caret dynamic)
unfolding complete_at
complete_at-Reads wide caret dynamic key prefix f u e known =
    let n = has_prefix caret.current (b'-' ∷ []) in
    let values =
      value_completions-Reads wide f n caret prefix (completion_values f dynamic)
        (completion_values-usable f dynamic u) in
    rw e (
      rw (known, keyed_completions)
        (limit_completions-All (Reads wide f n) _ (sort_stable-All (Reads wide f n) _ values)))
