-- ===== src/Access/Normal.antt =====
-- The groups of a viewer: trimmed, not blank, and no two alike but for their case.
use repo_karta.Common.Equal.{text_eq_self}
use repo_karta.Common.Text.{Text, text_eq, trim_space, to_lower}
use repo_karta.Common.{
  ℕ, ◌≡◌, refl, sym, ◌∙◌, true, false, ◌||◌, List, [], ◌∷◌, ◌++◌, arith, All, All-imp,
  if◌then◌else◌, if_rule, ◌⊎◌, Bool-cases, inl, inr, append-nil, append_assoc,
}
use mathlib.Core.List.{map}
use repo_karta.Access.Viewer.{is_empty, has_key, normalize_from, normalize_values}

unseen : (k key : Text) (seen : List Text) → has_key k (key ∷ seen) ≡ false → has_key k seen ≡ false
unfolding has_key
unseen k key seen h = ground arith

differs : (k key : Text) (seen : List Text) → has_key k (key ∷ seen) ≡ false → text_eq k key ≡ false
unfolding has_key
differs k key seen h = ground arith

shift_key :
    (k key : Text) (keys seen : List Text)
    → (has_key k keys || has_key k (key ∷ seen)) ≡ true
    → (has_key k (key ∷ keys) || has_key k seen) ≡ true
unfolding has_key
shift_key k key keys seen h = ground arith

own_key : (k : Text) (keys seen : List Text) → (has_key k (k ∷ keys) || has_key k seen) ≡ true
unfolding has_key
own_key k keys seen = rw (text_eq_self k) refl

old_key :
    (k : Text) (keys seen : List Text)
    → has_key k seen ≡ true
    → (has_key k keys || has_key k seen) ≡ true
old_key k keys seen h = ground arith

unseen_key :
    (k : Text) (keys : List Text) → (has_key k keys || has_key k []) ≡ true → has_key k keys ≡ true
unfolding has_key
unseen_key k keys h = ground arith

module _ (wide : ℕ → ℕ) where
  abbrev key_of : Text → Text
  key_of v = to_lower wide v

  -- What the loop appends: the values whose keys are new.
  kept : List Text → List Text → List Text
  kept seen [] = []
  kept seen (raw ∷ values) =
      let value = trim_space raw in
      let key = to_lower wide value in
      let skip = kept seen values in
      let keep = value ∷ kept (key ∷ seen) values in
      if is_empty value then skip else if has_key key seen then skip else keep

  normalize_from-kept :
      (values seen output : List Text)
      → normalize_from wide seen output values ≡ output ++ kept seen values
  unfolding normalize_from kept
  normalize_from-kept [] seen output = sym (append-nil output)
  normalize_from-kept (raw ∷ values) seen output =
      let value = trim_space raw in
      let key = to_lower wide value in
      elim (Bool-cases (is_empty value)) [
        | inl blank ↦ rw blank (normalize_from-kept values seen output)
        | inr full ↦ elim (Bool-cases (has_key key seen)) [
          | inl old ↦ rw (full, old) (normalize_from-kept values seen output)
          | inr new ↦
              rw (full, new)
                (normalize_from-kept values (key ∷ seen) (output ++ value ∷ [])
                  ∙ append_assoc output (value ∷ []) _)
        ]
      ]

  -- The rule for a property of what one more value leaves.
  kept_rule {κ} :
      (P : List Text → Type κ) (seen values : List Text) (raw : Text)
      → (is_empty (trim_space raw) ≡ true → P (kept seen values))
      → (has_key (key_of (trim_space raw)) seen ≡ true → P (kept seen values))
      → (is_empty (trim_space raw) ≡ false
          → has_key (key_of (trim_space raw)) seen ≡ false
          → P (trim_space raw ∷ kept (key_of (trim_space raw) ∷ seen) values))
      → P (kept seen (raw ∷ values))
  unfolding kept
  kept_rule P seen values raw blank old new =
      if_rule P (is_empty (trim_space raw)) _ _ blank (λ full.
        if_rule P (has_key (key_of (trim_space raw)) seen) _ _ old (λ fresh. new full fresh))

  -- A value that was kept is not empty, and its key was not seen.
  abbrev IsFresh : List Text → Text → Type 0
  IsFresh seen v = (is_empty v ≡ false) × (has_key (key_of v) seen ≡ false)

  kept-IsFresh : (values seen : List Text) → All (IsFresh seen) (kept seen values)
  kept-IsFresh [] seen = unfold kept in tt
  kept-IsFresh (raw ∷ values) seen =
      kept_rule (All (IsFresh seen)) seen values raw (λ _. kept-IsFresh values seen)
        (λ _. kept-IsFresh values seen)
        (λ full fresh. (
          (full, fresh),
          All-imp (λ v h. (h.0, unseen (key_of v) (key_of (trim_space raw)) seen h.1)) _
              (kept-IsFresh values (key_of (trim_space raw) ∷ seen)),
        ))

  -- No two values have the same key.
  abbrev pub AllDistinct : List Text → Type 0
  AllDistinct [] = Unit
  AllDistinct (v ∷ vs) =
      All (λ w. text_eq (to_lower wide w) (to_lower wide v) ≡ false) vs × AllDistinct vs

  kept-AllDistinct : (values seen : List Text) → AllDistinct (kept seen values)
  kept-AllDistinct [] seen = unfold kept in tt
  kept-AllDistinct (raw ∷ values) seen =
      kept_rule AllDistinct seen values raw (λ _. kept-AllDistinct values seen)
        (λ _. kept-AllDistinct values seen)
        (λ _ _. (
          All-imp (λ w h. differs (key_of w) (key_of (trim_space raw)) seen h.1) _
              (kept-IsFresh values (key_of (trim_space raw) ∷ seen)),
          kept-AllDistinct values (key_of (trim_space raw) ∷ seen),
        ))

  -- A value stands for a text if the two are alike but for case and white space around.
  abbrev pub StandsFor : List Text → Text → Type 0
  StandsFor vs raw =
      (is_empty (trim_space raw) ≡ true)
      ⊎ (has_key (to_lower wide (trim_space raw)) (map (to_lower wide) vs) ≡ true)

  abbrev Known : List Text → List Text → Text → Type 0
  Known seen vs raw =
      (is_empty (trim_space raw) ≡ true)
      ⊎ ((has_key (key_of (trim_space raw)) (map (to_lower wide) vs)
            || has_key (key_of (trim_space raw)) seen)
          ≡ true)

  Known-cons :
      (key v : Text) (seen vs : List Text) (raw : Text)
      → key ≡ key_of v
      → Known (key ∷ seen) vs raw
      → Known seen (v ∷ vs) raw
  Known-cons key v seen vs raw e (inl blank) = inl blank
  Known-cons key v seen vs raw e (inr h) =
      inr (rw (← e) (shift_key (key_of (trim_space raw)) key (map (to_lower wide) vs) seen h))

  kept-Known : (values seen : List Text) → All (Known seen (kept seen values)) values
  kept-Known [] seen = tt
  kept-Known (raw ∷ values) seen =
      let key = key_of (trim_space raw) in
      kept_rule (λ vs. All (Known seen vs) (raw ∷ values)) seen values raw
        (λ blank. (inl blank, kept-Known values seen))
        (λ old. (inr (old_key key _ seen old), kept-Known values seen))
        (λ _ _. (
          inr (own_key key _ seen),
          All-imp (λ r. Known-cons key (trim_space raw) seen _ r refl) values
              (kept-Known values (key ∷ seen)),
        ))

  Known-StandsFor : (vs : List Text) (raw : Text) → Known [] vs raw → StandsFor vs raw
  Known-StandsFor vs raw (inl blank) = inl blank
  Known-StandsFor vs raw (inr h) = inr (unseen_key _ _ h)

  normalize_values-kept : (values : List Text) → normalize_values wide values ≡ kept [] values
  unfolding normalize_values
  normalize_values-kept values = normalize_from-kept values [] []

  -- The normalized values are not empty, no two differ only in case, and each value that is not
  -- blank is among them but for case and the white space around it.
  pub normalize_values_lem :
      (values : List Text)
      → All (λ v. is_empty v ≡ false) (normalize_values wide values)
        × AllDistinct (normalize_values wide values)
        × All (StandsFor (normalize_values wide values)) values
  normalize_values_lem values = rw (normalize_values-kept values) (
    All-imp (λ v h. h.0) _ (kept-IsFresh values []),
    kept-AllDistinct values [],
    All-imp (Known-StandsFor (kept [] values)) values (kept-Known values []),
  )
