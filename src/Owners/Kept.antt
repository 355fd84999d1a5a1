-- ===== src/Owners/Kept.antt =====
-- Which matches the owner filters keep, and what they leave of a response.
use repo_karta.Common.Equal.{is_blank}
use repo_karta.Common.Text.{Text}
use repo_karta.Common.{
  ℕ, ◌+◌, ◌<◌, true, false, List, [], ◌∷◌, ◌++◌, All, length, ◌≡◌, ◌↔◌, ◌⊎◌, inl, inr, refl,
  Bool-cases, some,
}
use repo_karta.Owners.Filter.{
  SearchMatch, SearchResponse, owner_matches, ownership_filters_match, resolved_by, weight,
  warning_code,
}
use repo_karta.Owners.Rules.{OwnershipIndex, OwnershipMatch}

unfoldable pub total_weight : List SearchMatch → ℕ
total_weight [] = 0
total_weight (m ∷ ms) = weight m + total_weight ms

-- A match that has become another one: with the state and the owners that were found, with the
-- evidence if that names a file, and else as it was.
pub record IsOwned (r : OwnershipMatch) (m m' : SearchMatch) : Type 0 where
  pub stated : m'.owner_state ≡ r.state
  pub owned : m'.owners ≡ r.owners
  pub proved : is_blank r.evidence.path ≡ false → m'.ownership ≡ some r.evidence
  pub unproved : is_blank r.evidence.path ≡ true → m'.ownership ≡ m.ownership
  pub otherwise_same :
      m' ≡ record m { owner_state = m'.owner_state; owners = m'.owners; ownership = m'.ownership }

module _ (wide fold : ℕ → ℕ) where
  -- Whom a match belongs to meets every filter that asks, and none that excludes.
  abbrev pub Meets : OwnershipMatch → List Text → List Text → Type 0
  Meets m include exclude =
      All (λ v. owner_matches wide fold m v ≡ true) include
      × All (λ v. owner_matches wide fold m v ≡ false) exclude

  pub ownership_filters_match-Meets :
      (m : OwnershipMatch) (include exclude : List Text)
      → (ownership_filters_match wide fold m include exclude ≡ true) ↔ Meets m include exclude
  unfolding ownership_filters_match
  ownership_filters_match-Meets m [] [] = (λ h. (tt, tt), λ h. refl)
  ownership_filters_match-Meets m [] (v ∷ exclude) =
      let (f, g) = ownership_filters_match-Meets m [] exclude in
      elim (Bool-cases (owner_matches wide fold m v)) [
        | inl e ↦ (
          λ h. absurd (let k : false ≡ true = rw e at h in cc),
          λ h. absurd (let k = h.1.0 in cc),
        )
        | inr e ↦ (λ h. let k = f (rw e at h) in (tt, (e, k.1)), λ h. rw e (g (tt, h.1.1)))
      ]
  ownership_filters_match-Meets m (v ∷ include) exclude =
      let (f, g) = ownership_filters_match-Meets m include exclude in
      elim (Bool-cases (owner_matches wide fold m v)) [
        | inl e ↦ (λ h. let k = f (rw e at h) in ((e, k.0), k.1), λ h. rw e (g (h.0.1, h.1)))
        | inr e ↦ (
          λ h. absurd (let k : false ≡ true = rw e at h in cc),
          λ h. absurd (let k = h.0.0 in cc),
        )
      ]

  module _ (indexes : List OwnershipIndex) (include exclude : List Text) where
    abbrev pub Accepted : SearchMatch → Type 0
    Accepted m = Meets (resolved_by indexes m) include exclude

    -- The matches that are accepted, in order and each with its owners.
    pub data Kept : List SearchMatch → List SearchMatch → Type 0 where
      nothing : Kept [] []
      keep :
          {ms out : List SearchMatch} (m m' : SearchMatch)
          → Accepted m
          → IsOwned (resolved_by indexes m) m m'
          → Kept ms out
          → Kept (m ∷ ms) (m' ∷ out)
      leave :
          {ms out : List SearchMatch} (m : SearchMatch)
          → ¬ Accepted m
          → Kept ms out
          → Kept (m ∷ ms) out

    -- What the loop leaves, added to what it has.
    abbrev Looped : List SearchMatch → List SearchMatch × ℕ → List SearchMatch × ℕ → Type 0
    Looped ms (filtered, count) o =
        (out : List SearchMatch) × Kept ms out × (o ≡ (filtered ++ out, count + total_weight out))

    -- A response of which only some matches are left.
    pub record IsNarrowed (r r' : SearchResponse) : Type 0 where
      pub kept : Kept r.matches r'.matches
      pub fewer : length r'.matches < length r.matches
      pub counted : r'.match_count ≡ total_weight r'.matches
      pub files : r'.matching_files ≡ length r'.matches
      pub estimate : r'.estimated_total_files ≡ length r'.matches
      pub returned :
          (r'.returned_files ≡ length r'.matches) × (r'.returned_items ≡ length r'.matches)
      pub exact :
          (r'.total_files_exact ≡ true) ↔ ((r.total_files_exact ≡ true) × (r.truncated ≡ false))
      pub cut : r'.truncated ≡ r.truncated
      pub warned : r'.warnings ≡ r.warnings ++ warning_code ∷ []

    abbrev pub Outcome : SearchResponse → SearchResponse → Type 0
    Outcome r r' = (All Accepted r.matches × (r' ≡ r)) ⊎ IsNarrowed r r'
