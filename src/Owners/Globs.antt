-- ===== src/Owners/Globs.antt =====
-- What a CODEOWNERS pattern matches, by the ways to cut a path into parts that its pieces stand
-- for, and that `codeownersPatternMatches` finds such a cut exactly when there is one.
use repo_karta.Common.Text.{Text}
use repo_karta.Common.{
  any-All, ℕ, Bool, true, false, ◌&&◌, ◌||◌, not, List, [], ◌∷◌, ◌++◌, any, All, ◌≡◌, ◌⊎◌, inl, inr,
  refl, ap, ◌==◌, ==_iff, ==_refl, Bool-cases, &&_true, arith,
}
use repo_karta.Owners.Patterns.{
  Piece, any_run, segment_run, one, literal, fits, fits_behind, fits_end, is_line_feed, is_slash,
}

-- No byte of a text passes a test.
abbrev pub Free : (ℕ → Bool) → Text → Type 0
Free p = All (λ c. p c ≡ false)

-- A text is a run without such a byte, and a rest.
abbrev pub Cut : (ℕ → Bool) → (Text → Type 0) → Text → Type 0
Cut stop P s = (run : Text) × (rest : Text) × (s ≡ run ++ rest) × Free stop run × P rest

-- A text ends here, or, for a directory, goes on below it.
abbrev pub Ends : Bool → Text → Type 0
Ends directory s =
    (s ≡ []) ⊎ ((below : Text) × (directory ≡ true) × (s ≡ b'/' ∷ below) × Free is_line_feed below)

unfoldable pub Fits : Bool → List Piece → Text → Type 0
Fits directory [] s = Ends directory s
Fits directory (literal c ∷ ps) s = (rest : Text) × (s ≡ c ∷ rest) × Fits directory ps rest
Fits directory (one ∷ ps) s =
    (c : ℕ) × (rest : Text) × (s ≡ c ∷ rest) × (is_slash c ≡ false) × Fits directory ps rest
Fits directory (segment_run ∷ ps) s = Cut is_slash (Fits directory ps) s
Fits directory (any_run ∷ ps) s = Cut is_line_feed (Fits directory ps) s

-- A cut of a longer text, and back.
module _ (stop : ℕ → Bool) (P : Text → Type 0) where
  Cut-now : (s : Text) → P s → Cut stop P s
  Cut-now s h = ([], s, refl, tt, h)

  Cut-more : (c : ℕ) (s : Text) → stop c ≡ false → Cut stop P s → Cut stop P (c ∷ s)
  Cut-more c s h (run, rest, e, free, p) = (c ∷ run, rest, ap (λ t. c ∷ t) e, (h, free), p)

not-any : (p : ℕ → Bool) (s : Text) → Free p s → not (any p s) ≡ true
not-any p [] h = refl
not-any p (c ∷ s) h = rw h.0 (not-any p s h.1)

fits_end-Ends : (directory : Bool) (s : Text) → fits_end directory s ≡ true → Ends directory s
unfolding fits_end
fits_end-Ends directory [] h = inl refl
fits_end-Ends directory (c ∷ s) h =
    let (d, r) = &&_true directory (is_slash c && not (any is_line_feed s)) h in
    let (e, n) = &&_true (is_slash c) (not (any is_line_feed s)) r in
    inr (s, d, ap (λ b. b ∷ s) ((==_iff c b'/').0 e), any-All is_line_feed s (ground arith))

-- What the matcher finds is a cut.
module _ (directory : Bool) where
  or_more :
      (stop : ℕ → Bool) (P : Text → Type 0) (c : ℕ) (s : Text) (now later : Bool)
      → stop c ≡ false
      → (now ≡ true → P (c ∷ s))
      → (later ≡ true → Cut stop P s)
      → (now || later) ≡ true
      → Cut stop P (c ∷ s)
  or_more stop P c s true later h f g e = Cut-now stop P (c ∷ s) (f refl)
  or_more stop P c s false later h f g e = Cut-more stop P c s h (g e)

  pub fits-Fits : (ps : List Piece) (s : Text) → fits directory ps s ≡ true → Fits directory ps s
  unfolding fits Fits
  fits-Fits [] s h = fits_end-Ends directory s h
  fits-Fits (literal c ∷ ps) [] h = absurd cc
  fits-Fits (literal c ∷ ps) (d ∷ s) h = elim (Bool-cases (d == c)) [
    | inl e ↦ (s, ap (λ b. b ∷ s) ((==_iff d c).0 e), fits-Fits ps s (rw (e, fits) at h))
    | inr e ↦ absurd (let f : false ≡ true = rw (e, fits) at h in cc)
  ]
  fits-Fits (one ∷ ps) [] h = absurd cc
  fits-Fits (one ∷ ps) (d ∷ s) h = elim (Bool-cases (is_slash d)) [
    | inl e ↦ absurd (let f : false ≡ true = rw (e, fits) at h in cc)
    | inr e ↦ (d, s, refl, e, fits-Fits ps s (rw (e, fits) at h))
  ]
  fits-Fits (segment_run ∷ ps) [] h = Cut-now is_slash (Fits directory ps) [] (fits-Fits ps [] h)
  fits-Fits (segment_run ∷ ps) (d ∷ s) h = elim (Bool-cases (is_slash d)) [
    | inl e ↦
        Cut-now is_slash (Fits directory ps) (d ∷ s) (fits-Fits ps (d ∷ s) (rw (e, fits) at h))
    | inr e ↦
        or_more is_slash (Fits directory ps) d s (fits directory ps (d ∷ s))
          (fits directory (segment_run ∷ ps) s) e (fits-Fits ps (d ∷ s))
          (fits-Fits (segment_run ∷ ps) s) (rw (e, fits) at h)
  ]
  fits-Fits (any_run ∷ ps) [] h = Cut-now is_line_feed (Fits directory ps) [] (fits-Fits ps [] h)
  fits-Fits (any_run ∷ ps) (d ∷ s) h = elim (Bool-cases (is_line_feed d)) [
    | inl e ↦
        Cut-now is_line_feed (Fits directory ps) (d ∷ s) (fits-Fits ps (d ∷ s) (rw (e, fits) at h))
    | inr e ↦
        or_more is_line_feed (Fits directory ps) d s (fits directory ps (d ∷ s))
          (fits directory (any_run ∷ ps) s) e (fits-Fits ps (d ∷ s)) (fits-Fits (any_run ∷ ps) s)
          (rw (e, fits) at h)
  ]

  -- And a cut is found.
  Ends-fits_end : (s : Text) → Ends directory s → fits_end directory s ≡ true
  unfolding fits_end
  Ends-fits_end s (inl e) = rw e refl
  Ends-fits_end s (inr (below, d, e, free)) = rw (e, d) (not-any is_line_feed below free)

  found_later : (now later : Bool) → later ≡ true → (now || later) ≡ true
  found_later true later h = refl
  found_later false later h = h

  found_now : (now later : Bool) → now ≡ true → (now || later) ≡ true
  found_now now later h = rw h refl

  -- A run may end at once, and a byte more is taken if it is none that stops the run.
  segment_now :
      (ps : List Piece) (s : Text)
      → fits directory ps s ≡ true
      → fits directory (segment_run ∷ ps) s ≡ true
  unfolding fits
  segment_now ps [] h = h
  segment_now ps (d ∷ s) h = elim (Bool-cases (is_slash d)) [
    | inl e ↦ rw (e, fits) h
    | inr e ↦
        rw (e, fits) (found_now (fits directory ps (d ∷ s)) (fits directory (segment_run ∷ ps) s) h)
  ]

  any_now :
      (ps : List Piece) (s : Text)
      → fits directory ps s ≡ true
      → fits directory (any_run ∷ ps) s ≡ true
  unfolding fits
  any_now ps [] h = h
  any_now ps (d ∷ s) h = elim (Bool-cases (is_line_feed d)) [
    | inl e ↦ rw (e, fits) h
    | inr e ↦
        rw (e, fits) (found_now (fits directory ps (d ∷ s)) (fits directory (any_run ∷ ps) s) h)
  ]

  segment_found :
      (ps : List Piece) (run rest : Text)
      → Free is_slash run
      → fits directory ps rest ≡ true
      → fits directory (segment_run ∷ ps) (run ++ rest) ≡ true
  unfolding fits
  segment_found ps [] rest free h = segment_now ps rest h
  segment_found ps (d ∷ run) rest free h =
      rw (free.0, fits)
        (found_later (fits directory ps (d ∷ run ++ rest))
          (fits directory (segment_run ∷ ps) (run ++ rest)) (segment_found ps run rest free.1 h))

  any_found :
      (ps : List Piece) (run rest : Text)
      → Free is_line_feed run
      → fits directory ps rest ≡ true
      → fits directory (any_run ∷ ps) (run ++ rest) ≡ true
  unfolding fits
  any_found ps [] rest free h = any_now ps rest h
  any_found ps (d ∷ run) rest free h =
      rw (free.0, fits)
        (found_later (fits directory ps (d ∷ run ++ rest))
          (fits directory (any_run ∷ ps) (run ++ rest)) (any_found ps run rest free.1 h))

  pub Fits-fits : (ps : List Piece) (s : Text) → Fits directory ps s → fits directory ps s ≡ true
  unfolding fits Fits
  Fits-fits [] s h = Ends-fits_end s h
  Fits-fits (literal c ∷ ps) s (rest, e, h) = rw (e, fits, ==_refl c) (Fits-fits ps rest h)
  Fits-fits (one ∷ ps) s (c, rest, e, free, h) = rw (e, fits, free) (Fits-fits ps rest h)
  Fits-fits (segment_run ∷ ps) s (run, rest, e, free, h) =
      rw e (segment_found ps run rest free (Fits-fits ps rest h))
  Fits-fits (any_run ∷ ps) s (run, rest, e, free, h) =
      rw e (any_found ps run rest free (Fits-fits ps rest h))

  -- A part of a path: all of it, or what stands behind a slash.
  abbrev pub Behind : List Piece → Text → Type 0
  Behind ps s =
      (before : Text) × (rest : Text) × (s ≡ before ++ b'/' ∷ rest) × Fits directory ps rest

  pub fits_behind-Behind :
      (ps : List Piece) (s : Text) → fits_behind directory ps s ≡ true → Behind ps s
  unfolding fits_behind
  fits_behind-Behind ps [] h = absurd cc
  fits_behind-Behind ps (c ∷ s) h = elim (Bool-cases (is_slash c && fits directory ps s)) [
    | inl e ↦
        let (slash, here) = &&_true (is_slash c) (fits directory ps s) e in
        ([], s, ap (λ b. b ∷ s) ((==_iff c b'/').0 slash), fits-Fits ps s here)
    | inr e ↦
        let (before, rest, f, g) = fits_behind-Behind ps s (rw e at h) in
        (c ∷ before, rest, ap (λ t. c ∷ t) f, g)
  ]

  pub Behind-fits_behind :
      (ps : List Piece) (before rest : Text)
      → Fits directory ps rest
      → fits_behind directory ps (before ++ b'/' ∷ rest) ≡ true
  unfolding fits_behind
  Behind-fits_behind ps [] rest g = rw (Fits-fits ps rest g) refl
  Behind-fits_behind ps (c ∷ before) rest g =
      found_later (is_slash c && fits directory ps (before ++ b'/' ∷ rest))
        (fits_behind directory ps (before ++ b'/' ∷ rest)) (Behind-fits_behind ps before rest g)
