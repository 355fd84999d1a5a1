-- ===== src/Maintenance/Paths.antt =====
-- `pathContains` of internal/maintenance/maintenance.go, for absolute paths with slashes:
-- `filepath.Clean` gives the components that are left, `filepath.Rel` those of the way from the
-- one to the other.
use repo_karta.Common.Equal.{is_blank, text_eq-path}
use repo_karta.Common.Slices.{drop_last}
use repo_karta.Common.Text.{Text, codes, split, text_eq}
use repo_karta.Common.{
  Bool, true, false, ◌||◌, not, List, [], ◌∷◌, ◌++◌, ◌≡◌, refl, Bool-cases, inl, inr, if◌then◌else◌,
}

abbrev pub dots : Text
dots = codes ".."

-- One component behind those that are clean.
unfoldable pub clean_step : List Text → Text → List Text
unfolding text_eq drop_last
clean_step done p =
    if is_blank p || text_eq p (codes ".")
    then done
    else if text_eq p dots
    then drop_last done
    else done ++ p ∷ []

unfoldable pub clean_onto : List Text → List Text → List Text
unfolding clean_step
clean_onto done [] = done
clean_onto done (p ∷ ps) = clean_onto (clean_step done p) ps

-- `filepath.Clean`, as the components behind the first slash
unfoldable pub components : Text → List Text
unfolding clean_onto split
components path = clean_onto [] (split b'/' path)

unfoldable pub ups : List Text → List Text
ups [] = []
ups (p ∷ ps) = dots ∷ ups ps

-- `filepath.Rel` of clean paths
unfoldable pub rel : List Text → List Text → List Text
unfolding ups text_eq
rel [] target = target
rel (r ∷ root) [] = ups (r ∷ root)
rel (r ∷ root) (t ∷ target) = if text_eq r t then rel root target else ups (r ∷ root) ++ t ∷ target

-- Not "..", and nothing that begins with "../".
unfoldable pub stays : List Text → Bool
unfolding text_eq
stays [] = true
stays (p ∷ ps) = not (text_eq p dots)

unfoldable pub path_contains : Text → Text → Bool
unfolding stays rel components
path_contains root target = stays (rel (components root) (components target))

-- The components of a path that lies in a directory begin with the directory's.
abbrev pub IsBelow : Text → Text → Type 0
IsBelow root target = (rest : List Text) × (components target ≡ components root ++ rest)

rel-below :
    (root target : List Text)
    → stays (rel root target) ≡ true
    → (rest : List Text) × (target ≡ root ++ rest)
unfolding rel stays ups
rel-below [] target h = (target, refl)
rel-below (r ∷ root) [] h = absurd cc
rel-below (r ∷ root) (t ∷ target) h = elim (Bool-cases (text_eq r t)) [
  | inl e ↦
      let (rest, f) = rel-below root target (rw e at h) in (rest, let g = text_eq-path r t e in cc)
  | inr e ↦ absurd (let f : false ≡ true = rw e at h in cc)
]

-- What pathContains lets pass lies in the directory.
pub path_contains-IsBelow :
    (root target : Text) → path_contains root target ≡ true → IsBelow root target
unfolding path_contains
path_contains-IsBelow root target h = rel-below (components root) (components target) h
