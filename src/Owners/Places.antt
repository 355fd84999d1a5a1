-- ===== src/Owners/Places.antt =====
-- `codeownersPath` of internal/graph/codeowners.go: the first of the three places at which a
-- CODEOWNERS file stands. `path.Clean` is written out by the components of a path.
use repo_karta.Common.Equal.{has_text, is_blank}
use repo_karta.Common.Slices.{drop_last}
use repo_karta.Common.Text.{Text, codes, has_prefix, join, split, text_eq}
use repo_karta.Common.{Bool, true, false, ◌||◌, not, List, [], ◌∷◌, ◌++◌, if◌then◌else◌}
use repo_karta.Owners.Rules.{replace_byte}

abbrev dots : Text
dots = codes ".."

-- Whether a path without a root has no component to go up from.
unfoldable pub is_up : List Text → Bool
is_up [] = true
is_up (p ∷ []) = text_eq p dots
is_up (p ∷ q ∷ ps) = is_up (q ∷ ps)

-- One component behind those that are clean.
unfoldable pub clean_part : Bool → List Text → Text → List Text
unfolding is_up text_eq drop_last
clean_part rooted done p =
    if is_blank p || text_eq p (codes ".")
    then done
    else if not (text_eq p dots)
    then done ++ p ∷ []
    else if not (is_up done)
    then drop_last done
    else if rooted
    then done
    else done ++ p ∷ []

unfoldable pub clean_parts : Bool → List Text → List Text → List Text
unfolding clean_part
clean_parts rooted done [] = done
clean_parts rooted done (p ∷ ps) = clean_parts rooted (clean_part rooted done p) ps

unfoldable pub or_here : Text → Text
or_here [] = codes "."
or_here (c ∷ s) = c ∷ s

-- `path.Clean`
unfoldable pub clean : Text → Text
unfolding clean_parts split join has_prefix or_here
clean path =
    if has_prefix path (b'/' ∷ [])
    then b'/' ∷ join (b'/' ∷ []) (clean_parts true [] (split b'/' path))
    else or_here (join (b'/' ∷ []) (clean_parts false [] (split b'/' path)))

-- The keys of `available`
unfoldable pub cleaned_files : List Text → List Text
unfolding clean replace_byte
cleaned_files [] = []
cleaned_files (file ∷ files) = clean (replace_byte 92 b'/' file) ∷ cleaned_files files

abbrev pub places : List Text
places = codes ".github/CODEOWNERS" ∷ codes "CODEOWNERS" ∷ codes "docs/CODEOWNERS" ∷ []

unfoldable pub first_place : List Text → List Text → Text
unfolding has_text
first_place available [] = []
first_place available (place ∷ rest) =
    if has_text place available then place else first_place available rest

unfoldable pub codeowners_path : List Text → Text
unfolding first_place cleaned_files
codeowners_path files = first_place (cleaned_files files) places
