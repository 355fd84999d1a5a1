-- ===== src/Common/Equal.antt =====
-- Equality of texts, and lists of texts as sets.
use mathlib.Core.Bool.{Bool, true, false, ◌||◌}
use mathlib.Core.List.{List, [], ◌∷◌, ◌++◌}
use mathlib.Core.Path.{◌≡◌, refl}
use native.Mathlib.Omega.{arith}
use Prim.Native.Nat.{ℕ}
use mathlib.Core.Option.{Option, none, some}
use repo_karta.Common.Lists.{drop, length}
use repo_karta.Common.Tests.{if◌then◌else◌, ◌==◌, ==_iff}
use repo_karta.Common.Text.{Text, has_prefix, text_eq}

pub text_eq-path : (s t : Text) → text_eq s t ≡ true → s ≡ t
unfolding text_eq
text_eq-path [] [] h = refl
text_eq-path [] (c ∷ t) h = cc
text_eq-path (a ∷ s) [] h = cc
text_eq-path (a ∷ s) (c ∷ t) h =
    let head : (a == c) ≡ true = ground arith in
    let tail : text_eq s t ≡ true = ground arith in
    let e = (==_iff a c).0 head in let f = text_eq-path s t tail in cc

pub text_eq_self : (s : Text) → text_eq s s ≡ true
unfolding text_eq
text_eq_self [] = refl
text_eq_self (c ∷ s) = ground (arith, text_eq_self s)

abbrev pub is_blank : Text → Bool
is_blank [] = true
is_blank (c ∷ s) = false

-- Whether a text is one of a list.
unfoldable pub has_text : Text → List Text → Bool
has_text s [] = false
has_text s (t ∷ ts) = text_eq s t || has_text s ts

pub has_text-append :
    (s : Text) (xs ys : List Text) → has_text s (xs ++ ys) ≡ (has_text s xs || has_text s ys)
unfolding has_text
has_text-append s [] ys = refl
has_text-append s (x ∷ xs) ys = ground (arith, has_text-append s xs ys)

-- A text around the first occurrence of another: what stands before it, and behind.
abbrev before_cons : ℕ → Option (Text × Text) → Option (Text × Text)
before_cons c none = none
before_cons c (some (before, after)) = some (c ∷ before, after)

unfoldable pub split_text : Text → Text → Option (Text × Text)
split_text pattern [] = if is_blank pattern then some ([], []) else none
split_text pattern (c ∷ s) =
    let later = split_text pattern s in
    if has_prefix (c ∷ s) pattern
    then some ([], drop (length pattern) (c ∷ s))
    else before_cons c later
