-- ===== src/Scim/Paths.antt =====
-- Whom the path of a patch names (`memberFilterValue` in internal/scim/scim.go).
use repo_karta.Common.Equal.{is_blank, split_text}
use repo_karta.Common.Text.{Text, codes, cut, has_prefix, text_eq}
use repo_karta.Common.{
  ℕ, ◌≡◌, refl, sym, ap, ◌∙◌, Bool, true, false, ◌&&◌, not, Option, none, some, [], ◌∷◌, ◌++◌, All,
  arith, ◌==◌, ==_iff, Bool-cases, inl, inr,
}
use repo_karta.Scim.Members.{member_filter_value}

-- A text without a byte.
abbrev pub Without : ℕ → Text → Type 0
Without b = All (λ c. (c == b) ≡ false)

-- A path has no quotation mark and names nobody, or what it names stands between two of them.
pub data Names : Text → Option Text → Type 0 where
  nobody : (path : Text) → Without b'"' path → Names path none
  somebody :
      (path before id after : Text)
      → Without b'v' before
      → Without b'"' id
      → path ≡ before ++ (codes "value eq \"" ++ (id ++ b'"' ∷ after))
      → Names path (some id)

abbrev pub is_named : Text → Option Text → Bool
is_named s none = false
is_named s (some id) = not (is_blank id) && text_eq s id

cut-Without :
    (id after : Text) → Without b'"' id → cut b'"' (id ++ b'"' ∷ after) ≡ (id, after, true)
unfolding cut
cut-Without [] after h = refl
cut-Without (c ∷ id) after h = rw (h.0, cut-Without id after h.1) refl

split-somebody :
    (before rest : Text)
    → Without b'v' before
    → split_text (codes "value eq \"") (before ++ (codes "value eq \"" ++ rest))
      ≡ some (before, rest)
unfolding split_text has_prefix
split-somebody [] rest h = refl
split-somebody (c ∷ before) rest h = rw (h.0, split-somebody before rest h.1) refl

prefix-Without : (s p : Text) → Without b'"' s → has_prefix s p ≡ true → Without b'"' p
unfolding has_prefix
prefix-Without s [] w h = tt
prefix-Without [] (d ∷ p) w h = absurd cc
prefix-Without (c ∷ s) (d ∷ p) w h =
    let same : (c == d) ≡ true = ground arith in
    let more : has_prefix s p ≡ true = ground arith in
    let e = (==_iff c d).0 same in (ap (λ b. b == b'"') (sym e) ∙ w.0, prefix-Without s p w.1 more)

quoted : ¬ Without b'"' (codes "value eq \"")
quoted w = absurd (let h = w.1.1.1.1.1.1.1.1.1.0 in cc)

split-nobody : (path : Text) → Without b'"' path → split_text (codes "value eq \"") path ≡ none
unfolding split_text
split-nobody [] h = refl
split-nobody (c ∷ path) h = elim (Bool-cases (has_prefix (c ∷ path) (codes "value eq \""))) [
  | inl e ↦ absurd (quoted (prefix-Without (c ∷ path) (codes "value eq \"") h e))
  | inr e ↦ rw (e, split-nobody path h.1) refl
]

-- What the code reads from a path is what the path names.
pub is_named-Names :
    (s path : Text) (named : Option Text)
    → Names path named
    → (not (is_blank (member_filter_value path)) && text_eq s (member_filter_value path))
      ≡ is_named s named
unfolding member_filter_value
is_named-Names s p none (nobody path w) = rw (split-nobody path w) refl
is_named-Names s p (some n) (somebody path before id after v q e) =
    rw (e, split-somebody before (id ++ b'"' ∷ after) v, cut-Without id after q) refl
