-- ===== src/Common/Select.antt =====
-- What `select` keeps of a list.
use mathlib.Core.Bool.{Bool, true, false}
use mathlib.Core.List.{List, [], ◌∷◌, Memᴰ}
use mathlib.Core.Logic.{inl, inr}
use mathlib.Core.Path.{◌≡◌, refl, sym, subst}
use repo_karta.Common.Lists.{select, All, any}
use repo_karta.Common.Tests.{Bool-cases}

module _ {ℓ} {A : Type ℓ} where
  pub select_yes :
      (f : A → Bool) (x : A) (xs : List A) → f x ≡ true → select f (x ∷ xs) ≡ x ∷ select f xs
  select_yes f x xs h = rw (h, select) refl

  pub select_no :
      (f : A → Bool) (x : A) (xs : List A) → f x ≡ false → select f (x ∷ xs) ≡ select f xs
  select_no f x xs h = rw (h, select) refl

  pub select-All : (f : A → Bool) (xs : List A) → All (λ x. f x ≡ true) (select f xs)
  select-All f [] = tt
  select-All f (x ∷ xs) =
      let rest = select-All f xs in
      elim (Bool-cases (f x)) [
        | inl e ↦ subst (All (λ x. f x ≡ true)) (sym (select_yes f x xs e)) (e, rest)
        | inr e ↦ subst (All (λ x. f x ≡ true)) (sym (select_no f x xs e)) rest
      ]

  pub select-Memᴰ :
      (f : A → Bool) {a : A} {xs : List A} → Memᴰ a xs → f a ≡ true → Memᴰ a (select f xs)
  select-Memᴰ f (Memᴰ.head {x} {xs = l} e) h = rw (select_yes f x l (rw e at h)) (Memᴰ.head e)
  select-Memᴰ f {a} (Memᴰ.tail {x = b} {xs = l} m) h =
      let rest = select-Memᴰ f m h in
      elim (Bool-cases (f b)) [
        | inl e ↦ rw (select_yes f b l e) (Memᴰ.tail rest)
        | inr e ↦ rw (select_no f b l e) rest
      ]

  pub any-All : (f : A → Bool) (xs : List A) → any f xs ≡ false → All (λ x. f x ≡ false) xs
  any-All f [] h = tt
  any-All f (x ∷ xs) h = elim (Bool-cases (f x)) [
    | inl e ↦ absurd (let g : true ≡ false = rw e at h in cc)
    | inr e ↦ (e, any-All f xs (rw e at h))
  ]

  pub All-Memᴰ {κ} : (P : A → Type κ) {a : A} {xs : List A} → Memᴰ a xs → All P xs → P a
  All-Memᴰ P (Memᴰ.head e) h = subst P (sym e) h.0
  All-Memᴰ P (Memᴰ.tail m) h = All-Memᴰ P m h.1
