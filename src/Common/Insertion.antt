-- ===== src/Common/Insertion.antt =====
-- The insertion sort of package slices: it moves each element to the left as long as it is less
-- than its neighbour. Stable sorts of a strict weak order all agree with it.
use mathlib.Core.Bool.{Bool, true, false}
use mathlib.Core.List.{List, [], ◌∷◌}
use mathlib.Core.Path.{◌≡◌}
use repo_karta.Common.Lists.{All}
use mathlib.Core.Logic.{inl, inr}
use repo_karta.Common.Tests.{if◌then◌else◌, if_rule, Bool-cases}

module _ {ℓ} {A : Type ℓ} where
  unfoldable pub reverse_onto : List A → List A → List A
  reverse_onto [] out = out
  reverse_onto (x ∷ xs) out = reverse_onto xs (x ∷ out)

  -- Every element stands in the relation to all behind it.
  abbrev pub Pairwise {κ} : (A → A → Type κ) → List A → Type κ
  Pairwise R [] = Unit
  Pairwise R (x ∷ xs) = All (R x) xs × Pairwise R xs

module _ {ℓ} {A : Type ℓ} (less : A → A → Bool) where
  -- The sorted part is kept with its last element first.
  unfoldable pub insert : A → List A → List A
  insert x [] = x ∷ []
  insert x (y ∷ ys) = let rest = insert x ys in if less x y then y ∷ rest else x ∷ y ∷ ys

  unfoldable pub insert_all : List A → List A → List A
  insert_all [] sorted = sorted
  insert_all (x ∷ xs) sorted = insert_all xs (insert x sorted)

  unfoldable pub insertion_sort : List A → List A
  insertion_sort xs = reverse_onto (insert_all xs []) []

-- What holds of all elements of a list holds of all of the sorted one, and the other way round.
module _ {ℓ κ} {A : Type ℓ} (Q : A → Type κ) where
  reverse_onto-All : (xs out : List A) → All Q xs → All Q out → All Q (reverse_onto xs out)
  unfolding reverse_onto
  reverse_onto-All [] out h k = k
  reverse_onto-All (x ∷ xs) out h k = reverse_onto-All xs (x ∷ out) h.1 (h.0, k)

  reverse_onto-back : (xs out : List A) → All Q (reverse_onto xs out) → All Q xs × All Q out
  unfolding reverse_onto
  reverse_onto-back [] out h = (tt, h)
  reverse_onto-back (x ∷ xs) out h =
      let (hs, (hx, ho)) = reverse_onto-back xs (x ∷ out) h in ((hx, hs), ho)

  module _ (less : A → A → Bool) where
    insert-All : (x : A) (ys : List A) → Q x → All Q ys → All Q (insert less x ys)
    unfolding insert
    insert-All x [] h k = (h, tt)
    insert-All x (y ∷ ys) h k =
        if_rule (All Q) (less x y) (y ∷ insert less x ys) (x ∷ y ∷ ys)
          (λ _. (k.0, insert-All x ys h k.1)) (λ _. (h, k))

    insert-back : (x : A) (ys : List A) → All Q (insert less x ys) → Q x × All Q ys
    unfolding insert
    insert-back x [] h = h
    insert-back x (y ∷ ys) h =
        if_rule (λ zs. All Q zs → Q x × All Q (y ∷ ys)) (less x y) (y ∷ insert less x ys)
          (x ∷ y ∷ ys) (λ _ k. let (hx, hys) = insert-back x ys k.1 in (hx, (k.0, hys))) (λ _ k. k)
          h

    insert_all-All : (xs ys : List A) → All Q xs → All Q ys → All Q (insert_all less xs ys)
    unfolding insert_all
    insert_all-All [] ys h k = k
    insert_all-All (x ∷ xs) ys h k =
        insert_all-All xs (insert less x ys) h.1 (insert-All x ys h.0 k)

    insert_all-back : (xs ys : List A) → All Q (insert_all less xs ys) → All Q xs × All Q ys
    unfolding insert_all
    insert_all-back [] ys h = (tt, h)
    insert_all-back (x ∷ xs) ys h =
        let (hs, k) = insert_all-back xs (insert less x ys) h in
        let (hx, hys) = insert-back x ys k in ((hx, hs), hys)

    pub insertion_sort-All : (xs : List A) → All Q xs → All Q (insertion_sort less xs)
    unfolding insertion_sort
    insertion_sort-All xs h =
        reverse_onto-All (insert_all less xs []) [] (insert_all-All xs [] h tt) tt

    pub insertion_sort-back : (xs : List A) → All Q (insertion_sort less xs) → All Q xs
    unfolding insertion_sort
    insertion_sort-back xs h =
        (insert_all-back xs [] (reverse_onto-back (insert_all less xs []) [] h).0).0

-- The sorted list is in order, where the comparison is right about the elements that meet `P`.
module _ {ℓ κ ι} {A : Type ℓ} (P : A → Type κ) (R : A → A → Type ι) (less : A → A → Bool)
    (yes_less : (a b : A) → P a → P b → less a b ≡ true → R a b)
    (not_less : (a b : A) → P a → P b → less a b ≡ false → R b a)
    (R_trans : (a b c : A) → P a → P b → P c → R a b → R b c → R a c) where
  abbrev Descending : List A → Type ι
  Descending xs = Pairwise (λ a b. R b a) xs

  -- What stands below `y` stands below what `y` stands below.
  below :
      (x y : A) (ys : List A)
      → P x
      → P y
      → All P ys
      → R y x
      → All (λ b. R b y) ys
      → All (λ b. R b x) ys
  below x y [] px py ps r h = tt
  below x y (z ∷ zs) px py ps r h = (R_trans z y x ps.0 py px h.0 r, below x y zs px py ps.1 r h.1)

  insert-Descending :
      (x : A) (ys : List A) → P x → All P ys → Descending ys → Descending (insert less x ys)
  unfolding insert
  insert-Descending x [] px ps d = (tt, tt)
  insert-Descending x (y ∷ ys) px ps d = elim (Bool-cases (less x y)) [
    | inl e ↦ rw e (
      insert-All (λ b. R b y) less x ys (yes_less x y px ps.0 e) d.0,
      insert-Descending x ys px ps.1 d.1,
    )
    | inr e ↦
        rw e ((not_less x y px ps.0 e, below x y ys px ps.0 ps.1 (not_less x y px ps.0 e) d.0), d)
  ]

  insert_all-Descending :
      (xs ys : List A) → All P xs → All P ys → Descending ys → Descending (insert_all less xs ys)
  unfolding insert_all
  insert_all-Descending [] ys p q d = d
  insert_all-Descending (x ∷ xs) ys p q d =
      insert_all-Descending xs (insert less x ys) p.1 (insert-All P less x ys p.0 q)
        (insert-Descending x ys p.0 q d)

  -- Each of the one list stands below each of the other.
  abbrev Apart : List A → List A → Type ι
  Apart xs out = All (λ a. All (R a) out) xs

  Apart-step : (x : A) (xs out : List A) → All (λ b. R b x) xs → Apart xs out → Apart xs (x ∷ out)
  Apart-step x [] out h k = tt
  Apart-step x (y ∷ ys) out h k = ((h.0, k.0), Apart-step x ys out h.1 k.1)

  reverse_onto-Pairwise :
      (xs out : List A)
      → Descending xs
      → Pairwise R out
      → Apart xs out
      → Pairwise R (reverse_onto xs out)
  unfolding reverse_onto
  reverse_onto-Pairwise [] out d p h = p
  reverse_onto-Pairwise (x ∷ xs) out d p h =
      reverse_onto-Pairwise xs (x ∷ out) d.1 (h.0, p) (Apart-step x xs out d.0 h.1)

  none-Apart : (xs : List A) → Apart xs []
  none-Apart [] = tt
  none-Apart (x ∷ xs) = (tt, none-Apart xs)

  pub insertion_sort-Pairwise : (xs : List A) → All P xs → Pairwise R (insertion_sort less xs)
  unfolding insertion_sort
  insertion_sort-Pairwise xs h =
      reverse_onto-Pairwise (insert_all less xs []) [] (insert_all-Descending xs [] h tt tt) tt
        (none-Apart (insert_all less xs []))
