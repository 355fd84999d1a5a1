-- ===== src/Graph/Start.antt =====
-- The start of the search: the roots, each once, in the order of the declarations.
use mathlib.Core.List.{Memᴰ}
use repo_karta.Common.{
  ℕ, suc, ◌+◌, ◌≤◌, ◌<◌, ◌≡◌, refl, true, false, none, List, [], ◌∷◌, arith, All, All-imp, length,
  ◌==◌, if_rule, Bool-cases, ==_iff, inl, inr,
}
use repo_karta.Graph.Names.{is_empty}
use repo_karta.Graph.Structure.{Declaration, Link}
use repo_karta.Graph.Visit.{has, roots_from, root_parents}
use repo_karta.Graph.Paths.{
  IsTree, IsMarked, has-cons, has-head, unmarked, unmarked-nil, unmarked-cons,
}

-- Numbers from a bound on, in ascending order, and below another.
abbrev IsAscending : ℕ → ℕ → List ℕ → Type 0
IsAscending low high [] = Unit
IsAscending low high (i ∷ l) = (low ≤ i) × (i < high) × IsAscending (suc i) high l

IsAscending-weaken :
    (low mid high : ℕ) (l : List ℕ) → low ≤ mid → IsAscending mid high l → IsAscending low high l
IsAscending-weaken low mid high [] h a = tt
IsAscending-weaken low mid high (i ∷ l) h a = (omega (arith, a.0), a.1, a.2)

pub roots_from-IsAscending :
    (i high : ℕ) (ds : List Declaration)
    → i + length ds ≤ high
    → IsAscending i high (roots_from i ds)
unfolding roots_from
roots_from-IsAscending i high [] h = tt
roots_from-IsAscending i high (d ∷ ds) h =
    let later = roots_from-IsAscending (suc i) high ds (omega arith) in
    if_rule (IsAscending i high) (is_empty d.root_kind) _ _
      (λ _. IsAscending-weaken i (suc i) high (roots_from (suc i) ds) (omega arith) later)
      (λ _. (omega arith, omega arith, later))

root_parents-above :
    (i low high : ℕ) (l : List ℕ)
    → i < low
    → IsAscending low high l
    → has i (root_parents l) ≡ false
unfolding root_parents
root_parents-above i low high [] h a = refl
root_parents-above i low high (k ∷ l) h a =
    let rest = root_parents-above i (suc k) high l (omega (arith, a.0)) a.2 in
    let other : (i == k) ≡ false = ground (arith, a.0) in rw (other, rest) refl

pub root_parents-IsTree :
    (roots : List ℕ) (links : List Link) (low high : ℕ) (l : List ℕ)
    → All (λ i. Memᴰ i roots) l
    → IsAscending low high l
    → IsTree roots links (root_parents l)
unfolding root_parents
root_parents-IsTree roots links low high [] ms a = tt
root_parents-IsTree roots links low high (i ∷ l) ms a = (
  root_parents-above i (suc i) high l (omega arith) a.2,
  ms.0,
  root_parents-IsTree roots links (suc i) high l ms.1 a.2,
)

pub root_parents-IsMarked : (l : List ℕ) → IsMarked (root_parents l) l
unfolding root_parents
root_parents-IsMarked [] = tt
root_parents-IsMarked (i ∷ l) = (
  has-head i none (root_parents l),
  All-imp (λ k. has-cons k i none (root_parents l)) l (root_parents-IsMarked l),
)

pub root_parents-weight :
    (low high : ℕ) (l : List ℕ)
    → IsAscending low high l
    → length l + unmarked high (root_parents l) ≡ high
unfolding root_parents
root_parents-weight low high [] a = omega (arith, unmarked-nil high)
root_parents-weight low high (i ∷ l) a =
    let rest = root_parents-weight (suc i) high l a.2 in
    let fewer =
      unmarked-cons high i none (root_parents l) a.1
        (root_parents-above i (suc i) high l (omega arith) a.2) in
    omega (arith, rest, fewer)

-- Only roots are in the list that the search starts with.
pub root_parents-Memᴰ : (i : ℕ) (l : List ℕ) → has i (root_parents l) ≡ true → Memᴰ i l
unfolding root_parents
root_parents-Memᴰ i [] h = cc
root_parents-Memᴰ i (k ∷ l) h = elim (Bool-cases (i == k)) [
  | inl same ↦ Memᴰ.head ((==_iff i k).0 same)
  | inr other ↦ Memᴰ.tail (root_parents-Memᴰ i l (ground arith))
]
