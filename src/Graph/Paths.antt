-- ===== src/Graph/Paths.antt =====
-- What the list of parents says: each entry stands behind its parent's, and so there is a path.
use mathlib.Core.List.{Memᴰ}
use repo_karta.Common.{
  ◌∙◌, ℕ, zero, suc, ◌+◌, ◌≤◌, ◌<◌, ◌≡◌, ◌∙◌, refl, sym, ap, subst, true, false, Option, none, some,
  List, [], ◌∷◌, arith, All, All-imp, ◌==◌, ==_iff, ==_refl, if◌then◌else◌, Bool-cases, inl, inr,
}
use repo_karta.Graph.Structure.{Link}
use repo_karta.Graph.Visit.{Parents, has, adjacent}

-- A declaration that a path of edges leads to, from a root.
pub data Reaches (roots : List ℕ) (links : List Link) : ℕ → Type 0 where
  root : {i : ℕ} → Memᴰ i roots → Reaches roots links i
  along : {i j : ℕ} → Reaches roots links i → Memᴰ j (adjacent i links) → Reaches roots links j

-- Each entry is new, and a root or the target of an edge from an earlier entry.
abbrev pub IsTree : List ℕ → List Link → Parents → Type 0
IsTree roots links [] = Unit
IsTree roots links ((i, none) ∷ ps) = (has i ps ≡ false) × Memᴰ i roots × IsTree roots links ps
IsTree roots links ((i, some p) ∷ ps) =
    (has i ps ≡ false) × (has p ps ≡ true) × Memᴰ i (adjacent p links) × IsTree roots links ps

abbrev pub IsMarked : Parents → List ℕ → Type 0
IsMarked ps l = All (λ i. has i ps ≡ true) l

pub has-cons :
    (i k : ℕ) (p : Option ℕ) (ps : Parents) → has i ps ≡ true → has i ((k, p) ∷ ps) ≡ true
has-cons i k p ps h = ground arith

pub has-head : (i : ℕ) (p : Option ℕ) (ps : Parents) → has i ((i, p) ∷ ps) ≡ true
has-head i p ps = rw (==_refl i) refl

has-tail :
    (i k : ℕ) (p : Option ℕ) (ps : Parents)
    → has i ((k, p) ∷ ps) ≡ true
    → (i == k) ≡ false
    → has i ps ≡ true
has-tail i k p ps h e = ground arith

pub IsTree-Reaches :
    (roots : List ℕ) (links : List Link) (ps : Parents) (i : ℕ)
    → IsTree roots links ps
    → has i ps ≡ true
    → Reaches roots links i
IsTree-Reaches roots links [] i t h = cc
IsTree-Reaches roots links ((k, none) ∷ ps) i t h = elim (Bool-cases (i == k)) [
  | inl same ↦ Reaches.root (subst (λ j. Memᴰ j roots) (sym ((==_iff i k).0 same)) t.1)
  | inr other ↦ IsTree-Reaches roots links ps i t.2 (has-tail i k none ps h other)
]
IsTree-Reaches roots links ((k, some p) ∷ ps) i t h = elim (Bool-cases (i == k)) [
  | inl same ↦
      Reaches.along (IsTree-Reaches roots links ps p t.3 t.1)
        (subst (λ j. Memᴰ j (adjacent p links)) (sym ((==_iff i k).0 same)) t.2)
  | inr other ↦ IsTree-Reaches roots links ps i t.3 (has-tail i k (some p) ps h other)
]

-- The declarations below a bound that are not reachable yet.
abbrev pub unmarked : ℕ → Parents → ℕ
unmarked zero ps = 0
unmarked (suc n) ps = (if has n ps then 0 else 1) + unmarked n ps

pub unmarked-nil : (n : ℕ) → unmarked n [] ≡ n
unmarked-nil zero = refl
unmarked-nil (suc n) = omega (arith, unmarked-nil n)

unmarked-above :
    (n t : ℕ) (p : Option ℕ) (ps : Parents) → n ≤ t → unmarked n ((t, p) ∷ ps) ≡ unmarked n ps
unmarked-above zero t p ps h = refl
unmarked-above (suc n) t p ps h =
    let rest = unmarked-above n t p ps (omega arith) in
    let other : (n == t) ≡ false = ground arith in rw (other, rest) refl

pub unmarked-cons :
    (n t : ℕ) (p : Option ℕ) (ps : Parents)
    → t < n
    → has t ps ≡ false
    → suc (unmarked n ((t, p) ∷ ps)) ≡ unmarked n ps
unmarked-cons zero t p ps h k = absurd (omega arith)
unmarked-cons (suc n) t p ps h k = elim (Bool-cases (n == t)) [
  | inl same ↦
      let e : n ≡ t = (==_iff n t).0 same in
      let rest = unmarked-above n t p ps (omega arith) in
      let fresh : has n ps ≡ false = ap (λ i. has i ps) e ∙ k in
      rw (same, rest, fresh) (omega arith)
  | inr other ↦
      let rest = unmarked-cons n t p ps (ground arith) k in rw (other) (omega (arith, rest))
]

-- Every element of a list is an element of it.
pub All-Memᴰ {ℓ} : {A : Type ℓ} (l : List A) → All (λ x. Memᴰ x l) l
All-Memᴰ [] = tt
All-Memᴰ (x ∷ l) = (Memᴰ.head refl, All-imp (λ _ m. Memᴰ.tail m) l (All-Memᴰ l))
