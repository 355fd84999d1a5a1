-- ===== src/Graph/Witness.antt =====
-- The witness of a reachable declaration is a path from a root to it.
use mathlib.Core.List.{Memᴰ}
use repo_karta.Common.{
  ℕ, zero, suc, ◌≤◌, ◌≡◌, ◌∙◌, refl, sym, ap, subst, true, false, Option, none, some, List, [], ◌∷◌,
  arith, length, ◌==◌, ==_iff, if_true, if_false, Bool-cases, inl, inr,
}
use repo_karta.Graph.Structure.{Link}
use repo_karta.Graph.Visit.{Parents, has, adjacent}
use repo_karta.Graph.Paths.{IsTree}
use repo_karta.Graph.Report.{parent_of, trail, trail_on}

-- Each number is joined to the next by an edge.
abbrev pub IsChain : List Link → List ℕ → Type 0
IsChain links [] = Unit
IsChain links (x ∷ []) = Unit
IsChain links (x ∷ y ∷ l) = Memᴰ y (adjacent x links) × IsChain links (y ∷ l)

abbrev pub BeginsIn : List ℕ → List ℕ → Type 0
BeginsIn roots [] = ⊥
BeginsIn roots (x ∷ l) = Memᴰ x roots

abbrev pub EndsWith : ℕ → List ℕ → Type 0
EndsWith t [] = ⊥
EndsWith t (x ∷ []) = x ≡ t
EndsWith t (x ∷ y ∷ l) = EndsWith t (y ∷ l)

-- A path of edges from a root to a declaration.
pub record IsRoute (roots : List ℕ) (links : List Link) (t : ℕ) (l : List ℕ) : Type 0 where
  pub begins : BeginsIn roots l
  pub chain : IsChain links l
  pub ends : EndsWith t l

distinct : (i k : ℕ) (ps : Parents) → has i ps ≡ true → has k ps ≡ false → (i == k) ≡ false
distinct i k ps h new = elim (Bool-cases (i == k)) [
  | inl same ↦ absurd (clash (sym (ap (λ j. has j ps) ((==_iff i k).0 same)) ∙ h))
  | inr other ↦ other
]
  where
    clash : has k ps ≡ true → ⊥
    clash e = cc

-- What an entry says of its parent.
parent-has :
    (roots : List ℕ) (links : List Link) (ps : Parents) (i p : ℕ)
    → IsTree roots links ps
    → parent_of i ps ≡ some (some p)
    → has p ps ≡ true
unfolding parent_of
parent-has roots links [] i p t e = cc
parent-has roots links ((k, none) ∷ ps) i p t e = elim (Bool-cases (i == k)) [
  | inl same ↦ absurd (ground arith)
  | inr other ↦
      let rest = parent-has roots links ps i p t.2 (sym (if_false (i == k) _ _ other) ∙ e) in
      ground arith
]
parent-has roots links ((k, some q) ∷ ps) i p t e = elim (Bool-cases (i == k)) [
  | inl same ↦
      let own : q ≡ p = ground arith in
      let there : has p ps ≡ true = subst (λ j. has j ps ≡ true) own t.1 in ground arith
  | inr other ↦
      let rest = parent-has roots links ps i p t.3 (sym (if_false (i == k) _ _ other) ∙ e) in
      ground arith
]

module _ (roots : List ℕ) (links : List Link) where
  -- A newer entry changes no trail from an older one.
  trail-cons :
      (fuel k : ℕ) (q : Option ℕ) (ps : Parents) (i : ℕ) (l : List ℕ)
      → IsTree roots links ps
      → has k ps ≡ false
      → has i ps ≡ true
      → trail fuel ((k, q) ∷ ps) i l ≡ trail fuel ps i l
  unfolding trail trail_on
  trail-cons zero k q ps i l t new h = refl
  trail-cons (suc fuel) k q ps i l t new h =
      let same : parent_of i ((k, q) ∷ ps) ≡ parent_of i ps =
        unfold parent_of in if_false (i == k) (some q) (parent_of i ps) (distinct i k ps h new) in
      ap (trail_on (trail fuel ((k, q) ∷ ps)) (i ∷ l)) same
      ∙ go (λ p e. trail-cons fuel k q ps p (i ∷ l) t new (parent-has roots links ps i p t e))
          (parent_of i ps) refl
    where
      go :
          ((p : ℕ)
            → parent_of i ps ≡ some (some p)
            → trail fuel ((k, q) ∷ ps) p (i ∷ l) ≡ trail fuel ps p (i ∷ l))
          → (o : Option (Option ℕ)) → parent_of i ps ≡ o
          → trail_on (trail fuel ((k, q) ∷ ps)) (i ∷ l) o ≡ trail_on (trail fuel ps) (i ∷ l) o
      go older none e = refl
      go older (some none) e = refl
      go older (some (some p)) e = older p e

  abbrev pub HasRoute : ℕ → Option (List ℕ) → Type 0
  HasRoute t o = (w : List ℕ) × (o ≡ some w) × IsRoute roots links t w

  pub trail-HasRoute :
      (fuel : ℕ) (ps : Parents) (i goal : ℕ) (l : List ℕ)
      → IsTree roots links ps
      → has i ps ≡ true
      → length ps ≤ fuel
      → IsChain links (i ∷ l)
      → EndsWith goal (i ∷ l)
      → HasRoute goal (trail fuel ps i l)
  unfolding trail trail_on
  trail-HasRoute fuel [] i goal l t h b c g = cc
  trail-HasRoute zero (x ∷ ps) i goal l t h b c g = absurd (omega arith)
  trail-HasRoute (suc fuel) ((k, none) ∷ ps) i goal l t h b c g = elim (Bool-cases (i == k)) [
    | inl same ↦
        let own : parent_of i ((k, none) ∷ ps) ≡ some none =
          unfold parent_of in if_true (i == k) (some none) (parent_of i ps) same in
        rw own (
          i ∷ l,
          refl,
          record {
            begins = subst (λ j. Memᴰ j roots) (sym ((==_iff i k).0 same)) t.1;
            chain = c;
            ends = g;
          },
        )
    | inr other ↦
        let older : has i ps ≡ true = ground arith in
        rw (trail-cons (suc fuel) k none ps i l t.2 t.0 older)
          (trail-HasRoute (suc fuel) ps i goal l t.2 older (omega arith) c g)
  ]
  trail-HasRoute (suc fuel) ((k, some p) ∷ ps) i goal l t h b c g = elim (Bool-cases (i == k)) [
    | inl same ↦
        let own : parent_of i ((k, some p) ∷ ps) ≡ some (some p) =
          unfold parent_of in if_true (i == k) (some (some p)) (parent_of i ps) same in
        let edge = subst (λ j. Memᴰ j (adjacent p links)) (sym ((==_iff i k).0 same)) t.2 in
        rw (own, trail-cons fuel k (some p) ps p (i ∷ l) t.3 t.0 t.1)
          (trail-HasRoute fuel ps p goal (i ∷ l) t.3 t.1 (omega arith) (edge, c) g)
    | inr other ↦
        let older : has i ps ≡ true = ground arith in
        rw (trail-cons (suc fuel) k (some p) ps i l t.3 t.0 older)
          (trail-HasRoute (suc fuel) ps i goal l t.3 older (omega arith) c g)
  ]
