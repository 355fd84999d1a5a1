-- ===== src/Graph/Closed.antt =====
-- The search ends, and what it has marked is what paths from the roots lead to.
use mathlib.Core.List.{Memᴰ}
use repo_karta.Common.{
  ℕ, zero, suc, ◌+◌, ◌<◌, ◌≡◌, ◌⊎◌, refl, sym, subst, ◌∙◌, true, false, Option, some, List, [], ◌∷◌,
  ◌++◌, arith, All, All-imp, All-append, length, length-append, ◌==◌, ==_iff, Bool-cases, inl, inr,
}
use repo_karta.Graph.Structure.{Link}
use repo_karta.Graph.Visit.{Parents, has, adjacent, visit_targets, visit}
use repo_karta.Graph.Paths.{IsTree, IsMarked, has-cons, has-head, unmarked, unmarked-cons, All-Memᴰ}

Memᴰ-append : (i : ℕ) (xs ys : List ℕ) → Memᴰ i xs ⊎ Memᴰ i ys → Memᴰ i (xs ++ ys)
Memᴰ-append i [] ys (inl m) = elim m [ ]
Memᴰ-append i [] ys (inr m) = m
Memᴰ-append i (x ∷ xs) ys (inl (Memᴰ.head e)) = Memᴰ.head e
Memᴰ-append i (x ∷ xs) ys (inl (Memᴰ.tail m)) = Memᴰ.tail (Memᴰ-append i xs ys (inl m))
Memᴰ-append i (x ∷ xs) ys (inr m) = Memᴰ.tail (Memᴰ-append i xs ys (inr m))

module _ (n : ℕ) (roots : List ℕ) (links : List Link) where
  -- What holds between two rounds of the outer loop.
  pub record IsSearch (queue : List ℕ) (ps : Parents) : Type 0 where
    pub tree : IsTree roots links ps
    pub rooted : IsMarked ps roots
    pub queued : IsMarked ps queue
    pub closed : (i : ℕ) → has i ps ≡ true → Memᴰ i queue ⊎ IsMarked ps (adjacent i links)

  -- What holds between two rounds of the inner loop.
  record IsScan (current : ℕ) (s : List ℕ × Parents) : Type 0 where
    tree : IsTree roots links s.1
    rooted : IsMarked s.1 roots
    queued : IsMarked s.1 s.0
    marked : has current s.1 ≡ true
    closed :
        (i : ℕ) → has i s.1 ≡ true → (i ≡ current) ⊎ (Memᴰ i s.0 ⊎ IsMarked s.1 (adjacent i links))

  abbrev weight : List ℕ × Parents → ℕ
  weight (queue, ps) = length queue + unmarked n ps

  abbrev add : ℕ → ℕ → List ℕ × Parents → List ℕ × Parents
  add current t (queue, ps) = (queue ++ t ∷ [], (t, some current) ∷ ps)

  add-IsScan :
      (current t : ℕ) (s : List ℕ × Parents)
      → IsScan current s
      → Memᴰ t (adjacent current links)
      → has t s.1 ≡ false
      → IsScan current (add current t s)
  add-IsScan current t (queue, ps) v m new = record {
    tree = (new, v.marked, m, v.tree);
    rooted = grown roots v.rooted;
    queued =
        All-append (λ i. has i ((t, some current) ∷ ps) ≡ true) queue (t ∷ [])
          (grown queue v.queued) (has-head t (some current) ps, tt);
    marked = has-cons current t (some current) ps v.marked;
    closed = λ i h. elim (Bool-cases (i == t)) [
      | inl same ↦ inr (inl (Memᴰ-append i queue (t ∷ []) (inr (Memᴰ.head ((==_iff i t).0 same)))))
      | inr other ↦ later i (ground arith)
    ];
  }
    where
      grown : (l : List ℕ) → IsMarked ps l → IsMarked ((t, some current) ∷ ps) l
      grown l h = All-imp (λ i. has-cons i t (some current) ps) l h

      later :
          (i : ℕ)
          → has i ps ≡ true
          → (i ≡ current)
            ⊎ (Memᴰ i (queue ++ t ∷ []) ⊎ IsMarked ((t, some current) ∷ ps) (adjacent i links))
      later i h = elim (v.closed i h) [
        | inl e ↦ inl e
        | inr (inl q) ↦ inr (inl (Memᴰ-append i queue (t ∷ []) (inl q)))
        | inr (inr a) ↦ inr (inr (grown _ a))
      ]

  -- A round of the inner loop, and what the rounds to come keep.
  record Scanned (current : ℕ) (ts : List ℕ) (s r : List ℕ × Parents) : Type 0 where
    scan : IsScan current r
    kept : (i : ℕ) → has i s.1 ≡ true → has i r.1 ≡ true
    targets : IsMarked r.1 ts
    same_weight : weight r ≡ weight s

  visit_targets-Scanned :
      (current : ℕ) (ts : List ℕ) (s : List ℕ × Parents)
      → IsScan current s
      → All (λ t. Memᴰ t (adjacent current links)) ts
      → All (λ t. t < n) ts
      → Scanned current ts s (visit_targets current ts s)
  unfolding visit_targets
  visit_targets-Scanned current [] s v ms bs = record {
    scan = v;
    kept = λ i h. h;
    targets = tt;
    same_weight = refl;
  }
  visit_targets-Scanned current (t ∷ ts) (queue, ps) v ms bs = elim (Bool-cases (has t ps)) [
    | inl old ↦
        let r = visit_targets-Scanned current ts (queue, ps) v ms.1 bs.1 in
        rw old (record {
          scan = r.scan;
          kept = r.kept;
          targets = (r.kept t old, r.targets);
          same_weight = r.same_weight;
        })
    | inr new ↦
        let r =
          visit_targets-Scanned current ts (add current t (queue, ps))
            (add-IsScan current t (queue, ps) v ms.0 new) ms.1 bs.1 in
        let size = length-append queue (t ∷ []) in
        let fewer = unmarked-cons n t (some current) ps bs.0 new in
        rw new (record {
          scan = r.scan;
          kept = λ i h. r.kept i (has-cons i t (some current) ps h);
          targets = (r.kept t (has-head t (some current) ps), r.targets);
          same_weight = r.same_weight ∙ omega (arith, size, fewer);
        })
  ]

  IsSearch-IsScan :
      (current : ℕ) (queue : List ℕ) (ps : Parents)
      → IsSearch (current ∷ queue) ps
      → IsScan current (queue, ps)
  IsSearch-IsScan current queue ps v = record {
    tree = v.tree;
    rooted = v.rooted;
    queued = v.queued.1;
    marked = v.queued.0;
    closed = λ i h. elim (v.closed i h) [
      | inl (Memᴰ.head e) ↦ inl e
      | inl (Memᴰ.tail m) ↦ inr (inl m)
      | inr a ↦ inr (inr a)
    ];
  }

  IsScan-IsSearch :
      (current : ℕ) (s : List ℕ × Parents)
      → IsScan current s
      → IsMarked s.1 (adjacent current links)
      → IsSearch s.0 s.1
  IsScan-IsSearch current (queue, ps) v a = record {
    tree = v.tree;
    rooted = v.rooted;
    queued = v.queued;
    closed = λ i h. elim (v.closed i h) [
      | inl e ↦ inr (subst (λ j. IsMarked ps (adjacent j links)) (sym e) a)
      | inr rest ↦ rest
    ];
  }

  -- The search ends with a list of parents that is complete.
  abbrev pub Found : Option Parents → Type 0
  Found o = (ps : Parents) × (o ≡ some ps) × IsSearch [] ps

  pub visit-Found :
      (fuel : ℕ) (s : List ℕ × Parents)
      → ((i : ℕ) → All (λ t. t < n) (adjacent i links))
      → IsSearch s.0 s.1
      → weight s < fuel
      → Found (visit fuel links s)
  unfolding visit
  visit-Found zero s bound v h = absurd (omega arith)
  visit-Found (suc fuel) ([], ps) bound v h = (ps, refl, v)
  visit-Found (suc fuel) (current ∷ queue, ps) bound v h =
      let ts = adjacent current links in
      let r =
        visit_targets-Scanned current ts (queue, ps) (IsSearch-IsScan current queue ps v)
          (All-Memᴰ ts) (bound current) in
      visit-Found fuel (visit_targets current ts (queue, ps)) bound
        (IsScan-IsSearch current _ r.scan r.targets) (omega (arith, r.same_weight))
