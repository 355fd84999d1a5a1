-- ===== src/Graph/Reached.antt =====
-- The search ends, and has then marked exactly what paths of edges from the roots lead to.
use mathlib.Core.List.{Memᴰ}
use repo_karta.Common.{
  ℕ, suc, ◌<◌, ◌≡◌, ◌∙◌, ◌⊎◌, ap, true, List, [], ◌∷◌, arith, All, length, inl, inr,
}
use repo_karta.Graph.Structure.{Declaration, Link}
use repo_karta.Graph.Visit.{Parents, has, adjacent, reached, root_parents, roots_from}
use repo_karta.Graph.Paths.{IsMarked, Reaches, All-Memᴰ}
use repo_karta.Graph.Closed.{Found, IsSearch, visit-Found}
use repo_karta.Graph.Start.{
  root_parents-IsMarked, root_parents-Memᴰ, root_parents-IsTree, root_parents-weight,
  roots_from-IsAscending,
}
use repo_karta.Graph.Bounds.{adjacent-bound}

marked_list : (ps : Parents) (l : List ℕ) (j : ℕ) → IsMarked ps l → Memᴰ j l → has j ps ≡ true
marked_list ps [] j h m = elim m [ ]
marked_list ps (i ∷ l) j h (Memᴰ.head e) = ap (λ k. has k ps) e ∙ h.0
marked_list ps (i ∷ l) j h (Memᴰ.tail m) = marked_list ps l j h.1 m

no_queue : (i : ℕ) (l : List ℕ) (ps : Parents) → Memᴰ i [] ⊎ IsMarked ps l → IsMarked ps l
no_queue i l ps (inl m) = elim m [ ]
no_queue i l ps (inr h) = h

-- A search that has ended has marked all that paths lead to.
pub Reaches-has :
    (n : ℕ) (roots : List ℕ) (links : List Link) (ps : Parents) (i : ℕ)
    → IsSearch n roots links [] ps
    → Reaches roots links i
    → has i ps ≡ true
Reaches-has n roots links ps i s (Reaches.root m) = marked_list ps roots i s.rooted m
Reaches-has n roots links ps i s (Reaches.along {i = h} r m) =
    let before = Reaches-has n roots links ps h s r in
    marked_list ps (adjacent h links) i (no_queue h (adjacent h links) ps (s.closed h before)) m

module _ (ds : List Declaration) (links : List Link) where
  abbrev pub roots : List ℕ
  roots = roots_from 0 ds

  pub reached-Found :
      All (λ l. (l.from < length ds) × (l.to < length ds)) links
      → Found (length ds) roots links (reached ds links)
  unfolding reached
  reached-Found bound =
      let ascending = roots_from-IsAscending 0 (length ds) ds (omega arith) in
      let marked = root_parents-IsMarked roots in
      let weight = root_parents-weight 0 (length ds) roots ascending in
      visit-Found (length ds) roots links (suc (length ds)) (roots, root_parents roots)
        (λ i. adjacent-bound (length ds) i links bound)
        (record {
          tree = root_parents-IsTree roots links 0 (length ds) roots (All-Memᴰ roots) ascending;
          rooted = marked;
          queued = marked;
          closed = λ i h. inl (root_parents-Memᴰ i roots h);
        })
        (omega (arith, weight))
