-- ===== src/Graph/Visit.antt =====
-- The search of `buildReachability` (internal/graph/reachability.go). A state becomes reachable
-- exactly where `parents` is set, so one list serves both: the declarations that are reachable,
-- each with its parent, none for the -1 of a root.
use repo_karta.Common.{
  ℕ, zero, suc, Bool, false, ◌||◌, Option, none, some, List, [], ◌∷◌, ◌++◌, length, ◌==◌,
  if◌then◌else◌,
}
use repo_karta.Graph.Names.{is_empty}
use repo_karta.Graph.Structure.{Declaration, Link}

abbrev pub Parents : Type 0
Parents = List (ℕ × Option ℕ)

-- Whether a declaration's state is reachable.
abbrev pub has : ℕ → Parents → Bool
has i [] = false
has i ((k, _) ∷ ps) = i == k || has i ps

-- `adjacency` at an index
unfoldable pub adjacent : ℕ → List Link → List ℕ
adjacent i [] = []
adjacent i (l ∷ rest) = let later = adjacent i rest in if l.from == i then l.to ∷ later else later

-- The roots, from an index on.
unfoldable pub roots_from : ℕ → List Declaration → List ℕ
roots_from i [] = []
roots_from i (d ∷ rest) =
    let later = roots_from (suc i) rest in if is_empty d.root_kind then later else i ∷ later

unfoldable pub root_parents : List ℕ → Parents
root_parents [] = []
root_parents (i ∷ rest) = (i, none) ∷ root_parents rest

-- The inner loop, over the targets of a declaration.
unfoldable pub visit_targets : ℕ → List ℕ → List ℕ × Parents → List ℕ × Parents
visit_targets current [] s = s
visit_targets current (t ∷ rest) (queue, ps) =
    visit_targets current rest
      (if has t ps then (queue, ps) else (queue ++ t ∷ [], (t, some current) ∷ ps))

-- The outer loop, over the queue.
unfoldable pub visit : ℕ → List Link → List ℕ × Parents → Option Parents
visit zero links s = none
visit (suc fuel) links ([], ps) = some ps
visit (suc fuel) links (current ∷ queue, ps) =
    visit fuel links (visit_targets current (adjacent current links) (queue, ps))

-- The search, with fuel for each declaration and one round more.
unfoldable pub reached : List Declaration → List Link → Option Parents
reached ds links =
    let roots = roots_from 0 ds in visit (suc (length ds)) links (roots, root_parents roots)
