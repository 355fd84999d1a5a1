-- ===== src/Graph/Report.antt =====
-- The report of `buildReachability` (internal/graph/reachability.go) before its lists are sorted,
-- without the fields that are copied and the links to sources.
use mathlib.Core.List.{map}
use repo_karta.Common.Text.{Text}
use repo_karta.Common.{
  ℕ, zero, suc, ◌+◌, Bool, true, false, ◌&&◌, not, Option, none, some, List, [], ◌∷◌, length, ◌==◌,
  if◌then◌else◌,
}
use repo_karta.Graph.Edges.{Edges, declarations_of, edges_of, id_at}
use repo_karta.Graph.Names.{is_private_declaration}
use repo_karta.Graph.Structure.{Declaration, Document, Link, StructuralIndex}
use repo_karta.Graph.Visit.{Parents, has, reached, roots_from}

-- The three constants of a symbol's state.
pub data State : Type 0 where
  reachable probably_unreachable unknown : State

-- `ReachabilitySymbol`
pub record ReachabilitySymbol : Type 0 where
  pub id : Text
  pub root_kind : Text
  pub state : State
  pub witness : List Text

-- `ReachabilitySummary`
pub record Summary : Type 0 where
  pub reachable_count : ℕ
  pub probably_unreachable_count : ℕ
  pub unknown_count : ℕ
  pub roots : ℕ
  pub edges : ℕ

-- `ReachabilityReport`, with the fields of `ReachabilityCompleteness` that vary
pub record Report : Type 0 where
  pub truncated_documents : ℕ
  pub incomplete_documents : ℕ
  pub ambiguous_relations : ℕ
  pub unresolved_relations : ℕ
  pub documents_complete : Bool
  pub static_analysis_complete : Bool
  pub summary : Summary
  pub symbols : List ReachabilitySymbol
  pub links : List Link

-- `parents` at an index, and whether it is found.
unfoldable pub parent_of : ℕ → Parents → Option (Option ℕ)
parent_of i [] = none
parent_of i ((k, p) ∷ ps) = let later = parent_of i ps in if i == k then some p else later

-- What follows an entry of the witness.
unfoldable pub trail_on :
    (ℕ → List ℕ → Option (List ℕ)) → List ℕ → Option (Option ℕ) → Option (List ℕ)
trail_on again l none = some l
trail_on again l (some none) = some l
trail_on again l (some (some p)) = again p l

-- The loop of `reachabilityWitness`, by indices; each goes in front, which is the order that
-- `slices.Reverse` leaves.
unfoldable pub trail : ℕ → Parents → ℕ → List ℕ → Option (List ℕ)
trail zero ps current l = none
trail (suc fuel) ps current l = trail_on (trail fuel ps) (current ∷ l) (parent_of current ps)

abbrev pub symbol_of : Declaration → State → List Text → ReachabilitySymbol
symbol_of d state witness = record {
  id = d.id;
  root_kind = d.root_kind;
  state = state;
  witness = witness;
}

-- `reachabilityWitness`, for a symbol that is reachable
unfoldable pub with_witness :
    List Declaration → Declaration → Option (List ℕ) → Option ReachabilitySymbol
with_witness ds d none = none
with_witness ds d (some l) = some (symbol_of d reachable (map (id_at ds) l))

unfoldable pub if_private : Declaration → Option Bool → Option ReachabilitySymbol
if_private d none = none
if_private d (some true) = some (symbol_of d probably_unreachable [])
if_private d (some false) = some (symbol_of d unknown [])

-- The switch of the last loop; none stands for a panic.
unfoldable pub judge :
    List Declaration → Parents → Bool → ℕ → Declaration → Option ReachabilitySymbol
judge ds ps complete i d =
    if has i ps
    then with_witness ds d (trail (length ps) ps i [])
    else if complete
    then if_private d (is_private_declaration d)
    else some (symbol_of d unknown [])

unfoldable pub cons_symbol :
    Option ReachabilitySymbol → Option (List ReachabilitySymbol) → Option (List ReachabilitySymbol)
cons_symbol none rest = none
cons_symbol (some s) none = none
cons_symbol (some s) (some rest) = some (s ∷ rest)

-- The last loop, from an index on.
unfoldable pub judge_from :
    List Declaration → Parents → Bool → ℕ → List Declaration → Option (List ReachabilitySymbol)
judge_from ds ps complete i [] = some []
judge_from ds ps complete i (d ∷ rest) =
    cons_symbol (judge ds ps complete i d) (judge_from ds ps complete (suc i) rest)

-- Its counters.
unfoldable pub count : State → Summary → Summary
count reachable s = record s { reachable_count = s.reachable_count + 1 }
count probably_unreachable s = record s {
  probably_unreachable_count = s.probably_unreachable_count + 1;
}
count unknown s = record s { unknown_count = s.unknown_count + 1 }

unfoldable pub counted : Summary → List ReachabilitySymbol → Summary
counted s [] = s
counted s (x ∷ rest) = counted (count x.state s) rest

-- The counters of the first loop.
unfoldable pub truncated_of : List Document → ℕ
truncated_of [] = 0
truncated_of (d ∷ rest) = (if d.truncated then 1 else 0) + truncated_of rest

unfoldable pub incomplete_of : List Document → ℕ
incomplete_of [] = 0
incomplete_of (d ∷ rest) = (if not d.parse_complete then 1 else 0) + incomplete_of rest

-- `DocumentsComplete` and `StaticAnalysisComplete`
unfoldable pub documents_complete_of : StructuralIndex → Bool
documents_complete_of index =
    not index.structure_truncated
    && truncated_of index.structure == 0
    && incomplete_of index.structure == 0

unfoldable pub static_complete_of : StructuralIndex → Bool
static_complete_of index = index.complete && documents_complete_of index

unfoldable pub report_of :
    StructuralIndex → Edges → ℕ → Option (List ReachabilitySymbol) → Option Report
report_of index e roots none = none
report_of index e roots (some symbols) = some (record {
  truncated_documents = truncated_of index.structure;
  incomplete_documents = incomplete_of index.structure;
  ambiguous_relations = e.ambiguous;
  unresolved_relations = e.unresolved;
  documents_complete = documents_complete_of index;
  static_analysis_complete = static_complete_of index;
  summary =
      counted
        (record {
          reachable_count = 0;
          probably_unreachable_count = 0;
          unknown_count = 0;
          roots = roots;
          edges = length e.links;
        })
        symbols;
  symbols = symbols;
  links = e.links;
})

unfoldable pub judged : StructuralIndex → List Declaration → Edges → Option Parents → Option Report
judged index ds e none = none
judged index ds e (some ps) =
    report_of index e (length (roots_from 0 ds)) (judge_from ds ps (static_complete_of index) 0 ds)

module _ (wide : ℕ → ℕ) where
  abbrev pub declared : StructuralIndex → List Declaration
  declared index = declarations_of wide index.structure

  -- `buildReachability` up to its sorts; none stands for a panic, or for fuel that ran out.
  unfoldable pub build_reachability : StructuralIndex → Option Report
  build_reachability index =
      let ds = declared index in
      let e = edges_of ds index.structure in judged index ds e (reached ds e.links)
