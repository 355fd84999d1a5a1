-- ===== src/Graph/Outcome.antt =====
-- The report is made, its symbols are judged right, and its counters count them.
use repo_karta.Common.{
  ℕ, ◌+◌, ◌≡◌, refl, Bool, true, false, some, List, [], ◌∷◌, arith, All, length, if◌then◌else◌,
}
use repo_karta.Graph.Structure.{Declaration, StructuralIndex}
use repo_karta.Graph.Names.{is_empty}
use repo_karta.Graph.Edges.{Edges, edges_of}
use repo_karta.Graph.Visit.{roots_from}
use repo_karta.Graph.Reached.{reached-Found}
use repo_karta.Graph.Bounds.{edges_of-bound}
use repo_karta.Graph.Report.{
  ReachabilitySymbol, State, reachable, probably_unreachable, unknown, Report, Summary,
  build_reachability, count, counted, declared, judged, report_of, static_complete_of,
}
use repo_karta.Graph.Verdict.{AllJudged, judge_from-AllJudged}

-- The number of symbols in a state.
abbrev pub is_state : State → State → Bool
is_state reachable reachable = true
is_state probably_unreachable probably_unreachable = true
is_state unknown unknown = true
is_state _ _ = false

abbrev pub number_of : State → List ReachabilitySymbol → ℕ
number_of state [] = 0
number_of state (s ∷ rest) = (if is_state state s.state then 1 else 0) + number_of state rest

pub record AreCounted (s : Summary) (before : Summary) (l : List ReachabilitySymbol) : Type 0 where
  pub reachable_exact : s.reachable_count ≡ before.reachable_count + number_of reachable l
  pub probably_exact :
      s.probably_unreachable_count
      ≡ before.probably_unreachable_count + number_of probably_unreachable l
  pub unknown_exact : s.unknown_count ≡ before.unknown_count + number_of unknown l
  pub others : (s.roots ≡ before.roots) × (s.edges ≡ before.edges)

counted_step :
    (r s : Summary) (x : ReachabilitySymbol) (l : List ReachabilitySymbol) (state : State)
    → x.state ≡ state
    → AreCounted r (count state s) l
    → AreCounted r s (x ∷ l)
unfolding count
counted_step r s x l reachable e h = record {
  reachable_exact = rw e (omega (arith, h.reachable_exact));
  probably_exact = rw e (omega (arith, h.probably_exact));
  unknown_exact = rw e (omega (arith, h.unknown_exact));
  others = h.others;
}
counted_step r s x l probably_unreachable e h = record {
  reachable_exact = rw e (omega (arith, h.reachable_exact));
  probably_exact = rw e (omega (arith, h.probably_exact));
  unknown_exact = rw e (omega (arith, h.unknown_exact));
  others = h.others;
}
counted_step r s x l unknown e h = record {
  reachable_exact = rw e (omega (arith, h.reachable_exact));
  probably_exact = rw e (omega (arith, h.probably_exact));
  unknown_exact = rw e (omega (arith, h.unknown_exact));
  others = h.others;
}

counted-AreCounted : (s : Summary) (l : List ReachabilitySymbol) → AreCounted (counted s l) s l
unfolding counted
counted-AreCounted s [] = record {
  reachable_exact = omega arith;
  probably_exact = omega arith;
  unknown_exact = omega arith;
  others = (refl, refl);
}
counted-AreCounted s (x ∷ l) =
    counted_step _ s x l x.state refl (counted-AreCounted (count x.state s) l)

-- A report whose symbols are judged right, and whose counters count them.
pub record IsReport (ds : List Declaration) (e : Edges) (complete : Bool) (r : Report)
    : Type 0 where
  pub judged_right : AllJudged ds e.links complete 0 ds r.symbols
  pub reachable_count : r.summary.reachable_count ≡ number_of reachable r.symbols
  pub probably_count :
      r.summary.probably_unreachable_count ≡ number_of probably_unreachable r.symbols
  pub unknown_count : r.summary.unknown_count ≡ number_of unknown r.symbols
  pub root_count : r.summary.roots ≡ length (roots_from 0 ds)
  pub edge_count : r.summary.edges ≡ length r.links

-- If every declaration has a name, the report is made: the search ends and nothing panics. It has
-- one symbol for each declaration, which is reachable exactly when a path of edges leads to it from
-- a root, and then its witness is such a path; it is probably unreachable only if the static
-- analysis is complete and the declaration private; and the counters are the numbers of symbols.
pub build_reachability-IsReport :
    (wide : ℕ → ℕ) (index : StructuralIndex)
    → All (λ d. is_empty d.source.name ≡ false) (declared wide index)
    → (r : Report) × (build_reachability wide index ≡ some r)
      × IsReport
          (declared wide index)
          (edges_of (declared wide index) index.structure)
          (static_complete_of index)
          r
unfolding build_reachability judged report_of
build_reachability-IsReport wide index named =
    let ds = declared wide index in
    let e = edges_of ds index.structure in
    let (ps, found, search) = reached-Found ds e.links (edges_of-bound ds index.structure) in
    let (ss, made, right) =
      judge_from-AllJudged ds e.links ps search (static_complete_of index) 0 ds named in
    let c =
      counted-AreCounted
        (record {
          reachable_count = 0;
          probably_unreachable_count = 0;
          unknown_count = 0;
          roots = length (roots_from 0 ds);
          edges = length e.links;
        })
        ss in
    rw (found, made)
      (
        _,
        refl,
        record {
          judged_right = right;
          reachable_count = omega (arith, c.reachable_exact);
          probably_count = omega (arith, c.probably_exact);
          unknown_count = omega (arith, c.unknown_exact);
          root_count = c.others.0;
          edge_count = c.others.1;
        },
      )
