-- ===== src/Tests/Graph.antt =====
-- Reachability at concrete inputs.
use repo_karta.Common.Text.{
  Text, codes, cut, is_white, lower_rune, text_eq, to_lower, trim_left, trim_right, cons_right,
  trim_space,
}
use repo_karta.Common.{ℕ, ◌≡◌, refl, true, false, Option, some, none, [], ◌∷◌}
use repo_karta.Common.Decimal.{digits}
use repo_karta.Graph.Edges.{
  add_link, add_targets, containing_from, declarations_of, document_declarations, edges_of,
  encloses, id_at, is_inverted, named_from, narrower, on_documents, on_relation, on_relations,
  on_source, on_targets, symbol_id,
}
use repo_karta.Graph.Names.{
  after_last, annotated_root, behind_separator, fields_from, is_private_declaration,
  is_reachability_declaration, last_of, normalized, normalized_relation_target, not_exported,
  reachability_root, trim_left_set, trim_right_set, trim_set_after,
}
use repo_karta.Graph.Outcome.{IsReport, build_reachability-IsReport}
use repo_karta.Graph.Report.{
  Report, Summary, build_reachability, cons_symbol, count, counted, declared, documents_complete_of,
  if_private, incomplete_of, judge, judge_from, judged, parent_of, report_of, static_complete_of,
  trail, trail_on, truncated_of, with_witness,
}
use repo_karta.Graph.Structure.{Range, StructuralIndex, Symbol}
use repo_karta.Graph.Visit.{adjacent, reached, root_parents, roots_from, visit, visit_targets}

abbrev same : ℕ → ℕ
same c = c

normalized-qualified : normalized_relation_target (codes " *pkg.List<string> ") ≡ codes "List"
unfolding normalized_relation_target normalized behind_separator after_last fields_from last_of
    trim_left_set trim_right_set trim_set_after trim_space trim_left trim_right cons_right is_white
    cut
normalized-qualified = refl

abbrev span : ℕ → ℕ → Range
span from to = record { start_byte = from; end_byte = to; start_line = from }

abbrev function : Text → ℕ → ℕ → Symbol
function name from to = record {
  kind = codes "function";
  name = name;
  annotations = [];
  modifiers = [];
  range = span from to;
}

-- `main` calls `run`; nobody calls `idle`.
abbrev program : StructuralIndex
program = record {
  complete = true;
  structure_truncated = false;
  structure =
      record {
        repository_id = 7;
        path = codes "main.go";
        language = codes "go";
        parse_complete = true;
        truncated = false;
        symbols =
            function (codes "main") 1 9
            ∷ function (codes "run") 10 19
            ∷ function (codes "idle") 20 29
            ∷ [];
        relations =
            record { kind = codes "call"; target = codes "run"; range = span 3 5 }
            ∷ record { kind = codes "call"; target = codes "fmt.Println"; range = span 12 14 }
            ∷ [];
      }
      ∷ [];
}

build_reachability-IsReport_example :
    (r : Report) × (build_reachability same program ≡ some r)
    × IsReport
        (declared same program)
        (edges_of (declared same program) program.structure)
        (static_complete_of program)
        r
unfolding declarations_of document_declarations is_reachability_declaration to_lower lower_rune
    trim_space trim_left trim_right cons_right is_white text_eq
build_reachability-IsReport_example =
    build_reachability-IsReport same program (refl, (refl, (refl, tt)))

summary_of : Option Report → Option Summary
summary_of none = none
summary_of (some r) = some r.summary

program-summary :
    summary_of (build_reachability same program)
    ≡ some (record {
      reachable_count = 2;
      probably_unreachable_count = 1;
      unknown_count = 0;
      roots = 1;
      edges = 1;
    })
unfolding summary_of build_reachability declarations_of document_declarations
    is_reachability_declaration to_lower lower_rune trim_space trim_left trim_right cons_right
    is_white text_eq reachability_root annotated_root symbol_id digits edges_of on_documents
    on_relations on_relation containing_from encloses narrower on_source named_from
    normalized_relation_target normalized behind_separator after_last fields_from last_of
    trim_left_set trim_right_set trim_set_after cut on_targets add_targets is_inverted add_link
    id_at reached roots_from root_parents visit visit_targets adjacent judged report_of judge_from
    judge cons_symbol with_witness if_private is_private_declaration not_exported trail trail_on
    parent_of counted count truncated_of incomplete_of documents_complete_of static_complete_of
program-summary = refl
