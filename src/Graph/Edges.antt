-- ===== src/Graph/Edges.antt =====
-- The declarations of `buildReachability`, and its edges (internal/graph/reachability.go).
use repo_karta.Common.Decimal.{decimal}
use repo_karta.Common.Text.{Text, codes, text_eq}
use repo_karta.Common.{
  ℕ, suc, ◌+◌, Bool, true, ◌&&◌, ◌||◌, not, Option, none, some, List, [], ◌∷◌, ◌++◌, any, get_elem?,
  ltb, ◌==◌, if◌then◌else◌,
}
use repo_karta.Graph.Names.{
  is_empty, is_reachability_declaration, normalized_relation_target, reachability_root,
}
use repo_karta.Graph.Structure.{Declaration, Document, Link, Range, Relation, Symbol}

-- The identifier that `Sprintf` builds.
unfoldable pub symbol_id : Document → Symbol → Text
symbol_id document symbol =
    codes "symbol:"
    ++ (decimal document.repository_id
        ++ (b':'
            ∷ (document.path
                ++ (b':'
                    ∷ (symbol.kind
                        ++ (b':' ∷ (symbol.name ++ (b':' ∷ decimal symbol.range.start_line))))))))

module _ (wide : ℕ → ℕ) where
  -- The inner loop over the symbols of a document.
  unfoldable pub document_declarations : Document → List Symbol → List Declaration
  document_declarations document [] = []
  document_declarations document (s ∷ rest) =
      let later = document_declarations document rest in
      if not (is_reachability_declaration wide s.kind)
      then later
      else record {
        id = symbol_id document s;
        root_kind = reachability_root document.language s;
        document = document;
        source = s;
      }
        ∷ later

  unfoldable pub declarations_of : List Document → List Declaration
  declarations_of [] = []
  declarations_of (d ∷ rest) = document_declarations d d.symbols ++ declarations_of rest

-- `byName` at a name, from an index on: the declarations of that name, in order.
unfoldable pub named_from : Text → ℕ → List Declaration → List ℕ
named_from name i [] = []
named_from name i (d ∷ rest) =
    let later = named_from name (suc i) rest in
    if not (is_empty name) && text_eq (normalized_relation_target d.source.name) name
    then i ∷ later
    else later

-- Whether a declaration of the document encloses the relation.
unfoldable pub encloses : Document → Range → Declaration → Bool
encloses document relation d =
    d.document.repository_id == document.repository_id
    && text_eq d.document.path document.path
    && not (
        ltb relation.start_byte d.source.range.start_byte
        || ltb d.source.range.end_byte relation.end_byte)

-- The comparison of two spans, which the source computes by differences.
unfoldable pub narrower : Range → Option (ℕ × Range) → Bool
narrower candidate none = true
narrower candidate (some (_, best)) =
    ltb (candidate.end_byte + best.start_byte) (best.end_byte + candidate.start_byte)

-- The loop of `containingDeclaration`. Its first `bestSpan` is the greatest int, which no span is.
unfoldable pub containing_from :
    Document → Range → Option (ℕ × Range) → ℕ → List Declaration → Option (ℕ × Range)
containing_from document relation best i [] = best
containing_from document relation best i (d ∷ rest) =
    let keep = containing_from document relation best (suc i) rest in
    let better = containing_from document relation (some (i, d.source.range)) (suc i) rest in
    if encloses document relation d && narrower d.source.range best then better else keep

-- The edges found so far, with `edgeSeen` and the counters.
pub record Edges : Type 0 where
  pub links : List Link
  pub seen : List Text
  pub unresolved : ℕ
  pub ambiguous : ℕ

-- `declarations[i].symbol.ID`; the indices are those of declarations.
unfoldable pub id_at : List Declaration → ℕ → Text
id_at ds i = elim (get_elem? ds i) [ none ↦ [] | some d ↦ d.id ]

unfoldable pub is_inverted : Text → Bool
is_inverted kind = text_eq kind (codes "implements") || text_eq kind (codes "extends")

unfoldable pub add_link : List Declaration → Text → Text → ℕ → ℕ → Edges → Edges
add_link ds kind confidence from to e =
    let key = id_at ds from ++ (0 ∷ (id_at ds to ++ (0 ∷ kind))) in
    if from == to then e else if any (text_eq key) e.seen then e else record e {
      seen = key ∷ e.seen;
      links = e.links ++ record { from = from; to = to; kind = kind; confidence = confidence } ∷ [];
    }

-- The loop over the targets of a relation.
unfoldable pub add_targets : List Declaration → Text → Text → ℕ → List ℕ → Edges → Edges
add_targets ds kind confidence source [] e = e
add_targets ds kind confidence source (t ∷ rest) e = add_targets ds kind confidence source rest (
    if is_inverted kind
    then add_link ds kind confidence t source e
    else add_link ds kind confidence source t e)

-- A relation that is no import, its source found, by its targets.
unfoldable pub on_targets : List Declaration → Relation → ℕ → List ℕ → Edges → Edges
on_targets ds relation source [] e = record e { unresolved = e.unresolved + 1 }
on_targets ds relation source (t ∷ []) e =
    add_targets ds relation.kind (codes "syntax") source (t ∷ []) e
on_targets ds relation source (t ∷ u ∷ rest) e =
    add_targets ds relation.kind (codes "ambiguous") source (t ∷ u ∷ rest)
      (record e { ambiguous = e.ambiguous + 1 })

unfoldable pub on_source : List Declaration → Relation → Option (ℕ × Range) → Edges → Edges
on_source ds relation none e = record e { unresolved = e.unresolved + 1 }
on_source ds relation (some (source, _)) e =
    on_targets ds relation source (named_from (normalized_relation_target relation.target) 0 ds) e

unfoldable pub on_relation : List Declaration → Document → Relation → Edges → Edges
on_relation ds document relation e =
    if text_eq relation.kind (codes "import")
    then e
    else on_source ds relation (containing_from document relation.range none 0 ds) e

unfoldable pub on_relations : List Declaration → Document → List Relation → Edges → Edges
on_relations ds document [] e = e
on_relations ds document (r ∷ rest) e = on_relations ds document rest (on_relation ds document r e)

unfoldable pub on_documents : List Declaration → List Document → Edges → Edges
on_documents ds [] e = e
on_documents ds (d ∷ rest) e = on_documents ds rest (on_relations ds d d.relations e)

-- The edges of an artifact.
unfoldable pub edges_of : List Declaration → List Document → Edges
edges_of ds documents =
    on_documents ds documents (record { links = []; seen = []; unresolved = 0; ambiguous = 0 })
