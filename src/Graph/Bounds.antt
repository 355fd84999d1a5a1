-- ===== src/Graph/Bounds.antt =====
-- The edges of an artifact join declarations: their ends are indices of the list.
use repo_karta.Common.Text.{Text, codes}
use repo_karta.Common.{
  ℕ, suc, ◌+◌, ◌≤◌, ◌<◌, Option, none, some, List, [], ◌∷◌, arith, All, All-append, length, ◌==◌,
  if_rule,
}
use repo_karta.Graph.Names.{normalized_relation_target}
use repo_karta.Graph.Structure.{Declaration, Document, Link, Range, Relation}
use repo_karta.Graph.Edges.{
  Edges, add_link, add_targets, containing_from, edges_of, named_from, on_documents, on_relation,
  on_relations, on_source, on_targets,
}
use repo_karta.Graph.Visit.{adjacent}

abbrev IsInside : ℕ → Link → Type 0
IsInside n l = (l.from < n) × (l.to < n)

abbrev AreInside : ℕ → Edges → Type 0
AreInside n e = All (IsInside n) e.links

named_from-bound :
    (name : Text) (i n : ℕ) (ds : List Declaration)
    → i + length ds ≤ n
    → All (λ k. k < n) (named_from name i ds)
unfolding named_from
named_from-bound name i n [] h = tt
named_from-bound name i n (d ∷ ds) h =
    let later = named_from-bound name (suc i) n ds (omega arith) in
    if_rule (All (λ k. k < n)) _ (i ∷ named_from name (suc i) ds) _ (λ _. (omega arith, later))
      (λ _. later)

abbrev IsBelow : ℕ → Option (ℕ × Range) → Type 0
IsBelow n none = Unit
IsBelow n (some (i, _)) = i < n

containing_from-bound :
    (document : Document) (relation : Range) (best : Option (ℕ × Range)) (i n : ℕ)
    (ds : List Declaration)
    → IsBelow n best
    → i + length ds ≤ n
    → IsBelow n (containing_from document relation best i ds)
unfolding containing_from
containing_from-bound document relation best i n [] b h = b
containing_from-bound document relation best i n (d ∷ ds) b h =
    if_rule (IsBelow n) _ _ _
      (λ _.
        containing_from-bound document relation (some (i, d.source.range)) (suc i) n ds
          (omega arith) (omega arith))
      (λ _. containing_from-bound document relation best (suc i) n ds b (omega arith))

module _ (ds : List Declaration) where
  add_link-bound :
      (kind confidence : Text) (n from to : ℕ) (e : Edges)
      → from < n
      → to < n
      → AreInside n e
      → AreInside n (add_link ds kind confidence from to e)
  unfolding add_link
  add_link-bound kind confidence n from to e f t h =
      if_rule (AreInside n) (from == to) _ _ (λ _. h)
        (λ _.
          if_rule (AreInside n) _ _ _ (λ _. h)
            (λ _.
              All-append (IsInside n) e.links
                (record { from = from; to = to; kind = kind; confidence = confidence } ∷ []) h
                ((f, t), tt)))

  add_targets-bound :
      (kind confidence : Text) (n source : ℕ) (ts : List ℕ) (e : Edges)
      → source < n
      → All (λ k. k < n) ts
      → AreInside n e
      → AreInside n (add_targets ds kind confidence source ts e)
  unfolding add_targets
  add_targets-bound kind confidence n source [] e s b h = h
  add_targets-bound kind confidence n source (t ∷ ts) e s b h =
      add_targets-bound kind confidence n source ts _ s b.1 (
        if_rule (AreInside n) _ _ _ (λ _. add_link-bound kind confidence n t source e b.0 s h)
          (λ _. add_link-bound kind confidence n source t e s b.0 h))

  on_targets-bound :
      (relation : Relation) (n source : ℕ) (ts : List ℕ) (e : Edges)
      → source < n
      → All (λ k. k < n) ts
      → AreInside n e
      → AreInside n (on_targets ds relation source ts e)
  unfolding on_targets
  on_targets-bound relation n source [] e s b h = h
  on_targets-bound relation n source (t ∷ []) e s b h =
      add_targets-bound relation.kind (codes "syntax") n source (t ∷ []) e s b h
  on_targets-bound relation n source (t ∷ u ∷ ts) e s b h =
      add_targets-bound relation.kind (codes "ambiguous") n source (t ∷ u ∷ ts) _ s b h

  on_source-bound :
      (relation : Relation) (o : Option (ℕ × Range)) (e : Edges)
      → IsBelow (length ds) o
      → AreInside (length ds) e
      → AreInside (length ds) (on_source ds relation o e)
  unfolding on_source
  on_source-bound relation none e b h = h
  on_source-bound relation (some (i, _)) e b h =
      on_targets-bound relation (length ds) i _ e b
        (named_from-bound (normalized_relation_target relation.target) 0 (length ds) ds
          (omega arith))
        h

  on_relations-bound :
      (document : Document) (rs : List Relation) (e : Edges)
      → AreInside (length ds) e
      → AreInside (length ds) (on_relations ds document rs e)
  unfolding on_relations on_relation
  on_relations-bound document [] e h = h
  on_relations-bound document (r ∷ rs) e h = on_relations-bound document rs _ (
      if_rule (AreInside (length ds)) _ _ _ (λ _. h)
        (λ _.
          on_source-bound r _ e
            (containing_from-bound document r.range none 0 (length ds) ds tt (omega arith)) h))

  on_documents-bound :
      (documents : List Document) (e : Edges)
      → AreInside (length ds) e
      → AreInside (length ds) (on_documents ds documents e)
  unfolding on_documents
  on_documents-bound [] e h = h
  on_documents-bound (d ∷ rest) e h =
      on_documents-bound rest _ (on_relations-bound d d.relations e h)

  pub edges_of-bound :
      (documents : List Document) → All (IsInside (length ds)) (edges_of ds documents).links
  unfolding edges_of
  edges_of-bound documents = on_documents-bound documents _ tt

pub adjacent-bound :
    (n i : ℕ) (links : List Link) → All (IsInside n) links → All (λ t. t < n) (adjacent i links)
unfolding adjacent
adjacent-bound n i [] h = tt
adjacent-bound n i (l ∷ links) h =
    if_rule (All (λ t. t < n)) (l.from == i) _ _ (λ _. (h.0.1, adjacent-bound n i links h.1))
      (λ _. adjacent-bound n i links h.1)
