-- ===== src/Graph/Verdict.antt =====
-- What the report says of each declaration, against paths of edges from the roots.
use mathlib.Core.List.{map}
use repo_karta.Common.Text.{Text, codes, text_eq}
use repo_karta.Common.{
  ℕ, suc, ◌≡◌, ◌∙◌, ◌↔◌, refl, Bool, true, false, ◌||◌, ◌&&◌, Option, some, List, [], ◌∷◌, arith,
  All, length, any, if◌then◌else◌, if_rule, Bool-cases, inl, inr,
}
use repo_karta.Graph.Structure.{Declaration, Link}
use repo_karta.Graph.Names.{is_empty, is_private_declaration, not_exported}
use repo_karta.Graph.Edges.{id_at}
use repo_karta.Graph.Visit.{Parents, has, roots_from}
use repo_karta.Graph.Paths.{IsTree-Reaches, Reaches}
use repo_karta.Graph.Closed.{IsSearch}
use repo_karta.Graph.Reached.{Reaches-has}
use repo_karta.Graph.Witness.{IsRoute, trail-HasRoute}
use repo_karta.Graph.Report.{
  ReachabilitySymbol, State, reachable, probably_unreachable, unknown, cons_symbol, if_private,
  judge, judge_from, symbol_of, with_witness,
}

private_decided :
    (d : Declaration)
    → is_empty d.source.name ≡ false
    → (b : Bool) × (is_private_declaration d ≡ some b)
unfolding is_private_declaration
private_decided d h =
    let P = λ (o : Option Bool). (b : Bool) × (o ≡ some b) in
    if_rule P
      (any (text_eq (codes "private")) d.source.modifiers
        || any (text_eq (codes "internal")) d.source.modifiers)
      _
      (if text_eq d.document.language (codes "go") && text_eq d.source.kind (codes "function")
        then not_exported d.source.name
        else some false)
      (λ _. (true, refl))
      (λ _.
        if_rule P
          (text_eq d.document.language (codes "go") && text_eq d.source.kind (codes "function")) _ _
          (λ _. decided d.source.name h) (λ _. (false, refl)))
  where
    decided : (name : Text) → is_empty name ≡ false → (b : Bool) × (not_exported name ≡ some b)
    decided [] e = cc
    decided (c ∷ name) e = unfold not_exported in (_, refl)

module _ (ds : List Declaration) (links : List Link) where
  -- What is said of a declaration.
  pub record IsJudged (complete : Bool) (i : ℕ) (d : Declaration) (s : ReachabilitySymbol)
      : Type 0 where
    pub same_id : s.id ≡ d.id
    pub exact : (s.state ≡ reachable) ↔ Reaches (roots_from 0 ds) links i
    pub cautious :
        s.state ≡ probably_unreachable → (complete ≡ true) × (is_private_declaration d ≡ some true)
    pub route :
        s.state ≡ reachable
        → (l : List ℕ) × IsRoute (roots_from 0 ds) links i l × (s.witness ≡ map (id_at ds) l)

  -- The symbols of a report, one for each declaration.
  abbrev pub AllJudged : Bool → ℕ → List Declaration → List ReachabilitySymbol → Type 0
  AllJudged complete i [] [] = Unit
  AllJudged complete i (d ∷ rest) (s ∷ ss) =
      IsJudged complete i d s × AllJudged complete (suc i) rest ss
  AllJudged complete i _ _ = ⊥

  module _ (ps : Parents) (search : IsSearch (length ds) (roots_from 0 ds) links [] ps)
      (complete : Bool) where
    unreached :
        (i : ℕ) (d : Declaration) (state : State)
        → has i ps ≡ false
        → (state ≡ reachable → ⊥)
        → (state ≡ probably_unreachable
            → (complete ≡ true) × (is_private_declaration d ≡ some true))
        → IsJudged complete i d (symbol_of d state [])
    unreached i d state h never careful = record {
      same_id = refl;
      exact = (
        λ e. absurd (never e),
        λ r. absurd (clash (Reaches-has (length ds) (roots_from 0 ds) links ps i search r)),
      );
      cautious = careful;
      route = λ e. absurd (never e);
    }
      where
        clash : has i ps ≡ true → ⊥
        clash e = cc

    if_private-IsJudged :
        (i : ℕ) (d : Declaration) (o : Bool)
        → has i ps ≡ false
        → complete ≡ true
        → is_private_declaration d ≡ some o
        → (s : ReachabilitySymbol) × (if_private d (some o) ≡ some s) × IsJudged complete i d s
    unfolding if_private
    if_private-IsJudged i d true h c e = (
      symbol_of d probably_unreachable [],
      refl,
      unreached i d probably_unreachable h (λ bad. cc) (λ _. (c, e)),
    )
    if_private-IsJudged i d false h c e =
        (symbol_of d unknown [], refl, unreached i d unknown h (λ bad. cc) (λ bad. absurd (cc)))

    judge-IsJudged :
        (i : ℕ) (d : Declaration)
        → is_empty d.source.name ≡ false
        → (s : ReachabilitySymbol) × (judge ds ps complete i d ≡ some s) × IsJudged complete i d s
    unfolding judge
    judge-IsJudged i d named = elim (Bool-cases (has i ps)) [
      | inl there ↦
          let (l, e, r) =
            trail-HasRoute (roots_from 0 ds) links (length ps) ps i i [] search.tree there
              (omega arith) tt refl in
          rw (there, e)
            (unfold with_witness in
              (
                symbol_of d reachable (map (id_at ds) l),
                refl,
                record {
                  same_id = refl;
                  exact = (
                    λ _. IsTree-Reaches (roots_from 0 ds) links ps i search.tree there,
                    λ _. refl,
                  );
                  cautious = λ bad. absurd (cc);
                  route = λ _. (l, r, refl);
                },
              ))
      | inr missing ↦ elim (Bool-cases complete) [
        | inl full ↦
            let (b, e) = private_decided d named in
            let (s, made, right) = if_private-IsJudged i d b missing full e in
            let chosen : judge ds ps complete i d ≡ if_private d (some b) =
              rw (missing, full, e) refl in
            (s, chosen ∙ made, right)
        | inr partial ↦
            let chosen : judge ds ps complete i d ≡ some (symbol_of d unknown []) =
              rw (missing, partial) refl in
            (
              symbol_of d unknown [],
              chosen,
              unreached i d unknown missing (λ bad. cc) (λ bad. absurd (cc)),
            )
      ]
    ]

    pub judge_from-AllJudged :
        (i : ℕ) (rest : List Declaration)
        → All (λ d. is_empty d.source.name ≡ false) rest
        → (ss : List ReachabilitySymbol) × (judge_from ds ps complete i rest ≡ some ss)
          × AllJudged complete i rest ss
    unfolding judge_from cons_symbol
    judge_from-AllJudged i [] named = ([], refl, tt)
    judge_from-AllJudged i (d ∷ rest) named =
        let (s, e, j) = judge-IsJudged i d named.0 in
        let (ss, es, js) = judge_from-AllJudged (suc i) rest named.1 in
        rw (e, es) (s ∷ ss, refl, (j, js))
