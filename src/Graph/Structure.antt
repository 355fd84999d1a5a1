-- ===== src/Graph/Structure.antt =====
-- The structural artifact that `buildReachability` of internal/graph/reachability.go reads: of its
-- types in internal/graph/graph.go and internal/analysis/analysis.go the fields that it uses.
-- Identifiers, offsets and lines are not negative.
use repo_karta.Common.Text.{Text}
use repo_karta.Common.{ℕ, Bool, List}

-- `analysis.Range`
pub record Range : Type 0 where
  pub start_byte : ℕ
  pub end_byte : ℕ
  pub start_line : ℕ

-- `analysis.Symbol`
pub record Symbol : Type 0 where
  pub kind : Text
  pub name : Text
  pub annotations : List Text
  pub modifiers : List Text
  pub range : Range

-- `analysis.Relation`
pub record Relation : Type 0 where
  pub kind : Text
  pub target : Text
  pub range : Range

-- `StructuralDocument`
pub record Document : Type 0 where
  pub repository_id : ℕ
  pub path : Text
  pub language : Text
  pub parse_complete : Bool
  pub truncated : Bool
  pub symbols : List Symbol
  pub relations : List Relation

-- `StructuralIndex`, with `Scope.Complete`
pub record StructuralIndex : Type 0 where
  pub complete : Bool
  pub structure : List Document
  pub structure_truncated : Bool

-- `reachabilityDeclaration`, with the identifier and the root kind of its `ReachabilitySymbol`
pub record Declaration : Type 0 where
  pub id : Text
  pub root_kind : Text
  pub document : Document
  pub source : Symbol

-- An edge of the report, by the indices of its declarations.
pub record Link : Type 0 where
  pub from : ℕ
  pub to : ℕ
  pub kind : Text
  pub confidence : Text
