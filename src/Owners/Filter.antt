-- ===== src/Owners/Filter.antt =====
-- The owner filters of a search: internal/codeintel/ownership.go, over the fields of
-- `SearchResponse` and `SearchMatch` (service.go) that it uses. `wide` is the table of
-- `unicode.ToLower`, `fold` that of `strings.EqualFold`, from 0x80 on. The index that
-- `ReadStructure` answers with is an argument.
use repo_karta.Common.Equal.{is_blank}
use repo_karta.Common.Text.{Text, codes, text_eq, to_lower, trim_space}
use repo_karta.Common.{
  ℕ, ◌+◌, Bool, true, false, ◌&&◌, ◌||◌, not, Option, none, some, List, [], ◌∷◌, ◌++◌, any, length,
  ltb, ◌==◌, if◌then◌else◌,
}
use repo_karta.Owners.Rules.{
  Evidence, OwnerState, OwnershipIndex, OwnershipMatch, no_evidence, owned, resolve_owners,
  unavailable, unowned, unresolved_owner, unset,
}
use repo_karta.Query.Fields.{Field, owner}
use repo_karta.Query.Parse.{Filter}

-- `SearchMatch`, its lines by what stands in them
pub record SearchMatch : Type 0 where
  pub repository_id : ℕ
  pub repository : Text
  pub revision : Text
  pub path : Text
  pub lines : List Text
  pub owner_state : OwnerState
  pub owners : List Text
  pub ownership : Option Evidence

-- `SearchResponse`, its warnings by their codes
pub record SearchResponse : Type 0 where
  pub match_count : ℕ
  pub matching_files : ℕ
  pub estimated_total_files : ℕ
  pub returned_files : ℕ
  pub returned_items : ℕ
  pub truncated : Bool
  pub total_files_exact : Bool
  pub warnings : List Text
  pub matches : List SearchMatch

-- `s.structure`: none, one that cannot be read, or the ownership that it answers with.
pub data Structure : Type 0 where
  missing unreadable : Structure
  ownership_of : List OwnershipIndex → Structure

pub data Applied : Type 0 where
  no_index no_answer : Applied
  applied : SearchResponse → Applied

abbrev pub is_owner : Field → Bool
is_owner owner = true
is_owner _ = false

-- `ownershipFilters`: what is asked for, and what is excluded.
unfoldable pub add_ownership_filter : Filter → List Text × List Text → List Text × List Text
add_ownership_filter f (include, exclude) =
    if not (is_owner f.field)
    then (include, exclude)
    else if f.negative
    then (include, f.value ∷ exclude)
    else (f.value ∷ include, exclude)

unfoldable pub ownership_filters : List Filter → List Text × List Text
unfolding add_ownership_filter
ownership_filters [] = ([], [])
ownership_filters (f ∷ filters) = add_ownership_filter f (ownership_filters filters)

abbrev pub is_state : OwnerState → OwnerState → Bool
is_state unset unset = true
is_state unavailable unavailable = true
is_state unowned unowned = true
is_state unresolved_owner unresolved_owner = true
is_state owned owned = true
is_state _ _ = false

-- The state that a value names, if it is one of the switch.
unfoldable pub state_named : Text → Option OwnerState
unfolding text_eq
state_named value =
    if text_eq value (codes "owned")
    then some owned
    else if text_eq value (codes "unowned")
    then some unowned
    else if text_eq value (codes "unresolved")
        || text_eq value (codes "unresolved-owner")
        || text_eq value (codes "unresolved_owner")
    then some unresolved_owner
    else if text_eq value (codes "unavailable")
    then some unavailable
    else none

-- `byRepository`: of two indexes of a repository the last.
unfoldable pub index_of : List OwnershipIndex → ℕ → Option OwnershipIndex → Option OwnershipIndex
index_of [] id found = found
index_of (index ∷ indexes) id found =
    index_of indexes id (if index.repository_id == id then some index else found)

-- The index of a repository that has none.
unfoldable pub absent_index : SearchMatch → OwnershipIndex
absent_index m = record {
  repository_id = m.repository_id;
  repository = m.repository;
  revision = m.revision;
  available = false;
  path = [];
  rules = [];
  evidence = no_evidence;
}

unfoldable pub or_absent : SearchMatch → Option OwnershipIndex → OwnershipIndex
unfolding absent_index
or_absent m none = absent_index m
or_absent m (some index) = index

unfoldable pub resolved_by : List OwnershipIndex → SearchMatch → OwnershipMatch
unfolding index_of or_absent
resolved_by indexes m = resolve_owners (or_absent m (index_of indexes m.repository_id none)) m.path

-- A match with its owners.
unfoldable pub annotated : OwnershipMatch → SearchMatch → SearchMatch
annotated r m = record m {
  owner_state = r.state;
  owners = r.owners;
  ownership = if is_blank r.evidence.path then m.ownership else some r.evidence;
}

-- `max(1, len(match.Lines))`
abbrev pub weight : SearchMatch → ℕ
weight m = if ltb 1 (length m.lines) then length m.lines else 1

abbrev pub warning_code : Text
warning_code = codes "ownership_filter_applied"

-- The response with the matches that are left.
unfoldable pub narrowed : List SearchMatch → ℕ → SearchResponse → SearchResponse
narrowed filtered count r = record r {
  matches = filtered;
  match_count = count;
  matching_files = length filtered;
  estimated_total_files = length filtered;
  returned_files = length filtered;
  returned_items = length filtered;
  total_files_exact = r.total_files_exact && not r.truncated;
  warnings = r.warnings ++ warning_code ∷ [];
}

abbrev pub is_empty_list : List SearchMatch → Bool
is_empty_list [] = true
is_empty_list (m ∷ ms) = false

abbrev pub both_empty : List Text → List Text → Bool
both_empty [] [] = true
both_empty _ _ = false

abbrev pub after_loop : SearchResponse → List SearchMatch × ℕ → SearchResponse
after_loop r (filtered, count) =
    if not (length filtered == length r.matches) then narrowed filtered count r else r

module _ (wide fold : ℕ → ℕ) where
  abbrev pub is_named : Option OwnerState → Text → OwnershipMatch → Bool
  is_named (some s) value m = is_state m.state s
  is_named none value m = any (λ o. text_eq (to_lower fold o) (to_lower fold value)) m.owners

  -- The closure `matches`.
  unfoldable pub owner_matches : OwnershipMatch → Text → Bool
  unfolding state_named
  owner_matches m value =
      let lowered = to_lower wide (trim_space value) in is_named (state_named lowered) lowered m

  unfoldable pub ownership_filters_match : OwnershipMatch → List Text → List Text → Bool
  unfolding owner_matches
  ownership_filters_match m [] [] = true
  ownership_filters_match m [] (v ∷ exclude) =
      if owner_matches m v then false else ownership_filters_match m [] exclude
  ownership_filters_match m (v ∷ include) exclude =
      if not (owner_matches m v) then false else ownership_filters_match m include exclude

  -- The loop over the matches, which counts what it keeps.
  unfoldable pub filter_matches :
      List OwnershipIndex
      → List Text
      → List Text
      → List SearchMatch
      → List SearchMatch × ℕ
      → List SearchMatch × ℕ
  unfolding resolved_by annotated ownership_filters_match
  filter_matches indexes include exclude [] out = out
  filter_matches indexes include exclude (m ∷ ms) (filtered, count) =
      filter_matches indexes include exclude ms (
        if not (ownership_filters_match (resolved_by indexes m) include exclude)
        then (filtered, count)
        else (filtered ++ annotated (resolved_by indexes m) m ∷ [], count + weight m))

  unfoldable pub apply_ownership : Structure → SearchResponse → List Text → List Text → Applied
  unfolding filter_matches narrowed
  apply_ownership missing r include exclude =
      if both_empty include exclude then applied r else no_index
  apply_ownership unreadable r include exclude =
      if is_empty_list r.matches then applied r else no_answer
  apply_ownership (ownership_of indexes) r include exclude =
      if is_empty_list r.matches
      then applied r
      else applied (after_loop r (filter_matches indexes include exclude r.matches ([], 0)))
