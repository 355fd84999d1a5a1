-- ===== src/Advisories/Events.antt =====
-- `affectedVersion` of internal/dependencies/advisories.go, with what it calls. The comparison of two
-- versions is third-party code, a parameter for each system; `fold` is the table of
-- `strings.EqualFold`, `wide` that of `unicode.ToLower`, and `upper` that of `unicode.ToUpper`, from
-- 0x80 on.
use mathlib.Core.Ordering.{Ordering, lt, eq, gt}
use repo_karta.Common.Insertion.{insertion_sort}
use repo_karta.Common.Equal.{is_blank}
use repo_karta.Common.Text.{Text, codes, join, text_eq, to_lower, trim_prefix, trim_space}
use repo_karta.Common.{
  ℕ, ◌-◌, Bool, true, false, ◌&&◌, ◌||◌, not, Option, none, some, List, [], ◌∷◌, ◌++◌, leb, ltb,
  if◌then◌else◌,
}

-- `OSVEvent`
pub record Event : Type 0 where
  pub introduced : Text
  pub fixed : Text
  pub last_affected : Text
  pub limit : Text

-- `OSVRange`
pub record Range : Type 0 where
  pub range_type : Text
  pub events : List Event

-- `OSVAffected`, as far as it is read here
pub record Affected : Type 0 where
  pub package_ecosystem : Text
  pub package_name : Text
  pub ranges : List Range
  pub versions : List Text

-- `semver.System`, the constants that are used
pub data System : Type 0 where
  maven npm pypi go cargo nuget default_system : System

abbrev pub Compare : Type 0
Compare = Text → Text → Ordering

abbrev pub is_lt : Ordering → Bool
is_lt lt = true
is_lt eq = false
is_lt gt = false

abbrev pub is_gt : Ordering → Bool
is_gt lt = false
is_gt eq = false
is_gt gt = true

abbrev pub is_eq : Ordering → Bool
is_eq lt = false
is_eq eq = true
is_eq gt = false

-- The case of an event in the two switches.
pub data Kind : Type 0 where
  introduced_at fixed_at last_at limit_at : Text → Kind
  nothing : Kind

abbrev pub kind_of : Event → Kind
kind_of e =
    if not (is_blank e.introduced)
    then introduced_at e.introduced
    else if not (is_blank e.fixed)
    then fixed_at e.fixed
    else if not (is_blank e.last_affected)
    then last_at e.last_affected
    else if not (is_blank e.limit)
    then limit_at e.limit
    else nothing

-- `firstNonEmpty`
unfoldable pub first_non_empty : List Text → Text
first_non_empty [] = []
first_non_empty (s ∷ rest) =
    let later = first_non_empty rest in
    if not (is_blank (trim_space s)) then trim_space s else later

-- `eventVersion`
unfoldable pub event_version : Event → Text
event_version e = first_non_empty (e.introduced ∷ e.fixed ∷ e.last_affected ∷ e.limit ∷ [])

abbrev pub is_zero : Text → Bool
is_zero v = text_eq v (codes "0")

abbrev pub is_star : Text → Bool
is_star v = text_eq v (codes "*")

abbrev pub head_of : List Text → Text
head_of [] = []
head_of (s ∷ rest) = s

module _ (compare : Compare) where
  -- Whether `sortedOSVEvents` compares two events as less.
  unfoldable pub event_less : Event → Event → Bool
  event_less left right =
      let l = event_version left in
      let r = event_version right in
      if text_eq l r
      then not (is_blank left.introduced) && is_blank right.introduced
      else if is_zero l || is_star r
      then true
      else if is_zero r || is_star l
      then false
      else is_lt (compare l r)

  -- `sortedOSVEvents`
  unfoldable pub sorted_osv_events : List Event → List Event
  sorted_osv_events events = insertion_sort event_less events

  -- One turn of the loop of `eventsContain`; `next` is the rest of it.
  unfoldable pub on_kind : Text → Bool → (Bool → Bool × Text) → Kind → Bool × Text
  on_kind v active next (introduced_at i) = next (is_zero i || not (is_lt (compare v i)))
  on_kind v active next (fixed_at f) =
      if active && is_lt (compare v f) then (true, f) else next false
  on_kind v active next (last_at l) =
      if active && not (is_gt (compare v l)) then (true, []) else next false
  on_kind v active next (limit_at l) =
      if active && (is_star l || is_lt (compare v l)) then (true, []) else next false
  on_kind v active next nothing = next active

  unfoldable pub contain_from : Text → List Event → Bool → Bool × Text
  contain_from v [] active = (active, [])
  contain_from v (e ∷ es) active = on_kind v active (contain_from v es) (kind_of e)

  -- `eventsContain`
  unfoldable pub events_contain : Text → List Event → Bool × Text
  events_contain v events = contain_from v events false

  -- `nearestFixed`
  unfoldable pub add_fixed : Text → List Event → List Text → List Text
  add_fixed v [] candidates = candidates
  add_fixed v (e ∷ es) candidates =
      let rest = add_fixed v es candidates in
      if not (is_blank e.fixed) && is_gt (compare e.fixed v) then e.fixed ∷ rest else rest

  unfoldable pub fixed_candidates : Text → List Range → List Text
  fixed_candidates v [] = []
  fixed_candidates v (r ∷ rs) = add_fixed v r.events (fixed_candidates v rs)

  unfoldable pub nearest_fixed : Text → List Range → Text
  nearest_fixed v rs =
      head_of (insertion_sort (λ left right. is_lt (compare left right)) (fixed_candidates v rs))

-- `formatAffectedRange`
unfoldable pub event_part : Kind → List Text
event_part (introduced_at i) = (codes "introduced " ++ i) ∷ []
event_part (fixed_at f) = (codes "fixed " ++ (f ++ codes " (exclusive)")) ∷ []
event_part (last_at l) = (codes "last affected " ++ (l ++ codes " (inclusive)")) ∷ []
event_part (limit_at l) = (codes "limit " ++ (l ++ codes " (exclusive)")) ∷ []
event_part nothing = []

unfoldable pub event_parts : List Event → List Text
event_parts [] = []
event_parts (e ∷ es) = event_part (kind_of e) ++ event_parts es

module _ (upper : ℕ → ℕ) where
  -- `strings.ToUpper`
  unfoldable pub to_upper : Text → Text
  to_upper [] = []
  to_upper (c ∷ s) =
      (if leb b'a' c && leb c b'z' then c - 32 else if ltb c 0x80 then c else upper c) ∷ to_upper s

  unfoldable pub format_affected_range : Range → Text
  format_affected_range r =
      to_upper r.range_type ++ (codes ": " ++ join (codes "; ") (event_parts r.events))

module _ (fold : ℕ → ℕ) where
  -- `strings.EqualFold`
  unfoldable pub equal_fold : Text → Text → Bool
  equal_fold s t = text_eq (to_lower fold s) (to_lower fold t)

  abbrev pub is_git : Range → Bool
  is_git r = equal_fold r.range_type (codes "GIT")

  abbrev pub is_semver : Range → Bool
  is_semver r = equal_fold r.range_type (codes "SEMVER")

  -- The system and the version that a range is evaluated with.
  unfoldable pub range_system : System → Range → System
  range_system system r = if is_semver r then default_system else system

  unfoldable pub range_version : Text → Range → Text
  range_version v r = if is_semver r then trim_prefix b'v' v else v

-- `versionSystem`
unfoldable pub version_system : (ℕ → ℕ) → Text → Option System
version_system wide ecosystem =
    let e = to_lower wide (trim_space ecosystem) in
    if text_eq e (codes "maven")
    then some maven
    else if text_eq e (codes "npm")
    then some npm
    else if text_eq e (codes "pypi")
    then some pypi
    else if text_eq e (codes "go")
    then some go
    else if text_eq e (codes "cargo")
    then some cargo
    else if text_eq e (codes "nuget")
    then some nuget
    else none

-- The loop over the listed versions.
unfoldable pub listed_as : Compare → Text → List Text → Option Text
listed_as c v [] = none
listed_as c v (listed ∷ rest) =
    let later = listed_as c v rest in if is_eq (c v listed) then some listed else later

module _ (wide upper fold : ℕ → ℕ) (compare : System → Compare) where
  -- The events of a range that a version stands in.
  unfoldable pub range_contain : System → Text → Range → Bool × Text
  range_contain system v r =
      let c = compare (range_system fold system r) in
      events_contain c (range_version fold v r) (sorted_osv_events c r.events)

  -- The loop over the ranges.
  unfoldable pub in_ranges : System → Text → List Range → Bool × Text × Text
  in_ranges system v [] = (false, [], [])
  in_ranges system v (r ∷ rs) =
      let rest = in_ranges system v rs in
      let (matched, fixed) = range_contain system v r in
      if is_git fold r
      then rest
      else if matched
      then (true, format_affected_range upper r, fixed)
      else rest

  unfoldable pub on_listed : System → Text → Affected → Option Text → Bool × Text × Text
  on_listed system v a (some listed) =
      (true, codes "version " ++ listed, nearest_fixed (compare system) v a.ranges)
  on_listed system v a none = in_ranges system v a.ranges

  unfoldable pub in_system : Text → Affected → Option System → Bool × Text × Text
  in_system v a none = (false, [], [])
  in_system v a (some system) = on_listed system v a (listed_as (compare system) v a.versions)

  -- `affectedVersion`: whether the version is affected, the label, and the fixed version.
  unfoldable pub affected_version : Text → Text → Affected → Bool × Text × Text
  affected_version ecosystem v a = in_system v a (version_system wide ecosystem)
