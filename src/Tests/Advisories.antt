-- ===== src/Tests/Advisories.antt =====
-- The matching of versions against OSV advisories at concrete inputs. Versions are compared by their
-- lengths, so that "aa" is behind "a".
use mathlib.Core.Ordering.{Ordering, lt, eq, gt}
use repo_karta.Advisories.Affects.{IsWellFormed, affected_version-osv, in_range_spec}
use repo_karta.Advisories.Evaluation.{osv_affected}
use repo_karta.Advisories.Events.{
  Affected, Compare, Event, affected_version, add_fixed, contain_from, equal_fold, event_less,
  event_part, event_parts, event_version, events_contain, first_non_empty, fixed_candidates,
  format_affected_range, in_ranges, in_system, is_eq, is_gt, is_lt, listed_as, nearest_fixed, npm,
  on_kind, on_listed, range_contain, range_system, range_version, sorted_osv_events, to_upper,
  version_system,
}
use repo_karta.Advisories.Nearest.{IsNearest, nearest_fixed-IsNearest}
use repo_karta.Advisories.Order.{IsOrder}
use repo_karta.Common.Insertion.{insert, insert_all, insertion_sort, reverse_onto}
use repo_karta.Common.Text.{
  Text, codes, lower_rune, rune, text_eq, to_lower, trim_left, trim_prefix, trim_right, trim_space,
  join,
}
use repo_karta.Common.{
  ℕ, ◌≡◌, refl, true, false, ◌||◌, List, [], ◌∷◌, any, length, ltb, ◌==◌, if◌then◌else◌, arith,
  Bool-cases, inl, inr, ◌∙◌, sym,
}

abbrev same : ℕ → ℕ
same c = c

abbrev order_of : ℕ → ℕ → Ordering
order_of m n = if ltb m n then lt else if m == n then eq else gt

abbrev by_length : Compare
by_length s t = order_of (length s) (length t)

abbrev event : Text → Text → Text → Event
event i f l = record { introduced = i; fixed = f; last_affected = l; limit = [] }

-- Affected from the start and before "aa", and from "aaa" to "aaaa", written out of order.
abbrev events : List Event
events =
    event [] (codes "aa") []
    ∷ event (codes "aaa") [] []
    ∷ event (codes "0") [] []
    ∷ event [] [] (codes "aaaa")
    ∷ []

abbrev left_pad : Affected
left_pad = record {
  package_ecosystem = codes "npm";
  package_name = codes "p";
  ranges = record { range_type = codes "ECOSYSTEM"; events = events } ∷ [];
  versions = codes "aaaaaa" ∷ [];
}

affected_version-aaaa :
    (affected_version same same same (λ _. by_length) (codes "npm") (codes "aaaa") left_pad).0
    ≡ true
unfolding affected_version in_system on_listed listed_as in_ranges range_contain range_system
    range_version events_contain contain_from on_kind sorted_osv_events event_less event_version
    first_non_empty version_system equal_fold insert insert_all insertion_sort reverse_onto
    lower_rune rune text_eq to_lower trim_left trim_prefix trim_right trim_space
affected_version-aaaa = refl

order_of-gt : (m n : ℕ) → is_gt (order_of m n) ≡ ltb n m
order_of-gt m n = elim (Bool-cases (ltb m n)) [
  | inl e ↦ let f : ltb n m ≡ false = ground arith in rw (e, f) refl
  | inr e ↦ elim (Bool-cases (m == n)) [
    | inl g ↦ let f : ltb n m ≡ false = ground arith in rw (e, f, g) refl
    | inr g ↦ let f : ltb n m ≡ true = ground arith in rw (e, f, g) refl
  ]
]

order_of-lt : (m n : ℕ) → is_lt (order_of m n) ≡ ltb m n
order_of-lt m n = elim (Bool-cases (ltb m n)) [
  | inl e ↦ rw e refl
  | inr e ↦ elim (Bool-cases (m == n)) [ inl g ↦ rw (e, g) refl | inr g ↦ rw (e, g) refl ]
]

below : (k m n : ℕ) → ltb m k ≡ false → ltb n m ≡ false → ltb n k ≡ false
below k m n h i = ground arith

by_length-IsOrder : IsOrder by_length
by_length-IsOrder = record {
  mirror = λ a b. order_of-gt (length a) (length b) ∙ sym (order_of-lt (length b) (length a));
  le_trans = λ a b d h k.
      let f = sym (order_of-gt (length a) (length b)) ∙ h in
      let g = sym (order_of-gt (length b) (length d)) ∙ k in
      order_of-gt (length a) (length d) ∙ below (length a) (length b) (length d) f g;
}

abbrev events-IsWellFormed : IsWellFormed by_length events
unfolding sorted_osv_events event_less event_version first_non_empty insert insert_all
    insertion_sort reverse_onto text_eq trim_left trim_right trim_space
events-IsWellFormed = record {
  plain = ((refl, (refl, refl)), ((refl, refl), ((refl, refl), ((refl, (refl, refl)), tt))));
  alternates = (refl, (tt, (refl, tt)));
}

affected_version-osv_example :
    (affected_version same same same (λ _. by_length) (codes "npm") (codes "aaaa") left_pad).0 ≡ (
      any (λ l. is_eq (by_length (codes "aaaa") l)) left_pad.versions
      || any (in_range_spec same same same (λ _. by_length) npm (codes "aaaa")) left_pad.ranges)
unfolding version_system text_eq to_lower trim_left trim_right trim_space
affected_version-osv_example =
    affected_version-osv same same same (λ _. by_length) (codes "npm") (codes "aaaa") left_pad npm
      (λ _. by_length-IsOrder) refl (λ _. events-IsWellFormed, tt)

nearest_fixed-left_pad : nearest_fixed by_length (codes "a") left_pad.ranges ≡ codes "aa"
unfolding nearest_fixed fixed_candidates add_fixed insert insert_all insertion_sort reverse_onto
nearest_fixed-left_pad = refl

nearest_fixed-IsNearest_example :
    IsNearest by_length
      (codes "a")
      left_pad.ranges
      (nearest_fixed by_length (codes "a") left_pad.ranges)
nearest_fixed-IsNearest_example =
    nearest_fixed-IsNearest by_length (codes "a") left_pad.ranges by_length-IsOrder

-- Two introductions in a row: a version between them is affected by the OSV schema, and here not.
abbrev introduced_twice : List Event
introduced_twice = event (codes "a") [] [] ∷ event (codes "aaaa") [] [] ∷ []

events_contain-between :
    ((events_contain by_length (codes "aa") introduced_twice).0 ≡ false)
    × (osv_affected by_length (codes "aa") introduced_twice ≡ true)
unfolding events_contain contain_from on_kind text_eq
events_contain-between = (refl, refl)

format_affected_range-events :
    format_affected_range same
      (record { range_type = codes "semver"; events = event (codes "1") [] [] ∷ [] })
    ≡ codes "SEMVER: introduced 1"
unfolding format_affected_range to_upper event_part event_parts join
format_affected_range-events = refl
