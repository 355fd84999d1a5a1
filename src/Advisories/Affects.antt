-- ===== src/Advisories/Affects.antt =====
-- `affectedVersion`: which versions it reports, and the fixed version that it names.
use repo_karta.Common.Insertion.{Pairwise, insertion_sort-All}
use repo_karta.Common.Text.{Text}
use repo_karta.Common.{
  ℕ, ◌≡◌, ◌∙◌, refl, sym, Bool, true, false, ◌&&◌, ◌||◌, not, some, List, [], ◌∷◌, All, any,
  Bool-cases, if◌then◌else◌, inl, inr, subst, ap,
}
use repo_karta.Advisories.Evaluation.{
  Alternates, IsPlain, Ordered, osv_affected, switched_from-osv, version_of,
}
use repo_karta.Advisories.Events.{
  Affected, Compare, Event, Range, System, affected_version, event_less, event_version,
  events_contain, format_affected_range, in_ranges, in_system, is_eq, is_git, kind_of, listed_as,
  on_listed, range_contain, range_system, range_version, sorted_osv_events, version_system,
}
use repo_karta.Advisories.Loop.{contain_from-switched, Ready-inactive}
use repo_karta.Advisories.Order.{Before, EventBefore, IsOrder, sorted_osv_events-Pairwise}

Pairwise-Ordered :
    (compare : Compare) (es : List Event)
    → All IsPlain es
    → Pairwise (EventBefore compare) es
    → Ordered compare es
Pairwise-Ordered compare [] p h = tt
Pairwise-Ordered compare (a ∷ []) p h = tt
Pairwise-Ordered compare (a ∷ b ∷ es) p h = (
  subst (λ s. Before compare s (version_of (kind_of b))) p.0.0
      (subst (λ s. Before compare (event_version a) s) p.1.0.0 h.0.0),
  Pairwise-Ordered compare (b ∷ es) p.1 h.1,
)

-- The events of a range are written as the OSV schema asks: with the versions bare, "0" only where
-- something is introduced and "*" only as a limit. In order, no introduction stands directly behind
-- another, behind a last affected version nothing that this version reaches, and nothing behind a limit.
pub record IsWellFormed (compare : Compare) (es : List Event) : Type 0 where
  pub plain : All IsPlain es
  pub alternates : Alternates compare (sorted_osv_events compare es)

events_contain-osv :
    (compare : Compare) (v : Text) (es : List Event)
    → IsOrder compare
    → IsWellFormed compare es
    → (events_contain compare v (sorted_osv_events compare es)).0
      ≡ osv_affected compare v (sorted_osv_events compare es)
unfolding events_contain
events_contain-osv compare v es order w =
    let sorted = sorted_osv_events compare es in
    let plain : All IsPlain sorted =
      unfold sorted_osv_events in insertion_sort-All IsPlain (event_less compare) es w.plain in
    contain_from-switched compare order v sorted false plain
      (Pairwise-Ordered compare sorted plain (sorted_osv_events-Pairwise compare order es))
      w.alternates (Ready-inactive compare order sorted)
    ∙ switched_from-osv compare v sorted false w.alternates

module _ (wide upper fold : ℕ → ℕ) (compare : System → Compare) where
  -- The specification of one range: its kind is not GIT, and the OSV algorithm says so.
  abbrev pub in_range_spec : System → Text → Range → Bool
  in_range_spec system v r =
      let c = compare (range_system fold system r) in
      not (is_git fold r) && osv_affected c (range_version fold v r) (sorted_osv_events c r.events)

  abbrev pub RangesWellFormed : System → List Range → Type 0
  RangesWellFormed system rs =
      All
        (λ (r : Range).
          is_git fold r ≡ false → IsWellFormed (compare (range_system fold system r)) r.events)
        rs

  in_ranges-any :
      (system : System) (v : Text) (rs : List Range)
      → ((s : System) → IsOrder (compare s))
      → RangesWellFormed system rs
      → (in_ranges wide upper fold compare system v rs).0 ≡ any (in_range_spec system v) rs
  unfolding in_ranges range_contain
  in_ranges-any system v [] o w = refl
  in_ranges-any system v (r ∷ rs) o w = elim (Bool-cases (is_git fold r)) [
    | inl git ↦ rw git (in_ranges-any system v rs o w.1)
    | inr other ↦
        let c = compare (range_system fold system r) in
        rw (other, sym (events_contain-osv c (range_version fold v r) r.events (o _) (w.0 other)))
          (by_range _ (format_affected_range upper r)
            (range_contain wide upper fold compare system v r).1
            (in_ranges wide upper fold compare system v rs) (in_ranges-any system v rs o w.1))
  ]
    where
      by_range :
          (b : Bool) (label fixed : Text) (rest : Bool × Text × Text)
          → rest.0 ≡ any (in_range_spec system v) rs
          → (if b then (true, label, fixed) else rest).0 ≡ (b || any (in_range_spec system v) rs)
      by_range true label fixed rest e = refl
      by_range false label fixed rest e = e

  on_listed-any :
      (system : System) (v : Text) (a : Affected) (versions : List Text)
      → (on_listed wide upper fold compare system v a (listed_as (compare system) v versions)).0 ≡ (
          any (λ l. is_eq (compare system v l)) versions
          || (in_ranges wide upper fold compare system v a.ranges).0)
  unfolding on_listed listed_as
  on_listed-any system v a [] = refl
  on_listed-any system v a (l ∷ ls) = elim (Bool-cases (is_eq (compare system v l))) [
    | inl e ↦ rw e refl
    | inr e ↦ rw e (on_listed-any system v a ls)
  ]

  -- If the comparisons of versions are orders and each range that is not of kind GIT is written as the
  -- OSV schema asks, with nothing behind a limit, no introduction directly behind another and behind a
  -- last affected version nothing that it reaches, then a version in a supported ecosystem is reported
  -- as affected exactly when it is equal to a listed one or the OSV schema's evaluation of a range says
  -- so: the version is below some limit, or there is none, and the events, one by one, make it affected.
  pub affected_version-osv :
      (ecosystem v : Text) (a : Affected) (system : System)
      → ((s : System) → IsOrder (compare s))
      → version_system wide ecosystem ≡ some system
      → RangesWellFormed system a.ranges
      → (affected_version wide upper fold compare ecosystem v a).0 ≡ (
          any (λ l. is_eq (compare system v l)) a.versions || any (in_range_spec system v) a.ranges)
  unfolding affected_version in_system
  affected_version-osv ecosystem v a system o s w = rw s (
      on_listed-any system v a a.versions
      ∙ ap (λ b. any (λ l. is_eq (compare system v l)) a.versions || b)
          (in_ranges-any system v a.ranges o w))
