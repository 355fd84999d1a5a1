-- ===== src/Advisories/Nearest.antt =====
-- What `nearestFixed` finds.
use mathlib.Core.List.{Memᴰ}
use repo_karta.Common.Insertion.{
  Pairwise, insertion_sort, insertion_sort-All, insertion_sort-Pairwise, insertion_sort-back,
}
use repo_karta.Common.Equal.{is_blank}
use repo_karta.Common.Text.{Text}
use repo_karta.Common.{
  ◌≡◌, ◌∙◌, refl, Bool, true, false, ◌&&◌, not, List, [], ◌∷◌, All, arith, if_rule, &&_true,
}
use repo_karta.Advisories.Events.{
  Compare, Event, Range, add_fixed, fixed_candidates, head_of, is_gt, is_lt, nearest_fixed,
}
use repo_karta.Advisories.Order.{IsOrder, not_both, not_gt}

module _ (compare : Compare) where
  -- A version that fixes something for `v`.
  abbrev pub is_fix : Text → Text → Bool
  is_fix v f = not (is_blank f) && is_gt (compare f v)

  -- A version that an event of the ranges names as fixed.
  abbrev pub IsNamed : List Range → Text → Type 0
  IsNamed rs f = (r : Range) × (e : Event) × Memᴰ r rs × Memᴰ e r.events × (e.fixed ≡ f)

  -- All versions behind `v` that the ranges name as fixed.
  abbrev pub AllFixes : (Text → Type 0) → Text → List Range → Type 0
  AllFixes Q v rs =
      All (λ (r : Range). All (λ (e : Event). is_fix v e.fixed ≡ true → Q e.fixed) r.events) rs

  add_fixed-All :
      (Q : Text → Type 0) (v : Text) (es : List Event) (candidates : List Text)
      → All (λ (e : Event). is_fix v e.fixed ≡ true → Q e.fixed) es
      → All Q candidates
      → All Q (add_fixed compare v es candidates)
  unfolding add_fixed
  add_fixed-All Q v [] cs h k = k
  add_fixed-All Q v (e ∷ es) cs h k =
      if_rule (All Q) (is_fix v e.fixed) (e.fixed ∷ add_fixed compare v es cs)
        (add_fixed compare v es cs) (λ fix. (h.0 fix, add_fixed-All Q v es cs h.1 k))
        (λ _. add_fixed-All Q v es cs h.1 k)

  fixed_candidates-All :
      (Q : Text → Type 0) (v : Text) (rs : List Range)
      → AllFixes Q v rs
      → All Q (fixed_candidates compare v rs)
  unfolding fixed_candidates
  fixed_candidates-All Q v [] h = tt
  fixed_candidates-All Q v (r ∷ rs) h =
      add_fixed-All Q v r.events (fixed_candidates compare v rs) h.0
        (fixed_candidates-All Q v rs h.1)

  add_fixed-back :
      (Q : Text → Type 0) (v : Text) (es : List Event) (candidates : List Text)
      → All Q (add_fixed compare v es candidates)
      → All (λ (e : Event). is_fix v e.fixed ≡ true → Q e.fixed) es × All Q candidates
  unfolding add_fixed
  add_fixed-back Q v [] cs h = (tt, h)
  add_fixed-back Q v (e ∷ es) cs h =
      if_rule
        (λ fs.
          All Q fs → All (λ (e : Event). is_fix v e.fixed ≡ true → Q e.fixed) (e ∷ es) × All Q cs)
        (is_fix v e.fixed) (e.fixed ∷ add_fixed compare v es cs) (add_fixed compare v es cs)
        (λ _ k. let (rest, old) = add_fixed-back Q v es cs k.1 in ((λ _. k.0, rest), old))
        (λ none k. let (rest, old) = add_fixed-back Q v es cs k in ((λ fix. absurd cc, rest), old))
        h

  fixed_candidates-back :
      (Q : Text → Type 0) (v : Text) (rs : List Range)
      → All Q (fixed_candidates compare v rs)
      → AllFixes Q v rs
  unfolding fixed_candidates
  fixed_candidates-back Q v [] h = tt
  fixed_candidates-back Q v (r ∷ rs) h =
      let (here, later) = add_fixed-back Q v r.events (fixed_candidates compare v rs) h in
      (here, fixed_candidates-back Q v rs later)

  -- Each of them is named, and lies behind `v`.
  IsNamed-fixes :
      (v : Text) (rs : List Range) → AllFixes (λ f. IsNamed rs f × (is_fix v f ≡ true)) v rs
  IsNamed-fixes v rs = over rs (λ s m. m)
    where
      on_events :
          (r : Range) (es : List Event)
          → Memᴰ r rs
          → ((e : Event) → Memᴰ e es → Memᴰ e r.events)
          → All
              (λ (e : Event).
                is_fix v e.fixed ≡ true → IsNamed rs e.fixed × (is_fix v e.fixed ≡ true))
              es
      on_events r [] m in_r = tt
      on_events r (e ∷ es) m in_r = (
        λ fix. ((r, e, m, in_r e (Memᴰ.head refl), refl), fix),
        on_events r es m (λ d k. in_r d (Memᴰ.tail k)),
      )

      over :
          (ss : List Range)
          → ((r : Range) → Memᴰ r ss → Memᴰ r rs)
          → AllFixes (λ f. IsNamed rs f × (is_fix v f ≡ true)) v ss
      over [] sub = tt
      over (s ∷ ss) sub = (
        on_events s s.events (sub s (Memᴰ.head refl)) (λ d m. m),
        over ss (λ d m. sub d (Memᴰ.tail m)),
      )

  -- What the head of the sorted candidates is.
  abbrev pub IsNearest : Text → List Range → Text → Type 0
  IsNearest v rs f =
      (is_blank f ≡ true → AllFixes (λ g. ⊥) v rs)
      × (is_blank f ≡ false
          → IsNamed rs f
            × (is_gt (compare f v) ≡ true)
            × AllFixes (λ g. is_gt (compare f g) ≡ false) v rs)

  abbrev less : Text → Text → Bool
  less left right = is_lt (compare left right)

  abbrev Le : Text → Text → Type 0
  Le a b = is_gt (compare a b) ≡ false

  abbrev Named : Text → List Range → Text → Type 0
  Named v rs f = IsNamed rs f × (is_fix v f ≡ true)

  -- If the comparison is an order, then the version that nearestFixed names is one that an event of
  -- the ranges names as fixed, lies behind the given version, and is the first such; it names none
  -- only if no event of the ranges names one.
  pub nearest_fixed-IsNearest :
      (v : Text) (rs : List Range) → IsOrder compare → IsNearest v rs (nearest_fixed compare v rs)
  unfolding nearest_fixed
  nearest_fixed-IsNearest v rs order =
      let candidates = fixed_candidates compare v rs in
      on_sorted (insertion_sort less candidates)
        (insertion_sort-Pairwise (λ _. Unit {0}) Le less (λ a b _ _ h. not_gt (compare a b) h)
          (λ a b _ _ h. order.mirror b a ∙ h) (λ a b d _ _ _ h k. order.le_trans a b d h k)
          candidates (trivially candidates))
        (insertion_sort-All (Named v rs) less candidates
          (fixed_candidates-All (Named v rs) v rs (IsNamed-fixes v rs)))
        (λ Q h. fixed_candidates-back Q v rs (insertion_sort-back Q less candidates h))
    where
      trivially : (fs : List Text) → All (λ _. Unit {0}) fs
      trivially [] = tt
      trivially (f ∷ fs) = (tt, trivially fs)

      on_sorted :
          (sorted : List Text)
          → Pairwise Le sorted
          → All (Named v rs) sorted
          → ((Q : Text → Type 0) → All Q sorted → AllFixes Q v rs)
          → IsNearest v rs (head_of sorted)
      on_sorted [] p n back = (λ _. back (λ _. ⊥) tt, λ h. absurd cc)
      on_sorted (f ∷ fs) p n back =
          let fix = &&_true (not (is_blank f)) (is_gt (compare f v)) n.0.1 in
          (
            λ h. let visible = fix.0 in absurd (ground arith),
            λ _. (n.0.0, fix.1, back (Le f) (not_both (compare f f) (order.mirror f f), p.0)),
          )
