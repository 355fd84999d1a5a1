-- ===== src/Advisories/Order.antt =====
-- The order in which `sortedOSVEvents` leaves the events of a range.
use mathlib.Core.Ordering.{Ordering, lt, eq, gt}
use repo_karta.Common.Insertion.{Pairwise, insertion_sort-Pairwise}
use repo_karta.Common.Equal.{is_blank, text_eq-path}
use repo_karta.Common.Text.{Text, text_eq}
use repo_karta.Common.{
  ◌≡◌, ◌∙◌, ◌⊎◌, refl, subst, Bool, true, false, ◌&&◌, ◌||◌, not, List, [], ◌∷◌, All, arith,
  Bool-cases, if◌then◌else◌, if_rule, inl, inr,
}
use repo_karta.Advisories.Events.{
  Compare, Event, event_less, event_version, is_gt, is_lt, is_star, is_zero, sorted_osv_events,
}

-- A comparison of versions is a total preorder.
pub record IsOrder (compare : Compare) : Type 0 where
  pub mirror : (a b : Text) → is_gt (compare a b) ≡ is_lt (compare b a)
  pub le_trans :
      (a b d : Text)
      → is_gt (compare a b) ≡ false
      → is_gt (compare b d) ≡ false
      → is_gt (compare a d) ≡ false

pub not_gt : (o : Ordering) → is_lt o ≡ true → is_gt o ≡ false
not_gt lt h = refl
not_gt eq h = cc
not_gt gt h = cc

pub not_both : (o : Ordering) → is_gt o ≡ is_lt o → is_gt o ≡ false
not_both lt h = refl
not_both eq h = refl
not_both gt h = cc

pub zero_star : (s : Text) → is_zero s ≡ true → is_star s ≡ false
unfolding text_eq
zero_star [] h = cc
zero_star (c ∷ s) h = ground arith

module _ (compare : Compare) where
  -- The version `l` may stand in front of `r`: "0" is the first of all and "*" the last.
  abbrev pub Before : Text → Text → Type 0
  Before l r =
      (is_zero l ≡ true)
      ⊎ (is_star r ≡ true)
      ⊎ ((is_zero r ≡ false) × (is_star l ≡ false) × (is_gt (compare l r) ≡ false))

  abbrev pub EventBefore : Event → Event → Type 0
  EventBefore a b = Before (event_version a) (event_version b)

module _ (compare : Compare) (order : IsOrder compare) where
  pub le_lt_trans :
      (a b d : Text)
      → is_gt (compare a b) ≡ false
      → is_lt (compare b d) ≡ true
      → is_lt (compare a d) ≡ true
  le_lt_trans a b d h k = elim (Bool-cases (is_lt (compare a d))) [
    | inl e ↦ e
    | inr e ↦
        let back = order.le_trans d a b (order.mirror d a ∙ e) h in
        let ahead = order.mirror d b in cc
  ]

  pub lt_le_trans :
      (a b d : Text)
      → is_lt (compare a b) ≡ true
      → is_gt (compare b d) ≡ false
      → is_lt (compare a d) ≡ true
  lt_le_trans a b d h k = elim (Bool-cases (is_lt (compare a d))) [
    | inl e ↦ e
    | inr e ↦
        let back = order.le_trans b d a k (order.mirror d a ∙ e) in
        let ahead = order.mirror b a in cc
  ]

  Before-refl : (l : Text) → Before compare l l
  Before-refl l = elim (Bool-cases (is_zero l)) [
    | inl z ↦ inl z
    | inr z ↦ elim (Bool-cases (is_star l)) [
      | inl s ↦ inr (inl s)
      | inr s ↦ inr (inr (z, s, not_both (compare l l) (order.mirror l l)))
    ]
  ]

  Before-trans : (a b d : Text) → Before compare a b → Before compare b d → Before compare a d
  Before-trans a b d (inl z) k = inl z
  Before-trans a b d (inr (inl s)) (inl z) = let no_star = zero_star b z in absurd cc
  Before-trans a b d (inr (inl s)) (inr (inl t)) = inr (inl t)
  Before-trans a b d (inr (inl s)) (inr (inr k)) = let no_star = k.1 in absurd cc
  Before-trans a b d (inr (inr h)) (inl z) = let no_zero = h.0 in absurd cc
  Before-trans a b d (inr (inr h)) (inr (inl t)) = inr (inl t)
  Before-trans a b d (inr (inr h)) (inr (inr k)) =
      inr (inr (k.0, h.1, order.le_trans a b d h.2 k.2))

  -- What a comparison by `event_less` says of the versions.
  abbrev Compared : Text → Text → Bool → Type 0
  Compared l r b = (b ≡ true → Before compare l r) × (b ≡ false → Before compare r l)

  Compared-true : (l r : Text) → Before compare l r → Compared l r true
  Compared-true l r h = (λ _. h, λ e. absurd cc)

  Compared-false : (l r : Text) → Before compare r l → Compared l r false
  Compared-false l r h = (λ e. absurd cc, λ _. h)

  first_or_last : (l r : Text) → (is_zero l || is_star r) ≡ true → Before compare l r
  first_or_last l r h = elim (Bool-cases (is_zero l)) [
    | inl z ↦ inl z
    | inr z ↦ inr (inl (ground arith))
  ]

  by_order :
      (l r : Text)
      → (is_zero l || is_star r) ≡ false
      → (is_zero r || is_star l) ≡ false
      → Compared l r (is_lt (compare l r))
  by_order l r h k = (
    λ e. inr (inr (ground arith, ground arith, not_gt (compare l r) e)),
    λ e. inr (inr (ground arith, ground arith, order.mirror r l ∙ e)),
  )

  versions-Compared :
      (l r : Text) (x : Bool)
      → Compared l r (
          if text_eq l r
          then x
          else if is_zero l || is_star r
          then true
          else if is_zero r || is_star l
          then false
          else is_lt (compare l r))
  versions-Compared l r x =
      if_rule (Compared l r) (text_eq l r) _ _
        (λ same.
          let e = text_eq-path l r same in
          (
            λ _. subst (Before compare l) e (Before-refl l),
            λ _. subst (λ s. Before compare s l) e (Before-refl l),
          ))
        (λ _.
          if_rule (Compared l r) (is_zero l || is_star r) _ _
            (λ h. Compared-true l r (first_or_last l r h))
            (λ h.
              if_rule (Compared l r) (is_zero r || is_star l) _ _
                (λ k. Compared-false l r (first_or_last r l k)) (by_order l r h)))

  event_less-Compared :
      (a b : Event) → Compared (event_version a) (event_version b) (event_less compare a b)
  unfolding event_less
  event_less-Compared a b =
      versions-Compared (event_version a) (event_version b)
        (not (is_blank a.introduced) && is_blank b.introduced)

  trivially : (es : List Event) → All (λ _. Unit {0}) es
  trivially [] = tt
  trivially (e ∷ es) = (tt, trivially es)

  pub sorted_osv_events-Pairwise :
      (es : List Event) → Pairwise (EventBefore compare) (sorted_osv_events compare es)
  unfolding sorted_osv_events
  sorted_osv_events-Pairwise es =
      insertion_sort-Pairwise (λ _. Unit {0}) (EventBefore compare) (event_less compare)
        (λ a b _ _ h. (event_less-Compared a b).0 h) (λ a b _ _ h. (event_less-Compared a b).1 h)
        (λ a b d _ _ _ h k. Before-trans _ _ _ h k) es (trivially es)
