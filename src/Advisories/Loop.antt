-- ===== src/Advisories/Loop.antt =====
-- The loop of `eventsContain` against an evaluation in which each event that is reached decides anew.
use repo_karta.Common.Text.{Text}
use repo_karta.Common.{
  ◌≡◌, ◌∙◌, refl, sym, Bool, true, false, ◌&&◌, ◌||◌, not, List, [], ◌∷◌, All, Bool-cases,
  if◌then◌else◌, inl, inr, ap,
}
use repo_karta.Advisories.Evaluation.{
  Alternates, IsPlain, IsPlainKind, MayFollow, Ordered, is_start, not_passed_next, switched_from,
  passed,
}
use repo_karta.Advisories.Events.{
  Compare, Event, Kind, contain_from, fixed_at, introduced_at, is_lt, is_star, kind_of, last_at,
  limit_at, nothing, on_kind,
}
use repo_karta.Advisories.Order.{IsOrder}

module _ (compare : Compare) (order : IsOrder compare) where
  -- What no event of the list decides, the specification leaves as it is.
  osv_from_unreached :
      (v : Text) (a : Event) (es : List Event)
      → All IsPlain (a ∷ es)
      → Ordered compare (a ∷ es)
      → Alternates compare (a ∷ es)
      → passed compare v (kind_of a) ≡ false
      → (affected : Bool) → switched_from compare v es affected ≡ affected
  osv_from_unreached v a [] p o f n affected = refl
  osv_from_unreached v a (b ∷ es) p o f n affected =
      let e = not_passed_next compare order v (kind_of a) (kind_of b) p.0.1 p.1.0.1 o.0 f.0 n in
      rw e (osv_from_unreached v b es p.1 o.1 f.1 e affected)

  -- An event that is no introduction ends the loop for the versions before it.
  abbrev end_fixed : Kind → Text
  end_fixed (introduced_at i) = []
  end_fixed (fixed_at f) = f
  end_fixed (last_at l) = []
  end_fixed (limit_at l) = []
  end_fixed nothing = []

  on_kind_end :
      (v : Text) (active : Bool) (next : Bool → Bool × Text) (k : Kind)
      → IsPlainKind k
      → is_start k ≡ false
      → on_kind compare v active next k
        ≡ (if active && not (passed compare v k) then (true, end_fixed k) else next false)
  unfolding on_kind
  on_kind_end v active next (introduced_at i) p h = absurd cc
  on_kind_end v active next (fixed_at f) p h = elim (Bool-cases (is_lt (compare v f))) [
    | inl e ↦ rw e refl
    | inr e ↦ rw e refl
  ]
  on_kind_end v active next (last_at l) p h = refl
  on_kind_end v active next (limit_at l) p h =
      elim (Bool-cases (is_star l || is_lt (compare v l))) [ inl e ↦ rw e refl | inr e ↦ rw e refl ]
  on_kind_end v active next nothing p h = absurd p

  -- Where the loop is active, no introduction comes next.
  abbrev pub Ready : Bool → List Event → Type 0
  Ready active [] = Unit
  Ready active (e ∷ es) = active ≡ true → is_start (kind_of e) ≡ false

  pub Ready-inactive : (es : List Event) → Ready false es
  Ready-inactive [] = tt
  Ready-inactive (e ∷ es) = λ h. absurd cc

  Ready-behind :
      (a : Event) (es : List Event) (active : Bool)
      → is_start (kind_of a) ≡ true
      → Alternates compare (a ∷ es)
      → Ready active es
  Ready-behind a [] active s f = tt
  Ready-behind a (b ∷ es) active s f = λ _. go (kind_of a) s f.0
    where
      go :
          (k : Kind)
          → is_start k ≡ true
          → MayFollow compare k (kind_of b)
          → is_start (kind_of b) ≡ false
      go (introduced_at i) s f = f
      go (fixed_at x) s f = absurd cc
      go (last_at l) s f = absurd cc
      go (limit_at l) s f = absurd cc
      go nothing s f = absurd cc

  Alternates-tail :
      (a : Event) (es : List Event) → Alternates compare (a ∷ es) → Alternates compare es
  Alternates-tail a [] f = tt
  Alternates-tail a (b ∷ es) f = f.1

  Ordered-tail : (a : Event) (es : List Event) → Ordered compare (a ∷ es) → Ordered compare es
  Ordered-tail a [] f = tt
  Ordered-tail a (b ∷ es) f = f.1

  on_kind_start :
      (v : Text) (active : Bool) (next : Bool → Bool × Text) (k : Kind)
      → is_start k ≡ true
      → on_kind compare v active next k ≡ next (passed compare v k)
  unfolding on_kind
  on_kind_start v active next (introduced_at i) h = refl
  on_kind_start v active next (fixed_at f) h = absurd cc
  on_kind_start v active next (last_at l) h = absurd cc
  on_kind_start v active next (limit_at l) h = absurd cc
  on_kind_start v active next nothing h = absurd cc

  pub contain_from-switched :
      (v : Text) (es : List Event) (active : Bool)
      → All IsPlain es
      → Ordered compare es
      → Alternates compare es
      → Ready active es
      → (contain_from compare v es active).0 ≡ switched_from compare v es active
  unfolding contain_from
  contain_from-switched v [] active p o f r = refl
  contain_from-switched v (e ∷ es) active p o f r = elim (Bool-cases (is_start (kind_of e))) [
    | inl start ↦
        ap (λ x. x.0) (on_kind_start v active (contain_from compare v es) (kind_of e) start)
        ∙ contain_from-switched v es (passed compare v (kind_of e)) p.1 (Ordered-tail e es o)
            (Alternates-tail e es f) (Ready-behind e es (passed compare v (kind_of e)) start f)
        ∙ ap (switched_from compare v es) (at_start (passed compare v (kind_of e)) start active r)
    | inr end ↦
        ap (λ x. x.0) (on_kind_end v active (contain_from compare v es) (kind_of e) p.0.1 end)
        ∙ at_end active end (
            contain_from-switched v es false p.1 (Ordered-tail e es o) (Alternates-tail e es f)
              (Ready-inactive es))
  ]
    where
      at_start :
          (b : Bool)
          → is_start (kind_of e) ≡ true
          → (active : Bool) → (active ≡ true → is_start (kind_of e) ≡ false)
          → b ≡ (if b then is_start (kind_of e) else active)
      at_start true s active r = sym s
      at_start false s true r = let no_start = r refl in absurd cc
      at_start false s false r = refl

      at_end :
          (active : Bool)
          → is_start (kind_of e) ≡ false
          → (contain_from compare v es false).0 ≡ switched_from compare v es false
          → (if active && not (passed compare v (kind_of e))
              then (true, end_fixed (kind_of e))
              else contain_from compare v es false).0
            ≡ switched_from compare v es
                (if passed compare v (kind_of e) then is_start (kind_of e) else active)
      at_end true s ih = elim (Bool-cases (passed compare v (kind_of e))) [
        | inl n ↦ rw (n, s) ih
        | inr n ↦ rw n (sym (osv_from_unreached v e es p o f n true))
      ]
      at_end false s ih = elim (Bool-cases (passed compare v (kind_of e))) [
        | inl n ↦ rw (n, s) ih
        | inr n ↦ rw n ih
      ]
