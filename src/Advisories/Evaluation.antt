-- ===== src/Advisories/Evaluation.antt =====
-- The evaluation of a range's events, against the one that the OSV schema documents.
use repo_karta.Common.Text.{Text}
use repo_karta.Common.{
  ◌≡◌, refl, Bool, true, false, ◌&&◌, ◌||◌, not, any, List, [], ◌∷◌, arith, Bool-cases,
  if◌then◌else◌, inl, inr,
}
use repo_karta.Advisories.Events.{
  Compare, Event, Kind, event_version, fixed_at, introduced_at, is_gt, is_lt, is_star, is_zero,
  kind_of, last_at, limit_at, nothing,
}
use repo_karta.Advisories.Order.{Before, IsOrder, le_lt_trans, lt_le_trans, not_gt}

abbrev pub version_of : Kind → Text
version_of (introduced_at i) = i
version_of (fixed_at f) = f
version_of (last_at l) = l
version_of (limit_at l) = l
version_of nothing = []

abbrev pub is_start : Kind → Bool
is_start (introduced_at i) = true
is_start (fixed_at f) = false
is_start (last_at l) = false
is_start (limit_at l) = false
is_start nothing = false

abbrev pub is_limit : Kind → Bool
is_limit (introduced_at i) = false
is_limit (fixed_at f) = false
is_limit (last_at l) = false
is_limit (limit_at l) = true
is_limit nothing = false

-- Only an introduction may have the version "0", and only a limit "*"; none is empty.
abbrev pub IsPlainKind : Kind → Type 0
IsPlainKind (introduced_at i) = is_star i ≡ false
IsPlainKind (fixed_at f) = (is_zero f ≡ false) × (is_star f ≡ false)
IsPlainKind (last_at l) = (is_zero l ≡ false) × (is_star l ≡ false)
IsPlainKind (limit_at l) = is_zero l ≡ false
IsPlainKind nothing = ⊥

-- The version is written without white space around it.
abbrev pub IsPlain : Event → Type 0
IsPlain e = (event_version e ≡ version_of (kind_of e)) × IsPlainKind (kind_of e)

module _ (compare : Compare) where
  -- Whether a version has reached an event.
  abbrev pub passed : Text → Kind → Bool
  passed v (introduced_at i) = is_zero i || not (is_lt (compare v i))
  passed v (fixed_at f) = not (is_lt (compare v f))
  passed v (last_at l) = is_gt (compare v l)
  passed v (limit_at l) = not (is_star l || is_lt (compare v l))
  passed v nothing = false

  -- Each event that the version has reached decides anew, a limit like the others.
  abbrev pub switched_from : Text → List Event → Bool → Bool
  switched_from v [] affected = affected
  switched_from v (e ∷ es) affected =
      switched_from v es (if passed v (kind_of e) then is_start (kind_of e) else affected)

  -- The algorithm of the OSV schema. `BeforeLimits`: there is no limit, or the version is below some.
  abbrev pub below_limit : Text → Kind → Bool
  below_limit v (limit_at l) = is_star l || is_lt (compare v l)
  below_limit v _ = false

  abbrev pub before_limits : Text → List Event → Bool
  before_limits v es =
      not (any (λ e. is_limit (kind_of e)) es) || any (λ e. below_limit v (kind_of e)) es

  -- Its loop over the sorted events, which looks at no limit.
  abbrev pub moved : Text → Kind → Bool → Bool
  moved v (introduced_at i) affected =
      if is_zero i || not (is_lt (compare v i)) then true else affected
  moved v (fixed_at f) affected = if not (is_lt (compare v f)) then false else affected
  moved v (last_at l) affected = if is_gt (compare v l) then false else affected
  moved v (limit_at l) affected = affected
  moved v nothing affected = affected

  abbrev pub osv_from : Text → List Event → Bool → Bool
  osv_from v [] affected = affected
  osv_from v (e ∷ es) affected = osv_from v es (moved v (kind_of e) affected)

  abbrev pub osv_affected : Text → List Event → Bool
  osv_affected v es = before_limits v es && osv_from v es false

  -- What may stand directly behind an event: no second introduction behind an introduction, behind a
  -- last affected version nothing that this version reaches, and behind a limit nothing at all.
  abbrev pub MayFollow : Kind → Kind → Type 0
  MayFollow (introduced_at i) k = is_start k ≡ false
  MayFollow (fixed_at f) k = Unit
  MayFollow (last_at l) k = passed l k ≡ false
  MayFollow (limit_at l) k = ⊥
  MayFollow nothing k = Unit

  abbrev pub Alternates : List Event → Type 0
  Alternates [] = Unit
  Alternates (a ∷ []) = Unit
  Alternates (a ∷ b ∷ es) = MayFollow (kind_of a) (kind_of b) × Alternates (b ∷ es)

  moved-passed :
      (v : Text) (k : Kind) (affected : Bool)
      → is_limit k ≡ false
      → (if passed v k then is_start k else affected) ≡ moved v k affected
  moved-passed v (introduced_at i) affected h = refl
  moved-passed v (fixed_at f) affected h = refl
  moved-passed v (last_at l) affected h = refl
  moved-passed v (limit_at l) affected h = absurd cc
  moved-passed v nothing affected h = refl

  below_limit-other : (v : Text) (k : Kind) → is_limit k ≡ false → below_limit v k ≡ false
  below_limit-other v (introduced_at i) h = refl
  below_limit-other v (fixed_at f) h = refl
  below_limit-other v (last_at l) h = refl
  below_limit-other v (limit_at l) h = absurd cc
  below_limit-other v nothing h = refl

  -- A limit with nothing behind it switches as the schema's test of the limits does.
  limit-last :
      (v : Text) (k : Kind) (affected : Bool)
      → is_limit k ≡ true
      → (if passed v k then is_start k else affected) ≡ (below_limit v k && moved v k affected)
  limit-last v (introduced_at i) affected h = absurd cc
  limit-last v (fixed_at f) affected h = absurd cc
  limit-last v (last_at l) affected h = absurd cc
  limit-last v (limit_at l) affected h = ground arith
  limit-last v nothing affected h = absurd cc

  no-limit-follow : (a b : Kind) → MayFollow a b → is_limit a ≡ false
  no-limit-follow (introduced_at i) b h = refl
  no-limit-follow (fixed_at f) b h = refl
  no-limit-follow (last_at l) b h = refl
  no-limit-follow (limit_at l) b h = absurd h
  no-limit-follow nothing b h = refl

  pub switched_from-osv :
      (v : Text) (es : List Event) (affected : Bool)
      → Alternates es
      → switched_from v es affected ≡ (before_limits v es && osv_from v es affected)
  switched_from-osv v [] affected f = refl
  switched_from-osv v (a ∷ []) affected f = elim (Bool-cases (is_limit (kind_of a))) [
    | inl e ↦ let l = limit-last v (kind_of a) affected e in rw (l, e) (ground arith)
    | inr e ↦ rw (e, moved-passed v (kind_of a) affected e) refl
  ]
  switched_from-osv v (a ∷ b ∷ es) affected f =
      let e = no-limit-follow (kind_of a) (kind_of b) f.0 in
      rw (e, below_limit-other v (kind_of a) e, moved-passed v (kind_of a) affected e)
        (switched_from-osv v (b ∷ es) (moved v (kind_of a) affected) f.1)

  -- Neighbours in order.
  abbrev pub Ordered : List Event → Type 0
  Ordered [] = Unit
  Ordered (a ∷ []) = Unit
  Ordered (a ∷ b ∷ es) =
      Before compare (version_of (kind_of a)) (version_of (kind_of b)) × Ordered (b ∷ es)

  module _ (order : IsOrder compare) where
    not_passed_lt :
        (v : Text) (k : Kind)
        → is_zero (version_of k) ≡ false
        → is_lt (compare v (version_of k)) ≡ true
        → passed v k ≡ false
    not_passed_lt v (introduced_at i) z h = rw (z, h) refl
    not_passed_lt v (fixed_at f) z h = rw h refl
    not_passed_lt v (last_at l) z h = not_gt (compare v l) h
    not_passed_lt v (limit_at l) z h = ground arith
    not_passed_lt v nothing z h = refl

    not_passed_star :
        (v : Text) (k : Kind) → IsPlainKind k → is_star (version_of k) ≡ true → passed v k ≡ false
    not_passed_star v (introduced_at i) p h = absurd cc
    not_passed_star v (fixed_at f) p h = let plain = p.1 in absurd cc
    not_passed_star v (last_at l) p h = let plain = p.1 in absurd cc
    not_passed_star v (limit_at l) p h = rw h refl
    not_passed_star v nothing p h = refl

    -- What a later version has not reached, an earlier one has not either.
    not_passed_earlier :
        (v w : Text) (k : Kind)
        → is_gt (compare v w) ≡ false
        → passed w k ≡ false
        → passed v k ≡ false
    not_passed_earlier v w (introduced_at i) h n =
        let z : is_zero i ≡ false = ground arith in
        let l : is_lt (compare w i) ≡ true = ground arith in
        not_passed_lt v (introduced_at i) z (le_lt_trans compare order v w i h l)
    not_passed_earlier v w (fixed_at f) h n =
        let l : is_lt (compare w f) ≡ true = ground arith in
        let e = le_lt_trans compare order v w f h l in rw e refl
    not_passed_earlier v w (last_at l) h n = order.le_trans v w l h n
    not_passed_earlier v w (limit_at l) h n = elim (Bool-cases (is_star l)) [
      | inl s ↦ rw s refl
      | inr s ↦
          let less : is_lt (compare w l) ≡ true = ground arith in
          let e = le_lt_trans compare order v w l h less in ground arith
    ]
    not_passed_earlier v w nothing h n = refl

    -- A version below one event is below the next.
    lt_next :
        (v a : Text) (k : Kind)
        → IsPlainKind k
        → is_zero a ≡ false
        → is_lt (compare v a) ≡ true
        → Before compare a (version_of k)
        → passed v k ≡ false
    lt_next v a k p z h (inl zero) = absurd cc
    lt_next v a k p z h (inr (inl star)) = not_passed_star v k p star
    lt_next v a k p z h (inr (inr b)) =
        not_passed_lt v k b.0 (lt_le_trans compare order v a (version_of k) h b.2)

    pub not_passed_next :
        (v : Text) (a b : Kind)
        → IsPlainKind a
        → IsPlainKind b
        → Before compare (version_of a) (version_of b)
        → MayFollow a b
        → passed v a ≡ false
        → passed v b ≡ false
    not_passed_next v (introduced_at i) b p q o f n =
        let z : is_zero i ≡ false = ground arith in
        let l : is_lt (compare v i) ≡ true = ground arith in lt_next v i b q z l o
    not_passed_next v (fixed_at x) b p q o f n =
        let l : is_lt (compare v x) ≡ true = ground arith in lt_next v x b q p.0 l o
    not_passed_next v (last_at l) b p q o f n = not_passed_earlier v l b n f
    not_passed_next v (limit_at l) b p q o f n = absurd f
    not_passed_next v nothing b p q o f n = absurd p
