-- ===== src/Maintenance/Latest.antt =====
-- `latest[group]`, the first loop of `classifyMapRetention`: a map of the group that none is newer than.
use repo_karta.Common.Equal.{text_eq-path, text_eq_self}
use repo_karta.Common.Text.{Text, text_eq}
use repo_karta.Common.{
  ℕ, zero, suc, ◌+◌, ◌≤◌, Bool, true, ◌&&◌, Option, none, some, List, [], ◌∷◌, get_elem?, ◌≡◌, ◌⊎◌,
  inl, inr, refl, sym, ap, subst, ◌∙◌, ltb, &&_true, if◌then◌else◌, if_rule, arith,
}
use repo_karta.Maintenance.Items.{Item}
use repo_karta.Maintenance.Retention.{group_of, is_cached_map, latest, newer}

-- A map that is no leftover, of a group.
abbrev pub IsMapOf : Text → Item → Type 0
IsMapOf g item = (is_cached_map item ≡ true) × (group_of item ≡ g)

-- A time is reached.
abbrev pub AtLeast : ℕ → Option (ℕ × ℕ) → Type 0
AtLeast t none = ⊥
AtLeast t (some (i, u)) = t ≤ u

newer-AtLeast :
    (t : ℕ) (o : Option (ℕ × ℕ)) (index time : ℕ) → AtLeast t o → AtLeast t (newer o index time)
unfolding newer
newer-AtLeast t none index time h = absurd h
newer-AtLeast t (some (i, u)) index time h =
    if_rule (AtLeast t) (ltb u time) (some (index, time)) (some (i, u)) (λ e. ground arith) (λ e. h)

newer_now : (o : Option (ℕ × ℕ)) (index time : ℕ) → AtLeast time (newer o index time)
unfolding newer
newer_now none index time = omega arith
newer_now (some (i, u)) index time =
    if_rule (AtLeast time) (ltb u time) (some (index, time)) (some (i, u)) (λ e. omega arith)
      (λ e. ground arith)

module _ (g : Text) where
  abbrev belongs : Item → Bool
  belongs item = is_cached_map item && text_eq (group_of item) g

  IsMapOf-belongs : (item : Item) → IsMapOf g item → belongs item ≡ true
  IsMapOf-belongs item (e, f) = rw (e, f) (text_eq_self g)

  belongs-IsMapOf : (item : Item) → belongs item ≡ true → IsMapOf g item
  belongs-IsMapOf item h =
      let (a, b) = &&_true (is_cached_map item) (text_eq (group_of item) g) h in
      (a, text_eq-path (group_of item) g b)

  latest-AtLeast :
      (t index : ℕ) (o : Option (ℕ × ℕ)) (items : List Item)
      → AtLeast t o
      → AtLeast t (latest g index o items)
  unfolding latest
  latest-AtLeast t index o [] h = h
  latest-AtLeast t index o (item ∷ items) h =
      if_rule (λ r. AtLeast t (latest g (suc index) r items)) (belongs item)
        (newer o index item.modified_at) o
        (λ _.
          latest-AtLeast t (suc index) (newer o index item.modified_at) items
            (newer-AtLeast t o index item.modified_at h))
        (λ _. latest-AtLeast t (suc index) o items h)

  -- No map of the group is newer than the latest.
  pub latest_bound :
      (index : ℕ) (o : Option (ℕ × ℕ)) (items : List Item) (k : ℕ) (m : Item)
      → get_elem? items k ≡ some m
      → IsMapOf g m
      → AtLeast m.modified_at (latest g index o items)
  unfolding latest
  latest_bound index o [] k m h e = absurd cc
  latest_bound index o (item ∷ items) zero m h e =
      let same : item ≡ m = cc in
      subst (λ (n : Item). AtLeast n.modified_at (latest g index o (item ∷ items))) same
        (rw (IsMapOf-belongs item (subst (IsMapOf g) (sym same) e), latest)
          (latest-AtLeast item.modified_at (suc index) (newer o index item.modified_at) items
            (newer_now o index item.modified_at)))
  latest_bound index o (item ∷ items) (suc k) m h e =
      latest_bound (suc index) (if belongs item then newer o index item.modified_at else o) items k
        m h e

  -- The latest is the old one, or a map of the group.
  abbrev pub Names : ℕ → List Item → Option (ℕ × ℕ) → Type 0
  Names index items r =
      (k : ℕ) × (n : Item) × (get_elem? items k ≡ some n)
      × IsMapOf g n
      × (r ≡ some (index + k, n.modified_at))

  shift :
      (index : ℕ) (item : Item) (items : List Item) (r : Option (ℕ × ℕ))
      → Names (suc index) items r
      → Names index (item ∷ items) r
  shift index item items r (k, n, at_k, e, f) =
      (suc k, n, at_k, e, f ∙ ap (λ i. some (i, n.modified_at)) (omega arith))

  newer-cases :
      (o : Option (ℕ × ℕ)) (index time : ℕ)
      → (newer o index time ≡ o) ⊎ (newer o index time ≡ some (index, time))
  unfolding newer
  newer-cases none index time = inr refl
  newer-cases (some (i, t)) index time =
      if_rule (λ r. (r ≡ some (i, t)) ⊎ (r ≡ some (index, time))) (ltb t time) (some (index, time))
        (some (i, t)) (λ _. inr refl) (λ _. inl refl)

  pub latest-Names :
      (index : ℕ) (o : Option (ℕ × ℕ)) (items : List Item)
      → (latest g index o items ≡ o) ⊎ Names index items (latest g index o items)
  unfolding latest
  latest-Names index o [] = inl refl
  latest-Names index o (item ∷ items) =
      if_rule
        (λ r.
          (latest g (suc index) r items ≡ o)
          ⊎ Names index (item ∷ items) (latest g (suc index) r items))
        (belongs item) (newer o index item.modified_at) o
        (λ e.
          taken (belongs-IsMapOf item e)
            (latest-Names (suc index) (newer o index item.modified_at) items)
            (newer-cases o index item.modified_at))
        (λ e. past (latest-Names (suc index) o items))
    where
      here :
          (r : Option (ℕ × ℕ))
          → IsMapOf g item
          → r ≡ some (index, item.modified_at)
          → Names index (item ∷ items) r
      here r e f = (0, item, refl, e, f ∙ ap (λ i. some (i, item.modified_at)) (omega arith))

      past :
          (latest g (suc index) o items ≡ o)
            ⊎ Names (suc index) items (latest g (suc index) o items)
          → (latest g (suc index) o items ≡ o)
            ⊎ Names index (item ∷ items) (latest g (suc index) o items)
      past (inl e) = inl e
      past (inr n) = inr (shift index item items (latest g (suc index) o items) n)

      taken :
          IsMapOf g item
          → (latest g (suc index) (newer o index item.modified_at) items
              ≡ newer o index item.modified_at)
            ⊎ Names (suc index) items (latest g (suc index) (newer o index item.modified_at) items)
          → (newer o index item.modified_at ≡ o)
            ⊎ (newer o index item.modified_at ≡ some (index, item.modified_at))
          → (latest g (suc index) (newer o index item.modified_at) items ≡ o)
            ⊎ Names index
                (item ∷ items)
                (latest g (suc index) (newer o index item.modified_at) items)
      taken m (inr n) c =
          inr
            (shift index item items (latest g (suc index) (newer o index item.modified_at) items) n)
      taken m (inl e) (inl f) = inl (e ∙ f)
      taken m (inl e) (inr f) =
          inr (here (latest g (suc index) (newer o index item.modified_at) items) m (e ∙ f))
