-- ===== src/Maintenance/Newest.antt =====
-- `classifyMapRetention`: of the maps of each group the newest stays.
use repo_karta.Common.Text.{Text}
use repo_karta.Common.{
  ℕ, zero, suc, ◌+◌, ◌≤◌, false, not, Option, none, some, List, [], ◌∷◌, get_elem?, ◌≡◌, ◌⊎◌, inl,
  inr, refl, ap, subst, ◌∙◌, ◌==◌, if◌then◌else◌, if_true, if_false, arith,
}
use repo_karta.Maintenance.Items.{Item, clean_as, stale}
use repo_karta.Maintenance.Retention.{
  classify_map_retention, is_cached_map, is_index, latest, retain_map, retain_maps,
}
use repo_karta.Maintenance.Latest.{AtLeast, IsMapOf, latest_bound, latest-Names}

-- The second loop, index by index.
retain_maps-get_elem? :
    (all_items : List Item) (index : ℕ) (items : List Item) (k : ℕ) (m : Item)
    → get_elem? items k ≡ some m
    → get_elem? (retain_maps all_items index items) k ≡ some (retain_map all_items (index + k) m)
unfolding retain_maps
retain_maps-get_elem? all_items index [] k m h = absurd cc
retain_maps-get_elem? all_items index (item ∷ items) zero m h =
    let same : item ≡ m = cc in rw same (ap (λ i. some (retain_map all_items i m)) (omega arith))
retain_maps-get_elem? all_items index (item ∷ items) (suc k) m h =
    retain_maps-get_elem? all_items (suc index) items k m h
    ∙ ap (λ i. some (retain_map all_items i m)) (omega arith)

retain_map-other :
    (all_items : List Item) (index : ℕ) (m : Item)
    → is_cached_map m ≡ false
    → retain_map all_items index m ≡ m
unfolding retain_map
retain_map-other all_items index m e = if_true (not (is_cached_map m)) _ _ (rw e refl)

retain_map-latest :
    (all_items : List Item) (index j t : ℕ) (g : Text) (m : Item)
    → IsMapOf g m
    → latest g 0 none all_items ≡ some (j, t)
    → retain_map all_items index m ≡ (if j == index then m else clean_as stale m)
unfolding retain_map
retain_map-latest all_items index j t g m (e, f) h =
    if_false (not (is_cached_map m)) _ _ (ground arith)
    ∙ ap (λ o. if is_index o index then m else clean_as stale m)
        (ap (λ k. latest k 0 none all_items) f ∙ h)

-- One map of a group stays, and it is the newest.
pub record OneStays (g : Text) (items : List Item) : Type 0 where
  pub index : ℕ
  pub newest : Item
  pub stands : get_elem? items index ≡ some newest
  pub is_map : IsMapOf g newest
  pub others :
      (i : ℕ) (m : Item)
      → get_elem? items i ≡ some m
      → IsMapOf g m
      → (m.modified_at ≤ newest.modified_at)
        × (get_elem? (classify_map_retention items) i
            ≡ some (if index == i then m else clean_as stale m))

abbrev pub HasNone : Text → List Item → Type 0
HasNone g items = (i : ℕ) (m : Item) → get_elem? items i ≡ some m → ¬ IsMapOf g m

AtLeast-some : (t j u : ℕ) (o : Option (ℕ × ℕ)) → AtLeast t o → o ≡ some (j, u) → t ≤ u
AtLeast-some t j u none h e = absurd h
AtLeast-some t j u (some (i, v)) h e = let f : v ≡ u = cc in omega (arith, f)

group-OneStays : (items : List Item) (g : Text) → HasNone g items ⊎ OneStays g items
unfolding classify_map_retention
group-OneStays items g = elim (latest-Names g 0 none items) [
  | inl e ↦ inl (λ i m at_i is_map.
      subst (AtLeast m.modified_at) e (latest_bound g 0 none items i m at_i is_map))
  | inr (k, n, at_k, is_map, f) ↦ inr (record {
    index = k;
    newest = n;
    stands = at_k;
    is_map = is_map;
    others = λ i m at_i e. (
      AtLeast-some m.modified_at (0 + k) n.modified_at (latest g 0 none items)
          (latest_bound g 0 none items i m at_i e) f,
      retain_maps-get_elem? items 0 items i m at_i
          ∙ ap some
              (retain_map-latest items (0 + i) (0 + k) n.modified_at g m e f ∙ unshifted i k m),
    );
  })
]
  where
    unshifted :
        (i k : ℕ) (m : Item)
        → (if (0 + k) == (0 + i) then m else clean_as stale m)
          ≡ (if k == i then m else clean_as stale m)
    unshifted i k m = ground arith

-- The retention of maps changes nothing but maps that are no leftovers. Of those of each group
-- exactly one stays as it is, one that none of the group is newer than; all others of the group
-- become stale and may be cleaned.
pub classify_map_retention-OneStays :
    (items : List Item)
    → ((i : ℕ) (m : Item)
        → get_elem? items i ≡ some m
        → is_cached_map m ≡ false
        → get_elem? (classify_map_retention items) i ≡ some m)
      × ((g : Text) → HasNone g items ⊎ OneStays g items)
unfolding classify_map_retention
classify_map_retention-OneStays items = (
  λ i m at_i e.
      retain_maps-get_elem? items 0 items i m at_i ∙ ap some (retain_map-other items (0 + i) m e),
  group-OneStays items,
)
