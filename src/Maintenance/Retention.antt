-- ===== src/Maintenance/Retention.antt =====
-- `classifyMapRetention` of internal/maintenance/maintenance.go, and the rest of `Inventory`: the
-- newest map of each group stays, the items are sorted, and the first 500 are shown.
use repo_karta.Common.Insertion.{insertion_sort}
use repo_karta.Common.Text.{Text, codes, text_eq, text_lt}
use repo_karta.Common.{
  ℕ, suc, ◌+◌, Bool, true, false, ◌&&◌, not, Option, none, some, List, [], ◌∷◌, length, take, ltb,
  ◌==◌, if◌then◌else◌,
}
use repo_karta.Maintenance.Items.{Entry, Inventory, Item, State, cached, clean_as, scan, stale}
use repo_karta.Maintenance.Artifacts.{base, map_group}

abbrev pub is_cached : State → Bool
is_cached cached = true
is_cached _ = false

unfoldable pub is_cached_map : Item → Bool
unfolding text_eq
is_cached_map item = text_eq item.category (codes "maps") && is_cached item.state

unfoldable pub group_of : Item → Text
unfolding map_group base
group_of item = map_group (base item.relative_path)

-- `latest[group]`: an index and the time of the item that it names.
unfoldable pub newer : Option (ℕ × ℕ) → ℕ → ℕ → Option (ℕ × ℕ)
newer none index time = some (index, time)
newer (some (i, t)) index time = if ltb t time then some (index, time) else some (i, t)

-- The first loop, as far as it sets `latest[group]`, from an index on.
unfoldable pub latest : Text → ℕ → Option (ℕ × ℕ) → List Item → Option (ℕ × ℕ)
unfolding newer is_cached_map group_of
latest group index found [] = found
latest group index found (item ∷ items) =
    latest group (suc index)
      (if is_cached_map item && text_eq (group_of item) group
        then newer found index item.modified_at
        else found)
      items

abbrev pub is_index : Option (ℕ × ℕ) → ℕ → Bool
is_index none index = false
is_index (some (i, t)) index = i == index

-- The body of the second loop.
unfoldable pub retain_map : List Item → ℕ → Item → Item
unfolding latest
retain_map all_items index item =
    if not (is_cached_map item)
    then item
    else if is_index (latest (group_of item) 0 none all_items) index
    then item
    else clean_as stale item

unfoldable pub retain_maps : List Item → ℕ → List Item → List Item
unfolding retain_map
retain_maps all_items index [] = []
retain_maps all_items index (item ∷ items) =
    retain_map all_items index item ∷ retain_maps all_items (suc index) items

unfoldable pub classify_map_retention : List Item → List Item
unfolding retain_maps
classify_map_retention items = retain_maps items 0 items

-- The order of the items: cleanable ones first, then by category and path.
unfoldable pub item_less : Item → Item → Bool
unfolding text_eq
item_less left right =
    if left.cleanable && not right.cleanable
    then true
    else if not left.cleanable && right.cleanable
    then false
    else if not (text_eq left.category right.category)
    then text_lt left.category right.category
    else text_lt left.relative_path right.relative_path

abbrev pub maximum_inventory_items : ℕ
maximum_inventory_items = 500

unfoldable pub sum_sizes : (Item → Bool) → List Item → ℕ
sum_sizes wanted [] = 0
sum_sizes wanted (item ∷ items) =
    (if wanted item then item.size_bytes else 0) + sum_sizes wanted items

-- What follows the walk.
unfoldable pub finish : List Item → Inventory
unfolding sum_sizes item_less
finish items =
    let sorted = insertion_sort item_less (classify_map_retention items) in
    record {
      total_bytes = sum_sizes (λ item. true) items;
      reclaimable_bytes = sum_sizes (λ item. item.cleanable) (classify_map_retention items);
      items = take maximum_inventory_items sorted;
      items_truncated = ltb maximum_inventory_items (length sorted);
    }

abbrev pub after_scan : Option (List Item) → Option Inventory
after_scan none = none
after_scan (some items) = some (finish items)

-- `Inventory`, for the repositories and the images that the store names.
unfoldable pub inventory_of :
    (ℕ → ℕ) → (Text → Text) → List (ℕ × Text) → List Text → Option (List Entry) → Option Inventory
unfolding finish
inventory_of wide short_hash repositories images none = none
inventory_of wide short_hash repositories images (some entries) =
    after_scan (scan wide short_hash repositories images entries)
