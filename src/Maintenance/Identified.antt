-- ===== src/Maintenance/Identified.antt =====
-- The identifiers of an inventory have no separator in them.
use repo_karta.Common.Equal.{is_blank, has_text, text_eq-path}
use repo_karta.Common.Insertion.{insertion_sort, insertion_sort-All}
use repo_karta.Common.Text.{Text, codes, text_eq, to_lower}
use repo_karta.Common.{
  ℕ, suc, Bool, true, false, ◌&&◌, not, Option, none, some, List, [], ◌∷◌, ◌++◌, All, All-append,
  All-take, ◌≡◌, inl, inr, refl, sym, subst, ltb, ◌==◌, Bool-cases, if◌then◌else◌, if_rule, any,
  any-All,
}
use repo_karta.Maintenance.Items.{
  Entry, Inventory, Item, Kind, State, category_for_top_level, category_of, classify, clean_as,
  database_names, directory, index_names, item_id, keep_as, new_item, own_names, file_entry, scan,
  scan_entry, symbolic_link, temporary_artifact, cached, diagnostic, interrupted, orphaned,
  referenced, stale,
}
use repo_karta.Maintenance.Artifacts.{ends_in}
use repo_karta.Maintenance.Retention.{
  after_scan, classify_map_retention, finish, inventory_of, is_cached_map, is_index, item_less,
  latest, group_of, maximum_inventory_items, retain_map, retain_maps,
}
use repo_karta.Maintenance.Stamps.{Plain}

abbrev pub PlainId : Item → Type 0
PlainId i = Plain i.id

has_text-All {κ} :
    (P : Text → Type κ) (s : Text) (ts : List Text) → has_text s ts ≡ true → All P ts → P s
unfolding has_text
has_text-All P s [] h k = absurd cc
has_text-All P s (t ∷ ts) h k = elim (Bool-cases (text_eq s t)) [
  | inl e ↦ subst P (sym (text_eq-path s t e)) k.0
  | inr e ↦ has_text-All P s ts (rw e at h) k.1
]

Plain-if : (s : Text) → any (λ c. c == 0) s ≡ false → Plain s
Plain-if s h = any-All (λ c. c == 0) s h

own_names-Plain : All Plain own_names
own_names-Plain = (
  Plain-if (codes "maps") refl,
  (
    Plain-if (codes "docs") refl,
    (
      Plain-if (codes "advisories") refl,
      (
        Plain-if (codes "conversations") refl,
        (Plain-if (codes "logs") refl, (Plain-if (codes "security") refl, tt)),
      ),
    ),
  ),
)

category_of-Plain : (lower : Text) → Plain (category_of lower)
unfolding category_of
category_of-Plain lower =
    if_rule Plain (has_text lower database_names) (codes "database") _
      (λ _. Plain-if (codes "database") refl)
      (λ _.
        if_rule Plain (has_text lower index_names) (codes "indexes") _
          (λ _. Plain-if (codes "indexes") refl)
          (λ _.
            if_rule Plain (has_text lower own_names) lower (codes "other")
              (λ e. has_text-All Plain lower own_names e own_names-Plain)
              (λ _. Plain-if (codes "other") refl)))

-- What holds of both branches holds of the conditional.
either_way : (P : Item → Type 0) (b : Bool) (x y : Item) → P x → P y → P (if b then x else y)
either_way P true x y h k = h
either_way P false x y h k = k

abbrev AllPlain : Option (List Item) → Type 0
AllPlain none = Unit
AllPlain (some items) = All PlainId items

module _ (wide : ℕ → ℕ) (short_hash : Text → Text)
    (hash_plain : (s : Text) → Plain (short_hash s)) where
  item_id-Plain :
      (category relative : Text)
      → Plain category
      → Plain (item_id wide short_hash category relative)
  unfolding item_id
  item_id-Plain category relative h =
      All-append (λ c. (c == 0) ≡ false) category (b'-' ∷ short_hash (category ++ 0 ∷ relative)) h
        (refl, hash_plain (category ++ 0 ∷ relative))

  new_item-Plain :
      (repositories : List (ℕ × Text)) (e : Entry)
      → PlainId (new_item wide short_hash repositories e)
  unfolding new_item category_for_top_level
  new_item-Plain repositories e =
      item_id-Plain (category_of (to_lower wide e.top_level)) e.relative
        (category_of-Plain (to_lower wide e.top_level))

  -- The conditions change nothing but the state and the cleanability.
  classify_rule :
      (P : Item → Type 0) (images : List Text) (name : Text) (item : Item)
      → ((s : State) → P (clean_as s item))
      → ((s : State) → P (keep_as s item))
      → P item
      → P (classify wide short_hash images name item)
  unfolding classify
  classify_rule P images name item f g h =
      either_way P (ltb 0 item.repository_id && is_blank item.repository) (clean_as orphaned item) _
        (f orphaned)
        (either_way P (temporary_artifact wide short_hash name) (clean_as interrupted item) _
          (f interrupted)
          (either_way P (text_eq item.category (codes "logs")) (clean_as diagnostic item) _
            (f diagnostic)
            (either_way P (text_eq item.category (codes "conversations")) _ _
              (either_way P (has_text name images) (keep_as referenced item)
                (clean_as orphaned item) (g referenced) (f orphaned))
              (either_way P
                (text_eq item.category (codes "maps")
                  && ends_in (to_lower wide name) (codes ".json"))
                (keep_as cached item) item (g cached) h))))

  classify-Plain :
      (images : List Text) (name : Text) (item : Item)
      → PlainId item
      → PlainId (classify wide short_hash images name item)
  classify-Plain images name item h = classify_rule PlainId images name item (λ s. h) (λ s. h) h

  scan_entry-Plain :
      (repositories : List (ℕ × Text)) (images : List Text) (k : Kind) (e : Entry)
      (o : Option (List Item))
      → AllPlain o
      → AllPlain (scan_entry wide short_hash repositories images k e o)
  unfolding scan_entry
  scan_entry-Plain repositories images symbolic_link e o h = tt
  scan_entry-Plain repositories images directory e o h = h
  scan_entry-Plain repositories images file_entry e none h = tt
  scan_entry-Plain repositories images file_entry e (some items) h = (
    classify-Plain images e.name (new_item wide short_hash repositories e)
        (new_item-Plain repositories e),
    h,
  )

  scan-Plain :
      (repositories : List (ℕ × Text)) (images : List Text) (entries : List Entry)
      → AllPlain (scan wide short_hash repositories images entries)
  unfolding scan
  scan-Plain repositories images [] = tt
  scan-Plain repositories images (e ∷ entries) =
      scan_entry-Plain repositories images e.kind e
        (scan wide short_hash repositories images entries) (scan-Plain repositories images entries)

retain_map_rule :
    (P : Item → Type 0) (all_items : List Item) (index : ℕ) (item : Item)
    → P item
    → P (clean_as stale item)
    → P (retain_map all_items index item)
unfolding retain_map
retain_map_rule P all_items index item h k = either_way P (not (is_cached_map item)) item _ h (
    either_way P (is_index (latest (group_of item) 0 none all_items) index) item
      (clean_as stale item) h k)

retain_maps-Plain :
    (all_items : List Item) (index : ℕ) (items : List Item)
    → All PlainId items
    → All PlainId (retain_maps all_items index items)
unfolding retain_maps
retain_maps-Plain all_items index [] h = tt
retain_maps-Plain all_items index (item ∷ items) h = (
  retain_map_rule PlainId all_items index item h.0 h.0,
  retain_maps-Plain all_items (suc index) items h.1,
)

finish-Plain : (items : List Item) → All PlainId items → All PlainId (finish items).items
unfolding finish classify_map_retention
finish-Plain items h =
    All-take PlainId maximum_inventory_items (insertion_sort item_less (retain_maps items 0 items))
      (insertion_sort-All PlainId item_less (retain_maps items 0 items)
        (retain_maps-Plain items 0 items h))

after_scan-Plain :
    (o : Option (List Item)) (inventory : Inventory)
    → AllPlain o
    → after_scan o ≡ some inventory
    → All PlainId inventory.items
after_scan-Plain none inventory h e = absurd cc
after_scan-Plain (some items) inventory h e =
    let same : finish items ≡ inventory = cc in
    subst (λ (i : Inventory). All PlainId i.items) same (finish-Plain items h)

pub inventory_of-Plain :
    (wide : ℕ → ℕ) (short_hash : Text → Text)
    → ((s : Text) → Plain (short_hash s))
    → (repositories : List (ℕ × Text)) (images : List Text) (listing : Option (List Entry))
    → (inventory : Inventory)
    → inventory_of wide short_hash repositories images listing ≡ some inventory
    → All PlainId inventory.items
unfolding inventory_of
inventory_of-Plain wide short_hash p repositories images none inventory h = absurd cc
inventory_of-Plain wide short_hash p repositories images (some entries) inventory h =
    after_scan-Plain (scan wide short_hash repositories images entries) inventory
      (scan-Plain wide short_hash p repositories images entries) h
