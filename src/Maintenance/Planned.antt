-- ===== src/Maintenance/Planned.antt =====
-- Which items a cleanup plan has.
use mathlib.Core.List.{Memᴰ}
use repo_karta.Common.Equal.{has_text, is_blank, text_eq-path}
use repo_karta.Common.Insertion.{insertion_sort, insertion_sort-All}
use repo_karta.Common.Text.{Text, text_eq, trim_space}
use repo_karta.Common.{
  true, ◌||◌, Option, none, some, List, [], ◌∷◌, ◌++◌, All, All-append, length, ltb, ◌≡◌, ◌⊎◌, inl,
  inr, refl, sym, ap, subst, Bool-cases, if_rule, arith,
}
use repo_karta.Maintenance.Cleanup.{
  CleanupPlan, Result, add_target, plan_token, by_id, check_targets, item_by_id,
  maximum_cleanup_targets, ok, plan, plan_of, plan_targets, refused, target_item, target_items,
  targets_onto, too_many, unique_targets,
}
use repo_karta.Maintenance.Items.{Inventory, Item}

-- An identifier that was asked for, but for white space around it.
abbrev pub Asked : List Text → Text → Type 0
Asked targets id = (raw : Text) × Memᴰ raw targets × (trim_space raw ≡ id)

-- An item of an inventory that may be cleaned and was asked for.
pub record Chosen (inventory : Inventory) (targets : List Text) (item : Item) : Type 0 where
  pub listed : Memᴰ item inventory.items
  pub cleanable : item.cleanable ≡ true
  pub asked : Asked targets item.id

Memᴰ-later :
    (all_targets output : List Text) (raw : Text) (rest : List Text)
    → ((x : Text) → Memᴰ x (raw ∷ rest) → Memᴰ x all_targets)
    → (x : Text) → Memᴰ x rest
    → Memᴰ x all_targets
Memᴰ-later all_targets output raw rest f x m = f x (Memᴰ.tail m)

targets_onto-Asked :
    (all_targets output values : List Text)
    → ((x : Text) → Memᴰ x values → Memᴰ x all_targets)
    → All (Asked all_targets) output
    → All (Asked all_targets) (targets_onto output values)
unfolding targets_onto
targets_onto-Asked all_targets output [] f h = h
targets_onto-Asked all_targets output (raw ∷ values) f h =
    if_rule (λ o. All (Asked all_targets) (targets_onto o values))
      (is_blank (trim_space raw) || has_text (trim_space raw) output) output
      (output ++ trim_space raw ∷ [])
      (λ _.
        targets_onto-Asked all_targets output values (Memᴰ-later all_targets output raw values f) h)
      (λ _.
        targets_onto-Asked all_targets (output ++ trim_space raw ∷ []) values
          (Memᴰ-later all_targets output raw values f)
          (All-append (Asked all_targets) output (trim_space raw ∷ []) h
            ((raw, f raw (Memᴰ.head refl), refl), tt)))

unique_targets-Asked : (targets : List Text) → All (Asked targets) (unique_targets targets)
unfolding unique_targets
unique_targets-Asked targets = targets_onto-Asked targets [] targets (λ x m. m) tt

-- The item that is found has the identifier.
item_by_id-Memᴰ :
    (id : Text) (items : List Item) (found : Option Item) (item : Item)
    → item_by_id id items found ≡ some item
    → (Memᴰ item items × (item.id ≡ id)) ⊎ (found ≡ some item)
unfolding item_by_id
item_by_id-Memᴰ id [] found item h = inr h
item_by_id-Memᴰ id (i ∷ items) found item h =
    if_rule
      (λ o.
        item_by_id id items o ≡ some item
        → (Memᴰ item (i ∷ items) × (item.id ≡ id)) ⊎ (found ≡ some item))
      (text_eq i.id id) (some i) found (λ e k. here e (item_by_id-Memᴰ id items (some i) item k))
      (λ e k. past (item_by_id-Memᴰ id items found item k)) h
  where
    here :
        text_eq i.id id ≡ true
        → (Memᴰ item items × (item.id ≡ id)) ⊎ (some i ≡ some item)
        → (Memᴰ item (i ∷ items) × (item.id ≡ id)) ⊎ (found ≡ some item)
    here e (inl (m, f)) = inl (Memᴰ.tail m, f)
    here e (inr f) =
        let g : i ≡ item = cc in
        inl (Memᴰ.head (sym g), subst (λ (j : Item). j.id ≡ id) g (text_eq-path i.id id e))

    past :
        (Memᴰ item items × (item.id ≡ id)) ⊎ (found ≡ some item)
        → (Memᴰ item (i ∷ items) × (item.id ≡ id)) ⊎ (found ≡ some item)
    past (inl (m, f)) = inl (Memᴰ.tail m, f)
    past (inr f) = inr f

target_item-ok :
    (id : Text) (o : Option Item) (item : Item)
    → target_item id o ≡ ok item
    → (o ≡ some item) × (item.cleanable ≡ true)
unfolding target_item
target_item-ok id none item h = absurd cc
target_item-ok id (some i) item h = elim (Bool-cases i.cleanable) [
  | inl e ↦
      let g : i ≡ item = ground arith in (ap some g, subst (λ (j : Item). j.cleanable ≡ true) g e)
  | inr e ↦ absurd (ground arith)
]

add_target-ok :
    (r : Result Item) (rest : Result (List Item)) (items : List Item)
    → add_target r rest ≡ ok items
    → (item : Item) × (more : List Item) × (r ≡ ok item) × (rest ≡ ok more) × (items ≡ item ∷ more)
unfolding add_target
add_target-ok (refused e) rest items h = absurd cc
add_target-ok (ok item) (refused e) items h = absurd cc
add_target-ok (ok item) (ok more) items h = (item, more, refl, refl, cc)

module _ (inventory : Inventory) (targets : List Text) where
  target_item-Chosen :
      (id : Text) (item : Item)
      → Asked targets id
      → target_item id (item_by_id id inventory.items none) ≡ ok item
      → Chosen inventory targets item
  target_item-Chosen id item asked h =
      let (found, e) = target_item-ok id (item_by_id id inventory.items none) item h in
      elim (item_by_id-Memᴰ id inventory.items none item found) [
        | inl (m, f) ↦ record {
          listed = m;
          cleanable = e;
          asked = subst (Asked targets) (sym f) asked;
        }
        | inr f ↦ absurd cc
      ]

  target_items-Chosen :
      (ids : List Text) (items : List Item)
      → All (Asked targets) ids
      → target_items inventory.items ids ≡ ok items
      → All (Chosen inventory targets) items
  unfolding target_items
  target_items-Chosen [] items h e =
      let none_chosen : [] ≡ items = cc in subst (All (Chosen inventory targets)) none_chosen tt
  target_items-Chosen (id ∷ ids) items h e =
      let (item, more, f, g, k) =
        add_target-ok (target_item id (item_by_id id inventory.items none))
          (target_items inventory.items ids) items e in
      subst (All (Chosen inventory targets)) (sym k)
        (target_item-Chosen id item h.0 f, target_items-Chosen ids more h.1 g)

module _ (mac : Text → Text) where
  plan_of-ok :
      (r : Result (List Item)) (p : CleanupPlan)
      → plan_of mac r ≡ ok p
      → (items : List Item) × (r ≡ ok items) × (p.items ≡ insertion_sort by_id items)
  unfolding plan_of
  plan_of-ok (refused e) p h = absurd cc
  plan_of-ok (ok items) p h = (items, refl, cc)

  check_targets-ok :
      (o : Option Inventory) (ids : List Text) (p : CleanupPlan)
      → check_targets mac o ids ≡ ok p
      → plan_targets mac o ids ≡ ok p
  unfolding check_targets
  check_targets-ok o [] p h = absurd cc
  check_targets-ok o (id ∷ ids) p h =
      elim (Bool-cases (ltb maximum_cleanup_targets (length (id ∷ ids)))) [
        | inl e ↦ absurd (let k : refused too_many ≡ ok p = rw e at h in cc)
        | inr e ↦ rw e at h
      ]

  plan_targets-Chosen :
      (o : Option Inventory) (targets : List Text) (p : CleanupPlan)
      → plan_targets mac o (unique_targets targets) ≡ ok p
      → (inventory : Inventory) × (o ≡ some inventory) × All (Chosen inventory targets) p.items
  unfolding plan_targets
  plan_targets-Chosen none targets p h = absurd cc
  plan_targets-Chosen (some inventory) targets p h =
      let (items, e, f) = plan_of-ok (target_items inventory.items (unique_targets targets)) p h in
      (
        inventory,
        refl,
        subst (All (Chosen inventory targets)) (sym f) (
            insertion_sort-All (Chosen inventory targets) by_id items (
              target_items-Chosen inventory targets (unique_targets targets) items
                (unique_targets-Asked targets) e)),
      )

  -- Every item of a plan is one of the inventory that may be cleaned and was asked for.
  pub plan-Chosen :
      (o : Option Inventory) (targets : List Text) (p : CleanupPlan)
      → plan mac o targets ≡ ok p
      → (inventory : Inventory) × (o ≡ some inventory) × All (Chosen inventory targets) p.items
  unfolding plan
  plan-Chosen o targets p h =
      plan_targets-Chosen o targets p (check_targets-ok o (unique_targets targets) p h)

  plan_of-token :
      (r : Result (List Item)) (p : CleanupPlan)
      → plan_of mac r ≡ ok p
      → p.token ≡ plan_token mac p.items
  unfolding plan_of
  plan_of-token (refused e) p h = absurd cc
  plan_of-token (ok items) p h = cc

  plan_targets-token :
      (o : Option Inventory) (ids : List Text) (p : CleanupPlan)
      → plan_targets mac o ids ≡ ok p
      → p.token ≡ plan_token mac p.items
  unfolding plan_targets
  plan_targets-token none ids p h = absurd cc
  plan_targets-token (some inventory) ids p h = plan_of-token (target_items inventory.items ids) p h

  pub plan-token :
      (o : Option Inventory) (targets : List Text) (p : CleanupPlan)
      → plan mac o targets ≡ ok p
      → p.token ≡ plan_token mac p.items
  unfolding plan
  plan-token o targets p h =
      plan_targets-token o (unique_targets targets) p
        (check_targets-ok o (unique_targets targets) p h)
