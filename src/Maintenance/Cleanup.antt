-- ===== src/Maintenance/Cleanup.antt =====
-- `Plan` and `Execute` of internal/maintenance/maintenance.go. The file system is what os.Lstat tells
-- of each path; `removable` says where os.Remove succeeds, `live` whether the context still is after
-- a number of removals. `mac` is HMAC-SHA256 in hexadecimal under the service's key, over the bytes
-- that are written to it. The time of the plan is left out.
use Prim.Native.Nat.{◌^◌}
use repo_karta.Common.Equal.{has_text, is_blank}
use repo_karta.Common.Insertion.{insertion_sort}
use repo_karta.Common.Decimal.{decimal}
use repo_karta.Common.Text.{Text, text_eq, text_lt, trim_space}
use repo_karta.Common.{
  ℕ, ◌+◌, ◌-◌, ◌%◌, Bool, ◌||◌, not, Option, none, some, List, [], ◌∷◌, ◌++◌, length, ltb, ◌==◌,
  if◌then◌else◌,
}
use repo_karta.Maintenance.Items.{Inventory, Item}
use repo_karta.Maintenance.Paths.{path_contains}

-- What os.Lstat tells of a file.
pub record Info : Type 0 where
  pub is_regular : Bool
  pub size : ℕ
  pub time : ℕ

abbrev pub FileSystem : Type 0
FileSystem = Text → Option Info

-- `DataDirectory` and `RepositoryRoot` of `Config`
pub record Boundary : Type 0 where
  pub data_directory : Text
  pub repository_root : Text

-- The errors of both.
pub data Refusal : Type 0 where
  nothing_selected too_many no_inventory : Refusal
  unavailable_target protected_target : Text → Refusal
  plan_changed cancelled : Refusal
  outside absent not_regular file_changed not_removed : Refusal

pub data Result {ℓ} (A : Type ℓ) : Type ℓ where
  ok : A → Result A
  refused : Refusal → Result A

pub record CleanupPlan : Type 0 where
  pub token : Text
  pub items : List Item
  pub total_bytes : ℕ

pub record CleanupResult : Type 0 where
  pub removed_items : ℕ
  pub removed_bytes : ℕ

abbrev pub maximum_cleanup_targets : ℕ
maximum_cleanup_targets = 100

-- `uniqueTargets`; what has been seen is what has been output.
unfoldable pub targets_onto : List Text → List Text → List Text
unfolding has_text
targets_onto output [] = output
targets_onto output (value ∷ values) =
    targets_onto
      (if is_blank (trim_space value) || has_text (trim_space value) output
        then output
        else output ++ trim_space value ∷ [])
      values

unfoldable pub unique_targets : List Text → List Text
unfolding targets_onto
unique_targets values = targets_onto [] values

-- `byID`: of two items with the same identifier the last.
unfoldable pub item_by_id : Text → List Item → Option Item → Option Item
unfolding text_eq
item_by_id id [] found = found
item_by_id id (item ∷ items) found =
    item_by_id id items (if text_eq item.id id then some item else found)

-- The body of the loop over the targets.
unfoldable pub target_item : Text → Option Item → Result Item
target_item id none = refused (unavailable_target id)
target_item id (some item) = if not item.cleanable then refused (protected_target id) else ok item

unfoldable pub add_target : Result Item → Result (List Item) → Result (List Item)
add_target (refused e) rest = refused e
add_target (ok item) (refused e) = refused e
add_target (ok item) (ok items) = ok (item ∷ items)

unfoldable pub target_items : List Item → List Text → Result (List Item)
unfolding add_target target_item item_by_id
target_items items [] = ok []
target_items items (id ∷ ids) =
    add_target (target_item id (item_by_id id items none)) (target_items items ids)

unfoldable pub sum_of : List Item → ℕ
sum_of [] = 0
sum_of (item ∷ items) = item.size_bytes + sum_of items

-- `%d` of `UnixNano`, an int64 that wraps around. A time counts nanoseconds from a point that is a
-- multiple of two to the power of 64 of them before 1970.
unfoldable pub unix_nano : ℕ → Text
unix_nano t =
    let v = t % 2 ^ 64 in if ltb v (2 ^ 63) then decimal v else b'-' ∷ decimal (2 ^ 64 - v)

-- What is written to the code for each item.
unfoldable pub written : List Item → Text
unfolding unix_nano
written [] = []
written (item ∷ items) =
    item.id
    ++ 0 ∷ (decimal item.size_bytes ++ 0 ∷ (unix_nano item.modified_at ++ 0 ∷ written items))

abbrev pub by_id : Item → Item → Bool
by_id left right = text_lt left.id right.id

module _ (mac : Text → Text) where
  unfoldable pub plan_token : List Item → Text
  unfolding written
  plan_token items = mac (written items)

  unfoldable pub plan_of : Result (List Item) → Result CleanupPlan
  unfolding plan_token sum_of
  plan_of (refused e) = refused e
  plan_of (ok items) = ok (record {
    token = plan_token (insertion_sort by_id items);
    items = insertion_sort by_id items;
    total_bytes = sum_of items;
  })

  -- What follows the test of the targets.
  unfoldable pub plan_targets : Option Inventory → List Text → Result CleanupPlan
  unfolding plan_of target_items
  plan_targets none ids = refused no_inventory
  plan_targets (some inventory) ids = plan_of (target_items inventory.items ids)

  unfoldable pub check_targets : Option Inventory → List Text → Result CleanupPlan
  unfolding plan_targets
  check_targets inventory [] = refused nothing_selected
  check_targets inventory (id ∷ ids) =
      if ltb maximum_cleanup_targets (length (id ∷ ids))
      then refused too_many
      else plan_targets inventory (id ∷ ids)

  -- `Plan`, with the inventory that it makes
  unfoldable pub plan : Option Inventory → List Text → Result CleanupPlan
  unfolding check_targets unique_targets
  plan inventory targets = check_targets inventory (unique_targets targets)

-- os.Remove of a path
unfoldable pub without : Text → FileSystem → FileSystem
unfolding text_eq
without path files = λ p. if text_eq p path then none else files p

module _ (boundary : Boundary) (removable : Text → Bool) where
  unfoldable pub remove_found : Item → FileSystem → Option Info → Result FileSystem
  unfolding without
  remove_found item files none = refused absent
  remove_found item files (some info) =
      if not info.is_regular
      then refused not_regular
      else if not (info.size == item.size_bytes) || not (info.time == item.modified_at)
      then refused file_changed
      else if removable item.absolute_path
      then ok (without item.absolute_path files)
      else refused not_removed

  unfoldable pub remove_exact_file : Item → FileSystem → Result FileSystem
  unfolding remove_found path_contains
  remove_exact_file item files =
      if not (path_contains boundary.data_directory item.absolute_path)
        || path_contains boundary.repository_root item.absolute_path
      then refused outside
      else remove_found item files (files item.absolute_path)

-- What `Execute` leaves and returns.
pub record Executed : Type 0 where
  pub files : FileSystem
  pub result : CleanupResult
  pub failure : Option Refusal

abbrev pub ended : FileSystem → CleanupResult → Option Refusal → Executed
ended f r e = record { files = f; result = r; failure = e }

abbrev pub nothing_removed : CleanupResult
nothing_removed = record { removed_items = 0; removed_bytes = 0 }

module _ (boundary : Boundary) (removable : Text → Bool) (live : ℕ → Bool) where
  -- The loop over the items of the plan.
  unfoldable pub remove_items : List Item → FileSystem → CleanupResult → Executed
  unfolding remove_exact_file
  remove_items [] files result = ended files result none
  remove_items (item ∷ items) files result =
      if not (live result.removed_items)
      then ended files result (some cancelled)
      else elim (remove_exact_file boundary removable item files) [
        | refused e ↦ ended files result (some e)
        | ok files' ↦ remove_items items files' (record {
          removed_items = result.removed_items + 1;
          removed_bytes = result.removed_bytes + item.size_bytes;
        })
      ]

  unfoldable pub execute_plan : Result CleanupPlan → Text → FileSystem → Executed
  unfolding remove_items text_eq
  execute_plan (refused e) token files = ended files nothing_removed (some e)
  execute_plan (ok p) token files =
      if not (text_eq p.token (trim_space token))
      then ended files nothing_removed (some plan_changed)
      else remove_items p.items files nothing_removed

  -- `Execute`, with the inventory that its plan makes
  unfoldable pub execute :
      (Text → Text) → Option Inventory → List Text → Text → FileSystem → Executed
  unfolding execute_plan plan
  execute mac inventory targets token files = execute_plan (plan mac inventory targets) token files
