-- ===== src/Tests/Maintenance.antt =====
-- A cleanup at concrete inputs.
use repo_karta.Common.Insertion.{insertion_sort, insert_all, insert, reverse_onto}
use repo_karta.Common.Decimal.{decimal, digits}
use repo_karta.Common.Text.{Text, codes, trim_space, text_eq, text_lt, to_lower, lower_rune}
use repo_karta.Common.Equal.{split_text}
use repo_karta.Common.{
  ℕ, ◌+◌, ◌≡◌, ◌⊎◌, refl, true, false, List, [], ◌∷◌, ◌++◌, none, some, get_elem?, if◌then◌else◌,
}
use repo_karta.Maintenance.Cleanup.{
  Boundary, CleanupPlan, FileSystem, Result, execute, ok, plan, refused, plan_changed,
}
use repo_karta.Maintenance.Executed.{IsCleanup, execute-IsCleanup}
use repo_karta.Maintenance.Items.{Entry, Item, cached, file_entry, scan, stale, clean_as}
use repo_karta.Maintenance.Artifacts.{map_group, repository_id_from_path}
use repo_karta.Maintenance.Newest.{HasNone, OneStays, classify_map_retention-OneStays}
use repo_karta.Maintenance.Paths.{path_contains}
use repo_karta.Maintenance.Previewed.{Seen, inventory_seen}
use repo_karta.Maintenance.Retention.{classify_map_retention, inventory_of, is_cached_map}

abbrev same : ℕ → ℕ
same c = c

-- A hash and a code that serve the tests.
abbrev hash : Text → Text
hash s = codes "0f"

abbrev shifted : Text → Text
shifted [] = []
shifted (c ∷ s) = (c + 0x4000) ∷ shifted s

below_data : path_contains (codes "/data") (codes "/data/logs/../maps/a.json") ≡ true
unfolding path_contains
below_data = refl

beside_data : path_contains (codes "/data") (codes "/data2/a.json") ≡ false
unfolding path_contains
beside_data = refl

id_of_map : repository_id_from_path (codes "maps/repository-12.json") ≡ 12
unfolding repository_id_from_path
id_of_map = refl

group_of_map : map_group (codes "repository-12-2024.json") ≡ codes "repository-12"
unfolding map_group
group_of_map = refl

decimal_of_size : decimal 1204 ≡ codes "1204"
unfolding digits
decimal_of_size = refl

abbrev log_entry : Entry
log_entry = record {
  top_level = codes "logs";
  relative = codes "logs/app.log";
  absolute = codes "/data/logs/app.log";
  name = codes "app.log";
  kind = file_entry;
  size = 10;
  modified = 5;
}

abbrev map_entry : Text → ℕ → Entry
map_entry n t = record {
  top_level = codes "maps";
  relative = codes "maps/" ++ n;
  absolute = codes "/data/maps/" ++ n;
  name = n;
  kind = file_entry;
  size = 3;
  modified = t;
}

abbrev seen : Seen
seen = record {
  repositories = (1, codes "payments") ∷ [];
  images = [];
  listing = some (
      log_entry
      ∷ map_entry (codes "repository-1-a.json") 7
      ∷ map_entry (codes "repository-1-b.json") 9
      ∷ []);
}

abbrev boundary : Boundary
boundary = record { data_directory = codes "/data"; repository_root = codes "/src" }

files : FileSystem
files p =
    if text_eq p (codes "/data/logs/app.log")
    then some (record { is_regular = true; size = 10; time = 5 })
    else none

abbrev target : List Text
target = codes " logs-0f" ∷ codes "logs-0f" ∷ []

abbrev plan_or_empty : Result CleanupPlan → CleanupPlan
plan_or_empty (ok p) = p
plan_or_empty (refused e) = record { token = []; items = []; total_bytes = 0 }

preview : CleanupPlan
preview = plan_or_empty (plan shifted (inventory_seen same hash seen) target)

cleaned_log :
    (execute boundary
      (λ p. true)
      (λ n. true)
      shifted
      (inventory_seen same hash seen)
      target
      preview.token
      files).result
    ≡ record { removed_items = 1; removed_bytes = 10 }
unfolding preview plan inventory_of scan insertion_sort insert_all insert reverse_onto text_lt
    to_lower lower_rune classify_map_retention split_text trim_space execute files digits
cleaned_log = refl

other_token :
    (execute boundary
      (λ p. true)
      (λ n. true)
      shifted
      (inventory_seen same hash seen)
      target
      (codes "x")
      files).failure
    ≡ some plan_changed
unfolding plan inventory_of scan insertion_sort insert_all insert reverse_onto text_lt to_lower
    lower_rune classify_map_retention split_text trim_space execute
other_token = refl

execute-IsCleanup_example :
    IsCleanup boundary
      (λ p. true)
      (λ n. true)
      shifted
      (inventory_seen same hash seen)
      target
      preview.token
      files
      (execute boundary
        (λ p. true)
        (λ n. true)
        shifted
        (inventory_seen same hash seen)
        target
        preview.token
        files)
execute-IsCleanup_example =
    execute-IsCleanup boundary (λ p. true) (λ n. true) shifted (inventory_seen same hash seen)
      target preview.token files

abbrev map_item : ℕ → Item
map_item t = record {
  id = codes "maps-0f";
  category = codes "maps";
  relative_path = codes "maps/repository-1.json";
  size_bytes = 3;
  modified_at = t;
  repository_id = 1;
  repository = codes "payments";
  state = cached;
  cleanable = false;
  absolute_path = codes "/data/maps/repository-1.json";
}

abbrev maps : List Item
maps = map_item 4 ∷ map_item 9 ∷ map_item 9 ∷ []

second_stays :
    classify_map_retention maps
    ≡ clean_as stale (map_item 4) ∷ map_item 9 ∷ clean_as stale (map_item 9) ∷ []
unfolding classify_map_retention
second_stays = refl

classify_map_retention-OneStays_example :
    ((i : ℕ) (m : Item)
      → get_elem? maps i ≡ some m
      → is_cached_map m ≡ false
      → get_elem? (classify_map_retention maps) i ≡ some m)
    × ((g : Text) → HasNone g maps ⊎ OneStays g maps)
classify_map_retention-OneStays_example = classify_map_retention-OneStays maps
