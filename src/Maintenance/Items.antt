-- ===== src/Maintenance/Items.antt =====
-- The inventory of internal/maintenance/maintenance.go: what the walk over the data directory finds,
-- classified. The entries that os.ReadDir and filepath.WalkDir deliver are an argument, none where
-- they fail; times are nanoseconds. `wide` is the table of `unicode.ToLower` from 0x80 on, and
-- `short_hash` the first eight bytes of SHA-256 in hexadecimal. Of an item the label and the text
-- of its reason are left out, of the inventory the sums of each category.
use repo_karta.Common.Equal.{has_text, is_blank}
use repo_karta.Maintenance.Artifacts.{repository_id_from_path, contains, ends_in}
use repo_karta.Common.Text.{Text, codes, has_prefix, text_eq, to_lower}
use repo_karta.Common.{
  ℕ, Bool, true, false, ◌&&◌, ◌||◌, Option, none, some, List, [], ◌∷◌, ◌++◌, ltb, ◌==◌,
  if◌then◌else◌,
}

-- A directory, a symbolic link, or any other entry.
pub data Kind : Type 0 where
  directory symbolic_link file_entry : Kind

-- An entry of the walk: the top-level name that it stands under, its path from the data directory
-- and as a whole, its last component, and its `fs.FileInfo`.
pub record Entry : Type 0 where
  pub top_level : Text
  pub relative : Text
  pub absolute : Text
  pub name : Text
  pub kind : Kind
  pub size : ℕ
  pub modified : ℕ

pub data State : Type 0 where
  protected orphaned interrupted diagnostic referenced cached stale : State

pub record Item : Type 0 where
  pub id : Text
  pub category : Text
  pub relative_path : Text
  pub size_bytes : ℕ
  pub modified_at : ℕ
  pub repository_id : ℕ
  pub repository : Text
  pub state : State
  pub cleanable : Bool
  pub absolute_path : Text

pub record Inventory : Type 0 where
  pub total_bytes : ℕ
  pub reclaimable_bytes : ℕ
  pub items : List Item
  pub items_truncated : Bool

abbrev pub database_names : List Text
database_names = codes "repokarta.db" ∷ codes "repokarta.db-wal" ∷ codes "repokarta.db-shm" ∷ []

abbrev pub index_names : List Text
index_names = codes "indexes" ∷ codes "scip" ∷ codes "scip-java" ∷ []

abbrev pub own_names : List Text
own_names =
    codes "maps"
    ∷ codes "docs"
    ∷ codes "advisories"
    ∷ codes "conversations"
    ∷ codes "logs"
    ∷ codes "security"
    ∷ []

unfoldable pub category_of : Text → Text
unfolding has_text
category_of lower =
    if has_text lower database_names
    then codes "database"
    else if has_text lower index_names
    then codes "indexes"
    else if has_text lower own_names
    then lower
    else codes "other"

-- What the chain of conditions of the walk makes of an item.
abbrev pub clean_as : State → Item → Item
clean_as s item = record item { state = s; cleanable = true }

abbrev pub keep_as : State → Item → Item
keep_as s item = record item { state = s }

-- `repositoryNames`, with the name empty where there is none
unfoldable pub name_of : List (ℕ × Text) → ℕ → Text → Text
name_of [] id found = found
name_of ((i, n) ∷ rows) id found = name_of rows id (if i == id then n else found)

module _ (wide : ℕ → ℕ) (short_hash : Text → Text) where
  unfoldable pub category_for_top_level : Text → Text
  unfolding category_of
  category_for_top_level name = category_of (to_lower wide name)

  unfoldable pub temporary_artifact : Text → Bool
  unfolding ends_in
  temporary_artifact name =
      let lower = to_lower wide name in
      ends_in lower (codes ".tmp")
      || contains lower (codes ".tmp.")
      || has_prefix lower (codes "tmp-")

  unfoldable pub item_id : Text → Text → Text
  item_id category relative = category ++ b'-' ∷ short_hash (category ++ 0 ∷ relative)

  -- The chain of conditions on a new item.
  unfoldable pub classify : List Text → Text → Item → Item
  unfolding temporary_artifact text_eq ends_in has_text
  classify live_images name item =
      if ltb 0 item.repository_id && is_blank item.repository
      then clean_as orphaned item
      else if temporary_artifact name
      then clean_as interrupted item
      else if text_eq item.category (codes "logs")
      then clean_as diagnostic item
      else if text_eq item.category (codes "conversations")
      then (if has_text name live_images then keep_as referenced item else clean_as orphaned item)
      else if text_eq item.category (codes "maps") && ends_in (to_lower wide name) (codes ".json")
      then keep_as cached item
      else item

  unfoldable pub new_item : List (ℕ × Text) → Entry → Item
  unfolding category_for_top_level item_id repository_id_from_path name_of
  new_item repositories e = record {
    id = item_id (category_for_top_level e.top_level) e.relative;
    category = category_for_top_level e.top_level;
    relative_path = e.relative;
    size_bytes = e.size;
    modified_at = e.modified;
    repository_id = repository_id_from_path e.relative;
    repository = name_of repositories (repository_id_from_path e.relative) [];
    state = protected;
    cleanable = false;
    absolute_path = e.absolute;
  }

  -- The callback of the walk, for an entry of each kind; a link stops the inventory.
  unfoldable pub scan_entry :
      List (ℕ × Text) → List Text → Kind → Entry → Option (List Item) → Option (List Item)
  unfolding classify new_item
  scan_entry repositories images symbolic_link e rest = none
  scan_entry repositories images directory e rest = rest
  scan_entry repositories images file_entry e none = none
  scan_entry repositories images file_entry e (some items) =
      some (classify images e.name (new_item repositories e) ∷ items)

  unfoldable pub scan : List (ℕ × Text) → List Text → List Entry → Option (List Item)
  unfolding scan_entry
  scan repositories images [] = some []
  scan repositories images (e ∷ entries) =
      scan_entry repositories images e.kind e (scan repositories images entries)
