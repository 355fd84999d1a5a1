-- ===== src/Maintenance/Previewed.antt =====
-- A token binds `Execute` to what `Plan` showed.
use Prim.Native.Nat.{◌^◌}
use mathlib.Core.List.{Memᴰ}
use repo_karta.Common.Text.{Text, text_eq, trim_space}
use repo_karta.Common.{ℕ, Option, List, ◌≡◌, some, true, false, ◌%◌}
use repo_karta.Maintenance.Cleanup.{CleanupPlan, FileSystem, Info, ok, plan, written}
use repo_karta.Maintenance.Items.{Entry, Inventory, Item}
use repo_karta.Maintenance.Retention.{inventory_of}
use repo_karta.Maintenance.Stamps.{Plain}

-- What `Inventory` sees: the store's repositories and images, and the entries of the walk.
pub record Seen : Type 0 where
  pub repositories : List (ℕ × Text)
  pub images : List Text
  pub listing : Option (List Entry)

-- What os.Lstat tells is a regular file with an item's size, and with its time as an int64.
pub record IsStamped (o : Option Info) (item : Item) : Type 0 where
  pub info : Info
  pub found : o ≡ some info
  pub regular : info.is_regular ≡ true
  pub size : info.size ≡ item.size_bytes
  pub time : info.time % 2 ^ 64 ≡ item.modified_at % 2 ^ 64

abbrev pub inventory_seen : (ℕ → ℕ) → (Text → Text) → Seen → Option Inventory
inventory_seen wide short_hash seen =
    inventory_of wide short_hash seen.repositories seen.images seen.listing

module _ (wide : ℕ → ℕ) (short_hash : Text → Text)
    (hash_plain : (s : Text) → Plain (short_hash s)) where
  module _ (mac : Text → Text) (untrimmed : (s : Text) → trim_space (mac s) ≡ mac s) (before : Seen)
      (targets : List Text) (preview : CleanupPlan)
      (shown : plan mac (inventory_seen wide short_hash before) targets ≡ ok preview) where
    -- Two plans of which different texts are written have the same code.
    abbrev pub Collides : Seen → List Text → Type 0
    Collides seen again =
        (p : CleanupPlan) × (plan mac (inventory_seen wide short_hash seen) again ≡ ok p)
        × (text_eq (written p.items) (written preview.items) ≡ false)
        × (mac (written p.items) ≡ mac (written preview.items))

    -- An item that is removed has its like in the preview.
    abbrev pub Foreseen : FileSystem → Text → Type 0
    Foreseen files p =
        (item : Item) × (old : Item) × (item.absolute_path ≡ p)
        × Memᴰ old preview.items
        × (item.id ≡ old.id)
        × IsStamped (files p) old
