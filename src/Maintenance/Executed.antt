-- ===== src/Maintenance/Executed.antt =====
-- What `Execute` does to the files, as a whole.
use mathlib.Core.List.{Memᴰ}
use repo_karta.Common.Text.{Text, text_eq, trim_space}
use repo_karta.Common.{
  All-Memᴰ, ℕ, Bool, Option, none, some, List, All, length, ◌≡◌, ◌⊎◌, inl, inr, refl, Bool-cases,
  arith,
}
use repo_karta.Common.Equal.{text_eq-path}
use repo_karta.Maintenance.Cleanup.{
  Boundary, CleanupPlan, CleanupResult, Executed, FileSystem, Refusal, Result, ended, execute,
  execute_plan, nothing_removed, ok, plan, plan_changed, refused, remove_items, sum_of,
}
use repo_karta.Maintenance.Items.{Inventory, Item}
use repo_karta.Maintenance.Planned.{Chosen, plan-Chosen}
use repo_karta.Maintenance.Removed.{Changed, IsExact, IsInside}
use repo_karta.Maintenance.Loop.{remove_items-Changed, remove_items-Completed}

module _ (boundary : Boundary) (removable : Text → Bool) (live : ℕ → Bool) (mac : Text → Text)
    (o : Option Inventory) (targets : List Text) (token : Text) (files : FileSystem) where
  -- Why a file is gone: an item of the inventory that may be cleaned and was asked for stands at
  -- its path, inside the boundary, and the file was the one of the inventory.
  pub record Justified (p : Text) : Type 0 where
    pub inventory : Inventory
    pub item : Item
    pub taken : o ≡ some inventory
    pub chosen : Chosen inventory targets item
    pub at_path : item.absolute_path ≡ p
    pub inside : IsInside boundary item
    pub exact : IsExact (files p) item
    pub planned : CleanupPlan
    pub made : plan mac o targets ≡ ok planned
    pub accepted : planned.token ≡ trim_space token
    pub member : Memᴰ item planned.items

  -- That the plan was the one of the token, and that all its items are gone and counted.
  pub record AllGone (x : Executed) : Type 0 where
    pub planned : CleanupPlan
    pub made : plan mac o targets ≡ ok planned
    pub accepted : planned.token ≡ trim_space token
    pub count : x.result.removed_items ≡ length planned.items
    pub sum : x.result.removed_bytes ≡ sum_of planned.items
    pub gone : All (λ (item : Item). x.files item.absolute_path ≡ none) planned.items

  pub record IsCleanup (x : Executed) : Type 0 where
    pub changes : (p : Text) → (x.files p ≡ files p) ⊎ ((x.files p ≡ none) × Justified p)
    pub complete : x.failure ≡ none → AllGone x

  untouched : (r : CleanupResult) (e : Refusal) → IsCleanup (ended files r (some e))
  untouched r e = record { changes = λ p. inl refl; complete = λ h. absurd cc }

  justified :
      (planned : CleanupPlan) (files' : FileSystem) (p : Text)
      → plan mac o targets ≡ ok planned
      → planned.token ≡ trim_space token
      → Changed boundary removable planned.items files files' p
      → (files' p ≡ files p) ⊎ ((files' p ≡ none) × Justified p)
  justified planned files' p made same (inl e) = inl e
  justified planned files' p made same (inr (item, m, e, i, x, gone)) =
      let (inventory, taken, all_chosen) = plan-Chosen mac o targets planned made in
      inr (
        gone,
        record {
          inventory = inventory;
          item = item;
          taken = taken;
          chosen = All-Memᴰ (Chosen inventory targets) m all_chosen;
          at_path = e;
          inside = i;
          exact = x;
          planned = planned;
          made = made;
          accepted = same;
          member = m;
        },
      )

  executed-IsCleanup :
      (r : Result CleanupPlan)
      → plan mac o targets ≡ r
      → IsCleanup (execute_plan boundary removable live r token files)
  unfolding execute_plan
  executed-IsCleanup (refused e) made = untouched nothing_removed e
  executed-IsCleanup (ok planned) made =
      elim (Bool-cases (text_eq planned.token (trim_space token))) [
        | inr e ↦ rw (e, execute_plan) (untouched nothing_removed plan_changed)
        | inl e ↦
            rw (e, execute_plan)
              (record {
                changes = λ p.
                    justified planned
                      (remove_items boundary removable live planned.items files
                        nothing_removed).files
                      p made (text_eq-path planned.token (trim_space token) e)
                      (remove_items-Changed boundary removable live planned.items files
                        nothing_removed p);
                complete = λ h.
                    let (a, b, c) =
                      remove_items-Completed boundary removable live planned.items files
                        nothing_removed h in
                    record {
                      planned = planned;
                      made = made;
                      accepted = text_eq-path planned.token (trim_space token) e;
                      count = omega (arith, a);
                      sum = omega (arith, b);
                      gone = c;
                    };
              })
      ]

  -- Whatever Execute is asked, and with any token: it leaves each file as it was, or removes it,
  -- and then an item of the inventory stands at its path that may be cleaned, was asked for, lies
  -- below the data directory and not below the repositories, and had the size and the time of the
  -- regular file that was there, and the token was that of the plan of these targets. And if it
  -- reports no failure, then the token was that of the plan, and all the items of the plan are
  -- gone and counted, with their sizes.
  pub execute-IsCleanup : IsCleanup (execute boundary removable live mac o targets token files)
  unfolding execute
  execute-IsCleanup = executed-IsCleanup (plan mac o targets) refl
