-- ===== src/Search/Indexing.antt =====
-- `indexPending` and `indexRepository` of internal/search/coordinator.go, on the rows that
-- `Store.UpdateIndexState` (internal/store/store.go) writes, while the context is not cancelled.
use repo_karta.Common.Text.{Text, codes, text_eq, trim_space}
use repo_karta.Common.{
  ℕ, zero, suc, ◌+◌, Bool, true, false, not, ◌||◌, ◌&&◌, Option, none, some, List, [], ◌∷◌, ◌++◌,
  any, ◌==◌, if◌then◌else◌,
}

-- The fields of `catalog.Repository` that the coordinator reads and writes.
pub record Repository : Type 0 where
  pub id : ℕ
  pub head_commit : Text
  pub index_commit : Text
  pub scan_state : Text
  pub index_state : Text
  pub index_error : Text
  pub indexed_commit : Text

-- The table, the number of database calls made, and the identifiers handed to `queueIndexed`.
pub record World : Type 0 where
  pub rows : List Repository
  pub calls : ℕ
  pub announced : List ℕ

abbrev is_empty : Text → Bool
is_empty [] = true
is_empty (_ ∷ _) = false

-- `indexCommit`
unfoldable pub target_commit : Repository → Text
target_commit r =
    if not (is_empty (trim_space r.index_commit))
    then trim_space r.index_commit
    else trim_space r.head_commit

-- The repositories that the loop of `indexPending` takes.
unfoldable pub eligible : Repository → Bool
unfolding text_eq target_commit
eligible r = not (
    not (text_eq r.scan_state (codes "ready"))
    || is_empty (target_commit r)
    || not (text_eq r.index_state (codes "pending")))

-- The test of the deferred function of `indexPending`.
unfoldable pub restarts : Repository → Bool
unfolding text_eq
restarts r = text_eq r.index_state (codes "pending") && text_eq r.scan_state (codes "ready")

-- The statement of `UpdateIndexState`, and whether it affects a row.
unfoldable pub set_row : Text → Text → Text → Repository → Repository
set_row state commit error r = record r {
  index_state = state;
  indexed_commit = commit;
  index_error = error;
}

unfoldable pub update_rows : ℕ → Text → Text → Text → List Repository → List Repository
update_rows id state commit error [] = []
update_rows id state commit error (r ∷ rows) =
    (if r.id == id then set_row state commit error r else r)
    ∷ update_rows id state commit error rows

unfoldable pub has_row : ℕ → List Repository → Bool
has_row id = any (λ r. r.id == id)

-- `writes` says which database calls succeed, `build` is `engine.Index`: `none`, or its error.
module _ (writes : ℕ → Bool) (build : Repository → Option Text) where
  -- `UpdateIndexState`, and whether it returned no error
  unfoldable pub update_index_state : World → ℕ → Text → Text → Text → World × Bool
  update_index_state w id state commit error =
      let next = record w { calls = w.calls + 1 } in
      if writes w.calls && has_row id w.rows
      then (record next { rows = update_rows id state commit error w.rows }, true)
      else (next, false)

  -- What follows the last update of `indexRepository`.
  unfoldable pub announce : ℕ → World × Bool → World
  announce id (w, true) = record w { announced = w.announced ++ id ∷ [] }
  announce id (w, false) = w

  unfoldable pub after_build : Repository → World → Option Text → World
  after_build r w (some error) =
      (update_index_state w r.id (codes "error") (target_commit r) error).0
  after_build r w none =
      announce r.id (update_index_state w r.id (codes "ready") (target_commit r) [])

  unfoldable pub after_start : Repository → World × Bool → World
  after_start r (w, true) = after_build r w (build r)
  after_start r (w, false) = w

  -- `indexRepository`; its error is only logged.
  unfoldable pub index_repository : World → Repository → World
  index_repository w r =
      after_start r (update_index_state w r.id (codes "indexing") (target_commit r) [])

  -- The inner loop of `indexPending`, and `indexedAny`.
  unfoldable pub index_listed : World → Bool → List Repository → World × Bool
  index_listed w any_indexed [] = (w, any_indexed)
  index_listed w any_indexed (r ∷ rs) =
      let skip = index_listed w any_indexed rs in
      let take = index_listed (index_repository w r) true rs in if eligible r then take else skip

  unfoldable pub next_round : (World → Option World) → World × Bool → Option World
  next_round again (w, true) = again w
  next_round again (w, false) = some w

  -- `indexPending` up to its deferred function, where the listing succeeds; `none` means that the
  -- fuel ran out.
  unfoldable pub index_pending : ℕ → World → Option World
  index_pending zero w = none
  index_pending (suc fuel) w = next_round (index_pending fuel) (index_listed w false w.rows)
