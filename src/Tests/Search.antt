-- ===== src/Tests/Search.antt =====
-- The indexing coordinator at concrete inputs.
use repo_karta.Common.Text.{Text, codes, text_eq, trim_space}
use repo_karta.Common.{
  ℕ, ◌==◌, if◌then◌else◌, ◌≡◌, refl, Bool, true, false, Option, none, some, List, [], ◌∷◌, any,
}
use repo_karta.Search.Ends.{index_pending-blocked, index_pending-ends}
use repo_karta.Search.Indexing.{restarts, Repository, World, eligible, index_pending, target_commit}
use repo_karta.Search.Progress.{Settles, run-start-Settles}
use repo_karta.Search.Queue.{
  Event, delete, enqueue, on_enqueue, on_next, on_poll, on_post, on_wake, poll, post, run, start,
  step, wake,
}
use repo_karta.Search.Tracked.{IsTracked, run-start-IsTracked}
use repo_karta.Search.Wakeups.{IsAlert, run-start-IsAlert}

-- Two calls for 7, one for 9; a worker takes 7, which is then queued again.
abbrev calls : List Event
calls = enqueue 7 ∷ post ∷ enqueue 7 ∷ enqueue 9 ∷ enqueue 0 ∷ poll ∷ enqueue 7 ∷ wake ∷ []

run-calls : ((run start calls).pending ≡ 9 ∷ 7 ∷ []) × ((run start calls).busy ≡ 7 ∷ [])
unfolding run start step on_enqueue on_post on_poll on_next on_wake delete
run-calls = (refl, refl)

run-start-IsAlert_example : IsAlert (run start calls)
run-start-IsAlert_example = run-start-IsAlert calls

run-start-IsTracked_example : IsTracked (run start calls)
run-start-IsTracked_example = run-start-IsTracked calls

run-start-Settles_example : Settles (run start calls)
run-start-Settles_example = run-start-Settles calls

abbrev waiting_row : ℕ → Text → Repository
waiting_row id commit = record {
  id = id;
  head_commit = commit;
  index_commit = [];
  scan_state = codes "ready";
  index_state = codes "pending";
  index_error = [];
  indexed_commit = [];
}

-- The third has no commit.
abbrev table : World
table = record {
  rows = waiting_row 1 (codes "abc") ∷ waiting_row 2 (codes "def") ∷ waiting_row 3 [] ∷ [];
  calls = 0;
  announced = [];
}

-- The engine refuses the second repository.
abbrev engine : Repository → Option Text
engine r = if r.id == 2 then some (codes "no space") else none

always : ℕ → Bool
always n = true

never : ℕ → Bool
never n = false

index_pending-ends_example :
    (v : World) × (index_pending always engine 2 table ≡ some v) × (any eligible v.rows ≡ false)
unfolding always
index_pending-ends_example = index_pending-ends always engine table 0 (λ n. refl)

index_pending-blocked_example : index_pending never engine 9 table ≡ none
unfolding never eligible target_commit trim_space text_eq
index_pending-blocked_example = index_pending-blocked never engine 9 table (λ n. refl) refl

-- A repository without a commit is never taken by the loop, and always starts it again.
without_commit : (restarts (waiting_row 3 []) ≡ true) × (eligible (waiting_row 3 []) ≡ false)
unfolding restarts eligible target_commit trim_space text_eq
without_commit = (refl, refl)
