-- ===== src/Search/Queue.antt =====
-- `queueIndexed`, `nextIndexed` and `observeIndexedWorker` of internal/search/coordinator.go, with
-- an observer, while the context is not cancelled. A step is what one goroutine does between two
-- points where another can interfere: a section under `indexedMu`, an operation on the channel, or a
-- call of the observer. Workers in the same place are alike, so they are counted.
use repo_karta.Common.{
  ℕ, zero, suc, ◌+◌, ◌-◌, Bool, List, [], ◌∷◌, ◌++◌, any, length, ltb, leb, ◌==◌, if◌then◌else◌,
}

-- `maximumDerivedIndexConcurrency`, the workers and the capacity of `indexedSignal`
abbrev pub maximum_concurrency : ℕ
maximum_concurrency = 8

-- `posting` counts the calls of `queueIndexed` between their section and their send; `polling` the
-- workers before `nextIndexed`, `waiting` those in the select behind it, and `busy` holds what the
-- observers are called with. `taken` lists what `nextIndexed` has returned, in order.
pub record Queue : Type 0 where
  pub pending : List ℕ
  pub queued : List ℕ
  pub signals : ℕ
  pub posting : ℕ
  pub polling : ℕ
  pub waiting : ℕ
  pub busy : List ℕ
  pub taken : List ℕ

pub data Event : Type 0 where
  -- the section of `queueIndexed`, on an identifier
  enqueue : ℕ → Event
  -- its send
  post : Event
  -- `nextIndexed` by a worker
  poll : Event
  -- `case <-c.indexedSignal` by a worker
  wake : Event
  -- the observer of a worker returns: the first, the second, …
  observed : ℕ → Event

abbrev pub contains : ℕ → List ℕ → Bool
contains x = any (λ y. x == y)

-- `delete`, on the keys of a map
unfoldable pub delete : ℕ → List ℕ → List ℕ
delete x [] = []
delete x (y ∷ ys) = let rest = delete x ys in if x == y then rest else y ∷ rest

unfoldable pub remove_at : ℕ → List ℕ → List ℕ
remove_at i [] = []
remove_at zero (x ∷ xs) = xs
remove_at (suc i) (x ∷ xs) = x ∷ remove_at i xs

-- The section of `queueIndexed` behind its first test.
unfoldable pub on_enqueue : Queue → ℕ → Queue
on_enqueue q id = if leb id 0 then q else if contains id q.queued then q else record q {
  queued = id ∷ q.queued;
  pending = q.pending ++ id ∷ [];
  posting = q.posting + 1;
}

-- The send, which a full channel refuses.
unfoldable pub on_post : Queue → Queue
on_post q =
    if leb q.posting 0
    then q
    else if ltb q.signals maximum_concurrency
    then record q { posting = q.posting - 1; signals = q.signals + 1 }
    else record q { posting = q.posting - 1 }

-- `nextIndexed`, and the worker that called it.
unfoldable pub on_next : Queue → List ℕ → Queue
unfolding delete
on_next q [] = record q { polling = q.polling - 1; waiting = q.waiting + 1 }
on_next q (id ∷ rest) = record q {
  pending = rest;
  queued = delete id q.queued;
  polling = q.polling - 1;
  busy = id ∷ q.busy;
  taken = q.taken ++ id ∷ [];
}

unfoldable pub on_poll : Queue → Queue
on_poll q = if leb q.polling 0 then q else on_next q q.pending

unfoldable pub on_wake : Queue → Queue
on_wake q =
    if leb q.waiting 0
    then q
    else if leb q.signals 0
    then q
    else record q { waiting = q.waiting - 1; polling = q.polling + 1; signals = q.signals - 1 }

unfoldable pub on_observed : Queue → ℕ → Queue
on_observed q i =
    if ltb i (length q.busy)
    then record q { busy = remove_at i q.busy; polling = q.polling + 1 }
    else q

unfoldable pub step : Queue → Event → Queue
step q (enqueue id) = on_enqueue q id
step q post = on_post q
step q poll = on_poll q
step q wake = on_wake q
step q (observed i) = on_observed q i

unfoldable pub run : Queue → List Event → Queue
run q [] = q
run q (e ∷ es) = run (step q e) es

-- `UseIndexedObserver` and `observeIndexed`: the workers begin with `nextIndexed`.
unfoldable pub start : Queue
start = record {
  pending = [];
  queued = [];
  signals = 0;
  posting = 0;
  polling = maximum_concurrency;
  waiting = 0;
  busy = [];
  taken = [];
}
