-- ===== src/Search/Wakeups.antt =====
-- No queued repository is forgotten: the dropped sends of a full channel lose no work.
use repo_karta.Common.{
  ℕ, zero, suc, ◌+◌, ◌≤◌, ◌<◌, ◌≡◌, ◌⊎◌, refl, ap, List, [], ◌∷◌, arith, length, ltb, leb, if_rule,
  inl, inr,
}
use repo_karta.Search.Queue.{
  Queue, Event, enqueue, post, poll, wake, observed, contains, remove_at, on_enqueue, on_post,
  on_next, on_poll, on_wake, on_observed, step, run, start, maximum_concurrency,
}

-- Somebody will still look at the queue: a send under way, a signal in the channel, a worker that
-- is about to ask, or one whose observer runs.
abbrev pub Awake : Queue → Type 0
Awake q = 0 < q.posting + (q.signals + (q.polling + length q.busy))

pub record IsAlert (q : Queue) : Type 0 where
  pub awake : (q.pending ≡ []) ⊎ Awake q
  pub workers : q.polling + (q.waiting + length q.busy) ≡ maximum_concurrency
  pub channel : q.signals ≤ maximum_concurrency

on_enqueue-IsAlert : (q : Queue) (id : ℕ) → IsAlert q → IsAlert (on_enqueue q id)
unfolding on_enqueue
on_enqueue-IsAlert q id a =
    if_rule IsAlert (leb id 0) _ _ (λ _. a)
      (λ _.
        if_rule IsAlert (contains id q.queued) _ _ (λ _. a)
          (λ _. record { awake = inr (omega arith); workers = a.workers; channel = a.channel }))

on_post-IsAlert : (q : Queue) → IsAlert q → IsAlert (on_post q)
unfolding on_post
on_post-IsAlert q a =
    if_rule IsAlert (leb q.posting 0) _ _ (λ _. a)
      (λ _.
        if_rule IsAlert (ltb q.signals 8) _ _
          (λ room. record {
            awake = inr (omega arith);
            workers = a.workers;
            channel = ground arith;
          })
          (λ full. record { awake = inr (ground arith); workers = a.workers; channel = a.channel }))

on_next-IsAlert :
    (q : Queue) (p : List ℕ) → q.pending ≡ p → 0 < q.polling → IsAlert q → IsAlert (on_next q p)
unfolding on_next
on_next-IsAlert q [] e h a = record {
  awake = inl e;
  workers = omega (arith, a.workers);
  channel = a.channel;
}
on_next-IsAlert q (id ∷ p) e h a = record {
  awake = inr (omega arith);
  workers = omega (arith, a.workers);
  channel = a.channel;
}

pub length-remove_at :
    (i : ℕ) (xs : List ℕ) → i < length xs → suc (length (remove_at i xs)) ≡ length xs
unfolding remove_at
length-remove_at i [] h = absurd (omega arith)
length-remove_at zero (x ∷ xs) h = refl
length-remove_at (suc i) (x ∷ xs) h = ap suc (length-remove_at i xs (omega arith))

on_observed-IsAlert : (q : Queue) (i : ℕ) → IsAlert q → IsAlert (on_observed q i)
unfolding on_observed
on_observed-IsAlert q i a =
    if_rule IsAlert (ltb i (length q.busy)) _ _
      (λ there.
        let gone = length-remove_at i q.busy (ground arith) in
        record {
          awake = inr (omega arith);
          workers = omega (arith, a.workers);
          channel = a.channel;
        })
      (λ _. a)

on_wake-IsAlert : (q : Queue) → IsAlert q → IsAlert (on_wake q)
unfolding on_wake
on_wake-IsAlert q a =
    if_rule IsAlert (leb q.waiting 0) _ _ (λ _. a)
      (λ some_wait.
        if_rule IsAlert (leb q.signals 0) _ _ (λ _. a)
          (λ some_signal. record {
            awake = inr (omega arith);
            workers = ground (arith, a.workers);
            channel = omega (arith, a.channel);
          }))

on_poll-IsAlert : (q : Queue) → IsAlert q → IsAlert (on_poll q)
unfolding on_poll
on_poll-IsAlert q a =
    if_rule IsAlert (leb q.polling 0) _ _ (λ _. a)
      (λ some_poll. on_next-IsAlert q q.pending refl (ground arith) a)

pub step-IsAlert : (q : Queue) (e : Event) → IsAlert q → IsAlert (step q e)
unfolding step
step-IsAlert q (enqueue id) a = on_enqueue-IsAlert q id a
step-IsAlert q post a = on_post-IsAlert q a
step-IsAlert q poll a = on_poll-IsAlert q a
step-IsAlert q wake a = on_wake-IsAlert q a
step-IsAlert q (observed i) a = on_observed-IsAlert q i a

pub run-IsAlert : (q : Queue) (es : List Event) → IsAlert q → IsAlert (run q es)
unfolding run
run-IsAlert q [] a = a
run-IsAlert q (e ∷ es) a = run-IsAlert (step q e) es (step-IsAlert q e a)

pub start-IsAlert : IsAlert start
unfolding start
start-IsAlert = record { awake = inl refl; workers = refl; channel = omega arith }

-- After any calls and any interleaving: if work is pending, then a send is under way, a signal is in
-- the channel, or a worker is not waiting; all eight workers are accounted for, and the channel
-- holds at most eight signals.
pub run-start-IsAlert : (es : List Event) → IsAlert (run start es)
run-start-IsAlert es = run-IsAlert start es start-IsAlert
