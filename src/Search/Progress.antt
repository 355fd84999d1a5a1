-- ===== src/Search/Progress.antt =====
-- The workers come to rest only when the queue is empty, and take what was queued in order.
use repo_karta.Common.{
  ℕ, zero, suc, ◌+◌, ◌*◌, ◌<◌, ◌≡◌, ◌≢◌, refl, sym, ap, ◌∙◌, List, [], ◌∷◌, ◌++◌, arith, All,
  length, ltb, leb, if_rule, Bool-cases, inl, inr, append_assoc, append-nil,
}
use repo_karta.Search.Queue.{
  Queue, Event, enqueue, post, poll, wake, observed, on_post, on_next, on_poll, on_wake,
  on_observed, step, run, start,
}
use repo_karta.Search.Wakeups.{IsAlert, run-start-IsAlert, step-IsAlert, length-remove_at}

-- The steps of workers and of sends under way: all but new calls of `queueIndexed`.
abbrev pub IsInternal : Event → Type 0
IsInternal (enqueue id) = ⊥
IsInternal _ = Unit

-- What the internal steps use up.
abbrev work : Queue → ℕ
work q = 2 * length q.pending + (2 * length q.busy + (q.polling + (2 * q.signals + 3 * q.posting)))

abbrev order : Queue → List ℕ
order q = q.taken ++ q.pending

record Advances (q r : Queue) : Type 0 where
  less : work r < work q
  same_order : order r ≡ order q

post-Advances : (q : Queue) → 0 < q.posting → Advances q (step q post)
unfolding step on_post
post-Advances q h = elim (Bool-cases (leb q.posting 0)) [
  | inl none_left ↦ absurd (ground arith)
  | inr some_left ↦ rw some_left (
      if_rule (Advances q) (ltb q.signals 8) _ _
        (λ room. record { less = omega arith; same_order = refl })
        (λ full. record { less = omega arith; same_order = refl }))
]

on_next-Advances :
    (q : Queue) (p : List ℕ) → q.pending ≡ p → 0 < q.polling → Advances q (on_next q p)
unfolding on_next
on_next-Advances q [] e h = record { less = omega arith; same_order = refl }
on_next-Advances q (id ∷ p) e h =
    let size : length q.pending ≡ suc (length p) = ap length e in
    record {
      less = omega arith;
      same_order = append_assoc q.taken (id ∷ []) p ∙ ap (λ l. q.taken ++ l) (sym e);
    }

poll-Advances : (q : Queue) → 0 < q.polling → Advances q (step q poll)
unfolding step on_poll
poll-Advances q h = elim (Bool-cases (leb q.polling 0)) [
  | inl no_poll ↦ absurd (ground arith)
  | inr some_poll ↦ rw some_poll (on_next-Advances q q.pending refl h)
]

wake-Advances : (q : Queue) → 0 < q.waiting → 0 < q.signals → Advances q (step q wake)
unfolding step on_wake
wake-Advances q h k = elim (Bool-cases (leb q.waiting 0)) [
  | inl no_wait ↦ absurd (ground arith)
  | inr some_wait ↦ elim (Bool-cases (leb q.signals 0)) [
    | inl no_signal ↦ absurd (ground arith)
    | inr some_signal ↦
        rw (some_wait, some_signal) (record { less = omega arith; same_order = refl })
  ]
]

observed-Advances : (q : Queue) → 0 < length q.busy → Advances q (step q (observed 0))
unfolding step on_observed
observed-Advances q h = elim (Bool-cases (ltb 0 (length q.busy))) [
  | inl there ↦
      let gone = length-remove_at 0 q.busy h in
      rw there (record { less = omega arith; same_order = refl })
  | inr not_there ↦ absurd (ground arith)
]

-- While work is pending, some goroutine has a step.
next_step :
    (q : Queue) → IsAlert q → q.pending ≢ [] → (e : Event) × IsInternal e × Advances q (step q e)
next_step q a ne = elim (Bool-cases (ltb 0 q.posting)) [
  | inl sends ↦ (post, tt, post-Advances q (ground arith))
  | inr no_send ↦ elim (Bool-cases (ltb 0 q.polling)) [
    | inl polls ↦ (poll, tt, poll-Advances q (ground arith))
    | inr no_poll ↦ elim (Bool-cases (ltb 0 (length q.busy))) [
      | inl works ↦ (observed 0, tt, observed-Advances q (ground arith))
      | inr no_work ↦ elim a.awake [
        | inl empty ↦ absurd (ne empty)
        | inr alert ↦ (wake, tt, wake-Advances q (ground (arith, a.workers)) (ground arith))
      ]
    ]
  ]
]

-- A schedule of internal steps that ends with an empty queue, and what it has taken.
abbrev pub Settles : Queue → Type 0
Settles q =
    (es : List Event) × All IsInternal es
    × ((run q es).pending ≡ [])
    × ((run q es).taken ≡ q.taken ++ q.pending)

settle : (fuel : ℕ) (q : Queue) → work q < fuel → IsAlert q → Settles q
unfolding run
settle zero q h a = absurd (omega arith)
settle (suc fuel) q h a = go (settle fuel) q.pending refl
  where
    later : (e : Event) → IsInternal e → Advances q (step q e) → Settles (step q e) → Settles q
    later e i v (es, internal, empty, took) = (e ∷ es, (i, internal), empty, took ∙ v.same_order)

    go :
        ((r : Queue) → work r < fuel → IsAlert r → Settles r)
        → (p : List ℕ) → q.pending ≡ p
        → Settles q
    go rest [] e = ([], tt, e, sym (ap (λ l. q.taken ++ l) e ∙ append-nil q.taken))
    go rest (x ∷ p) e =
        let (event, i, v) = next_step q a (λ nil. cc) in
        later event i v (rest (step q event) (omega (arith, v.less)) (step-IsAlert q event a))

-- From every state that calls and workers can reach, the goroutines alone can go on, with no new
-- call of `queueIndexed`, until the queue is empty; the workers have then taken all that was
-- pending, in the order in which it was queued.
pub run-start-Settles : (es : List Event) → Settles (run start es)
run-start-Settles es =
    settle (suc (work (run start es))) (run start es) (omega arith) (run-start-IsAlert es)
