-- ===== src/Search/Tracked.antt =====
-- The map `indexedQueued` holds exactly the pending identifiers, and none is pending twice.
use repo_karta.Common.{
  ℕ, ◌≡◌, refl, sym, ap, ◌∙◌, false, not, ◌||◌, ◌&&◌, List, [], ◌∷◌, ◌++◌, arith, length, ltb, leb,
  ◌==◌, if_rule, ==_iff, subst, Bool-cases, inl, inr,
}
use repo_karta.Search.Queue.{
  Queue, Event, enqueue, post, poll, wake, observed, contains, delete, on_enqueue, on_post, on_next,
  on_poll, on_wake, on_observed, step, run, start,
}

abbrev pub Distinct : List ℕ → Type 0
Distinct [] = Unit
Distinct (x ∷ xs) = (contains x xs ≡ false) × Distinct xs

pub record IsTracked (q : Queue) : Type 0 where
  pub same_keys : (x : ℕ) → contains x q.queued ≡ contains x q.pending
  pub distinct : Distinct q.pending
  pub positive : contains 0 q.pending ≡ false

contains-delete : (x y : ℕ) (l : List ℕ) → contains x (delete y l) ≡ (not (x == y) && contains x l)
unfolding delete
contains-delete x y [] = ground arith
contains-delete x y (z ∷ l) = elim (Bool-cases (y == z)) [
  | inl same ↦ rw same (contains-delete x y l ∙ ground arith)
  | inr other ↦ rw other (ground (arith, contains-delete x y l))
]

contains-snoc : (x y : ℕ) (l : List ℕ) → contains x (l ++ y ∷ []) ≡ (x == y || contains x l)
contains-snoc x y [] = refl
contains-snoc x y (z ∷ l) = ground (arith, contains-snoc x y l)

Distinct-snoc : (y : ℕ) (l : List ℕ) → Distinct l → contains y l ≡ false → Distinct (l ++ y ∷ [])
Distinct-snoc y [] d h = (refl, tt)
Distinct-snoc y (z ∷ l) d h =
    (ground (arith, contains-snoc z y l), Distinct-snoc y l d.1 (ground arith))

on_enqueue-IsTracked : (q : Queue) (id : ℕ) → IsTracked q → IsTracked (on_enqueue q id)
unfolding on_enqueue
on_enqueue-IsTracked q id t =
    if_rule IsTracked (leb id 0) _ _ (λ _. t)
      (λ pos.
        if_rule IsTracked (contains id q.queued) _ _ (λ _. t)
          (λ fresh. record {
            same_keys =
                λ x. ap (λ b. x == id || b) (t.same_keys x) ∙ sym (contains-snoc x id q.pending);
            distinct = Distinct-snoc id q.pending t.distinct (sym (t.same_keys id) ∙ fresh);
            positive = ground (arith, contains-snoc 0 id q.pending, t.positive);
          }))

without_head :
    (x id : ℕ) (p : List ℕ)
    → contains id p ≡ false
    → (not (x == id) && contains x (id ∷ p)) ≡ contains x p
without_head x id p h = ground (arith, ==_iff x id)

on_next-IsTracked : (q : Queue) (p : List ℕ) → q.pending ≡ p → IsTracked q → IsTracked (on_next q p)
unfolding on_next
on_next-IsTracked q [] e t = record {
  same_keys = t.same_keys;
  distinct = t.distinct;
  positive = t.positive;
}
on_next-IsTracked q (id ∷ p) e t =
    let (fresh, others) = subst Distinct e t.distinct in
    record {
      same_keys = λ x.
          contains-delete x id q.queued
          ∙ ap (λ b. not (x == id) && b) (t.same_keys x ∙ ap (contains x) e)
          ∙ without_head x id p fresh;
      distinct = others;
      positive = positive_tail (sym (ap (contains 0) e) ∙ t.positive);
    }
  where
    positive_tail : contains 0 (id ∷ p) ≡ false → contains 0 p ≡ false
    positive_tail h = ground arith

step-IsTracked : (q : Queue) (e : Event) → IsTracked q → IsTracked (step q e)
unfolding step on_post on_poll on_wake on_observed
step-IsTracked q (enqueue id) t = on_enqueue-IsTracked q id t
step-IsTracked q post t =
    if_rule IsTracked (leb q.posting 0) _ _ (λ _. t)
      (λ _. if_rule IsTracked (ltb q.signals 8) _ _ (λ _. unchanged) (λ _. unchanged))
  where
    unchanged :
        {posting signals : ℕ} → IsTracked (record q { posting = posting; signals = signals })
    unchanged = record { same_keys = t.same_keys; distinct = t.distinct; positive = t.positive }
step-IsTracked q poll t =
    if_rule IsTracked (leb q.polling 0) _ _ (λ _. t) (λ _. on_next-IsTracked q q.pending refl t)
step-IsTracked q wake t =
    if_rule IsTracked (leb q.waiting 0) _ _ (λ _. t)
      (λ _.
        if_rule IsTracked (leb q.signals 0) _ _ (λ _. t)
          (λ _. record { same_keys = t.same_keys; distinct = t.distinct; positive = t.positive }))
step-IsTracked q (observed i) t =
    if_rule IsTracked (ltb i (length q.busy)) _ _
      (λ _. record { same_keys = t.same_keys; distinct = t.distinct; positive = t.positive })
      (λ _. t)

run-IsTracked : (q : Queue) (es : List Event) → IsTracked q → IsTracked (run q es)
unfolding run
run-IsTracked q [] t = t
run-IsTracked q (e ∷ es) t = run-IsTracked (step q e) es (step-IsTracked q e t)

-- After any calls and any interleaving the map holds exactly the pending identifiers, no identifier
-- is pending twice, and 0 is never pending.
pub run-start-IsTracked : (es : List Event) → IsTracked (run start es)
unfolding start
run-start-IsTracked es =
    run-IsTracked _ es (record { same_keys = λ x. refl; distinct = tt; positive = refl })
