-- ===== src/Telemetry/Conservation.antt =====
-- What the processors export: every item that the channel took, once, in the order of the sends.
use repo_karta.Common.{
  ◌≡◌, refl, sym, ap, ◌∙◌, not, ◌||◌, Option, none, some, List, [], ◌∷◌, ◌++◌, append-nil,
  append_assoc, length, ltb, leb, if◌then◌else◌, if_rule, Bool-cases, inl, inr,
}
use repo_karta.Telemetry.Delivery.{queued_less}
use repo_karta.Telemetry.Batch.{
  Processor, Event, offer, send, close, receive, tick, flush, stop, turn, pick, Phase, selecting,
  draining, ending, end_drain, drain_turn, in_select, in_drain, on_offer, on_select, on_send,
  export, on_full, on_receive, while_running, step, run,
}

module _ {A : Type 0} where
  -- The items of some batches, in order.
  abbrev pub joined : List (List A) → List A
  joined [] = []
  joined (b ∷ bs) = b ++ joined bs

  pub joined-append : (bs cs : List (List A)) → joined (bs ++ cs) ≡ joined bs ++ joined cs
  joined-append [] cs = refl
  joined-append (b ∷ bs) cs =
      rw (joined-append bs cs) (sym (append_assoc b (joined bs) (joined cs)))

  -- What was exported, then what waits in the batch, then what waits in the channel.
  abbrev pub outputs : Processor A → List A
  outputs p = joined p.exported ++ (p.batch ++ p.queue)

  -- The item that a step puts into the channel.
  unfoldable pub taken : Processor A → Option (A × List A) → List A
  taken p none = []
  taken p (some (x, others)) = if ltb (length p.queue) p.capacity then x ∷ [] else []

  unfoldable pub accepted : Processor A → Event A → List A
  accepted p (send i) = taken p (pick i p.sending)
  accepted p _ = []

  unfoldable pub accepted_all : Processor A → List (Event A) → List A
  accepted_all p [] = []
  accepted_all p (e ∷ es) = accepted p e ++ accepted_all (step p e) es

  export-outputs :
      (p : Processor A) (b : List A) → outputs (export p b) ≡ joined p.exported ++ (b ++ p.queue)
  unfolding export
  export-outputs p [] = refl
  export-outputs p (x ∷ xs) =
      rw (joined-append p.exported ((x ∷ xs) ∷ []), append-nil (x ∷ xs))
        (append_assoc (joined p.exported) (x ∷ xs) p.queue)

  end_drain-outputs : (p : Processor A) (h : Phase) → outputs (end_drain p h) ≡ outputs p
  unfolding end_drain
  end_drain-outputs p selecting = refl
  end_drain-outputs p draining = export-outputs p p.batch
  end_drain-outputs p ending = export-outputs p p.batch

  drain_turn-outputs :
      (p : Processor A) (q : List A) → p.queue ≡ q → outputs (drain_turn p q) ≡ outputs p
  unfolding drain_turn
  drain_turn-outputs p [] e = end_drain-outputs p p.phase
  drain_turn-outputs p (x ∷ q) e =
      if_rule (λ r. outputs r ≡ outputs p) (ltb (length p.batch) p.limit) _ _
        (λ _.
          ap (λ l. joined p.exported ++ l)
            (append_assoc p.batch (x ∷ []) q ∙ ap (λ l. p.batch ++ l) (sym e)))
        (λ _. end_drain-outputs p p.phase)

  on_full-outputs : (p : Processor A) → outputs (on_full p) ≡ outputs p
  unfolding on_full
  on_full-outputs p =
      if_rule (λ q. outputs q ≡ outputs p) (leb p.limit (length p.batch)) _ _
        (λ _. export-outputs p p.batch) (λ _. refl)

  on_receive-outputs :
      (p : Processor A) (q : List A) → p.queue ≡ q → outputs (on_receive p q) ≡ outputs p
  unfolding on_receive
  on_receive-outputs p [] e = refl
  on_receive-outputs p (x ∷ q) e =
      on_full-outputs
        (record p { state = queued_less p.state; queue = q; batch = p.batch ++ x ∷ [] })
      ∙ ap (λ l. joined p.exported ++ l)
          (append_assoc p.batch (x ∷ []) q ∙ ap (λ l. p.batch ++ l) (sym e))

  on_send-outputs :
      (p : Processor A) (o : Option (A × List A)) → outputs (on_send p o) ≡ outputs p ++ taken p o
  unfolding on_send on_select taken
  on_send-outputs p none = sym (append-nil (outputs p))
  on_send-outputs p (some (x, others)) = elim (Bool-cases (ltb (length p.queue) p.capacity)) [
    | inl room ↦ rw room (simp append_assoc)
    | inr full ↦ rw full (sym (append-nil (outputs p)))
  ]

  -- What `run` does adds nothing.
  abbrev Keeps : Processor A → Processor A → Type 0
  Keeps p q = outputs q ≡ outputs p

  in_select-Keeps : (p next : Processor A) (h : Phase) → Keeps p next → Keeps p (in_select h p next)
  unfolding in_select
  in_select-Keeps p next selecting k = k
  in_select-Keeps p next draining k = refl
  in_select-Keeps p next ending k = refl

  in_drain-Keeps : (p next : Processor A) (h : Phase) → Keeps p next → Keeps p (in_drain h p next)
  unfolding in_drain
  in_drain-Keeps p next selecting k = refl
  in_drain-Keeps p next draining k = k
  in_drain-Keeps p next ending k = k

  run_step :
      (p next : Processor A) → Keeps p next → outputs (while_running p next) ≡ outputs p ++ []
  unfolding while_running
  run_step p next k =
      if_rule (λ q. outputs q ≡ outputs p ++ []) p.returned _ _ (λ _. sym (append-nil (outputs p)))
        (λ _. k ∙ sym (append-nil (outputs p)))

  -- One step adds to the outputs exactly what the channel takes in that step.
  step-outputs : (p : Processor A) (e : Event A) → outputs (step p e) ≡ outputs p ++ accepted p e
  unfolding step accepted
  step-outputs p (send i) = on_send-outputs p (pick i p.sending)
  step-outputs p (offer x wanted) =
      unfold on_offer in
      if_rule (λ q. outputs q ≡ outputs p ++ []) (p.stopped || not wanted) _ _
        (λ _. sym (append-nil (outputs p))) (λ _. sym (append-nil (outputs p)))
  step-outputs p close = sym (append-nil (outputs p))
  step-outputs p receive =
      run_step p _ (in_select-Keeps p _ p.phase (on_receive-outputs p p.queue refl))
  step-outputs p tick = run_step p _ (in_select-Keeps p _ p.phase refl)
  step-outputs p flush = run_step p _ (in_select-Keeps p _ p.phase refl)
  step-outputs p stop =
      run_step p _
        (in_select-Keeps p _ p.phase (if_rule (Keeps p) p.stopped _ _ (λ _. refl) (λ _. refl)))
  step-outputs p turn =
      run_step p _ (in_drain-Keeps p _ p.phase (drain_turn-outputs p p.queue refl))

  -- Over any steps of producers, of `Shutdown` and of `run`, the items exported, with those that wait
  -- in the batch and in the channel behind them, are those that were there before and then those that
  -- the channel took, each once and in that order.
  pub run-outputs :
      (p : Processor A) (es : List (Event A)) → outputs (run p es) ≡ outputs p ++ accepted_all p es
  unfolding run accepted_all
  run-outputs p [] = sym (append-nil (outputs p))
  run-outputs p (e ∷ es) =
      run-outputs (step p e) es
      ∙ ap (λ l. l ++ accepted_all (step p e) es) (step-outputs p e)
      ∙ append_assoc (outputs p) (accepted p e) (accepted_all (step p e) es)
