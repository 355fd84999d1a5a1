-- ===== src/Telemetry/Stop.antt =====
-- What `Shutdown` exports, and what it leaves in the channel (internal/telemetry/batch.go).
use repo_karta.Common.{
  ℕ, suc, ◌+◌, ◌-◌, ◌≤◌, ◌<◌, ◌≡◌, ◌⊎◌, refl, sym, ap, subst, ◌∙◌, true, false, not, ◌||◌, Option,
  none, some, List, [], ◌∷◌, ◌++◌, arith, append-nil, append_assoc, length, length-append, ltb,
  if◌then◌else◌, if_rule, Bool-cases, inl, inr,
}
use repo_karta.Telemetry.Batch.{
  Processor, Event, offer, send, close, receive, tick, flush, stop, turn, pick, on_offer, on_select,
  on_send, export, end_drain, drain_turn, in_select, in_drain, selecting, ending, while_running,
  step, run,
}
use repo_karta.Telemetry.Delivery.{queued_less}
use repo_karta.Telemetry.Conservation.{accepted, accepted_all, joined, joined-append, taken}

module _ {A : Type 0} where
  export-joined :
      (p : Processor A) (b : List A) → joined (export p b).exported ≡ joined p.exported ++ b
  unfolding export
  export-joined p [] = sym (append-nil (joined p.exported))
  export-joined p (x ∷ xs) =
      joined-append p.exported ((x ∷ xs) ∷ []) ∙ rw (append-nil (x ∷ xs)) refl

  -- Behind its return `run` exports nothing and stays returned.
  step-returned :
      (p : Processor A) (e : Event A)
      → p.returned ≡ true
      → ((step p e).returned ≡ true) × ((step p e).exported ≡ p.exported)
  unfolding step while_running on_offer on_send on_select
  step-returned p (offer x w) h = ground arith
  step-returned p (send i) h = ground (arith)
  step-returned p close h = (h, refl)
  step-returned p receive h = rw h (refl, refl)
  step-returned p tick h = rw h (refl, refl)
  step-returned p flush h = rw h (refl, refl)
  step-returned p stop h = rw h (refl, refl)
  step-returned p turn h = rw h (refl, refl)

  run-returned :
      (p : Processor A) (es : List (Event A))
      → p.returned ≡ true
      → ((run p es).returned ≡ true) × ((run p es).exported ≡ p.exported)
  unfolding run
  run-returned p [] h = (h, refl)
  run-returned p (e ∷ es) h =
      let (still, same) = step-returned p e h in
      let (ended, all_same) = run-returned (step p e) es still in (ended, all_same ∙ same)

  -- The turns of `drain` in a sequence of steps.
  abbrev pub turns_of : Event A → ℕ
  turns_of turn = 1
  turns_of _ = 0

  abbrev pub turns : List (Event A) → ℕ
  turns [] = 0
  turns (e ∷ es) = turns_of e + turns es

  -- `run` has returned, and has exported its batch with some items that it took from the channel, in
  -- order: a full batch, or at least all that the channel held.
  pub record Ended (p : Processor A) (es : List (Event A)) : Type 0 where
    pub over : (run p es).returned ≡ true
    pub extra : List A
    pub left : List A
    pub all_exported : joined (run p es).exported ≡ joined p.exported ++ (p.batch ++ extra)
    pub at_most : length p.batch + length extra ≤ p.limit
    pub at_least : (length p.batch + length extra ≡ p.limit) ⊎ (length p.queue ≤ length extra)
    pub from_channel : p.queue ++ accepted_all p es ≡ extra ++ left

  -- While `run` drains for a stop, no other step changes what it has, and the channel only grows.
  record Waits (p q : Processor A) (more : List A) : Type 0 where
    still_ending : q.phase ≡ ending
    still_running : q.returned ≡ false
    same_batch : q.batch ≡ p.batch
    same_exported : q.exported ≡ p.exported
    same_limit : q.limit ≡ p.limit
    grown : q.queue ≡ p.queue ++ more

  unmoved : (p : Processor A) → p.phase ≡ ending → p.returned ≡ false → Waits p p []
  unmoved p h r = record {
    still_ending = h;
    still_running = r;
    same_batch = refl;
    same_exported = refl;
    same_limit = refl;
    grown = sym (append-nil p.queue);
  }

  in_select-Waits :
      (p next : Processor A)
      → p.phase ≡ ending
      → p.returned ≡ false
      → Waits p (while_running p (in_select p.phase p next)) []
  unfolding while_running in_select
  in_select-Waits p next h r =
      subst (λ q. Waits p q [])
        (sym
          (ap (λ b. if b then p else in_select p.phase p next) r ∙ ap (λ k. in_select k p next) h))
        (unmoved p h r)

  on_send-Waits :
      (p : Processor A) (o : Option (A × List A))
      → p.phase ≡ ending
      → p.returned ≡ false
      → Waits p (on_send p o) (taken p o)
  unfolding on_send on_select taken
  on_send-Waits p none h r = unmoved p h r
  on_send-Waits p (some (x, others)) h r = elim (Bool-cases (ltb (length p.queue) p.capacity)) [
    | inl room ↦ rw room (record {
      still_ending = h;
      still_running = r;
      same_batch = refl;
      same_exported = refl;
      same_limit = refl;
      grown = refl;
    })
    | inr full ↦ rw full (record {
      still_ending = h;
      still_running = r;
      same_batch = refl;
      same_exported = refl;
      same_limit = refl;
      grown = sym (append-nil p.queue);
    })
  ]

  step-Waits :
      (p : Processor A) (e : Event A)
      → p.phase ≡ ending
      → p.returned ≡ false
      → turns_of e ≡ 0
      → Waits p (step p e) (accepted p e)
  unfolding step accepted on_offer
  step-Waits p (offer x w) h r n =
      if_rule (λ q. Waits p q []) (p.stopped || not w) _ _ (λ _. unmoved p h r)
        (λ _. record {
          still_ending = h;
          still_running = r;
          same_batch = refl;
          same_exported = refl;
          same_limit = refl;
          grown = sym (append-nil p.queue);
        })
  step-Waits p (send i) h r n = on_send-Waits p (pick i p.sending) h r
  step-Waits p close h r n = record {
    still_ending = h;
    still_running = r;
    same_batch = refl;
    same_exported = refl;
    same_limit = refl;
    grown = sym (append-nil p.queue);
  }
  step-Waits p receive h r n = in_select-Waits p _ h r
  step-Waits p tick h r n = in_select-Waits p _ h r
  step-Waits p flush h r n = in_select-Waits p _ h r
  step-Waits p stop h r n = in_select-Waits p _ h r
  step-Waits p turn h r n = absurd (omega arith)

  -- What ends behind another step, ends.
  Waits-Ended :
      (p : Processor A) (e : Event A) (es : List (Event A))
      → Waits p (step p e) (accepted p e)
      → Ended (step p e) es
      → Ended p (e ∷ es)
  unfolding run accepted_all
  Waits-Ended p e es w d = record {
    over = d.over;
    extra = d.extra;
    left = d.left;
    all_exported =
        d.all_exported
        ∙ ap (λ x. joined x ++ ((step p e).batch ++ d.extra)) w.same_exported
        ∙ ap (λ b. joined p.exported ++ (b ++ d.extra)) w.same_batch;
    at_most =
        (let f = d.at_most in
          let b = ap length w.same_batch in let l = w.same_limit in omega (arith, f, b, l));
    at_least =
        (let b = ap length w.same_batch in
          let l = w.same_limit in
          let g = ap length w.grown in
          let size = length-append p.queue (accepted p e) in
          elim d.at_least [
            | inl full ↦ inl (omega (arith, full, b, l))
            | inr more ↦ inr (omega (arith, more, g, size))
          ]);
    from_channel =
        sym (append_assoc p.queue (accepted p e) (accepted_all (step p e) es))
        ∙ ap (λ q. q ++ accepted_all (step p e) es) (sym w.grown)
        ∙ d.from_channel;
  }

  -- The end of `drain` behind a stop.
  finished :
      (p : Processor A) (es : List (Event A))
      → length p.batch ≤ p.limit
      → (length p.batch + 0 ≡ p.limit) ⊎ (length p.queue ≤ 0)
      → step p turn ≡ end_drain p ending
      → Ended p (turn ∷ es)
  unfolding run end_drain accepted_all
  finished p es fits least e =
      let q = record (export p p.batch) { phase = selecting; returned = true } in
      let (over, same) = run-returned q es refl in
      record {
        over = ap (λ x. (run x es).returned) e ∙ over;
        extra = [];
        left = p.queue ++ accepted_all p (turn ∷ es);
        all_exported =
            ap (λ x. joined (run x es).exported) e
            ∙ ap joined same
            ∙ export-joined p p.batch
            ∙ ap (λ b. joined p.exported ++ b) (sym (append-nil p.batch));
        at_most = omega arith;
        at_least = least;
        from_channel = refl;
      }

  -- A turn that takes an item.
  moved :
      (p : Processor A) (x : A) (q : List A) (es : List (Event A))
      → p.queue ≡ x ∷ q
      → let next = record p { state = queued_less p.state; batch = p.batch ++ x ∷ []; queue = q } in
        step p turn ≡ next → Ended next es → Ended p (turn ∷ es)
  unfolding run accepted_all accepted
  moved p x q es c e d = record {
    over = ap (λ n. (run n es).returned) e ∙ d.over;
    extra = x ∷ d.extra;
    left = d.left;
    all_exported =
        ap (λ n. joined (run n es).exported) e
        ∙ d.all_exported
        ∙ ap (λ b. joined p.exported ++ b) (append_assoc p.batch (x ∷ []) d.extra);
    at_most = (let f = d.at_most in omega (arith, f, length-append p.batch (x ∷ [])));
    at_least =
        (let size = length-append p.batch (x ∷ []) in
          let counted : length p.queue ≡ suc (length q) = ap length c in
          elim d.at_least [
            | inl full ↦ inl (omega (arith, full, size))
            | inr more ↦ inr (omega (arith, more, counted))
          ]);
    from_channel =
        ap (λ n. p.queue ++ accepted_all n es) e
        ∙ ap (λ l. l ++ accepted_all next es) c
        ∙ ap (λ l. x ∷ l) d.from_channel;
  }
    where
      next : Processor A
      next = record p { state = queued_less p.state; batch = p.batch ++ x ∷ []; queue = q }

  turn-drain :
      (p : Processor A) → p.phase ≡ ending → p.returned ≡ false → step p turn ≡ drain_turn p p.queue
  unfolding step while_running in_drain
  turn-drain p h r =
      ap (λ b. if b then p else in_drain p.phase p (drain_turn p p.queue)) r
      ∙ ap (λ k. in_drain k p (drain_turn p p.queue)) h

  drain_turn-full :
      (p : Processor A) (q : List A)
      → p.phase ≡ ending
      → ((q ≡ []) ⊎ (ltb (length p.batch) p.limit ≡ false))
      → drain_turn p q ≡ end_drain p ending
  unfolding drain_turn
  drain_turn-full p [] h c = ap (end_drain p) h
  drain_turn-full p (x ∷ q) h (inl c) = absurd cc
  drain_turn-full p (x ∷ q) h (inr c) = rw c (ap (end_drain p) h)

  drain_turn-room :
      (p : Processor A) (x : A) (q : List A)
      → ltb (length p.batch) p.limit ≡ true
      → drain_turn p (x ∷ q)
        ≡ record p { state = queued_less p.state; batch = p.batch ++ x ∷ []; queue = q }
  unfolding drain_turn
  drain_turn-room p x q h = rw h refl

  stop-ending :
      (p : Processor A)
      → p.stopped ≡ true
      → p.returned ≡ false
      → p.phase ≡ selecting
      → step p stop ≡ record p { phase = ending }
  unfolding step while_running in_select
  stop-ending p s r h =
      let next = record p { phase = ending } in
      ap (λ b. if b then p else in_select p.phase p (if p.stopped then next else p)) r
      ∙ ap (λ k. in_select k p (if p.stopped then next else p)) h
      ∙ ap (λ b. if b then next else p) s

  -- The first turn of `drain`, by what the channel holds.
  turn-Ended :
      (p : Processor A) (es : List (Event A)) (q : List A)
      → p.queue ≡ q
      → p.phase ≡ ending
      → p.returned ≡ false
      → length p.batch ≤ p.limit
      → ((next : Processor A)
          → next.phase ≡ ending
          → next.returned ≡ false
          → next.limit ≡ p.limit
          → length next.batch ≡ suc (length p.batch)
          → length p.batch < p.limit
          → Ended next es)
      → Ended p (turn ∷ es)
  turn-Ended p es [] c h r fits later =
      finished p es fits (inr (omega (arith, ap length c)))
        (turn-drain p h r ∙ ap (drain_turn p) c ∙ drain_turn-full p [] h (inl refl))
  turn-Ended p es (x ∷ q) c h r fits later = elim (Bool-cases (ltb (length p.batch) p.limit)) [
    | inl room ↦
        let size = length-append p.batch (x ∷ []) in
        moved p x q es c (turn-drain p h r ∙ ap (drain_turn p) c ∙ drain_turn-room p x q room) (
          later (record p { state = queued_less p.state; batch = p.batch ++ x ∷ []; queue = q }) h r
            refl (omega (arith, size)) (ground arith))
    | inr full ↦
        finished p es fits (inl (ground arith))
          (turn-drain p h r ∙ drain_turn-full p p.queue h (inr full))
  ]

  waiting-Ended :
      (p : Processor A) (e : Event A) (es : List (Event A))
      → turns_of e ≡ 0
      → p.phase ≡ ending
      → p.returned ≡ false
      → length p.batch ≤ p.limit
      → p.limit - length p.batch < turns es
      → ((next : Processor A)
          → next.phase ≡ ending
          → next.returned ≡ false
          → length next.batch ≤ next.limit
          → next.limit - length next.batch < turns es
          → Ended next es)
      → Ended p (e ∷ es)
  waiting-Ended p e es z h r fits n later =
      let w = step-Waits p e h r z in
      let b = ap length w.same_batch in
      let l = w.same_limit in
      Waits-Ended p e es w (
        later (step p e) w.still_ending w.still_running (omega (arith, fits, b, l))
          (omega (arith, n, b, l)))

  ending-Ended :
      (es : List (Event A)) (p : Processor A)
      → p.phase ≡ ending
      → p.returned ≡ false
      → length p.batch ≤ p.limit
      → p.limit - length p.batch < turns es
      → Ended p es
  ending-Ended [] p h r fits n = absurd (omega arith)
  ending-Ended (turn ∷ es) p h r fits n =
      turn-Ended p es p.queue refl h r fits (λ next k s l b room.
        ending-Ended es next k s (omega (arith, l, b)) (omega (arith, l, b, n)))
  ending-Ended (offer x w ∷ es) p h r fits n =
      waiting-Ended p (offer x w) es refl h r fits (omega arith) (ending-Ended es)
  ending-Ended (send i ∷ es) p h r fits n =
      waiting-Ended p (send i) es refl h r fits (omega arith) (ending-Ended es)
  ending-Ended (close ∷ es) p h r fits n =
      waiting-Ended p close es refl h r fits (omega arith) (ending-Ended es)
  ending-Ended (receive ∷ es) p h r fits n =
      waiting-Ended p receive es refl h r fits (omega arith) (ending-Ended es)
  ending-Ended (tick ∷ es) p h r fits n =
      waiting-Ended p tick es refl h r fits (omega arith) (ending-Ended es)
  ending-Ended (flush ∷ es) p h r fits n =
      waiting-Ended p flush es refl h r fits (omega arith) (ending-Ended es)
  ending-Ended (stop ∷ es) p h r fits n =
      waiting-Ended p stop es refl h r fits (omega arith) (ending-Ended es)

  -- If `run` takes the stop request in its select, with `stopped` set and no more than a full batch,
  -- then behind as many turns of its drain as the batch had room for, and one, whatever producers do
  -- between them, `run` has returned, and has exported the batch with items of the channel, in order
  -- and from the first on: as many as fill the batch, or at least all that the channel held.
  pub run-stop :
      (p : Processor A) (es : List (Event A))
      → p.stopped ≡ true
      → p.returned ≡ false
      → p.phase ≡ selecting
      → length p.batch ≤ p.limit
      → p.limit - length p.batch < turns es
      → Ended p (stop ∷ es)
  unfolding run accepted_all accepted
  run-stop p es s r h fits n =
      let d = ending-Ended es (record p { phase = ending }) refl r fits n in
      let e = stop-ending p s r h in
      record {
        over = ap (λ q. (run q es).returned) e ∙ d.over;
        extra = d.extra;
        left = d.left;
        all_exported = ap (λ q. joined (run q es).exported) e ∙ d.all_exported;
        at_most = d.at_most;
        at_least = d.at_least;
        from_channel = ap (λ q. p.queue ++ accepted_all q es) e ∙ d.from_channel;
      }
