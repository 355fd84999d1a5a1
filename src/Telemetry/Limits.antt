-- ===== src/Telemetry/Limits.antt =====
-- The bounds that the processors keep, and what the end of `run` leaves behind.
use repo_karta.Common.{
  ℕ, zero, suc, ◌+◌, ◌≤◌, ◌<◌, ◌≡◌, refl, sym, subst, ap, Bool, true, not, ◌||◌, some, List, [],
  ◌∷◌, ◌++◌, arith, length, length-append, All, All-append, ltb, leb, if_rule, inl, inr,
  Option-cases,
}
use repo_karta.Telemetry.Delivery.{queued_less}
use repo_karta.Telemetry.Batch.{
  Processor, Event, offer, send, close, receive, tick, flush, stop, turn, pick, Phase, selecting,
  draining, ending, end_drain, drain_turn, in_select, in_drain, on_offer, on_select, on_send,
  export, on_full, on_receive, while_running, step, run, new_processor,
}

-- In its select `run` has room in its batch, and else no more than a full batch.
abbrev pub HasRoom : Phase → ℕ → ℕ → Type 0
HasRoom selecting n limit = n < limit
HasRoom draining n limit = n ≤ limit
HasRoom ending n limit = n ≤ limit

HasRoom-le : (h : Phase) (n limit : ℕ) → HasRoom h n limit → n ≤ limit
HasRoom-le selecting n limit r = omega arith
HasRoom-le draining n limit r = r
HasRoom-le ending n limit r = r

HasRoom-lt : (h : Phase) (n limit : ℕ) → n < limit → HasRoom h n limit
HasRoom-lt selecting n limit r = r
HasRoom-lt draining n limit r = omega arith
HasRoom-lt ending n limit r = omega arith

module _ {A : Type 0} where
  -- A batch that was exported under a limit.
  abbrev pub IsBatch : ℕ → List A → Type 0
  IsBatch limit b = (0 < length b) × (length b ≤ limit)

  pub record IsSound (p : Processor A) : Type 0 where
    pub queue_fits : length p.queue ≤ p.capacity
    pub some_limit : 0 < p.limit
    pub batch_room : HasRoom p.phase (length p.batch) p.limit
    pub batches : All (IsBatch p.limit) p.exported
    pub depth_exact : p.state.queue_depth ≡ length p.queue + length p.sending

  length-pick :
      (i : ℕ) (xs : List A) (x : A) (ys : List A)
      → pick i xs ≡ some (x, ys)
      → length xs ≡ suc (length ys)
  unfolding pick
  length-pick i [] x ys e = cc
  length-pick zero (y ∷ xs) x ys e = ground arith
  length-pick (suc i) (y ∷ xs) x ys e = elim (Option-cases (pick i xs)) [
    | inl bad ↦ cc
    | inr ((z, zs), found) ↦ ground (arith, length-pick i xs z zs found)
  ]

  on_offer-IsSound : (p : Processor A) (x : A) (w : Bool) → IsSound p → IsSound (on_offer p x w)
  unfolding on_offer
  on_offer-IsSound p x w s =
      if_rule IsSound (p.stopped || not w) _ _ (λ _. s)
        (λ _. record {
          queue_fits = s.queue_fits;
          some_limit = s.some_limit;
          batch_room = s.batch_room;
          batches = s.batches;
          depth_exact = omega (arith, s.depth_exact, length-append p.sending (x ∷ []));
        })

  on_select-IsSound :
      (p : Processor A) (x : A) (others : List A)
      → length p.sending ≡ suc (length others)
      → IsSound p
      → IsSound (on_select p x others)
  unfolding on_select
  on_select-IsSound p x others e s =
      if_rule IsSound (ltb (length p.queue) p.capacity) _ _
        (λ room. record {
          queue_fits = ground (arith, length-append p.queue (x ∷ []));
          some_limit = s.some_limit;
          batch_room = s.batch_room;
          batches = s.batches;
          depth_exact = omega (arith, s.depth_exact, length-append p.queue (x ∷ []));
        })
        (λ _. record {
          queue_fits = s.queue_fits;
          some_limit = s.some_limit;
          batch_room = s.batch_room;
          batches = s.batches;
          depth_exact = omega (arith, s.depth_exact);
        })

  on_send-IsSound : (p : Processor A) (i : ℕ) → IsSound p → IsSound (on_send p (pick i p.sending))
  unfolding on_send
  on_send-IsSound p i s = elim (Option-cases (pick i p.sending)) [
    | inl gone ↦ rw gone s
    | inr ((x, others), found) ↦
        rw found (on_select-IsSound p x others (length-pick i p.sending x others found) s)
  ]

  -- The end of a batch, in any phase.
  export-IsSound :
      (p : Processor A) (b : List A) (h : Phase)
      → length p.queue ≤ p.capacity
      → 0 < p.limit
      → length b ≤ p.limit
      → All (IsBatch p.limit) p.exported
      → p.state.queue_depth ≡ length p.queue + length p.sending
      → IsSound (record (export p b) { phase = h })
  unfolding export
  export-IsSound p [] h q l f bs d = record {
    queue_fits = q;
    some_limit = l;
    batch_room = HasRoom-lt h 0 p.limit l;
    batches = bs;
    depth_exact = d;
  }
  export-IsSound p (x ∷ xs) h q l f bs d = record {
    queue_fits = q;
    some_limit = l;
    batch_room = HasRoom-lt h 0 p.limit l;
    batches = All-append (IsBatch p.limit) p.exported ((x ∷ xs) ∷ []) bs ((omega arith, f), tt);
    depth_exact = d;
  }

  -- The return of `run` is no part of what is sound.
  IsSound-returned : (p : Processor A) → IsSound p → IsSound (record p { returned = true })
  IsSound-returned p s = record {
    queue_fits = s.queue_fits;
    some_limit = s.some_limit;
    batch_room = s.batch_room;
    batches = s.batches;
    depth_exact = s.depth_exact;
  }

  end_drain-IsSound : (p : Processor A) (h : Phase) → IsSound p → IsSound (end_drain p h)
  unfolding end_drain
  end_drain-IsSound p selecting s = s
  end_drain-IsSound p draining s =
      export-IsSound p p.batch selecting s.queue_fits s.some_limit
        (HasRoom-le p.phase (length p.batch) p.limit s.batch_room) s.batches s.depth_exact
  end_drain-IsSound p ending s =
      IsSound-returned (record (export p p.batch) { phase = selecting })
        (export-IsSound p p.batch selecting s.queue_fits s.some_limit
          (HasRoom-le p.phase (length p.batch) p.limit s.batch_room) s.batches s.depth_exact)

  -- A turn of `drain`, where `run` is not in its select.
  drain_turn-IsSound :
      (p : Processor A) (q : List A)
      → ((n limit : ℕ) → n ≤ limit → HasRoom p.phase n limit)
      → p.queue ≡ q
      → IsSound p
      → IsSound (drain_turn p q)
  unfolding drain_turn
  drain_turn-IsSound p [] room e s = end_drain-IsSound p p.phase s
  drain_turn-IsSound p (x ∷ q) room e s =
      let counted : length p.queue ≡ suc (length q) = ap length e in
      let size = length-append p.batch (x ∷ []) in
      if_rule IsSound (ltb (length p.batch) p.limit) _ _
        (λ h. record {
          queue_fits = omega (arith, s.queue_fits);
          some_limit = s.some_limit;
          batch_room = room _ _ (ground arith);
          batches = s.batches;
          depth_exact = omega (arith, s.depth_exact);
        })
        (λ _. end_drain-IsSound p p.phase s)

  on_receive-IsSound :
      (p : Processor A) (q : List A)
      → length p.batch < p.limit
      → p.queue ≡ q
      → IsSound p
      → IsSound (on_receive p q)
  unfolding on_receive on_full
  on_receive-IsSound p [] room e s = s
  on_receive-IsSound p (x ∷ q) room e s =
      let b = p.batch ++ x ∷ [] in
      let next = record p { state = queued_less p.state; queue = q; batch = b } in
      let size = length-append p.batch (x ∷ []) in
      let counted : length p.queue ≡ suc (length q) = ap length e in
      if_rule IsSound (leb p.limit (length b)) (export next b) next
        (λ _.
          export-IsSound next b (export next b).phase (omega (arith, s.queue_fits)) s.some_limit
            (omega arith) s.batches (omega (arith, s.depth_exact)))
        (λ short. record {
          queue_fits = omega (arith, s.queue_fits);
          some_limit = s.some_limit;
          batch_room = HasRoom-lt p.phase (length b) p.limit (ground arith);
          batches = s.batches;
          depth_exact = omega (arith, s.depth_exact);
        })

  while_running-IsSound :
      (p next : Processor A) → IsSound p → IsSound next → IsSound (while_running p next)
  unfolding while_running
  while_running-IsSound p next s n = if_rule IsSound p.returned _ _ (λ _. s) (λ _. n)

  -- Another phase of `run` asks no more room than its select.
  IsSound-phase :
      (p : Processor A) (h : Phase)
      → length p.batch < p.limit
      → IsSound p
      → IsSound (record p { phase = h })
  IsSound-phase p h room s = record {
    queue_fits = s.queue_fits;
    some_limit = s.some_limit;
    batch_room = HasRoom-lt h (length p.batch) p.limit room;
    batches = s.batches;
    depth_exact = s.depth_exact;
  }

  in_select-IsSound :
      (p next : Processor A) (h : Phase)
      → p.phase ≡ h
      → IsSound p
      → (length p.batch < p.limit → IsSound next)
      → IsSound (in_select h p next)
  unfolding in_select
  in_select-IsSound p next selecting e s f =
      f (subst (λ h. HasRoom h (length p.batch) p.limit) e s.batch_room)
  in_select-IsSound p next draining e s f = s
  in_select-IsSound p next ending e s f = s

  in_drain-IsSound :
      (p : Processor A) (h : Phase)
      → p.phase ≡ h
      → IsSound p
      → IsSound (in_drain h p (drain_turn p p.queue))
  unfolding in_drain
  in_drain-IsSound p selecting e s = s
  in_drain-IsSound p draining e s =
      drain_turn-IsSound p p.queue (λ n limit l. subst (λ h. HasRoom h n limit) (sym e) l) refl s
  in_drain-IsSound p ending e s =
      drain_turn-IsSound p p.queue (λ n limit l. subst (λ h. HasRoom h n limit) (sym e) l) refl s

  step-IsSound : (p : Processor A) (e : Event A) → IsSound p → IsSound (step p e)
  unfolding step
  step-IsSound p (offer x w) s = on_offer-IsSound p x w s
  step-IsSound p (send i) s = on_send-IsSound p i s
  step-IsSound p close s = record {
    queue_fits = s.queue_fits;
    some_limit = s.some_limit;
    batch_room = s.batch_room;
    batches = s.batches;
    depth_exact = s.depth_exact;
  }
  step-IsSound p receive s =
      while_running-IsSound p _ s
        (in_select-IsSound p _ p.phase refl s (λ room. on_receive-IsSound p p.queue room refl s))
  step-IsSound p tick s =
      while_running-IsSound p _ s
        (in_select-IsSound p _ p.phase refl s (λ room. IsSound-phase p draining room s))
  step-IsSound p flush s =
      while_running-IsSound p _ s
        (in_select-IsSound p _ p.phase refl s (λ room. IsSound-phase p draining room s))
  step-IsSound p stop s = while_running-IsSound p _ s (
      in_select-IsSound p _ p.phase refl s
        (λ room. if_rule IsSound p.stopped _ _ (λ _. IsSound-phase p ending room s) (λ _. s)))
  step-IsSound p turn s = while_running-IsSound p _ s (in_drain-IsSound p p.phase refl s)

  run-IsSound : (p : Processor A) (es : List (Event A)) → IsSound p → IsSound (run p es)
  unfolding run
  run-IsSound p [] s = s
  run-IsSound p (e ∷ es) s = run-IsSound (step p e) es (step-IsSound p e s)

  -- From a new processor with a positive batch size, after any steps: the channel holds no more than
  -- its capacity, the waiting batch is below its limit while run waits in its select and not above it
  -- while run drains, every exported batch is neither empty nor over the limit, and the reported queue depth is the items in the channel and those being sent.
  pub run-new-IsSound :
      (capacity limit : ℕ) (es : List (Event A))
      → 0 < limit
      → IsSound (run (new_processor capacity limit) es)
  unfolding new_processor
  run-new-IsSound capacity limit es h = run-IsSound _ es (record {
    queue_fits = omega arith;
    some_limit = h;
    batch_room = h;
    batches = tt;
    depth_exact = omega arith;
  })
