-- ===== src/Telemetry/Batch.antt =====
-- The processors of internal/telemetry/batch.go. `traceBatchProcessor` and `logBatchProcessor`
-- have the same methods over another type of items, so the model takes the type as a parameter.
-- A step is what one goroutine does between two points where another can change what it reads: a
-- producer's check of `stopped` with its `queued(1)`, its send with what follows, each case of the
-- `select` in `run` up to its `drain`, and each turn of `drain`. The exporter is the list of the batches that were handed to it.
use repo_karta.Common.{
  ℕ, zero, suc, Bool, true, false, not, ◌||◌, Option, none, some, List, [], ◌∷◌, ◌++◌, length, ltb,
  leb, if◌then◌else◌,
}
use repo_karta.Telemetry.Delivery.{Delivery, queued_more, queued_less, dropped}

-- Where `run` is: in its select, in the drain of a tick or a flush, or in that of a stop.
pub data Phase : Type 0 where
  selecting draining ending : Phase

-- `capacity` is that of the channel, `limit` the field `batch`. A producer that has passed its
-- check stands in `sending` until its select.
pub record Processor (A : Type 0) : Type 0 where
  pub capacity : ℕ
  pub limit : ℕ
  pub stopped : Bool
  pub returned : Bool
  pub phase : Phase
  pub state : Delivery
  pub sending : List A
  pub queue : List A
  pub batch : List A
  pub exported : List (List A)

pub data Event (A : Type 0) : Type 0 where
  -- OnEnd or OnEmit up to the select, with whether the item is sampled, or is there
  offer : A → Bool → Event A
  -- the select of the producer that came first, second, …
  send : ℕ → Event A
  -- Shutdown up to its request
  close : Event A
  -- the cases of the select in `run`
  receive : Event A
  tick : Event A
  flush : Event A
  stop : Event A
  -- a turn of the loop of `drain`, or its end with what follows
  turn : Event A

-- The items but the one at an index, and that one.
unfoldable pub pick {ℓ} : {A : Type ℓ} → ℕ → List A → Option (A × List A)
pick i [] = none
pick zero (x ∷ xs) = some (x, xs)
pick (suc i) (x ∷ xs) = elim (pick i xs) [ none ↦ none | some (y, ys) ↦ some (y, x ∷ ys) ]

module _ {A : Type 0} where
  -- `OnEnd` (`OnEmit`) up to its select.
  unfoldable pub on_offer : Processor A → A → Bool → Processor A
  on_offer p x wanted =
      if p.stopped || not wanted
      then p
      else record p { state = queued_more p.state; sending = p.sending ++ x ∷ [] }

  -- Its select: the channel takes the item, or the item is dropped.
  unfoldable pub on_select : Processor A → A → List A → Processor A
  on_select p x others =
      if ltb (length p.queue) p.capacity
      then record p { sending = others; queue = p.queue ++ x ∷ [] }
      else record p { sending = others; state = dropped 1 (queued_less p.state) }

  unfoldable pub on_send : Processor A → Option (A × List A) → Processor A
  on_send p none = p
  on_send p (some (x, others)) = on_select p x others

  -- The closure `export`.
  unfoldable pub export : Processor A → List A → Processor A
  export p [] = record p { batch = [] }
  export p (x ∷ xs) = record p { exported = p.exported ++ (x ∷ xs) ∷ []; batch = [] }

  -- Behind `drain()`: `export(ctx)`, and the return of `run` behind a stop request.
  unfoldable pub end_drain : Processor A → Phase → Processor A
  unfolding export
  end_drain p selecting = p
  end_drain p draining = record (export p p.batch) { phase = selecting }
  end_drain p ending = record (export p p.batch) { phase = selecting; returned = true }

  -- One turn of the loop in the closure `drain`, on the items of the channel, or its end.
  unfoldable pub drain_turn : Processor A → List A → Processor A
  drain_turn p [] = end_drain p p.phase
  drain_turn p (x ∷ queue) =
      if ltb (length p.batch) p.limit
      then record p { state = queued_less p.state; batch = p.batch ++ x ∷ []; queue = queue }
      else end_drain p p.phase

  -- `batch = append(batch, span)`, and the export of a full batch.
  unfoldable pub on_full : Processor A → Processor A
  on_full p = if leb p.limit (length p.batch) then export p p.batch else p

  -- `case span := <-processor.queue`
  unfoldable pub on_receive : Processor A → List A → Processor A
  on_receive p [] = p
  on_receive p (x ∷ queue) =
      on_full (record p { state = queued_less p.state; queue = queue; batch = p.batch ++ x ∷ [] })

  -- A case of the select in `run`, while `run` has not returned.
  unfoldable pub while_running : Processor A → Processor A → Processor A
  while_running p next = if p.returned then p else next

  -- A case of the select, where `run` waits in it; a turn of `drain`, where `run` does not.
  unfoldable pub in_select : Phase → Processor A → Processor A → Processor A
  in_select selecting p next = next
  in_select draining p next = p
  in_select ending p next = p

  unfoldable pub in_drain : Phase → Processor A → Processor A → Processor A
  in_drain selecting p next = p
  in_drain draining p next = next
  in_drain ending p next = next

  -- One step of a producer, of `Shutdown` or of `run`. `run` sees a stop request after `stopped`.
  unfoldable pub step : Processor A → Event A → Processor A
  step p (offer x wanted) = on_offer p x wanted
  step p (send i) = on_send p (pick i p.sending)
  step p close = record p { stopped = true }
  step p receive = while_running p (in_select p.phase p (on_receive p p.queue))
  step p tick = while_running p (in_select p.phase p (record p { phase = draining }))
  step p flush = while_running p (in_select p.phase p (record p { phase = draining }))
  step p stop =
      while_running p (in_select p.phase p (if p.stopped then record p { phase = ending } else p))
  step p turn = while_running p (in_drain p.phase p (drain_turn p p.queue))

  unfoldable pub run : Processor A → List (Event A) → Processor A
  run p [] = p
  run p (e ∷ es) = run (step p e) es

  -- `newTraceBatchProcessor`
  unfoldable pub new_processor : ℕ → ℕ → Processor A
  new_processor capacity limit = record {
    capacity = capacity;
    limit = limit;
    stopped = false;
    returned = false;
    phase = selecting;
    state = record { queue_depth = 0; dropped_items = 0 };
    sending = [];
    queue = [];
    batch = [];
    exported = [];
  }
