-- ===== src/Telemetry/Delivery.antt =====
-- `deliveryState` of internal/telemetry/status.go, as far as the processors change it.
use Prim.Native.Nat.{◌^◌}
use repo_karta.Common.{ℕ, ◌+◌, ◌-◌, ◌%◌}

-- `queueDepth` and `droppedItems`.
pub record Delivery : Type 0 where
  pub queue_depth : ℕ
  pub dropped_items : ℕ

-- `state.queued(1)`
abbrev pub queued_more : Delivery → Delivery
queued_more d = record d { queue_depth = d.queue_depth + 1 }

-- `state.queued(-1)`: a depth below 0 becomes 0, as subtraction does here.
abbrev pub queued_less : Delivery → Delivery
queued_less d = record d { queue_depth = d.queue_depth - 1 }

-- `state.dropped(count)`, on a uint64
abbrev pub dropped : ℕ → Delivery → Delivery
dropped count d = record d { dropped_items = (d.dropped_items + count) % 2 ^ 64 }
