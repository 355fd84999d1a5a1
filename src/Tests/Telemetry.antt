-- ===== src/Tests/Telemetry.antt =====
-- The batch processors at concrete inputs.
use repo_karta.Common.{ℕ, ◌≡◌, refl, arith, true, false, List, [], ◌∷◌, ◌++◌}
use repo_karta.Telemetry.Batch.{
  Event, Processor, close, drain_turn, end_drain, export, flush, in_drain, in_select, new_processor,
  offer, on_full, on_offer, on_receive, on_select, on_send, pick, receive, run, send, step, stop,
  tick, turn, while_running,
}
use repo_karta.Telemetry.Conservation.{accepted_all, joined, outputs, run-outputs}
use repo_karta.Telemetry.Limits.{IsSound, run-new-IsSound}
use repo_karta.Telemetry.Stop.{Ended, run-stop}

-- Four spans for a channel of three, in batches of two.
abbrev spans : List (Event ℕ)
spans =
    offer 1 true
    ∷ send 0
    ∷ offer 2 true
    ∷ offer 3 false
    ∷ send 0
    ∷ offer 4 true
    ∷ send 0
    ∷ offer 5 true
    ∷ send 0
    ∷ []

abbrev filled : Processor ℕ
unfolding run new_processor step on_offer on_send on_select pick
filled = run (new_processor 3 2) spans

filled-queue : (filled.queue ≡ 1 ∷ 2 ∷ 4 ∷ []) × (filled.state.dropped_items ≡ 1)
unfolding filled
filled-queue = (refl, refl)

-- A flush and a tick, each with the turns of its drain.
abbrev two_drains : List (Event ℕ)
two_drains = receive ∷ flush ∷ turn ∷ turn ∷ tick ∷ turn ∷ turn ∷ []

run-flushed : (run filled two_drains).exported ≡ (1 ∷ 2 ∷ []) ∷ (4 ∷ []) ∷ []
unfolding filled run new_processor step on_offer on_send on_select pick while_running on_receive
    on_full export drain_turn end_drain in_select in_drain
run-flushed = refl

run-outputs_example :
    outputs (run filled two_drains) ≡ outputs filled ++ accepted_all filled two_drains
run-outputs_example = run-outputs filled two_drains

run-new-IsSound_example : IsSound (run (new_processor 3 2) spans)
run-new-IsSound_example = run-new-IsSound 3 2 spans (omega arith)

-- After `Shutdown` has been called, one of the three queued spans is never exported.
abbrev closed : Processor ℕ
unfolding filled step
closed = step filled close

-- The turns of the drain behind the stop, with a tick that comes too late.
abbrev three_turns : List (Event ℕ)
three_turns = turn ∷ tick ∷ turn ∷ turn ∷ []

run-stop_example : Ended closed (stop ∷ three_turns)
unfolding closed filled run new_processor step on_offer on_send on_select pick
run-stop_example = run-stop closed three_turns refl refl refl (omega arith) (omega arith)

shutdown-loses :
    (joined (run closed (stop ∷ three_turns)).exported ≡ 1 ∷ 2 ∷ [])
    × ((run closed (stop ∷ three_turns)).queue ≡ 4 ∷ [])
unfolding closed filled run new_processor step on_offer on_send on_select pick while_running
    on_receive on_full export drain_turn end_drain in_select in_drain
shutdown-loses = (refl, refl)
