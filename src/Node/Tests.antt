-- ===== src/Node/Tests.antt =====
-- A node with one slot, a request that runs to its end, and one that waits for it.
use nano_kvrouter.Prelude.{arith, ◌≡◌, refl, true, leb, ok, none, some, List, [], ◌∷◌}
use nano_kvrouter.Prelude.Float.{units}
use nano_kvrouter.Node.{Node, init, admit, has_slot}
use nano_kvrouter.Prelude.Sets.{mem}
use nano_kvrouter.Node.Estimates.{queue_wait_time, remaining_lifecycle_ms}
use nano_kvrouter.Node.Waiting.{queue_wait_time-admit}
use nano_kvrouter.Node.Prefill.{ticks, only_prefill, ticks_end}
use nano_kvrouter.Prelude.Float.{units-IsOrdered}
use nano_kvrouter.Node.Batch.{LatencyModel}
use nano_kvrouter.Node.Slots.{IsServing}
use nano_kvrouter.Node.Steps.{
  Call, admit_call, enter_prefill_call, tick_call, start_decode_call, complete_call, run_calls,
  run_calls-IsServing,
}

abbrev latency : LatencyModel units
latency = record { prefill_cost_per_token = 1; decode_base = 10; marginal_decode = 2 }

abbrev calls : List (Call units)
calls =
    admit_call 0 1 (some 6) none
    ∷ admit_call 1 1 none none
    ∷ enter_prefill_call 0 6
    ∷ tick_call latency 0
    ∷ tick_call latency 4
    ∷ start_decode_call 0
    ∷ tick_call latency 6
    ∷ complete_call 0
    ∷ []

run_calls-IsServing_example : IsServing (run_calls units calls (init 1 4))
run_calls-IsServing_example = run_calls-IsServing units 1 4 calls

abbrev busy : Node
busy = run_calls units (admit_call 0 5 (some 6) none ∷ []) (init 1 4)

queue_wait_time-admit_example :
    leb
      (queue_wait_time units latency busy (some 3) (some 2))
      (queue_wait_time units latency (admit 7 2 (some 3) none busy).1 (some 3) (some 2))
    ≡ true
unfolding has_slot run_calls admit init mem remaining_lifecycle_ms
queue_wait_time-admit_example =
    queue_wait_time-admit units units-IsOrdered latency busy 7 2 3 (some 3) none (some 2) refl refl
      refl refl

-- ten tokens in chunks of four
ticks_end_example :
    (ticks units 3 latency 0 (only_prefill 7 10 [] (init 1 4))).0 ≡ ok (none ∷ none ∷ some 7 ∷ [])
unfolding init
ticks_end_example = ticks_end units latency 2 7 10 [] 0 (init 1 4) (omega arith) (omega arith)
