-- ===== src/Driver/Tests.antt =====
-- A prefill node and a decode node, and two requests that arrive at the same time.
use nano_kvrouter.Prelude.{ℕ, ◌≡◌, true, leb, [], ◌∷◌}
use nano_kvrouter.Prelude.Float.{units, units-IsOrdered}
use nano_kvrouter.Node.Batch.{LatencyModel}
use nano_kvrouter.Node.Slots.{init-IsServing}
use nano_kvrouter.Node
use nano_kvrouter.Manager.Lookup.{Costs}
use nano_kvrouter.Manager
use nano_kvrouter.Scheduler.{Request, PoolNode, Settings}
use nano_kvrouter.Scheduler.Policy.{loaded}
use nano_kvrouter.Engine.{Engine, request_arrive, init, now, run, schedule}
use nano_kvrouter.Engine.Runs.{IsSound, init-IsSound, schedule-IsSound}
use nano_kvrouter.Driver.{Payload, arrival, World, noop}
use nano_kvrouter.Driver.Simulation.{
  wired, AllServing, get-IsServing, simulation-IsSound, simulation-IsServing,
}

abbrev latency : LatencyModel units
latency = record { prefill_cost_per_token = 1; decode_base = 10; marginal_decode = 2 }

abbrev fresh : ℕ → PoolNode units
fresh i = record { node_id = i; latency = latency; node = Node.init 1 4 }

abbrev costs : Costs units
costs = record { kv_bytes_per_token = 8; gpu_to_gpu = 100; gpu_to_cpu = 4; cpu_to_disk = 2 }

abbrev settings : Settings units
settings = record {
  kv_bytes_per_token = 8;
  block_size = 2;
  prefill_cost_per_token_ms = 1;
  gpu_to_gpu = 100;
}

abbrev request : ℕ → Request units
request i = record {
  request_id = i;
  token_ids = 7 ∷ 8 ∷ 9 ∷ 9 ∷ 5 ∷ [];
  prefix_hash = 0;
  expected_output_len = 2;
  arrival_time = 5;
  slo_ttft = 500;
  slo_tbt = 11;
  priority = 0;
}

abbrev world : World units
world = record {
  nodes = (1, fresh 1) ∷ (3, fresh 3) ∷ [];
  prefill_ids = 1 ∷ [];
  decode_ids = 3 ∷ [];
  policy = loaded;
  cache = Manager.init 2 6 4 4 (3 ∷ []);
  transfers = noop;
  decisions = [];
  requests = [];
  pending = [];
  transfer_counter = [];
}

abbrev arrives : ℕ → Engine units (Payload units) → Engine units (Payload units)
arrives i s =
    (schedule units (Payload units)
      (record { time = 5; seq = 0; kind = request_arrive; payload = arrival (request i) }) s).1

abbrev start : Engine units (Payload units)
start = arrives 9 (arrives 8 (init units (Payload units)))

start-IsSound : IsSound units (Payload units) start
start-IsSound =
    schedule-IsSound units (Payload units) _ _
      (schedule-IsSound units (Payload units) _ _ (init-IsSound units (Payload units)))

world-AllServing : AllServing units world
world-AllServing = record {
  serving = get-IsServing units world.nodes (init-IsServing 1 4, (init-IsServing 1 4, tt));
}

simulation-IsSound_example :
    IsSound units
      (Payload units)
      (run units (Payload units) 50 (wired units (λ k. k) costs settings) (start, world)).1.0
    × (leb (now units (Payload units) start) (
          now units
            (Payload units)
            (run units (Payload units) 50 (wired units (λ k. k) costs settings) (start, world)).1.0)
        ≡ true)
simulation-IsSound_example =
    simulation-IsSound units (λ k. k) costs settings units-IsOrdered 50 start world start-IsSound

simulation-IsServing_example :
    AllServing units
      (run units (Payload units) 50 (wired units (λ k. k) costs settings) (start, world)).1.1
simulation-IsServing_example =
    simulation-IsServing units (λ k. k) costs settings 50 start world world-AllServing
