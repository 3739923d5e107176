-- ===== src/Scheduler/Tests.antt =====
-- Two prefill nodes and two decode nodes, one of them busy, and every policy on them.
use nano_kvrouter.Prelude.{
  ℕ, ◌≡◌, refl, ◌⊎◌, true, not, none, some, Option, List, [], ◌∷◌, Mem, ok, raise, value_error,
}
use nano_kvrouter.Prelude.Sets.{mem}
use nano_kvrouter.Prelude.Float.{units, units-IsOrdered}
use nano_kvrouter.Node.{init, admit}
use nano_kvrouter.Node.Batch.{LatencyModel}
use nano_kvrouter.Transfer.{noop_backlog}
use nano_kvrouter.Manager.Lookup.{CacheLookup, Costs}
use nano_kvrouter.Manager.{Manager}
use nano_kvrouter.Manager
use nano_kvrouter.Prelude.Dict.{has, get, put}
use nano_kvrouter.Scheduler.{
  Request, PoolNode, SchedulingDecision, CacheQuery, Setting, place, hit_in, is_rejected,
}
use nano_kvrouter.Scheduler.Queries.{null_query, Serves, null-Serves, manager_query, manager-Serves}
use nano_kvrouter.Scheduler.Optimal.{IsLeastLoaded, schedule-IsLeastLoaded}
use nano_kvrouter.Scheduler.BestHit.{IsBestHit, prefix_greedy_chooses}
use nano_kvrouter.Scheduler.BestScore.{
  IsLeast, IsGreatest, e2_score, meets_slo, e2_chooses, conductor_chooses, conductor_admits,
}
use nano_kvrouter.Scheduler.Rotation.{prefills, prefills_reach}
use nano_kvrouter.Scheduler.Decisions.{IsDecision, schedule-IsDecision}
use nano_kvrouter.Scheduler.Building.{IsInRange, build_scheduler_answers}
use nano_kvrouter.Scheduler.Policy.{Policy, scoring, schedule, Params, conductor, build_scheduler}
use nano_kvrouter.Scheduler.RoundRobin
use nano_kvrouter.Scheduler.LeastLoaded
use nano_kvrouter.Scheduler.PrefixGreedy
use nano_kvrouter.Scheduler.E2
use nano_kvrouter.Scheduler.Conductor

abbrev latency : LatencyModel units
latency = record { prefill_cost_per_token = 1; decode_base = 10; marginal_decode = 2 }

abbrev idle : ℕ → PoolNode units
idle i = record { node_id = i; latency = latency; node = init 2 4 }

abbrev busy : ℕ → PoolNode units
busy i = record { node_id = i; latency = latency; node = (admit 9 3 (some 5) none (init 2 4)).1 }

abbrev ps : List (PoolNode units)
ps = idle 1 ∷ []

abbrev ds : List (PoolNode units)
ds = idle 3 ∷ []

abbrev setting : Setting units
setting = record {
  settings = record {
    kv_bytes_per_token = 8;
    block_size = 2;
    prefill_cost_per_token_ms = 1;
    gpu_to_gpu = 100;
  };
  backlog = noop_backlog units;
  now = 5;
}

abbrev request : Request units
request = record {
  request_id = 4;
  token_ids = 7 ∷ 8 ∷ 9 ∷ [];
  prefix_hash = 0;
  expected_output_len = 2;
  arrival_time = 5;
  slo_ttft = 500;
  slo_tbt = 11;
  priority = 0;
}

abbrev query : CacheQuery units
query = null_query units (2 ∷ 3 ∷ []) 6

serves : Serves units query request (busy 2 ∷ ds) tt
unfolding mem
serves = null-Serves units (2 ∷ 3 ∷ []) 6 request (busy 2 ∷ ds) (refl, (refl, tt))

schedule-IsLeastLoaded_example :
    (prefill decode : PoolNode units) × (hit : CacheLookup units) × ((LeastLoaded.schedule units
        query setting request
        (busy 0 ∷ ps)
        (busy 2 ∷ ds)
        tt).0
      ≡ ok (place units setting prefill decode request hit))
    × IsLeastLoaded units prefill (busy 0 ∷ ps)
    × IsLeastLoaded units decode (busy 2 ∷ ds)
schedule-IsLeastLoaded_example =
    schedule-IsLeastLoaded units units-IsOrdered query setting request (busy 0) (busy 2) ps ds tt
      serves

prefix_greedy_chooses_example :
    (prefill decode : PoolNode units) × ((PrefixGreedy.schedule units query 0 setting request
        (busy 0 ∷ ps)
        (busy 2 ∷ ds)
        tt).0
      ≡ ok (
          place units setting prefill decode request
            (hit_in units (query.lookup_all request tt).0 decode)))
    × IsLeastLoaded units prefill (busy 0 ∷ ps)
    × (((PrefixGreedy.use_fallback units 0 3
              (PrefixGreedy.max_hit units (query.lookup_all request tt).0 (busy 2) ds)
            ≡ true)
          × IsLeastLoaded units decode (busy 2 ∷ ds))
        ⊎ IsBestHit units (query.lookup_all request tt).0 decode (busy 2 ∷ ds))
prefix_greedy_chooses_example =
    prefix_greedy_chooses units units-IsOrdered query 0 setting request (busy 0) (busy 2) ps ds tt

abbrev e2_weights : E2.Weights units
e2_weights = record { w_historical = 1; w_eviction = 1; w_run = 1 }

e2_chooses_example :
    (prefill decode : PoolNode units) × ((E2.schedule units query e2_weights setting request
        (busy 0 ∷ ps)
        (busy 2 ∷ ds)
        tt).0
      ≡ ok (
          place units setting prefill decode request
            (hit_in units (query.lookup_all request tt).0 decode)))
    × IsLeastLoaded units prefill (busy 0 ∷ ps)
    × IsLeast units
        (λ n. (e2_score units query e2_weights setting request tt prefill n, n.node_id))
        decode
        (busy 2 ∷ ds)
e2_chooses_example =
    e2_chooses units units-IsOrdered query e2_weights setting request (busy 0) (busy 2) ps ds tt
      serves

abbrev weights : Conductor.Weights units
weights = record { alpha = 1; beta = 1; gamma = 1 }

conductor_chooses_example :
    (prefill decode : PoolNode units) × ((Conductor.schedule units query weights setting request
        (busy 0 ∷ ps)
        (busy 2 ∷ ds)
        tt).0
      ≡ ok (
          Conductor.gate units request (
            place units setting prefill decode request
              (hit_in units (query.lookup_all request tt).0 decode))))
    × IsLeastLoaded units prefill (busy 0 ∷ ps)
    × IsGreatest units
        (λ n. (
          Conductor.score units weights setting request (query.lookup_all request tt).0 n,
          n.node_id,
        ))
        decode
        (busy 2 ∷ ds)
conductor_chooses_example =
    conductor_chooses units units-IsOrdered query weights setting request (busy 0) (busy 2) ps ds tt

-- the target for the time between tokens is too small
conductor_admits_example :
    (decision : SchedulingDecision units) × ((Conductor.schedule units query weights setting request
        (busy 0 ∷ ps)
        (busy 2 ∷ ds)
        tt).0
      ≡ ok decision)
    × (is_rejected units decision ≡ not (meets_slo units request decision))
conductor_admits_example =
    conductor_admits units query weights setting request (busy 0) (busy 2) ps ds tt

prefills_reach_example :
    (ids : List (Option ℕ)) × (prefills units query setting
        (busy 0 ∷ ps)
        (busy 2 ∷ ds)
        (request ∷ request ∷ [])
        (RoundRobin.init, tt)
      ≡ ok ids)
    × Mem (some 1) ids
prefills_reach_example =
    prefills_reach units query setting (busy 0) (busy 2) (idle 1) ps ds (request ∷ request ∷ [])
      RoundRobin.init tt 1 (λ r i s. (null-Serves units (2 ∷ 3 ∷ []) 6 r [] tt).hit i) refl refl

schedule-IsDecision_example :
    (a : SchedulingDecision units) × ((schedule units query setting request
        (busy 0 ∷ ps)
        (busy 2 ∷ ds)
        (scoring e2_weights, tt)).0
      ≡ ok a)
    × IsDecision units (busy 0 ∷ ps) (busy 2 ∷ ds) a
schedule-IsDecision_example =
    schedule-IsDecision units units-IsOrdered query setting request (scoring e2_weights)
      (busy 0 ∷ ps) (busy 2 ∷ ds) tt serves

abbrev params : Params units
params = record {
  min_hit_ratio = none;
  w_historical = none;
  w_eviction = none;
  w_run = none;
  alpha = some 2;
  beta = none;
  gamma = none;
}

build_scheduler_answers_example :
    (build_scheduler units conductor params ≡ raise value_error)
    ⊎ ((policy : Policy units) × (build_scheduler units conductor params ≡ ok policy)
        × IsInRange units policy)
build_scheduler_answers_example = build_scheduler_answers units conductor params

abbrev costs : Costs units
costs = record { kv_bytes_per_token = 3; gpu_to_gpu = 5; gpu_to_cpu = 4; cpu_to_disk = 2 }

abbrev cluster : Manager ℕ
cluster = Manager.init 2 3 1 1 (2 ∷ 3 ∷ [])

manager-Serves_example : Serves units (manager_query units costs 5) request (busy 2 ∷ ds) cluster
unfolding has get put Manager.init
manager-Serves_example =
    manager-Serves units costs 5 request (busy 2 ∷ ds) cluster (refl, (refl, tt))
