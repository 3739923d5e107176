-- ===== src/Scheduler.antt =====
-- scheduler/base.py and request.py: what a scheduling policy is asked, what it may read of the
-- cluster, and what it answers. The parts of the policies that are the same code in each are here. A
-- node id is a number, in the order of the strings.
pub mod RoundRobin
pub mod LeastLoaded
pub mod PrefixGreedy
pub mod E2
pub mod Conductor
pub mod Policy
pub mod Queries
pub mod Optimal
pub mod BestHit
pub mod BestScore
pub mod Rotation
pub mod Decisions
pub mod Building
pub mod Requests
mod Tests
use nano_kvrouter.Prelude.{
  ℕ, zero, suc, ◌+◌, ◌*◌, Bool, true, false, Option, none, some, List, [], ◌∷◌, length,
  if◌then◌else◌, ltb, Result, ok, raise, Error, key_error, Exec, next, return_value, then_do,
}
use nano_kvrouter.Prelude.Dict.{Dict, get, get_or}
use nano_kvrouter.Prelude.Float.{Float, max2}
use nano_kvrouter.Prelude.Choice.{min_by}
use nano_kvrouter.Prelude.Keys.{pair_lt}
use nano_kvrouter.Pool.{Tier}
use nano_kvrouter.Node.{Node}
use nano_kvrouter.Node.Batch.{LatencyModel, estimate_decode_time, current_load}
use nano_kvrouter.Node.Estimates.{estimate_prefill_time, queue_wait_time}
use nano_kvrouter.Transfer.{Backlog}
use nano_kvrouter.Manager.Lookup.{CacheLookup, no_hit}

pub data RejectReason : Type 0 where
  no_nodes_available ttft_slo_exceeded tbt_slo_exceeded : RejectReason

module _ (F : Float) where
  open F use {Num, of_nat, leq, plus, minus, times, over}

  pub record Request : Type 0 where
    pub request_id : ℕ
    pub token_ids : List ℕ
    pub prefix_hash : ℕ
    pub expected_output_len : ℕ
    pub arrival_time : Num
    pub slo_ttft : Num
    pub slo_tbt : Num
    pub priority : ℕ

  -- The configuration that `make_request` reads: `workload.avg_output_len`, `model.block_size` and
  -- the two targets of `slo`.
  pub record RequestDefaults : Type 0 where
    pub avg_output_len : ℕ
    pub block_size : ℕ
    pub ttft_target_ms : Num
    pub tbt_target_ms : Num

  -- A `MockEngineNode` with its id and the latencies of its configuration.
  pub record PoolNode : Type 0 where
    pub node_id : ℕ
    pub latency : LatencyModel F
    pub node : Node

  pub record SchedulingDecision : Type 0 where
    pub prefill_node : Option ℕ
    pub decode_node : Option ℕ
    pub estimated_ttft_ms : Num
    pub estimated_tbt_ms : Num
    pub reject_reason : Option RejectReason

  unfoldable pub is_rejected : SchedulingDecision → Bool
  is_rejected d = elim (d.prefill_node) [ none ↦ true | some _ ↦ false ]

  -- `CacheQuery`: a lookup stamps what it passes, so each call returns the state of the cache too.
  pub record CacheQuery : Type 1 where
    pub State : Type 0
    pub lookup : Request → ℕ → Exec State (CacheLookup F)
    pub lookup_all : Request → State → Dict (CacheLookup F) × State
    pub free_blocks : ℕ → Tier → State → Result ℕ

  -- `ModelConfig` and `BandwidthConfig`, as far as the policies read them
  pub record Settings : Type 0 where
    pub kv_bytes_per_token : ℕ
    pub block_size : ℕ
    pub prefill_cost_per_token_ms : Num
    pub gpu_to_gpu : Num

  -- What every policy has of its caller: the settings, what `peek_backlog` answers, and the time.
  pub record Setting : Type 0 where
    pub settings : Settings
    pub backlog : ℕ → Backlog F
    pub now : Num

  -- the time until a lane is free
  unfoldable pub lane_wait : Num → Num → Num
  unfolding max2
  lane_wait now free_at = max2 F (of_nat 0) (minus free_at now)

  -- the transfer itself, and the wait for both lanes
  unfoldable pub kv_transfer : Setting → ℕ → ℕ → ℕ → Num
  unfolding lane_wait
  kv_transfer c prompt_len src dst =
      plus
        (times (over (of_nat (prompt_len * c.settings.kv_bytes_per_token)) c.settings.gpu_to_gpu)
          (of_nat 1000))
        (max2 F (lane_wait c.now (c.backlog src).egress) (lane_wait c.now (c.backlog dst).ingress))

  unfoldable pub compute_est_ttft : Setting → PoolNode → PoolNode → Request → CacheLookup F → Num
  unfolding kv_transfer
  compute_est_ttft c p d r hit =
      let prompt_len = length r.token_ids in
      let prefill_phase =
        estimate_prefill_time F p.latency p.node.chunk_size prompt_len hit.matched_tokens
          (some (length p.node.decoding + 1)) in
      let queue_wait =
        queue_wait_time F p.latency p.node (some prompt_len) (some r.expected_output_len) in
      let first_decode_tick = estimate_decode_time F d.latency (length d.node.decoding + 1) in
      plus
        (plus (plus (plus prefill_phase queue_wait) (kv_transfer c prompt_len p.node_id d.node_id))
          hit.transfer_cost_ms)
        first_decode_tick

  unfoldable pub compute_est_tbt : PoolNode → Num
  compute_est_tbt d = estimate_decode_time F d.latency (length d.node.decoding + 1)

  -- The answer to a request where a pool has no node.
  abbrev pub no_nodes : SchedulingDecision
  no_nodes = record {
    prefill_node = none;
    decode_node = none;
    estimated_ttft_ms = of_nat 0;
    estimated_tbt_ms = of_nat 0;
    reject_reason = some no_nodes_available;
  }

  -- The answer with both nodes and both estimates.
  unfoldable pub place :
      Setting → PoolNode → PoolNode → Request → CacheLookup F → SchedulingDecision
  unfolding compute_est_ttft compute_est_tbt
  place c p d r hit = record {
    prefill_node = some p.node_id;
    decode_node = some d.node_id;
    estimated_ttft_ms = compute_est_ttft c p d r hit;
    estimated_tbt_ms = compute_est_tbt d;
    reject_reason = none;
  }

  -- min(nodes, key=lambda n: (n.current_load(), n.node_id)), for the nodes n ∷ ns
  unfoldable pub load_key : PoolNode → Num × ℕ
  load_key n = (current_load F n.node, n.node_id)

  unfoldable pub least_loaded : PoolNode → List PoolNode → PoolNode
  unfolding load_key min_by pair_lt
  least_loaded n ns = min_by (λ a b. pair_lt F (load_key a) (load_key b)) n ns

  -- `cache.lookup`, with no hit in place of a `KeyError`
  unfoldable pub caught : {S : Type 0} → Result (CacheLookup F) × S → Result (CacheLookup F) × S
  caught (raise key_error, s) = (ok (no_hit F), s)
  caught (x, s) = (x, s)

  unfoldable pub hit_of : (q : CacheQuery) → Request → PoolNode → Exec q.State (CacheLookup F)
  unfolding caught
  hit_of q r d s = caught (q.lookup r d.node_id s)

  -- lookups.get(node_id, CacheLookup(0, {}, 0.0))
  unfoldable pub hit_in : Dict (CacheLookup F) → PoolNode → CacheLookup F
  unfolding get_or no_hit
  hit_in lookups d = get_or lookups d.node_id (no_hit F)
