-- ===== src/Scheduler/Conductor.antt =====
-- scheduler/conductor.py: `MooncakeConductor`.
use nano_kvrouter.Prelude.{
  ℕ, ◌||◌, none, some, List, [], ◌∷◌, length, if◌then◌else◌, Result, ok, raise, value_error, Exec,
}
use nano_kvrouter.Prelude.Dict.{Dict}
use nano_kvrouter.Prelude.Float.{Float, less}
use nano_kvrouter.Prelude.Choice.{min_by}
use nano_kvrouter.Prelude.Keys.{pair_gt}
use nano_kvrouter.Node.Batch.{current_load}
use nano_kvrouter.Node.Estimates.{queue_wait_time}
use nano_kvrouter.Manager.Lookup.{CacheLookup}
use nano_kvrouter.Scheduler.{
  Request, PoolNode, SchedulingDecision, CacheQuery, Setting, no_nodes, place, least_loaded, hit_in,
  ttft_slo_exceeded, tbt_slo_exceeded,
}

module _ (F : Float) where
  open F use {Num, of_nat, leq, plus, minus, times, over}

  pub record Weights : Type 0 where
    pub alpha : Num
    pub beta : Num
    pub gamma : Num

  unfoldable pub create : Weights → Result Weights
  unfolding less
  create w =
      if less F w.alpha (of_nat 0) || less F w.beta (of_nat 0) || less F w.gamma (of_nat 0)
      then raise value_error
      else ok w

  unfoldable pub load_penalty : Setting F → Request F → PoolNode F → Num
  unfolding queue_wait_time
  load_penalty c r d =
      let prompt_len = length r.token_ids in
      plus
        (times (times (current_load F d.node) (of_nat prompt_len))
          c.settings.prefill_cost_per_token_ms)
        (queue_wait_time F d.latency d.node (some prompt_len) (some r.expected_output_len))

  unfoldable pub score : Weights → Setting F → Request F → Dict (CacheLookup F) → PoolNode F → Num
  unfolding load_penalty hit_in
  score w c r lookups d =
      let hit = hit_in F lookups d in
      let cache_benefit = times (of_nat hit.matched_tokens) c.settings.prefill_cost_per_token_ms in
      minus (minus (times w.alpha cache_benefit) (times w.beta (load_penalty c r d)))
        (times w.gamma hit.transfer_cost_ms)

  -- min(decode_nodes, key=score_key), for the nodes d ∷ ds: the keys are (-score, node_id)
  unfoldable pub best :
      Weights
      → Setting F
      → Request F
      → Dict (CacheLookup F)
      → PoolNode F
      → List (PoolNode F)
      → PoolNode F
  unfolding score min_by pair_gt
  best w c r lookups d ds =
      let key : PoolNode F → Num × ℕ = λ n. (score w c r lookups n, n.node_id) in
      min_by (λ a b. pair_gt F (key a) (key b)) d ds

  -- the two early rejections
  unfoldable pub gate : Request F → SchedulingDecision F → SchedulingDecision F
  unfolding less
  gate r d =
      if less F r.slo_ttft d.estimated_ttft_ms
      then record d {
        prefill_node = none;
        decode_node = none;
        reject_reason = some ttft_slo_exceeded;
      }
      else (if less F r.slo_tbt d.estimated_tbt_ms
          then record d {
            prefill_node = none;
            decode_node = none;
            reject_reason = some tbt_slo_exceeded;
          }
          else d)

  unfoldable pub schedule :
      (q : CacheQuery F)
      → Weights
      → Setting F
      → Request F
      → List (PoolNode F)
      → List (PoolNode F)
      → Exec q.State (SchedulingDecision F)
  unfolding best gate least_loaded hit_in place
  schedule q w c r [] ds s = (ok (no_nodes F), s)
  schedule q w c r ps [] s = (ok (no_nodes F), s)
  schedule q w c r (p ∷ ps) (d ∷ ds) s =
      let (lookups, s2) = q.lookup_all r s in
      let prefill = least_loaded F p ps in
      let decode = best w c r lookups d ds in
      (ok (gate r (place F c prefill decode r (hit_in F lookups decode))), s2)
