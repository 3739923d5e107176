-- ===== src/Scheduler/E2.antt =====
-- scheduler/e2_policy.py: `E2Policy`. The block size of the settings is positive, as its
-- configuration requires.
use nano_kvrouter.Prelude.{
  ℕ, ◌-◌, ◌*◌, ◌/◌, List, [], ◌∷◌, length, if◌then◌else◌, Result, ok, raise, value_error, ◌>>=◌,
  Exec,
}
use nano_kvrouter.Prelude.Dict.{Dict}
use nano_kvrouter.Prelude.Float.{Float, less}
use nano_kvrouter.Prelude.Choice.{min_by}
use nano_kvrouter.Prelude.Keys.{pair_lt}
use nano_kvrouter.Pool.{gpu}
use nano_kvrouter.Node.Batch.{current_load}
use nano_kvrouter.Manager.Lookup.{CacheLookup}
use nano_kvrouter.Scheduler.{
  Request, PoolNode, SchedulingDecision, CacheQuery, Setting, no_nodes, place, least_loaded, hit_in,
  compute_est_ttft,
}

module _ (F : Float) where
  open F use {Num, of_nat, leq, plus, minus, times, over}

  pub record Weights : Type 0 where
    pub w_historical : Num
    pub w_eviction : Num
    pub w_run : Num

  unfoldable pub create : Weights → Result Weights
  unfolding less
  create w =
      if less F w.w_historical (of_nat 0)
      then raise value_error
      else (if less F w.w_eviction (of_nat 0)
          then raise value_error
          else (if less F w.w_run (of_nat 0) then raise value_error else ok w))

  -- the tokens of the blocks that an admission on the node would have to evict
  unfoldable pub evict_tokens : Setting F → Request F → CacheLookup F → ℕ → ℕ
  evict_tokens c r hit free =
      let bs = c.settings.block_size in
      let new_blocks = length r.token_ids / bs - hit.matched_tokens / bs in (new_blocks - free) * bs

  unfoldable pub score :
      Weights → Setting F → Request F → PoolNode F → PoolNode F → CacheLookup F → ℕ → Num
  unfolding evict_tokens compute_est_ttft
  score w c r prefill decode hit free =
      let ppt = c.settings.prefill_cost_per_token_ms in
      let hist = times (times (current_load F decode.node) (of_nat (length r.token_ids))) ppt in
      let evict = times (of_nat (evict_tokens c r hit free)) ppt in
      let run = compute_est_ttft F c prefill decode r hit in
      plus (plus (times w.w_historical hist) (times w.w_eviction evict)) (times w.w_run run)

  -- A node with its score.
  pub record Scored : Type 0 where
    pub value : Num
    pub scored : PoolNode F

  unfoldable pub scored_key : Scored → Num × ℕ
  scored_key x = (x.value, x.scored.node_id)

  -- `_score` of every node
  unfoldable pub scores :
      (q : CacheQuery F)
      → Weights
      → Setting F
      → Request F
      → Dict (CacheLookup F)
      → q.State
      → PoolNode F
      → List (PoolNode F)
      → Result (List Scored)
  unfolding score hit_in
  scores q w c r lookups s prefill [] = ok []
  scores q w c r lookups s prefill (d ∷ ds) = q.free_blocks d.node_id gpu s >>= λ free.
      scores q w c r lookups s prefill ds >>= λ rest.
      ok (record { value = score w c r prefill d (hit_in F lookups d) free; scored = d } ∷ rest)

  unfoldable pub least_scored : List Scored → Result (PoolNode F)
  unfolding scored_key min_by pair_lt
  least_scored [] = raise value_error
  least_scored (x ∷ xs) = ok (min_by (λ a b. pair_lt F (scored_key a) (scored_key b)) x xs).scored

  unfoldable pub schedule :
      (q : CacheQuery F)
      → Weights
      → Setting F
      → Request F
      → List (PoolNode F)
      → List (PoolNode F)
      → Exec q.State (SchedulingDecision F)
  unfolding scores least_scored least_loaded hit_in place
  schedule q w c r [] ds s = (ok (no_nodes F), s)
  schedule q w c r ps [] s = (ok (no_nodes F), s)
  schedule q w c r (p ∷ ps) (d ∷ ds) s =
      let (lookups, s2) = q.lookup_all r s in
      let prefill = least_loaded F p ps in
      let chosen = scores q w c r lookups s2 prefill (d ∷ ds) >>= least_scored in
      (chosen >>= λ decode. ok (place F c prefill decode r (hit_in F lookups decode)), s2)
