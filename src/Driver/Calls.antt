-- ===== src/Driver/Calls.antt =====
-- What several handlers of `_wire_simulator` call: the cached tokens of a request, the chunks of its
-- prefill, and the wake-up of a node.
use nano_kvrouter.Prelude.{
  ℕ, ◌+◌, ◌-◌, ◌/◌, Bool, not, ◌&&◌, Option, none, some, length, if◌then◌else◌, ltb, ok, Exec, next,
  return_value, then_do,
}
use nano_kvrouter.Prelude.Float.{Float}
use nano_kvrouter.Node.{Node, admit, mark_batch_step_scheduled}
use nano_kvrouter.Node.Batch.{is_idle}
use nano_kvrouter.Manager.Lookup.{CacheLookup, Costs, lookup}
use nano_kvrouter.Scheduler.{Request, Settings, caught}
use nano_kvrouter.Engine.{prefill_start, decode_batch_step}
use nano_kvrouter.Driver.{
  prefill_begins, batch_step, Sim, the_time, schedule_at, schedule_now, node_at, on_node, on_cache,
}

module _ (F : Float) (uuid : ℕ → ℕ) (costs : Costs F) (settings : Settings F) where
  open F use {Num, of_nat, leq, plus, minus, times, over}

  -- `cm.lookup`
  unfoldable pub lookup_on : Request F → ℕ → Exec (Sim F) (CacheLookup F)
  unfolding on_cache lookup
  lookup_on r i = on_cache F (λ now. lookup F costs now r.token_ids i)

  -- the tokens that are not cached; a node that the cache does not know has none
  unfoldable pub uncached_after : Request F → CacheLookup F → ℕ
  uncached_after r hit = length r.token_ids - hit.matched_tokens

  unfoldable pub compute_uncached_tokens : Request F → Option ℕ → Exec (Sim F) ℕ
  unfolding lookup_on caught uncached_after
  compute_uncached_tokens r none sim = (ok (length r.token_ids), sim)
  compute_uncached_tokens r (some i) sim =
      next (λ hit. return_value (uncached_after r hit)) (caught F (lookup_on r i sim))

  unfoldable pub chunks_of : ℕ → ℕ → ℕ
  chunks_of uncached chunk_size =
      if ltb 0 uncached then (uncached + chunk_size - 1) / chunk_size else 0

  unfoldable pub compute_n_chunks : Request F → Option ℕ → ℕ → Exec (Sim F) ℕ
  unfolding compute_uncached_tokens chunks_of
  compute_n_chunks r decode chunk_size =
      then_do (compute_uncached_tokens r decode)
        (λ uncached. return_value (chunks_of uncached chunk_size))

  -- the node has work and no step is in flight
  unfoldable pub wants_step : Node → Bool
  unfolding is_idle
  wants_step n = not (is_idle n) && not n.step_in_flight

  unfoldable pub wake_at : ℕ → Num → Exec (Sim F) Unit
  unfolding node_at wants_step schedule_at on_node mark_batch_step_scheduled
  wake_at i time = then_do (node_at F i) (λ n.
      if wants_step n
      then then_do (schedule_at F time decode_batch_step (batch_step i))
          (λ _. on_node F i (λ _. mark_batch_step_scheduled))
      else return_value tt)

  unfoldable pub wake_batch_step : ℕ → Option Num → Exec (Sim F) Unit
  unfolding wake_at the_time
  wake_batch_step i none = then_do (the_time F) (λ now. wake_at i now)
  wake_batch_step i (some time) = wake_at i time

  -- PREFILL_START of a request that runs on the node
  unfoldable pub begin_prefill : Request F → ℕ → Option ℕ → Exec (Sim F) Unit
  unfolding node_at compute_n_chunks schedule_now
  begin_prefill r i decode = then_do (node_at F i) (λ n.
      then_do (compute_n_chunks r decode n.chunk_size)
        (λ n_chunks. schedule_now F prefill_start (prefill_begins r.request_id i r n_chunks)))

  -- `admit` of a node
  unfoldable pub admit_request : ℕ → Request F → ℕ → Exec Node Bool
  unfolding admit
  admit_request request r uncached n =
      let (is_running, n2) =
        admit request r.expected_output_len (some (length r.token_ids)) (some uncached) n in
      (ok is_running, n2)
