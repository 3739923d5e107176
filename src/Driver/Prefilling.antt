-- ===== src/Driver/Prefilling.antt =====
-- The handlers of `_wire_simulator` up to the KV transfer: `on_arrive`, `on_prefill_start` and
-- `on_prefill_complete`. What they log is left out.
use nano_kvrouter.Prelude.{
  ℕ, zero, suc, ◌*◌, Option, none, some, length, if◌then◌else◌, raise, key_error, Exec,
  return_value, then_do,
}
use nano_kvrouter.Prelude.Dict.{get}
use nano_kvrouter.Prelude.Float.{Float}
use nano_kvrouter.Node.{init_promoted, enter_prefill, mark_prefill_done}
use nano_kvrouter.Node.Batch.{complete}
use nano_kvrouter.Transfer.{Window}
use nano_kvrouter.Manager.Lookup.{Costs}
use nano_kvrouter.Scheduler.{Request, SchedulingDecision, Settings, is_rejected}
use nano_kvrouter.Engine.{
  Handler, scheduled, prefill_complete, kv_transfer_start, kv_transfer_complete, request_rejected,
}
use nano_kvrouter.Driver.{
  by_policy, Transfer, Payload, arrival, rejection, placement, prefill_begins, prefill_ends,
  transfer_begins, transfer_ends, Pending, World, Sim, the_time, the_world, schedule_at,
  schedule_now, in_pool, on_node, remember, next_transfer_number, request_lanes, add_pending,
  decide, required, or_none,
}
use nano_kvrouter.Driver.Calls.{
  lookup_on, uncached_after, compute_uncached_tokens, wake_batch_step, begin_prefill, admit_request,
}

module _ (F : Float) (uuid : ℕ → ℕ) (costs : Costs F) (settings : Settings F) where
  open F use {Num, of_nat, leq, plus, minus, times, over}

  -- the part of `on_arrive` after a decision with both nodes
  unfoldable pub accept : Request F → SchedulingDecision F → ℕ → ℕ → Exec (Sim F) Unit
  unfolding lookup_on schedule_now remember in_pool on_node admit_request begin_prefill
      uncached_after
  accept r d prefill decode = then_do (lookup_on F uuid costs settings r decode) (λ hit.
      then_do (schedule_now F scheduled (placement r.request_id d hit)) (λ _.
        then_do (remember F r d) (λ _. then_do (the_world F) (λ w.
          then_do (in_pool F w.prefill_ids prefill) (λ _.
            then_do
              (on_node F prefill (λ _.
                admit_request F uuid costs settings r.request_id r
                  (uncached_after F uuid costs settings r hit)))
              (λ is_running.
                if is_running
                then begin_prefill F uuid costs settings r prefill d.decode_node
                else return_value tt))))))

  unfoldable pub on_arrive_payload : Payload F → Exec (Sim F) Unit
  unfolding decide is_rejected schedule_now required accept
  on_arrive_payload (arrival r) = then_do (decide F costs settings r) (λ d.
      if is_rejected F d
      then schedule_now F request_rejected (rejection r.request_id (by_policy d.reject_reason))
      else then_do (required F d.prefill_node)
          (λ prefill. then_do (required F d.decode_node) (λ decode. accept r d prefill decode)))
  on_arrive_payload _ = λ sim. (raise key_error, sim)

  unfoldable pub on_arrive : Handler F (Payload F) (World F)
  unfolding on_arrive_payload
  on_arrive e = on_arrive_payload e.payload

  -- the decode node of the decision, or the node itself where there is none
  unfoldable pub decode_of : Option (SchedulingDecision F) → ℕ → Option ℕ
  decode_of none i = some i
  decode_of (some d) i = d.decode_node

  unfoldable pub start_prefill : Request F → ℕ → ℕ → ℕ → Exec (Sim F) Unit
  unfolding on_node mark_prefill_done enter_prefill schedule_now wake_batch_step
  start_prefill r request i zero =
      then_do (on_node F i (λ _. mark_prefill_done request))
        (λ _. schedule_now F prefill_complete (prefill_ends request i r))
  start_prefill r request i (suc k) =
      then_do (on_node F i (λ _. enter_prefill request (suc k)))
        (λ _. wake_batch_step F uuid costs settings i none)

  unfoldable pub on_prefill_start_payload : Payload F → Exec (Sim F) Unit
  unfolding in_pool decode_of compute_uncached_tokens start_prefill get
  on_prefill_start_payload (prefill_begins request i r n_chunks) = then_do (the_world F) (λ w.
      then_do (in_pool F w.prefill_ids i) (λ _.
        then_do
          (compute_uncached_tokens F uuid costs settings r (decode_of (get w.decisions request) i))
          (λ uncached. start_prefill r request i uncached)))
  on_prefill_start_payload _ = λ sim. (raise key_error, sim)

  unfoldable pub on_prefill_start : Handler F (Payload F) (World F)
  unfolding on_prefill_start_payload
  on_prefill_start e = on_prefill_start_payload e.payload

  -- the request that took the slot of the prefill
  unfoldable pub promote_prefill : ℕ → Option ℕ → Exec (Sim F) Unit
  unfolding get compute_uncached_tokens on_node init_promoted begin_prefill
  promote_prefill i none = return_value tt
  promote_prefill i (some promoted) = then_do (the_world F) (λ w. elim (get w.requests promoted) [
    | none ↦ return_value tt
    | some r ↦ elim (get w.decisions promoted) [
      | none ↦ return_value tt
      | some d ↦
          then_do (compute_uncached_tokens F uuid costs settings r d.decode_node) (λ uncached.
            then_do
              (on_node F i (λ _.
                init_promoted promoted r.expected_output_len (some (length r.token_ids))
                  (some uncached)))
              (λ _. begin_prefill F uuid costs settings r i d.decode_node))
    ]
  ])

  unfoldable pub service_cost : Request F → Num
  service_cost r =
      times (over (of_nat (length r.token_ids * settings.kv_bytes_per_token)) settings.gpu_to_gpu)
        (of_nat 1000)

  -- the entry of `_pending_transfers`, and the pair of events of the KV transfer
  unfoldable pub pending_of : Request F → Transfer F → Pending F
  pending_of r t = record {
    request_id = t.request_id;
    number = t.number;
    src = t.src;
    dst = t.dst;
    cost_ms = t.cost_ms;
    request = r;
  }

  unfoldable pub announce_transfer : Request F → Window F → Transfer F → Exec (Sim F) Unit
  unfolding pending_of add_pending schedule_at
  announce_transfer r window t = then_do (add_pending F (pending_of r t)) (λ _.
      then_do (schedule_at F window.start kv_transfer_start (transfer_begins t))
        (λ _. schedule_at F window.finish kv_transfer_complete (transfer_ends t r)))

  -- `payload_base`
  unfoldable pub transfer_of : Request F → ℕ → ℕ → ℕ → ℕ → Window F → Num → Transfer F
  unfolding service_cost
  transfer_of r request number src dst window now = record {
    request_id = request;
    number = number;
    src = src;
    dst = dst;
    service_cost_ms = service_cost r;
    queued_cost_ms = minus window.start now;
    cost_ms = minus window.finish now;
  }

  unfoldable pub begin_transfer : Request F → ℕ → ℕ → ℕ → Exec (Sim F) Unit
  unfolding service_cost request_lanes the_time next_transfer_number transfer_of announce_transfer
  begin_transfer r request src dst = then_do (request_lanes F src dst (service_cost r)) (λ window.
      then_do (the_time F) (λ now.
        then_do (next_transfer_number F request)
          (λ number. announce_transfer r window (transfer_of r request number src dst window now))))

  unfoldable pub finish_prefill : Request F → ℕ → ℕ → SchedulingDecision F → Exec (Sim F) Unit
  unfolding on_node complete or_none promote_prefill required begin_transfer
  finish_prefill r request i d =
      then_do (λ sim. or_none F (on_node F i (λ _. complete request) sim))
        (λ promoted. then_do (promote_prefill i promoted) (λ _.
          then_do (required F d.prefill_node)
            (λ src. then_do (required F d.decode_node) (λ dst. begin_transfer r request src dst))))

  unfoldable pub on_prefill_complete_payload : Payload F → Exec (Sim F) Unit
  unfolding in_pool get finish_prefill
  on_prefill_complete_payload (prefill_ends request i r) = then_do (the_world F) (λ w.
      then_do (in_pool F w.prefill_ids i) (λ _. elim (get w.decisions request) [
        | none ↦ return_value tt
        | some d ↦ finish_prefill r request i d
      ]))
  on_prefill_complete_payload _ = λ sim. (raise key_error, sim)

  unfoldable pub on_prefill_complete : Handler F (Payload F) (World F)
  unfolding on_prefill_complete_payload
  on_prefill_complete e = on_prefill_complete_payload e.payload
