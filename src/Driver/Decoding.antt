-- ===== src/Driver/Decoding.antt =====
-- The handlers of `_wire_simulator` from the KV transfer on. What they log is left out; the batch size
-- that is put into a step's payload is for the metrics. The streams of a step are taken in the order of
-- the list that stands for the set.
use nano_kvrouter.Prelude.{
  ℕ, ◌-◌, Option, none, some, List, [], ◌∷◌, length, if◌then◌else◌, leb, ok, raise, key_error, Exec,
  return_value, then_do,
}
use nano_kvrouter.Prelude.Dict.{get}
use nano_kvrouter.Prelude.Sets.{update}
use nano_kvrouter.Prelude.Float.{Float, less}
use nano_kvrouter.Node.{start_decode, mark_batch_step_completed}
use nano_kvrouter.Node.Batch.{is_idle, tick_batch_step, complete}
use nano_kvrouter.Manager.Lookup.{Costs}
use nano_kvrouter.Manager.Requests.{materialize_request, release_request}
use nano_kvrouter.Scheduler.{Request, Settings}
use nano_kvrouter.Engine.{
  Handler, prefill_complete, token_generated, decode_complete, request_rejected,
}
use nano_kvrouter.Driver.{
  decode_capacity_exhausted, Payload, rejection, prefill_ends, transfer_ends, batch_step, token,
  decode_ends, Pending, World, Sim, the_time, the_world, schedule_at, schedule_now, in_pool,
  node_at, on_node, on_cache, forget, pop_pending, required, or_none, ignoring_key_error,
  ignoring_memory_error,
}
use nano_kvrouter.Driver.Calls.{wake_batch_step, admit_request}

module _ (F : Float) (uuid : ℕ → ℕ) (costs : Costs F) (settings : Settings F) where
  open F use {Num, of_nat, leq, plus, minus, times, over}

  unfoldable pub on_kv_transfer_start : Handler F (Payload F) (World F)
  on_kv_transfer_start e = return_value tt

  -- the request joins the decode batch
  unfoldable pub begin_decode : Request F → ℕ → ℕ → Exec (Sim F) Unit
  unfolding on_cache materialize_request ignoring_memory_error on_node admit_request start_decode
      wake_batch_step
  begin_decode r request i =
      then_do
        (λ sim. ignoring_memory_error F (
          on_cache F
            (λ now. materialize_request uuid (less F) now (F.plus now F.nano) request r.token_ids i)
            sim))
        (λ _. then_do (on_node F i (λ _. admit_request F uuid costs settings request r 0)) (λ _.
          then_do (on_node F i (λ _. start_decode request))
            (λ _. wake_batch_step F uuid costs settings i none)))

  unfoldable pub end_transfer : Pending F → Exec (Sim F) Unit
  unfolding get required in_pool node_at schedule_now forget begin_decode
  end_transfer p = then_do (the_world F) (λ w. elim (get w.decisions p.request_id) [
    | none ↦ return_value tt
    | some d ↦ then_do (required F d.decode_node) (λ i. then_do (in_pool F w.decode_ids i) (λ _.
        then_do (node_at F i) (λ n.
          if leb n.capacity (length n.running)
          then then_do
              (schedule_now F request_rejected (rejection p.request_id decode_capacity_exhausted))
              (λ _. forget F p.request_id)
          else begin_decode p.request p.request_id i)))
  ])

  unfoldable pub on_kv_transfer_complete_payload : Payload F → Exec (Sim F) Unit
  unfolding pop_pending end_transfer
  on_kv_transfer_complete_payload (transfer_ends t r) =
      then_do (pop_pending F t)
        (λ found. elim found [ none ↦ return_value tt | some p ↦ end_transfer p ])
  on_kv_transfer_complete_payload _ = return_value tt

  unfoldable pub on_kv_transfer_complete : Handler F (Payload F) (World F)
  unfolding on_kv_transfer_complete_payload
  on_kv_transfer_complete e = on_kv_transfer_complete_payload e.payload

  -- PREFILL_COMPLETE of the prefill that the step ended
  unfoldable pub report_prefill : ℕ → Num → Option ℕ → Exec (Sim F) Unit
  unfolding get schedule_at
  report_prefill i time none = return_value tt
  report_prefill i time (some request) = then_do (the_world F) (λ w. elim (get w.requests request) [
    | none ↦ return_value tt
    | some r ↦ schedule_at F time prefill_complete (prefill_ends request i r)
  ])

  -- TOKEN_GENERATED of every stream of the step
  unfoldable pub report_tokens : ℕ → Num → List ℕ → Exec (Sim F) Unit
  unfolding node_at get required schedule_at
  report_tokens i time [] = return_value tt
  report_tokens i time (r ∷ rs) =
      let rest = report_tokens i time rs in
      then_do (node_at F i) (λ n.
        then_do (required F (get n.output_tokens r))
          (λ count. then_do (schedule_at F time token_generated (token r (count - 1))) (λ _. rest)))

  -- DECODE_COMPLETE of every stream that has all its tokens
  unfoldable pub report_completed : ℕ → Num → List ℕ → Exec (Sim F) Unit
  unfolding schedule_at
  report_completed i time [] = return_value tt
  report_completed i time (r ∷ rs) =
      let rest = report_completed i time rs in
      then_do (schedule_at F time decode_complete (decode_ends r i)) (λ _. rest)

  unfoldable pub run_step : ℕ → Exec (Sim F) Unit
  unfolding the_time on_node tick_batch_step report_prefill node_at update report_tokens
      report_completed wake_batch_step
  run_step i = then_do (the_time F) (λ now.
      then_do (on_node F i (λ p. tick_batch_step F p.latency now)) (λ done.
        then_do (report_prefill i done.0 done.2) (λ _. then_do (node_at F i) (λ n.
          then_do (report_tokens i done.0 (update n.decoding done.1)) (λ _.
            then_do (report_completed i done.0 done.1)
              (λ _. wake_batch_step F uuid costs settings i (some done.0)))))))

  unfoldable pub on_decode_batch_step_payload : Payload F → Exec (Sim F) Unit
  unfolding on_node mark_batch_step_completed node_at is_idle run_step
  on_decode_batch_step_payload (batch_step i) =
      then_do (on_node F i (λ _ n. (ok tt, mark_batch_step_completed n)))
        (λ _. then_do (node_at F i) (λ n. if is_idle n then return_value tt else run_step i))
  on_decode_batch_step_payload _ = λ sim. (raise key_error, sim)

  unfoldable pub on_decode_batch_step : Handler F (Payload F) (World F)
  unfolding on_decode_batch_step_payload
  on_decode_batch_step e = on_decode_batch_step_payload e.payload

  unfoldable pub on_decode_complete_payload : Payload F → Exec (Sim F) Unit
  unfolding in_pool on_node complete or_none on_cache release_request ignoring_key_error forget
      wake_batch_step
  on_decode_complete_payload (decode_ends request i) = then_do (the_world F) (λ w.
      then_do (in_pool F w.decode_ids i) (λ _.
        then_do (λ sim. or_none F (on_node F i (λ _. complete request) sim))
          (λ _.
            then_do
              (λ sim. ignoring_key_error F (
                on_cache F (λ now. release_request uuid (less F) now (F.plus now F.nano) request i)
                  sim))
              (λ _.
                then_do (forget F request) (λ _. wake_batch_step F uuid costs settings i none)))))
  on_decode_complete_payload _ = λ sim. (raise key_error, sim)

  unfoldable pub on_decode_complete : Handler F (Payload F) (World F)
  unfolding on_decode_complete_payload
  on_decode_complete e = on_decode_complete_payload e.payload
