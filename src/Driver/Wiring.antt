-- ===== src/Driver/Wiring.antt =====
-- The handlers of the simulator keep what is closed under its steps.
use nano_kvrouter.Prelude.{ℕ, refl, none, ok, key_error}
use nano_kvrouter.Prelude.Dict.{get}
use nano_kvrouter.Prelude.Float.{Float, less}
use nano_kvrouter.Node.{mark_batch_step_completed}
use nano_kvrouter.Node.Batch.{is_idle, complete}
use nano_kvrouter.Node.Steps.{complete_call, completed_call, run_call}
use nano_kvrouter.Manager.Requests.{release_request}
use nano_kvrouter.Scheduler.{Settings}
use nano_kvrouter.Engine.{kv_transfer_start, kv_transfer_complete, Event, EventType, Handler}
use nano_kvrouter.Manager.Lookup.{Costs}
use nano_kvrouter.Driver.{
  by_policy, Payload, arrival, rejection, prefill_begins, prefill_ends, transfer_ends, batch_step,
  decode_ends, World, Sim,
}
use nano_kvrouter.Driver.Prefilling.{
  on_arrive_payload, on_arrive, decode_of, on_prefill_start_payload, on_prefill_start,
  on_prefill_complete_payload, on_prefill_complete,
}
use nano_kvrouter.Driver.Decoding.{
  on_kv_transfer_start, on_kv_transfer_complete_payload, on_kv_transfer_complete,
  on_decode_batch_step_payload, on_decode_batch_step, on_decode_complete_payload,
  on_decode_complete,
}
use nano_kvrouter.Driver.Handlers.{wire_simulator}
use nano_kvrouter.Driver.Steps.{
  IsClosed, Keeps, return-Keeps, raise-Keeps, then_do-Keeps, if-Keeps, required-Keeps,
  in_pool-Keeps, the_world-Keeps, node_at-Keeps, or_none-Keeps, ignoring_key_error-Keeps,
  schedule_now-Keeps, on_cache-Keeps, on_node-Keeps, forget-Keeps, pop_pending-Keeps, decide-Keeps,
}
use nano_kvrouter.Engine.{
  request_arrive, prefill_start, prefill_complete, decode_batch_step, decode_complete,
  request_rejected, HandlerTable, on,
}
use nano_kvrouter.Engine.Worlds.{on-All}
use nano_kvrouter.Prelude.{All}
use nano_kvrouter.Scheduler.{is_rejected}
use nano_kvrouter.Driver.Closure.{compute_uncached_tokens-Keeps, wake_batch_step-Keeps, when_some}
use nano_kvrouter.Driver.Stages.{
  accept-Keeps, start_prefill-Keeps, finish_prefill-Keeps, end_transfer-Keeps, run_step-Keeps,
}

module _ (F : Float) (P : Sim F → Type 0) where
  -- a handler that keeps the property, whatever the event is
  abbrev pub HandlerKeeps : Handler F (Payload F) (World F) → Type 0
  HandlerKeeps h = (e : Event F (Payload F)) → Keeps F P (h e)

module _ (F : Float) (uuid : ℕ → ℕ) (costs : Costs F) (settings : Settings F) (P : Sim F → Type 0)
    (c : IsClosed F P) where
  on_arrive_payload-Keeps : (p : Payload F) → Keeps F P (on_arrive_payload F uuid costs settings p)
  unfolding on_arrive_payload run_call
  on_arrive_payload-Keeps (arrival r) =
      then_do-Keeps F P _ _ (decide-Keeps F P c costs settings r) (λ d.
        if-Keeps F P (is_rejected F d) _ _
          (schedule_now-Keeps F P c request_rejected
            (rejection r.request_id (by_policy d.reject_reason)))
          (then_do-Keeps F P _ _ (required-Keeps F P d.prefill_node) (λ prefill.
            then_do-Keeps F P _ _ (required-Keeps F P d.decode_node)
              (λ decode. accept-Keeps F uuid costs settings P c r d prefill decode))))
  on_arrive_payload-Keeps _ = raise-Keeps F P key_error

  on_arrive-Keeps : HandlerKeeps F P (on_arrive F uuid costs settings)
  unfolding on_arrive
  on_arrive-Keeps e = on_arrive_payload-Keeps e.payload

  on_prefill_start_payload-Keeps :
      (p : Payload F) → Keeps F P (on_prefill_start_payload F uuid costs settings p)
  unfolding on_prefill_start_payload run_call
  on_prefill_start_payload-Keeps (prefill_begins request i r k) =
      then_do-Keeps F P _ _ (the_world-Keeps F P) (λ w.
        then_do-Keeps F P _ _ (in_pool-Keeps F P w.prefill_ids i) (λ _.
          then_do-Keeps F P _ _
            (compute_uncached_tokens-Keeps F uuid costs settings P c r
              (decode_of F uuid costs settings (get w.decisions request) i))
            (λ uncached. start_prefill-Keeps F uuid costs settings P c r request i uncached)))
  on_prefill_start_payload-Keeps _ = raise-Keeps F P key_error

  on_prefill_start-Keeps : HandlerKeeps F P (on_prefill_start F uuid costs settings)
  unfolding on_prefill_start
  on_prefill_start-Keeps e = on_prefill_start_payload-Keeps e.payload

  on_prefill_complete_payload-Keeps :
      (p : Payload F) → Keeps F P (on_prefill_complete_payload F uuid costs settings p)
  unfolding on_prefill_complete_payload run_call
  on_prefill_complete_payload-Keeps (prefill_ends request i r) =
      then_do-Keeps F P _ _ (the_world-Keeps F P) (λ w.
        then_do-Keeps F P _ _ (in_pool-Keeps F P w.prefill_ids i) (λ _.
          when_some F uuid costs settings P c (get w.decisions request) _
            (λ d. finish_prefill-Keeps F uuid costs settings P c r request i d)))
  on_prefill_complete_payload-Keeps _ = raise-Keeps F P key_error

  on_prefill_complete-Keeps : HandlerKeeps F P (on_prefill_complete F uuid costs settings)
  unfolding on_prefill_complete
  on_prefill_complete-Keeps e = on_prefill_complete_payload-Keeps e.payload

  on_kv_transfer_start-Keeps : HandlerKeeps F P (on_kv_transfer_start F uuid costs settings)
  unfolding on_kv_transfer_start run_call
  on_kv_transfer_start-Keeps e = return-Keeps F P tt

  on_kv_transfer_complete_payload-Keeps :
      (p : Payload F) → Keeps F P (on_kv_transfer_complete_payload F uuid costs settings p)
  unfolding on_kv_transfer_complete_payload run_call
  on_kv_transfer_complete_payload-Keeps (transfer_ends t r) =
      then_do-Keeps F P _ _ (pop_pending-Keeps F P c t) (λ found.
        when_some F uuid costs settings P c found _
          (λ p. end_transfer-Keeps F uuid costs settings P c p))
  on_kv_transfer_complete_payload-Keeps _ = return-Keeps F P tt

  on_kv_transfer_complete-Keeps : HandlerKeeps F P (on_kv_transfer_complete F uuid costs settings)
  unfolding on_kv_transfer_complete
  on_kv_transfer_complete-Keeps e = on_kv_transfer_complete_payload-Keeps e.payload

  on_decode_batch_step_payload-Keeps :
      (p : Payload F) → Keeps F P (on_decode_batch_step_payload F uuid costs settings p)
  unfolding on_decode_batch_step_payload run_call
  on_decode_batch_step_payload-Keeps (batch_step i) =
      then_do-Keeps F P _ _
        (on_node-Keeps F P c i (λ _ n. (ok tt, mark_batch_step_completed n)) (λ _. completed_call)
          (λ p n. refl))
        (λ _. then_do-Keeps F P _ _ (node_at-Keeps F P i) (λ n.
          if-Keeps F P (is_idle n) _ _ (return-Keeps F P tt)
            (run_step-Keeps F uuid costs settings P c i)))
  on_decode_batch_step_payload-Keeps _ = raise-Keeps F P key_error

  on_decode_batch_step-Keeps : HandlerKeeps F P (on_decode_batch_step F uuid costs settings)
  unfolding on_decode_batch_step
  on_decode_batch_step-Keeps e = on_decode_batch_step_payload-Keeps e.payload

  on_decode_complete_payload-Keeps :
      (p : Payload F) → Keeps F P (on_decode_complete_payload F uuid costs settings p)
  unfolding on_decode_complete_payload run_call
  on_decode_complete_payload-Keeps (decode_ends request i) =
      then_do-Keeps F P _ _ (the_world-Keeps F P) (λ w.
        then_do-Keeps F P _ _ (in_pool-Keeps F P w.decode_ids i) (λ _.
          then_do-Keeps F P _ _
            (or_none-Keeps F P _ (
              on_node-Keeps F P c i (λ _. complete request) (λ _. complete_call request)
                (λ p n. refl)))
            (λ _.
              then_do-Keeps F P _ _
                (ignoring_key_error-Keeps F P _ (
                  on_cache-Keeps F P c
                    (λ now. release_request uuid (less F) now (F.plus now F.nano) request i)))
                (λ _.
                  then_do-Keeps F P _ _ (forget-Keeps F P c request)
                    (λ _. wake_batch_step-Keeps F uuid costs settings P c i none)))))
  on_decode_complete_payload-Keeps _ = raise-Keeps F P key_error

  on_decode_complete-Keeps : HandlerKeeps F P (on_decode_complete F uuid costs settings)
  unfolding on_decode_complete
  on_decode_complete-Keeps e = on_decode_complete_payload-Keeps e.payload

  -- what holds of the handlers of a table, and of those of the simulator, holds of them together
  pub wire_simulator-All :
      (handlers : HandlerTable F (Payload F) (World F)) (k : EventType)
      → All (HandlerKeeps F P) (handlers k)
      → All (HandlerKeeps F P) (wire_simulator F uuid costs settings handlers k)
  unfolding wire_simulator
  wire_simulator-All handlers k h =
      let add = on-All F (Payload F) (World F) (HandlerKeeps F P) in
      let t1 = on F (Payload F) request_arrive (on_arrive F uuid costs settings) handlers in
      let h1 : All (HandlerKeeps F P) (t1 k) =
        add request_arrive k (on_arrive F uuid costs settings) handlers h on_arrive-Keeps in
      let t2 = on F (Payload F) prefill_start (on_prefill_start F uuid costs settings) t1 in
      let h2 : All (HandlerKeeps F P) (t2 k) =
        add prefill_start k (on_prefill_start F uuid costs settings) t1 h1 on_prefill_start-Keeps in
      let t3 = on F (Payload F) prefill_complete (on_prefill_complete F uuid costs settings) t2 in
      let h3 : All (HandlerKeeps F P) (t3 k) =
        add prefill_complete k (on_prefill_complete F uuid costs settings) t2 h2
          on_prefill_complete-Keeps in
      let t4 = on F (Payload F) kv_transfer_start (on_kv_transfer_start F uuid costs settings) t3 in
      let h4 : All (HandlerKeeps F P) (t4 k) =
        add kv_transfer_start k (on_kv_transfer_start F uuid costs settings) t3 h3
          on_kv_transfer_start-Keeps in
      let t5 =
        on F (Payload F) kv_transfer_complete (on_kv_transfer_complete F uuid costs settings) t4 in
      let h5 : All (HandlerKeeps F P) (t5 k) =
        add kv_transfer_complete k (on_kv_transfer_complete F uuid costs settings) t4 h4
          on_kv_transfer_complete-Keeps in
      let t6 = on F (Payload F) decode_batch_step (on_decode_batch_step F uuid costs settings) t5 in
      let h6 : All (HandlerKeeps F P) (t6 k) =
        add decode_batch_step k (on_decode_batch_step F uuid costs settings) t5 h5
          on_decode_batch_step-Keeps in
      add decode_complete k (on_decode_complete F uuid costs settings) t6 h6
        on_decode_complete-Keeps
