-- ===== src/Driver/Stages.antt =====
-- The parts of the handlers keep what is closed under their steps.
use nano_kvrouter.Prelude.{ℕ, zero, suc, refl, Option, none, some, List, [], ◌∷◌, length, leb}
use nano_kvrouter.Prelude.Dict.{get}
use nano_kvrouter.Prelude.Float.{Float, less}
use nano_kvrouter.Node.{start_decode, init_promoted, enter_prefill, mark_prefill_done}
use nano_kvrouter.Node.Batch.{tick_batch_step, complete}
use nano_kvrouter.Node.Steps.{
  init_promoted_call, start_decode_call, mark_prefill_done_call, complete_call, enter_prefill_call,
  tick_call, run_call,
}
use nano_kvrouter.Manager.Requests.{materialize_request}
use nano_kvrouter.Scheduler.{Request, SchedulingDecision, Settings}
use nano_kvrouter.Transfer.{Window}
use nano_kvrouter.Engine.{kv_transfer_start, kv_transfer_complete}
use nano_kvrouter.Manager.Lookup.{Costs}
use nano_kvrouter.Driver.{transfer_begins, transfer_ends, Pending, Sim, Transfer}
use nano_kvrouter.Driver.Calls.{uncached_after}
use nano_kvrouter.Driver.Prefilling.{
  accept, start_prefill, promote_prefill, service_cost, pending_of, announce_transfer, transfer_of,
  begin_transfer, finish_prefill,
}
use nano_kvrouter.Driver.Decoding.{
  begin_decode, end_transfer, report_prefill, report_tokens, report_completed, run_step,
}
use nano_kvrouter.Driver.Steps.{
  IsClosed, Keeps, return-Keeps, then_do-Keeps, if-Keeps, required-Keeps, in_pool-Keeps,
  the_time-Keeps, the_world-Keeps, node_at-Keeps, or_none-Keeps, ignoring_memory_error-Keeps,
  schedule_at-Keeps, schedule_now-Keeps, on_cache-Keeps, on_node-Keeps, forget-Keeps,
  remember-Keeps, next_transfer_number-Keeps, request_lanes-Keeps, add_pending-Keeps,
}
use nano_kvrouter.Driver.Closure.{
  lookup_on-Keeps, compute_uncached_tokens-Keeps, wake_batch_step-Keeps, begin_prefill-Keeps,
  admit_request-Keeps, when_some,
}

module _ (F : Float) (uuid : ℕ → ℕ) (costs : Costs F) (settings : Settings F) (P : Sim F → Type 0)
    (c : IsClosed F P) where
  pub accept-Keeps :
      (r : Request F) (d : SchedulingDecision F) (prefill decode : ℕ)
      → Keeps F P (accept F uuid costs settings r d prefill decode)
  unfolding accept run_call
  accept-Keeps r d prefill decode =
      then_do-Keeps F P _ _ (lookup_on-Keeps F uuid costs settings P c r decode) (λ hit.
        then_do-Keeps F P _ _ (schedule_now-Keeps F P c _ _) (λ _.
          then_do-Keeps F P _ _ (remember-Keeps F P c r d) (λ _.
            then_do-Keeps F P _ _ (the_world-Keeps F P) (λ w.
              then_do-Keeps F P _ _ (in_pool-Keeps F P w.prefill_ids prefill) (λ _.
                then_do-Keeps F P _ _
                  (admit_request-Keeps F uuid costs settings P c prefill r.request_id r
                    (uncached_after F uuid costs settings r hit))
                  (λ is_running.
                    if-Keeps F P is_running _ _
                      (begin_prefill-Keeps F uuid costs settings P c r prefill d.decode_node)
                      (return-Keeps F P tt)))))))

  pub start_prefill-Keeps :
      (r : Request F) (request i k : ℕ)
      → Keeps F P (start_prefill F uuid costs settings r request i k)
  unfolding start_prefill run_call
  start_prefill-Keeps r request i zero =
      then_do-Keeps F P _ _
        (on_node-Keeps F P c i (λ _. mark_prefill_done request)
          (λ _. mark_prefill_done_call request) (λ p n. refl))
        (λ _. schedule_now-Keeps F P c _ _)
  start_prefill-Keeps r request i (suc k) =
      then_do-Keeps F P _ _
        (on_node-Keeps F P c i (λ _. enter_prefill request (suc k))
          (λ _. enter_prefill_call request (suc k)) (λ p n. refl))
        (λ _. wake_batch_step-Keeps F uuid costs settings P c i none)

  pub promote_prefill-Keeps :
      (i : ℕ) (promoted : Option ℕ) → Keeps F P (promote_prefill F uuid costs settings i promoted)
  unfolding promote_prefill run_call
  promote_prefill-Keeps i none = return-Keeps F P tt
  promote_prefill-Keeps i (some promoted) = then_do-Keeps F P _ _ (the_world-Keeps F P) (λ w.
      when_some F uuid costs settings P c (get w.requests promoted) _ (λ r.
        when_some F uuid costs settings P c (get w.decisions promoted) _ (λ d.
          then_do-Keeps F P _ _
            (compute_uncached_tokens-Keeps F uuid costs settings P c r d.decode_node)
            (λ uncached.
              then_do-Keeps F P _ _
                (on_node-Keeps F P c i
                  (λ _.
                    init_promoted promoted r.expected_output_len (some (length r.token_ids))
                      (some uncached))
                  (λ _.
                    init_promoted_call promoted r.expected_output_len (some (length r.token_ids))
                      (some uncached))
                  (λ p n. refl))
                (λ _. begin_prefill-Keeps F uuid costs settings P c r i d.decode_node)))))

  pub announce_transfer-Keeps :
      (r : Request F) (window : Window F) (t : Transfer F)
      → Keeps F P (announce_transfer F uuid costs settings r window t)
  unfolding announce_transfer
  announce_transfer-Keeps r window t =
      then_do-Keeps F P _ _ (add_pending-Keeps F P c (pending_of F uuid costs settings r t)) (λ _.
        then_do-Keeps F P _ _
          (schedule_at-Keeps F P c window.start kv_transfer_start (transfer_begins t))
          (λ _. schedule_at-Keeps F P c window.finish kv_transfer_complete (transfer_ends t r)))

  pub begin_transfer-Keeps :
      (r : Request F) (request src dst : ℕ)
      → Keeps F P (begin_transfer F uuid costs settings r request src dst)
  unfolding begin_transfer
  begin_transfer-Keeps r request src dst =
      then_do-Keeps F P _ _
        (request_lanes-Keeps F P c src dst (service_cost F uuid costs settings r))
        (λ window. then_do-Keeps F P _ _ (the_time-Keeps F P) (λ now.
          then_do-Keeps F P _ _ (next_transfer_number-Keeps F P c request) (λ number.
            announce_transfer-Keeps r window
              (transfer_of F uuid costs settings r request number src dst window now))))

  pub finish_prefill-Keeps :
      (r : Request F) (request i : ℕ) (d : SchedulingDecision F)
      → Keeps F P (finish_prefill F uuid costs settings r request i d)
  unfolding finish_prefill run_call
  finish_prefill-Keeps r request i d =
      then_do-Keeps F P _ _
        (or_none-Keeps F P _ (
          on_node-Keeps F P c i (λ _. complete request) (λ _. complete_call request) (λ p n. refl)))
        (λ promoted. then_do-Keeps F P _ _ (promote_prefill-Keeps i promoted) (λ _.
          then_do-Keeps F P _ _ (required-Keeps F P d.prefill_node) (λ src.
            then_do-Keeps F P _ _ (required-Keeps F P d.decode_node)
              (λ dst. begin_transfer-Keeps r request src dst))))

  pub begin_decode-Keeps :
      (r : Request F) (request i : ℕ) → Keeps F P (begin_decode F uuid costs settings r request i)
  unfolding begin_decode run_call
  begin_decode-Keeps r request i =
      then_do-Keeps F P _ _
        (ignoring_memory_error-Keeps F P _ (
          on_cache-Keeps F P c (λ now.
            materialize_request uuid (less F) now (F.plus now F.nano) request r.token_ids i)))
        (λ _.
          then_do-Keeps F P _ _ (admit_request-Keeps F uuid costs settings P c i request r 0) (λ _.
            then_do-Keeps F P _ _
              (on_node-Keeps F P c i (λ _. start_decode request) (λ _. start_decode_call request)
                (λ p n. refl))
              (λ _. wake_batch_step-Keeps F uuid costs settings P c i none)))

  pub end_transfer-Keeps : (p : Pending F) → Keeps F P (end_transfer F uuid costs settings p)
  unfolding end_transfer
  end_transfer-Keeps p = then_do-Keeps F P _ _ (the_world-Keeps F P) (λ w.
      when_some F uuid costs settings P c (get w.decisions p.request_id) _ (λ d.
        then_do-Keeps F P _ _ (required-Keeps F P d.decode_node) (λ i.
          then_do-Keeps F P _ _ (in_pool-Keeps F P w.decode_ids i) (λ _.
            then_do-Keeps F P _ _ (node_at-Keeps F P i) (λ n.
              if-Keeps F P (leb n.capacity (length n.running)) _ _
                (then_do-Keeps F P _ _ (schedule_now-Keeps F P c _ _)
                  (λ _. forget-Keeps F P c p.request_id))
                (begin_decode-Keeps p.request p.request_id i))))))

  pub report_prefill-Keeps :
      (i : ℕ) (time : F.Num) (o : Option ℕ)
      → Keeps F P (report_prefill F uuid costs settings i time o)
  unfolding report_prefill
  report_prefill-Keeps i time none = return-Keeps F P tt
  report_prefill-Keeps i time (some request) = then_do-Keeps F P _ _ (the_world-Keeps F P) (λ w.
      when_some F uuid costs settings P c (get w.requests request) _
        (λ r. schedule_at-Keeps F P c time _ _))

  pub report_tokens-Keeps :
      (i : ℕ) (time : F.Num) (rs : List ℕ)
      → Keeps F P (report_tokens F uuid costs settings i time rs)
  unfolding report_tokens
  report_tokens-Keeps i time [] = return-Keeps F P tt
  report_tokens-Keeps i time (r ∷ rs) = then_do-Keeps F P _ _ (node_at-Keeps F P i) (λ n.
      then_do-Keeps F P _ _ (required-Keeps F P (get n.output_tokens r)) (λ count.
        then_do-Keeps F P _ _ (schedule_at-Keeps F P c time _ _)
          (λ _. report_tokens-Keeps i time rs)))

  pub report_completed-Keeps :
      (i : ℕ) (time : F.Num) (rs : List ℕ)
      → Keeps F P (report_completed F uuid costs settings i time rs)
  unfolding report_completed
  report_completed-Keeps i time [] = return-Keeps F P tt
  report_completed-Keeps i time (r ∷ rs) =
      then_do-Keeps F P _ _ (schedule_at-Keeps F P c time _ _)
        (λ _. report_completed-Keeps i time rs)

  pub run_step-Keeps : (i : ℕ) → Keeps F P (run_step F uuid costs settings i)
  unfolding run_step run_call
  run_step-Keeps i = then_do-Keeps F P _ _ (the_time-Keeps F P) (λ now.
      then_do-Keeps F P _ _
        (on_node-Keeps F P c i (λ p. tick_batch_step F p.latency now) (λ p. tick_call p.latency now)
          (λ p n. refl))
        (λ done. then_do-Keeps F P _ _ (report_prefill-Keeps i done.0 done.2) (λ _.
          then_do-Keeps F P _ _ (node_at-Keeps F P i) (λ n.
            then_do-Keeps F P _ _ (report_tokens-Keeps i done.0 _) (λ _.
              then_do-Keeps F P _ _ (report_completed-Keeps i done.0 done.1)
                (λ _. wake_batch_step-Keeps F uuid costs settings P c i (some done.0)))))))
