-- ===== src/Driver/Closure.antt =====
-- The calls that several handlers make keep what is closed under their steps.
use nano_kvrouter.Prelude.{
  ℕ, refl, Option, none, some, Result, ok, raise, key_error, Exec, return_value, length,
}
use nano_kvrouter.Prelude.Float.{Float}
use nano_kvrouter.Node.{mark_batch_step_scheduled}
use nano_kvrouter.Node.Steps.{admit_call, scheduled_call, run_call}
use nano_kvrouter.Scheduler.{Request, Settings, caught}
use nano_kvrouter.Manager.Lookup.{CacheLookup, Costs, lookup}
use nano_kvrouter.Driver.{Sim, on_node}
use nano_kvrouter.Driver.Calls.{
  lookup_on, compute_uncached_tokens, compute_n_chunks, wants_step, wake_at, wake_batch_step,
  begin_prefill, admit_request,
}
use nano_kvrouter.Driver.Steps.{
  IsClosed, Keeps, return-Keeps, then_do-Keeps, if-Keeps, the_time-Keeps, node_at-Keeps,
  schedule_at-Keeps, schedule_now-Keeps, on_cache-Keeps, on_node-Keeps,
}

module _ (F : Float) (uuid : ℕ → ℕ) (costs : Costs F) (settings : Settings F) (P : Sim F → Type 0)
    (c : IsClosed F P) where
  pub lookup_on-Keeps : (r : Request F) (i : ℕ) → Keeps F P (lookup_on F uuid costs settings r i)
  unfolding lookup_on
  lookup_on-Keeps r i = on_cache-Keeps F P c (λ now. lookup F costs now r.token_ids i)

  pub caught-Keeps :
      (m : Exec (Sim F) (CacheLookup F)) → Keeps F P m → Keeps F P (λ sim. caught F (m sim))
  unfolding caught
  caught-Keeps m k = record { keeps = λ sim h. kept (m sim) (k.keeps sim h) }
    where
      kept : (x : Result (CacheLookup F) × Sim F) → P x.1 → P (caught F x).1
      kept (ok a, s) i = i
      kept (raise key_error, s) i = i
      kept (raise _, s) i = i

  pub compute_uncached_tokens-Keeps :
      (r : Request F) (d : Option ℕ) → Keeps F P (compute_uncached_tokens F uuid costs settings r d)
  unfolding compute_uncached_tokens
  compute_uncached_tokens-Keeps r none = record { keeps = λ sim h. h }
  compute_uncached_tokens-Keeps r (some i) =
      then_do-Keeps F P _ _ (caught-Keeps _ (lookup_on-Keeps r i)) (λ hit. return-Keeps F P _)

  pub compute_n_chunks-Keeps :
      (r : Request F) (d : Option ℕ) (k : ℕ)
      → Keeps F P (compute_n_chunks F uuid costs settings r d k)
  unfolding compute_n_chunks
  compute_n_chunks-Keeps r d k =
      then_do-Keeps F P _ _ (compute_uncached_tokens-Keeps r d) (λ uncached. return-Keeps F P _)

  pub wake_at-Keeps : (i : ℕ) (time : F.Num) → Keeps F P (wake_at F uuid costs settings i time)
  unfolding wake_at run_call
  wake_at-Keeps i time = then_do-Keeps F P _ _ (node_at-Keeps F P i) (λ n.
      if-Keeps F P (wants_step F uuid costs settings n) _ _
        (then_do-Keeps F P _ _ (schedule_at-Keeps F P c time _ _) (λ _.
          on_node-Keeps F P c i (λ _. mark_batch_step_scheduled) (λ _. scheduled_call)
            (λ p n. refl)))
        (return-Keeps F P tt))

  pub wake_batch_step-Keeps :
      (i : ℕ) (time : Option F.Num) → Keeps F P (wake_batch_step F uuid costs settings i time)
  unfolding wake_batch_step
  wake_batch_step-Keeps i none =
      then_do-Keeps F P _ _ (the_time-Keeps F P) (λ now. wake_at-Keeps i now)
  wake_batch_step-Keeps i (some time) = wake_at-Keeps i time

  pub begin_prefill-Keeps :
      (r : Request F) (i : ℕ) (d : Option ℕ) → Keeps F P (begin_prefill F uuid costs settings r i d)
  unfolding begin_prefill
  begin_prefill-Keeps r i d = then_do-Keeps F P _ _ (node_at-Keeps F P i) (λ n.
      then_do-Keeps F P _ _ (compute_n_chunks-Keeps r d n.chunk_size)
        (λ k. schedule_now-Keeps F P c _ _))

  pub admit_request-Keeps :
      (i request : ℕ) (r : Request F) (uncached : ℕ)
      → Keeps F P (on_node F i (λ _. admit_request F uuid costs settings request r uncached))
  unfolding admit_request run_call
  admit_request-Keeps i request r uncached =
      on_node-Keeps F P c i (λ _. admit_request F uuid costs settings request r uncached)
        (λ _. admit_call request r.expected_output_len (some (length r.token_ids)) (some uncached))
        (λ p n. refl)

  -- nothing to do where there is no value
  pub when_some :
      {A : Type 0} (o : Option A) (f : A → Exec (Sim F) Unit)
      → ((a : A) → Keeps F P (f a))
      → Keeps F P (elim o [ none ↦ return_value tt | some a ↦ f a ])
  when_some none f k = return-Keeps F P tt
  when_some (some a) f k = k a
