-- ===== src/Metrics/Counts.antt =====
-- The counters of the collector agree with its samples, after any events.
use nano_kvrouter.Prelude.{
  ℕ, ◌+◌, ◌≤◌, ◌<◌, ◌==◌, ◌≡◌, refl, inl, inr, Option, none, some, List, [], ◌∷◌, ◌++◌, length,
  length-append, arith, Bool-cases, Option-cases,
}
use nano_kvrouter.Prelude.Dict.{get}
use nano_kvrouter.Prelude.Float.{Float}
use nano_kvrouter.Manager.Lookup.{TierCounts}
use nano_kvrouter.Metrics.{
  Entry, Collector, init, has_id, on_arrive, on_scheduled, on_rejected, on_prefill_start,
  on_prefill_complete, on_kv_transfer_start, on_kv_transfer_complete, first_token, later_token,
  on_decode_step, or_else, count_batch, on_decode_batch_step, count_chunks, on_decode_complete,
}

unfoldable pub sum : List ℕ → ℕ
sum [] = 0
sum (x ∷ xs) = x + sum xs

module _ (F : Float) where
  open F use {Num}

  -- an event, with what its handler reads
  pub data Seen : Type 0 where
    arrived : Num → ℕ → ℕ → Num → Num → Seen
    placed : ℕ → ℕ → TierCounts → Option ℕ → Option ℕ → Seen
    refused prefilled : ℕ → Seen
    prefills : ℕ → ℕ → Seen
    transfers : ℕ × ℕ → Seen
    transferred : ℕ × ℕ → Num → Num → Seen
    decodes : Num → ℕ → ℕ → Seen
    ticks : Option ℕ → Option ℕ → Seen
    decoded : Num → ℕ → Seen

  unfoldable pub see : Seen → Collector F → Collector F
  see (arrived t r n a b) = on_arrive F t r n a b
  see (placed r m k p d) = on_scheduled F r m k p d
  see (refused r) = on_rejected F r
  see (prefilled r) = on_prefill_complete F r
  see (prefills r n) = on_prefill_start F r n
  see (transfers t) = on_kv_transfer_start F t
  see (transferred t c q) = on_kv_transfer_complete F t c q
  see (decodes t r i) = on_decode_step F t r i
  see (ticks b d) = on_decode_batch_step F b d
  see (decoded t r) = on_decode_complete F t r

  unfoldable pub see_all : List Seen → Collector F → Collector F
  unfolding see
  see_all [] c = c
  see_all (e ∷ es) c = see_all es (see e c)

  pub record IsTallied (c : Collector F) : Type 0 where
    pub completed : length c.e2e_per_request ≡ c.completed_count
    pub generated : sum c.batch_size_samples ≡ c.total_decode_tokens
    pub transferred_once : length c.kv_transfer_queued_samples ≡ length c.kv_transfer_cost_samples
    pub chunked : length c.chunked_prefill_steps ≤ c.completed_count
    pub dual : c.dual_phase_tick_count ≤ length c.batch_size_samples

  -- the same counters and samples
  abbrev SameTally : Collector F → Collector F → Type 0
  SameTally c d =
      (d.e2e_per_request ≡ c.e2e_per_request)
      × (d.completed_count ≡ c.completed_count)
      × (d.batch_size_samples ≡ c.batch_size_samples)
      × (d.total_decode_tokens ≡ c.total_decode_tokens)
      × (d.kv_transfer_queued_samples ≡ c.kv_transfer_queued_samples)
      × (d.kv_transfer_cost_samples ≡ c.kv_transfer_cost_samples)
      × (d.chunked_prefill_steps ≡ c.chunked_prefill_steps)
      × (d.dual_phase_tick_count ≡ c.dual_phase_tick_count)

  same-IsTallied : (c d : Collector F) → SameTally c d → IsTallied c → IsTallied d
  same-IsTallied c d (e, k, b, t, q, s, p, u) h = record {
    completed = rw (e, k) h.completed;
    generated = rw (b, t) h.generated;
    transferred_once = rw (q, s) h.transferred_once;
    chunked = rw (p, k) h.chunked;
    dual = rw (u, b) h.dual;
  }

  sum-snoc : (xs : List ℕ) (x : ℕ) → sum (xs ++ (x ∷ [])) ≡ sum xs + x
  unfolding sum
  sum-snoc [] x = omega arith
  sum-snoc (y ∷ xs) x = omega (arith, sum-snoc xs x)

  scheduled-IsTallied :
      (r m : ℕ) (k : TierCounts) (p d : Option ℕ) (c : Collector F)
      → IsTallied c
      → IsTallied (on_scheduled F r m k p d c)
  unfolding on_scheduled
  scheduled-IsTallied r m k p d c h = elim (Option-cases (get c.requests r)) [
    | inl e ↦ rw (e, on_scheduled) h
    | inr (x, e) ↦
        rw (e, on_scheduled) (same-IsTallied c _ (refl, refl, refl, refl, refl, refl, refl, refl) h)
  ]

  transferred-IsTallied :
      (t : ℕ × ℕ) (cost queued : Num) (c : Collector F)
      → IsTallied c
      → IsTallied (on_kv_transfer_complete F t cost queued c)
  unfolding on_kv_transfer_complete
  transferred-IsTallied t cost queued c h = elim (Bool-cases (has_id t c.seen_transfer_ids)) [
    | inl e ↦
        let longer = length-append c.kv_transfer_cost_samples (cost ∷ []) in
        let longer2 = length-append c.kv_transfer_queued_samples (queued ∷ []) in
        let before = h.transferred_once in
        rw e (record {
          completed = h.completed;
          generated = h.generated;
          transferred_once = omega arith;
          chunked = h.chunked;
          dual = h.dual;
        })
    | inr e ↦ rw e h
  ]

  first-IsTallied :
      (time : Num) (r : ℕ) (e : Entry F) (o : Option Num) (c : Collector F)
      → IsTallied c
      → IsTallied (first_token F time r e o c)
  unfolding first_token
  first-IsTallied time r e (some t) c h = h
  first-IsTallied time r e none c h =
      same-IsTallied c _ (refl, refl, refl, refl, refl, refl, refl, refl) h

  later-IsTallied :
      (time : Num) (r : ℕ) (o : Option Num) (c : Collector F)
      → IsTallied c
      → IsTallied (later_token F time r o c)
  unfolding later_token
  later-IsTallied time r none c h =
      same-IsTallied c _ (refl, refl, refl, refl, refl, refl, refl, refl) h
  later-IsTallied time r (some t) c h =
      same-IsTallied c _ (refl, refl, refl, refl, refl, refl, refl, refl) h

  decodes-IsTallied :
      (time : Num) (r i : ℕ) (c : Collector F)
      → IsTallied c
      → IsTallied (on_decode_step F time r i c)
  unfolding on_decode_step
  decodes-IsTallied time r i c h = elim (Option-cases (get c.requests r)) [
    | inl e ↦ rw (e, on_decode_step) h
    | inr (x, e) ↦ elim (Bool-cases (i == 0)) [
      | inl b ↦ rw (e, on_decode_step, b) (first-IsTallied time r x x.ttft c h)
      | inr b ↦
          rw (e, on_decode_step, b) (later-IsTallied time r (get c.last_decode_step_time r) c h)
    ]
  ]

  batch-IsTallied : (o : Option ℕ) (c : Collector F) → IsTallied c → IsTallied (count_batch F o c)
  unfolding count_batch
  batch-IsTallied none c h = h
  batch-IsTallied (some size) c h =
      let longer = length-append c.batch_size_samples (size ∷ []) in
      let total = sum-snoc c.batch_size_samples size in
      let before = h.generated in
      let few = h.dual in
      record {
        completed = h.completed;
        generated = omega arith;
        transferred_once = h.transferred_once;
        chunked = h.chunked;
        dual = ground arith;
      }

  -- what IsTallied says once one request more is complete than has chunks
  chunks-IsTallied :
      (o : Option ℕ) (c : Collector F)
      → IsTallied c
      → length c.chunked_prefill_steps < c.completed_count
      → IsTallied (count_chunks F o c)
  unfolding count_chunks
  chunks-IsTallied none c h few = h
  chunks-IsTallied (some n) c h few =
      let longer = length-append c.chunked_prefill_steps (n ∷ []) in
      record {
        completed = h.completed;
        generated = h.generated;
        transferred_once = h.transferred_once;
        chunked = omega arith;
        dual = h.dual;
      }

  decoded-IsTallied :
      (time : Num) (r : ℕ) (c : Collector F)
      → IsTallied c
      → IsTallied (on_decode_complete F time r c)
  unfolding on_decode_complete
  decoded-IsTallied time r c h = elim (Option-cases (get c.requests r)) [
    | inl e ↦ rw (e, on_decode_complete) h
    | inr (x, e) ↦
        let longer = length-append c.e2e_per_request (F.minus time x.arrival_time ∷ []) in
        let before = h.completed in
        let few = h.chunked in
        rw (e, on_decode_complete)
          (chunks-IsTallied (get c.request_n_chunks r) _
            (record {
              completed = omega arith;
              generated = h.generated;
              transferred_once = h.transferred_once;
              chunked = omega arith;
              dual = h.dual;
            })
            (omega arith))
  ]

  see-IsTallied : (e : Seen) (c : Collector F) → IsTallied c → IsTallied (see e c)
  unfolding see on_arrive on_rejected on_prefill_complete on_prefill_start on_kv_transfer_start
      on_decode_batch_step
  see-IsTallied (arrived t r n a b) c h =
      same-IsTallied c _ (refl, refl, refl, refl, refl, refl, refl, refl) h
  see-IsTallied (placed r m k p d) c h = scheduled-IsTallied r m k p d c h
  see-IsTallied (refused r) c h =
      same-IsTallied c _ (refl, refl, refl, refl, refl, refl, refl, refl) h
  see-IsTallied (prefilled r) c h =
      same-IsTallied c _ (refl, refl, refl, refl, refl, refl, refl, refl) h
  see-IsTallied (prefills r n) c h =
      same-IsTallied c _ (refl, refl, refl, refl, refl, refl, refl, refl) h
  see-IsTallied (transfers t) c h =
      same-IsTallied c _ (refl, refl, refl, refl, refl, refl, refl, refl) h
  see-IsTallied (transferred t k q) c h = transferred-IsTallied t k q c h
  see-IsTallied (decodes t r i) c h = decodes-IsTallied t r i c h
  see-IsTallied (ticks b d) c h = batch-IsTallied (or_else F b d) c h
  see-IsTallied (decoded t r) c h = decoded-IsTallied t r c h

  keeps-IsTallied : (es : List Seen) (c : Collector F) → IsTallied c → IsTallied (see_all es c)
  unfolding see_all
  keeps-IsTallied [] c h = h
  keeps-IsTallied (e ∷ es) c h = keeps-IsTallied es (see e c) (see-IsTallied e c h)

  -- After any events that a new metrics collector sees: it has one end-to-end sample for each
  -- completed request, the generated tokens are the sum of the batch sizes, there are as many
  -- queued as cost samples of KV transfers, no more chunk samples than completed requests, and no
  -- more dual-phase ticks than batch samples.
  pub see_all-IsTallied : (es : List Seen) → IsTallied (see_all es (init F))
  unfolding init sum
  see_all-IsTallied es = keeps-IsTallied es (init F) (record {
    completed = refl;
    generated = refl;
    transferred_once = refl;
    chunked = omega arith;
    dual = omega arith;
  })
