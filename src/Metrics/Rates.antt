-- ===== src/Metrics/Rates.antt =====
-- The samples of the collector and the rate of the requests whose first token met its target.
use nano_kvrouter.Prelude.{
  ℕ, ◌+◌, ◌≤◌, ◌<◌, ◌==◌, ◌≡◌, refl, inl, inr, Option, none, some, List, [], ◌∷◌, length,
  length-append, arith, Bool-cases, Option-cases, List-cases, sym, ◌∙◌, ◌≢◌, suc, true, false,
}
use nano_kvrouter.Prelude.Dict.{Dict, get, put}
use nano_kvrouter.Prelude.Float.{Float}
use nano_kvrouter.Manager.Lookup.{TierCounts}
use nano_kvrouter.Metrics.{
  Entry, Collector, init, has_id, on_arrive, on_scheduled, on_rejected, on_prefill_start,
  on_prefill_complete, on_kv_transfer_start, on_kv_transfer_complete, first_token, later_token,
  on_decode_step, count_batch, on_decode_batch_step, or_else, count_chunks, on_decode_complete,
}
use nano_kvrouter.Metrics.Counts.{
  Seen, arrived, placed, refused, prefills, prefilled, transfers, transferred, decodes, ticks,
  decoded, see, see_all,
}
use nano_kvrouter.Metrics.Summary.{keep_eligible, eligible, hits, rate_of, slo_ttft_hit_rate}

module _ (F : Float) where
  open F use {Num, of_nat, leq, over}

  -- whether an entry has its first token
  unfoldable weight : Option Num → ℕ
  weight none = 0
  weight (some t) = 1

  length-keep_eligible :
      (o : Option Num) (slo : Num) (ps : List (Num × Num))
      → length (keep_eligible F o slo ps) ≡ weight o + length ps
  unfolding keep_eligible weight
  length-keep_eligible none slo ps = omega arith
  length-keep_eligible (some t) slo ps = omega arith

  -- how many requests have their first token
  unfoldable many : Dict (Entry F) → ℕ
  unfolding weight
  many [] = 0
  many ((r, e) ∷ d) = weight e.ttft + many d

  length-eligible : (d : Dict (Entry F)) → length (eligible F d) ≡ many d
  unfolding eligible many
  length-eligible [] = refl
  length-eligible ((r, e) ∷ d) =
      let one = length-keep_eligible e.ttft e.slo_ttft (eligible F d) in
      let rest = length-eligible d in omega arith

  unfoldable weight_of : Option (Entry F) → ℕ
  unfolding weight
  weight_of none = 0
  weight_of (some e) = weight e.ttft

  -- What an entry adds when it is stored, and what the one that it replaces had added.
  many-put :
      (d : Dict (Entry F)) (r : ℕ) (new : Entry F)
      → many (put d r new) + weight_of (get d r) ≡ many d + weight new.ttft
  unfolding get put many weight_of
  many-put [] r new = omega arith
  many-put ((j, x) ∷ d) r new =
      let rest = many-put d r new in
      elim (Bool-cases (j == r)) [
        | inl b ↦ rw (b, get, put, many, weight_of) (omega arith)
        | inr b ↦ rw (b, get, put, many, weight_of) (omega arith)
      ]

  many-replace :
      (d : Dict (Entry F)) (r : ℕ) (old new : Entry F)
      → get d r ≡ some old
      → many (put d r new) + weight old.ttft ≡ many d + weight new.ttft
  unfolding weight_of
  many-replace d r old new found = rw (found, weight_of) at (many-put d r new)

  hits_le : (ps : List (Num × Num)) → hits F ps ≤ length ps
  unfolding hits
  hits_le [] = omega arith
  hits_le ((ttft, slo) ∷ ps) = let h = hits_le ps in ground arith

  -- no more requests have their first token than there are samples of the time to it
  abbrev IsSampled : Collector F → Type 0
  IsSampled c = many c.requests ≤ length c.ttft_per_request

  scheduled-IsSampled :
      (r m : ℕ) (k : TierCounts) (p d : Option ℕ) (c : Collector F)
      → IsSampled c
      → IsSampled (on_scheduled F r m k p d c)
  unfolding on_scheduled
  scheduled-IsSampled r m k p d c h = elim (Option-cases (get c.requests r)) [
    | inl e ↦ rw (e, on_scheduled) h
    | inr (x, e) ↦
        let stored =
          many-replace c.requests r x
            (record x { matched_tokens = some m; prefill_node = p; decode_node = d }) e in
        rw (e, on_scheduled) (omega arith)
  ]

  first-IsSampled :
      (time : Num) (r : ℕ) (e : Entry F) (o : Option Num) (c : Collector F)
      → get c.requests r ≡ some e
      → e.ttft ≡ o
      → IsSampled c
      → IsSampled (first_token F time r e o c)
  unfolding first_token weight
  first-IsSampled time r e (some t) c found had h = h
  first-IsSampled time r e none c found had h =
      let first = F.minus time e.arrival_time in
      let longer = length-append c.ttft_per_request (first ∷ []) in
      let stored =
        rw (had, weight) at (many-replace c.requests r e (record e { ttft = some first }) found) in
      omega arith

  later-IsSampled :
      (time : Num) (r : ℕ) (o : Option Num) (c : Collector F)
      → IsSampled c
      → IsSampled (later_token F time r o c)
  unfolding later_token
  later-IsSampled time r none c h = h
  later-IsSampled time r (some t) c h = h

  decodes-IsSampled :
      (time : Num) (r i : ℕ) (c : Collector F)
      → IsSampled c
      → IsSampled (on_decode_step F time r i c)
  unfolding on_decode_step
  decodes-IsSampled time r i c h = elim (Option-cases (get c.requests r)) [
    | inl e ↦ rw (e, on_decode_step) h
    | inr (x, e) ↦ elim (Bool-cases (i == 0)) [
      | inl b ↦ rw (e, on_decode_step, b) (first-IsSampled time r x x.ttft c e refl h)
      | inr b ↦
          rw (e, on_decode_step, b) (later-IsSampled time r (get c.last_decode_step_time r) c h)
    ]
  ]

  transferred-IsSampled :
      (t : ℕ × ℕ) (cost queued : Num) (c : Collector F)
      → IsSampled c
      → IsSampled (on_kv_transfer_complete F t cost queued c)
  unfolding on_kv_transfer_complete
  transferred-IsSampled t cost queued c h = elim (Bool-cases (has_id t c.seen_transfer_ids)) [
    | inl e ↦ rw e h
    | inr e ↦ rw e h
  ]

  batch-IsSampled : (o : Option ℕ) (c : Collector F) → IsSampled c → IsSampled (count_batch F o c)
  unfolding count_batch
  batch-IsSampled none c h = h
  batch-IsSampled (some n) c h = h

  chunks-IsSampled : (o : Option ℕ) (c : Collector F) → IsSampled c → IsSampled (count_chunks F o c)
  unfolding count_chunks
  chunks-IsSampled none c h = h
  chunks-IsSampled (some n) c h = h

  decoded-IsSampled :
      (time : Num) (r : ℕ) (c : Collector F)
      → IsSampled c
      → IsSampled (on_decode_complete F time r c)
  unfolding on_decode_complete
  decoded-IsSampled time r c h = elim (Option-cases (get c.requests r)) [
    | inl e ↦ rw (e, on_decode_complete) h
    | inr (x, e) ↦ rw (e, on_decode_complete) (chunks-IsSampled (get c.request_n_chunks r) _ h)
  ]

  arrived-IsSampled :
      (t : Num) (r n : ℕ) (a b : Num) (c : Collector F)
      → IsSampled c
      → IsSampled (on_arrive F t r n a b c)
  unfolding on_arrive weight
  arrived-IsSampled t r n a b c h =
      let stored = many-put c.requests r (record {
        arrival_time = t;
        token_count = n;
        slo_ttft = a;
        slo_tbt = b;
        matched_tokens = none;
        prefill_node = none;
        decode_node = none;
        ttft = none;
      }) in
      omega arith

  see-IsSampled : (e : Seen F) (c : Collector F) → IsSampled c → IsSampled (see F e c)
  unfolding see on_rejected on_prefill_complete on_prefill_start on_kv_transfer_start
      on_decode_batch_step
  see-IsSampled (arrived t r n a b) c h = arrived-IsSampled t r n a b c h
  see-IsSampled (placed r m k p d) c h = scheduled-IsSampled r m k p d c h
  see-IsSampled (refused r) c h = h
  see-IsSampled (prefilled r) c h = h
  see-IsSampled (prefills r n) c h = h
  see-IsSampled (transfers t) c h = h
  see-IsSampled (transferred t k q) c h = transferred-IsSampled t k q c h
  see-IsSampled (decodes t r i) c h = decodes-IsSampled t r i c h
  see-IsSampled (ticks b d) c h = batch-IsSampled (or_else F b d) c h
  see-IsSampled (decoded t r) c h = decoded-IsSampled t r c h

  keeps-IsSampled :
      (es : List (Seen F)) (c : Collector F) → IsSampled c → IsSampled (see_all F es c)
  unfolding see_all
  keeps-IsSampled [] c h = h
  keeps-IsSampled (e ∷ es) c h = keeps-IsSampled es (see F e c) (see-IsSampled e c h)

  -- n of the requests have the property
  pub data Tally (P : Entry F → Type 0) : Dict (Entry F) → ℕ → Type 0 where
    nobody : Tally P [] 0
    counted :
        {r n : ℕ} {e : Entry F} {d : Dict (Entry F)}
        → P e
        → Tally P d n
        → Tally P ((r, e) ∷ d) (suc n)
    passed :
        {r n : ℕ} {e : Entry F} {d : Dict (Entry F)} → ¬ P e → Tally P d n → Tally P ((r, e) ∷ d) n

  -- the request has its first token
  abbrev pub HasFirst : Entry F → Type 0
  HasFirst e = (t : Num) × (e.ttft ≡ some t)

  -- the request has its first token, in time
  abbrev pub IsHit : Entry F → Type 0
  IsHit e = (t : Num) × (e.ttft ≡ some t) × (leq t e.slo_ttft ≡ true)

  -- No rate where no request has its first token, or else the quotient of the hits and of those.
  pub data IsRate (d : Dict (Entry F)) (samples : ℕ) : Option Num → Type 0 where
    no_rate : Tally HasFirst d 0 → IsRate d samples none
    rate :
        (h n : ℕ)
        → Tally IsHit d h
        → Tally HasFirst d n
        → h ≤ n
        → 0 < n
        → n ≤ samples
        → IsRate d samples (some (over (of_nat h) (of_nat n)))

  no_first : (t : Num) → none ≢ some t
  no_first t e = cc

  same_first : (t u : Num) → some t ≡ some u → t ≡ u
  same_first t u e = cc

  first-Tally :
      (r : ℕ) (e : Entry F) (d : Dict (Entry F)) (o : Option Num) (ps : List (Num × Num))
      → e.ttft ≡ o
      → Tally HasFirst d (length ps)
      → Tally HasFirst ((r, e) ∷ d) (length (keep_eligible F o e.slo_ttft ps))
  unfolding keep_eligible
  first-Tally r e d none ps k h = passed (λ q. no_first q.0 (sym k ∙ q.1)) h
  first-Tally r e d (some t) ps k h = counted (t, k) h

  eligible-Tally : (d : Dict (Entry F)) → Tally HasFirst d (length (eligible F d))
  unfolding eligible
  eligible-Tally [] = nobody
  eligible-Tally ((r, e) ∷ d) = first-Tally r e d e.ttft (eligible F d) refl (eligible-Tally d)

  IsHit-Tally :
      (r : ℕ) (e : Entry F) (d : Dict (Entry F)) (o : Option Num) (ps : List (Num × Num))
      → e.ttft ≡ o
      → Tally IsHit d (hits F ps)
      → Tally IsHit ((r, e) ∷ d) (hits F (keep_eligible F o e.slo_ttft ps))
  unfolding keep_eligible hits
  IsHit-Tally r e d none ps k h = passed (λ q. no_first q.0 (sym k ∙ q.1)) h
  IsHit-Tally r e d (some t) ps k h = elim (Bool-cases (leq t e.slo_ttft)) [
    | inl b ↦ rw b (counted (t, k, b) h)
    | inr b ↦ rw b (passed (λ q. late t q.0 e.slo_ttft (same_first t q.0 (sym k ∙ q.1)) b q.2) h)
  ]
    where
      late : (t u slo : Num) → t ≡ u → leq t slo ≡ false → leq u slo ≡ true → ⊥
      late t u slo e b k = cc

  hits-Tally : (d : Dict (Entry F)) → Tally IsHit d (hits F (eligible F d))
  unfolding eligible hits
  hits-Tally [] = nobody
  hits-Tally ((r, e) ∷ d) = IsHit-Tally r e d e.ttft (eligible F d) refl (hits-Tally d)

  rate_of-IsRate :
      (d : Dict (Entry F)) (k : ℕ)
      → length (eligible F d) ≤ k
      → IsRate d k (rate_of F (eligible F d))
  unfolding rate_of
  rate_of-IsRate d k h =
      let of_hits = hits-Tally d in
      let of_first = eligible-Tally d in
      elim (List-cases (eligible F d)) [
        | inl e ↦ rw e (no_rate (rw e at of_first))
        | inr (p, ps, e) ↦
            rw (e, rate_of)
              (rate (hits F (p ∷ ps)) (length (p ∷ ps)) (rw e at of_hits) (rw e at of_first)
                (hits_le (p ∷ ps)) (omega arith) (rw e at h))
      ]

  -- After any events that a new metrics collector sees, slo_ttft_hit_rate is None if none of its
  -- requests has a first token, and otherwise the quotient of the number of requests whose first
  -- token came within the target and the number of requests that have a first token, which is at
  -- most the number of samples of the time to the first token.
  pub slo_ttft_hit_rate-IsRate :
      (es : List (Seen F))
      → IsRate
          (see_all F es (init F)).requests
          (length (see_all F es (init F)).ttft_per_request)
          (slo_ttft_hit_rate F (see_all F es (init F)))
  unfolding slo_ttft_hit_rate init many
  slo_ttft_hit_rate-IsRate es =
      let c = see_all F es (init F) in
      let few = keeps-IsSampled es (init F) (omega arith) in
      let same = length-eligible c.requests in
      rate_of-IsRate c.requests (length c.ttft_per_request) (omega arith)
