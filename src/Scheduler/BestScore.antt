-- ===== src/Scheduler/BestScore.antt =====
-- What E2 and the conductor choose, and what the conductor rejects.
use nano_kvrouter.Prelude.{
  ℕ, ◌≡◌, refl, map, Bool, false, not, ◌&&◌, List, [], ◌∷◌, Mem, All, All-Mem, Bool-cases, inl, inr,
  Result, ok, raise,
}
use nano_kvrouter.Prelude.Float.{Float, IsOrdered, less}
use nano_kvrouter.Prelude.Choice.{min_by-map, min_by, NoneLess, min_by-All, min_by-NoneLess}
use nano_kvrouter.Prelude.Keys.{pair_lt, pair_gt, pair_lt-IsKeyOrder, pair_gt-IsKeyOrder}
use nano_kvrouter.Pool.{gpu}
use nano_kvrouter.Scheduler.{
  Request, PoolNode, SchedulingDecision, CacheQuery, Setting, place, least_loaded, hit_in,
  is_rejected,
}
use nano_kvrouter.Scheduler.Queries.{Serves}
use nano_kvrouter.Scheduler.E2
use nano_kvrouter.Scheduler.Conductor
use nano_kvrouter.Scheduler.Optimal.{IsLeastLoaded, least_loaded-IsLeastLoaded}

module _ (F : Float) where
  open F use {Num, of_nat}

  -- one of the nodes, and none of them has a smaller key
  abbrev pub IsLeast : (PoolNode F → Num × ℕ) → PoolNode F → List (PoolNode F) → Type 0
  IsLeast key n ns = Mem n ns × NoneLess (λ a b. pair_lt F (key a) (key b)) n ns

  -- one of the nodes, and none of them has a greater score, or the same and a smaller id
  abbrev pub IsGreatest : (PoolNode F → Num × ℕ) → PoolNode F → List (PoolNode F) → Type 0
  IsGreatest key n ns = Mem n ns × NoneLess (λ a b. pair_gt F (key a) (key b)) n ns

  abbrev pub free_or_none : Result ℕ → ℕ
  free_or_none (ok n) = n
  free_or_none (raise e) = 0

  -- the score of a node, with the blocks that are free on it after the lookups of the request
  abbrev pub e2_score :
      (q : CacheQuery F)
      → E2.Weights F
      → Setting F
      → Request F
      → q.State
      → PoolNode F
      → PoolNode F
      → Num
  e2_score q w c r s prefill n =
      E2.score F w c r prefill n (hit_in F (q.lookup_all r s).0 n)
        (free_or_none (q.free_blocks n.node_id gpu (q.lookup_all r s).1))

  -- On pools that have nodes, the conductor passes to its gate the placement on a least loaded
  -- prefill node and on a decode node with the greatest score, the smaller id first, if numbers
  -- are ordered as `IsOrdered` says.
  pub conductor_chooses :
      IsOrdered F
      → (q : CacheQuery F) (w : Conductor.Weights F) (c : Setting F) (r : Request F)
        (p d : PoolNode F) (ps ds : List (PoolNode F)) (s : q.State)
      → (prefill decode : PoolNode F) × ((Conductor.schedule F q w c r (p ∷ ps) (d ∷ ds) s).0
          ≡ ok (
              Conductor.gate F r
                (place F c prefill decode r (hit_in F (q.lookup_all r s).0 decode))))
        × IsLeastLoaded F prefill (p ∷ ps)
        × IsGreatest
            (λ n. (Conductor.score F w c r (q.lookup_all r s).0 n, n.node_id))
            decode
            (d ∷ ds)
  unfolding Conductor.schedule Conductor.best
  conductor_chooses o q w c r p d ps ds s =
      let key : PoolNode F → Num × ℕ =
        λ n. (Conductor.score F w c r (q.lookup_all r s).0 n, n.node_id) in
      (
        least_loaded F p ps,
        Conductor.best F w c r (q.lookup_all r s).0 d ds,
        refl,
        least_loaded-IsLeastLoaded F o p ps,
        (
          min_by-All _ (λ m. Mem m (d ∷ ds)) d ds (All-Mem (d ∷ ds)),
          min_by-NoneLess _ (pair_gt-IsKeyOrder F key o) d ds,
        ),
      )

  scores_answer :
      (q : CacheQuery F) (w : E2.Weights F) (c : Setting F) (r : Request F) (s : q.State)
      (prefill : PoolNode F) (ds : List (PoolNode F))
      → All (λ d. (n : ℕ) × (q.free_blocks d.node_id gpu (q.lookup_all r s).1 ≡ ok n)) ds
      → E2.scores F q w c r (q.lookup_all r s).0 (q.lookup_all r s).1 prefill ds
        ≡ ok (map (λ n. record { value = e2_score q w c r s prefill n; scored = n }) ds)
  unfolding E2.scores
  scores_answer q w c r s prefill [] h = refl
  scores_answer q w c r s prefill (d ∷ ds) h =
      let ((free, e), rest) = h in rw (e, scores_answer q w c r s prefill ds rest) refl

  -- On pools that have nodes, E2 places the request on a least loaded prefill node and on a
  -- decode node with the least score, the smaller id first, where a node's score is computed with
  -- the blocks that are free on it. It holds if the free blocks of the decode nodes can be asked
  -- for, and numbers are ordered as `IsOrdered` says.
  pub e2_chooses :
      IsOrdered F
      → (q : CacheQuery F) (w : E2.Weights F) (c : Setting F) (r : Request F) (p d : PoolNode F)
        (ps ds : List (PoolNode F)) (s : q.State)
      → Serves F q r (d ∷ ds) s
      → (prefill decode : PoolNode F) × ((E2.schedule F q w c r (p ∷ ps) (d ∷ ds) s).0
          ≡ ok (place F c prefill decode r (hit_in F (q.lookup_all r s).0 decode)))
        × IsLeastLoaded F prefill (p ∷ ps)
        × IsLeast (λ n. (e2_score q w c r s prefill n, n.node_id)) decode (d ∷ ds)
  unfolding E2.schedule E2.least_scored E2.scored_key
  e2_chooses o q w c r p d ps ds s serves =
      let prefill = least_loaded F p ps in
      let key : PoolNode F → Num × ℕ = λ n. (e2_score q w c r s prefill n, n.node_id) in
      let scored : PoolNode F → E2.Scored F =
        λ n. record { value = e2_score q w c r s prefill n; scored = n } in
      let chosen =
        min_by-map (λ a b. pair_lt F (E2.scored_key F a) (E2.scored_key F b)) scored d ds in
      (
        prefill,
        min_by (λ a b. pair_lt F (key a) (key b)) d ds,
        rw (scores_answer q w c r s prefill (d ∷ ds) serves.free, chosen) refl,
        least_loaded-IsLeastLoaded F o p ps,
        (
          min_by-All _ (λ m. Mem m (d ∷ ds)) d ds (All-Mem (d ∷ ds)),
          min_by-NoneLess _ (pair_lt-IsKeyOrder F key o) d ds,
        ),
      )

  -- whether a decision keeps to the targets of the request, by its own estimates
  abbrev pub meets_slo : Request F → SchedulingDecision F → Bool
  meets_slo r d =
      not (less F r.slo_ttft d.estimated_ttft_ms) && not (less F r.slo_tbt d.estimated_tbt_ms)

  -- The gate keeps the estimates, and rejects what does not keep to the targets.
  gate_verdict :
      (r : Request F) (d : SchedulingDecision F)
      → is_rejected F d ≡ false
      → ((Conductor.gate F r d).estimated_ttft_ms ≡ d.estimated_ttft_ms)
        × ((Conductor.gate F r d).estimated_tbt_ms ≡ d.estimated_tbt_ms)
        × (is_rejected F (Conductor.gate F r d) ≡ not (meets_slo r d))
  unfolding Conductor.gate is_rejected
  gate_verdict r d h = elim (Bool-cases (less F r.slo_ttft d.estimated_ttft_ms)) [
    | inl e ↦ rw e (refl, refl, refl)
    | inr e ↦ elim (Bool-cases (less F r.slo_tbt d.estimated_tbt_ms)) [
      | inl f ↦ rw (e, f) (refl, refl, refl)
      | inr f ↦ rw (e, f) (refl, refl, h)
    ]
  ]

  -- On pools that have nodes, the conductor returns a decision, and rejects exactly if one of the
  -- estimates of that decision is above the request's target.
  pub conductor_admits :
      (q : CacheQuery F) (w : Conductor.Weights F) (c : Setting F) (r : Request F)
      (p d : PoolNode F) (ps ds : List (PoolNode F)) (s : q.State)
      → (decision : SchedulingDecision F) × ((Conductor.schedule F q w c r (p ∷ ps) (d ∷ ds) s).0
          ≡ ok decision)
        × (is_rejected F decision ≡ not (meets_slo r decision))
  unfolding Conductor.schedule is_rejected
  conductor_admits q w c r p d ps ds s =
      let lookups = (q.lookup_all r s).0 in
      let decode = Conductor.best F w c r lookups d ds in
      let placed = place F c (least_loaded F p ps) decode r (hit_in F lookups decode) in
      let (ttft, tbt, verdict) = gate_verdict r placed refl in
      (Conductor.gate F r placed, refl, rw (ttft, tbt) verdict)
