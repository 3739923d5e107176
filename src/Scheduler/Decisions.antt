-- ===== src/Scheduler/Decisions.antt =====
-- What every policy answers: both nodes, each of its pool, or a rejection with a reason; and what
-- `_build_scheduler` builds.
use nano_kvrouter.Prelude.{◌≡◌, refl, ◌⊎◌, inl, inr, none, some, List, [], ◌∷◌, Mem, Bool-cases, ok}
use nano_kvrouter.Prelude.Float.{Float, IsOrdered, less}
use nano_kvrouter.Manager.Lookup.{CacheLookup}
use nano_kvrouter.Scheduler.{
  RejectReason, no_nodes_available, ttft_slo_exceeded, tbt_slo_exceeded, Request, PoolNode,
  SchedulingDecision, CacheQuery, Setting, place, no_nodes, hit_in,
}
use nano_kvrouter.Scheduler.Queries.{Serves, hit_of_answers}
use nano_kvrouter.Scheduler.Optimal.{schedule-IsLeastLoaded}
use nano_kvrouter.Scheduler.BestHit.{prefix_greedy_chooses}
use nano_kvrouter.Scheduler.BestScore.{e2_chooses, conductor_chooses}
use nano_kvrouter.Scheduler.Rotation.{item-Mem}
use nano_kvrouter.Scheduler.RoundRobin.{turn_of}
use nano_kvrouter.Scheduler.RoundRobin
use nano_kvrouter.Scheduler.LeastLoaded
use nano_kvrouter.Scheduler.PrefixGreedy
use nano_kvrouter.Scheduler.E2
use nano_kvrouter.Scheduler.Conductor
use nano_kvrouter.Scheduler.Policy.{Policy, rotating, loaded, greedy, scoring, conducting, schedule}

module _ (F : Float) where
  open F use {Num}

  -- a node of each pool
  abbrev pub IsPlacement : List (PoolNode F) → List (PoolNode F) → SchedulingDecision F → Type 0
  IsPlacement ps ds a =
      (p d : PoolNode F) × Mem p ps
      × Mem d ds
      × (a.prefill_node ≡ some p.node_id)
      × (a.decode_node ≡ some d.node_id)
      × (a.reject_reason ≡ none)

  abbrev pub IsRejection : SchedulingDecision F → Type 0
  IsRejection a =
      (why : RejectReason) × (a.prefill_node ≡ none)
      × (a.decode_node ≡ none)
      × (a.reject_reason ≡ some why)

  abbrev pub IsDecision : List (PoolNode F) → List (PoolNode F) → SchedulingDecision F → Type 0
  IsDecision ps ds a = IsPlacement ps ds a ⊎ IsRejection a

  place-IsPlacement :
      (ps ds : List (PoolNode F)) (c : Setting F) (p d : PoolNode F) (r : Request F)
      (hit : CacheLookup F)
      → Mem p ps
      → Mem d ds
      → IsPlacement ps ds (place F c p d r hit)
  unfolding place
  place-IsPlacement ps ds c p d r hit m n = (p, d, m, n, refl, refl, refl)

  gate-IsDecision :
      (ps ds : List (PoolNode F)) (r : Request F) (a : SchedulingDecision F)
      → IsPlacement ps ds a
      → IsDecision ps ds (Conductor.gate F r a)
  unfolding Conductor.gate
  gate-IsDecision ps ds r a h = elim (Bool-cases (less F r.slo_ttft a.estimated_ttft_ms)) [
    | inl e ↦ rw e (inr (ttft_slo_exceeded, refl, refl, refl))
    | inr e ↦ elim (Bool-cases (less F r.slo_tbt a.estimated_tbt_ms)) [
      | inl f ↦ rw (e, f) (inr (tbt_slo_exceeded, refl, refl, refl))
      | inr f ↦ rw (e, f) (inl h)
    ]
  ]

  no_prefill :
      (q : CacheQuery F) (c : Setting F) (r : Request F) (policy : Policy F)
      (ds : List (PoolNode F)) (s : q.State)
      → (schedule F q c r [] ds (policy, s)).0 ≡ ok (no_nodes F)
  unfolding schedule RoundRobin.schedule LeastLoaded.schedule PrefixGreedy.schedule E2.schedule
      Conductor.schedule
  no_prefill q c r (rotating w) ds s = refl
  no_prefill q c r loaded ds s = refl
  no_prefill q c r (greedy w) ds s = refl
  no_prefill q c r (scoring w) ds s = refl
  no_prefill q c r (conducting w) ds s = refl

  no_decode :
      (q : CacheQuery F) (c : Setting F) (r : Request F) (policy : Policy F) (p : PoolNode F)
      (ps : List (PoolNode F)) (s : q.State)
      → (schedule F q c r (p ∷ ps) [] (policy, s)).0 ≡ ok (no_nodes F)
  unfolding schedule RoundRobin.schedule LeastLoaded.schedule PrefixGreedy.schedule E2.schedule
      Conductor.schedule
  no_decode q c r (rotating w) p ps s = refl
  no_decode q c r loaded p ps s = refl
  no_decode q c r (greedy w) p ps s = refl
  no_decode q c r (scoring w) p ps s = refl
  no_decode q c r (conducting w) p ps s = refl

  -- Whatever the policy, the nodes and the request, `schedule` returns a decision that is well
  -- formed: either it names a node of the prefill pool and one of the decode pool and has no
  -- reason, or it names no node and has a reason. It holds if each lookup of the cache answers or
  -- does not know its node, the free blocks of the decode nodes can be asked for, and numbers are
  -- ordered as `IsOrdered` says.
  pub schedule-IsDecision :
      IsOrdered F
      → (q : CacheQuery F) (c : Setting F) (r : Request F) (policy : Policy F)
        (ps ds : List (PoolNode F)) (s : q.State)
      → Serves F q r ds s
      → (a : SchedulingDecision F) × ((schedule F q c r ps ds (policy, s)).0 ≡ ok a)
        × IsDecision ps ds a
  unfolding schedule RoundRobin.schedule LeastLoaded.schedule PrefixGreedy.schedule E2.schedule
      Conductor.schedule
  schedule-IsDecision o q c r policy [] ds s serves =
      (no_nodes F, no_prefill q c r policy ds s, inr (no_nodes_available, refl, refl, refl))
  schedule-IsDecision o q c r policy (p ∷ ps) [] s serves =
      (no_nodes F, no_decode q c r policy p ps s, inr (no_nodes_available, refl, refl, refl))
  schedule-IsDecision o q c r (rotating w) (p ∷ ps) (d ∷ ds) s serves =
      let prefill = turn_of F w.prefill_cursor p ps in
      let decode = turn_of F w.decode_cursor d ds in
      let (hit, e) = hit_of_answers F q r (d ∷ ds) s decode serves in
      (
        place F c prefill decode r hit,
        rw e refl,
        inl (place-IsPlacement _ _ c prefill decode r hit (item-Mem p ps _) (item-Mem d ds _)),
      )
  schedule-IsDecision o q c r loaded (p ∷ ps) (d ∷ ds) s serves =
      let (prefill, decode, hit, e, m, n) = schedule-IsLeastLoaded F o q c r p d ps ds s serves in
      (
        place F c prefill decode r hit,
        e,
        inl (place-IsPlacement _ _ c prefill decode r hit m.0 n.0),
      )
  schedule-IsDecision o q c r (greedy ratio) (p ∷ ps) (d ∷ ds) s serves =
      let (prefill, decode, e, m, n) = prefix_greedy_chooses F o q ratio c r p d ps ds s in
      let hit = hit_in F (q.lookup_all r s).0 decode in
      (
        place F c prefill decode r hit,
        e,
        inl (
            place-IsPlacement _ _ c prefill decode r hit m.0
              (elim n [ inl k ↦ k.1.0 | inr k ↦ k.0 ])),
      )
  schedule-IsDecision o q c r (scoring w) (p ∷ ps) (d ∷ ds) s serves =
      let (prefill, decode, e, m, n) = e2_chooses F o q w c r p d ps ds s serves in
      let hit = hit_in F (q.lookup_all r s).0 decode in
      (
        place F c prefill decode r hit,
        e,
        inl (place-IsPlacement _ _ c prefill decode r hit m.0 n.0),
      )
  schedule-IsDecision o q c r (conducting w) (p ∷ ps) (d ∷ ds) s serves =
      let (prefill, decode, e, m, n) = conductor_chooses F o q w c r p d ps ds s in
      let hit = hit_in F (q.lookup_all r s).0 decode in
      let placed = place F c prefill decode r hit in
      (
        Conductor.gate F r placed,
        e,
        gate-IsDecision (p ∷ ps) (d ∷ ds) r placed
            (place-IsPlacement _ _ c prefill decode r hit m.0 n.0),
      )
