-- ===== src/Scheduler/BestHit.antt =====
-- What PrefixGreedy chooses.
use nano_kvrouter.Prelude.{
  ℕ, ◌≤◌, ◌≡◌, refl, sym, subst, true, List, [], ◌∷◌, Mem, All, All-Mem, All_imp, All-select,
  select-All, length, ◌==◌, arith, Bool-cases, List-cases, ◌≢◌, ◌⊎◌, inl, inr, ok, select,
}
use nano_kvrouter.Prelude.Dict.{Dict}
use nano_kvrouter.Prelude.Float.{Float, IsOrdered}
use nano_kvrouter.Manager.Lookup.{CacheLookup}
use nano_kvrouter.Scheduler.{Request, PoolNode, CacheQuery, Setting, place, least_loaded, hit_in}
use nano_kvrouter.Scheduler.PrefixGreedy
use nano_kvrouter.Scheduler.Optimal.{IsLeastLoaded, least_loaded-All, least_loaded-IsLeastLoaded}

module _ (F : Float) where
  open F use {Num}

  -- how many tokens a node has of the request, of the answers to a lookup
  abbrev pub matched : Dict (CacheLookup F) → PoolNode F → ℕ
  matched lookups n = (hit_in F lookups n).matched_tokens

  abbrev pub nodes_with : Dict (CacheLookup F) → ℕ → List (PoolNode F) → List (PoolNode F)
  nodes_with lookups k ns = select (λ n. matched lookups n == k) ns

  -- no node has a better hit, and the node is the least loaded of those with this hit
  abbrev pub IsBestHit : Dict (CacheLookup F) → PoolNode F → List (PoolNode F) → Type 0
  IsBestHit lookups n ns =
      Mem n ns
      × All (λ m. matched lookups m ≤ matched lookups n) ns
      × IsLeastLoaded F n (nodes_with lookups (matched lookups n) ns)

  module _ (lookups : Dict (CacheLookup F)) where
    max_hit_bounds :
        (d : PoolNode F) (ds : List (PoolNode F))
        → All (λ m. matched lookups m ≤ PrefixGreedy.max_hit F lookups d ds) (d ∷ ds)
    unfolding PrefixGreedy.max_hit
    max_hit_bounds d [] = (omega arith, tt)
    max_hit_bounds d (e ∷ es) = (
      omega arith,
      All_imp (λ m. matched lookups m ≤ PrefixGreedy.max_hit F lookups e es) _ (e ∷ es)
          (λ m h. omega arith) (max_hit_bounds e es),
    )

    nodes_with-max_hit :
        (k : ℕ) (d : PoolNode F) (ds : List (PoolNode F))
        → PrefixGreedy.max_hit F lookups d ds ≡ k
        → nodes_with lookups k (d ∷ ds) ≢ []
    unfolding PrefixGreedy.max_hit
    nodes_with-max_hit k d [] h e = ground arith
    nodes_with-max_hit k d (f ∷ es) h e = ground (arith, nodes_with-max_hit k f es)

    choose_best :
        IsOrdered F
        → (d : PoolNode F) (ds : List (PoolNode F))
        → (n : PoolNode F) × (PrefixGreedy.least_of F
              (PrefixGreedy.best F lookups (d ∷ ds) (PrefixGreedy.max_hit F lookups d ds))
            ≡ ok n)
          × IsBestHit lookups n (d ∷ ds)
    unfolding PrefixGreedy.least_of PrefixGreedy.best
    choose_best o d ds =
        let ns = d ∷ ds in
        let hit = PrefixGreedy.max_hit F lookups d ds in
        elim (List-cases (nodes_with lookups hit ns)) [
          | inl c ↦ absurd (nodes_with-max_hit hit d ds refl c)
          | inr (y, ys, c) ↦ (
            least_loaded F y ys,
            rw (c, PrefixGreedy.best) refl,
            best_of hit ns y ys c (max_hit_bounds d ds),
          )
        ]
      where
        best_of :
            (hit : ℕ) (ns : List (PoolNode F)) (y : PoolNode F) (ys : List (PoolNode F))
            → nodes_with lookups hit ns ≡ y ∷ ys
            → All (λ m. matched lookups m ≤ hit) ns
            → IsBestHit lookups (least_loaded F y ys) ns
        best_of hit ns y ys c bounds =
            let n = least_loaded F y ys in
            let within : Mem n ns =
              least_loaded-All F (λ m. Mem m ns) y ys
                (subst (All (λ m. Mem m ns)) c (All-select (λ m. Mem m ns) _ ns (All-Mem ns))) in
            let same : (matched lookups n == hit) ≡ true =
              least_loaded-All F (λ m. (matched lookups m == hit) ≡ true) y ys
                (subst (All (λ m. (matched lookups m == hit) ≡ true)) c (select-All _ ns)) in
            let equal : hit ≡ matched lookups n = ground arith in
            (
              within,
              subst (λ k. All (λ m. matched lookups m ≤ k) ns) equal bounds,
              subst (λ k. IsLeastLoaded F n (nodes_with lookups k ns)) equal
                  (subst (IsLeastLoaded F n) (sym c) (least_loaded-IsLeastLoaded F o y ys)),
            )

  -- On pools that have nodes, PrefixGreedy places the request on a least loaded prefill node, and
  -- on a decode node than which none has a better hit, and which is the least loaded of those
  -- with this hit; where use_fallback holds of the best hit, it may be a least loaded decode node
  -- instead. Ties of load go to the smaller id. It holds if numbers are ordered as `IsOrdered`
  -- says.
  pub prefix_greedy_chooses :
      IsOrdered F
      → (q : CacheQuery F) (ratio : Num) (c : Setting F) (r : Request F) (p d : PoolNode F)
        (ps ds : List (PoolNode F)) (s : q.State)
      → (prefill decode : PoolNode F) × ((PrefixGreedy.schedule F q ratio c r (p ∷ ps) (d ∷ ds) s).0
          ≡ ok (place F c prefill decode r (hit_in F (q.lookup_all r s).0 decode)))
        × IsLeastLoaded F prefill (p ∷ ps)
        × (((PrefixGreedy.use_fallback F ratio
                  (length r.token_ids)
                  (PrefixGreedy.max_hit F (q.lookup_all r s).0 d ds)
                ≡ true)
              × IsLeastLoaded F decode (d ∷ ds))
            ⊎ IsBestHit (q.lookup_all r s).0 decode (d ∷ ds))
  unfolding PrefixGreedy.schedule PrefixGreedy.choose PrefixGreedy.least_of
  prefix_greedy_chooses o q ratio c r p d ps ds s =
      let lookups = (q.lookup_all r s).0 in
      let hit = PrefixGreedy.max_hit F lookups d ds in
      let prefill = least_loaded-IsLeastLoaded F o p ps in
      elim (Bool-cases (PrefixGreedy.use_fallback F ratio (length r.token_ids) hit)) [
        | inl e ↦ (
          least_loaded F p ps,
          least_loaded F d ds,
          rw e refl,
          prefill,
          inl (e, least_loaded-IsLeastLoaded F o d ds),
        )
        | inr e ↦
            let (n, chosen, optimal) = choose_best lookups o d ds in
            (least_loaded F p ps, n, rw (e, chosen) refl, prefill, inr optimal)
      ]
