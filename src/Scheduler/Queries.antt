-- ===== src/Scheduler/Queries.antt =====
-- The views of the cache that a policy may be given: `CacheManager`, and `NullCacheQuery` of
-- scheduler/_testing.py; and what a policy relies on when it asks them.
use nano_kvrouter.Prelude.{
  ℕ, ◌≡◌, refl, ◌⊎◌, inl, inr, true, List, [], ◌∷◌, All, if◌then◌else◌, Bool-cases, Result, ok,
  raise, key_error, Option-cases, arith, All_imp,
}
use nano_kvrouter.Prelude.Dict.{Dict, get, put, has, has-none}
use nano_kvrouter.Prelude.Sets.{mem}
use nano_kvrouter.Prelude.Float.{Float}
use nano_kvrouter.Pool.{gpu, tier_free}
use nano_kvrouter.Manager.{NodeCache, Manager, on_node}
use nano_kvrouter.Manager.Lookup.{
  CacheLookup, no_hit, Costs, lookup, lookup_node, lookup_nodes, lookup_all, free_blocks, answer,
}
use nano_kvrouter.Tree.{match_prefix_path}
use nano_kvrouter.Scheduler.{Request, PoolNode, CacheQuery, hit_of, caught}

module _ (F : Float) where
  open F use {Num}

  -- `CacheManager` with its clock at `now`
  abbrev pub manager_query : {T : Type 0} → Costs F → T → CacheQuery F
  manager_query {T} k now = record {
    State = Manager T;
    lookup = λ r i m. lookup F k now r.token_ids i m;
    lookup_all = λ r m. lookup_all F k now r.token_ids m;
    free_blocks = λ i t m. free_blocks i t m;
  }

  -- {nid: CacheLookup(0, {}, 0.0) for nid in ids}, into a dict
  unfoldable pub null_lookups : Dict (CacheLookup F) → List ℕ → Dict (CacheLookup F)
  unfolding put no_hit
  null_lookups d [] = d
  null_lookups d (i ∷ is) = null_lookups (put d i (no_hit F)) is

  abbrev pub null_query : List ℕ → ℕ → CacheQuery F
  null_query ids count = record {
    State = Unit;
    lookup = λ r i s. (if mem i ids then ok (no_hit F) else raise key_error, s);
    lookup_all = λ r s. (null_lookups [] ids, s);
    free_blocks = λ i t s. if mem i ids then ok count else raise key_error;
  }

  -- A lookup answers, or does not know the node; the blocks of each decode node are counted after
  -- the lookups of the request.
  pub record Serves (q : CacheQuery F) (r : Request F) (ds : List (PoolNode F)) (s : q.State)
      : Type 0 where
    pub hit :
        (i : ℕ)
        → ((l : CacheLookup F) × ((q.lookup r i s).0 ≡ ok l))
          ⊎ ((q.lookup r i s).0 ≡ raise key_error)
    pub free : All (λ d. (n : ℕ) × (q.free_blocks d.node_id gpu (q.lookup_all r s).1 ≡ ok n)) ds

  pub caught_answers :
      {S : Type 0} (x : Result (CacheLookup F) × S)
      → ((l : CacheLookup F) × (x.0 ≡ ok l)) ⊎ (x.0 ≡ raise key_error)
      → (l : CacheLookup F) × ((caught F x).0 ≡ ok l)
  unfolding caught
  caught_answers (x, s) (inl (l, e)) = (l, rw e refl)
  caught_answers (x, s) (inr e) = (no_hit F, rw e refl)

  pub hit_of_answers :
      (q : CacheQuery F) (r : Request F) (ds : List (PoolNode F)) (s : q.State) (d : PoolNode F)
      → Serves q r ds s
      → (l : CacheLookup F) × ((hit_of F q r d s).0 ≡ ok l)
  unfolding hit_of
  hit_of_answers q r ds s d h = caught_answers (q.lookup r d.node_id s) (h.hit d.node_id)

  pub null-Serves :
      (ids : List ℕ) (count : ℕ) (r : Request F) (ds : List (PoolNode F))
      → All (λ d. mem d.node_id ids ≡ true) ds
      → Serves (null_query ids count) r ds tt
  null-Serves ids count r ds h = record {
    hit = λ i. elim (Bool-cases (mem i ids)) [
      | inl c ↦ inl (no_hit F, rw c refl)
      | inr c ↦ inr (rw c refl)
    ];
    free = All_imp (λ d. mem d.node_id ids ≡ true) _ ds (λ d c. (count, rw c refl)) h;
  }

  lookup_answers :
      {T : Type 0} (k : Costs F) (now : T) (ts : List ℕ) (i : ℕ) (m : Manager T)
      → ((l : CacheLookup F) × ((lookup F k now ts i m).0 ≡ ok l))
        ⊎ ((lookup F k now ts i m).0 ≡ raise key_error)
  unfolding lookup lookup_node on_node
  lookup_answers k now ts i m = elim (Option-cases (get m.nodes i)) [
    | inl c ↦ inr (rw (c, on_node) refl)
    | inr (n, c) ↦
        inl
          (answer F k m.block_size n.pool (match_prefix_path now ts n.tree).0, rw (c, on_node) refl)
  ]

  has-lookup_nodes :
      {T : Type 0} (k : Costs F) (bs : ℕ) (now : T) (ts : List ℕ) (nodes : Dict (NodeCache T))
      (i : ℕ)
      → has nodes i ≡ true
      → has (lookup_nodes F k bs now ts nodes).1 i ≡ true
  unfolding lookup_nodes has get
  has-lookup_nodes k bs now ts [] i h = h
  has-lookup_nodes k bs now ts ((j, c) ∷ nodes) i h =
      ground (arith, has-lookup_nodes k bs now ts nodes i)

  free_blocks_answers :
      {T : Type 0} (i : ℕ) (m : Manager T)
      → has m.nodes i ≡ true
      → (n : ℕ) × (free_blocks i gpu m ≡ ok n)
  unfolding free_blocks has
  free_blocks_answers i m h = elim (Option-cases (get m.nodes i)) [
    | inl c ↦ let absent = has-none m.nodes i c in cc
    | inr (n, c) ↦ (tier_free n.pool.gpu_tier, rw (c, free_blocks) refl)
  ]

  -- The cache manager, with its nodes in any state, is a view of the cache that serves the
  -- policies, if it knows the decode nodes: each lookup answers or does not know its node, and
  -- the free blocks of each decode node can be asked for after the lookups of a request.
  pub manager-Serves :
      {T : Type 0} (k : Costs F) (now : T) (r : Request F) (ds : List (PoolNode F)) (m : Manager T)
      → All (λ d. has m.nodes d.node_id ≡ true) ds
      → Serves (manager_query k now) r ds m
  unfolding lookup_all
  manager-Serves k now r ds m h = record {
    hit = λ i. lookup_answers k now r.token_ids i m;
    free =
        All_imp (λ d. has m.nodes d.node_id ≡ true) _ ds
          (λ d c.
            free_blocks_answers d.node_id (lookup_all F k now r.token_ids m).1
              (has-lookup_nodes k m.block_size now r.token_ids m.nodes d.node_id c))
          h;
  }
