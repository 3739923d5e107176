-- ===== src/Manager/Lookup.antt =====
-- `lookup`, `lookup_all` and `free_blocks`: what the schedulers ask of the cache, and `CacheLookup`
-- of scheduler/base.py.
use nano_kvrouter.Prelude.{
  ℕ, ◌+◌, ◌*◌, ◌/◌, none, some, List, [], ◌∷◌, Result, ok, raise, key_error, take, ltb, ◌==◌,
  if◌then◌else◌,
}
use nano_kvrouter.Prelude.Dict.{Dict, get}
use nano_kvrouter.Prelude.Float.{Float}
use nano_kvrouter.Pool.{BlockPool, Tier, gpu, cpu, disk, unknown, tiers_of, tier_free}
use nano_kvrouter.Tree.{match_prefix_path}
use nano_kvrouter.Manager.{NodeCache, Manager, on_node}

-- `matched_blocks_by_tier`: a tier that is not in the dict counts 0
pub record TierCounts : Type 0 where
  pub on_gpu : ℕ
  pub on_cpu : ℕ
  pub on_disk : ℕ

abbrev pub no_counts : TierCounts
no_counts = record { on_gpu = 0; on_cpu = 0; on_disk = 0 }

-- `tier_counts[t] = tier_counts.get(t, 0) + 1`
unfoldable pub count_tier : Tier → TierCounts → TierCounts
count_tier gpu n = record n { on_gpu = n.on_gpu + 1 }
count_tier cpu n = record n { on_cpu = n.on_cpu + 1 }
count_tier disk n = record n { on_disk = n.on_disk + 1 }
count_tier unknown n = n

-- The loop over `relevant_bids`; a freed block counts nowhere.
unfoldable pub count_tiers : Dict Tier → List ℕ → TierCounts → TierCounts
unfolding count_tier
count_tiers tiers [] n = n
count_tiers tiers (b ∷ bs) n = elim (get tiers b) [
  | none ↦ count_tiers tiers bs n
  | some t ↦ count_tiers tiers bs (count_tier t n)
]

unfoldable pub total_count : TierCounts → ℕ
total_count n = n.on_gpu + n.on_cpu + n.on_disk

module _ (F : Float) where
  open F use {Num, of_nat, plus, times, over}

  pub record CacheLookup : Type 0 where
    pub matched_tokens : ℕ
    pub by_tier : TierCounts
    pub transfer_cost_ms : Num

  unfoldable pub no_hit : CacheLookup
  no_hit = record { matched_tokens = 0; by_tier = no_counts; transfer_cost_ms = of_nat 0 }

  -- `BandwidthConfig` and `kv_bytes_per_token`
  pub record Costs : Type 0 where
    pub kv_bytes_per_token : ℕ
    pub gpu_to_gpu : Num
    pub gpu_to_cpu : Num
    pub cpu_to_disk : Num

  -- The time to load the blocks that are not on the GPU; those on disk pay both hops.
  unfoldable pub transfer_cost : Costs → ℕ → TierCounts → Num
  transfer_cost k bs n =
      let per_block = of_nat (bs * k.kv_bytes_per_token) in
      let cpu_load : Num =
        if ltb 0 n.on_cpu
        then times (over (times (of_nat n.on_cpu) per_block) k.gpu_to_cpu) (of_nat 1000)
        else of_nat 0 in
      let disk_load : Num =
        if ltb 0 n.on_disk
        then times
            (times (times (of_nat n.on_disk) per_block)
              (plus (over (of_nat 1) k.cpu_to_disk) (over (of_nat 1) k.gpu_to_cpu)))
            (of_nat 1000)
        else of_nat 0 in
      plus cpu_load disk_load

  -- The answer from the matched tokens and the ids on the matched path.
  unfoldable pub answer : Costs → ℕ → BlockPool → ℕ × List ℕ → CacheLookup
  unfolding no_hit count_tiers total_count transfer_cost tiers_of
  answer k bs p found =
      let matched = found.0 / bs in
      let relevant = take matched found.1 in
      let counts = count_tiers (tiers_of p relevant) relevant no_counts in
      if matched == 0 then no_hit else if total_count counts == 0 then no_hit else record {
        matched_tokens = total_count counts * bs;
        by_tier = counts;
        transfer_cost_ms = transfer_cost k bs counts;
      }

  -- `lookup` on the cache of the node. It returns the cache too, as the match stamps the nodes that it
  -- passes.
  unfoldable pub lookup_node :
      {T : Type 0} → Costs → ℕ → T → List ℕ → NodeCache T → Result CacheLookup × NodeCache T
  unfolding answer match_prefix_path
  lookup_node k bs now ts c =
      let (found, tree) = match_prefix_path now ts c.tree in
      (ok (answer k bs c.pool found), record c { tree = tree })

  unfoldable pub lookup :
      {T : Type 0} → Costs → T → List ℕ → ℕ → Manager T → Result CacheLookup × Manager T
  unfolding lookup_node on_node
  lookup k now ts node m = on_node node (lookup_node k m.block_size now ts) m

  unfoldable pub lookup_nodes :
      {T : Type 0}
      → Costs
      → ℕ
      → T
      → List ℕ
      → Dict (NodeCache T)
      → Dict CacheLookup × Dict (NodeCache T)
  unfolding answer match_prefix_path
  lookup_nodes k bs now ts [] = ([], [])
  lookup_nodes k bs now ts ((i, c) ∷ nodes) =
      let (found, tree) = match_prefix_path now ts c.tree in
      let rest = lookup_nodes k bs now ts nodes in
      ((i, answer k bs c.pool found) ∷ rest.0, (i, record c { tree = tree }) ∷ rest.1)

  unfoldable pub lookup_all :
      {T : Type 0} → Costs → T → List ℕ → Manager T → Dict CacheLookup × Manager T
  unfolding lookup_nodes
  lookup_all k now ts m =
      let done = lookup_nodes k m.block_size now ts m.nodes in (done.0, record m { nodes = done.1 })

-- `free_blocks`; an unknown tier is a `KeyError` here
unfoldable pub free_blocks : {T : Type 0} → ℕ → Tier → Manager T → Result ℕ
unfolding tier_free
free_blocks i t m = elim (get m.nodes i) [
  | none ↦ raise key_error
  | some c ↦ elim t [
    | gpu ↦ ok (tier_free c.pool.gpu_tier)
    | cpu ↦ ok (tier_free c.pool.cpu_tier)
    | disk ↦ ok (tier_free c.pool.disk_tier)
    | unknown ↦ raise key_error
  ]
]
