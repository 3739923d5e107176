-- ===== src/Scheduler/PrefixGreedy.antt =====
-- scheduler/prefix_greedy.py: `PrefixGreedyPolicy`, whose only parameter is `min_hit_ratio`.
use nano_kvrouter.Prelude.{
  ℕ, max, Bool, ◌&&◌, ◌||◌, List, [], ◌∷◌, length, if◌then◌else◌, ◌==◌, Result, ok, raise,
  value_error, ◌>>=◌, Exec, select,
}
use nano_kvrouter.Prelude.Dict.{Dict}
use nano_kvrouter.Prelude.Float.{Float, less}
use nano_kvrouter.Manager.Lookup.{CacheLookup}
use nano_kvrouter.Scheduler.{
  Request, PoolNode, SchedulingDecision, CacheQuery, Setting, no_nodes, place, least_loaded, hit_in,
}

module _ (F : Float) where
  open F use {Num, of_nat, leq, plus, minus, times, over}

  unfoldable pub create : Num → Result Num
  create ratio =
      if leq (of_nat 0) ratio && leq ratio (of_nat 1) then ok ratio else raise value_error

  -- max(matched for _, matched in hits), for the nodes d ∷ ds
  unfoldable pub max_hit : Dict (CacheLookup F) → PoolNode F → List (PoolNode F) → ℕ
  unfolding hit_in
  max_hit lookups d [] = (hit_in F lookups d).matched_tokens
  max_hit lookups d (e ∷ es) = max (hit_in F lookups d).matched_tokens (max_hit lookups e es)

  unfoldable pub use_fallback : Num → ℕ → ℕ → Bool
  unfolding less
  use_fallback ratio prompt_len hit =
      (prompt_len == 0) || less F (over (of_nat hit) (of_nat prompt_len)) ratio

  -- the least loaded of a list; `min` of no item is a `ValueError`
  unfoldable pub least_of : List (PoolNode F) → Result (PoolNode F)
  unfolding least_loaded
  least_of [] = raise value_error
  least_of (n ∷ ns) = ok (least_loaded F n ns)

  -- the nodes with the best hit
  unfoldable pub best : Dict (CacheLookup F) → List (PoolNode F) → ℕ → List (PoolNode F)
  unfolding hit_in
  best lookups ds hit = select (λ n. (hit_in F lookups n).matched_tokens == hit) ds

  unfoldable pub choose :
      Num → Dict (CacheLookup F) → ℕ → PoolNode F → List (PoolNode F) → Result (PoolNode F)
  unfolding max_hit use_fallback least_of best
  choose ratio lookups prompt_len d ds =
      let hit = max_hit lookups d ds in
      if use_fallback ratio prompt_len hit
      then least_of (d ∷ ds)
      else least_of (best lookups (d ∷ ds) hit)

  unfoldable pub schedule :
      (q : CacheQuery F)
      → Num
      → Setting F
      → Request F
      → List (PoolNode F)
      → List (PoolNode F)
      → Exec q.State (SchedulingDecision F)
  unfolding choose least_loaded hit_in place
  schedule q ratio c r [] ds s = (ok (no_nodes F), s)
  schedule q ratio c r ps [] s = (ok (no_nodes F), s)
  schedule q ratio c r (p ∷ ps) (d ∷ ds) s =
      let (lookups, s2) = q.lookup_all r s in
      let chosen = choose ratio lookups (length r.token_ids) d ds in
      let prefill = least_loaded F p ps in
      (chosen >>= λ decode. ok (place F c prefill decode r (hit_in F lookups decode)), s2)
