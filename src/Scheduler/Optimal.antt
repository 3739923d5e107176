-- ===== src/Scheduler/Optimal.antt =====
-- What the policies choose, against descriptions of the best node.
use nano_kvrouter.Prelude.{◌≡◌, ap, List, ◌∷◌, Mem, All, All-Mem, ok, next_ok, return_value}
use nano_kvrouter.Prelude.Float.{Float, IsOrdered}
use nano_kvrouter.Prelude.Choice.{NoneLess, min_by-All, min_by-NoneLess}
use nano_kvrouter.Prelude.Keys.{pair_lt, pair_lt-IsKeyOrder}
use nano_kvrouter.Manager.Lookup.{CacheLookup}
use nano_kvrouter.Scheduler.{
  Request, PoolNode, CacheQuery, Setting, place, load_key, least_loaded, hit_of,
}
use nano_kvrouter.Scheduler.Queries.{Serves, hit_of_answers}
use nano_kvrouter.Scheduler.LeastLoaded

module _ (F : Float) where
  open F use {Num, of_nat, leq, over}

  -- one of the nodes, and none of them has a smaller load, or the same and a smaller id
  abbrev pub IsLeastLoaded : PoolNode F → List (PoolNode F) → Type 0
  IsLeastLoaded n ns = Mem n ns × NoneLess (λ a b. pair_lt F (load_key F a) (load_key F b)) n ns

  pub least_loaded-All :
      (P : PoolNode F → Type 0) (n : PoolNode F) (ns : List (PoolNode F))
      → All P (n ∷ ns)
      → P (least_loaded F n ns)
  unfolding least_loaded
  least_loaded-All P n ns h = min_by-All _ P n ns h

  -- The choice of the policies for the prefill, and of LeastLoaded for both.
  pub least_loaded-IsLeastLoaded :
      IsOrdered F
      → (n : PoolNode F) (ns : List (PoolNode F)) → IsLeastLoaded (least_loaded F n ns) (n ∷ ns)
  unfolding least_loaded
  least_loaded-IsLeastLoaded o n ns = (
    min_by-All _ (λ x. Mem x (n ∷ ns)) n ns (All-Mem (n ∷ ns)),
    min_by-NoneLess _ (pair_lt-IsKeyOrder F (load_key F) o) n ns,
  )

  -- On pools that have nodes, LeastLoaded places the request on a least loaded node of each, the
  -- smaller id first, if the lookups of the cache answer or do not know their node, and numbers
  -- are ordered as `IsOrdered` says.
  pub schedule-IsLeastLoaded :
      IsOrdered F
      → (q : CacheQuery F) (c : Setting F) (r : Request F) (p d : PoolNode F)
        (ps ds : List (PoolNode F)) (s : q.State)
      → Serves F q r (d ∷ ds) s
      → (prefill : PoolNode F) × (decode : PoolNode F) × (hit : CacheLookup F)
        × ((LeastLoaded.schedule F q c r (p ∷ ps) (d ∷ ds) s).0
            ≡ ok (place F c prefill decode r hit))
        × IsLeastLoaded prefill (p ∷ ps)
        × IsLeastLoaded decode (d ∷ ds)
  unfolding LeastLoaded.schedule
  schedule-IsLeastLoaded o q c r p d ps ds s serves =
      let prefill = least_loaded F p ps in
      let decode = least_loaded F d ds in
      let (hit, e) = hit_of_answers F q r (d ∷ ds) s decode serves in
      (
        prefill,
        decode,
        hit,
        ap (λ x. x.0)
            (next_ok (hit_of F q r decode s) hit (λ h. return_value (place F c prefill decode r h))
              e),
        least_loaded-IsLeastLoaded o p ps,
        least_loaded-IsLeastLoaded o d ds,
      )
