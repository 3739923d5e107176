-- ===== src/Scheduler/LeastLoaded.antt =====
-- scheduler/least_loaded.py: `LeastLoadedPolicy`.
use nano_kvrouter.Prelude.{List, [], ◌∷◌, ok, Exec, next, return_value}
use nano_kvrouter.Prelude.Float.{Float}
use nano_kvrouter.Scheduler.{
  Request, PoolNode, SchedulingDecision, CacheQuery, Setting, no_nodes, place, least_loaded, hit_of,
}

module _ (F : Float) where
  open F use {Num, of_nat, leq, plus, minus, times, over}

  unfoldable pub schedule :
      (q : CacheQuery F)
      → Setting F
      → Request F
      → List (PoolNode F)
      → List (PoolNode F)
      → Exec q.State (SchedulingDecision F)
  unfolding least_loaded hit_of place
  schedule q c r [] ds s = (ok (no_nodes F), s)
  schedule q c r ps [] s = (ok (no_nodes F), s)
  schedule q c r (p ∷ ps) (d ∷ ds) s =
      let prefill = least_loaded F p ps in
      let decode = least_loaded F d ds in
      next (λ hit. return_value (place F c prefill decode r hit)) (hit_of F q r decode s)
