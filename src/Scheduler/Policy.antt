-- ===== src/Scheduler/Policy.antt =====
-- `_build_scheduler` of cli.py: one of the five policies by its name.
use nano_kvrouter.Prelude.{Option, none, some, List, Result, ok, raise, value_error, ◌>>=◌}
use nano_kvrouter.Prelude.Float.{Float}
use nano_kvrouter.Scheduler.{Request, PoolNode, SchedulingDecision, CacheQuery, Setting}
use nano_kvrouter.Scheduler.RoundRobin
use nano_kvrouter.Scheduler.LeastLoaded
use nano_kvrouter.Scheduler.PrefixGreedy
use nano_kvrouter.Scheduler.E2
use nano_kvrouter.Scheduler.Conductor

-- the names that `_build_scheduler` knows, and every other string
pub data Name : Type 0 where
  round_robin least_loaded prefix_greedy e2_policy conductor other : Name

module _ (F : Float) where
  open F use {Num, of_nat, over}

  -- the parameters of a policy, as `float` reads them, where the configuration has them
  pub record Params : Type 0 where
    pub min_hit_ratio : Option Num
    pub w_historical : Option Num
    pub w_eviction : Option Num
    pub w_run : Option Num
    pub alpha : Option Num
    pub beta : Option Num
    pub gamma : Option Num

  pub data Policy : Type 0 where
    rotating : RoundRobin.RoundRobin → Policy
    loaded : Policy
    greedy : Num → Policy
    scoring : E2.Weights F → Policy
    conducting : Conductor.Weights F → Policy

  -- float(params.get(name, default))
  unfoldable pub param : Option Num → Num → Num
  param none default = default
  param (some v) default = v

  unfoldable pub build_scheduler : Name → Params → Result Policy
  unfolding param PrefixGreedy.create E2.create Conductor.create RoundRobin.init
  build_scheduler round_robin k = ok (rotating (RoundRobin.init))
  build_scheduler least_loaded k = ok loaded
  build_scheduler prefix_greedy k =
      PrefixGreedy.create F (param k.min_hit_ratio (over (of_nat 1) (of_nat 4))) >>= λ ratio.
      ok (greedy ratio)
  build_scheduler e2_policy k =
      E2.create F (record {
        w_historical = param k.w_historical (of_nat 1);
        w_eviction = param k.w_eviction (of_nat 1);
        w_run = param k.w_run (of_nat 1);
      })
      >>= λ w. ok (scoring w)
  build_scheduler conductor k =
      Conductor.create F (record {
        alpha = param k.alpha (of_nat 1);
        beta = param k.beta (of_nat 1);
        gamma = param k.gamma (of_nat 1);
      })
      >>= λ w. ok (conducting w)
  build_scheduler other k = raise value_error

  -- `schedule` of the policy; only round robin has a state
  unfoldable pub schedule :
      (q : CacheQuery F)
      → Setting F
      → Request F
      → List (PoolNode F)
      → List (PoolNode F)
      → Policy × q.State
      → Result (SchedulingDecision F) × (Policy × q.State)
  unfolding RoundRobin.schedule LeastLoaded.schedule PrefixGreedy.schedule E2.schedule
      Conductor.schedule
  schedule q c r ps ds (rotating w, s) =
      let (decision, (w2, s2)) = RoundRobin.schedule F q c r ps ds (w, s) in
      (decision, (rotating w2, s2))
  schedule q c r ps ds (loaded, s) =
      let (decision, s2) = LeastLoaded.schedule F q c r ps ds s in (decision, (loaded, s2))
  schedule q c r ps ds (greedy ratio, s) =
      let (decision, s2) = PrefixGreedy.schedule F q ratio c r ps ds s in
      (decision, (greedy ratio, s2))
  schedule q c r ps ds (scoring w, s) =
      let (decision, s2) = E2.schedule F q w c r ps ds s in (decision, (scoring w, s2))
  schedule q c r ps ds (conducting w, s) =
      let (decision, s2) = Conductor.schedule F q w c r ps ds s in (decision, (conducting w, s2))
