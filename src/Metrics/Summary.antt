-- ===== src/Metrics/Summary.antt =====
-- metrics/collector.py: the rate of the requests whose first token met its target, in `summary`.
use nano_kvrouter.Prelude.{ℕ, suc, Option, none, some, List, [], ◌∷◌, length, if◌then◌else◌}
use nano_kvrouter.Prelude.Dict.{Dict}
use nano_kvrouter.Prelude.Float.{Float}
use nano_kvrouter.Metrics.{Entry, Collector}

module _ (F : Float) where
  open F use {Num, of_nat, leq, over}

  unfoldable pub keep_eligible : Option Num → Num → List (Num × Num) → List (Num × Num)
  keep_eligible none slo ps = ps
  keep_eligible (some ttft) slo ps = (ttft, slo) ∷ ps

  unfoldable pub eligible : Dict (Entry F) → List (Num × Num)
  unfolding keep_eligible
  eligible [] = []
  eligible ((r, e) ∷ d) = keep_eligible e.ttft e.slo_ttft (eligible d)

  unfoldable pub hits : List (Num × Num) → ℕ
  hits [] = 0
  hits ((ttft, slo) ∷ ps) = let rest = hits ps in if leq ttft slo then suc rest else rest

  unfoldable pub rate_of : List (Num × Num) → Option Num
  unfolding hits
  rate_of [] = none
  rate_of (p ∷ ps) = some (over (of_nat (hits (p ∷ ps))) (of_nat (length (p ∷ ps))))

  unfoldable pub slo_ttft_hit_rate : Collector F → Option Num
  unfolding eligible rate_of
  slo_ttft_hit_rate c = rate_of (eligible c.requests)
