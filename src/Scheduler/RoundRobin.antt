-- ===== src/Scheduler/RoundRobin.antt =====
-- scheduler/round_robin.py: `RoundRobinPolicy`.
use nano_kvrouter.Prelude.{ℕ, zero, suc, ◌%◌, List, [], ◌∷◌, length, Result, ok, ◌>>=◌}
use nano_kvrouter.Prelude.Float.{Float}
use nano_kvrouter.Scheduler.{
  Request, PoolNode, SchedulingDecision, CacheQuery, Setting, no_nodes, place, hit_of,
}

pub record RoundRobin : Type 0 where
  pub prefill_cursor : ℕ
  pub decode_cursor : ℕ

unfoldable pub init : RoundRobin
init = record { prefill_cursor = 0; decode_cursor = 0 }

-- the item of the list x ∷ xs at an index that is in range
unfoldable pub item : {A : Type 0} → A → List A → ℕ → A
item x xs zero = x
item x [] (suc i) = x
item x (y ∷ ys) (suc i) = item y ys i

module _ (F : Float) where
  open F use {Num, of_nat, leq, plus, minus, times, over}

  -- nodes[cursor % len(nodes)]
  unfoldable pub turn_of : ℕ → PoolNode F → List (PoolNode F) → PoolNode F
  unfolding item
  turn_of cursor n ns = item n ns (cursor % suc (length ns))

  unfoldable pub schedule :
      (q : CacheQuery F)
      → Setting F
      → Request F
      → List (PoolNode F)
      → List (PoolNode F)
      → RoundRobin × q.State
      → Result (SchedulingDecision F) × (RoundRobin × q.State)
  unfolding turn_of hit_of place
  schedule q c r [] ds (w, s) = (ok (no_nodes F), (w, s))
  schedule q c r ps [] (w, s) = (ok (no_nodes F), (w, s))
  schedule q c r (p ∷ ps) (d ∷ ds) (w, s) =
      let prefill = turn_of w.prefill_cursor p ps in
      let decode = turn_of w.decode_cursor d ds in
      let moved : RoundRobin = record {
        prefill_cursor = suc w.prefill_cursor;
        decode_cursor = suc w.decode_cursor;
      } in
      let (hit, s2) = hit_of F q r decode s in
      (hit >>= λ m. ok (place F c prefill decode r m), (moved, s2))
