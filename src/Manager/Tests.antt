-- ===== src/Manager/Tests.antt =====
-- A node that has cached one prompt and then takes a longer one, for which it demotes.
use nano_kvrouter.Prelude.{ℕ, ◌≡◌, refl, arith, ltb, some, [], ◌∷◌, ok}
use nano_kvrouter.Prelude.Dict.{get}
use nano_kvrouter.Prelude.Float.{units}
use nano_kvrouter.Pool.Invariant.{init-IsConsistent, init-IsFresh}
use nano_kvrouter.Tree.Cache.{init-IsValid}
use nano_kvrouter.Manager.{Manager, NodeCache, init_node}
use nano_kvrouter.Manager.Lookup.{CacheLookup, Costs, lookup}
use nano_kvrouter.Manager.Admit.{admit, make_room, rank}
use nano_kvrouter.Manager.Termination.{make_room_ends}
use nano_kvrouter.Prelude.{suc, ◌≢◌, raise, out_of_fuel}
use nano_kvrouter.Manager.Answers.{IsAnswer, lookup-IsAnswer}
use nano_kvrouter.Manager.Soundness.{IsSound}
use nano_kvrouter.Manager.Admissions.{admit-IsSound}

abbrev fresh : NodeCache ℕ
fresh = init_node 2 3 1 1

fresh-IsSound : IsSound (λ k. k) fresh
unfolding init_node
fresh-IsSound = ((init-IsConsistent 3 1 1, init-IsFresh 3 1 1 (λ k. k)), init-IsValid ℕ 2)

abbrev used : NodeCache ℕ
used = (admit (λ k. k) ltb 1 2 2 3 (7 ∷ 8 ∷ 9 ∷ 9 ∷ []) fresh).1

used-IsSound : IsSound (λ k. k) used
used-IsSound =
    admit-IsSound (λ k. k) (λ i j e. e) ltb 1 2 2 3 (7 ∷ 8 ∷ 9 ∷ 9 ∷ []) fresh fresh-IsSound

admit-IsSound_example :
    IsSound (λ k. k) (admit (λ k. k) ltb 3 4 2 3 (5 ∷ 5 ∷ 5 ∷ 6 ∷ 5 ∷ []) used).1
admit-IsSound_example =
    admit-IsSound (λ k. k) (λ i j e. e) ltb 3 4 2 3 (5 ∷ 5 ∷ 5 ∷ 6 ∷ 5 ∷ []) used used-IsSound

abbrev costs : Costs units
costs = record { kv_bytes_per_token = 3; gpu_to_gpu = 5; gpu_to_cpu = 4; cpu_to_disk = 2 }

abbrev cluster : Manager ℕ
cluster = record { block_size = 2; gpu_capacity = 3; nodes = (0, used) ∷ []; tables = [] }

cluster_node : get cluster.nodes 0 ≡ some used
unfolding get
cluster_node = refl

lookup-IsAnswer_example :
    (a : CacheLookup units) × ((lookup units costs 5 (7 ∷ 8 ∷ 9 ∷ 9 ∷ 1 ∷ []) 0 cluster).0 ≡ ok a)
    × IsAnswer units 2 5 a
lookup-IsAnswer_example =
    lookup-IsAnswer units costs 5 (7 ∷ 8 ∷ 9 ∷ 9 ∷ 1 ∷ []) 0 cluster used (omega arith) cluster_node
      used-IsSound.1

make_room_ends_example :
    (make_room (λ k. k) ltb 3 4 2 3 (suc (rank used.pool)) 3 used).0 ≢ raise out_of_fuel
make_room_ends_example =
    make_room_ends (λ k. k) (λ i j e. e) ltb 3 4 2 3 (suc (rank used.pool)) 3 used used-IsSound
      (omega arith)
