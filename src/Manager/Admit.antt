-- ===== src/Manager/Admit.antt =====
-- `admit`: room on the GPU tier by demotion, then the insertion.
use nano_kvrouter.Prelude.{
  ℕ, zero, suc, ◌+◌, ◌*◌, ◌/◌, Bool, true, false, List, [], ◌∷◌, Exec, next, ok, raise,
  memory_error, out_of_fuel, length, take, leb, ltb, ◌==◌, if◌then◌else◌, min,
}
use nano_kvrouter.Prelude.Count.{positive}
use nano_kvrouter.Pool.{BlockPool, gpu, pin_count, tiers_of, allocate, free}
use nano_kvrouter.Tree.{match_prefix_path, insert}
use nano_kvrouter.Tree.Evict.{demote_lru}
use nano_kvrouter.Tree.Purge.{purge_path_with_any_dead}
use nano_kvrouter.Manager.{NodeCache, alive}
use nano_kvrouter.Manager.Demote.{demote_lists}

-- A bound on the demotions that a pool has left: a block can go down at most three steps.
unfoldable pub rank : BlockPool → ℕ
rank p =
    3 * length p.gpu_tier.allocated + 2 * length p.cpu_tier.allocated + length p.disk_tier.allocated

-- `lt` compares times, `now` is the clock's value, and `later` that plus 1e-9.
module _ {T : Type 0} (uuid : ℕ → ℕ) (lt : T → T → Bool) (now later : T) (bs capacity : ℕ) where
  -- The `while` of `admit`: `need` is `worst_case_new`.
  unfoldable pub make_room : ℕ → ℕ → Exec (NodeCache T) (Unit {0})
  unfolding demote_lru demote_lists alive pin_count positive
  make_room zero need c = (raise out_of_fuel, c)
  make_room (suc fuel) need c = elim (ltb capacity (length c.pool.gpu_tier.allocated + need)) [
    | false ↦ (ok tt, c)
    | true ↦
        let chosen =
          demote_lru lt (alive (c.pool)) (λ b. positive (pin_count (c.pool) b)) later 1 c.tree in
        let c' = record c { tree = chosen.1 } in
        elim (chosen.0) [
          | [] ↦ (raise memory_error, c')
          | ids ∷ more ↦ next (λ _. make_room fuel need) (demote_lists (ids ∷ more) c')
        ]
  ]

  -- `tree.insert(aligned_tokens)`, with `pool.allocate(n, "gpu")` for `mint`
  unfoldable pub insert_tokens : List ℕ → Exec (NodeCache T) (Unit {0})
  unfolding insert
  insert_tokens ts c =
      let (out, tree, pool) =
        insert (λ n. allocate uuid n gpu) c.tree.block_size now ts c.tree c.pool in
      (elim out [ ok ids ↦ ok tt | raise e ↦ raise e ], record { tree = tree; pool = pool })

  -- What follows the fast path.
  unfoldable pub admit_new : ℕ → List ℕ → Exec (NodeCache T) (Unit {0})
  unfolding make_room insert_tokens rank
  admit_new total ts c =
      if ltb capacity total
      then (raise memory_error, c)
      else next (λ _. insert_tokens ts) (make_room (suc (rank c.pool)) (min (total + 1) capacity) c)

  -- The path of tokens that are cached with every block alive, or else purged of dead nodes.
  unfoldable pub admit_aligned : ℕ → List ℕ → Exec (NodeCache T) (Unit {0})
  unfolding match_prefix_path admit_new purge_path_with_any_dead tiers_of alive
  admit_aligned total ts c =
      let (found, tree) = match_prefix_path now ts c.tree in
      let c' = record c { tree = tree } in
      if leb total (found.0 / bs)
      then (if length (tiers_of c.pool (take total found.1)) == total
          then (ok tt, c')
          else let (out, tree', pool') = purge_path_with_any_dead alive free ts tree c.pool in
            next (λ _. admit_new total ts) (out, record { tree = tree'; pool = pool' }))
      else admit_new total ts c'

  unfoldable pub admit : List ℕ → Exec (NodeCache T) (Unit {0})
  unfolding admit_aligned
  admit token_ids c =
      let total = length token_ids / bs in
      if total == 0 then (ok tt, c) else admit_aligned total (take (total * bs) token_ids) c
