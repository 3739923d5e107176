-- ===== src/Manager/Demote.antt =====
-- `_demote_block`: one block down the tiers, GPU to CPU to disk to free.
use nano_kvrouter.Prelude.{
  ℕ, none, some, List, [], ◌∷◌, Exec, next, ok, raise, memory_error, ltb, if◌then◌else◌,
}
use nano_kvrouter.Prelude.Count.{positive}
use nano_kvrouter.Pool.{Tier, gpu, cpu, disk, unknown, tier_of, pin_count, tier_free, move, free}
use nano_kvrouter.Tree.Purge.{purge_block_ids}
use nano_kvrouter.Manager.{NodeCache, alive}

module _ {T : Type 0} where
  -- `pool.move(bid, f, t)`
  unfoldable pub move_block : ℕ → Tier → Tier → Exec (NodeCache T) (Unit {0})
  move_block b f t c = elim (move (c.pool) b f t) [
    | ok q ↦ (ok tt, record c { pool = q })
    | raise e ↦ (raise e, c)
  ]

  -- `pool.free([bid])`, and the tree drops the leaf that is left without blocks
  unfoldable pub free_block : ℕ → Exec (NodeCache T) (Unit {0})
  unfolding alive purge_block_ids
  free_block b c = elim (free (b ∷ []) (c.pool)) [
    | ok q ↦ (ok tt, record { tree = (purge_block_ids (alive q) (b ∷ []) c.tree).1; pool = q })
    | raise e ↦ (raise e, c)
  ]

  unfoldable pub demote_from : Tier → ℕ → Exec (NodeCache T) (Unit {0})
  unfolding move_block free_block tier_free
  demote_from gpu b c =
      if ltb 0 (tier_free c.pool.cpu_tier)
      then move_block b gpu cpu c
      else if ltb 0 (tier_free c.pool.disk_tier)
      then move_block b gpu disk c
      else free_block b c
  demote_from cpu b c =
      if ltb 0 (tier_free c.pool.disk_tier) then move_block b cpu disk c else free_block b c
  demote_from disk b c = free_block b c
  demote_from unknown b c = (ok tt, c)

  unfoldable pub demote_block : ℕ → Exec (NodeCache T) (Unit {0})
  unfolding demote_from tier_of pin_count positive
  demote_block b c = elim (tier_of c.pool b) [
    | none ↦ (ok tt, c)
    | some t ↦ if positive (pin_count c.pool b) then (raise memory_error, c) else demote_from t b c
  ]

  -- for bid in bid_list: _demote_block(pool, tree, bid)
  unfoldable pub demote_blocks : List ℕ → Exec (NodeCache T) (Unit {0})
  unfolding demote_block
  demote_blocks [] c = (ok tt, c)
  demote_blocks (b ∷ bs) c = next (λ _. demote_blocks bs) (demote_block b c)

  unfoldable pub demote_lists : List (List ℕ) → Exec (NodeCache T) (Unit {0})
  unfolding demote_blocks
  demote_lists [] c = (ok tt, c)
  demote_lists (bs ∷ rest) c = next (λ _. demote_lists rest) (demote_blocks bs c)
