-- ===== src/Manager/Soundness.antt =====
-- What the calls of the manager keep true of the cache of a node, whether they return or raise.
use nano_kvrouter.Prelude.{
  ℕ, ◌≡◌, inl, inr, List, [], ◌∷◌, length, ltb, Bool-cases, Option-cases, ok, Result-cases,
  next-keeps,
}
use nano_kvrouter.Prelude.Count.{positive}
use nano_kvrouter.Pool.{
  BlockPool, Tier, gpu, cpu, disk, unknown, allocate, move, free, tier_of, tier_free, pin_count,
}
use nano_kvrouter.Pool.Invariant.{IsConsistent, IsFresh}
use nano_kvrouter.Pool.Allocations.{allocate-ok, length-draw}
use nano_kvrouter.Pool.History.{allocate_call, free_call, move_call, run_call, run_call-Sound}
use nano_kvrouter.Tree.Cache.{IsValid}
use nano_kvrouter.Tree.Removal.{purge_block_ids-Reduces}
use nano_kvrouter.Manager.{NodeCache, alive}
use nano_kvrouter.Manager.Demote.{
  move_block, free_block, demote_from, demote_block, demote_blocks, demote_lists,
}

module _ (uuid : ℕ → ℕ) where
  abbrev pub IsSoundPool : BlockPool → Type 0
  IsSoundPool p = IsConsistent p × IsFresh uuid p

  -- the pool and the tree of a node
  abbrev pub IsSound : {T : Type 0} → NodeCache T → Type 0
  IsSound c = IsSoundPool c.pool × IsValid c.tree

module _ (uuid : ℕ → ℕ) (injective : (i j : ℕ) → uuid i ≡ uuid j → i ≡ j) where
  move-IsSound :
      (p q : BlockPool) (b : ℕ) (f t : Tier)
      → IsSoundPool uuid p
      → move p b f t ≡ ok q
      → IsSoundPool uuid q
  unfolding run_call
  move-IsSound p q b f t s h = rw h at (run_call-Sound uuid injective p (move_call b f t) tt s)

  pub free-IsSound :
      (p q : BlockPool) (bs : List ℕ) → IsSoundPool uuid p → free bs p ≡ ok q → IsSoundPool uuid q
  unfolding run_call
  free-IsSound p q bs s h = rw h at (run_call-Sound uuid injective p (free_call bs) tt s)

  pub allocate-IsSound :
      (n : ℕ) (t : Tier) (p q : BlockPool) (ids : List ℕ)
      → allocate uuid n t p ≡ ok (ids, q)
      → IsSoundPool uuid p
      → IsSoundPool uuid q
  unfolding run_call
  allocate-IsSound n t p q ids h s =
      rw h at (run_call-Sound uuid injective p (allocate_call n t) tt s)

  pub length-allocate :
      (n : ℕ) (t : Tier) (p q : BlockPool) (ids : List ℕ)
      → allocate uuid n t p ≡ ok (ids, q)
      → length ids ≡ n
  length-allocate n t p q ids h =
      rw ((allocate-ok uuid n t p q ids h).0) (length-draw uuid n p.drawn)

  module _ {T : Type 0} where
    move_block-IsSound :
        (b : ℕ) (f t : Tier) (c : NodeCache T)
        → IsSound uuid c
        → IsSound uuid (move_block b f t c).1
    unfolding move_block
    move_block-IsSound b f t c s = elim (Result-cases (move c.pool b f t)) [
      | inr (e, bad) ↦ rw (bad, move_block) s
      | inl (q, good) ↦ rw (good, move_block) (move-IsSound c.pool q b f t s.0 good, s.1)
    ]

    free_block-IsSound :
        (b : ℕ) (c : NodeCache T) → IsSound uuid c → IsSound uuid (free_block b c).1
    unfolding free_block
    free_block-IsSound b c s = elim (Result-cases (free (b ∷ []) c.pool)) [
      | inr (e, bad) ↦ rw (bad, free_block) s
      | inl (q, good) ↦
          rw (good, free_block)
            (
              free-IsSound c.pool q (b ∷ []) s.0 good,
              (purge_block_ids-Reduces (alive q) (b ∷ []) c.tree s.1).1,
            )
    ]

    demote_from-IsSound :
        (t : Tier) (b : ℕ) (c : NodeCache T) → IsSound uuid c → IsSound uuid (demote_from t b c).1
    unfolding demote_from
    demote_from-IsSound gpu b c s = elim (Bool-cases (ltb 0 (tier_free c.pool.cpu_tier))) [
      | inl h ↦ rw h (move_block-IsSound b gpu cpu c s)
      | inr h ↦ elim (Bool-cases (ltb 0 (tier_free c.pool.disk_tier))) [
        | inl k ↦ rw (h, k) (move_block-IsSound b gpu disk c s)
        | inr k ↦ rw (h, k) (free_block-IsSound b c s)
      ]
    ]
    demote_from-IsSound cpu b c s = elim (Bool-cases (ltb 0 (tier_free c.pool.disk_tier))) [
      | inl h ↦ rw h (move_block-IsSound b cpu disk c s)
      | inr h ↦ rw h (free_block-IsSound b c s)
    ]
    demote_from-IsSound disk b c s = free_block-IsSound b c s
    demote_from-IsSound unknown b c s = s

    pub demote_block-IsSound :
        (b : ℕ) (c : NodeCache T) → IsSound uuid c → IsSound uuid (demote_block b c).1
    unfolding demote_block
    demote_block-IsSound b c s = elim (Option-cases (tier_of c.pool b)) [
      | inl h ↦ rw (h, demote_block) s
      | inr (t, h) ↦ elim (Bool-cases (positive (pin_count c.pool b))) [
        | inl k ↦ rw (h, k, demote_block) s
        | inr k ↦ rw (h, k, demote_block) (demote_from-IsSound t b c s)
      ]
    ]

    pub demote_blocks-IsSound :
        (bs : List ℕ) (c : NodeCache T) → IsSound uuid c → IsSound uuid (demote_blocks bs c).1
    unfolding demote_blocks
    demote_blocks-IsSound [] c s = s
    demote_blocks-IsSound (b ∷ bs) c s =
        next-keeps (IsSound uuid) (demote_block b c) (λ _. demote_blocks bs)
          (demote_block-IsSound b c s) (λ _ d k. demote_blocks-IsSound bs d k)

    pub demote_lists-IsSound :
        (bss : List (List ℕ)) (c : NodeCache T)
        → IsSound uuid c
        → IsSound uuid (demote_lists bss c).1
    unfolding demote_lists
    demote_lists-IsSound [] c s = s
    demote_lists-IsSound (bs ∷ bss) c s =
        next-keeps (IsSound uuid) (demote_blocks bs c) (λ _. demote_lists bss)
          (demote_blocks-IsSound bs c s) (λ _ d k. demote_lists-IsSound bss d k)
