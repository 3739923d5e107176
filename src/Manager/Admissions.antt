-- ===== src/Manager/Admissions.antt =====
-- `admit` on the cache of a node, from its parts.
use nano_kvrouter.Prelude.{
  ℕ, zero, suc, ◌+◌, ◌*◌, ◌/◌, ◌≡◌, inl, inr, Bool, min, List, [], ◌∷◌, length, take, ◌==◌, ltb,
  leb, Bool-cases, Result, raise, memory_error, Exec, next, next-keeps,
}
use nano_kvrouter.Prelude.Count.{positive}
use nano_kvrouter.Pool.{gpu, allocate, free, pin_count, tiers_of}
use nano_kvrouter.Tree.{insert, match_prefix_path}
use nano_kvrouter.Tree.Cache.{IsValid, insert-IsValid}
use nano_kvrouter.Tree.Evict.{demote_lru}
use nano_kvrouter.Tree.Purge.{purge_path_with_any_dead}
use nano_kvrouter.Tree.Removal.{demote_scan-Reduces}
use nano_kvrouter.Tree.Stores.{grow-keeps, purge_path-keeps}
use nano_kvrouter.Tree.Paths.{match_prefix_path-IsValid, purge_path_with_any_dead-IsValid}
use nano_kvrouter.Manager.{NodeCache, alive}
use nano_kvrouter.Manager.Demote.{demote_lists}
use nano_kvrouter.Manager.Admit.{rank, make_room, insert_tokens, admit_new, admit_aligned, admit}
use nano_kvrouter.Manager.Soundness.{
  IsSoundPool, IsSound, allocate-IsSound, free-IsSound, length-allocate, demote_lists-IsSound,
}

module _ (uuid : ℕ → ℕ) (injective : (i j : ℕ) → uuid i ≡ uuid j → i ≡ j) {T : Type 0}
    (lt : T → T → Bool) (now later : T) (bs capacity : ℕ) where
  demoted-IsSound :
      (ids : List (List ℕ)) (c : NodeCache T) (f : Exec (NodeCache T) (Unit {0}))
      → IsSound uuid c
      → ((d : NodeCache T) → IsSound uuid d → IsSound uuid (f d).1)
      → IsSound uuid
          (elim ids as (λ _. Result (Unit {0}) × NodeCache T) [
            | [] ↦ (raise memory_error, c)
            | i ∷ more ↦ next (λ _. f) (demote_lists (i ∷ more) c)
          ]).1
  demoted-IsSound [] c f s k = s
  demoted-IsSound (i ∷ more) c f s k =
      next-keeps (IsSound uuid) (demote_lists (i ∷ more) c) (λ _. f)
        (demote_lists-IsSound uuid injective (i ∷ more) c s) (λ _ d h. k d h)

  make_room-IsSound :
      (fuel need : ℕ) (c : NodeCache T)
      → IsSound uuid c
      → IsSound uuid (make_room uuid lt now later bs capacity fuel need c).1
  unfolding make_room demote_lru
  make_room-IsSound zero need c s = s
  make_room-IsSound (suc fuel) need c s =
      elim (Bool-cases (ltb capacity (length c.pool.gpu_tier.allocated + need))) [
        | inr h ↦ rw (h, make_room) s
        | inl h ↦
            let chosen =
              demote_lru lt (alive c.pool) (λ b. positive (pin_count c.pool b)) later 1 c.tree in
            let valid =
              (demote_scan-Reduces lt (alive c.pool) (λ b. positive (pin_count c.pool b)) later
                (length c.tree.index + 1 + 1) 1 c.tree s.1).0.1 in
            rw (h, make_room)
              (demoted-IsSound chosen.0 (record c { tree = chosen.1 })
                (make_room uuid lt now later bs capacity fuel need) (s.0, valid)
                (λ d k. make_room-IsSound fuel need d k))
      ]

  insert_tokens-IsSound :
      (ts : List ℕ) (c : NodeCache T)
      → IsSound uuid c
      → IsSound uuid (insert_tokens uuid lt now later bs capacity ts c).1
  unfolding insert_tokens insert
  insert_tokens-IsSound ts c s = (
    grow-keeps (λ n. allocate uuid n gpu) c.tree.block_size now (IsSoundPool uuid)
        (λ n p q ids h k. allocate-IsSound uuid injective n gpu p q ids h k) ts c.tree.root
        c.tree.index c.pool s.0,
    insert-IsValid (λ n. allocate uuid n gpu)
        (λ n p q ids h. length-allocate uuid injective n gpu p q ids h) now ts c.tree c.pool s.1,
  )

  admit_new-IsSound :
      (total : ℕ) (ts : List ℕ) (c : NodeCache T)
      → IsSound uuid c
      → IsSound uuid (admit_new uuid lt now later bs capacity total ts c).1
  unfolding admit_new
  admit_new-IsSound total ts c s = elim (Bool-cases (ltb capacity total)) [
    | inl h ↦ rw h s
    | inr h ↦ rw h (
        next-keeps (IsSound uuid)
          (make_room uuid lt now later bs capacity (suc (rank c.pool)) (min (total + 1) capacity) c)
          _ (make_room-IsSound (suc (rank c.pool)) (min (total + 1) capacity) c s)
          (λ _ d k. insert_tokens-IsSound ts d k))
  ]

  admit_aligned-IsSound :
      (total : ℕ) (ts : List ℕ) (c : NodeCache T)
      → IsSound uuid c
      → IsSound uuid (admit_aligned uuid lt now later bs capacity total ts c).1
  unfolding admit_aligned purge_path_with_any_dead
  admit_aligned-IsSound total ts c s =
      let matched : IsValid (match_prefix_path now ts c.tree).1 =
        match_prefix_path-IsValid now ts c.tree s.1 in
      let purged =
        purge_path_with_any_dead alive free ts (match_prefix_path now ts c.tree).1 c.pool in
      elim (Bool-cases (leb total ((match_prefix_path now ts c.tree).0.0 / bs))) [
        | inr h ↦ rw h (
            admit_new-IsSound total ts (record c { tree = (match_prefix_path now ts c.tree).1 })
              (s.0, matched))
        | inl h ↦
            elim (Bool-cases (
              length (tiers_of c.pool (take total (match_prefix_path now ts c.tree).0.1))
              == total)) [
                | inl k ↦ rw (h, k) (s.0, matched)
                | inr k ↦
                    rw (h, k)
                      (next-keeps (IsSound uuid)
                        (purged.0, record { tree = purged.1; pool = purged.2 })
                        (λ _. admit_new uuid lt now later bs capacity total ts)
                        (
                          purge_path-keeps alive free (IsSoundPool uuid)
                              (λ ids p q e i. free-IsSound uuid injective p q ids i e) ts
                              (match_prefix_path now ts c.tree).1.root
                              (match_prefix_path now ts c.tree).1.index c.pool s.0,
                          purge_path_with_any_dead-IsValid alive free ts
                              (match_prefix_path now ts c.tree).1 c.pool matched,
                        )
                        (λ _ d i. admit_new-IsSound total ts d i))
              ]
      ]

  -- Admission of any tokens on a node, whether it returns or raises at any point, keeps the node
  -- sound: its pool is consistent with no id in use that is still to be drawn, and its tree is
  -- valid. It demotes, frees, purges and inserts on the way, with the pool's allocate as the
  -- tree's allocator. It holds if uuid4 never repeats an id and the node was sound.
  pub admit-IsSound :
      (ts : List ℕ) (c : NodeCache T)
      → IsSound uuid c
      → IsSound uuid (admit uuid lt now later bs capacity ts c).1
  unfolding admit
  admit-IsSound ts c s = elim (Bool-cases (length ts / bs == 0)) [
    | inl h ↦ rw h s
    | inr h ↦ rw h (admit_aligned-IsSound (length ts / bs) (take (length ts / bs * bs) ts) c s)
  ]
