-- ===== src/Manager/Termination.antt =====
-- The end of the loop in `admit`.
use nano_kvrouter.Prelude.{
  ℕ, zero, suc, ◌+◌, ◌<◌, ◌≡◌, ◌≢◌, inl, inr, refl, ap, sym, subst, Bool, true, false, ◌||◌, some,
  List, [], ◌∷◌, length, arith, ltb, any, Bool-cases, Option-cases, Result, ok, raise, Error,
  out_of_fuel, memory_error, next,
}
use nano_kvrouter.Prelude.Count.{positive}
use nano_kvrouter.Prelude.Dict.{has-none, has-some}
use nano_kvrouter.Pool.{Tier, gpu, cpu, disk, unknown, same_tier, is_on, tier_of, pin_count}
use nano_kvrouter.Pool.Invariant.{IsConsistent}
use nano_kvrouter.Tree.{RadixTree}
use nano_kvrouter.Tree.Evict.{victim, candidates, drop_node, demote_scan, demote_lru}
use nano_kvrouter.Tree.Removal.{demote_scan-Reduces}
use nano_kvrouter.Manager.{NodeCache, alive}
use nano_kvrouter.Manager.Admit.{rank, make_room}
use nano_kvrouter.Manager.Demote.{demote_block, demote_blocks, demote_lists}
use nano_kvrouter.Manager.Soundness.{
  IsSound, demote_block-IsSound, demote_blocks-IsSound, demote_lists-IsSound,
}
use nano_kvrouter.Manager.Rounds.{Falls, next-Falls, demote_from-Falls}

module _ {T : Type 0} where
  -- A victim that the scan names has a block that is alive.
  demote_scan-alive :
      (lt : T → T → Bool) (is_alive pinned : ℕ → Bool) (later : T) (scans n : ℕ) (r : RadixTree T)
      (ids : List ℕ) (more : List (List ℕ))
      → (demote_scan lt is_alive pinned later scans n r).0 ≡ ids ∷ more
      → any is_alive ids ≡ true
  unfolding demote_scan
  demote_scan-alive lt is_alive pinned later zero n r ids more h = cc
  demote_scan-alive lt is_alive pinned later (suc scans) zero r ids more h = cc
  demote_scan-alive lt is_alive pinned later (suc scans) (suc n) r ids more h =
      elim (Option-cases (victim lt (candidates pinned r.root r.index))) [
        | inl nothing ↦ absurd (ground (arith, rw (nothing, demote_scan) at h))
        | inr ((b, l), found) ↦ elim (Bool-cases (any is_alive l.block_ids)) [
          | inr dead ↦
              demote_scan-alive lt is_alive pinned later scans (suc n) (drop_node b r) ids more
                (rw (found, dead, demote_scan) at h)
          | inl live ↦ rw (← ap (first_of l.block_ids) (rw (found, live, demote_scan) at h)) live
        ]
      ]
    where
      first_of : List ℕ → List (List ℕ) → List ℕ
      first_of z [] = z
      first_of z (xs ∷ _) = xs

  demote_block-known :
      (b : ℕ) (c : NodeCache T) (t : Tier)
      → IsConsistent c.pool
      → tier_of c.pool b ≡ some t
      → Falls true c (demote_block b c)
  unfolding demote_block same_tier is_on
  demote_block-known b c t s h = elim (Bool-cases (positive (pin_count c.pool b))) [
    | inl k ↦ rw (h, k, demote_block) (λ e. cc)
    | inr k ↦ rw (h, k, demote_block) (demote_from-Falls t b c s (here t h))
  ]
    where
      same : (u : Tier) → same_tier u u ≡ true
      same gpu = refl
      same cpu = refl
      same disk = refl
      same unknown = refl

      here : (u : Tier) → tier_of c.pool b ≡ some u → is_on c.pool b u ≡ true
      here u e = rw (e, is_on) (same u)

  module _ (uuid : ℕ → ℕ) (injective : (i j : ℕ) → uuid i ≡ uuid j → i ≡ j) where
    demote_blocks-Falls :
        (bs : List ℕ) (c : NodeCache T)
        → IsSound uuid c
        → Falls (any (alive c.pool) bs) c (demote_blocks bs c)
    unfolding demote_blocks alive tier_of
    demote_blocks-Falls [] c s = omega arith
    demote_blocks-Falls (b ∷ bs) c s = elim (Option-cases (tier_of c.pool b)) [
      | inl h ↦
          let same : demote_block b c ≡ (ok tt, c) = rw (h, demote_block) refl in
          subst (λ z. Falls (z || any (alive c.pool) bs) c (demote_blocks (b ∷ bs) c))
            (sym (has-none c.pool.block_tier b h))
            (subst (λ z. Falls (any (alive c.pool) bs) c (next (λ _. demote_blocks bs) z))
              (sym same) (demote_blocks-Falls bs c s))
      | inr (t, h) ↦
          let d = (demote_block b c).1 in
          let rest = demote_blocks-Falls bs d (demote_block-IsSound uuid injective b c s) in
          subst (λ z. Falls (z || any (alive c.pool) bs) c (demote_blocks (b ∷ bs) c))
            (sym (has-some c.pool.block_tier b t h))
            (next-Falls true c (demote_block b c) (demote_blocks bs)
              (demote_block-known b c t s.0.0 h) (any (alive d.pool) bs)
              (λ x e.
                subst (λ z. Falls (any (alive d.pool) bs) z (demote_blocks bs z)) (sym e) rest))
    ]

    demote_lists-Falls :
        (bss : List (List ℕ)) (c : NodeCache T)
        → IsSound uuid c
        → Falls false c (demote_lists bss c)
    unfolding demote_lists
    demote_lists-Falls [] c s = omega arith
    demote_lists-Falls (bs ∷ bss) c s =
        let d = (demote_blocks bs c).1 in
        let rest = demote_lists-Falls bss d (demote_blocks-IsSound uuid injective bs c s) in
        next-Falls false c (demote_blocks bs c) (demote_lists bss)
          (not_up c (demote_blocks bs c) (any (alive c.pool) bs) (demote_blocks-Falls bs c s)) false
          (λ x e. subst (λ z. Falls false z (demote_lists bss z)) (sym e) rest)
      where
        not_up :
            (c : NodeCache T) (r : Result (Unit {0}) × NodeCache T) (b : Bool)
            → Falls b c r
            → Falls false c r
        not_up c (ok _, d) true h = omega arith
        not_up c (ok _, d) false h = h
        not_up c (raise e, d) b h = h

    round-Falls :
        (bs : List ℕ) (bss : List (List ℕ)) (c : NodeCache T)
        → IsSound uuid c
        → any (alive c.pool) bs ≡ true
        → Falls true c (demote_lists (bs ∷ bss) c)
    unfolding demote_lists
    round-Falls bs bss c s live =
        let d = (demote_blocks bs c).1 in
        let rest = demote_lists-Falls bss d (demote_blocks-IsSound uuid injective bs c s) in
        next-Falls true c (demote_blocks bs c) (demote_lists bss)
          (subst (λ z. Falls z c (demote_blocks bs c)) live (demote_blocks-Falls bs c s)) false
          (λ x e. subst (λ z. Falls false z (demote_lists bss z)) (sym e) rest)

    module _ (lt : T → T → Bool) (now later : T) (bs capacity : ℕ) where
      -- what follows the choice of a victim
      chosen_ends :
          (ids : List (List ℕ)) (c : NodeCache T) (fuel need : ℕ)
          → IsSound uuid c
          → ((i : List ℕ) (more : List (List ℕ)) → ids ≡ i ∷ more → any (alive c.pool) i ≡ true)
          → rank c.pool < suc fuel
          → ((d : NodeCache T)
              → IsSound uuid d
              → rank d.pool < fuel
              → (make_room uuid lt now later bs capacity fuel need d).0 ≢ raise out_of_fuel)
          → (elim ids as (λ _. Result (Unit {0}) × NodeCache T) [
            | [] ↦ (raise memory_error, c)
            | i ∷ more ↦
                next
                  (λ _. make_room uuid lt now later bs capacity fuel need)
                  (demote_lists (i ∷ more) c)
          ]).0
            ≢ raise out_of_fuel
      chosen_ends [] c fuel need s live few k = λ e. cc
      chosen_ends (i ∷ more) c fuel need s live few k =
          then_ends (demote_lists (i ∷ more) c) (round-Falls i more c s (live i more refl))
            (demote_lists-IsSound uuid injective (i ∷ more) c s)
        where
          error_of : Error → Result (Unit {0}) → Error
          error_of z (ok _) = z
          error_of z (raise y) = y

          then_ends :
              (r : Result (Unit {0}) × NodeCache T)
              → Falls true c r
              → IsSound uuid r.1
              → (next (λ _. make_room uuid lt now later bs capacity fuel need) r).0
                ≢ raise out_of_fuel
          then_ends (ok _, d) falls sd = k d sd (omega arith)
          then_ends (raise x, d) falls sd = λ e. falls (ap (error_of x) e)

      -- The loop of admission that demotes until there is room ends before its fuel does, on a
      -- sound node and with more fuel than the rank of its pool, as admit gives it: it returns,
      -- or raises one of the exceptions of the code. It holds if uuid4 never repeats an id.
      pub make_room_ends :
          (fuel need : ℕ) (c : NodeCache T)
          → IsSound uuid c
          → rank c.pool < fuel
          → (make_room uuid lt now later bs capacity fuel need c).0 ≢ raise out_of_fuel
      unfolding make_room demote_lru
      make_room_ends zero need c s few = absurd (omega arith)
      make_room_ends (suc fuel) need c s few =
          elim (Bool-cases (ltb capacity (length c.pool.gpu_tier.allocated + need))) [
            | inr h ↦ rw (h, make_room) (λ e. cc)
            | inl h ↦
                let pinned : ℕ → Bool = λ b. positive (pin_count c.pool b) in
                let chosen = demote_lru lt (alive c.pool) pinned later 1 c.tree in
                let scans = length c.tree.index + 1 + 1 in
                let valid =
                  (demote_scan-Reduces lt (alive c.pool) pinned later scans 1 c.tree s.1).0.1 in
                rw (h, make_room)
                  (chosen_ends chosen.0 (record c { tree = chosen.1 }) fuel need (s.0, valid)
                    (λ i more e.
                      demote_scan-alive lt (alive c.pool) pinned later scans 1 c.tree i more e)
                    few (λ d sd small. make_room_ends fuel need d sd small))
          ]
