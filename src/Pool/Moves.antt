-- ===== src/Pool/Moves.antt =====
-- `_move`: the guards, the tier that a block ends on, and the invariant.
use nano_kvrouter.Prelude.{
  ℕ, suc, ◌≤◌, ◌≡◌, ◌≢◌, ◌⊎◌, refl, true, false, length, arith, if◌then◌else◌, ◌==◌, ok,
}
use nano_kvrouter.Prelude.Count.{positive}
use nano_kvrouter.Prelude.Dict.{has, get-put}
use nano_kvrouter.Prelude.Sets.{
  mem, distinct, add, discard, mem-add, mem-discard, length-add-le, length-discard-le, distinct-add,
  distinct-discard,
}
use nano_kvrouter.Pool.{
  Tier, gpu, unknown, BlockPool, same_tier, is_on, ref_count, pin_count, relocate, move,
}
use nano_kvrouter.Pool.Invariant.{tier_state, IsConsistent}

module _ (p : BlockPool) (b : ℕ) where
  allocated-relocate :
      (f t u : Tier)
      → t ≢ unknown
      → (tier_state (relocate p b f t) u).allocated ≡ (
          if same_tier t u
          then add
              (if same_tier f u
                then discard (tier_state p u).allocated b
                else (tier_state p u).allocated)
              b
          else if same_tier f u
          then discard (tier_state p u).allocated b
          else (tier_state p u).allocated)
  unfolding tier_state relocate same_tier discard
  allocated-relocate f unknown u h = absurd (h refl)
  allocated-relocate gpu gpu u h = ground arith
  allocated-relocate f t u h = ground arith

  is_on-relocate :
      (f t u : Tier) (x : ℕ)
      → is_on (relocate p b f t) x u ≡ (if b == x then same_tier t u else is_on p x u)
  unfolding is_on relocate
  is_on-relocate f t u x = ground (arith, get-put p.block_tier b x t)

  pub drawn-relocate : (f t : Tier) → (relocate p b f t).drawn ≡ p.drawn
  unfolding relocate
  drawn-relocate f t = ground arith

  -- What a move that succeeds has found and done.
  pub move-ok :
      (f t : Tier) (q : BlockPool)
      → move p b f t ≡ ok q
      → (q ≡ relocate p b f t)
        × (f ≢ unknown)
        × (t ≢ unknown)
        × (is_on p b f ≡ true)
        × (positive (pin_count p b) ≡ false)
        × (suc (length (tier_state p t).allocated) ≤ (tier_state p t).capacity)
  unfolding move tier_state
  move-ok unknown t q h = cc
  move-ok gpu t q h = ground arith
  move-ok f t q h = ground arith

  module _ (ok_p : IsConsistent p) (f t : Tier) (on_f : is_on p b f ≡ true) (known : t ≢ unknown)
      (room : suc (length (tier_state p t).allocated) ≤ (tier_state p t).capacity) where
    on_exclusive : (u : Tier) → (same_tier f u ≡ true) ⊎ (is_on p b u ≡ false)
    unfolding is_on same_tier
    on_exclusive u = ground arith

    relocate-on :
        (u : Tier) (x : ℕ)
        → mem x (tier_state (relocate p b f t) u).allocated ≡ is_on (relocate p b f t) x u
    relocate-on u x =
        let a = (tier_state p u).allocated in
        rw (allocated-relocate f t u known, is_on-relocate f t u x)
          (ground (
            arith,
            mem-add (if same_tier f u then discard a b else a) b x,
            mem-discard a b x,
            ok_p.on u x,
            on_exclusive u,
          ))

    capacity-relocate :
        (u : Tier) → (tier_state (relocate p b f t) u).capacity ≡ (tier_state p u).capacity
    unfolding relocate tier_state
    capacity-relocate u = ground arith

    same_tier-eq : (u v : Tier) → same_tier u v ≡ true → u ≡ v
    unfolding same_tier
    same_tier-eq u v h = ground arith

    relocate-within :
        (u : Tier)
        → length (tier_state (relocate p b f t) u).allocated
          ≤ (tier_state (relocate p b f t) u).capacity
    relocate-within u =
        let a = (tier_state p u).allocated in
        rw (allocated-relocate f t u known, capacity-relocate u)
          (ground (
            arith,
            length-add-le (if same_tier f u then discard a b else a) b,
            length-discard-le a b,
            ok_p.within u,
            same_tier-eq t u,
            room,
          ))

    relocate-once : (u : Tier) → distinct (tier_state (relocate p b f t) u).allocated ≡ true
    relocate-once u =
        let a = (tier_state p u).allocated in
        rw (allocated-relocate f t u known) (
          ground (
            arith,
            distinct-add (if same_tier f u then discard a b else a) b,
            distinct-discard a b,
            ok_p.once u,
          ))

    pub tracked-relocate : (x : ℕ) → has (relocate p b f t).block_tier x ≡ has p.block_tier x
    unfolding relocate has is_on
    tracked-relocate x = ground (arith, get-put p.block_tier b x t)

    counts-relocate : ((relocate p b f t).refs ≡ p.refs) × ((relocate p b f t).pins ≡ p.pins)
    unfolding relocate
    counts-relocate = ground arith

    pub relocate-IsConsistent : IsConsistent (relocate p b f t)
    unfolding ref_count pin_count
    relocate-IsConsistent = record {
      on = relocate-on;
      within = relocate-within;
      once = relocate-once;
      refs_tracked = λ x. rw (tracked-relocate x, counts-relocate.0) (ok_p.refs_tracked x);
      pins_tracked = λ x. rw (tracked-relocate x, counts-relocate.1) (ok_p.pins_tracked x);
      balanced = λ x. rw (counts-relocate.0, counts-relocate.1) (ok_p.balanced x);
      counted = λ x. rw (counts-relocate.1) (ok_p.counted x);
    }

  pub move-IsConsistent :
      (f t : Tier) (q : BlockPool) → IsConsistent p → move p b f t ≡ ok q → IsConsistent q
  move-IsConsistent f t q c h =
      let (e, known_f, known_t, on_f, unpinned, room) = move-ok f t q h in
      rw e (relocate-IsConsistent c f t on_f known_t room)
