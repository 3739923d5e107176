-- ===== src/Pool/History.antt =====
-- Any sequence of calls on a pool, whether they return or raise.
use nano_kvrouter.Prelude.{
  ℕ, ◌≡◌, true, List, [], ◌∷◌, arith, Result, ok, raise, inl, inr, Result-cases,
}
use nano_kvrouter.Prelude.Dict.{has}
use nano_kvrouter.Prelude.Sets.{distinct}
use nano_kvrouter.Pool.{
  Tier, BlockPool, init, allocate, free, move, pin, unpin, relocate, tier_of, pin_all, unpin_all,
}
use nano_kvrouter.Pool.Invariant.{
  IsConsistent, IsFresh, IsFresh-shrink, init-IsConsistent, init-IsFresh,
}
use nano_kvrouter.Pool.Moves.{move-ok, drawn-relocate, move-IsConsistent, tracked-relocate}
use nano_kvrouter.Pool.Allocations.{allocate-ok, allocate-IsConsistent, admit_ids-IsFresh}
use nano_kvrouter.Pool.Releases.{free-ok, free-IsConsistent}
use nano_kvrouter.Pool.Pinning.{
  pin-ok, unpin-ok, pin_all-frame, unpin_all-frame, pin-IsConsistent, unpin-IsConsistent,
}

pub data Call : Type 0 where
  allocate_call : ℕ → Tier → Call
  free_call : List ℕ → Call
  move_call : ℕ → Tier → Tier → Call
  pin_call unpin_call : List ℕ → Call

-- the caller's part: no block is named twice in one `unpin`
abbrev pub IsFair : Call → Type 0
IsFair (unpin_call bs) = distinct bs ≡ true
IsFair _ = Unit

-- a call that raises leaves the pool as it was
abbrev pub or_same : BlockPool → Result BlockPool → BlockPool
or_same p (ok q) = q
or_same p (raise e) = p

abbrev pub allocated_pool : BlockPool → Result (List ℕ × BlockPool) → BlockPool
allocated_pool p (ok (ids, q)) = q
allocated_pool p (raise e) = p

module _ (uuid : ℕ → ℕ) where
  unfoldable pub run_call : BlockPool → Call → BlockPool
  run_call p (allocate_call n t) = allocated_pool p (allocate uuid n t p)
  run_call p (free_call bs) = or_same p (free bs p)
  run_call p (move_call b f t) = or_same p (move p b f t)
  run_call p (pin_call bs) = or_same p (pin bs p)
  run_call p (unpin_call bs) = or_same p (unpin bs p)

  unfoldable pub run : BlockPool → List Call → BlockPool
  run p [] = p
  run p (c ∷ cs) = run (run_call p c) cs

  -- every call of the list is fair
  abbrev pub AllFair : List Call → Type 0
  AllFair [] = Unit
  AllFair (c ∷ cs) = IsFair c × AllFair cs

  module _ (injective : (i j : ℕ) → uuid i ≡ uuid j → i ≡ j) where
    abbrev pub Sound : BlockPool → Type 0
    Sound p = IsConsistent p × IsFresh uuid p

    move-IsFresh :
        (p q : BlockPool) (b : ℕ) (f t : Tier) → Sound p → move p b f t ≡ ok q → IsFresh uuid q
    move-IsFresh p q b f t s h =
        let (is, known_f, known_t, on_f, unpinned, room) = move-ok p b f t q h in
        rw is (
          IsFresh-shrink uuid p (relocate p b f t) s.1 (rw (drawn-relocate p b f t) (omega arith))
            (λ x n. rw (tracked-relocate p b s.0 f t on_f known_t room x) n))

    free-IsFresh : (p q : BlockPool) (bs : List ℕ) → Sound p → free bs p ≡ ok q → IsFresh uuid q
    unfolding has tier_of
    free-IsFresh p q bs s h =
        IsFresh-shrink uuid p q s.1 (rw (free-ok bs p q h 0).2 (omega arith))
          (λ x n. ground (arith, (free-ok bs p q h x).0))

    recount-IsFresh :
        (p q : BlockPool)
        → Sound p
        → q.block_tier ≡ p.block_tier
        → q.drawn ≡ p.drawn
        → IsFresh uuid q
    recount-IsFresh p q s e d = IsFresh-shrink uuid p q s.1 (rw d (omega arith)) (λ x n. rw e n)

    pub run_call-Sound : (p : BlockPool) (c : Call) → IsFair c → Sound p → Sound (run_call p c)
    unfolding run_call
    run_call-Sound p (allocate_call n t) fair s = elim (Result-cases (allocate uuid n t p)) [
      | inr (e, bad) ↦ rw bad s
      | inl ((ids, q), good) ↦
          let (named, is, known, room) = allocate-ok uuid n t p q ids good in
          rw good (
            allocate-IsConsistent uuid n t p q ids s.1 s.0 good,
            rw (is, named) (admit_ids-IsFresh uuid injective n t p known s.1),
          )
    ]
    run_call-Sound p (free_call bs) fair s = elim (Result-cases (free bs p)) [
      | inr (e, bad) ↦ rw bad s
      | inl (q, good) ↦ rw good (free-IsConsistent bs p q s.0 good, free-IsFresh p q bs s good)
    ]
    run_call-Sound p (move_call b f t) fair s = elim (Result-cases (move p b f t)) [
      | inr (e, bad) ↦ rw bad s
      | inl (q, good) ↦
          rw good (move-IsConsistent p b f t q s.0 good, move-IsFresh p q b f t s good)
    ]
    run_call-Sound p (pin_call bs) fair s = elim (Result-cases (pin bs p)) [
      | inr (e, bad) ↦ rw bad s
      | inl (q, good) ↦ rw good (
        pin-IsConsistent bs p q s.0 good,
        (let (is, there) = pin-ok bs p q good in
            let (a, b, _) = pin_all-frame p bs in rw is (recount-IsFresh p (pin_all p bs) s a b)),
      )
    ]
    run_call-Sound p (unpin_call bs) fair s = elim (Result-cases (unpin bs p)) [
      | inr (e, bad) ↦ rw bad s
      | inl (q, good) ↦ rw good (
        unpin-IsConsistent bs p q s.0 fair good,
        (let (is, there) = unpin-ok bs p q good in
            let (a, b, _) = unpin_all-frame p bs in
            rw is (recount-IsFresh p (unpin_all p bs) s a b)),
      )
    ]

    -- From any sound pool
    run-Sound : (p : BlockPool) (cs : List Call) → AllFair cs → Sound p → Sound (run p cs)
    unfolding run
    run-Sound p [] fair s = s
    run-Sound p (c ∷ cs) fair s = run-Sound (run_call p c) cs fair.1 (run_call-Sound p c fair.0 s)

    -- After any sequence of calls of allocate, free, move, pin and unpin on a new block pool,
    -- whether each returns or raises, the three tables of the pool agree: a tier's set holds
    -- exactly the blocks that the tier table puts there, once each and no more than its capacity,
    -- and the reference and the pin count are kept for exactly the allocated blocks, are equal
    -- and are not negative. It holds if uuid4 never repeats an id and no unpin call names a block
    -- twice.
    pub run-IsConsistent :
        (g c d : ℕ) (cs : List Call) → AllFair cs → IsConsistent (run (init g c d) cs)
    run-IsConsistent g c d cs fair =
        (run-Sound (init g c d) cs fair (init-IsConsistent g c d, init-IsFresh g c d uuid)).0
