-- ===== src/Pool/Tests.antt =====
-- Runs of a pool at small inputs.
use nano_kvrouter.Prelude.{ℕ, ◌≡◌, refl, true, false, List, [], ◌∷◌, ok}
use nano_kvrouter.Prelude.Count.{pos, natural}
use nano_kvrouter.Prelude.Dict.{has, get, put, get_or}
use nano_kvrouter.Prelude.Sets.{distinct, mem}
use nano_kvrouter.Pool.{
  BlockPool, gpu, cpu, init, allocate, pin, unpin, pin_count, ref_count, tier_of, pin_all,
}
use nano_kvrouter.Pool.Invariant.{IsConsistent}
use nano_kvrouter.Pool.Pinning.{unpin-pin, unpin_negative}
use nano_kvrouter.Pool.History.{
  Call, allocate_call, free_call, move_call, pin_call, unpin_call, run, run_call, run-IsConsistent,
}

-- two blocks on the GPU tier, one of them moved down and pinned, the other freed
abbrev calls : List Call
calls =
    allocate_call 2 gpu
    ∷ move_call 0 gpu cpu
    ∷ pin_call (0 ∷ [])
    ∷ free_call (0 ∷ [])
    ∷ free_call (1 ∷ [])
    ∷ unpin_call (0 ∷ [])
    ∷ []

run-IsConsistent_example : IsConsistent (run (λ k. k) (init 2 1 1) calls)
unfolding distinct mem
run-IsConsistent_example =
    run-IsConsistent (λ k. k) (λ i j e. e) 2 1 1 calls (tt, (tt, (tt, (tt, (tt, (refl, tt))))))

abbrev busy : BlockPool
busy = run (λ k. k) (init 2 1 1) (allocate_call 2 gpu ∷ [])

busy-IsConsistent : IsConsistent busy
busy-IsConsistent = run-IsConsistent (λ k. k) (λ i j e. e) 2 1 1 (allocate_call 2 gpu ∷ []) (tt, tt)

abbrev pinned : BlockPool
pinned = pin_all busy (0 ∷ 1 ∷ [])

pin-busy : pin (0 ∷ 1 ∷ []) busy ≡ ok pinned
unfolding run run_call init allocate pin has get put
pin-busy = refl

unpin-pin_example :
    (r : BlockPool) × (unpin (0 ∷ 1 ∷ []) pinned ≡ ok r)
    × ((x : ℕ)
        → (pin_count r x ≡ pin_count busy x)
          × (ref_count r x ≡ ref_count busy x)
          × (tier_of r x ≡ tier_of busy x))
unpin-pin_example = unpin-pin (0 ∷ 1 ∷ []) busy pinned busy-IsConsistent pin-busy

abbrev held : BlockPool
held = run (λ k. k) (init 2 1 1) (allocate_call 1 gpu ∷ pin_call (0 ∷ []) ∷ [])

held_facts :
    (has held.block_tier 0 ≡ true) × (pin_count held 0 ≡ pos 1) × (ref_count held 0 ≡ pos 1)
unfolding run run_call init allocate pin has pin_count ref_count get put get_or
held_facts = (refl, refl, refl)

unpin_negative_example :
    (q : BlockPool) × (unpin (0 ∷ 0 ∷ []) held ≡ ok q) × (natural (pin_count q 0) ≡ false)
unpin_negative_example = unpin_negative 0 held held_facts.0 held_facts.1 held_facts.2
