-- ===== src/Node/Steps.antt =====
-- The batch step of a node, and any sequence of calls on it.
use nano_kvrouter.Prelude.{
  next-keeps, ℕ, zero, suc, ◌≡◌, inl, inr, refl, true, Option, none, some, List, [], ◌∷◌, arith,
  Bool-cases,
}
use nano_kvrouter.Prelude.Sets.{mem, discard, mem-discard}
use nano_kvrouter.Prelude.Float.{Float}
use nano_kvrouter.Prelude.Dict.{Dict, get}
use nano_kvrouter.Node.{
  Node, init, admit, start_decode, init_promoted, enter_prefill, mark_prefill_done,
  mark_batch_step_scheduled, mark_batch_step_completed,
}
use nano_kvrouter.Node.Batch.{
  complete, discard_all, has_all, count_from, sorted, is_idle, chunk_from, finish_from,
  LatencyModel, advance, finish_prefill, prefill_chunk, decode_step, tick_batch_step,
}
use nano_kvrouter.Node.Slots.{
  IsServing, same-IsServing, init-IsServing, admit-IsServing, complete-IsServing,
  start_decode-IsServing, init_promoted-IsServing, enter_prefill-IsServing,
  mark_prefill_done-IsServing,
}

-- The parts of a batch step
mem-discard_all : (rs s : List ℕ) (x : ℕ) → mem x (discard_all rs s) ≡ true → mem x s ≡ true
unfolding discard_all
mem-discard_all [] s x h = h
mem-discard_all (r ∷ rs) s x h =
    ground (arith, mem-discard_all rs (discard s r) x h, mem-discard s r x)

count_from-IsServing :
    (o : Option ℕ) (r : ℕ) (n : Node) → IsServing n → IsServing (count_from o r n).1
unfolding count_from has_all
count_from-IsServing none r n s = s
count_from-IsServing (some k) r n s =
    has_all-IsServing (get n.expected_output r) (suc k) _
      (same-IsServing n _ (refl, refl, refl, λ x h. h) s)
  where
    has_all-IsServing :
        (w : Option ℕ) (t : ℕ) (m : Node) → IsServing m → IsServing (has_all w t m).1
    has_all-IsServing none t m i = i
    has_all-IsServing (some want) t m i = i

advance-IsServing : (rs : List ℕ) (n : Node) → IsServing n → IsServing (advance rs n).1
unfolding advance
advance-IsServing [] n s = s
advance-IsServing (r ∷ rs) n s =
    next-keeps IsServing (count_from (get n.output_tokens r) r n) _ (count_from-IsServing _ r n s)
      (λ b m i. next-keeps IsServing (advance rs m) _ (advance-IsServing rs m i) (λ _ m2 i2. i2))

finish_prefill-IsServing :
    (p : Option ℕ) (n : Node) → IsServing n → IsServing (finish_prefill p n).1
unfolding finish_prefill finish_from
finish_prefill-IsServing none n s = s
finish_prefill-IsServing (some r) n s = finish_from-IsServing (get n.prefill_remaining r)
  where
    finish_from-IsServing : (o : Option ℕ) → IsServing (finish_from o r n).1
    finish_from-IsServing none = s
    finish_from-IsServing (some zero) = same-IsServing n _ (refl, refl, refl, λ x h. h) s
    finish_from-IsServing (some (suc left)) = s

prefill_chunk-IsServing : (n : Node) → IsServing n → IsServing (prefill_chunk n).2
unfolding prefill_chunk chunk_from
prefill_chunk-IsServing n s = chunk_from-IsServing n.prefill_remaining
  where
    chunk_from-IsServing : (d : Dict ℕ) → IsServing (chunk_from d n).2
    chunk_from-IsServing [] = s
    chunk_from-IsServing ((r, remaining) ∷ _) = same-IsServing n _ (refl, refl, refl, λ x h. h) s

decode_step-IsServing : (p : Option ℕ) (n : Node) → IsServing n → IsServing (decode_step p n).1
unfolding decode_step
decode_step-IsServing p n s =
    next-keeps IsServing (advance (sorted n.decoding) n) _
      (advance-IsServing (sorted n.decoding) n s)
      (λ done m i.
        next-keeps IsServing
          (finish_prefill p (record m { decoding = discard_all done m.decoding })) _
          (finish_prefill-IsServing p _
            (same-IsServing m _ (refl, refl, refl, λ x h. mem-discard_all done m.decoding x h) i))
          (λ _ m2 i2. i2))

module _ (F : Float) where
  open F use {Num}

  pub tick_batch_step-IsServing :
      (l : LatencyModel F) (now : Num) (n : Node)
      → IsServing n
      → IsServing (tick_batch_step F l now n).1
  unfolding tick_batch_step
  tick_batch_step-IsServing l now n s = elim (Bool-cases (is_idle n)) [
    | inl c ↦ rw c s
    | inr c ↦ rw c (
        next-keeps IsServing (decode_step (prefill_chunk n).0 (prefill_chunk n).2) _
          (decode_step-IsServing _ _ (prefill_chunk-IsServing n s)) (λ _ m i. i))
  ]

  -- the calls that the simulator makes of a node
  pub data Call : Type 0 where
    admit_call init_promoted_call : ℕ → ℕ → Option ℕ → Option ℕ → Call
    start_decode_call mark_prefill_done_call complete_call : ℕ → Call
    enter_prefill_call : ℕ → ℕ → Call
    tick_call : LatencyModel F → Num → Call
    scheduled_call completed_call : Call

  unfoldable pub run_call : Call → Node → Node
  run_call (admit_call r e p u) n = (admit r e p u n).1
  run_call (init_promoted_call r e p u) n = (init_promoted r e p u n).1
  run_call (start_decode_call r) n = (start_decode r n).1
  run_call (mark_prefill_done_call r) n = (mark_prefill_done r n).1
  run_call (complete_call r) n = (complete r n).1
  run_call (enter_prefill_call r u) n = (enter_prefill r u n).1
  run_call (tick_call l now) n = (tick_batch_step F l now n).1
  run_call scheduled_call n = (mark_batch_step_scheduled n).1
  run_call completed_call n = mark_batch_step_completed n

  unfoldable pub run_calls : List Call → Node → Node
  unfolding run_call
  run_calls [] n = n
  run_calls (c ∷ cs) n = run_calls cs (run_call c n)

  pub run_call-IsServing : (c : Call) (n : Node) → IsServing n → IsServing (run_call c n)
  unfolding run_call mark_batch_step_completed mark_batch_step_scheduled
  run_call-IsServing (admit_call r e p u) n s = admit-IsServing r e p u n s
  run_call-IsServing (init_promoted_call r e p u) n s = init_promoted-IsServing r e p u n s
  run_call-IsServing (start_decode_call r) n s = start_decode-IsServing r n s
  run_call-IsServing (mark_prefill_done_call r) n s = mark_prefill_done-IsServing r n s
  run_call-IsServing (complete_call r) n s = complete-IsServing r n s
  run_call-IsServing (enter_prefill_call r u) n s = enter_prefill-IsServing r u n s
  run_call-IsServing (tick_call l now) n s = tick_batch_step-IsServing l now n s
  run_call-IsServing scheduled_call n s = elim (Bool-cases n.step_in_flight) [
    | inl c ↦ rw c (same-IsServing n _ (refl, refl, refl, λ x h. h) s)
    | inr c ↦ rw c (same-IsServing n _ (refl, refl, refl, λ x h. h) s)
  ]
  run_call-IsServing completed_call n s = same-IsServing n _ (refl, refl, refl, λ x h. h) s

  run_calls-keeps : (cs : List Call) (n : Node) → IsServing n → IsServing (run_calls cs n)
  unfolding run_calls
  run_calls-keeps [] n s = s
  run_calls-keeps (c ∷ cs) n s = run_calls-keeps cs (run_call c n) (run_call-IsServing c n s)

  -- After any sequence of the node's calls on a new node, whether each returns or raises: no more
  -- requests run than the capacity, no request is queued while a slot is free, and the decode
  -- batch holds only running requests.
  pub run_calls-IsServing : (c k : ℕ) (cs : List Call) → IsServing (run_calls cs (init c k))
  run_calls-IsServing c k cs = run_calls-keeps cs (init c k) (init-IsServing c k)
