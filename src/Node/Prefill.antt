-- ===== src/Node/Prefill.antt =====
-- The steps that a chunked prefill takes.
use nano_kvrouter.Prelude.{
  ℕ, zero, suc, ◌+◌, ◌-◌, ◌*◌, ◌≤◌, ◌<◌, min, ◌≡◌, refl, ap, false, Option, none, some, List, [],
  ◌∷◌, Exec, ok, next, return_value, next_ok, arith,
}
use nano_kvrouter.Prelude.Dict.{Dict, get, put}
use nano_kvrouter.Prelude.Float.{Float}
use nano_kvrouter.Node.{Node, RequestState, change}
use nano_kvrouter.Node.Batch.{
  LatencyModel, is_idle, chunk_from, prefill_chunk, finish_prefill, discard_all, sorted, advance,
  decode_step, step_time, tick_batch_step,
}

-- nothing ends in the first m steps, and the prefill of r in the one after them
abbrev pub ends_after : ℕ → ℕ → List (Option ℕ)
ends_after zero r = some r ∷ []
ends_after (suc m) r = none ∷ ends_after m r

-- the node with no decode stream, where `left` tokens of the prefill of r are the first to compute
abbrev pub only_prefill : ℕ → ℕ → Dict ℕ → Node → Node
only_prefill r left rest n = record n { decoding = []; prefill_remaining = (r, left) ∷ rest }

set_left : ℕ → RequestState → RequestState
set_left left s = record s { uncached_remaining = left }

put_first : (r left k : ℕ) (rest : Dict ℕ) → put ((r, left) ∷ rest) r k ≡ (r, k) ∷ rest
unfolding put
put_first r left k rest = ground arith

get_first : (r k : ℕ) (rest : Dict ℕ) → get ((r, k) ∷ rest) r ≡ some k
unfolding get
get_first r k rest = ground arith

-- the node after a chunk that leaves `left` tokens
abbrev after_chunk : ℕ → ℕ → Dict ℕ → Node → Node
after_chunk r left rest n =
    only_prefill r left rest (record n { states = change (set_left left) r n.states })

is_busy : (r left : ℕ) (rest : Dict ℕ) (n : Node) → is_idle (only_prefill r left rest n) ≡ false
unfolding is_idle
is_busy r left rest n = ground arith

module _ (F : Float) where
  open F use {Num, plus}

  -- k steps, each at the time that the one before it answered, and the prefill that each one ended
  unfoldable pub ticks : ℕ → LatencyModel F → Num → Exec Node (List (Option ℕ))
  unfolding tick_batch_step
  ticks zero l now n = (ok [], n)
  ticks (suc k) l now n =
      next (λ done m. next (λ rest. return_value (done.2 ∷ rest)) (ticks k l done.0 m))
        (tick_batch_step F l now n)

  abbrev answer : Num → Option ℕ → Num × List ℕ × Option ℕ
  answer later ended = (later, [], ended)

  -- the chunk leaves k + 1 tokens
  tick_more :
      (l : LatencyModel F) (now : Num) (n : Node) (r left k : ℕ) (rest : Dict ℕ)
      → left ≡ n.chunk_size + suc k
      → tick_batch_step F l now (only_prefill r left rest n)
        ≡ (ok (answer (plus now (step_time F l n.chunk_size 0)) none), after_chunk r (suc k) rest n)
  unfolding tick_batch_step prefill_chunk decode_step sorted advance discard_all finish_prefill
      chunk_from set_left
  tick_more l now n r left k rest h =
      let whole : min left n.chunk_size ≡ n.chunk_size = omega arith in
      let more : left - n.chunk_size ≡ suc k = omega arith in
      rw
        (
          is_busy r left rest n,
          whole,
          more,
          put_first r left (suc k) rest,
          get_first r (suc k) rest,
        )
        refl

  -- the chunk is all that is left
  tick_last :
      (l : LatencyModel F) (now : Num) (n : Node) (r left : ℕ) (rest : Dict ℕ)
      → left ≤ n.chunk_size
      → (tick_batch_step F l now (only_prefill r left rest n)).0
        ≡ ok (answer (plus now (step_time F l left 0)) (some r))
  unfolding tick_batch_step prefill_chunk decode_step sorted advance discard_all finish_prefill
      chunk_from set_left
  tick_last l now n r left rest h =
      let whole : min left n.chunk_size ≡ left = omega arith in
      let no_more : left - min left n.chunk_size ≡ 0 = omega arith in
      rw (is_busy r left rest n, no_more, whole, put_first r left 0 rest, get_first r 0 rest) refl

  -- On a node that has no decode stream and whose oldest prefill has more than m and at most m +
  -- 1 chunks left, the first m batch steps end no prefill, and the one after them returns the id
  -- of that prefill.
  pub ticks_end :
      (l : LatencyModel F) (m r left : ℕ) (rest : Dict ℕ) (now : Num) (n : Node)
      → m * n.chunk_size < left
      → left ≤ suc m * n.chunk_size
      → (ticks (suc m) l now (only_prefill r left rest n)).0 ≡ ok (ends_after m r)
  unfolding ticks
  ticks_end l zero r left rest now n h k =
      let last = tick_last l now n r left rest (omega (arith, k)) in
      ap (λ x. x.0)
        (next_ok (tick_batch_step F l now (only_prefill r left rest n))
          (answer (plus now (step_time F l left 0)) (some r))
          (λ done m. next (λ rest. return_value (done.2 ∷ rest)) (ok [], m)) last)
  ticks_end l (suc m) r left rest now n h k =
      let k' = left - n.chunk_size - 1 in
      let later = plus now (step_time F l n.chunk_size 0) in
      let first = tick_more l now n r left k' rest (omega arith) in
      let again =
        ticks_end l m r (suc k') rest later (after_chunk r (suc k') rest n) (omega arith)
          (omega arith) in
      rw first (
        ap (λ x. x.0)
          (next_ok (ticks (suc m) l later (after_chunk r (suc k') rest n)) (ends_after m r)
            (λ rest. return_value (none ∷ rest)) again))
