-- ===== src/Node/Batch.antt =====
-- engine/mock_node.py: `tick_batch_step` and `complete`.
use nano_kvrouter.Prelude.{
  ℕ, zero, suc, ◌-◌, min, Bool, true, ◌&&◌, Option, none, some, List, [], ◌∷◌, ◌++◌, length,
  if◌then◌else◌, ◌==◌, leb, ltb, ok, raise, runtime_error, key_error, value_error, Exec, next,
  return_value,
}
use nano_kvrouter.Prelude.Dict.{Dict, get, put, remove}
use nano_kvrouter.Prelude.Sets.{mem, discard}
use nano_kvrouter.Prelude.Float.{Float}
use nano_kvrouter.Node.{admitted, Node, change, prefilled, has_slot}

-- sorted(xs)
unfoldable pub insert_sorted : ℕ → List ℕ → List ℕ
insert_sorted x [] = x ∷ []
insert_sorted x (y ∷ ys) = let rest = insert_sorted x ys in if leb x y then x ∷ y ∷ ys else y ∷ rest

unfoldable pub sorted : List ℕ → List ℕ
unfolding insert_sorted
sorted [] = []
sorted (x ∷ xs) = insert_sorted x (sorted xs)

-- one more token of a stream, and whether it has all of its tokens then
unfoldable pub has_all : Option ℕ → ℕ → Exec Node Bool
has_all none k n = (raise key_error, n)
has_all (some want) k n = (ok (leb want k), n)

unfoldable pub count_from : Option ℕ → ℕ → Exec Node Bool
unfolding get put change has_all
count_from none r n = (raise key_error, n)
count_from (some k) r n = has_all (get n.expected_output r) (suc k) (record n {
  output_tokens = put n.output_tokens r (suc k);
  states = change (λ s. record s { generated_tokens = suc k }) r n.states;
})

-- every stream of the batch gains a token; the streams that have all theirs are returned
unfoldable pub advance : List ℕ → Exec Node (List ℕ)
unfolding get count_from
advance [] n = (ok [], n)
advance (r ∷ rs) n =
    let rest = advance rs in
    next (λ is_done m. next (λ done. return_value (if is_done then r ∷ done else done)) (rest m))
      (count_from (get n.output_tokens r) r n)

unfoldable pub discard_all : List ℕ → List ℕ → List ℕ
unfolding discard
discard_all [] s = s
discard_all (r ∷ rs) s = discard_all rs (discard s r)

-- a chunk of the oldest prefill, and how long it is
unfoldable pub chunk_from : Dict ℕ → Node → Option ℕ × ℕ × Node
unfolding put change
chunk_from [] n = (none, 0, n)
chunk_from ((r, remaining) ∷ _) n =
    let chunk = min remaining n.chunk_size in
    (
      some r,
      chunk,
      record n {
        prefill_remaining = put n.prefill_remaining r (remaining - chunk);
        states = change (λ s. record s { uncached_remaining = remaining - chunk }) r n.states;
      },
    )

unfoldable pub prefill_chunk : Node → Option ℕ × ℕ × Node
unfolding chunk_from
prefill_chunk n = chunk_from n.prefill_remaining n

-- the prefill that has nothing left leaves the pipeline
unfoldable pub finish_from : Option ℕ → ℕ → Exec Node (Option ℕ)
unfolding remove change prefilled
finish_from none r n = (raise key_error, n)
finish_from (some zero) r n = (
  ok (some r),
  record n {
    prefill_remaining = remove n.prefill_remaining r;
    states = change prefilled r n.states;
  },
)
finish_from (some (suc left)) r n = (ok none, n)

unfoldable pub finish_prefill : Option ℕ → Exec Node (Option ℕ)
unfolding get finish_from
finish_prefill none n = (ok none, n)
finish_prefill (some r) n = finish_from (get n.prefill_remaining r) r n

unfoldable pub is_idle : Node → Bool
is_idle n = (length n.decoding == 0) && (length n.prefill_remaining == 0)

-- the part of the step after the chunk
unfoldable pub decode_step : Option ℕ → Exec Node (List ℕ × Option ℕ)
unfolding sorted advance discard_all finish_prefill
decode_step prefill n =
    next
      (λ done n2.
        next (λ prefill_done. return_value (done, prefill_done))
          (finish_prefill prefill (record n2 { decoding = discard_all done n2.decoding })))
      (advance (sorted n.decoding) n)

module _ (F : Float) where
  open F use {Num, of_nat, plus, times, over}

  -- the constants of the latency model
  pub record LatencyModel : Type 0 where
    pub prefill_cost_per_token : Num
    pub decode_base : Num
    pub marginal_decode : Num

  unfoldable pub estimate_decode_time : LatencyModel → ℕ → Num
  estimate_decode_time m batch_size =
      plus m.decode_base (times (of_nat batch_size) m.marginal_decode)

  unfoldable pub current_load : Node → Num
  current_load n = over (of_nat (length n.running)) (of_nat n.capacity)

  unfoldable pub step_time : LatencyModel → ℕ → ℕ → Num
  unfolding estimate_decode_time
  step_time m chunk batch_size =
      plus (times (of_nat chunk) m.prefill_cost_per_token)
        (if ltb 0 batch_size then estimate_decode_time m batch_size else of_nat 0)

  unfoldable pub tick_batch_step : LatencyModel → Num → Exec Node (Num × List ℕ × Option ℕ)
  unfolding is_idle prefill_chunk decode_step step_time
  tick_batch_step m now n =
      let (prefill, chunk, n2) = prefill_chunk n in
      let later = plus now (step_time m chunk (length n.decoding)) in
      if is_idle n
      then (raise runtime_error, n)
      else next (λ done. return_value (later, done.0, done.1)) (decode_step prefill n2)

-- list.remove: the first of them
unfoldable pub remove_first : ℕ → List ℕ → List ℕ
remove_first r [] = []
remove_first r (x ∷ xs) = let rest = remove_first r xs in if x == r then xs else x ∷ rest

-- the first of the queue takes the free slot
unfoldable pub promote_from : List ℕ → Node → Option ℕ × Node
unfolding has_slot change
promote_from [] n = (none, n)
promote_from (r ∷ rs) n =
    if has_slot n
    then (
      some r,
      record n {
        queue = rs;
        running = n.running ++ (r ∷ []);
        states = change (λ s. record s { phase = admitted; blocks_prefill_slot = true }) r n.states;
      },
    )
    else (none, n)

unfoldable pub promote : Node → Option ℕ × Node
unfolding promote_from
promote n = promote_from n.queue n

-- nothing is kept of a request
unfoldable pub forget : ℕ → Node → Node
unfolding remove discard
forget r n = record n {
  output_tokens = remove n.output_tokens r;
  expected_output = remove n.expected_output r;
  decoding = discard n.decoding r;
  prefill_remaining = remove n.prefill_remaining r;
  states = remove n.states r;
}

unfoldable pub complete : ℕ → Exec Node (Option ℕ)
unfolding mem remove_first forget promote
complete r n =
    if mem r n.running
    then (let (promoted, n2) =
          promote (forget r (record n { running = remove_first r n.running })) in
        (ok promoted, n2))
    else (if mem r n.queue
        then (let (promoted, n2) =
              promote (forget r (record n { queue = remove_first r n.queue })) in
            (ok promoted, n2))
        else (raise value_error, n))
