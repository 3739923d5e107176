-- ===== src/Node/Estimates.antt =====
-- engine/mock_node.py: the estimates that the schedulers read, `estimate_prefill_time` and
-- `queue_wait_time`.
use nano_kvrouter.Prelude.{
  ℕ, ◌+◌, ◌-◌, ◌/◌, max, Bool, true, false, not, ◌&&◌, ◌||◌, Option, none, some, List, [], ◌∷◌,
  ◌++◌, length, map, if◌then◌else◌, ◌==◌, ltb,
}
use nano_kvrouter.Prelude.Dict.{Dict, get}
use nano_kvrouter.Prelude.Sets.{mem}
use nano_kvrouter.Prelude.Float.{Float}
use nano_kvrouter.Node.{
  Phase, queued, admitted, prefilling, prefill_done, in_decode, RequestState, Node, has_slot,
  value_or, is_given,
}
use nano_kvrouter.Node.Batch.{LatencyModel, estimate_decode_time}

-- `_uses_legacy_wait_fallback`, after its test of the arguments: no blocker has any metadata
unfoldable pub lacks_metadata : Dict RequestState → List ℕ → Bool
unfolding get
lacks_metadata states [] = true
lacks_metadata states (r ∷ rs) =
    let rest = lacks_metadata states rs in
    elim (get states r) [
      | none ↦ true
      | some s ↦ if s.has_prompt_len || ltb 0 s.expected_output_len then false else rest
    ]

unfoldable pub uses_legacy_wait_fallback : Node → Option ℕ → Option ℕ → Bool
unfolding lacks_metadata is_given
uses_legacy_wait_fallback n prompt expected =
    if is_given prompt || is_given expected
    then false
    else lacks_metadata n.states (n.running ++ n.queue)

-- the state of a request, and one for a request that has none
unfoldable pub state_or_unknown : ℕ → Bool → Option RequestState → RequestState
state_or_unknown r is_queued (some s) = s
state_or_unknown r is_queued none = record {
  request_id = r;
  prompt_len = 0;
  expected_output_len = 0;
  phase = if is_queued then queued else admitted;
  uncached_total = none;
  uncached_remaining = 0;
  generated_tokens = 0;
  has_prompt_len = false;
  blocks_prefill_slot = true;
}

unfoldable pub state_for_wait : Node → ℕ → RequestState
unfolding get mem state_or_unknown
state_for_wait n r = state_or_unknown r (mem r n.queue) (get n.states r)

-- the output that a request is expected to have, with the fallback of a legacy caller
unfoldable pub expected_output_of : RequestState → Option ℕ → ℕ
unfolding value_or
expected_output_of s fallback =
    if s.expected_output_len == 0 && not s.has_prompt_len
    then value_or s.expected_output_len fallback
    else s.expected_output_len

-- the tokens of the prompt that are still to be computed, before the prefill is done
unfoldable pub prefill_tokens : Phase → RequestState → Option ℕ → ℕ
unfolding value_or
prefill_tokens prefilling s fallback = s.uncached_remaining
prefill_tokens _ s fallback = elim (s.uncached_total) [
  | some n ↦ n
  | none ↦ if s.has_prompt_len then s.prompt_len else value_or 0 fallback
]

module _ (F : Float) where
  open F use {Num, of_nat, leq, plus, times}

  unfoldable pub estimate_prefill_time : LatencyModel F → ℕ → ℕ → ℕ → Option ℕ → Num
  estimate_prefill_time l chunk prompt_len cached none =
      times (of_nat (prompt_len - cached)) l.prefill_cost_per_token
  estimate_prefill_time l chunk prompt_len cached (some batch_size) =
      let uncached = prompt_len - cached in
      let n_chunks = if ltb 0 uncached then (uncached + chunk - 1) / chunk else 0 in
      times (of_nat n_chunks) (
        plus (plus (times (of_nat chunk) l.prefill_cost_per_token) l.decode_base)
          (times (of_nat batch_size) l.marginal_decode))

  unfoldable pub wait_decode_step_ms : LatencyModel F → Node → Num
  unfolding estimate_decode_time
  wait_decode_step_ms l n =
      estimate_decode_time F l (max (max (length n.decoding) (length n.running)) 1)

  -- `_remaining_lifecycle_ms`, by the phase of the state
  unfoldable pub remaining_in :
      Phase → LatencyModel F → Node → RequestState → Option ℕ → Option ℕ → Num
  unfolding wait_decode_step_ms expected_output_of prefill_tokens
  remaining_in prefill_done l n s prompt output =
      if not s.blocks_prefill_slot
      then of_nat 0
      else times (of_nat (expected_output_of s output - s.generated_tokens))
          (wait_decode_step_ms l n)
  remaining_in in_decode l n s prompt output =
      times (of_nat (expected_output_of s output - s.generated_tokens)) (wait_decode_step_ms l n)
  remaining_in phase l n s prompt output =
      plus (times (of_nat (prefill_tokens phase s prompt)) l.prefill_cost_per_token) (
        times (of_nat (expected_output_of s output - s.generated_tokens)) (wait_decode_step_ms l n))

  unfoldable pub remaining_lifecycle_ms : LatencyModel F → Node → Option ℕ → Option ℕ → ℕ → Num
  unfolding remaining_in state_for_wait
  remaining_lifecycle_ms l n prompt output r =
      let s = state_for_wait n r in remaining_in s.phase l n s prompt output

  -- sorted(xs)
  unfoldable pub insert_num : Num → List Num → List Num
  insert_num x [] = x ∷ []
  insert_num x (y ∷ ys) = let rest = insert_num x ys in if leq x y then x ∷ y ∷ ys else y ∷ rest

  unfoldable pub sort_nums : List Num → List Num
  unfolding insert_num
  sort_nums [] = []
  sort_nums (x ∷ xs) = insert_num x (sort_nums xs)

  -- A queued request takes the slot that is released first. There is always one.
  unfoldable pub take_slot : List Num → Num → List Num
  unfolding sort_nums
  take_slot [] cost = []
  take_slot (earliest ∷ later) cost = sort_nums (later ++ (plus earliest cost ∷ []))

  unfoldable pub take_slots : List Num → List Num → List Num
  unfolding take_slot
  take_slots slots [] = slots
  take_slots slots (cost ∷ costs) = take_slots (take_slot slots cost) costs

  -- slot_release_times[0], or 0.0 where there is no slot at all
  unfoldable pub first_release : List Num → Num
  first_release [] = of_nat 0
  first_release (s ∷ ss) = s

  unfoldable pub fifo_wait : LatencyModel F → Node → Option ℕ → Option ℕ → Num
  unfolding remaining_lifecycle_ms sort_nums take_slots first_release
  fifo_wait l n prompt expected =
      let cost = remaining_lifecycle_ms l n prompt expected in
      first_release (take_slots (sort_nums (map cost n.running)) (map cost n.queue))

  unfoldable pub queue_wait_time : LatencyModel F → Node → Option ℕ → Option ℕ → Num
  unfolding has_slot uses_legacy_wait_fallback fifo_wait
  queue_wait_time l n prompt expected =
      if has_slot n
      then of_nat 0
      else (if uses_legacy_wait_fallback n prompt expected
          then times (of_nat (length n.queue + 1)) l.decode_base
          else fifo_wait l n prompt expected)
