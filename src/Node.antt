-- ===== src/Node.antt =====
-- engine/mock_node.py: a node's slots, its queue, its chunked prefill and its decode batch. A
-- request id is a number; the counts of tokens are not negative, so `max(0, n)` is n.
pub mod Batch
pub mod Slots
pub mod Steps
pub mod Estimates
pub mod Waiting
pub mod Prefill
mod Tests
use nano_kvrouter.Prelude.{
  ℕ, zero, suc, ◌-◌, ◌+◌, ◌*◌, ◌/◌, min, Bool, true, false, not, ◌&&◌, ◌||◌, Option, none, some,
  List, [], ◌∷◌, ◌++◌, length, if◌then◌else◌, ◌==◌, ltb, leb, Result, ok, raise, Error,
  runtime_error, key_error, value_error, Exec, next, return_value,
}
use nano_kvrouter.Prelude.Dict.{Dict, get, get_or, put, remove}
use nano_kvrouter.Prelude.Sets.{mem, add, discard}
use nano_kvrouter.Prelude.Float.{Float}

pub data Phase : Type 0 where
  queued admitted prefilling prefill_done in_decode : Phase

-- `NodeRequestState`
pub record RequestState : Type 0 where
  pub request_id : ℕ
  pub prompt_len : ℕ
  pub expected_output_len : ℕ
  pub phase : Phase
  pub uncached_total : Option ℕ
  pub uncached_remaining : ℕ
  pub generated_tokens : ℕ
  pub has_prompt_len : Bool
  pub blocks_prefill_slot : Bool

-- `MockEngineNode`; `capacity` and `chunk_size` are of its configuration
pub record Node : Type 0 where
  pub capacity : ℕ
  pub chunk_size : ℕ
  pub running : List ℕ
  pub queue : List ℕ
  pub decoding : List ℕ
  pub output_tokens : Dict ℕ
  pub expected_output : Dict ℕ
  pub step_in_flight : Bool
  pub prefill_remaining : Dict ℕ
  pub states : Dict RequestState

unfoldable pub init : ℕ → ℕ → Node
init capacity chunk_size = record {
  capacity = capacity;
  chunk_size = chunk_size;
  running = [];
  queue = [];
  decoding = [];
  output_tokens = [];
  expected_output = [];
  step_in_flight = false;
  prefill_remaining = [];
  states = [];
}

-- change an entry, if there is one
unfoldable pub change : (RequestState → RequestState) → ℕ → Dict RequestState → Dict RequestState
unfolding get put
change f r d = elim (get d r) [ none ↦ d | some s ↦ put d r (f s) ]

unfoldable pub value_or : ℕ → Option ℕ → ℕ
value_or z none = z
value_or z (some n) = n

unfoldable pub is_given : Option ℕ → Bool
is_given none = false
is_given (some n) = true

unfoldable pub has_slot : Node → Bool
has_slot n = ltb (length n.running) n.capacity

unfoldable pub new_state : ℕ → ℕ → Option ℕ → Option ℕ → Phase → RequestState
unfolding value_or is_given
new_state r expected prompt uncached phase = record {
  request_id = r;
  prompt_len = value_or 0 prompt;
  expected_output_len = expected;
  phase = phase;
  uncached_total = uncached;
  uncached_remaining = value_or 0 uncached;
  generated_tokens = 0;
  has_prompt_len = is_given prompt;
  blocks_prefill_slot = true;
}

unfoldable pub admit : ℕ → ℕ → Option ℕ → Option ℕ → Node → Bool × Node
unfolding has_slot new_state put
admit r expected prompt uncached n =
    if has_slot n
    then (
      true,
      record n {
        states = put n.states r (new_state r expected prompt uncached admitted);
        running = n.running ++ (r ∷ []);
        output_tokens = put n.output_tokens r 0;
        expected_output = put n.expected_output r expected;
      },
    )
    else (
      false,
      record n {
        states = put n.states r (new_state r expected prompt uncached queued);
        queue = n.queue ++ (r ∷ []);
      },
    )

unfoldable pub mark_batch_step_scheduled : Exec Node (Unit {0})
mark_batch_step_scheduled n =
    if n.step_in_flight
    then (raise runtime_error, n)
    else (ok tt, record n { step_in_flight = true })

unfoldable pub mark_batch_step_completed : Node → Node
mark_batch_step_completed n = record n { step_in_flight = false }

unfoldable pub start_decode : ℕ → Exec Node (Unit {0})
unfolding mem add change get_or value_or
start_decode r n =
    if mem r n.running
    then (
      ok tt,
      record n {
        states =
            change
              (λ s. record s {
                phase = in_decode;
                uncached_total = some (value_or 0 s.uncached_total);
                uncached_remaining = 0;
                generated_tokens = get_or n.output_tokens r 0;
                blocks_prefill_slot = true;
              })
              r n.states;
        decoding = add n.decoding r;
      },
    )
    else (raise runtime_error, n)

-- the state that `init_promoted` leaves, of the one that it finds
unfoldable pub promoted_state : ℕ → ℕ → Option ℕ → Option ℕ → Option RequestState → RequestState
unfolding new_state value_or is_given
promoted_state r expected prompt uncached none = new_state r expected prompt uncached admitted
promoted_state r expected prompt uncached (some s) = record s {
  phase = admitted;
  expected_output_len = expected;
  generated_tokens = 0;
  prompt_len = value_or s.prompt_len prompt;
  has_prompt_len = is_given prompt || s.has_prompt_len;
  uncached_total = if is_given uncached then uncached else s.uncached_total;
  uncached_remaining = value_or s.uncached_remaining uncached;
}

unfoldable pub init_promoted : ℕ → ℕ → Option ℕ → Option ℕ → Exec Node (Unit {0})
unfolding mem promoted_state put get
init_promoted r expected prompt uncached n =
    if mem r n.running
    then (
      ok tt,
      record n {
        output_tokens = put n.output_tokens r 0;
        expected_output = put n.expected_output r expected;
        states = put n.states r (promoted_state r expected prompt uncached (get n.states r));
      },
    )
    else (raise runtime_error, n)

unfoldable pub enter_prefill : ℕ → ℕ → Exec Node (Unit {0})
unfolding mem change put
enter_prefill r uncached n =
    if mem r n.running
    then (
      ok tt,
      record n {
        prefill_remaining = put n.prefill_remaining r uncached;
        states =
            change
              (λ s. record s {
                phase = prefilling;
                uncached_total = some uncached;
                uncached_remaining = uncached;
                blocks_prefill_slot = true;
              })
              r n.states;
      },
    )
    else (raise runtime_error, n)

unfoldable pub prefilled : RequestState → RequestState
prefilled s = record s {
  phase = prefill_done;
  uncached_total = some 0;
  uncached_remaining = 0;
  blocks_prefill_slot = false;
}

unfoldable pub mark_prefill_done : ℕ → Exec Node (Unit {0})
unfolding mem change prefilled
mark_prefill_done r n =
    if mem r n.running
    then (ok tt, record n { states = change prefilled r n.states })
    else (raise runtime_error, n)
