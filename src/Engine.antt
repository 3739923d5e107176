-- ===== src/Engine.antt =====
-- simulator/event.py and simulator/engine.py: the events, and the loop that fires them in the order
-- of their times. The heap is a list, the newest event first; `heappop` takes the least event of it.
pub mod Queue
pub mod Runs
pub mod Accounts
pub mod Firing
pub mod Handlers
pub mod Worlds
mod Tests
use nano_kvrouter.Prelude.{
  ℕ, suc, zero, Bool, true, false, ◌&&◌, List, [], ◌∷◌, ◌++◌, ◌==◌, if◌then◌else◌, ltb, Exec, ok,
  raise, Error, value_error, out_of_fuel, return_value, then_do,
}
use nano_kvrouter.Prelude.Float.{Float, less}
use nano_kvrouter.Prelude.Keys.{pair_lt}

pub data EventType : Type 0 where
  request_arrive scheduled prefill_start prefill_complete kv_transfer_start kv_transfer_complete :
      EventType
  token_generated decode_batch_step decode_complete request_rejected : EventType

-- the keys of the handler table
unfoldable pub index : EventType → ℕ
index request_arrive = 0
index scheduled = 1
index prefill_start = 2
index prefill_complete = 3
index kv_transfer_start = 4
index kv_transfer_complete = 5
index token_generated = 6
index decode_batch_step = 7
index decode_complete = 8
index request_rejected = 9

module _ (F : Float) (Payload : Type 0) where
  open F use {Num, of_nat, leq}

  pub record Event : Type 0 where
    pub time : Num
    pub seq : ℕ
    pub kind : EventType
    pub payload : Payload

  -- the order of the dataclass: the pairs (time, seq)
  unfoldable pub before : Event → Event → Bool
  unfolding pair_lt
  before a b = pair_lt F (a.time, a.seq) (b.time, b.seq)

  -- `SimulationEngine`; its handler table is an argument of `run`
  pub record Engine : Type 0 where
    pub queue : List Event
    pub current_time : Num
    pub seq_counter : ℕ
    pub is_stopped : Bool

  unfoldable pub init : Engine
  init = record { queue = []; current_time = of_nat 0; seq_counter = 0; is_stopped = false }

  unfoldable pub now : Engine → Num
  now s = s.current_time

  unfoldable pub schedule : Event → Exec Engine Unit
  unfolding less
  schedule e s =
      if less F e.time s.current_time
      then (raise value_error, s)
      else return_value tt (record s {
        queue = record e { seq = s.seq_counter } ∷ s.queue;
        seq_counter = suc s.seq_counter;
      })

  unfoldable pub stop : Engine → Engine
  stop s = record s { is_stopped = true }

  -- the least event, and the others
  unfoldable pub pop_least : Event → List Event → Event × List Event
  unfolding before
  pop_least e [] = (e, [])
  pop_least e (f ∷ q) =
      let (m, rest) = pop_least f q in if before m e then (m, e ∷ rest) else (e, f ∷ q)

  -- The handlers act on the engine and on a world of their own.
  abbrev pub Handler : Type 0 → Type 0
  Handler World = Event → Exec (Engine × World) Unit

  -- the handlers of an event type: none of a type that is no key
  abbrev pub HandlerTable : Type 0 → Type 0
  HandlerTable World = EventType → List (Handler World)

  module _ {World : Type 0} where
    unfoldable pub no_handlers : HandlerTable World
    no_handlers kind = []

    unfoldable pub on : EventType → Handler World → HandlerTable World → HandlerTable World
    unfolding index
    on kind h handlers k = handlers k ++ (if index kind == index k then h ∷ [] else [])

    unfoldable pub call_all : List (Handler World) → Event → Exec (Engine × World) Unit
    call_all [] e = return_value tt
    call_all (h ∷ hs) e = let rest = call_all hs e in then_do (h e) (λ _. rest)

    -- one turn of the loop, for the queue e ∷ q
    unfoldable pub fire : HandlerTable World → Event → List Event → Exec (Engine × World) Unit
    unfolding pop_least call_all
    fire handlers e q (s, w) =
        let (m, rest) = pop_least e q in
        call_all (handlers m.kind) m (record s { queue = rest; current_time = m.time }, w)

    -- one test of the loop's condition, and what follows it
    unfoldable pub turn :
        HandlerTable World
        → Exec (Engine × World) Unit
        → List Event
        → Bool
        → Exec (Engine × World) Unit
    unfolding fire
    turn handlers rest [] stopped sw = (ok tt, sw)
    turn handlers rest (e ∷ q) true sw = (ok tt, sw)
    turn handlers rest (e ∷ q) false sw = then_do (fire handlers e q) (λ _. rest) sw

    unfoldable pub run : ℕ → HandlerTable World → Exec (Engine × World) Unit
    unfolding turn
    run zero handlers sw = (raise out_of_fuel, sw)
    run (suc fuel) handlers (s, w) = turn handlers (run fuel handlers) s.queue s.is_stopped (s, w)
