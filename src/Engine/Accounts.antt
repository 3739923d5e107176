-- ===== src/Engine/Accounts.antt =====
-- The number of events that wait in the engine of simulator/engine.py, and how a run comes to return.
use nano_kvrouter.Prelude.{
  ℕ, zero, suc, ◌≡◌, inl, inr, refl, Bool, true, false, List, [], ◌∷◌, arith, Bool-cases, Exec, ok,
  raise, Result-cases, Result, Error, out_of_fuel, next, next_ok, length, ◌+◌, ◌⊎◌, ◌≢◌, sym,
}
use nano_kvrouter.Prelude.Float.{Float, less}
use nano_kvrouter.Engine.{
  Event, EventType, Engine, Handler, before, now, schedule, stop, pop_least, fire, turn, run,
}
use nano_kvrouter.Engine.Runs.{Uses, nothing, schedules, stops, schedule-past, schedule-ok}

abbrev raised : Error → Result (Unit {0})
raised e = raise e

no_answer : (x : Error) → raised x ≢ ok tt
no_answer x e = cc

next_raise :
    {S : Type 0} (x : Result (Unit {0}) × S) (e : Error) (f : Exec S Unit)
    → x.0 ≡ raise e
    → (next (λ _. f) x).0 ≡ raised e
next_raise (ok a, s) e f h = absurd (no_answer e (sym h))
next_raise (raise d, s) e f h = h

module _ (F : Float) (Payload : Type 0) where
  pub length-pop_least :
      (e : Event F Payload) (q : List (Event F Payload))
      → length (pop_least F Payload e q).1 ≡ length q
  unfolding pop_least
  length-pop_least e [] = refl
  length-pop_least e (f ∷ q) =
      let less_one = length-pop_least f q in
      elim (Bool-cases (before F Payload (pop_least F Payload f q).0 e)) [
        | inl c ↦ rw c (omega arith)
        | inr c ↦ rw c refl
      ]

  schedule_balance :
      (e : Event F Payload) (s : Engine F Payload)
      → length (schedule F Payload e s).1.queue + s.seq_counter
        ≡ (schedule F Payload e s).1.seq_counter + length s.queue
  schedule_balance e s = elim (Bool-cases (less F e.time (now F Payload s))) [
    | inl c ↦ rw (schedule-past F Payload e s c) (omega arith)
    | inr c ↦ rw (schedule-ok F Payload e s c) (omega arith)
  ]

  -- What waits more than before has been given a number.
  pub Uses-balance :
      {s t : Engine F Payload}
      → Uses F Payload s t
      → length t.queue + s.seq_counter ≡ t.seq_counter + length s.queue
  unfolding stop
  Uses-balance nothing = omega arith
  Uses-balance (schedules e u) = omega (arith, schedule_balance e _, Uses-balance u)
  Uses-balance (stops u) = Uses-balance u

  module _ {World : Type 0} (handlers : EventType → List (Handler F Payload World)) where
    abbrev pub HasEnded : Engine F Payload → Type 0
    HasEnded t = (t.queue ≡ []) ⊎ (t.is_stopped ≡ true)

    turn_ends :
        (rest : Exec (Engine F Payload × World) Unit) (q : List (Event F Payload)) (stopped : Bool)
        (s : Engine F Payload) (w : World)
        → ((sw : Engine F Payload × World) → (rest sw).0 ≡ ok tt → HasEnded (rest sw).1.0)
        → s.queue ≡ q
        → s.is_stopped ≡ stopped
        → (turn F Payload handlers rest q stopped (s, w)).0 ≡ ok tt
        → HasEnded (turn F Payload handlers rest q stopped (s, w)).1.0
    unfolding turn
    turn_ends rest [] stopped s w k c b h = inl c
    turn_ends rest (e ∷ q) true s w k c b h = inr b
    turn_ends rest (e ∷ q) false s w k c b h =
        elim (Result-cases (fire F Payload handlers e q (s, w)).0) [
          | inl (_, good) ↦
              let then_rest = next_ok (fire F Payload handlers e q (s, w)) tt (λ _. rest) good in
              rw then_rest (k (fire F Payload handlers e q (s, w)).1 (rw then_rest at h))
          | inr (x, bad) ↦
              absurd
                (no_answer x (rw (next_raise (fire F Payload handlers e q (s, w)) x rest bad) at h))
        ]

    pub run_ends :
        (fuel : ℕ) (sw : Engine F Payload × World)
        → (run F Payload fuel handlers sw).0 ≡ ok tt
        → HasEnded (run F Payload fuel handlers sw).1.0
    unfolding run
    run_ends zero sw h = absurd (no_answer out_of_fuel h)
    run_ends (suc fuel) (s, w) h =
        turn_ends (run F Payload fuel handlers) s.queue s.is_stopped s w (run_ends fuel) refl refl h
