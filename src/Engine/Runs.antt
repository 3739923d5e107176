-- ===== src/Engine/Runs.antt =====
-- `SimulationEngine.run` of simulator/engine.py, with handlers that use `schedule` and `stop`.
use nano_kvrouter.Prelude.{
  ℕ, zero, suc, ◌<◌, ◌≡◌, inl, inr, refl, Bool, true, false, List, [], ◌∷◌, arith, Bool-cases, Exec,
  next-keeps, ok, raise, value_error, Result-cases,
}
use nano_kvrouter.Prelude.Float.{Float, IsOrdered, less, leq_refl}
use nano_kvrouter.Engine.{
  Event, EventType, Engine, Handler, init, now, schedule, stop, pop_least, call_all, fire, turn,
  run,
}
use nano_kvrouter.Engine.Queue.{IsTimely, pop_least-IsTimely, pop_least-Every, IsTimely-older}

module _ (F : Float) (Payload : Type 0) where
  open F use {Num, leq}

  -- No event is due in the past, and each was given a number of its own.
  abbrev pub IsSound : Engine F Payload → Type 0
  IsSound s = IsTimely F Payload s.current_time s.queue s.seq_counter

  pub init-IsSound : IsSound (init F Payload)
  unfolding init
  init-IsSound = tt

  -- what a handler can do to the engine
  pub data Uses (s : Engine F Payload) : Engine F Payload → Type 0 where
    nothing : Uses s s
    schedules :
        {t : Engine F Payload} (e : Event F Payload) → Uses s t → Uses s (schedule F Payload e t).1
    stops : {t : Engine F Payload} → Uses s t → Uses s (stop F Payload t)

  -- An event in the past is refused and changes nothing. Another one joins the queue, with the next number.
  pub schedule-past :
      (e : Event F Payload) (s : Engine F Payload)
      → less F e.time (now F Payload s) ≡ true
      → schedule F Payload e s ≡ (raise value_error, s)
  unfolding schedule now
  schedule-past e s h = rw h refl

  pub schedule-ok :
      (e : Event F Payload) (s : Engine F Payload)
      → less F e.time (now F Payload s) ≡ false
      → schedule F Payload e s ≡ (
        ok tt,
        record s {
          queue = record e { seq = s.seq_counter } ∷ s.queue;
          seq_counter = suc s.seq_counter;
        },
      )
  unfolding schedule now
  schedule-ok e s h = rw h refl

  pub less-leq : (a b : Num) → less F a b ≡ false → leq b a ≡ true
  unfolding less
  less-leq a b h = ground arith

  pub schedule-IsSound :
      (e : Event F Payload) (s : Engine F Payload) → IsSound s → IsSound (schedule F Payload e s).1
  unfolding now
  schedule-IsSound e s h = elim (Bool-cases (less F e.time (now F Payload s))) [
    | inl c ↦ rw (schedule-past e s c) h
    | inr c ↦ rw (schedule-ok e s c) (less-leq _ _ c, omega arith, h)
  ]

  schedule-now :
      (e : Event F Payload) (s : Engine F Payload)
      → now F Payload (schedule F Payload e s).1 ≡ now F Payload s
  unfolding now
  schedule-now e s = elim (Bool-cases (less F e.time (now F Payload s))) [
    | inl c ↦ rw (schedule-past e s c) refl
    | inr c ↦ rw (schedule-ok e s c) refl
  ]

  pub Uses-IsSound : {s t : Engine F Payload} → Uses s t → IsSound s → IsSound t
  unfolding stop
  Uses-IsSound nothing h = h
  Uses-IsSound (schedules e u) h = schedule-IsSound e _ (Uses-IsSound u h)
  Uses-IsSound (stops u) h = Uses-IsSound u h

  pub Uses-now : {s t : Engine F Payload} → Uses s t → now F Payload t ≡ now F Payload s
  unfolding stop now
  Uses-now nothing = refl
  Uses-now (schedules e u) = rw (schedule-now e _) (Uses-now u)
  Uses-now (stops u) = Uses-now u

  module _ {World : Type 0} where
    -- a handler that touches the engine only through its methods
    abbrev pub IsUser : Handler F Payload World → Type 0
    IsUser h = (e : Event F Payload) (s : Engine F Payload) (w : World) → Uses s (h e (s, w)).1.0

    abbrev pub AllUsers : List (Handler F Payload World) → Type 0
    AllUsers [] = Unit
    AllUsers (h ∷ hs) = IsUser h × AllUsers hs

    -- sound, and the time is not before t
    abbrev pub SoundAfter : Num → Engine F Payload × World → Type 0
    SoundAfter t (s, w) = IsSound s × (leq t (now F Payload s) ≡ true)

    call_all-SoundAfter :
        (hs : List (Handler F Payload World)) (e : Event F Payload) (s : Engine F Payload)
        (w : World) (t : Num)
        → AllUsers hs
        → SoundAfter t (s, w)
        → SoundAfter t (call_all F Payload hs e (s, w)).1
    unfolding call_all
    call_all-SoundAfter [] e s w t us h = h
    call_all-SoundAfter (f ∷ hs) e s w t us h =
        let (s2, w2) = (f e (s, w)).1 in
        let u : Uses s (f e (s, w)).1.0 = us.0 e s w in
        let h2 : SoundAfter t (f e (s, w)).1 = (Uses-IsSound u h.0, rw (Uses-now u) h.1) in
        elim (Result-cases (f e (s, w)).0) [
          | inl (a, c) ↦
              rw (c, call_all)
                (call_all-SoundAfter hs e (f e (s, w)).1.0 (f e (s, w)).1.1 t us.1 h2)
          | inr (x, c) ↦ rw (c, call_all) h2
        ]

    module _ (o : IsOrdered F) where
      fire-SoundAfter :
          (handlers : EventType → List (Handler F Payload World)) (e : Event F Payload)
          (q : List (Event F Payload)) (s : Engine F Payload) (w : World) (t : Num)
          → ((k : EventType) → AllUsers (handlers k))
          → s.queue ≡ e ∷ q
          → SoundAfter t (s, w)
          → SoundAfter t (fire F Payload handlers e q (s, w)).1
      unfolding fire now
      fire-SoundAfter handlers e q s w t us c h =
          let sound = rw c at h.0 in
          let m = (pop_least F Payload e q).0 in
          let due =
            (pop_least-Every F Payload
              (λ x. (x.seq < s.seq_counter) × (leq s.current_time x.time ≡ true)) e q
              (IsTimely-older F Payload s.current_time (e ∷ q) s.seq_counter sound)).0.1 in
          call_all-SoundAfter (handlers m.kind) m _ w t (us m.kind) (
            pop_least-IsTimely F Payload o s.current_time e q s.seq_counter sound,
            o.trans t s.current_time m.time h.1 due,
          )

      turn-SoundAfter :
          (handlers : EventType → List (Handler F Payload World))
          (rest : Exec (Engine F Payload × World) Unit) (q : List (Event F Payload))
          (stopped : Bool) (s : Engine F Payload) (w : World) (t : Num)
          → ((k : EventType) → AllUsers (handlers k))
          → ((sw : Engine F Payload × World) → SoundAfter t sw → SoundAfter t (rest sw).1)
          → s.queue ≡ q
          → SoundAfter t (s, w)
          → SoundAfter t (turn F Payload handlers rest q stopped (s, w)).1
      unfolding turn
      turn-SoundAfter handlers rest [] stopped s w t us k c h = h
      turn-SoundAfter handlers rest (e ∷ q) true s w t us k c h = h
      turn-SoundAfter handlers rest (e ∷ q) false s w t us k c h =
          next-keeps (SoundAfter t) (fire F Payload handlers e q (s, w)) (λ _. rest)
            (fire-SoundAfter handlers e q s w t us c h) (λ _ sw i. k sw i)

      run-SoundAfter :
          (fuel : ℕ) (handlers : EventType → List (Handler F Payload World))
          (sw : Engine F Payload × World) (t : Num)
          → ((k : EventType) → AllUsers (handlers k))
          → SoundAfter t sw
          → SoundAfter t (run F Payload fuel handlers sw).1
      unfolding run
      run-SoundAfter zero handlers sw t us h = h
      run-SoundAfter (suc fuel) handlers (s, w) t us h =
          turn-SoundAfter handlers (run F Payload fuel handlers) s.queue s.is_stopped s w t us
            (λ sw i. run-SoundAfter fuel handlers sw t us i) refl h

      -- However far a run of the engine comes, and also when a handler raises or stops it: every
      -- waiting event is due no earlier than the clock, each has a sequence number of its own
      -- that is below the counter, and the clock has not gone back. The engine has to start so,
      -- times have to be ordered as `IsOrdered` says, and handlers have to use the engine only
      -- through schedule and stop.
      pub run-IsSound :
          (fuel : ℕ) (handlers : EventType → List (Handler F Payload World)) (s : Engine F Payload)
          (w : World)
          → ((k : EventType) → AllUsers (handlers k))
          → IsSound s
          → IsSound (run F Payload fuel handlers (s, w)).1.0
            × (leq (now F Payload s) (now F Payload (run F Payload fuel handlers (s, w)).1.0)
                ≡ true)
      run-IsSound fuel handlers s w us h =
          run-SoundAfter fuel handlers (s, w) (now F Payload s) us (h, leq_refl F o _)
