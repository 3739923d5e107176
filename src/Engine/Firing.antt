-- ===== src/Engine/Firing.antt =====
-- The order in which `SimulationEngine.run` of simulator/engine.py fires its events.
use nano_kvrouter.Prelude.{
  ℕ, zero, suc, ◌<◌, ◌≡◌, inl, inr, refl, Bool, true, false, List, [], ◌∷◌, All, arith, Bool-cases,
  Exec, next-keeps, ok, Result, length, ◌+◌, ◌⊎◌,
}
use nano_kvrouter.Prelude.Float.{Float, IsOrdered, less, leq_refl}
use nano_kvrouter.Prelude.Keys.{pair_lt}
use nano_kvrouter.Engine.{
  Event, EventType, Engine, Handler, before, now, schedule, stop, pop_least, call_all, fire, turn,
  run,
}
use nano_kvrouter.Engine.Queue.{
  Every, Every-map, IsTimely, IsTimely-older, pop_least-Every, pop_least-before, pop_least-IsTimely,
}
use nano_kvrouter.Engine.Accounts.{length-pop_least, Uses-balance, run_ends}
use nano_kvrouter.Engine.Runs.{
  IsSound, Uses, nothing, schedules, stops, IsUser, schedule-past, schedule-ok, less-leq,
  Uses-IsSound,
}

module _ (F : Float) (Payload : Type 0) where
  open F use {Num, leq}

  -- x fires after y: it is due no earlier, and at the same time it was scheduled later.
  abbrev pub Follows : Event F Payload → Event F Payload → Type 0
  Follows y x = (leq y.time x.time ≡ true) × (leq x.time y.time ≡ true → y.seq < x.seq)

  -- Of a list with the newest first, each event follows all that come before it.
  abbrev pub InOrder : List (Event F Payload) → Type 0
  InOrder [] = Unit
  InOrder (x ∷ log) = All (λ y. Follows y x) log × InOrder log

  -- What a run from `s` has done once it is at `t`, with this log and this answer.
  pub record Fires (s t : Engine F Payload) (log : List (Event F Payload)) (out : Result (Unit {0}))
      : Type 0 where
    pub in_order : InOrder log
    -- each event that waited or has been scheduled is in the log, or still waits
    pub accounted : length log + length t.queue + s.seq_counter ≡ t.seq_counter + length s.queue
    -- it returns only once nothing waits any more, or it has been stopped
    pub ended : out ≡ ok tt → (t.queue ≡ []) ⊎ (t.is_stopped ≡ true)

  -- y has fired, and what waits or is scheduled from now on follows it
  abbrev Behind : Engine F Payload → Event F Payload → Type 0
  Behind s y =
      (leq y.time s.current_time ≡ true)
      × (y.seq < s.seq_counter)
      × Every F Payload (λ x. Follows y x) s.queue

  all_map :
      {P Q : Event F Payload → Type 0} (log : List (Event F Payload))
      → ((e : Event F Payload) → P e → Q e)
      → All P log
      → All Q log
  all_map [] f h = tt
  all_map (e ∷ log) f h = (f e h.0, all_map log f h.1)

  module _ (World : Type 0) where
    -- a world with a log of the events, the newest first
    abbrev pub Logged : Type 0
    Logged = List (Event F Payload) × World

    -- the handler that writes the log
    abbrev pub recorder : Handler F Payload Logged
    recorder e (s, (log, w)) = (ok tt, (s, (e ∷ log, w)))

    -- a handler that uses the engine only through its methods, and leaves the log alone
    abbrev pub IsGuest : Handler F Payload Logged → Type 0
    IsGuest h =
        IsUser F Payload h
        × ((e : Event F Payload) (s : Engine F Payload) (v : Logged) → (h e (s, v)).1.1.0 ≡ v.0)

  module _ (o : IsOrdered F) where
    before-Follows : (a b : Event F Payload) → before F Payload a b ≡ true → Follows a b
    unfolding before pair_lt less
    before-Follows a b h =
        let t = o.total a.time b.time in
        let u = o.total b.time a.time in (ground arith, λ k. ground arith)

    schedule-Behind :
        (e : Event F Payload) (s : Engine F Payload) (y : Event F Payload)
        → Behind s y
        → Behind (schedule F Payload e s).1 y
    unfolding now
    schedule-Behind e s y h = elim (Bool-cases (less F e.time (now F Payload s))) [
      | inl c ↦ rw (schedule-past F Payload e s c) h
      | inr c ↦
          let due = o.trans y.time s.current_time e.time h.0 (less-leq F Payload _ _ c) in
          rw (schedule-ok F Payload e s c) (h.0, omega (arith, h.1), ((due, λ _. h.1), h.2))
    ]

    Uses-Behind :
        {s t : Engine F Payload} (y : Event F Payload)
        → Uses F Payload s t
        → Behind s y
        → Behind t y
    unfolding stop
    Uses-Behind y nothing h = h
    Uses-Behind y (schedules e u) h = schedule-Behind e _ y (Uses-Behind y u h)
    Uses-Behind y (stops u) h = Uses-Behind y u h

    module _ (World : Type 0) (c0 q0 : ℕ) where
      -- c0 is the counter at the start, and q0 the number of events that waited then
      abbrev Orderly : Engine F Payload × Logged World → Type 0
      Orderly (s, v) =
          IsSound F Payload s
          × All (Behind s) v.0
          × InOrder v.0
          × (length v.0 + length s.queue + c0 ≡ s.seq_counter + q0)

      call_all-Orderly :
          (hs : List (Handler F Payload (Logged World))) (e : Event F Payload)
          (sv : Engine F Payload × Logged World)
          → All (IsGuest World) hs
          → Orderly sv
          → Orderly (call_all F Payload hs e sv).1
      unfolding call_all
      call_all-Orderly [] e sv gs h = h
      call_all-Orderly (f ∷ hs) e (s, v) ((u, keeps), gs) (sound, past, order, all_there) =
          next-keeps Orderly (f e (s, v)) _
            (
              Uses-IsSound F Payload (u e s v) sound,
              rw (keeps e s v) (all_map v.0 (λ y k. Uses-Behind y (u e s v) k) past),
              rw (keeps e s v) order,
              rw (keeps e s v) (omega (arith, Uses-balance F Payload (u e s v), all_there)),
            )
            (λ _ sv2 k. call_all-Orderly hs e sv2 gs k)

      module _ (hs : EventType → List (Handler F Payload (Logged World)))
          (gs : (k : EventType) → All (IsGuest World) (hs k)) where
        fire-Orderly :
            (e : Event F Payload) (q : List (Event F Payload)) (s : Engine F Payload)
            (v : Logged World)
            → s.queue ≡ e ∷ q
            → Orderly (s, v)
            → Orderly (fire F Payload (λ k. recorder World ∷ hs k) e q (s, v)).1
        unfolding fire call_all
        fire-Orderly e q s v c (sound, past, order, all_there) =
            let m = (pop_least F Payload e q).0 in
            let waiting : IsTimely F Payload s.current_time (e ∷ q) s.seq_counter = rw c at sound in
            let there : length v.0 + length (e ∷ q) + c0 ≡ s.seq_counter + q0 = rw c at all_there in
            let own =
              (pop_least-Every F Payload
                (λ x. (x.seq < s.seq_counter) × (leq s.current_time x.time ≡ true)) e q
                (IsTimely-older F Payload s.current_time (e ∷ q) s.seq_counter waiting)).0.0 in
            let next_ones =
              Every-map F Payload _ (λ x k. before-Follows m x k)
                (pop_least-before F Payload o s.current_time e q s.seq_counter waiting) in
            call_all-Orderly (hs m.kind) m _ (gs m.kind) (
              pop_least-IsTimely F Payload o s.current_time e q s.seq_counter waiting,
              (
                (leq_refl F o m.time, own, next_ones),
                all_map v.0
                    (λ y k.
                      let (now_on, rest) =
                        pop_least-Every F Payload (λ x. Follows y x) e q (rw c at k.2) in
                      (now_on.0, k.1, rest))
                    past,
              ),
              (
                all_map v.0
                    (λ y k. (pop_least-Every F Payload (λ x. Follows y x) e q (rw c at k.2)).0)
                    past,
                order,
              ),
              omega (arith, length-pop_least F Payload e q, there),
            )

        turn-Orderly :
            (rest : Exec (Engine F Payload × (Logged World)) Unit) (q : List (Event F Payload))
            (stopped : Bool) (s : Engine F Payload) (v : Logged World)
            → ((sv : Engine F Payload × Logged World) → Orderly sv → Orderly (rest sv).1)
            → s.queue ≡ q
            → Orderly (s, v)
            → Orderly (turn F Payload (λ k. recorder World ∷ hs k) rest q stopped (s, v)).1
        unfolding turn
        turn-Orderly rest [] stopped s v k c h = h
        turn-Orderly rest (e ∷ q) true s v k c h = h
        turn-Orderly rest (e ∷ q) false s v k c h =
            next-keeps Orderly (fire F Payload (λ k. recorder World ∷ hs k) e q (s, v)) (λ _. rest)
              (fire-Orderly e q s v c h) (λ _ sv i. k sv i)

        run-Orderly :
            (fuel : ℕ) (sv : Engine F Payload × Logged World)
            → Orderly sv
            → Orderly (run F Payload fuel (λ k. recorder World ∷ hs k) sv).1
        unfolding run
        run-Orderly zero sv h = h
        run-Orderly (suc fuel) (s, v) h =
            turn-Orderly (run F Payload fuel (λ k. recorder World ∷ hs k)) s.queue s.is_stopped s v
              (run-Orderly fuel) refl h

    module _ (World : Type 0) where
      -- However far a run of the engine comes, and also when a handler raises or stops it, where
      -- a handler that logs the events is the first one of each type: each event in the log is
      -- due no earlier than all before it, and has a greater sequence number than those before it
      -- that are due at the same time, also where handlers schedule events during the run; the
      -- log and the events that wait are together as many as those that waited at the start and
      -- those that have been scheduled since; and the run returns only once no event waits or it
      -- has been stopped. It holds if the engine starts as in run-IsSound, times are ordered as
      -- `IsOrdered` says, and the other handlers leave the log alone and use the engine only
      -- through schedule and stop.
      pub run-Fires :
          (hs : EventType → List (Handler F Payload (Logged World))) (fuel : ℕ)
          (s : Engine F Payload) (w : World)
          → ((k : EventType) → All (IsGuest World) (hs k))
          → IsSound F Payload s
          → Fires s
              (run F Payload fuel (λ k. recorder World ∷ hs k) (s, ([], w))).1.0
              (run F Payload fuel (λ k. recorder World ∷ hs k) (s, ([], w))).1.1.0
              (run F Payload fuel (λ k. recorder World ∷ hs k) (s, ([], w))).0
      run-Fires hs fuel s w gs sound =
          let (_, _, order, there) =
            run-Orderly World s.seq_counter (length s.queue) hs gs fuel (s, ([], w))
              (sound, tt, tt, omega arith) in
          record {
            in_order = order;
            accounted = there;
            ended = run_ends F Payload (λ k. recorder World ∷ hs k) fuel (s, ([], w));
          }
