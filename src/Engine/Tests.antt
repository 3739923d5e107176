-- ===== src/Engine/Tests.antt =====
-- An engine with a handler that schedules, also into the past, and stops.
use nano_kvrouter.Prelude.{ℕ, ◌≡◌, refl, true, leb, List, [], ◌∷◌, next, All, length}
use nano_kvrouter.Prelude.Float.{units, units-IsOrdered}
use nano_kvrouter.Engine.{
  Event, EventType, request_arrive, scheduled, Engine, Handler, init, now, schedule, stop, run,
  call_all, on, index,
}
use nano_kvrouter.Engine.Firing.{Logged, recorder, IsGuest, Fires, run-Fires}
use nano_kvrouter.Engine.Handlers.{on_order}
use nano_kvrouter.Engine.Runs.{
  IsSound, AllUsers, nothing, schedules, stops, init-IsSound, schedule-IsSound, run-IsSound,
}

abbrev event : ℕ → EventType → Event units ℕ
event t k = record { time = t; seq = 0; kind = k; payload = 5 }

abbrev start : Engine units ℕ
start =
    (schedule units ℕ (event 3 scheduled)
      (schedule units ℕ (event 4 request_arrive)
        (schedule units ℕ (event 3 request_arrive) (init units ℕ)).1).1).1

start-IsSound : IsSound units ℕ start
start-IsSound = schedule-IsSound units ℕ (event 3 scheduled) _ (
    schedule-IsSound units ℕ (event 4 request_arrive) _
      (schedule-IsSound units ℕ (event 3 request_arrive) _ (init-IsSound units ℕ)))

-- counts the events, asks for one a unit later than now, and stops
abbrev again : Handler units ℕ ℕ
again e (s, w) = (
  (schedule units ℕ (event 4 scheduled) s).0,
  (stop units ℕ (schedule units ℕ (event 4 scheduled) s).1, w),
)

abbrev late : Handler units ℕ ℕ
late e (s, w) =
    ((schedule units ℕ (event 2 scheduled) s).0, ((schedule units ℕ (event 2 scheduled) s).1, w))

abbrev handlers : EventType → List (Handler units ℕ ℕ)
handlers request_arrive = again ∷ late ∷ []
handlers _ = again ∷ []

handlers-AllUsers : (k : EventType) → AllUsers units ℕ (handlers k)
handlers-AllUsers request_arrive =
    (λ e s w. stops (schedules _ nothing), (λ e s w. schedules _ nothing, tt))
handlers-AllUsers _ = (λ e s w. stops (schedules _ nothing), tt)

run-IsSound_example :
    IsSound units ℕ (run units ℕ 9 handlers (start, 0)).1.0
    × (leb (now units ℕ start) (now units ℕ (run units ℕ 9 handlers (start, 0)).1.0) ≡ true)
run-IsSound_example =
    run-IsSound units ℕ units-IsOrdered 9 handlers start 0 handlers-AllUsers start-IsSound

abbrev newest : Event units ℕ
newest = record { time = 4; seq = 1; kind = scheduled; payload = 5 }

-- asks for one event more for each arrival
abbrev visitor : Handler units ℕ (Logged units ℕ ℕ)
visitor e (s, v) =
    ((schedule units ℕ (event 4 scheduled) s).0, ((schedule units ℕ (event 4 scheduled) s).1, v))

abbrev guests : EventType → List (Handler units ℕ (Logged units ℕ ℕ))
guests request_arrive = visitor ∷ []
guests _ = []

guests-IsGuest : (k : EventType) → All (IsGuest units ℕ ℕ) (guests k)
guests-IsGuest request_arrive = (((λ e s v. schedules _ nothing), λ e s v. refl), tt)
guests-IsGuest _ = tt

run-Fires_example :
    Fires units ℕ start
      (run units ℕ 9 (λ k. recorder units ℕ ℕ ∷ guests k) (start, ([], 0))).1.0
      (run units ℕ 9 (λ k. recorder units ℕ ℕ ∷ guests k) (start, ([], 0))).1.1.0
      (run units ℕ 9 (λ k. recorder units ℕ ℕ ∷ guests k) (start, ([], 0))).0
run-Fires_example =
    run-Fires units ℕ units-IsOrdered ℕ guests 9 start 0 guests-IsGuest start-IsSound

fires_all : length (run units ℕ 9 (λ k. recorder units ℕ ℕ ∷ guests k) (start, ([], 0))).1.1.0 ≡ 5
unfolding run schedule init
fires_all = refl

on_order_example :
    call_all units ℕ (on units ℕ scheduled late handlers scheduled) newest (start, 0)
    ≡ next (λ _. late newest) (call_all units ℕ (handlers scheduled) newest (start, 0))
unfolding index
on_order_example = on_order units ℕ ℕ scheduled scheduled late handlers newest (start, 0)
