-- ===== src/Driver/Simulation.antt =====
-- A run of the simulator: the engine that `_wire_simulator` has filled, with any requests waiting.
use nano_kvrouter.Prelude.{
  ℕ, ◌≡◌, ◌∙◌, sym, ap, subst, inl, inr, true, some, List, [], ◌∷◌, All, All_imp, ◌==◌, Bool-cases,
  arith, if◌then◌else◌,
}
use nano_kvrouter.Prelude.Dict.{Dict, get, get-put}
use nano_kvrouter.Prelude.Float.{Float, IsOrdered}
use nano_kvrouter.Node.Slots.{IsServing}
use nano_kvrouter.Node.Steps.{run_call, run_call-IsServing}
use nano_kvrouter.Manager.Lookup.{Costs}
use nano_kvrouter.Scheduler.{PoolNode, Settings}
use nano_kvrouter.Engine.{EventType, Engine, Handler, HandlerTable, no_handlers, now, run}
use nano_kvrouter.Engine.Runs.{IsSound, Uses, nothing, schedules, AllUsers, run-IsSound}
use nano_kvrouter.Engine.Worlds.{KeepsWorld, run_keeps}
use nano_kvrouter.Driver.{Payload, World, Sim}
use nano_kvrouter.Driver.Handlers.{wire_simulator}
use nano_kvrouter.Driver.Steps.{IsClosed}
use nano_kvrouter.Driver.Wiring.{HandlerKeeps, wire_simulator-All}

module _ (F : Float) where
  -- every node of the world is serving
  pub record AllServing (w : World F) : Type 0 where
    pub serving : (i : ℕ) (n : PoolNode F) → get w.nodes i ≡ some n → IsServing n.node

  pub get-IsServing :
      (d : Dict (PoolNode F))
      → All (λ (i, n). IsServing n.node) d
      → (i : ℕ) (n : PoolNode F) → get d i ≡ some n
      → IsServing n.node
  unfolding get
  get-IsServing [] h i n e = cc
  get-IsServing ((j, m) ∷ d) h i n e = elim (Bool-cases (j == i)) [
    | inl c ↦ let same : m ≡ n = ground arith in subst (λ p. IsServing p.node) same h.0
    | inr c ↦ get-IsServing d h.1 i n (ground arith)
  ]

  kept :
      (i j : ℕ) (n : PoolNode F) (w : World F) (m : PoolNode F)
      → IsServing n.node
      → AllServing w
      → (if i == j then some n else get w.nodes j) ≡ some m
      → IsServing m.node
  kept i j n w m new h g = elim (Bool-cases (i == j)) [
    | inl c ↦ let same : n ≡ m = ground arith in subst (λ p. IsServing p.node) same new
    | inr c ↦ h.serving j m (ground arith)
  ]

  AllServing-IsClosed : IsClosed F (λ sim. AllServing sim.1)
  AllServing-IsClosed = record {
    emits = λ e s w h. h;
    calls = λ call i n s w e h. record {
      serving = λ j m g.
          kept i j (record n { node = run_call F call n.node }) w m
            (run_call-IsServing F call n.node (h.serving i n e)) h
            (subst (λ o. o ≡ some m) (get-put w.nodes i j _) g);
    };
    ignores =
        λ s w v e h. record { serving = λ i n g. h.serving i n (ap (λ d. get d i) (sym e) ∙ g) };
  }

module _ (F : Float) (uuid : ℕ → ℕ) (costs : Costs F) (settings : Settings F) where
  -- the handlers of a new engine, as `_wire_simulator` leaves them
  abbrev pub wired : HandlerTable F (Payload F) (World F)
  wired = wire_simulator F uuid costs settings (no_handlers F (Payload F))

  wired-All :
      (P : Sim F → Type 0) → IsClosed F P → (k : EventType) → All (HandlerKeeps F P) (wired k)
  unfolding no_handlers
  wired-All P c k = wire_simulator-All F uuid costs settings P c (no_handlers F (Payload F)) k tt

  -- the engine comes from another by scheduling
  abbrev UsedFrom : Engine F (Payload F) → Sim F → Type 0
  UsedFrom s (t, w) = Uses F (Payload F) s t

  UsedFrom-IsClosed : (s : Engine F (Payload F)) → IsClosed F (UsedFrom s)
  UsedFrom-IsClosed s = record {
    emits = λ e t w u. schedules e u;
    calls = λ call i n t w e u. u;
    ignores = λ t w v e u. u;
  }

  users_of :
      (hs : List (Handler F (Payload F) (World F)))
      → ((s : Engine F (Payload F)) → All (HandlerKeeps F (UsedFrom s)) hs)
      → AllUsers F (Payload F) hs
  users_of [] f = tt
  users_of (h ∷ hs) f = (λ e s w. ((f s).0 e).keeps (s, w) nothing, users_of hs (λ s. (f s).1))

  -- However far a run of the simulator comes, with the handlers of _wire_simulator, no waiting
  -- event is due before the clock, each has a sequence number of its own, and the clock has not
  -- gone back, if it was so at the start and numbers are ordered as `IsOrdered` says.
  pub simulation-IsSound :
      IsOrdered F
      → (fuel : ℕ) (s : Engine F (Payload F)) (w : World F) → IsSound F (Payload F) s
      → IsSound F (Payload F) (run F (Payload F) fuel wired (s, w)).1.0
        × (F.leq (now F (Payload F) s) (now F (Payload F) (run F (Payload F) fuel wired (s, w)).1.0)
            ≡ true)
  simulation-IsSound o fuel s w h =
      run-IsSound F (Payload F) o fuel wired s w
        (λ k. users_of (wired k) (λ t. wired-All (UsedFrom t) (UsedFrom-IsClosed t) k)) h

  -- However far a run of the simulator comes, with the handlers of _wire_simulator and any
  -- policy, transfer model and waiting events, and also when a handler raises: no node runs more
  -- requests than its capacity, no request is queued on a node while a slot of it is free, and
  -- each decode batch holds only running requests, if it was so at the start.
  pub simulation-IsServing :
      (fuel : ℕ) (s : Engine F (Payload F)) (w : World F)
      → AllServing F w
      → AllServing F (run F (Payload F) fuel wired (s, w)).1.1
  simulation-IsServing fuel s w h =
      run_keeps F (Payload F) (World F) (AllServing F) wired
        (λ k.
          All_imp _ (KeepsWorld F (Payload F) (World F) (AllServing F)) (wired k)
            (λ f keeps e t v p. (keeps e).keeps (t, v) p)
            (wired-All (λ sim. AllServing F sim.1) (AllServing-IsClosed F) k))
        fuel (s, w) h
