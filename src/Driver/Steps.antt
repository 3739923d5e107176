-- ===== src/Driver/Steps.antt =====
-- What the calls of the handlers keep: any property of the engine and the world that is kept by the
-- scheduling of an event, by a call of a node, and by a change of the world that is not in its nodes.
use nano_kvrouter.Prelude.{
  ℕ, ◌≡◌, refl, inl, inr, Bool, true, false, Option, none, some, List, if◌then◌else◌, Result, ok,
  raise, Error, key_error, value_error, memory_error, Exec, return_value, then_do, next-keeps,
  Option-cases,
}
use nano_kvrouter.Prelude.Dict.{get, put}
use nano_kvrouter.Prelude.Float.{Float}
use nano_kvrouter.Node.{Node}
use nano_kvrouter.Node.Steps.{Call, run_call}
use nano_kvrouter.Manager.{Manager}
use nano_kvrouter.Scheduler.{PoolNode, Request, SchedulingDecision, Settings}
use nano_kvrouter.Engine.{Event, EventType, Engine, Handler}
use nano_kvrouter.Engine
use nano_kvrouter.Manager.Lookup.{Costs}
use nano_kvrouter.Driver.{
  Payload, World, Sim, Pending, Transfer, schedule_at, schedule_now, on_node, on_cache, node_at,
  in_pool, required, or_none, ignoring_key_error, ignoring_memory_error, forget, remember,
  next_transfer_number, request_lanes, add_pending, pop_pending, decide, the_time, the_world,
}

module _ (F : Float) where
  open F use {Num}

  -- the world with other nodes
  abbrev pub with_node : ℕ → PoolNode F → World F → World F
  with_node i n w = record w { nodes = put w.nodes i n }

  pub record IsClosed (P : Sim F → Type 0) : Type 0 where
    pub emits :
        (e : Event F (Payload F)) (s : Engine F (Payload F)) (w : World F)
        → P (s, w)
        → P ((Engine.schedule F (Payload F) e s).1, w)
    pub calls :
        (c : Call F) (i : ℕ) (n : PoolNode F) (s : Engine F (Payload F)) (w : World F)
        → get w.nodes i ≡ some n
        → P (s, w)
        → P (s, with_node i (record n { node = run_call F c n.node }) w)
    pub ignores :
        (s : Engine F (Payload F)) (w v : World F) → v.nodes ≡ w.nodes → P (s, w) → P (s, v)

  module _ (P : Sim F → Type 0) where
    -- a call of a handler that keeps the property, whether it returns or raises
    pub record Keeps {A : Type 0} (m : Exec (Sim F) A) : Type 0 where
      pub keeps : (sim : Sim F) → P sim → P (m sim).1

    pub return-Keeps : {A : Type 0} (a : A) → Keeps (return_value a)
    return-Keeps a = record { keeps = λ sim h. h }

    pub raise-Keeps : {A : Type 0} (e : Error) → Keeps {A = A} (λ sim. (raise e, sim))
    raise-Keeps e = record { keeps = λ sim h. h }

    pub then_do-Keeps :
        {A B : Type 0} (m : Exec (Sim F) A) (f : A → Exec (Sim F) B)
        → Keeps m
        → ((a : A) → Keeps (f a))
        → Keeps (then_do m f)
    then_do-Keeps m f k l = record {
      keeps = λ sim h. next-keeps P (m sim) f (k.keeps sim h) (λ a s i. (l a).keeps s i);
    }

    pub if-Keeps :
        {A : Type 0} (b : Bool) (m n : Exec (Sim F) A)
        → Keeps m
        → Keeps n
        → Keeps (if b then m else n)
    if-Keeps true m n k l = k
    if-Keeps false m n k l = l

    pub required-Keeps : {A : Type 0} (o : Option A) → Keeps (required F o)
    unfolding required
    required-Keeps none = record { keeps = λ sim h. h }
    required-Keeps (some a) = record { keeps = λ sim h. h }

    pub in_pool-Keeps : (ids : List ℕ) (i : ℕ) → Keeps (in_pool F ids i)
    unfolding in_pool
    in_pool-Keeps ids i = record { keeps = λ sim h. h }

    pub the_time-Keeps : Keeps (the_time F)
    unfolding the_time
    the_time-Keeps = record { keeps = λ sim h. h }

    pub the_world-Keeps : Keeps (the_world F)
    unfolding the_world
    the_world-Keeps = record { keeps = λ sim h. h }

    pub node_at-Keeps : (i : ℕ) → Keeps (node_at F i)
    unfolding node_at
    node_at-Keeps i = record {
      keeps = λ (s, w) h. elim (Option-cases (get w.nodes i)) [
        | inl c ↦ rw (c, node_at) h
        | inr (n, c) ↦ rw (c, node_at) h
      ];
    }

    pub or_none-Keeps :
        {A : Type 0} (m : Exec (Sim F) (Option A)) → Keeps m → Keeps (λ sim. or_none F (m sim))
    unfolding or_none
    or_none-Keeps {A} m k = record { keeps = λ sim h. caught (m sim) (k.keeps sim h) }
      where
        caught : (x : Result (Option A) × Sim F) → P x.1 → P (or_none F x).1
        caught (ok a, s) i = i
        caught (raise value_error, s) i = i
        caught (raise _, s) i = i

    pub ignoring_key_error-Keeps :
        {A : Type 0} (m : Exec (Sim F) A) → Keeps m → Keeps (λ sim. ignoring_key_error F (m sim))
    unfolding ignoring_key_error
    ignoring_key_error-Keeps {A} m k = record { keeps = λ sim h. caught (m sim) (k.keeps sim h) }
      where
        caught : (x : Result A × Sim F) → P x.1 → P (ignoring_key_error F x).1
        caught (ok a, s) i = i
        caught (raise key_error, s) i = i
        caught (raise _, s) i = i

    pub ignoring_memory_error-Keeps :
        {A : Type 0} (m : Exec (Sim F) A) → Keeps m → Keeps (λ sim. ignoring_memory_error F (m sim))
    unfolding ignoring_memory_error
    ignoring_memory_error-Keeps {A} m k = record { keeps = λ sim h. caught (m sim) (k.keeps sim h) }
      where
        caught : (x : Result A × Sim F) → P x.1 → P (ignoring_memory_error F x).1
        caught (ok a, s) i = i
        caught (raise memory_error, s) i = i
        caught (raise _, s) i = i

    module _ (c : IsClosed P) where
      pub schedule_at-Keeps :
          (time : F.Num) (kind : EventType) (p : Payload F) → Keeps (schedule_at F time kind p)
      unfolding schedule_at
      schedule_at-Keeps time kind p = record {
        keeps = λ sim h.
            c.emits (record { time = time; seq = 0; kind = kind; payload = p }) sim.0 sim.1 h;
      }

      pub schedule_now-Keeps : (kind : EventType) (p : Payload F) → Keeps (schedule_now F kind p)
      unfolding schedule_now
      schedule_now-Keeps kind p = record {
        keeps = λ sim h. (schedule_at-Keeps (Engine.now F (Payload F) sim.0) kind p).keeps sim h;
      }

      pub on_cache-Keeps : {A : Type 0} (f : F.Num → Exec (Manager F.Num) A) → Keeps (on_cache F f)
      unfolding on_cache
      on_cache-Keeps f = record { keeps = λ sim h. c.ignores sim.0 sim.1 _ refl h }

      pub on_node-Keeps :
          {A : Type 0} (i : ℕ) (f : PoolNode F → Exec Node A) (call : PoolNode F → Call F)
          → ((p : PoolNode F) (n : Node) → (f p n).1 ≡ run_call F (call p) n)
          → Keeps (on_node F i f)
      unfolding on_node
      on_node-Keeps i f call same = record {
        keeps = λ (s, w) h. elim (Option-cases (get w.nodes i)) [
          | inl e ↦ rw (e, on_node) h
          | inr (n, e) ↦ rw (e, on_node, same n n.node) (c.calls (call n) i n s w e h)
        ];
      }

      pub forget-Keeps : (r : ℕ) → Keeps (forget F r)
      unfolding forget
      forget-Keeps r = record { keeps = λ sim h. c.ignores sim.0 sim.1 _ refl h }

      pub remember-Keeps : (r : Request F) (d : SchedulingDecision F) → Keeps (remember F r d)
      unfolding remember
      remember-Keeps r d = record { keeps = λ sim h. c.ignores sim.0 sim.1 _ refl h }

      pub next_transfer_number-Keeps : (r : ℕ) → Keeps (next_transfer_number F r)
      unfolding next_transfer_number
      next_transfer_number-Keeps r = record { keeps = λ sim h. c.ignores sim.0 sim.1 _ refl h }

      pub request_lanes-Keeps : (src dst : ℕ) (cost : F.Num) → Keeps (request_lanes F src dst cost)
      unfolding request_lanes
      request_lanes-Keeps src dst cost = record { keeps = λ sim h. c.ignores sim.0 sim.1 _ refl h }

      pub add_pending-Keeps : (p : Pending F) → Keeps (add_pending F p)
      unfolding add_pending
      add_pending-Keeps p = record { keeps = λ sim h. c.ignores sim.0 sim.1 _ refl h }

      pub pop_pending-Keeps : (t : Transfer F) → Keeps (pop_pending F t)
      unfolding pop_pending
      pop_pending-Keeps t = record { keeps = λ sim h. c.ignores sim.0 sim.1 _ refl h }

      pub decide-Keeps :
          (costs : Costs F) (settings : Settings F) (r : Request F)
          → Keeps (decide F costs settings r)
      unfolding decide
      decide-Keeps costs settings r = record { keeps = λ sim h. c.ignores sim.0 sim.1 _ refl h }
