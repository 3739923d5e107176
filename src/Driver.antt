-- ===== src/Driver.antt =====
-- `_wire_simulator` of cli.py: the state that its handlers share, and the calls that they make. The
-- nodes are objects that the pools share, so they are kept by their ids, once each.
pub mod Calls
pub mod Prefilling
pub mod Decoding
pub mod Handlers
pub mod Steps
pub mod Closure
pub mod Stages
pub mod Wiring
pub mod Simulation
mod Tests
use nano_kvrouter.Prelude.{
  ℕ, suc, ◌-◌, ◌*◌, ◌&&◌, Bool, true, false, not, Option, none, some, List, [], ◌∷◌, length,
  if◌then◌else◌, ◌==◌, Result, ok, raise, Error, key_error, value_error, memory_error, Exec, next,
  return_value, then_do,
}
use nano_kvrouter.Prelude.Dict.{Dict, get, get_or, put, remove}
use nano_kvrouter.Prelude.Sets.{mem}
use nano_kvrouter.Prelude.Float.{Float}
use nano_kvrouter.Node.{Node}
use nano_kvrouter.Transfer.{
  Backlog, Window, LaneModel, noop_transfer, noop_backlog, request_transfer, peek_backlog,
}
use nano_kvrouter.Manager.{Manager}
use nano_kvrouter.Manager.Lookup.{CacheLookup, Costs}
use nano_kvrouter.Scheduler.{RejectReason, Request, PoolNode, SchedulingDecision, Settings, Setting}
use nano_kvrouter.Scheduler.Queries.{manager_query}
use nano_kvrouter.Scheduler.Policy.{Policy}
use nano_kvrouter.Scheduler.Policy
use nano_kvrouter.Engine.{Engine, EventType}
use nano_kvrouter.Engine

-- why a request was rejected: the policy's answer, or a full decode node
pub data Reason : Type 0 where
  by_policy : Option RejectReason → Reason
  decode_capacity_exhausted : Reason

module _ (F : Float) where
  open F use {Num}

  -- the payload of the two transfer events; the id is f"{request_id}-xfer-{number}"
  pub record Transfer : Type 0 where
    pub request_id : ℕ
    pub number : ℕ
    pub src : ℕ
    pub dst : ℕ
    pub service_cost_ms : Num
    pub queued_cost_ms : Num
    pub cost_ms : Num

  pub data Payload : Type 0 where
    arrival : Request F → Payload
    rejection : ℕ → Reason → Payload
    placement : ℕ → SchedulingDecision F → CacheLookup F → Payload
    prefill_begins : ℕ → ℕ → Request F → ℕ → Payload
    prefill_ends : ℕ → ℕ → Request F → Payload
    transfer_begins : Transfer → Payload
    transfer_ends : Transfer → Request F → Payload
    batch_step : ℕ → Payload
    token : ℕ → ℕ → Payload
    decode_ends : ℕ → ℕ → Payload

  -- an entry of `_pending_transfers`
  pub record Pending : Type 0 where
    pub request_id : ℕ
    pub number : ℕ
    pub src : ℕ
    pub dst : ℕ
    pub cost_ms : Num
    pub request : Request F

  pub data TransferModel : Type 0 where
    noop : TransferModel
    per_node_lane : LaneModel F → TransferModel

  pub record World : Type 0 where
    pub nodes : Dict (PoolNode F)
    pub prefill_ids : List ℕ
    pub decode_ids : List ℕ
    pub policy : Policy F
    pub cache : Manager Num
    pub transfers : TransferModel
    pub decisions : Dict (SchedulingDecision F)
    pub requests : Dict (Request F)
    pub pending : List Pending
    pub transfer_counter : Dict ℕ

  abbrev pub Sim : Type 0
  Sim = Engine F Payload × World

  -- the pool of some ids, in their order
  unfoldable pub pool_of : List ℕ → Dict (PoolNode F) → List (PoolNode F)
  unfolding get
  pool_of [] nodes = []
  pool_of (i ∷ is) nodes =
      let rest = pool_of is nodes in elim (get nodes i) [ none ↦ rest | some n ↦ n ∷ rest ]

  unfoldable pub backlog_of : TransferModel → ℕ → Backlog F
  unfolding noop_backlog peek_backlog
  backlog_of noop i = noop_backlog F i
  backlog_of (per_node_lane m) i = peek_backlog F i m

  unfoldable pub transfer_on : ℕ → ℕ → Num → Num → TransferModel → Window F × TransferModel
  unfolding noop_transfer request_transfer
  transfer_on src dst now cost noop = (noop_transfer F src dst now cost, noop)
  transfer_on src dst now cost (per_node_lane m) =
      let (window, m2) = request_transfer F src dst now cost m in (window, per_node_lane m2)

  -- engine.now()
  unfoldable pub the_time : Exec Sim Num
  unfolding Engine.now
  the_time (s, w) = (ok (Engine.now F Payload s), (s, w))

  unfoldable pub the_world : Exec Sim World
  the_world (s, w) = (ok w, (s, w))

  unfoldable pub schedule_at : Num → EventType → Payload → Exec Sim Unit
  unfolding Engine.schedule
  schedule_at time kind payload (s, w) =
      let (done, s2) =
        Engine.schedule F Payload (record { time = time; seq = 0; kind = kind; payload = payload })
          s in
      (done, (s2, w))

  unfoldable pub schedule_now : EventType → Payload → Exec Sim Unit
  unfolding Engine.now schedule_at
  schedule_now kind payload (s, w) = schedule_at (Engine.now F Payload s) kind payload (s, w)

  -- nodes_by_id[i], for the ids of a pool
  unfoldable pub in_pool : List ℕ → ℕ → Exec Sim Unit
  unfolding mem
  in_pool ids i sim = (if mem i ids then ok tt else raise key_error, sim)

  unfoldable pub node_at : ℕ → Exec Sim Node
  unfolding get
  node_at i (s, w) = elim (get w.nodes i) [
    | none ↦ (raise key_error, (s, w))
    | some n ↦ (ok n.node, (s, w))
  ]

  -- a call of a node's method
  unfoldable pub on_node : {A : Type 0} → ℕ → (PoolNode F → Exec Node A) → Exec Sim A
  unfolding get put
  on_node i f (s, w) = elim (get w.nodes i) [
    | none ↦ (raise key_error, (s, w))
    | some n ↦
        let (done, n2) = f n n.node in
        (done, (s, record w { nodes = put w.nodes i (record n { node = n2 }) }))
  ]

  -- a call of the cache manager, whose clock is that of the engine
  unfoldable pub on_cache : {A : Type 0} → (Num → Exec (Manager Num) A) → Exec Sim A
  unfolding Engine.now
  on_cache f (s, w) =
      let (done, m) = f (Engine.now F Payload s) w.cache in (done, (s, record w { cache = m }))

  unfoldable pub forget : ℕ → Exec Sim Unit
  unfolding remove
  forget r (s, w) =
      (ok tt, (s, record w { decisions = remove w.decisions r; requests = remove w.requests r }))

  unfoldable pub remember : Request F → SchedulingDecision F → Exec Sim Unit
  unfolding put
  remember r d (s, w) = (
    ok tt,
    (
      s,
      record w {
        decisions = put w.decisions r.request_id d;
        requests = put w.requests r.request_id r;
      },
    ),
  )

  -- `_next_transfer_id`
  unfoldable pub next_transfer_number : ℕ → Exec Sim ℕ
  unfolding get_or put
  next_transfer_number r (s, w) =
      let n = get_or w.transfer_counter r 0 in
      (ok n, (s, record w { transfer_counter = put w.transfer_counter r (suc n) }))

  -- `transfer_model.request_transfer`
  unfoldable pub request_lanes : ℕ → ℕ → Num → Exec Sim (Window F)
  unfolding Engine.now transfer_on
  request_lanes src dst cost (s, w) =
      let (window, t) = transfer_on src dst (Engine.now F Payload s) cost w.transfers in
      (ok window, (s, record w { transfers = t }))

  unfoldable pub add_pending : Pending → Exec Sim Unit
  add_pending p (s, w) = (ok tt, (s, record w { pending = p ∷ w.pending }))

  unfoldable pub is_transfer : Transfer → Pending → Bool
  is_transfer t p = p.request_id == t.request_id && p.number == t.number

  unfoldable pub find_pending : Transfer → List Pending → Option Pending
  unfolding is_transfer
  find_pending t [] = none
  find_pending t (p ∷ ps) = let rest = find_pending t ps in if is_transfer t p then some p else rest

  unfoldable pub drop_pending : Transfer → List Pending → List Pending
  unfolding is_transfer
  drop_pending t [] = []
  drop_pending t (p ∷ ps) =
      let rest = drop_pending t ps in if is_transfer t p then rest else p ∷ rest

  -- `_pending_transfers.pop`, of an entry that may be missing
  unfoldable pub pop_pending : Transfer → Exec Sim (Option Pending)
  unfolding find_pending drop_pending
  pop_pending t (s, w) =
      (ok (find_pending t w.pending), (s, record w { pending = drop_pending t w.pending }))

  -- `sched.schedule`
  unfoldable pub decide : Costs F → Settings F → Request F → Exec Sim (SchedulingDecision F)
  unfolding Engine.now pool_of backlog_of Policy.schedule
  decide costs settings r (s, w) =
      let now = Engine.now F Payload s in
      let setting : Setting F = record {
        settings = settings;
        backlog = backlog_of w.transfers;
        now = now;
      } in
      let (decision, (policy, cache)) =
        Policy.schedule F (manager_query F costs now) setting r (pool_of w.prefill_ids w.nodes)
          (pool_of w.decode_ids w.nodes) (w.policy, w.cache) in
      (decision, (s, record w { policy = policy; cache = cache }))

  -- a value that has to be there
  unfoldable pub required : {A : Type 0} → Option A → Exec Sim A
  required none sim = (raise key_error, sim)
  required (some a) sim = (ok a, sim)

  -- try: x = m() except ValueError: x = None
  unfoldable pub or_none : {A : Type 0} → Result (Option A) × Sim → Result (Option A) × Sim
  or_none (raise value_error, sim) = (ok none, sim)
  or_none (x, sim) = (x, sim)

  -- try: m() except the error
  unfoldable pub ignoring_key_error : {A : Type 0} → Result A × Sim → Result (Unit {0}) × Sim
  ignoring_key_error (ok a, sim) = (ok tt, sim)
  ignoring_key_error (raise key_error, sim) = (ok tt, sim)
  ignoring_key_error (raise e, sim) = (raise e, sim)

  unfoldable pub ignoring_memory_error : {A : Type 0} → Result A × Sim → Result (Unit {0}) × Sim
  ignoring_memory_error (ok a, sim) = (ok tt, sim)
  ignoring_memory_error (raise memory_error, sim) = (ok tt, sim)
  ignoring_memory_error (raise e, sim) = (raise e, sim)
