-- ===== src/Transfer.antt =====
-- simulator/transfer_model.py: the cost of a KV transfer, alone or in the queue of its two lanes.
pub mod Lanes
mod Tests
use nano_kvrouter.Prelude.{ℕ, ◌≡◌, List, []}
use nano_kvrouter.Prelude.Dict.{Dict, get_or, put}
use nano_kvrouter.Prelude.Float.{Float, max2}

module _ (F : Float) where
  open F use {Num, of_nat, plus}

  -- the answer of `peek_backlog`
  pub record Backlog : Type 0 where
    pub egress : Num
    pub ingress : Num

  -- start and finish
  pub record Window : Type 0 where
    pub start : Num
    pub finish : Num

  -- `NoopTransferModel`
  unfoldable pub noop_transfer : ℕ → ℕ → Num → Num → Window
  noop_transfer src dst now cost = record { start = now; finish = plus now cost }

  unfoldable pub noop_backlog : ℕ → Backlog
  noop_backlog node = record { egress = of_nat 0; ingress = of_nat 0 }

  -- `PerNodeLaneTransferModel`
  pub record LaneModel : Type 0 where
    pub egress_at : Dict Num
    pub ingress_at : Dict Num

  unfoldable pub init : LaneModel
  init = record { egress_at = []; ingress_at = [] }

  unfoldable pub request_transfer : ℕ → ℕ → Num → Num → LaneModel → Window × LaneModel
  unfolding max2 get_or put
  request_transfer src dst now cost m =
      let start =
        max2 F (max2 F now (get_or m.egress_at src (of_nat 0)))
          (get_or m.ingress_at dst (of_nat 0)) in
      let finish = plus start cost in
      (
        record { start = start; finish = finish },
        record { egress_at = put m.egress_at src finish; ingress_at = put m.ingress_at dst finish },
      )

  unfoldable pub peek_backlog : ℕ → LaneModel → Backlog
  unfolding get_or
  peek_backlog node m = record {
    egress = get_or m.egress_at node (of_nat 0);
    ingress = get_or m.ingress_at node (of_nat 0);
  }
