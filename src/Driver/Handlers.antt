-- ===== src/Driver/Handlers.antt =====
-- The handlers that `_wire_simulator` of cli.py registers.
use nano_kvrouter.Prelude.{ℕ}
use nano_kvrouter.Prelude.Float.{Float}
use nano_kvrouter.Manager.Lookup.{Costs}
use nano_kvrouter.Scheduler.{Settings}
use nano_kvrouter.Engine.{
  HandlerTable, on, request_arrive, prefill_start, prefill_complete, kv_transfer_start,
  kv_transfer_complete, decode_batch_step, decode_complete,
}
use nano_kvrouter.Driver.{Payload, World}
use nano_kvrouter.Driver.Prefilling.{on_arrive, on_prefill_start, on_prefill_complete}
use nano_kvrouter.Driver.Decoding.{
  on_kv_transfer_start, on_kv_transfer_complete, on_decode_batch_step, on_decode_complete,
}

module _ (F : Float) (uuid : ℕ → ℕ) (costs : Costs F) (settings : Settings F) where
  open F use {Num, of_nat, leq, plus, minus, times, over}

  -- `_wire_simulator`
  unfoldable pub wire_simulator :
      HandlerTable F (Payload F) (World F) → HandlerTable F (Payload F) (World F)
  unfolding on on_arrive on_prefill_start on_prefill_complete on_kv_transfer_start
      on_kv_transfer_complete on_decode_batch_step on_decode_complete
  wire_simulator handlers =
      on F (Payload F) decode_complete (on_decode_complete F uuid costs settings) (
        on F (Payload F) decode_batch_step (on_decode_batch_step F uuid costs settings) (
          on F (Payload F) kv_transfer_complete (on_kv_transfer_complete F uuid costs settings) (
            on F (Payload F) kv_transfer_start (on_kv_transfer_start F uuid costs settings) (
              on F (Payload F) prefill_complete (on_prefill_complete F uuid costs settings) (
                on F (Payload F) prefill_start (on_prefill_start F uuid costs settings)
                  (on F (Payload F) request_arrive (on_arrive F uuid costs settings) handlers))))))
