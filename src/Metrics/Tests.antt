-- ===== src/Metrics/Tests.antt =====
-- A request that is served, and one that is rejected.
use nano_kvrouter.Prelude.{◌≡◌, refl, none, some, List, [], ◌∷◌, length}
use nano_kvrouter.Prelude.Float.{units}
use nano_kvrouter.Manager.Lookup.{no_counts}
use nano_kvrouter.Metrics.{
  init, on_arrive, on_scheduled, on_rejected, on_prefill_start, on_prefill_complete,
  on_kv_transfer_start, on_kv_transfer_complete, on_decode_step, on_decode_batch_step,
  on_decode_complete,
}
use nano_kvrouter.Metrics.Rates.{IsRate, slo_ttft_hit_rate-IsRate}
use nano_kvrouter.Metrics.Summary.{slo_ttft_hit_rate}
use nano_kvrouter.Metrics.Counts.{
  Seen, arrived, placed, refused, prefills, prefilled, transfers, transferred, decodes, ticks,
  decoded, see_all, IsTallied, see_all-IsTallied,
}

abbrev events : List (Seen units)
events =
    arrived 5 8 5 500 11
    ∷ placed 8 0 no_counts (some 1) (some 3)
    ∷ prefills 8 2
    ∷ ticks (some 0) none
    ∷ prefilled 8
    ∷ transfers (8, 0)
    ∷ transferred (8, 0) 3 1
    ∷ transferred (8, 0) 3 1
    ∷ ticks none (some 1)
    ∷ decodes 22 8 0
    ∷ decodes 34 8 1
    ∷ decoded 34 8
    ∷ refused 9
    ∷ []

see_all-IsTallied_example : IsTallied units (see_all units events (init units))
see_all-IsTallied_example = see_all-IsTallied units events

slo_ttft_hit_rate-IsRate_example :
    IsRate units
      (see_all units events (init units)).requests
      (length (see_all units events (init units)).ttft_per_request)
      (slo_ttft_hit_rate units (see_all units events (init units)))
slo_ttft_hit_rate-IsRate_example = slo_ttft_hit_rate-IsRate units events

rate_test : slo_ttft_hit_rate units (see_all units events (init units)) ≡ some 1
unfolding slo_ttft_hit_rate see_all init on_arrive on_scheduled on_rejected on_prefill_start
    on_prefill_complete on_kv_transfer_start on_kv_transfer_complete on_decode_step
    on_decode_batch_step on_decode_complete
rate_test = refl
