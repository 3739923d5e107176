-- ===== src/Metrics.antt =====
-- metrics/collector.py: what `MetricsCollector` keeps, and its handlers. Each handler takes what it
-- reads of the event's payload, all of which the simulator's events have; the branches for a payload
-- without it are left out, but for the batch size.
pub mod Counts
pub mod Rates
pub mod Summary
mod Tests
use nano_kvrouter.Prelude.{
  ℕ, zero, suc, ◌+◌, Bool, true, false, not, ◌&&◌, ◌||◌, Option, none, some, List, [], ◌∷◌, ◌++◌,
  length, if◌then◌else◌, ◌==◌, ltb,
}
use nano_kvrouter.Prelude.Dict.{Dict, get, get_or, put, remove}
use nano_kvrouter.Prelude.Sets.{add, discard}
use nano_kvrouter.Prelude.Float.{Float}
use nano_kvrouter.Manager.Lookup.{TierCounts, no_counts}

-- a transfer id, f"{request_id}-xfer-{number}", in a set
unfoldable pub same_id : ℕ × ℕ → ℕ × ℕ → Bool
same_id (r, n) (q, m) = r == q && n == m

unfoldable pub has_id : ℕ × ℕ → List (ℕ × ℕ) → Bool
unfolding same_id
has_id t [] = false
has_id t (s ∷ ss) = same_id s t || has_id t ss

unfoldable pub add_id : ℕ × ℕ → List (ℕ × ℕ) → List (ℕ × ℕ)
unfolding has_id
add_id t ss = if has_id t ss then ss else t ∷ ss

unfoldable pub drop_id : ℕ × ℕ → List (ℕ × ℕ) → List (ℕ × ℕ)
unfolding same_id
drop_id t [] = []
drop_id t (s ∷ ss) = let rest = drop_id t ss in if same_id s t then rest else s ∷ rest

unfoldable pub add_counts : TierCounts → TierCounts → TierCounts
add_counts a b = record {
  on_gpu = a.on_gpu + b.on_gpu;
  on_cpu = a.on_cpu + b.on_cpu;
  on_disk = a.on_disk + b.on_disk;
}

module _ (F : Float) where
  open F use {Num, of_nat, leq, minus, over}

  -- the entry of a request
  pub record Entry : Type 0 where
    pub arrival_time : Num
    pub token_count : ℕ
    pub slo_ttft : Num
    pub slo_tbt : Num
    pub matched_tokens : Option ℕ
    pub prefill_node : Option ℕ
    pub decode_node : Option ℕ
    pub ttft : Option Num

  pub record Collector : Type 0 where
    pub requests : Dict Entry
    pub ttft_per_request : List Num
    pub e2e_per_request : List Num
    pub rejected_count : ℕ
    pub total_arrived : ℕ
    pub completed_count : ℕ
    pub start_time : Option Num
    pub end_time : Option Num
    pub last_decode_step_time : Dict Num
    pub tbt_samples : Dict (List Num)
    pub batch_size_samples : List ℕ
    pub total_decode_tokens : ℕ
    pub chunked_prefill_steps : List ℕ
    pub request_n_chunks : Dict ℕ
    pub kv_transfer_cost_samples : List Num
    pub kv_transfer_queued_samples : List Num
    pub cache_hit_by_tier : TierCounts
    pub seen_transfer_ids : List (ℕ × ℕ)
    pub active_prefills : List ℕ
    pub active_decodes : List ℕ
    pub dual_phase_tick_count : ℕ

  unfoldable pub init : Collector
  init = record {
    requests = [];
    ttft_per_request = [];
    e2e_per_request = [];
    rejected_count = 0;
    total_arrived = 0;
    completed_count = 0;
    start_time = none;
    end_time = none;
    last_decode_step_time = [];
    tbt_samples = [];
    batch_size_samples = [];
    total_decode_tokens = 0;
    chunked_prefill_steps = [];
    request_n_chunks = [];
    kv_transfer_cost_samples = [];
    kv_transfer_queued_samples = [];
    cache_hit_by_tier = no_counts;
    seen_transfer_ids = [];
    active_prefills = [];
    active_decodes = [];
    dual_phase_tick_count = 0;
  }

  -- the time, if there is none yet
  unfoldable pub first_time : Option Num → Num → Option Num
  first_time none t = some t
  first_time (some s) t = some s

  unfoldable pub on_arrive : Num → ℕ → ℕ → Num → Num → Collector → Collector
  unfolding put first_time
  on_arrive time r tokens slo_ttft slo_tbt c = record c {
    total_arrived = suc c.total_arrived;
    start_time = first_time c.start_time time;
    requests = put c.requests r (record {
      arrival_time = time;
      token_count = tokens;
      slo_ttft = slo_ttft;
      slo_tbt = slo_tbt;
      matched_tokens = none;
      prefill_node = none;
      decode_node = none;
      ttft = none;
    });
  }

  unfoldable pub on_scheduled : ℕ → ℕ → TierCounts → Option ℕ → Option ℕ → Collector → Collector
  unfolding get put add_counts
  on_scheduled r matched tiers prefill decode c = elim (get c.requests r) [
    | none ↦ c
    | some e ↦ record c {
      requests = put c.requests r (record e {
        matched_tokens = some matched;
        prefill_node = prefill;
        decode_node = decode;
      });
      cache_hit_by_tier = add_counts c.cache_hit_by_tier tiers;
    }
  ]

  unfoldable pub on_rejected : ℕ → Collector → Collector
  unfolding remove discard
  on_rejected r c = record c {
    rejected_count = suc c.rejected_count;
    request_n_chunks = remove c.request_n_chunks r;
    active_prefills = discard c.active_prefills r;
  }

  unfoldable pub on_prefill_start : ℕ → ℕ → Collector → Collector
  unfolding put add
  on_prefill_start r n_chunks c = record c {
    request_n_chunks = put c.request_n_chunks r n_chunks;
    active_prefills = add c.active_prefills r;
  }

  unfoldable pub on_prefill_complete : ℕ → Collector → Collector
  unfolding discard
  on_prefill_complete r c = record c { active_prefills = discard c.active_prefills r }

  unfoldable pub on_kv_transfer_start : ℕ × ℕ → Collector → Collector
  unfolding add_id
  on_kv_transfer_start t c = record c { seen_transfer_ids = add_id t c.seen_transfer_ids }

  unfoldable pub on_kv_transfer_complete : ℕ × ℕ → Num → Num → Collector → Collector
  unfolding has_id drop_id
  on_kv_transfer_complete t cost queued c =
      if has_id t c.seen_transfer_ids
      then record c {
        seen_transfer_ids = drop_id t c.seen_transfer_ids;
        kv_transfer_cost_samples = c.kv_transfer_cost_samples ++ (cost ∷ []);
        kv_transfer_queued_samples = c.kv_transfer_queued_samples ++ (queued ∷ []);
      }
      else c

  -- the first token of a request, unless it has had one
  unfoldable pub first_token : Num → ℕ → Entry → Option Num → Collector → Collector
  unfolding put get_or add
  first_token time r e (some t) c = c
  first_token time r e none c =
      let ttft = minus time e.arrival_time in
      record c {
        requests = put c.requests r (record e { ttft = some ttft });
        ttft_per_request = c.ttft_per_request ++ (ttft ∷ []);
        last_decode_step_time = put c.last_decode_step_time r time;
        tbt_samples = put c.tbt_samples r (get_or c.tbt_samples r []);
        active_decodes = add c.active_decodes r;
      }

  -- a later token: the time since the one before it, if there was one
  unfoldable pub later_token : Num → ℕ → Option Num → Collector → Collector
  unfolding put get_or
  later_token time r none c = record c {
    last_decode_step_time = put c.last_decode_step_time r time;
  }
  later_token time r (some last) c = record c {
    tbt_samples = put c.tbt_samples r (get_or c.tbt_samples r [] ++ (minus time last ∷ []));
    last_decode_step_time = put c.last_decode_step_time r time;
  }

  unfoldable pub on_decode_step : Num → ℕ → ℕ → Collector → Collector
  unfolding get first_token later_token
  on_decode_step time r step_index c = elim (get c.requests r) [
    | none ↦ c
    | some e ↦
        if step_index == 0
        then first_token time r e e.ttft c
        else later_token time r (get c.last_decode_step_time r) c
  ]

  unfoldable pub or_else : Option ℕ → Option ℕ → Option ℕ
  or_else none b = b
  or_else (some a) b = some a

  unfoldable pub count_batch : Option ℕ → Collector → Collector
  count_batch none c = c
  count_batch (some size) c = record c {
    batch_size_samples = c.batch_size_samples ++ (size ∷ []);
    total_decode_tokens = c.total_decode_tokens + size;
    dual_phase_tick_count =
        if ltb 0 (length c.active_prefills) && ltb 0 (length c.active_decodes)
        then suc c.dual_phase_tick_count
        else c.dual_phase_tick_count;
  }

  -- The size in the payload, or else the size of the node's batch.
  unfoldable pub on_decode_batch_step : Option ℕ → Option ℕ → Collector → Collector
  unfolding or_else count_batch
  on_decode_batch_step batch_size decoding c = count_batch (or_else batch_size decoding) c

  unfoldable pub count_chunks : Option ℕ → Collector → Collector
  count_chunks none c = c
  count_chunks (some n) c = record c { chunked_prefill_steps = c.chunked_prefill_steps ++ (n ∷ []) }

  unfoldable pub on_decode_complete : Num → ℕ → Collector → Collector
  unfolding get remove discard count_chunks
  on_decode_complete time r c = elim (get c.requests r) [
    | none ↦ c
    | some e ↦ count_chunks (get c.request_n_chunks r) (record c {
      completed_count = suc c.completed_count;
      end_time = some time;
      e2e_per_request = c.e2e_per_request ++ (minus time e.arrival_time ∷ []);
      request_n_chunks = remove c.request_n_chunks r;
      active_decodes = discard c.active_decodes r;
    })
  ]
