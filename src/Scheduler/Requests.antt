-- ===== src/Scheduler/Requests.antt =====
-- request.py: `make_request`.
use nano_kvrouter.Prelude.{ℕ, Option, none, some, List, Result, ok, ◌>>=◌, take}
use nano_kvrouter.Prelude.Float.{Float}
use nano_kvrouter.Scheduler.{Request, RequestDefaults}

-- `_hash_prefix`; `digest` is the packing of the tokens and the hash of the bytes
unfoldable pub hash_prefix : (List ℕ → Result ℕ) → List ℕ → ℕ → Result ℕ
hash_prefix digest token_ids prefix_len = digest (take prefix_len token_ids)

-- the length that the caller gives, or that of the workload
unfoldable pub output_len : Option ℕ → ℕ → ℕ
output_len none default = default
output_len (some n) default = n

module _ (F : Float) where
  open F use {Num}

  -- `request_id` is what uuid4 draws
  unfoldable pub make_request :
      (List ℕ → Result ℕ) → ℕ → RequestDefaults F → List ℕ → Num → ℕ → Option ℕ → Result (Request F)
  unfolding hash_prefix output_len
  make_request digest request_id config token_ids arrival_time priority expected_output_len =
      hash_prefix digest token_ids config.block_size >>= λ prefix_hash. ok (record {
        request_id = request_id;
        token_ids = token_ids;
        prefix_hash = prefix_hash;
        expected_output_len = output_len expected_output_len config.avg_output_len;
        arrival_time = arrival_time;
        slo_ttft = config.ttft_target_ms;
        slo_tbt = config.tbt_target_ms;
        priority = priority;
      })
