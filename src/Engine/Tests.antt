-- ===== src/Engine/Tests.antt =====
-- An engine for two requests with four blocks of 16 tokens, and a runner that is not reusable.
pub mod Thread
pub mod Rooms
pub mod Clients
use mini_llm_runtime.Base.{
  ℕ, ◌+◌, ◌*◌, ◌<◌, ◌≤◌, ◌≡◌, ◌≢◌, refl, pos, true, false, Option, none, some, [], ◌∷◌, map, arith,
  ltb, get_elem?, get_or, count, total, contains, if◌then◌else◌, All, stable_sort, ok, err, ◌+ℤ◌,
  div_ℤ, runtime_error,
}
use mini_llm_runtime.Config.{
  EngineConfig, default_engine_config, validate, bad_telemetry, bad_blocks, bad_model_len,
  bad_batch, bad_queues, bad_cache, bad_times,
}
use mini_llm_runtime.BlockPool.{push_ids, allocate, take_blocks, construct as construct_pool}
use mini_llm_runtime.PrefixIndex.{
  PrefixMatch, find_root, match, size, construct as construct_prefixes,
}
use mini_llm_runtime.Request.{error, Event}
use mini_llm_runtime.Scheduler.{effective_priority}
use mini_llm_runtime.Runner.{ModelRunner}
use mini_llm_runtime.Engine.{Request, Active, EventData, World, Engine}
use mini_llm_runtime.Engine.Action.{
  returned, pure, gets, or_stuck, lift, on_pool, on_prefixes, modify, observe, raise, stuck, ◌>>=◌,
}
use mini_llm_runtime.Engine.Finish.{expire_requests, terminal, require_reusable}
use mini_llm_runtime.Engine.Admit.{
  admitted_before, pop_sequence, make_room, share_blocks, publish_item, admit_with, admit,
  admit_loop, admit_waiting, cache_prompt,
}
use mini_llm_runtime.Engine.Batch.{check_samples, iteration}
use mini_llm_runtime.Engine.Run.{terminate_all}
use mini_llm_runtime.Engine.Construct.{push_sequences, initial, construct}
use mini_llm_runtime.Engine.Balance.{held_by, cached_by}
use mini_llm_runtime.Engine.Logic.{core, Inv}
use mini_llm_runtime.Engine.Admissions.{IsShort}
use mini_llm_runtime.Engine.Shutdown.{IsVacant}
use mini_llm_runtime.Engine.Guarantees.{
  IsKept, construct-IsVacant, terminate_all-IsVacant, terminate_all-IsKept, expire_requests-IsKept,
  cache_prompt-IsKept, iteration-IsKept, admit_waiting-IsKept, make_room-ends,
}
use mini_llm_runtime.Engine.Samples.{IsGood, sampled_sequence, check_samples-IsGood}
use mini_llm_runtime.Engine.Endings.{terminal-once}

abbrev pub small_config : EngineConfig
small_config = record default_engine_config {
  context_tokens = 64;
  max_model_len = 32;
  max_active = 2;
  batch_tokens = 32;
  prefill_chunk = 16;
  block_size = 16;
  prefix_cache_entries = 1;
  prefix_cache_tokens = 32;
}

-- A runner that counts its batches and answers each with one sample for sequence 0; it is not
-- reusable after the second.
abbrev pub counting_runner : ModelRunner ℕ
counting_runner = record {
  context_tokens = 64;
  vocab_size = 8;
  capabilities = record {
    max_sequences = 3;
    max_batch_tokens = 0;
    max_model_len = 0;
    prefix_copy = true;
    synchronous_execute = true;
    kv_page_tokens = 16;
  };
  tokenize = λ text. ok [];
  token_piece = λ t. ok (65 ∷ []);
  is_eog = λ t. ok false;
  execute = λ tokens n. (ok (record { sequence = pos 0; token = pos 7 } ∷ []), n + 1);
  resources = λ n. some (record { state_valid = true; reusable = ltb n 2 });
  copy_sequence = λ source target tokens n. (ok tt, n);
  clear_sequence = λ s n. n;
  synchronize = λ n. n;
}

-- The clock shows a millisecond more at each observation; nothing is cancelled.
abbrev pub steady_world : World
steady_world = record {
  clock = λ n. n * 1000000;
  cancelled = λ n order. false;
  taken = λ n order. 0;
  stopping = λ n. false;
}

abbrev pub some_request : Request
some_request = record {
  id = "cmpl-1";
  prompt = 1 ∷ 2 ∷ 3 ∷ 4 ∷ 5 ∷ 6 ∷ 7 ∷ 0 ∷ 1 ∷ 2 ∷ 3 ∷ 4 ∷ 5 ∷ 6 ∷ 7 ∷ 0 ∷ [];
  max_tokens = 14;
  priority = pos 0;
  ignore_eos = false;
  cache_namespace = "default";
  order = 1;
  created = 0;
  deadline = 30000000000;
}

abbrev pub new_engine : Engine ℕ
new_engine =
    initial counting_runner small_config 0
      (record {
        refs = 0 ∷ 0 ∷ 0 ∷ 0 ∷ [];
        free = 0 ∷ 1 ∷ 2 ∷ 3 ∷ [];
        seen = 0 ∷ 0 ∷ 0 ∷ 0 ∷ [];
        validation_epoch = 0;
      })
      (record { block_size = 16; token_count = 0; clock = 0; roots = []; entries = [] })

construct-small : construct counting_runner small_config 0 ≡ ok new_engine
unfolding construct validate bad_telemetry bad_blocks bad_model_len bad_batch bad_queues bad_cache
    bad_times construct_pool push_ids construct_prefixes
construct-small = refl

construct-IsVacant_example : Inv (core new_engine) × IsVacant (core new_engine)
construct-IsVacant_example =
    construct-IsVacant counting_runner small_config 0 new_engine construct-small

-- The request has been submitted.
abbrev asked_engine : Engine ℕ
asked_engine = record new_engine { waiting = some_request ∷ []; registry = ("cmpl-1", 1) ∷ [] }

-- The request is admitted, with the blocks for 30 tokens.
abbrev busy_engine : Engine ℕ
busy_engine = (admit_waiting steady_world counting_runner asked_engine).1

abbrev pub admitted_item : Active
admitted_item = record {
  request = some_request;
  sequence = 0;
  blocks = 0 ∷ 1 ∷ [];
  processed = 0;
  generated = 0;
  reused = 0;
  last_token = 0;
  text = [];
  last_scheduled = 0;
  done = false;
}

busy-active : get_elem? busy_engine.active 0 ≡ some admitted_item
unfolding admit_waiting admit_loop admit admit_with publish_item share_blocks make_room pop_sequence
    admitted_before effective_priority stable_sort pure gets or_stuck lift on_pool on_prefixes
    modify observe raise stuck ◌>>=◌ require_reusable match find_root allocate take_blocks
    push_sequences ◌+ℤ◌ div_ℤ
busy-active = refl

pub new-Inv : Inv (core new_engine)
new-Inv = (construct-IsVacant counting_runner small_config 0 new_engine construct-small).0

busy-Inv : Inv (core busy_engine)
busy-Inv = (admit_waiting-IsKept steady_world counting_runner asked_engine new-Inv).1

admit_waiting-IsKept_example : IsKept (admit_waiting steady_world counting_runner asked_engine)
admit_waiting-IsKept_example =
    admit_waiting-IsKept steady_world counting_runner asked_engine new-Inv

terminate_all-IsVacant_example :
    (after : Engine ℕ) × (terminate_all steady_world counting_runner "backend_error" 500 false
        busy_engine
      ≡ (returned tt, after))
    × Inv (core after)
    × IsVacant (core after)
terminate_all-IsVacant_example =
    terminate_all-IsVacant steady_world counting_runner busy_engine busy-Inv "backend_error" 500

busy-going : All (λ (item : Active). item.done ≡ false) busy_engine.active
unfolding admit_waiting admit_loop admit admit_with publish_item share_blocks make_room pop_sequence
    admitted_before effective_priority stable_sort pure gets or_stuck lift on_pool on_prefixes
    modify observe raise stuck ◌>>=◌ require_reusable match find_root allocate take_blocks
    push_sequences ◌+ℤ◌ div_ℤ
busy-going = (refl, tt)

iteration-IsKept_example : IsKept (iteration steady_world counting_runner busy_engine)
iteration-IsKept_example =
    iteration-IsKept steady_world counting_runner busy_engine busy-Inv busy-going

good_sample :
    check_samples 2 8 (0 ∷ 1 ∷ []) [] (record { sequence = pos 1; token = pos 7 } ∷ []) ≡ ok tt
unfolding check_samples
good_sample = refl

check_samples-IsGood_example :
    All (IsGood 8 (0 ∷ 1 ∷ [])) (record { sequence = pos 1; token = pos 7 } ∷ [])
    × ((a : ℕ)
        → count a (map sampled_sequence (record { sequence = pos 1; token = pos 7 } ∷ []))
          ≤ (if contains a [] then 0 else 1))
check_samples-IsGood_example =
    check_samples-IsGood 2 8 (0 ∷ 1 ∷ []) [] (record { sequence = pos 1; token = pos 7 } ∷ [])
      good_sample

-- A sequence that is not expected, and one twice, are refused.
bad_samples :
    (check_samples 2 8 (0 ∷ []) [] (record { sequence = pos 1; token = pos 7 } ∷ [])
      ≡ err runtime_error)
    × (check_samples 2 8 (0 ∷ []) [] (
          record { sequence = pos 0; token = pos 7 }
          ∷ record { sequence = pos 0; token = pos 7 }
          ∷ [])
        ≡ err runtime_error)
unfolding check_samples
bad_samples = (refl, refl)

abbrev late_end : Event EventData
late_end = record {
  kind = error;
  data_of = record {
    text = [];
    token = none;
    finish_reason = "error";
    error_code = "timeout";
    status = 408;
    prompt_tokens = 16;
    completion_tokens = 0;
    cached_tokens = 0;
  };
}

terminal-once_example :
    let after = (terminal steady_world counting_runner some_request late_end busy_engine).1 in
    ((terminal steady_world counting_runner some_request late_end busy_engine).0 ≡ returned tt)
    × ((after.handles 1).finished ≡ true)
    × (terminal steady_world counting_runner some_request late_end after ≡ (returned tt, after))
terminal-once_example =
    terminal-once steady_world counting_runner some_request late_end late_end busy_engine refl
