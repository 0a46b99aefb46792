-- ===== src/Scheduler/Tests.antt =====
-- The scheduler on concrete inputs.
use mini_llm_runtime.Base.{
  ℕ, ◌≤◌, ◌≡◌, ◌≢◌, refl, inl, inr, true, false, List, [], ◌∷◌, arith, All, pos, stable_sort, ◌+ℤ◌,
  div_ℤ,
}
use mini_llm_runtime.Config.{EngineConfig, default_engine_config, prefill_first}
use mini_llm_runtime.Scheduler.{
  ScheduleItem, token_count, before, effective_priority, prefill_items, decode_items, add_decode,
  add_prefill, schedule_batch,
}
use mini_llm_runtime.Scheduler.Sources.{FromItems, keyed_slices, keyed_items}
use mini_llm_runtime.Scheduler.Order.{before_aged}
use mini_llm_runtime.Scheduler.Priority.{granted, schedule_batch-no_inversion}
use mini_llm_runtime.Scheduler.Guarantees.{
  schedule_batch-tokens, schedule_batch-FromItems, schedule_batch-keys, schedule_batch-progress,
}

abbrev long_prompt : ScheduleItem
long_prompt = record {
  key = 0;
  prefill_remaining = 300;
  priority = pos 0;
  wait_ms = pos 0;
  order = 1;
}

abbrev urgent_prompt : ScheduleItem
urgent_prompt = record {
  key = 1;
  prefill_remaining = 9;
  priority = pos 3;
  wait_ms = pos 0;
  order = 2;
}

abbrev running : ScheduleItem
running = record { key = 2; prefill_remaining = 0; priority = pos 0; wait_ms = pos 500; order = 3 }

abbrev three_items : List ScheduleItem
three_items = long_prompt ∷ urgent_prompt ∷ running ∷ []

abbrev mixed_config : EngineConfig
mixed_config = record default_engine_config { batch_tokens = 100 }

schedule-three : schedule_batch three_items mixed_config ≡ record {
  slices =
      record { key = 2; tokens = 1; prefill = false }
      ∷ record { key = 1; tokens = 9; prefill = true }
      ∷ record { key = 0; tokens = 90; prefill = true }
      ∷ [];
  prefill_tokens = 99;
  decode_tokens = 1;
}
unfolding schedule_batch prefill_items decode_items add_decode add_prefill stable_sort before
    effective_priority ◌+ℤ◌ div_ℤ
schedule-three = refl

-- The other policy leaves the running request out while there are prompts.
schedule-prefill_first :
    (schedule_batch three_items (record mixed_config { policy = prefill_first })).decode_tokens ≡ 0
unfolding schedule_batch prefill_items decode_items add_decode add_prefill stable_sort before
    effective_priority ◌+ℤ◌ div_ℤ
schedule-prefill_first = refl

schedule_batch-tokens_example : token_count (schedule_batch three_items mixed_config) ≤ 100
schedule_batch-tokens_example = (schedule_batch-tokens three_items mixed_config (omega arith)).0

schedule_batch-FromItems_example :
    All (FromItems 128 three_items) (schedule_batch three_items mixed_config).slices
schedule_batch-FromItems_example = schedule_batch-FromItems three_items mixed_config (omega arith)

schedule_batch-keys_example : keyed_slices 2 (schedule_batch three_items mixed_config).slices ≤ 1
schedule_batch-keys_example = schedule_batch-keys three_items mixed_config (omega arith) 2

schedule_batch-progress_example : (schedule_batch three_items mixed_config).slices ≢ []
schedule_batch-progress_example =
    schedule_batch-progress three_items mixed_config (omega arith) (omega arith) three-ne-nil
  where
    three-ne-nil : three_items ≢ []
    three-ne-nil e = cc

three-keys : (k : ℕ) → keyed_items k three_items ≤ 1
three-keys k = ground arith

schedule_batch-no_inversion_example : granted 1 (schedule_batch three_items mixed_config).slices ≡ 9
unfolding schedule_batch prefill_items decode_items add_decode add_prefill stable_sort before
    effective_priority ◌+ℤ◌ div_ℤ
schedule_batch-no_inversion_example =
    schedule_batch-no_inversion three_items mixed_config long_prompt urgent_prompt (omega arith)
      three-keys (inl refl) (inr (inl refl)) (omega arith) (omega arith) refl (omega arith)

before_aged_example : before (pos 250) (record running { wait_ms = pos 1000 }) urgent_prompt ≡ true
unfolding effective_priority ◌+ℤ◌ div_ℤ
before_aged_example =
    before_aged 250 3 1000 0 (record running { wait_ms = pos 1000 }) urgent_prompt (omega arith)
      refl refl (omega arith) (omega arith)
