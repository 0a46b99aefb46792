-- ===== src/Scheduler.antt =====
-- include/llmserve/scheduler.h and src/scheduler.cpp: one batch from the active requests.
-- `int` and `std::int64_t` are integers that do not wrap: the sum of a priority and a wait in
-- milliseconds stays far below 2 ^ 63.
pub mod Slices
pub mod Order
pub mod Plan
pub mod Sources
pub mod Priority
pub mod Guarantees
mod Tests
use mini_llm_runtime.Base.{
  ℕ, ◌+◌, ◌-◌, min, Bool, true, false, ◌||◌, not, List, [], ◌∷◌, ◌++◌, ltb, ◌==◌, if◌then◌else◌,
  is_empty, stable_sort, ℤ, pos_part, neg_part, ◌+ℤ◌, div_ℤ, ltb_ℤ,
}
use mini_llm_runtime.Config.{EngineConfig, SchedulingPolicy, mixed, prefill_first}

pub record ScheduleItem : Type 0 where
  pub key : ℕ
  pub prefill_remaining : ℕ
  pub priority : ℤ
  pub wait_ms : ℤ
  pub order : ℕ

pub record ScheduledSlice : Type 0 where
  pub key : ℕ
  pub tokens : ℕ
  pub prefill : Bool

pub record BatchPlan : Type 0 where
  pub slices : List ScheduledSlice
  pub prefill_tokens : ℕ
  pub decode_tokens : ℕ

abbrev pub token_count : BatchPlan → ℕ
token_count p = p.prefill_tokens + p.decode_tokens

abbrev pub mixed_plan : BatchPlan → Bool
mixed_plan p = if ltb 0 p.prefill_tokens then ltb 0 p.decode_tokens else false

-- `std::max<std::int64_t>(0, wait_ms)` is the part of the wait above zero. The division is by a
-- positive `aging_ms`: EngineConfig::validate refuses any other.
unfoldable pub effective_priority : ℤ → ℤ → ℤ → ℤ
effective_priority priority wait_ms aging_ms = priority +ℤ div_ℤ (pos_part wait_ms) aging_ms

abbrev pub eq_ℤ : ℤ → ℤ → Bool
eq_ℤ a b = pos_part a + neg_part b == pos_part b + neg_part a

pub before : ℤ → ScheduleItem → ScheduleItem → Bool
before aging_ms left right =
    let lp = effective_priority left.priority left.wait_ms aging_ms in
    let rp = effective_priority right.priority right.wait_ms aging_ms in
    if eq_ℤ lp rp then ltb left.order right.order else ltb_ℤ rp lp

-- The first loop: the items with prompt tokens left, and the others, in their order.
pub prefill_items : List ScheduleItem → List ScheduleItem
prefill_items [] = []
prefill_items (item ∷ items) =
    if item.prefill_remaining == 0 then prefill_items items else item ∷ prefill_items items

pub decode_items : List ScheduleItem → List ScheduleItem
decode_items [] = []
decode_items (item ∷ items) =
    if item.prefill_remaining == 0 then item ∷ decode_items items else decode_items items

-- `add_decode`, on the plan and the tokens that remain.
pub add_decode : List ScheduleItem → BatchPlan × ℕ → BatchPlan × ℕ
add_decode [] (plan, remaining) = (plan, remaining)
add_decode (item ∷ items) (plan, remaining) =
    let rest = add_decode items (
      record plan {
        slices = plan.slices ++ record { key = item.key; tokens = 1; prefill = false } ∷ [];
        decode_tokens = plan.decode_tokens + 1;
      },
      remaining - 1,
    ) in
    if remaining == 0 then (plan, remaining) else rest

-- The loop over the sorted prefill items.
pub add_prefill : ℕ → List ScheduleItem → BatchPlan × ℕ → BatchPlan × ℕ
add_prefill chunk [] (plan, remaining) = (plan, remaining)
add_prefill chunk (item ∷ items) (plan, remaining) =
    let count = min (min remaining item.prefill_remaining) chunk in
    let rest = add_prefill chunk items (
      record plan {
        slices = plan.slices ++ record { key = item.key; tokens = count; prefill = true } ∷ [];
        prefill_tokens = plan.prefill_tokens + count;
      },
      remaining - count,
    ) in
    if count == 0 then (plan, remaining) else rest

abbrev is_mixed : SchedulingPolicy → Bool
is_mixed mixed = true
is_mixed prefill_first = false

abbrev empty_plan : BatchPlan
empty_plan = record { slices = []; prefill_tokens = 0; decode_tokens = 0 }

pub schedule_batch : List ScheduleItem → EngineConfig → BatchPlan
schedule_batch items config =
    let prefill = stable_sort (before config.aging_ms) (prefill_items items) in
    let decode = stable_sort (before config.aging_ms) (decode_items items) in
    let start : BatchPlan × ℕ = (empty_plan, config.batch_tokens) in
    let decoded =
      if is_mixed config.policy || is_empty prefill then add_decode decode start else start in
    (add_prefill config.prefill_chunk prefill decoded).0
