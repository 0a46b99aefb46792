-- ===== src/Config.antt =====
-- include/llmserve/config.h, src/config.cpp, include/minillm/cuda/kv_layout.h and precision.h.
-- An enumeration has its listed values only, so the sources' tests against a value outside of it
-- never fire here. The message of an exception is not modelled, its class is.
pub mod Limits
pub mod MiniCuda
mod Tests
use Prim.Native.String.{String}
use text.Mathlib.Text.{◌==◌ as str_eq}
use mini_llm_runtime.Base.{
  ℕ, ◌-◌, ◌+◌, ◌*◌, ◌/◌, ◌%◌, ◌^◌, Bool, true, false, ◌&&◌, ◌||◌, not, Option, none, some, ltb,
  ◌==◌, if◌then◌else◌, Result, ok, err, ◌>>=◌, ◌>>◌, throw_if, invalid_argument, ℤ, pos, ltb_ℤ,
}

pub data SchedulingPolicy : Type 0 where
  mixed prefill_first : SchedulingPolicy

pub data TelemetryMode : Type 0 where
  off batches stages : TelemetryMode

pub data PrecisionMode : Type 0 where
  f32_pedantic f16_matrix_f32acc : PrecisionMode

pub data CudaKvLayout : Type 0 where
  contiguous paged : CudaKvLayout

pub record EngineConfig : Type 0 where
  pub context_tokens : ℕ
  pub max_model_len : ℕ
  pub max_active : ℕ
  pub queue_capacity : ℕ
  pub batch_tokens : ℕ
  pub prefill_chunk : ℕ
  pub block_size : ℕ
  pub prefix_cache_entries : ℕ
  pub prefix_cache_tokens : ℕ
  pub event_buffer_size : ℕ
  pub aging_ms : ℤ
  pub admission_reserve_ms : ℤ
  pub policy : SchedulingPolicy
  pub telemetry_mode : TelemetryMode
  pub telemetry_capacity : ℕ

pub record ModelConfig : Type 0 where
  pub path : String
  pub gpu_layers : ℤ
  pub threads : ℤ
  pub flash_attention : Bool
  pub scalar_kernels : Bool
  pub device : ℤ
  pub device_budget_bytes : ℕ
  pub cuda_precision : Option PrecisionMode
  pub cuda_kv_layout : Option CudaKvLayout

abbrev pub default_engine_config : EngineConfig
default_engine_config = record {
  context_tokens = 8192;
  max_model_len = 2048;
  max_active = 8;
  queue_capacity = 64;
  batch_tokens = 256;
  prefill_chunk = 128;
  block_size = 16;
  prefix_cache_entries = 4;
  prefix_cache_tokens = 2048;
  event_buffer_size = 128;
  aging_ms = pos 250;
  admission_reserve_ms = pos 2000;
  policy = mixed;
  telemetry_mode = off;
  telemetry_capacity = 1024;
}

abbrev pub int_max : ℕ
int_max = 2 ^ 31 - 1

-- The tests of `EngineConfig::validate`, one for each `if`.
unfoldable pub bad_telemetry : EngineConfig → Bool
bad_telemetry c = c.telemetry_capacity == 0 || ltb 16384 c.telemetry_capacity

unfoldable pub bad_blocks : EngineConfig → Bool
bad_blocks c =
    c.block_size == 0 || c.context_tokens == 0 || not (c.context_tokens % c.block_size == 0)

unfoldable pub bad_model_len : EngineConfig → Bool
bad_model_len c = ltb c.max_model_len 2 || ltb c.context_tokens c.max_model_len

unfoldable pub bad_batch : EngineConfig → Bool
bad_batch c =
    c.max_active == 0
    || ltb 128 c.max_active
    || ltb c.batch_tokens c.max_active
    || ltb c.context_tokens c.batch_tokens

unfoldable pub bad_queues : EngineConfig → Bool
bad_queues c =
    c.prefill_chunk == 0
    || ltb c.batch_tokens c.prefill_chunk
    || c.queue_capacity == 0
    || ltb 65536 c.queue_capacity
    || c.event_buffer_size == 0
    || ltb 65536 c.event_buffer_size

unfoldable pub bad_cache : EngineConfig → Bool
bad_cache c =
    ltb 128 c.prefix_cache_entries
    || ltb c.context_tokens c.prefix_cache_tokens
    || (ltb 0 c.prefix_cache_entries && ltb c.prefix_cache_tokens c.block_size)

unfoldable pub bad_times : EngineConfig → Bool
bad_times c =
    not (ltb_ℤ (pos 0) c.aging_ms)
    || not (ltb_ℤ (pos 0) c.admission_reserve_ms)
    || ltb int_max c.context_tokens

unfoldable pub validate : EngineConfig → Result (Unit {0})
validate c = do
  throw_if (bad_telemetry c) invalid_argument
  throw_if (bad_blocks c) invalid_argument
  throw_if (bad_model_len c) invalid_argument
  throw_if (bad_batch c) invalid_argument
  throw_if (bad_queues c) invalid_argument
  throw_if (bad_cache c) invalid_argument
  throw_if (bad_times c) invalid_argument

pub policy_name : SchedulingPolicy → String
policy_name mixed = "mixed"
policy_name prefill_first = "prefill_first"

pub precision_mode_name : PrecisionMode → String
precision_mode_name f32_pedantic = "f32-pedantic"
precision_mode_name f16_matrix_f32acc = "f16-matrix-f32acc"

pub parse_precision_mode : String → Result PrecisionMode
parse_precision_mode name =
    if str_eq name "f32-pedantic"
    then ok f32_pedantic
    else if str_eq name "f16-matrix-f32acc"
    then ok f16_matrix_f32acc
    else err invalid_argument

pub kv_layout_name : CudaKvLayout → String
kv_layout_name contiguous = "contiguous"
kv_layout_name paged = "paged"

pub parse_kv_layout : String → Result CudaKvLayout
parse_kv_layout name =
    if str_eq name "contiguous"
    then ok contiguous
    else if str_eq name "paged"
    then ok paged
    else err invalid_argument

abbrev pub kv_page_tokens : ℕ
kv_page_tokens = 16

abbrev is_contiguous : CudaKvLayout → Bool
is_contiguous contiguous = true
is_contiguous paged = false

-- `(length + page - 1) / page`
abbrev pub ceil_div : ℕ → ℕ → ℕ
ceil_div length page = (length + page - 1) / page

unfoldable pub checked_kv_capacity : CudaKvLayout → ℕ → ℕ → ℕ → ℕ → Result ℕ
checked_kv_capacity layout sequences max_model_len capacity page_tokens = do
  throw_if
      (sequences == 0
        || ltb 4 sequences
        || max_model_len == 0
        || ltb 2048 max_model_len
        || not (page_tokens == kv_page_tokens))
      invalid_argument
  let slots = sequences * max_model_len
  let addressable = sequences * ceil_div max_model_len page_tokens * page_tokens
  if is_contiguous layout
      then (if not (capacity == 0) && not (capacity == slots)
          then err invalid_argument
          else ok slots)
      else if capacity == 0 || not (capacity % page_tokens == 0) || ltb addressable capacity
      then err invalid_argument
      else ok capacity

abbrev value_or {ℓ} : {A : Type ℓ} → A → Option A → A
value_or d none = d
value_or d (some a) = a

abbrev is_pedantic : PrecisionMode → Bool
is_pedantic f32_pedantic = true
is_pedantic f16_matrix_f32acc = false

abbrev is_zero_ℤ : ℤ → Bool
is_zero_ℤ i = not (ltb_ℤ i (pos 0)) && not (ltb_ℤ (pos 0) i)

-- The last test of `validate_mini_cuda_config`, by the layout.
check_layout : CudaKvLayout → EngineConfig → Result (Unit {0})
check_layout paged engine =
    checked_kv_capacity paged engine.max_active engine.max_model_len engine.context_tokens
      engine.block_size
    >>= λ _. ok tt
check_layout contiguous engine =
    throw_if (ltb (engine.max_active * engine.max_model_len) engine.context_tokens) invalid_argument

pub validate_mini_cuda_config : ModelConfig → EngineConfig → Result (Unit {0})
unfolding check_layout
validate_mini_cuda_config model engine = do
  throw_if (not (is_pedantic (value_or f32_pedantic model.cuda_precision))) invalid_argument
  validate engine
  throw_if
      (str_eq model.path ""
        || ltb_ℤ model.device (pos 0)
        || ltb_ℤ model.threads (pos 1)
        || ltb_ℤ (pos 256) model.threads)
      invalid_argument
  throw_if (not (is_zero_ℤ model.gpu_layers) || model.scalar_kernels) invalid_argument
  throw_if (ltb 4 engine.max_active || ltb 128 engine.batch_tokens || ltb 2048 engine.max_model_len)
      invalid_argument
  throw_if (not (engine.prefix_cache_entries == 0) || not (engine.prefix_cache_tokens == 0))
      invalid_argument
  check_layout (value_or contiguous model.cuda_kv_layout) engine
