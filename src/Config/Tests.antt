-- ===== src/Config/Tests.antt =====
-- Configurations on concrete inputs.
use mini_llm_runtime.Base.{
  ◌≡◌, refl, ok, err, none, some, true, false, pos, invalid_argument, negsuc,
}
use mini_llm_runtime.Config.{
  EngineConfig, ModelConfig, default_engine_config, validate, validate_mini_cuda_config, paged,
  bad_telemetry, bad_blocks, bad_model_len, bad_batch, bad_queues, bad_cache, bad_times,
  checked_kv_capacity,
}
use mini_llm_runtime.Config.MiniCuda.{IsServable, validate_mini_cuda-IsServable}
use mini_llm_runtime.Config.Limits.{IsWellFormed, validate_iff}

default-validate : validate default_engine_config ≡ ok tt
unfolding validate bad_telemetry bad_blocks bad_model_len bad_batch bad_queues bad_cache bad_times
default-validate = refl

abbrev cuda_engine : EngineConfig
cuda_engine = record default_engine_config {
  max_active = 4;
  batch_tokens = 128;
  prefix_cache_entries = 0;
  prefix_cache_tokens = 0;
}

abbrev cuda_model : ModelConfig
cuda_model = record {
  path = "model.gguf";
  gpu_layers = pos 0;
  threads = pos 8;
  flash_attention = true;
  scalar_kernels = false;
  device = pos 0;
  device_budget_bytes = 0;
  cuda_precision = none;
  cuda_kv_layout = some paged;
}

-- A negative aging interval is refused.
negative_aging :
    validate (record default_engine_config { aging_ms = negsuc 0 }) ≡ err invalid_argument
unfolding validate bad_telemetry bad_blocks bad_model_len bad_batch bad_queues bad_cache bad_times
negative_aging = refl

validate_iff_example : IsWellFormed default_engine_config
validate_iff_example = (validate_iff default_engine_config).0 default-validate

validate_mini_cuda-IsServable_example : IsServable cuda_model cuda_engine
unfolding validate_mini_cuda_config validate bad_telemetry bad_blocks bad_model_len bad_batch
    bad_queues bad_cache bad_times checked_kv_capacity
validate_mini_cuda-IsServable_example = validate_mini_cuda-IsServable cuda_model cuda_engine refl
