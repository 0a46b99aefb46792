-- ===== src/Config/Limits.antt =====
-- What `EngineConfig::validate` accepts, in words, and the names of layouts and precisions.
use mini_llm_runtime.Base.{
  ◌%◌, ◌≤◌, ◌<◌, ◌≡◌, ◌↔◌, ◌⊎◌, false, arith, ok, err, invalid_argument, pos, ◌≤ℤ◌,
}
use mini_llm_runtime.Config.{
  EngineConfig, validate, int_max, bad_telemetry, bad_blocks, bad_model_len, bad_batch, bad_queues,
  bad_cache, bad_times,
}

pub record IsWellFormed (c : EngineConfig) : Type 0 where
  pub telemetry_bounds : (1 ≤ c.telemetry_capacity) × (c.telemetry_capacity ≤ 16384)
  pub block_pos : 0 < c.block_size
  pub context_pos : 0 < c.context_tokens
  pub whole_blocks : c.context_tokens % c.block_size ≡ 0
  pub model_bounds : (2 ≤ c.max_model_len) × (c.max_model_len ≤ c.context_tokens)
  pub active_bounds : (1 ≤ c.max_active) × (c.max_active ≤ 128)
  pub batch_bounds : (c.max_active ≤ c.batch_tokens) × (c.batch_tokens ≤ c.context_tokens)
  pub chunk_bounds : (1 ≤ c.prefill_chunk) × (c.prefill_chunk ≤ c.batch_tokens)
  pub queue_bounds : (1 ≤ c.queue_capacity) × (c.queue_capacity ≤ 65536)
  pub event_bounds : (1 ≤ c.event_buffer_size) × (c.event_buffer_size ≤ 65536)
  pub cache_bounds : (c.prefix_cache_entries ≤ 128) × (c.prefix_cache_tokens ≤ c.context_tokens)
  pub cache_useful : (c.prefix_cache_entries ≡ 0) ⊎ (c.block_size ≤ c.prefix_cache_tokens)
  pub aging_pos : pos 1 ≤ℤ c.aging_ms
  pub reserve_pos : pos 1 ≤ℤ c.admission_reserve_ms
  pub context_int : c.context_tokens ≤ int_max

module _ (c : EngineConfig) where
  blocks_iff :
      (bad_blocks c ≡ false)
      ↔ ((0 < c.block_size) × (0 < c.context_tokens) × (c.context_tokens % c.block_size ≡ 0))
  unfolding bad_blocks
  blocks_iff = (λ h. (ground arith, ground arith, ground arith), λ h. ground arith)

  batch_iff : (bad_batch c ≡ false) ↔ (
      (1 ≤ c.max_active)
      × (c.max_active ≤ 128)
      × (c.max_active ≤ c.batch_tokens)
      × (c.batch_tokens ≤ c.context_tokens))
  unfolding bad_batch
  batch_iff = (λ h. (ground arith, ground arith, ground arith, ground arith), λ h. ground arith)

  queues_iff : (bad_queues c ≡ false) ↔ (
      (1 ≤ c.prefill_chunk)
      × (c.prefill_chunk ≤ c.batch_tokens)
      × (1 ≤ c.queue_capacity)
      × (c.queue_capacity ≤ 65536)
      × (1 ≤ c.event_buffer_size)
      × (c.event_buffer_size ≤ 65536))
  unfolding bad_queues
  queues_iff = (
    λ h. (ground arith, ground arith, ground arith, ground arith, ground arith, ground arith),
    λ h. ground arith,
  )

  cache_iff : (bad_cache c ≡ false) ↔ (
      (c.prefix_cache_entries ≤ 128)
      × (c.prefix_cache_tokens ≤ c.context_tokens)
      × ((c.prefix_cache_entries ≡ 0) ⊎ (c.block_size ≤ c.prefix_cache_tokens)))
  unfolding bad_cache
  cache_iff = (λ h. (ground arith, ground arith, ground arith), λ h. ground arith)

  times_iff :
      (bad_times c ≡ false)
      ↔ ((pos 1 ≤ℤ c.aging_ms) × (pos 1 ≤ℤ c.admission_reserve_ms) × (c.context_tokens ≤ int_max))
  unfolding bad_times
  times_iff = (λ h. (ground arith, ground arith, ground arith), λ h. ground arith)

  telemetry_iff :
      (bad_telemetry c ≡ false) ↔ ((1 ≤ c.telemetry_capacity) × (c.telemetry_capacity ≤ 16384))
  unfolding bad_telemetry
  telemetry_iff = (λ h. ground arith, λ h. ground arith)

  model_len_iff :
      (bad_model_len c ≡ false) ↔ ((2 ≤ c.max_model_len) × (c.max_model_len ≤ c.context_tokens))
  unfolding bad_model_len
  model_len_iff = (λ h. ground arith, λ h. ground arith)

  -- `validate` returns exactly for the well-formed configurations.
  pub validate_iff : (validate c ≡ ok tt) ↔ IsWellFormed c
  unfolding validate
  validate_iff = (
    λ h.
        let blocks = blocks_iff.0 (ground arith) in
        let batch = batch_iff.0 (ground arith) in
        let queues = queues_iff.0 (ground arith) in
        let cache = cache_iff.0 (ground arith) in
        let times = times_iff.0 (ground arith) in
        record {
          telemetry_bounds = telemetry_iff.0 (ground arith);
          block_pos = blocks.0;
          context_pos = blocks.1;
          whole_blocks = blocks.2;
          model_bounds = model_len_iff.0 (ground arith);
          active_bounds = (batch.0, batch.1);
          batch_bounds = (batch.2, batch.3);
          chunk_bounds = (queues.0, queues.1);
          queue_bounds = (queues.2, queues.3);
          event_bounds = (queues.4, queues.5);
          cache_bounds = (cache.0, cache.1);
          cache_useful = cache.2;
          aging_pos = times.0;
          reserve_pos = times.1;
          context_int = times.2;
        },
    λ w. rw (
      telemetry_iff.1 w.telemetry_bounds,
      blocks_iff.1 (w.block_pos, w.context_pos, w.whole_blocks),
      model_len_iff.1 w.model_bounds,
      batch_iff.1 (w.active_bounds.0, w.active_bounds.1, w.batch_bounds.0, w.batch_bounds.1),
      queues_iff.1 (
        w.chunk_bounds.0, w.chunk_bounds.1, w.queue_bounds.0, w.queue_bounds.1, w.event_bounds.0,
        w.event_bounds.1,
      ),
      cache_iff.1 (w.cache_bounds.0, w.cache_bounds.1, w.cache_useful),
      times_iff.1 (w.aging_pos, w.reserve_pos, w.context_int),
    ),
  )

  -- A configuration that `validate` refuses is refused by `invalid_argument`.
  pub validate-cases : (validate c ≡ ok tt) ⊎ (validate c ≡ err invalid_argument)
  unfolding validate
  validate-cases = ground arith
