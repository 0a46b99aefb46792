-- ===== src/Engine/Construct.antt =====
-- src/engine.cpp: the constructor of `Engine::Impl`, without the telemetry and the start of the
-- thread. The runner is there; an absent one is refused like one whose context is too small.
use mini_llm_runtime.Base.{
  ℕ, zero, suc, ◌+◌, ◌/◌, Bool, true, false, ◌&&◌, ◌||◌, not, List, [], ◌∷◌, ltb, ◌==◌, Result, ok,
  throw_if, ◌>>=◌, ◌>>◌, invalid_argument,
}
use mini_llm_runtime.Config.{EngineConfig, validate}
use mini_llm_runtime.BlockPool.{BlockPool, capacity, construct as construct_pool}
use mini_llm_runtime.PrefixIndex.{PrefixIndex, construct as construct_prefixes}
use mini_llm_runtime.Request.{new_handle}
use mini_llm_runtime.Runner.{BackendCapabilities, ModelRunner}
use mini_llm_runtime.Engine.{Statistics, Engine}

-- `free_sequences.push_back(base + i - 1)` from `i = count` down to 1.
unfoldable pub push_sequences : ℕ → ℕ → List ℕ → List ℕ
push_sequences base zero free = free
push_sequences base (suc i) free = push_sequences base i ((base + i) ∷ free)

-- The runner's pages are not those of the configuration.
abbrev pub bad_pages : EngineConfig → BackendCapabilities → ℕ → Bool
bad_pages c caps context_tokens =
    not (caps.kv_page_tokens == 0)
    && (not (c.block_size == caps.kv_page_tokens) || not (c.context_tokens == context_tokens))

-- The configuration is more than the runner has.
abbrev pub bad_capacity : EngineConfig → BackendCapabilities → Bool
bad_capacity c caps =
    not (caps.max_sequences == 0) && ltb caps.max_sequences (c.max_active + c.prefix_cache_entries)
    || not (caps.max_batch_tokens == 0) && ltb caps.max_batch_tokens c.batch_tokens
    || not (caps.max_model_len == 0) && ltb caps.max_model_len c.max_model_len

abbrev pub bad_copy : EngineConfig → BackendCapabilities → Bool
bad_copy c caps =
    not caps.prefix_copy && (not (c.prefix_cache_entries == 0) || not (c.prefix_cache_tokens == 0))

-- `Statistics` as it is built.
abbrev pub no_statistics : Statistics
no_statistics = record {
  ready = true;
  completed = 0;
  cancelled = 0;
  timed_out = 0;
  failed = 0;
  batches = 0;
  mixed_batches = 0;
  prefill_tokens = 0;
  decode_tokens = 0;
  generated_tokens = 0;
  cache_hits = 0;
  cached_tokens = 0;
  cache_evictions = 0;
  active_requests = 0;
  max_batch_tokens = 0;
  max_batch_sequences = 0;
  kv_total_blocks = 0;
  kv_used_blocks = 0;
  kv_active_unique_blocks = 0;
  prefix_entries = 0;
  prefix_tokens = 0;
}

module _ {R : Type 0} (m : ModelRunner R) (config : EngineConfig) (runner : R) where
  abbrev pub initial : BlockPool → PrefixIndex → Engine R
  initial pool prefixes = record {
    config = config;
    runner = runner;
    pool = pool;
    prefixes = prefixes;
    handles = λ order. new_handle config.event_buffer_size;
    registry = [];
    incoming = [];
    waiting = [];
    active = [];
    free_sequences = push_sequences 0 config.max_active [];
    free_cache_sequences = push_sequences config.max_active config.prefix_cache_entries [];
    counters = no_statistics;
    snapshot = record no_statistics { kv_total_blocks = capacity pool };
    has_failed = false;
    next_order = 0;
    accepted = 0;
    rejected = 0;
    observations = 0;
  }

  unfoldable pub construct : Result (Engine R)
  construct = do
    validate config
    pool ← construct_pool (config.context_tokens / config.block_size)
    prefixes ← construct_prefixes config.block_size
    throw_if (ltb m.context_tokens config.context_tokens) invalid_argument
    throw_if (bad_pages config m.capabilities m.context_tokens) invalid_argument
    throw_if (bad_capacity config m.capabilities) invalid_argument
    throw_if (bad_copy config m.capabilities) invalid_argument
    throw_if (not m.capabilities.synchronous_execute) invalid_argument
    ok (initial pool prefixes)
