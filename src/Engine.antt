-- ===== src/Engine.antt =====
-- src/engine.cpp and include/llmserve/engine.h: the state of the engine. Its thread is the only one
-- that changes the members below, but for the handles, the registry and the incoming requests,
-- which clients share. What the engine's thread sees of clocks and clients is the `World`: at each
-- observation, in order, an answer that nothing else determines. Times are nanoseconds of the steady
-- clock. Telemetry and the timings of events are not modelled; with them, `execute_profiled` is one
-- more way to call `execute`.
pub mod Action
pub mod Finish
pub mod Admit
pub mod Batch
pub mod Run
pub mod Balance
pub mod Logic
pub mod Ends
pub mod Admissions
pub mod Waiting
pub mod Caching
pub mod Plans
pub mod Iterations
pub mod Shutdown
pub mod Construct
pub mod Start
pub mod Guarantees
pub mod Thread
pub mod Clients
pub mod Submission
pub mod Owners
pub mod Samples
pub mod Endings
pub mod Tests
pub mod Transfers
pub mod Grants
use Prim.Native.String.{String}
use mini_llm_runtime.Base.{ℕ, ℤ, Bool, Option, List}
use mini_llm_runtime.Config.{EngineConfig}
use mini_llm_runtime.BlockPool.{BlockPool}
use mini_llm_runtime.PrefixIndex.{PrefixIndex}
use mini_llm_runtime.Request.{RequestHandle}

-- `RequestHandle`, the members that never change: `input_`, `prompt_`, `order_`, `created_` and
-- `deadline_`. The order names the handle.
pub record Request : Type 0 where
  pub id : String
  pub prompt : List ℕ
  pub max_tokens : ℕ
  pub priority : ℤ
  pub ignore_eos : Bool
  pub cache_namespace : String
  pub order : ℕ
  pub created : ℕ
  pub deadline : ℕ

-- `Event` without its kind, its message and its timings.
pub record EventData : Type 0 where
  pub text : List ℕ
  pub token : Option ℕ
  pub finish_reason : String
  pub error_code : String
  pub status : ℕ
  pub prompt_tokens : ℕ
  pub completion_tokens : ℕ
  pub cached_tokens : ℕ

-- `Engine::Impl::Active`
pub record Active : Type 0 where
  pub request : Request
  pub sequence : ℕ
  pub blocks : List ℕ
  pub processed : ℕ
  pub generated : ℕ
  pub reused : ℕ
  pub last_token : ℕ
  pub text : List ℕ
  pub last_scheduled : ℕ
  pub done : Bool

pub record Statistics : Type 0 where
  pub ready : Bool
  pub completed : ℕ
  pub cancelled : ℕ
  pub timed_out : ℕ
  pub failed : ℕ
  pub batches : ℕ
  pub mixed_batches : ℕ
  pub prefill_tokens : ℕ
  pub decode_tokens : ℕ
  pub generated_tokens : ℕ
  pub cache_hits : ℕ
  pub cached_tokens : ℕ
  pub cache_evictions : ℕ
  pub active_requests : ℕ
  pub max_batch_tokens : ℕ
  pub max_batch_sequences : ℕ
  pub kv_total_blocks : ℕ
  pub kv_used_blocks : ℕ
  pub kv_active_unique_blocks : ℕ
  pub prefix_entries : ℕ
  pub prefix_tokens : ℕ

-- What the n-th observation shows: the clock, whether a request is cancelled, how many events its
-- client has taken since the last one, whether the engine is to stop.
pub record World : Type 0 where
  pub clock : ℕ → ℕ
  pub cancelled : ℕ → ℕ → Bool
  pub taken : ℕ → ℕ → ℕ
  pub stopping : ℕ → Bool

-- `Engine::Impl`, with the state of the runner. A vector used as a stack is a list whose head is its
-- back.
pub record Engine (R : Type 0) : Type 0 where
  pub config : EngineConfig
  pub runner : R
  pub pool : BlockPool
  pub prefixes : PrefixIndex
  pub handles : ℕ → RequestHandle EventData
  pub registry : List (String × ℕ)
  pub incoming : List Request
  pub waiting : List Request
  pub active : List Active
  pub free_sequences : List ℕ
  pub free_cache_sequences : List ℕ
  pub counters : Statistics
  pub snapshot : Statistics
  pub has_failed : Bool
  pub next_order : ℕ
  pub accepted : ℕ
  pub rejected : ℕ
  pub observations : ℕ
