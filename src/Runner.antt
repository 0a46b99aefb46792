-- ===== src/Runner.antt =====
-- include/llmserve/model_runner.h: the interface of a model backend. A runner is a state of the type
-- `R` that its operations take and return; a token is checked to be in the vocabulary before it is
-- handed in, so it is a number, and what the runner returns is not, so that is an integer.
use Prim.Native.String.{String}
use mini_llm_runtime.Base.{ℕ, ℤ, Bool, Option, List, Result}

pub record BatchToken : Type 0 where
  pub token : ℕ
  pub position : ℕ
  pub sequence : ℕ
  pub logits : Bool

pub record Sample : Type 0 where
  pub sequence : ℤ
  pub token : ℤ

-- The members that the engine acts on; the others are only reported.
pub record RunnerResources : Type 0 where
  pub state_valid : Bool
  pub reusable : Bool

pub record BackendCapabilities : Type 0 where
  pub max_sequences : ℕ
  pub max_batch_tokens : ℕ
  pub max_model_len : ℕ
  pub prefix_copy : Bool
  pub synchronous_execute : Bool
  pub kv_page_tokens : ℕ

-- `info().context_tokens` and `info().vocab_size`, and the operations. Those that are `noexcept`
-- return no error.
pub record ModelRunner (R : Type 0) : Type 0 where
  pub context_tokens : ℕ
  pub vocab_size : ℕ
  pub capabilities : BackendCapabilities
  pub tokenize : String → Result (List ℤ)
  pub token_piece : ℕ → Result (List ℕ)
  pub is_eog : ℕ → Result Bool
  pub execute : List BatchToken → R → Result (List Sample) × R
  pub resources : R → Option RunnerResources
  pub copy_sequence : ℕ → ℕ → ℕ → R → Result (Unit {0}) × R
  pub clear_sequence : ℕ → R → R
  pub synchronize : R → R
