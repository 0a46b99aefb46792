-- ===== src/CudaRunner.antt =====
-- src/mini_cuda_runner.cpp: class MiniCudaRunner, a ModelRunner over the CUDA runtime. The runtime
-- (include/minillm/cuda/runtime.h) is an interface here: a record of operations over a type of states.
-- A sequence of a batch is not negative, as in the interface of the runner.
pub mod Contract
pub mod Tests
use Prim.Native.String.{String}
use mini_llm_runtime.Base.{
  ℕ, zero, suc, ◌+◌, ℤ, pos, pos_part, Bool, true, false, ◌&&◌, ◌||◌, not, Option, none, some, List,
  [], ◌∷◌, leb, ltb, ltb_ℤ, ◌==◌, if◌then◌else◌, is_empty, length, get_elem?, get_or, set,
  replicate, Result, ok, err, ◌>>=◌, invalid_argument, runtime_error, logic_error,
}
use mini_llm_runtime.Runner.{BatchToken, Sample, RunnerResources, ModelRunner}

pub record CudaSample : Type 0 where
  pub sequence : ℤ
  pub input_index : ℕ
  pub token : ℤ

-- Of the logits and the device's time, only whether there are any.
pub record CudaForwardResult : Type 0 where
  pub samples : List CudaSample
  pub has_logits : Bool
  pub has_elapsed : Bool

pub record CudaRuntime (S : Type 0) : Type 0 where
  pub context_tokens : ℕ
  pub vocabulary : ℕ
  pub max_sequences : ℕ
  pub batch_tokens : ℕ
  pub max_model_len : ℕ
  pub is_paged : Bool
  pub page_tokens : ℕ
  pub tokenize : String → Result (List ℤ)
  pub token_piece : ℕ → Result (List ℕ)
  pub is_eog : ℕ → Result Bool
  pub is_ready : S → Bool
  pub forward : List BatchToken → S → Result CudaForwardResult × S
  pub clear_sequence : ℕ → S → Result (Unit {0}) × S

pub record MiniCudaRunner (S : Type 0) : Type 0 where
  pub runtime : S
  pub reusable : Bool

-- The loop over the batch from the index `i` on: the indices of the tokens with logits.
unfoldable pub select_loop : ℕ → ℕ → List BatchToken → List Bool → Result (List ℕ)
select_loop limit i [] selected = ok []
select_loop limit i (t ∷ ts) selected =
    let rest =
      select_loop limit (i + 1) ts (if t.logits then set selected t.sequence true else selected) in
    if leb limit t.sequence || t.logits && get_or selected t.sequence false
    then err invalid_argument
    else if t.logits
    then (rest >>= λ indices. ok (i ∷ indices))
    else rest

-- `batch[i].sequence`, for an index of the batch.
abbrev pub sequence_at : List BatchToken → ℕ → ℕ
sequence_at batch i = elim (get_elem? batch i) [ none ↦ 0 | some t ↦ t.sequence ]

abbrev pub bad_sample : ℕ → List BatchToken → ℕ → CudaSample → Bool
bad_sample vocabulary batch i s =
    not (s.input_index == i)
    || ltb_ℤ s.sequence (pos 0)
    || not (pos_part s.sequence == sequence_at batch i)
    || ltb_ℤ s.token (pos 0)
    || leb vocabulary (pos_part s.token)

-- The loop over the outputs; there are as many samples as indices.
unfoldable pub check_outputs : ℕ → List BatchToken → List ℕ → List CudaSample → Result (List Sample)
check_outputs vocabulary batch (i ∷ indices) (s ∷ samples) =
    let rest = check_outputs vocabulary batch indices samples in
    if bad_sample vocabulary batch i s
    then err runtime_error
    else (rest >>= λ out. ok (record { sequence = s.sequence; token = s.token } ∷ out))
check_outputs vocabulary batch indices samples = ok []

unfoldable pub check_result :
    ℕ → List BatchToken → List ℕ → CudaForwardResult → Result (List Sample)
check_result vocabulary batch indices r =
    if not (length r.samples == length indices) || r.has_logits || r.has_elapsed
    then err runtime_error
    else check_outputs vocabulary batch indices r.samples

module _ {S : Type 0} (rt : CudaRuntime S) where
  abbrev pub healthy : MiniCudaRunner S → Bool
  healthy r = r.reusable && rt.is_ready r.runtime

  -- The `catch` of `execute`.
  abbrev pub fail_stop : S → MiniCudaRunner S
  fail_stop s = record { runtime = s; reusable = false }

  -- `execute` behind `forward`, which may have changed the runtime.
  abbrev pub finish_forward :
      List BatchToken
      → List ℕ
      → Bool
      → Result CudaForwardResult × S
      → Result (List Sample) × MiniCudaRunner S
  finish_forward batch indices reusable (err x, s) = (err x, fail_stop s)
  finish_forward batch indices reusable (ok result, s) =
      elim (check_result rt.vocabulary batch indices result) [
        | err x ↦ (err x, fail_stop s)
        | ok samples ↦ (ok samples, record { runtime = s; reusable = reusable })
      ]

  unfoldable pub execute :
      List BatchToken → MiniCudaRunner S → Result (List Sample) × MiniCudaRunner S
  execute batch r =
      if not (healthy r)
      then (err runtime_error, fail_stop r.runtime)
      else if is_empty batch || ltb rt.batch_tokens (length batch)
      then (err invalid_argument, fail_stop r.runtime)
      else elim (select_loop rt.max_sequences 0 batch (replicate rt.max_sequences false)) [
        | err x ↦ (err x, fail_stop r.runtime)
        | ok indices ↦ finish_forward batch indices r.reusable (rt.forward batch r.runtime)
      ]

  abbrev pub resources : MiniCudaRunner S → Option RunnerResources
  resources r = some (record { state_valid = healthy r; reusable = healthy r })

  abbrev pub copy_sequence : ℕ → ℕ → ℕ → MiniCudaRunner S → Result (Unit {0}) × MiniCudaRunner S
  copy_sequence source target tokens r = (err logic_error, r)

  -- `noexcept`: a runtime that throws makes the runner unusable.
  abbrev pub cleared : MiniCudaRunner S → Result (Unit {0}) × S → MiniCudaRunner S
  cleared r (ok _, s) = record r { runtime = s }
  cleared r (err x, s) = fail_stop s

  unfoldable pub clear_sequence : ℕ → MiniCudaRunner S → MiniCudaRunner S
  clear_sequence s r = if not (healthy r) then r else cleared r (rt.clear_sequence s r.runtime)

  -- The runner as the engine uses it.
  unfoldable pub mini_cuda_runner : ModelRunner (MiniCudaRunner S)
  mini_cuda_runner = record {
    context_tokens = rt.context_tokens;
    vocab_size = rt.vocabulary;
    capabilities = record {
      max_sequences = rt.max_sequences;
      max_batch_tokens = rt.batch_tokens;
      max_model_len = rt.max_model_len;
      prefix_copy = false;
      synchronous_execute = true;
      kv_page_tokens = if rt.is_paged then rt.page_tokens else 0;
    };
    tokenize = rt.tokenize;
    token_piece = rt.token_piece;
    is_eog = rt.is_eog;
    execute = execute;
    resources = resources;
    copy_sequence = copy_sequence;
    clear_sequence = clear_sequence;
    synchronize = λ r. r;
  }
