-- ===== src/CudaRunner/Tests.antt =====
-- A runtime that answers each token with logits by the token 5, and whose third batch fails.
use mini_llm_runtime.Base.{
  ℕ, ◌+◌, pos, true, false, List, [], ◌∷◌, ◌≡◌, refl, ltb, leb, ok, err, runtime_error,
}
use mini_llm_runtime.Runner.{BatchToken}
use mini_llm_runtime.CudaRunner.{
  CudaSample, CudaRuntime, MiniCudaRunner, select_loop, check_outputs, check_result, execute,
  mini_cuda_runner, clear_sequence,
}
use mini_llm_runtime.CudaRunner.Contract.{IsFailStop, execute-IsFailStop}

abbrev answers : ℕ → List BatchToken → List CudaSample
answers i [] = []
answers i (t ∷ ts) = elim t.logits [
  | true ↦ record { sequence = pos t.sequence; input_index = i; token = pos 5 } ∷ answers (i + 1) ts
  | false ↦ answers (i + 1) ts
]

abbrev counting_runtime : CudaRuntime ℕ
counting_runtime = record {
  context_tokens = 64;
  vocabulary = 8;
  max_sequences = 2;
  batch_tokens = 4;
  max_model_len = 32;
  is_paged = true;
  page_tokens = 16;
  tokenize = λ text. ok [];
  token_piece = λ t. ok (65 ∷ []);
  is_eog = λ t. ok false;
  is_ready = λ n. ltb n 3;
  forward = λ batch n.
      (ok (record { samples = answers 0 batch; has_logits = leb 2 n; has_elapsed = false }), n + 1);
  clear_sequence = λ s n. (ok tt, n);
}

abbrev three_tokens : List BatchToken
three_tokens =
    record { token = 1; position = 0; sequence = 0; logits = false }
    ∷ record { token = 2; position = 1; sequence = 0; logits = true }
    ∷ record { token = 3; position = 4; sequence = 1; logits = true }
    ∷ []

abbrev new_runner : MiniCudaRunner ℕ
new_runner = record { runtime = 0; reusable = true }

execute-three : execute counting_runtime three_tokens new_runner ≡ (
  ok (record { sequence = pos 0; token = pos 5 } ∷ record { sequence = pos 1; token = pos 5 } ∷ []),
  record { runtime = 1; reusable = true },
)
unfolding execute select_loop check_result check_outputs
execute-three = refl

execute-with_logits :
    execute counting_runtime three_tokens (record { runtime = 2; reusable = true })
    ≡ (err runtime_error, record { runtime = 3; reusable = false })
unfolding execute select_loop check_result check_outputs
execute-with_logits = refl

cleared-runner : (mini_cuda_runner counting_runtime).clear_sequence 0 new_runner ≡ new_runner
unfolding mini_cuda_runner clear_sequence
cleared-runner = refl

execute-IsFailStop_example :
    IsFailStop counting_runtime three_tokens new_runner
      (execute counting_runtime three_tokens new_runner)
execute-IsFailStop_example = execute-IsFailStop counting_runtime three_tokens new_runner
