-- ===== src/Cuda/BatchState/Tests.antt =====
-- Runs of BatchState on two sequences.
use mini_llm_runtime.Base.{pos, true, false, [], ◌∷◌, refl, ◌≡◌, List}
use mini_llm_runtime.Cuda.BatchState.{
  ready, InputToken, BatchState, prepare, prepare_loop, live_tokens, live_sequences,
}
use mini_llm_runtime.Cuda.BatchState.Growth.{IsBatch, prepare-IsBatch}

abbrev two_lengths : BatchState
two_lengths = record {
  limits = record { max_sequences = 2; max_model_len = 8; max_batch_tokens = 4 };
  vocabulary = 10;
  lengths = 3 ∷ 0 ∷ [];
  pending = 0 ∷ 0 ∷ [];
  phase = ready;
}

abbrev three_tokens : List InputToken
three_tokens =
    record { token = pos 7; position = pos 3; sequence = pos 0; logits = false }
    ∷ record { token = pos 2; position = pos 0; sequence = pos 1; logits = true }
    ∷ record { token = pos 9; position = pos 4; sequence = pos 0; logits = true }
    ∷ []

three_tokens-pending : (prepare three_tokens two_lengths).1.pending ≡ 5 ∷ 1 ∷ []
unfolding prepare prepare_loop
three_tokens-pending = refl

live_two : (live_sequences two_lengths.lengths ≡ 1) × (live_tokens two_lengths.lengths ≡ 3)
unfolding live_sequences live_tokens
live_two = (refl, refl)

prepare-IsBatch_example : IsBatch three_tokens two_lengths (prepare three_tokens two_lengths)
prepare-IsBatch_example = prepare-IsBatch three_tokens two_lengths
