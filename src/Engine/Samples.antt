-- ===== src/Engine/Samples.antt =====
-- What `iteration` requires of a runner's samples before it publishes a token of any.
use mini_llm_runtime.Base.{
  ℕ, ◌<◌, ◌≤◌, ℤ, pos, negsuc, pos_part, ◌≡◌, refl, true, false, List, [], ◌∷◌, map, arith,
  if◌then◌else◌, contains, count, All, ok,
}
use mini_llm_runtime.Runner.{Sample}
use mini_llm_runtime.Engine.Batch.{is_negative, check_samples}

-- The sequence of a sample.
abbrev pub sampled_sequence : Sample → ℕ
sampled_sequence s = pos_part s.sequence

-- A sample for a sequence that is expected, with a token of the vocabulary.
pub record IsGood (vocab_size : ℕ) (expected : List ℕ) (s : Sample) : Type 0 where
  pub sequence : s.sequence ≡ pos (sampled_sequence s)
  pub token : s.token ≡ pos (pos_part s.token)
  pub known : pos_part s.token < vocab_size
  pub asked : contains (sampled_sequence s) expected ≡ true

pos_of : (z : ℤ) → is_negative z ≡ false → z ≡ pos (pos_part z)
pos_of (pos n) h = refl
pos_of (negsuc n) h = cc

check_samples-cons :
    (max_active vocab_size : ℕ) (expected sampled : List ℕ) (s : Sample) (samples : List Sample)
    → check_samples max_active vocab_size expected sampled (s ∷ samples) ≡ ok tt
    → IsGood vocab_size expected s
      × (contains (sampled_sequence s) sampled ≡ false)
      × (check_samples max_active vocab_size expected (sampled_sequence s ∷ sampled) samples
          ≡ ok tt)
unfolding check_samples
check_samples-cons max_active vocab_size expected sampled s samples h = (
  record {
    sequence = pos_of s.sequence (ground (arith, h));
    token = pos_of s.token (ground (arith, h));
    known = ground (arith, h);
    asked = ground (arith, h);
  },
  ground (arith, h),
  ground (arith, h),
)

-- If the check of the samples returns, then each is for a sequence that is expected, its token is in
-- the vocabulary, and no sequence has two.
pub check_samples-IsGood :
    (max_active vocab_size : ℕ) (expected sampled : List ℕ) (samples : List Sample)
    → check_samples max_active vocab_size expected sampled samples ≡ ok tt
    → All (IsGood vocab_size expected) samples
      × ((a : ℕ) → count a (map sampled_sequence samples) ≤ (if contains a sampled then 0 else 1))
check_samples-IsGood max_active vocab_size expected sampled [] h = (tt, λ a. omega arith)
check_samples-IsGood max_active vocab_size expected sampled (s ∷ samples) h =
    let (good, new, rest) = check_samples-cons max_active vocab_size expected sampled s samples h in
    let (all_good, once) =
      check_samples-IsGood max_active vocab_size expected (sampled_sequence s ∷ sampled) samples
        rest in
    ((good, all_good), λ a. ground (arith, once a, new))
