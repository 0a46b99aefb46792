-- ===== src/Config/MiniCuda.antt =====
-- `validate_mini_cuda_config` and `checked_kv_capacity`.
use Prim.Native.String.{String}
use text.Mathlib.TextEquality.{eq_iff}
use mini_llm_runtime.Base.{
  ℕ, ◌*◌, ◌%◌, ◌≤◌, ◌<◌, ◌≡◌, refl, ◌↔◌, ◌⊎◌, inl, inr, arith, Result-cases, ok,
}
use mini_llm_runtime.Config.{
  EngineConfig, ModelConfig, CudaKvLayout, contiguous, paged, kv_layout_name, parse_kv_layout,
  checked_kv_capacity, check_layout, ceil_div, value_or, validate_mini_cuda_config, kv_page_tokens,
}
use mini_llm_runtime.Config.Limits.{IsWellFormed, validate_iff}

-- A layout's name, and no other text, is parsed as that layout.
pub parse_kv_layout_iff :
    (name : String) (l : CudaKvLayout) → (parse_kv_layout name ≡ ok l) ↔ (name ≡ kv_layout_name l)
unfolding parse_kv_layout kv_layout_name
parse_kv_layout_iff name contiguous =
    (λ h. ground (arith, eq_iff name "contiguous"), λ h. ground (arith, eq_iff name "contiguous"))
parse_kv_layout_iff name paged = (λ h. ground (arith, eq_iff name "paged"), λ h. rw h)

abbrev pub PagedBounds : ℕ → ℕ → ℕ → ℕ → Type 0
PagedBounds s l c p =
    ((1 ≤ s) × (s ≤ 4))
    × ((1 ≤ l) × (l ≤ 2048))
    × (p ≡ kv_page_tokens)
    × (0 < c)
    × (c % p ≡ 0)
    × (c ≤ s * ceil_div l p * p)

-- The capacity of the paged layout is accepted, as it is, exactly for 1 to 4 sequences of 1 to
-- 2048 tokens, pages of 16 tokens, and a positive number of whole pages that the sequences can
-- address.
pub checked_kv_capacity-paged :
    (s l c p n : ℕ) → (checked_kv_capacity paged s l c p ≡ ok n) ↔ ((n ≡ c) × PagedBounds s l c p)
unfolding checked_kv_capacity
checked_kv_capacity-paged s l c p n = (
  λ h. (
    ground arith,
    (
      (ground arith, ground arith),
      (ground arith, ground arith),
      ground arith,
      ground arith,
      ground arith,
      ground arith,
    ),
  ),
  λ h. ground arith,
)

-- What a start with the own CUDA backend can rely on: a well-formed engine configuration within
-- 4 sequences, 128 batch tokens and 2048 tokens a sequence, no prefix cache, and credits that the
-- chosen layout can hold.
pub record IsServable (m : ModelConfig) (e : EngineConfig) : Type 0 where
  pub well_formed : IsWellFormed e
  pub small : (e.max_active ≤ 4) × (e.batch_tokens ≤ 128) × (e.max_model_len ≤ 2048)
  pub no_cache : (e.prefix_cache_entries ≡ 0) × (e.prefix_cache_tokens ≡ 0)
  pub credits :
      ((value_or contiguous m.cuda_kv_layout ≡ contiguous)
        × (e.context_tokens ≤ e.max_active * e.max_model_len))
      ⊎ ((value_or contiguous m.cuda_kv_layout ≡ paged)
          × PagedBounds e.max_active e.max_model_len e.context_tokens e.block_size)

check_layout-credits :
    (l : CudaKvLayout) (e : EngineConfig)
    → check_layout l e ≡ ok tt
    → ((l ≡ contiguous) × (e.context_tokens ≤ e.max_active * e.max_model_len))
      ⊎ ((l ≡ paged) × PagedBounds e.max_active e.max_model_len e.context_tokens e.block_size)
unfolding check_layout
check_layout-credits contiguous e h = inl (refl, ground arith)
check_layout-credits paged e h =
    let r = checked_kv_capacity paged e.max_active e.max_model_len e.context_tokens e.block_size in
    elim (Result-cases r) [
      | inl (n, good) ↦ inr (refl, ((checked_kv_capacity-paged _ _ _ _ n).0 good).1)
      | inr (x, bad) ↦ absurd (cc)
    ]

-- If `validate_mini_cuda_config` returns, all of `IsServable` holds.
pub validate_mini_cuda-IsServable :
    (m : ModelConfig) (e : EngineConfig) → validate_mini_cuda_config m e ≡ ok tt → IsServable m e
unfolding validate_mini_cuda_config
validate_mini_cuda-IsServable m e h = record {
  well_formed = (validate_iff e).0 (ground arith);
  small = ground arith;
  no_cache = ground arith;
  credits = check_layout-credits (value_or contiguous m.cuda_kv_layout) e (ground arith);
}
