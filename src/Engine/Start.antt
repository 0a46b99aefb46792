-- ===== src/Engine/Start.antt =====
-- The engine as it is built is balanced, with everything free.
use mini_llm_runtime.Base.{
  ℕ, zero, suc, ◌+◌, ◌/◌, ◌≡◌, refl, sym, ap, subst, inl, inr, ◌&&◌, List, [], ◌∷◌, arith, ltb, leb,
  if◌then◌else◌, length, count, ok,
}
use mini_llm_runtime.Config.{EngineConfig}
use mini_llm_runtime.Config.Limits.{IsWellFormed, validate_iff}
use mini_llm_runtime.BlockPool.Ledger.{construct-IsValid}
use mini_llm_runtime.PrefixIndex.{size}
use mini_llm_runtime.PrefixIndex.Tidy.{empty_index, construct-IsTidy}
use mini_llm_runtime.Runner.{ModelRunner}
use mini_llm_runtime.Engine.{Engine}
use mini_llm_runtime.Engine.Construct.{push_sequences, initial, construct}
use mini_llm_runtime.Engine.Logic.{core, Inv}

count-push_sequences :
    (base n a : ℕ) (free : List ℕ)
    → count a (push_sequences base n free)
      ≡ (if leb base a && ltb a (base + n) then 1 else 0) + count a free
unfolding push_sequences
count-push_sequences base zero a free = ground arith
count-push_sequences base (suc n) a free =
    ground (arith, count-push_sequences base n a ((base + n) ∷ free))

length-push_sequences :
    (base n : ℕ) (free : List ℕ) → length (push_sequences base n free) ≡ n + length free
unfolding push_sequences
length-push_sequences base zero free = omega arith
length-push_sequences base (suc n) free =
    omega (arith, length-push_sequences base n ((base + n) ∷ free))

module _ {R : Type 0} (m : ModelRunner R) (c : EngineConfig) (runner : R) (e : Engine R)
    (made : construct m c runner ≡ ok e) where
  well_formed : IsWellFormed c
  unfolding construct
  well_formed = (validate_iff c).0 (ground (arith, made))

  pub construct-Inv : Inv (core e)
  unfolding construct
  construct-Inv = elim (construct-IsValid (c.context_tokens / c.block_size)) [
    | inl bad ↦ absurd (ground (arith, made, bad.1))
    | inr (_, _, (p, built, valid, tracks, sized, freed)) ↦
        let (index_built, tidy) = construct-IsTidy c.block_size well_formed.block_pos in
        let same : initial m c runner p (empty_index c.block_size) ≡ e =
          ground (arith, made, built, index_built) in
        subst (λ (x : Engine R). Inv (core x)) same
          (record {
            config = well_formed;
            index = tidy;
            block_size = refl;
            pool_valid = valid;
            sized = sized;
            tracked = tracks;
            fit = tt;
            distinct = tt;
            sequences = λ s. ground (arith, count-push_sequences 0 c.max_active s []);
            slots = omega (arith, length-push_sequences 0 c.max_active []);
            cache_sequences =
                λ s. ground (arith, count-push_sequences c.max_active c.prefix_cache_entries s []);
            cache_slots =
                omega (arith, length-push_sequences c.max_active c.prefix_cache_entries []);
          })
  ]

  pub construct-empty : (e.active ≡ []) × (e.waiting ≡ []) × (size e.prefixes ≡ 0)
  unfolding construct
  construct-empty = elim (construct-IsValid (c.context_tokens / c.block_size)) [
    | inl bad ↦ absurd (ground (arith, made, bad.1))
    | inr (_, _, (p, built, _, _, _, _)) ↦
        let (index_built, _) = construct-IsTidy c.block_size well_formed.block_pos in
        let same : initial m c runner p (empty_index c.block_size) ≡ e =
          ground (arith, made, built, index_built) in
        (
          ap (λ (x : Engine R). x.active) (sym same),
          ap (λ (x : Engine R). x.waiting) (sym same),
          ap (λ (x : Engine R). size x.prefixes) (sym same),
        )
  ]
