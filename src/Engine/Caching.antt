-- ===== src/Engine/Caching.antt =====
-- `cache_prompt` keeps the balance: a prompt that is stored takes a cache sequence and a share of
-- the blocks of its request.
use native.Mathlib.Nat.{div-mul-le_self, mul-mod_left}
use mini_llm_runtime.Base.{
  ℕ, zero, suc, ◌+◌, ◌-◌, ◌*◌, ◌/◌, ◌%◌, ◌<◌, ◌≤◌, min, ◌≡◌, refl, sym, ap, ◌∙◌, subst, Bool, true,
  false, ◌&&◌, ◌||◌, some, List, [], ◌∷◌, arith, ltb, ◌==◌, is_empty, length, length-take, take,
  get_elem?, All-get_elem, div_mono, ok,
}
use mini_llm_runtime.Config.{EngineConfig}
use mini_llm_runtime.BlockPool.{retain}
use mini_llm_runtime.PrefixIndex.{PrefixEntry, PrefixIndex, insert, size}
use mini_llm_runtime.PrefixIndex.Invariant.{IsAligned}
use mini_llm_runtime.Runner.{ModelRunner}
use mini_llm_runtime.Engine.{Request, Active, World, Engine}
use mini_llm_runtime.Engine.Action.{pure, stuck}
use mini_llm_runtime.Engine.Admit.{
  total_blocks, first_blocks, pop_cache_sequence, make_cache_room, prompt_entry, insert_entry,
  store_prompt, cache_prompt, covers,
}
use mini_llm_runtime.Engine.Balance.{IsBalanced, IsFit}
use mini_llm_runtime.Engine.Transfers.{store-IsBalanced}
use mini_llm_runtime.Engine.Logic.{
  Core, core, Inv, Holds, Runs, Runs-by, Runs-since, Runs-reads, Runs-or_stuck, Runs-on_pool,
  Runs-on_prefixes, Runs-bind, Runs-if, Runs-frame, Runs-skip, Runs-weaken, require_reusable-Runs,
  copy_tokens-Runs,
}
use mini_llm_runtime.Engine.Ends.{Around, evict_oldest-Runs}
use mini_llm_runtime.Engine.Admissions.{match_prompt-Runs}

module _ {R : Type 0} (w : World) (m : ModelRunner R)
    (F : EngineConfig → List Active → List ℕ → List Request → Type 0) where
  -- The condition of the loop of `cache_prompt`.
  abbrev pub crowded : ℕ → Core → Bool
  crowded tokens c =
      ltb 0 (size c.prefixes)
      && (is_empty c.free_cache_sequences
          || ltb c.config.prefix_cache_tokens (c.prefixes.token_count + tokens))

  abbrev pub Cleared : ℕ → Core → Type 0
  Cleared tokens c =
      Inv c × F c.config c.active c.free_sequences c.waiting × (crowded tokens c ≡ false)

  -- As many rounds as there are entries are enough.
  pub make_cache_room-Runs :
      (fuel tokens : ℕ)
      → Runs {R = R} (Around w m F fuel) (make_cache_room w m fuel tokens) (λ _. Cleared tokens)
  unfolding make_cache_room
  make_cache_room-Runs zero tokens =
      Runs-weaken (λ c p. (p.0, p.2, ground (arith, p.1))) (λ _ c p. p) Runs-skip
  make_cache_room-Runs (suc fuel) tokens = Runs-bind (Runs-reads (crowded tokens)) λ full.
      Runs-if full
        (λ _.
          Runs-weaken (λ c p. p.0) (λ _ c p. p)
            (Runs-bind (evict_oldest-Runs w m F fuel true λ _ c v. v)
              λ _. make_cache_room-Runs fuel tokens))
        (λ spare. Runs-weaken (λ c p. (p.0.0, p.0.2, sym p.1 ∙ spare)) (λ _ c p. p) Runs-skip)

  module _ (i : ℕ) (item : Active) (config : EngineConfig) (going : item.done ≡ false)
      (there : (c : Core)
        → F c.config c.active c.free_sequences c.waiting
        → (c.config ≡ config) × (get_elem? c.active i ≡ some item)) where
    abbrev Kept : Core → Type 0
    Kept c = Inv c × F c.config c.active c.free_sequences c.waiting

    abbrev Popped : ℕ → Core → Type 0
    Popped s c =
        IsBalanced c.config c.pool c.prefixes c.active c.free_sequences (s ∷ c.free_cache_sequences)
        × F c.config c.active c.free_sequences c.waiting

    pop_cache_sequence-Runs :
        (tokens : ℕ)
        → 0 < config.prefix_cache_entries
        → Runs {R = R} (Cleared tokens) (pop_cache_sequence w m) Popped
    unfolding pop_cache_sequence pure stuck
    pop_cache_sequence-Runs tokens some_entry = record {
      at = λ e p. popped e e.free_cache_sequences refl p;
    }
      where
        popped :
            (e : Engine R) (fs : List ℕ)
            → e.free_cache_sequences ≡ fs
            → Cleared tokens (core e)
            → Holds {R = R} Inv Popped (elim fs [
              | [] ↦ stuck e
              | s ∷ rest ↦ pure s (record e { free_cache_sequences = rest })
            ])
        popped e [] same p = absurd (
            ground (
              arith,
              p.0.cache_slots,
              ap length same,
              ap is_empty same,
              p.2,
              some_entry,
              ap (λ (k : EngineConfig). k.prefix_cache_entries) (there (core e) p.1).0,
            ))
        popped e (s ∷ rest) same p = (
          subst (λ fs. IsBalanced e.config e.pool e.prefixes e.active e.free_sequences fs) same p.0,
          p.1,
        )

    -- What is stored: whole blocks, one at least, of the prompt.
    module _ (tokens : ℕ) (some_tokens : 0 < tokens) (inside : tokens ≤ length item.request.prompt)
        (whole : tokens % config.block_size ≡ 0) where
      abbrev Stored : PrefixEntry → Core → Type 0
      Stored entry c =
          (q : PrefixIndex) × (insert entry c.prefixes ≡ ok q)
          × IsBalanced c.config c.pool q c.active c.free_sequences c.free_cache_sequences
          × F c.config c.active c.free_sequences c.waiting

      enough_blocks :
          (c : Core) (s : ℕ) → Popped s c → tokens / c.config.block_size ≤ length item.blocks
      enough_blocks c s p =
          let fit = All-get_elem (IsFit c.config) c.active i item p.0.fit (there c p.1).1 in
          let fewer : tokens / c.config.block_size ≤ total_blocks c.config item.request =
            div_mono tokens
              (length item.request.prompt + item.request.max_tokens + c.config.block_size - 1)
              c.config.block_size p.0.config.block_pos
              (omega (arith, inside, p.0.config.block_pos)) in
          omega (arith, fewer, fit.owned going)

      entry-IsAligned :
          (c : Core) (s : ℕ)
          → Popped s c
          → IsAligned c.config.block_size
              (prompt_entry w m item s (take (tokens / c.config.block_size) item.blocks) tokens)
      entry-IsAligned c s p =
          let size_tokens : length (take tokens item.request.prompt) ≡ tokens =
            omega (arith, length-take tokens item.request.prompt, inside) in
          (
            omega (arith, size_tokens, some_tokens),
            ap (λ t. t % c.config.block_size) size_tokens
                ∙ ap (λ (k : EngineConfig). tokens % k.block_size) (there c p.1).0
                ∙ whole,
            omega (
              arith,
              length-take (tokens / c.config.block_size) item.blocks,
              enough_blocks c s p,
              ap (λ t. t / c.config.block_size) size_tokens,
            ),
          )

      insert_entry-Runs :
          (entry : PrefixEntry) → Runs {R = R} (Stored entry) (insert_entry w m entry) (λ _. Kept)
      unfolding insert_entry
      insert_entry-Runs entry =
          Runs-on_prefixes _
            λ c (q, inserted, after, kept). (tt, q, rw inserted refl, (after, kept))

      pub store_prompt-Runs :
          0 < config.prefix_cache_entries
          → Runs {R = R} Kept (store_prompt w m item tokens) (λ _. Kept)
      unfolding store_prompt
      store_prompt-Runs some_entry = Runs-bind (Runs-reads λ (c : Core). size c.prefixes) λ fuel.
          Runs-weaken {P = Around w m F fuel} (λ c p. (p.0.0, sym p.1, p.0.1)) (λ _ c p. p)
            (Runs-bind (make_cache_room-Runs fuel tokens) λ _.
              Runs-bind (pop_cache_sequence-Runs tokens some_entry) λ s.
                Runs-bind
                  (Runs-or_stuck
                    (λ (c : Core). first_blocks (tokens / c.config.block_size) item.blocks)
                    λ c p. (
                      take (tokens / c.config.block_size) item.blocks,
                      ground (arith, enough_blocks c s p),
                    ))
                  λ blocks.
                    Runs-bind
                      (Runs-on_pool {Q = λ _. Stored (prompt_entry w m item s blocks tokens)}
                        (retain blocks) λ c p. retained c s blocks p)
                      λ _.
                        Runs-bind (insert_entry-Runs (prompt_entry w m item s blocks tokens)) λ _.
                          Runs-bind (Runs-frame _ λ e. refl) λ _.
                            Runs-bind (require_reusable-Runs w m (λ c p. p.0))
                              λ _. copy_tokens-Runs w m (λ c p. p.0) item.sequence s tokens)
        where
          retained :
              (c : Core) (s : ℕ) (blocks : List ℕ)
              → Popped s c × (first_blocks (tokens / c.config.block_size) item.blocks ≡ some blocks)
              → (a : Unit {0}) × ((retain blocks c.pool).0 ≡ ok a)
                × Stored
                    (prompt_entry w m item s blocks tokens)
                    (record c { pool = (retain blocks c.pool).1 })
          retained c s blocks p =
              let same : take (tokens / c.config.block_size) item.blocks ≡ blocks =
                ground (arith, p.1, enough_blocks c s p.0) in
              let (done, (q, inserted, after)) =
                store-IsBalanced c.config c.pool c.prefixes c.active c.free_sequences
                  (s ∷ c.free_cache_sequences) p.0.0 i (tokens / c.config.block_size) item
                  (prompt_entry w m item s (take (tokens / c.config.block_size) item.blocks) tokens)
                  c.free_cache_sequences (there c p.0.1).1 refl refl (entry-IsAligned c s p.0) in
              subst
                (λ bs.
                  (a : Unit {0}) × ((retain bs c.pool).0 ≡ ok a)
                  × Stored (prompt_entry w m item s bs tokens)
                      (record c { pool = (retain bs c.pool).1 }))
                same (tt, done, (q, inserted, after, p.0.1))

  -- Caching a prompt keeps the balance, and leaves the active requests alone.
  pub cache_prompt-Runs :
      (i : ℕ) (item : Active) (config : EngineConfig)
      → item.done ≡ false
      → ((c : Core)
          → F c.config c.active c.free_sequences c.waiting
          → (c.config ≡ config) × (get_elem? c.active i ≡ some item))
      → Runs {R = R}
          (λ c. Inv c × F c.config c.active c.free_sequences c.waiting)
          (cache_prompt w m item)
          (λ _ c. Inv c × F c.config c.active c.free_sequences c.waiting)
  unfolding cache_prompt
  cache_prompt-Runs i item config going there = Runs-bind (Runs-reads λ (c : Core). c.config) λ own.
      Runs-since (λ c p. p.1 ∙ (there c p.0.1).0)
        λ same.
          Runs-weaken {P = λ c. Inv c × F c.config c.active c.free_sequences c.waiting} (λ c p. p.0)
            (λ _ c p. p)
            (Runs-if (own.prefix_cache_entries == 0 || tokens_of own == 0) (λ _. Runs-skip)
              λ wanted.
                Runs-by (λ (c : Core). size c.prefixes)
                  λ k.
                    Runs-weaken {P = Around w m F k} (λ c p. (p.0.0, p.1, p.0.1)) (λ _ c p. p)
                      (Runs-bind (match_prompt-Runs w m F k (tokens_of own) item.request)
                        λ existing.
                          Runs-weaken
                            {P = λ c. Inv c × F c.config c.active c.free_sequences c.waiting}
                            (λ c p. (p.0.0, p.0.2)) (λ _ c p. p)
                            (Runs-if (covers w m (tokens_of own) existing) (λ _. Runs-skip)
                              λ _.
                                store_prompt-Runs i item config going there (tokens_of own)
                                  (ground (arith, wanted))
                                  (omega (
                                    arith,
                                    div-mul-le_self
                                        (min (length item.request.prompt) own.prefix_cache_tokens)
                                        own.block_size,
                                  ))
                                  (ap (λ (k : EngineConfig). tokens_of own % k.block_size)
                                      (sym same)
                                    ∙ mul-mod_left
                                        (min (length item.request.prompt) own.prefix_cache_tokens
                                          / own.block_size)
                                        own.block_size)
                                  (ground (
                                    arith,
                                    wanted,
                                    ap (λ (k : EngineConfig). k.prefix_cache_entries) same,
                                  )))))
    where
      tokens_of : EngineConfig → ℕ
      tokens_of own =
          min (length item.request.prompt) own.prefix_cache_tokens / own.block_size * own.block_size
