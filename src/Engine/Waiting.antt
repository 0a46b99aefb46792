-- ===== src/Engine/Waiting.antt =====
-- `admit` and `admit_waiting` return or throw with the balance kept, and have no undefined behaviour.
use mini_llm_runtime.Base.{
  All, All-append, ℕ, zero, suc, ◌+◌, ◌-◌, ◌/◌, ◌≤◌, min, ◌≡◌, refl, sym, ap, ◌∙◌, subst, true,
  false, ◌||◌, Option, none, some, List, [], ◌∷◌, ◌++◌, arith, leb, is_empty, length, length-append,
  take, get_elem?, get_elem_some, div_mono, ok,
}
use mini_llm_runtime.Config.{EngineConfig}
use mini_llm_runtime.BlockPool.{BlockPool, allocate, retain}
use mini_llm_runtime.PrefixIndex.{PrefixEntry, PrefixMatch, find_entry, at, size}
use mini_llm_runtime.PrefixIndex.Tidy.{at-found}
use mini_llm_runtime.Runner.{ModelRunner}
use mini_llm_runtime.Engine.{Request, Active, World, Engine}
use mini_llm_runtime.Engine.Action.{pure, stuck}
use mini_llm_runtime.Engine.Admit.{
  total_blocks, shared_blocks, reused_tokens, first_blocks, pop_sequence, share_blocks,
  publish_item, admit_with, allocate_blocks, copy_prefix, admit, admit_loop, admit_waiting,
}
use mini_llm_runtime.Engine.Balance.{IsBalanced}
use mini_llm_runtime.Engine.Grants.{IsMatched, admit-IsBalanced}
use mini_llm_runtime.Engine.Logic.{
  observe-Runs, Runs-since, Runs-by, Holds, Core, core, Inv, Runs, Runs-pure, Runs-gets, Runs-reads,
  Runs-or_stuck, Runs-lift_known, Runs-on_pool, Runs-bind, Runs-if, Runs-modify, Runs-frame,
  Runs-skip, Runs-weaken, require_reusable-Runs, copy_tokens-Runs,
}
use mini_llm_runtime.Engine.Ends.{Around}
use mini_llm_runtime.Engine.Admissions.{
  match_prompt-Runs, make_room-Runs, Granted, Shared, IsServed, allocate-cases, fresh-Shared,
  retain-Shared,
}

-- The blocks of a match are no more than the request needs.
shared-le-total :
    (c : Core) (request : Request) (found : Option PrefixMatch)
    → Inv c
    → IsMatched c.prefixes (min (length request.prompt) (length request.prompt - 1)) found
    → shared_blocks c.config found ≤ total_blocks c.config request
shared-le-total c request none v m = omega arith
shared-le-total c request (some found) v (x, _, _, _, small) =
    div_mono found.tokens (length request.prompt + request.max_tokens + c.config.block_size - 1)
      c.config.block_size v.config.block_pos (omega (arith, small, v.config.block_pos))

-- The tokens of a match are no more than the prompt has.
reused-le :
    (c : Core) (request : Request) (found : Option PrefixMatch)
    → IsMatched c.prefixes (min (length request.prompt) (length request.prompt - 1)) found
    → reused_tokens found ≤ length request.prompt
reused-le c request none m = omega arith
reused-le c request (some found) (x, _, _, _, small) = omega (arith, small)

-- The blocks of a match are there.
matched_blocks :
    (c : Core) (limit : ℕ) (found : PrefixMatch) (source : PrefixEntry) {pool : BlockPool}
    {fs : List ℕ}
    → IsBalanced c.config pool c.prefixes c.active fs c.free_cache_sequences
    → IsMatched c.prefixes limit (some found)
    → at found.sequence c.prefixes ≡ ok source
    → (find_entry found.sequence c.prefixes.entries ≡ some source)
      × (found.tokens / c.config.block_size ≤ length source.blocks)
matched_blocks c limit found source v (x, there, long, _, _) read =
    let same : x ≡ source = cc (read, at-found found.sequence c.prefixes x there) in
    let (_, _, blocks) = v.index.valid.aligned found.sequence x there in
    let fewer : found.tokens / c.config.block_size ≤ length x.tokens / c.config.block_size =
      div_mono found.tokens (length x.tokens) c.config.block_size v.config.block_pos long in
    let whole : length x.blocks ≡ length x.tokens / c.config.block_size =
      blocks ∙ ap (λ b. length x.tokens / b) v.block_size in
    subst
      (λ (y : PrefixEntry).
        (find_entry found.sequence c.prefixes.entries ≡ some y)
        × (found.tokens / c.config.block_size ≤ length y.blocks))
      same (there, omega (arith, fewer, whole))

first_blocks-some : (n : ℕ) (bs : List ℕ) → n ≤ length bs → first_blocks n bs ≡ some (take n bs)
first_blocks-some n bs h = ground (arith, h)

-- A request takes the sequence that it needs.
popped-Granted :
    (c : Core) (fresh rest : List ℕ) (s n : ℕ)
    → Granted fresh (s ∷ rest) n c
    → Granted fresh (s ∷ rest) n (record c { free_sequences = rest })
popped-Granted c fresh rest s n g = record {
  before = g.before;
  balanced = g.balanced;
  valid = g.valid;
  same = g.same;
  tracked = g.tracked;
  sized = g.sized;
  distinct = g.distinct;
  apart = g.apart;
}

module _ {R : Type 0} (w : World) (m : ModelRunner R) (P : Active → Type 0)
    (new : (item : Active) → item.done ≡ false → P item) (request : Request)
    (ws : List Request) where
  abbrev limit : ℕ
  limit = min (length request.prompt) (length request.prompt - 1)

  -- What is known once the blocks that are missing are counted.
  abbrev Counted : Option PrefixMatch → ℕ → Core → Type 0
  Counted found n c =
      IsMatched c.prefixes limit found
      × (shared_blocks c.config found + n ≡ total_blocks c.config request)
      × All P c.active

  abbrev Popped : List ℕ → Option PrefixMatch → ℕ → ℕ → Core → Type 0
  Popped fresh found n s c =
      Granted fresh (s ∷ c.free_sequences) n c × Counted found n c × (c.waiting ≡ ws)

  abbrev Served : List ℕ → List ℕ → Option PrefixMatch → ℕ → ℕ → Core → Type 0
  Served shared fresh found n s c =
      Shared shared fresh (s ∷ c.free_sequences) n (shared_blocks c.config found) c
      × (shared_blocks c.config found + n ≡ total_blocks c.config request)
      × (c.waiting ≡ ws)
      × All P c.active

  abbrev Left : Core → Type 0
  Left c = Inv c × (c.waiting ≡ ws) × All P c.active

  allocate_blocks-Runs :
      (n : ℕ) (found : Option PrefixMatch)
      → Runs {R = R}
          (λ c.
            (Inv c × (is_empty c.free_sequences ≡ false) × (c.waiting ≡ ws)) × Counted found n c)
          (allocate_blocks w m n)
          (λ out c. IsServed ws out n c × Counted found n c)
  allocate_blocks-Runs n found =
      Runs-on_pool {Q = λ out c. IsServed ws out n c × Counted found n c}
        (λ p. let (ids, q) = allocate n p in (ok ids, q))
        λ c p. (
          (allocate n c.pool).0,
          refl,
          (
            subst
                (λ us.
                  IsServed us (allocate n c.pool).0 n (record c { pool = (allocate n c.pool).1 }))
                p.0.2 (allocate-cases n c p.0.0 p.0.1),
            p.1,
          ),
        )

  pop_sequence-Runs :
      (n : ℕ) (found : Option PrefixMatch) (fresh : List ℕ)
      → Runs {R = R}
          (λ c. IsServed ws (some fresh) n c × Counted found n c)
          (pop_sequence w m)
          (Popped fresh found n)
  unfolding pop_sequence pure stuck
  pop_sequence-Runs n found fresh = record { at = λ e p. popped e e.free_sequences refl p }
    where
      popped :
          (e : Engine R) (fs : List ℕ)
          → e.free_sequences ≡ fs
          → IsServed ws (some fresh) n (core e) × Counted found n (core e)
          → Holds {R = R} Inv
              (Popped fresh found n)
              (elim fs [ [] ↦ stuck e | s ∷ rest ↦ pure s (record e { free_sequences = rest }) ])
      popped e [] same p = absurd (cc (p.0.1, same))
      popped e (s ∷ rest) same p = (
        popped-Granted (core e) fresh rest s n
            (subst (λ fs. Granted fresh fs n (core e)) same p.0.0),
        p.1,
        p.0.2,
      )

  share_blocks-Runs :
      (n s : ℕ) (fresh : List ℕ) (found : Option PrefixMatch)
      → Runs {R = R}
          (Popped fresh found n s)
          (share_blocks w m found)
          (λ shared. Served shared fresh found n s)
  unfolding share_blocks
  share_blocks-Runs n s fresh none =
      Runs-weaken (λ c p. (fresh-Shared c n fresh (s ∷ c.free_sequences) p.0, p.1.1, p.2, p.1.2))
        (λ _ c p. p) (Runs-pure [])
  share_blocks-Runs n s fresh (some found) =
      Runs-bind
        (Runs-lift_known (λ (c : Core). at found.sequence c.prefixes)
          λ c p. let (x, there, _, _, _) = p.1.0 in (x, at-found found.sequence c.prefixes x there))
        λ source.
          Runs-bind
            (Runs-or_stuck
              (λ (c : Core). first_blocks (found.tokens / c.config.block_size) source.blocks)
              λ c p.
                let (_, long) = matched_blocks c limit found source p.0.0.balanced p.0.1.0 p.1 in
                (
                  take (found.tokens / c.config.block_size) source.blocks,
                  first_blocks-some _ _ long,
                ))
            λ shared.
              Runs-bind
                (Runs-on_pool {Q = λ _. Served shared fresh (some found) n s} (retain shared) λ c p.
                  let (there, long) =
                    matched_blocks c limit found source p.0.0.0.balanced p.0.0.1.0 p.0.1 in
                  let (retained, after) =
                    retain-Shared c n fresh (s ∷ c.free_sequences) p.0.0.0
                      (found.tokens / c.config.block_size) found.sequence source there long in
                  let same : take (found.tokens / c.config.block_size) source.blocks ≡ shared = cc (
                    p.1,
                    first_blocks-some (found.tokens / c.config.block_size) source.blocks long,
                  ) in
                  (
                    tt,
                    subst (λ bs. (retain bs c.pool).0 ≡ ok tt) same retained,
                    (
                      subst
                          (λ bs.
                            Shared bs fresh (s ∷ c.free_sequences) n
                              (found.tokens / c.config.block_size)
                              (record c { pool = (retain bs c.pool).1 }))
                          same after,
                      p.0.0.1.1,
                      p.0.0.2,
                      p.0.0.1.2,
                    ),
                  ))
                λ _. Runs-bind (Runs-frame _ λ e. refl) λ _. Runs-pure shared

  publish_item-Runs :
      (n s : ℕ) (fresh shared : List ℕ) (found : Option PrefixMatch) (item : Active)
      → item.sequence ≡ s
      → item.request ≡ request
      → item.blocks ≡ shared ++ fresh
      → item.done ≡ false
      → item.processed ≤ length item.request.prompt
      → Runs {R = R} (Served shared fresh found n s) (publish_item w m found item) (λ _. Left)
  unfolding publish_item
  publish_item-Runs n s fresh shared found item named asked blocks going begun =
      Runs-bind
        (Runs-modify {Q = Left} _ λ e p. (
          admit-IsBalanced e.config p.0.before e.prefixes e.active (s ∷ e.free_sequences)
              e.free_cache_sequences p.0.balanced item shared fresh e.free_sequences e.pool
              (ap (λ k. k ∷ e.free_sequences) (sym named)) blocks going begun
              (omega (
                arith,
                length-append shared fresh,
                p.0.sized,
                p.1,
                ap (total_blocks e.config) asked,
              ))
              p.0.distinct p.0.valid p.0.same p.0.tracked,
          p.2,
          All-append P e.active (item ∷ []) p.3 (new item going, tt),
        ))
        λ _. Runs-bind (Runs-frame _ λ e. refl) λ _.
          Runs-bind (require_reusable-Runs w m (λ c p. p.0))
            λ _. Runs-bind (copied found) λ _. Runs-pure true
    where
      copied :
          (o : Option PrefixMatch) → Runs {R = R} Left (copy_prefix w m o item.sequence) (λ _. Left)
      copied none = Runs-skip
      copied (some p) = copy_tokens-Runs w m (λ c q. q.0) p.sequence item.sequence p.tokens

  admit_with-Runs :
      (n : ℕ) (found : Option PrefixMatch) (out : Option (List ℕ))
      → Runs {R = R}
          (λ c. IsServed ws out n c × Counted found n c)
          (admit_with w m request found out)
          (λ _. Left)
  unfolding admit_with
  admit_with-Runs n found none =
      Runs-weaken (λ c p. (p.0.0, p.0.1, p.1.2)) (λ _ c p. p) (Runs-pure false)
  admit_with-Runs n found (some fresh) =
      Runs-since (λ c p. reused-le c request found p.1.0)
        λ begun. Runs-bind (pop_sequence-Runs n found fresh) λ s.
          Runs-bind (share_blocks-Runs n s fresh found)
            λ shared. publish_item-Runs n s fresh shared found _ refl refl refl refl begun

  -- A request is admitted whole, or it holds nothing; the waiting requests stay.
  pub admit-Runs :
      Runs {R = R}
        (λ c. Inv c × (is_empty c.free_sequences ≡ false) × (c.waiting ≡ ws) × All P c.active)
        (admit w m request)
        (λ _. Left)
  unfolding admit
  admit-Runs =
      Runs-by (λ (c : Core). size c.prefixes)
        λ k.
          Runs-weaken {P = Around w m Going k} (λ c p. (p.0.0, p.1, (p.0.1, p.0.2, p.0.3)))
            (λ _ c p. p)
            (Runs-bind (match_prompt-Runs w m Going k (length request.prompt - 1) request) λ first.
              Runs-bind (Runs-reads (λ (c : Core). size c.prefixes)) λ fuel.
                Runs-weaken (λ c p. ((p.0.0.0, sym p.1, p.0.0.2), p.0.1)) (λ _ c p. p)
                  (Runs-bind (make_room-Runs w m Going fuel request first) λ found.
                    Runs-bind
                      (Runs-reads
                        λ (c : Core). total_blocks c.config request - shared_blocks c.config found)
                      λ missing.
                        Runs-weaken
                          (λ c p. (
                            (p.0.0, p.0.1.0, p.0.1.1),
                            (
                              p.0.2,
                              omega (arith, p.1, shared-le-total c request found p.0.0 p.0.2),
                              p.0.1.2,
                            ),
                          ))
                          (λ _ c p. p)
                          (Runs-bind (allocate_blocks-Runs missing found)
                            λ fresh. admit_with-Runs missing found fresh)))
    where
      Going : EngineConfig → List Active → List ℕ → List Request → Type 0
      Going c items fs us = (is_empty fs ≡ false) × (us ≡ ws) × All P items

module _ {R : Type 0} (w : World) (m : ModelRunner R) (P : Active → Type 0)
    (new : (item : Active) → item.done ≡ false → P item) where
  -- The balance, and the condition on each active request.
  abbrev pub Kept : Core → Type 0
  Kept c = Inv c × All P c.active

  admit_loop-Runs : (n i now : ℕ) → Runs {R = R} Kept (admit_loop w m n i now) (λ _. Kept)
  unfolding admit_loop
  admit_loop-Runs zero i now = Runs-skip
  admit_loop-Runs (suc n) i now =
      Runs-bind (Runs-reads λ (c : Core). leb (length c.waiting) i || is_empty c.free_sequences)
        λ over.
          Runs-if over (λ _. Runs-weaken (λ c p. p.0) (λ _ c p. p) Runs-skip)
            λ going.
              Runs-by (λ (c : Core). c.waiting)
                λ ws.
                  Runs-bind
                    (Runs-or_stuck (λ (c : Core). get_elem? c.waiting i)
                      λ c p. get_elem_some c.waiting i (ground (arith, p.0.1, going)))
                    λ request.
                      Runs-weaken
                        {P = λ c.
                          Inv c
                          × (is_empty c.free_sequences ≡ false)
                          × (c.waiting ≡ ws)
                          × All P c.active}
                        (λ c p. (p.0.0.0.0, ground (arith, p.0.0.1, going), p.0.1, p.0.0.0.1))
                        (λ _ c p. p)
                        (Runs-bind (admit-Runs w m P new request ws) λ admitted.
                          Runs-bind (Runs-gets _) λ reserve_ms.
                            Runs-weaken {P = Kept} (λ c p. (p.0, p.2)) (λ _ c v. v)
                              (Runs-if admitted
                                (λ _.
                                  Runs-bind (Runs-modify {Q = Kept} _ λ e p. p)
                                    λ _. admit_loop-Runs n i now)
                                λ _. Runs-if _ (λ _. Runs-skip) λ _. admit_loop-Runs n (i + 1) now))

  pub admit_waiting-Runs : Runs {R = R} Kept (admit_waiting w m) (λ _. Kept)
  unfolding admit_waiting
  admit_waiting-Runs = Runs-bind (observe-Runs) λ n.
      Runs-bind (Runs-modify {Q = Kept} _ λ e v. v)
        λ _. Runs-bind (Runs-gets _) λ count. admit_loop-Runs count 0 (w.clock n)
