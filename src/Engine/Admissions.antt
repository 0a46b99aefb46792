-- ===== src/Engine/Admissions.antt =====
-- Admission keeps the balance: a request that is admitted holds a sequence and the credits for its
-- whole length, and one that is not holds nothing.
use mini_llm_runtime.Base.{
  ℕ, zero, suc, ◌+◌, ◌-◌, ◌<◌, ◌≤◌, min, ◌≡◌, refl, sym, ◌∙◌, subst, inl, inr, ◌⊎◌, true, false,
  ◌&&◌, Option, none, some, List, [], ◌∷◌, ◌++◌, arith, dec_lt, ltb, is_empty, length, length-take,
  take, count, count_append, count-take, IsDistinct, u64_mod, ok,
}
use mini_llm_runtime.Config.{EngineConfig}
use mini_llm_runtime.BlockPool.{BlockPool, allocate, retain, capacity, free_count}
use mini_llm_runtime.BlockPool.Invariant.{IsValid as IsValidPool}
use mini_llm_runtime.BlockPool.Ledger.{holders, Tracks, allocate-Tracks, allocate-none}
use mini_llm_runtime.PrefixIndex.{PrefixEntry, PrefixMatch, find_entry, match, size}
use mini_llm_runtime.PrefixIndex.Entries.{All-find_entry, total-find}
use mini_llm_runtime.Runner.{ModelRunner}
use mini_llm_runtime.Engine.{Request, Active, World}
use mini_llm_runtime.Engine.Admit.{total_blocks, shared_blocks, match_prompt, make_room}
use mini_llm_runtime.Engine.Balance.{IsBalanced, cached_by, ledger, holders-ledger, holders-room}
use mini_llm_runtime.Engine.Transfers.{retain-take}
use mini_llm_runtime.Engine.Grants.{IsMatched, match-IsBalanced}
use mini_llm_runtime.Engine.Logic.{
  Core, Inv, Runs, Runs-pure, Runs-reads, Runs-on_prefixes, Runs-bind, Runs-if, Runs-weaken,
}
use mini_llm_runtime.Engine.Ends.{Around, evict_oldest-Runs}

-- The condition of the loop of `admit`.
abbrev pub IsShort : Request → Option PrefixMatch → Core → Type 0
IsShort request found c =
    (ltb (free_count c.pool) (total_blocks c.config request - shared_blocks c.config found)
      && ltb 0 (size c.prefixes))
    ≡ true

module _ {R : Type 0} (w : World) (m : ModelRunner R)
    (F : EngineConfig → List Active → List ℕ → List Request → Type 0) where
  -- A match keeps the balance, and what it names is there.
  pub match_prompt-Runs :
      (n max_reuse : ℕ) (request : Request)
      → Runs {R = R} (Around w m F n) (match_prompt w m request max_reuse) (λ found c.
        Around w m F n c × IsMatched c.prefixes (min (length request.prompt) max_reuse) found)
  match_prompt-Runs n max_reuse request =
      Runs-on_prefixes (match request.cache_namespace request.prompt max_reuse) λ c p.
        let (out, q, matched, after, there, sized) =
          match-IsBalanced c.config c.pool c.prefixes c.active c.free_sequences
            c.free_cache_sequences p.0 request.cache_namespace request.prompt max_reuse in
        (out, q, matched, ((after, sized ∙ p.1, p.2), there))

  abbrev pub Roomy : Request → Option PrefixMatch → Core → Type 0
  Roomy request found c =
      Inv c
      × F c.config c.active c.free_sequences c.waiting
      × IsMatched c.prefixes (min (length request.prompt) (length request.prompt - 1)) found
      × ¬ (IsShort request found c)

  -- What the loop of `admit` makes room with; as many rounds as there are entries are enough.
  pub make_room-Runs :
      (fuel : ℕ) (request : Request) (found : Option PrefixMatch)
      → let limit = min (length request.prompt) (length request.prompt - 1) in
        Runs
          (λ c. Around w m F fuel c × IsMatched c.prefixes limit found)
          (make_room w m fuel request found)
          (Roomy request)
  unfolding make_room
  make_room-Runs zero request found =
      Runs-weaken (λ c p. (p.0.0, p.0.2, p.1, λ short. ground (arith, short, p.0.1))) (λ _ c p. p)
        (Runs-pure {Q = Roomy request} found)
  make_room-Runs (suc fuel) request found =
      Runs-bind
        (Runs-reads λ (c : Core).
          ltb (free_count c.pool) (total_blocks c.config request - shared_blocks c.config found)
          && ltb 0 (size c.prefixes))
        λ short.
          Runs-if short
            (λ _.
              Runs-weaken (λ c p. p.0.0) (λ _ c p. p)
                (Runs-bind (evict_oldest-Runs w m F fuel true λ _ c v. v) λ _.
                  Runs-bind (match_prompt-Runs fuel (length request.prompt - 1) request)
                    λ again. make_room-Runs fuel request again))
            (λ enough.
              Runs-weaken (λ c p. (p.0.0.0, p.0.0.2, p.0.1, λ short. cc (p.1, short, enough)))
                (λ _ c p. p) (Runs-pure {Q = Roomy request} found))

-- New blocks are entered into the ledger as one more table, beside what was balanced before.
pub record Granted (fresh fs : List ℕ) (n : ℕ) (c : Core) : Type 0 where
  pub before : BlockPool
  pub balanced : IsBalanced c.config before c.prefixes c.active fs c.free_cache_sequences
  pub valid : IsValidPool c.pool
  pub same : capacity c.pool ≡ capacity before
  pub tracked : Tracks (fresh ∷ ledger c.active c.prefixes.entries) c.pool
  pub sized : length fresh ≡ n
  pub distinct : IsDistinct fresh
  pub apart : (a : ℕ) → (count a fresh ≡ 0) ⊎ (holders a (ledger c.active c.prefixes.entries) ≡ 0)

-- The shared blocks are entered as well.
pub record Shared (shared fresh fs : List ℕ) (n k : ℕ) (c : Core) : Type 0 where
  pub before : BlockPool
  pub balanced : IsBalanced c.config before c.prefixes c.active fs c.free_cache_sequences
  pub valid : IsValidPool c.pool
  pub same : capacity c.pool ≡ capacity before
  pub tracked : Tracks (shared ∷ fresh ∷ ledger c.active c.prefixes.entries) c.pool
  pub sized : length shared + length fresh ≡ k + n
  pub distinct : IsDistinct (shared ++ fresh)

abbrev pub IsServed : List Request → Option (List ℕ) → ℕ → Core → Type 0
IsServed ws none n c = Inv c × (c.waiting ≡ ws)
IsServed ws (some fresh) n c =
    Granted fresh c.free_sequences n c × (is_empty c.free_sequences ≡ false) × (c.waiting ≡ ws)

module _ (n : ℕ) (c : Core) (v : Inv c) where
  pub allocate-cases :
      (is_empty c.free_sequences ≡ false)
      → let (ids, q) = allocate n c.pool in IsServed c.waiting ids n (record c { pool = q })
  allocate-cases some_free = elim (dec_lt (free_count c.pool) n) [
    | yes short ↦
        subst
          (λ (r : Option (List ℕ) × BlockPool). IsServed c.waiting r.0 n (record c { pool = r.1 }))
          (sym (allocate-none n c.pool short)) (v, refl)
    | no room ↦
        let tables = ledger c.active c.prefixes.entries in
        let (ids, q, served, sized, distinct, apart, tracks, valid, _, same) =
          allocate-Tracks n c.pool tables v.pool_valid v.tracked (omega (arith, room)) in
        subst
          (λ (r : Option (List ℕ) × BlockPool). IsServed c.waiting r.0 n (record c { pool = r.1 }))
          (sym served)
          (
            record {
              before = c.pool;
              balanced = v;
              valid = valid;
              same = same;
              tracked = tracks;
              sized = sized;
              distinct = distinct;
              apart = apart;
            },
            some_free,
            refl,
          )
  ]

module _ (c : Core) (n : ℕ) (fresh fs : List ℕ) (g : Granted fresh fs n c) where
  -- Nothing is shared.
  pub fresh-Shared : Shared [] fresh fs n 0 c
  fresh-Shared = record {
    before = g.before;
    balanced = g.balanced;
    valid = g.valid;
    same = g.same;
    tracked = λ a. omega (arith, g.tracked a);
    sized = omega (arith, g.sized);
    distinct = g.distinct;
  }

  -- The first blocks of an entry are retained.
  module _ (k s : ℕ) (x : PrefixEntry) (found : find_entry s c.prefixes.entries ≡ some x)
      (long : k ≤ length x.blocks) where
    room : (a : ℕ) → holders a (fresh ∷ ledger c.active c.prefixes.entries) + 1 < u64_mod
    room a = elim (g.apart a) [
      | inl none_new ↦ omega (arith, none_new, holders-room g.balanced a)
      | inr none_old ↦ omega (arith, none_old, g.distinct a)
    ]

    cached : (a : ℕ) → count a x.blocks ≤ holders a (ledger c.active c.prefixes.entries)
    cached a = omega (
      arith,
      holders-ledger a c.active c.prefixes.entries,
      total-find (cached_by a) s c.prefixes.entries x found,
    )

    pub retain-Shared :
        ((retain (take k x.blocks) c.pool).0 ≡ ok tt)
        × Shared
            (take k x.blocks)
            fresh
            fs
            n
            k
            (record c { pool = (retain (take k x.blocks) c.pool).1 })
    retain-Shared =
        let once : IsDistinct x.blocks =
          All-find_entry (λ e. IsDistinct e.blocks) s c.prefixes.entries x g.balanced.distinct
            found in
        let (done, valid, tracks, same) =
          retain-take c.pool (fresh ∷ ledger c.active c.prefixes.entries) x.blocks k g.valid
            g.tracked room once (λ a. omega (arith, cached a)) in
        (
          done,
          record {
            before = g.before;
            balanced = g.balanced;
            valid = valid;
            same = same ∙ g.same;
            tracked = tracks;
            sized = omega (arith, g.sized, length-take k x.blocks);
            distinct = λ a. elim (g.apart a) [
              | inl none_new ↦ omega (
                arith,
                none_new,
                count_append a (take k x.blocks) fresh,
                count-take a k x.blocks,
                once a,
              )
              | inr none_old ↦ omega (
                arith,
                none_old,
                count_append a (take k x.blocks) fresh,
                count-take a k x.blocks,
                cached a,
                g.distinct a,
              )
            ];
          },
        )
