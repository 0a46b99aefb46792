-- ===== src/Engine/Balance.antt =====
-- The invariant of the engine: every block credit and every sequence is held by one active request
-- or by entries of the index, or it is free.
use mini_llm_runtime.Base.{
  ℕ, ◌+◌, ◌/◌, ◌<◌, ◌≤◌, ◌≡◌, refl, ap, inl, inr, true, false, ◌&&◌, List, [], ◌∷◌, ◌++◌, map,
  arith, ltb, leb, ◌==◌, if◌then◌else◌, Bool-cases, length, count, All, IsDistinct, total, total-le,
  total-ones, All-map, u64_mod,
}
use mini_llm_runtime.Config.{EngineConfig}
use mini_llm_runtime.Config.Limits.{IsWellFormed}
use mini_llm_runtime.BlockPool.{BlockPool, capacity}
use mini_llm_runtime.BlockPool.Invariant.{IsValid as IsValidPool}
use mini_llm_runtime.BlockPool.Ledger.{holders, Tracks}
use mini_llm_runtime.PrefixIndex.{PrefixEntry, PrefixIndex, size}
use mini_llm_runtime.PrefixIndex.Tidy.{IsTidy}
use mini_llm_runtime.Engine.{Active, Engine}
use mini_llm_runtime.Engine.Admit.{total_blocks}

-- A request that is done holds nothing; one that is not has the credits for its whole length, and
-- has processed no more than its prompt.
pub record IsFit (c : EngineConfig) (item : Active) : Type 0 where
  pub emptied : item.done ≡ true → item.blocks ≡ []
  pub owned : item.done ≡ false → length item.blocks ≡ total_blocks c item.request
  pub distinct : IsDistinct item.blocks
  pub started : item.done ≡ false → item.processed ≤ length item.request.prompt

abbrev pub held_by : ℕ → Active → ℕ
held_by a item = count a item.blocks

abbrev pub cached_by : ℕ → PrefixEntry → ℕ
cached_by a e = count a e.blocks

-- 1 for an item that is not done.
abbrev pub live : Active → ℕ
live item = if item.done then 0 else 1

-- 1 for an item that is not done and has the sequence.
abbrev pub uses : ℕ → Active → ℕ
uses s item = if item.done then 0 else if s == item.sequence then 1 else 0

abbrev pub names : ℕ → PrefixEntry → ℕ
names s e = if s == e.sequence then 1 else 0

-- The block tables that the engine holds.
abbrev pub ledger : List Active → List PrefixEntry → List (List ℕ)
ledger active entries = map (λ item. item.blocks) active ++ map (λ e. e.blocks) entries

pub record IsBalanced (c : EngineConfig) (pool : BlockPool) (prefixes : PrefixIndex)
    (active : List Active) (free_sequences free_cache_sequences : List ℕ) : Type 0 where
  pub config : IsWellFormed c
  pub index : IsTidy prefixes
  pub block_size : prefixes.block_size ≡ c.block_size
  pub pool_valid : IsValidPool pool
  pub sized : capacity pool ≡ c.context_tokens / c.block_size
  pub tracked : Tracks (ledger active prefixes.entries) pool
  pub fit : All (IsFit c) active
  pub distinct : All (λ (e : PrefixEntry). IsDistinct e.blocks) prefixes.entries
  pub sequences :
      (s : ℕ)
      → count s free_sequences + total (uses s) active ≡ (if ltb s c.max_active then 1 else 0)
  pub slots : length free_sequences + total live active ≡ c.max_active
  pub cache_sequences :
      (s : ℕ)
      → count s free_cache_sequences + total (names s) prefixes.entries
        ≡ (if leb c.max_active s && ltb s (c.max_active + c.prefix_cache_entries) then 1 else 0)
  pub cache_slots : length free_cache_sequences + size prefixes ≡ c.prefix_cache_entries

abbrev pub Inv : {R : Type 0} → Engine R → Type 0
Inv e = IsBalanced e.config e.pool e.prefixes e.active e.free_sequences e.free_cache_sequences

holders-append :
    (a : ℕ) (xs ys : List (List ℕ)) → holders a (xs ++ ys) ≡ holders a xs + holders a ys
holders-append a [] ys = omega arith
holders-append a (x ∷ xs) ys = omega (arith, holders-append a xs ys)

holders-map :
    {A : Type 0} (f : A → List ℕ) (a : ℕ) (xs : List A)
    → holders a (map f xs) ≡ total (λ x. count a (f x)) xs
holders-map f a [] = refl
holders-map f a (x ∷ xs) = omega (arith, holders-map f a xs)

pub holders-ledger :
    (a : ℕ) (active : List Active) (entries : List PrefixEntry)
    → holders a (ledger active entries) ≡ total (held_by a) active + total (cached_by a) entries
holders-ledger a active entries = omega (
  arith,
  holders-append a (map (λ item. item.blocks) active) (map (λ e. e.blocks) entries),
  holders-map (λ (item : Active). item.blocks) a active,
  holders-map (λ (e : PrefixEntry). e.blocks) a entries,
)

pub held-le-live :
    (c : EngineConfig) (a : ℕ) (item : Active) → IsFit c item → held_by a item ≤ live item
held-le-live c a item f = elim (Bool-cases item.done) [
  | inl over ↦ ground (arith, ap (count a) (f.emptied over))
  | inr going ↦ ground (arith, f.distinct a)
]

-- No count of a block comes near the end of its range.
pub holders-room :
    {c : EngineConfig} {pool : BlockPool} {prefixes : PrefixIndex} {active : List Active}
    {fs fcs : List ℕ}
    → IsBalanced c pool prefixes active fs fcs
    → (a : ℕ) → holders a (ledger active prefixes.entries) + 1 < u64_mod
holders-room {c = c} {prefixes = prefixes} {active = active} v a = omega (
  arith,
  holders-ledger a active prefixes.entries,
  total-le (held_by a) live active (All-map active (λ item f. held-le-live c a item f) v.fit),
  total-le (cached_by a) (λ _. 1) prefixes.entries
      (All-map prefixes.entries (λ e d. d a) v.distinct),
  total-ones prefixes.entries,
  v.slots,
  v.cache_slots,
  v.config.active_bounds,
  v.config.cache_bounds,
)
