-- ===== src/Engine/Grants.antt =====
-- What a match grants, and what admission and caching take, against the balance.
use Prim.Native.String.{String}
use mini_llm_runtime.Base.{
  ℕ, ◌+◌, ◌%◌, ◌≤◌, min, ◌≡◌, refl, sym, ap, ◌∙◌, subst, inl, inr, true, false, Option, some, none,
  List, [], ◌∷◌, ◌++◌, arith, length, length-take, count, count_append, take, All, All-append,
  IsDistinct, total-append, total-ones, ok,
}
use mini_llm_runtime.Config.{EngineConfig}
use mini_llm_runtime.BlockPool.{BlockPool, capacity}
use mini_llm_runtime.BlockPool.Invariant.{IsValid as IsValidPool}
use mini_llm_runtime.BlockPool.Ledger.{Tracks}
use mini_llm_runtime.PrefixIndex.{PrefixEntry, PrefixMatch, PrefixIndex, find_entry, match, touch}
use mini_llm_runtime.PrefixIndex.Walk.{is_prefix}
use mini_llm_runtime.PrefixIndex.Invariant.{continues}
use mini_llm_runtime.PrefixIndex.Reuse.{IsBest, IsTouched, match_lem, continues-touched}
use mini_llm_runtime.PrefixIndex.Entries.{All-put_entry, All-find_entry}
use mini_llm_runtime.PrefixIndex.Tidy.{IsTidy, IsTouched-IsTidy}
use mini_llm_runtime.Engine.{Active}
use mini_llm_runtime.Engine.Admit.{total_blocks}
use mini_llm_runtime.Engine.Balance.{
  IsFit, held_by, cached_by, live, uses, names, ledger, IsBalanced, holders-ledger,
}

-- The entry that a match names is there and has its tokens, which are whole blocks.
abbrev pub IsMatched : PrefixIndex → ℕ → Option PrefixMatch → Type 0
IsMatched p limit none = Unit
IsMatched p limit (some m) =
    (x : PrefixEntry) × (find_entry m.sequence p.entries ≡ some x)
    × (m.tokens ≤ length x.tokens)
    × (m.tokens % p.block_size ≡ 0)
    × (m.tokens ≤ limit)

is_prefix-le : (path ts : List ℕ) → is_prefix path ts ≡ true → length path ≤ length ts
is_prefix-le [] ts h = omega arith
is_prefix-le (t ∷ path) [] h = cc
is_prefix-le (t ∷ path) (u ∷ ts) h = ground (arith, is_prefix-le path ts)

continues-entry :
    (ns : String) (path : List ℕ) (o : Option PrefixEntry)
    → continues ns path o ≡ true
    → (x : PrefixEntry) × (o ≡ some x) × (length path ≤ length x.tokens)
continues-entry ns path none h = cc
continues-entry ns path (some x) h = (x, refl, ground (arith, h, is_prefix-le path x.tokens))

module _ (ns : String) (tokens : List ℕ) (max_reuse : ℕ) where
  abbrev limit : ℕ
  limit = min (length tokens) max_reuse

  IsBest-IsMatched :
      (p q : PrefixIndex) (out : Option PrefixMatch)
      → IsTidy p
      → IsBest p ns tokens limit out
      → IsTouched p q
      → IsMatched q limit out
  IsBest-IsMatched p q none t best touched = tt
  IsBest-IsMatched p q (some m) t ((pos, small, whole, c), _) touched =
      let (x, found, long) =
        continues-entry ns (take m.tokens tokens) (find_entry m.sequence q.entries)
          (kept touched ∙ c) in
      (
        x,
        found,
        omega (arith, long, length-take m.tokens tokens),
        ap (λ b. m.tokens % b) (same touched) ∙ whole,
        small,
      )
    where
      kept :
          IsTouched p q
          → continues ns (take m.tokens tokens) (find_entry m.sequence q.entries)
            ≡ continues ns (take m.tokens tokens) (find_entry m.sequence p.entries)
      kept (inl e) =
          ap
            (λ (i : PrefixIndex).
              continues ns (take m.tokens tokens) (find_entry m.sequence i.entries))
            e
      kept (inr (s, now, e, found, shape)) =
          ap
            (λ (i : PrefixIndex).
              continues ns (take m.tokens tokens) (find_entry m.sequence i.entries))
            shape
          ∙ continues-touched p t.valid ns tokens max_reuse now s e found m.sequence ns
              (take m.tokens tokens)

      same : IsTouched p q → q.block_size ≡ p.block_size
      same (inl e) = ap (λ (i : PrefixIndex). i.block_size) e
      same (inr (s, now, e, found, shape)) = ap (λ (i : PrefixIndex). i.block_size) shape

module _ (c : EngineConfig) (pool : BlockPool) (prefixes : PrefixIndex) (active : List Active)
    (fs fcs : List ℕ) (v : IsBalanced c pool prefixes active fs fcs) where
  -- `match` does not throw, and keeps the balance.
  pub match-IsBalanced :
      (ns : String) (tokens : List ℕ) (max_reuse : ℕ)
      → (out : Option PrefixMatch) × (q : PrefixIndex) × (match ns tokens max_reuse prefixes
          ≡ ok (out, q))
        × IsBalanced c pool q active fs fcs
        × IsMatched q (min (length tokens) max_reuse) out
        × (length q.entries ≡ length prefixes.entries)
  match-IsBalanced ns tokens max_reuse =
      let (out, q, matched, best, valid, touched) =
        match_lem prefixes v.index.valid ns tokens max_reuse in
      let (tidy, same, kept) = IsTouched-IsTidy prefixes q v.index valid touched in
      let sized : length q.entries ≡ length prefixes.entries =
        omega
          (arith, kept (λ _. 1) λ n x. refl, total-ones q.entries, total-ones prefixes.entries) in
      (
        out,
        q,
        matched,
        record {
          config = v.config;
          index = tidy;
          block_size = same ∙ v.block_size;
          pool_valid = v.pool_valid;
          sized = v.sized;
          tracked = λ a. omega (
            arith,
            v.tracked a,
            holders-ledger a active prefixes.entries,
            holders-ledger a active q.entries,
            kept (cached_by a) λ n x. refl,
          );
          fit = v.fit;
          distinct = all_distinct q touched;
          sequences = v.sequences;
          slots = v.slots;
          cache_sequences = λ s. omega (arith, v.cache_sequences s, kept (names s) λ n x. refl);
          cache_slots = omega (arith, v.cache_slots, sized);
        },
        IsBest-IsMatched ns tokens max_reuse prefixes q out v.index best touched,
        sized,
      )
    where
      all_distinct :
          (q : PrefixIndex)
          → IsTouched prefixes q
          → All (λ (e : PrefixEntry). IsDistinct e.blocks) q.entries
      all_distinct q (inl e) =
          subst (λ (i : PrefixIndex). All (λ (x : PrefixEntry). IsDistinct x.blocks) i.entries)
            (sym e) v.distinct
      all_distinct q (inr (s, now, e, found, shape)) =
          subst (λ (i : PrefixIndex). All (λ (x : PrefixEntry). IsDistinct x.blocks) i.entries)
            (sym shape)
            (All-put_entry (λ (x : PrefixEntry). IsDistinct x.blocks) (touch now e) prefixes.entries
              (All-find_entry (λ (x : PrefixEntry). IsDistinct x.blocks) s prefixes.entries e
                v.distinct found)
              v.distinct)

  -- An admitted request takes a free sequence, and the blocks that it shares and those that are
  -- new, once they are entered into the ledger.
  pub admit-IsBalanced :
      (item : Active) (shared fresh rest : List ℕ) (after : BlockPool)
      → fs ≡ item.sequence ∷ rest
      → item.blocks ≡ shared ++ fresh
      → item.done ≡ false
      → item.processed ≤ length item.request.prompt
      → length (shared ++ fresh) ≡ total_blocks c item.request
      → IsDistinct (shared ++ fresh)
      → IsValidPool after
      → capacity after ≡ capacity pool
      → Tracks (shared ∷ fresh ∷ ledger active prefixes.entries) after
      → IsBalanced c after prefixes (active ++ item ∷ []) rest fcs
  admit-IsBalanced item shared fresh rest after popped blocks going begun owned distinct valid same
        tracks =
      record {
        config = v.config;
        index = v.index;
        block_size = v.block_size;
        pool_valid = valid;
        sized = same ∙ v.sized;
        tracked = λ a. omega (
          arith,
          tracks a,
          holders-ledger a active prefixes.entries,
          holders-ledger a (active ++ item ∷ []) prefixes.entries,
          total-append (held_by a) active (item ∷ []),
          held a,
        );
        fit = All-append (IsFit c) active (item ∷ []) v.fit (
          record {
            emptied = λ e. cc;
            owned = λ e. ap length blocks ∙ owned;
            distinct = subst IsDistinct (sym blocks) distinct;
            started = λ e. begun;
          },
          tt,
        );
        distinct = v.distinct;
        sequences = λ s. ground (
          arith,
          v.sequences s,
          ap (count s) popped,
          total-append (uses s) active (item ∷ []),
          going,
        );
        slots =
            ground (arith, v.slots, ap length popped, total-append live active (item ∷ []), going);
        cache_sequences = v.cache_sequences;
        cache_slots = v.cache_slots;
      }
    where
      held : (a : ℕ) → held_by a item ≡ count a shared + count a fresh
      held a = ap (count a) blocks ∙ count_append a shared fresh
