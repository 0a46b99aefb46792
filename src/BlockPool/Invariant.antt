-- ===== src/BlockPool/Invariant.antt =====
-- The invariant of the pool, and what each loop does to counts and free list.
use mini_llm_runtime.Base.{
  ℕ, zero, suc, ◌+◌, ◌-◌, ◌≤◌, ◌<◌, ◌≡◌, refl, ◌∙◌, List, [], ◌∷◌, arith, dec_lt, ◌==◌,
  if◌then◌else◌, length, get_or, set, length-set, get_or-set, get_or_beyond, count, IsDistinct,
  u64_mod, inc64, dec64, inc64-eq-add, dec64-eq-sub,
}
use mini_llm_runtime.BlockPool.{BlockPool, take_blocks, retain_loop, release_loop}
use mini_llm_runtime.BlockPool.Validate.{IsStamped}
use mini_llm_runtime.BlockPool.Slots.{
  IsAccounted, head-lt, head-unowned, take-IsAccounted, put-IsAccounted, bump-IsAccounted,
}

pub record IsValid (p : BlockPool) : Type 0 where
  pub accounted : IsAccounted p.refs p.free
  pub words : (i : ℕ) → get_or p.refs i 0 < u64_mod
  pub stamped : IsStamped p

-- The counts `after` are those `before`, and one more for each block of `ids`.
abbrev pub Raised : List ℕ → List ℕ → List ℕ → Type 0
Raised before ids after = (a : ℕ) → get_or after a 0 ≡ get_or before a 0 + count a ids

-- `allocate`'s loop hands out unowned blocks and counts each once.
pub take_blocks_lem :
    (n : ℕ) (refs free : List ℕ)
    → IsAccounted refs free
    → n ≤ length free
    → let (ids, refs', free') = take_blocks n refs free in
      IsAccounted refs' free'
      × Raised refs ids refs'
      × ((a : ℕ) → 0 < count a ids → get_or refs a 0 ≡ 0)
      × IsDistinct ids
      × (length ids ≡ n)
      × (length free' + n ≡ length free)
      × (length refs' ≡ length refs)
unfolding take_blocks
take_blocks_lem zero refs free w h =
    (w, λ a. omega arith, λ a k. absurd (omega arith), λ a. omega arith, refl, omega arith, refl)
take_blocks_lem (suc n) refs [] w h = absurd (omega arith)
take_blocks_lem (suc n) refs (id ∷ free) w h =
    let (acc, raised, fresh, distinct, drawn, left, same) =
      take_blocks_lem n (set refs id 1) free (take-IsAccounted refs free id w) (omega arith) in
    let unowned : get_or refs id 0 ≡ 0 = head-unowned refs free id w in
    let inside : id < length refs = head-lt refs free id w in
    (
      acc,
      λ a. ground (arith, raised a, fresh a, get_or-set refs id a 1 0, unowned, inside),
      λ a k. ground (arith, raised a, fresh a, get_or-set refs id a 1 0, unowned, inside),
      λ a. ground (arith, distinct a, fresh a, get_or-set refs id a 1 0, inside),
      omega arith,
      omega arith,
      same ∙ length-set refs id 1,
    )

-- A block with a count is in range.
pub lt_of_owned : (refs : List ℕ) (a : ℕ) → 0 < get_or refs a 0 → a < length refs
lt_of_owned refs a h = elim (dec_lt a (length refs)) [
  | yes p ↦ p
  | no p ↦ absurd (ground (arith, get_or_beyond refs a 0))
]

-- `retain`'s loop, where the blocks are in use and no count can wrap.
pub retain_loop_lem :
    (ids refs free : List ℕ)
    → IsAccounted refs free
    → ((a : ℕ) → 0 < count a ids → 0 < get_or refs a 0)
    → ((a : ℕ) → get_or refs a 0 + count a ids < u64_mod)
    → IsAccounted (retain_loop ids refs) free
      × Raised refs ids (retain_loop ids refs)
      × (length (retain_loop ids refs) ≡ length refs)
unfolding retain_loop
retain_loop_lem [] refs free w live room = (w, λ a. omega arith, refl)
retain_loop_lem (id ∷ ids) refs free w live room =
    let owned : 0 < get_or refs id 0 = ground (arith, live id) in
    let inside : id < length refs = lt_of_owned refs id owned in
    let next : inc64 (get_or refs id 0) ≡ get_or refs id 0 + 1 =
      inc64-eq-add (get_or refs id 0) (ground (arith, room id)) in
    let read = λ (a : ℕ). get_or-set refs id a (inc64 (get_or refs id 0)) 0 in
    let (acc, raised, same) =
      retain_loop_lem ids (set refs id (inc64 (get_or refs id 0))) free
        (bump-IsAccounted refs free id _ w inside (ground arith) (ground arith))
        (λ a k. ground (arith, read a, live a)) (λ a. ground (arith, read a, room a)) in
    (acc, λ a. ground (arith, raised a, read a), same ∙ length-set refs id _)

-- `release`'s loop, where each block is counted at least as often as it is given back.
pub release_loop_lem :
    (ids refs free : List ℕ)
    → IsAccounted refs free
    → ((a : ℕ) → count a ids ≤ get_or refs a 0)
    → ((a : ℕ) → get_or refs a 0 < u64_mod)
    → let (refs', free') = release_loop ids refs free in
      IsAccounted refs' free' × Raised refs' ids refs × (length refs' ≡ length refs)
unfolding release_loop
release_loop_lem [] refs free w owned words = (w, λ a. omega arith, refl)
release_loop_lem (id ∷ ids) refs free w owned words =
    let held : 0 < get_or refs id 0 = ground (arith, owned id) in
    let inside : id < length refs = lt_of_owned refs id held in
    let left = dec64 (get_or refs id 0) in
    let next : left ≡ get_or refs id 0 - 1 = dec64-eq-sub (get_or refs id 0) held (words id) in
    let read = λ (a : ℕ). get_or-set refs id a left 0 in
    let (acc, lowered, same) =
      release_loop_lem ids (set refs id left) (if left == 0 then id ∷ free else free)
        (put-IsAccounted refs free id left w inside (ground arith))
        (λ a. ground (arith, read a, owned a)) (λ a. ground (arith, read a, words a, words id)) in
    (acc, λ a. ground (arith, lowered a, read a), same ∙ length-set refs id left)
