-- ===== src/BlockPool.antt =====
-- include/llmserve/block_pool.h and src/block_pool.cpp: logical KV capacity credits.
-- A `std::vector` used as a stack (`free_`) is a list whose head is the back of the vector.
-- `BlockId` is a number; `seen_` and `validation_epoch_`, mutable scratch, are fields like others.
pub mod Validate
pub mod Slots
pub mod Invariant
pub mod Ledger
pub mod Operations
pub mod History
mod Tests
use mini_llm_runtime.Base.{
  ℕ, zero, suc, ◌+◌, ◌-◌, ◌^◌, Bool, true, false, ◌||◌, Option, none, some, List, [], ◌∷◌, map, ltb,
  leb, ◌==◌, if◌then◌else◌, length, get_or, set, replicate, Error, Result, ok, err,
  invalid_argument, logic_error, overflow_error, out_of_range, u64_mod, inc64, dec64,
}

pub record BlockPool : Type 0 where
  pub refs : List ℕ
  pub free : List ℕ
  pub seen : List ℕ
  pub validation_epoch : ℕ

abbrev pub u32_max : ℕ
u32_max = 2 ^ 32 - 1

-- `for (std::size_t i = count; i > 0; --i) { free_.push_back(i - 1); }`
unfoldable pub push_ids : ℕ → List ℕ → List ℕ
push_ids zero free = free
push_ids (suc i) free = push_ids i (i ∷ free)

unfoldable pub construct : ℕ → Result BlockPool
unfolding push_ids
construct count =
    if count == 0 || ltb u32_max count
    then err invalid_argument
    else ok (record {
      refs = replicate count 0;
      free = push_ids count [];
      seen = replicate count 0;
      validation_epoch = 0;
    })

abbrev pub capacity : BlockPool → ℕ
capacity p = length p.refs

abbrev pub free_count : BlockPool → ℕ
free_count p = length p.free

abbrev pub used_count : BlockPool → ℕ
used_count p = capacity p - free_count p

-- The body of `allocate`'s loop, `count` times: the blocks, then `refs_` and `free_` after it.
unfoldable pub take_blocks : ℕ → List ℕ → List ℕ → List ℕ × List ℕ × List ℕ
take_blocks zero refs free = ([], refs, free)
take_blocks (suc n) refs [] = ([], refs, [])
take_blocks (suc n) refs (id ∷ free) =
    let (ids, refs', free') = take_blocks n (set refs id 1) free in (id ∷ ids, refs', free')

unfoldable pub allocate : ℕ → BlockPool → Option (List ℕ) × BlockPool
allocate count p =
    if ltb (length p.free) count
    then (none, p)
    else let (ids, refs, free) = take_blocks count p.refs p.free in
      (some ids, record p { refs = refs; free = free })

-- `if (++validation_epoch_ == 0) { fill(seen_, 0); validation_epoch_ = 1; }`
unfoldable pub next_epoch : BlockPool → BlockPool
next_epoch p =
    if inc64 p.validation_epoch == 0
    then record p { seen = map (λ _. 0) p.seen; validation_epoch = 1 }
    else record p { validation_epoch = inc64 p.validation_epoch }

-- The loop of `validate_table`, with `seen_` as it is left, also on a throw.
unfoldable pub validate_loop : List ℕ → ℕ → List ℕ → List ℕ → Result (Unit {0}) × List ℕ
validate_loop refs epoch [] seen = (ok tt, seen)
validate_loop refs epoch (id ∷ ids) seen =
    let rest = validate_loop refs epoch ids (set seen id epoch) in
    if leb (length refs) id || get_or refs id 0 == 0 || get_or seen id 0 == epoch
    then (err logic_error, seen)
    else rest

unfoldable pub validate_table : List ℕ → BlockPool → Result (Unit {0}) × BlockPool
validate_table blocks p =
    let q = next_epoch p in
    let (r, seen) = validate_loop q.refs q.validation_epoch blocks q.seen in
    (r, record q { seen = seen })

-- Whether some block's count is at its maximum, as the first loop of `retain` tests.
unfoldable pub saturated : List ℕ → List ℕ → Bool
saturated refs [] = false
saturated refs (id ∷ ids) = get_or refs id 0 == u64_mod - 1 || saturated refs ids

unfoldable pub retain_loop : List ℕ → List ℕ → List ℕ
retain_loop [] refs = refs
retain_loop (id ∷ ids) refs = retain_loop ids (set refs id (inc64 (get_or refs id 0)))

unfoldable pub retain : List ℕ → BlockPool → Result (Unit {0}) × BlockPool
retain blocks p =
    let (r, q) = validate_table blocks p in
    elim r [
      | err e ↦ (err e, q)
      | ok _ ↦
          if saturated q.refs blocks
          then (err overflow_error, q)
          else (ok tt, record q { refs = retain_loop blocks q.refs })
    ]

-- `if (--refs_[id] == 0) { free_.push_back(id); }` for each block.
pub release_loop : List ℕ → List ℕ → List ℕ → List ℕ × List ℕ
release_loop [] refs free = (refs, free)
release_loop (id ∷ ids) refs free =
    let left = dec64 (get_or refs id 0) in
    release_loop ids (set refs id left) (if left == 0 then id ∷ free else free)

pub release : List ℕ → BlockPool → Result (Unit {0}) × BlockPool
release blocks p =
    let (r, q) = validate_table blocks p in
    elim r [
      | err e ↦ (err e, q)
      | ok _ ↦
          let (refs, free) = release_loop blocks q.refs q.free in
          (ok tt, record q { refs = refs; free = free })
    ]

-- `refs_.at(id)`
pub references : ℕ → BlockPool → Result ℕ
references id p = if ltb id (length p.refs) then ok (get_or p.refs id 0) else err out_of_range
