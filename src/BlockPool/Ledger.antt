-- ===== src/BlockPool/Ledger.antt =====
-- The pool against its contract: a ledger of the block tables that its clients hold. The count of
-- a block is the number of tables that name it, so a block is free when no table does.
use mini_llm_runtime.Base.{
  ℕ, zero, suc, ◌+◌, ◌≤◌, ◌<◌, ◌≡◌, refl, ◌∙◌, sym, ◌⊎◌, inl, inr, ◌||◌, none, some, List, [], ◌∷◌,
  arith, ltb, ◌==◌, if◌then◌else◌, Bool-cases, length, get_or, count, IsDistinct, ok, err,
  invalid_argument, replicate, get_or-replicate, length-replicate,
}
use mini_llm_runtime.BlockPool.{
  BlockPool, construct, push_ids, allocate, capacity, free_count, take_blocks, u32_max,
}
use mini_llm_runtime.BlockPool.Slots.{IsAccounted, free_slot, zeros}
use mini_llm_runtime.BlockPool.Invariant.{IsValid, take_blocks_lem}

-- How many of the tables name the block, counting repetitions.
abbrev pub holders : ℕ → List (List ℕ) → ℕ
holders a [] = 0
holders a (t ∷ ts) = count a t + holders a ts

abbrev pub Tracks : List (List ℕ) → BlockPool → Type 0
Tracks tables p = (a : ℕ) → get_or p.refs a 0 ≡ holders a tables

count-push_ids :
    (n a : ℕ) (free : List ℕ)
    → count a (push_ids n free) ≡ (if ltb a n then 1 else 0) + count a free
unfolding push_ids
count-push_ids zero a free = ground arith
count-push_ids (suc n) a free = ground (arith, count-push_ids n a (n ∷ free))

length-push_ids : (n : ℕ) (free : List ℕ) → length (push_ids n free) ≡ n + length free
unfolding push_ids
length-push_ids zero free = omega arith
length-push_ids (suc n) free = omega (arith, length-push_ids n (n ∷ free))

free_slot-replicate : (n a : ℕ) → free_slot (replicate n 0) a ≡ (if ltb a n then 1 else 0)
free_slot-replicate zero a = ground arith
free_slot-replicate (suc n) zero = ground arith
free_slot-replicate (suc n) (suc a) = ground (arith, free_slot-replicate n a)

zeros-replicate : (n : ℕ) → zeros (replicate n 0) ≡ n
zeros-replicate zero = refl
zeros-replicate (suc n) = omega (arith, zeros-replicate n)

pub initial-IsAccounted : (n : ℕ) → IsAccounted (replicate n 0) (push_ids n [])
initial-IsAccounted n = record {
  listed = λ a. omega (arith, count-push_ids n a [], free_slot-replicate n a);
  sized = omega (arith, length-push_ids n [], zeros-replicate n);
}

abbrev initial : ℕ → BlockPool
initial n = record {
  refs = replicate n 0;
  free = push_ids n [];
  seen = replicate n 0;
  validation_epoch = 0;
}

initial-IsValid : (n : ℕ) → IsValid (initial n)
initial-IsValid n = record {
  accounted = initial-IsAccounted n;
  words = λ i. rw (get_or-replicate {A = ℕ} n i 0) (omega arith);
  stamped = record {
    sized = refl;
    stamps = λ i. rw (get_or-replicate {A = ℕ} n i 0) (omega arith);
    epoch_word = omega arith;
  };
}

-- A pool is built exactly for 1 to 2 ^ 32 - 1 blocks. It is valid, all its blocks are free, and
-- no table is held.
pub construct-IsValid :
    (n : ℕ)
    → ((n ≡ 0) ⊎ (u32_max < n)) × (construct n ≡ err invalid_argument)
      ⊎ ((0 < n)
          × (n ≤ u32_max)
          × ((p : BlockPool) × (construct n ≡ ok p)
              × IsValid p
              × Tracks [] p
              × (capacity p ≡ n)
              × (free_count p ≡ n)))
unfolding construct
construct-IsValid n = elim (Bool-cases (n == 0 || ltb u32_max n)) [
  | inl bad ↦ inl (ground arith, rw bad)
  | inr good ↦ inr (
    ground arith,
    ground arith,
    (
      initial n,
      rw good,
      initial-IsValid n,
      λ a. get_or-replicate {A = ℕ} n a 0,
      length-replicate {A = ℕ} n 0,
      omega (arith, length-push_ids n []),
    ),
  )
]

allocate-eq :
    (n : ℕ) (p : BlockPool)
    → n ≤ free_count p
    → allocate n p ≡ (
        let (ids, refs, free) = take_blocks n p.refs p.free in
        (some ids, record p { refs = refs; free = free }))
unfolding allocate
allocate-eq n p h = ground arith

-- A request beyond the free count is refused, and changes nothing.
pub allocate-none : (n : ℕ) (p : BlockPool) → free_count p < n → allocate n p ≡ (none, p)
unfolding allocate
allocate-none n p h = ground arith

-- A request within the free count is served: with as many distinct blocks, that no table named
-- before, and that are entered into the ledger as one more table.
pub allocate-Tracks :
    (n : ℕ) (p : BlockPool) (tables : List (List ℕ))
    → IsValid p
    → Tracks tables p
    → n ≤ free_count p
    → (ids : List ℕ) × (q : BlockPool) × (allocate n p ≡ (some ids, q))
      × (length ids ≡ n)
      × IsDistinct ids
      × ((a : ℕ) → (count a ids ≡ 0) ⊎ (holders a tables ≡ 0))
      × Tracks (ids ∷ tables) q
      × IsValid q
      × (free_count q + n ≡ free_count p)
      × (capacity q ≡ capacity p)
allocate-Tracks n p tables v t h =
    let (acc, raised, fresh, distinct, drawn, left, same) =
      take_blocks_lem n p.refs p.free v.accounted h in
    let (ids, refs, free) = take_blocks n p.refs p.free in
    (
      ids,
      record p { refs = refs; free = free },
      allocate-eq n p h,
      drawn,
      distinct,
      λ a. elim (Bool-cases (count a ids == 0)) [
        | inl absent ↦ inl (ground arith)
        | inr drawn_now ↦ inr (ground (arith, fresh a, t a))
      ],
      λ a. ground (arith, raised a, t a),
      record {
        accounted = acc;
        words = λ a. ground (arith, raised a, fresh a, distinct a, v.words a);
        stamped = record {
          sized = v.stamped.sized ∙ sym same;
          stamps = v.stamped.stamps;
          epoch_word = v.stamped.epoch_word;
        };
      },
      left,
      same,
    )
