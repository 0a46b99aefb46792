-- ===== src/BlockPool/Tests.antt =====
-- The pool on concrete inputs.
use mini_llm_runtime.Base.{
  ℕ, ◌+◌, ◌<◌, ◌≡◌, refl, ◌⊎◌, ◌↔◌, ◌≢◌, some, List, [], ◌∷◌, arith, count, length, get_or, All,
  IsDistinct, ok, inc64, logic_error,
}
use mini_llm_runtime.BlockPool.{
  BlockPool, construct, allocate, take_blocks, retain, release, release_loop, validate_table,
  validate_loop, next_epoch, saturated, capacity, free_count,
}
use mini_llm_runtime.BlockPool.Validate.{validate_table_iff}
use mini_llm_runtime.BlockPool.Invariant.{IsValid}
use mini_llm_runtime.BlockPool.Ledger.{holders, Tracks, allocate-Tracks}
use mini_llm_runtime.BlockPool.Operations.{retain-Tracks, release-Tracks}
use mini_llm_runtime.BlockPool.History.{
  Step-IsSound, Clients, Reach, allocates, releases, release_fails, here, next, IsSound,
  construct-IsSound, history-free, history_no_leak,
}

abbrev pool_of_three : BlockPool
pool_of_three = record {
  refs = 0 ∷ 0 ∷ 0 ∷ [];
  free = 0 ∷ 1 ∷ 2 ∷ [];
  seen = 0 ∷ 0 ∷ 0 ∷ [];
  validation_epoch = 0;
}

-- Blocks 0 and 1 are held once.
abbrev two_held : BlockPool
two_held = record {
  refs = 1 ∷ 1 ∷ 0 ∷ [];
  free = 2 ∷ [];
  seen = 0 ∷ 0 ∷ 0 ∷ [];
  validation_epoch = 0;
}

construct-three : construct 3 ≡ ok pool_of_three
unfolding construct
construct-three = refl

allocate-two : allocate 2 pool_of_three ≡ (some (0 ∷ 1 ∷ []), two_held)
unfolding allocate take_blocks
allocate-two = refl

start_clients : Clients
start_clients = record { pool = pool_of_three; tables = [] }

after_allocate : Clients
after_allocate = record { pool = two_held; tables = (0 ∷ 1 ∷ []) ∷ [] }

two_held-IsSound : IsSound 3 after_allocate
unfolding after_allocate start_clients
two_held-IsSound =
    Step-IsSound 3 {c = start_clients} (allocates 2 (0 ∷ 1 ∷ []) allocate-two refl)
      (construct-IsSound 3 pool_of_three construct-three)

history : Reach start_clients after_allocate
unfolding after_allocate start_clients
history = next here (allocates 2 (0 ∷ 1 ∷ []) allocate-two refl)

-- A release of a block that is free fails; then the two blocks are given back one by one.
after_failure : Clients
unfolding release
after_failure = record { pool = (release (2 ∷ []) two_held).1; tables = (0 ∷ 1 ∷ []) ∷ [] }

after_part : Clients
unfolding release
after_part = record { pool = (release (1 ∷ []) after_failure.pool).1; tables = (0 ∷ []) ∷ [] }

after_release : Clients
unfolding release
after_release = record { pool = (release (0 ∷ []) after_part.pool).1; tables = [] }

failed_history : Reach start_clients after_failure
unfolding after_allocate after_failure start_clients release validate_table validate_loop next_epoch
    inc64
failed_history = next history (release_fails (2 ∷ []) logic_error refl refl)

part_history : Reach start_clients after_part
unfolding after_failure after_part start_clients release validate_table validate_loop next_epoch
    inc64
part_history =
    next failed_history (releases (1 ∷ []) refl (λ a. ground arith) ((λ a. ground arith), tt))

whole_history : Reach start_clients after_release
unfolding after_failure after_part after_release start_clients release release_loop validate_table
    validate_loop next_epoch inc64
whole_history = next part_history (releases (0 ∷ []) refl (λ a. ground arith) tt)

pair-IsDistinct : IsDistinct (0 ∷ 1 ∷ [])
pair-IsDistinct a = ground arith

validate_table_iff_example : ((validate_table (0 ∷ 2 ∷ []) two_held).0 ≡ ok tt) ↔ (
    All (λ id. (id < 3) × (get_or two_held.refs id 0 ≢ 0)) (0 ∷ 2 ∷ []) × IsDistinct (0 ∷ 2 ∷ []))
unfolding after_allocate
validate_table_iff_example = validate_table_iff (0 ∷ 2 ∷ []) two_held two_held-IsSound.valid.stamped

allocate-Tracks_example :
    (ids : List ℕ) × (q : BlockPool) × (allocate 1 two_held ≡ (some ids, q))
    × (length ids ≡ 1)
    × IsDistinct ids
    × ((a : ℕ) → (count a ids ≡ 0) ⊎ (holders a ((0 ∷ 1 ∷ []) ∷ []) ≡ 0))
    × Tracks (ids ∷ (0 ∷ 1 ∷ []) ∷ []) q
    × IsValid q
    × (free_count q + 1 ≡ free_count two_held)
    × (capacity q ≡ capacity two_held)
unfolding after_allocate
allocate-Tracks_example =
    allocate-Tracks 1 two_held ((0 ∷ 1 ∷ []) ∷ []) two_held-IsSound.valid two_held-IsSound.tracked
      (omega arith)

retain-Tracks_example : Tracks ((1 ∷ []) ∷ (0 ∷ 1 ∷ []) ∷ []) (retain (1 ∷ []) two_held).1
unfolding after_allocate retain validate_table validate_loop next_epoch inc64 saturated
retain-Tracks_example =
    (retain-Tracks (1 ∷ []) two_held ((0 ∷ 1 ∷ []) ∷ []) two_held-IsSound.valid
      two_held-IsSound.tracked refl).1

release-Tracks_example : (release (0 ∷ 1 ∷ []) two_held).0 ≡ ok tt
unfolding after_allocate
release-Tracks_example =
    (release-Tracks (0 ∷ 1 ∷ []) two_held [] two_held-IsSound.valid two_held-IsSound.tracked
      pair-IsDistinct).0

history-free_example : count 1 after_allocate.pool.free ≡ 0
unfolding after_allocate start_clients
history-free_example = history-free 3 pool_of_three after_allocate construct-three history 1

history_no_leak_example : free_count after_release.pool ≡ 3
unfolding after_release start_clients
history_no_leak_example =
    history_no_leak 3 pool_of_three after_release construct-three whole_history refl
