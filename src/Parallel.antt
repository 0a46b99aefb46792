-- ===== src/Parallel.antt =====
-- src/minillm/parallel.cpp: how ParallelExecutor shares out an index range. The workers take chunks
-- from one atomic counter; which worker takes the next is left open, and so is whether the work on a
-- chunk throws. The counter is a 64-bit word. The threads' start, wake-up and end, and the profile, are
-- not modelled.
pub mod Coverage
pub mod Tests
use mini_llm_runtime.Base.{
  ℕ, ◌+◌, ◌%◌, u64_mod, min, ◌≡◌, Bool, true, false, ◌||◌, Option, none, some, List, [], ◌∷◌, ◌++◌,
  leb, ltb, ◌==◌, if◌then◌else◌, length, get_elem?, set, replicate, Error, Result, ok, err,
  throw_if, ◌>>◌, invalid_argument,
}

-- `work_(begin, end)`
pub record Chunk : Type 0 where
  pub worker : ℕ
  pub first : ℕ
  pub end : ℕ

-- The executor during a `run`: the counter, which workers have left the loop of `consume`, whether an
-- exception is kept, and the chunks that were worked on, in the order in which they were taken.
pub record Executor : Type 0 where
  pub count : ℕ
  pub grain : ℕ
  pub next : ℕ
  pub ended : List Bool
  pub failed : Bool
  pub chunks : List Chunk

-- The constructor's check of the number of threads.
unfoldable pub checked_threads : ℕ → Result ℕ
checked_threads threads =
    if threads == 0 || ltb 256 threads then err invalid_argument else ok threads

-- `run`, up to the call of `consume`: `none` where there is nothing to do.
unfoldable pub begin_run : ℕ → ℕ → ℕ → Result (Option Executor)
begin_run threads count grain =
    if count == 0
    then ok none
    else if grain == 0
    then err invalid_argument
    else ok (
        some (record {
          count = count;
          grain = grain;
          next = 0;
          ended = replicate threads false;
          failed = false;
          chunks = [];
        }))

-- One round of `consume` of a worker, whose work throws or not.
unfoldable pub consume_round : ℕ → Bool → Executor → Executor
consume_round worker throws e =
    let past = (e.next + e.grain) % u64_mod in
    if leb e.count e.next
    then record e { next = past; ended = set e.ended worker true }
    else record e {
      next = past;
      chunks = e.chunks ++ record { worker = worker; first = e.next; end = min e.count past } ∷ [];
      ended = if throws then set e.ended worker true else e.ended;
      failed = e.failed || throws;
    }

-- A worker that has not left the loop makes a round.
pub data Step (e : Executor) : Executor → Type 0 where
  picks :
      (worker : ℕ) (throws : Bool)
      → get_elem? e.ended worker ≡ some false
      → Step e (consume_round worker throws e)

pub data Reach (e : Executor) : Executor → Type 0 where
  here : Reach e e
  later : {f g : Executor} → Reach e f → Step f g → Reach e g
