-- ===== src/Parallel/Tests.antt =====
-- A run of two workers over five indexes.
use mini_llm_runtime.Base.{
  ℕ, ◌+◌, ◌<◌, ◌≤◌, ◌≡◌, ◌≢◌, refl, Bool, true, false, [], ◌∷◌, All, arith, if◌then◌else◌, ltb, ok,
  some,
}
use mini_llm_runtime.Parallel.{Chunk, Executor, Reach, begin_run, consume_round, here, later, picks}
use mini_llm_runtime.Parallel.Coverage.{run-covers, times}

abbrev started : Executor
started = record {
  count = 5;
  grain = 2;
  next = 0;
  ended = false ∷ false ∷ [];
  failed = false;
  chunks = [];
}

abbrev finished : Executor
finished = record {
  count = 5;
  grain = 2;
  next = 10;
  ended = true ∷ true ∷ [];
  failed = false;
  chunks =
      record { worker = 1; first = 0; end = 2 }
      ∷ record { worker = 0; first = 2; end = 4 }
      ∷ record { worker = 1; first = 4; end = 5 }
      ∷ [];
}

begun : begin_run 2 5 2 ≡ ok (some started)
unfolding begin_run
begun = refl

five_rounds : Reach started finished
unfolding consume_round
five_rounds =
    later
      (later
        (later (later (later here (picks 1 false refl)) (picks 0 false refl)) (picks 1 false refl))
        (picks 1 false refl))
      (picks 0 false refl)

run-covers_example :
    All (λ (c : Chunk). (c.first < c.end) × (c.end ≤ 5) × (c.end ≤ c.first + 2)) finished.chunks
    × (All (λ (b : Bool). b ≡ true) finished.ended
        → finished.ended ≢ []
        → finished.failed ≡ false
        → (i : ℕ) → times i finished.chunks ≡ (if ltb i 5 then 1 else 0))
run-covers_example = run-covers 2 5 2 started finished (omega arith) begun five_rounds
