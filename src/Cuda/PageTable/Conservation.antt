-- ===== src/Cuda/PageTable/Conservation.antt =====
-- Every physical page is free or has one place in the table.
use mini_llm_runtime.Base.{
  ℕ, suc, ◌+◌, ◌<◌, ◌≤◌, ◌≡◌, refl, sym, ap, subst, ◌∙◌, inl, inr, true, ◌||◌, not, List, [], ◌∷◌,
  ◌++◌, arith, ltb, ◌==◌, if◌then◌else◌, length, drop, count, count_append, All, Bool-cases,
  Result-cases, ok,
}
use mini_llm_runtime.Cuda.PageTable.{
  Phase, ready, prepared, executing, poisoned, is_ready, PageTableLimits, Row, PageTable, pages_for,
  needed_pages, assign_rows, prepare, begin_execution, commit, discard_prepared,
}
use mini_llm_runtime.Cuda.PageTable.Reserve.{AreFit, AreKept, table_count, assign_rows-IsReserved}

pub record IsSound (t : PageTable) : Type 0 where
  pub page_tokens : 0 < t.limits.page_tokens
  pub wide : t.blocks ≡ pages_for t.limits t.limits.max_model_len
  pub sized : length t.active ≡ t.limits.sequences
  pub shaped : All (λ (row : Row). length row ≡ t.blocks) t.active
  pub conserved :
      (a : ℕ)
      → table_count a t.active + count a t.free_ids
        ≡ (if ltb a t.limits.physical_pages then 1 else 0)

All-of_count :
    (n : ℕ) (xs : List ℕ) → ((a : ℕ) → 0 < count a xs → a < n) → All (λ (x : ℕ). x < n) xs
All-of_count n [] h = tt
All-of_count n (x ∷ xs) h = (h x (ground arith), All-of_count n xs (λ a k. h a (omega (arith, k))))

drop-append : (xs ys : List ℕ) → drop (length xs) (xs ++ ys) ≡ ys
drop-append [] ys = refl
drop-append (x ∷ xs) ys = drop-append xs ys

fit-shape :
    (limits : PageTableLimits) (blocks : ℕ) (ns : List ℕ) (rows : List Row)
    → AreFit limits blocks ns rows
    → (length rows ≡ length ns) × All (λ (row : Row). length row ≡ blocks) rows
fit-shape limits blocks [] [] f = (refl, tt)
fit-shape limits blocks (n ∷ ns) (row ∷ rows) f =
    let (same, shaped) = fit-shape limits blocks ns rows f.2 in (ap suc same, (f.1, shaped))
fit-shape limits blocks [] (row ∷ rows) f = absurd f
fit-shape limits blocks (n ∷ ns) [] f = absurd f

-- The state that `prepare` leaves.
abbrev planned : List ℕ → List ℕ → PageTable → PageTable
planned committed pending t =
    let r = assign_rows t.limits committed pending t.active t.free_ids in
    record t { pending = r.0; journal = r.1; phase = prepared }

prepare-cases :
    (committed pending : List ℕ) (t t' : PageTable)
    → prepare committed pending t ≡ ok t'
    → (n : ℕ) × (t.phase ≡ ready)
      × (length committed ≡ t.limits.sequences)
      × (length pending ≡ t.limits.sequences)
      × (needed_pages t.limits committed pending t.active ≡ ok n)
      × (n ≤ length t.free_ids)
      × (planned committed pending t ≡ t')
unfolding prepare
prepare-cases committed pending t t' h = elim (Bool-cases (is_ready t.phase)) [
  | inr busy ↦ absurd (cc (rw busy at h))
  | inl idle ↦
      elim (Bool-cases (
        not (length committed == t.limits.sequences)
        || not (length pending == t.limits.sequences))) [
          | inl bad ↦ absurd (cc (rw (idle, bad) at h))
          | inr good ↦ elim (Result-cases (needed_pages t.limits committed pending t.active)) [
            | inr (x, bad) ↦ absurd (cc (rw (idle, good, bad) at h))
            | inl (n, found) ↦ elim (Bool-cases (ltb (length t.free_ids) n)) [
              | inl full ↦ absurd (cc (rw (idle, good, found, full) at h))
              | inr room ↦
                  let e : ok (planned committed pending t) ≡ ok t' =
                    rw (idle, good, found, room) at h in
                  (
                    n,
                    ready_of t.phase idle,
                    ground (arith, good),
                    ground (arith, good),
                    found,
                    ground (arith, room),
                    cc,
                  )
            ]
          ]
        ]
]
  where
    ready_of : (p : Phase) → is_ready p ≡ true → p ≡ ready
    ready_of ready h = refl
    ready_of prepared h = cc
    ready_of executing h = cc
    ready_of poisoned h = cc

-- What is promised of a plan.
pub record IsPlanned (committed pending : List ℕ) (t t' : PageTable) : Type 0 where
  pub sound : IsSound (commit (begin_execution t'))
  pub phase : (commit (begin_execution t')).phase ≡ ready
  pub fit : AreFit t.limits t.blocks pending (commit (begin_execution t')).active
  pub kept : AreKept t.limits committed t.active (commit (begin_execution t')).active
  pub discarded : discard_prepared t' ≡ record t { pending = t'.pending; journal = [] }

-- In a sound table, where each page is free or has one place and each row its blocks, a plan for new
-- lengths can be executed and committed, which gives a sound table that is ready: each row has
-- exactly the pages for its new length, and those of the old lengths are where they were. Discarded
-- instead, the table and the free pages are as before.
pub prepare-IsPlanned :
    (committed pending : List ℕ) (t t' : PageTable)
    → IsSound t
    → prepare committed pending t ≡ ok t'
    → IsPlanned committed pending t t'
unfolding begin_execution commit discard_prepared
prepare-IsPlanned committed pending t t' v h =
    let (n, idle, len_committed, len_pending, found, room, same) =
      prepare-cases committed pending t t' h in
    let inside : All (λ id. id < t.limits.physical_pages) t.free_ids =
      All-of_count t.limits.physical_pages t.free_ids (λ a k. ground (arith, v.conserved a, k)) in
    let r =
      assign_rows-IsReserved t.limits t.blocks n committed pending t.active t.free_ids v.page_tokens
        v.wide (omega (arith, len_pending, len_committed)) (omega (arith, v.sized, len_committed))
        v.shaped found room inside in
    let (rows, journal) = assign_rows t.limits committed pending t.active t.free_ids in
    let left : drop (length journal) t.free_ids ≡ r.split.0 =
      ap (drop (length journal)) r.split.1 ∙ drop-append journal r.split.0 in
    let shape = fit-shape t.limits t.blocks pending rows r.fit in
    subst (IsPlanned committed pending t) same (record {
      sound = record {
        page_tokens = v.page_tokens;
        wide = v.wide;
        sized = shape.0 ∙ len_pending;
        shaped = shape.1;
        conserved = λ a. omega (
          arith,
          v.conserved a,
          r.counted a,
          ap (count a) left,
          ap (count a) r.split.1,
          count_append a journal r.split.0,
        );
      };
      phase = refl;
      fit = r.fit;
      kept = r.kept;
      discarded = ap (λ p. record t { phase = p; pending = rows; journal = [] }) (sym idle);
    })

pub prepare-IsReady :
    (committed pending : List ℕ) (t t' : PageTable)
    → prepare committed pending t ≡ ok t'
    → t.phase ≡ ready
prepare-IsReady committed pending t t' h = (prepare-cases committed pending t t' h).1
