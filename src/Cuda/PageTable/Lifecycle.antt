-- ===== src/Cuda/PageTable/Lifecycle.antt =====
-- A table from its construction on, through commits, discarded plans and clears.
use mini_llm_runtime.Base.{
  ℕ, zero, suc, ◌+◌, ◌-◌, ◌*◌, ◌<◌, ◌≡◌, refl, sym, ap, subst, ◌∙◌, inl, inr, true, ◌||◌, not,
  Option, none, some, List, [], ◌∷◌, arith, leb, ltb, ◌==◌, if◌then◌else◌, length, length-set,
  length-replicate, get_elem?, get_elem_some, get_or, set, replicate, count, total-set, total-zero,
  All, All-set, All-get_elem, Bool-cases, Result-cases, ok,
}
use mini_llm_runtime.Config.{paged, checked_kv_capacity, kv_page_tokens}
use mini_llm_runtime.Cuda.PageTable.{
  ready, is_ready, PageTableLimits, Row, PageTable, pages_for, iota, construct, prepare,
  begin_execution, commit, discard_prepared, released_pages, release_row, clear,
}
use mini_llm_runtime.Cuda.PageTable.Rows.{row_count}
use mini_llm_runtime.Cuda.PageTable.Conservation.{IsSound, prepare-IsPlanned}

row_count-none : (a n : ℕ) → row_count a (replicate n none) ≡ 0
row_count-none a zero = refl
row_count-none a (suc n) = omega (arith, row_count-none a n)

count-release_row :
    (a : ℕ) (row : Row) (free : List ℕ)
    → count a (release_row row free) ≡ row_count a row + count a free
unfolding release_row
count-release_row a [] free = omega arith
count-release_row a (none ∷ row) free = omega (arith, count-release_row a row free)
count-release_row a (some id ∷ row) free = omega (arith, count-release_row a row (id ∷ free))

count-iota : (a n : ℕ) → count a (iota n) ≡ (if ltb a n then 1 else 0)
unfolding iota
count-iota a zero = ground arith
count-iota a (suc n) = ground (arith, count-iota a n)

All-replicate : {A : Type 0} (P : A → Type 0) (n : ℕ) (x : A) → P x → All P (replicate n x)
All-replicate P zero x h = tt
All-replicate P (suc n) x h = (h, All-replicate P n x h)

get_elem-or :
    (rows : List Row) (i : ℕ) (row d : Row) → get_elem? rows i ≡ some row → get_or rows i d ≡ row
get_elem-or [] i row d h = cc
get_elem-or (x ∷ rows) zero row d h = cc
get_elem-or (x ∷ rows) (suc i) row d h = get_elem-or rows i row d h

clear-IsSound :
    (s : ℕ) (t t' : PageTable) → IsSound t → clear s t ≡ ok t' → IsSound t' × (t'.phase ≡ t.phase)
unfolding clear
clear-IsSound s t t' v h = elim (Bool-cases (is_ready t.phase)) [
  | inr busy ↦ absurd (cc (rw busy at h))
  | inl idle ↦ elim (Bool-cases (leb t.limits.sequences s)) [
    | inl out ↦ absurd (cc (rw (idle, out) at h))
    | inr inside ↦
        elim (Result-cases (released_pages t.limits.physical_pages (get_or t.active s []))) [
          | inr (x, bad) ↦ absurd (cc (rw (idle, inside, bad) at h))
          | inl (n, found) ↦
              elim (Bool-cases (ltb (t.limits.physical_pages - length t.free_ids) n)) [
                | inl much ↦ absurd (cc (rw (idle, inside, found, much) at h))
                | inr fine ↦
                    let e : ok (emptied n) ≡ ok t' = rw (idle, inside, found, fine) at h in
                    let same : emptied n ≡ t' = cc in
                    subst (λ (u : PageTable). IsSound u × (u.phase ≡ t.phase)) same
                      (emptied-IsSound n (ground (arith, inside)), refl)
              ]
        ]
  ]
]
  where
    emptied : ℕ → PageTable
    emptied n = record t {
      free_ids = release_row (get_or t.active s []) t.free_ids;
      active = set t.active s (replicate (length (get_or t.active s [])) none);
      dirty = t.dirty || not (n == 0);
    }

    emptied-IsSound : (n : ℕ) → s < t.limits.sequences → IsSound (emptied n)
    emptied-IsSound n small =
        let (row, there) = get_elem_some t.active s (omega (arith, small, v.sized)) in
        let is_row : get_or t.active s [] ≡ row = get_elem-or t.active s row [] there in
        let bare = replicate {A = Option ℕ} (length (get_or t.active s [])) none in
        record {
          page_tokens = v.page_tokens;
          wide = v.wide;
          sized = length-set t.active s bare ∙ v.sized;
          shaped =
              All-set (λ (r : Row). length r ≡ t.blocks) t.active s bare v.shaped
                (length-replicate (length (get_or t.active s [])) none
                  ∙ ap length is_row
                  ∙ All-get_elem (λ (r : Row). length r ≡ t.blocks) t.active s row v.shaped there);
          conserved = λ a. omega (
            arith,
            v.conserved a,
            count-release_row a (get_or t.active s []) t.free_ids,
            ap (row_count a) is_row,
            total-set (row_count a) t.active s row bare there,
            row_count-none a (length (get_or t.active s [])),
          );
        }

-- The capacity contract fixes the size of a page.
capacity-page_tokens :
    (sequences max_model_len capacity page_tokens n : ℕ)
    → checked_kv_capacity paged sequences max_model_len capacity page_tokens ≡ ok n
    → 0 < page_tokens
unfolding checked_kv_capacity
capacity-page_tokens sequences max_model_len capacity page_tokens n h =
    elim (Bool-cases (
      sequences == 0
      || ltb 4 sequences
      || max_model_len == 0
      || ltb 2048 max_model_len
      || not (page_tokens == kv_page_tokens))) [
        | inl bad ↦ absurd (cc (rw bad at h))
        | inr good ↦ ground (arith, good)
      ]

abbrev built : PageTableLimits → PageTable
built limits =
    let blocks = pages_for limits limits.max_model_len in
    let table = replicate limits.sequences (replicate {A = Option ℕ} blocks none) in
    record {
      limits = limits;
      blocks = blocks;
      active = table;
      pending = table;
      free_ids = iota limits.physical_pages;
      journal = [];
      phase = ready;
      dirty = true;
    }

built-IsSound : (limits : PageTableLimits) → 0 < limits.page_tokens → IsSound (built limits)
built-IsSound limits some_tokens =
    let blocks = pages_for limits limits.max_model_len in
    let row = replicate {A = Option ℕ} blocks none in
    record {
      page_tokens = some_tokens;
      wide = refl;
      sized = length-replicate limits.sequences row;
      shaped =
          All-replicate (λ (r : Row). length r ≡ blocks) limits.sequences row
            (length-replicate {A = Option ℕ} blocks none);
      conserved = λ a. omega (
        arith,
        total-zero (row_count a) (replicate limits.sequences row) (
            All-replicate (λ (r : Row). row_count a r ≡ 0) limits.sequences row
              (row_count-none a blocks)),
        count-iota a limits.physical_pages,
      );
    }

construct-IsSound :
    (limits : PageTableLimits) (t : PageTable)
    → construct limits ≡ ok t
    → IsSound t × (t.phase ≡ ready)
unfolding construct
construct-IsSound limits t h =
    elim (Bool-cases (limits.physical_pages == 0 || ltb 512 limits.physical_pages)) [
      | inl bad ↦ absurd (cc (rw bad at h))
      | inr good ↦
          elim (Result-cases (
            checked_kv_capacity paged limits.sequences limits.max_model_len
              (limits.physical_pages * kv_page_tokens) limits.page_tokens)) [
                | inr (x, bad) ↦ absurd (cc (rw (good, bad) at h))
                | inl (n, capacity) ↦
                    let e : ok (built limits) ≡ ok t = rw (good, capacity) at h in
                    let same : built limits ≡ t = cc in
                    subst (λ (u : PageTable). IsSound u × (u.phase ≡ ready)) same
                      (
                        built-IsSound limits (
                            capacity-page_tokens limits.sequences limits.max_model_len
                              (limits.physical_pages * kv_page_tokens) limits.page_tokens n
                              capacity),
                        refl,
                      )
              ]
    ]

-- What a caller does between two states that are ready.
pub data Step (t : PageTable) : PageTable → Type 0 where
  commits :
      {t' : PageTable} (committed pending : List ℕ)
      → prepare committed pending t ≡ ok t'
      → Step t (commit (begin_execution t'))
  discards :
      {t' : PageTable} (committed pending : List ℕ)
      → prepare committed pending t ≡ ok t'
      → Step t (discard_prepared t')
  clears : {t' : PageTable} (s : ℕ) → clear s t ≡ ok t' → Step t t'

pub data Reach (t : PageTable) : PageTable → Type 0 where
  here : Reach t t
  later : {u w : PageTable} → Reach t u → Step u w → Reach t w

Step-IsSound :
    {t u : PageTable} → Step t u → IsSound t → t.phase ≡ ready → IsSound u × (u.phase ≡ ready)
Step-IsSound (commits committed pending h) v idle =
    let plan = prepare-IsPlanned committed pending _ _ v h in (plan.sound, plan.phase)
Step-IsSound {t = t} (discards {t' = t'} committed pending h) v idle =
    let plan = prepare-IsPlanned committed pending t t' v h in
    subst (λ (w : PageTable). IsSound w × (w.phase ≡ ready)) (sym plan.discarded)
      (
        record {
          page_tokens = v.page_tokens;
          wide = v.wide;
          sized = v.sized;
          shaped = v.shaped;
          conserved = v.conserved;
        },
        idle,
      )
Step-IsSound (clears s h) v idle =
    let (sound, same) = clear-IsSound s _ _ v h in (sound, same ∙ idle)

Reach-IsSound :
    {t u : PageTable} → Reach t u → IsSound t → t.phase ≡ ready → IsSound u × (u.phase ≡ ready)
Reach-IsSound here v idle = (v, idle)
Reach-IsSound (later r s) v idle =
    let (sound, idle') = Reach-IsSound r v idle in Step-IsSound s sound idle'

-- From a table that the constructor builds, through any plans, committed or discarded, and clears, the
-- table is ready and sound: each physical page is on the free list once and in no row, or in one
-- place of one row and not free, and no other id occurs.
pub reached-IsSound :
    (limits : PageTableLimits) (t u : PageTable)
    → construct limits ≡ ok t
    → Reach t u
    → IsSound u × (u.phase ≡ ready)
reached-IsSound limits t u built_t r =
    let (sound, idle) = construct-IsSound limits t built_t in Reach-IsSound r sound idle
