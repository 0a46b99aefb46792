-- ===== src/Cuda/PageTable/Reserve.antt =====
-- What `prepare` does to all rows.
use mini_llm_runtime.Base.{
  ℕ, ◌+◌, ◌-◌, ◌<◌, ◌≤◌, ◌≡◌, refl, ap, subst, ◌∙◌, inl, inr, true, ◌||◌, none, List, [], ◌∷◌, ◌++◌,
  arith, ltb, length, length-append, get_or, count, count_append, total, All, div_mono, Bool-cases,
  Result-cases, ok,
}
use mini_llm_runtime.Cuda.PageTable.{
  PageTableLimits, Row, pages_for, good_row, needed_pages, assign_row, assign_rows,
}
use mini_llm_runtime.Cuda.PageTable.Rows.{row_count, IsFit, good_row-IsFit, assign_row-IsAssigned}

-- Each row has the pages for the length of its sequence, and as many entries as there are blocks.
abbrev pub AreFit : PageTableLimits → ℕ → List ℕ → List Row → Type 0
AreFit limits blocks [] [] = Unit
AreFit limits blocks (n ∷ ns) (row ∷ rows) =
    IsFit limits.physical_pages (pages_for limits n) row
    × (length row ≡ blocks)
    × AreFit limits blocks ns rows
AreFit limits blocks [] (row ∷ rows) = ⊥
AreFit limits blocks (n ∷ ns) [] = ⊥

-- The pages of the lengths `ns` are the same in the second rows.
abbrev pub AreKept : PageTableLimits → List ℕ → List Row → List Row → Type 0
AreKept limits (n ∷ ns) (row ∷ rows) (row' ∷ rows') =
    ((i : ℕ) → i < pages_for limits n → get_or row' i none ≡ get_or row i none)
    × AreKept limits ns rows rows'
AreKept limits ns rows rows' = Unit

abbrev pub table_count : ℕ → List Row → ℕ
table_count a rows = total (row_count a) rows

pub record IsReserved (limits : PageTableLimits) (blocks n : ℕ) (cs ps : List ℕ) (rows : List Row)
    (free : List ℕ) (r : List Row × List ℕ) : Type 0 where
  pub fit : AreFit limits blocks ps r.0
  pub kept : AreKept limits cs rows r.0
  pub taken : length r.1 ≡ n
  pub split : (rest : List ℕ) × (free ≡ r.1 ++ rest)
  pub counted : (a : ℕ) → table_count a r.0 ≡ table_count a rows + count a r.1

All-rest : (P : ℕ → Type 0) (xs ys : List ℕ) → All P (xs ++ ys) → All P ys
All-rest P [] ys h = h
All-rest P (x ∷ xs) ys h = All-rest P xs ys h.1

append_assoc : (xs ys zs : List ℕ) → xs ++ (ys ++ zs) ≡ (xs ++ ys) ++ zs
append_assoc [] ys zs = refl
append_assoc (x ∷ xs) ys zs = ap (λ rest. x ∷ rest) (append_assoc xs ys zs)

-- What the check of a row has found.
needed-step :
    (limits : PageTableLimits) (c p n : ℕ) (cs ps : List ℕ) (row : Row) (rows : List Row)
    → needed_pages limits (c ∷ cs) (p ∷ ps) (row ∷ rows) ≡ ok n
    → (m : ℕ) × (p ≤ limits.max_model_len)
      × (c ≤ p)
      × (good_row limits.physical_pages (pages_for limits c) 0 row ≡ true)
      × (needed_pages limits cs ps rows ≡ ok m)
      × (n ≡ pages_for limits p - pages_for limits c + m)
unfolding needed_pages
needed-step limits c p n cs ps row rows h =
    elim (Bool-cases (ltb limits.max_model_len p || ltb p c)) [
      | inl bad ↦ absurd (cc (rw bad at h))
      | inr good ↦ elim (Bool-cases (good_row limits.physical_pages (pages_for limits c) 0 row)) [
        | inr bad ↦ absurd (cc (rw (good, bad) at h))
        | inl fit ↦ elim (Result-cases (needed_pages limits cs ps rows)) [
          | inr (x, bad) ↦ absurd (cc (rw (good, fit, bad) at h))
          | inl (m, found) ↦
              let e : ok (pages_for limits p - pages_for limits c + m) ≡ ok n =
                rw (good, fit, found) at h in
              (m, ground (arith, good), ground (arith, good), fit, found, cc)
        ]
      ]
    ]

pub assign_rows-IsReserved :
    (limits : PageTableLimits) (blocks n : ℕ) (cs ps : List ℕ) (rows : List Row) (free : List ℕ)
    → 0 < limits.page_tokens
    → blocks ≡ pages_for limits limits.max_model_len
    → length ps ≡ length cs
    → length rows ≡ length cs
    → All (λ (row : Row). length row ≡ blocks) rows
    → needed_pages limits cs ps rows ≡ ok n
    → n ≤ length free
    → All (λ id. id < limits.physical_pages) free
    → IsReserved limits blocks n cs ps rows free (assign_rows limits cs ps rows free)
unfolding assign_rows needed_pages
assign_rows-IsReserved limits blocks n [] [] [] free some_tokens wide same_ps same_rows shaped h
      enough small =
    record { fit = tt; kept = tt; taken = cc; split = (free, refl); counted = λ a. omega arith }
assign_rows-IsReserved limits blocks n [] (p ∷ ps) rows free some_tokens wide same_ps same_rows
      shaped h enough small =
    absurd (omega (arith, same_ps))
assign_rows-IsReserved limits blocks n [] [] (row ∷ rows) free some_tokens wide same_ps same_rows
      shaped h enough small =
    absurd (omega (arith, same_rows))
assign_rows-IsReserved limits blocks n (c ∷ cs) [] rows free some_tokens wide same_ps same_rows
      shaped h enough small =
    absurd (omega (arith, same_ps))
assign_rows-IsReserved limits blocks n (c ∷ cs) (p ∷ ps) [] free some_tokens wide same_ps same_rows
      shaped h enough small =
    absurd (omega (arith, same_rows))
assign_rows-IsReserved limits blocks n (c ∷ cs) (p ∷ ps) (row ∷ rows) free some_tokens wide same_ps
      same_rows shaped h enough small =
    let (m, short, grows, fit, later, sum) = needed-step limits c p n cs ps row rows h in
    let k = pages_for limits p - pages_for limits c in
    let up : pages_for limits c ≤ pages_for limits p =
      div_mono (c + limits.page_tokens - 1) (p + limits.page_tokens - 1) limits.page_tokens
        some_tokens (omega (arith, grows)) in
    let below : pages_for limits p ≤ pages_for limits limits.max_model_len =
      div_mono (p + limits.page_tokens - 1) (limits.max_model_len + limits.page_tokens - 1)
        limits.page_tokens some_tokens (omega (arith, short)) in
    let v =
      assign_row-IsAssigned limits.physical_pages k (pages_for limits c) row free
        (good_row-IsFit limits.physical_pages (pages_for limits c) row fit)
        (omega (arith, up, below, shaped.0, wide)) (omega (arith, sum, enough)) small in
    let (row', rest', taken) = assign_row k (pages_for limits c) row free in
    let w =
      assign_rows-IsReserved limits blocks m cs ps rows rest' some_tokens wide
        (omega (arith, same_ps)) (omega (arith, same_rows)) shaped.1 later
        (omega (arith, ap length v.split, length-append taken rest', v.taken, sum, enough))
        (All-rest (λ id. id < limits.physical_pages) taken rest'
          (subst (All (λ id. id < limits.physical_pages)) v.split small)) in
    let (rows', journal) = assign_rows limits cs ps rows rest' in
    let whole : pages_for limits c + k ≡ pages_for limits p = omega (arith, up) in
    record {
      fit = (subst (λ j. IsFit limits.physical_pages j row') whole v.fit, v.same ∙ shaped.0, w.fit);
      kept = (v.kept, w.kept);
      taken = omega (arith, length-append taken journal, v.taken, w.taken, sum);
      split = (
        w.split.0,
        v.split ∙ ap (λ xs. taken ++ xs) w.split.1 ∙ append_assoc taken journal w.split.0,
      );
      counted = λ a. omega (arith, v.counted a, w.counted a, count_append a taken journal);
    }
