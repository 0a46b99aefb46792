-- ===== src/CudaRunner/Contract.antt =====
-- The samples that the runner returns pass the engine's checks, and after an error the runner is
-- not used again.
use mini_llm_runtime.Base.{
  ℕ, suc, ◌+◌, ◌<◌, ◌≡◌, refl, sym, ap, subst, ◌∙◌, inl, inr, ◌⊎◌, ℤ, pos, negsuc, pos_part, Bool,
  true, false, ◌||◌, not, Option, none, some, List, [], ◌∷◌, arith, leb, ltb, ltb_ℤ, ◌==◌, is_empty,
  length, length-set, length-replicate, get_elem?, get_or, get_or-set, set, replicate, contains,
  All, All-map, Bool-cases, Result-cases, Result, ok, err,
}
use mini_llm_runtime.Runner.{BatchToken, Sample}
use mini_llm_runtime.Engine.Batch.{logits_sequences, check_expected, check_samples, is_negative}
use mini_llm_runtime.CudaRunner.{
  CudaSample, CudaForwardResult, CudaRuntime, MiniCudaRunner, select_loop, sequence_at, bad_sample,
  check_outputs, check_result, healthy, fail_stop, finish_forward, execute,
}

abbrev pub sequences_at : List BatchToken → List ℕ → List ℕ
sequences_at batch [] = []
sequences_at batch (i ∷ indices) = sequence_at batch i ∷ sequences_at batch indices

-- What holds of the indices that the loop over the batch returns.
pub record IsSelected (limit : ℕ) (batch ts : List BatchToken) (seen : List ℕ) (indices : List ℕ)
    : Type 0 where
  pub named : logits_sequences ts ≡ sequences_at batch indices
  pub distinct : check_expected limit seen (logits_sequences ts) ≡ some (ok tt)
  pub bounded : All (λ s. s < limit) (logits_sequences ts)

select-step :
    (limit i : ℕ) (t : BatchToken) (ts : List BatchToken) (selected : List Bool) (out : List ℕ)
    → select_loop limit i (t ∷ ts) selected ≡ ok out
    → (t.sequence < limit)
      × ((t.logits ≡ false) × (select_loop limit (i + 1) ts selected ≡ ok out)
          ⊎ (rest : List ℕ) × (t.logits ≡ true)
            × (get_or selected t.sequence false ≡ false)
            × (out ≡ i ∷ rest)
            × (select_loop limit (i + 1) ts (set selected t.sequence true) ≡ ok rest))
unfolding select_loop
select-step limit i t ts selected out h = elim (Bool-cases (leb limit t.sequence)) [
  | inl out_of ↦ absurd (cc (rw out_of at h))
  | inr inside ↦ (
    ground (arith, inside),
    elim (Bool-cases t.logits) [
      | inr quiet ↦ inl (quiet, rw (inside, quiet) at h)
      | inl loud ↦ elim (Bool-cases (get_or selected t.sequence false)) [
        | inl again ↦ absurd (cc (rw (inside, loud, again) at h))
        | inr fresh ↦
            elim (Result-cases (select_loop limit (i + 1) ts (set selected t.sequence true))) [
              | inr (x, bad) ↦ absurd (cc (rw (inside, loud, fresh, bad) at h))
              | inl (rest, good) ↦
                  let e : ok (i ∷ rest) ≡ ok out = rw (inside, loud, fresh, good) at h in
                  inr (rest, loud, fresh, cc, good)
            ]
      ]
    ],
  )
]

select-IsSelected :
    (limit i : ℕ) (batch ts : List BatchToken) (selected : List Bool) (seen out : List ℕ)
    → length selected ≡ limit
    → ((s : ℕ) → contains s seen ≡ true → get_or selected s false ≡ true)
    → ((j : ℕ) → get_elem? batch (i + j) ≡ get_elem? ts j)
    → select_loop limit i ts selected ≡ ok out
    → IsSelected limit batch ts seen out
unfolding logits_sequences check_expected select_loop
select-IsSelected limit i batch [] selected seen out sized marks there h =
    let none_left : [] ≡ out = cc in
    record { named = ap (sequences_at batch) none_left; distinct = refl; bounded = tt }
select-IsSelected limit i batch (t ∷ ts) selected seen out sized marks there h =
    let (inside, step) = select-step limit i t ts selected out h in
    let next : (j : ℕ) → get_elem? batch (i + 1 + j) ≡ get_elem? ts j = λ j.
      let same : i + 1 + j ≡ i + suc j = omega arith in ap (get_elem? batch) same ∙ there (suc j) in
    elim step [
      | inl (quiet, left) ↦
          let v =
            select-IsSelected limit (i + 1) batch ts selected seen out sized marks next left in
          record {
            named = rw quiet v.named;
            distinct = rw quiet v.distinct;
            bounded = rw quiet v.bounded;
          }
      | inr (rest, loud, fresh, same, left) ↦
          let first : t.sequence ≡ sequence_at batch i =
            let here : i ≡ i + 0 = omega arith in
            sym (
              ap (λ (o : Option BatchToken). elim o [ none ↦ 0 | some u ↦ u.sequence ])
                (ap (get_elem? batch) here ∙ there 0)) in
          let new : contains t.sequence seen ≡ false =
            elim (Bool-cases (contains t.sequence seen)) [
              | inl old ↦ absurd (cc (marks t.sequence old, fresh))
              | inr n ↦ n
            ] in
          let low : leb limit t.sequence ≡ false = ground (arith, inside) in
          let v =
            select-IsSelected limit (i + 1) batch ts (set selected t.sequence true)
              (t.sequence ∷ seen) rest (length-set selected t.sequence true ∙ sized)
              (λ s m.
                ground
                  (arith, get_or-set selected t.sequence s true false, marks s, m, sized, inside))
              next left in
          record {
            named =
                rw (loud, same)
                  (ap (λ x. x ∷ logits_sequences ts) first
                    ∙ ap (λ xs. sequence_at batch i ∷ xs) v.named);
            distinct = rw (loud, low, new) v.distinct;
            bounded = rw loud (inside, v.bounded);
          }
    ]

contains-weaken : (s x : ℕ) (xs : List ℕ) → contains s xs ≡ true → contains s (x ∷ xs) ≡ true
contains-weaken s x xs h = ground (arith, h)

All-contains : (xs : List ℕ) → All (λ s. contains s xs ≡ true) xs
All-contains [] = tt
All-contains (x ∷ xs) =
    (ground arith, All-map xs (λ s h. contains-weaken s x xs h) (All-contains xs))

expected-step :
    (limit s : ℕ) (seen rest : List ℕ)
    → check_expected limit seen (s ∷ rest) ≡ some (ok tt)
    → (contains s seen ≡ false) × (check_expected limit (s ∷ seen) rest ≡ some (ok tt))
unfolding check_expected
expected-step limit s seen rest h = elim (Bool-cases (leb limit s)) [
  | inl out ↦ absurd (cc (rw out at h))
  | inr low ↦ elim (Bool-cases (contains s seen)) [
    | inl old ↦ absurd (cc (rw (low, old) at h))
    | inr new ↦ (new, rw (low, new) at h)
  ]
]

outputs-step :
    (vocabulary i : ℕ) (batch : List BatchToken) (indices : List ℕ) (s : CudaSample)
    (samples : List CudaSample) (out : List Sample)
    → check_outputs vocabulary batch (i ∷ indices) (s ∷ samples) ≡ ok out
    → (rest : List Sample) × (bad_sample vocabulary batch i s ≡ false)
      × (out ≡ record { sequence = s.sequence; token = s.token } ∷ rest)
      × (check_outputs vocabulary batch indices samples ≡ ok rest)
unfolding check_outputs
outputs-step vocabulary i batch indices s samples out h =
    elim (Bool-cases (bad_sample vocabulary batch i s)) [
      | inl bad ↦ absurd (cc (rw bad at h))
      | inr good ↦ elim (Result-cases (check_outputs vocabulary batch indices samples)) [
        | inr (x, bad) ↦ absurd (cc (rw (good, bad) at h))
        | inl (rest, found) ↦
            let e : ok (record { sequence = s.sequence; token = s.token } ∷ rest) ≡ ok out =
              rw (good, found) at h in
            (rest, good, cc, found)
      ]
    ]

natural : (z : ℤ) → ltb_ℤ z (pos 0) ≡ false → is_negative z ≡ false
natural (pos n) h = refl
natural (negsuc n) h = absurd (ground (arith, h))

outputs-checked :
    (limit vocabulary : ℕ) (batch : List BatchToken) (indices expected sampled : List ℕ)
    (samples : List CudaSample) (out : List Sample)
    → length samples ≡ length indices
    → check_outputs vocabulary batch indices samples ≡ ok out
    → check_expected limit sampled (sequences_at batch indices) ≡ some (ok tt)
    → All (λ s. (s < limit) × (contains s expected ≡ true)) (sequences_at batch indices)
    → (length out ≡ length (sequences_at batch indices))
      × (check_samples limit vocabulary expected sampled out ≡ ok tt)
unfolding check_outputs check_samples
outputs-checked limit vocabulary batch [] expected sampled [] out same h distinct known =
    let none_left : [] ≡ out = cc in
    (
      ap length (sym none_left),
      ap (check_samples limit vocabulary expected sampled) (sym none_left),
    )
outputs-checked limit vocabulary batch [] expected sampled (s ∷ samples) out same h distinct known =
    absurd (omega (arith, same))
outputs-checked limit vocabulary batch (i ∷ indices) expected sampled [] out same h distinct known =
    absurd (omega (arith, same))
outputs-checked limit vocabulary batch (i ∷ indices) expected sampled (s ∷ samples) out same h
      distinct known =
    let (rest, good, shape, later) = outputs-step vocabulary i batch indices s samples out h in
    let at : pos_part s.sequence ≡ sequence_at batch i = ground (arith, good) in
    let (new, distinct') =
      expected-step limit (sequence_at batch i) sampled (sequences_at batch indices) distinct in
    let (long, passed) =
      outputs-checked limit vocabulary batch indices expected (sequence_at batch i ∷ sampled)
        samples rest (omega (arith, same)) later distinct' known.1 in
    let n1 : is_negative s.sequence ≡ false = natural s.sequence (ground (arith, good)) in
    let n2 : leb limit (pos_part s.sequence) ≡ false = ground (arith, known.0.0, at) in
    let n3 : contains (pos_part s.sequence) expected ≡ true =
      ap (λ x. contains x expected) at ∙ known.0.1 in
    let n4 : contains (pos_part s.sequence) sampled ≡ false =
      ap (λ x. contains x sampled) at ∙ new in
    let n5 : is_negative s.token ≡ false = natural s.token (ground (arith, good)) in
    let n6 : leb vocabulary (pos_part s.token) ≡ false = ground (arith, good) in
    (
      ap length shape ∙ ap suc long,
      ap (check_samples limit vocabulary expected sampled) shape
          ∙ rw (n1, n2, n3, n4, n5, n6)
              (subst (λ x. check_samples limit vocabulary expected (x ∷ sampled) rest ≡ ok tt)
                (sym at) passed),
    )

result-step :
    (vocabulary : ℕ) (batch : List BatchToken) (indices : List ℕ) (r : CudaForwardResult)
    (out : List Sample)
    → check_result vocabulary batch indices r ≡ ok out
    → (length r.samples ≡ length indices)
      × (check_outputs vocabulary batch indices r.samples ≡ ok out)
unfolding check_result
result-step vocabulary batch indices r out h =
    elim (Bool-cases (not (length r.samples == length indices) || r.has_logits || r.has_elapsed)) [
      | inl bad ↦ absurd (cc (rw bad at h))
      | inr good ↦ (ground (arith, good), rw good at h)
    ]

module _ {S : Type 0} (rt : CudaRuntime S) where
  -- What the engine relies on: a call of `execute` returns or makes the runner unusable.
  abbrev pub IsFailStop :
      List BatchToken → MiniCudaRunner S → Result (List Sample) × MiniCudaRunner S → Type 0
  IsFailStop batch r (err x, after) = healthy rt after ≡ false
  IsFailStop batch r (ok samples, after) =
      (healthy rt r ≡ true)
      × (length samples ≡ length (logits_sequences batch))
      × (check_expected rt.max_sequences [] (logits_sequences batch) ≡ some (ok tt))
      × (check_samples rt.max_sequences rt.vocabulary (logits_sequences batch) [] samples ≡ ok tt)

  finish-IsFailStop :
      (batch : List BatchToken) (r : MiniCudaRunner S) (indices : List ℕ)
      (f : Result CudaForwardResult × S)
      → healthy rt r ≡ true
      → IsSelected rt.max_sequences batch batch [] indices
      → IsFailStop batch r (finish_forward rt batch indices r.reusable f)
  finish-IsFailStop batch r indices (err x, s) well v = refl
  finish-IsFailStop batch r indices (ok result, s) well v =
      checked (check_result rt.vocabulary batch indices result) refl
    where
      both :
          (expected xs : List ℕ)
          → All (λ s. s < rt.max_sequences) xs
          → All (λ s. contains s expected ≡ true) xs
          → All (λ s. (s < rt.max_sequences) × (contains s expected ≡ true)) xs
      both expected [] a b = tt
      both expected (x ∷ xs) a b = ((a.0, b.0), both expected xs a.1 b.1)

      checked :
          (c : Result (List Sample))
          → check_result rt.vocabulary batch indices result ≡ c
          → IsFailStop batch r (elim c [
            | err x ↦ (err x, fail_stop rt s)
            | ok samples ↦ (ok samples, record { runtime = s; reusable = r.reusable })
          ])
      checked (err x) h = refl
      checked (ok out) h =
          let (same, found) = result-step rt.vocabulary batch indices result out h in
          let known =
            both (logits_sequences batch) (logits_sequences batch) v.bounded
              (All-contains (logits_sequences batch)) in
          let (long, passed) =
            outputs-checked rt.max_sequences rt.vocabulary batch indices (logits_sequences batch) []
              result.samples out same found
              (subst (λ xs. check_expected rt.max_sequences [] xs ≡ some (ok tt)) v.named
                v.distinct)
              (subst
                (All (λ s. (s < rt.max_sequences) × (contains s (logits_sequences batch) ≡ true)))
                v.named known) in
          (well, long ∙ ap length (sym v.named), v.distinct, passed)

  -- Whatever the runtime does, `execute` returns only for a healthy runner, and then the samples pass
  -- the checks of the engine against the batch: as many as its tokens with logits, whose sequences are
  -- distinct, each for one of these sequences, none twice, with its token in the vocabulary. When
  -- `execute` throws, the runner is not healthy any more.
  pub execute-IsFailStop :
      (batch : List BatchToken) (r : MiniCudaRunner S) → IsFailStop batch r (execute rt batch r)
  unfolding execute
  execute-IsFailStop batch r = elim (Bool-cases (healthy rt r)) [
    | inr down ↦ rw (down, IsFailStop) refl
    | inl well ↦
        rw (well, IsFailStop)
          (elim (Bool-cases (is_empty batch || ltb rt.batch_tokens (length batch))) [
            | inl bad ↦ rw (bad, IsFailStop) refl
            | inr fits ↦
                rw (fits, IsFailStop)
                  (elim (Result-cases
                    (select_loop rt.max_sequences 0 batch (replicate rt.max_sequences false))) [
                      | inr (x, bad) ↦ rw (bad, IsFailStop) refl
                      | inl (indices, chosen) ↦
                          rw (chosen, IsFailStop)
                            (finish-IsFailStop batch r indices (rt.forward batch r.runtime) well (
                              select-IsSelected rt.max_sequences 0 batch batch
                                (replicate rt.max_sequences false) [] indices
                                (length-replicate rt.max_sequences false) (λ s m. cc)
                                (λ j.
                                  let same : 0 + j ≡ j = omega arith in ap (get_elem? batch) same)
                                chosen))
                    ])
          ])
  ]
