-- ===== src/Scheduler/Plan.antt =====
-- What a batch plan guarantees: its budget, its source, and that it makes progress.
use mini_llm_runtime.Base.{
  ℕ, ◌-◌, ◌<◌, ◌≡◌, refl, sym, ap, ◌∙◌, min, Bool, ◌||◌, List, [], ◌∷◌, ◌++◌, if◌then◌else◌, inl,
  inr, Bool-cases, arith, length, is_empty, total, total-stable_sort, stable_sort, stable_sort-All,
}
use mini_llm_runtime.Config.{EngineConfig}
use mini_llm_runtime.Scheduler.{
  ScheduleItem, BatchPlan, before, is_mixed, empty_plan, add_decode, add_prefill, prefill_items,
  decode_items, schedule_batch,
}
use mini_llm_runtime.Scheduler.Slices.{
  decode_slices, prefill_slices, want, add_decode-eq, add_prefill-eq, prefill_items-HasPrefill,
}

-- Whether the decode items take part.
abbrev pub decodes : List ScheduleItem → EngineConfig → Bool
decodes items c = is_mixed c.policy || is_empty (prefill_items items)

module _ (items : List ScheduleItem) (c : EngineConfig) where
  unfoldable pub sorted_prefill : List ScheduleItem
  sorted_prefill = stable_sort (before c.aging_ms) (prefill_items items)

  -- The decode items that take part, in the order in which they are served.
  unfoldable pub served_decode : List ScheduleItem
  served_decode =
      if decodes items c then stable_sort (before c.aging_ms) (decode_items items) else []

  unfoldable pub left_for_prefill : ℕ
  unfolding served_decode
  left_for_prefill = c.batch_tokens - length served_decode

is_empty-length {ℓ} :
    {A : Type ℓ} (xs ys : List A) → length xs ≡ length ys → is_empty xs ≡ is_empty ys
is_empty-length [] [] h = refl
is_empty-length [] (y ∷ ys) h = absurd (omega arith)
is_empty-length (x ∷ xs) [] h = absurd (omega arith)
is_empty-length (x ∷ xs) (y ∷ ys) h = refl

pub length-eq-total {ℓ} : {A : Type ℓ} (xs : List A) → length xs ≡ total (λ _. 1) xs
length-eq-total [] = refl
length-eq-total (x ∷ xs) = omega (arith, length-eq-total xs)

pub length-stable_sort :
    (a : List ScheduleItem) (c : EngineConfig)
    → length (stable_sort (before c.aging_ms) a) ≡ length a
length-stable_sort a c =
    length-eq-total (stable_sort (before c.aging_ms) a)
    ∙ total-stable_sort (before c.aging_ms) (λ _. 1) a
    ∙ sym (length-eq-total a)

decoded-eq :
    (items : List ScheduleItem) (c : EngineConfig) (start : BatchPlan × ℕ)
    → (if is_mixed c.policy || is_empty (sorted_prefill items c)
        then add_decode (stable_sort (before c.aging_ms) (decode_items items)) start
        else start)
      ≡ add_decode (served_decode items c) start
unfolding sorted_prefill served_decode add_decode
decoded-eq items c start =
    let same =
      is_empty-length (sorted_prefill items c) (prefill_items items)
        (length-stable_sort (prefill_items items) c) in
    elim (Bool-cases (decodes items c)) [ inl h ↦ rw (same, h) | inr h ↦ rw (same, h) ]

-- The plan in one equation.
pub schedule_batch-eq :
    (items : List ScheduleItem) (c : EngineConfig)
    → 0 < c.prefill_chunk
    → schedule_batch items c ≡ record {
      slices =
          decode_slices (served_decode items c) c.batch_tokens
          ++ prefill_slices c.prefill_chunk (sorted_prefill items c) (left_for_prefill items c);
      prefill_tokens =
          min (left_for_prefill items c) (total (want c.prefill_chunk) (sorted_prefill items c));
      decode_tokens = min c.batch_tokens (length (served_decode items c));
    }
unfolding schedule_batch left_for_prefill sorted_prefill
schedule_batch-eq items c h =
    ap (λ s. (add_prefill c.prefill_chunk (sorted_prefill items c) s).0)
      (decoded-eq items c (empty_plan, c.batch_tokens)
        ∙ add_decode-eq (served_decode items c) empty_plan c.batch_tokens)
    ∙ ap (λ s. s.0)
        (add_prefill-eq c.prefill_chunk (sorted_prefill items c) _ (left_for_prefill items c) h (
          stable_sort-All (before c.aging_ms) _ (prefill_items items)
            (prefill_items-HasPrefill items)))
    ∙ ground arith
