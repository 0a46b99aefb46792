-- ===== src/Scheduler/Guarantees.antt =====
-- What a batch plan guarantees: its budget, the source of its slices, and that it makes progress.
use mini_llm_runtime.Base.{
  ℕ, ◌+◌, ◌-◌, ◌≤◌, ◌<◌, ◌≡◌, ◌≢◌, refl, ap, ◌∙◌, min, List, [], ◌∷◌, ◌==◌, if◌then◌else◌, inl, inr,
  Bool-cases, arith, length, is_empty, total, total-append, total-stable_sort, stable_sort-All, All,
  All-append,
}
use mini_llm_runtime.Config.{EngineConfig}
use mini_llm_runtime.Scheduler.{
  ScheduleItem, ScheduledSlice, token_count, before, prefill_items, decode_items, schedule_batch,
}
use mini_llm_runtime.Scheduler.Slices.{
  decode_slices, prefill_slices, want, total-division, prefill_items-HasPrefill,
}
use mini_llm_runtime.Scheduler.Sources.{
  FromItems, keyed_slices, keyed_items, decode_slices-keys, prefill_slices-keys,
  decode_slices-FromItems, prefill_slices-FromItems, divided-In,
}
use mini_llm_runtime.Scheduler.Plan.{
  decodes, sorted_prefill, served_decode, left_for_prefill, schedule_batch-eq, length-stable_sort,
  length-eq-total,
}

-- The tokens of a plan's slices, by kind.
abbrev pub prefill_sum : List ScheduledSlice → ℕ
prefill_sum = total (λ s. if s.prefill then s.tokens else 0)

abbrev pub decode_sum : List ScheduledSlice → ℕ
decode_sum = total (λ s. if s.prefill then 0 else s.tokens)

decode_slices-sums :
    (xs : List ScheduleItem) (r : ℕ)
    → (prefill_sum (decode_slices xs r) ≡ 0) × (decode_sum (decode_slices xs r) ≡ min r (length xs))
unfolding decode_slices
decode_slices-sums [] r = omega arith
decode_slices-sums (x ∷ xs) r = ground (arith, decode_slices-sums xs (r - 1))

prefill_slices-sums :
    (chunk : ℕ) (xs : List ScheduleItem) (r : ℕ)
    → 0 < chunk
    → All (λ x. 0 < x.prefill_remaining) xs
    → (prefill_sum (prefill_slices chunk xs r) ≡ min r (total (want chunk) xs))
      × (decode_sum (prefill_slices chunk xs r) ≡ 0)
unfolding prefill_slices
prefill_slices-sums chunk [] r h a = omega arith
prefill_slices-sums chunk (x ∷ xs) r h a =
    ground (arith, prefill_slices-sums chunk xs (r - min (min r x.prefill_remaining) chunk) h a.1)

length-le-want :
    (chunk : ℕ) (xs : List ScheduleItem)
    → 0 < chunk
    → All (λ x. 0 < x.prefill_remaining) xs
    → length xs ≤ total (want chunk) xs
length-le-want chunk [] h a = omega arith
length-le-want chunk (x ∷ xs) h a = omega (arith, length-le-want chunk xs h a.1)

length-division :
    (items : List ScheduleItem)
    → length (prefill_items items) + length (decode_items items) ≡ length items
length-division items = omega (
  arith,
  length-eq-total (prefill_items items),
  length-eq-total (decode_items items),
  length-eq-total items,
  total-division (λ _. 1) items,
)

length_pos : (xs : List ScheduleItem) → xs ≢ [] → 0 < length xs
length_pos [] h = absurd (h refl)
length_pos (x ∷ xs) h = omega arith

is_empty-eq : (xs : List ScheduleItem) → is_empty xs ≡ (length xs == 0)
is_empty-eq [] = refl
is_empty-eq (x ∷ xs) = ground arith

length-served_decode :
    (items : List ScheduleItem) (c : EngineConfig)
    → length (served_decode items c) ≡ (if decodes items c then length (decode_items items) else 0)
unfolding served_decode
length-served_decode items c = ground (arith, length-stable_sort (decode_items items) c)

served_decode-keys :
    (k : ℕ) (items : List ScheduleItem) (c : EngineConfig)
    → keyed_items k (served_decode items c) ≤ keyed_items k (decode_items items)
unfolding served_decode
served_decode-keys k items c = ground (
  arith,
  total-stable_sort (before c.aging_ms) (λ i. if i.key == k then 1 else 0) (decode_items items),
)

served_decode-All :
    (P : ScheduleItem → Type 0) (items : List ScheduleItem) (c : EngineConfig)
    → All P (decode_items items)
    → All P (served_decode items c)
unfolding served_decode
served_decode-All P items c h = elim (Bool-cases (decodes items c)) [
  | inl e ↦ rw e (stable_sort-All (before c.aging_ms) P (decode_items items) h)
  | inr e ↦ rw e tt
]

module _ (items : List ScheduleItem) (c : EngineConfig) (chunk_pos : 0 < c.prefill_chunk) where
  -- The token budget of a batch: it never exceeds `batch_tokens`, the plan's two counters are the
  -- tokens of its slices, and the batch is as full as the items allow: where decode items take
  -- part each gets one token while tokens remain, and the rest goes to the prompts, of each no
  -- more than a chunk.
  pub schedule_batch-tokens :
      let p = schedule_batch items c in
      (token_count p ≤ c.batch_tokens)
      × (prefill_sum p.slices ≡ p.prefill_tokens)
      × (decode_sum p.slices ≡ p.decode_tokens)
      × (p.decode_tokens
          ≡ (if decodes items c then min c.batch_tokens (length (decode_items items)) else 0))
      × (p.prefill_tokens
          ≡ min
              (c.batch_tokens - p.decode_tokens)
              (total (want c.prefill_chunk) (prefill_items items)))
  unfolding sorted_prefill left_for_prefill
  schedule_batch-tokens =
      let decoded = decode_slices-sums (served_decode items c) c.batch_tokens in
      let filled =
        prefill_slices-sums c.prefill_chunk (sorted_prefill items c) (left_for_prefill items c)
          chunk_pos
          (stable_sort-All (before c.aging_ms) _ (prefill_items items)
            (prefill_items-HasPrefill items)) in
      let wanted =
        total-stable_sort (before c.aging_ms) (want c.prefill_chunk) (prefill_items items) in
      let served = length-served_decode items c in
      rw (schedule_batch-eq items c chunk_pos) (
        omega arith,
        total-append _ (decode_slices (served_decode items c) c.batch_tokens) _ ∙ omega arith,
        total-append _ (decode_slices (served_decode items c) c.batch_tokens) _ ∙ omega arith,
        ground arith,
        omega arith,
      )

  -- Every slice stems from an item of the input.
  pub schedule_batch-FromItems :
      All (FromItems c.prefill_chunk items) (schedule_batch items c).slices
  unfolding sorted_prefill
  schedule_batch-FromItems =
      let (of_decode, of_prefill) = divided-In c.prefill_chunk items items (λ x m. m) in
      rw (schedule_batch-eq items c chunk_pos) (
        All-append _ (decode_slices (served_decode items c) c.batch_tokens) _
          (decode_slices-FromItems c.prefill_chunk items _ c.batch_tokens
            (served_decode-All _ items c of_decode))
          (prefill_slices-FromItems c.prefill_chunk items _ (left_for_prefill items c)
            (stable_sort-All (before c.aging_ms) _ (prefill_items items) of_prefill)))

  -- No key is scheduled more often than it occurs among the items.
  pub schedule_batch-keys :
      (k : ℕ) → keyed_slices k (schedule_batch items c).slices ≤ keyed_items k items
  unfolding sorted_prefill
  schedule_batch-keys k = rw (schedule_batch-eq items c chunk_pos) (
      omega (
        arith,
        total-append (λ (s : ScheduledSlice). if s.key == k then 1 else 0)
            (decode_slices (served_decode items c) c.batch_tokens)
            (prefill_slices c.prefill_chunk (sorted_prefill items c) (left_for_prefill items c)),
        decode_slices-keys k (served_decode items c) c.batch_tokens,
        prefill_slices-keys k c.prefill_chunk (sorted_prefill items c) (left_for_prefill items c),
        served_decode-keys k items c,
        total-stable_sort (before c.aging_ms) (λ i. if i.key == k then 1 else 0)
            (prefill_items items),
        total-division (λ i. if i.key == k then 1 else 0) items,
      ))

  -- With a token to spend and a request to serve the plan is not empty.
  pub schedule_batch-progress :
      0 < c.batch_tokens → items ≢ [] → (schedule_batch items c).slices ≢ []
  schedule_batch-progress room some_item none_planned =
      let (within, filled, decoded, drawn, granted) = schedule_batch-tokens in
      ground (
        arith,
        ap prefill_sum none_planned,
        ap decode_sum none_planned,
        length-le-want c.prefill_chunk (prefill_items items) chunk_pos
            (prefill_items-HasPrefill items),
        length-division items,
        length_pos items some_item,
        is_empty-eq (prefill_items items),
      )
