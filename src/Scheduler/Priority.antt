-- ===== src/Scheduler/Priority.antt =====
-- No inversion of priorities: an item is served only where all items before it have got their share.
use mini_llm_runtime.Base.{
  ℕ, ◌-◌, ◌≤◌, ◌<◌, ◌≡◌, refl, ap, ◌∙◌, min, true, false, List, [], ◌∷◌, ◌==◌, if◌then◌else◌, inl,
  inr, Bool-cases, arith, ℤ, In, All-In, stable_sort-In, total, total-append, total-stable_sort,
  stable_sort-IsOrdered, IsOrdered,
}
use mini_llm_runtime.Config.{EngineConfig}
use mini_llm_runtime.Scheduler.{
  ScheduleItem, ScheduledSlice, BatchPlan, before, prefill_items, schedule_batch,
}
use mini_llm_runtime.Scheduler.Slices.{decode_slices, prefill_slices, want, total-division}
use mini_llm_runtime.Scheduler.Sources.{keyed_items}
use mini_llm_runtime.Scheduler.Order.{before_irrefl, before_asym, before_neg_trans}
use mini_llm_runtime.Scheduler.Plan.{
  sorted_prefill, served_decode, left_for_prefill, schedule_batch-eq,
}

-- The prompt tokens that a plan grants to a key.
abbrev pub granted : ℕ → List ScheduledSlice → ℕ
granted k = total (λ s. if s.key == k then (if s.prefill then s.tokens else 0) else 0)

granted-decode_slices :
    (k : ℕ) (xs : List ScheduleItem) (r : ℕ) → granted k (decode_slices xs r) ≡ 0
unfolding decode_slices
granted-decode_slices k [] r = refl
granted-decode_slices k (x ∷ xs) r = ground (arith, granted-decode_slices k xs (r - 1))

granted_zero : (k chunk : ℕ) (xs : List ScheduleItem) → granted k (prefill_slices chunk xs 0) ≡ 0
unfolding prefill_slices
granted_zero k chunk [] = refl
granted_zero k chunk (x ∷ xs) = ground arith

granted_absent :
    (k chunk r : ℕ) (xs : List ScheduleItem)
    → keyed_items k xs ≡ 0
    → granted k (prefill_slices chunk xs r) ≡ 0
unfolding prefill_slices
granted_absent k chunk r [] h = refl
granted_absent k chunk r (x ∷ xs) h =
    ground (arith, granted_absent k chunk (r - min (min r x.prefill_remaining) chunk) xs)

keyed_items_pos : (x : ScheduleItem) (xs : List ScheduleItem) → In x xs → 0 < keyed_items x.key xs
keyed_items_pos x [] m = absurd m
keyed_items_pos x (y ∷ ys) (inl e) = ground (arith, ap (λ (i : ScheduleItem). i.key) e)
keyed_items_pos x (y ∷ ys) (inr m) = omega (arith, keyed_items_pos x ys m)

module _ (aging : ℤ) (chunk : ℕ) (x y : ScheduleItem) (first : before aging y x ≡ true) where
  no_inversion :
      (xs : List ScheduleItem) (r : ℕ)
      → IsOrdered (before aging) xs
      → ((k : ℕ) → keyed_items k xs ≤ 1)
      → In x xs
      → In y xs
      → 0 < granted x.key (prefill_slices chunk xs r)
      → granted y.key (prefill_slices chunk xs r) ≡ want chunk y
  unfolding prefill_slices
  no_inversion [] r o d mx my g = absurd mx
  no_inversion (h ∷ xs) r o d (inl ex) (inl ey) g =
      cc (before_irrefl aging h, ap (λ z. before aging z x) ey, ap (before aging h) ex)
  no_inversion (h ∷ xs) r o d (inl ex) (inr my) g =
      cc (All-In (λ z. before aging z h ≡ false) y xs o.0 my, ap (before aging y) ex)
  no_inversion (h ∷ xs) r o d (inr mx) (inl ey) g =
      let key : y.key ≡ h.key = ap (λ (i : ScheduleItem). i.key) ey in
      let size : y.prefill_remaining ≡ h.prefill_remaining =
        ap (λ (i : ScheduleItem). i.prefill_remaining) ey in
      let rest = r - min (min r h.prefill_remaining) chunk in
      let used_up : (rest ≡ 0) → granted x.key (prefill_slices chunk xs rest) ≡ 0 =
        λ e. rw e (granted_zero x.key chunk xs) in
      ground (
        arith,
        d x.key,
        d y.key,
        keyed_items_pos x xs mx,
        granted_absent y.key chunk rest xs,
        used_up,
      )
  no_inversion (h ∷ xs) r o d (inr mx) (inr my) g = ground (
    arith,
    d x.key,
    d y.key,
    keyed_items_pos x xs mx,
    keyed_items_pos y xs my,
    no_inversion xs (r - min (min r h.prefill_remaining) chunk) o.1 (λ k. omega (arith, d k)) mx my,
  )

prefill_items-In :
    (x : ScheduleItem) (xs : List ScheduleItem)
    → In x xs
    → 0 < x.prefill_remaining
    → In x (prefill_items xs)
unfolding prefill_items
prefill_items-In x [] m h = absurd m
prefill_items-In x (y ∷ ys) (inl e) h =
    let open_prompt : (y.prefill_remaining == 0) ≡ false =
      ground (arith, ap (λ (i : ScheduleItem). i.prefill_remaining) e) in
    rw open_prompt (inl e)
prefill_items-In x (y ∷ ys) (inr m) h = elim (Bool-cases (y.prefill_remaining == 0)) [
  | inl e ↦ rw e (prefill_items-In x ys m h)
  | inr e ↦ rw e (inr (prefill_items-In x ys m h))
]

-- No inversion of priorities among prompts: where the keys are different and `y` comes before `x`,
-- both with prompt tokens left, `x` gets a prompt token in a batch only if `y` gets all it can use,
-- its whole prompt or a chunk.
pub schedule_batch-no_inversion :
    (items : List ScheduleItem) (c : EngineConfig) (x y : ScheduleItem)
    → 0 < c.prefill_chunk
    → ((k : ℕ) → keyed_items k items ≤ 1)
    → In x items
    → In y items
    → 0 < x.prefill_remaining
    → 0 < y.prefill_remaining
    → before c.aging_ms y x ≡ true
    → 0 < granted x.key (schedule_batch items c).slices
    → granted y.key (schedule_batch items c).slices ≡ min y.prefill_remaining c.prefill_chunk
unfolding sorted_prefill
schedule_batch-no_inversion items c x y chunk_pos distinct mx my px py first some_granted =
    let prefill_part =
      prefill_slices c.prefill_chunk (sorted_prefill items c) (left_for_prefill items c) in
    let only_prefill : (k : ℕ)
        → granted k (schedule_batch items c).slices ≡ granted k prefill_part =
      λ k.
        ap (λ (p : BatchPlan). granted k p.slices) (schedule_batch-eq items c chunk_pos)
        ∙ total-append
            (λ (s : ScheduledSlice). if s.key == k then (if s.prefill then s.tokens else 0) else 0)
            (decode_slices (served_decode items c) c.batch_tokens) prefill_part
        ∙ omega (arith, granted-decode_slices k (served_decode items c) c.batch_tokens) in
    only_prefill y.key
    ∙ no_inversion c.aging_ms c.prefill_chunk x y first (sorted_prefill items c)
        (left_for_prefill items c)
        (stable_sort-IsOrdered (before c.aging_ms) (before_asym c.aging_ms)
          (before_neg_trans c.aging_ms) (prefill_items items))
        (λ k. omega (
          arith,
          distinct k,
          total-stable_sort (before c.aging_ms) (λ i. if i.key == k then 1 else 0)
              (prefill_items items),
          total-division (λ i. if i.key == k then 1 else 0) items,
        ))
        (stable_sort-In (before c.aging_ms) x (prefill_items items)
          (prefill_items-In x items mx px))
        (stable_sort-In (before c.aging_ms) y (prefill_items items)
          (prefill_items-In y items my py))
        (omega (arith, only_prefill x.key))
