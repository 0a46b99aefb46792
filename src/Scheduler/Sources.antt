-- ===== src/Scheduler/Sources.antt =====
-- Where the slices of a plan come from, and how many there are of a key.
use mini_llm_runtime.Base.{
  ℕ, ◌-◌, ◌≤◌, ◌≡◌, refl, min, List, [], ◌∷◌, ◌==◌, if◌then◌else◌, inl, inr, Bool-cases, arith,
  total, In, All,
}
use mini_llm_runtime.Scheduler.{ScheduleItem, ScheduledSlice, prefill_items, decode_items}
use mini_llm_runtime.Scheduler.Slices.{decode_slices, prefill_slices}

-- `item` is the source of the slice: a decode slice is one token of an item with no prompt left, a
-- prefill slice at least one token of the prompt left, and at most a chunk.
pub record Serves (chunk : ℕ) (item : ScheduleItem) (s : ScheduledSlice) : Type 0 where
  pub same_key : s.key ≡ item.key
  pub some_tokens : 1 ≤ s.tokens
  pub in_prompt :
      if s.prefill
      then (s.tokens ≤ item.prefill_remaining) × (s.tokens ≤ chunk)
      else (s.tokens ≡ 1) × (item.prefill_remaining ≡ 0)

abbrev pub keyed_slices : ℕ → List ScheduledSlice → ℕ
keyed_slices k = total (λ s. if s.key == k then 1 else 0)

abbrev pub keyed_items : ℕ → List ScheduleItem → ℕ
keyed_items k = total (λ i. if i.key == k then 1 else 0)

pub decode_slices-keys :
    (k : ℕ) (xs : List ScheduleItem) (r : ℕ)
    → keyed_slices k (decode_slices xs r) ≤ keyed_items k xs
unfolding decode_slices
decode_slices-keys k [] r = omega arith
decode_slices-keys k (x ∷ xs) r = ground (arith, decode_slices-keys k xs (r - 1))

pub prefill_slices-keys :
    (k chunk : ℕ) (xs : List ScheduleItem) (r : ℕ)
    → keyed_slices k (prefill_slices chunk xs r) ≤ keyed_items k xs
unfolding prefill_slices
prefill_slices-keys k chunk [] r = omega arith
prefill_slices-keys k chunk (x ∷ xs) r =
    ground (arith, prefill_slices-keys k chunk xs (r - min (min r x.prefill_remaining) chunk))

abbrev pub FromItems : ℕ → List ScheduleItem → ScheduledSlice → Type 0
FromItems chunk items s = (item : ScheduleItem) × In item items × Serves chunk item s

module _ (chunk : ℕ) (items : List ScheduleItem) where
  pub decode_slices-FromItems :
      (xs : List ScheduleItem) (r : ℕ)
      → All (λ x. In x items × (x.prefill_remaining ≡ 0)) xs
      → All (FromItems chunk items) (decode_slices xs r)
  unfolding decode_slices
  decode_slices-FromItems [] r h = tt
  decode_slices-FromItems (x ∷ xs) r h = elim (Bool-cases (r == 0)) [
    | inl e ↦ rw e tt
    | inr e ↦ rw e (
      (x, h.0.0, record { same_key = refl; some_tokens = omega arith; in_prompt = (refl, h.0.1) }),
      decode_slices-FromItems xs (r - 1) h.1,
    )
  ]

  pub prefill_slices-FromItems :
      (xs : List ScheduleItem) (r : ℕ)
      → All (λ x. In x items) xs
      → All (FromItems chunk items) (prefill_slices chunk xs r)
  unfolding prefill_slices
  prefill_slices-FromItems [] r h = tt
  prefill_slices-FromItems (x ∷ xs) r h =
      let count = min (min r x.prefill_remaining) chunk in
      elim (Bool-cases (count == 0)) [
        | inl e ↦ rw e tt
        | inr e ↦ rw e (
          (
            x,
            h.0,
            record {
              same_key = refl;
              some_tokens = ground arith;
              in_prompt = (omega arith, omega arith);
            },
          ),
          prefill_slices-FromItems xs (r - count) h.1,
        )
      ]

  pub divided-In :
      (xs : List ScheduleItem)
      → ((x : ScheduleItem) → In x xs → In x items)
      → All (λ x. In x items × (x.prefill_remaining ≡ 0)) (decode_items xs)
        × All (λ x. In x items) (prefill_items xs)
  unfolding decode_items prefill_items
  divided-In [] h = (tt, tt)
  divided-In (x ∷ xs) h =
      let (d, p) = divided-In xs (λ y m. h y (inr m)) in
      elim (Bool-cases (x.prefill_remaining == 0)) [
        | inl e ↦ rw e (((h x (inl refl), ground arith), d), p)
        | inr e ↦ rw e (d, (h x (inl refl), p))
      ]
