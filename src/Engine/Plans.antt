-- ===== src/Engine/Plans.antt =====
-- A plan of the scheduler fits the active requests: its slices name them, its tokens stand in their
-- prompts, and a sequence that has an output has a slice.
use mini_llm_runtime.Base.{
  ℕ, zero, suc, ◌+◌, ◌-◌, ◌<◌, ◌≤◌, ◌≡◌, refl, ap, ◌∙◌, subst, inl, inr, ◌⊎◌, true, false, leb,
  Result, ok, err, logic_error, some, List, [], ◌∷◌, ◌++◌, arith, ◌==◌, length, get_elem?,
  get_elem_lt, get_elem_some, contains, In, All, All-map, All-get_elem, sub64, sub64-eq-sub,
  Bool-cases, Option-cases,
}
use mini_llm_runtime.Config.{EngineConfig}
use mini_llm_runtime.Scheduler.{ScheduleItem, ScheduledSlice, schedule_batch}
use mini_llm_runtime.Scheduler.Sources.{FromItems}
use mini_llm_runtime.Scheduler.Guarantees.{schedule_batch-FromItems}
use mini_llm_runtime.Runner.{BatchToken}
use mini_llm_runtime.Engine.{Active}
use mini_llm_runtime.Engine.Batch.{
  schedule_items, prompt_tokens, slice_tokens, plan_tokens, logits_sequences, by_sequence,
  check_expected,
}

-- A slice names an active request, and its tokens stand in the prompt.
pub record IsPlanned (items : List Active) (slice : ScheduledSlice) : Type 0 where
  pub item : Active
  pub here : get_elem? items slice.key ≡ some item
  pub within : slice.prefill ≡ true → item.processed + slice.tokens ≤ length item.request.prompt

schedule_items-In :
    (now i : ℕ) (items : List Active) (x : ScheduleItem)
    → In x (schedule_items now i items)
    → (j : ℕ) × (item : Active) × (x.key ≡ i + j)
      × (get_elem? items j ≡ some item)
      × (x.prefill_remaining ≡ sub64 (length item.request.prompt) item.processed)
unfolding schedule_items
schedule_items-In now i [] x h = absurd h
schedule_items-In now i (item ∷ items) x (inl same) = (
  0,
  item,
  ap (λ (y : ScheduleItem). y.key) same ∙ omega arith,
  refl,
  ap (λ (y : ScheduleItem). y.prefill_remaining) same,
)
schedule_items-In now i (item ∷ items) x (inr rest) =
    let (j, found, key, here, remaining) = schedule_items-In now (i + 1) items x rest in
    (suc j, found, omega (arith, key), here, remaining)

prompt_tokens-some :
    (count i : ℕ) (item : Active)
    → i + count ≤ length item.request.prompt
    → (ts : List BatchToken) × (prompt_tokens count i item ≡ some ts)
      × All (λ t. t.sequence ≡ item.sequence) ts
unfolding prompt_tokens
prompt_tokens-some zero i item h = ([], refl, tt)
prompt_tokens-some (suc count) i item h =
    let (t, there) = get_elem_some item.request.prompt i (omega arith) in
    let (ts, rest, named) = prompt_tokens-some count (i + 1) item (omega arith) in
    let first : BatchToken = record {
      token = t;
      position = i;
      sequence = item.sequence;
      logits = i + 1 == length item.request.prompt;
    } in
    (first ∷ ts, rw (prompt_tokens, there, rest) refl, (refl, named))

slice_tokens-some :
    (slice : ScheduledSlice) (item : Active)
    → (slice.prefill ≡ true → item.processed + slice.tokens ≤ length item.request.prompt)
    → (ts : List BatchToken) × (slice_tokens slice item ≡ some ts)
      × All (λ t. t.sequence ≡ item.sequence) ts
unfolding slice_tokens
slice_tokens-some slice item within = elim (Bool-cases slice.prefill) [
  | inl prompt ↦
      let (ts, made, named) = prompt_tokens-some slice.tokens item.processed item (within prompt) in
      (ts, rw prompt made, named)
  | inr decode ↦ (
    record {
      token = item.last_token;
      position = length item.request.prompt + item.generated - 1;
      sequence = item.sequence;
      logits = true;
    }
        ∷ [],
    rw decode refl,
    (refl, tt),
  )
]

logits-append :
    (a : ℕ) (ts us : List BatchToken)
    → contains a (logits_sequences (ts ++ us)) ≡ true
    → (contains a (logits_sequences ts) ≡ true) ⊎ (contains a (logits_sequences us) ≡ true)
unfolding logits_sequences
logits-append a [] us h = inr h
logits-append a (t ∷ ts) us h = elim (Bool-cases t.logits) [
  | inl asked ↦ elim (Bool-cases (a == t.sequence)) [
    | inl own ↦ inl (rw asked (rw own refl))
    | inr other ↦ elim (logits-append a ts us (ground (arith, h, asked, other))) [
      | inl left ↦ inl (rw asked (rw other left))
      | inr right ↦ inr right
    ]
  ]
  | inr quiet ↦ elim (logits-append a ts us (ground (arith, h, quiet))) [
    | inl left ↦ inl (rw quiet left)
    | inr right ↦ inr right
  ]
]

logits-named :
    (a s : ℕ) (ts : List BatchToken)
    → All (λ (t : BatchToken). t.sequence ≡ s) ts
    → contains a (logits_sequences ts) ≡ true
    → s ≡ a
unfolding logits_sequences
logits-named a s [] named h = cc
logits-named a s (t ∷ ts) named h = elim (Bool-cases t.logits) [
  | inl asked ↦ elim (Bool-cases (a == t.sequence)) [
    | inl own ↦ ground (arith, own, named.0)
    | inr other ↦ logits-named a s ts named.1 (ground (arith, h, asked, other))
  ]
  | inr quiet ↦ logits-named a s ts named.1 (ground (arith, h, quiet))
]

-- Planned slices have tokens; and a sequence with an output is that of a slice, by which it is found.
pub plan_tokens-some :
    (slices : List ScheduledSlice) (items : List Active)
    → All (IsPlanned items) slices
    → (ts : List BatchToken) × (plan_tokens slices items ≡ some ts)
      × ((a : ℕ)
          → contains a (logits_sequences ts) ≡ true
          → (i : ℕ) × (by_sequence slices items a ≡ some i))
unfolding plan_tokens by_sequence logits_sequences
plan_tokens-some [] items h = ([], refl, λ a k. absurd cc)
plan_tokens-some (slice ∷ slices) items (p, h) =
    let (rest, planned, found) = plan_tokens-some slices items h in
    let (ts, own, named) = slice_tokens-some slice p.item p.within in
    (
      ts ++ rest,
      rw (plan_tokens, p.here, own, planned) refl,
      λ a k. elim (Option-cases (by_sequence slices items a)) [
        | inr (i, later) ↦ (i, rw later refl)
        | inl none_later ↦ elim (logits-append a ts rest k) [
          | inl mine ↦ (
            slice.key,
            rw (none_later, p.here) (ground (arith, logits-named a p.item.sequence ts named mine)),
          )
          | inr other ↦ absurd (let (i, later) = found a other in cc (later, none_later))
        ]
      ],
    )

-- What `by_sequence` finds has the sequence.
pub by_sequence-item :
    (slices : List ScheduledSlice) (items : List Active) (a i : ℕ)
    → by_sequence slices items a ≡ some i
    → (item : Active) × (get_elem? items i ≡ some item) × (item.sequence ≡ a)
unfolding by_sequence
by_sequence-item [] items a i h = cc
by_sequence-item (slice ∷ slices) items a i h = elim (Option-cases (by_sequence slices items a)) [
  | inr (j, later) ↦ by_sequence-item slices items a i (cc (h, later))
  | inl none_later ↦ elim (Option-cases (get_elem? items slice.key)) [
    | inl gone ↦ absurd (ground (arith, h, none_later, gone))
    | inr (item, here) ↦ elim (Bool-cases (item.sequence == a)) [
      | inr other ↦ absurd (cc (rw (none_later, here, other) at h))
      | inl own ↦
          let e : some slice.key ≡ some i = rw (none_later, here, own) at h in
          let same : slice.key ≡ i = cc in
          (item, subst (λ j. get_elem? items j ≡ some item) same here, ground (arith, own))
    ]
  ]
]

-- No index into `expected` is out of range where every sequence with an output is in range.
pub check_expected-some :
    (max_active : ℕ) (seen seqs : List ℕ)
    → ((a : ℕ) → contains a seqs ≡ true → a < max_active)
    → (r : Result (Unit {0})) × (check_expected max_active seen seqs ≡ some r)
unfolding check_expected
check_expected-some max_active seen [] h = (ok tt, refl)
check_expected-some max_active seen (s ∷ seqs) h =
    let inside : leb max_active s ≡ false = ground (arith, h s (ground arith)) in
    elim (Bool-cases (contains s seen)) [
      | inl old ↦ (err logic_error, rw (inside, old) refl)
      | inr new ↦
          let (r, found) =
            check_expected-some max_active (s ∷ seen) seqs (λ a k. h a (ground (arith, k))) in
          (r, rw (inside, new) found)
    ]

pub by_sequence-lt :
    (slices : List ScheduledSlice) (items : List Active) (a i : ℕ)
    → by_sequence slices items a ≡ some i
    → i < length items
unfolding by_sequence
by_sequence-lt [] items a i h = cc
by_sequence-lt (slice ∷ slices) items a i h = elim (Option-cases (by_sequence slices items a)) [
  | inr (j, later) ↦ by_sequence-lt slices items a i (cc (h, later))
  | inl none_later ↦ elim (Option-cases (get_elem? items slice.key)) [
    | inr (item, here) ↦ ground (arith, h, none_later, here, get_elem_lt items slice.key item here)
    | inl gone ↦ absurd (ground (arith, h, none_later, gone))
  ]
]

pub schedule_batch-IsPlanned :
    (now : ℕ) (items : List Active) (c : EngineConfig)
    → 0 < c.prefill_chunk
    → All (λ (item : Active). item.processed ≤ length item.request.prompt) items
    → All (IsPlanned items) (schedule_batch (schedule_items now 0 items) c).slices
schedule_batch-IsPlanned now items c pos begun =
    All-map (schedule_batch (schedule_items now 0 items) c).slices planned
      (schedule_batch-FromItems (schedule_items now 0 items) c pos)
  where
    planned :
        (slice : ScheduledSlice)
        → FromItems c.prefill_chunk (schedule_items now 0 items) slice
        → IsPlanned items slice
    planned slice (x, named, serves) =
        let (j, item, key, here, remaining) = schedule_items-In now 0 items x named in
        let at_key : j ≡ slice.key = omega (arith, key, serves.same_key) in
        let low =
          All-get_elem (λ (x : Active). x.processed ≤ length x.request.prompt) items j item begun
            here in
        let left = sub64-eq-sub (length item.request.prompt) item.processed low in
        record {
          item = item;
          here = subst (λ k. get_elem? items k ≡ some item) at_key here;
          within = λ prompt.
              ground (arith, prompt, serves.in_prompt, serves.some_tokens, remaining, left, low);
        }
