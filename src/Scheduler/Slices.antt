-- ===== src/Scheduler/Slices.antt =====
-- The slices that each loop appends, as a function of the items and the tokens that remain.
use mathlib.Core.List.{append_assoc, append-nil}
use mini_llm_runtime.Base.{
  ℕ, ◌+◌, ◌-◌, ◌<◌, ◌≡◌, refl, min, true, false, List, [], ◌∷◌, ◌++◌, ◌==◌, if◌then◌else◌, inl, inr,
  Bool-cases, arith, length, total, All,
}
use mini_llm_runtime.Scheduler.{
  ScheduleItem, ScheduledSlice, BatchPlan, add_decode, add_prefill, prefill_items, decode_items,
}

decode_slice : ScheduleItem → ScheduledSlice
decode_slice item = record { key = item.key; tokens = 1; prefill = false }

unfoldable pub decode_slices : List ScheduleItem → ℕ → List ScheduledSlice
unfolding decode_slice
decode_slices [] r = []
decode_slices (item ∷ items) r =
    if r == 0 then [] else decode_slice item ∷ decode_slices items (r - 1)

-- What an item may get of a batch with room for it.
abbrev pub want : ℕ → ScheduleItem → ℕ
want chunk item = min item.prefill_remaining chunk

unfoldable pub prefill_slices : ℕ → List ScheduleItem → ℕ → List ScheduledSlice
prefill_slices chunk [] r = []
prefill_slices chunk (item ∷ items) r =
    let count = min (min r item.prefill_remaining) chunk in
    if count == 0
    then []
    else record { key = item.key; tokens = count; prefill = true }
      ∷ prefill_slices chunk items (r - count)

-- The state of the loops after `slices` were appended to the plan.
pub add_decode-eq :
    (items : List ScheduleItem) (p : BatchPlan) (r : ℕ)
    → add_decode items (p, r) ≡ (
      record p {
        slices = p.slices ++ decode_slices items r;
        decode_tokens = p.decode_tokens + min r (length items);
      },
      r - length items,
    )
unfolding add_decode decode_slices
add_decode-eq [] p r = ground (arith, append-nil p.slices)
add_decode-eq (item ∷ items) p r = ground (
  arith,
  append-nil p.slices,
  append_assoc p.slices (decode_slice item ∷ []) (decode_slices items (r - 1)),
  add_decode-eq items
      (record p {
        slices = p.slices ++ decode_slice item ∷ [];
        decode_tokens = p.decode_tokens + 1;
      })
      (r - 1),
)

abbrev HasPrefill : ScheduleItem → Type 0
HasPrefill item = 0 < item.prefill_remaining

abbrev prefill_slice : ℕ → ℕ → ScheduleItem → ScheduledSlice
prefill_slice chunk r item = record {
  key = item.key;
  tokens = min (min r item.prefill_remaining) chunk;
  prefill = true;
}

pub add_prefill-eq :
    (chunk : ℕ) (items : List ScheduleItem) (p : BatchPlan) (r : ℕ)
    → 0 < chunk
    → All HasPrefill items
    → add_prefill chunk items (p, r) ≡ (
      record p {
        slices = p.slices ++ prefill_slices chunk items r;
        prefill_tokens = p.prefill_tokens + min r (total (want chunk) items);
      },
      r - total (want chunk) items,
    )
unfolding add_prefill prefill_slices
add_prefill-eq chunk [] p r h all = ground (arith, append-nil p.slices)
add_prefill-eq chunk (item ∷ items) p r h all =
    let count = min (min r item.prefill_remaining) chunk in
    ground (
      arith,
      append-nil p.slices,
      append_assoc p.slices (prefill_slice chunk r item ∷ [])
          (prefill_slices chunk items (r - count)),
      add_prefill-eq chunk items
          (record p {
            slices = p.slices ++ prefill_slice chunk r item ∷ [];
            prefill_tokens = p.prefill_tokens + count;
          })
          (r - count) h all.1,
    )

pub prefill_items-HasPrefill : (items : List ScheduleItem) → All HasPrefill (prefill_items items)
unfolding prefill_items
prefill_items-HasPrefill [] = tt
prefill_items-HasPrefill (item ∷ items) = elim (Bool-cases (item.prefill_remaining == 0)) [
  | inl h ↦ rw h (prefill_items-HasPrefill items)
  | inr h ↦ rw h (ground arith, prefill_items-HasPrefill items)
]

-- The two lists divide the items.
pub total-division :
    (f : ScheduleItem → ℕ) (items : List ScheduleItem)
    → total f (prefill_items items) + total f (decode_items items) ≡ total f items
unfolding prefill_items decode_items
total-division f [] = refl
total-division f (item ∷ items) = elim (Bool-cases (item.prefill_remaining == 0)) [
  | inl h ↦ rw h (omega (arith, total-division f items))
  | inr h ↦ rw h (omega (arith, total-division f items))
]
