-- ===== src/Engine/Batch.antt =====
-- src/engine.cpp: `iteration`, one batch from the plan of the scheduler to the events.
use mini_llm_runtime.Base.{
  ℕ, zero, suc, ◌+◌, ◌-◌, max, ℤ, pos, negsuc, pos_part, Bool, true, false, ◌&&◌, ◌||◌, not, Option,
  none, some, List, [], ◌∷◌, ◌++◌, leb, ◌==◌, if◌then◌else◌, is_empty, length, get_elem?, set,
  contains, Result, ok, err, sub64, logic_error, runtime_error,
}
use mini_llm_runtime.Scheduler.{
  ScheduleItem, ScheduledSlice, BatchPlan, token_count, mixed_plan, schedule_batch,
}
use mini_llm_runtime.Request.{token, Event}
use mini_llm_runtime.Utf8.{append as append_text}
use mini_llm_runtime.Runner.{BatchToken, Sample, ModelRunner}
use mini_llm_runtime.Engine.{EventData, Active, Statistics, World}
use mini_llm_runtime.Engine.Action.{
  Action, pure, raise, gets, stuck, or_stuck, lift, ◌>>=◌, ◌>>◌, modify, skip, when, observe,
}
use mini_llm_runtime.Engine.Finish.{
  expired, emit_event, require_reusable, item_at, finish, erase_finished,
}
use mini_llm_runtime.Engine.Admit.{age_ms, cache_prompt}

-- The items for the scheduler, from the index `i` on.
unfoldable pub schedule_items : ℕ → ℕ → List Active → List ScheduleItem
schedule_items now i [] = []
schedule_items now i (item ∷ items) =
    record {
      key = i;
      prefill_remaining = sub64 (length item.request.prompt) item.processed;
      priority = item.request.priority;
      wait_ms = age_ms item.last_scheduled now;
      order = item.request.order;
    }
    ∷ schedule_items now (i + 1) items

-- `count` tokens of the prompt from the position `i` on; `none` where the prompt is shorter.
unfoldable pub prompt_tokens : ℕ → ℕ → Active → Option (List BatchToken)
prompt_tokens zero i item = some []
prompt_tokens (suc count) i item = elim (get_elem? item.request.prompt i) [
  | none ↦ none
  | some t ↦ elim (prompt_tokens count (i + 1) item) [
    | none ↦ none
    | some rest ↦ some (
        record {
          token = t;
          position = i;
          sequence = item.sequence;
          logits = i + 1 == length item.request.prompt;
        }
        ∷ rest)
  ]
]

unfoldable pub slice_tokens : ScheduledSlice → Active → Option (List BatchToken)
slice_tokens slice item =
    if slice.prefill
    then prompt_tokens slice.tokens item.processed item
    else some (
        record {
          token = item.last_token;
          position = length item.request.prompt + item.generated - 1;
          sequence = item.sequence;
          logits = true;
        }
        ∷ [])

unfoldable pub plan_tokens : List ScheduledSlice → List Active → Option (List BatchToken)
plan_tokens [] items = some []
plan_tokens (slice ∷ slices) items = elim (get_elem? items slice.key) [
  | none ↦ none
  | some item ↦ elim (slice_tokens slice item) [
    | none ↦ none
    | some tokens ↦ elim (plan_tokens slices items) [
      | none ↦ none
      | some rest ↦ some (tokens ++ rest)
    ]
  ]
]

-- The sequences of the tokens that ask for logits; how many is the number of samples expected.
unfoldable pub logits_sequences : List BatchToken → List ℕ
logits_sequences [] = []
logits_sequences (t ∷ ts) =
    if t.logits then t.sequence ∷ logits_sequences ts else logits_sequences ts

-- `expected`: the sequences so far; a second output of one is an error. `none` where the vector, of
-- `max_active` entries, is indexed out of range.
unfoldable pub check_expected : ℕ → List ℕ → List ℕ → Option (Result (Unit {0}))
check_expected max_active seen [] = some (ok tt)
check_expected max_active seen (s ∷ rest) =
    if leb max_active s
    then none
    else if contains s seen
    then some (err logic_error)
    else check_expected max_active (s ∷ seen) rest

abbrev pub is_negative : ℤ → Bool
is_negative (pos n) = false
is_negative (negsuc n) = true

-- The check of the samples, with the sequences `sampled` so far. `expected.size()` is `max_active`.
unfoldable pub check_samples : ℕ → ℕ → List ℕ → List ℕ → List Sample → Result (Unit {0})
check_samples max_active vocab_size expected sampled [] = ok tt
check_samples max_active vocab_size expected sampled (s ∷ samples) =
    if is_negative s.sequence
      || leb max_active (pos_part s.sequence)
      || not (contains (pos_part s.sequence) expected)
      || contains (pos_part s.sequence) sampled
      || is_negative s.token
      || leb vocab_size (pos_part s.token)
    then err runtime_error
    else check_samples max_active vocab_size expected (pos_part s.sequence ∷ sampled) samples

-- `by_sequence`: the index of the item of the last slice with the sequence.
unfoldable pub by_sequence : List ScheduledSlice → List Active → ℕ → Option ℕ
by_sequence [] items s = none
by_sequence (slice ∷ slices) items s = elim (by_sequence slices items s) [
  | some i ↦ some i
  | none ↦ elim (get_elem? items slice.key) [
    | none ↦ none
    | some item ↦ if item.sequence == s then some slice.key else none
  ]
]

-- The counters of a batch.
unfoldable pub count_batch : BatchPlan → Statistics → Statistics
count_batch plan c = record c {
  batches = c.batches + 1;
  mixed_batches = c.mixed_batches + (if mixed_plan plan then 1 else 0);
  prefill_tokens = c.prefill_tokens + plan.prefill_tokens;
  decode_tokens = c.decode_tokens + plan.decode_tokens;
  max_batch_tokens = max c.max_batch_tokens (token_count plan);
  max_batch_sequences = max c.max_batch_sequences (length plan.slices);
}

module _ {R : Type 0} (w : World) (m : ModelRunner R) where
  abbrev pub put_item : ℕ → Active → Action R (Unit {0})
  put_item i item = modify (λ e. record e { active = set e.active i item })

  -- `by_sequence[s]`, a vector of `max_active` entries.
  abbrev pub index_sequence : ℕ → Action R (Unit {0})
  index_sequence s e = if leb e.config.max_active s then stuck e else skip e

  -- One slice of the batch, after the samples are checked.
  unfoldable pub advance_slice : ScheduledSlice → Action R (Unit {0})
  advance_slice slice = do
    item ← item_at w m slice.key
    index_sequence item.sequence
    n ← observe
    let processed = if slice.prefill then item.processed + slice.tokens else item.processed
    let item' : Active = record item { last_scheduled = w.clock n; processed = processed }
    put_item slice.key item'
    when (slice.prefill && processed == length item.request.prompt)
        (do late ← expired w m item.request; when (not late) (cache_prompt w m item'))

  unfoldable pub advance_slices : List ScheduledSlice → Action R (Unit {0})
  advance_slices [] = skip
  advance_slices (slice ∷ slices) = do advance_slice slice; advance_slices slices

  abbrev token_event : Active → ℕ → List ℕ → Event EventData
  token_event item t text = record {
    kind = token;
    data_of = record {
      text = text;
      token = some t;
      finish_reason = "";
      error_code = "";
      status = 200;
      prompt_tokens = length item.request.prompt;
      completion_tokens = item.generated;
      cached_tokens = item.reused;
    };
  }

  -- The text of a token: none at the end of generation.
  unfoldable pub sample_piece : Active → ℕ → Action R (Bool × List ℕ)
  sample_piece item t = do
    ends ← lift (m.is_eog t)
    if ends && not item.request.ignore_eos
        then pure (true, [])
        else do piece ← lift (m.token_piece t); pure (false, piece)

  -- The token is sampled: it is counted and published, and the request may end.
  unfoldable pub publish_token : ℕ → Active → ℕ → Action R (Unit {0})
  publish_token i old t = do
    let item : Active = record old { last_token = t; generated = old.generated + 1 }
    put_item i item
    modify (λ e. record e {
      counters = record e.counters { generated_tokens = e.counters.generated_tokens + 1 };
    })
    (eog, piece) ← sample_piece item t
    let (text, pending) = append_text piece item.text
    put_item i (record item { text = pending })
    emitted ← emit_event w m item.request (token_event item t text)
    if not emitted
        then finish w m i "backpressure" 429 true
        else if eog || leb item.request.max_tokens item.generated
        then finish w m i (if eog then "stop" else "length") 200 true
        else skip

  unfoldable pub publish_sample : List ScheduledSlice → List Active → Sample → Action R (Unit {0})
  publish_sample slices items sample = do
    i ← or_stuck (by_sequence slices items (pos_part sample.sequence))
    item ← item_at w m i
    if not (item.processed == length item.request.prompt) then raise runtime_error else do
      late ← expired w m item.request
      if late then skip else publish_token i item (pos_part sample.token)

  unfoldable pub publish_samples :
      List ScheduledSlice → List Active → List Sample → Action R (Unit {0})
  publish_samples slices items [] = skip
  publish_samples slices items (sample ∷ samples) = do
    publish_sample slices items sample
    publish_samples slices items samples

  abbrev pub execute : List BatchToken → Action R (List Sample)
  execute tokens e =
      let (r, runner) = m.execute tokens e.runner in lift r (record e { runner = runner })

  -- What `iteration` requires of the samples before it publishes any of them.
  unfoldable pub check_batch : List BatchToken → List Sample → Action R (Unit {0})
  check_batch tokens samples = do
    if not (length samples == length (logits_sequences tokens)) then raise runtime_error else skip
    max_active ← gets (λ e. e.config.max_active)
    checked ← or_stuck (check_expected max_active [] (logits_sequences tokens))
    lift checked
    lift (check_samples max_active m.vocab_size (logits_sequences tokens) [] samples)

  unfoldable pub iteration : Action R (Unit {0})
  iteration = do
    n ← observe
    plan ← gets (λ e. schedule_batch (schedule_items (w.clock n) 0 e.active) e.config)
    if is_empty plan.slices then raise logic_error else skip
    items ← gets (λ e. e.active)
    tokens ← or_stuck (plan_tokens plan.slices items)
    samples ← execute tokens
    require_reusable w m
    check_batch tokens samples
    modify (λ e. record e { counters = count_batch plan e.counters })
    advance_slices plan.slices
    publish_samples plan.slices items samples
    erase_finished w m
