-- ===== src/Cuda/BatchState.antt =====
-- src/minillm/cuda/batch_state.h, batch_state.cpp: class BatchState. A state where an operation
-- throws is the state before it, but for the scratch vector `pending_` of prepare, which is
-- overwritten before the tokens are checked. `minillm::cuda::Error` is a std::runtime_error.
pub mod Growth
pub mod Tests
use mini_llm_runtime.Base.{
  ℕ, zero, suc, ◌+◌, max, ℤ, pos, pos_part, Bool, true, false, ◌||◌, not, List, [], ◌∷◌, leb, ltb,
  ltb_ℤ, ◌==◌, if◌then◌else◌, is_empty, length, get_or, set, replicate, Result, ok, err, throw_if,
  ◌>>=◌, ◌>>◌, invalid_argument, runtime_error,
}

-- `BatchPhase`
pub data Phase : Type 0 where
  ready prepared executing poisoned : Phase

-- The members of `StorageLimits` that are used here.
pub record StorageLimits : Type 0 where
  pub max_sequences : ℕ
  pub max_model_len : ℕ
  pub max_batch_tokens : ℕ

pub record InputToken : Type 0 where
  pub token : ℤ
  pub position : ℤ
  pub sequence : ℤ
  pub logits : Bool

pub record BatchSummary : Type 0 where
  pub tokens : ℕ
  pub logits : ℕ
  pub max_context : ℕ

pub record BatchState : Type 0 where
  pub limits : StorageLimits
  pub vocabulary : ℕ
  pub lengths : List ℕ
  pub pending : List ℕ
  pub phase : Phase

abbrev pub is_ready : Phase → Bool
is_ready ready = true
is_ready _ = false

abbrev pub is_prepared : Phase → Bool
is_prepared prepared = true
is_prepared _ = false

abbrev pub is_executing : Phase → Bool
is_executing executing = true
is_executing _ = false

-- `detail::as_int`, which throws for 0 and for what an int cannot hold.
abbrev pub as_int : ℕ → Result (Unit {0})
as_int value = throw_if (value == 0 || ltb 2147483647 value) invalid_argument

unfoldable pub construct : StorageLimits → ℕ → Result BatchState
construct limits vocabulary = do
  as_int limits.max_sequences
  as_int limits.max_model_len
  as_int limits.max_batch_tokens
  as_int vocabulary
  ok (record {
    limits = limits;
    vocabulary = vocabulary;
    lengths = replicate limits.max_sequences 0;
    pending = replicate limits.max_sequences 0;
    phase = ready;
  })

-- A token whose sequence, token or position is out of range.
abbrev pub out_of_bounds : StorageLimits → ℕ → ℕ → InputToken → Bool
out_of_bounds limits vocabulary sequences t =
    ltb_ℤ t.sequence (pos 0)
    || leb sequences (pos_part t.sequence)
    || ltb_ℤ t.token (pos 0)
    || leb vocabulary (pos_part t.token)
    || ltb_ℤ t.position (pos 0)
    || leb limits.max_model_len (pos_part t.position)

-- The loop of `prepare`: `pending_` as it is left, with the summary or the exception.
unfoldable pub prepare_loop :
    StorageLimits → ℕ → List InputToken → List ℕ → BatchSummary → Result BatchSummary × List ℕ
prepare_loop limits vocabulary [] pending summary = (ok summary, pending)
prepare_loop limits vocabulary (t ∷ ts) pending summary =
    let s = pos_part t.sequence in
    let length_after = get_or pending s 0 + 1 in
    let rest = prepare_loop limits vocabulary ts (set pending s length_after) (record {
      tokens = summary.tokens;
      logits = summary.logits + (if t.logits then 1 else 0);
      max_context = max summary.max_context length_after;
    }) in
    if out_of_bounds limits vocabulary (length pending) t
    then (err invalid_argument, pending)
    else if not (pos_part t.position == get_or pending s 0)
    then (err invalid_argument, pending)
    else rest

abbrev prepared_or_not :
    BatchState → Result BatchSummary × List ℕ → Result BatchSummary × BatchState
prepared_or_not b (ok summary, pending) =
    (ok summary, record b { pending = pending; phase = prepared })
prepared_or_not b (err x, pending) = (err x, record b { pending = pending })

unfoldable pub prepare : List InputToken → BatchState → Result BatchSummary × BatchState
prepare ts b =
    if not (is_ready b.phase)
    then (err runtime_error, b)
    else if is_empty ts || ltb b.limits.max_batch_tokens (length ts)
    then (err invalid_argument, b)
    else prepared_or_not b (
        prepare_loop b.limits b.vocabulary ts b.lengths
          (record { tokens = length ts; logits = 0; max_context = 0 }))

unfoldable pub start : BatchState → Result BatchState
start b = if is_prepared b.phase then ok (record b { phase = executing }) else err runtime_error

-- `commit` swaps the two vectors.
unfoldable pub commit : BatchState → Result BatchState
commit b =
    if is_executing b.phase
    then ok (record b { lengths = b.pending; pending = b.lengths; phase = ready })
    else err runtime_error

unfoldable pub discard_prepared : BatchState → Result BatchState
discard_prepared b =
    if is_prepared b.phase then ok (record b { phase = ready }) else err runtime_error

unfoldable pub poison : BatchState → BatchState
poison b = record b { phase = poisoned }

unfoldable pub clear : ℤ → BatchState → Result BatchState
clear s b =
    if not (is_ready b.phase)
    then err runtime_error
    else if ltb_ℤ s (pos 0) || leb (length b.lengths) (pos_part s)
    then err invalid_argument
    else ok (record b { lengths = set b.lengths (pos_part s) 0 })

unfoldable pub live_sequences : List ℕ → ℕ
live_sequences [] = 0
live_sequences (n ∷ ns) = (if n == 0 then 0 else 1) + live_sequences ns

unfoldable pub live_tokens : List ℕ → ℕ
live_tokens [] = 0
live_tokens (n ∷ ns) = n + live_tokens ns
