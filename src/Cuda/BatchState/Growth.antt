-- ===== src/Cuda/BatchState/Growth.antt =====
-- What `prepare` accepts, and how the lengths grow.
use mini_llm_runtime.Base.{
  ℕ, zero, suc, ◌+◌, ◌<◌, ◌≤◌, max, pos, pos_part, ◌≡◌, refl, sym, ap, ◌∙◌, subst, inl, inr, true,
  false, ◌||◌, List, [], ◌∷◌, arith, ltb, ltb_ℤ, ◌==◌, if◌then◌else◌, is_empty, length, length-set,
  get_or, get_or-set, set, All, Bool-cases, Result, ◌>>=◌, ok, err,
}
use mini_llm_runtime.Cuda.BatchState.{
  Phase, executing, poisoned, ready, prepared, StorageLimits, InputToken, BatchSummary, BatchState,
  is_ready, out_of_bounds, prepare_loop, prepare, prepared_or_not, start, commit, discard_prepared,
}

abbrev pub sequence_of : InputToken → ℕ
sequence_of t = pos_part t.sequence

-- The positions of the tokens of a sequence, in order.
abbrev pub positions : ℕ → List InputToken → List ℕ
positions s [] = []
positions s (t ∷ ts) =
    let rest = positions s ts in if sequence_of t == s then pos_part t.position ∷ rest else rest

-- `n` numbers from the first on.
abbrev pub from : ℕ → ℕ → List ℕ
from first zero = []
from first (suc n) = first ∷ from (first + 1) n

abbrev pub logits_of : List InputToken → ℕ
logits_of [] = 0
logits_of (t ∷ ts) = (if t.logits then 1 else 0) + logits_of ts

-- A token that is in range.
pub record IsInside (limits : StorageLimits) (vocabulary sequences : ℕ) (t : InputToken)
    : Type 0 where
  pub sequence : sequence_of t < sequences
  pub token : pos_part t.token < vocabulary
  pub position : pos_part t.position < limits.max_model_len
  pub natural :
      (ltb_ℤ t.sequence (pos 0) ≡ false)
      × (ltb_ℤ t.token (pos 0) ≡ false)
      × (ltb_ℤ t.position (pos 0) ≡ false)

-- The tokens of each sequence continue it without a gap.
pub record IsAppended (limits : StorageLimits) (vocabulary : ℕ) (ts : List InputToken)
    (before after : List ℕ) : Type 0 where
  pub inside : All (IsInside limits vocabulary (length before)) ts
  pub same : length after ≡ length before
  pub consecutive : (s : ℕ) → positions s ts ≡ from (get_or before s 0) (length (positions s ts))
  pub grown : (s : ℕ) → get_or after s 0 ≡ get_or before s 0 + length (positions s ts)

module _ (limits : StorageLimits) (vocabulary : ℕ) where
  loop-step :
      (t : InputToken) (ts : List InputToken) (pending after : List ℕ) (summary out : BatchSummary)
      → prepare_loop limits vocabulary (t ∷ ts) pending summary ≡ (ok out, after)
      → (out_of_bounds limits vocabulary (length pending) t ≡ false)
        × (pos_part t.position ≡ get_or pending (sequence_of t) 0)
        × (prepare_loop limits vocabulary ts
              (set pending (sequence_of t) (get_or pending (sequence_of t) 0 + 1))
              (record {
                tokens = summary.tokens;
                logits = summary.logits + (if t.logits then 1 else 0);
                max_context = max summary.max_context (get_or pending (sequence_of t) 0 + 1);
              })
            ≡ (ok out, after))
  unfolding prepare_loop
  loop-step t ts pending after summary out h =
      elim (Bool-cases (out_of_bounds limits vocabulary (length pending) t)) [
        | inl bad ↦ absurd (cc (rw bad at h))
        | inr good ↦ elim (Bool-cases (pos_part t.position == get_or pending (sequence_of t) 0)) [
          | inl next ↦ (good, ground (arith, next), rw (good, next) at h)
          | inr gap ↦ absurd (cc (rw (good, gap) at h))
        ]
      ]

  -- What one token in range adds.
  cons-IsAppended :
      (t : InputToken) (ts : List InputToken) (pending after : List ℕ)
      → out_of_bounds limits vocabulary (length pending) t ≡ false
      → pos_part t.position ≡ get_or pending (sequence_of t) 0
      → IsAppended limits vocabulary ts
          (set pending (sequence_of t) (get_or pending (sequence_of t) 0 + 1))
          after
      → IsAppended limits vocabulary (t ∷ ts) pending after
  cons-IsAppended t ts pending after good next v =
      let s = sequence_of t in
      let same_length : length (set pending s (get_or pending s 0 + 1)) ≡ length pending =
        length-set pending s (get_or pending s 0 + 1) in
      let there : s < length pending = ground (arith, good) in
      let own_count : (k : ℕ)
          → s == k ≡ true
          → get_or (set pending s (get_or pending s 0 + 1)) k 0 ≡ get_or pending k 0 + 1 =
        λ k own. get_or-set pending s k (get_or pending s 0 + 1) 0 ∙ ground (arith, own, there) in
      let other_count : (k : ℕ)
          → s == k ≡ false
          → get_or (set pending s (get_or pending s 0 + 1)) k 0 ≡ get_or pending k 0 =
        λ k other. get_or-set pending s k (get_or pending s 0 + 1) 0 ∙ rw other refl in
      record {
        inside = (
          record {
            sequence = there;
            token = ground (arith, good);
            position = ground (arith, good);
            natural = (ground (arith, good), ground (arith, good), ground (arith, good));
          },
          subst (λ n. All (IsInside limits vocabulary n) ts) same_length v.inside,
        );
        same = v.same ∙ same_length;
        consecutive = λ k. elim (Bool-cases (sequence_of t == k)) [
          | inl own ↦
              (let head : pos_part t.position ≡ get_or pending k 0 =
                  next ∙ ap (λ j. get_or pending j 0) (ground (arith, own)) in
                let tail : positions k ts
                    ≡ from (get_or pending k 0 + 1) (length (positions k ts)) =
                  v.consecutive k ∙ ap (λ n. from n (length (positions k ts))) (own_count k own) in
                rw own
                  (ap (λ p. p ∷ positions k ts) head ∙ ap (λ rest. get_or pending k 0 ∷ rest) tail))
          | inr other ↦
              rw other
                (v.consecutive k ∙ ap (λ n. from n (length (positions k ts))) (other_count k other))
        ];
        grown = λ k. elim (Bool-cases (sequence_of t == k)) [
          | inl own ↦ rw own (omega (arith, v.grown k, own_count k own))
          | inr other ↦ rw other (omega (arith, v.grown k, other_count k other))
        ];
      }

  loop-IsAppended :
      (ts : List InputToken) (pending after : List ℕ) (summary out : BatchSummary)
      → prepare_loop limits vocabulary ts pending summary ≡ (ok out, after)
      → IsAppended limits vocabulary ts pending after
        × (out.tokens ≡ summary.tokens)
        × (out.logits ≡ summary.logits + logits_of ts)
  unfolding prepare_loop
  loop-IsAppended [] pending after summary out h =
      let same : pending ≡ after = ap (λ r. r.1) h in
      let same_out : summary ≡ out = cc in
      (
        record {
          inside = tt;
          same = ap length (sym same);
          consecutive = λ s. refl;
          grown = λ s. rw (sym same) (omega arith);
        },
        ap (λ (b : BatchSummary). b.tokens) (sym same_out),
        ap (λ (b : BatchSummary). b.logits) (sym same_out) ∙ omega arith,
      )
  loop-IsAppended (t ∷ ts) pending after summary out h =
      let (good, next, rest) = loop-step t ts pending after summary out h in
      let (v, same_tokens, more_logits) =
        loop-IsAppended ts (set pending (sequence_of t) (get_or pending (sequence_of t) 0 + 1))
          after _ out rest in
      (cons-IsAppended t ts pending after good next v, same_tokens, omega (arith, more_logits))

-- What `prepare` does for a state: a batch that is accepted runs to a state with the new lengths, or
-- is discarded, which leaves the old ones; a batch that is refused leaves the lengths and the phase.
abbrev pub IsBatch : List InputToken → BatchState → Result BatchSummary × BatchState → Type 0
IsBatch ts b (err x, after) = (after.lengths ≡ b.lengths) × (after.phase ≡ b.phase)
IsBatch ts b (ok summary, after) =
    (b.phase ≡ ready)
    × (length ts ≤ b.limits.max_batch_tokens)
    × (summary.tokens ≡ length ts)
    × (summary.logits ≡ logits_of ts)
    × (discard_prepared after ≡ ok (record b { pending = after.pending }))
    × IsAppended b.limits b.vocabulary ts b.lengths after.pending
    × ((start after >>= commit) ≡ ok (record b { lengths = after.pending; pending = b.lengths }))

-- An accepted batch comes in the ready phase and is not too long; its tokens are all in range, those
-- of each sequence have the positions behind its length, without a gap and in order, and its summary
-- counts the tokens and those with logits. `start` and `commit` then succeed, and the length of each
-- sequence has grown by the number of its tokens; `discard_prepared` instead succeeds and leaves the
-- lengths as before. A refused batch leaves the lengths and the phase as before.
pub prepare-IsBatch : (ts : List InputToken) (b : BatchState) → IsBatch ts b (prepare ts b)
unfolding prepare start commit discard_prepared
prepare-IsBatch ts b = elim (Bool-cases (is_ready b.phase)) [
  | inr busy ↦ rw busy (refl, refl)
  | inl idle ↦
      rw idle (elim (Bool-cases (is_empty ts || ltb b.limits.max_batch_tokens (length ts))) [
        | inl bad ↦ rw bad (refl, refl)
        | inr fits ↦ rw fits (
            looped (ready_of b.phase idle) (ground (arith, fits))
              (prepare_loop b.limits b.vocabulary ts b.lengths
                (record { tokens = length ts; logits = 0; max_context = 0 }))
              refl)
      ])
]
  where
    ready_of : (p : Phase) → is_ready p ≡ true → p ≡ ready
    ready_of ready h = refl
    ready_of prepared h = cc
    ready_of executing h = cc
    ready_of poisoned h = cc

    looped :
        b.phase ≡ ready
        → length ts ≤ b.limits.max_batch_tokens
        → (r : Result BatchSummary × List ℕ)
        → prepare_loop b.limits b.vocabulary ts b.lengths
            (record { tokens = length ts; logits = 0; max_context = 0 })
          ≡ r
        → IsBatch ts b (prepared_or_not b r)
    looped idle fits (err x, pending) h = (refl, refl)
    looped idle fits (ok summary, pending) h =
        let (v, same_tokens, more_logits) =
          loop-IsAppended b.limits b.vocabulary ts b.lengths pending
            (record { tokens = length ts; logits = 0; max_context = 0 }) summary h in
        (
          idle,
          fits,
          same_tokens,
          omega (arith, more_logits),
          ap (λ p. ok (record b { phase = p; pending = pending })) (sym idle),
          v,
          ap (λ p. ok (record b { phase = p; lengths = pending; pending = b.lengths })) (sym idle),
        )
