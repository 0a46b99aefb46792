-- ===== src/Utf8/Steps.antt =====
-- One round of the loop: it moves forward within the bytes, and does not change its mind when more
-- bytes come.
use mini_llm_runtime.Base.{
  ℕ, zero, suc, ◌+◌, ◌-◌, ◌<◌, ◌≤◌, ◌≡◌, refl, sym, ap, ◌∙◌, inl, inr, Bool, true, false, ◌&&◌, not,
  none, some, List, [], ◌∷◌, ◌++◌, arith, ◌==◌, Bool-cases, dec_lt, length, length-append, take,
  drop,
}
use mini_llm_runtime.Utf8.{width, follow_loop, is_valid, replacement, drain_step}

pub width-le : (lead : ℕ) → width lead ≤ 4
unfolding width
width-le lead = ground arith

-- A round that does not break moves at least one byte, at most those there are.
pub drain_step-moves :
    (final : Bool) (lead : ℕ) (bytes out : List ℕ) (moved : ℕ)
    → drain_step final lead bytes ≡ some (out, moved)
    → (0 < moved) × (moved ≤ length bytes + 1)
unfolding drain_step is_valid
drain_step-moves final lead bytes out moved h = ground (arith, h)

-- A byte sequence that fails has failed for all that may come; one that is complete stays so.
follow_loop-append :
    (lead i rounds : ℕ) (bytes more : List ℕ)
    → follow_loop lead i rounds bytes ≡ false
    → follow_loop lead i rounds (bytes ++ more) ≡ false
unfolding follow_loop
follow_loop-append lead i zero bytes more h = h
follow_loop-append lead i (suc rounds) [] more h = cc
follow_loop-append lead i (suc rounds) (byte ∷ bytes) more h =
    ground (arith, follow_loop-append lead (i + 1) rounds bytes more)

follow_loop-whole :
    (lead i rounds : ℕ) (bytes more : List ℕ)
    → rounds ≤ length bytes
    → follow_loop lead i rounds (bytes ++ more) ≡ follow_loop lead i rounds bytes
unfolding follow_loop
follow_loop-whole lead i zero bytes more h = refl
follow_loop-whole lead i (suc rounds) [] more h = absurd (omega arith)
follow_loop-whole lead i (suc rounds) (byte ∷ bytes) more h =
    ground (arith, follow_loop-whole lead (i + 1) rounds bytes more)

take-append : (n : ℕ) (xs ys : List ℕ) → n ≤ length xs → take n (xs ++ ys) ≡ take n xs
take-append zero xs ys h = refl
take-append (suc n) [] ys h = absurd (omega arith)
take-append (suc n) (x ∷ xs) ys h = ap (λ zs. x ∷ zs) (take-append n xs ys (omega arith))

pub drop-append : (n : ℕ) (xs ys : List ℕ) → n ≤ length xs → drop n (xs ++ ys) ≡ drop n xs ++ ys
drop-append zero xs ys h = refl
drop-append (suc n) [] ys h = absurd (omega arith)
drop-append (suc n) (x ∷ xs) ys h = drop-append n xs ys (omega arith)

module _ (lead : ℕ) (bytes : List ℕ) where
  is_valid-append_false :
      (more : List ℕ) → is_valid lead bytes ≡ false → is_valid lead (bytes ++ more) ≡ false
  unfolding is_valid
  is_valid-append_false more h =
      ground (arith, follow_loop-append lead 1 (width lead - 1) bytes more)

  is_valid-append_whole :
      (more : List ℕ)
      → width lead ≤ length bytes + 1
      → is_valid lead (bytes ++ more) ≡ is_valid lead bytes
  unfolding is_valid
  is_valid-append_whole more h =
      ap (λ b. not (width lead == 0) && b)
        (follow_loop-whole lead 1 (width lead - 1) bytes more (omega arith))

  pub drain_step-invalid :
      (final : Bool)
      → is_valid lead bytes ≡ false
      → drain_step final lead bytes ≡ some (replacement, 1)
  unfolding drain_step
  drain_step-invalid final h = rw h refl

  pub drain_step-whole :
      (final : Bool)
      → is_valid lead bytes ≡ true
      → width lead ≤ length bytes + 1
      → drain_step final lead bytes ≡ some (take (width lead) (lead ∷ bytes), width lead)
  unfolding drain_step
  drain_step-whole final h k = rw h (ground arith)

  pub drain_step-short :
      is_valid lead bytes ≡ true
      → length bytes + 1 < width lead
      → drain_step false lead bytes ≡ none
  unfolding drain_step
  drain_step-short h k = rw h (ground arith)

  pub drain_step-last :
      is_valid lead bytes ≡ true
      → length bytes + 1 < width lead
      → drain_step true lead bytes ≡ some (replacement, length bytes + 1)
  unfolding drain_step
  drain_step-last h k = rw h (ground arith)

  -- A round that breaks is short of bytes, three at most.
  pub drain_step-waits :
      (final : Bool) → drain_step final lead bytes ≡ none → (final ≡ false) × (length bytes + 1 ≤ 3)
  unfolding drain_step
  drain_step-waits final h = ground (arith, width-le lead)

-- What a round that waits for nothing decides, it decides with more bytes behind as well.
pub drain_step-append :
    (final : Bool) (lead : ℕ) (bytes more out : List ℕ) (moved : ℕ)
    → drain_step false lead bytes ≡ some (out, moved)
    → drain_step final lead (bytes ++ more) ≡ some (out, moved)
drain_step-append final lead bytes more out moved h = elim (Bool-cases (is_valid lead bytes)) [
  | inr bad ↦
      drain_step-invalid lead (bytes ++ more) final (is_valid-append_false lead bytes more bad)
      ∙ sym (drain_step-invalid lead bytes false bad)
      ∙ h
  | inl good ↦ elim (dec_lt (length bytes + 1) (width lead)) [
    | yes short ↦ absurd (cc (h, drain_step-short lead bytes good short))
    | no long ↦
        drain_step-whole lead (bytes ++ more) final
          (is_valid-append_whole lead bytes more (omega arith) ∙ good)
          (omega (arith, length-append bytes more))
        ∙ ap (λ xs. some (xs, width lead))
            (take-append (width lead) (lead ∷ bytes) more (omega arith))
        ∙ sym (drain_step-whole lead bytes false good (omega arith))
        ∙ h
  ]
]
