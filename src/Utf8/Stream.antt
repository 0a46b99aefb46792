-- ===== src/Utf8/Stream.antt =====
-- The text does not depend on how its bytes are cut into chunks.
use mini_llm_runtime.Base.{
  ℕ, zero, suc, ◌+◌, ◌<◌, ◌≤◌, ◌≡◌, refl, sym, ap, ◌∙◌, inl, inr, Bool, true, false, Option, none,
  some, Option-cases, List, [], ◌∷◌, ◌++◌, arith, length, length-drop, drop,
}
use mini_llm_runtime.Utf8.{drain_step, drain_loop, drain, append, finish}
use mini_llm_runtime.Utf8.Steps.{drain_step-moves, drain_step-append, drop-append}

-- What a round's result and the rest of the loop make together.
abbrev then_drain : ℕ → Bool → ℕ → List ℕ → Option (List ℕ × ℕ) → List ℕ × List ℕ
then_drain fuel final lead bytes none = ([], lead ∷ bytes)
then_drain fuel final lead bytes (some (out, moved)) =
    let (more, left) = drain_loop fuel final (drop moved (lead ∷ bytes)) in (out ++ more, left)

abbrev pub drain_result : Bool → ℕ → List ℕ → Option (List ℕ × ℕ) → List ℕ × List ℕ
drain_result final lead bytes none = ([], lead ∷ bytes)
drain_result final lead bytes (some (out, moved)) =
    let (more, left) = drain final (drop moved (lead ∷ bytes)) in (out ++ more, left)

then_drain-fuel :
    (f g : ℕ) (final : Bool) (lead : ℕ) (bytes : List ℕ)
    → length bytes ≤ f
    → length bytes ≤ g
    → ((more : List ℕ)
        → length more ≤ f
        → length more ≤ g
        → drain_loop f final more ≡ drain_loop g final more)
    → (o : Option (List ℕ × ℕ))
    → ((out : List ℕ) (moved : ℕ)
        → o ≡ some (out, moved)
        → (0 < moved) × (moved ≤ length bytes + 1))
    → then_drain f final lead bytes o ≡ then_drain g final lead bytes o
then_drain-fuel f g final lead bytes hf hg same none m = refl
then_drain-fuel f g final lead bytes hf hg same (some (out, moved)) m =
    let (lo, hi) = m out moved refl in
    ap (λ (r : List ℕ × List ℕ). (out ++ r.0, r.1))
      (same (drop moved (lead ∷ bytes)) (omega (arith, length-drop moved (lead ∷ bytes)))
        (omega (arith, length-drop moved (lead ∷ bytes))))

drain_loop-round :
    (fuel : ℕ) (final : Bool) (lead : ℕ) (bytes : List ℕ)
    → drain_loop (suc fuel) final (lead ∷ bytes)
      ≡ then_drain fuel final lead bytes (drain_step final lead bytes)
unfolding drain_loop
drain_loop-round fuel final lead bytes = elim (Option-cases (drain_step final lead bytes)) [
  | inl e ↦ rw (e, drain_loop) refl
  | inr (r, e) ↦ rw (e, drain_loop) refl
]

drain_loop-nil : (fuel : ℕ) (final : Bool) → drain_loop fuel final [] ≡ ([], [])
unfolding drain_loop
drain_loop-nil zero final = refl
drain_loop-nil (suc fuel) final = refl

-- With as much fuel as there are bytes, more fuel changes nothing.
drain_loop-fuel :
    (f g : ℕ) (final : Bool) (bytes : List ℕ)
    → length bytes ≤ f
    → length bytes ≤ g
    → drain_loop f final bytes ≡ drain_loop g final bytes
drain_loop-fuel f g final [] hf hg = drain_loop-nil f final ∙ sym (drain_loop-nil g final)
drain_loop-fuel zero g final (lead ∷ bytes) hf hg = absurd (omega arith)
drain_loop-fuel (suc f) zero final (lead ∷ bytes) hf hg = absurd (omega arith)
drain_loop-fuel (suc f) (suc g) final (lead ∷ bytes) hf hg =
    drain_loop-round f final lead bytes
    ∙ then_drain-fuel f g final lead bytes (omega arith) (omega arith)
        (λ more hm hn. drain_loop-fuel f g final more hm hn) (drain_step final lead bytes)
        (drain_step-moves final lead bytes)
    ∙ sym (drain_loop-round g final lead bytes)

-- `drain` by rounds.
pub drain-round :
    (final : Bool) (lead : ℕ) (bytes : List ℕ)
    → drain final (lead ∷ bytes) ≡ drain_result final lead bytes (drain_step final lead bytes)
unfolding drain
drain-round final lead bytes =
    drain_loop-round (length bytes) final lead bytes
    ∙ cases (drain_step final lead bytes) (drain_step-moves final lead bytes)
  where
    cases :
        (o : Option (List ℕ × ℕ))
        → ((out : List ℕ) (moved : ℕ)
            → o ≡ some (out, moved)
            → (0 < moved) × (moved ≤ length bytes + 1))
        → then_drain (length bytes) final lead bytes o ≡ drain_result final lead bytes o
    cases none m = refl
    cases (some (out, moved)) m =
        let (lo, hi) = m out moved refl in
        let rest = drop moved (lead ∷ bytes) in
        ap (λ (r : List ℕ × List ℕ). (out ++ r.0, r.1))
          (drain_loop-fuel (length bytes) (length rest) final rest
            (omega (arith, length-drop moved (lead ∷ bytes))) (omega arith))

pub drain-nil : (final : Bool) → drain final [] ≡ ([], [])
unfolding drain
drain-nil final = drain_loop-nil 0 final

pub append_assoc : (xs ys zs : List ℕ) → (xs ++ ys) ++ zs ≡ xs ++ (ys ++ zs)
append_assoc [] ys zs = refl
append_assoc (x ∷ xs) ys zs = ap (λ l. x ∷ l) (append_assoc xs ys zs)

append_nil : (xs : List ℕ) → xs ++ [] ≡ xs
append_nil [] = refl
append_nil (x ∷ xs) = ap (λ l. x ∷ l) (append_nil xs)

-- A result so far, and the bytes to come.
abbrev resume : Bool → List ℕ → List ℕ × List ℕ → List ℕ × List ℕ
resume final more (out, left) =
    let (out', left') = drain final (left ++ more) in (out ++ out', left')

resume-out :
    (final : Bool) (more out : List ℕ) (r : List ℕ × List ℕ)
    → resume final more (out ++ r.0, r.1)
      ≡ (out ++ (resume final more r).0, (resume final more r).1)
resume-out final more out (o, l) =
    ap (λ x. (x, (drain final (l ++ more)).1)) (append_assoc out o (drain final (l ++ more)).0)

-- Bytes that come in two parts: what the first gives, then what its rest gives with the second.
drain-append :
    (n : ℕ) (final : Bool) (bytes more : List ℕ)
    → length bytes ≤ n
    → drain final (bytes ++ more) ≡ resume final more (drain false bytes)
drain-append n final [] more h = rw (drain-nil false) refl
drain-append zero final (lead ∷ bytes) more h = absurd (omega arith)
drain-append (suc n) final (lead ∷ bytes) more h =
    elim (Option-cases (drain_step false lead bytes)) [
      | inl waits ↦ sym (
          ap (resume final more)
            (drain-round false lead bytes ∙ ap (drain_result false lead bytes) waits))
      | inr ((out, moved), e) ↦
          let (lo, hi) = drain_step-moves false lead bytes out moved e in
          let rest = drop moved (lead ∷ bytes) in
          drain-round final lead (bytes ++ more)
          ∙ ap (drain_result final lead (bytes ++ more))
              (drain_step-append final lead bytes more out moved e)
          ∙ ap (λ xs. (out ++ (drain final xs).0, (drain final xs).1))
              (drop-append moved (lead ∷ bytes) more (omega arith))
          ∙ ap (λ (r : List ℕ × List ℕ). (out ++ r.0, r.1))
              (drain-append n final rest more (omega (arith, length-drop moved (lead ∷ bytes))))
          ∙ sym (resume-out final more out (drain false rest))
          ∙ sym (
              ap (resume final more)
                (drain-round false lead bytes ∙ ap (drain_result false lead bytes) e))
    ]

-- `append` for each chunk in turn: all output, and what is pending at the end.
abbrev pub feed : List (List ℕ) → List ℕ → List ℕ × List ℕ
feed [] pending = ([], pending)
feed (chunk ∷ chunks) pending =
    let (out, left) = append chunk pending in
    let (out', left') = feed chunks left in (out ++ out', left')

abbrev pub joined : List (List ℕ) → List ℕ
joined [] = []
joined (chunk ∷ chunks) = chunk ++ joined chunks

feed-drain :
    (chunks : List (List ℕ)) (pending : List ℕ)
    → drain true (pending ++ joined chunks) ≡ resume true [] (feed chunks pending)
unfolding append
feed-drain [] pending = refl
feed-drain (chunk ∷ chunks) pending =
    let (out, left) = drain false (pending ++ chunk) in
    ap (drain true) (sym (append_assoc pending chunk (joined chunks)))
    ∙ drain-append (length (pending ++ chunk)) true (pending ++ chunk) (joined chunks) (omega arith)
    ∙ ap (λ (r : List ℕ × List ℕ). (out ++ r.0, r.1)) (feed-drain chunks left)
    ∙ sym (resume-out true [] out (feed chunks left))

-- The text of all `append`s and the final `finish` is the same however the bytes are cut into
-- chunks: it is what one `finish` makes of the whole.
pub finish-feed :
    (chunks : List (List ℕ))
    → (feed chunks []).0 ++ (finish (feed chunks []).1).0 ≡ (finish (joined chunks)).0
unfolding finish
finish-feed chunks =
    ap (λ xs. (feed chunks []).0 ++ (drain true xs).0) (sym (append_nil (feed chunks []).1))
    ∙ sym (ap (λ (r : List ℕ × List ℕ). r.0) (feed-drain chunks []))
