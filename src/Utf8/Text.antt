-- ===== src/Utf8/Text.antt =====
-- Well-formed text passes unchanged.
use mini_llm_runtime.Base.{
  ℕ, suc, ◌+◌, ◌-◌, ◌≡◌, refl, ap, ◌∙◌, Bool, true, false, ◌&&◌, not, some, List, [], ◌∷◌, ◌++◌,
  arith, ◌==◌, length, length-append, take, drop,
}
use mini_llm_runtime.Utf8.{width, follows, follow_loop, is_valid, drain_step, drain, append, finish}
use mini_llm_runtime.Utf8.Steps.{drain_step-whole}
use mini_llm_runtime.Utf8.Stream.{drain_result, drain-round, drain-nil}
use mini_llm_runtime.Utf8.Output.{is_character, IsText, no_text, one_more}

character-width : (a : ℕ) (bs : List ℕ) → is_character (a ∷ bs) ≡ true → width a ≡ length bs + 1
unfolding is_character width
character-width a [] h = ground arith
character-width a (b ∷ []) h = ground arith
character-width a (b ∷ c ∷ []) h = ground arith
character-width a (b ∷ c ∷ d ∷ []) h = ground arith
character-width a (b ∷ c ∷ d ∷ e ∷ bs) h = cc

character-follows :
    (a : ℕ) (bs rest : List ℕ)
    → is_character (a ∷ bs) ≡ true
    → follow_loop a 1 (length bs) (bs ++ rest) ≡ true
unfolding is_character follow_loop follows
character-follows a [] rest h = refl
character-follows a (b ∷ []) rest h = ground arith
character-follows a (b ∷ c ∷ []) rest h = ground arith
character-follows a (b ∷ c ∷ d ∷ []) rest h = ground arith
character-follows a (b ∷ c ∷ d ∷ e ∷ bs) rest h = cc

take_all : (xs ys : List ℕ) → take (length xs) (xs ++ ys) ≡ xs
take_all [] ys = refl
take_all (x ∷ xs) ys = ap (λ l. x ∷ l) (take_all xs ys)

drop_all : (xs ys : List ℕ) → drop (length xs) (xs ++ ys) ≡ ys
drop_all [] ys = refl
drop_all (x ∷ xs) ys = drop_all xs ys

module _ (final : Bool) (a : ℕ) (bs rest : List ℕ) (h : is_character (a ∷ bs) ≡ true) where
  valid-here : is_valid a (bs ++ rest) ≡ true
  unfolding is_valid
  valid-here =
      ap (λ w. not (w == 0) && follow_loop a 1 (w - 1) (bs ++ rest)) (character-width a bs h)
      ∙ ap (λ n. not (length bs + 1 == 0) && follow_loop a 1 n (bs ++ rest)) back
      ∙ ground (arith, character-follows a bs rest h)
    where
      back : length bs + 1 - 1 ≡ length bs
      back = omega arith

  character-step : drain_step final a (bs ++ rest) ≡ some (a ∷ bs, suc (length bs))
  character-step =
      drain_step-whole a (bs ++ rest) final valid-here
        (omega (arith, character-width a bs h, length-append bs rest))
      ∙ ap (λ w. some (take w (a ∷ (bs ++ rest)), w)) wide
      ∙ ap (λ l. some (a ∷ l, suc (length bs))) (take_all bs rest)
    where
      wide : width a ≡ suc (length bs)
      wide = omega (arith, character-width a bs h)

  character-drain :
      drain final ((a ∷ bs) ++ rest) ≡ ((a ∷ bs) ++ (drain final rest).0, (drain final rest).1)
  character-drain =
      drain-round final a (bs ++ rest)
      ∙ ap (drain_result final a (bs ++ rest)) character-step
      ∙ ap (λ l. ((a ∷ bs) ++ (drain final l).0, (drain final l).1)) (drop_all bs rest)

no_character : is_character [] ≡ true → ⊥
unfolding is_character
no_character h = cc

text-drain : {bytes : List ℕ} (final : Bool) → IsText bytes → drain final bytes ≡ (bytes, [])
text-drain final no_text = drain-nil final
text-drain final (one_more [] rest h t) = absurd (no_character h)
text-drain final (one_more (a ∷ bs) rest h t) =
    character-drain final a bs rest h
    ∙ ap (λ (r : List ℕ × List ℕ). ((a ∷ bs) ++ r.0, r.1)) (text-drain final t)

-- Well-formed text is released as it is, and nothing of it stays pending, by `append` to an empty
-- buffer and by `finish`.
pub text-unchanged :
    (bytes : List ℕ) → IsText bytes → (append bytes [] ≡ (bytes, [])) × (finish bytes ≡ (bytes, []))
unfolding append finish
text-unchanged bytes t = (text-drain false t, text-drain true t)
