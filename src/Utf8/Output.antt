-- ===== src/Utf8/Output.antt =====
-- The output against the table of well-formed byte sequences of the Unicode standard.
use mini_llm_runtime.Base.{
  ℕ, zero, suc, ◌+◌, ◌-◌, ◌<◌, ◌≤◌, ◌≡◌, refl, sym, ap, ◌∙◌, subst, inl, inr, Bool, true, false,
  ◌&&◌, ◌||◌, some, Option-cases, List, [], ◌∷◌, ◌++◌, arith, leb, ◌==◌, if◌then◌else◌, Bool-cases,
  dec_lt, length, length-drop, take, drop,
}
use mini_llm_runtime.Utf8.{
  width, follows, follow_loop, is_valid, replacement, drain_step, drain, append, finish,
}
use mini_llm_runtime.Utf8.Steps.{
  width-le, drain_step-last, drain_step-waits, drain_step-moves, drain_step-invalid,
  drain_step-whole, drain_step-short,
}
use mini_llm_runtime.Utf8.Stream.{drain_result, drain-round, drain-nil}

abbrev between : ℕ → ℕ → ℕ → Bool
between low byte high = leb low byte && leb byte high

-- The byte sequences of one character, by the rows of that table.
unfoldable pub is_character : List ℕ → Bool
is_character (a ∷ []) = leb a 127
is_character (a ∷ b ∷ []) = between 194 a 223 && between 128 b 191
is_character (a ∷ b ∷ c ∷ []) =
    between 128 c 191
    && (a == 224 && between 160 b 191
        || between 225 a 236 && between 128 b 191
        || a == 237 && between 128 b 159
        || between 238 a 239 && between 128 b 191)
is_character (a ∷ b ∷ c ∷ d ∷ []) =
    between 128 c 191
    && between 128 d 191
    && (a == 240 && between 144 b 191
        || between 241 a 243 && between 128 b 191
        || a == 244 && between 128 b 143)
is_character bytes = false

-- Well-formed text: characters one after the other.
pub data IsText : List ℕ → Type 0 where
  no_text : IsText []
  one_more : (c rest : List ℕ) → is_character c ≡ true → IsText rest → IsText (c ++ rest)

one_byte : (a : ℕ) → width a ≡ 1 → is_character (a ∷ []) ≡ true
unfolding width is_character
one_byte a h = ground arith

two_bytes : (a b : ℕ) → width a ≡ 2 → follows a 1 b ≡ true → is_character (a ∷ b ∷ []) ≡ true
unfolding width is_character follows
two_bytes a b h k = ground arith

three_bytes :
    (a b c : ℕ)
    → width a ≡ 3
    → follows a 1 b ≡ true
    → follows a 2 c ≡ true
    → is_character (a ∷ b ∷ c ∷ []) ≡ true
unfolding width is_character follows
three_bytes a b c h k l = ground arith

four_bytes :
    (a b c d : ℕ)
    → width a ≡ 4
    → follows a 1 b ≡ true
    → follows a 2 c ≡ true
    → follows a 3 d ≡ true
    → is_character (a ∷ b ∷ c ∷ d ∷ []) ≡ true
unfolding width is_character follows
four_bytes a b c d h k l m = ground arith

follow_loop-head :
    (lead i rounds b : ℕ) (bytes : List ℕ)
    → follow_loop lead i (suc rounds) (b ∷ bytes) ≡ true
    → (follows lead i b ≡ true) × (follow_loop lead (i + 1) rounds bytes ≡ true)
unfolding follow_loop
follow_loop-head lead i rounds b bytes h = ground arith

whole-character :
    (w lead : ℕ) (bytes : List ℕ)
    → width lead ≡ w
    → 0 < w
    → w ≤ 4
    → w ≤ length bytes + 1
    → follow_loop lead 1 (w - 1) bytes ≡ true
    → is_character (take w (lead ∷ bytes)) ≡ true
whole-character zero lead bytes e lo hi k f = absurd (omega arith)
whole-character (suc zero) lead bytes e lo hi k f = one_byte lead e
whole-character (suc (suc zero)) lead (b ∷ bytes) e lo hi k f =
    two_bytes lead b e (follow_loop-head lead 1 0 b bytes f).0
whole-character (suc (suc (suc zero))) lead (b ∷ c ∷ bytes) e lo hi k f =
    let (g, h) = follow_loop-head lead 1 1 b (c ∷ bytes) f in
    three_bytes lead b c e g (follow_loop-head lead 2 0 c bytes h).0
whole-character (suc (suc (suc (suc zero)))) lead (b ∷ c ∷ d ∷ bytes) e lo hi k f =
    let (g, h) = follow_loop-head lead 1 2 b (c ∷ d ∷ bytes) f in
    let (i, j) = follow_loop-head lead 2 1 c (d ∷ bytes) h in
    four_bytes lead b c d e g i (follow_loop-head lead 3 0 d bytes j).0
whole-character (suc (suc (suc (suc (suc w))))) lead bytes e lo hi k f = absurd (omega arith)
whole-character (suc (suc w)) lead [] e lo hi k f = absurd (omega arith)
whole-character (suc (suc (suc w))) lead (b ∷ []) e lo hi k f = absurd (omega arith)
whole-character (suc (suc (suc (suc w)))) lead (b ∷ c ∷ []) e lo hi k f = absurd (omega arith)

valid-character :
    (lead : ℕ) (bytes : List ℕ)
    → is_valid lead bytes ≡ true
    → width lead ≤ length bytes + 1
    → is_character (take (width lead) (lead ∷ bytes)) ≡ true
unfolding is_valid
valid-character lead bytes h k =
    whole-character (width lead) lead bytes refl (ground (arith, h)) (width-le lead) k
      (ground (arith, h))

replacement-character : is_character replacement ≡ true
unfolding is_character
replacement-character = refl

-- What a round adds to the output is one character.
drain_step-character :
    (final : Bool) (lead : ℕ) (bytes out : List ℕ) (moved : ℕ)
    → drain_step final lead bytes ≡ some (out, moved)
    → is_character out ≡ true
drain_step-character final lead bytes out moved h = elim (Bool-cases (is_valid lead bytes)) [
  | inr bad ↦ is_first (drain_step-invalid lead bytes final bad) replacement-character
  | inl good ↦ elim (dec_lt (length bytes + 1) (width lead)) [
    | no long ↦
        is_first (drain_step-whole lead bytes final good (omega arith))
          (valid-character lead bytes good (omega arith))
    | yes short ↦ elim (Bool-cases final) [
      | inl last ↦
          is_first (ap (λ f. drain_step f lead bytes) last ∙ drain_step-last lead bytes good short)
            replacement-character
      | inr waits ↦
          absurd (
            cc (h, ap (λ f. drain_step f lead bytes) waits, drain_step-short lead bytes good short))
    ]
  ]
]
  where
    is_first :
        {x : List ℕ} {n : ℕ}
        → drain_step final lead bytes ≡ some (x, n)
        → is_character x ≡ true
        → is_character out ≡ true
    is_first {x = x} e c =
        let same : x ≡ out = cc (e, h) in subst (λ o. is_character o ≡ true) same c

-- The output is well-formed text, and at most three bytes stay pending: none at the end.
abbrev pub IsReleased : Bool → List ℕ × List ℕ → Type 0
IsReleased final (out, left) = IsText out × (length left ≤ (if final then 0 else 3))

drain-IsReleased :
    (n : ℕ) (final : Bool) (bytes : List ℕ)
    → length bytes ≤ n
    → IsReleased final (drain final bytes)
drain-IsReleased n final [] h =
    subst (IsReleased final) (sym (drain-nil final)) (no_text, ground arith)
drain-IsReleased zero final (lead ∷ bytes) h = absurd (omega arith)
drain-IsReleased (suc n) final (lead ∷ bytes) h =
    subst (IsReleased final) (sym (drain-round final lead bytes))
      (elim (Option-cases (drain_step final lead bytes)) [
        | inl e ↦
            subst (λ o. IsReleased final (drain_result final lead bytes o)) (sym e)
              (no_text, ground (arith, drain_step-waits lead bytes final e))
        | inr ((out, moved), e) ↦
            let (lo, hi) = drain_step-moves final lead bytes out moved e in
            let rest = drop moved (lead ∷ bytes) in
            let (text, few) =
              drain-IsReleased n final rest (omega (arith, length-drop moved (lead ∷ bytes))) in
            subst (λ o. IsReleased final (drain_result final lead bytes o)) (sym e)
              (
                one_more out (drain final rest).0
                    (drain_step-character final lead bytes out moved e) text,
                few,
              )
      ])

-- The output of `append` and of `finish` is well-formed text, whatever the bytes are; after
-- `append` at most three bytes are pending, after `finish` none.
pub output-IsReleased :
    (bytes pending : List ℕ)
    → IsReleased false (append bytes pending) × IsReleased true (finish pending)
unfolding append finish
output-IsReleased bytes pending = (
  drain-IsReleased (length (pending ++ bytes)) false (pending ++ bytes) (omega arith),
  drain-IsReleased (length pending) true pending (omega arith),
)
