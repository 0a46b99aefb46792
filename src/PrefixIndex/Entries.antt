-- ===== src/PrefixIndex/Entries.antt =====
-- The entries as a map in the order of its keys: sums over the entries, after each operation.
use mini_llm_runtime.Base.{
  if◌then◌else◌, ℕ, ◌+◌, ◌<◌, ◌≤◌, ◌≡◌, refl, ap, subst, inl, inr, true, false, none, some, List,
  [], ◌∷◌, arith, ltb, ◌==◌, Bool-cases, All, All-map, total,
}
use mini_llm_runtime.PrefixIndex.{PrefixEntry, find_entry, put_entry, erase_entry}

abbrev Above : ℕ → List PrefixEntry → Type 0
Above s es = All (λ (e : PrefixEntry). s < e.sequence) es

abbrev pub IsAscending : List PrefixEntry → Type 0
IsAscending [] = Unit
IsAscending (e ∷ es) = Above e.sequence es × IsAscending es

Above-find : (s k : ℕ) (es : List PrefixEntry) → Above s es → k ≤ s → find_entry k es ≡ none
unfolding find_entry
Above-find s k [] h l = refl
Above-find s k (e ∷ es) h l = ground (arith, h.0, Above-find s k es h.1 l)

Above-weaken : (s t : ℕ) (es : List PrefixEntry) → t < s → Above s es → Above t es
Above-weaken s t es l h = All-map es (λ e k. omega arith) h

put_entry-Above :
    (s : ℕ) (e : PrefixEntry) (es : List PrefixEntry)
    → s < e.sequence
    → Above s es
    → Above s (put_entry e es)
unfolding put_entry
put_entry-Above s e [] l h = (l, tt)
put_entry-Above s e (x ∷ es) l h = elim (Bool-cases (x.sequence == e.sequence)) [
  | inl same ↦ rw same (l, h.1)
  | inr other ↦ elim (Bool-cases (ltb e.sequence x.sequence)) [
    | inl before ↦ rw (other, before) (l, h)
    | inr after ↦ rw (other, after) (h.0, put_entry-Above s e es l h.1)
  ]
]

pub put_entry-IsAscending :
    (e : PrefixEntry) (es : List PrefixEntry) → IsAscending es → IsAscending (put_entry e es)
unfolding put_entry
put_entry-IsAscending e [] h = (tt, tt)
put_entry-IsAscending e (x ∷ es) h = elim (Bool-cases (x.sequence == e.sequence)) [
  | inl same ↦ rw same (subst (λ s. Above s es) (ground arith) h.0, h.1)
  | inr other ↦ elim (Bool-cases (ltb e.sequence x.sequence)) [
    | inl before ↦
        rw (other, before)
          ((ground arith, Above-weaken x.sequence e.sequence es (ground arith) h.0), h)
    | inr after ↦
        rw (other, after)
          (put_entry-Above x.sequence e es (ground arith) h.0, put_entry-IsAscending e es h.1)
  ]
]

erase_entry-Above : (s k : ℕ) (es : List PrefixEntry) → Above s es → Above s (erase_entry k es)
unfolding erase_entry
erase_entry-Above s k [] h = tt
erase_entry-Above s k (e ∷ es) h = elim (Bool-cases (e.sequence == k)) [
  | inl same ↦ rw same (erase_entry-Above s k es h.1)
  | inr other ↦ rw other (h.0, erase_entry-Above s k es h.1)
]

pub erase_entry-IsAscending :
    (k : ℕ) (es : List PrefixEntry) → IsAscending es → IsAscending (erase_entry k es)
unfolding erase_entry
erase_entry-IsAscending k [] h = tt
erase_entry-IsAscending k (e ∷ es) h = elim (Bool-cases (e.sequence == k)) [
  | inl same ↦ rw same (erase_entry-IsAscending k es h.1)
  | inr other ↦ rw other (erase_entry-Above e.sequence k es h.0, erase_entry-IsAscending k es h.1)
]

module _ (P : PrefixEntry → Type 0) where
  pub All-erase_entry : (k : ℕ) (es : List PrefixEntry) → All P es → All P (erase_entry k es)
  unfolding erase_entry
  All-erase_entry k [] h = tt
  All-erase_entry k (e ∷ es) h = elim (Bool-cases (e.sequence == k)) [
    | inl same ↦ rw same (All-erase_entry k es h.1)
    | inr other ↦ rw other (h.0, All-erase_entry k es h.1)
  ]

  pub All-put_entry :
      (e : PrefixEntry) (es : List PrefixEntry) → P e → All P es → All P (put_entry e es)
  unfolding put_entry
  All-put_entry e [] p h = (p, tt)
  All-put_entry e (x ∷ es) p h = elim (Bool-cases (x.sequence == e.sequence)) [
    | inl same ↦ rw same (p, h.1)
    | inr other ↦ elim (Bool-cases (ltb e.sequence x.sequence)) [
      | inl before ↦ rw (other, before) (p, h)
      | inr after ↦ rw (other, after) (h.0, All-put_entry e es p h.1)
    ]
  ]

  pub All-find_entry :
      (k : ℕ) (es : List PrefixEntry) (x : PrefixEntry) → All P es → find_entry k es ≡ some x → P x
  unfolding find_entry
  All-find_entry k [] x h e = cc
  All-find_entry k (y ∷ es) x h e = elim (Bool-cases (y.sequence == k)) [
    | inl hit ↦ let same : y ≡ x = ground (arith, e) in subst P same h.0
    | inr miss ↦ All-find_entry k es x h.1 (ground (arith, e))
  ]

module _ (f : PrefixEntry → ℕ) where
  pub total-put_new :
      (e : PrefixEntry) (es : List PrefixEntry)
      → find_entry e.sequence es ≡ none
      → total f (put_entry e es) ≡ f e + total f es
  unfolding find_entry put_entry
  total-put_new e [] h = refl
  total-put_new e (x ∷ es) h = ground (arith, total-put_new e es)

  total-erase_none :
      (k : ℕ) (es : List PrefixEntry)
      → find_entry k es ≡ none
      → total f (erase_entry k es) ≡ total f es
  unfolding find_entry erase_entry
  total-erase_none k [] h = refl
  total-erase_none k (x ∷ es) h = ground (arith, total-erase_none k es)

  pub total-erase :
      (k : ℕ) (es : List PrefixEntry) (x : PrefixEntry)
      → IsAscending es
      → find_entry k es ≡ some x
      → total f (erase_entry k es) + f x ≡ total f es
  unfolding find_entry erase_entry
  total-erase k [] x a h = cc
  total-erase k (y ∷ es) x a h = elim (Bool-cases (y.sequence == k)) [
    | inl hit ↦ rw hit (
        omega
          (arith, total-erase_none k es (Above-find y.sequence k es a.0 (ground arith)), head hit))
    | inr miss ↦ rw miss (omega (arith, total-erase k es x a.1 (rest miss)))
  ]
    where
      head : y.sequence == k ≡ true → f y ≡ f x
      head hit = let same : y ≡ x = ground (arith, h) in ap f same

      rest : y.sequence == k ≡ false → find_entry k es ≡ some x
      rest miss = ground (arith, h)

  pub total-put_old :
      (e x : PrefixEntry) (es : List PrefixEntry)
      → IsAscending es
      → find_entry e.sequence es ≡ some x
      → total f (put_entry e es) + f x ≡ f e + total f es
  unfolding find_entry put_entry
  total-put_old e x [] a h = cc
  total-put_old e x (y ∷ es) a h = elim (Bool-cases (y.sequence == e.sequence)) [
    | inl hit ↦ rw hit (omega (arith, head hit))
    | inr miss ↦ elim (Bool-cases (ltb e.sequence y.sequence)) [
      | inl early ↦ absurd (early_none early miss)
      | inr later ↦ rw (miss, later) (omega (arith, total-put_old e x es a.1 (rest miss)))
    ]
  ]
    where
      head : y.sequence == e.sequence ≡ true → f y ≡ f x
      head hit = let same : y ≡ x = ground (arith, h) in ap f same

      rest : y.sequence == e.sequence ≡ false → find_entry e.sequence es ≡ some x
      rest miss = ground (arith, h)

      early_none : ltb e.sequence y.sequence ≡ true → y.sequence == e.sequence ≡ false → ⊥
      early_none early miss = cc (rest miss, Above-find y.sequence e.sequence es a.0 (ground arith))

  pub total-find :
      (k : ℕ) (es : List PrefixEntry) (x : PrefixEntry)
      → find_entry k es ≡ some x
      → f x ≤ total f es
  unfolding find_entry
  total-find k [] x h = cc
  total-find k (y ∷ es) x h = elim (Bool-cases (y.sequence == k)) [
    | inl hit ↦
        let same : y ≡ x = ground (arith, h) in
        subst (λ u. f u ≤ f y + total f es) same (omega arith)
    | inr miss ↦ omega (arith, total-find k es x (ground (arith, h)))
  ]

-- No entry has a sequence that none is counted for.
pub find_entry-none :
    (k : ℕ) (es : List PrefixEntry)
    → total (λ e. if k == e.sequence then 1 else 0) es ≡ 0
    → find_entry k es ≡ none
unfolding find_entry
find_entry-none k [] h = refl
find_entry-none k (e ∷ es) h = ground (arith, h, find_entry-none k es)
