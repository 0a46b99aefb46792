-- ===== src/Cuda/PageTable/Rows.antt =====
-- What `prepare` does to one row: the entries behind its pages get free ids.
use mini_llm_runtime.Base.{
  ℕ, zero, suc, ◌+◌, ◌<◌, ◌≤◌, ◌≡◌, ◌≢◌, refl, sym, ap, subst, ◌∙◌, inl, inr, true, Option, none,
  some, List, [], ◌∷◌, ◌++◌, arith, ◌==◌, if◌then◌else◌, length, length-set, get_or, get_or-set,
  get_or-set_ne, set, count, All, Bool-cases,
}
use mini_llm_runtime.Cuda.PageTable.{Row, good_entry, good_row, assign_row}

-- 1 for the page `a`.
abbrev pub is_page : ℕ → Option ℕ → ℕ
is_page a none = 0
is_page a (some id) = if a == id then 1 else 0

-- How often a row names the page `a`.
abbrev pub row_count : ℕ → Row → ℕ
row_count a [] = 0
row_count a (x ∷ row) = is_page a x + row_count a row

-- The first `old` entries of a row are pages in range, and the others are invalid.
abbrev pub IsFit : ℕ → ℕ → Row → Type 0
IsFit physical old row =
    (i : ℕ) → i < length row → good_entry physical old i (get_or row i none) ≡ true

good_row-tail :
    (physical old b : ℕ) (row : Row)
    → good_row physical old b row ≡ true
    → (i : ℕ) → i < length row
    → good_entry physical old (b + i) (get_or row i none) ≡ true
unfolding good_row
good_row-tail physical old b [] h i small = absurd (omega arith)
good_row-tail physical old b (x ∷ row) h zero small =
    let same : b + 0 ≡ b = omega arith in
    subst (λ j. good_entry physical old j x ≡ true) (sym same)
      (elim (Bool-cases (good_entry physical old b x)) [
        | inl good ↦ good
        | inr bad ↦ absurd (cc (rw bad at h))
      ])
good_row-tail physical old b (x ∷ row) h (suc i) small =
    let same : b + suc i ≡ b + 1 + i = omega arith in
    subst (λ j. good_entry physical old j (get_or row i none) ≡ true) (sym same)
      (good_row-tail physical old (b + 1) row
        (elim (Bool-cases (good_entry physical old b x)) [
          | inl good ↦ rw good at h
          | inr bad ↦ absurd (cc (rw bad at h))
        ])
        i (omega (arith, small)))

pub good_row-IsFit :
    (physical old : ℕ) (row : Row) → good_row physical old 0 row ≡ true → IsFit physical old row
good_row-IsFit physical old row h i small =
    let same : 0 + i ≡ i = omega arith in
    subst (λ j. good_entry physical old j (get_or row i none) ≡ true) same
      (good_row-tail physical old 0 row h i small)

row_count-set :
    (a b id : ℕ) (row : Row)
    → b < length row
    → get_or row b none ≡ none
    → row_count a (set row b (some id)) ≡ row_count a row + (if a == id then 1 else 0)
row_count-set a b id [] h e = absurd (omega arith)
row_count-set a zero id (x ∷ row) h e = rw e (omega arith)
row_count-set a (suc b) id (x ∷ row) h e =
    omega (arith, row_count-set a b id row (omega (arith, h)) e)

none-of_good :
    (physical old b : ℕ) (x : Option ℕ) → good_entry physical old b x ≡ true → old ≤ b → x ≡ none
none-of_good physical old b none h k = refl
none-of_good physical old b (some id) h k = absurd (ground (arith, h, k))

wider :
    (physical b i : ℕ) (x : Option ℕ)
    → good_entry physical b i x ≡ true
    → b ≢ i
    → good_entry physical (b + 1) i x ≡ true
wider physical b i none h apart = ground (arith, h, apart)
wider physical b i (some id) h apart = ground (arith, h, apart)

-- The entry behind the pages of a row becomes one of them.
set-IsFit :
    (physical b id : ℕ) (row : Row)
    → IsFit physical b row
    → b < length row
    → id < physical
    → IsFit physical (b + 1) (set row b (some id))
set-IsFit physical b id row fit inside small i here =
    subst (λ x. good_entry physical (b + 1) i x ≡ true) (sym (get_or-set row b i (some id) none))
      (elim (Bool-cases (b == i)) [
        | inl own ↦ rw own (ground (arith, own, inside, small))
        | inr other ↦ rw other (
            wider physical b i (get_or row i none)
              (fit i (omega (arith, here, length-set row b (some id)))) (ground (arith, other)))
      ])

pub record IsAssigned (physical b count_of : ℕ) (row : Row) (rest : List ℕ)
    (r : Row × List ℕ × List ℕ) : Type 0 where
  pub fit : IsFit physical (b + count_of) r.0
  pub same : length r.0 ≡ length row
  pub split : rest ≡ r.2 ++ r.1
  pub taken : length r.2 ≡ count_of
  pub kept : (i : ℕ) → i < b → get_or r.0 i none ≡ get_or row i none
  pub counted : (a : ℕ) → row_count a r.0 ≡ row_count a row + count a r.2

pub assign_row-IsAssigned :
    (physical n b : ℕ) (row : Row) (rest : List ℕ)
    → IsFit physical b row
    → b + n ≤ length row
    → n ≤ length rest
    → All (λ id. id < physical) rest
    → IsAssigned physical b n row rest (assign_row n b row rest)
unfolding assign_row
assign_row-IsAssigned physical zero b row rest fit room enough small =
    let same : b + 0 ≡ b = omega arith in
    record {
      fit = subst (λ n. IsFit physical n row) (sym same) fit;
      same = refl;
      split = refl;
      taken = refl;
      kept = λ i low. refl;
      counted = λ a. omega arith;
    }
assign_row-IsAssigned physical (suc n) b row [] fit room enough small =
    absurd (omega (arith, enough))
assign_row-IsAssigned physical (suc n) b row (id ∷ rest) fit room enough small =
    let inside : b < length row = omega (arith, room) in
    let empty : get_or row b none ≡ none =
      none-of_good physical b b (get_or row b none) (fit b inside) (omega arith) in
    let v =
      assign_row-IsAssigned physical n (b + 1) (set row b (some id)) rest
        (set-IsFit physical b id row fit inside small.0)
        (omega (arith, room, length-set row b (some id))) (omega (arith, enough)) small.1 in
    let same : b + suc n ≡ b + 1 + n = omega arith in
    record {
      fit =
          subst (λ m. IsFit physical m (assign_row n (b + 1) (set row b (some id)) rest).0)
            (sym same) v.fit;
      same = v.same ∙ length-set row b (some id);
      split = ap (λ xs. id ∷ xs) v.split;
      taken = ap suc v.taken;
      kept = λ i low.
          v.kept i (omega (arith, low))
          ∙ get_or-set_ne row b i (some id) none (λ e. absurd (omega (arith, e, low)));
      counted = λ a. omega (arith, v.counted a, row_count-set a b id row inside empty);
    }
