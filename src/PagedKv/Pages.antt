-- ===== src/PagedKv/Pages.antt =====
-- How many pages a length needs, and the two loops over the counts of pages.
use native.Mathlib.Nat.{div-lt_iff_lt-mul, le-div_iff_mul-le, div-add-mod', div-eq_of_lt, mod-lt}
use mini_llm_runtime.Base.{
  ℕ, zero, suc, some, ap, ◌++◌, drop, get_elem?, ◌+◌, ◌-◌, ◌*◌, ◌/◌, ◌%◌, ◌≤◌, ◌<◌, ◌≡◌, ◌≢◌, refl,
  ◌∙◌, List, [], ◌∷◌, arith, ◌==◌, if◌then◌else◌, length, length-set, get_or, get_or-set, set,
  count, u64_mod, dec64, dec64-eq-sub,
}
use mini_llm_runtime.BlockPool.Slots.{IsAccounted, put-IsAccounted, bump-IsAccounted}
use mini_llm_runtime.BlockPool.Invariant.{lt_of_owned}
use mini_llm_runtime.PagedKv.{copy_over, retain_pages, release_pages}

abbrev pub needed : ℕ → ℕ → ℕ
needed n tokens = (tokens + n - 1) / n

div_unique : (n a q : ℕ) → 0 < n → q * n ≤ a → a < (q + 1) * n → a / n ≡ q
div_unique n a q some_n low high =
    let below : a / n < q + 1 = (div-lt_iff_lt-mul {k = n} {x = a} {y = q + 1} some_n).1 high in
    let above : q ≤ a / n = (le-div_iff_mul-le {k = n} {x = q} {y = a} some_n).1 low in
    omega (arith, below, above)

module _ (n tokens : ℕ) (some_n : 0 < n) where
  -- One more token at the start of a page needs a page more.
  pub needed-start : tokens % n ≡ 0 → needed n (tokens + 1) ≡ needed n tokens + 1
  needed-start start =
      let whole : tokens / n * n + tokens % n ≡ tokens = div-add-mod' tokens n in
      div_unique n (tokens + 1 + n - 1) (tokens / n + 1) some_n (omega (arith, whole, start))
        (omega (arith, whole, start))
      ∙ omega (
        arith,
        div_unique n (tokens + n - 1) (tokens / n) some_n (omega (arith, whole, start))
            (omega (arith, whole, start)),
      )

  -- One more token within a page needs none, and there is a last page.
  pub needed-within :
      tokens % n ≢ 0 → (needed n (tokens + 1) ≡ needed n tokens) × (0 < needed n tokens)
  needed-within within =
      let whole : tokens / n * n + tokens % n ≡ tokens = div-add-mod' tokens n in
      let short : tokens % n < n = mod-lt tokens some_n in
      let left : 0 < tokens % n = ground (arith, within) in
      let now : needed n tokens ≡ tokens / n + 1 =
        div_unique n (tokens + n - 1) (tokens / n + 1) some_n (omega (arith, whole, short, left))
          (omega (arith, whole, short, left)) in
      let next : needed n (tokens + 1) ≡ tokens / n + 1 =
        div_unique n (tokens + 1 + n - 1) (tokens / n + 1) some_n
          (omega (arith, whole, short, left)) (omega (arith, whole, short, left)) in
      (omega (arith, now, next), omega (arith, now))

  -- A token has its page among them.
  pub page-lt_needed : (position : ℕ) → position < tokens → position / n < needed n tokens
  page-lt_needed position h =
      let whole : position / n * n + position % n ≡ position = div-add-mod' position n in
      let short : position % n < n = mod-lt position some_n in
      let above : position / n + 1 ≤ needed n tokens =
        (le-div_iff_mul-le {k = n} {x = position / n + 1} {y = tokens + n - 1} some_n).1
          (omega (arith, whole, short, h)) in
      omega (arith, above)

pub needed-zero : (n : ℕ) → 0 < n → needed n 0 ≡ 0
needed-zero n some_n = div-eq_of_lt {n = 0 + n - 1} {m = n} (omega arith)

pub retain_pages_lem :
    (ids refs free : List ℕ)
    → IsAccounted refs free
    → ((a : ℕ) → 0 < count a ids → 0 < get_or refs a 0)
    → IsAccounted (retain_pages ids refs) free
      × ((a : ℕ) → get_or (retain_pages ids refs) a 0 ≡ get_or refs a 0 + count a ids)
      × (length (retain_pages ids refs) ≡ length refs)
unfolding retain_pages
retain_pages_lem [] refs free w live = (w, λ a. omega arith, refl)
retain_pages_lem (id ∷ ids) refs free w live =
    let owned : 0 < get_or refs id 0 = ground (arith, live id) in
    let inside : id < length refs = lt_of_owned refs id owned in
    let read = λ (a : ℕ). get_or-set refs id a (get_or refs id 0 + 1) 0 in
    let (acc, raised, same) =
      retain_pages_lem ids (set refs id (get_or refs id 0 + 1)) free
        (bump-IsAccounted refs free id _ w inside (ground arith) (ground arith))
        (λ a k. ground (arith, read a, live a)) in
    (acc, λ a. ground (arith, raised a, read a), same ∙ length-set refs id _)

pub release_pages_lem :
    (ids refs free : List ℕ)
    → IsAccounted refs free
    → ((a : ℕ) → count a ids ≤ get_or refs a 0)
    → ((a : ℕ) → get_or refs a 0 < u64_mod)
    → let (refs', free') = release_pages ids refs free in
      IsAccounted refs' free'
      × ((a : ℕ) → get_or refs a 0 ≡ get_or refs' a 0 + count a ids)
      × (length refs' ≡ length refs)
unfolding release_pages
release_pages_lem [] refs free w owned words = (w, λ a. omega arith, refl)
release_pages_lem (id ∷ ids) refs free w owned words =
    let held : 0 < get_or refs id 0 = ground (arith, owned id) in
    let inside : id < length refs = lt_of_owned refs id held in
    let left = dec64 (get_or refs id 0) in
    let next : left ≡ get_or refs id 0 - 1 = dec64-eq-sub (get_or refs id 0) held (words id) in
    let read = λ (a : ℕ). get_or-set refs id a left 0 in
    let (acc, lowered, same) =
      release_pages_lem ids (set refs id left) (if left == 0 then id ∷ free else free)
        (put-IsAccounted refs free id left w inside (ground arith))
        (λ a. ground (arith, read a, owned a)) (λ a. ground (arith, read a, words a, words id)) in
    (acc, λ a. ground (arith, lowered a, read a), same ∙ length-set refs id left)

pub count_of_elem : (xs : List ℕ) (i a : ℕ) → get_elem? xs i ≡ some a → 0 < count a xs
count_of_elem [] i a h = cc
count_of_elem (x ∷ xs) zero a h = let same : x ≡ a = cc in ground (arith, same)
count_of_elem (x ∷ xs) (suc i) a h = omega (arith, count_of_elem xs i a h)

drop_all : (n : ℕ) (xs : List ℕ) → length xs ≤ n → drop n xs ≡ []
drop_all zero [] h = refl
drop_all zero (x ∷ xs) h = absurd (omega arith)
drop_all (suc n) [] h = refl
drop_all (suc n) (x ∷ xs) h = drop_all n xs (omega arith)

append_nothing : (xs : List ℕ) → xs ++ [] ≡ xs
append_nothing [] = refl
append_nothing (x ∷ xs) = ap (λ rest. x ∷ rest) (append_nothing xs)

-- A page that is not longer is overwritten as a whole.
pub copy_over-same : (from to : List ℕ) → length to ≤ length from → copy_over from to ≡ from
copy_over-same from to h =
    ap (λ rest. from ++ rest) (drop_all (length from) to h) ∙ append_nothing from
