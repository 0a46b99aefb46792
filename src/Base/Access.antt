-- ===== src/Base/Access.antt =====
-- Entries by their index, and sums over a list when one entry changes.
use Prim.Native.Nat.{ℕ, zero, suc, ◌+◌, ◌*◌, ◌/◌, ◌<◌, ◌≤◌}
use native.Mathlib.Nat.{div-lt_iff_lt-mul}
use mathlib.Core.Path.{◌≡◌, refl, ap, subst}
use mathlib.Core.Logic.{◌≢◌}
use mathlib.Core.List.{List, [], ◌∷◌, ◌++◌}
use mathlib.Core.Option.{some}
use native.Mathlib.Omega.{arith}
use mini_llm_runtime.Base.Lists.{length, get_elem?, set, take, count, All}
use mini_llm_runtime.Base.Sort.{total}

module _ {ℓ} {A : Type ℓ} where
  pub get_elem_lt : (xs : List A) (i : ℕ) (x : A) → get_elem? xs i ≡ some x → i < length xs
  get_elem_lt [] i x h = cc
  get_elem_lt (y ∷ xs) zero x h = omega arith
  get_elem_lt (y ∷ xs) (suc i) x h = omega (arith, get_elem_lt xs i x h)

  pub get_elem_some : (xs : List A) (i : ℕ) → i < length xs → (x : A) × (get_elem? xs i ≡ some x)
  get_elem_some [] i h = absurd (omega arith)
  get_elem_some (y ∷ xs) zero h = (y, refl)
  get_elem_some (y ∷ xs) (suc i) h = get_elem_some xs i (omega arith)

  pub get_elem-set_ne :
      (xs : List A) (i j : ℕ) (x : A) → i ≢ j → get_elem? (set xs i x) j ≡ get_elem? xs j
  get_elem-set_ne [] i j x h = refl
  get_elem-set_ne (y ∷ xs) zero zero x h = absurd (h refl)
  get_elem-set_ne (y ∷ xs) zero (suc j) x h = refl
  get_elem-set_ne (y ∷ xs) (suc i) zero x h = refl
  get_elem-set_ne (y ∷ xs) (suc i) (suc j) x h = get_elem-set_ne xs i j x (λ e. h (ap suc e))

  pub get_elem-set_self :
      (xs : List A) (i : ℕ) (x : A) → i < length xs → get_elem? (set xs i x) i ≡ some x
  get_elem-set_self [] i x h = absurd (omega arith)
  get_elem-set_self (y ∷ xs) zero x h = refl
  get_elem-set_self (y ∷ xs) (suc i) x h = get_elem-set_self xs i x (omega arith)

  pub total-set :
      (f : A → ℕ) (xs : List A) (i : ℕ) (x y : A)
      → get_elem? xs i ≡ some x
      → total f (set xs i y) + f x ≡ total f xs + f y
  total-set f [] i x y h = cc
  total-set f (z ∷ xs) zero x y h =
      let same : z ≡ x = cc in
      subst (λ u. f y + total f xs + f u ≡ f z + total f xs + f y) same (omega arith)
  total-set f (z ∷ xs) (suc i) x y h = omega (arith, total-set f xs i x y h)

  pub total-ge :
      (f : A → ℕ) (xs : List A) (i : ℕ) (x : A) → get_elem? xs i ≡ some x → f x ≤ total f xs
  total-ge f [] i x h = cc
  total-ge f (y ∷ xs) zero x h =
      let same : y ≡ x = cc in subst (λ u. f u ≤ f y + total f xs) same (omega arith)
  total-ge f (y ∷ xs) (suc i) x h = omega (arith, total-ge f xs i x h)

  pub total-le :
      (f g : A → ℕ) (xs : List A) → All (λ (x : A). f x ≤ g x) xs → total f xs ≤ total g xs
  total-le f g [] h = omega arith
  total-le f g (x ∷ xs) h = omega (arith, h.0, total-le f g xs h.1)

  pub total-ones : (xs : List A) → total (λ _. 1) xs ≡ length xs
  total-ones [] = refl
  total-ones (x ∷ xs) = omega (arith, total-ones xs)

  pub total-zero : (f : A → ℕ) (xs : List A) → All (λ (x : A). f x ≡ 0) xs → total f xs ≡ 0
  total-zero f [] h = refl
  total-zero f (x ∷ xs) h = omega (arith, h.0, total-zero f xs h.1)

  pub All-set {κ} :
      (P : A → Type κ) (xs : List A) (i : ℕ) (y : A) → All P xs → P y → All P (set xs i y)
  All-set P [] i y h p = tt
  All-set P (x ∷ xs) zero y h p = (p, h.1)
  All-set P (x ∷ xs) (suc i) y h p = (h.0, All-set P xs i y h.1 p)

  pub All-get_elem {κ} :
      (P : A → Type κ) (xs : List A) (i : ℕ) (x : A) → All P xs → get_elem? xs i ≡ some x → P x
  All-get_elem P [] i x h e = cc
  All-get_elem P (y ∷ xs) zero x h e = let same : y ≡ x = cc in subst P same h.0
  All-get_elem P (y ∷ xs) (suc i) x h e = All-get_elem P xs i x h.1 e

pub count_append : (a : ℕ) (xs ys : List ℕ) → count a (xs ++ ys) ≡ count a xs + count a ys
count_append a [] ys = omega arith
count_append a (x ∷ xs) ys = omega (arith, count_append a xs ys)

pub count-take : (a n : ℕ) (xs : List ℕ) → count a (take n xs) ≤ count a xs
count-take a zero xs = omega arith
count-take a (suc n) [] = omega arith
count-take a (suc n) (x ∷ xs) = omega (arith, count-take a n xs)

pub div_mono : (a b k : ℕ) → 0 < k → a ≤ b → a / k ≤ b / k
div_mono a b k pos h =
    let top : b < (b / k + 1) * k =
      (div-lt_iff_lt-mul {k = k} {x = b} {y = b / k + 1} pos).0 (omega arith) in
    let below : a / k < b / k + 1 =
      (div-lt_iff_lt-mul {k = k} {x = a} {y = b / k + 1} pos).1 (omega (arith, top, h)) in
    omega (arith, below)
