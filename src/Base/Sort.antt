-- ===== src/Base/Sort.antt =====
-- `std::stable_sort` by a comparison, as insertion from the right, and sums over lists.
use Prim.Native.Nat.{ℕ, ◌+◌}
use mathlib.Core.Path.{◌≡◌, refl, ◌∙◌}
use mathlib.Core.Bool.{Bool, true, false}
use mathlib.Core.List.{List, [], ◌∷◌, ◌++◌}
use mathlib.Core.Logic.{◌⊎◌, inl, inr}
use native.Mathlib.Omega.{arith}
use mini_llm_runtime.Base.Tests.{if◌then◌else◌, Bool-cases}
use mini_llm_runtime.Base.Lists.{All, All-map, In}

module _ {ℓ} {A : Type ℓ} (before : A → A → Bool) where
  -- Behind every entry that comes before `x`, and in front of those that it ties with.
  pub insert_sorted : A → List A → List A
  insert_sorted x [] = x ∷ []
  insert_sorted x (y ∷ ys) = if before y x then y ∷ insert_sorted x ys else x ∷ y ∷ ys

  unfoldable pub stable_sort : List A → List A
  unfolding insert_sorted
  stable_sort [] = []
  stable_sort (x ∷ xs) = insert_sorted x (stable_sort xs)

abbrev pub total {ℓ} : {A : Type ℓ} → (A → ℕ) → List A → ℕ
total f [] = 0
total f (x ∷ xs) = f x + total f xs

pub total-append {ℓ} :
    {A : Type ℓ} (f : A → ℕ) (xs ys : List A) → total f (xs ++ ys) ≡ total f xs + total f ys
total-append f [] ys = omega arith
total-append f (x ∷ xs) ys = omega (arith, total-append f xs ys)

module _ {ℓ} {A : Type ℓ} (before : A → A → Bool) where
  total-insert_sorted :
      (f : A → ℕ) (x : A) (ys : List A) → total f (insert_sorted before x ys) ≡ f x + total f ys
  unfolding insert_sorted
  total-insert_sorted f x [] = refl
  total-insert_sorted f x (y ∷ ys) = elim (Bool-cases (before y x)) [
    | inl h ↦ rw h (omega (arith, total-insert_sorted f x ys))
    | inr h ↦ rw h
  ]

  -- Sorting keeps every sum, so it loses and adds nothing.
  pub total-stable_sort : (f : A → ℕ) (xs : List A) → total f (stable_sort before xs) ≡ total f xs
  unfolding stable_sort
  total-stable_sort f [] = refl
  total-stable_sort f (x ∷ xs) =
      total-insert_sorted f x (stable_sort before xs) ∙ omega (arith, total-stable_sort f xs)

  insert_sorted-All :
      (P : A → Type 0) (x : A) (ys : List A) → P x → All P ys → All P (insert_sorted before x ys)
  unfolding insert_sorted
  insert_sorted-All P x [] p h = (p, tt)
  insert_sorted-All P x (y ∷ ys) p h = elim (Bool-cases (before y x)) [
    | inl e ↦ rw e (h.0, insert_sorted-All P x ys p h.1)
    | inr e ↦ rw e (p, h)
  ]

  pub stable_sort-All : (P : A → Type 0) (xs : List A) → All P xs → All P (stable_sort before xs)
  unfolding stable_sort
  stable_sort-All P [] h = tt
  stable_sort-All P (x ∷ xs) h = insert_sorted-All P x _ h.0 (stable_sort-All P xs h.1)

  -- No entry comes before one that stands in front of it.
  abbrev pub IsOrdered : List A → Type 0
  IsOrdered [] = Unit
  IsOrdered (x ∷ xs) = All (λ y. before y x ≡ false) xs × IsOrdered xs

  module _ (asym : (x y : A) → before x y ≡ true → before y x ≡ false)
      (neg_trans : (x y z : A) → before y x ≡ false → before z y ≡ false → before z x ≡ false) where
    insert_sorted-IsOrdered :
        (x : A) (ys : List A) → IsOrdered ys → IsOrdered (insert_sorted before x ys)
    unfolding insert_sorted
    insert_sorted-IsOrdered x [] h = (tt, tt)
    insert_sorted-IsOrdered x (y ∷ ys) h = elim (Bool-cases (before y x)) [
      | inl e ↦ rw e (
        insert_sorted-All (λ z. before z y ≡ false) x ys (asym y x e) h.0,
        insert_sorted-IsOrdered x ys h.1,
      )
      | inr e ↦ rw e ((e, All-map ys (λ z k. neg_trans x y z e k) h.0), h)
    ]

    pub stable_sort-IsOrdered : (xs : List A) → IsOrdered (stable_sort before xs)
    unfolding stable_sort
    stable_sort-IsOrdered [] = tt
    stable_sort-IsOrdered (x ∷ xs) = insert_sorted-IsOrdered x _ (stable_sort-IsOrdered xs)

module _ {A : Type 0} (before : A → A → Bool) (x : A) where
  insert_sorted-In : (z : A) (ys : List A) → (x ≡ z) ⊎ In x ys → In x (insert_sorted before z ys)
  unfolding insert_sorted
  insert_sorted-In z [] m = m
  insert_sorted-In z (y ∷ ys) (inl e) = elim (Bool-cases (before y z)) [
    | inl t ↦ rw t (inr (insert_sorted-In z ys (inl e)))
    | inr t ↦ rw t (inl e)
  ]
  insert_sorted-In z (y ∷ ys) (inr (inl e)) = elim (Bool-cases (before y z)) [
    | inl t ↦ rw t (inl e)
    | inr t ↦ rw t (inr (inl e))
  ]
  insert_sorted-In z (y ∷ ys) (inr (inr m)) = elim (Bool-cases (before y z)) [
    | inl t ↦ rw t (inr (insert_sorted-In z ys (inr m)))
    | inr t ↦ rw t (inr (inr m))
  ]

  pub stable_sort-In : (ys : List A) → In x ys → In x (stable_sort before ys)
  unfolding stable_sort
  stable_sort-In [] m = m
  stable_sort-In (y ∷ ys) (inl e) = insert_sorted-In y (stable_sort before ys) (inl e)
  stable_sort-In (y ∷ ys) (inr m) = insert_sorted-In y _ (inr (stable_sort-In ys m))
