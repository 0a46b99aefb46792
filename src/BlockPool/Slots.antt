-- ===== src/BlockPool/Slots.antt =====
-- The two loops that move blocks between `refs_` and the free list, over bare vectors.
use mini_llm_runtime.Base.{
  ℕ, zero, suc, ◌+◌, ◌≤◌, ◌<◌, ◌≡◌, refl, ◌≢◌, List, [], ◌∷◌, arith, dec_lt, ◌==◌, if◌then◌else◌,
  length, get_or, set, count,
}

-- 1 for a block whose count is zero, 0 for one in use or out of range.
abbrev pub free_slot : List ℕ → ℕ → ℕ
free_slot [] a = 0
free_slot (r ∷ refs) zero = if r == 0 then 1 else 0
free_slot (r ∷ refs) (suc a) = free_slot refs a

-- How many blocks have the count zero.
abbrev pub zeros : List ℕ → ℕ
zeros [] = 0
zeros (r ∷ refs) = (if r == 0 then 1 else 0) + zeros refs

-- The free list holds exactly the blocks whose count is zero, each once.
pub record IsAccounted (refs free : List ℕ) : Type 0 where
  pub listed : (a : ℕ) → count a free ≡ free_slot refs a
  pub sized : length free ≡ zeros refs

pub free_slot_iff :
    (refs : List ℕ) (a : ℕ)
    → a < length refs
    → free_slot refs a ≡ (if get_or refs a 0 == 0 then 1 else 0)
free_slot_iff [] a h = absurd (omega arith)
free_slot_iff (r ∷ refs) zero h = refl
free_slot_iff (r ∷ refs) (suc a) h = free_slot_iff refs a (omega arith)

pub free_slot_beyond : (refs : List ℕ) (a : ℕ) → length refs ≤ a → free_slot refs a ≡ 0
free_slot_beyond [] a h = refl
free_slot_beyond (r ∷ refs) zero h = absurd (omega arith)
free_slot_beyond (r ∷ refs) (suc a) h = free_slot_beyond refs a (omega arith)

pub free_slot-set :
    (refs : List ℕ) (i a v : ℕ)
    → i < length refs
    → free_slot (set refs i v) a ≡ (if i == a then (if v == 0 then 1 else 0) else free_slot refs a)
free_slot-set [] i a v h = absurd (omega arith)
free_slot-set (r ∷ refs) zero zero v h = ground arith
free_slot-set (r ∷ refs) zero (suc a) v h = ground arith
free_slot-set (r ∷ refs) (suc i) zero v h = ground arith
free_slot-set (r ∷ refs) (suc i) (suc a) v h = ground (arith, free_slot-set refs i a v)

pub zeros-set :
    (refs : List ℕ) (i v : ℕ)
    → i < length refs
    → zeros (set refs i v) + free_slot refs i ≡ zeros refs + (if v == 0 then 1 else 0)
zeros-set [] i v h = absurd (omega arith)
zeros-set (r ∷ refs) zero v h = ground arith
zeros-set (r ∷ refs) (suc i) v h = ground (arith, zeros-set refs i v)

free_slot-le : (refs : List ℕ) (a : ℕ) → free_slot refs a ≤ 1
free_slot-le [] a = omega arith
free_slot-le (r ∷ refs) zero = ground arith
free_slot-le (r ∷ refs) (suc a) = free_slot-le refs a

module _ (refs free : List ℕ) (id : ℕ) (w : IsAccounted refs (id ∷ free)) where
  pub head-lt : id < length refs
  head-lt = elim (dec_lt id (length refs)) [
    | yes h ↦ h
    | no h ↦ absurd (ground (arith, w.listed id, free_slot_beyond refs id))
  ]

  pub head-unowned : get_or refs id 0 ≡ 0
  head-unowned = ground (arith, w.listed id, free_slot_iff refs id head-lt)

  pub take-IsAccounted : IsAccounted (set refs id 1) free
  take-IsAccounted = record {
    listed =
        λ a. ground (arith, w.listed a, free_slot-le refs a, free_slot-set refs id a 1 head-lt);
    sized = ground (arith, w.sized, zeros-set refs id 1 head-lt, w.listed id, free_slot-le refs id);
  }

-- A block whose count falls to zero goes back to the list; one that is still owned does not.
module _ (refs free : List ℕ) (id v : ℕ) (w : IsAccounted refs free) where
  pub put-IsAccounted :
      id < length refs
      → get_or refs id 0 ≢ 0
      → IsAccounted (set refs id v) (if v == 0 then id ∷ free else free)
  put-IsAccounted h owned = record {
    listed = λ a.
        ground (arith, w.listed a, free_slot-set refs id a v h, free_slot_iff refs id h, owned);
    sized = ground (arith, w.sized, zeros-set refs id v h, free_slot_iff refs id h);
  }

  -- A live block stays live when its count goes up.
  pub bump-IsAccounted :
      id < length refs → get_or refs id 0 ≢ 0 → v ≢ 0 → IsAccounted (set refs id v) free
  bump-IsAccounted h owned some_left = record {
    listed = λ a. ground (arith, w.listed a, free_slot-set refs id a v h, free_slot_iff refs id h);
    sized = ground (arith, w.sized, zeros-set refs id v h, free_slot_iff refs id h);
  }
