-- ===== src/PrefixIndex/History.antt =====
-- Histories of an index, from its construction on.
use Prim.Native.String.{String}
use mini_llm_runtime.Base.{
  subst, ℕ, ◌%◌, ◌/◌, ◌<◌, ◌≡◌, refl, inl, inr, false, ◌||◌, not, Option, none, some, Option-cases,
  List, [], ◌∷◌, arith, ◌==◌, Bool-cases, dec_lt, is_empty, length, ok, err, ap, invalid_argument,
}
use mini_llm_runtime.PrefixIndex.{
  PrefixEntry, PrefixMatch, PrefixIndex, find_entry, is_some, construct, insert, erase, match,
}
use mini_llm_runtime.PrefixIndex.Invariant.{IsAligned, IsValid, construct-IsValid, insert-IsValid}
use mini_llm_runtime.PrefixIndex.Removal.{erase-IsValid, erase-missing}
use mini_llm_runtime.PrefixIndex.Reuse.{match-IsBest}

construct-zero : construct 0 ≡ err invalid_argument
unfolding construct
construct-zero = refl

-- The calls that return. One that throws leaves the index as it is.
pub data Step (p q : PrefixIndex) : Type 0 where
  inserts : (e : PrefixEntry) → insert e p ≡ ok q → Step p q
  erases : (s : ℕ) (e : PrefixEntry) → erase s p ≡ ok (e, q) → Step p q
  matches :
      (ns : String) (tokens : List ℕ) (max_reuse : ℕ) (out : Option PrefixMatch)
      → match ns tokens max_reuse p ≡ ok (out, q)
      → Step p q

pub data Reach (p : PrefixIndex) : PrefixIndex → Type 0 where
  here : Reach p p
  next : {q r : PrefixIndex} → Reach p q → Step q r → Reach p r

not_empty_of : (ts : List ℕ) → is_empty ts ≡ false → 0 < length ts
not_empty_of [] h = cc
not_empty_of (t ∷ ts) h = omega arith

none_of : (o : Option PrefixEntry) → is_some o ≡ false → o ≡ none
none_of none h = refl
none_of (some e) h = cc

insert-guard :
    (e : PrefixEntry) (p q : PrefixIndex)
    → insert e p ≡ ok q
    → (is_empty e.tokens
        || not (length e.tokens % p.block_size == 0)
        || not (length e.blocks == length e.tokens / p.block_size)
        || is_some (find_entry e.sequence p.entries))
      ≡ false
unfolding insert
insert-guard e p q h =
    elim (Bool-cases (
      is_empty e.tokens
      || not (length e.tokens % p.block_size == 0)
      || not (length e.blocks == length e.tokens / p.block_size)
      || is_some (find_entry e.sequence p.entries))) [
        | inr fine ↦ fine
        | inl bad ↦ absurd (ground (arith, h))
      ]

-- What `insert` accepts is aligned and has a new sequence.
insert_inv :
    (e : PrefixEntry) (p q : PrefixIndex)
    → insert e p ≡ ok q
    → IsAligned p.block_size e × (find_entry e.sequence p.entries ≡ none)
insert_inv e p q h =
    let fine = insert-guard e p q h in
    let not_empty : is_empty e.tokens ≡ false = ground (arith, fine) in
    (
      (not_empty_of e.tokens not_empty, ground (arith, fine), ground (arith, fine)),
      none_of (find_entry e.sequence p.entries) (ground (arith, fine)),
    )

Step-IsValid : {p q : PrefixIndex} → Step p q → IsValid p → IsValid q
Step-IsValid {p} {q} (inserts e h) v =
    let (a, fresh) = insert_inv e p q h in
    let (r, made, w, _) = insert-IsValid e p v fresh a in subst IsValid (cc) w
Step-IsValid {p} {q} (erases s e h) v = elim (Option-cases (find_entry s p.entries)) [
  | inl miss ↦ absurd (cc (h, erase-missing s p miss))
  | inr (x, f) ↦ let (r, made, w, _) = erase-IsValid s x p v f in subst IsValid (cc) w
]
Step-IsValid {p} {q} (matches ns tokens max_reuse out h) v =
    let (o, r, made, _, w) = match-IsBest p v ns tokens max_reuse in subst IsValid (cc) w

Reach-IsValid : {p q : PrefixIndex} → Reach p q → IsValid p → IsValid q
Reach-IsValid here v = v
Reach-IsValid (next r st) v = Step-IsValid st (Reach-IsValid r v)

-- For an index built with any block size that the constructor accepts, after any calls that
-- return, the trie of each namespace says exactly which entries continue a path; it has no node
-- without an owner; and every entry has whole blocks, one at least, and as many KV blocks.
pub history-IsValid :
    (block_size : ℕ) (p q : PrefixIndex) → construct block_size ≡ ok p → Reach p q → IsValid q
history-IsValid block_size p q made r = elim (dec_lt 0 block_size) [
  | yes pos ↦
      let (p', made', v, _) = construct-IsValid block_size pos in
      Reach-IsValid r (subst IsValid (cc) v)
  | no zero_size ↦ absurd (refused (omega arith))
]
  where
    refused : block_size ≡ 0 → ⊥
    refused e = cc (made, construct-zero, ap construct e)
