-- ===== src/BlockPool/History.antt =====
-- Clients of the pool over time: the pool, and the tables that are held. A release that returns takes
-- its blocks off the tables; they may be parts of a table or of several, and what is left may be
-- grouped otherwise. Any call may fail, and then the tables stay.
use mini_llm_runtime.Base.{
  subst, ℕ, suc, ◌+◌, ◌≤◌, ◌≡◌, refl, ap, ◌∙◌, sym, inl, inr, ◌&&◌, none, some, List, [], ◌∷◌,
  arith, ltb, ◌==◌, if◌then◌else◌, Bool-cases, length, get_or, count, All, IsDistinct, Error, ok,
  err,
}
use mini_llm_runtime.BlockPool.{
  BlockPool, construct, allocate, retain, release, capacity, free_count,
}
use mini_llm_runtime.BlockPool.Slots.{zeros, free_slot_iff, free_slot_beyond}
use mini_llm_runtime.BlockPool.Invariant.{IsValid}
use mini_llm_runtime.BlockPool.Ledger.{holders, Tracks, construct-IsValid, allocate-Tracks}
use mini_llm_runtime.BlockPool.Operations.{
  retain-Tracks, retain_throws, release_throws, release-IsDistinct, release-Tracks,
}

pub record Clients : Type 0 where
  pub pool : BlockPool
  pub tables : List (List ℕ)

pub data Step (c d : Clients) : Type 0 where
  allocates :
      (n : ℕ) (ids : List ℕ)
      → allocate n c.pool ≡ (some ids, d.pool)
      → d.tables ≡ ids ∷ c.tables
      → Step c d
  allocate_fails : (n : ℕ) → allocate n c.pool ≡ (none, d.pool) → d.tables ≡ c.tables → Step c d
  retains :
      (ids : List ℕ) → retain ids c.pool ≡ (ok tt, d.pool) → d.tables ≡ ids ∷ c.tables → Step c d
  retain_fails :
      (ids : List ℕ) (e : Error)
      → retain ids c.pool ≡ (err e, d.pool)
      → d.tables ≡ c.tables
      → Step c d
  releases :
      (ids : List ℕ)
      → release ids c.pool ≡ (ok tt, d.pool)
      → ((a : ℕ) → holders a c.tables ≡ count a ids + holders a d.tables)
      → All IsDistinct d.tables
      → Step c d
  release_fails :
      (ids : List ℕ) (e : Error)
      → release ids c.pool ≡ (err e, d.pool)
      → d.tables ≡ c.tables
      → Step c d

pub data Reach (c : Clients) : Clients → Type 0 where
  here : Reach c c
  next : {d e : Clients} → Reach c d → Step d e → Reach c e

pub record IsSound (n : ℕ) (c : Clients) : Type 0 where
  pub valid : IsValid c.pool
  pub tracked : Tracks c.tables c.pool
  pub distinct : All IsDistinct c.tables
  pub sized : capacity c.pool ≡ n

allocate_fails_lem : (n : ℕ) (p q : BlockPool) → allocate n p ≡ (none, q) → q ≡ p
unfolding allocate
allocate_fails_lem n p q h = ground arith

allocate-room :
    (n : ℕ) (p q : BlockPool) (ids : List ℕ) → allocate n p ≡ (some ids, q) → n ≤ free_count p
unfolding allocate
allocate-room n p q ids h = ground arith

pub zeros-all : (refs : List ℕ) → ((a : ℕ) → get_or refs a 0 ≡ 0) → zeros refs ≡ length refs
zeros-all [] h = refl
zeros-all (r ∷ refs) h = ground (arith, h 0, zeros-all refs (λ a. h (suc a)))

IsSound-at :
    (n : ℕ) {d : Clients} (q : BlockPool) (ts : List (List ℕ))
    → q ≡ d.pool
    → d.tables ≡ ts
    → IsSound n (record { pool = q; tables = ts })
    → IsSound n d
IsSound-at n q ts e t s = subst (IsSound n) (λ i. record { pool = e i; tables = sym t i }) s

-- Every call of a client, whether it succeeds or fails, keeps the pool valid, the counts equal to
-- the numbers of holders, and the held tables free of repetitions.
pub Step-IsSound : (n : ℕ) {c d : Clients} → Step c d → IsSound n c → IsSound n d
Step-IsSound n {c} {d} (allocates k ids e t) s =
    let (ids', q, made, drawn, distinct, fresh, tracks, valid, left, same) =
      allocate-Tracks k c.pool c.tables s.valid s.tracked (allocate-room k c.pool d.pool ids e) in
    let named : ids' ≡ ids = cc in
    IsSound-at n q (ids' ∷ c.tables) (cc) (rw named t) (record {
      valid = valid;
      tracked = tracks;
      distinct = (distinct, s.distinct);
      sized = same ∙ s.sized;
    })
Step-IsSound n {c} {d} (allocate_fails k e t) s =
    IsSound-at n c.pool c.tables (sym (allocate_fails_lem k c.pool d.pool e)) t s
Step-IsSound n {c} {d} (retains ids e t) s =
    let (valid, tracks, distinct, held, left, same) =
      retain-Tracks ids c.pool c.tables s.valid s.tracked (ap (λ x. x.0) e) in
    IsSound-at n (retain ids c.pool).1 (ids ∷ c.tables) (ap (λ x. x.1) e) t (record {
      valid = valid;
      tracked = tracks;
      distinct = (distinct, s.distinct);
      sized = same ∙ s.sized;
    })
Step-IsSound n {c} {d} (retain_fails ids x e t) s =
    let (valid, refs, free) = retain_throws ids c.pool s.valid x (ap (λ y. y.0) e) in
    IsSound-at n (retain ids c.pool).1 c.tables (ap (λ y. y.1) e) t (record {
      valid = valid;
      tracked = rw refs s.tracked;
      distinct = s.distinct;
      sized = ap length refs ∙ s.sized;
    })
Step-IsSound n {c} {d} (releases ids f left rest) s =
    let (done, valid, tracks, same) =
      release-Tracks ids c.pool d.tables s.valid (λ a. s.tracked a ∙ left a)
        (release-IsDistinct ids c.pool d.tables s.valid (ap (λ y. y.0) f)) in
    IsSound-at n (release ids c.pool).1 d.tables (ap (λ y. y.1) f) refl
      (record { valid = valid; tracked = tracks; distinct = rest; sized = same ∙ s.sized })
Step-IsSound n {c} {d} (release_fails ids x e t) s =
    let (valid, refs, free) = release_throws ids c.pool s.valid x (ap (λ y. y.0) e) in
    IsSound-at n (release ids c.pool).1 c.tables (ap (λ y. y.1) e) t (record {
      valid = valid;
      tracked = rw refs s.tracked;
      distinct = s.distinct;
      sized = ap length refs ∙ s.sized;
    })

pub construct-IsSound :
    (n : ℕ) (p : BlockPool) → construct n ≡ ok p → IsSound n (record { pool = p; tables = [] })
construct-IsSound n p e = elim (construct-IsValid n) [
  | inl (bad, refused) ↦ cc
  | inr (pos, small, (q, made, valid, tracks, sized, freed)) ↦
      IsSound-at n {d = record { pool = p; tables = [] }} q [] (cc) refl
        (record { valid = valid; tracked = tracks; distinct = tt; sized = sized })
]

pub Reach-IsSound : (n : ℕ) {c d : Clients} → Reach c d → IsSound n c → IsSound n d
Reach-IsSound n here s = s
Reach-IsSound n (next r st) s = Step-IsSound n st (Reach-IsSound n r s)

-- After any history from a fresh pool, in which each release that returns is of blocks that are held,
-- and any call may fail, a block is on the free list exactly when it is in range and
-- no table that is still held names it; and it is listed once.
pub history-free :
    (n : ℕ) (p : BlockPool) (d : Clients)
    → construct n ≡ ok p
    → Reach (record { pool = p; tables = [] }) d
    → (a : ℕ) → count a d.pool.free ≡ (if ltb a n && holders a d.tables == 0 then 1 else 0)
history-free n p d e r a =
    let s = Reach-IsSound n r (construct-IsSound n p e) in
    elim (Bool-cases (ltb a (capacity d.pool))) [
      | inl h ↦
          ground
            (arith, s.valid.accounted.listed a, free_slot_iff d.pool.refs a, s.tracked a, s.sized)
      | inr h ↦ ground (arith, s.valid.accounted.listed a, free_slot_beyond d.pool.refs a, s.sized)
    ]

-- No block leaks: when, after any history from a fresh pool, in which each release that returns is of
-- blocks that are held, and any call may fail, no table is held any more, all blocks
-- are free.
pub history_no_leak :
    (n : ℕ) (p : BlockPool) (d : Clients)
    → construct n ≡ ok p
    → Reach (record { pool = p; tables = [] }) d
    → d.tables ≡ []
    → free_count d.pool ≡ n
history_no_leak n p d e r none_held =
    let s = Reach-IsSound n r (construct-IsSound n p e) in
    s.valid.accounted.sized
    ∙ zeros-all d.pool.refs (λ a. s.tracked a ∙ ap (holders a) none_held)
    ∙ s.sized
