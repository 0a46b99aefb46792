-- ===== src/BlockPool/Operations.antt =====
-- `retain` and `release` against the ledger, and what they leave alone when they throw.
use mini_llm_runtime.Base.{
  ℕ, ◌+◌, ◌≤◌, ◌<◌, ◌≡◌, refl, ap, ◌∙◌, sym, ◌↔◌, true, false, List, [], ◌∷◌, arith, ℕ_discrete,
  if◌then◌else◌, length, get_or, count, All, IsDistinct, Error, ok, err, logic_error,
  overflow_error, u64_mod,
}
use mini_llm_runtime.BlockPool.{
  BlockPool, retain, release, validate_table, saturated, capacity, free_count, retain_loop,
  release_loop,
}
use mini_llm_runtime.BlockPool.Validate.{
  is_table, is_table_iff, validate_table-refs, validate_table-free, validate_table-IsStamped,
  validate_table-result,
}
use mini_llm_runtime.BlockPool.Invariant.{IsValid, retain_loop_lem, release_loop_lem, lt_of_owned}
use mini_llm_runtime.BlockPool.Ledger.{holders, Tracks}

-- The pool after the check has the old counts and free list, and is as valid.
module _ (ids : List ℕ) (p : BlockPool) (v : IsValid p) where
  checked-IsValid : IsValid (validate_table ids p).1
  checked-IsValid = record {
    accounted = rw (validate_table-refs ids p, validate_table-free ids p) v.accounted;
    words = rw (validate_table-refs ids p) v.words;
    stamped = validate_table-IsStamped ids p v.stamped;
  }

  -- Each call in one equation: the outcome of the check, then the loop on the old vectors.
  retain-cases :
      let q = (validate_table ids p).1 in
      retain ids p ≡ (
        if is_table p.refs ids
        then (if saturated p.refs ids
            then (err overflow_error, q)
            else (ok tt, record q { refs = retain_loop ids p.refs }))
        else (err logic_error, q))
  unfolding retain
  retain-cases = ground (arith, validate_table-result ids p v.stamped, validate_table-refs ids p)

  release-cases :
      let q = (validate_table ids p).1 in
      release ids p ≡ (
        if is_table p.refs ids
        then (let (refs, free) = release_loop ids p.refs p.free in
            (ok tt, record q { refs = refs; free = free }))
        else (err logic_error, q))
  unfolding release
  release-cases = ground (
    arith,
    validate_table-result ids p v.stamped,
    validate_table-refs ids p,
    validate_table-free ids p,
  )

  -- A call that throws, for whatever reason, changes neither the counts nor the free list, and
  -- leaves the pool valid.
  pub retain_throws :
      (e : Error)
      → (retain ids p).0 ≡ err e
      → IsValid (retain ids p).1
        × ((retain ids p).1.refs ≡ p.refs)
        × ((retain ids p).1.free ≡ p.free)
  retain_throws e h =
      let kept : (retain ids p).1 ≡ (validate_table ids p).1 = ground (arith, retain-cases) in
      rw kept (checked-IsValid, validate_table-refs ids p, validate_table-free ids p)

  pub release_throws :
      (e : Error)
      → (release ids p).0 ≡ err e
      → IsValid (release ids p).1
        × ((release ids p).1.refs ≡ p.refs)
        × ((release ids p).1.free ≡ p.free)
  release_throws e h =
      let kept : (release ids p).1 ≡ (validate_table ids p).1 = ground (arith, release-cases) in
      rw kept (checked-IsValid, validate_table-refs ids p, validate_table-free ids p)

count-pos : (P : ℕ → Type 0) (ids : List ℕ) → All P ids → (a : ℕ) → 0 < count a ids → P a
count-pos P [] h a k = absurd (omega arith)
count-pos P (x ∷ xs) h a k = elim (ℕ_discrete a x) [
  | yes e ↦ rw e h.0
  | no e ↦ count-pos P xs h.1 a (ground arith)
]

All-of_count : (P : ℕ → Type 0) (ids : List ℕ) → ((a : ℕ) → 0 < count a ids → P a) → All P ids
All-of_count P [] h = tt
All-of_count P (x ∷ xs) h = (h x (ground arith), All-of_count P xs λ a k. h a (ground arith))

-- A table passes the check exactly when each of its blocks is held and none stands twice.
is_table-held :
    (refs ids : List ℕ)
    → (is_table refs ids ≡ true)
      ↔ (((a : ℕ) → 0 < count a ids → 0 < get_or refs a 0) × IsDistinct ids)
is_table-held refs ids = (
  λ h. (
    λ a k. let live = count-pos _ ids ((is_table_iff refs ids).0 h).0 a k in omega (arith, live.1),
    ((is_table_iff refs ids).0 h).1,
  ),
  λ h.
      (is_table_iff refs ids).1
        (All-of_count _ ids λ a k. (lt_of_owned refs a (h.0 a k), omega (arith, h.0 a k)), h.1),
)

room_of_unsaturated :
    (refs ids : List ℕ)
    → ((i : ℕ) → get_or refs i 0 < u64_mod)
    → saturated refs ids ≡ false
    → (a : ℕ) → 0 < count a ids
    → get_or refs a 0 + 1 < u64_mod
unfolding saturated
room_of_unsaturated refs [] words h a k = absurd (omega arith)
room_of_unsaturated refs (id ∷ ids) words h a k =
    ground (arith, words a, room_of_unsaturated refs ids words (ground arith) a)

unsaturated_of_room :
    (refs ids : List ℕ)
    → ((a : ℕ) → 0 < count a ids → get_or refs a 0 + 1 < u64_mod)
    → saturated refs ids ≡ false
unfolding saturated
unsaturated_of_room refs [] room = refl
unsaturated_of_room refs (id ∷ ids) room =
    ground (arith, room id, unsaturated_of_room refs ids (λ a k. room a (ground arith)))

module _ (ids : List ℕ) (p : BlockPool) (tables : List (List ℕ)) (v : IsValid p) where
  -- `retain` accepts a table of distinct held blocks whose counts have room.
  pub retain_accepts :
      Tracks tables p
      → IsDistinct ids
      → ((a : ℕ) → 0 < count a ids → (0 < holders a tables) × (holders a tables + 1 < u64_mod))
      → (retain ids p).0 ≡ ok tt
  retain_accepts t distinct held =
      let good : is_table p.refs ids ≡ true =
        (is_table-held p.refs ids).1 ((λ a k. ground (arith, t a, held a k)), distinct) in
      let room : saturated p.refs ids ≡ false =
        unsaturated_of_room p.refs ids λ a k. ground (arith, t a, held a k) in
      rw (retain-cases ids p v, good, room)

  -- Where `retain` returns, the blocks were held and distinct, and the table is entered.
  pub retain-Tracks :
      Tracks tables p
      → (retain ids p).0 ≡ ok tt
      → IsValid (retain ids p).1
        × Tracks (ids ∷ tables) (retain ids p).1
        × IsDistinct ids
        × ((a : ℕ) → count a ids ≤ holders a tables)
        × (free_count (retain ids p).1 ≡ free_count p)
        × (capacity (retain ids p).1 ≡ capacity p)
  retain-Tracks t h =
      let good : is_table p.refs ids ≡ true = ground (arith, retain-cases ids p v) in
      let room : saturated p.refs ids ≡ false = ground (arith, retain-cases ids p v) in
      let (held, distinct) = (is_table-held p.refs ids).0 good in
      let (acc, raised, same) =
        retain_loop_lem ids p.refs p.free v.accounted held λ a.
          ground (arith, v.words a, distinct a, room_of_unsaturated p.refs ids v.words room a) in
      let q = checked-IsValid ids p v in
      rw (retain-cases ids p v, good, room)
        (
          record {
            accounted = rw (validate_table-free ids p) acc;
            words = λ a. ground (
              arith,
              raised a,
              v.words a,
              distinct a,
              room_of_unsaturated p.refs ids v.words room a,
            );
            stamped = record {
              sized = q.stamped.sized ∙ validate_refs-length ∙ sym same;
              stamps = q.stamped.stamps;
              epoch_word = q.stamped.epoch_word;
            };
          },
          λ a. ground (arith, raised a, t a),
          distinct,
          λ a. ground (arith, held a, distinct a, t a),
          ap length (validate_table-free ids p),
          same,
        )
    where
      validate_refs-length : length (validate_table ids p).1.refs ≡ length p.refs
      validate_refs-length = ap length (validate_table-refs ids p)

  -- Where `release` returns, the blocks were distinct.
  pub release-IsDistinct : (release ids p).0 ≡ ok tt → IsDistinct ids
  release-IsDistinct h =
      let good : is_table p.refs ids ≡ true = ground (arith, release-cases ids p v) in
      ((is_table-held p.refs ids).0 good).1

  -- Giving back a table that is held never throws, and takes it off the ledger.
  pub release-Tracks :
      Tracks (ids ∷ tables) p
      → IsDistinct ids
      → ((release ids p).0 ≡ ok tt)
        × IsValid (release ids p).1
        × Tracks tables (release ids p).1
        × (capacity (release ids p).1 ≡ capacity p)
  release-Tracks t distinct =
      let good : is_table p.refs ids ≡ true =
        (is_table-held p.refs ids).1 ((λ a k. ground (arith, t a)), distinct) in
      let (acc, lowered, same) =
        release_loop_lem ids p.refs p.free v.accounted (λ a. ground (arith, t a)) v.words in
      let q = checked-IsValid ids p v in
      rw (release-cases ids p v, good)
        (
          refl,
          record {
            accounted = acc;
            words = λ a. ground (arith, lowered a, v.words a);
            stamped = record {
              sized = q.stamped.sized ∙ ap length (validate_table-refs ids p) ∙ sym same;
              stamps = q.stamped.stamps;
              epoch_word = q.stamped.epoch_word;
            };
          },
          λ a. ground (arith, lowered a, t a),
          same,
        )
