-- ===== src/BlockPool/Validate.antt =====
-- `validate_table` marks blocks with an epoch. Against its meaning: every block of the table is
-- live and none occurs twice. The scratch survives the wrap-around of the epoch.
use mini_llm_runtime.Base.{
  ap, Result, ℕ, ◌≤◌, ◌<◌, ◌≡◌, refl, ◌∙◌, ◌↔◌, ◌≢◌, inl, inr, Bool, true, ◌&&◌, not, List, [], ◌∷◌,
  arith, ltb, ◌==◌, if◌then◌else◌, Bool-cases, length, get_or, set, length-set, get_or-set_self,
  get_or-set_ne, get_or-set, get_or-map_const, length-map, contains, count, All, IsDistinct, ok,
  err, logic_error, inc64, u64_mod, inc64-lt, inc64-cases,
}
use mini_llm_runtime.BlockPool.{BlockPool, next_epoch, validate_loop, validate_table}

-- Whether the block may stand in a table.
abbrev pub is_live : List ℕ → ℕ → Bool
is_live refs id = ltb id (length refs) && not (get_or refs id 0 == 0)

-- The meaning of the check, with no scratch memory.
pub is_table : List ℕ → List ℕ → Bool
is_table refs [] = true
is_table refs (id ∷ ids) = is_live refs id && (not (contains id ids) && is_table refs ids)

all_unseen : ℕ → List ℕ → List ℕ → Bool
all_unseen epoch [] seen = true
all_unseen epoch (id ∷ ids) seen = not (get_or seen id 0 == epoch) && all_unseen epoch ids seen

-- Every stamp is at most the epoch, and there is a stamp for each block.
pub record IsStamped (p : BlockPool) : Type 0 where
  pub sized : length p.seen ≡ length p.refs
  pub stamps : (i : ℕ) → get_or p.seen i 0 ≤ p.validation_epoch
  pub epoch_word : p.validation_epoch < u64_mod

all_unseen-set :
    (epoch id : ℕ) (ids seen : List ℕ)
    → id < length seen
    → all_unseen epoch ids (set seen id epoch)
      ≡ (not (contains id ids) && all_unseen epoch ids seen)
unfolding all_unseen
all_unseen-set epoch id [] seen h = refl
all_unseen-set epoch id (x ∷ xs) seen h = ground (
  arith,
  all_unseen-set epoch id xs seen h,
  get_or-set_self seen id epoch 0,
  get_or-set_ne seen id x epoch 0,
)

validate_loop-result :
    (refs : List ℕ) (epoch : ℕ) (ids seen : List ℕ)
    → length seen ≡ length refs
    → (validate_loop refs epoch ids seen).0
      ≡ (if is_table refs ids && all_unseen epoch ids seen then ok tt else err logic_error)
unfolding validate_loop is_table all_unseen
validate_loop-result refs epoch [] seen e = refl
validate_loop-result refs epoch (id ∷ ids) seen e = ground (
  arith,
  validate_loop-result refs epoch ids (set seen id epoch),
  length-set seen id epoch,
  all_unseen-set epoch id ids seen,
)

all_unseen_below :
    (epoch : ℕ) (ids seen : List ℕ)
    → ((i : ℕ) → get_or seen i 0 < epoch)
    → all_unseen epoch ids seen ≡ true
unfolding all_unseen
all_unseen_below epoch [] seen h = refl
all_unseen_below epoch (id ∷ ids) seen h = ground (arith, h id, all_unseen_below epoch ids seen h)

module _ (refs : List ℕ) (epoch : ℕ) where
  validate_loop-stamps :
      (ids seen : List ℕ)
      → ((i : ℕ) → get_or seen i 0 ≤ epoch)
      → (i : ℕ) → get_or (validate_loop refs epoch ids seen).1 i 0 ≤ epoch
  unfolding validate_loop
  validate_loop-stamps [] seen h i = h i
  validate_loop-stamps (id ∷ ids) seen h i =
      ground (arith, h i, validate_loop-stamps ids (set seen id epoch) marked i)
    where
      marked : (j : ℕ) → get_or (set seen id epoch) j 0 ≤ epoch
      marked j = ground (arith, h j, get_or-set seen id j epoch 0)

  validate_loop-length :
      (ids seen : List ℕ) → length (validate_loop refs epoch ids seen).1 ≡ length seen
  unfolding validate_loop
  validate_loop-length [] seen = refl
  validate_loop-length (id ∷ ids) seen =
      ground (arith, validate_loop-length ids (set seen id epoch), length-set seen id epoch)

next_epoch-IsStamped : (p : BlockPool) → IsStamped p → IsStamped (next_epoch p)
unfolding next_epoch
next_epoch-IsStamped p v = elim (Bool-cases (inc64 p.validation_epoch == 0)) [
  | inl wrapped ↦ rw wrapped (record {
    sized = length-map p.seen (λ _. 0) ∙ v.sized;
    stamps = λ i. ground (arith, get_or-map_const {B = ℕ} p.seen i 0);
    epoch_word = omega arith;
  })
  | inr next ↦ rw next (record {
    sized = v.sized;
    stamps = λ i. ground (arith, v.stamps i, inc64-cases p.validation_epoch v.epoch_word);
    epoch_word = inc64-lt p.validation_epoch;
  })
]

next_epoch_fresh :
    (p : BlockPool)
    → IsStamped p
    → (i : ℕ) → get_or (next_epoch p).seen i 0 < (next_epoch p).validation_epoch
unfolding next_epoch
next_epoch_fresh p v i = ground (
  arith,
  v.stamps i,
  get_or-map_const {B = ℕ} p.seen i 0,
  inc64-cases p.validation_epoch v.epoch_word,
)

next_epoch-refs : (p : BlockPool) → (next_epoch p).refs ≡ p.refs
unfolding next_epoch
next_epoch-refs p = ground arith

next_epoch-free : (p : BlockPool) → (next_epoch p).free ≡ p.free
unfolding next_epoch
next_epoch-free p = ground arith

pub validate_table-refs : (ids : List ℕ) (p : BlockPool) → (validate_table ids p).1.refs ≡ p.refs
unfolding validate_table
validate_table-refs ids p = next_epoch-refs p

pub validate_table-free : (ids : List ℕ) (p : BlockPool) → (validate_table ids p).1.free ≡ p.free
unfolding validate_table
validate_table-free ids p = next_epoch-free p

-- The scratch memory is in order again after each check, whatever its outcome.
pub validate_table-IsStamped :
    (ids : List ℕ) (p : BlockPool) → IsStamped p → IsStamped (validate_table ids p).1
unfolding validate_table
validate_table-IsStamped ids p v =
    let q = next_epoch p in
    let w = next_epoch-IsStamped p v in
    record {
      sized = validate_loop-length q.refs q.validation_epoch ids q.seen ∙ w.sized;
      stamps = validate_loop-stamps q.refs q.validation_epoch ids q.seen w.stamps;
      epoch_word = w.epoch_word;
    }

-- With the scratch memory in order, the check passes exactly the tables of live, distinct blocks.
pub validate_table-result :
    (ids : List ℕ) (p : BlockPool)
    → IsStamped p
    → (validate_table ids p).0 ≡ (if is_table p.refs ids then ok tt else err logic_error)
unfolding validate_table
validate_table-result ids p v =
    let q = next_epoch p in
    let w = next_epoch-IsStamped p v in
    ground (
      arith,
      validate_loop-result q.refs q.validation_epoch ids q.seen w.sized,
      all_unseen_below q.validation_epoch ids q.seen (next_epoch_fresh p v),
      next_epoch-refs p,
    )

contains-count : (id : ℕ) (ids : List ℕ) → contains id ids ≡ not (count id ids == 0)
contains-count id [] = ground arith
contains-count id (x ∷ xs) = ground (arith, contains-count id xs)

IsDistinct-tail : (id : ℕ) (ids : List ℕ) → IsDistinct (id ∷ ids) → IsDistinct ids
IsDistinct-tail id ids d a = ground (arith, d a)

-- The test in words: each block is in range with a count that is not zero, and none stands twice.
pub is_table_iff :
    (refs ids : List ℕ)
    → (is_table refs ids ≡ true)
      ↔ (All (λ id. (id < length refs) × (get_or refs id 0 ≢ 0)) ids × IsDistinct ids)
unfolding is_table
is_table_iff refs [] = (λ _. (tt, λ a. omega arith), λ _. refl)
is_table_iff refs (id ∷ ids) = (
  λ h. (
    ((ground arith, ground arith), ((is_table_iff refs ids).0 (ground arith)).0),
    λ a. ground (arith, contains-count id ids, ((is_table_iff refs ids).0 (ground arith)).1 a),
  ),
  λ h. ground (
    arith,
    contains-count id ids,
    h.1 id,
    (is_table_iff refs ids).1 (h.0.1, IsDistinct-tail id ids h.1),
  ),
)

-- With the scratch memory in order, the check passes exactly the tables whose blocks are all in
-- range, all have a count that is not zero, and are all different.
pub validate_table_iff :
    (ids : List ℕ) (p : BlockPool)
    → IsStamped p
    → ((validate_table ids p).0 ≡ ok tt)
      ↔ (All (λ id. (id < length p.refs) × (get_or p.refs id 0 ≢ 0)) ids × IsDistinct ids)
validate_table_iff ids p v = (
  λ h. (is_table_iff p.refs ids).0 (ground (arith, validate_table-result ids p v)),
  λ h. validate_table-result ids p v ∙ ap outcome ((is_table_iff p.refs ids).1 h),
)
  where
    outcome : Bool → Result (Unit {0})
    outcome b = if b then ok tt else err logic_error
