-- ===== src/Engine/Transfers.antt =====
-- What moves credits and sequences: each call of the pool and the index, against the balance.
use mini_llm_runtime.Base.{
  ℕ, ◌+◌, ◌<◌, ◌≤◌, ◌≡◌, refl, sym, ap, ◌∙◌, subst, inl, inr, Bool, true, false, some, none, List,
  [], ◌∷◌, arith, ◌==◌, if◌then◌else◌, Bool-cases, length, count, get_elem?, set, All, All-set,
  All-get_elem, count-take, take, total-ge, u64_mod, All-map, IsDistinct, total, total-set,
  total-ones, ok,
}
use mini_llm_runtime.Config.{EngineConfig}
use mini_llm_runtime.BlockPool.{BlockPool, release, retain, capacity}
use mini_llm_runtime.BlockPool.Invariant.{IsValid as IsValidPool}
use mini_llm_runtime.BlockPool.Ledger.{holders, Tracks}
use mini_llm_runtime.BlockPool.Operations.{release-Tracks, retain_accepts, retain-Tracks}
use mini_llm_runtime.PrefixIndex.{
  PrefixEntry, PrefixIndex, find_entry, erase_entry, erase, insert, touch,
}
use mini_llm_runtime.PrefixIndex.Maps.{find_entry-sequence}
use mini_llm_runtime.PrefixIndex.Invariant.{IsAligned}
use mini_llm_runtime.PrefixIndex.Entries.{
  find_entry-none, total-erase, total-put_new, All-erase_entry, All-put_entry, All-find_entry,
}
use mini_llm_runtime.PrefixIndex.Tidy.{erase-IsTidy, insert-IsTidy}
use mini_llm_runtime.Engine.{Active}
use mini_llm_runtime.Engine.Finish.{live_items}
use mini_llm_runtime.Engine.Balance.{
  IsFit, held_by, cached_by, live, uses, names, ledger, IsBalanced, holders-ledger, holders-room,
}

module _ (c : EngineConfig) (pool : BlockPool) (prefixes : PrefixIndex) (active : List Active)
    (fs fcs : List ℕ) (v : IsBalanced c pool prefixes active fs fcs) where
  -- A request that ends gives back its credits and its sequence.
  module _ (i : ℕ) (item : Active) (text : List ℕ) (here : get_elem? active i ≡ some item)
      (going : item.done ≡ false) where
    abbrev ended : Active
    ended = record item { blocks = []; done = true; text = text }

    abbrev left : List Active
    left = set active i ended

    before_release : Tracks (item.blocks ∷ ledger left prefixes.entries) pool
    before_release a = omega (
      arith,
      v.tracked a,
      holders-ledger a active prefixes.entries,
      holders-ledger a left prefixes.entries,
      total-set (held_by a) active i item ended here,
    )

    uses-going : (s : ℕ) → uses s item ≡ (if s == item.sequence then 1 else 0)
    uses-going s = rw going refl

    live-going : live item ≡ 1
    live-going = rw going refl

    pub release-IsBalanced :
        ((release item.blocks pool).0 ≡ ok tt)
        × IsBalanced c (release item.blocks pool).1 prefixes left (item.sequence ∷ fs) fcs
    release-IsBalanced =
        let (done, valid, tracks, same) =
          release-Tracks item.blocks pool (ledger left prefixes.entries) v.pool_valid before_release
            (All-get_elem (IsFit c) active i item v.fit here).distinct in
        (
          done,
          record {
            config = v.config;
            index = v.index;
            block_size = v.block_size;
            pool_valid = valid;
            sized = same ∙ v.sized;
            tracked = tracks;
            fit = All-set (IsFit c) active i ended v.fit (record {
              emptied = λ e. refl;
              owned = λ e. cc;
              distinct = λ a. omega arith;
              started = λ e. cc;
            });
            distinct = v.distinct;
            sequences = λ s.
                ground
                  (arith, v.sequences s, total-set (uses s) active i item ended here, uses-going s);
            slots = omega (arith, v.slots, total-set live active i item ended here, live-going);
            cache_sequences = v.cache_sequences;
            cache_slots = v.cache_slots;
          },
        )

  -- An entry that is evicted gives back its credits and its sequence.
  module _ (s : ℕ) (x : PrefixEntry) (found : find_entry s prefixes.entries ≡ some x) where
    abbrev rest : List PrefixEntry
    rest = erase_entry s prefixes.entries

    before_evict : Tracks (x.blocks ∷ ledger active rest) pool
    before_evict a = omega (
      arith,
      v.tracked a,
      holders-ledger a active prefixes.entries,
      holders-ledger a active rest,
      total-erase (cached_by a) s prefixes.entries x v.index.ascending found,
    )

    pub evict-IsBalanced :
        (q : PrefixIndex) × (erase s prefixes ≡ ok (x, q))
        × ((release x.blocks pool).0 ≡ ok tt)
        × IsBalanced c (release x.blocks pool).1 q active fs (s ∷ fcs)
        × (q.entries ≡ rest)
    evict-IsBalanced =
        let (q, erased, tidy, same_block, left_entries) = erase-IsTidy x prefixes v.index s found in
        let (done, valid, tracks, same) =
          release-Tracks x.blocks pool (ledger active rest) v.pool_valid before_evict
            (All-find_entry (λ e. IsDistinct e.blocks) s prefixes.entries x v.distinct found) in
        let sum =
          λ (f : PrefixEntry → ℕ). total-erase f s prefixes.entries x v.index.ascending found in
        (
          q,
          erased,
          done,
          record {
            config = v.config;
            index = tidy;
            block_size = same_block ∙ v.block_size;
            pool_valid = valid;
            sized = same ∙ v.sized;
            tracked =
                subst (λ es. Tracks (ledger active es) (release x.blocks pool).1) (sym left_entries)
                  tracks;
            fit = v.fit;
            distinct =
                subst (All (λ e. IsDistinct e.blocks)) (sym left_entries)
                  (All-erase_entry (λ e. IsDistinct e.blocks) s prefixes.entries v.distinct);
            sequences = v.sequences;
            slots = v.slots;
            cache_sequences = λ k. ground (
              arith,
              v.cache_sequences k,
              sum (names k),
              ap (total (names k)) left_entries,
              find_entry-sequence s prefixes.entries x found,
            );
            cache_slots = omega (
              arith,
              v.cache_slots,
              sum (λ _. 1),
              ap length left_entries,
              total-ones rest,
              total-ones prefixes.entries,
            );
          },
          left_entries,
        )

-- `retain` of the first blocks of a table that the ledger has.
pub retain-take :
    (pool : BlockPool) (tables : List (List ℕ)) (source : List ℕ) (n : ℕ)
    → IsValidPool pool
    → Tracks tables pool
    → ((a : ℕ) → holders a tables + 1 < u64_mod)
    → IsDistinct source
    → ((a : ℕ) → count a source ≤ holders a tables)
    → let q = (retain (take n source) pool).1 in
      ((retain (take n source) pool).0 ≡ ok tt)
      × IsValidPool q
      × Tracks (take n source ∷ tables) q
      × (capacity q ≡ capacity pool)
retain-take pool tables source n valid tracks room distinct held =
    let once : IsDistinct (take n source) = λ a. omega (arith, distinct a, count-take a n source) in
    let taken =
      retain_accepts (take n source) pool tables valid tracks once
        λ a k. (omega (arith, held a, count-take a n source), room a) in
    let (after, tracked, _, _, _, same) =
      retain-Tracks (take n source) pool tables valid tracks taken in
    (taken, after, tracked, same)

module _ (c : EngineConfig) (pool : BlockPool) (prefixes : PrefixIndex) (active : List Active)
    (fs fcs : List ℕ) (v : IsBalanced c pool prefixes active fs fcs) where
  -- A prompt that is cached takes a cache sequence, and a share of the first blocks of its request.
  module _ (i n : ℕ) (item : Active) (e : PrefixEntry) (rest : List ℕ)
      (here : get_elem? active i ≡ some item) (popped : fcs ≡ e.sequence ∷ rest)
      (blocks : e.blocks ≡ take n item.blocks) (whole : IsAligned c.block_size e) where
    held : (a : ℕ) → count a item.blocks ≤ holders a (ledger active prefixes.entries)
    held a =
        omega
          (arith, holders-ledger a active prefixes.entries, total-ge (held_by a) active i item here)

    fresh : find_entry e.sequence prefixes.entries ≡ none
    fresh =
        find_entry-none e.sequence prefixes.entries
          (ground (arith, v.cache_sequences e.sequence, ap (count e.sequence) popped))

    pub store-IsBalanced :
        ((retain (take n item.blocks) pool).0 ≡ ok tt)
        × ((q : PrefixIndex) × (insert e prefixes ≡ ok q)
            × IsBalanced c (retain (take n item.blocks) pool).1 q active fs rest)
    store-IsBalanced =
        let fit = All-get_elem (IsFit c) active i item v.fit here in
        let (done, valid, tracks, same) =
          retain-take pool (ledger active prefixes.entries) item.blocks n v.pool_valid v.tracked
            (holders-room v) fit.distinct held in
        let (q, inserted, tidy, same_block, has) =
          insert-IsTidy e prefixes v.index fresh
            (subst (λ b. IsAligned b e) (sym v.block_size) whole) in
        let stored : PrefixEntry = touch (prefixes.clock + 1) e in
        let sum = λ (f : PrefixEntry → ℕ).
          ap (total f) has ∙ total-put_new f stored prefixes.entries fresh in
        let once : IsDistinct e.blocks =
          λ a. omega (arith, ap (count a) blocks, count-take a n item.blocks, fit.distinct a) in
        (
          done,
          (
            q,
            inserted,
            record {
              config = v.config;
              index = tidy;
              block_size = same_block ∙ v.block_size;
              pool_valid = valid;
              sized = same ∙ v.sized;
              tracked = λ a. omega (
                arith,
                tracks a,
                holders-ledger a active prefixes.entries,
                holders-ledger a active q.entries,
                sum (cached_by a),
                ap (count a) blocks,
              );
              fit = v.fit;
              distinct = subst (All (λ x. IsDistinct x.blocks)) (sym has) (
                  All-put_entry (λ x. IsDistinct x.blocks) stored prefixes.entries once v.distinct);
              sequences = v.sequences;
              slots = v.slots;
              cache_sequences =
                  λ s. ground (arith, v.cache_sequences s, sum (names s), ap (count s) popped);
              cache_slots = omega (
                arith,
                v.cache_slots,
                ap length popped,
                sum (λ _. 1),
                total-ones q.entries,
                total-ones prefixes.entries,
              );
            },
          ),
        )

abbrev dropped : Bool → Active → List Active → List Active
dropped over item items = if over then items else item ∷ items

-- What is done holds nothing, so it can go.
total-live_items :
    (f : Active → ℕ) (items : List Active)
    → All (λ item. item.done ≡ true → f item ≡ 0) items
    → total f (live_items items) ≡ total f items
unfolding live_items
total-live_items f [] h = refl
total-live_items f (item ∷ items) h = elim (Bool-cases item.done) [
  | inl over ↦
      ap (λ b. total f (dropped b item (live_items items))) over
      ∙ omega (arith, total-live_items f items h.1, h.0 over)
  | inr going ↦
      ap (λ b. total f (dropped b item (live_items items))) going
      ∙ omega (arith, total-live_items f items h.1)
]

All-live_items :
    (P : Active → Type 0) (items : List Active) → All P items → All P (live_items items)
unfolding live_items
All-live_items P [] h = tt
All-live_items P (item ∷ items) h = elim (Bool-cases item.done) [
  | inl over ↦
      subst (λ b. All P (dropped b item (live_items items))) (sym over) (All-live_items P items h.1)
  | inr going ↦
      subst (λ b. All P (dropped b item (live_items items))) (sym going)
        (h.0, All-live_items P items h.1)
]

All-items : {P : Active → Type 0} (items : List Active) → ((item : Active) → P item) → All P items
All-items [] h = tt
All-items (item ∷ items) h = (h item, All-items items h)

pub live_items-AreLive :
    (items : List Active) → All (λ (item : Active). item.done ≡ false) (live_items items)
unfolding live_items
live_items-AreLive [] = tt
live_items-AreLive (item ∷ items) = elim (Bool-cases item.done) [
  | inl over ↦ rw over (live_items-AreLive items)
  | inr going ↦
      subst (λ b. All (λ (x : Active). x.done ≡ false) (dropped b item (live_items items)))
        (sym going) (going, live_items-AreLive items)
]

pub live_items-IsBalanced :
    {c : EngineConfig} {pool : BlockPool} {prefixes : PrefixIndex} {active : List Active}
    {fs fcs : List ℕ}
    → IsBalanced c pool prefixes active fs fcs
    → IsBalanced c pool prefixes (live_items active) fs fcs
live_items-IsBalanced {c} {pool} {prefixes} {active} {fs} {fcs} v = record {
  config = v.config;
  index = v.index;
  block_size = v.block_size;
  pool_valid = v.pool_valid;
  sized = v.sized;
  tracked = λ a. omega (
    arith,
    v.tracked a,
    holders-ledger a active prefixes.entries,
    holders-ledger a (live_items active) prefixes.entries,
    total-live_items (held_by a) active
        (All-map active (λ item f over. ap (count a) (f.emptied over)) v.fit),
  );
  fit = All-live_items (IsFit c) active v.fit;
  distinct = v.distinct;
  sequences = λ s. omega (
    arith,
    v.sequences s,
    total-live_items (uses s) active (All-items active λ item over. rw over refl),
  );
  slots =
      omega
        (arith, v.slots, total-live_items live active (All-items active λ item over. rw over refl));
  cache_sequences = v.cache_sequences;
  cache_slots = v.cache_slots;
}
