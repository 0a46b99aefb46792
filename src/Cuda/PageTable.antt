-- ===== src/Cuda/PageTable.antt =====
-- src/minillm/cuda/page_table.h, page_table.cpp: class PageTableState. The flat vectors of page ids
-- are lists of rows, one for each sequence; `invalid_page`, the only negative id that is ever
-- written, is `none`. The free ids are a stack, whose top is the head of the list. A call in a wrong
-- phase poisons the state where it is `noexcept`, and throws elsewhere.
pub mod Rows
pub mod Reserve
pub mod Conservation
pub mod Lifecycle
pub mod Tests
use mini_llm_runtime.Base.{
  ℕ, zero, suc, ◌+◌, ◌-◌, ◌*◌, ◌/◌, Bool, true, false, ◌&&◌, ◌||◌, not, Option, none, some, List,
  [], ◌∷◌, ◌++◌, leb, ltb, ◌==◌, if◌then◌else◌, is_empty, length, get_or, set, drop, replicate,
  Result, ok, throw_if, ◌>>=◌, ◌>>◌, invalid_argument, logic_error, length_error,
}
use mini_llm_runtime.Config.{paged, checked_kv_capacity, kv_page_tokens}

-- `PageTablePhase`
pub data Phase : Type 0 where
  ready prepared executing poisoned : Phase

pub record PageTableLimits : Type 0 where
  pub sequences : ℕ
  pub max_model_len : ℕ
  pub page_tokens : ℕ
  pub physical_pages : ℕ

abbrev pub Row : Type 0
Row = List (Option ℕ)

pub record PageTable : Type 0 where
  pub limits : PageTableLimits
  pub blocks : ℕ
  pub active : List Row
  pub pending : List Row
  pub free_ids : List ℕ
  pub journal : List ℕ
  pub phase : Phase
  pub dirty : Bool

abbrev pub is_ready : Phase → Bool
is_ready ready = true
is_ready _ = false

abbrev pub is_prepared : Phase → Bool
is_prepared prepared = true
is_prepared _ = false

abbrev pub is_executing : Phase → Bool
is_executing executing = true
is_executing _ = false

abbrev pub pages_for : PageTableLimits → ℕ → ℕ
pages_for limits length = (length + limits.page_tokens - 1) / limits.page_tokens

-- `std::iota`: the ids from 0 on, the last on top.
unfoldable pub iota : ℕ → List ℕ
iota zero = []
iota (suc n) = n ∷ iota n

unfoldable pub construct : PageTableLimits → Result PageTable
construct limits = do
  throw_if (limits.physical_pages == 0 || ltb 512 limits.physical_pages) invalid_argument
  _ ←
      checked_kv_capacity paged limits.sequences limits.max_model_len
        (limits.physical_pages * kv_page_tokens) limits.page_tokens
  let blocks = pages_for limits limits.max_model_len
  let table = replicate limits.sequences (replicate {A = Option ℕ} blocks none)
  ok (record {
    limits = limits;
    blocks = blocks;
    active = table;
    pending = table;
    free_ids = iota limits.physical_pages;
    journal = [];
    phase = ready;
    dirty = true;
  })

-- What `prepare` requires of the entry `b` of a row that has `old` pages.
abbrev pub good_entry : ℕ → ℕ → ℕ → Option ℕ → Bool
good_entry physical old b none = leb old b
good_entry physical old b (some id) = ltb b old && ltb id physical

unfoldable pub good_row : ℕ → ℕ → ℕ → Row → Bool
good_row physical old b [] = true
good_row physical old b (x ∷ row) = good_entry physical old b x && good_row physical old (b + 1) row

-- The first loop of `prepare`: the number of pages that are needed.
unfoldable pub needed_pages : PageTableLimits → List ℕ → List ℕ → List Row → Result ℕ
needed_pages limits (c ∷ cs) (p ∷ ps) (row ∷ rows) = do
  throw_if (ltb limits.max_model_len p || ltb p c) invalid_argument
  throw_if (not (good_row limits.physical_pages (pages_for limits c) 0 row)) invalid_argument
  n ← needed_pages limits cs ps rows
  ok (pages_for limits p - pages_for limits c + n)
needed_pages limits cs ps rows = ok 0

-- `count` entries of a row from `b` on get the ids on top of what is left of the free ones: the row,
-- what is left then, and the ids that were taken.
unfoldable pub assign_row : ℕ → ℕ → Row → List ℕ → Row × List ℕ × List ℕ
assign_row zero b row rest = (row, rest, [])
assign_row (suc count) b row [] = (row, [], [])
assign_row (suc count) b row (id ∷ rest) =
    let (row', rest', taken) = assign_row count (b + 1) (set row b (some id)) rest in
    (row', rest', id ∷ taken)

-- The second loop of `prepare`: `pending_`, and the journal.
unfoldable pub assign_rows :
    PageTableLimits → List ℕ → List ℕ → List Row → List ℕ → List Row × List ℕ
assign_rows limits (c ∷ cs) (p ∷ ps) (row ∷ rows) rest =
    let (row', rest', taken) =
      assign_row (pages_for limits p - pages_for limits c) (pages_for limits c) row rest in
    let (rows', journal) = assign_rows limits cs ps rows rest' in (row' ∷ rows', taken ++ journal)
assign_rows limits cs ps rows rest = (rows, [])

-- `prepare`, which changes nothing when it throws.
unfoldable pub prepare : List ℕ → List ℕ → PageTable → Result PageTable
prepare committed pending t = do
  throw_if (not (is_ready t.phase)) logic_error
  throw_if
      (not (length committed == t.limits.sequences) || not (length pending == t.limits.sequences))
      invalid_argument
  needed ← needed_pages t.limits committed pending t.active
  throw_if (ltb (length t.free_ids) needed) length_error
  let (rows, journal) = assign_rows t.limits committed pending t.active t.free_ids
  ok (record t { pending = rows; journal = journal; phase = prepared })

abbrev pub drop_reserved : PageTable → List ℕ
drop_reserved t = drop (length t.journal) t.free_ids

unfoldable pub poison : PageTable → PageTable
poison t = record t {
  free_ids = if is_prepared t.phase then drop_reserved t else t.free_ids;
  phase = poisoned;
}

unfoldable pub begin_execution : PageTable → PageTable
begin_execution t =
    if is_prepared t.phase
    then record t { free_ids = drop_reserved t; phase = executing }
    else poison t

unfoldable pub commit : PageTable → PageTable
commit t =
    if is_executing t.phase
    then record t {
      active = t.pending;
      pending = t.active;
      journal = [];
      dirty = false;
      phase = ready;
    }
    else poison t

unfoldable pub discard_prepared : PageTable → PageTable
discard_prepared t =
    if is_prepared t.phase then record t { journal = []; phase = ready } else poison t

-- The check of a row that is cleared: how many pages it has.
unfoldable pub released_pages : ℕ → Row → Result ℕ
released_pages physical [] = ok 0
released_pages physical (none ∷ row) = released_pages physical row
released_pages physical (some id ∷ row) = do
  throw_if (leb physical id) logic_error
  n ← released_pages physical row
  ok (suc n)

-- The loop that releases: each id is pushed, and its entry made invalid.
unfoldable pub release_row : Row → List ℕ → List ℕ
release_row [] free = free
release_row (none ∷ row) free = release_row row free
release_row (some id ∷ row) free = release_row row (id ∷ free)

unfoldable pub clear : ℕ → PageTable → Result PageTable
clear s t = do
  throw_if (not (is_ready t.phase)) logic_error
  throw_if (leb t.limits.sequences s) invalid_argument
  let row = get_or t.active s []
  released ← released_pages t.limits.physical_pages row
  throw_if (ltb (t.limits.physical_pages - length t.free_ids) released) logic_error
  ok (record t {
    free_ids = release_row row t.free_ids;
    active = set t.active s (replicate (length row) none);
    dirty = t.dirty || not (released == 0);
  })

abbrev pub assigned_pages : PageTable → ℕ
assigned_pages t = t.limits.physical_pages - length t.free_ids

abbrev pub upload_required : PageTable → Bool
upload_required t = t.dirty || not (is_empty t.journal)
