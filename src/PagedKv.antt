-- ===== src/PagedKv.antt =====
-- include/minillm/paged_kv.h, src/minillm/paged_kv.cpp: class PagedKV. `pages_` is two lists, of the
-- counts and of the contents. A call returns, throws, which leaves the object as it was, or has no
-- defined behaviour, where an unchecked index is out of range. `float_to_half` is a parameter over
-- a type of floats, since arithmetic on floats is not modelled.
pub mod Pages
pub mod Invariant
pub mod Appends
pub mod Sharing
pub mod History
pub mod Reads
pub mod Isolation
pub mod Effects
pub mod Tests
use mini_llm_runtime.Base.{
  ℕ, zero, suc, ◌+◌, ◌-◌, ◌*◌, ◌/◌, ◌%◌, Bool, true, false, ◌||◌, ◌&&◌, not, Option, none, some,
  List, [], ◌∷◌, ◌++◌, leb, ltb, ◌==◌, if◌then◌else◌, is_empty, length, get_elem?, get_or, set,
  take, drop, replicate, u64_mod, dec64, Error, Result, ok, err, throw_if, ◌>>=◌, ◌>>◌,
  invalid_argument, runtime_error, out_of_range, logic_error,
}

pub record KvConfig : Type 0 where
  pub pages : ℕ
  pub page_tokens : ℕ
  pub layers : ℕ
  pub kv_width : ℕ
  pub sequences : ℕ

pub record Table : Type 0 where
  pub pages : List ℕ
  pub length_of : ℕ

pub record PagedKv : Type 0 where
  pub config : KvConfig
  pub elements_per_page : ℕ
  pub refs : List ℕ
  pub contents : List (List ℕ)
  pub tables : List Table
  pub free : List ℕ
  pub copy_on_writes : ℕ

pub data Outcome (A : Type 0) : Type 0 where
  returned : A → Outcome A
  raised : Error → Outcome A
  undefined : Outcome A

abbrev pub after : {A B : Type 0} → Outcome A → (A → Outcome B) → Outcome B
after (returned a) next = next a
after (raised x) next = raised x
after undefined next = undefined

abbrev pub known : {A B : Type 0} → Option A → (A → Outcome B) → Outcome B
known none next = undefined
known (some a) next = next a

-- `vector::at`
abbrev pub at {ℓ} : {A : Type ℓ} → List A → ℕ → (A → Outcome PagedKv) → Outcome PagedKv
at xs i next = elim (get_elem? xs i) [ none ↦ raised out_of_range | some x ↦ next x ]

-- The loop of `page_elements`; the largest std::size_t is 2 ^ 64 - 1.
unfoldable pub multiply_sizes : ℕ → List ℕ → Result ℕ
multiply_sizes count [] = ok count
multiply_sizes count (size ∷ sizes) =
    if size == 0 || ltb ((u64_mod - 1) / size / 2) count
    then err invalid_argument
    else multiply_sizes (count * size) sizes

unfoldable pub page_elements : KvConfig → Result ℕ
page_elements c = do
  count ← multiply_sizes 2 (c.layers ∷ c.page_tokens ∷ c.kv_width ∷ [])
  throw_if (c.pages == 0 || c.sequences == 0) invalid_argument
  ok count

-- `free_.push_back(i - 1)` from `i = pages` down to 1, so that page 0 is on top.
unfoldable pub push_pages : ℕ → List ℕ → List ℕ
push_pages zero free = free
push_pages (suc i) free = push_pages i (i ∷ free)

unfoldable pub construct : KvConfig → Result PagedKv
construct c = do
  elements ← page_elements c
  ok (record {
    config = c;
    elements_per_page = elements;
    refs = replicate c.pages 0;
    contents = replicate c.pages [];
    tables = replicate c.sequences (record { pages = []; length_of = 0 });
    free = push_pages c.pages [];
    copy_on_writes = 0;
  })

-- `allocate_page`: the page on top, with its memory and one reference.
abbrev pub opened : PagedKv → ℕ → List ℕ → PagedKv
opened p id rest = record p {
  free = rest;
  refs = set p.refs id 1;
  contents =
      if is_empty (get_or p.contents id [])
      then set p.contents id (replicate p.elements_per_page 0)
      else p.contents;
}

unfoldable pub allocate_page : PagedKv → Outcome (ℕ × PagedKv)
allocate_page p = elim p.free [
  | [] ↦ raised runtime_error
  | id ∷ rest ↦ if ltb id (length p.refs) then returned (id, opened p id rest) else undefined
]

-- `vector::back()`
abbrev pub last_page : List ℕ → Option ℕ
last_page pages = get_elem? pages (length pages - 1)

abbrev pub put_table : ℕ → Table → PagedKv → PagedKv
put_table s table p = record p { tables = set p.tables s table }

-- `append` at the start of a page.
unfoldable pub open_page : ℕ → Table → PagedKv → Outcome PagedKv
open_page s table p = after (allocate_page p) λ (id, q).
    returned
      (put_table s (record { pages = table.pages ++ id ∷ []; length_of = table.length_of + 1 }) q)

-- `std::copy` of a page to the start of another that is as long, at least.
abbrev pub copy_over : List ℕ → List ℕ → List ℕ
copy_over from to = from ++ drop (length from) to

-- The copy of a page into another, and what `append` does with the count and the table.
abbrev pub replace_last : ℕ → Table → ℕ → ℕ → PagedKv → PagedKv
replace_last s table old id q = record q {
  contents = set q.contents id (copy_over (get_or q.contents old []) (get_or q.contents id []));
  refs = set q.refs old (dec64 (get_or q.refs old 0));
  tables = set q.tables s (record {
    pages = set table.pages (length table.pages - 1) id;
    length_of = table.length_of + 1;
  });
  copy_on_writes = q.copy_on_writes + 1;
}

-- `append` within a page, which is copied first if it is shared.
unfoldable pub extend_page : ℕ → Table → PagedKv → Outcome PagedKv
extend_page s table p = known (last_page table.pages) λ old.
    if leb (length p.refs) old
    then undefined
    else if ltb 1 (get_or p.refs old 0)
    then after (allocate_page p) (λ (id, q).
      if leb (length (get_or q.contents old [])) (length (get_or q.contents id []))
      then returned (replace_last s table old id q)
      else undefined)
    else returned (put_table s (record table { length_of = table.length_of + 1 }) p)

unfoldable pub append : ℕ → ℕ → PagedKv → Outcome PagedKv
append s position p = at p.tables s λ table.
    if not (position == table.length_of)
    then raised invalid_argument
    else if position % p.config.page_tokens == 0
    then open_page s table p
    else extend_page s table p

abbrev pub offset : KvConfig → ℕ → ℕ → Bool → ℕ
offset c layer position value =
    ((layer * 2 + (if value then 1 else 0)) * c.page_tokens + position % c.page_tokens) * c.kv_width

-- `page_at`, the id of the page.
unfoldable pub page_at : ℕ → ℕ → ℕ → PagedKv → Outcome ℕ
page_at s layer position p = elim (get_elem? p.tables s) [
  | none ↦ raised out_of_range
  | some table ↦
      if leb table.length_of position || leb p.config.layers layer
      then raised out_of_range
      else known (get_elem? table.pages (position / p.config.page_tokens))
          (λ id. if ltb id (length p.refs) then returned id else undefined)
]

module _ {F : Type 0} (float_to_half : F → ℕ) where
  -- The loop of `store`, over the elements that are left; `none` where an index is not in the page.
  unfoldable pub write_loop : ℕ → ℕ → List F → List F → List ℕ → Option (List ℕ)
  write_loop k v (x ∷ key) (y ∷ value) page =
      if ltb k (length page) && ltb v (length page)
      then write_loop (k + 1) (v + 1) key value
          (set (set page k (float_to_half x)) v (float_to_half y))
      else none
  write_loop k v key value page = some page

  unfoldable pub store : ℕ → ℕ → ℕ → List F → List F → PagedKv → Outcome PagedKv
  store s layer position key value p = after (page_at s layer position p) λ id.
      if not (get_or p.refs id 0 == 1)
        || not (length key == p.config.kv_width)
        || not (length value == p.config.kv_width)
      then raised logic_error
      else known
          (write_loop (offset p.config layer position false) (offset p.config layer position true)
            key value (get_or p.contents id []))
          (λ page. returned (record p { contents = set p.contents id page }))

-- `std::span` over a part of a page, which is to be within it.
abbrev pub span_of : ℕ → ℕ → List ℕ → Outcome (List ℕ)
span_of first count page =
    if leb (first + count) (length page) then returned (take count (drop first page)) else undefined

-- `key` and `value`: the elements from the offset on.
unfoldable pub read : Bool → ℕ → ℕ → ℕ → PagedKv → Outcome (List ℕ)
read value s layer position p =
    after (page_at s layer position p) λ id.
      span_of (offset p.config layer position value) p.config.kv_width (get_or p.contents id [])

-- `++pages_[page].refs` for each page.
unfoldable pub retain_pages : List ℕ → List ℕ → List ℕ
retain_pages [] refs = refs
retain_pages (page ∷ pages) refs = retain_pages pages (set refs page (get_or refs page 0 + 1))

-- The loop of `clear`: the counts and the free pages after it.
unfoldable pub release_pages : List ℕ → List ℕ → List ℕ → List ℕ × List ℕ
release_pages [] refs free = (refs, free)
release_pages (page ∷ pages) refs free =
    let left = dec64 (get_or refs page 0) in
    release_pages pages (set refs page left) (if left == 0 then page ∷ free else free)

-- The ids are indices of `pages_`.
abbrev pub are_pages : List ℕ → PagedKv → Bool
are_pages [] p = true
are_pages (page ∷ pages) p = ltb page (length p.refs) && are_pages pages p

abbrev pub cleared : ℕ → Table → PagedKv → PagedKv
cleared s table p =
    let (refs, free) = release_pages table.pages p.refs p.free in
    record p {
      refs = refs;
      free = free;
      tables = set p.tables s (record { pages = []; length_of = 0 });
    }

unfoldable pub clear : ℕ → PagedKv → Outcome PagedKv
clear s p = elim (get_elem? p.tables s) [
  | none ↦ returned p
  | some table ↦ if are_pages table.pages p then returned (cleared s table p) else undefined
]

unfoldable pub share_prefix : ℕ → ℕ → ℕ → PagedKv → Outcome PagedKv
share_prefix source target tokens p = at p.tables source λ from. at p.tables target λ to.
    if source == target || ltb from.length_of tokens
    then raised invalid_argument
    else (let count = (tokens + p.config.page_tokens - 1) / p.config.page_tokens in
        let shared = take count from.pages in
        if leb count (length from.pages) && are_pages shared p
        then after (clear target (record p { refs = retain_pages shared p.refs }))
            (λ q. returned (put_table target (record { pages = shared; length_of = tokens }) q))
        else undefined)

abbrev pub used_pages : PagedKv → ℕ
used_pages p = length p.refs - length p.free

unfoldable pub resident_bytes : List (List ℕ) → ℕ
resident_bytes [] = 0
resident_bytes (data_of ∷ contents) = length data_of * 2 + resident_bytes contents
