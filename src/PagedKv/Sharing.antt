-- ===== src/PagedKv/Sharing.antt =====
-- `clear`, `share_prefix`, `store` and the readers on a valid cache.
use native.Mathlib.Nat.{mod-lt, mul-le-mul_right}
use mini_llm_runtime.BlockPool.Slots.{IsAccounted}
use mini_llm_runtime.Base.{
  ℕ, zero, suc, ◌+◌, ◌-◌, ◌/◌, ◌≤◌, ◌<◌, ◌≡◌, refl, sym, ap, ◌∙◌, inl, inr, ◌⊎◌, ◌||◌, ◌&&◌, ◌*◌,
  ◌%◌, ◌≢◌, subst, Bool, true, false, if◌then◌else◌, not, some, List, [], ◌∷◌, arith, leb, ltb,
  ◌==◌, length, length-set, length-take, get_elem?, get_elem_some, get_or, set, take, count,
  count-take, div_mono, Bool-cases, Option-cases, out_of_range,
}
use mini_llm_runtime.PagedKv.{
  Table, PagedKv, returned, raised, put_table, clear, cleared, are_pages, share_prefix, KvConfig,
  undefined, offset, write_loop, read, retain_pages, page_at, store,
}
use mini_llm_runtime.PagedKv.Pages.{
  count_of_elem, needed, needed-zero, page-lt_needed, retain_pages_lem, release_pages_lem,
}
use mini_llm_runtime.PagedKv.Invariant.{
  IsValid, Keeps, refs-word, table-IsPaged, holds-le, moved-IsValid, named-lt, named-backed,
  fewer-IsBacked, written-IsBacked, elements_of,
}

pub set-set : (xs : List Table) (i : ℕ) (x y : Table) → set (set xs i x) i y ≡ set xs i y
set-set [] i x y = refl
set-set (z ∷ xs) zero x y = refl
set-set (z ∷ xs) (suc i) x y = ap (λ rest. z ∷ rest) (set-set xs i x y)

-- Pages that a table of a valid cache names.
pub are_pages-named :
    (p : PagedKv) (pages : List ℕ)
    → ((a : ℕ) → 0 < count a pages → a < length p.refs)
    → are_pages pages p ≡ true
are_pages-named p [] h = refl
are_pages-named p (page ∷ pages) h =
    let first : ltb page (length p.refs) ≡ true = ground (arith, h page) in
    rw first (are_pages-named p pages (λ a k. h a (ground (arith, k))))

module _ (p : PagedKv) (v : IsValid p) (s : ℕ) (t : Table)
    (there : get_elem? p.tables s ≡ some t) where
  pub clear-returned : clear s p ≡ returned (cleared s t p)
  unfolding clear
  clear-returned =
      let named : are_pages t.pages p ≡ true = are_pages-named p t.pages (named-lt p v s t there) in
      rw (there, named, clear) refl

  cleared-IsValid : IsValid (cleared s t p)
  cleared-IsValid =
      let (acc, lowered, same) =
        release_pages_lem t.pages p.refs p.free v.accounted (holds-le p v s t there)
          (λ a. omega (arith, refs-word p v a)) in
      moved-IsValid p v s t there _ (record { pages = []; length_of = 0 }) refl refl
        (record {
          distinct = λ a. omega arith;
          sized = sym (needed-zero p.config.page_tokens v.page_size);
        })
        acc (λ a. omega (arith, lowered a)) (v.stored ∙ sym same) refl
        (fewer-IsBacked p.elements_per_page p.refs _ p.contents (λ a k. omega (arith, k, lowered a))
          v.memory)

pub clear-Keeps : (s : ℕ) (p : PagedKv) → IsValid p → Keeps (clear s p)
unfolding clear
clear-Keeps s p v = elim (Option-cases (get_elem? p.tables s)) [
  | inl missing ↦ rw (missing, clear, Keeps) v
  | inr (t, there) ↦
      subst Keeps (sym (clear-returned p v s t there)) (cleared-IsValid p v s t there)
]

module _ (p : PagedKv) (v : IsValid p) (source target tokens : ℕ) (from to : Table)
    (there : get_elem? p.tables source ≡ some from) (aimed : get_elem? p.tables target ≡ some to)
    (short : tokens ≤ from.length_of) where
  abbrev shared_pages : List ℕ
  shared_pages = take (needed p.config.page_tokens tokens) from.pages

  abbrev retained : PagedKv
  retained = record p { refs = retain_pages shared_pages p.refs }

  -- The cache after `share_prefix`.
  abbrev pub shared_cache : PagedKv
  shared_cache =
      put_table target (record { pages = shared_pages; length_of = tokens })
        (cleared target to retained)

  part : (a : ℕ) → count a shared_pages ≤ count a from.pages
  part a = count-take a (needed p.config.page_tokens tokens) from.pages

  pub enough_pages : needed p.config.page_tokens tokens ≤ length from.pages
  enough_pages = omega (
    arith,
    (table-IsPaged p v source from there).sized,
    div_mono (tokens + p.config.page_tokens - 1) (from.length_of + p.config.page_tokens - 1)
        p.config.page_tokens v.page_size (omega (arith, short)),
  )

  retained_lem :
      IsAccounted retained.refs p.free
      × ((a : ℕ) → get_or retained.refs a 0 ≡ get_or p.refs a 0 + count a shared_pages)
      × (length retained.refs ≡ length p.refs)
  retained_lem =
      retain_pages_lem shared_pages p.refs p.free v.accounted
        (λ a k. omega (arith, k, part a, holds-le p v source from there a))

  -- The checks of `share_prefix` that no index is out of range.
  pub inside_pages :
      (leb (needed p.config.page_tokens tokens) (length from.pages) && are_pages shared_pages p)
      ≡ true
  inside_pages =
      let low : leb (needed p.config.page_tokens tokens) (length from.pages) ≡ true =
        ground (arith, enough_pages) in
      rw low (
        are_pages-named p shared_pages
          (λ a k. named-lt p v source from there a (omega (arith, k, part a))))

  pub clear-retained : clear target retained ≡ returned (cleared target to retained)
  unfolding clear
  clear-retained =
      let named : are_pages to.pages retained ≡ true =
        are_pages-named retained to.pages
          (λ a k. omega (arith, named-lt p v target to aimed a k, retained_lem.2)) in
      rw (aimed, named, clear) refl

  shared-IsValid : IsValid shared_cache
  shared-IsValid =
      let w = table-IsPaged p v source from there in
      let (acc1, raised_by, same1) = retained_lem in
      let (acc2, lowered, same2) =
        release_pages_lem to.pages retained.refs p.free acc1
          (λ a. omega (arith, raised_by a, holds-le p v target to aimed a))
          (λ a. omega (arith, raised_by a, refs-word p v a, part a, w.distinct a)) in
      moved-IsValid p v target to aimed _ (record { pages = shared_pages; length_of = tokens }) refl
        (set-set p.tables target (record { pages = []; length_of = 0 })
          (record { pages = shared_pages; length_of = tokens }))
        (record {
          distinct = λ a. omega (arith, part a, w.distinct a);
          sized =
              omega
                (arith, length-take (needed p.config.page_tokens tokens) from.pages, enough_pages);
        })
        acc2 (λ a. omega (arith, lowered a, raised_by a)) (v.stored ∙ sym same1 ∙ sym same2) refl
        (fewer-IsBacked p.elements_per_page p.refs _ p.contents
          (λ a k.
            omega (arith, k, lowered a, raised_by a, part a, holds-le p v source from there a))
          v.memory)

pub share_prefix-Keeps :
    (source target tokens : ℕ) (p : PagedKv)
    → IsValid p
    → Keeps (share_prefix source target tokens p)
unfolding share_prefix
share_prefix-Keeps source target tokens p v = elim (Option-cases (get_elem? p.tables source)) [
  | inl missing ↦ rw (missing, Keeps) tt
  | inr (from, there) ↦
      rw (there, Keeps)
        (elim (Option-cases (get_elem? p.tables target)) [
          | inl missing ↦ rw (missing, Keeps) tt
          | inr (to, aimed) ↦
              rw (aimed, Keeps)
                (elim (Bool-cases (source == target || ltb from.length_of tokens)) [
                  | inl bad ↦ rw (bad, Keeps) tt
                  | inr good ↦
                      let short : tokens ≤ from.length_of = ground (arith, good) in
                      rw
                        (
                          good,
                          inside_pages p v source target tokens from to there aimed short,
                          clear-retained p v source target tokens from to there aimed short,
                          Keeps,
                        )
                        (shared-IsValid p v source target tokens from to there aimed short)
                ])
        ])
]

-- A position below the length of a sequence has its page.
pub page_at-cases :
    (s layer position : ℕ) (p : PagedKv)
    → IsValid p
    → ((t : Table) × (x : ℕ) × (get_elem? p.tables s ≡ some t)
        × (0 < count x t.pages)
        × (layer < p.config.layers)
        × (page_at s layer position p ≡ returned x))
      ⊎ (page_at s layer position p ≡ raised out_of_range)
unfolding page_at
page_at-cases s layer position p v = elim (Option-cases (get_elem? p.tables s)) [
  | inl missing ↦ inr (rw (missing, page_at) refl)
  | inr (t, there) ↦ elim (Bool-cases (leb t.length_of position || leb p.config.layers layer)) [
    | inl out ↦ inr (rw (there, out, page_at) refl)
    | inr inside ↦
        let w = table-IsPaged p v s t there in
        let (id, found) = get_elem_some t.pages (position / p.config.page_tokens) (
          omega (
            arith,
            w.sized,
            page-lt_needed p.config.page_tokens t.length_of v.page_size position
                (ground (arith, inside)),
          )) in
        let own = count_of_elem t.pages (position / p.config.page_tokens) id found in
        let is_page : ltb id (length p.refs) ≡ true =
          ground (arith, named-lt p v s t there id own) in
        inl (
          t,
          id,
          there,
          own,
          ground (arith, inside),
          rw (there, inside, found, is_page, page_at) refl,
        )
  ]
]

-- The elements of a key or a value are within the page.
pub offset-le :
    (c : KvConfig) (layer position : ℕ) (value : Bool)
    → 0 < c.page_tokens
    → layer < c.layers
    → offset c layer position value + c.kv_width ≤ elements_of c
offset-le c layer position value some_tokens low =
    let bit = if value then 1 else 0 in
    let row = layer * 2 + bit in
    let one : bit ≤ 1 = ground arith in
    let short : position % c.page_tokens < c.page_tokens = mod-lt position some_tokens in
    let rows : (row + 1) * c.page_tokens ≤ 2 * c.layers * c.page_tokens =
      mul-le-mul_right c.page_tokens (omega (arith, low, one)) in
    let cells : (row * c.page_tokens + position % c.page_tokens + 1) * c.kv_width
        ≤ 2 * c.layers * c.page_tokens * c.kv_width =
      mul-le-mul_right c.kv_width (omega (arith, rows, short)) in
    omega (arith, cells)

module _ {F : Type 0} (float_to_half : F → ℕ) where
  write_loop_lem :
      (k v : ℕ) (key value : List F) (page : List ℕ)
      → k + length key ≤ length page
      → v + length value ≤ length page
      → (out : List ℕ) × (write_loop float_to_half k v key value page ≡ some out)
        × (length out ≡ length page)
  unfolding write_loop
  write_loop_lem k v [] value page hk hv = (page, refl, refl)
  write_loop_lem k v (x ∷ key) [] page hk hv = (page, refl, refl)
  write_loop_lem k v (x ∷ key) (y ∷ value) page hk hv =
      let next = set (set page k (float_to_half x)) v (float_to_half y) in
      let same : length next ≡ length page =
        length-set (set page k (float_to_half x)) v _ ∙ length-set page k _ in
      let (out, done, long) =
        write_loop_lem (k + 1) (v + 1) key value next (omega (arith, hk, same))
          (omega (arith, hv, same)) in
      let inside : (ltb k (length page) && ltb v (length page)) ≡ true = ground (arith, hk, hv) in
      (out, rw inside done, long ∙ same)

  -- On a valid cache the writes of `store` are within the page.
  pub stored_page :
      (p : PagedKv) (v : IsValid p) (s : ℕ) (t : Table) (id layer position : ℕ) (key value : List F)
      → get_elem? p.tables s ≡ some t
      → 0 < count id t.pages
      → layer < p.config.layers
      → length key ≡ p.config.kv_width
      → length value ≡ p.config.kv_width
      → let page = get_or p.contents id [] in
        (out : List ℕ) × (write_loop float_to_half
            (offset p.config layer position false)
            (offset p.config layer position true)
            key
            value
            page
          ≡ some out)
        × (length out ≡ length page)
  stored_page p v s t id layer position key value there own low wide wide' =
      let whole = named-backed p v s t there id own in
      write_loop_lem _ _ key value (get_or p.contents id [])
        (omega (arith, whole, wide, offset-le p.config layer position false v.page_size low))
        (omega (arith, whole, wide', offset-le p.config layer position true v.page_size low))

  pub store-Keeps :
      (s layer position : ℕ) (key value : List F) (p : PagedKv)
      → IsValid p
      → Keeps (store float_to_half s layer position key value p)
  unfolding store
  store-Keeps s layer position key value p v = elim (page_at-cases s layer position p v) [
    | inr out ↦ rw (out, Keeps) tt
    | inl (t, id, there, own, low, found) ↦
        rw (found, Keeps)
          (elim (Bool-cases (
            not (get_or p.refs id 0 == 1)
            || not (length key == p.config.kv_width)
            || not (length value == p.config.kv_width))) [
              | inl bad ↦ rw (bad, Keeps) tt
              | inr good ↦
                  let (page, written, long) =
                    stored_page p v s t id layer position key value there own low
                      (ground (arith, good)) (ground (arith, good)) in
                  rw (good, written, Keeps)
                    (record {
                      page_size = v.page_size;
                      accounted = v.accounted;
                      held = v.held;
                      paged = v.paged;
                      stored = length-set p.contents id _ ∙ v.stored;
                      elements = v.elements;
                      memory =
                          written-IsBacked p.elements_per_page p.refs p.contents id page long
                            v.memory;
                      few = v.few;
                    })
            ])
  ]

-- What `key` and `value` return is within the page, or they throw.
pub read-defined :
    (value : Bool) (s layer position : ℕ) (p : PagedKv)
    → IsValid p
    → read value s layer position p ≢ undefined
unfolding read
read-defined value s layer position p v = elim (page_at-cases s layer position p v) [
  | inr out ↦ rw out (λ e. cc)
  | inl (t, id, there, own, low, found) ↦
      let inside : leb (offset p.config layer position value + p.config.kv_width)
            (length (get_or p.contents id []))
          ≡ true =
        ground (
          arith,
          offset-le p.config layer position value v.page_size low,
          named-backed p v s t there id own,
        ) in
      rw (found, inside) (λ e. cc)
]
