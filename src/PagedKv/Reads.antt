-- ===== src/PagedKv/Reads.antt =====
-- What a sequence reads depends on its table and on the pages that this names.
use mini_llm_runtime.Base.{
  ℕ, zero, suc, ◌+◌, ◌/◌, ◌≤◌, ◌<◌, ◌≡◌, ◌≢◌, refl, sym, ap, subst, ◌∙◌, inl, inr, Bool, false,
  none, some, List, [], ◌∷◌, ◌++◌, arith, true, ltb, leb, if◌then◌else◌, length, get_elem?,
  get_elem_some, get_or, take, count, Bool-cases, Option-cases, total, total-ge, out_of_range,
}
use mini_llm_runtime.PagedKv.{
  KvConfig, Table, PagedKv, Outcome, raised, page_at, offset, span_of, read,
}
use mini_llm_runtime.PagedKv.Pages.{needed, page-lt_needed, count_of_elem}
use mini_llm_runtime.PagedKv.Invariant.{IsValid, table-IsPaged, named-lt}

module _ {A : Type 0} where
  pub get_elem-append :
      (xs ys : List A) (i : ℕ) → i < length xs → get_elem? (xs ++ ys) i ≡ get_elem? xs i
  get_elem-append [] ys i h = absurd (omega arith)
  get_elem-append (x ∷ xs) ys zero h = refl
  get_elem-append (x ∷ xs) ys (suc i) h = get_elem-append xs ys i (omega arith)

  pub get_elem-take :
      (n : ℕ) (xs : List A) (i : ℕ) → i < n → get_elem? (take n xs) i ≡ get_elem? xs i
  get_elem-take zero xs i h = absurd (omega arith)
  get_elem-take (suc n) [] i h = refl
  get_elem-take (suc n) (x ∷ xs) zero h = refl
  get_elem-take (suc n) (x ∷ xs) (suc i) h = get_elem-take n xs i (omega arith)

  pub total-ge_pair :
      (f : A → ℕ) (xs : List A) (i j : ℕ) (x y : A)
      → get_elem? xs i ≡ some x
      → get_elem? xs j ≡ some y
      → i ≢ j
      → f x + f y ≤ total f xs
  total-ge_pair f [] i j x y h k apart = cc
  total-ge_pair f (z ∷ xs) zero zero x y h k apart = absurd (apart refl)
  total-ge_pair f (z ∷ xs) zero (suc j) x y h k apart =
      let same : z ≡ x = cc in
      subst (λ u. f u + f y ≤ f z + total f xs) same (omega (arith, total-ge f xs j y k))
  total-ge_pair f (z ∷ xs) (suc i) zero x y h k apart =
      let same : z ≡ y = cc in
      subst (λ u. f x + f u ≤ f z + total f xs) same (omega (arith, total-ge f xs i x h))
  total-ge_pair f (z ∷ xs) (suc i) (suc j) x y h k apart =
      omega (arith, total-ge_pair f xs i j x y h k (λ e. apart (ap suc e)))

-- What `read` returns for a position that has a page.
abbrev page_read : KvConfig → Bool → ℕ → ℕ → List ℕ → Outcome (List ℕ)
page_read c value layer position page =
    if leb c.layers layer
    then raised out_of_range
    else span_of (offset c layer position value) c.kv_width page

read_lem :
    (p : PagedKv) (s : ℕ) (t : Table) (id : ℕ) (value : Bool) (layer position : ℕ)
    → get_elem? p.tables s ≡ some t
    → position < t.length_of
    → get_elem? t.pages (position / p.config.page_tokens) ≡ some id
    → id < length p.refs
    → read value s layer position p
      ≡ page_read p.config value layer position (get_or p.contents id [])
unfolding read page_at
read_lem p s t id value layer position there below named inside_refs =
    let inside : leb t.length_of position ≡ false = ground (arith, below) in
    let is_page : ltb id (length p.refs) ≡ true = ground (arith, inside_refs) in
    elim (Bool-cases (leb p.config.layers layer)) [
      | inl out ↦ rw (there, inside, out, page_at) refl
      | inr good ↦ rw (there, inside, good, named, is_page, page_at) refl
    ]

-- The first tokens of `target` in `q` are those of `source` in `p`: the same table entries are
-- defined, and the pages have the same contents.
pub record IsCarried (source target tokens : ℕ) (p q : PagedKv) : Type 0 where
  pub same_config : q.config ≡ p.config
  pub tables :
      (t : Table) × (t' : Table) × (get_elem? p.tables source ≡ some t)
      × (get_elem? q.tables target ≡ some t')
      × (tokens ≤ t.length_of)
      × (tokens ≤ t'.length_of)
      × ((i : ℕ)
          → i < needed p.config.page_tokens tokens
          → (id : ℕ) × (id' : ℕ) × (get_elem? t.pages i ≡ some id)
            × (get_elem? t'.pages i ≡ some id')
            × (get_or q.contents id' [] ≡ get_or p.contents id []))

pub carried-read :
    (p q : PagedKv) (source target tokens : ℕ)
    → IsValid p
    → IsValid q
    → IsCarried source target tokens p q
    → (value : Bool) (layer position : ℕ) → position < tokens
    → read value target layer position q ≡ read value source layer position p
carried-read p q source target tokens v v' r value layer position below =
    let (t, t', there, aimed, short, short', pages) = r.tables in
    let (id, id', named, named', same) =
      pages (position / p.config.page_tokens)
        (page-lt_needed p.config.page_tokens tokens v.page_size position below) in
    let at_page : get_elem? t'.pages (position / q.config.page_tokens) ≡ some id' =
      subst (λ (c : KvConfig). get_elem? t'.pages (position / c.page_tokens) ≡ some id')
        (sym r.same_config) named' in
    read_lem q target t' id' value layer position aimed (omega (arith, below, short')) at_page (
      named-lt q v' target t' aimed id'
        (count_of_elem t'.pages (position / q.config.page_tokens) id' at_page))
    ∙ ap (λ (c : KvConfig). page_read c value layer position (get_or q.contents id' []))
        r.same_config
    ∙ ap (page_read p.config value layer position) same
    ∙ sym (
        read_lem p source t id value layer position there (omega (arith, below, short)) named (
          named-lt p v source t there id
            (count_of_elem t.pages (position / p.config.page_tokens) id named)))

-- Nothing that the sequence `s` reads differs.
pub record IsUntouched (s : ℕ) (p q : PagedKv) : Type 0 where
  pub same_config : q.config ≡ p.config
  pub entry : get_elem? q.tables s ≡ get_elem? p.tables s
  pub same_pages :
      (t : Table) (a : ℕ)
      → get_elem? p.tables s ≡ some t
      → 0 < count a t.pages
      → get_or q.contents a [] ≡ get_or p.contents a []

pub untouched-read :
    (p q : PagedKv) (s : ℕ)
    → IsValid p
    → IsValid q
    → IsUntouched s p q
    → (value : Bool) (layer position : ℕ)
    → read value s layer position q ≡ read value s layer position p
unfolding read page_at
untouched-read p q s v v' r value layer position = elim (Option-cases (get_elem? p.tables s)) [
  | inl missing ↦
      let gone : get_elem? q.tables s ≡ none = r.entry ∙ missing in rw (gone, missing, page_at) refl
  | inr (t, there) ↦
      let still : get_elem? q.tables s ≡ some t = r.entry ∙ there in
      let w = table-IsPaged p v s t there in
      elim (Bool-cases (leb t.length_of position)) [
        | inl out ↦ rw (still, there, out, page_at) refl
        | inr inside ↦
            carried-read p q s s t.length_of v v'
              (record {
                same_config = r.same_config;
                tables = (
                  t,
                  t,
                  there,
                  still,
                  omega arith,
                  omega arith,
                  λ i small.
                      let (id, named) = get_elem_some t.pages i (omega (arith, small, w.sized)) in
                      (
                        id,
                        id,
                        named,
                        named,
                        r.same_pages t id there (count_of_elem t.pages i id named),
                      ),
                );
              })
              value layer position (ground (arith, inside))
      ]
]
