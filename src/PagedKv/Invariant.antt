-- ===== src/PagedKv/Invariant.antt =====
-- A valid cache: the count of a page is how many tables name it, a page is free if none does, and
-- each table has the pages for its length, and a page in use has its memory. Every call leaves a cache
-- valid.
use mini_llm_runtime.Base.{
  ℕ, ◌+◌, ◌*◌, ◌⊎◌, [], inl, inr, refl, ◌≤◌, ◌<◌, ◌≡◌, sym, ap, subst, ◌∙◌, some, List, ◌∷◌, arith,
  length, length-set, get_elem?, get_or, get_or-set_ne, get_or-set_self, set, ltb, Bool-cases,
  ℕ_discrete, zero, suc, count, IsDistinct, All, All-set, All-get_elem, All-map, total, total-set,
  total-ge, total-le, total-ones, u64_mod,
}
use mini_llm_runtime.BlockPool.Invariant.{lt_of_owned}
use mini_llm_runtime.BlockPool.Slots.{IsAccounted, head-unowned}
use mini_llm_runtime.PagedKv.{KvConfig, Table, PagedKv, Outcome, returned, raised, undefined}
use mini_llm_runtime.PagedKv.Pages.{needed}

pub record IsPaged (n : ℕ) (t : Table) : Type 0 where
  pub distinct : IsDistinct t.pages
  pub sized : length t.pages ≡ needed n t.length_of

abbrev pub holds : ℕ → Table → ℕ
holds a t = count a t.pages

-- The memory of the pages: one in use is there as a whole, one that is not in use is there as a whole
-- or not at all.
pub record IsBacked (elements : ℕ) (refs : List ℕ) (contents : List (List ℕ)) : Type 0 where
  pub whole :
      (a : ℕ) → (length (get_or contents a []) ≡ 0) ⊎ (length (get_or contents a []) ≡ elements)
  pub backed : (a : ℕ) → 0 < get_or refs a 0 → length (get_or contents a []) ≡ elements

-- The elements of a page, two for each layer, token and number.
abbrev pub elements_of : KvConfig → ℕ
elements_of c = 2 * c.layers * c.page_tokens * c.kv_width

pub record IsValid (p : PagedKv) : Type 0 where
  pub page_size : 0 < p.config.page_tokens
  pub accounted : IsAccounted p.refs p.free
  pub held : (a : ℕ) → get_or p.refs a 0 ≡ total (holds a) p.tables
  pub paged : All (IsPaged p.config.page_tokens) p.tables
  pub stored : length p.contents ≡ length p.refs
  pub elements : p.elements_per_page ≡ elements_of p.config
  pub memory : IsBacked p.elements_per_page p.refs p.contents
  pub few : length p.tables + 1 < u64_mod

-- A call that returns leaves the cache valid, and none has undefined behaviour.
abbrev pub Keeps : Outcome PagedKv → Type 0
Keeps (returned p) = IsValid p
Keeps (raised x) = Unit
Keeps undefined = ⊥

module _ (p : PagedKv) (v : IsValid p) where
  pub refs-word : (a : ℕ) → get_or p.refs a 0 + 1 < u64_mod
  refs-word a =
      let once : All (λ t. holds a t ≤ 1) p.tables =
        All-map p.tables (λ t w. w.distinct a) v.paged in
      omega (arith, v.held a, total-le (holds a) (λ _. 1) p.tables once, total-ones p.tables, v.few)

  module _ (s : ℕ) (t : Table) (there : get_elem? p.tables s ≡ some t) where
    pub table-IsPaged : IsPaged p.config.page_tokens t
    table-IsPaged = All-get_elem (IsPaged p.config.page_tokens) p.tables s t v.paged there

    pub holds-le : (a : ℕ) → holds a t ≤ get_or p.refs a 0
    holds-le a = omega (arith, v.held a, total-ge (holds a) p.tables s t there)

    -- The counts follow the change of one table.
    pub moved-held :
        (t' : Table) (refs : List ℕ)
        → ((a : ℕ) → get_or refs a 0 + holds a t ≡ get_or p.refs a 0 + holds a t')
        → (a : ℕ) → get_or refs a 0 ≡ total (holds a) (set p.tables s t')
    moved-held t' refs moved a =
        omega (arith, moved a, v.held a, total-set (holds a) p.tables s t t' there)

    -- What is to be shown of a cache that differs in one table.
    pub moved-IsValid :
        (q : PagedKv) (t' : Table)
        → q.config ≡ p.config
        → q.tables ≡ set p.tables s t'
        → IsPaged p.config.page_tokens t'
        → IsAccounted q.refs q.free
        → ((a : ℕ) → get_or q.refs a 0 + holds a t ≡ get_or p.refs a 0 + holds a t')
        → length q.contents ≡ length q.refs
        → q.elements_per_page ≡ p.elements_per_page
        → IsBacked p.elements_per_page q.refs q.contents
        → IsValid q
    moved-IsValid q t' same_config tables fits accounted moved stored same_size memory = record {
      page_size = rw same_config v.page_size;
      accounted = accounted;
      held = λ a. moved-held t' q.refs moved a ∙ ap (total (holds a)) (sym tables);
      paged =
          subst (λ (c : KvConfig). All (IsPaged c.page_tokens) q.tables) (sym same_config)
            (subst (All (IsPaged p.config.page_tokens)) (sym tables)
              (All-set (IsPaged p.config.page_tokens) p.tables s t' v.paged fits));
      stored = stored;
      elements = same_size ∙ v.elements ∙ ap elements_of (sym same_config);
      memory = subst (λ n. IsBacked n q.refs q.contents) (sym same_size) memory;
      few = omega (arith, ap length tables, length-set p.tables s t', v.few);
    }

    -- The page on top of the free list is in no table.
    pub top-unheld : (id : ℕ) (rest : List ℕ) → p.free ≡ id ∷ rest → get_or p.refs id 0 ≡ 0
    top-unheld id rest top =
        head-unowned p.refs rest id (subst (IsAccounted p.refs) top v.accounted)

    -- A page that a table names is one, and its memory is there.
    pub named-lt : (a : ℕ) → 0 < count a t.pages → a < length p.refs
    named-lt a k = lt_of_owned p.refs a (omega (arith, k, holds-le a))

    pub named-backed :
        (a : ℕ) → 0 < count a t.pages → length (get_or p.contents a []) ≡ elements_of p.config
    named-backed a k = v.memory.backed a (omega (arith, k, holds-le a)) ∙ v.elements

-- Counts that are raised only where they are not zero need no more memory.
pub fewer-IsBacked :
    (elements : ℕ) (refs refs' : List ℕ) (contents : List (List ℕ))
    → ((a : ℕ) → 0 < get_or refs' a 0 → 0 < get_or refs a 0)
    → IsBacked elements refs contents
    → IsBacked elements refs' contents
fewer-IsBacked elements refs refs' contents still m = record {
  whole = m.whole;
  backed = λ a k. m.backed a (still a k);
}

-- A page that is written stays as long.
pub written-IsBacked :
    (elements : ℕ) (refs : List ℕ) (contents : List (List ℕ)) (id : ℕ) (page : List ℕ)
    → length page ≡ length (get_or contents id [])
    → IsBacked elements refs contents
    → IsBacked elements refs (set contents id page)
written-IsBacked elements refs contents id page same m =
    let kept : (a : ℕ)
        → length (get_or (set contents id page) a []) ≡ length (get_or contents a []) =
      λ a. elim (ℕ_discrete id a) [
        | no apart ↦ ap length (get_or-set_ne contents id a page [] apart)
        | yes here ↦ elim (Bool-cases (ltb id (length contents))) [
          | inl inside ↦
              ap (λ x. length (get_or (set contents id page) x [])) (sym here)
              ∙ ap length (get_or-set_self contents id page [] (ground (arith, inside)))
              ∙ same
              ∙ ap (λ x. length (get_or contents x [])) here
          | inr outside ↦
              ap (λ xs. length (get_or xs a []))
                (set-outside contents id page (ground (arith, outside)))
        ]
      ] in
    record {
      whole = λ a. subst (λ n. (n ≡ 0) ⊎ (n ≡ elements)) (sym (kept a)) (m.whole a);
      backed = λ a k. kept a ∙ m.backed a k;
    }
  where
    set-outside : (xs : List (List ℕ)) (i : ℕ) (x : List ℕ) → length xs ≤ i → set xs i x ≡ xs
    set-outside [] i x h = refl
    set-outside (y ∷ ys) zero x h = absurd (omega arith)
    set-outside (y ∷ ys) (suc i) x h = ap (λ rest. y ∷ rest) (set-outside ys i x (omega arith))
