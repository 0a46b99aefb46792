-- ===== src/PagedKv/Appends.antt =====
-- `append`: a new page, a copied one, or the last one as it is.
use mini_llm_runtime.Base.{
  ℕ, zero, suc, ◌+◌, ◌-◌, ◌%◌, ◌<◌, ◌≡◌, ◌≢◌, refl, sym, ap, subst, ◌∙◌, inl, inr, ◌⊎◌, some, List,
  [], ◌∷◌, ◌++◌, arith, ltb, ◌==◌, if◌then◌else◌, is_empty, length, length-set, length-append,
  get_elem?, get_elem_some, get_or, get_or-set, get_or-set_ne, get_or-set_self, false, true, leb,
  length-replicate, ℕ_discrete, set, replicate, count, count_append, Bool-cases, Option-cases,
  dec64, dec64-eq-sub, runtime_error,
}
use mini_llm_runtime.BlockPool.Slots.{IsAccounted, take-IsAccounted, head-lt, bump-IsAccounted}
use mini_llm_runtime.BlockPool.Invariant.{lt_of_owned}
use mini_llm_runtime.PagedKv.{
  Table, PagedKv, returned, raised, opened, copy_over, allocate_page, put_table, open_page,
  replace_last, extend_page, append,
}
use mini_llm_runtime.PagedKv.Pages.{needed-start, needed-within, copy_over-same, count_of_elem}
use mini_llm_runtime.PagedKv.Invariant.{
  IsValid, Keeps, refs-word, table-IsPaged, holds-le, moved-IsValid, top-unheld, IsBacked, named-lt,
  written-IsBacked, fewer-IsBacked,
}

pub allocate-cases :
    (p : PagedKv)
    → IsValid p
    → ((p.free ≡ []) × (allocate_page p ≡ raised runtime_error))
      ⊎ ((id : ℕ) × (rest : List ℕ) × (p.free ≡ id ∷ rest)
          × (allocate_page p ≡ returned (id, opened p id rest)))
unfolding allocate_page
allocate-cases p v = split p.free refl
  where
    split :
        (free : List ℕ)
        → p.free ≡ free
        → ((p.free ≡ []) × (allocate_page p ≡ raised runtime_error))
          ⊎ ((id : ℕ) × (rest : List ℕ) × (p.free ≡ id ∷ rest)
              × (allocate_page p ≡ returned (id, opened p id rest)))
    split [] h = inl (h, rw h refl)
    split (id ∷ rest) h =
        let inside : ltb id (length p.refs) ≡ true =
          ground (arith, head-lt p.refs rest id (subst (IsAccounted p.refs) h v.accounted)) in
        inr (id, rest, h, rw (h, inside) refl)

pub length-opened_contents :
    (p : PagedKv) (id : ℕ) (rest : List ℕ) → length (opened p id rest).contents ≡ length p.contents
length-opened_contents p id rest = elim (Bool-cases (is_empty (get_or p.contents id []))) [
  | inl h ↦ rw h (length-set p.contents id (replicate p.elements_per_page 0))
  | inr h ↦ rw h refl
]

pub opened-contents :
    (p : PagedKv) (id a : ℕ) (rest : List ℕ)
    → id ≢ a
    → get_or (opened p id rest).contents a [] ≡ get_or p.contents a []
opened-contents p id a rest apart = elim (Bool-cases (is_empty (get_or p.contents id []))) [
  | inl h ↦ rw h (get_or-set_ne p.contents id a (replicate p.elements_per_page 0) [] apart)
  | inr h ↦ rw h refl
]

not_empty : (xs : List ℕ) → is_empty xs ≡ false → length xs ≢ 0
not_empty [] h e = cc
not_empty (x ∷ xs) h e = absurd (omega (arith, e))

module _ (p : PagedKv) (v : IsValid p) (id : ℕ) (rest : List ℕ) (top : p.free ≡ id ∷ rest) where
  pub top-lt : id < length p.refs
  top-lt = head-lt p.refs rest id (subst (IsAccounted p.refs) top v.accounted)

  -- The page that is taken has its memory.
  pub opened-length : length (get_or (opened p id rest).contents id []) ≡ p.elements_per_page
  opened-length = elim (Bool-cases (is_empty (get_or p.contents id []))) [
    | inl h ↦ rw h (
        ap length (
          get_or-set_self p.contents id (replicate p.elements_per_page 0) []
            (omega (arith, top-lt, v.stored)))
        ∙ length-replicate p.elements_per_page 0)
    | inr h ↦ rw h (elim (v.memory.whole id) [
      | inl none_there ↦ absurd (not_empty (get_or p.contents id []) h none_there)
      | inr all ↦ all
    ])
  ]

  pub opened-IsBacked : IsBacked p.elements_per_page (set p.refs id 1) (opened p id rest).contents
  opened-IsBacked = record {
    whole = λ a. elim (ℕ_discrete id a) [
      | yes here ↦ inr (
          subst (λ x. length (get_or (opened p id rest).contents x []) ≡ p.elements_per_page) here
            opened-length)
      | no apart ↦
          subst (λ (xs : List ℕ). (length xs ≡ 0) ⊎ (length xs ≡ p.elements_per_page))
            (sym (opened-contents p id a rest apart)) (v.memory.whole a)
    ];
    backed = λ a k. elim (ℕ_discrete id a) [
      | yes here ↦
          subst (λ x. length (get_or (opened p id rest).contents x []) ≡ p.elements_per_page) here
            opened-length
      | no apart ↦
          ap length (opened-contents p id a rest apart)
          ∙ v.memory.backed a (omega (arith, k, get_or-set_ne p.refs id a 1 0 apart))
    ];
  }

module _ (p : PagedKv) (v : IsValid p) (s : ℕ) (t : Table)
    (there : get_elem? p.tables s ≡ some t) where
  module _ (id : ℕ) (rest : List ℕ) (top : p.free ≡ id ∷ rest) where
    taken : IsAccounted p.refs (id ∷ rest)
    taken = subst (IsAccounted p.refs) top v.accounted

    opened-stored : length (opened p id rest).contents ≡ length (set p.refs id 1)
    opened-stored = length-opened_contents p id rest ∙ v.stored ∙ sym (length-set p.refs id 1)

    pub grown-IsValid :
        t.length_of % p.config.page_tokens ≡ 0
        → IsValid (
            put_table s
              (record { pages = t.pages ++ id ∷ []; length_of = t.length_of + 1 })
              (opened p id rest))
    grown-IsValid start =
        let w = table-IsPaged p v s t there in
        let inside : id < length p.refs = head-lt p.refs rest id taken in
        let unheld : get_or p.refs id 0 ≡ 0 = top-unheld p v s t there id rest top in
        let fresh : count id t.pages ≡ 0 = omega (arith, holds-le p v s t there id, unheld) in
        moved-IsValid p v s t there _
          (record { pages = t.pages ++ id ∷ []; length_of = t.length_of + 1 }) refl refl
          (record {
            distinct = λ a. ground (arith, count_append a t.pages (id ∷ []), w.distinct a, fresh);
            sized = omega (
              arith,
              length-append t.pages (id ∷ []),
              w.sized,
              needed-start p.config.page_tokens t.length_of v.page_size start,
            );
          })
          (take-IsAccounted p.refs rest id taken)
          (λ a.
            ground
              (arith, get_or-set p.refs id a 1 0, count_append a t.pages (id ∷ []), inside, unheld))
          opened-stored refl (opened-IsBacked p v id rest top)

  pub open_page-Keeps : t.length_of % p.config.page_tokens ≡ 0 → Keeps (open_page s t p)
  unfolding open_page
  open_page-Keeps start = elim (allocate-cases p v) [
    | inl (_, out) ↦ rw out tt
    | inr (id, rest, top, got) ↦ rw got (grown-IsValid id rest top start)
  ]

  -- A page that is replaced in a table.
  pub count-set :
      (xs : List ℕ) (i x y a : ℕ)
      → get_elem? xs i ≡ some x
      → count a (set xs i y) + (if x == a then 1 else 0) ≡ count a xs + (if y == a then 1 else 0)
  count-set [] i x y a h = cc
  count-set (z ∷ xs) zero x y a h = let same : z ≡ x = cc in ground (arith, same)
  count-set (z ∷ xs) (suc i) x y a h = ground (arith, count-set xs i x y a h)

  module _ (old : ℕ) (last : get_elem? t.pages (length t.pages - 1) ≡ some old) where
    module _ (id : ℕ) (rest : List ℕ) (top : p.free ≡ id ∷ rest)
        (shared : 1 < get_or p.refs old 0) where
      -- The two pages are as long.
      pub same_length :
          length (get_or (opened p id rest).contents old [])
          ≡ length (get_or (opened p id rest).contents id [])
      same_length =
          (opened-IsBacked p v id rest top).backed old
            (omega (arith, get_or-set_ne p.refs id old 1 0 old-apart, shared))
          ∙ sym (opened-length p v id rest top)
        where
          old-apart : id ≢ old
          old-apart e = absurd (
              omega (
                arith,
                ap (λ x. get_or p.refs x 0) e,
                top-unheld p v s t there id rest top,
                shared,
              ))

      -- So the copy is the old page.
      pub copied-same :
          copy_over
            (get_or (opened p id rest).contents old [])
            (get_or (opened p id rest).contents id [])
          ≡ get_or (opened p id rest).contents old []
      copied-same = copy_over-same _ _ (omega (arith, same_length))

      pub copied-IsValid :
          t.length_of % p.config.page_tokens ≢ 0
          → IsValid (replace_last s t old id (opened p id rest))
      copied-IsValid within =
          let w = table-IsPaged p v s t there in
          let inside : id < length p.refs = head-lt p.refs rest id (taken id rest top) in
          let unheld : get_or p.refs id 0 ≡ 0 = top-unheld p v s t there id rest top in
          let fresh : count id t.pages ≡ 0 = omega (arith, holds-le p v s t there id, unheld) in
          let unchanged : get_or (set p.refs id 1) old 0 ≡ get_or p.refs old 0 =
            get_or-set p.refs id old 1 0 ∙ ground (arith, unheld, shared) in
          let less : dec64 (get_or (set p.refs id 1) old 0) ≡ get_or p.refs old 0 - 1 =
            ap dec64 unchanged
            ∙ dec64-eq-sub (get_or p.refs old 0) (omega (arith, shared))
                (omega (arith, refs-word p v old)) in
          let lower = dec64 (get_or (set p.refs id 1) old 0) in
          moved-IsValid p v s t there _
            (record { pages = set t.pages (length t.pages - 1) id; length_of = t.length_of + 1 })
            refl refl
            (record {
              distinct = λ a. ground (
                arith,
                count-set t.pages (length t.pages - 1) old id a last,
                w.distinct a,
                fresh,
              );
              sized = omega (
                arith,
                length-set t.pages (length t.pages - 1) id,
                w.sized,
                needed-within p.config.page_tokens t.length_of v.page_size within,
              );
            })
            (bump-IsAccounted (set p.refs id 1) rest old lower
              (take-IsAccounted p.refs rest id (taken id rest top))
              (omega
                (arith, lt_of_owned p.refs old (omega (arith, shared)), length-set p.refs id 1))
              (λ e. absurd (omega (arith, e, unchanged, shared)))
              (λ e. absurd (omega (arith, e, less, shared))))
            (λ a. ground (
              arith,
              get_or-set (set p.refs id 1) old a lower 0,
              get_or-set p.refs id a 1 0,
              length-set p.refs id 1,
              lt_of_owned p.refs old,
              count-set t.pages (length t.pages - 1) old id a last,
              less,
              shared,
              unheld,
              inside,
            ))
            (length-set (opened p id rest).contents id _
              ∙ opened-stored id rest top
              ∙ sym (length-set (set p.refs id 1) old lower))
            refl
            (written-IsBacked p.elements_per_page (set (set p.refs id 1) old lower)
              (opened p id rest).contents id _ (ap length copied-same ∙ same_length)
              (fewer-IsBacked p.elements_per_page (set p.refs id 1)
                (set (set p.refs id 1) old lower) (opened p id rest).contents
                (λ a k.
                  ground (arith, k, get_or-set (set p.refs id 1) old a lower 0, unchanged, shared))
                (opened-IsBacked p v id rest top)))

  pub extend_page-Keeps : t.length_of % p.config.page_tokens ≢ 0 → Keeps (extend_page s t p)
  unfolding extend_page
  extend_page-Keeps within =
      let w = table-IsPaged p v s t there in
      let some_page : 0 < length t.pages =
        omega (arith, w.sized, needed-within p.config.page_tokens t.length_of v.page_size within) in
      let (old, last) = get_elem_some t.pages (length t.pages - 1) (omega (arith, some_page)) in
      let is_page : leb (length p.refs) old ≡ false =
        ground (
          arith,
          named-lt p v s t there old (count_of_elem t.pages (length t.pages - 1) old last),
        ) in
      rw (last, is_page)
        (elim (Bool-cases (ltb 1 (get_or p.refs old 0))) [
          | inl shared ↦ rw shared (elim (allocate-cases p v) [
            | inl (_, out) ↦ rw out tt
            | inr (id, rest, top, got) ↦
                let fits : leb (length (get_or (opened p id rest).contents old []))
                      (length (get_or (opened p id rest).contents id []))
                    ≡ true =
                  ground (arith, same_length old last id rest top (ground (arith, shared))) in
                rw (got, fits) (copied-IsValid old last id rest top (ground (arith, shared)) within)
          ])
          | inr own ↦ rw own (
              moved-IsValid p v s t there _ (record t { length_of = t.length_of + 1 }) refl refl
                (record {
                  distinct = w.distinct;
                  sized = omega (
                    arith,
                    w.sized,
                    needed-within p.config.page_tokens t.length_of v.page_size within,
                  );
                })
                v.accounted (λ a. refl) v.stored refl v.memory)
        ])

pub append-Keeps : (p : PagedKv) (s position : ℕ) → IsValid p → Keeps (append s position p)
unfolding append
append-Keeps p s position v = elim (Option-cases (get_elem? p.tables s)) [
  | inl missing ↦ rw (missing, Keeps) tt
  | inr (t, there) ↦
      rw (there, Keeps)
        (elim (Bool-cases (position == t.length_of)) [
          | inr gap ↦ rw (gap, Keeps) tt
          | inl next ↦ rw next (elim (Bool-cases (position % p.config.page_tokens == 0)) [
            | inl start ↦ rw start (open_page-Keeps p v s t there (ground (arith, start, next)))
            | inr within ↦
                rw within (extend_page-Keeps p v s t there (ground (arith, within, next)))
          ])
        ])
]
