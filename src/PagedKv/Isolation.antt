-- ===== src/PagedKv/Isolation.antt =====
-- `append` leaves what is readable of every sequence as it was.
use mini_llm_runtime.Base.{
  ℕ, ◌+◌, ◌-◌, ◌%◌, ◌<◌, ◌≡◌, ◌≢◌, refl, sym, ap, subst, ◌∙◌, inl, inr, some, List, [], ◌∷◌, ◌++◌,
  arith, true, false, leb, ltb, ◌==◌, length, get_elem?, get_elem-set_ne, get_elem-set_self,
  get_elem_lt, get_elem_some, get_or, get_or-set_ne, get_or-set_self, set, count, Bool-cases,
  Option-cases, ℕ_discrete,
}
use mini_llm_runtime.BlockPool.Slots.{IsAccounted, head-lt}
use mini_llm_runtime.PagedKv.{
  Table, PagedKv, Outcome, returned, raised, undefined, opened, put_table, open_page, replace_last,
  extend_page, append,
}
use mini_llm_runtime.PagedKv.Pages.{count_of_elem, needed, needed-within}
use mini_llm_runtime.PagedKv.Invariant.{IsValid, table-IsPaged, holds-le, named-lt, top-unheld}
use mini_llm_runtime.PagedKv.Appends.{
  opened-contents, allocate-cases, length-opened_contents, copied-same, same_length,
}
use mini_llm_runtime.PagedKv.Reads.{IsCarried, IsUntouched, get_elem-append}

-- The other sequences are untouched, and the first tokens of `s` are as before.
abbrev pub Appends : ℕ → ℕ → PagedKv → Outcome PagedKv → Type 0
Appends s position p (returned q) =
    ((other : ℕ) → s ≢ other → IsUntouched other p q) × IsCarried s s position p q
Appends s position p (raised x) = Unit
Appends s position p undefined = Unit

module _ (p : PagedKv) (v : IsValid p) (s : ℕ) (t : Table)
    (there : get_elem? p.tables s ≡ some t) where
  inside-s : s < length p.tables
  inside-s = get_elem_lt p.tables s t there

  -- The page of a token in the table.
  page_of :
      (i : ℕ)
      → i < needed p.config.page_tokens t.length_of
      → (id : ℕ) × (get_elem? t.pages i ≡ some id)
  page_of i small =
      get_elem_some t.pages i (omega (arith, small, (table-IsPaged p v s t there).sized))

  module _ (id : ℕ) (rest : List ℕ) (top : p.free ≡ id ∷ rest) where
    -- A page of any table is not the one on top.
    top-apart :
        (other : ℕ) (u : Table) (a : ℕ)
        → get_elem? p.tables other ≡ some u
        → 0 < count a u.pages
        → id ≢ a
    top-apart other u a found named same = absurd (
        omega (
          arith,
          holds-le p v other u found a,
          named,
          ap (λ x. get_or p.refs x 0) same,
          top-unheld p v other u found id rest top,
        ))

    open-Appends : Appends s t.length_of p (
        returned (
          put_table s
            (record { pages = t.pages ++ id ∷ []; length_of = t.length_of + 1 })
            (opened p id rest)))
    open-Appends = (
      λ other apart. record {
        same_config = refl;
        entry = get_elem-set_ne p.tables s other _ apart;
        same_pages =
            λ u a found named. opened-contents p id a rest (top-apart other u a found named);
      },
      record {
        same_config = refl;
        tables = (
          t,
          record { pages = t.pages ++ id ∷ []; length_of = t.length_of + 1 },
          there,
          get_elem-set_self p.tables s _ inside-s,
          omega arith,
          omega arith,
          λ i small.
              let (old, named) = page_of i small in
              (
                old,
                old,
                named,
                get_elem-append t.pages (id ∷ []) i (get_elem_lt t.pages i old named) ∙ named,
                opened-contents p id old rest
                    (top-apart s t old there (count_of_elem t.pages i old named)),
              ),
        );
      },
    )

    copy-Appends :
        (old : ℕ)
        → get_elem? t.pages (length t.pages - 1) ≡ some old
        → 1 < get_or p.refs old 0
        → Appends s t.length_of p (returned (replace_last s t old id (opened p id rest)))
    copy-Appends old last shared =
        let inside : id < length (opened p id rest).contents = omega (
          arith,
          length-opened_contents p id rest,
          v.stored,
          head-lt p.refs rest id (subst (IsAccounted p.refs) top v.accounted),
        ) in
        (
          λ other apart. record {
            same_config = refl;
            entry = get_elem-set_ne p.tables s other _ apart;
            same_pages = λ u a found named.
                let away = top-apart other u a found named in
                get_or-set_ne (opened p id rest).contents id a _ [] away
                ∙ opened-contents p id a rest away;
          },
          record {
            same_config = refl;
            tables = (
              t,
              _,
              there,
              get_elem-set_self p.tables s _ inside-s,
              omega arith,
              omega arith,
              λ i small.
                  let (page, named) = page_of i small in
                  let away = top-apart s t page there (count_of_elem t.pages i page named) in
                  elim (ℕ_discrete (length t.pages - 1) i) [
                    | yes same ↦ (
                      old,
                      id,
                      subst (λ j. get_elem? t.pages j ≡ some old) same last,
                      subst (λ j. get_elem? (set t.pages (length t.pages - 1) id) j ≡ some id) same
                          (get_elem-set_self t.pages (length t.pages - 1) id
                            (get_elem_lt t.pages (length t.pages - 1) old last)),
                      get_or-set_self (opened p id rest).contents id _ [] inside
                          ∙ copied-same p v s t there old last id rest top shared
                          ∙ opened-contents p id old rest (
                              top-apart s t old there
                                (count_of_elem t.pages (length t.pages - 1) old last)),
                    )
                    | no differ ↦ (
                      page,
                      page,
                      named,
                      get_elem-set_ne t.pages (length t.pages - 1) i id differ ∙ named,
                      get_or-set_ne (opened p id rest).contents id page _ [] away
                          ∙ opened-contents p id page rest away,
                    )
                  ],
            );
          },
        )

  -- The page is written on as it is.
  stay-Appends :
      Appends s t.length_of p (returned (put_table s (record t { length_of = t.length_of + 1 }) p))
  stay-Appends = (
    λ other apart. record {
      same_config = refl;
      entry = get_elem-set_ne p.tables s other _ apart;
      same_pages = λ u a found named. refl;
    },
    record {
      same_config = refl;
      tables = (
        t,
        _,
        there,
        get_elem-set_self p.tables s _ inside-s,
        omega arith,
        omega arith,
        λ i small. let (page, named) = page_of i small in (page, page, named, named, refl),
      );
    },
  )

  open_page-Appends : Appends s t.length_of p (open_page s t p)
  unfolding open_page
  open_page-Appends = elim (allocate-cases p v) [
    | inl (_, out) ↦ rw (out, Appends) tt
    | inr (id, rest, top, got) ↦ rw (got, Appends) (open-Appends id rest top)
  ]

  extend_page-Appends :
      t.length_of % p.config.page_tokens ≢ 0 → Appends s t.length_of p (extend_page s t p)
  unfolding extend_page
  extend_page-Appends within =
      let w = table-IsPaged p v s t there in
      let (old, last) = get_elem_some t.pages (length t.pages - 1) (
        omega
          (arith, w.sized, needed-within p.config.page_tokens t.length_of v.page_size within)) in
      let is_page : leb (length p.refs) old ≡ false =
        ground (
          arith,
          named-lt p v s t there old (count_of_elem t.pages (length t.pages - 1) old last),
        ) in
      rw (last, is_page, Appends)
        (elim (Bool-cases (ltb 1 (get_or p.refs old 0))) [
          | inl shared ↦
              rw (shared, Appends)
                (elim (allocate-cases p v) [
                  | inl (_, out) ↦ rw (out, Appends) tt
                  | inr (id, rest, top, got) ↦
                      let fits : leb (length (get_or (opened p id rest).contents old []))
                            (length (get_or (opened p id rest).contents id []))
                          ≡ true =
                        ground (
                          arith,
                          same_length p v s t there old last id rest top (ground (arith, shared)),
                        ) in
                      rw (got, fits, Appends)
                        (copy-Appends id rest top old last (ground (arith, shared)))
                ])
          | inr own ↦ rw (own, Appends) stay-Appends
        ])

pub append-Appends :
    (p : PagedKv) (s position : ℕ) → IsValid p → Appends s position p (append s position p)
unfolding append
append-Appends p s position v = elim (Option-cases (get_elem? p.tables s)) [
  | inl missing ↦ rw (missing, Appends) tt
  | inr (t, there) ↦
      rw (there, Appends)
        (elim (Bool-cases (position == t.length_of)) [
          | inr gap ↦ rw (gap, Appends) tt
          | inl next ↦
              let same : position ≡ t.length_of = ground (arith, next) in
              rw (next, Appends)
                (elim (Bool-cases (position % p.config.page_tokens == 0)) [
                  | inl start ↦ rw start (
                      subst (λ n. Appends s n p (open_page s t p)) (sym same)
                        (open_page-Appends p v s t there))
                  | inr within ↦ rw within (
                      subst (λ n. Appends s n p (extend_page s t p)) (sym same)
                        (extend_page-Appends p v s t there (ground (arith, within, next))))
                ])
        ])
]
