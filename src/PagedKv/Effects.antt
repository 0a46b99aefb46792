-- ===== src/PagedKv/Effects.antt =====
-- What each call does to what the sequences read.
use mini_llm_runtime.Base.{
  ℕ, ◌≤◌, ◌<◌, ◌≡◌, ◌≢◌, refl, sym, ap, subst, ◌∙◌, inl, inr, ◌⊎◌, Bool, true, ◌||◌, not, none,
  some, List, [], arith, leb, ltb, ◌==◌, length, get_elem?, get_elem-set_ne, get_elem-set_self,
  get_elem_lt, get_elem_some, get_or, get_or-set_ne, set, take, count, Bool-cases, Option-cases,
  out_of_range,
}
use mini_llm_runtime.PagedKv.{
  Table, PagedKv, Outcome, returned, raised, undefined, clear, share_prefix, page_at, store, read,
}
use mini_llm_runtime.PagedKv.Pages.{needed}
use mini_llm_runtime.PagedKv.Invariant.{IsValid, Keeps, holds}
use mini_llm_runtime.PagedKv.Sharing.{
  set-set, page_at-cases, clear-returned, shared_cache, inside_pages, clear-retained, stored_page,
  enough_pages,
}
use mini_llm_runtime.PagedKv.Reads.{
  IsCarried, IsUntouched, carried-read, untouched-read, get_elem-take, total-ge_pair,
}
use mini_llm_runtime.PagedKv.Isolation.{Appends, append-Appends}
use mini_llm_runtime.PagedKv.History.{Call, appends, stores, shares, clears, apply, apply-Keeps}

set-IsUntouched :
    (p q : PagedKv) (s other : ℕ) (t : Table)
    → s ≢ other
    → q.config ≡ p.config
    → q.tables ≡ set p.tables s t
    → q.contents ≡ p.contents
    → IsUntouched other p q
set-IsUntouched p q s other t apart same_config tables contents = record {
  same_config = same_config;
  entry = ap (λ ts. get_elem? ts other) tables ∙ get_elem-set_ne p.tables s other t apart;
  same_pages = λ u a found named. ap (λ xs. get_or xs a []) contents;
}

abbrev Leaves : ℕ → PagedKv → Outcome PagedKv → Type 0
Leaves other p (returned q) = IsUntouched other p q
Leaves other p (raised x) = Unit
Leaves other p undefined = Unit

clear-Leaves : (p : PagedKv) (s other : ℕ) → IsValid p → s ≢ other → Leaves other p (clear s p)
unfolding clear
clear-Leaves p s other v apart = elim (Option-cases (get_elem? p.tables s)) [
  | inl missing ↦
      rw (missing, clear, Leaves)
        (record { same_config = refl; entry = refl; same_pages = λ u a found named. refl })
  | inr (t, there) ↦
      subst (Leaves other p) (sym (clear-returned p v s t there))
        (set-IsUntouched p _ s other (record { pages = []; length_of = 0 }) apart refl refl refl)
]

abbrev IsEmptied : ℕ → PagedKv → Type 0
IsEmptied s q =
    (get_elem? q.tables s ≡ none)
    ⊎ (get_elem? q.tables s ≡ some (record { pages = []; length_of = 0 }))

abbrev Empties : ℕ → Outcome PagedKv → Type 0
Empties s (returned q) = IsEmptied s q
Empties s (raised x) = Unit
Empties s undefined = Unit

clear-Empties : (p : PagedKv) (s : ℕ) → IsValid p → Empties s (clear s p)
unfolding clear
clear-Empties p s v = elim (Option-cases (get_elem? p.tables s)) [
  | inl missing ↦ rw (missing, clear, Empties) (inl missing)
  | inr (t, there) ↦
      subst (Empties s) (sym (clear-returned p v s t there))
        (inr (get_elem-set_self p.tables s _ (get_elem_lt p.tables s t there)))
]

empty-read :
    (q : PagedKv) (s layer position : ℕ) (value : Bool)
    → (get_elem? q.tables s ≡ none)
      ⊎ (get_elem? q.tables s ≡ some (record { pages = []; length_of = 0 }))
    → read value s layer position q ≡ raised out_of_range
unfolding read page_at
empty-read q s layer position value (inl missing) = rw (missing, page_at) refl
empty-read q s layer position value (inr empty) =
    let below : leb 0 position ≡ true = ground arith in rw (empty, page_at, below) refl

-- The other sequences are untouched, and the first tokens of the target are those of the source.
abbrev Shares : ℕ → ℕ → ℕ → PagedKv → Outcome PagedKv → Type 0
Shares source target tokens p (returned q) =
    ((other : ℕ) → target ≢ other → IsUntouched other p q) × IsCarried source target tokens p q
Shares source target tokens p (raised x) = Unit
Shares source target tokens p undefined = Unit

module _ (p : PagedKv) (v : IsValid p) (source target tokens : ℕ) (from to : Table)
    (there : get_elem? p.tables source ≡ some from)
    (aimed : get_elem? p.tables target ≡ some to) where
  shared-Shares :
      (short : tokens ≤ from.length_of)
      → Shares source target tokens p
          (returned (shared_cache p v source target tokens from to there aimed short))
  shared-Shares short =
      let shared = take (needed p.config.page_tokens tokens) from.pages in
      let written =
        set-set p.tables target (record { pages = []; length_of = 0 })
          (record { pages = shared; length_of = tokens }) in
      (
        λ other apart.
            set-IsUntouched p _ target other (record { pages = shared; length_of = tokens }) apart
              refl written refl,
        record {
          same_config = refl;
          tables = (
            from,
            record { pages = shared; length_of = tokens },
            there,
            ap (λ ts. get_elem? ts target) written
                ∙ get_elem-set_self p.tables target _ (get_elem_lt p.tables target to aimed),
            short,
            omega arith,
            λ i small.
                let (page, named) = get_elem_some from.pages i (
                  omega (
                    arith,
                    small,
                    enough_pages p v source target tokens from to there aimed short,
                  )) in
                (
                  page,
                  page,
                  named,
                  get_elem-take (needed p.config.page_tokens tokens) from.pages i small ∙ named,
                  refl,
                ),
          );
        },
      )

share_prefix-Shares :
    (source target tokens : ℕ) (p : PagedKv)
    → IsValid p
    → Shares source target tokens p (share_prefix source target tokens p)
unfolding share_prefix
share_prefix-Shares source target tokens p v = elim (Option-cases (get_elem? p.tables source)) [
  | inl missing ↦ rw (missing, Shares) tt
  | inr (from, there) ↦
      rw (there, Shares)
        (elim (Option-cases (get_elem? p.tables target)) [
          | inl missing ↦ rw (missing, Shares) tt
          | inr (to, aimed) ↦
              rw (aimed, Shares)
                (elim (Bool-cases (source == target || ltb from.length_of tokens)) [
                  | inl bad ↦ rw (bad, Shares) tt
                  | inr good ↦
                      let short : tokens ≤ from.length_of = ground (arith, good) in
                      rw
                        (
                          good,
                          inside_pages p v source target tokens from to there aimed short,
                          clear-retained p v source target tokens from to there aimed short,
                          Shares,
                        )
                        (shared-Shares p v source target tokens from to there aimed short)
                ])
        ])
]

-- The page that is written has one holder, so no other sequence reads it.
store-Leaves :
    {F : Type 0} (float_to_half : F → ℕ) (s layer position other : ℕ) (key value : List F)
    (p : PagedKv)
    → IsValid p
    → s ≢ other
    → Leaves other p (store float_to_half s layer position key value p)
unfolding store
store-Leaves float_to_half s layer position other key value p v apart =
    elim (page_at-cases s layer position p v) [
      | inr out ↦ rw (out, Leaves) tt
      | inl (t, id, there, own, low, found) ↦
          rw (found, Leaves)
            (elim (Bool-cases (
              not (get_or p.refs id 0 == 1)
              || not (length key == p.config.kv_width)
              || not (length value == p.config.kv_width))) [
                | inl bad ↦ rw (bad, Leaves) tt
                | inr good ↦
                    let (page, written, long) =
                      stored_page float_to_half p v s t id layer position key value there own low
                        (ground (arith, good)) (ground (arith, good)) in
                    rw (good, written, Leaves)
                      (record {
                        same_config = refl;
                        entry = refl;
                        same_pages = λ u a used named.
                            let one : get_or p.refs id 0 ≡ 1 = ground (arith, good) in
                            let away : id ≢ a = λ same. absurd (
                              omega (
                                arith,
                                v.held id,
                                one,
                                own,
                                named,
                                ap (λ x. count x u.pages) same,
                                total-ge_pair (holds id) p.tables s other t u there used apart,
                              )) in
                            get_or-set_ne p.contents id a _ [] away;
                      })
              ])
    ]

abbrev pub SameReads : ℕ → PagedKv → PagedKv → Type 0
SameReads s p q =
    (value : Bool) (layer position : ℕ)
    → read value s layer position q ≡ read value s layer position p

module _ {F : Type 0} (float_to_half : F → ℕ) where
  -- The sequence that a call changes.
  abbrev pub changed : Call F → ℕ
  changed (appends s position) = s
  changed (stores s layer position key value) = s
  changed (shares source target tokens) = target
  changed (clears s) = s

  -- What the changed sequence reads then; of a store, nothing is said.
  abbrev pub Effect : Call F → PagedKv → PagedKv → Type 0
  Effect (appends s position) p q =
      (value : Bool) (layer i : ℕ) → i < position → read value s layer i q ≡ read value s layer i p
  Effect (stores s layer position key value) p q = Unit
  Effect (shares source target tokens) p q =
      (value : Bool) (layer i : ℕ)
      → i < tokens
      → read value target layer i q ≡ read value source layer i p
  Effect (clears s) p q =
      (value : Bool) (layer i : ℕ) → read value s layer i q ≡ raised out_of_range

  call-IsUntouched :
      (call : Call F) (p q : PagedKv)
      → IsValid p
      → apply float_to_half call p ≡ returned q
      → (other : ℕ) → changed call ≢ other
      → IsUntouched other p q
  call-IsUntouched (appends s position) p q v e other apart =
      (subst (Appends s position p) e (append-Appends p s position v)).0 other apart
  call-IsUntouched (stores s layer position key value) p q v e other apart =
      subst (Leaves other p) e
        (store-Leaves float_to_half s layer position other key value p v apart)
  call-IsUntouched (shares source target tokens) p q v e other apart =
      (subst (Shares source target tokens p) e (share_prefix-Shares source target tokens p v)).0
        other apart
  call-IsUntouched (clears s) p q v e other apart =
      subst (Leaves other p) e (clear-Leaves p s other v apart)

  call-Effect :
      (call : Call F) (p q : PagedKv)
      → IsValid p
      → IsValid q
      → apply float_to_half call p ≡ returned q
      → Effect call p q
  call-Effect (appends s position) p q v v' e =
      carried-read p q s s position v v'
        (subst (Appends s position p) e (append-Appends p s position v)).1
  call-Effect (stores s layer position key value) p q v v' e = tt
  call-Effect (shares source target tokens) p q v v' e =
      carried-read p q source target tokens v v'
        (subst (Shares source target tokens p) e (share_prefix-Shares source target tokens p v)).1
  call-Effect (clears s) p q v v' e =
      λ value layer i. empty-read q s layer i value (subst (Empties s) e (clear-Empties p s v))

  -- A call on a valid cache that returns leaves every key and value of the sequences that it does not
  -- change as it was, though they share pages. A sequence that is appended to reads as before below
  -- the new position, whether its page was copied or not; the target of `share_prefix` reads as the
  -- source does below the shared length; and nothing can be read of a cleared sequence.
  pub call-IsIsolated :
      (call : Call F) (p q : PagedKv)
      → IsValid p
      → apply float_to_half call p ≡ returned q
      → ((other : ℕ) → changed call ≢ other → SameReads other p q) × Effect call p q
  call-IsIsolated call p q v e =
      let v' : IsValid q = subst Keeps e (apply-Keeps float_to_half call p v) in
      (
        λ other apart. untouched-read p q other v v' (call-IsUntouched call p q v e other apart),
        call-Effect call p q v v' e,
      )
