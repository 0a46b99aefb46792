-- ===== src/PagedKv/History.antt =====
-- The cache from its construction on, through any calls.
use mini_llm_runtime.Base.{
  ℕ, zero, suc, ◌+◌, ◌<◌, ◌≡◌, ◌≢◌, refl, sym, ap, subst, ◌∙◌, inl, inr, Bool, List, [], ◌∷◌, arith,
  length, length-replicate, get_or, get_or-replicate, replicate, count, All, All-map, total-zero,
  Result-cases, ok, u64_mod,
}
use mini_llm_runtime.BlockPool.{push_ids}
use mini_llm_runtime.BlockPool.Slots.{IsAccounted, zeros}
use mini_llm_runtime.BlockPool.Ledger.{initial-IsAccounted}
use mini_llm_runtime.PagedKv.{
  KvConfig, Table, PagedKv, Outcome, returned, undefined, multiply_sizes, page_elements, push_pages,
  construct, append, store, share_prefix, clear, read, used_pages,
}
use mini_llm_runtime.PagedKv.Pages.{needed-zero}
use mini_llm_runtime.PagedKv.Invariant.{IsPaged, IsValid, Keeps, holds, elements_of}
use mini_llm_runtime.PagedKv.Appends.{append-Keeps}
use mini_llm_runtime.PagedKv.Sharing.{clear-Keeps, read-defined, share_prefix-Keeps, store-Keeps}

pub data Call (F : Type 0) : Type 0 where
  appends : ℕ → ℕ → Call F
  stores : ℕ → ℕ → ℕ → List F → List F → Call F
  shares : ℕ → ℕ → ℕ → Call F
  clears : ℕ → Call F

module _ {F : Type 0} (float_to_half : F → ℕ) where
  abbrev pub apply : Call F → PagedKv → Outcome PagedKv
  apply (appends s position) p = append s position p
  apply (stores s layer position key value) p = store float_to_half s layer position key value p
  apply (shares source target tokens) p = share_prefix source target tokens p
  apply (clears s) p = clear s p

  -- The caches that calls lead to; one that throws changes nothing.
  pub data Reach (p : PagedKv) : PagedKv → Type 0 where
    here : Reach p p
    later : {q r : PagedKv} → Reach p q → (c : Call F) → apply c q ≡ returned r → Reach p r

  -- No call has undefined behaviour, and one that returns leaves the cache valid.
  pub apply-Keeps : (c : Call F) (p : PagedKv) → IsValid p → Keeps (apply c p)
  apply-Keeps (appends s position) p v = append-Keeps p s position v
  apply-Keeps (stores s layer position key value) p v =
      store-Keeps float_to_half s layer position key value p v
  apply-Keeps (shares source target tokens) p v = share_prefix-Keeps source target tokens p v
  apply-Keeps (clears s) p v = clear-Keeps s p v

  pub Reach-IsValid : {p q : PagedKv} → Reach p q → IsValid p → IsValid q
  Reach-IsValid here v = v
  Reach-IsValid (later r c e) v = subst Keeps e (apply-Keeps c _ (Reach-IsValid r v))

push_pages-push_ids : (n : ℕ) (free : List ℕ) → push_pages n free ≡ push_ids n free
unfolding push_pages push_ids
push_pages-push_ids zero free = refl
push_pages-push_ids (suc n) free = push_pages-push_ids n (n ∷ free)

All-replicate : {A : Type 0} (P : A → Type 0) (n : ℕ) (a : A) → P a → All P (replicate n a)
All-replicate P zero a h = tt
All-replicate P (suc n) a h = (h, All-replicate P n a h)

zeros-unheld : (refs : List ℕ) → ((a : ℕ) → get_or refs a 0 ≡ 0) → zeros refs ≡ length refs
zeros-unheld [] h = refl
zeros-unheld (r ∷ refs) h = ground (arith, h 0, zeros-unheld refs (λ a. h (suc a)))

-- The cache that the constructor builds.
abbrev built : KvConfig → ℕ → PagedKv
built c elements = record {
  config = c;
  elements_per_page = elements;
  refs = replicate c.pages 0;
  contents = replicate c.pages [];
  tables = replicate c.sequences (record { pages = []; length_of = 0 });
  free = push_pages c.pages [];
  copy_on_writes = 0;
}

page_elements-page_tokens : (c : KvConfig) (n : ℕ) → page_elements c ≡ ok n → 0 < c.page_tokens
unfolding page_elements multiply_sizes
page_elements-page_tokens c n h = ground (arith, h)

page_elements-elements_of : (c : KvConfig) (n : ℕ) → page_elements c ≡ ok n → n ≡ elements_of c
unfolding page_elements multiply_sizes
page_elements-elements_of c n h = ground (arith, h)

built-IsValid :
    (c : KvConfig) (n : ℕ)
    → 0 < c.page_tokens
    → n ≡ elements_of c
    → c.sequences + 1 < u64_mod
    → IsValid (built c n)
built-IsValid c n some_tokens whole few = record {
  page_size = some_tokens;
  accounted =
      subst (IsAccounted (replicate c.pages 0)) (sym (push_pages-push_ids c.pages []))
        (initial-IsAccounted c.pages);
  held = λ a.
      get_or-replicate {A = ℕ} c.pages a 0
      ∙ sym (
          total-zero (holds a) (replicate c.sequences (record { pages = []; length_of = 0 }))
            (All-replicate (λ (t : Table). holds a t ≡ 0) c.sequences _ refl));
  paged =
      All-replicate (IsPaged c.page_tokens) c.sequences _ (record {
        distinct = λ a. omega arith;
        sized = sym (needed-zero c.page_tokens some_tokens);
      });
  stored = length-replicate c.pages [] ∙ sym (length-replicate c.pages 0);
  elements = whole;
  memory = record {
    whole = λ a. inl (ap length (get_or-replicate {A = List ℕ} c.pages a []));
    backed = λ a k. absurd (omega (arith, k, get_or-replicate {A = ℕ} c.pages a 0));
  };
  few =
      omega (
        arith,
        length-replicate {A = Table} c.sequences (record { pages = []; length_of = 0 }),
        few,
      );
}

construct-IsValid :
    (c : KvConfig) (p : PagedKv) → construct c ≡ ok p → c.sequences + 1 < u64_mod → IsValid p
unfolding construct
construct-IsValid c p h few = elim (Result-cases (page_elements c)) [
  | inl (n, good) ↦
      let same : built c n ≡ p = ground (arith, rw good at h) in
      subst IsValid same (
        built-IsValid c n (page_elements-page_tokens c n good) (page_elements-elements_of c n good)
          few)
  | inr (x, bad) ↦ absurd (cc (rw bad at h))
]

-- From a cache that the constructor builds, through any calls, those that throw included, the cache
-- is valid: the count of a page is how many tables name it, a page is free, once, if and only if
-- its count is zero, each table has the pages for its length, each once, and a page in use has its
-- memory. No call then has undefined behaviour, nor has `key` or `value`: every index and every range
-- is inside its page or its vector. And if every table is empty, no page is in use. The number of
-- sequences is below 2 ^ 64 - 1.
pub reached-IsValid :
    {F : Type 0} (float_to_half : F → ℕ) (c : KvConfig) (p q : PagedKv)
    → construct c ≡ ok p
    → c.sequences + 1 < u64_mod
    → Reach float_to_half p q
    → IsValid q
      × ((call : Call F) → apply float_to_half call q ≢ undefined)
      × ((value : Bool) (s layer position : ℕ) → read value s layer position q ≢ undefined)
      × (All (λ (t : Table). t.pages ≡ []) q.tables → used_pages q ≡ 0)
reached-IsValid float_to_half c p q built_p few r =
    let v = Reach-IsValid float_to_half r (construct-IsValid c p built_p few) in
    (
      v,
      λ call stuck. subst Keeps stuck (apply-Keeps float_to_half call q v),
      λ value s layer position. read-defined value s layer position q v,
      λ empty.
          let unheld : (a : ℕ) → get_or q.refs a 0 ≡ 0 = λ a.
            v.held a
            ∙ total-zero (holds a) q.tables (All-map q.tables (λ t e. ap (count a) e) empty) in
          omega (arith, v.accounted.sized, zeros-unheld q.refs unheld),
    )
