-- ===== src/PrefixIndex/Tidy.antt =====
-- The index with its entries in order and its count of tokens, after each operation.
use mini_llm_runtime.Base.{
  ℕ, ◌+◌, ◌<◌, ◌≡◌, refl, sym, ap, ◌∙◌, subst, inl, inr, none, some, List, [], arith, length, total,
  ok,
}
use mini_llm_runtime.PrefixIndex.{
  at, construct, PrefixEntry, PrefixIndex, find_entry, put_entry, erase_entry, touch, insert, erase,
}
use mini_llm_runtime.PrefixIndex.Invariant.{construct-IsValid, IsAligned, IsValid, insert_lem}
use mini_llm_runtime.PrefixIndex.Removal.{erase_lem}
use mini_llm_runtime.PrefixIndex.Reuse.{IsTouched}
use mini_llm_runtime.PrefixIndex.Maps.{find_entry-sequence}
use mini_llm_runtime.PrefixIndex.Entries.{
  IsAscending, put_entry-IsAscending, erase_entry-IsAscending, total-put_new, total-put_old,
  total-erase,
}

-- The invariant of the index with what the engine reads off the entries: they stand in the order
-- of their sequences, and `token_count` is the number of their tokens.
pub record IsTidy (p : PrefixIndex) : Type 0 where
  pub valid : IsValid p
  pub ascending : IsAscending p.entries
  pub counted : p.token_count ≡ total (λ e. length e.tokens) p.entries

module _ (e : PrefixEntry) (p : PrefixIndex) (t : IsTidy p) where
  -- What `insert` does to a tidy index.
  pub insert-IsTidy :
      find_entry e.sequence p.entries ≡ none
      → IsAligned p.block_size e
      → (q : PrefixIndex) × (insert e p ≡ ok q)
        × IsTidy q
        × (q.block_size ≡ p.block_size)
        × (q.entries ≡ put_entry (touch (p.clock + 1) e) p.entries)
  insert-IsTidy fresh a =
      let (q, inserted, valid, has, same, count) = insert_lem e p t.valid fresh a in
      (
        q,
        inserted,
        record {
          valid = valid;
          ascending =
              subst IsAscending (sym has)
                (put_entry-IsAscending (touch (p.clock + 1) e) p.entries t.ascending);
          counted = omega (
            arith,
            count,
            t.counted,
            ap (total (λ x. length x.tokens)) has,
            total-put_new (λ x. length x.tokens) (touch (p.clock + 1) e) p.entries fresh,
          );
        },
        same,
        has,
      )

  -- What `erase` does to a tidy index.
  pub erase-IsTidy :
      (s : ℕ)
      → find_entry s p.entries ≡ some e
      → (q : PrefixIndex) × (erase s p ≡ ok (e, q))
        × IsTidy q
        × (q.block_size ≡ p.block_size)
        × (q.entries ≡ erase_entry s p.entries)
  erase-IsTidy s found =
      let (q, erased, valid, left, same, count) = erase_lem s e p t.valid found in
      (
        q,
        erased,
        record {
          valid = valid;
          ascending =
              subst IsAscending (sym left) (erase_entry-IsAscending s p.entries t.ascending);
          counted = omega (
            arith,
            count,
            t.counted,
            ap (total (λ x. length x.tokens)) left,
            total-erase (λ x. length x.tokens) s p.entries e t.ascending found,
          );
        },
        same,
        left,
      )

-- A sum over the entries that no time enters into.
total-touch :
    (f : PrefixEntry → ℕ) (now : ℕ) (e : PrefixEntry) (es : List PrefixEntry)
    → f (touch now e) ≡ f e
    → IsAscending es
    → find_entry e.sequence es ≡ some e
    → total f (put_entry (touch now e) es) ≡ total f es
total-touch f now e es same a found =
    omega (arith, same, total-put_old f (touch now e) e es a found)

-- `match` keeps a tidy index tidy, and every sum over the entries that no time enters into.
pub IsTouched-IsTidy :
    (p q : PrefixIndex)
    → IsTidy p
    → IsValid q
    → IsTouched p q
    → IsTidy q
      × (q.block_size ≡ p.block_size)
      × ((f : PrefixEntry → ℕ)
          → ((now : ℕ) (e : PrefixEntry) → f (touch now e) ≡ f e)
          → total f q.entries ≡ total f p.entries)
IsTouched-IsTidy p q t v (inl e) = (
  subst IsTidy (sym e) t,
  ap (λ (i : PrefixIndex). i.block_size) e,
  λ f same. ap (λ (i : PrefixIndex). total f i.entries) e,
)
IsTouched-IsTidy p q t v (inr (s, now, e, found, shape)) = (
  record {
    valid = v;
    ascending =
        subst IsAscending (sym entries) (put_entry-IsAscending (touch now e) p.entries t.ascending);
    counted =
        ap (λ (i : PrefixIndex). i.token_count) shape
        ∙ t.counted
        ∙ sym (kept (λ x. length x.tokens) λ n x. refl);
  },
  ap (λ (i : PrefixIndex). i.block_size) shape,
  kept,
)
  where
    entries : q.entries ≡ put_entry (touch now e) p.entries
    entries = ap (λ (i : PrefixIndex). i.entries) shape

    own : find_entry e.sequence p.entries ≡ some e
    own = ap (λ k. find_entry k p.entries) (find_entry-sequence s p.entries e found) ∙ found

    kept :
        (f : PrefixEntry → ℕ)
        → ((n : ℕ) (x : PrefixEntry) → f (touch n x) ≡ f x)
        → total f q.entries ≡ total f p.entries
    kept f same = ap (total f) entries ∙ total-touch f now e p.entries (same now e) t.ascending own

abbrev pub empty_index : ℕ → PrefixIndex
empty_index n = record { block_size = n; token_count = 0; clock = 0; roots = []; entries = [] }

-- A new index is tidy and empty.
pub construct-IsTidy : (n : ℕ) → 0 < n → (construct n ≡ ok (empty_index n)) × IsTidy (empty_index n)
unfolding construct
construct-IsTidy n h =
    let made : construct n ≡ ok (empty_index n) = ground arith in
    let (p, made', v, _) = construct-IsValid n h in
    (made, record { valid = subst IsValid (cc) v; ascending = tt; counted = refl })

pub at-found :
    (s : ℕ) (p : PrefixIndex) (x : PrefixEntry) → find_entry s p.entries ≡ some x → at s p ≡ ok x
unfolding at
at-found s p x found = rw (found, at) refl
