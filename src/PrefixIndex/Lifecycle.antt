-- ===== src/PrefixIndex/Lifecycle.antt =====
-- An entry's way through the index: the insertion, the erasure that undoes it, and which entry is
-- evicted.
use Prim.Native.String.{String}
use mini_llm_runtime.Base.{
  ℕ, ◌+◌, ◌≤◌, ◌≡◌, ◌≢◌, refl, sym, ap, ◌∙◌, inl, inr, ◌⊎◌, none, some, List, [], ◌∷◌, arith, ltb,
  ◌==◌, ==_self, if◌then◌else◌, Bool-cases, In, ok, subst,
}
use mini_llm_runtime.PrefixIndex.{
  PrefixEntry, PrefixIndex, find_root, find_entry, put_entry, erase_entry, touch, insert, erase,
  least_entry, least_recently_used,
}
use mini_llm_runtime.PrefixIndex.Maps.{find_entry-put_entry, find_entry-erase_entry}
use mini_llm_runtime.PrefixIndex.Walk.{owns_child}
use mini_llm_runtime.PrefixIndex.Invariant.{continues, IsAligned, IsValid, insert-IsValid}
use mini_llm_runtime.PrefixIndex.Removal.{erase-IsValid}

-- Both indexes have the same entries and the same ownership in the trie of each namespace.
pub record IsSameContent (p q : PrefixIndex) : Type 0 where
  pub entries : (k : ℕ) → find_entry k p.entries ≡ find_entry k q.entries
  pub tries :
      (k : ℕ) (ns : String) (path : List ℕ)
      → owns_child k (find_root ns p.roots) path ≡ owns_child k (find_root ns q.roots) path

module _ (e : PrefixEntry) (p : PrefixIndex) (v : IsValid p)
    (fresh : find_entry e.sequence p.entries ≡ none) where
  undone :
      (now k : ℕ)
      → find_entry k (erase_entry e.sequence (put_entry (touch now e) p.entries))
        ≡ find_entry k p.entries
  undone now k = ground (
    arith,
    find_entry-erase_entry k e.sequence (put_entry (touch now e) p.entries),
    find_entry-put_entry k (touch now e) p.entries,
    fresh,
  )

  -- In a valid index an aligned entry with a new sequence is accepted; erasing it gives the entry
  -- back with its time, and a valid index with the entries and the ownership of before.
  pub erase-insert :
      IsAligned p.block_size e
      → (q r : PrefixIndex) × (insert e p ≡ ok q)
        × (erase e.sequence q ≡ ok (touch (p.clock + 1) e, r))
        × IsValid r
        × IsSameContent r p
  erase-insert a =
      let (q, inserted, w, has) = insert-IsValid e p v fresh a in
      let there : find_entry e.sequence q.entries ≡ some (touch (p.clock + 1) e) =
        ap (find_entry e.sequence) has
        ∙ find_entry-put_entry e.sequence (touch (p.clock + 1) e) p.entries
        ∙ rw (==_self e.sequence) refl in
      let (r, erased, u, left) = erase-IsValid e.sequence (touch (p.clock + 1) e) q w there in
      let same : (k : ℕ) → find_entry k r.entries ≡ find_entry k p.entries = λ k.
        ap (find_entry k) left
        ∙ ap (λ es. find_entry k (erase_entry e.sequence es)) has
        ∙ undone (p.clock + 1) k in
      (
        q,
        r,
        inserted,
        erased,
        u,
        record {
          entries = same;
          tries = λ k ns path.
              u.owned k ns path ∙ ap (continues ns path) (same k) ∙ sym (v.owned k ns path);
        },
      )

abbrev older_of : PrefixEntry → PrefixEntry → PrefixEntry
older_of best e = if ltb e.last_used best.last_used then e else best

older_of-cases :
    (best e : PrefixEntry)
    → ((older_of best e ≡ e) × (e.last_used ≤ best.last_used))
      ⊎ ((older_of best e ≡ best) × (best.last_used ≤ e.last_used))
older_of-cases best e = elim (Bool-cases (ltb e.last_used best.last_used)) [
  | inl older ↦ inl (rw older refl, ground arith)
  | inr newer ↦ inr (rw newer refl, ground arith)
]

least_entry-In : (best : PrefixEntry) (es : List PrefixEntry) → In (least_entry best es) (best ∷ es)
unfolding least_entry
least_entry-In best [] = inl refl
least_entry-In best (e ∷ es) = elim (least_entry-In (older_of best e) es) [
  | inr later ↦ inr (inr later)
  | inl chosen ↦ elim (older_of-cases best e) [
    | inl (eq, _) ↦ inr (inl (chosen ∙ eq))
    | inr (eq, _) ↦ inl (chosen ∙ eq)
  ]
]

least_entry-le :
    (best : PrefixEntry) (es : List PrefixEntry) (f : PrefixEntry)
    → In f (best ∷ es)
    → (least_entry best es).last_used ≤ f.last_used
unfolding least_entry
least_entry-le best [] f (inl h) = rw h (omega arith)
least_entry-le best [] f (inr h) = absurd h
least_entry-le best (e ∷ es) f (inr (inr h)) = least_entry-le (older_of best e) es f (inr h)
least_entry-le best (e ∷ es) f (inr (inl h)) =
    rw h (ground (arith, least_entry-le (older_of best e) es (older_of best e) (inl refl)))
least_entry-le best (e ∷ es) f (inl h) =
    rw h (ground (arith, least_entry-le (older_of best e) es (older_of best e) (inl refl)))

find_entry-In :
    (e : PrefixEntry) (es : List PrefixEntry)
    → In e es
    → (f : PrefixEntry) × (find_entry e.sequence es ≡ some f)
unfolding find_entry
find_entry-In e [] h = absurd h
find_entry-In e (x ∷ es) h = elim (Bool-cases (x.sequence == e.sequence)) [
  | inl hit ↦ (x, rw hit refl)
  | inr miss ↦ elim h [
    | inl same ↦ absurd (ground (arith, ap (λ (y : PrefixEntry). y.sequence) same))
    | inr later ↦ let (f, g) = find_entry-In e es later in (f, rw miss g)
  ]
]

abbrev pub Evicted : PrefixIndex → Type 0
Evicted p =
    (e f : PrefixEntry) × (q : PrefixIndex) × (least_recently_used p ≡ some e.sequence)
    × In e p.entries
    × ((x : PrefixEntry) → In x p.entries → e.last_used ≤ x.last_used)
    × (erase e.sequence p ≡ ok (f, q))
    × IsValid q

evict_cases :
    (p : PrefixIndex) (es : List PrefixEntry)
    → IsValid p
    → p.entries ≡ es
    → p.entries ≢ []
    → Evicted p
unfolding least_recently_used
evict_cases p [] v h some_entry = absurd (some_entry h)
evict_cases p (e ∷ es) v h some_entry =
    let oldest = least_entry e es in
    let present = subst (In oldest) (sym h) (least_entry-In e es) in
    let (f, found) = find_entry-In oldest p.entries present in
    let (q, erased, w, _) = erase-IsValid oldest.sequence f p v found in
    (
      oldest,
      f,
      q,
      rw (h, least_recently_used) refl,
      present,
      λ x x_in. least_entry-le e es x (subst (In x) h x_in),
      erased,
      w,
    )

-- While there is an entry, `least_recently_used` names one than which none was used longer ago;
-- its erasure succeeds, in a valid index, and leaves it valid.
pub evict-oldest : (p : PrefixIndex) → IsValid p → p.entries ≢ [] → Evicted p
evict-oldest p v some_entry = evict_cases p p.entries v refl some_entry
