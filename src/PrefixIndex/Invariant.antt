-- ===== src/PrefixIndex/Invariant.antt =====
-- The invariant of the index: the trie says of each path which entries continue it, and the
-- operations that change the trie keep that.
use Prim.Native.String.{String}
use text.Mathlib.Text.{◌==◌ as str_eq}
use text.Mathlib.TextEquality.{eq_iff}
use mini_llm_runtime.Base.{
  ℕ, ◌+◌, ◌/◌, ◌%◌, ◌<◌, ◌≡◌, refl, sym, ap, ◌∙◌, subst, inl, inr, Bool, true, false, ◌&&◌, Option,
  none, some, List, [], ◌∷◌, ◌++◌, arith, ◌==◌, ==_self, if◌then◌else◌, Bool-cases, is_empty,
  length, ok,
}
use mini_llm_runtime.PrefixIndex.{
  Node, PrefixEntry, PrefixIndex, or_empty, insert_path, find_root, put_root, find_entry, put_entry,
  construct, insert, touch,
}
use mini_llm_runtime.PrefixIndex.Maps.{find_root-put_root, find_entry-put_entry}
use mini_llm_runtime.PrefixIndex.Walk.{
  owns, owns_child, peopled_child, is_prefix, owns-insert_path, peopled-insert_path, owns-or_empty,
  below_child,
}

-- Whether the entry, if there is one, is of the namespace and continues the path.
abbrev pub continues : String → List ℕ → Option PrefixEntry → Bool
continues ns path none = false
continues ns path (some e) = str_eq e.cache_namespace ns && is_prefix path e.tokens

-- The tokens of an entry are whole blocks, one at least, and it has as many KV blocks.
abbrev pub IsAligned : ℕ → PrefixEntry → Type 0
IsAligned block e =
    (0 < length e.tokens)
    × (length e.tokens % block ≡ 0)
    × (length e.blocks ≡ length e.tokens / block)

pub record IsValid (p : PrefixIndex) : Type 0 where
  pub block_pos : 0 < p.block_size
  pub owned :
      (k : ℕ) (ns : String) (path : List ℕ)
      → owns_child k (find_root ns p.roots) path ≡ continues ns path (find_entry k p.entries)
  pub peopled : (ns : String) (path : List ℕ) → peopled_child (find_root ns p.roots) path ≡ true
  pub aligned :
      (k : ℕ) (e : PrefixEntry) → find_entry k p.entries ≡ some e → IsAligned p.block_size e

pub is_prefix_refl : (ts : List ℕ) → is_prefix ts ts ≡ true
is_prefix_refl [] = refl
is_prefix_refl (t ∷ ts) = rw (==_self t) (is_prefix_refl ts)

is_prefix_of_append :
    (path more ts : List ℕ) → is_prefix (path ++ more) ts ≡ true → is_prefix path ts ≡ true
is_prefix_of_append [] more ts h = refl
is_prefix_of_append (t ∷ path) more [] h = h
is_prefix_of_append (t ∷ path) more (u ∷ ts) h = ground (arith, is_prefix_of_append path more ts)

pub continues-append :
    (ns : String) (path more : List ℕ) (o : Option PrefixEntry)
    → continues ns (path ++ more) o ≡ true
    → continues ns path o ≡ true
continues-append ns path more none h = h
continues-append ns path more (some e) h = ground (arith, is_prefix_of_append path more e.tokens)

-- A positive block size gives an empty index that is valid.
pub construct-IsValid :
    (n : ℕ) → 0 < n → (p : PrefixIndex) × (construct n ≡ ok p) × IsValid p × (p.entries ≡ [])
unfolding construct find_root find_entry
construct-IsValid n h = (
  record { block_size = n; token_count = 0; clock = 0; roots = []; entries = [] },
  ground arith,
  record {
    block_pos = h;
    owned = λ k ns path. refl;
    peopled = λ ns path. refl;
    aligned = λ k e f. cc;
  },
  refl,
)

length-not_empty : (ts : List ℕ) → 0 < length ts → is_empty ts ≡ false
length-not_empty [] h = absurd (omega arith)
length-not_empty (t ∷ ts) h = refl

module _ (e : PrefixEntry) (p : PrefixIndex) (v : IsValid p)
    (fresh : find_entry e.sequence p.entries ≡ none) where
  unseen : (k : ℕ) → e.sequence == k ≡ true → find_entry k p.entries ≡ none
  unseen k own = ap (λ i. find_entry i p.entries) (ground arith) ∙ fresh

  abbrev old_root : Node
  old_root = or_empty (find_root e.cache_namespace p.roots)

  abbrev new_root : Node
  new_root = insert_path old_root e.tokens e.sequence

  inserted_root :
      (k : ℕ) (path : List ℕ)
      → owns k new_root path ≡ (
          if k == e.sequence && is_prefix path e.tokens
          then true
          else continues e.cache_namespace path (find_entry k p.entries))
  inserted_root k path =
      owns-insert_path k e.sequence old_root e.tokens path
      ∙ ap (λ b. if k == e.sequence && is_prefix path e.tokens then true else b)
          (owns-or_empty k (find_root e.cache_namespace p.roots) path
            ∙ v.owned k e.cache_namespace path)

  inserted_cases :
      (now k : ℕ) (ns : String) (path : List ℕ)
      → owns_child k
          (if str_eq e.cache_namespace ns then some new_root else find_root ns p.roots)
          path
        ≡ continues ns path (if e.sequence == k then some (touch now e) else find_entry k p.entries)
  inserted_cases now k ns path = elim (Bool-cases (str_eq e.cache_namespace ns)) [
    | inl same ↦ elim (Bool-cases (e.sequence == k)) [
      | inl own ↦ rw (same, own) (inserted_root k path ∙ rw (unseen k own) (ground arith))
      | inr other ↦
          rw (same, other)
            (inserted_root k path
              ∙ ground (
                arith,
                ap (λ i. continues i path (find_entry k p.entries))
                    ((eq_iff e.cache_namespace ns).0 same),
              ))
    ]
    | inr differ ↦ elim (Bool-cases (e.sequence == k)) [
      | inl own ↦ rw (differ, own) (v.owned k ns path ∙ rw (unseen k own) (ground arith))
      | inr other ↦ rw (differ, other) (v.owned k ns path)
    ]
  ]

  inserted-owned :
      (now k : ℕ) (ns : String) (path : List ℕ)
      → owns_child k (find_root ns (put_root e.cache_namespace new_root p.roots)) path
        ≡ continues ns path (find_entry k (put_entry (touch now e) p.entries))
  inserted-owned now k ns path =
      ap (λ o. owns_child k o path) (find_root-put_root ns e.cache_namespace new_root p.roots)
      ∙ inserted_cases now k ns path
      ∙ sym (ap (continues ns path) (find_entry-put_entry k (touch now e) p.entries))

  inserted-peopled :
      (ns : String) (path : List ℕ)
      → peopled_child (find_root ns (put_root e.cache_namespace new_root p.roots)) path ≡ true
  inserted-peopled ns path =
      rw (find_root-put_root ns e.cache_namespace new_root p.roots)
        (elim (Bool-cases (str_eq e.cache_namespace ns)) [
          | inl same ↦ rw same (
              peopled-insert_path e.sequence old_root e.tokens path
                (below_child (find_root e.cache_namespace p.roots) (v.peopled e.cache_namespace)))
          | inr differ ↦ rw differ (v.peopled ns path)
        ])

  inserted-IsAligned :
      (now k : ℕ) (f : PrefixEntry)
      → IsAligned p.block_size e
      → find_entry k (put_entry (touch now e) p.entries) ≡ some f
      → IsAligned p.block_size f
  inserted-IsAligned now k f a found = elim (Bool-cases (e.sequence == k)) [
    | inl own ↦
        let same : touch now e ≡ f =
          ground (arith, found, find_entry-put_entry k (touch now e) p.entries) in
        subst (IsAligned p.block_size) same a
    | inr other ↦
        v.aligned k f (ground (arith, found, find_entry-put_entry k (touch now e) p.entries))
  ]

  -- All that `insert` does to an aligned entry with a new sequence.
  pub insert_lem :
      IsAligned p.block_size e
      → (q : PrefixIndex) × (insert e p ≡ ok q)
        × IsValid q
        × (q.entries ≡ put_entry (touch (p.clock + 1) e) p.entries)
        × (q.block_size ≡ p.block_size)
        × (q.token_count ≡ p.token_count + length e.tokens)
  unfolding insert
  insert_lem a = (
    record p {
      roots = put_root e.cache_namespace new_root p.roots;
      token_count = p.token_count + length e.tokens;
      clock = p.clock + 1;
      entries = put_entry (touch (p.clock + 1) e) p.entries;
    },
    rw fresh (ground (arith, a.0, a.1, a.2, length-not_empty e.tokens)),
    record {
      block_pos = v.block_pos;
      owned = inserted-owned (p.clock + 1);
      peopled = inserted-peopled;
      aligned = λ k f. inserted-IsAligned (p.clock + 1) k f a;
    },
    refl,
    refl,
    refl,
  )

  -- An aligned entry with a new sequence is accepted.
  pub insert-IsValid :
      IsAligned p.block_size e
      → (q : PrefixIndex) × (insert e p ≡ ok q)
        × IsValid q
        × (q.entries ≡ put_entry (touch (p.clock + 1) e) p.entries)
  insert-IsValid a = let (q, inserted, valid, has, _, _) = insert_lem a in (q, inserted, valid, has)
