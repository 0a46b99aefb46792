-- ===== src/PrefixIndex/Removal.antt =====
-- What `erase` does to a valid index.
use Prim.Native.String.{String}
use text.Mathlib.Text.{◌==◌ as str_eq}
use text.Mathlib.TextEquality.{eq_iff}
use mini_llm_runtime.Base.{
  ℕ, ◌-◌, ◌≡◌, refl, sym, ap, ◌∙◌, inl, inr, Bool, true, Option, none, some, Option-cases, List, [],
  ◌++◌, arith, ◌==◌, if◌then◌else◌, Bool-cases, is_empty, length, ok, err, out_of_range,
}
use mini_llm_runtime.PrefixIndex.{
  Node, PrefixEntry, PrefixIndex, owners, erase_path, find_root, put_root, erase_root, find_entry,
  erase_entry, erase,
}
use mini_llm_runtime.PrefixIndex.Maps.{
  find_root-put_root, find_root-erase_root, find_entry-erase_entry,
}
use mini_llm_runtime.PrefixIndex.Walk.{owns, owns_child, peopled_child, below_child}
use mini_llm_runtime.PrefixIndex.Prune.{Holds, Pruned, Pruned-no_owner, peopled-node}
use mini_llm_runtime.PrefixIndex.Erase.{erase_path-Pruned}
use mini_llm_runtime.PrefixIndex.Invariant.{
  continues, continues-append, is_prefix_refl, IsAligned, IsValid,
}

module _ (s : ℕ) (e : PrefixEntry) (p : PrefixIndex) (v : IsValid p)
    (found : find_entry s p.entries ≡ some e) where
  root_exists : (n : Node) × (find_root e.cache_namespace p.roots ≡ some n)
  root_exists = elim (Option-cases (find_root e.cache_namespace p.roots)) [
    | inr hit ↦ hit
    | inl miss ↦ absurd (lost miss)
  ]
    where
      lost : find_root e.cache_namespace p.roots ≡ none → ⊥
      lost miss = ground (
        arith,
        v.owned s e.cache_namespace [],
        ap (continues e.cache_namespace []) found,
        ap (λ o. owns_child s o []) miss,
        eq_iff e.cache_namespace e.cache_namespace,
      )

  module _ (n : Node) (here : find_root e.cache_namespace p.roots ≡ some n) where
    root-owned :
        (k : ℕ) (path : List ℕ)
        → owns k n path ≡ continues e.cache_namespace path (find_entry k p.entries)
    root-owned k path = sym (ap (λ o. owns_child k o path) here) ∙ v.owned k e.cache_namespace path

    root-Holds : Holds s e.tokens n
    root-Holds = record {
      nested = λ k path more o.
          root-owned k path
          ∙ continues-append e.cache_namespace path more (find_entry k p.entries)
              (sym (root-owned k (path ++ more)) ∙ o);
      along = λ path o.
          ground (arith, root-owned s path, ap (continues e.cache_namespace path) found, o);
      entered = ground (
        arith,
        root-owned s e.tokens,
        ap (continues e.cache_namespace e.tokens) found,
        is_prefix_refl e.tokens,
        eq_iff e.cache_namespace e.cache_namespace,
      );
      below =
          below_child (some n)
            (λ path. ap (λ o. peopled_child o path) (sym here) ∙ v.peopled e.cache_namespace path);
    }

    module _ (n' : Node) (b : Bool) (pr : Pruned s e.tokens n n' b) where
      abbrev new_roots : List (String × Node)
      new_roots =
          if is_empty (owners n')
          then erase_root e.cache_namespace p.roots
          else put_root e.cache_namespace n' p.roots

      abbrev left_root : Option Node
      left_root = if is_empty (owners n') then none else some n'

      find_root-new :
          (ns : String)
          → find_root ns new_roots
            ≡ (if str_eq e.cache_namespace ns then left_root else find_root ns p.roots)
      find_root-new ns = elim (Bool-cases (is_empty (owners n'))) [
        | inl gone ↦ rw gone (find_root-erase_root ns e.cache_namespace p.roots)
        | inr stays ↦ rw stays (find_root-put_root ns e.cache_namespace n' p.roots)
      ]

      left-owns : (k : ℕ) (path : List ℕ) → owns_child k left_root path ≡ owns k n' path
      left-owns k path = elim (Bool-cases (is_empty (owners n'))) [
        | inl gone ↦ rw gone (sym (Pruned-no_owner root-Holds pr gone k path))
        | inr stays ↦ rw stays refl
      ]

      left-peopled : (path : List ℕ) → peopled_child left_root path ≡ true
      left-peopled path = elim (Bool-cases (is_empty (owners n'))) [
        | inl gone ↦ rw gone refl
        | inr stays ↦ rw stays (peopled-node n' stays pr.below path)
      ]

      erased-owned :
          (k : ℕ) (ns : String) (path : List ℕ)
          → owns_child k (find_root ns new_roots) path
            ≡ continues ns path (find_entry k (erase_entry s p.entries))
      erased-owned k ns path =
          ap (λ o. owns_child k o path) (find_root-new ns)
          ∙ cases
          ∙ sym (ap (continues ns path) (find_entry-erase_entry k s p.entries))
        where
          own : s == k ≡ true → find_entry k p.entries ≡ some e
          own h = ap (λ i. find_entry i p.entries) (ground arith) ∙ found

          cases :
              owns_child k
                (if str_eq e.cache_namespace ns then left_root else find_root ns p.roots)
                path
              ≡ continues ns path (if s == k then none else find_entry k p.entries)
          cases = elim (Bool-cases (str_eq e.cache_namespace ns)) [
            | inl same ↦ elim (Bool-cases (s == k)) [
              | inl hit ↦
                  rw (same, hit)
                    (left-owns k path
                      ∙ pr.ownership k path
                      ∙ ground (
                        arith,
                        root-owned k path,
                        ap (continues e.cache_namespace path) (own hit),
                      ))
              | inr miss ↦
                  rw (same, miss)
                    (left-owns k path
                      ∙ pr.ownership k path
                      ∙ ground (
                        arith,
                        root-owned k path,
                        ap (λ i. continues i path (find_entry k p.entries))
                            ((eq_iff e.cache_namespace ns).0 same),
                      ))
            ]
            | inr differ ↦ elim (Bool-cases (s == k)) [
              | inl hit ↦ rw (differ, hit) (v.owned k ns path ∙ rw (own hit) (ground arith))
              | inr miss ↦ rw (differ, miss) (v.owned k ns path)
            ]
          ]

      erased-peopled :
          (ns : String) (path : List ℕ) → peopled_child (find_root ns new_roots) path ≡ true
      erased-peopled ns path = ap (λ o. peopled_child o path) (find_root-new ns) ∙ cases
        where
          cases :
              peopled_child
                (if str_eq e.cache_namespace ns then left_root else find_root ns p.roots)
                path
              ≡ true
          cases = elim (Bool-cases (str_eq e.cache_namespace ns)) [
            | inl same ↦ rw same (left-peopled path)
            | inr differ ↦ rw differ (v.peopled ns path)
          ]

      erased-IsAligned :
          (k : ℕ) (f : PrefixEntry)
          → find_entry k (erase_entry s p.entries) ≡ some f
          → IsAligned p.block_size f
      erased-IsAligned k f h =
          v.aligned k f (ground (arith, h, find_entry-erase_entry k s p.entries))

      abbrev erased : PrefixIndex
      erased = record p {
        roots = new_roots;
        entries = erase_entry s p.entries;
        token_count = p.token_count - length e.tokens;
      }

      erased-IsValid : IsValid erased
      erased-IsValid = record {
        block_pos = v.block_pos;
        owned = erased-owned;
        peopled = erased-peopled;
        aligned = erased-IsAligned;
      }

      erase-equation : erase_path n e.tokens s ≡ some (n', b) → erase s p ≡ ok (e, erased)
      unfolding erase
      erase-equation walked = rw (found, erase) (rw (here) (rw walked refl))

  -- All that `erase` does.
  pub erase_lem :
      (q : PrefixIndex) × (erase s p ≡ ok (e, q))
      × IsValid q
      × (q.entries ≡ erase_entry s p.entries)
      × (q.block_size ≡ p.block_size)
      × (q.token_count ≡ p.token_count - length e.tokens)
  erase_lem =
      let (n, here) = root_exists in
      let (n', b, walked, pr) = erase_path-Pruned s n e.tokens (root-Holds n here) in
      (
        erased n here n' b pr,
        erase-equation n here n' b pr walked,
        erased-IsValid n here n' b pr,
        refl,
        refl,
        refl,
      )

  -- In a valid index the erasure of an entry that is there does not throw; it returns the entry
  -- and leaves a valid index without it, whose trie is pruned.
  pub erase-IsValid :
      (q : PrefixIndex) × (erase s p ≡ ok (e, q))
      × IsValid q
      × (q.entries ≡ erase_entry s p.entries)
  erase-IsValid = let (q, erased_now, valid, left, _, _) = erase_lem in (q, erased_now, valid, left)

-- A sequence that is not in the index is refused.
pub erase-missing :
    (s : ℕ) (p : PrefixIndex) → find_entry s p.entries ≡ none → erase s p ≡ err out_of_range
unfolding erase
erase-missing s p missing = rw (missing, erase) refl
