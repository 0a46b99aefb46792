-- ===== src/PrefixIndex/Tests.antt =====
-- The index on concrete inputs: two cached prompts that share a block of two tokens.
use mini_llm_runtime.Base.{◌≡◌, refl, none, some, [], ◌∷◌, arith, ok}
use mini_llm_runtime.PrefixIndex.{
  node, no_child, child, PrefixEntry, PrefixIndex, set_insert, set_erase, find_child, put_child,
  erase_child, find_root, put_root, find_entry, put_entry, erase_entry, construct, insert_path,
  insert, erase_path, erase, match_loop, match, touch, least_entry, least_recently_used,
}
use mini_llm_runtime.PrefixIndex.Invariant.{IsValid}
use mini_llm_runtime.PrefixIndex.Reuse.{Served, match-IsBest}
use mini_llm_runtime.PrefixIndex.Lifecycle.{IsSameContent, erase-insert, Evicted, evict-oldest}
use mini_llm_runtime.PrefixIndex.History.{Reach, here, next, inserts, history-IsValid}

abbrev empty_index : PrefixIndex
empty_index = record { block_size = 2; token_count = 0; clock = 0; roots = []; entries = [] }

abbrev short_entry : PrefixEntry
short_entry = record {
  sequence = 3;
  cache_namespace = "m";
  tokens = 5 ∷ 6 ∷ [];
  blocks = 0 ∷ [];
  last_used = 0;
}

abbrev long_entry : PrefixEntry
long_entry = record {
  sequence = 1;
  cache_namespace = "m";
  tokens = 5 ∷ 6 ∷ 7 ∷ 8 ∷ [];
  blocks = 1 ∷ 2 ∷ [];
  last_used = 0;
}

abbrev one_cached : PrefixIndex
one_cached = record {
  block_size = 2;
  token_count = 2;
  clock = 1;
  roots =
      (
        "m",
        node (3 ∷ [])
            (child 5 (node (3 ∷ []) (child 6 (node (3 ∷ []) no_child) no_child)) no_child),
      )
      ∷ [];
  entries = touch 1 short_entry ∷ [];
}

abbrev two_cached : PrefixIndex
two_cached = record {
  block_size = 2;
  token_count = 6;
  clock = 2;
  roots =
      (
        "m",
        node (1 ∷ 3 ∷ []) (
            child 5
              (node (1 ∷ 3 ∷ []) (
                child 6
                  (node (1 ∷ 3 ∷ [])
                    (child 7 (node (1 ∷ []) (child 8 (node (1 ∷ []) no_child) no_child)) no_child))
                  no_child))
              no_child),
      )
      ∷ [];
  entries = touch 2 long_entry ∷ touch 1 short_entry ∷ [];
}

construct-two : construct 2 ≡ ok empty_index
unfolding construct
construct-two = refl

insert-short : insert short_entry empty_index ≡ ok one_cached
unfolding insert insert_path set_insert find_child put_child find_root put_root find_entry put_entry
insert-short = refl

insert-long : insert long_entry one_cached ≡ ok two_cached
unfolding insert insert_path set_insert find_child put_child find_root put_root find_entry put_entry
insert-long = refl

-- The erasure prunes the two nodes that only the long entry owned.
erase-long : erase 1 two_cached ≡ ok (touch 2 long_entry, record one_cached { clock = 2 })
unfolding erase erase_path set_erase find_child put_child erase_child find_root put_root find_entry
    erase_entry
erase-long = refl

-- Three tokens agree, of which one block is whole; the first owner is the sequence 1.
match-three :
    match "m" (5 ∷ 6 ∷ 7 ∷ 9 ∷ []) 4 two_cached
    ≡ ok (
      some (record { sequence = 1; tokens = 2 }),
      record two_cached { clock = 3; entries = touch 3 long_entry ∷ touch 1 short_entry ∷ [] },
    )
unfolding match match_loop find_child find_root find_entry put_entry
match-three = refl

evict-short : least_recently_used two_cached ≡ some 3
unfolding least_recently_used least_entry
evict-short = refl

two_cached-Reach : Reach empty_index two_cached
two_cached-Reach =
    next (next here (inserts short_entry insert-short)) (inserts long_entry insert-long)

history-IsValid_example : IsValid two_cached
history-IsValid_example = history-IsValid 2 empty_index two_cached construct-two two_cached-Reach

one_cached-IsValid : IsValid one_cached
one_cached-IsValid =
    history-IsValid 2 empty_index one_cached construct-two
      (next here (inserts short_entry insert-short))

two_cached-IsValid : IsValid two_cached
two_cached-IsValid = history-IsValid 2 empty_index two_cached construct-two two_cached-Reach

match-IsBest_example : Served two_cached two_cached-IsValid "m" (5 ∷ 6 ∷ 7 ∷ 9 ∷ []) 4
match-IsBest_example = match-IsBest two_cached two_cached-IsValid "m" (5 ∷ 6 ∷ 7 ∷ 9 ∷ []) 4

short-unknown : find_entry 1 one_cached.entries ≡ none
unfolding find_entry
short-unknown = refl

erase-insert_example :
    (q r : PrefixIndex) × (insert long_entry one_cached ≡ ok q)
    × (erase 1 q ≡ ok (touch 2 long_entry, r))
    × IsValid r
    × IsSameContent r one_cached
erase-insert_example =
    erase-insert long_entry one_cached one_cached-IsValid short-unknown (omega arith, refl, refl)

long_cached : find_entry 1 two_cached.entries ≡ some (touch 2 long_entry)
unfolding find_entry
long_cached = refl

evict-oldest_example : Evicted two_cached
evict-oldest_example = evict-oldest two_cached two_cached-IsValid (λ e. cc)
