-- ===== src/PrefixIndex.antt =====
-- include/llmserve/prefix_index.h and src/prefix_index.cpp: cached prompts in a token trie for each
-- namespace. Tokens are only compared for equality here and sequences by their order, so both are
-- numbers. A `std::set` is an ascending list, a `std::map` an association list with one entry to a
-- key. `clock_` is a count of calls and does not wrap.
pub mod Maps
pub mod Walk
pub mod Prune
pub mod Erase
pub mod Invariant
pub mod Removal
pub mod Match
pub mod Reuse
pub mod Lifecycle
pub mod Entries
pub mod Tidy
pub mod History
mod Tests
use Prim.Native.String.{String}
use text.Mathlib.Text.{◌==◌ as str_eq}
use mini_llm_runtime.Base.{
  ℕ, zero, suc, ◌+◌, ◌-◌, ◌/◌, ◌%◌, min, Bool, true, false, ◌&&◌, ◌||◌, not, Option, none, some,
  List, [], ◌∷◌, ltb, ◌==◌, if◌then◌else◌, is_empty, length, Result, ok, err, invalid_argument,
  out_of_range,
}

pub record PrefixEntry : Type 0 where
  pub sequence : ℕ
  pub cache_namespace : String
  pub tokens : List ℕ
  pub blocks : List ℕ
  pub last_used : ℕ

pub record PrefixMatch : Type 0 where
  pub sequence : ℕ
  pub tokens : ℕ

-- `struct Node`, with its map of children.
mutual
  pub data Node : Type 0 where
    node : List ℕ → Children → Node

  pub data Children : Type 0 where
    no_child : Children
    child : ℕ → Node → Children → Children

abbrev pub owners : Node → List ℕ
owners (node os cs) = os

abbrev pub children : Node → Children
children (node os cs) = cs

pub record PrefixIndex : Type 0 where
  pub block_size : ℕ
  pub token_count : ℕ
  pub clock : ℕ
  pub roots : List (String × Node)
  pub entries : List PrefixEntry

-- `std::set<SequenceId>`: `insert`, `erase`.
unfoldable pub set_insert : ℕ → List ℕ → List ℕ
set_insert s [] = s ∷ []
set_insert s (x ∷ xs) =
    if s == x then x ∷ xs else if ltb s x then s ∷ x ∷ xs else x ∷ set_insert s xs

pub set_erase : ℕ → List ℕ → List ℕ
set_erase s [] = []
set_erase s (x ∷ xs) = if s == x then set_erase s xs else x ∷ set_erase s xs

-- `std::map<Token, Node>`: `find`, `operator[]` with an assignment, `erase`.
pub find_child : ℕ → Children → Option Node
find_child t no_child = none
find_child t (child u n cs) = if t == u then some n else find_child t cs

pub put_child : ℕ → Node → Children → Children
put_child t n no_child = child t n no_child
put_child t n (child u m cs) = if t == u then child t n cs else child u m (put_child t n cs)

pub erase_child : ℕ → Children → Children
erase_child t no_child = no_child
erase_child t (child u m cs) = if t == u then erase_child t cs else child u m (erase_child t cs)

abbrev pub empty_node : Node
empty_node = node [] no_child

abbrev pub or_empty : Option Node → Node
or_empty none = empty_node
or_empty (some n) = n

-- `std::unordered_map<std::string, Node>`.
unfoldable pub find_root : String → List (String × Node) → Option Node
find_root k [] = none
find_root k ((j, n) ∷ rs) = if str_eq j k then some n else find_root k rs

unfoldable pub put_root : String → Node → List (String × Node) → List (String × Node)
put_root k n [] = (k, n) ∷ []
put_root k n ((j, m) ∷ rs) = if str_eq j k then (k, n) ∷ rs else (j, m) ∷ put_root k n rs

pub erase_root : String → List (String × Node) → List (String × Node)
erase_root k [] = []
erase_root k ((j, m) ∷ rs) = if str_eq j k then erase_root k rs else (j, m) ∷ erase_root k rs

-- `std::map<SequenceId, PrefixEntry>`, in the order of the keys.
unfoldable pub find_entry : ℕ → List PrefixEntry → Option PrefixEntry
find_entry s [] = none
find_entry s (e ∷ es) = if e.sequence == s then some e else find_entry s es

unfoldable pub put_entry : PrefixEntry → List PrefixEntry → List PrefixEntry
put_entry e [] = e ∷ []
put_entry e (x ∷ xs) =
    if x.sequence == e.sequence
    then e ∷ xs
    else if ltb e.sequence x.sequence
    then e ∷ x ∷ xs
    else x ∷ put_entry e xs

pub erase_entry : ℕ → List PrefixEntry → List PrefixEntry
erase_entry s [] = []
erase_entry s (e ∷ es) = if e.sequence == s then erase_entry s es else e ∷ erase_entry s es

unfoldable pub construct : ℕ → Result PrefixIndex
construct block_size =
    if block_size == 0
    then err invalid_argument
    else ok
        (record { block_size = block_size; token_count = 0; clock = 0; roots = []; entries = [] })

-- The walk of `insert` from a node along the tokens; a child that is missing starts empty.
unfoldable pub insert_path : Node → List ℕ → ℕ → Node
insert_path (node os cs) [] s = node (set_insert s os) cs
insert_path (node os cs) (t ∷ ts) s =
    node (set_insert s os) (put_child t (insert_path (or_empty (find_child t cs)) ts s) cs)

abbrev is_some {ℓ} : {A : Type ℓ} → Option A → Bool
is_some none = false
is_some (some a) = true

unfoldable pub insert : PrefixEntry → PrefixIndex → Result PrefixIndex
insert e p =
    if is_empty e.tokens
      || not (length e.tokens % p.block_size == 0)
      || not (length e.blocks == length e.tokens / p.block_size)
      || is_some (find_entry e.sequence p.entries)
    then err invalid_argument
    else ok (record p {
      roots =
          put_root e.cache_namespace
            (insert_path (or_empty (find_root e.cache_namespace p.roots)) e.tokens e.sequence)
            p.roots;
      token_count = p.token_count + length e.tokens;
      clock = p.clock + 1;
      entries = put_entry (record e { last_used = p.clock + 1 }) p.entries;
    })

-- `erase` from a node down along the tokens: the owner goes from every node of the path, and the
-- pruning loop runs bottom-up. The Boolean is true once that loop has met its `break`; `none` is
-- the exception of `children.at`, before any change.
pub erase_path : Node → List ℕ → ℕ → Option (Node × Bool)
erase_path (node os cs) [] s = some (node (set_erase s os) cs, false)
erase_path (node os cs) (t ∷ ts) s = elim (find_child t cs) [
  | none ↦ none
  | some below ↦ elim (erase_path below ts s) [
    | none ↦ none
    | some (below', stopped) ↦ some (
        if stopped || not (is_empty (owners below'))
        then (node (set_erase s os) (put_child t below' cs), true)
        else (node (set_erase s os) (erase_child t cs), false))
  ]
]

pub erase : ℕ → PrefixIndex → Result (PrefixEntry × PrefixIndex)
erase s p = elim (find_entry s p.entries) [
  | none ↦ err out_of_range
  | some e ↦ elim (find_root e.cache_namespace p.roots) [
    | none ↦ err out_of_range
    | some root ↦ elim (erase_path root e.tokens s) [
      | none ↦ err out_of_range
      | some (root', _) ↦ ok (
        e,
        record p {
          roots =
              if is_empty (owners root')
              then erase_root e.cache_namespace p.roots
              else put_root e.cache_namespace root' p.roots;
          entries = erase_entry s p.entries;
          token_count = p.token_count - length e.tokens;
        },
      )
    ]
  ]
]

abbrev head_or_zero : List ℕ → ℕ
head_or_zero [] = 0
head_or_zero (x ∷ xs) = x

-- The loop of `match`, with the rounds left, the index `i` and the result so far.
pub match_loop : ℕ → ℕ → Node → List ℕ → ℕ → Option PrefixMatch → Option PrefixMatch
match_loop block zero n tokens i result = result
match_loop block (suc rounds) n [] i result = result
match_loop block (suc rounds) n (t ∷ tokens) i result = elim (find_child t (children n)) [
  | none ↦ result
  | some next ↦ match_loop block rounds next tokens (i + 1) (
      if (i + 1) % block == 0
      then some (record { sequence = head_or_zero (owners next); tokens = i + 1 })
      else result)
]

abbrev pub touch : ℕ → PrefixEntry → PrefixEntry
touch now e = record e { last_used = now }

unfoldable pub match : String → List ℕ → ℕ → PrefixIndex → Result (Option PrefixMatch × PrefixIndex)
match cache_namespace tokens max_reuse p = elim (find_root cache_namespace p.roots) [
  | none ↦ ok (none, p)
  | some root ↦ elim (match_loop p.block_size (min (length tokens) max_reuse) root tokens 0 none) [
    | none ↦ ok (none, p)
    | some found ↦ elim (find_entry found.sequence p.entries) [
      | none ↦ err out_of_range
      | some e ↦ ok (
        some found,
        record p { clock = p.clock + 1; entries = put_entry (touch (p.clock + 1) e) p.entries },
      )
    ]
  ]
]

-- `std::min_element`: the first entry with the least `last_used`.
pub least_entry : PrefixEntry → List PrefixEntry → PrefixEntry
least_entry best [] = best
least_entry best (e ∷ es) = least_entry (if ltb e.last_used best.last_used then e else best) es

pub least_recently_used : PrefixIndex → Option ℕ
least_recently_used p = elim p.entries [ [] ↦ none | e ∷ es ↦ some (least_entry e es).sequence ]

-- `entries_.at(sequence)`
pub at : ℕ → PrefixIndex → Result PrefixEntry
at s p = elim (find_entry s p.entries) [ none ↦ err out_of_range | some e ↦ ok e ]

abbrev pub size : PrefixIndex → ℕ
size p = length p.entries
