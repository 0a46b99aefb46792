-- ===== src/PrefixIndex/Maps.antt =====
-- The sets and maps of the index: a read after each write, in one equation.
use Prim.Native.String.{String}
use text.Mathlib.Text.{◌==◌ as str_eq}
use text.Mathlib.TextEquality.{eq_iff}
use mini_llm_runtime.Base.{
  ℕ, ◌≡◌, refl, true, false, none, some, List, [], ◌∷◌, arith, ◌==◌, if◌then◌else◌, contains,
}
use mini_llm_runtime.PrefixIndex.{
  Node, Children, no_child, child, PrefixEntry, set_insert, set_erase, find_child, put_child,
  erase_child, find_root, put_root, erase_root, find_entry, put_entry, erase_entry,
}

pub contains-set_insert :
    (k s : ℕ) (os : List ℕ)
    → contains k (set_insert s os) ≡ (if k == s then true else contains k os)
unfolding set_insert
contains-set_insert k s [] = ground arith
contains-set_insert k s (x ∷ xs) = ground (arith, contains-set_insert k s xs)

pub contains-set_erase :
    (k s : ℕ) (os : List ℕ)
    → contains k (set_erase s os) ≡ (if k == s then false else contains k os)
unfolding set_erase
contains-set_erase k s [] = ground arith
contains-set_erase k s (x ∷ xs) = ground (arith, contains-set_erase k s xs)

pub find_child-put_child :
    (k t : ℕ) (n : Node) (cs : Children)
    → find_child k (put_child t n cs) ≡ (if k == t then some n else find_child k cs)
unfolding find_child put_child
find_child-put_child k t n no_child = refl
find_child-put_child k t n (child u m cs) = ground (arith, find_child-put_child k t n cs)

pub find_child-erase_child :
    (k t : ℕ) (cs : Children)
    → find_child k (erase_child t cs) ≡ (if k == t then none else find_child k cs)
unfolding find_child erase_child
find_child-erase_child k t no_child = ground arith
find_child-erase_child k t (child u m cs) = ground (arith, find_child-erase_child k t cs)

pub find_root-put_root :
    (k j : String) (n : Node) (rs : List (String × Node))
    → find_root k (put_root j n rs) ≡ (if str_eq j k then some n else find_root k rs)
unfolding find_root put_root
find_root-put_root k j n [] = refl
find_root-put_root k j n ((i, m) ∷ rs) =
    ground (arith, eq_iff j k, eq_iff i j, eq_iff i k, find_root-put_root k j n rs)

pub find_root-erase_root :
    (k j : String) (rs : List (String × Node))
    → find_root k (erase_root j rs) ≡ (if str_eq j k then none else find_root k rs)
unfolding find_root erase_root
find_root-erase_root k j [] = ground arith
find_root-erase_root k j ((i, m) ∷ rs) =
    ground (arith, eq_iff j k, eq_iff i j, eq_iff i k, find_root-erase_root k j rs)

pub find_entry-put_entry :
    (s : ℕ) (e : PrefixEntry) (es : List PrefixEntry)
    → find_entry s (put_entry e es) ≡ (if e.sequence == s then some e else find_entry s es)
unfolding find_entry put_entry
find_entry-put_entry s e [] = refl
find_entry-put_entry s e (x ∷ xs) = ground (arith, find_entry-put_entry s e xs)

pub find_entry-erase_entry :
    (s t : ℕ) (es : List PrefixEntry)
    → find_entry s (erase_entry t es) ≡ (if t == s then none else find_entry s es)
unfolding find_entry erase_entry
find_entry-erase_entry s t [] = ground arith
find_entry-erase_entry s t (x ∷ xs) = ground (arith, find_entry-erase_entry s t xs)

-- An entry is found under its own sequence.
pub find_entry-sequence :
    (s : ℕ) (es : List PrefixEntry) (e : PrefixEntry) → find_entry s es ≡ some e → e.sequence ≡ s
unfolding find_entry
find_entry-sequence s [] e h = cc
find_entry-sequence s (x ∷ xs) e h = ground (arith, find_entry-sequence s xs e)
