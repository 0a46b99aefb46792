-- ===== src/PrefixIndex/Walk.antt =====
-- Who owns the node at the end of a path, and what `insert`'s walk changes of that.
use mini_llm_runtime.Base.{
  sym, ℕ, ◌≡◌, refl, ap, ◌∙◌, inl, inr, Bool, true, false, not, ◌&&◌, Option, none, some,
  Option-cases, List, [], ◌∷◌, arith, ◌==◌, if◌then◌else◌, Bool-cases, is_empty, contains,
}
use mini_llm_runtime.PrefixIndex.{
  Node, node, Children, children, empty_node, or_empty, set_insert, find_child, put_child,
  insert_path,
}
use mini_llm_runtime.PrefixIndex.Maps.{contains-set_insert, find_child-put_child}

-- Whether there is a node at the end of the path that `k` owns.
unfoldable pub owns : ℕ → Node → List ℕ → Bool
owns k (node os cs) [] = contains k os
owns k (node os cs) (t ∷ path) = elim (find_child t cs) [ none ↦ false | some n ↦ owns k n path ]

-- Every node that stands at the end of the path has an owner.
unfoldable pub peopled : Node → List ℕ → Bool
peopled (node os cs) [] = not (is_empty os)
peopled (node os cs) (t ∷ path) = elim (find_child t cs) [ none ↦ true | some n ↦ peopled n path ]

-- `path` is a prefix of `tokens`.
abbrev pub is_prefix : List ℕ → List ℕ → Bool
is_prefix [] tokens = true
is_prefix (t ∷ path) [] = false
is_prefix (t ∷ path) (u ∷ tokens) = if t == u then is_prefix path tokens else false

owns-empty_node : (k : ℕ) (path : List ℕ) → owns k empty_node path ≡ false
unfolding owns find_child
owns-empty_node k [] = refl
owns-empty_node k (t ∷ path) = refl

-- The same for a child that may be missing.
abbrev pub owns_child : ℕ → Option Node → List ℕ → Bool
owns_child k none path = false
owns_child k (some n) path = owns k n path

abbrev pub peopled_child : Option Node → List ℕ → Bool
peopled_child none path = true
peopled_child (some n) path = peopled n path

module _ (os : List ℕ) (cs : Children) (t : ℕ) (path : List ℕ) where
  pub owns-cons : (k : ℕ) → owns k (node os cs) (t ∷ path) ≡ owns_child k (find_child t cs) path
  unfolding owns
  owns-cons k = elim (Option-cases (find_child t cs)) [
    | inl e ↦ rw (e, owns)
    | inr (n, e) ↦ rw (e, owns)
  ]

  pub peopled-cons : peopled (node os cs) (t ∷ path) ≡ peopled_child (find_child t cs) path
  unfolding peopled
  peopled-cons = elim (Option-cases (find_child t cs)) [
    | inl e ↦ rw (e, peopled)
    | inr (n, e) ↦ rw (e, peopled)
  ]

pub owns-or_empty :
    (k : ℕ) (o : Option Node) (path : List ℕ) → owns k (or_empty o) path ≡ owns_child k o path
owns-or_empty k none path = owns-empty_node k path
owns-or_empty k (some n) path = refl

owns-insert_root :
    (k s : ℕ) (os : List ℕ) (cs : Children)
    → owns k (node (set_insert s os) cs) [] ≡ (if k == s then true else owns k (node os cs) [])
unfolding owns
owns-insert_root k s os cs = contains-set_insert k s os

owns-nil :
    (k : ℕ) (os : List ℕ) (cs cs' : Children) → owns k (node os cs) [] ≡ owns k (node os cs') []
unfolding owns
owns-nil k os cs cs' = refl

owns_leaf :
    (k : ℕ) (os os' : List ℕ) (cs : Children) (u : ℕ) (path : List ℕ)
    → owns k (node os cs) (u ∷ path) ≡ owns k (node os' cs) (u ∷ path)
unfolding owns
owns_leaf k os os' cs u path = refl

-- The walk makes `s` an owner of each node along the tokens, and changes no other ownership.
pub owns-insert_path :
    (k s : ℕ) (n : Node) (ts path : List ℕ)
    → owns k (insert_path n ts s) path
      ≡ (if k == s && is_prefix path ts then true else owns k n path)
unfolding insert_path
owns-insert_path k s (node os cs) [] [] = ground (arith, owns-insert_root k s os cs)
owns-insert_path k s (node os cs) [] (u ∷ path) =
    ground (arith, owns_leaf k (set_insert s os) os cs u path)
owns-insert_path k s (node os cs) (t ∷ ts) [] = ground (
  arith,
  owns-insert_root k s os (put_child t (insert_path (or_empty (find_child t cs)) ts s) cs),
  owns-nil k os cs (put_child t (insert_path (or_empty (find_child t cs)) ts s) cs),
)
owns-insert_path k s (node os cs) (t ∷ ts) (u ∷ path) =
    let n' = insert_path (or_empty (find_child t cs)) ts s in
    let walked = owns-insert_path k s (or_empty (find_child t cs)) ts path in
    rw
      (
        owns-cons (set_insert s os) (put_child t n' cs) u path k,
        owns-cons os cs u path k,
        find_child-put_child u t n' cs,
      )
      (elim (Bool-cases (u == t)) [
        | inl hit ↦ rw hit (
            walked
            ∙ ap (λ b. if k == s && is_prefix path ts then true else b)
                (owns-or_empty k (find_child t cs) path
                  ∙ ap (λ i. owns_child k (find_child i cs) path) (ground arith)))
        | inr miss ↦ rw miss (ground arith)
      ])

set_insert-not_empty : (s : ℕ) (os : List ℕ) → is_empty (set_insert s os) ≡ false
unfolding set_insert
set_insert-not_empty s [] = refl
set_insert-not_empty s (x ∷ xs) = ground arith

peopled-insert_root :
    (s : ℕ) (os : List ℕ) (cs : Children) → peopled (node (set_insert s os) cs) [] ≡ true
unfolding peopled
peopled-insert_root s os cs = ap not (set_insert-not_empty s os)

-- Below its root, every node has an owner.
abbrev pub IsPeopledBelow : Node → Type 0
IsPeopledBelow n = (t : ℕ) (path : List ℕ) → peopled_child (find_child t (children n)) path ≡ true

empty_node-IsPeopledBelow : IsPeopledBelow empty_node
unfolding find_child
empty_node-IsPeopledBelow t path = refl

pub below_child :
    (o : Option Node)
    → ((path : List ℕ) → peopled_child o path ≡ true)
    → IsPeopledBelow (or_empty o)
below_child none h = empty_node-IsPeopledBelow
below_child (some (node os cs)) h = λ t path. sym (peopled-cons os cs t path) ∙ h (t ∷ path)

-- After the walk every node on and below the root has an owner.
pub peopled-insert_path :
    (s : ℕ) (n : Node) (ts path : List ℕ)
    → IsPeopledBelow n
    → peopled (insert_path n ts s) path ≡ true
unfolding insert_path
peopled-insert_path s (node os cs) [] [] h = peopled-insert_root s os cs
peopled-insert_path s (node os cs) [] (u ∷ path) h =
    peopled-cons (set_insert s os) cs u path ∙ h u path
peopled-insert_path s (node os cs) (t ∷ ts) [] h =
    peopled-insert_root s os (put_child t (insert_path (or_empty (find_child t cs)) ts s) cs)
peopled-insert_path s (node os cs) (t ∷ ts) (u ∷ path) h =
    let n' = insert_path (or_empty (find_child t cs)) ts s in
    let walked =
      peopled-insert_path s (or_empty (find_child t cs)) ts path
        (below_child (find_child t cs) (h t)) in
    rw (peopled-cons (set_insert s os) (put_child t n' cs) u path, find_child-put_child u t n' cs)
      (elim (Bool-cases (u == t)) [ inl hit ↦ rw hit walked | inr miss ↦ rw miss (h u path) ])
