-- ===== src/PrefixIndex/Prune.antt =====
-- What `erase`'s walk and its bottom-up pruning change.
use mini_llm_runtime.Base.{
  ℕ, ◌≡◌, refl, sym, ap, ◌∙◌, inl, inr, Bool, true, false, not, ◌&&◌, some, List, [], ◌∷◌, ◌++◌,
  arith, ◌==◌, ==_self, if◌then◌else◌, Bool-cases, is_empty, contains,
}
use mini_llm_runtime.PrefixIndex.{
  Node, node, Children, owners, set_erase, find_child, put_child, erase_child,
}
use mini_llm_runtime.PrefixIndex.Maps.{
  contains-set_erase, find_child-put_child, find_child-erase_child,
}
use mini_llm_runtime.PrefixIndex.Walk.{
  owns, peopled, owns_child, peopled_child, owns-cons, peopled-cons, is_prefix, IsPeopledBelow,
}

-- What holds of a trie in which `s` is entered along `ts`, and of the nodes on that path.
pub record Holds (s : ℕ) (ts : List ℕ) (n : Node) : Type 0 where
  pub nested : (k : ℕ) (path more : List ℕ) → owns k n (path ++ more) ≡ true → owns k n path ≡ true
  pub along : (path : List ℕ) → owns s n path ≡ true → is_prefix path ts ≡ true
  pub entered : owns s n ts ≡ true
  pub below : IsPeopledBelow n

-- `n'` is `n` without `s` along `ts`, with no node left that has no owner, but for the root.
pub record Pruned (s : ℕ) (ts : List ℕ) (n n' : Node) (stopped : Bool) : Type 0 where
  pub ownership :
      (k : ℕ) (path : List ℕ)
      → owns k n' path ≡ (if k == s && is_prefix path ts then false else owns k n path)
  pub stop : stopped ≡ true → is_empty (owners n') ≡ false
  pub below : IsPeopledBelow n'

pub owns-root : (k : ℕ) (n : Node) → owns k n [] ≡ contains k (owners n)
unfolding owns
owns-root k (node os cs) = refl

pub peopled-root : (n : Node) → peopled n [] ≡ not (is_empty (owners n))
unfolding peopled
peopled-root (node os cs) = refl

pub peopled-node :
    (n : Node)
    → is_empty (owners n) ≡ false
    → IsPeopledBelow n
    → (path : List ℕ) → peopled n path ≡ true
peopled-node n some_owner b [] = peopled-root n ∙ ap not some_owner
peopled-node (node os cs) some_owner b (u ∷ path) = peopled-cons os cs u path ∙ b u path

pub owner_of_not_empty : (os : List ℕ) → is_empty os ≡ false → (k : ℕ) × (contains k os ≡ true)
owner_of_not_empty [] h = cc
owner_of_not_empty (k ∷ os) h = (k, rw (==_self k))

not_empty_of_owner : (k : ℕ) (os : List ℕ) → contains k os ≡ true → is_empty os ≡ false
not_empty_of_owner k [] h = cc
not_empty_of_owner k (x ∷ os) h = refl

pub empty-no_owner : (k : ℕ) (os : List ℕ) → is_empty os ≡ true → contains k os ≡ false
empty-no_owner k [] h = refl
empty-no_owner k (x ∷ os) h = cc

-- Where the root is left without an owner, nobody owns anything.
pub Pruned-no_owner :
    {s : ℕ} {ts : List ℕ} {m m' : Node} {b : Bool}
    → Holds s ts m
    → Pruned s ts m m' b
    → is_empty (owners m') ≡ true
    → (k : ℕ) (path : List ℕ) → owns k m' path ≡ false
Pruned-no_owner {s} {ts} {m} {m'} h p none_left k path = elim (Bool-cases (owns k m path)) [
  | inr free ↦ ground (arith, p.ownership k path)
  | inl o ↦ ground (
    arith,
    p.ownership k [],
    p.ownership k path,
    owns-root k m',
    empty-no_owner k (owners m') none_left,
    h.nested k [] path o,
    own_path o,
  )
]
  where
    own_path : owns k m path ≡ true → k ≡ s → is_prefix path ts ≡ true
    own_path o e = h.along path (ap (λ i. owns i m path) (sym e) ∙ o)

pub below_of : (m : Node) → ((path : List ℕ) → peopled m path ≡ true) → IsPeopledBelow m
below_of (node os cs) h u path = sym (peopled-cons os cs u path) ∙ h (u ∷ path)

module _ (s t : ℕ) (ts os : List ℕ) (cs : Children) (m : Node)
    (here : find_child t cs ≡ some m) where
  at_child : (k : ℕ) (path : List ℕ) → owns k (node os cs) (t ∷ path) ≡ owns k m path
  at_child k path = owns-cons os cs t path k ∙ ap (λ o. owns_child k o path) here

  pub child-Holds : Holds s (t ∷ ts) (node os cs) → Holds s ts m
  child-Holds h = record {
    nested = λ k path more o.
        sym (at_child k path) ∙ h.nested k (t ∷ path) more (at_child k (path ++ more) ∙ o);
    along = λ path o. ground (arith, h.along (t ∷ path) (at_child s path ∙ o), ==_self t);
    entered = sym (at_child s ts) ∙ h.entered;
    below = below_of m λ path. ap (λ o. peopled_child o path) (sym here) ∙ h.below t path;
  }

  -- The child is kept: it has an owner left.
  pub kept-Pruned :
      (m' : Node) (b : Bool)
      → Holds s (t ∷ ts) (node os cs)
      → Pruned s ts m m' b
      → is_empty (owners m') ≡ false
      → Pruned s (t ∷ ts) (node os cs) (node (set_erase s os) (put_child t m' cs)) true
  kept-Pruned m' b h p some_owner = record {
    ownership = λ k path. kept-owns k path;
    stop =
        λ e. let (k, o) = owner_of_not_empty (owners m') some_owner in still k (owns-root k m' ∙ o);
    below = λ u path. kept-below u path;
  }
    where
      kept-owns :
          (k : ℕ) (path : List ℕ)
          → owns k (node (set_erase s os) (put_child t m' cs)) path
            ≡ (if k == s && is_prefix path (t ∷ ts) then false else owns k (node os cs) path)
      kept-owns k [] = ground (
        arith,
        owns-root k (node (set_erase s os) (put_child t m' cs)),
        owns-root k (node os cs),
        contains-set_erase k s os,
      )
      kept-owns k (u ∷ path) =
          rw
            (
              owns-cons (set_erase s os) (put_child t m' cs) u path k,
              owns-cons os cs u path k,
              find_child-put_child u t m' cs,
            )
            (elim (Bool-cases (u == t)) [
              | inl hit ↦ rw hit (
                  p.ownership k path
                  ∙ ap (λ x. if k == s && is_prefix path ts then false else x)
                      (sym (
                        ap (λ o. owns_child k o path)
                          (ap (λ i. find_child i cs) (ground arith) ∙ here))))
              | inr miss ↦ rw miss (ground arith)
            ])

      still : (k : ℕ) → owns k m' [] ≡ true → is_empty (set_erase s os) ≡ false
      still k o =
          let there : owns k m [] ≡ true = ground (arith, p.ownership k []) in
          let above : owns k (node os cs) [] ≡ true =
            h.nested k [] (t ∷ []) (at_child k [] ∙ there) in
          not_empty_of_owner k (set_erase s os)
            (ground (arith, p.ownership k [], contains-set_erase k s os, owns-root k (node os cs)))

      kept-below :
          (u : ℕ) (path : List ℕ) → peopled_child (find_child u (put_child t m' cs)) path ≡ true
      kept-below u path = rw (find_child-put_child u t m' cs) (elim (Bool-cases (u == t)) [
        | inl hit ↦ rw hit (peopled-node m' some_owner p.below path)
        | inr miss ↦ rw miss (h.below u path)
      ])

  -- The child is erased: nobody owned anything at or below it but `s`.
  pub erased-Pruned :
      (m' : Node)
      → Holds s (t ∷ ts) (node os cs)
      → Pruned s ts m m' false
      → is_empty (owners m') ≡ true
      → Pruned s (t ∷ ts) (node os cs) (node (set_erase s os) (erase_child t cs)) false
  erased-Pruned m' h p none_left = record {
    ownership = λ k path. left-owns k path;
    stop = λ e. cc;
    below = λ u path. left-below u path;
  }
    where
      only_s :
          (k : ℕ) (path : List ℕ)
          → (if k == s && is_prefix path ts then false else owns k m path) ≡ false
      only_s k path = sym (p.ownership k path) ∙ Pruned-no_owner (child-Holds h) p none_left k path

      left-owns :
          (k : ℕ) (path : List ℕ)
          → owns k (node (set_erase s os) (erase_child t cs)) path
            ≡ (if k == s && is_prefix path (t ∷ ts) then false else owns k (node os cs) path)
      left-owns k [] = ground (
        arith,
        owns-root k (node (set_erase s os) (erase_child t cs)),
        owns-root k (node os cs),
        contains-set_erase k s os,
      )
      left-owns k (u ∷ path) =
          rw
            (
              owns-cons (set_erase s os) (erase_child t cs) u path k,
              owns-cons os cs u path k,
              find_child-erase_child u t cs,
            )
            (elim (Bool-cases (u == t)) [
              | inl hit ↦ rw hit (
                  sym (only_s k path)
                  ∙ ap (λ x. if k == s && is_prefix path ts then false else x)
                      (sym (
                        ap (λ o. owns_child k o path)
                          (ap (λ i. find_child i cs) (ground arith) ∙ here))))
              | inr miss ↦ rw miss (ground arith)
            ])

      left-below :
          (u : ℕ) (path : List ℕ) → peopled_child (find_child u (erase_child t cs)) path ≡ true
      left-below u path = rw (find_child-erase_child u t cs) (elim (Bool-cases (u == t)) [
        | inl hit ↦ rw hit refl
        | inr miss ↦ rw miss (h.below u path)
      ])
