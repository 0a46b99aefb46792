-- ===== src/PrefixIndex/Erase.antt =====
-- The recursion of `erase`'s walk: it finds its whole path, and leaves a pruned trie.
use mini_llm_runtime.Base.{
  subst, ℕ, ◌≡◌, refl, ap, ◌∙◌, inl, inr, Bool, true, false, not, ◌&&◌, ◌||◌, none, some,
  Option-cases, List, [], ◌∷◌, arith, ◌==◌, if◌then◌else◌, Bool-cases, is_empty,
}
use mini_llm_runtime.PrefixIndex.{
  Node, node, Children, owners, set_erase, find_child, put_child, erase_child, erase_path,
}
use mini_llm_runtime.PrefixIndex.Maps.{contains-set_erase}
use mini_llm_runtime.PrefixIndex.Walk.{owns, owns_child, owns-cons, is_prefix}
use mini_llm_runtime.PrefixIndex.Prune.{
  Holds, Pruned, owns-root, child-Holds, kept-Pruned, erased-Pruned,
}

erase_step :
    (s t : ℕ) (ts os : List ℕ) (cs : Children) (m m' : Node) (b : Bool)
    → find_child t cs ≡ some m
    → erase_path m ts s ≡ some (m', b)
    → erase_path (node os cs) (t ∷ ts) s
      ≡ some (
          if b || not (is_empty (owners m'))
          then (node (set_erase s os) (put_child t m' cs), true)
          else (node (set_erase s os) (erase_child t cs), false))
unfolding erase_path
erase_step s t ts os cs m m' b e f = rw (e, erase_path) (rw f)

abbrev Erased : ℕ → List ℕ → Node → Type 0
Erased s ts n = (n' : Node) × (b : Bool) × (erase_path n ts s ≡ some (n', b)) × Pruned s ts n n' b

module _ (s t : ℕ) (ts os : List ℕ) (cs : Children) (m : Node)
    (here : find_child t cs ≡ some m) where
  erase_child-Erased :
      Holds s (t ∷ ts) (node os cs) → Erased s ts m → Erased s (t ∷ ts) (node os cs)
  erase_child-Erased h (m', b, e, p) =
      let step = erase_step s t ts os cs m m' b here e in
      elim (Bool-cases (is_empty (owners m'))) [
        | inr some_owner ↦ (
          node (set_erase s os) (put_child t m' cs),
          true,
          step ∙ ground arith,
          kept-Pruned s t ts os cs m here m' b h p some_owner,
        )
        | inl none_left ↦
            let going : b ≡ false = ground (arith, p.stop) in
            (
              node (set_erase s os) (erase_child t cs),
              false,
              step ∙ ground arith,
              erased-Pruned s t ts os cs m here m' h (subst (Pruned s ts m m') going p) none_left,
            )
      ]

-- The walk of `erase` finds its whole path, and leaves a pruned trie.
pub erase_path-Pruned : (s : ℕ) (n : Node) (ts : List ℕ) → Holds s ts n → Erased s ts n
unfolding erase_path
erase_path-Pruned s (node os cs) [] h = (
  node (set_erase s os) cs,
  false,
  refl,
  record { ownership = λ k path. root_only k path; stop = λ e. cc; below = h.below },
)
  where
    root_only :
        (k : ℕ) (path : List ℕ)
        → owns k (node (set_erase s os) cs) path
          ≡ (if k == s && is_prefix path [] then false else owns k (node os cs) path)
    root_only k [] = ground (
      arith,
      owns-root k (node (set_erase s os) cs),
      owns-root k (node os cs),
      contains-set_erase k s os,
    )
    root_only k (u ∷ path) =
        rw (owns-cons (set_erase s os) cs u path k, owns-cons os cs u path k) (ground arith)
erase_path-Pruned s (node os cs) (t ∷ ts) h = elim (Option-cases (find_child t cs)) [
  | inl e ↦ absurd (lost e)
  | inr (m, e) ↦
      erase_child-Erased s t ts os cs m e h
        (erase_path-Pruned s m ts (child-Holds s t ts os cs m e h))
]
  where
    lost : find_child t cs ≡ none → ⊥
    lost e = cc (h.entered, owns-cons os cs t ts s, ap (λ o. owns_child s o ts) e)
