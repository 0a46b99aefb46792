-- ===== src/PrefixIndex/Match.antt =====
-- The loop of `match` over the trie: the longest aligned prefix that somebody owns.
use mini_llm_runtime.Base.{
  ℕ, zero, suc, ◌+◌, ◌%◌, ◌<◌, ◌≤◌, ◌≡◌, refl, sym, ap, subst, ◌∙◌, inl, inr, ◌⊎◌, true, false, not,
  Option, none, some, Option-cases, List, [], ◌∷◌, arith, ◌==◌, ==_self, if◌then◌else◌, Bool-cases,
  is_empty, contains, length, take,
}
use mini_llm_runtime.PrefixIndex.{
  Node, node, Children, owners, PrefixMatch, find_child, head_or_zero, match_loop,
}
use mini_llm_runtime.PrefixIndex.Walk.{
  owns, peopled, owns_child, peopled_child, owns-cons, IsPeopledBelow,
}
use mini_llm_runtime.PrefixIndex.Prune.{owns-root, peopled-root, below_of}

-- In the trie below `n`, nobody owns a prefix of the tokens whose length is more than `low` and at
-- most `rounds`, and ends a block.
abbrev pub Unshared : ℕ → ℕ → ℕ → Node → List ℕ → ℕ → Type 0
Unshared block rounds i n tokens low =
    (k d : ℕ)
    → low < d
    → d ≤ rounds
    → d ≤ length tokens
    → (i + d) % block ≡ 0
    → owns k n (take d tokens) ≡ false

-- `owner` owns the longest such prefix.
pub record IsLongest (block rounds i : ℕ) (n : Node) (tokens : List ℕ) (owner d : ℕ) : Type 0 where
  pub pos : 0 < d
  pub in_rounds : d ≤ rounds
  pub in_tokens : d ≤ length tokens
  pub whole : (i + d) % block ≡ 0
  pub owned : owns owner n (take d tokens) ≡ true
  pub unshared : Unshared block rounds i n tokens d

abbrev pub Outcome : ℕ → ℕ → ℕ → Node → List ℕ → Option PrefixMatch → Option PrefixMatch → Type 0
Outcome block rounds i n tokens result out =
    ((out ≡ result) × Unshared block rounds i n tokens 0)
    ⊎ ((owner : ℕ) × (d : ℕ) × (out ≡ some (record { sequence = owner; tokens = i + d }))
        × IsLongest block rounds i n tokens owner d)

head_owner : (os : List ℕ) → not (is_empty os) ≡ true → contains (head_or_zero os) os ≡ true
head_owner [] h = cc
head_owner (o ∷ os) h = rw (==_self o) refl

module _ (block rounds i t : ℕ) (tokens os : List ℕ) (cs : Children) where
  no_child-Unshared :
      (low : ℕ) → find_child t cs ≡ none → Unshared block rounds i (node os cs) (t ∷ tokens) low
  no_child-Unshared low e k zero l r s a = absurd (omega arith)
  no_child-Unshared low e k (suc d) l r s a =
      owns-cons os cs t (take d tokens) k ∙ ap (λ o. owns_child k o (take d tokens)) e

  module _ (m : Node) (here : find_child t cs ≡ some m) where
    owns_next : (k : ℕ) (path : List ℕ) → owns k (node os cs) (t ∷ path) ≡ owns k m path
    owns_next k path = owns-cons os cs t path k ∙ ap (λ o. owns_child k o path) here

    next-Unshared :
        (low : ℕ)
        → Unshared block rounds (i + 1) m tokens low
        → Unshared block (suc rounds) i (node os cs) (t ∷ tokens) (suc low)
    next-Unshared low u k zero l r s a = absurd (omega arith)
    next-Unshared low u k (suc d) l r s a =
        owns_next k (take d tokens)
        ∙ u k d (omega arith) (omega arith) (omega arith) (ap (λ x. x % block) (omega arith) ∙ a)

    skip-Unshared :
        (i + 1) % block == 0 ≡ false
        → Unshared block (suc rounds) i (node os cs) (t ∷ tokens) 1
        → Unshared block (suc rounds) i (node os cs) (t ∷ tokens) 0
    skip-Unshared broken u k zero l r s a = absurd (omega arith)
    skip-Unshared broken u k (suc zero) l r s a = absurd (ground arith)
    skip-Unshared broken u k (suc (suc d)) l r s a = u k (suc (suc d)) (omega arith) r s a

    next-Outcome :
        (result out : Option PrefixMatch)
        → ((path : List ℕ) → peopled m path ≡ true)
        → Outcome block rounds
            (i + 1)
            m
            tokens
            (if (i + 1) % block == 0
              then some (record { sequence = head_or_zero (owners m); tokens = i + 1 })
              else result)
            out
        → Outcome block (suc rounds) i (node os cs) (t ∷ tokens) result out
    next-Outcome result out b (inr (owner, d, e, h)) = inr (
      owner,
      suc d,
      e ∙ ap (λ x. some (record { sequence = owner; tokens = x })) (omega arith),
      record {
        pos = omega arith;
        in_rounds = omega (arith, h.in_rounds);
        in_tokens = omega (arith, h.in_tokens);
        whole = ap (λ x. x % block) (omega arith) ∙ h.whole;
        owned = owns_next owner (take d tokens) ∙ h.owned;
        unshared = next-Unshared d h.unshared;
      },
    )
    next-Outcome result out b (inl (e, u)) = elim (Bool-cases ((i + 1) % block == 0)) [
      | inl whole ↦ inr (
        head_or_zero (owners m),
        1,
        e ∙ rw whole refl,
        record {
          pos = omega arith;
          in_rounds = omega arith;
          in_tokens = omega arith;
          whole = ground arith;
          owned =
              owns_next (head_or_zero (owners m)) []
              ∙ owns-root (head_or_zero (owners m)) m
              ∙ head_owner (owners m) (sym (peopled-root m) ∙ b []);
          unshared = next-Unshared 0 u;
        },
      )
      | inr broken ↦ inl (e ∙ rw broken refl, skip-Unshared broken (next-Unshared 0 u))
    ]

pub match_loop-Outcome :
    (block rounds i : ℕ) (n : Node) (tokens : List ℕ) (result : Option PrefixMatch)
    → IsPeopledBelow n
    → Outcome block rounds i n tokens result (match_loop block rounds n tokens i result)
unfolding match_loop
match_loop-Outcome block zero i n tokens result b = inl (refl, λ k d l r s a. absurd (omega arith))
match_loop-Outcome block (suc rounds) i n [] result b =
    inl (refl, λ k d l r s a. absurd (omega arith))
match_loop-Outcome block (suc rounds) i (node os cs) (t ∷ tokens) result b =
    elim (Option-cases (find_child t cs)) [
      | inl e ↦
          inl (rw (e, match_loop) refl, no_child-Unshared block (suc rounds) i t tokens os cs 0 e)
      | inr (m, e) ↦
          let kept : (path : List ℕ) → peopled m path ≡ true =
            λ path. ap (λ o. peopled_child o path) (sym e) ∙ b t path in
          let result' =
            (if (i + 1) % block == 0
              then some (record { sequence = head_or_zero (owners m); tokens = i + 1 })
              else result) in
          next-Outcome block rounds i t tokens os cs m e result
            (match_loop block (suc rounds) (node os cs) (t ∷ tokens) i result) kept
            (subst (Outcome block rounds (i + 1) m tokens result') (sym (rw (e, match_loop) refl))
              (match_loop-Outcome block rounds (i + 1) m tokens result' (below_of m kept)))
    ]
