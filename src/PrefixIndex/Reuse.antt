-- ===== src/PrefixIndex/Reuse.antt =====
-- What `match` finds in a valid index: the longest reuse that the entries of the namespace allow.
use Prim.Native.String.{String}
use mini_llm_runtime.Base.{
  ℕ, ◌+◌, ◌%◌, ◌<◌, ◌≤◌, min, ◌≡◌, refl, sym, ap, subst, dec_lt, ◌∙◌, ◌⊎◌, inl, inr, true, Option,
  none, some, Option-cases, List, arith, ◌==◌, if◌then◌else◌, Bool-cases, length, take, ok,
}
use mini_llm_runtime.PrefixIndex.{
  Node, PrefixEntry, PrefixMatch, PrefixIndex, find_root, find_entry, put_entry, touch, match_loop,
  match,
}
use mini_llm_runtime.PrefixIndex.Maps.{find_entry-put_entry, find_entry-sequence}
use mini_llm_runtime.PrefixIndex.Walk.{owns, owns_child, peopled_child, below_child}
use mini_llm_runtime.PrefixIndex.Invariant.{continues, IsAligned, IsValid}
use mini_llm_runtime.PrefixIndex.Match.{Unshared, Outcome, match_loop-Outcome}

-- Entry `k` can be used for `d` tokens: it is in the namespace and shares them, and they are whole
-- blocks within the limit.
abbrev pub IsReusable : PrefixIndex → String → List ℕ → ℕ → ℕ → ℕ → Type 0
IsReusable p ns tokens limit k d =
    (0 < d)
    × (d ≤ limit)
    × (d % p.block_size ≡ 0)
    × (continues ns (take d tokens) (find_entry k p.entries) ≡ true)

-- Nothing can be used; or the match names an entry and a length that can, and no length that can
-- is more.
abbrev pub IsBest : PrefixIndex → String → List ℕ → ℕ → Option PrefixMatch → Type 0
IsBest p ns tokens limit none = (k d : ℕ) → ¬ IsReusable p ns tokens limit k d
IsBest p ns tokens limit (some found) =
    IsReusable p ns tokens limit found.sequence found.tokens
    × ((k d : ℕ) → IsReusable p ns tokens limit k d → d ≤ found.tokens)

-- `match` changes at most the time of one entry.
abbrev pub IsTouched : PrefixIndex → PrefixIndex → Type 0
IsTouched p q =
    (q ≡ p)
    ⊎ ((s now : ℕ) × (e : PrefixEntry) × (find_entry s p.entries ≡ some e)
        × (q ≡ record p { clock = now; entries = put_entry (touch now e) p.entries }))

module _ (p : PrefixIndex) (v : IsValid p) (ns : String) (tokens : List ℕ) (max_reuse : ℕ) where
  abbrev limit : ℕ
  limit = min (length tokens) max_reuse

  module _ (root : Node) (here : find_root ns p.roots ≡ some root) where
    root-owned :
        (k : ℕ) (path : List ℕ) → owns k root path ≡ continues ns path (find_entry k p.entries)
    root-owned k path = sym (ap (λ o. owns_child k o path) here) ∙ v.owned k ns path

    from_start : (d : ℕ) → d % p.block_size ≡ 0 → (0 + d) % p.block_size ≡ 0
    from_start d whole = ap (λ x. x % p.block_size) (omega arith) ∙ whole

    beyond :
        (low k d : ℕ)
        → Unshared p.block_size limit 0 root tokens low
        → IsReusable p ns tokens limit k d
        → d ≤ low
    beyond low k d u (pos, small, whole, c) = elim (dec_lt low d) [
      | no short ↦ omega (arith, short)
      | yes long ↦ cc (
        c,
        sym (root-owned k (take d tokens)),
        u k d long small (omega (arith, small)) (from_start d whole),
      )
    ]

    Outcome-IsBest :
        (out : Option PrefixMatch)
        → Outcome p.block_size limit 0 root tokens none out
        → IsBest p ns tokens limit out
    Outcome-IsBest out (inl (e, u)) =
        subst (IsBest p ns tokens limit) (sym e) λ k d r. absurd (none_there k d r)
      where
        none_there : (k d : ℕ) → ¬ IsReusable p ns tokens limit k d
        none_there k d r = omega (arith, beyond 0 k d u r, r.0)
    Outcome-IsBest out (inr (owner, d, e, h)) =
        subst (IsBest p ns tokens limit)
          (sym (e ∙ ap (λ x. some (record { sequence = owner; tokens = x })) (omega arith)))
          (
            (
              h.pos,
              h.in_rounds,
              ap (λ x. x % p.block_size) (omega arith) ∙ h.whole,
              sym (root-owned owner (take d tokens)) ∙ h.owned,
            ),
            λ k c r. beyond d k c h.unshared r,
          )

    abbrev loop_result : Option PrefixMatch
    loop_result = match_loop p.block_size limit root tokens 0 none

    loop-IsBest : IsBest p ns tokens limit loop_result
    loop-IsBest = Outcome-IsBest loop_result (
        match_loop-Outcome p.block_size limit 0 root tokens none (
          below_child (some root)
            λ path. ap (λ o. peopled_child o path) (sym here) ∙ v.peopled ns path))

  no_root-IsBest : find_root ns p.roots ≡ none → IsBest p ns tokens limit none
  no_root-IsBest e k d r =
      cc (r.3, sym (v.owned k ns (take d tokens)), ap (λ o. owns_child k o (take d tokens)) e)

  module _ (now s : ℕ) (e : PrefixEntry) (here : find_entry s p.entries ≡ some e) where
    abbrev touched : List PrefixEntry
    touched = put_entry (touch now e) p.entries

    find_entry-touched :
        (k : ℕ)
        → find_entry k touched ≡ (if s == k then some (touch now e) else find_entry k p.entries)
    find_entry-touched k =
        find_entry-put_entry k (touch now e) p.entries
        ∙ ap (λ i. if i == k then some (touch now e) else find_entry k p.entries)
            (find_entry-sequence s p.entries e here)

    own : (k : ℕ) → s == k ≡ true → find_entry k p.entries ≡ some e
    own k h = ap (λ i. find_entry i p.entries) (ground arith) ∙ here

    pub continues-touched :
        (k : ℕ) (name : String) (path : List ℕ)
        → continues name path (find_entry k touched) ≡ continues name path (find_entry k p.entries)
    continues-touched k name path = ap (continues name path) (find_entry-touched k) ∙ cases
      where
        cases :
            continues name path (if s == k then some (touch now e) else find_entry k p.entries)
            ≡ continues name path (find_entry k p.entries)
        cases = elim (Bool-cases (s == k)) [
          | inl hit ↦ rw hit (sym (ap (continues name path) (own k hit)))
          | inr miss ↦ rw miss refl
        ]

    touched-IsAligned :
        (k : ℕ) (f : PrefixEntry) → find_entry k touched ≡ some f → IsAligned p.block_size f
    touched-IsAligned k f h = elim (Bool-cases (s == k)) [
      | inl hit ↦
          let same : touch now e ≡ f = ground (arith, h, find_entry-touched k) in
          subst (IsAligned p.block_size) same (v.aligned s e here)
      | inr miss ↦ v.aligned k f (ground (arith, h, find_entry-touched k))
    ]

    touched-IsValid : (c : ℕ) → IsValid (record p { clock = c; entries = touched })
    touched-IsValid c = record {
      block_pos = v.block_pos;
      owned = λ k name path. v.owned k name path ∙ sym (continues-touched k name path);
      peopled = v.peopled;
      aligned = touched-IsAligned;
    }

  -- What `match` returns, and the index that it leaves.
  abbrev pub Served : Type 0
  Served =
      (out : Option PrefixMatch) × (q : PrefixIndex) × (match ns tokens max_reuse p ≡ ok (out, q))
      × IsBest p ns tokens limit out
      × IsValid q

  found_entry :
      (m : PrefixMatch)
      → IsBest p ns tokens limit (some m)
      → (e : PrefixEntry) × (find_entry m.sequence p.entries ≡ some e)
  found_entry m best = elim (Option-cases (find_entry m.sequence p.entries)) [
    | inr hit ↦ hit
    | inl miss ↦ absurd (cc (best.0.3, ap (continues ns (take m.tokens tokens)) miss))
  ]

  -- All that `match` does.
  pub match_lem :
      (out : Option PrefixMatch) × (q : PrefixIndex) × (match ns tokens max_reuse p ≡ ok (out, q))
      × IsBest p ns tokens limit out
      × IsValid q
      × IsTouched p q
  unfolding match
  match_lem = elim (Option-cases (find_root ns p.roots)) [
    | inl e ↦ (none, p, rw (e, match) refl, no_root-IsBest e, v, inl refl)
    | inr (root, e) ↦
        let best = loop-IsBest root e in
        elim (Option-cases (loop_result root e)) [
          | inl f ↦ (
            none,
            p,
            rw (e, match) (rw f refl),
            subst (IsBest p ns tokens limit) f best,
            v,
            inl refl,
          )
          | inr (m, f) ↦
              let best' = subst (IsBest p ns tokens limit) f best in
              let (x, g) = found_entry m best' in
              (
                some m,
                record p { clock = p.clock + 1; entries = touched (p.clock + 1) m.sequence x g },
                rw (e, match) (rw f (rw g refl)),
                best',
                touched-IsValid (p.clock + 1) m.sequence x g (p.clock + 1),
                inr (m.sequence, p.clock + 1, x, g, refl),
              )
        ]
  ]

  -- In a valid index `match` does not throw; the index stays valid, and the match is the best
  -- there is: the entry it names is in the namespace and shares the tokens that it counts, whole
  -- blocks within the limit, and no entry of the namespace shares more whole blocks; it finds
  -- nothing only if there is no such entry.
  pub match-IsBest : Served
  match-IsBest = let (out, q, matched, best, valid, _) = match_lem in (out, q, matched, best, valid)
