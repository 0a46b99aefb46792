-- ===== src/Parallel/Coverage.antt =====
-- Every index is worked on once.
use native.Mathlib.Nat.{mod-eq_of_lt}
use mini_llm_runtime.Base.{
  ℕ, zero, suc, ◌+◌, ◌<◌, ◌≤◌, min, ◌≡◌, ◌≢◌, refl, subst, ap, ◌∙◌, ◌*◌, ◌%◌, u64_mod, get_elem?,
  set, inl, inr, ◌⊎◌, Bool, true, false, ◌||◌, some, List, [], ◌∷◌, ◌++◌, arith, leb, ltb,
  if◌then◌else◌, replicate, All, All-append, Bool-cases, ok,
}
use mini_llm_runtime.Parallel.{Chunk, Executor, begin_run, consume_round, picks, Reach, here, later}

-- 1 for an index of the chunk.
abbrev pub has : ℕ → Chunk → ℕ
has i c = if leb c.first i then if ltb i c.end then 1 else 0 else 0

-- How often an index is worked on.
abbrev pub times : ℕ → List Chunk → ℕ
times i [] = 0
times i (c ∷ cs) = has i c + times i cs

times-append : (i : ℕ) (cs ds : List Chunk) → times i (cs ++ ds) ≡ times i cs + times i ds
times-append i [] ds = omega arith
times-append i (c ∷ cs) ds = omega (arith, times-append i cs ds)

-- Some worker has left the loop.
abbrev some_ended : List Bool → Bool
some_ended [] = false
some_ended (b ∷ bs) = b || some_ended bs

-- What the workers that are still in the loop add to the counter, each by one more round.
abbrev slack : ℕ → List Bool → ℕ
slack grain [] = 0
slack grain (b ∷ bs) = (if b then 0 else grain) + slack grain bs

slack-replicate : (grain n : ℕ) → slack grain (replicate n false) ≡ n * grain
slack-replicate grain zero = omega arith
slack-replicate grain (suc n) = omega (arith, slack-replicate grain n)

slack-set :
    (grain : ℕ) (bs : List Bool) (i : ℕ)
    → get_elem? bs i ≡ some false
    → slack grain (set bs i true) + grain ≡ slack grain bs
slack-set grain [] i h = cc
slack-set grain (b ∷ bs) zero h = let running : b ≡ false = cc in rw running (omega arith)
slack-set grain (b ∷ bs) (suc i) h = omega (arith, slack-set grain bs i h)

-- What holds after any rounds: every index below the counter was worked on once, no other; the chunks
-- are within the range and the grain; the counter has room for the rounds that the workers still
-- make, `spare` being what all of them add by one round each; while nothing has failed, a worker leaves only at the end.
pub record IsShared (count grain spare : ℕ) (e : Executor) : Type 0 where
  pub same : (e.count ≡ count) × (e.grain ≡ grain)
  pub covered :
      (i : ℕ) → times i e.chunks ≡ (if ltb i count then if ltb i e.next then 1 else 0 else 0)
  pub bounded :
      All (λ (c : Chunk). (c.first < c.end) × (c.end ≤ count) × (c.end ≤ c.first + grain)) e.chunks
  pub fewer : slack grain e.ended ≤ spare
  pub near : e.next + slack grain e.ended < count + grain + spare
  pub finished : some_ended e.ended ≡ true → (e.failed ≡ true) ⊎ (count ≤ e.next)

module _ (count grain spare : ℕ) (pos : 0 < grain) (room : count + grain + spare ≤ u64_mod) where
  round-IsShared :
      (worker : ℕ) (throws : Bool) (e : Executor)
      → get_elem? e.ended worker ≡ some false
      → IsShared count grain spare e
      → IsShared count grain spare (consume_round worker throws e)
  unfolding consume_round
  round-IsShared worker throws e runs v =
      let gone : slack grain (set e.ended worker true) + grain ≡ slack grain e.ended =
        slack-set grain e.ended worker runs in
      let whole : (e.next + e.grain) % u64_mod ≡ e.next + grain =
        mod-eq_of_lt (omega (arith, v.near, v.same, gone, room)) ∙ ap (λ g. e.next + g) v.same.1 in
      elim (Bool-cases (leb e.count e.next)) [
        | inl over ↦
            rw (whole, over)
              (record {
                same = v.same;
                covered = λ i. ground (arith, v.covered i, v.same, over);
                bounded = v.bounded;
                fewer = omega (arith, v.fewer, gone);
                near = omega (arith, v.near, gone);
                finished = λ h. inr (ground (arith, v.same, over));
              })
        | inr going ↦
            rw (whole, going)
              (record {
                same = v.same;
                covered = λ i. ground (
                  arith,
                  v.covered i,
                  v.same,
                  going,
                  pos,
                  times-append i e.chunks (
                      record { worker = worker; first = e.next; end = min e.count (e.next + grain) }
                      ∷ []),
                );
                bounded = All-append _ e.chunks _ v.bounded (
                  (
                    ground (arith, v.same, going, pos),
                    ground (arith, v.same),
                    ground (arith, v.same),
                  ),
                  tt,
                );
                fewer = elim (Bool-cases throws) [
                  | inl thrown ↦ rw thrown (omega (arith, v.fewer, gone))
                  | inr fine ↦ rw fine v.fewer
                ];
                near = elim (Bool-cases throws) [
                  | inl thrown ↦ rw thrown (omega (arith, v.near, gone))
                  | inr fine ↦ rw fine (ground (arith, v.fewer, v.same, going))
                ];
                finished = λ h. elim (Bool-cases throws) [
                  | inl thrown ↦ inl (rw thrown (ground arith))
                  | inr fine ↦ elim (v.finished (ground (arith, h, fine))) [
                    | inl failed ↦ inl (rw failed refl)
                    | inr passed ↦ inr (omega (arith, passed))
                  ]
                ];
              })
      ]

  Reach-IsShared :
      {e f : Executor} → Reach e f → IsShared count grain spare e → IsShared count grain spare f
  Reach-IsShared here v = v
  Reach-IsShared (later r (picks worker throws runs)) v =
      round-IsShared worker throws _ runs (Reach-IsShared r v)

all_false : (n : ℕ) → some_ended (replicate n false) ≡ false
all_false zero = refl
all_false (suc n) = all_false n

-- Where `count + (threads + 1) * grain` is at most 2 ^ 64, so that the counter does not wrap: however
-- the workers interleave, when all of them, one at least, have left the loop and none has
-- failed, every index below the count was worked on exactly once and no other; and every chunk, at
-- any time, is not empty, within the range, and not longer than the grain.
pub run-covers :
    (threads count grain : ℕ) (start e : Executor)
    → count + (threads + 1) * grain ≤ u64_mod
    → begin_run threads count grain ≡ ok (some start)
    → Reach start e
    → All (λ (c : Chunk). (c.first < c.end) × (c.end ≤ count) × (c.end ≤ c.first + grain)) e.chunks
      × (All (λ (b : Bool). b ≡ true) e.ended
          → e.ended ≢ []
          → e.failed ≡ false
          → (i : ℕ) → times i e.chunks ≡ (if ltb i count then 1 else 0))
unfolding begin_run
run-covers threads count grain start e room begun r =
    let v =
      Reach-IsShared count grain (threads * grain) (ground (arith, begun)) (omega (arith, room)) r
        initial in
    (
      v.bounded,
      λ all members fine i. elim (v.finished (one e.ended all members)) [
        | inl failed ↦ cc
        | inr passed ↦ ground (arith, v.covered i, passed)
      ],
    )
  where
    one : (bs : List Bool) → All (λ (b : Bool). b ≡ true) bs → bs ≢ [] → some_ended bs ≡ true
    one [] h members = absurd (members refl)
    one (b ∷ bs) h members = rw h.0 refl

    begun_as :
        record {
          count = count;
          grain = grain;
          next = 0;
          ended = replicate threads false;
          failed = false;
          chunks = [];
        }
        ≡ start
    begun_as = ground (arith, begun)

    initial : IsShared count grain (threads * grain) start
    initial = subst (IsShared count grain (threads * grain)) begun_as (record {
      same = (refl, refl);
      covered = λ i. ground arith;
      bounded = tt;
      fewer = omega (arith, slack-replicate grain threads);
      near = ground (arith, slack-replicate grain threads, begun);
      finished = λ h. absurd (cc (h, all_false threads));
    })
