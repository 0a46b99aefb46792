-- ===== src/Engine/Thread.antt =====
-- `run`, from a balanced engine: it still runs, or it holds nothing.
use mini_llm_runtime.Base.{
  ◌≡◌, refl, sym, ap, Bool, true, false, ◌||◌, not, inl, inr, Bool-cases, if◌then◌else◌, List, [],
  ◌∷◌, logic_error,
}
use mini_llm_runtime.Runner.{ModelRunner}
use mini_llm_runtime.Engine.{World, Engine}
use mini_llm_runtime.Engine.Action.{
  Action, Outcome, returned, raised, undefined, ◌>>=◌, ◌>>◌, when, pure,
}
use mini_llm_runtime.Engine.Run.{
  Round, Ending, running, stopped, failed, publish, drain_incoming, terminate_all, caught, cycle,
  run_loop, run_body, run,
}
use mini_llm_runtime.Engine.Logic.{
  AreLive, Live, Core, core, Inv, Holds, Runs, Runs-gets, Runs-raise, Runs-bind, Runs-if,
  Runs-modify, Runs-frame, Runs-skip, Runs-weaken, Runs-pure, Runs-since, require_reusable-Runs,
}
use mini_llm_runtime.Engine.Ends.{expire_requests-Runs}
use mini_llm_runtime.Engine.Waiting.{admit_waiting-Runs}
use mini_llm_runtime.Engine.Iterations.{iteration-Runs}
use mini_llm_runtime.Engine.Shutdown.{IsVacant, terminate_all-Runs}
use mini_llm_runtime.Engine.Guarantees.{terminate_all-IsVacant}

-- Some round stops the loop.
abbrev pub stops : List Round → Bool
stops [] = false
stops (round ∷ rounds) = round.stop || stops rounds

module _ {R : Type 0} (w : World) (m : ModelRunner R) where
  publish-Runs : {P : Core → Type 0} → Runs {R = R} P (publish w m) (λ _. P)
  unfolding publish
  publish-Runs = Runs-frame _ λ e. refl

  cycle-Runs : Runs {R = R} Live (cycle w m) (λ _. Live)
  unfolding cycle drain_incoming
  cycle-Runs = Runs-bind (Runs-modify {Q = Live} _ λ e v. v) λ _.
      Runs-bind (Runs-weaken (λ c v. v.0) (λ _ c v. v) (expire_requests-Runs w m)) λ _.
        Runs-bind (admit_waiting-Runs w m (λ item. item.done ≡ false) λ item h. h) λ _.
          Runs-bind (Runs-gets _) λ idle. Runs-bind (Runs-gets _) λ starved.
            Runs-bind
              (Runs-if (not idle) (λ _. iteration-Runs w m)
                λ _. Runs-if starved (λ _. Runs-raise logic_error λ c v. v.0) λ _. Runs-skip)
              λ _. publish-Runs

  -- The loop leaves exactly where a round stops it.
  run_loop-Runs :
      (rounds : List Round)
      → Runs {R = R} Live (run_loop w m rounds) (λ left c. Live c × (left ≡ stops rounds))
  unfolding run_loop
  run_loop-Runs [] = Runs-weaken (λ c v. (v, refl)) (λ _ c q. q) (Runs-pure false)
  run_loop-Runs (round ∷ rounds) = Runs-bind (Runs-frame _ λ e. refl) λ _.
      elim (Bool-cases round.stop) [
        | inl now ↦ rw now (Runs-weaken (λ c v. (v, refl)) (λ _ c q. q) (Runs-pure true))
        | inr on ↦ rw on (Runs-bind cycle-Runs λ _. run_loop-Runs rounds)
      ]

  -- What the rounds leave: the engine still runs, or it is vacant.
  abbrev pub IsLeft : List Round → Bool → Core → Type 0
  IsLeft rounds left c =
      Inv c × (left ≡ stops rounds) × (if left then IsVacant c else AreLive c.active)

  behind_loop-Runs :
      (rounds : List Round) (left : Bool)
      → Runs {R = R}
          (λ c. Live c × (left ≡ stops rounds))
          (do when left (terminate_all w m "cancelled" 503 true); pure left)
          (IsLeft rounds)
  behind_loop-Runs rounds true =
      Runs-since (λ c p. p.1)
        λ same.
          Runs-bind
            (Runs-weaken (λ c p. p.0.0) (λ _ c p. (p.0, same, p.1))
              (terminate_all-Runs w m {E = Inv} "cancelled" 503 true λ _ c v. v))
            λ _. Runs-pure true
  behind_loop-Runs rounds false =
      Runs-bind (Runs-weaken (λ c p. (p.0.0, p.1, p.0.1)) (λ _ c p. p) Runs-skip)
        λ _. Runs-pure false

  run_body-Runs : (rounds : List Round) → Runs {R = R} Live (run_body w m rounds) (IsLeft rounds)
  unfolding run_body
  run_body-Runs rounds = Runs-bind (require_reusable-Runs w m λ c v. v.0) λ _.
      Runs-bind publish-Runs
        λ _. Runs-bind (run_loop-Runs rounds) λ left. behind_loop-Runs rounds left

  -- What `run` comes to: where it still runs, no round has stopped it and no active request is done;
  -- where it has left or has caught an error, nothing is held.
  abbrev pub IsEnded : List Round → Ending → Core → Type 0
  IsEnded rounds running c = (stops rounds ≡ false) × AreLive c.active
  IsEnded rounds stopped c = (stops rounds ≡ true) × IsVacant c
  IsEnded rounds failed c = IsVacant c

  after-returned :
      {A B : Type 0} (a : Action R A) (k : A → Action R B) (x : A) (e after : Engine R)
      → a e ≡ (returned x, after)
      → (a >>= k) e ≡ k x after
  unfolding ◌>>=◌
  after-returned {A = A} a k x e after h =
      ap
        (λ (r : Outcome A × Engine R). elim r.0 [
          | returned y ↦ k y r.1
          | raised z ↦ (raised z, r.1)
          | undefined ↦ (undefined, r.1)
        ])
        h

  caught-IsEnded :
      (rounds : List Round) (r : Outcome Bool × Engine R)
      → Holds Inv (IsLeft rounds) r
      → (ending : Ending) × (after : Engine R) × (caught w m r ≡ (returned ending, after))
        × Inv (core after)
        × IsEnded rounds ending (core after)
  unfolding caught pure
  caught-IsEnded rounds (returned true, e) q = (stopped, e, refl, q.0, (sym q.1, q.2))
  caught-IsEnded rounds (returned false, e) q = (running, e, refl, q.0, (sym q.1, q.2))
  caught-IsEnded rounds (raised x, e) v =
      let (after, ended, kept, vacant) =
        terminate_all-IsVacant w m (record e { has_failed = true }) v "backend_error" 500 in
      (
        failed,
        after,
        after-returned (terminate_all w m "backend_error" 500 false) (λ _. pure failed) tt
            (record e { has_failed = true }) after ended,
        kept,
        vacant,
      )
  caught-IsEnded rounds (undefined, e) q = absurd q

  -- From a balanced engine in which no active request is done, and for any rounds of the thread,
  -- whatever the requests that arrive, the clock, the cancellations and the runner do, `run` has no
  -- undefined behaviour and the engine is balanced after the rounds. Either it still runs: no round
  -- has stopped it, nothing was thrown, and no active request is done; or a round has stopped it, or
  -- an error was caught, and then nothing is held: no request, no cached prompt, no block in use, and
  -- every sequence is free.
  pub run-IsVacant :
      (rounds : List Round) (e : Engine R)
      → Inv (core e)
      → AreLive e.active
      → (ending : Ending) × (after : Engine R) × (run w m rounds e ≡ (returned ending, after))
        × Inv (core after)
        × IsEnded rounds ending (core after)
  unfolding run
  run-IsVacant rounds e v live =
      caught-IsEnded rounds (run_body w m rounds e) ((run_body-Runs rounds).at e (v, live))
