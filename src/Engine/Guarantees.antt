-- ===== src/Engine/Guarantees.antt =====
-- What the engine promises, as statements about its calls.
use Prim.Native.String.{String}
use mini_llm_runtime.Base.{
  [], ◌∷◌, All, get_elem?, ap, ◌∙◌, some, ℕ, ◌-◌, min, ◌≡◌, ◌≢◌, refl, subst, Bool, false, Option,
  List, length, ok,
}
use mini_llm_runtime.Config.{EngineConfig}
use mini_llm_runtime.PrefixIndex.{PrefixMatch, size}
use mini_llm_runtime.Runner.{ModelRunner}
use mini_llm_runtime.Engine.{Request, Active, World, Engine}
use mini_llm_runtime.Engine.Action.{Outcome, returned, raised, undefined}
use mini_llm_runtime.Engine.Finish.{expire_requests}
use mini_llm_runtime.Engine.Admit.{make_room, admit_waiting, cache_prompt}
use mini_llm_runtime.Engine.Run.{terminate_all}
use mini_llm_runtime.Engine.Construct.{construct}
use mini_llm_runtime.Engine.Grants.{IsMatched}
use mini_llm_runtime.Engine.Logic.{Live, Core, core, Inv, Holds}
use mini_llm_runtime.Engine.Ends.{expire_requests-Runs}
use mini_llm_runtime.Engine.Admissions.{IsShort, Roomy, make_room-Runs}
use mini_llm_runtime.Engine.Waiting.{admit_waiting-Runs}
use mini_llm_runtime.Engine.Caching.{cache_prompt-Runs}
use mini_llm_runtime.Engine.Batch.{iteration}
use mini_llm_runtime.Engine.Iterations.{iteration-Runs}
use mini_llm_runtime.Engine.Shutdown.{IsVacant, vacant, terminate_all-Runs}
use mini_llm_runtime.Engine.Start.{construct-Inv, construct-empty}

-- The call has no undefined behaviour, and leaves the balance whether it returns or throws.
abbrev pub IsKept : {R A : Type 0} → Outcome A × Engine R → Type 0
IsKept (o, e) = (o ≢ undefined) × Inv (core e)

module _ {R A : Type 0} (Q : A → Core → Type 0) where
  Holds-IsKept :
      ((a : A) (c : Core) → Q a c → Inv c) → (r : Outcome A × Engine R) → Holds Inv Q r → IsKept r
  Holds-IsKept k (returned a, e) q = (λ h. cc, k a (core e) q)
  Holds-IsKept k (raised x, e) v = (λ h. cc, v)
  Holds-IsKept k (undefined, e) q = absurd q

  Holds-returned :
      (r : Outcome A × Engine R)
      → Holds (λ _. ⊥) Q r
      → (a : A) × (e : Engine R) × (r ≡ (returned a, e)) × Q a (core e)
  Holds-returned (returned a, e) q = (a, e, refl, q)
  Holds-returned (raised x, e) q = absurd q
  Holds-returned (undefined, e) q = absurd q

  Holds-post :
      (r : Outcome A × Engine R) (a : A) → Holds Inv Q r → r.0 ≡ returned a → Q a (core r.1)
  Holds-post (returned b, e) a q h = let same : b ≡ a = cc in subst (λ x. Q x (core e)) same q
  Holds-post (raised x, e) a q h = cc
  Holds-post (undefined, e) a q h = absurd q

-- An engine that is built is balanced, with nothing held: no request, no cached prompt, no block,
-- and every sequence free.
pub construct-IsVacant :
    {R : Type 0} (m : ModelRunner R) (config : EngineConfig) (runner : R) (e : Engine R)
    → construct m config runner ≡ ok e
    → Inv (core e) × IsVacant (core e)
construct-IsVacant m config runner e made =
    let v = construct-Inv m config runner e made in
    let (no_active, no_waiting, no_entries) = construct-empty m config runner e made in
    (v, vacant (core e) v no_active no_waiting no_entries)

module _ {R : Type 0} (w : World) (m : ModelRunner R) (e : Engine R) (v : Inv (core e)) where
  -- The clean-up after a failure always returns, whatever the runner does. After it nothing is held:
  -- no request, no cached prompt, no block, and every sequence is free; and the engine is balanced.
  pub terminate_all-IsVacant :
      (reason : String) (status : ℕ)
      → (after : Engine R) × (terminate_all w m reason status false e ≡ (returned tt, after))
        × Inv (core after)
        × IsVacant (core after)
  terminate_all-IsVacant reason status =
      let (_, after, done, q) =
        Holds-returned (λ _ c. Inv c × IsVacant c) (terminate_all w m reason status false e)
          ((terminate_all-Runs w m {E = λ _. ⊥} reason status false (λ h c i. absurd cc)).at e v) in
      (after, done, q.0, q.1)

  -- The clean-up at the end has no undefined behaviour and keeps the balance; if it returns, nothing
  -- is held.
  pub terminate_all-IsKept :
      (reason : String) (status : ℕ) (check_backend : Bool)
      → let r = terminate_all w m reason status check_backend e in
        IsKept r × (r.0 ≡ returned tt → IsVacant (core r.1))
  terminate_all-IsKept reason status check_backend =
      let run =
        (terminate_all-Runs w m {E = Inv} reason status check_backend (λ _ c i. i)).at e v in
      (
        Holds-IsKept (λ _ c. Inv c × IsVacant c) (λ a c q. q.0) _ run,
        λ h. (Holds-post (λ _ c. Inv c × IsVacant c) _ tt run h).1,
      )

  -- The end of requests that are cancelled or late has no undefined behaviour and keeps the balance,
  -- whatever the clock, the clients and the runner do.
  pub expire_requests-IsKept : IsKept (expire_requests w m e)
  expire_requests-IsKept =
      Holds-IsKept (λ _. Live) (λ a c q. q.0) _ ((expire_requests-Runs w m).at e v)

  -- Admission has no undefined behaviour and keeps the balance, whatever the clock and the runner
  -- do.
  pub admit_waiting-IsKept : IsKept (admit_waiting w m e)
  admit_waiting-IsKept =
      Holds-IsKept (λ _ c. Inv c × All Any c.active) (λ a c q. q.0) _
        ((admit_waiting-Runs w m Any λ _ _. tt).at e (v, every e.active))
    where
      Any : Active → Type 0
      Any item = Unit

      every : (items : List Active) → All Any items
      every [] = tt
      every (item ∷ items) = (tt, every items)

  -- Caching the prompt of an active request that is not done has no undefined behaviour and keeps
  -- the balance, whatever the runner does; if it returns, the active requests are as before, with
  -- their blocks and sequences.
  pub cache_prompt-IsKept :
      (i : ℕ) (item : Active)
      → get_elem? e.active i ≡ some item
      → item.done ≡ false
      → let r = cache_prompt w m item e in IsKept r × (r.0 ≡ returned tt → r.1.active ≡ e.active)
  cache_prompt-IsKept i item here going =
      let run =
        (cache_prompt-Runs w m Same i item e.config going
            (λ c f. (f.0, ap (λ items. get_elem? items i) f.1 ∙ here))).at
          e (v, (refl, refl)) in
      (Holds-IsKept Kept (λ a c q. q.0) _ run, λ h. (Holds-post Kept _ tt run h).1.1)
    where
      Same : EngineConfig → List Active → List ℕ → List Request → Type 0
      Same c items fs requests = (c ≡ e.config) × (items ≡ e.active)

      Kept : Unit {0} → Core → Type 0
      Kept a c = Inv c × Same c.config c.active c.free_sequences c.waiting

  -- Where no active request is done, a batch has no undefined behaviour and keeps the balance,
  -- whether it returns or throws, whatever samples the runner returns.
  pub iteration-IsKept :
      All (λ (item : Active). item.done ≡ false) e.active → IsKept (iteration w m e)
  iteration-IsKept going =
      Holds-IsKept (λ _. Live) (λ a c q. q.0) _ ((iteration-Runs w m).at e (v, going))

  -- For a match that names an entry, the loop that makes room for a request has no undefined
  -- behaviour and keeps the balance. As many rounds as there are cached prompts are enough: when it
  -- returns, its condition does not hold.
  pub make_room-ends :
      (request : Request) (found : Option PrefixMatch)
      → IsMatched e.prefixes (min (length request.prompt) (length request.prompt - 1)) found
      → let r = make_room w m (size e.prefixes) request found e in
        IsKept r
        × ((out : Option PrefixMatch) → r.0 ≡ returned out → ¬ (IsShort request out (core r.1)))
  make_room-ends request found matched =
      let run =
        (make_room-Runs w m Any (size e.prefixes) request found).at e ((v, refl, tt), matched) in
      (
        Holds-IsKept (Roomy w m Any request) (λ a c q. q.0) _ run,
        λ out h. (Holds-post (Roomy w m Any request) _ out run h).3,
      )
    where
      Any : EngineConfig → List Active → List ℕ → List Request → Type 0
      Any c items fs requests = Unit
