-- ===== src/Engine/Action.antt =====
-- Calls on the engine: they return, throw, or have no defined behaviour, as where the code reads
-- the back of an empty vector. What was written before a throw stays written.
use mini_llm_runtime.Base.{ℕ, ◌+◌, Bool, Option, none, some, Error, Result, ok, err, if◌then◌else◌}
use mini_llm_runtime.BlockPool.{BlockPool}
use mini_llm_runtime.PrefixIndex.{PrefixIndex}
use mini_llm_runtime.Engine.{Engine}

pub data Outcome (A : Type 0) : Type 0 where
  returned : A → Outcome A
  raised : Error → Outcome A
  undefined : Outcome A

abbrev pub Action : Type 0 → Type 0 → Type 0
Action R A = Engine R → Outcome A × Engine R

abbrev pub of_result : {A : Type 0} → Result A → Outcome A
of_result (ok a) = returned a
of_result (err x) = raised x

module _ {R A : Type 0} where
  unfoldable pub pure : A → Action R A
  pure a e = (returned a, e)

  unfoldable pub raise : Error → Action R A
  raise x e = (raised x, e)

  unfoldable pub stuck : Action R A
  stuck e = (undefined, e)

  unfoldable pub gets : (Engine R → A) → Action R A
  gets f e = (returned (f e), e)

  -- `*optional`, `vector::back()` and the like
  unfoldable pub or_stuck : Option A → Action R A
  unfolding stuck pure
  or_stuck none = stuck
  or_stuck (some a) = pure a

  unfoldable pub lift : Result A → Action R A
  lift r e = (of_result r, e)

  unfoldable pub on_pool : (BlockPool → Result A × BlockPool) → Action R A
  on_pool f e = let (r, p) = f e.pool in (of_result r, record e { pool = p })

  -- The operations of the index leave it as it is when they throw.
  unfoldable pub on_prefixes : (PrefixIndex → Result (A × PrefixIndex)) → Action R A
  on_prefixes f e = elim (f e.prefixes) [
    | err x ↦ (raised x, e)
    | ok (a, p) ↦ (returned a, record e { prefixes = p })
  ]

infixl 5 ◌>>=◌ ◌>>◌
unfoldable pub ◌>>=◌ : {R A B : Type 0} → Action R A → (A → Action R B) → Action R B
◌>>=◌ m f e =
    let (r, e') = m e in
    elim r [ returned a ↦ f a e' | raised x ↦ (raised x, e') | undefined ↦ (undefined, e') ]

abbrev pub ◌>>◌ : {R A B : Type 0} → Action R A → Action R B → Action R B
m >> n = m >>= λ _. n

module _ {R : Type 0} where
  unfoldable pub modify : (Engine R → Engine R) → Action R (Unit {0})
  modify f e = (returned tt, f e)

  abbrev pub skip : Action R (Unit {0})
  skip = pure tt

  abbrev pub when : Bool → Action R (Unit {0}) → Action R (Unit {0})
  when b m = if b then m else skip

  -- The number of the next observation.
  unfoldable pub observe : Action R ℕ
  observe e = (returned e.observations, record e { observations = e.observations + 1 })
