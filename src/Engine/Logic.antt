-- ===== src/Engine/Logic.antt =====
-- Reasoning about calls on the engine: what holds before, what holds after a return; a call that
-- throws leaves the balance, and none has undefined behaviour. Only the members of `Core` matter to
-- that, so what changes only the others keeps every such condition.
use mini_llm_runtime.Base.{
  All, ℕ, ◌≡◌, refl, subst, sym, Bool, true, false, not, ◌||◌, Option, none, some, List, Error,
  Result, ok, err, if◌then◌else◌, runtime_error,
}
use mini_llm_runtime.Config.{EngineConfig}
use mini_llm_runtime.BlockPool.{BlockPool}
use mini_llm_runtime.PrefixIndex.{PrefixIndex}
use mini_llm_runtime.Request.{Event}
use mini_llm_runtime.Runner.{ModelRunner, RunnerResources}
use mini_llm_runtime.Engine.{Request, Active, EventData, World, Engine}
use mini_llm_runtime.Engine.Action.{
  observe, or_stuck, on_pool, on_prefixes, of_result, Action, Outcome, returned, raised, undefined,
  pure, raise, gets, lift, ◌>>=◌, modify, skip, when,
}
use mini_llm_runtime.Engine.Finish.{is_cancelled, terminal, require_reusable, expired, emit_event}
use mini_llm_runtime.Engine.Admit.{copy_tokens}
use mini_llm_runtime.Engine.Balance.{IsBalanced}

pub record Core : Type 0 where
  pub config : EngineConfig
  pub pool : BlockPool
  pub prefixes : PrefixIndex
  pub active : List Active
  pub free_sequences : List ℕ
  pub free_cache_sequences : List ℕ
  pub waiting : List Request

abbrev pub core : {R : Type 0} → Engine R → Core
core e = record {
  config = e.config;
  pool = e.pool;
  prefixes = e.prefixes;
  active = e.active;
  free_sequences = e.free_sequences;
  free_cache_sequences = e.free_cache_sequences;
  waiting = e.waiting;
}

-- No request is done.
abbrev pub AreLive : List Active → Type 0
AreLive items = All (λ (item : Active). item.done ≡ false) items

abbrev pub Inv : Core → Type 0
Inv c = IsBalanced c.config c.pool c.prefixes c.active c.free_sequences c.free_cache_sequences

-- The balance, with no request that is done.
abbrev pub Live : Core → Type 0
Live c = Inv c × AreLive c.active

module _ {R A : Type 0} where
  -- What holds after an outcome: `E` after a throw, `Q` after a return.
  abbrev pub Holds : (Core → Type 0) → (A → Core → Type 0) → Outcome A × Engine R → Type 0
  Holds E Q (returned a, e) = Q a (core e)
  Holds E Q (raised x, e) = E (core e)
  Holds E Q (undefined, e) = ⊥

  pub record RunsOr (E P : Core → Type 0) (m : Action R A) (Q : A → Core → Type 0) : Type 0 where
    pub at : (e : Engine R) → P (core e) → Holds E Q (m e)

  -- A throw leaves the balance.
  abbrev pub Runs : (Core → Type 0) → Action R A → (A → Core → Type 0) → Type 0
  Runs P m Q = RunsOr Inv P m Q

  -- There is no throw.
  abbrev pub Returns : (Core → Type 0) → Action R A → (A → Core → Type 0) → Type 0
  Returns P m Q = RunsOr (λ _. ⊥) P m Q

module _ {R A : Type 0} (E : Core → Type 0) where
  weaken-Holds :
      {Q S : A → Core → Type 0}
      → ((a : A) (c : Core) → Q a c → S a c)
      → (o : Outcome A × Engine R) → Holds E Q o
      → Holds E S o
  weaken-Holds k (returned a, e) q = k a (core e) q
  weaken-Holds k (raised x, e) q = q
  weaken-Holds k (undefined, e) q = q

module _ {R A : Type 0} {E : Core → Type 0} where
  pub Runs-pure : {Q : A → Core → Type 0} (a : A) → RunsOr {R = R} E (Q a) (pure a) Q
  unfolding pure
  Runs-pure a = record { at = λ e p. p }

  pub Runs-raise :
      {P : Core → Type 0} {Q : A → Core → Type 0} (x : Error)
      → ((c : Core) → P c → E c)
      → RunsOr {R = R} E P (raise x) Q
  unfolding raise
  Runs-raise x i = record { at = λ e p. i (core e) p }

  pub Runs-gets : {P : Core → Type 0} (f : Engine R → A) → RunsOr {R = R} E P (gets f) (λ _. P)
  unfolding gets
  Runs-gets f = record { at = λ e p. p }

  pub Runs-reads :
      {P : Core → Type 0} (f : Core → A)
      → RunsOr {R = R} E P (gets (λ e. f (core e))) (λ a c. P c × (a ≡ f c))
  unfolding gets
  Runs-reads f = record { at = λ e p. (p, refl) }

  pub Runs-known :
      {P : Core → Type 0} (o : Option A)
      → ((c : Core) → P c → (a : A) × (o ≡ some a))
      → RunsOr {R = R} E P (or_stuck o) (λ a c. P c × (o ≡ some a))
  unfolding or_stuck
  Runs-known {P = P} o h = record {
    at = λ e p.
        let (a, found) = h (core e) p in
        subst (λ u. Holds E (λ x c. P c × (o ≡ some x)) (or_stuck u e)) (sym found) (p, found);
  }

  -- `or_stuck` of what is known to be there.
  pub Runs-or_stuck :
      {P : Core → Type 0} (f : Core → Option A)
      → ((c : Core) → P c → (a : A) × (f c ≡ some a))
      → RunsOr {R = R} E P (λ e. or_stuck (f (core e)) e) (λ a c. P c × (f c ≡ some a))
  unfolding or_stuck
  Runs-or_stuck {P = P} f h = record {
    at = λ e p.
        let (a, found) = h (core e) p in
        subst (λ o. Holds E (λ x c. P c × (f c ≡ some x)) (or_stuck o e)) (sym found) (p, found);
  }

  pub Runs-lift_known :
      {P : Core → Type 0} (f : Core → Result A)
      → ((c : Core) → P c → (a : A) × (f c ≡ ok a))
      → RunsOr {R = R} E P (λ e. lift (f (core e)) e) (λ a c. P c × (f c ≡ ok a))
  unfolding lift
  Runs-lift_known {P = P} f h = record {
    at = λ e p.
        let (a, found) = h (core e) p in
        subst (λ r. Holds E (λ x c. P c × (f c ≡ ok x)) (lift r e)) (sym found) (p, found);
  }

  -- A call of the pool that is known to return.
  pub Runs-on_pool :
      {P : Core → Type 0} {Q : A → Core → Type 0} (f : BlockPool → Result A × BlockPool)
      → ((c : Core)
          → P c
          → (a : A) × ((f c.pool).0 ≡ ok a) × Q a (record c { pool = (f c.pool).1 }))
      → RunsOr {R = R} E P (on_pool f) Q
  unfolding on_pool
  Runs-on_pool {Q = Q} f h = record {
    at = λ e p.
        let (a, done, q) = h (core e) p in
        subst (λ r. Holds E Q (of_result r, record e { pool = (f e.pool).1 })) (sym done) q;
  }

  -- A call of the index that is known to return.
  pub Runs-on_prefixes :
      {P : Core → Type 0} {Q : A → Core → Type 0} (f : PrefixIndex → Result (A × PrefixIndex))
      → ((c : Core)
          → P c
          → (a : A) × (p : PrefixIndex) × (f c.prefixes ≡ ok (a, p))
            × Q a (record c { prefixes = p }))
      → RunsOr {R = R} E P (on_prefixes f) Q
  unfolding on_prefixes
  Runs-on_prefixes {Q = Q} f h = record {
    at = λ e p.
        let (a, q, done, k) = h (core e) p in
        subst
          (λ r. Holds {R = R} E Q (elim r [
            | err x ↦ (raised x, e)
            | ok (b, i) ↦ (returned b, record e { prefixes = i })
          ]))
          (sym done) k;
  }

  lift-Holds :
      {P : Core → Type 0} (r : Result A) (e : Engine R)
      → ((c : Core) → P c → E c)
      → P (core e)
      → Holds E (λ a c. P c × (r ≡ ok a)) (lift r e)
  unfolding lift
  lift-Holds (ok a) e i p = (p, refl)
  lift-Holds (err x) e i p = i (core e) p

  pub Runs-lift :
      {P : Core → Type 0} (r : Result A)
      → ((c : Core) → P c → E c)
      → RunsOr {R = R} E P (lift r) (λ a c. P c × (r ≡ ok a))
  unfolding lift
  Runs-lift {P = P} r i = record { at = λ e p. lift-Holds {P = P} r e i p }

  pub Runs-if :
      {P : Core → Type 0} {Q : A → Core → Type 0} (b : Bool) {m n : Action R A}
      → (b ≡ true → RunsOr {R = R} E P m Q)
      → (b ≡ false → RunsOr {R = R} E P n Q)
      → RunsOr {R = R} E P (if b then m else n) Q
  Runs-if true hm hn = hm refl
  Runs-if false hm hn = hn refl

  -- What the condition says of everything but the core.
  pub Runs-since :
      {X : Type 0} {P : Core → Type 0} {m : Action R A} {Q : A → Core → Type 0}
      → ((c : Core) → P c → X)
      → (X → RunsOr {R = R} E P m Q)
      → RunsOr {R = R} E P m Q
  Runs-since k h = record { at = λ e p. (h (k (core e) p)).at e p }

  -- What a member of the core is, named for the proof.
  pub Runs-by :
      {B : Type 0} {P : Core → Type 0} {m : Action R A} {Q : A → Core → Type 0} (f : Core → B)
      → ((x : B) → RunsOr E (λ c. P c × (f c ≡ x)) m Q)
      → RunsOr {R = R} E P m Q
  Runs-by f h = record { at = λ e p. (h (f (core e))).at e (p, refl) }

  pub Runs-weaken :
      {P P' : Core → Type 0} {m : Action R A} {Q S : A → Core → Type 0}
      → ((c : Core) → P' c → P c)
      → ((a : A) (c : Core) → Q a c → S a c)
      → RunsOr {R = R} E P m Q
      → RunsOr {R = R} E P' m S
  Runs-weaken {m = m} {Q = Q} {S = S} j k h = record {
    at = λ e p. weaken-Holds E {Q = Q} {S = S} k (m e) (h.at e (j (core e) p));
  }

module _ {R A B : Type 0} {E : Core → Type 0} where
  continue-Holds :
      {Q : A → Core → Type 0} {S : B → Core → Type 0} (f : A → Action R B)
      → ((a : A) → RunsOr E (Q a) (f a) S)
      → (o : Outcome A × Engine R) → Holds E Q o
      → Holds {R = R} E S (elim o.0 [
        | returned a ↦ f a o.1
        | raised x ↦ (raised x, o.1)
        | undefined ↦ (undefined, o.1)
      ])
  continue-Holds f k (returned a, e) q = (k a).at e q
  continue-Holds f k (raised x, e) q = q
  continue-Holds f k (undefined, e) q = q

  pub Runs-bind :
      {P : Core → Type 0} {Q : A → Core → Type 0} {S : B → Core → Type 0} {m : Action R A}
      {f : A → Action R B}
      → RunsOr {R = R} E P m Q
      → ((a : A) → RunsOr E (Q a) (f a) S)
      → RunsOr {R = R} E P (m >>= f) S
  unfolding ◌>>=◌
  Runs-bind {Q = Q} {S = S} {m = m} {f = f} hm hf = record {
    at = λ e p. continue-Holds {Q = Q} {S = S} f hf (m e) (hm.at e p);
  }

module _ {R : Type 0} {E : Core → Type 0} where
  pub Runs-modify :
      {P Q : Core → Type 0} (f : Engine R → Engine R)
      → ((e : Engine R) → P (core e) → Q (core (f e)))
      → RunsOr {R = R} E P (modify f) (λ _. Q)
  unfolding modify
  Runs-modify f h = record { at = λ e p. h e p }

  -- A change that leaves the core alone.
  pub Runs-frame :
      {P : Core → Type 0} (f : Engine R → Engine R)
      → ((e : Engine R) → core (f e) ≡ core e)
      → RunsOr {R = R} E P (modify f) (λ _. P)
  Runs-frame {P = P} f h = Runs-modify f λ e p. subst P (sym (h e)) p

  pub observe-Runs : {P : Core → Type 0} → RunsOr {R = R} E P observe (λ _. P)
  unfolding observe
  observe-Runs = record { at = λ e p. p }

  pub Runs-skip : {P : Core → Type 0} → RunsOr {R = R} E P skip (λ _. P)
  unfolding pure
  Runs-skip = record { at = λ e p. p }

  pub Runs-when :
      {P : Core → Type 0} (b : Bool) {m : Action R (Unit {0})}
      → (b ≡ true → RunsOr {R = R} E P m (λ _. P))
      → RunsOr {R = R} E P (when b m) (λ _. P)
  Runs-when b h = Runs-if b h (λ _. Runs-skip)

module _ {R : Type 0} (w : World) (m : ModelRunner R) {E P : Core → Type 0}
    (i : (c : Core) → P c → E c) where
  checked :
      (o : Option RunnerResources) (e : Engine R)
      → P (core e)
      → Holds {R = R} {A = Unit {0}} E
          (λ _. P)
          (elim o [
            | none ↦ skip e
            | some r ↦ if not r.state_valid || not r.reusable then raise runtime_error e else skip e
          ])
  unfolding pure raise
  checked none e p = p
  checked (some r) e p = cases (not r.state_valid || not r.reusable)
    where
      cases :
          (b : Bool)
          → Holds {R = R} {A = Unit {0}} E (λ _. P) (if b then raise runtime_error e else skip e)
      cases true = i (core e) p
      cases false = p

  pub require_reusable-Runs : RunsOr E P (require_reusable w m) (λ _. P)
  unfolding require_reusable
  require_reusable-Runs = record { at = λ e p. checked (m.resources e.runner) e p }

  copied :
      (r : Result (Unit {0})) (e : Engine R)
      → P (core e)
      → Holds {R = R} {A = Unit {0}} E (λ _. P) (lift r e)
  unfolding lift
  copied (ok a) e p = p
  copied (err x) e p = i (core e) p

  pub copy_tokens-Runs :
      (source target tokens : ℕ)
      → RunsOr {R = R} E P (copy_tokens w m source target tokens) (λ _. P)
  unfolding copy_tokens
  copy_tokens-Runs source target tokens = record {
    at = λ e p.
        let (r, runner) = m.copy_sequence source target tokens e.runner in
        copied r (record e { runner = runner }) p;
  }

module _ {R : Type 0} (w : World) (m : ModelRunner R) {E P : Core → Type 0} where
  pub check-Runs :
      (b : Bool)
      → (b ≡ true → (c : Core) → P c → E c)
      → RunsOr {R = R} E P (when b (require_reusable w m)) (λ _. P)
  check-Runs b i = Runs-when b λ on. require_reusable-Runs w m (i on)

  pub emit_event-Runs :
      (request : Request) (event : Event EventData)
      → RunsOr {R = R} E P (emit_event w m request event) (λ _. P)
  unfolding emit_event pure
  emit_event-Runs request event = record { at = λ e p. p }

  pub expired-Runs : (request : Request) → RunsOr {R = R} E P (expired w m request) (λ _. P)
  unfolding expired observe pure ◌>>=◌
  expired-Runs request = record { at = λ e p. p }

  pub is_cancelled-Runs :
      (request : Request) → RunsOr {R = R} E P (is_cancelled w m request) (λ _. P)
  unfolding observe pure ◌>>=◌
  is_cancelled-Runs request = record { at = λ e p. p }

  pub terminal-Runs :
      (request : Request) (event : Event EventData)
      → RunsOr {R = R} E P (terminal w m request event) (λ _. P)
  unfolding terminal
  terminal-Runs request event =
      Runs-bind (Runs-gets (λ e. (e.handles request.order).finished)) λ over.
        Runs-if over (λ _. Runs-skip)
          λ _. Runs-bind (Runs-frame _ λ e. refl) λ _.
            Runs-bind (Runs-frame _ λ e. refl)
              λ _. Runs-bind (emit_event-Runs request event) λ _. Runs-skip
