-- ===== src/Engine/Shutdown.antt =====
-- `terminate_all` leaves nothing behind: no request, no cached prompt, no block and no sequence that
-- is taken.
use Prim.Native.String.{String}
use mini_llm_runtime.Base.{
  ℕ, zero, suc, ◌+◌, ◌≡◌, refl, sym, ap, ◌∙◌, subst, Bool, true, Option, none, some, List, [], ◌∷◌,
  arith, length, get_elem?, set, total,
}
use mini_llm_runtime.Config.{EngineConfig}
use mini_llm_runtime.BlockPool.{used_count}
use mini_llm_runtime.BlockPool.History.{zeros-all}
use mini_llm_runtime.PrefixIndex.{least_recently_used, size}
use mini_llm_runtime.Runner.{ModelRunner}
use mini_llm_runtime.Engine.{Request, Active, World}
use mini_llm_runtime.Engine.Action.{◌>>◌, skip}
use mini_llm_runtime.Engine.Finish.{live_items, evict}
use mini_llm_runtime.Engine.Run.{
  publish, drain_incoming, finish_all, end_waiting, evict_all, terminate_all,
}
use mini_llm_runtime.BlockPool.Ledger.{holders}
use mini_llm_runtime.Engine.Balance.{ledger, live}
use mini_llm_runtime.Engine.Transfers.{live_items-IsBalanced}
use mini_llm_runtime.Engine.Logic.{
  Core, core, Inv, RunsOr, Runs-gets, Runs-reads, Runs-bind, Runs-modify, Runs-frame, Runs-skip,
  Runs-weaken, check-Runs, terminal-Runs,
}
use mini_llm_runtime.Engine.Ends.{Sized, finish-Runs, Around, evict-Runs, oldest_entry, the_entry}

-- The items below an index are done.
abbrev AreOver : ℕ → List Active → Type 0
AreOver zero items = Unit
AreOver (suc i) [] = Unit
AreOver (suc i) (x ∷ items) = (x.done ≡ true) × AreOver i items

AreOver-set :
    (i : ℕ) (xs : List Active) (y : Active)
    → AreOver i xs
    → y.done ≡ true
    → AreOver (suc i) (set xs i y)
AreOver-set i [] y over h = tt
AreOver-set zero (x ∷ xs) y over h = (h, tt)
AreOver-set (suc i) (x ∷ xs) y over h = (over.0, AreOver-set i xs y over.1 h)

AreOver-next :
    (i : ℕ) (xs : List Active) (x : Active)
    → AreOver i xs
    → get_elem? xs i ≡ some x
    → x.done ≡ true
    → AreOver (suc i) xs
AreOver-next i [] x over there h = tt
AreOver-next zero (y ∷ xs) x over there h =
    let same : x ≡ y = cc in (subst (λ (u : Active). u.done ≡ true) same h, tt)
AreOver-next (suc i) (y ∷ xs) x over there h = (over.0, AreOver-next i xs x over.1 there h)

live_items-none : (xs : List Active) → AreOver (length xs) xs → live_items xs ≡ []
unfolding live_items
live_items-none [] over = refl
live_items-none (x ∷ xs) over = rw over.0 (live_items-none xs over.1)

-- Nothing is held.
pub record IsVacant (c : Core) : Type 0 where
  pub active : c.active ≡ []
  pub waiting : c.waiting ≡ []
  pub entries : c.prefixes.entries ≡ []
  pub blocks : used_count c.pool ≡ 0
  pub sequences : length c.free_sequences ≡ c.config.max_active
  pub cache_sequences : length c.free_cache_sequences ≡ c.config.prefix_cache_entries

no_items : {A : Type 0} (xs : List A) → length xs ≡ 0 → xs ≡ []
no_items [] h = refl
no_items (x ∷ xs) h = absurd (omega arith)

pub vacant : (c : Core) → Inv c → c.active ≡ [] → c.waiting ≡ [] → size c.prefixes ≡ 0 → IsVacant c
vacant c v no_active no_waiting no_entries = record {
  active = no_active;
  waiting = no_waiting;
  entries = none_cached;
  blocks = omega (
    arith,
    v.pool_valid.accounted.sized,
    zeros-all c.pool.refs λ a.
        v.tracked a
        ∙ ap (λ us. holders a (ledger us c.prefixes.entries)) no_active
        ∙ ap (λ us. holders a (ledger [] us)) none_cached,
  );
  sequences = omega (arith, v.slots, ap (total live) no_active);
  cache_sequences = omega (arith, v.cache_slots, no_entries);
}
  where
    none_cached : c.prefixes.entries ≡ []
    none_cached = no_items c.prefixes.entries no_entries

module _ {R : Type 0} (w : World) (m : ModelRunner R) {E : Core → Type 0} (reason : String)
    (status : ℕ) (check_backend : Bool)
    (raises : check_backend ≡ true → (c : Core) → Inv c → E c) where
  finish_all-Runs :
      (n i k : ℕ)
      → i + n ≡ k
      → RunsOr E
          (λ c. Sized k c × AreOver i c.active)
          (finish_all w m n i reason status check_backend)
          (λ _ c. Sized k c × AreOver k c.active)
  unfolding finish_all
  finish_all-Runs zero i k h =
      let same : i ≡ k = omega arith in
      Runs-weaken (λ c p. (p.0, subst (λ n. AreOver n c.active) same p.1)) (λ _ c p. p) Runs-skip
  finish_all-Runs (suc n) i k h =
      Runs-bind
        (finish-Runs w m i (AreOver i) (AreOver (suc i))
          (λ xs x y over there h. AreOver-set i xs y over h)
          (λ xs x over there h. AreOver-next i xs x over there h) k reason status check_backend
          raises (omega arith))
        λ _.
          let step : suc i ≡ i + 1 = omega arith in
          Runs-weaken (λ c p. (p.0, subst (λ j. AreOver j c.active) step p.1)) (λ _ c p. p)
            (finish_all-Runs n (i + 1) k (omega arith))

  end_waiting-Runs :
      {P : Core → Type 0} (requests : List Request)
      → RunsOr {R = R} E P (end_waiting w m requests reason status) (λ _. P)
  unfolding end_waiting
  end_waiting-Runs [] = Runs-skip
  end_waiting-Runs (request ∷ requests) =
      Runs-bind (terminal-Runs w m request _) λ _. end_waiting-Runs requests

  abbrev Idle : EngineConfig → List Active → List ℕ → List Request → Type 0
  Idle c items fs requests = (items ≡ []) × (requests ≡ [])

  evict_all-Runs :
      (n : ℕ)
      → RunsOr {R = R} E
          (Around w m Idle n)
          (evict_all w m n check_backend)
          (λ _. Around w m Idle 0)
  unfolding evict_all
  evict_all-Runs zero = Runs-skip
  evict_all-Runs (suc n) =
      Runs-bind (Runs-reads λ (c : Core). least_recently_used c.prefixes) (next (evict_all-Runs n))
    where
      next :
          RunsOr {R = R} E
            (Around w m Idle n)
            (evict_all w m n check_backend)
            (λ _. Around w m Idle 0)
          → (o : Option ℕ)
          → RunsOr {R = R} E
              (λ c. Around w m Idle (suc n) c × (o ≡ least_recently_used c.prefixes))
              (elim o [
                | none ↦ skip
                | some s ↦ evict w m s check_backend >> evict_all w m n check_backend
              ])
              (λ _. Around w m Idle 0)
      next rest none =
          Runs-weaken
            (λ c p. let (s, found, _) = oldest_entry w m Idle n c p.0 in absurd (cc (p.1, found)))
            (λ _ c p. p) Runs-skip
      next rest (some s) =
          Runs-weaken (λ c p. (p.0, the_entry w m Idle n s c p.0 (sym p.1))) (λ _ c p. p)
            (Runs-bind (evict-Runs w m Idle n s check_backend raises) λ _. rest)

  pub terminate_all-Runs :
      RunsOr {R = R} E Inv
        (terminate_all w m reason status check_backend)
        (λ _ c. Inv c × IsVacant c)
  unfolding terminate_all drain_incoming publish
  terminate_all-Runs = Runs-bind (Runs-frame _ λ e. refl) λ _.
      Runs-bind (check-Runs w m check_backend raises) λ _.
        Runs-bind (Runs-modify {Q = Inv} _ λ e v. v) λ _.
          Runs-bind (Runs-reads λ (c : Core). length c.active) λ count.
            Runs-weaken {P = λ c. Sized count c × Unit} (λ c p. ((p.0, sym p.1), tt)) (λ _ c p. p)
              (Runs-bind (finish_all-Runs count 0 count (omega arith)) λ _.
                Runs-bind
                  (Runs-modify {Q = λ c. Inv c × (c.active ≡ [])} _
                    λ e p. (cleared count (core e) p, refl))
                  λ _. Runs-bind (Runs-gets _) λ requests.
                    Runs-bind (end_waiting-Runs requests) λ _.
                      Runs-bind
                        (Runs-modify
                          {Q = λ c. Inv c × Idle c.config c.active c.free_sequences c.waiting} _
                          λ e p. (p.0, (p.1, refl)))
                        λ _. Runs-bind (Runs-reads λ (c : Core). size c.prefixes) λ entries.
                          Runs-weaken {P = Around w m Idle entries} (λ c p. (p.0.0, sym p.1, p.0.1))
                            (λ _ c p. (p.0, vacant c p.0 p.2.0 p.2.1 p.1))
                            (Runs-bind (evict_all-Runs entries)
                              λ _. Runs-bind (Runs-frame _ λ e. refl) λ _. Runs-frame _ λ e. refl))
    where
      cleared :
          (count : ℕ) (c : Core)
          → Sized count c × AreOver count c.active
          → Inv (record c { active = [] })
      cleared count c p =
          subst (λ items. Inv (record c { active = items }))
            (live_items-none c.active (subst (λ n. AreOver n c.active) (sym p.0.1) p.1))
            (live_items-IsBalanced p.0.0)
