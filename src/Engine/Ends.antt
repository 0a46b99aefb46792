-- ===== src/Engine/Ends.antt =====
-- The end of a request and the eviction of an entry keep the balance, whatever the runner and the
-- clients do.
use Prim.Native.String.{String}
use mini_llm_runtime.Base.{
  ℕ, zero, suc, ◌+◌, ◌<◌, ◌≤◌, ◌≡◌, ◌≢◌, refl, sym, ap, ◌∙◌, subst, inl, inr, Bool, true, false,
  some, List, [], ◌∷◌, arith, length, length-set, get_elem?, get_elem_some, set, Option-cases, ok,
}
use mini_llm_runtime.Config.{EngineConfig}
use mini_llm_runtime.BlockPool.{release}
use mini_llm_runtime.PrefixIndex.{PrefixEntry, erase, least_recently_used, find_entry, size}
use mini_llm_runtime.PrefixIndex.Lifecycle.{evict-oldest}
use mini_llm_runtime.PrefixIndex.Removal.{erase-missing}
use mini_llm_runtime.Utf8.{finish as finish_text}
use mini_llm_runtime.Runner.{ModelRunner}
use mini_llm_runtime.Engine.{Request, Active, World}
use mini_llm_runtime.Engine.Finish.{
  erase_finished, finish_item, finish, item_at, expire_waiting, expire_active, expire_requests,
  evict, evict_oldest,
}
use mini_llm_runtime.Engine.Balance.{IsBalanced}
use mini_llm_runtime.Engine.Transfers.{
  live_items-AreLive, live_items-AreLive, live_items-IsBalanced, release-IsBalanced,
  evict-IsBalanced,
}
use mini_llm_runtime.Engine.Logic.{
  Live, is_cancelled-Runs, Runs-reads, Runs-known, Core, Inv, Runs, RunsOr, Runs-pure, Runs-gets,
  Runs-or_stuck, Runs-on_pool, Runs-on_prefixes, Runs-bind, Runs-if, Runs-when, Runs-modify,
  Runs-frame, Runs-skip, Runs-weaken, check-Runs, terminal-Runs, expired-Runs,
}

-- The balance, and so many active requests.
abbrev pub Sized : ℕ → Core → Type 0
Sized k c = Inv c × (length c.active ≡ k)

module _ {R : Type 0} (w : World) (m : ModelRunner R) where
  pub item_at-Runs :
      {E P : Core → Type 0} (i : ℕ)
      → ((c : Core) → P c → i < length c.active)
      → RunsOr {R = R} E P (item_at w m i) (λ item c. P c × (get_elem? c.active i ≡ some item))
  item_at-Runs i h =
      Runs-or_stuck (λ (c : Core). get_elem? c.active i) λ c p. get_elem_some c.active i (h c p)

  -- What the end of the item at an index makes of a condition on the items.
  module _ (i : ℕ) (F G : List Active → Type 0)
      (step : (xs : List Active) (x y : Active)
        → F xs
        → get_elem? xs i ≡ some x
        → y.done ≡ true
        → G (set xs i y))
      (rest : (xs : List Active) (x : Active)
        → F xs
        → get_elem? xs i ≡ some x
        → x.done ≡ true
        → G xs) where
    finish_item-Runs :
        {E : Core → Type 0} (k : ℕ) (item : Active) (reason : String) (status : ℕ)
        (check_backend : Bool)
        → (check_backend ≡ true → (c : Core) → Inv c → E c)
        → item.done ≡ false
        → RunsOr E
            (λ c. (Sized k c × F c.active) × (get_elem? c.active i ≡ some item))
            (finish_item w m i item reason status check_backend)
            (λ _ c. Sized k c × G c.active)
    unfolding finish_item
    finish_item-Runs k item reason status check_backend raises going =
        Runs-bind (Runs-frame _ λ e. refl) λ _.
          Runs-bind (check-Runs w m check_backend λ on c p. raises on c p.0.0.0) λ _.
            Runs-bind
              (Runs-on_pool {Q = λ _. Released} (release item.blocks) λ c p.
                let (done, after) =
                  release-IsBalanced c.config c.pool c.prefixes c.active c.free_sequences
                    c.free_cache_sequences p.0.0.0 i item (finish_text item.text).1 p.1 going in
                (tt, done, (after, p.0.0.1, step c.active item _ p.0.1 p.1 refl)))
              λ _.
                Runs-bind
                  (Runs-modify {Q = λ c. Sized k c × G c.active} _
                    λ e p. ((p.0, length-set e.active i _ ∙ p.1), p.2))
                  λ _. terminal-Runs w m item.request _
      where
        Released : Core → Type 0
        Released c =
            IsBalanced c.config c.pool c.prefixes
              (set c.active i
                (record item { blocks = []; done = true; text = (finish_text item.text).1 }))
              (item.sequence ∷ c.free_sequences) c.free_cache_sequences
            × (length c.active ≡ k)
            × G (
                set c.active i
                  (record item { blocks = []; done = true; text = (finish_text item.text).1 }))

    pub finish-Runs :
        {E : Core → Type 0} (k : ℕ) (reason : String) (status : ℕ) (check_backend : Bool)
        → (check_backend ≡ true → (c : Core) → Inv c → E c)
        → i < k
        → RunsOr E
            (λ c. Sized k c × F c.active)
            (finish w m i reason status check_backend)
            (λ _ c. Sized k c × G c.active)
    unfolding finish
    finish-Runs k reason status check_backend raises h =
        Runs-bind (item_at-Runs i λ c p. subst (λ n. i < n) (sym p.0.1) h) λ item.
          Runs-if item.done
            (λ over.
              Runs-weaken (λ c p. (p.0.0, rest c.active item p.0.1 p.1 over)) (λ _ c p. p)
                Runs-skip)
            (finish_item-Runs k item reason status check_backend raises)

  pub expire_waiting-Runs :
      {E P : Core → Type 0} (requests : List Request)
      → RunsOr E P (expire_waiting w m requests) (λ _. P)
  unfolding expire_waiting
  expire_waiting-Runs [] = Runs-pure []
  expire_waiting-Runs (request ∷ requests) = Runs-bind (expired-Runs w m request) λ late.
      Runs-if late
        (λ _.
          Runs-bind (is_cancelled-Runs w m request)
            λ cancel. Runs-bind (terminal-Runs w m request _) λ _. expire_waiting-Runs requests)
        (λ _. Runs-bind (expire_waiting-Runs requests) λ kept. Runs-pure (request ∷ kept))

  pub expire_active-Runs :
      (n i k : ℕ) → i + n ≤ k → Runs (Sized k) (expire_active w m n i) (λ _. Sized k)
  unfolding expire_active
  expire_active-Runs zero i k h = Runs-skip
  expire_active-Runs (suc n) i k h = Runs-bind (item_at-Runs i λ c p. omega (arith, p.1)) λ item.
      Runs-weaken (λ c p. p.0) (λ _ c p. p)
        (Runs-bind (expired-Runs w m item.request) λ late.
          Runs-bind
            (Runs-when late λ _. Runs-bind (is_cancelled-Runs w m item.request) λ cancel.
              Runs-weaken (λ c p. (p, tt)) (λ _ c p. p.0)
                (finish-Runs i (λ _. Unit) (λ _. Unit) (λ _ _ _ _ _ _. tt) (λ _ _ _ _ _. tt) k _ _
                  true (λ _ c v. v) (omega arith)))
            λ _. expire_active-Runs n (i + 1) k (omega arith))

  pub erase_finished-Runs : (k : ℕ) → Runs {R = R} (Sized k) (erase_finished w m) (λ _. Live)
  erase_finished-Runs k =
      Runs-modify _ λ e p. (live_items-IsBalanced p.0, live_items-AreLive e.active)

  pub expire_requests-Runs : Runs Inv (expire_requests w m) (λ _. Live)
  unfolding expire_requests
  expire_requests-Runs = Runs-bind (Runs-gets (λ e. e.waiting)) λ requests.
      Runs-bind (expire_waiting-Runs requests) λ kept.
        Runs-bind (Runs-modify {Q = Inv} _ λ e v. v) λ _.
          Runs-bind (Runs-reads (λ (c : Core). length c.active)) λ count.
            Runs-weaken {P = Sized count} (λ c p. (p.0, sym p.1)) (λ _ c v. v)
              (Runs-bind (expire_active-Runs count 0 count (omega arith))
                λ _. erase_finished-Runs count)

  -- What an eviction leaves alone.
  module _ (F : EngineConfig → List Active → List ℕ → List Request → Type 0) where
    abbrev pub Around : ℕ → Core → Type 0
    Around n c = Inv c × (size c.prefixes ≡ n) × F c.config c.active c.free_sequences c.waiting

    pub evict-Runs :
        {E : Core → Type 0} (n s : ℕ) (check_backend : Bool)
        → (check_backend ≡ true → (c : Core) → Inv c → E c)
        → RunsOr E
            (λ c.
              Around (suc n) c × ((x : PrefixEntry) × (find_entry s c.prefixes.entries ≡ some x)))
            (evict w m s check_backend)
            (λ _. Around n)
    unfolding evict
    evict-Runs n s check_backend raises =
        Runs-bind
          (Runs-on_prefixes {Q = Erased} (erase s) λ c (p, (x, found)).
            let (q, erased, done, after, left) =
              evict-IsBalanced c.config c.pool c.prefixes c.active c.free_sequences
                c.free_cache_sequences p.0 s x found in
            (
              x,
              q,
              erased,
              (done, after, omega (arith, p.0.cache_slots, after.cache_slots, p.1), p.2),
            ))
          λ x. Runs-bind (Runs-frame _ λ e. refl) λ _.
            Runs-bind
              (Runs-on_pool {Q = λ _. Released} (release x.blocks)
                λ c p. (tt, p.0, (p.1, p.2, p.3)))
              λ _.
                Runs-bind (Runs-modify {Q = Around n} _ λ e p. p)
                  λ _. check-Runs w m check_backend λ on c p. raises on c p.0
      where
        Erased : PrefixEntry → Core → Type 0
        Erased x c =
            ((release x.blocks c.pool).0 ≡ ok tt)
            × IsBalanced c.config (release x.blocks c.pool).1 c.prefixes c.active c.free_sequences
                (s ∷ c.free_cache_sequences)
            × (size c.prefixes ≡ n)
            × F c.config c.active c.free_sequences c.waiting

        Released : Core → Type 0
        Released c =
            IsBalanced c.config c.pool c.prefixes c.active c.free_sequences
              (s ∷ c.free_cache_sequences)
            × (size c.prefixes ≡ n)
            × F c.config c.active c.free_sequences c.waiting

    pub oldest_entry :
        (n : ℕ) (c : Core)
        → Around (suc n) c
        → (s : ℕ) × (least_recently_used c.prefixes ≡ some s)
          × ((x : PrefixEntry) × (find_entry s c.prefixes.entries ≡ some x))
    oldest_entry n c p =
        let (x, y, q, named, _, _, erased, _) =
          evict-oldest c.prefixes p.0.index.valid some_entry in
        (
          x.sequence,
          named,
          elim (Option-cases (find_entry x.sequence c.prefixes.entries)) [
            | inr found ↦ found
            | inl gone ↦ absurd (cc (erased, erase-missing x.sequence c.prefixes gone))
          ],
        )
      where
        some_entry : c.prefixes.entries ≢ []
        some_entry e = absurd (omega (arith, p.1, ap length e))

    pub the_entry :
        (n s : ℕ) (c : Core)
        → Around (suc n) c
        → least_recently_used c.prefixes ≡ some s
        → (x : PrefixEntry) × (find_entry s c.prefixes.entries ≡ some x)
    the_entry n s c p named =
        let (t, also, (x, found)) = oldest_entry n c p in
        (x, ap (λ k. find_entry k c.prefixes.entries) (cc (named, also)) ∙ found)

    -- An eviction takes an entry out of the index.
    pub evict_oldest-Runs :
        {E : Core → Type 0} (n : ℕ) (check_backend : Bool)
        → (check_backend ≡ true → (c : Core) → Inv c → E c)
        → RunsOr E (Around (suc n)) (evict_oldest w m check_backend) (λ _. Around n)
    unfolding evict_oldest
    evict_oldest-Runs n check_backend raises =
        Runs-bind (Runs-reads (λ (c : Core). least_recently_used c.prefixes)) λ oldest.
          Runs-bind
            (Runs-known oldest λ c p. let (s, found, _) = oldest_entry n c p.0 in (s, p.1 ∙ found))
            λ s.
              Runs-weaken (λ c p. (p.0.0, the_entry n s c p.0.0 (sym p.0.1 ∙ p.1))) (λ _ c p. p)
                (evict-Runs n s check_backend raises)
