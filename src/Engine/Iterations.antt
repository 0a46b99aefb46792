-- ===== src/Engine/Iterations.antt =====
-- `iteration` keeps the balance: each step changes an active request in what the balance does not
-- depend on, ends it, or caches its prompt.
use mini_llm_runtime.Base.{
  ℕ, ◌+◌, ◌<◌, ◌≤◌, pos_part, ◌≡◌, ◌≢◌, inl, inr, Bool-cases, refl, sym, ap, ◌∙◌, subst, true,
  false, ◌&&◌, ◌||◌, not, some, List, [], ◌∷◌, arith, leb, ◌==◌, if◌then◌else◌, is_empty, length,
  length-set, get_elem?, get_elem-set_ne, get_elem-set_self, get_elem_lt, set, count, contains, All,
  All-set, All-map, All-get_elem, total, total-set, Result, ok, err, runtime_error, logic_error,
  runtime_error,
}
use mini_llm_runtime.Config.{EngineConfig}
use mini_llm_runtime.BlockPool.{BlockPool}
use mini_llm_runtime.PrefixIndex.{PrefixIndex}
use mini_llm_runtime.Scheduler.{ScheduledSlice, BatchPlan, schedule_batch}
use mini_llm_runtime.Utf8.{append as append_text}
use mini_llm_runtime.Runner.{BatchToken, Sample, ModelRunner}
use mini_llm_runtime.Engine.{Active, World, Engine}
use mini_llm_runtime.Engine.Action.{◌>>=◌, ◌>>◌, lift, or_stuck, modify, stuck, skip, pure}
use mini_llm_runtime.Engine.Batch.{
  schedule_items, plan_tokens, logits_sequences, check_expected, check_samples, by_sequence,
  count_batch, put_item, index_sequence, advance_slice, advance_slices, sample_piece, publish_token,
  publish_sample, publish_samples, execute, check_batch, iteration,
}
use Prim.Native.String.{String}
use mini_llm_runtime.Engine.Finish.{finish, require_reusable, erase_finished}
use mini_llm_runtime.Engine.Admit.{total_blocks, cache_prompt}
use mini_llm_runtime.Engine.Balance.{IsBalanced, IsFit, held_by, live, uses, holders-ledger}
use mini_llm_runtime.Engine.Logic.{
  Live, Core, core, Inv, Holds, Runs, Runs-by, Runs-since, Runs-pure, Runs-reads, Runs-known,
  Runs-lift, Runs-raise, Runs-bind, Runs-if, Runs-when, Runs-modify, Runs-frame, Runs-skip,
  Runs-weaken, observe-Runs, require_reusable-Runs, expired-Runs, emit_event-Runs,
}
use mini_llm_runtime.Engine.Ends.{Sized, item_at-Runs, finish-Runs, erase_finished-Runs}
use mini_llm_runtime.Engine.Caching.{cache_prompt-Runs}
use mini_llm_runtime.Engine.Samples.{IsGood, check_samples-IsGood}
use mini_llm_runtime.Engine.Owners.{sequence-lt}
use mini_llm_runtime.Scheduler.Sources.{keyed_slices, keyed_items}
use mini_llm_runtime.Scheduler.Guarantees.{schedule_batch-keys}
use mini_llm_runtime.Engine.Plans.{
  IsPlanned, plan_tokens-some, by_sequence-lt, by_sequence-item, check_expected-some,
  schedule_batch-IsPlanned,
}

-- A request is put back with the blocks, the sequence and the length that it had.
module _ {c : EngineConfig} {pool : BlockPool} {prefixes : PrefixIndex} {active : List Active}
    {fs fcs : List ℕ} (v : IsBalanced c pool prefixes active fs fcs) (i : ℕ) (old new : Active)
    (here : get_elem? active i ≡ some old) (request : new.request ≡ old.request)
    (blocks : new.blocks ≡ old.blocks) (sequence : new.sequence ≡ old.sequence)
    (over : new.done ≡ old.done)
    (begun : old.processed ≤ length old.request.prompt
      → new.processed ≤ length new.request.prompt) where
  same_total : (f : Active → ℕ) → f new ≡ f old → total f (set active i new) ≡ total f active
  same_total f same = omega (arith, total-set f active i old new here, same)

  pub put-IsBalanced : IsBalanced c pool prefixes (set active i new) fs fcs
  put-IsBalanced =
      let old_fit = All-get_elem (IsFit c) active i old v.fit here in
      record {
        config = v.config;
        index = v.index;
        block_size = v.block_size;
        pool_valid = v.pool_valid;
        sized = v.sized;
        tracked = λ a. omega (
          arith,
          v.tracked a,
          holders-ledger a active prefixes.entries,
          holders-ledger a (set active i new) prefixes.entries,
          same_total (held_by a) (ap (count a) blocks),
        );
        fit = All-set (IsFit c) active i new v.fit (record {
          emptied = λ h. blocks ∙ old_fit.emptied (sym over ∙ h);
          owned = λ h.
              ap length blocks
              ∙ old_fit.owned (sym over ∙ h)
              ∙ ap (λ r. total_blocks c r) (sym request);
          distinct = λ a. omega (arith, ap (count a) blocks, old_fit.distinct a);
          started = λ h. begun (old_fit.started (sym over ∙ h));
        });
        distinct = v.distinct;
        sequences =
            λ s. omega (arith, v.sequences s, same_total (uses s) (rw (over, sequence) refl));
        slots = omega (arith, v.slots, same_total live (rw over refl));
        cache_sequences = v.cache_sequences;
        cache_slots = v.cache_slots;
      }

module _ {R : Type 0} (w : World) (m : ModelRunner R) (k : ℕ) where
  -- The token is counted, published, and may be the last.
  publish_token-Runs :
      (i t : ℕ) (old : Active)
      → i < k
      → Runs {R = R}
          (λ c. Sized k c × (get_elem? c.active i ≡ some old))
          (publish_token w m i old t)
          (λ _. Sized k)
  unfolding publish_token sample_piece
  publish_token-Runs i t old h =
      Runs-bind (put i old (sampled i t old) refl refl refl refl λ h. h) λ _.
        Runs-bind (Runs-frame _ λ e. refl) λ _.
          Runs-bind
            (Runs-bind (Runs-lift (m.is_eog t) λ c p. p.0.0) λ ends.
              Runs-weaken (λ c p. p.0) (λ _ c p. p)
                (Runs-if _ (λ _. Runs-pure (true, []))
                  λ _.
                    Runs-bind (Runs-lift (m.token_piece t) λ c p. p.0.0)
                      λ piece. Runs-weaken (λ c p. p.0) (λ _ c p. p) (Runs-pure (false, piece))))
            λ r.
              Runs-bind
                (put i (sampled i t old)
                  (record (sampled i t old) { text = (append_text r.1 old.text).1 }) refl refl refl
                  refl λ h. h)
                λ _. Runs-bind (emit_event-Runs w m old.request _) λ emitted.
                  Runs-weaken (λ c p. p.0) (λ _ c p. p)
                    (Runs-if (not emitted) (λ _. ended i "backpressure" 429 h)
                      λ _.
                        Runs-if (r.0 || leb old.request.max_tokens (old.generated + 1))
                          (λ _. ended i (if r.0 then "stop" else "length") 200 h) λ _. Runs-skip)
    where
      sampled : ℕ → ℕ → Active → Active
      sampled i t old = record old { last_token = t; generated = old.generated + 1 }

      put :
          (i : ℕ) (old new : Active)
          → new.request ≡ old.request
          → new.blocks ≡ old.blocks
          → new.sequence ≡ old.sequence
          → new.done ≡ old.done
          → (old.processed ≤ length old.request.prompt → new.processed ≤ length new.request.prompt)
          → Runs {R = R}
              (λ c. Sized k c × (get_elem? c.active i ≡ some old))
              (put_item w m i new)
              (λ _ c. Sized k c × (get_elem? c.active i ≡ some new))
      put i old new request blocks sequence over begun = Runs-modify _ λ e p. (
        (
          put-IsBalanced p.0.0 i old new p.1 request blocks sequence over begun,
          length-set e.active i new ∙ p.0.1,
        ),
        get_elem-set_self e.active i new (get_elem_lt e.active i old p.1),
      )

      ended :
          (i : ℕ) (reason : String) (status : ℕ)
          → i < k
          → Runs {R = R} (Sized k) (finish w m i reason status true) (λ _. Sized k)
      ended i reason status h =
          Runs-weaken (λ c p. (p, tt)) (λ _ c p. p.0)
            (finish-Runs w m i (λ _. Unit) (λ _. Unit) (λ _ _ _ _ _ _. tt) (λ _ _ _ _ _. tt) k
              reason status true (λ _ c v. v) h)

  publish_sample-Runs :
      (slices : List ScheduledSlice) (items : List Active) (sample : Sample) (i : ℕ)
      → by_sequence slices items (pos_part sample.sequence) ≡ some i
      → length items ≡ k
      → Runs {R = R} (Sized k) (publish_sample w m slices items sample) (λ _. Sized k)
  unfolding publish_sample
  publish_sample-Runs slices items sample i found same =
      Runs-bind (Runs-known (by_sequence slices items (pos_part sample.sequence)) λ c p. (i, found))
        λ j.
          Runs-since (λ c p. by_sequence-lt slices items (pos_part sample.sequence) j p.1)
            λ below.
              let inside : j < k = omega (arith, below, same) in
              Runs-weaken {P = Sized k} (λ c p. p.0) (λ _ c p. p)
                (Runs-bind (item_at-Runs w m j λ c p. subst (λ n. j < n) (sym p.1) inside) λ item.
                  Runs-if (not (item.processed == length item.request.prompt))
                    (λ _. Runs-raise runtime_error λ c p. p.0.0)
                    λ _. Runs-bind (expired-Runs w m item.request) λ late.
                      Runs-if late (λ _. Runs-weaken (λ c p. p.0) (λ _ c p. p) Runs-skip)
                        λ _. publish_token-Runs j (pos_part sample.token) item inside)

  publish_samples-Runs :
      (slices : List ScheduledSlice) (items : List Active) (samples : List Sample)
      → All
          (λ (s : Sample). (i : ℕ) × (by_sequence slices items (pos_part s.sequence) ≡ some i))
          samples
      → length items ≡ k
      → Runs {R = R} (Sized k) (publish_samples w m slices items samples) (λ _. Sized k)
  unfolding publish_samples
  publish_samples-Runs slices items [] h same = Runs-skip
  publish_samples-Runs slices items (s ∷ samples) h same =
      Runs-bind (publish_sample-Runs slices items s h.0.0 h.0.1 same)
        λ _. publish_samples-Runs slices items samples h.1 same

-- A slice of another request fits as before when one request changes.
set-IsPlanned :
    (items : List Active) (i : ℕ) (new : Active) (slices : List ScheduledSlice)
    → keyed_slices i slices ≡ 0
    → All (IsPlanned items) slices
    → All (IsPlanned (set items i new)) slices
set-IsPlanned items i new [] none_named h = tt
set-IsPlanned items i new (slice ∷ slices) none_named h =
    let other : i ≢ slice.key = λ same. absurd (ground (arith, none_named, same)) in
    (
      record {
        item = h.0.item;
        here = get_elem-set_ne items i slice.key new other ∙ h.0.here;
        within = h.0.within;
      },
      set-IsPlanned items i new slices (omega (arith, none_named)) h.1,
    )

-- Each active request is one item.
schedule_items-keys :
    (now i : ℕ) (items : List Active) (a : ℕ)
    → (keyed_items a (schedule_items now i items) ≤ 1)
      × (a < i → keyed_items a (schedule_items now i items) ≡ 0)
unfolding schedule_items
schedule_items-keys now i [] a = (omega arith, λ h. refl)
schedule_items-keys now i (item ∷ items) a =
    let (once, later) = schedule_items-keys now (i + 1) items a in
    (ground (arith, once, later), λ h. ground (arith, h, later))

module _ {R : Type 0} (w : World) (m : ModelRunner R) (k : ℕ) (config : EngineConfig) where
  -- The balance, so many active requests, none of them done, and the configuration.
  abbrev Going : Core → Type 0
  Going c =
      Inv c
      × (length c.active ≡ k)
      × All (λ (item : Active). item.done ≡ false) c.active
      × (c.config ≡ config)

  -- The slices that are left fit the active requests.
  abbrev Waits : List ScheduledSlice → Core → Type 0
  Waits rest c = Going c × All (IsPlanned c.active) rest

  index_sequence-Runs :
      {P : Core → Type 0} (s : ℕ)
      → ((c : Core) → P c → s < c.config.max_active)
      → Runs {R = R} P (index_sequence w m s) (λ _. P)
  unfolding pure
  index_sequence-Runs {P = P} s inside = record {
    at = λ e p.
        let low : leb e.config.max_active s ≡ false = ground (arith, inside (core e) p) in
        subst (λ b. Holds {R = R} Inv (λ _. P) (if b then stuck e else skip e)) (sym low) p;
  }

  advance_slice-Runs :
      (slice : ScheduledSlice) (rest : List ScheduledSlice)
      → keyed_slices slice.key rest ≡ 0
      → Runs {R = R} (Waits (slice ∷ rest)) (advance_slice w m slice) (λ _. Waits rest)
  unfolding advance_slice
  advance_slice-Runs slice rest once =
      Runs-bind
        (item_at-Runs w m slice.key λ c p. get_elem_lt c.active slice.key p.1.0.item p.1.0.here)
        λ item.
          Runs-since
            (λ c p.
              All-get_elem (λ (x : Active). x.done ≡ false) c.active slice.key item p.0.0.2 p.1)
            λ going.
              Runs-since (λ c p. within_of c item p.0.1.0 p.1)
                λ within.
                  Runs-bind
                    (index_sequence-Runs item.sequence
                      λ c p. sequence-lt c p.0.0.0 slice.key item p.1 going)
                    λ _. Runs-bind observe-Runs λ n.
                      Runs-bind
                        (put item (moved item n) refl refl refl refl (ahead item n within) going)
                        λ _.
                          Runs-weaken (λ c p. p) (λ _ c p. p.0)
                            (Runs-when
                              (slice.prefill
                                && (moved item n).processed == length item.request.prompt)
                              λ _.
                                Runs-bind (expired-Runs w m item.request) λ late.
                                  Runs-when (not late) λ _. cached item (moved item n) going)
    where
      moved : Active → ℕ → Active
      moved item n = record item {
        last_scheduled = w.clock n;
        processed = if slice.prefill then item.processed + slice.tokens else item.processed;
      }

      within_of :
          (c : Core) (item : Active)
          → IsPlanned c.active slice
          → get_elem? c.active slice.key ≡ some item
          → slice.prefill ≡ true
          → item.processed + slice.tokens ≤ length item.request.prompt
      within_of c item plan here prompt =
          let same : plan.item ≡ item = cc (plan.here, here) in
          subst (λ (x : Active). x.processed + slice.tokens ≤ length x.request.prompt) same
            (plan.within prompt)

      ahead :
          (item : Active) (n : ℕ)
          → (slice.prefill ≡ true → item.processed + slice.tokens ≤ length item.request.prompt)
          → item.processed ≤ length item.request.prompt
          → (moved item n).processed ≤ length item.request.prompt
      ahead item n within low = elim (Bool-cases slice.prefill) [
        | inl prompt ↦ rw prompt (within prompt)
        | inr decode ↦ rw decode low
      ]

      put :
          (old new : Active)
          → new.request ≡ old.request
          → new.blocks ≡ old.blocks
          → new.sequence ≡ old.sequence
          → new.done ≡ old.done
          → (old.processed ≤ length old.request.prompt → new.processed ≤ length new.request.prompt)
          → new.done ≡ false
          → Runs {R = R}
              (λ c. Waits (slice ∷ rest) c × (get_elem? c.active slice.key ≡ some old))
              (put_item w m slice.key new)
              (λ _ c. Waits rest c × (get_elem? c.active slice.key ≡ some new))
      put old new request blocks sequence over begun going = Runs-modify _ λ e p. (
        (
          (
            put-IsBalanced p.0.0.0 slice.key old new p.1 request blocks sequence over begun,
            length-set e.active slice.key new ∙ p.0.0.1,
            All-set (λ (x : Active). x.done ≡ false) e.active slice.key new p.0.0.2 going,
            p.0.0.3,
          ),
          set-IsPlanned e.active slice.key new rest once p.0.1.1,
        ),
        get_elem-set_self e.active slice.key new (get_elem_lt e.active slice.key old p.1),
      )

      cached :
          (item new : Active)
          → new.done ≡ false
          → Runs {R = R}
              (λ c. Waits rest c × (get_elem? c.active slice.key ≡ some new))
              (cache_prompt w m new)
              (λ _ c. Waits rest c × (get_elem? c.active slice.key ≡ some new))
      cached item new going =
          Runs-weaken (λ c p. (p.0.0.0, (p.0.0.1, p.0.0.2, p.0.0.3, p.0.1, p.1)))
            (λ _ c p. (((p.0, p.1.0, p.1.1, p.1.2), p.1.3), p.1.4))
            (cache_prompt-Runs w m
              (λ c items fs ws.
                (length items ≡ k)
                × All (λ (x : Active). x.done ≡ false) items
                × (c ≡ config)
                × All (IsPlanned items) rest
                × (get_elem? items slice.key ≡ some new))
              slice.key new config going λ c f. (f.2, f.4))

  advance_slices-Runs :
      (slices : List ScheduledSlice)
      → ((a : ℕ) → keyed_slices a slices ≤ 1)
      → Runs {R = R} (Waits slices) (advance_slices w m slices) (λ _. Going)
  unfolding advance_slices
  advance_slices-Runs [] once = Runs-weaken (λ c p. p.0) (λ _ c p. p) Runs-skip
  advance_slices-Runs (slice ∷ slices) once =
      Runs-bind (advance_slice-Runs slice slices (ground (arith, once slice.key)))
        λ _. advance_slices-Runs slices λ a. omega (arith, once a)

begun :
    (c : EngineConfig) (items : List Active)
    → All (IsFit c) items
    → All (λ (item : Active). item.done ≡ false) items
    → All (λ (item : Active). item.processed ≤ length item.request.prompt) items
begun c [] fit going = tt
begun c (item ∷ items) fit going = (fit.0.started going.0, begun c items fit.1 going.1)

module _ {R : Type 0} (w : World) (m : ModelRunner R) where
  execute-Runs :
      {P : Core → Type 0} (tokens : List BatchToken)
      → ((c : Core) → P c → Inv c)
      → Runs {R = R} P (execute w m tokens) (λ _. P)
  unfolding lift
  execute-Runs {P = P} tokens i = record {
    at = λ e p.
        let (r, runner) = m.execute tokens e.runner in answered r (record e { runner = runner }) p;
  }
    where
      answered :
          (r : Result (List Sample)) (e : Engine R)
          → P (core e)
          → Holds {R = R} Inv (λ _. P) (lift r e)
      answered (ok samples) e p = p
      answered (err x) e p = i (core e) p

  check_batch-Runs :
      {P : Core → Type 0} (tokens : List BatchToken) (samples : List Sample)
      → ((c : Core) → P c → Inv c)
      → ((c : Core)
          → P c
          → (a : ℕ) → contains a (logits_sequences tokens) ≡ true
          → a < c.config.max_active)
      → Runs {R = R} P
          (check_batch w m tokens samples)
          (λ _ c. P c × All (IsGood m.vocab_size (logits_sequences tokens)) samples)
  unfolding check_batch
  check_batch-Runs {P = P} tokens samples i inside =
      Runs-bind
        (Runs-if (not (length samples == length (logits_sequences tokens)))
          (λ _. Runs-raise runtime_error i) (λ _. Runs-skip))
        λ _. Runs-bind (Runs-reads λ (c : Core). c.config.max_active) λ max_active.
          Runs-bind
            (Runs-known (check_expected max_active [] (logits_sequences tokens)) λ c p.
              check_expected-some max_active [] (logits_sequences tokens)
                λ a k. omega (arith, p.1, inside c p.0 a k))
            λ checked. Runs-bind (Runs-lift checked λ c p. i c p.0.0) λ _.
              Runs-weaken {P = P} (λ c p. p.0.0.0)
                (λ a c p. (
                  p.0,
                  (check_samples-IsGood max_active m.vocab_size (logits_sequences tokens) [] samples
                      p.1).0,
                ))
                (Runs-lift
                  (check_samples max_active m.vocab_size (logits_sequences tokens) [] samples) i)

  -- A batch keeps the balance, whatever the runner returns.
  pub iteration-Runs :
      Runs {R = R}
        (λ c. Inv c × All (λ (item : Active). item.done ≡ false) c.active)
        (iteration w m)
        (λ _. Live)
  unfolding iteration
  iteration-Runs =
      Runs-by (λ (c : Core). c.config)
        λ config. Runs-bind observe-Runs λ n.
          Runs-bind
            (Runs-reads
              λ (c : Core). schedule_batch (schedule_items (w.clock n) 0 c.active) c.config)
            λ plan.
              Runs-bind
                (Runs-if (is_empty plan.slices) (λ _. Runs-raise logic_error λ c p. p.0.0.0)
                  (λ _. Runs-skip))
                λ _. Runs-bind (Runs-reads λ (c : Core). c.active) λ items.
                  Runs-since
                    (λ c p. (planned n config plan items c p, apart n config plan items c p))
                    λ (fits, once).
                      Runs-weaken {P = Begins config plan items}
                        (λ c p. ((p.0.0.0.0, ap length (sym p.1), p.0.0.0.1, p.0.0.1), sym p.1))
                        (λ _ c p. p)
                        (executed config plan items fits once
                          (plan_tokens-some plan.slices items fits))
    where
      planned :
          (n : ℕ) (config : EngineConfig) (plan : BatchPlan) (items : List Active) (c : Core)
          → (((Inv c × All (λ (item : Active). item.done ≡ false) c.active) × (c.config ≡ config))
              × (plan ≡ schedule_batch (schedule_items (w.clock n) 0 c.active) c.config))
            × (items ≡ c.active)
          → All (IsPlanned items) plan.slices
      planned n config plan items c p =
          subst (λ us. All (IsPlanned us) plan.slices) (sym p.1)
            (subst (λ (b : BatchPlan). All (IsPlanned c.active) b.slices) (sym p.0.1)
              (schedule_batch-IsPlanned (w.clock n) c.active c.config
                (omega (arith, p.0.0.0.0.config.chunk_bounds.0))
                (begun c.config c.active p.0.0.0.0.fit p.0.0.0.1)))

      -- At most one slice for a request.
      apart :
          (n : ℕ) (config : EngineConfig) (plan : BatchPlan) (items : List Active) (c : Core)
          → (((Inv c × All (λ (item : Active). item.done ≡ false) c.active) × (c.config ≡ config))
              × (plan ≡ schedule_batch (schedule_items (w.clock n) 0 c.active) c.config))
            × (items ≡ c.active)
          → (a : ℕ) → keyed_slices a plan.slices ≤ 1
      apart n config plan items c p a =
          subst (λ (b : BatchPlan). keyed_slices a b.slices ≤ 1) (sym p.0.1)
            (omega (
              arith,
              schedule_batch-keys (schedule_items (w.clock n) 0 c.active) c.config
                  (omega (arith, p.0.0.0.0.config.chunk_bounds.0)) a,
              (schedule_items-keys (w.clock n) 0 c.active a).0,
            ))

      Begins : EngineConfig → BatchPlan → List Active → Core → Type 0
      Begins config plan items c = Going w m (length items) config c × (c.active ≡ items)

      -- A sequence with an output is that of a request.
      asked_inside :
          {config : EngineConfig} (plan : BatchPlan) (items : List Active) (c : Core)
          → Begins config plan items c
          → {a : ℕ} → (i : ℕ) × (by_sequence plan.slices items a ≡ some i)
          → a < c.config.max_active
      asked_inside plan items c p {a} (i, found) =
          let (item, here, named) = by_sequence-item plan.slices items a i found in
          let there : get_elem? c.active i ≡ some item =
            subst (λ us. get_elem? us i ≡ some item) (sym p.1) here in
          let going = All-get_elem (λ (x : Active). x.done ≡ false) c.active i item p.0.2 there in
          omega (arith, sequence-lt c p.0.0 i item there going, named)

      executed :
          (config : EngineConfig) (plan : BatchPlan) (items : List Active)
          → All (IsPlanned items) plan.slices
          → ((a : ℕ) → keyed_slices a plan.slices ≤ 1)
          → (ts : List BatchToken) × (plan_tokens plan.slices items ≡ some ts)
            × ((a : ℕ)
                → contains a (logits_sequences ts) ≡ true
                → (i : ℕ) × (by_sequence plan.slices items a ≡ some i))
          → Runs {R = R}
              (Begins config plan items)
              (do
                tokens ← or_stuck (plan_tokens plan.slices items)
                samples ← execute w m tokens
                require_reusable w m
                check_batch w m tokens samples
                modify (λ e. record e { counters = count_batch plan e.counters })
                advance_slices w m plan.slices
                publish_samples w m plan.slices items samples
                erase_finished w m)
              (λ _. Live)
      executed config plan items fits once (ts, made, found) =
          Runs-bind (Runs-known (plan_tokens plan.slices items) λ c p. (ts, made)) λ tokens.
            Runs-since (λ c p. p.1)
              λ also.
                let same : tokens ≡ ts = cc (made, also) in
                Runs-weaken {P = Begins config plan items} (λ c p. p.0) (λ _ c p. p)
                  (Runs-bind (execute-Runs tokens λ c p. p.0.0) λ samples.
                    Runs-bind (require_reusable-Runs w m (λ c p. p.0.0)) λ _.
                      Runs-bind
                        (check_batch-Runs tokens samples (λ c p. p.0.0)
                          λ c p a k. asked_inside plan items c p (
                            found a (subst (λ us. contains a (logits_sequences us) ≡ true) same k)))
                        λ _.
                          Runs-since (λ c p. p.1)
                            λ good.
                              Runs-weaken {P = Begins config plan items} (λ c p. p.0) (λ _ c p. p)
                                (Runs-bind (Runs-frame _ λ e. refl) λ _.
                                  Runs-bind
                                    (Runs-weaken {P = Waits w m (length items) config plan.slices}
                                      (λ c p. (
                                        p.0,
                                        subst (λ us. All (IsPlanned us) plan.slices) (sym p.1) fits,
                                      ))
                                      (λ _ c p. p)
                                      (advance_slices-Runs w m (length items) config plan.slices
                                        once))
                                    λ _.
                                      Runs-weaken {P = Sized (length items)} (λ c p. (p.0, p.1))
                                        (λ _ c p. p)
                                        (Runs-bind
                                          (publish_samples-Runs w m (length items) plan.slices items
                                            samples
                                            (All-map samples
                                              (λ s g. found (pos_part s.sequence) (
                                                subst
                                                  (λ us.
                                                    contains (pos_part s.sequence)
                                                      (logits_sequences us)
                                                    ≡ true)
                                                  same g.asked))
                                              good)
                                            refl)
                                          λ _. erase_finished-Runs w m (length items))))
