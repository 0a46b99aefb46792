-- ===== src/Engine/Admit.antt =====
-- src/engine.cpp: `admit`, `admit_waiting` and `cache_prompt`.
use mini_llm_runtime.Base.{
  ℕ, zero, suc, ◌+◌, ◌-◌, ◌*◌, ◌/◌, min, ℤ, pos, Bool, true, false, ◌&&◌, ◌||◌, not, Option, none,
  some, List, [], ◌∷◌, ◌++◌, ltb, leb, ◌==◌, if◌then◌else◌, is_empty, length, get_elem?, take,
  stable_sort, ltb_ℤ, ok, err,
}
use mini_llm_runtime.Config.{EngineConfig}
use mini_llm_runtime.BlockPool.{allocate, retain, free_count}
use mini_llm_runtime.PrefixIndex.{PrefixEntry, PrefixMatch, match, insert, at, size}
use mini_llm_runtime.Scheduler.{effective_priority, eq_ℤ}
use mini_llm_runtime.Runner.{ModelRunner}
use mini_llm_runtime.Engine.{Request, Active, World}
use mini_llm_runtime.Engine.Action.{
  Action, pure, stuck, gets, or_stuck, lift, on_pool, on_prefixes, ◌>>=◌, ◌>>◌, modify, skip, when,
  observe,
}
use mini_llm_runtime.Engine.Finish.{clear_sequence, require_reusable, evict_oldest}

-- `std::chrono::milliseconds` between two readings of the steady clock.
abbrev pub age_ms : ℕ → ℕ → ℤ
age_ms start end = pos ((end - start) / 1000000)

abbrev pub total_blocks : EngineConfig → Request → ℕ
total_blocks config request =
    (length request.prompt + request.max_tokens + config.block_size - 1) / config.block_size

abbrev pub shared_blocks : EngineConfig → Option PrefixMatch → ℕ
shared_blocks config none = 0
shared_blocks config (some m) = m.tokens / config.block_size

abbrev pub reused_tokens : Option PrefixMatch → ℕ
reused_tokens none = 0
reused_tokens (some m) = m.tokens

-- The comparison of `admit_waiting`.
unfoldable pub admitted_before : ℤ → ℕ → Request → Request → Bool
admitted_before aging_ms now left right =
    let lp = effective_priority left.priority (age_ms left.created now) aging_ms in
    let rp = effective_priority right.priority (age_ms right.created now) aging_ms in
    if eq_ℤ lp rp then ltb left.order right.order else ltb_ℤ rp lp

-- `waiting.erase(waiting.begin() + i)`
abbrev pub erase_at {ℓ} : {A : Type ℓ} → List A → ℕ → List A
erase_at [] i = []
erase_at (x ∷ xs) zero = xs
erase_at (x ∷ xs) (suc i) = x ∷ erase_at xs i

-- The blocks of a vector from its start, where there are that many.
abbrev pub first_blocks : ℕ → List ℕ → Option (List ℕ)
first_blocks n blocks = if leb n (length blocks) then some (take n blocks) else none

module _ {R : Type 0} (w : World) (m : ModelRunner R) where
  abbrev pub match_prompt : Request → ℕ → Action R (Option PrefixMatch)
  match_prompt request max_reuse =
      on_prefixes (match request.cache_namespace request.prompt max_reuse)

  -- `free_sequences.back()` and `pop_back`
  unfoldable pub pop_sequence : Action R ℕ
  pop_sequence e = elim e.free_sequences [
    | [] ↦ stuck e
    | s ∷ rest ↦ pure s (record e { free_sequences = rest })
  ]

  unfoldable pub pop_cache_sequence : Action R ℕ
  pop_cache_sequence e = elim e.free_cache_sequences [
    | [] ↦ stuck e
    | s ∷ rest ↦ pure s (record e { free_cache_sequences = rest })
  ]

  -- The `while` of `admit`. The fuel bounds the rounds by the entries there are.
  unfoldable pub make_room : ℕ → Request → Option PrefixMatch → Action R (Option PrefixMatch)
  make_room zero request found = pure found
  make_room (suc fuel) request found = do
    short ← gets (λ e.
        ltb (free_count e.pool) (total_blocks e.config request - shared_blocks e.config found)
        && ltb 0 (size e.prefixes))
    if short
        then (do
          evict_oldest w m true
          again ← match_prompt request (length request.prompt - 1)
          make_room fuel request again)
        else pure found

  -- `admit`, what a match contributes: the blocks that are shared, once they are retained.
  unfoldable pub share_blocks : Option PrefixMatch → Action R (List ℕ)
  share_blocks none = pure []
  share_blocks (some found) = do
    source ← (λ e. lift (at found.sequence e.prefixes) e)
    shared ← (λ e. or_stuck (first_blocks (found.tokens / e.config.block_size) source.blocks) e)
    on_pool (retain shared)
    modify (λ e. record e {
      counters = record e.counters {
        cache_hits = e.counters.cache_hits + 1;
        cached_tokens = e.counters.cached_tokens + found.tokens;
      };
    })
    pure shared

  unfoldable pub copy_tokens : ℕ → ℕ → ℕ → Action R (Unit {0})
  copy_tokens source target tokens e =
      let (r, runner) = m.copy_sequence source target tokens e.runner in
      lift r (record e { runner = runner })

  abbrev pub copy_prefix : Option PrefixMatch → ℕ → Action R (Unit {0})
  copy_prefix none target = skip
  copy_prefix (some p) target = copy_tokens p.sequence target p.tokens

  -- The end of `admit`: the item is published, then the runner is told.
  unfoldable pub publish_item : Option PrefixMatch → Active → Action R Bool
  publish_item found item = do
    modify (λ e. record e { active = e.active ++ item ∷ [] })
    clear_sequence w m item.sequence
    require_reusable w m
    copy_prefix found item.sequence
    pure true

  unfoldable pub admit_with : Request → Option PrefixMatch → Option (List ℕ) → Action R Bool
  admit_with request found none = pure false
  admit_with request found (some fresh) = do
    sequence ← pop_sequence
    shared ← share_blocks found
    publish_item found (record {
      request = request;
      sequence = sequence;
      blocks = shared ++ fresh;
      processed = reused_tokens found;
      generated = 0;
      reused = reused_tokens found;
      last_token = 0;
      text = [];
      last_scheduled = request.created;
      done = false;
    })

  -- `pool.allocate`, which does not throw.
  abbrev pub allocate_blocks : ℕ → Action R (Option (List ℕ))
  allocate_blocks n = on_pool (λ p. let (ids, q) = allocate n p in (ok ids, q))

  unfoldable pub admit : Request → Action R Bool
  admit request = do
    first ← match_prompt request (length request.prompt - 1)
    fuel ← gets (λ e. size e.prefixes)
    found ← make_room fuel request first
    missing ← gets (λ e. total_blocks e.config request - shared_blocks e.config found)
    fresh ← allocate_blocks missing
    admit_with request found fresh

  -- The loop of `admit_waiting` from the index `i` on; each round takes a request away or passes it.
  unfoldable pub admit_loop : ℕ → ℕ → ℕ → Action R (Unit {0})
  admit_loop zero i now = skip
  admit_loop (suc fuel) i now = do
    over ← gets (λ e. leb (length e.waiting) i || is_empty e.free_sequences)
    if over then skip else do
      request ← (λ e. or_stuck (get_elem? e.waiting i) e)
      admitted ← admit request
      reserve_ms ← gets (λ e. e.config.admission_reserve_ms)
      if admitted
          then (do modify (λ e. record e { waiting = erase_at e.waiting i }); admit_loop fuel i now)
          else if not (ltb_ℤ (age_ms request.created now) reserve_ms)
          then skip
          else admit_loop fuel (i + 1) now

  unfoldable pub admit_waiting : Action R (Unit {0})
  admit_waiting = do
    n ← observe
    modify (λ e. record e {
      waiting = stable_sort (admitted_before e.config.aging_ms (w.clock n)) e.waiting;
    })
    count ← gets (λ e. length e.waiting)
    admit_loop count 0 (w.clock n)

  -- The `while` of `cache_prompt`.
  unfoldable pub make_cache_room : ℕ → ℕ → Action R (Unit {0})
  make_cache_room zero tokens = skip
  make_cache_room (suc fuel) tokens = do
    crowded ← gets (λ e.
        ltb 0 (size e.prefixes)
        && (is_empty e.free_cache_sequences
            || ltb e.config.prefix_cache_tokens (e.prefixes.token_count + tokens)))
    when crowded (do evict_oldest w m true; make_cache_room fuel tokens)

  abbrev pub covers : ℕ → Option PrefixMatch → Bool
  covers tokens none = false
  covers tokens (some p) = p.tokens == tokens

  abbrev pub prompt_entry : Active → ℕ → List ℕ → ℕ → PrefixEntry
  prompt_entry item sequence blocks tokens = record {
    sequence = sequence;
    cache_namespace = item.request.cache_namespace;
    tokens = take tokens item.request.prompt;
    blocks = blocks;
    last_used = 0;
  }

  unfoldable pub insert_entry : PrefixEntry → Action R (Unit {0})
  insert_entry entry =
      on_prefixes (λ p. elim (insert entry p) [ err x ↦ err x | ok q ↦ ok (tt, q) ])

  -- `cache_prompt` once there is something to store.
  unfoldable pub store_prompt : Active → ℕ → Action R (Unit {0})
  store_prompt item tokens = do
    fuel ← gets (λ e. size e.prefixes)
    make_cache_room fuel tokens
    sequence ← pop_cache_sequence
    blocks ← (λ e. or_stuck (first_blocks (tokens / e.config.block_size) item.blocks) e)
    on_pool (retain blocks)
    insert_entry (prompt_entry item sequence blocks tokens)
    clear_sequence w m sequence
    require_reusable w m
    copy_tokens item.sequence sequence tokens

  unfoldable pub cache_prompt : Active → Action R (Unit {0})
  cache_prompt item = do
    config ← gets (λ e. e.config)
    let tokens =
        min (length item.request.prompt) config.prefix_cache_tokens
        / config.block_size
        * config.block_size
    if config.prefix_cache_entries == 0 || tokens == 0 then skip else do
      existing ← match_prompt item.request tokens
      if covers tokens existing then skip else store_prompt item tokens
