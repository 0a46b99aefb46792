-- ===== src/Engine/Finish.antt =====
-- src/engine.cpp: how a request ends, and how a cached prompt is given up: `terminal`,
-- `terminal_event`, `require_reusable`, `finish`, `erase_finished`, `expired`, `expire_requests`,
-- `evict`.
use Prim.Native.String.{String}
use text.Mathlib.Text.{◌==◌ as str_eq}
use mini_llm_runtime.Base.{
  ℕ, zero, suc, ◌+◌, Bool, true, ◌||◌, not, none, some, List, [], ◌∷◌, leb, ◌==◌, if◌then◌else◌,
  length, get_elem?, set, runtime_error,
}
use mini_llm_runtime.BlockPool.{release}
use mini_llm_runtime.PrefixIndex.{erase, least_recently_used}
use mini_llm_runtime.Request.{Kind, token, done, error, Event, RequestHandle, emit, next}
use mini_llm_runtime.Utf8.{finish as finish_text}
use mini_llm_runtime.Runner.{ModelRunner}
use mini_llm_runtime.Engine.{Request, EventData, Active, Statistics, World}
use mini_llm_runtime.Engine.Action.{
  Action, pure, raise, gets, or_stuck, on_pool, on_prefixes, ◌>>=◌, ◌>>◌, modify, skip, when,
  observe,
}

-- The client takes events, `n` at most.
unfoldable pub take_events : ℕ → RequestHandle EventData → RequestHandle EventData
take_events zero h = h
take_events (suc n) h = take_events n (next h).1

abbrev pub put_handle :
    ℕ → RequestHandle EventData → (ℕ → RequestHandle EventData) → ℕ → RequestHandle EventData
put_handle order h handles n = if n == order then h else handles n

-- `registry.erase(id)`
unfoldable pub erase_id : String → List (String × ℕ) → List (String × ℕ)
erase_id id [] = []
erase_id id (x ∷ xs) = if str_eq x.0 id then erase_id id xs else x ∷ erase_id id xs

abbrev count_error : String → Statistics → Statistics
count_error code c =
    if str_eq code "cancelled"
    then record c { cancelled = c.cancelled + 1 }
    else if str_eq code "timeout"
    then record c { timed_out = c.timed_out + 1 }
    else record c { failed = c.failed + 1 }

-- The counter of a terminal event.
unfoldable pub count_end : Kind → String → Statistics → Statistics
count_end done code c = record c { completed = c.completed + 1 }
count_end token code c = count_error code c
count_end error code c = count_error code c

-- `terminal_event`
unfoldable pub terminal_event : Request → String → ℕ → Event EventData
terminal_event request reason status = record {
  kind = if status == 200 then done else error;
  data_of = record {
    text = [];
    token = none;
    finish_reason = if status == 200 then reason else "error";
    error_code = if status == 200 then "" else reason;
    status = status;
    prompt_tokens = length request.prompt;
    completion_tokens = 0;
    cached_tokens = 0;
  };
}

-- `std::erase_if(active, [](item) { return item->done; })`
unfoldable pub live_items : List Active → List Active
live_items [] = []
live_items (item ∷ items) = if item.done then live_items items else item ∷ live_items items

module _ {R : Type 0} (w : World) (m : ModelRunner R) where
  abbrev pub is_cancelled : Request → Action R Bool
  is_cancelled request = do n ← observe; pure (w.cancelled n request.order)

  unfoldable pub expired : Request → Action R Bool
  expired request = do
    n ← observe
    pure (w.cancelled n request.order || leb request.deadline (w.clock n))

  -- `RequestHandle::emit`, after what the client has taken until then.
  unfoldable pub emit_event : Request → Event EventData → Action R Bool
  emit_event request event e =
      let n = e.observations in
      let (taken, h) =
        emit event (take_events (w.taken n request.order) (e.handles request.order)) in
      (pure taken)
        (record e { handles = put_handle request.order h e.handles; observations = n + 1 })

  unfoldable pub terminal : Request → Event EventData → Action R (Unit {0})
  terminal request event = do
    over ← gets (λ e. (e.handles request.order).finished)
    if over then skip else do
      modify (λ e. record e { counters = count_end event.kind event.data_of.error_code e.counters })
      modify (λ e. record e { registry = erase_id request.id e.registry })
      _ ← emit_event request event
      skip

  unfoldable pub require_reusable : Action R (Unit {0})
  require_reusable e = elim (m.resources e.runner) [
    | none ↦ skip e
    | some r ↦ if not r.state_valid || not r.reusable then raise runtime_error e else skip e
  ]

  abbrev pub clear_sequence : ℕ → Action R (Unit {0})
  clear_sequence s = modify (λ e. record e { runner = m.clear_sequence s e.runner })

  -- `finish` of the item at an index of `active`, once that is not done.
  unfoldable pub finish_item : ℕ → Active → String → ℕ → Bool → Action R (Unit {0})
  finish_item i item reason status check_backend = do
    clear_sequence item.sequence
    when check_backend require_reusable
    on_pool (release item.blocks)
    modify (λ e. record e {
      free_sequences = item.sequence ∷ e.free_sequences;
      active =
          set e.active i
            (record item { blocks = []; done = true; text = (finish_text item.text).1 });
    })
    let event = terminal_event item.request reason status
    terminal item.request (record event {
      data_of = record event.data_of {
        text = (finish_text item.text).0;
        completion_tokens = item.generated;
        cached_tokens = item.reused;
      };
    })

  abbrev pub item_at : ℕ → Action R Active
  item_at i e = or_stuck (get_elem? e.active i) e

  unfoldable pub finish : ℕ → String → ℕ → Bool → Action R (Unit {0})
  finish i reason status check_backend = do
    item ← item_at i
    if item.done then skip else finish_item i item reason status check_backend

  abbrev pub erase_finished : Action R (Unit {0})
  erase_finished = modify (λ e. record e { active = live_items e.active })

  abbrev late_reason : Bool → String
  late_reason cancel = if cancel then "cancelled" else "timeout"

  abbrev late_status : Bool → ℕ
  late_status cancel = if cancel then 409 else 408

  -- The predicate of `std::erase_if(waiting, ...)` on each request in turn; those it keeps.
  unfoldable pub expire_waiting : List Request → Action R (List Request)
  expire_waiting [] = pure []
  expire_waiting (request ∷ requests) = do
    late ← expired request
    if late
        then (do
          cancel ← is_cancelled request
          terminal request (terminal_event request (late_reason cancel) (late_status cancel))
          expire_waiting requests)
        else (do kept ← expire_waiting requests; pure (request ∷ kept))

  -- The loop over `active` from the index `i` on.
  unfoldable pub expire_active : ℕ → ℕ → Action R (Unit {0})
  expire_active zero i = skip
  expire_active (suc n) i = do
    item ← item_at i
    late ← expired item.request
    when late (do
      cancel ← is_cancelled item.request
      finish i (late_reason cancel) (late_status cancel) true)
    expire_active n (i + 1)

  unfoldable pub expire_requests : Action R (Unit {0})
  expire_requests = do
    requests ← gets (λ e. e.waiting)
    kept ← expire_waiting requests
    modify (λ e. record e { waiting = kept })
    count ← gets (λ e. length e.active)
    expire_active count 0
    erase_finished

  unfoldable pub evict : ℕ → Bool → Action R (Unit {0})
  evict s check_backend = do
    entry ← on_prefixes (erase s)
    clear_sequence s
    on_pool (release entry.blocks)
    modify (λ e. record e {
      free_cache_sequences = s ∷ e.free_cache_sequences;
      counters = record e.counters { cache_evictions = e.counters.cache_evictions + 1 };
    })
    when check_backend require_reusable

  -- `evict(*prefixes.least_recently_used(), check_backend)`
  unfoldable pub evict_oldest : Bool → Action R (Unit {0})
  evict_oldest check_backend = do
    oldest ← gets (λ e. least_recently_used e.prefixes)
    s ← or_stuck oldest
    evict s check_backend
