-- ===== src/Engine/Run.antt =====
-- src/engine.cpp: the engine's thread: `drain_incoming`, `publish`, `terminate_all` and `run`. A
-- client's `submit` between two observations adds to the incoming requests; `arrive` is that, at
-- the points where the thread looks.
use Prim.Native.String.{String}
use mini_llm_runtime.Base.{
  ℕ, zero, suc, ◌+◌, Bool, true, false, not, none, some, List, [], ◌∷◌, ◌++◌, if◌then◌else◌,
  is_empty, length, contains, logic_error,
}
use mini_llm_runtime.BlockPool.{capacity, used_count}
use mini_llm_runtime.PrefixIndex.{size, least_recently_used}
use mini_llm_runtime.Runner.{ModelRunner}
use mini_llm_runtime.Engine.{Request, Active, World, Engine}
use mini_llm_runtime.Engine.Action.{
  Action, Outcome, returned, raised, undefined, raise, gets, ◌>>=◌, ◌>>◌, modify, skip, when, pure,
}
use mini_llm_runtime.Engine.Finish.{
  terminal, terminal_event, require_reusable, finish, expire_requests, evict,
}
use mini_llm_runtime.Engine.Admit.{admit_waiting}
use mini_llm_runtime.Engine.Batch.{iteration}

-- `std::unordered_set::insert` of each block, and the size in the end.
unfoldable pub insert_unique : List ℕ → List ℕ → List ℕ
insert_unique [] seen = seen
insert_unique (b ∷ bs) seen = insert_unique bs (if contains b seen then seen else b ∷ seen)

unfoldable pub active_blocks : List Active → List ℕ → List ℕ
active_blocks [] seen = seen
active_blocks (item ∷ items) seen =
    active_blocks items (if item.done then seen else insert_unique item.blocks seen)

-- What the thread meets when it looks for work: the requests that clients have submitted since it
-- looked last, and whether the engine is to stop.
pub record Round : Type 0 where
  pub arrivals : List Request
  pub stop : Bool

-- Where `run` is after some rounds: it still runs, it has left its loop, or it has caught an error.
pub data Ending : Type 0 where
  running : Ending
  stopped : Ending
  failed : Ending

module _ {R : Type 0} (w : World) (m : ModelRunner R) where
  unfoldable pub publish : Action R (Unit {0})
  publish = modify (λ e.
      let c = record e.counters {
        active_requests = length e.active;
        kv_total_blocks = capacity e.pool;
        kv_used_blocks = used_count e.pool;
        kv_active_unique_blocks = length (active_blocks e.active []);
        prefix_entries = size e.prefixes;
        prefix_tokens = e.prefixes.token_count;
      } in
      record e { counters = c; snapshot = c })

  unfoldable pub drain_incoming : Action R (Unit {0})
  drain_incoming = modify (λ e. record e { waiting = e.waiting ++ e.incoming; incoming = [] })

  -- `for (auto& item : active) { finish(*item, ...); }` from the index `i` on.
  unfoldable pub finish_all : ℕ → ℕ → String → ℕ → Bool → Action R (Unit {0})
  finish_all zero i reason status check_backend = skip
  finish_all (suc n) i reason status check_backend = do
    finish w m i reason status check_backend
    finish_all n (i + 1) reason status check_backend

  unfoldable pub end_waiting : List Request → String → ℕ → Action R (Unit {0})
  end_waiting [] reason status = skip
  end_waiting (request ∷ requests) reason status = do
    terminal w m request (terminal_event request reason status)
    end_waiting requests reason status

  -- `while (const auto sequence = prefixes.least_recently_used()) { evict(*sequence, ...); }`; each
  -- round takes an entry, so the number of entries is enough fuel.
  unfoldable pub evict_all : ℕ → Bool → Action R (Unit {0})
  evict_all zero check_backend = skip
  evict_all (suc fuel) check_backend = do
    oldest ← gets (λ e. least_recently_used e.prefixes)
    elim oldest [
      | none ↦ skip
      | some s ↦ do evict w m s check_backend; evict_all fuel check_backend
    ]

  unfoldable pub terminate_all : String → ℕ → Bool → Action R (Unit {0})
  terminate_all reason status check_backend = do
    modify (λ e. record e { runner = m.synchronize e.runner })
    when check_backend (require_reusable w m)
    drain_incoming
    count ← gets (λ e. length e.active)
    finish_all count 0 reason status check_backend
    modify (λ e. record e { active = [] })
    requests ← gets (λ e. e.waiting)
    end_waiting requests reason status
    modify (λ e. record e { waiting = [] })
    entries ← gets (λ e. size e.prefixes)
    evict_all entries check_backend
    modify (λ e. record e { counters = record e.counters { ready = false } })
    publish

  -- The requests that clients have submitted since the thread looked last.
  abbrev pub arrive : List Request → Action R (Unit {0})
  arrive requests = modify (λ e. record e { incoming = e.incoming ++ requests })

  -- One round of the loop of `run`, once it has work and is not to stop.
  unfoldable pub cycle : Action R (Unit {0})
  cycle = do
    drain_incoming
    expire_requests w m
    admit_waiting w m
    idle ← gets (λ e. is_empty e.active)
    starved ← gets (λ e. not (is_empty e.waiting))
    if not idle then iteration w m else if starved then raise logic_error else skip
    publish

  -- The loop of `run`, for the rounds that it has made. The answer is whether it has left: it leaves
  -- only where it sees `stopping`; else it is still running after these rounds.
  unfoldable pub run_loop : List Round → Action R Bool
  run_loop [] = pure false
  run_loop (round ∷ rounds) = do
    arrive round.arrivals
    if round.stop then pure true else do cycle; run_loop rounds

  -- The body of the `try` of `run`: what is behind the loop runs once the loop has left.
  unfoldable pub run_body : List Round → Action R Bool
  run_body rounds = do
    require_reusable w m
    publish
    left ← run_loop rounds
    when left (terminate_all "cancelled" 503 true)
    pure left

  -- The `catch` of `run`.
  unfoldable pub caught : Outcome Bool × Engine R → Outcome Ending × Engine R
  caught (returned left, after) = (returned (if left then stopped else running), after)
  caught (raised x, after) =
      (terminate_all "backend_error" 500 false >>= λ _. pure failed)
        (record after { has_failed = true })
  caught (undefined, after) = (undefined, after)

  unfoldable pub run : List Round → Action R Ending
  run rounds e = caught (run_body rounds e)
