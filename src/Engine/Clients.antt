-- ===== src/Engine/Clients.antt =====
-- src/engine.cpp: what a client calls: `Engine::submit`, `Engine::cancel` and
-- `Engine::statistics`. Each holds the mutex where it touches what is shared, so it is one step
-- beside the thread's. `std::to_string` is a parameter.
use Prim.Native.String.{String, len, ◌++◌ as str_append}
use text.Mathlib.Text.{◌==◌ as str_eq}
use mini_llm_runtime.Base.{
  ℕ, zero, suc, ◌+◌, ◌-◌, ◌*◌, min, ℤ, pos, pos_part, Bool, true, false, ◌&&◌, ◌||◌, not, Option,
  none, some, List, [], ◌∷◌, ◌++◌, map, leb, ltb, ltb_ℤ, ◌==◌, if◌then◌else◌, is_empty, length,
  Error, ok, err,
}
use mini_llm_runtime.Config.{EngineConfig}
use mini_llm_runtime.Request.{new_handle, cancel as cancel_handle}
use mini_llm_runtime.Runner.{ModelRunner}
use mini_llm_runtime.Engine.{Request, Statistics, World, Engine}
use mini_llm_runtime.Engine.Finish.{put_handle}

-- `std::variant<std::string, std::vector<Token>>`
pub data Prompt : Type 0 where
  text_prompt : String → Prompt
  token_prompt : List ℤ → Prompt

pub record RequestInput : Type 0 where
  pub id : String
  pub prompt : Prompt
  pub max_tokens : ℕ
  pub priority : ℤ
  pub timeout_ms : ℤ
  pub ignore_eos : Bool
  pub cache_namespace : String

-- A check passes with a value, throws a `RequestError` with its status and code, or another
-- exception.
pub data Checked (A : Type 0) : Type 0 where
  fine : A → Checked A
  refuse : ℕ → String → Checked A
  fail : Error → Checked A

infixl 5 ◌>>=◌ ◌>>◌
abbrev pub ◌>>=◌ : {A B : Type 0} → Checked A → (A → Checked B) → Checked B
◌>>=◌ c next = elim c [ fine a ↦ next a | refuse s k ↦ refuse s k | fail x ↦ fail x ]

abbrev pub ◌>>◌ : {B : Type 0} → Checked (Unit {0}) → Checked B → Checked B
c >> rest = c >>= λ _. rest

abbrev pub refuse_if : Bool → ℕ → String → Checked (Unit {0})
refuse_if test status code = if test then refuse status code else fine tt

-- The limits of an input.
unfoldable pub bad_input : EngineConfig → RequestInput → Bool
bad_input c input =
    input.max_tokens == 0
    || leb c.max_model_len input.max_tokens
    || ltb_ℤ input.priority (pos 0)
    || ltb_ℤ (pos 3) input.priority
    || ltb_ℤ input.timeout_ms (pos 1)
    || ltb_ℤ (pos 300000) input.timeout_ms
    || ltb 128 (len input.id)
    || len input.cache_namespace == 0
    || ltb 64 (len input.cache_namespace)

-- `token < 0 || token >= vocab_size` for none.
unfoldable pub in_vocabulary : ℕ → List ℤ → Bool
in_vocabulary vocab_size [] = true
in_vocabulary vocab_size (t ∷ ts) =
    not (ltb_ℤ t (pos 0)) && ltb (pos_part t) vocab_size && in_vocabulary vocab_size ts

-- `registry.contains(id)`, and the handle it names.
unfoldable pub find_request : String → List (String × ℕ) → Option ℕ
find_request id [] = none
find_request id (x ∷ xs) = if str_eq x.0 id then some x.1 else find_request id xs

abbrev pub is_known : Option ℕ → Bool
is_known none = false
is_known (some order) = true

abbrev pub registered : String → List (String × ℕ) → Bool
registered id xs = is_known (find_request id xs)

abbrev pub order_id : (ℕ → String) → ℕ → String
order_id to_string n = str_append "cmpl-" (to_string n)

-- The loop for an identifier: from the order `n` on, the first that is not registered, and its
-- order; `none` where the fuel does not reach it.
unfoldable pub fresh_id : (ℕ → String) → ℕ → ℕ → List (String × ℕ) → Option (String × ℕ)
fresh_id to_string zero n registry = none
fresh_id to_string (suc fuel) n registry =
    let rest = fresh_id to_string fuel (n + 1) registry in
    if registered (order_id to_string n) registry then rest else some (order_id to_string n, n)

-- What `submit` returns or throws; `stuck` where the fuel for an identifier is used up.
pub data Submitted : Type 0 where
  accepts : Request → Submitted
  refuses : ℕ → String → Submitted
  throws : Error → Submitted
  stuck : Submitted

module _ {R : Type 0} (to_string : ℕ → String) (w : World) (m : ModelRunner R) where
  unfoldable pub read_prompt : Prompt → Checked (List ℤ)
  read_prompt (text_prompt s) =
      if ltb 262144 (len s)
      then refuse 413 "prompt_too_large"
      else elim (m.tokenize s) [ ok ts ↦ fine ts | err x ↦ fail x ]
  read_prompt (token_prompt ts) = fine ts

  -- The checks of the tokens; they are in the vocabulary then.
  abbrev pub checked_tokens : EngineConfig → RequestInput → List ℤ → Checked (List ℕ)
  checked_tokens c input prompt = do
    refuse_if (is_empty prompt || ltb (c.max_model_len - input.max_tokens) (length prompt)) 422
        "context_length_exceeded"
    refuse_if (not (in_vocabulary m.vocab_size prompt)) 422 "invalid_token"
    fine (map pos_part prompt)

  -- The checks before the mutex is taken.
  unfoldable pub checked_prompt : EngineConfig → RequestInput → Checked (List ℕ)
  checked_prompt c input = do
    refuse_if (bad_input c input) 422 "invalid_request"
    prompt ← read_prompt input.prompt
    checked_tokens c input prompt

  abbrev pub new_request : RequestInput → List ℕ → ℕ → String → ℕ → Request
  new_request input prompt created id order = record {
    id = id;
    prompt = prompt;
    max_tokens = input.max_tokens;
    priority = input.priority;
    ignore_eos = input.ignore_eos;
    cache_namespace = input.cache_namespace;
    order = order;
    created = created;
    deadline = created + pos_part input.timeout_ms * 1000000;
  }

  -- The `catch`: the rejection is counted, and the exception thrown again.
  abbrev pub reject : Submitted → Engine R → Submitted × Engine R
  reject s e = (s, record e { rejected = e.rejected + 1 })

  abbrev pub accept : Request → Engine R → Submitted × Engine R
  accept r e = (
    accepts r,
    record e {
      handles = put_handle r.order (new_handle e.config.event_buffer_size) e.handles;
      registry = (r.id, r.order) ∷ e.registry;
      incoming = e.incoming ++ r ∷ [];
      accepted = e.accepted + 1;
    },
  )

  -- The identifier, once the order is taken: a generated one, or that of the input.
  unfoldable pub name_request : RequestInput → List ℕ → ℕ → ℕ → Engine R → Submitted × Engine R
  name_request input prompt created order e =
      if len input.id == 0
      then elim (fresh_id to_string (suc (length e.registry)) order e.registry) [
        | none ↦ (stuck, e)
        | some (id, last) ↦
            accept (new_request input prompt created id order) (record e { next_order = last })
      ]
      else if registered input.id e.registry
      then reject (refuses 409 "duplicate_request_id") (record e { next_order = order })
      else accept (new_request input prompt created input.id order)
          (record e { next_order = order })

  -- What is done under the mutex.
  unfoldable pub register : RequestInput → List ℕ → ℕ → Bool → Engine R → Submitted × Engine R
  register input prompt created stopping e =
      if stopping || e.has_failed
      then reject (refuses 503 "unavailable") e
      else if leb e.config.queue_capacity (length e.registry)
      then reject (refuses 429 "queue_full") e
      else name_request input prompt created (e.next_order + 1) e

  -- `Engine::submit`. The creation time is one observation, the look at `stopping` the next.
  unfoldable pub submit : RequestInput → Engine R → Submitted × Engine R
  submit input e =
      let n = e.observations in
      let e' : Engine R = record e { observations = n + 2 } in
      elim (checked_prompt e.config input) [
        | fine prompt ↦ register input prompt (w.clock n) (w.stopping (n + 1)) e'
        | refuse status code ↦ reject (refuses status code) e'
        | fail x ↦ reject (throws x) e'
      ]

  -- `Engine::cancel`
  unfoldable pub cancel : String → Engine R → Bool × Engine R
  cancel id e = elim (find_request id e.registry) [
    | none ↦ (false, e)
    | some order ↦
        (true, record e { handles = put_handle order (cancel_handle (e.handles order)) e.handles })
  ]

-- The members of `Statistics` that `Engine::statistics` sets itself, and the snapshot.
pub record Report : Type 0 where
  pub snapshot : Statistics
  pub accepted : ℕ
  pub rejected : ℕ
  pub outstanding_requests : ℕ
  pub waiting_requests : ℕ

-- `Engine::statistics`
unfoldable pub statistics : {R : Type 0} → World → Engine R → Report
statistics w e = record {
  snapshot = record e.snapshot {
    ready = e.snapshot.ready && not (w.stopping e.observations) && not e.has_failed;
  };
  accepted = e.accepted;
  rejected = e.rejected;
  outstanding_requests = length e.registry;
  waiting_requests = length e.registry - min (length e.registry) e.snapshot.active_requests;
}
