-- ===== src/Request/Tests.antt =====
-- A handle with room for one token.
use mini_llm_runtime.Base.{ℕ, ◌≡◌, refl, true, List, [], ◌∷◌}
use mini_llm_runtime.Request.{token, done, Event, emit, next, cancel}
use mini_llm_runtime.Request.History.{
  Call, emits, takes, cancels, perform, perform_all, start, IsSound, history-IsSound,
}

abbrev token_event : ℕ → Event ℕ
token_event n = record { kind = token; data_of = n }

abbrev done_event : Event ℕ
done_event = record { kind = done; data_of = 0 }

-- The second token does not fit, the end does, and nothing comes after the end.
abbrev some_calls : List (Call ℕ)
some_calls =
    emits (token_event 7)
    ∷ emits (token_event 8)
    ∷ takes
    ∷ emits (token_event 9)
    ∷ cancels
    ∷ emits done_event
    ∷ emits done_event
    ∷ takes
    ∷ []

calls-log : perform_all some_calls (start 1) ≡ record {
  handle = record { capacity = 1; cancelled = true; events = done_event ∷ []; finished = true };
  accepted = token_event 7 ∷ token_event 9 ∷ done_event ∷ [];
  received = token_event 7 ∷ token_event 9 ∷ [];
}
unfolding perform_all perform emit next cancel
calls-log = refl

history-IsSound_example : IsSound (perform_all some_calls (start 1)) 1
history-IsSound_example = history-IsSound some_calls 1
