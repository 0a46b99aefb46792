-- ===== src/Request.antt =====
-- include/llmserve/engine.h and src/engine.cpp: class RequestHandle, the queue of events between the
-- engine and one client. Each call holds the mutex, so calls come one after the other; `next` is
-- modelled from the end of its wait on. `D` stands for the members of an event that the handle never
-- reads, and the members of the handle that these calls do not use are left out.
pub mod History
mod Tests
use mini_llm_runtime.Base.{
  ℕ, ◌&&◌, not, Bool, true, false, Option, none, some, List, [], ◌∷◌, ◌++◌, leb, if◌then◌else◌,
  length,
}

-- `Event::Kind`
pub data Kind : Type 0 where
  token done error : Kind

pub record Event (D : Type 0) : Type 0 where
  pub kind : Kind
  pub data_of : D

pub record RequestHandle (D : Type 0) : Type 0 where
  pub capacity : ℕ
  pub cancelled : Bool
  pub events : List (Event D)
  pub finished : Bool

-- `event.kind != Event::Kind::token`
abbrev pub is_terminal : Kind → Bool
is_terminal token = false
is_terminal done = true
is_terminal error = true

module _ {D : Type 0} where
  abbrev pub new_handle : ℕ → RequestHandle D
  new_handle capacity = record {
    capacity = capacity;
    cancelled = false;
    events = [];
    finished = false;
  }

  pub emit : Event D → RequestHandle D → Bool × RequestHandle D
  emit event h =
      if h.finished
      then (false, h)
      else if not (is_terminal event.kind) && leb h.capacity (length h.events)
      then (false, h)
      else (true, record h { events = h.events ++ event ∷ []; finished = is_terminal event.kind })

  pub next : RequestHandle D → Option (Event D) × RequestHandle D
  next h = elim h.events [
    | [] ↦ (none, h)
    | event ∷ events ↦ (some event, record h { events = events })
  ]

  pub cancel : RequestHandle D → RequestHandle D
  cancel h = record h { cancelled = true }
