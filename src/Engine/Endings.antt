-- ===== src/Engine/Endings.antt =====
-- A request ends once.
use mini_llm_runtime.Base.{
  ◌≡◌, refl, sym, ap, subst, inl, inr, true, false, ==_self, if◌then◌else◌, Bool-cases,
}
use mini_llm_runtime.Request.{Event, is_terminal}
use mini_llm_runtime.Request.History.{emit-finished}
use mini_llm_runtime.Runner.{ModelRunner}
use mini_llm_runtime.Engine.{Request, EventData, World, Engine}
use mini_llm_runtime.Engine.Action.{
  Action, Outcome, returned, gets, pure, modify, ◌>>=◌, ◌>>◌, skip,
}
use mini_llm_runtime.Engine.Finish.{take_events, terminal, emit_event, count_end, erase_id}

module _ {R : Type 0} (w : World) (m : ModelRunner R) (request : Request) where
  emit_event-finished :
      (event : Event EventData) (e : Engine R)
      → is_terminal event.kind ≡ true
      → ((emit_event w m request event e).1.handles request.order).finished ≡ true
  unfolding emit_event pure
  emit_event-finished event e last = rw (==_self request.order) (
      emit-finished event
        (take_events (w.taken e.observations request.order) (e.handles request.order)) last)

  terminal-over :
      (event : Event EventData) (e : Engine R)
      → (e.handles request.order).finished ≡ true
      → terminal w m request event e ≡ (returned tt, e)
  unfolding terminal gets pure ◌>>=◌
  terminal-over event e over = rw over refl

  -- The engine with the end counted and the identifier free again.
  abbrev counted : Event EventData → Engine R → Engine R
  counted event e = record e {
    counters = count_end event.kind event.data_of.error_code e.counters;
    registry = erase_id request.id e.registry;
  }

  terminal-going :
      (event : Event EventData) (e : Engine R)
      → (e.handles request.order).finished ≡ false
      → terminal w m request event e
        ≡ (returned tt, (emit_event w m request event (counted event e)).1)
  unfolding terminal gets modify pure emit_event ◌>>=◌
  terminal-going event e going = ap (λ b. (if b then skip else going_on) e) going
    where
      going_on : Action R (Unit {0})
      going_on =
          modify
            (λ e. record e { counters = count_end event.kind event.data_of.error_code e.counters })
          >> (modify (λ e. record e { registry = erase_id request.id e.registry })
              >> (emit_event w m request event >>= λ _. skip))

  -- After a terminal event for a request its handle is finished; and a second one, whatever it is,
  -- changes nothing, neither the counters, nor the registry, nor the events.
  pub terminal-once :
      (event again : Event EventData) (e : Engine R)
      → is_terminal event.kind ≡ true
      → let after = (terminal w m request event e).1 in
        ((terminal w m request event e).0 ≡ returned tt)
        × ((after.handles request.order).finished ≡ true)
        × (terminal w m request again after ≡ (returned tt, after))
  terminal-once event again e last = elim (Bool-cases (e.handles request.order).finished) [
    | inl over ↦ settled e (terminal-over event e over) over
    | inr going ↦
        settled (emit_event w m request event (counted event e)).1 (terminal-going event e going)
          (emit_event-finished event (counted event e) last)
  ]
    where
      settled :
          (after : Engine R)
          → terminal w m request event e ≡ (returned tt, after)
          → (after.handles request.order).finished ≡ true
          → let r = terminal w m request event e in
            (r.0 ≡ returned tt)
            × ((r.1.handles request.order).finished ≡ true)
            × (terminal w m request again r.1 ≡ (returned tt, r.1))
      settled after ended over =
          subst
            (λ (r : Outcome (Unit {0}) × Engine R).
              (r.0 ≡ returned tt)
              × ((r.1.handles request.order).finished ≡ true)
              × (terminal w m request again r.1 ≡ (returned tt, r.1)))
            (sym ended) (refl, over, terminal-over again after over)
