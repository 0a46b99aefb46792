-- ===== src/Request/History.antt =====
-- What the client receives, over any sequence of calls on one handle.
use mini_llm_runtime.Base.{
  ℕ, ◌+◌, ◌≤◌, ◌≡◌, refl, sym, ap, ◌∙◌, inl, inr, ◌⊎◌, ◌&&◌, not, Bool, true, false, Bool-cases,
  Option, none, some, List, [], ◌∷◌, ◌++◌, leb, if◌then◌else◌, length, length-append, arith, subst,
}
use mini_llm_runtime.Request.{Event, RequestHandle, is_terminal, new_handle, emit, next, cancel}

-- The engine's and the client's calls.
pub data Call (D : Type 0) : Type 0 where
  emits : Event D → Call D
  takes cancels : Call D

-- The handle, the events that `emit` took on, and those that `next` returned.
pub record Log (D : Type 0) : Type 0 where
  pub handle : RequestHandle D
  pub accepted : List (Event D)
  pub received : List (Event D)

module _ {D : Type 0} where
  abbrev listed : Option (Event D) → List (Event D)
  listed none = []
  listed (some e) = e ∷ []

  unfoldable pub perform : Call D → Log D → Log D
  perform (emits e) log =
      let (taken, h) = emit e log.handle in
      record log { handle = h; accepted = if taken then log.accepted ++ e ∷ [] else log.accepted }
  perform takes log =
      let (event, h) = next log.handle in
      record log { handle = h; received = log.received ++ listed event }
  perform cancels log = record log { handle = cancel log.handle }

  unfoldable pub perform_all : List (Call D) → Log D → Log D
  perform_all [] log = log
  perform_all (c ∷ calls) log = perform_all calls (perform c log)

  abbrev pub start : ℕ → Log D
  start capacity = record { handle = new_handle capacity; accepted = []; received = [] }

  abbrev pub all_tokens : List (Event D) → Bool
  all_tokens [] = true
  all_tokens (e ∷ es) = not (is_terminal e.kind) && all_tokens es

  -- Tokens only; and when the handle is finished, one more event behind them, which is terminal.
  abbrev pub IsStream : List (Event D) → Bool → Type 0
  IsStream es false = all_tokens es ≡ true
  IsStream es true =
      (tokens : List (Event D)) × (last : Event D) × (es ≡ tokens ++ last ∷ [])
      × (all_tokens tokens ≡ true)
      × (is_terminal last.kind ≡ true)

  pub record IsSound (log : Log D) (capacity : ℕ) : Type 0 where
    pub fifo : log.received ++ log.handle.events ≡ log.accepted
    pub stream : IsStream log.accepted log.handle.finished
    pub bounded : length log.handle.events ≤ capacity + (if log.handle.finished then 1 else 0)
    pub kept : log.handle.capacity ≡ capacity

  append_assoc : (xs ys zs : List (Event D)) → (xs ++ ys) ++ zs ≡ xs ++ (ys ++ zs)
  append_assoc [] ys zs = refl
  append_assoc (x ∷ xs) ys zs = ap (λ l. x ∷ l) (append_assoc xs ys zs)

  append_nil : (xs : List (Event D)) → xs ++ [] ≡ xs
  append_nil [] = refl
  append_nil (x ∷ xs) = ap (λ l. x ∷ l) (append_nil xs)

  list_cases :
      (es : List (Event D))
      → (es ≡ []) ⊎ ((e : Event D) × (rest : List (Event D)) × (es ≡ e ∷ rest))
  list_cases [] = inl refl
  list_cases (e ∷ es) = inr (e, es, refl)

  all_tokens-append :
      (es : List (Event D)) (e : Event D)
      → all_tokens es ≡ true
      → is_terminal e.kind ≡ false
      → all_tokens (es ++ e ∷ []) ≡ true
  all_tokens-append [] e h k = ground arith
  all_tokens-append (x ∷ es) e h k = ground (arith, all_tokens-append es e)

  -- How `emit` answers.
  emit-cases :
      (e : Event D) (h : RequestHandle D)
      → (emit e h ≡ (false, h))
        ⊎ ((emit e h
              ≡ (true, record h { events = h.events ++ e ∷ []; finished = is_terminal e.kind }))
            × (h.finished ≡ false)
            × (is_terminal e.kind ≡ false → length h.events + 1 ≤ h.capacity))
  unfolding emit
  emit-cases e h = elim (Bool-cases h.finished) [
    | inl over ↦ inl (rw over refl)
    | inr unfinished ↦
        elim (Bool-cases (not (is_terminal e.kind) && leb h.capacity (length h.events))) [
          | inl full ↦ inl (rw (unfinished, full) refl)
          | inr room ↦ inr (rw (unfinished, room) refl, unfinished, λ t. ground arith)
        ]
  ]

  abbrev emitted : Event D → Log D → Bool × RequestHandle D → Log D
  emitted e log (taken, h) = record log {
    handle = h;
    accepted = if taken then log.accepted ++ e ∷ [] else log.accepted;
  }

  abbrev taken_from : Log D → Option (Event D) × RequestHandle D → Log D
  taken_from log (event, h) = record log { handle = h; received = log.received ++ listed event }

  append-IsStream :
      (es : List (Event D)) (e : Event D) (terminal : Bool)
      → is_terminal e.kind ≡ terminal
      → all_tokens es ≡ true
      → IsStream (es ++ e ∷ []) terminal
  append-IsStream es e true k h = (es, e, refl, h, k)
  append-IsStream es e false k h = all_tokens-append es e h k

  emit-IsSound :
      (e : Event D) (log : Log D) (capacity : ℕ)
      → IsSound log capacity
      → IsSound (emitted e log (emit e log.handle)) capacity
  emit-IsSound e log capacity v = elim (emit-cases e log.handle) [
    | inl refused ↦ subst (λ r. IsSound (emitted e log r) capacity) (sym refused) v
    | inr (taken, unfinished, room) ↦
        subst (λ r. IsSound (emitted e log r) capacity) (sym taken)
          (record {
            fifo =
                sym (append_assoc log.received log.handle.events (e ∷ []))
                ∙ ap (λ l. l ++ e ∷ []) v.fifo;
            stream =
                append-IsStream log.accepted e (is_terminal e.kind) refl
                  (subst (IsStream log.accepted) unfinished v.stream);
            bounded = elim (Bool-cases (is_terminal e.kind)) [
              | inl last ↦ ground (arith, v.bounded, length-append log.handle.events (e ∷ []))
              | inr more ↦
                  ground (arith, room more, v.kept, length-append log.handle.events (e ∷ []))
            ];
            kept = v.kept;
          })
  ]

  next-cases :
      (h : RequestHandle D)
      → ((h.events ≡ []) × (next h ≡ (none, h)))
        ⊎ ((e : Event D) × (es : List (Event D)) × (h.events ≡ e ∷ es)
            × (next h ≡ (some e, record h { events = es })))
  unfolding next
  next-cases h = elim (list_cases h.events) [
    | inl empty ↦ inl (empty, rw (empty, next) (ap (λ l. (none, record h { events = l })) empty))
    | inr (e, es, some_event) ↦ inr (e, es, some_event, rw (some_event, next) refl)
  ]

  next-IsSound :
      (log : Log D) (capacity : ℕ)
      → IsSound log capacity
      → IsSound (taken_from log (next log.handle)) capacity
  next-IsSound log capacity v = elim (next-cases log.handle) [
    | inl (empty, e) ↦
        subst (λ r. IsSound (taken_from log r) capacity) (sym e)
          (record {
            fifo = ap (λ l. l ++ log.handle.events) (append_nil log.received) ∙ v.fifo;
            stream = v.stream;
            bounded = v.bounded;
            kept = v.kept;
          })
    | inr (x, es, some_event, e) ↦
        subst (λ r. IsSound (taken_from log r) capacity) (sym e)
          (record {
            fifo =
                append_assoc log.received (x ∷ []) es
                ∙ ap (λ l. log.received ++ l) (sym some_event)
                ∙ v.fifo;
            stream = v.stream;
            bounded = ground (arith, v.bounded, ap (λ (l : List (Event D)). length l) some_event);
            kept = v.kept;
          })
  ]

  perform-IsSound :
      (c : Call D) (log : Log D) (capacity : ℕ)
      → IsSound log capacity
      → IsSound (perform c log) capacity
  unfolding perform cancel
  perform-IsSound (emits e) log capacity v = emit-IsSound e log capacity v
  perform-IsSound takes log capacity v = next-IsSound log capacity v
  perform-IsSound cancels log capacity v = record {
    fifo = v.fifo;
    stream = v.stream;
    bounded = v.bounded;
    kept = v.kept;
  }

  perform_all-IsSound :
      (calls : List (Call D)) (log : Log D) (capacity : ℕ)
      → IsSound log capacity
      → IsSound (perform_all calls log) capacity
  unfolding perform_all
  perform_all-IsSound [] log capacity v = v
  perform_all-IsSound (c ∷ calls) log capacity v =
      perform_all-IsSound calls (perform c log) capacity (perform-IsSound c log capacity v)

  -- After any calls on a new handle: what was received and what is queued is, in order, what was
  -- accepted; that is tokens only, and once the handle is finished one terminal event behind them;
  -- and no more events are queued than the capacity, but for one when the handle is finished.
  pub history-IsSound :
      (calls : List (Call D)) (capacity : ℕ) → IsSound (perform_all calls (start capacity)) capacity
  history-IsSound calls capacity =
      perform_all-IsSound calls (start capacity) capacity
        (record { fifo = refl; stream = refl; bounded = ground arith; kept = refl })

-- After a terminal event the handle is finished, whether the event is taken on or not.
pub emit-finished :
    {D : Type 0} (event : Event D) (h : RequestHandle D)
    → is_terminal event.kind ≡ true
    → (emit event h).1.finished ≡ true
unfolding emit
emit-finished event h last = ground (arith, last)
