-- ===== src/Ws/Valid.antt =====
-- The invariant of a WSFactory object, and that everything that can happen to it keeps it
-- (frontend/public/module/ws-factory.js).
use web_ui.Base.{
  ℕ, ◌+◌, ◌≤◌, ◌≡◌, refl, Bool, true, false, Option, none, some, List, [], ◌∷◌, ◌++◌, arith, length,
  length-append, ltb, Option-cases, Bool-cases, inl, inr, subst, ◌||◌, ◌&&◌, not, ◌∙◌, is_some,
  if◌then◌else◌,
}
use web_ui.Ws.Defs.{
  opened, is_destroyed, is_open, EventType, Payload, Options, Timer, Ws, next_delay, attempt,
  connect, reconnect, schedule, destroy, trigger_event, trigger_message, buffer_message, shift_over,
  invoke_handlers, invoke_each, clear_attempt, without_timer, flush_message_buffer,
  register_handler, pause, unpause, onopen, onclose, onerror, onmessage, create, parsed, on_open,
  on_close, on_error, undefined, browser_event, closed, error,
}
use web_ui.Ws.Run.{
  Event, register, flush_tick, pause_call, unpause_call, destroy_call, socket_open, socket_close,
  socket_error, socket_message, timer_fires, step, run, find_timer, has,
}
use web_ui.Ws.Backoff.{next_delay_bounds}

-- At most one timeout is pending, the one that `_connectionAttempt` names, between 1 and 60 seconds.
abbrev pub Pending : Option ℕ → List Timer → Type 0
Pending c [] = Unit
Pending c (t ∷ []) = (c ≡ some t.id) × (1000 ≤ t.delay) × (t.delay ≤ 60000)
Pending c (_ ∷ _ ∷ _) = ⊥

module _ {H D : Type 0} where
  pub record IsValid (s : Ws H D) : Type 0 where
    pub bounded : length s.message_buffer ≤ s.buffer_max
    pub pending : Pending s.connection_attempt s.timers

pub without-Pending : (c : Option ℕ) (ts : List Timer) → Pending c ts → without_timer c ts ≡ []
without-Pending none [] p = refl
without-Pending (some i) [] p = refl
without-Pending none (t ∷ []) p = ground arith
without-Pending (some i) (t ∷ []) p = ground arith
without-Pending c (t ∷ u ∷ ts) p = absurd p

Pending-none : (ts : List Timer) → Pending none ts → ts ≡ []
Pending-none [] p = refl
Pending-none (t ∷ []) p = cc
Pending-none (t ∷ u ∷ ts) p = absurd p

shift_over-bound :
    {D : Type 0} (n : ℕ) (ds : List D) → length ds ≤ n + 1 → length (shift_over n ds) ≤ n
shift_over-bound n [] h = omega arith
shift_over-bound n (d ∷ ds) h = ground arith

find_timer-Pending :
    (i : ℕ) (c : Option ℕ) (ts : List Timer) (t : Timer)
    → Pending c ts
    → find_timer i ts ≡ some t
    → (is_some c ≡ true)
      × (1000 ≤ t.delay)
      × (t.delay ≤ 60000)
      × (without_timer (some t.id) ts ≡ [])
find_timer-Pending i c [] t p e = cc
find_timer-Pending i c (u ∷ []) t p e = ground arith
find_timer-Pending i c (u ∷ w ∷ ts) t p e = absurd p

module _ {H D : Type 0} where
  schedule-IsValid :
      (d : ℕ) (s : Ws H D)
      → IsValid s
      → s.timers ≡ []
      → 1000 ≤ d
      → d ≤ 60000
      → IsValid (schedule d s)
  unfolding schedule
  schedule-IsValid d s v e lo hi = record { bounded = v.bounded; pending = rw e (refl, lo, hi) }

  reconnect-IsValid : (s : Ws H D) → IsValid s → IsValid (reconnect s)
  unfolding reconnect
  reconnect-IsValid s v = elim (Bool-cases (is_some s.connection_attempt || is_destroyed s.state)) [
    | inl e ↦ rw e v
    | inr e ↦ rw e (
        schedule-IsValid 1000 s v
          (Pending-none s.timers (subst (λ c. Pending c s.timers) (ground arith) v.pending))
          (omega arith) (omega arith))
  ]

  trigger_event-IsValid :
      (t : EventType) (p : Payload D) (s : Ws H D) → IsValid s → IsValid (trigger_event t p s)
  unfolding trigger_event invoke_handlers
  trigger_event-IsValid t p s v = ground arith

  trigger_message-IsValid : (d : D) (s : Ws H D) → IsValid s → IsValid (trigger_message d s)
  unfolding trigger_message buffer_message invoke_handlers
  trigger_message-IsValid d s v = ground (
    arith,
    length-append s.message_buffer (d ∷ []),
    shift_over-bound s.buffer_max (s.message_buffer ++ d ∷ []),
  )

  clear_attempt-IsValid : (s : Ws H D) → IsValid s → IsValid (clear_attempt s)
  unfolding clear_attempt
  clear_attempt-IsValid s v = record {
    bounded = v.bounded;
    pending = rw (without-Pending _ _ v.pending) tt;
  }

  connect-IsValid : (created : Bool) (s : Ws H D) → IsValid s → IsValid (connect created s)
  unfolding connect
  connect-IsValid true s v = record { bounded = omega arith; pending = v.pending }
  connect-IsValid false s v =
      reconnect-IsValid _ (record { bounded = omega arith; pending = v.pending })

  destroy-IsValid : (b : Bool) (s : Ws H D) → IsValid s → IsValid (destroy b s)
  unfolding destroy trigger_event invoke_handlers
  destroy-IsValid b s v = ground (arith, without-Pending s.connection_attempt s.timers v.pending)

  invoke_each-IsValid : (ds : List D) (s : Ws H D) → IsValid s → IsValid (invoke_each ds s)
  unfolding invoke_each invoke_handlers
  invoke_each-IsValid [] s v = v
  invoke_each-IsValid (d ∷ ds) s v =
      invoke_each-IsValid ds _ (record { bounded = v.bounded; pending = v.pending })

  flush-IsValid : (s : Ws H D) → IsValid s → IsValid (flush_message_buffer s)
  unfolding flush_message_buffer invoke_handlers
  flush-IsValid s v = ground (arith, v, invoke_each-IsValid s.message_buffer s v)

  connect-timers :
      (created : Bool) (s : Ws H D)
      → is_some s.connection_attempt ≡ true
      → (connect created s).timers ≡ s.timers
  unfolding connect reconnect
  connect-timers true s c = refl
  connect-timers false s c = ground arith

  attempt-IsValid :
      (created : Bool) (d : ℕ) (s : Ws H D)
      → IsValid s
      → s.timers ≡ []
      → is_some s.connection_attempt ≡ true
      → 1000 ≤ d
      → d ≤ 60000
      → IsValid (attempt created d s)
  unfolding attempt
  attempt-IsValid created d s v e c lo hi = elim (Option-cases s.options) [
    | inl gone ↦ rw (gone, attempt) v
    | inr (o, here) ↦ rw (here, attempt) (go o)
  ]
    where
      go :
          (o : Options)
          → IsValid (
              if not o.reconnect || is_open s.state
              then clear_attempt s
              else if ltb 0 o.timeout && ltb o.timeout d
              then destroy true (clear_attempt s)
              else schedule (next_delay d) (connect created s))
      go o = elim (Bool-cases (not o.reconnect || is_open s.state)) [
        | inl stop ↦ rw stop (clear_attempt-IsValid s v)
        | inr on ↦ elim (Bool-cases (ltb 0 o.timeout && ltb o.timeout d)) [
          | inl over ↦ rw (on, over) (destroy-IsValid true _ (clear_attempt-IsValid s v))
          | inr under ↦
              let (up, cap, _) = next_delay_bounds d lo hi in
              rw (on, under)
                (schedule-IsValid (next_delay d) (connect created s) (connect-IsValid created s v)
                  (connect-timers created s c ∙ e) (omega arith) (omega arith))
        ]
      ]

  onmessage-IsValid :
      (json_parse : D → Option D) (d : D) (s : Ws H D)
      → IsValid s
      → IsValid (onmessage json_parse d s)
  unfolding onmessage
  onmessage-IsValid json_parse d s v = elim (Option-cases (parsed json_parse s.options d)) [
    | inl bad ↦ rw (bad, onmessage) v
    | inr (m, good) ↦
        rw (good, onmessage)
          (trigger_message-IsValid m _ (record { bounded = v.bounded; pending = v.pending }))
  ]

  onopen-IsValid : (s : Ws H D) → IsValid s → IsValid (onopen s)
  unfolding onopen
  onopen-IsValid s v =
      let w =
        trigger_event-IsValid on_open undefined (record s { state = opened })
          (record { bounded = v.bounded; pending = v.pending }) in
      ground (arith, w, clear_attempt-IsValid _ w)

  onclose-IsValid : (s : Ws H D) → IsValid s → IsValid (onclose s)
  unfolding onclose
  onclose-IsValid s v = reconnect-IsValid _ (
      trigger_event-IsValid on_close browser_event (record s { state = closed })
        (record { bounded = v.bounded; pending = v.pending }))

  onerror-IsValid : (s : Ws H D) → IsValid s → IsValid (onerror s)
  unfolding onerror
  onerror-IsValid s v =
      trigger_event-IsValid on_error browser_event (record s { state = error })
        (record { bounded = v.bounded; pending = v.pending })

  when : (b : Bool) {s s' : Ws H D} → IsValid s → IsValid s' → IsValid (if b then s' else s)
  when true v w = w
  when false v w = v

  timer-IsValid :
      (json_parse : D → Option D) (i : ℕ) (created : Bool) (s : Ws H D)
      → IsValid s
      → IsValid (step json_parse s (timer_fires i created))
  unfolding step
  timer-IsValid json_parse i created s v = elim (Option-cases (find_timer i s.timers)) [
    | inl absent ↦ rw (absent, step) v
    | inr (t, found) ↦
        let (c, lo, hi, e) = find_timer-Pending i s.connection_attempt s.timers t v.pending found in
        rw (found, step)
          (attempt-IsValid created t.delay
            (record s { timers = without_timer (some t.id) s.timers })
            (record { bounded = v.bounded; pending = rw e tt }) e c lo hi)
  ]

  step-IsValid :
      (json_parse : D → Option D) (s : Ws H D) (e : Event H D)
      → IsValid s
      → IsValid (step json_parse s e)
  unfolding step register_handler pause unpause
  step-IsValid j s (register t h) v = ground arith
  step-IsValid j s flush_tick v = when s.flush_interval v (flush-IsValid s v)
  step-IsValid j s pause_call v = record { bounded = v.bounded; pending = v.pending }
  step-IsValid j s unpause_call v =
      flush-IsValid _ (record { bounded = v.bounded; pending = v.pending })
  step-IsValid j s (destroy_call b) v = destroy-IsValid b s v
  step-IsValid j s (socket_open i) v = when (has i s.attached) v (onopen-IsValid s v)
  step-IsValid j s (socket_close i) v = when (has i s.attached) v (onclose-IsValid s v)
  step-IsValid j s (socket_error i) v = when (has i s.attached) v (onerror-IsValid s v)
  step-IsValid j s (socket_message i d) v = when (has i s.attached) v (onmessage-IsValid j d s v)
  step-IsValid j s (timer_fires i created) v = timer-IsValid j i created s v

  run-IsValid :
      (json_parse : D → Option D) (s : Ws H D) (es : List (Event H D))
      → IsValid s
      → IsValid (run json_parse s es)
  unfolding run
  run-IsValid j s [] v = v
  run-IsValid j s (e ∷ es) v = run-IsValid j (step j s e) es (step-IsValid j s e v)

  create-IsValid : (o : Options) (created : Bool) → IsValid {H = H} {D = D} (create o created)
  unfolding create
  create-IsValid o created =
      let v = connect-IsValid created _ (record { bounded = omega arith; pending = tt }) in
      record { bounded = v.bounded; pending = v.pending }

-- Whatever happens to a new object, in any order, its buffer never holds more than `bufferMax`
-- messages, and at most one reconnection timeout is pending: the one that `_connectionAttempt` names,
-- due in 1 to 60 seconds.
pub run-create-IsValid :
    {H D : Type 0} (json_parse : D → Option D) (o : Options) (created : Bool)
    (es : List (Event H D))
    → IsValid (run json_parse (create o created) es)
run-create-IsValid j o created es = run-IsValid j _ es (create-IsValid o created)
