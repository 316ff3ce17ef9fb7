-- ===== src/Ws/Attempts.antt =====
-- What a WSFactory object that tries to reconnect goes through while no socket opens
-- (frontend/public/module/ws-factory.js, `_reconnect`).
use web_ui.Base.{
  is_some, ◌||◌, ◌==◌, ==_iff, if◌then◌else◌, ℕ, suc, ◌≤◌, ◌≡◌, ◌⊎◌, inl, inr, refl, Bool, true,
  false, Option, none, List, [], ◌∷◌, arith, length, ltb, ◌&&◌, Bool-cases, ap, ◌∙◌, subst, sym,
}
use web_ui.Ws.Defs.{
  Payload, EventType, message, bulk, on_message, on_bulkmessage, on_close, on_error, browser_event,
  closed, error, invoke_each, flush_message_buffer, register_handler, pause, unpause, onclose,
  onerror, is_open, is_destroyed, Timer, Ws, reconnect, schedule, trigger_event, invoke_handlers,
}
use mathlib.Core.Bool.{true≢false}
use web_ui.Ws.Run.{
  Event, register, flush_tick, pause_call, unpause_call, destroy_call, socket_open, socket_close,
  socket_error, socket_message, timer_fires, step, run, has, find_timer,
}
use web_ui.Ws.Backoff.{delay_at, delay_at-bounds, fire_pending, IsWaiting, fire-waits}

-- Nothing opens, no message comes, and nobody destroys the object; whatever else is allowed.
abbrev pub no_connection : {H D : Type 0} → Event H D → Bool
no_connection (socket_open i) = false
no_connection (socket_message i d) = false
no_connection (destroy_call b) = false
no_connection _ = true

abbrev pub no_connections : {H D : Type 0} → List (Event H D) → Bool
no_connections [] = true
no_connections (e ∷ es) = no_connection e && no_connections es

no_timer :
    (i k d : ℕ) (ts : List Timer)
    → ts ≡ record { id = k; delay = d } ∷ []
    → (k == i) ≡ false
    → find_timer i ts ≡ none
no_timer i k d ts e other = rw e (rw other refl)

module _ {H D : Type 0} (j : D → Option D) (timeout : ℕ)
    (never : (timeout ≡ 0) ⊎ (60000 ≤ timeout)) where
  -- What an event that is not a timeout leaves of a waiting object.
  kept :
      (n : ℕ) (s u : Ws H D)
      → IsWaiting timeout n s
      → u.options ≡ s.options
      → is_open u.state ≡ false
      → is_destroyed u.state ≡ false
      → u.timers ≡ s.timers
      → u.connection_attempt ≡ s.connection_attempt
      → IsWaiting timeout n u
  kept n s u w o open_ dead ts c = record {
    opts = w.opts;
    options = o ∙ w.options;
    reconnect = w.reconnect;
    timeout_is = w.timeout_is;
    closed = open_;
    alive = dead;
    id = w.id;
    timers = ts ∙ w.timers;
    attempt = c ∙ w.attempt;
  }

  invoke_handlers-IsWaiting :
      (n : ℕ) (s : Ws H D) (ty : EventType) (p : Payload D)
      → IsWaiting timeout n s
      → IsWaiting timeout n (invoke_handlers ty p s)
  unfolding invoke_handlers
  invoke_handlers-IsWaiting n s ty p w = kept n s _ w refl w.closed w.alive refl refl

  invoke_each-IsWaiting :
      (n : ℕ) (ds : List D) (s : Ws H D)
      → IsWaiting timeout n s
      → IsWaiting timeout n (invoke_each ds s)
  unfolding invoke_each
  invoke_each-IsWaiting n [] s w = w
  invoke_each-IsWaiting n (d ∷ ds) s w =
      invoke_each-IsWaiting n ds _ (invoke_handlers-IsWaiting n s on_message (message d) w)

  emptied :
      (n : ℕ) (s : Ws H D)
      → IsWaiting timeout n s
      → IsWaiting timeout n (record s { message_buffer = [] })
  emptied n s w = kept n s _ w refl w.closed w.alive refl refl

  flush-IsWaiting :
      (n : ℕ) (s : Ws H D) → IsWaiting timeout n s → IsWaiting timeout n (flush_message_buffer s)
  unfolding flush_message_buffer
  flush-IsWaiting n s w = elim (Bool-cases s.paused) [
    | inl e ↦ subst (λ u. IsWaiting timeout n u) (sym (ap (λ b. if b then s else rest) e)) w
    | inr e ↦
        subst (λ u. IsWaiting timeout n u) (sym (ap (λ b. if b then s else rest) e))
          (elim (Bool-cases (length s.message_buffer == 0)) [
            | inl o ↦ subst (λ u. IsWaiting timeout n u) (sym (ap (λ b. if b then s else full) o)) w
            | inr o ↦
                subst (λ u. IsWaiting timeout n u) (sym (ap (λ b. if b then s else full) o))
                  (emptied n _ (elim (Bool-cases (ltb 0 (length (s.handlers on_bulkmessage)))) [
                    | inl k ↦
                        subst (λ u. IsWaiting timeout n u)
                          (sym (ap (λ b. if b then told else each) k))
                          (invoke_handlers-IsWaiting n s on_bulkmessage (bulk s.message_buffer) w)
                    | inr k ↦
                        subst (λ u. IsWaiting timeout n u)
                          (sym (ap (λ b. if b then told else each) k))
                          (invoke_each-IsWaiting n s.message_buffer s w)
                  ]))
          ])
  ]
    where
      told : Ws H D
      told = invoke_handlers on_bulkmessage (bulk s.message_buffer) s

      each : Ws H D
      each = invoke_each s.message_buffer s

      full : Ws H D
      full = record (if ltb 0 (length (s.handlers on_bulkmessage)) then told else each) {
        message_buffer = [];
      }

      rest : Ws H D
      rest = if length s.message_buffer == 0 then s else full

  if-IsWaiting :
      (n : ℕ) (b : Bool) (s u : Ws H D)
      → IsWaiting timeout n s
      → IsWaiting timeout n u
      → IsWaiting timeout n (if b then u else s)
  if-IsWaiting n true s u w v = v
  if-IsWaiting n false s u w v = w

  trigger-IsWaiting :
      (n : ℕ) (s : Ws H D) (ty : EventType) (p : Payload D)
      → IsWaiting timeout n s
      → IsWaiting timeout n (trigger_event ty p s)
  unfolding trigger_event
  trigger-IsWaiting n s ty p w =
      if-IsWaiting n (is_destroyed s.state) _ s (invoke_handlers-IsWaiting n s ty p w) w

  reconnect-IsWaiting :
      (n : ℕ) (s : Ws H D) → IsWaiting timeout n s → IsWaiting timeout n (reconnect s)
  unfolding reconnect
  reconnect-IsWaiting n s w =
      subst (λ u. IsWaiting timeout n u)
        (sym (ap (λ o. if is_some o || is_destroyed s.state then s else schedule 1000 s) w.attempt))
        w

  fire_pending-first :
      (created : Bool) (i d : ℕ) (s : Ws H D)
      → s.timers ≡ record { id = i; delay = d } ∷ []
      → fire_pending j created s ≡ step j s (timer_fires i created)
  unfolding fire_pending
  fire_pending-first created i d s e =
      ap
        (λ (ts : List Timer). elim ts as (λ _. Ws H D) [
          | [] ↦ s
          | t ∷ _ ↦ step j s (timer_fires t.id created)
        ])
        e

  step-no_timer :
      (i : ℕ) (created : Bool) (s : Ws H D)
      → find_timer i s.timers ≡ none
      → step j s (timer_fires i created) ≡ s
  unfolding step
  step-no_timer i created s e = rw (e, step) refl

  -- The pending timeout is an attempt, and no other one is pending.
  fires-IsWaiting :
      (n i : ℕ) (created : Bool) (s : Ws H D)
      → IsWaiting timeout n s
      → (m : ℕ) × IsWaiting timeout m (step j s (timer_fires i created))
  fires-IsWaiting n i created s w = elim (Bool-cases (w.id == i)) [
    | inl it ↦ (
      suc n,
      subst (λ u. IsWaiting timeout (suc n) u)
          (fire_pending-first created w.id (delay_at n) s w.timers
            ∙ ap (λ k. step j s (timer_fires k created)) ((==_iff w.id i).0 it))
          (fire-waits j timeout n created s w (ground (arith, delay_at-bounds n))),
    )
    | inr other ↦ (
      n,
      subst (λ u. IsWaiting timeout n u)
          (sym (step-no_timer i created s (no_timer i w.id (delay_at n) s.timers w.timers other)))
          w,
    )
  ]

  step-IsWaiting :
      (n : ℕ) (s : Ws H D) (e : Event H D)
      → no_connection e ≡ true
      → IsWaiting timeout n s
      → (m : ℕ) × IsWaiting timeout m (step j s e)
  unfolding step register_handler pause unpause onclose onerror
  step-IsWaiting n s (register t h) q w = (
    n,
    if-IsWaiting n (is_destroyed s.state) _ s (kept n s _ w refl w.closed w.alive refl refl) w,
  )
  step-IsWaiting n s flush_tick q w =
      (n, if-IsWaiting n s.flush_interval s _ w (flush-IsWaiting n s w))
  step-IsWaiting n s pause_call q w = (n, kept n s _ w refl w.closed w.alive refl refl)
  step-IsWaiting n s unpause_call q w = (
    n,
    flush-IsWaiting n _ (kept n s (record s { paused = false }) w refl w.closed w.alive refl refl),
  )
  step-IsWaiting n s (destroy_call b) q w = absurd (true≢false (sym q))
  step-IsWaiting n s (socket_open i) q w = absurd (true≢false (sym q))
  step-IsWaiting n s (socket_close i) q w = (
    n,
    if-IsWaiting n (has i s.attached) s _ w (
        reconnect-IsWaiting n _ (
          trigger-IsWaiting n _ on_close browser_event
            (kept n s (record s { state = closed }) w refl refl refl refl refl))),
  )
  step-IsWaiting n s (socket_error i) q w = (
    n,
    if-IsWaiting n (has i s.attached) s _ w (
        trigger-IsWaiting n _ on_error browser_event
          (kept n s (record s { state = error }) w refl refl refl refl refl)),
  )
  step-IsWaiting n s (socket_message i d) q w = absurd (true≢false (sym q))
  step-IsWaiting n s (timer_fires i created) q w = fires-IsWaiting n i created s w

  -- With a timeout of a minute or more, or none, the attempts of an object that waits for one
  -- never end: after any events but an opening, a message and a call of destroy, in any order and number, it
  -- is not destroyed and waits for its next attempt.
  pub run-IsWaiting :
      (n : ℕ) (s : Ws H D) (es : List (Event H D))
      → IsWaiting timeout n s
      → no_connections es ≡ true
      → (m : ℕ) × IsWaiting timeout m (run j s es)
  unfolding run
  run-IsWaiting n s [] w q = (n, w)
  run-IsWaiting n s (e ∷ es) w q =
      let (m, w') = step-IsWaiting n s e (ground (arith, q)) w in
      run-IsWaiting m (step j s e) es w' (ground (arith, q))
