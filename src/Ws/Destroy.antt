-- ===== src/Ws/Destroy.antt =====
-- What a destroyed WSFactory object still does (frontend/public/module/ws-factory.js, `destroy`).
use web_ui.Base.{
  ℕ, ◌≡◌, refl, ==_refl, Bool, false, Option, none, some, List, [], ◌∷◌, ◌++◌, map, arith, ◌∙◌,
}
use web_ui.Ws.Defs.{
  destroyed, is_destroyed, on_destroy, timed_out, Ws, destroy, trigger_event, invoke_handlers,
  register_handler, pause, unpause, flush_message_buffer, without_socket,
}
use web_ui.Ws.Run.{
  Event, register, flush_tick, pause_call, unpause_call, destroy_call, socket_open, socket_close,
  socket_error, socket_message, timer_fires, step, run,
}
use web_ui.Ws.Valid.{IsValid, without-Pending}

-- The only socket with callbacks is the current one, if any.
abbrev pub OnlyCurrent : Option ℕ → List ℕ → Type 0
OnlyCurrent none ss = ss ≡ []
OnlyCurrent (some i) ss = ss ≡ i ∷ []

without_socket-OnlyCurrent :
    (c : Option ℕ) (ss : List ℕ) → OnlyCurrent c ss → without_socket c ss ≡ []
without_socket-OnlyCurrent none ss h = h
without_socket-OnlyCurrent (some i) ss h = rw (h, ==_refl i)

module _ {H D : Type 0} where
  -- Nothing that the browser may call is left: no socket, no timeout, no interval.
  pub record IsDead (s : Ws H D) : Type 0 where
    pub state : s.state ≡ destroyed
    pub timers : s.timers ≡ []
    pub interval : s.flush_interval ≡ false
    pub attached : s.attached ≡ []
    pub buffer : s.message_buffer ≡ []

  step-IsDead :
      (j : D → Option D) (s : Ws H D) (e : Event H D)
      → IsDead s
      → IsDead (step j s e) × ((step j s e).calls ≡ s.calls)
  unfolding step register_handler pause unpause flush_message_buffer destroy
  step-IsDead j s (register t h) dead = ground arith
  step-IsDead j s flush_tick dead = ground arith
  step-IsDead j s pause_call dead = ground arith
  step-IsDead j s unpause_call dead = ground arith
  step-IsDead j s (destroy_call b) dead = ground arith
  step-IsDead j s (socket_open i) dead = ground arith
  step-IsDead j s (socket_close i) dead = ground arith
  step-IsDead j s (socket_error i) dead = ground arith
  step-IsDead j s (socket_message i d) dead = ground arith
  step-IsDead j s (timer_fires i created) dead = ground arith

  run-IsDead :
      (j : D → Option D) (s : Ws H D) (es : List (Event H D))
      → IsDead s
      → IsDead (run j s es) × ((run j s es).calls ≡ s.calls)
  unfolding run
  run-IsDead j s [] dead = (dead, refl)
  run-IsDead j s (e ∷ es) dead =
      let (dead', same) = step-IsDead j s e dead in
      let (end, same') = run-IsDead j (step j s e) es dead' in (end, same' ∙ same)

  destroy-IsDead :
      (b : Bool) (s : Ws H D)
      → IsValid s
      → is_destroyed s.state ≡ false
      → OnlyCurrent s.ws s.attached
      → IsDead (destroy b s)
        × ((destroy b s).calls
            ≡ s.calls
              ++ map
                  (λ h. record { type = on_destroy; handler = h; payload = timed_out b })
                  (s.handlers on_destroy))
  unfolding destroy trigger_event invoke_handlers
  destroy-IsDead b s v live only =
      let quiet = without-Pending _ _ v.pending in
      let alone = without_socket-OnlyCurrent s.ws s.attached only in
      rw live (
        record { state = refl; timers = quiet; interval = refl; attached = alone; buffer = refl },
        refl,
      )

-- Destroying a live object none of whose earlier sockets still has its callbacks calls each destroy
-- handler once, with `timedout`, and is the end: whatever happens afterwards, in any order, no handler
-- is called again and the object stays destroyed, with no timeout, interval, socket or buffer.
pub run-destroy_final :
    {H D : Type 0} (j : D → Option D) (b : Bool) (s : Ws H D) (es : List (Event H D))
    → IsValid s
    → is_destroyed s.state ≡ false
    → OnlyCurrent s.ws s.attached
    → IsDead (run j (destroy b s) es)
      × ((run j (destroy b s) es).calls
          ≡ s.calls
            ++ map
                (λ h. record { type = on_destroy; handler = h; payload = timed_out b })
                (s.handlers on_destroy))
run-destroy_final j b s es v live only =
    let (dead, told) = destroy-IsDead b s v live only in
    let (end, quiet) = run-IsDead j (destroy b s) es dead in (end, quiet ∙ told)
