-- ===== src/Ws/Stale.antt =====
-- A socket that an attempt has replaced keeps its callbacks, also after `destroy`
-- (frontend/public/module/ws-factory.js, `attempt` and `destroy`).
use web_ui.Base.{
  ℕ, ◌≡◌, refl, sym, ap, ◌∙◌, Bool, true, false, ◌&&◌, ◌||◌, Option, some, List, [], ◌∷◌, ◌++◌, map,
  ltb, ◌==◌, Bool-cases, inl, inr, arith, append_assoc, subst,
}
use web_ui.Ws.Defs.{
  destroyed, closed, is_open, on_close, on_destroy, Call, browser_event, timed_out, Options, Ws,
  trigger_event, invoke_handlers, onclose, reconnect, schedule, attempt, connect, next_delay,
  destroy, without_socket, without_timer,
}
use web_ui.Ws.Run.{timer_fires, destroy_call, socket_close, step, run, has, find_timer}

has-without_socket :
    (i n : ℕ) (ss : List ℕ)
    → (n == i) ≡ false
    → has i ss ≡ true
    → has i (without_socket (some n) ss) ≡ true
has-without_socket i n [] other h = h
has-without_socket i n (s ∷ ss) other h = elim (Bool-cases (s == n)) [
  | inl gone ↦ rw gone (has-without_socket i n ss other (ground (arith, h, gone, other)))
  | inr kept ↦ rw kept (elim (Bool-cases (s == i)) [
    | inl it ↦ rw it refl
    | inr no_it ↦
        rw no_it (has-without_socket i n ss other (sym (ap (λ b. b || has i ss) no_it) ∙ h))
  ])
]

module _ {H D : Type 0} (j : D → Option D) (b : Bool) (o : Options) (t i d : ℕ) (s : Ws H D) where
  -- The current socket `i` has its callbacks, and the timeout `t`, which is pending, will make an attempt.
  pub record IsRetrying : Type 0 where
    pub options : s.options ≡ some o
    pub reconnects : o.reconnect ≡ true
    pub closed : is_open s.state ≡ false
    pub in_time : (ltb 0 o.timeout && ltb o.timeout d) ≡ false
    pub pending : find_timer t s.timers ≡ some (record { id = t; delay = d })
    pub current : s.ws ≡ some i
    pub attached : has i s.attached ≡ true
    pub earlier : (s.next_socket == i) ≡ false

  abbrev attempted : Ws H D
  attempted =
      schedule (next_delay d) (connect true (record s { timers = without_timer (some t) s.timers }))

  step-attempted : IsRetrying → step j s (timer_fires t true) ≡ attempted
  unfolding step attempt
  step-attempted r = ground (arith, r.pending, r.options, r.reconnects, r.closed, r.in_time)

  attached_after : List ℕ
  attached_after = without_socket (some s.next_socket) (s.next_socket ∷ s.attached)

  -- The calls of the destroy handlers, and then of the close handlers.
  abbrev pub after_destroy_and_close : List (Call H D)
  after_destroy_and_close =
      map (λ h. record { type = on_destroy; handler = h; payload = timed_out b })
        (s.handlers on_destroy)
      ++ map (λ h. record { type = on_close; handler = h; payload = browser_event })
          (s.handlers on_close)

  ends :
      has i attached_after ≡ true
      → ((step j attempted (destroy_call b)).state ≡ destroyed)
        × ((step j (step j attempted (destroy_call b)) (socket_close i)).state ≡ closed)
        × ((step j (step j attempted (destroy_call b)) (socket_close i)).calls
            ≡ s.calls ++ after_destroy_and_close)
  unfolding step destroy trigger_event invoke_handlers onclose reconnect schedule connect
      attached_after
  ends h = rw h (refl, refl, append_assoc s.calls _ _)

  -- An attempt opens another socket, the object is destroyed, and then the socket that the attempt has
  -- replaced closes: destroying does not take its callbacks away, so after the destroy handlers the close
  -- handlers are called, and the object is no longer destroyed but closed.
  pub run-destroy_stale :
      IsRetrying
      → ((run j s (timer_fires t true ∷ destroy_call b ∷ [])).state ≡ destroyed)
        × ((run j s (timer_fires t true ∷ destroy_call b ∷ socket_close i ∷ [])).state ≡ closed)
        × ((run j s (timer_fires t true ∷ destroy_call b ∷ socket_close i ∷ [])).calls
            ≡ s.calls ++ after_destroy_and_close)
  unfolding run attached_after
  run-destroy_stale r =
      subst
        (λ u.
          ((step j u (destroy_call b)).state ≡ destroyed)
          × ((step j (step j u (destroy_call b)) (socket_close i)).state ≡ closed)
          × ((step j (step j u (destroy_call b)) (socket_close i)).calls
              ≡ s.calls ++ after_destroy_and_close))
        (sym (step-attempted r))
        (ends (
          has-without_socket i s.next_socket (s.next_socket ∷ s.attached) r.earlier
            (ground (arith, r.attached))))
