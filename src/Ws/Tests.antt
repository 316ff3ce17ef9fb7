-- ===== src/Ws/Tests.antt =====
-- Runs of a WSFactory object, and its theorems at such runs.
use web_ui.Base.{ℕ, ◌≡◌, refl, Bool, true, false, Option, some, List, [], ◌∷◌, ◌++◌, arith, inr}
use web_ui.Ws.Defs.{
  closed, destroyed, on_close, on_destroy, on_bulkmessage, browser_event, bulk, timed_out, Options,
  Ws, create, next_delay, connect, reconnect, schedule, register_handler, flush_message_buffer,
  invoke_each, invoke_handlers, trigger_event, trigger_message, buffer_message, pause, unpause,
  destroy, attempt, clear_attempt, onopen, onclose, onerror, onmessage,
}
use web_ui.Ws.Run.{
  Event, register, flush_tick, destroy_call, socket_open, socket_close, socket_message,
  socket_error, timer_fires, pause_call, step, run,
}
use web_ui.Ws.Backoff.{IsWaiting, delay_at}
use web_ui.Base.Last.{last_n}
use web_ui.Ws.Buffer.{receive, deliveries, unpause-flush-receive-pause}
use web_ui.Ws.Valid.{IsValid, run-create-IsValid}
use web_ui.Ws.Destroy.{IsDead, run-destroy_final}
use web_ui.Ws.Stale.{run-destroy_stale}
use web_ui.Ws.Attempts.{run-IsWaiting}

factory : Unit {0}
unfolding create connect reconnect schedule step run register_handler flush_message_buffer
    invoke_each invoke_handlers trigger_event trigger_message buffer_message pause unpause destroy
    attempt clear_attempt onopen onclose onerror onmessage next_delay
factory = tt

abbrev watch_options : ℕ → Options
watch_options timeout = record {
  reconnect = true;
  timeout = timeout;
  json_parse = true;
  buffer_max = 2;
}

abbrev keep : ℕ → Option ℕ
keep d = some d

abbrev fresh : ℕ → Ws ℕ ℕ
fresh timeout = create (watch_options timeout) true

-- Three messages in a buffer of two, and a flush to the bulk handler 7.
abbrev burst : List (Event ℕ ℕ)
burst =
    register on_bulkmessage 7
    ∷ socket_open 0
    ∷ socket_message 0 10
    ∷ socket_message 0 11
    ∷ socket_message 0 12
    ∷ flush_tick
    ∷ []

burst_calls :
    (run keep (fresh 0) burst).calls
    ≡ record { type = on_bulkmessage; handler = 7; payload = bulk (11 ∷ 12 ∷ []) } ∷ []
unfolding factory
burst_calls = refl

run-create-IsValid_example : IsValid (run keep (create (watch_options 0) true) burst)
run-create-IsValid_example = run-create-IsValid keep (watch_options 0) true burst

-- The second socket is slow, a third attempt replaces it, and then it opens.
abbrev slow : List (Event ℕ ℕ)
slow =
    register on_close 5
    ∷ socket_open 0
    ∷ socket_close 0
    ∷ timer_fires 0 true
    ∷ timer_fires 1 true
    ∷ socket_open 1
    ∷ destroy_call false
    ∷ []

abbrev slow_end : Ws ℕ ℕ
slow_end = run keep (fresh 0) slow

slow_state : (slow_end.state ≡ destroyed) × (slow_end.attached ≡ 1 ∷ 0 ∷ [])
unfolding factory
slow_state = (refl, refl)

abbrev opened_once : Ws ℕ ℕ
opened_once = run keep (fresh 0) (register on_destroy 4 ∷ socket_open 0 ∷ socket_message 0 10 ∷ [])

run-destroy_final_example :
    IsDead (run keep (destroy true opened_once) (socket_close 0 ∷ flush_tick ∷ []))
    × ((run keep (destroy true opened_once) (socket_close 0 ∷ flush_tick ∷ [])).calls
        ≡ record { type = on_destroy; handler = 4; payload = timed_out true } ∷ [])
unfolding factory
run-destroy_final_example =
    run-destroy_final keep true opened_once (socket_close 0 ∷ flush_tick ∷ [])
      (record { bounded = omega arith; pending = tt }) refl refl

unpause-flush-receive-pause_example :
    (flush_message_buffer (receive (11 ∷ 12 ∷ []) (pause opened_once)) ≡ record opened_once {
      paused = true;
      message_buffer = last_n opened_once.buffer_max (opened_once.message_buffer ++ 11 ∷ 12 ∷ []);
    })
    × (unpause (flush_message_buffer (receive (11 ∷ 12 ∷ []) (pause opened_once)))
        ≡ record opened_once {
          paused = false;
          message_buffer = [];
          calls =
              opened_once.calls
              ++ deliveries opened_once.handlers
                  (last_n opened_once.buffer_max (opened_once.message_buffer ++ 11 ∷ 12 ∷ []));
        })
unfolding factory
unpause-flush-receive-pause_example =
    unpause-flush-receive-pause (11 ∷ 12 ∷ []) opened_once refl (omega arith) (omega arith)

-- The first socket closed, and its reconnection is pending.
abbrev closed_once : Ws ℕ ℕ
closed_once = run keep (fresh 0) (register on_close 5 ∷ socket_close 0 ∷ [])

run-destroy_stale_example :
    ((run keep closed_once (timer_fires 0 true ∷ destroy_call false ∷ [])).state ≡ destroyed)
    × ((run keep closed_once (timer_fires 0 true ∷ destroy_call false ∷ socket_close 0 ∷ [])).state
        ≡ closed)
    × ((run keep closed_once (timer_fires 0 true ∷ destroy_call false ∷ socket_close 0 ∷ [])).calls
        ≡ closed_once.calls
          ++ record { type = on_close; handler = 5; payload = browser_event } ∷ [])
unfolding factory
run-destroy_stale_example =
    run-destroy_stale keep false (watch_options 0) 0 0 1000 closed_once (record {
      options = refl;
      reconnects = refl;
      closed = refl;
      in_time = refl;
      pending = refl;
      current = refl;
      attached = refl;
      earlier = refl;
    })

-- The first socket could not be created, so the first attempt is pending.
abbrev offline : ℕ → Ws ℕ ℕ
offline timeout = create (watch_options timeout) false

offline-IsWaiting : (timeout : ℕ) → IsWaiting timeout 0 (offline timeout)
unfolding factory delay_at
offline-IsWaiting timeout = record {
  opts = watch_options timeout;
  options = refl;
  reconnect = refl;
  timeout_is = refl;
  closed = refl;
  alive = refl;
  id = 0;
  timers = refl;
  attempt = refl;
}

abbrev failures : List Bool
failures =
    false ∷ false ∷ false ∷ false ∷ false ∷ false ∷ false ∷ false ∷ false ∷ false ∷ false ∷ false
    ∷ []

abbrev refusals : List (Event ℕ ℕ)
refusals =
    timer_fires 0 true ∷ socket_error 0 ∷ socket_close 0 ∷ timer_fires 1 false ∷ pause_call ∷ []

run-IsWaiting_example : (m : ℕ) × IsWaiting 60000 m (run keep (offline 60000) refusals)
run-IsWaiting_example =
    run-IsWaiting keep 60000 (inr (omega arith)) 0 (offline 60000) refusals
      (offline-IsWaiting 60000) refl
