-- ===== src/Ws/Run.antt =====
-- What can happen to a WSFactory object: the calls of its methods, the callbacks of its sockets, its
-- interval and its timeouts (frontend/public/module/ws-factory.js).
use web_ui.Base.{ℕ, Bool, false, Option, none, some, List, [], ◌∷◌, ◌==◌, ◌||◌, if◌then◌else◌}
use web_ui.Ws.Defs.{
  EventType, Timer, Ws, without_timer, register_handler, flush_message_buffer, pause, unpause,
  destroy, attempt, onopen, onclose, onerror, onmessage,
}

pub data Event (H D : Type 0) : Type 0 where
  register : EventType → H → Event H D
  flush_tick : Event H D
  pause_call unpause_call : Event H D
  destroy_call : Bool → Event H D
  socket_open socket_close socket_error : ℕ → Event H D
  socket_message : ℕ → D → Event H D
  timer_fires : ℕ → (created : Bool) → Event H D

abbrev pub has : ℕ → List ℕ → Bool
has i [] = false
has i (j ∷ js) = j == i || has i js

abbrev pub find_timer : ℕ → List Timer → Option Timer
find_timer i [] = none
find_timer i (t ∷ ts) = if t.id == i then some t else find_timer i ts

module _ {H D : Type 0} (json_parse : D → Option D) where
  -- A timeout that fires is no longer pending when its function runs.
  abbrev fire : Bool → Option Timer → Ws H D → Ws H D
  fire created none s = s
  fire created (some t) s =
      attempt created t.delay (record s { timers = without_timer (some t.id) s.timers })

  -- A socket calls back only while its callbacks are set, the interval only until it is cleared.
  unfoldable pub step : Ws H D → Event H D → Ws H D
  step s (register t h) = register_handler t h s
  step s flush_tick = if s.flush_interval then flush_message_buffer s else s
  step s pause_call = pause s
  step s unpause_call = unpause s
  step s (destroy_call timedout) = destroy timedout s
  step s (socket_open i) = if has i s.attached then onopen s else s
  step s (socket_close i) = if has i s.attached then onclose s else s
  step s (socket_error i) = if has i s.attached then onerror s else s
  step s (socket_message i d) = if has i s.attached then onmessage json_parse d s else s
  step s (timer_fires i created) = fire created (find_timer i s.timers) s

  unfoldable pub run : Ws H D → List (Event H D) → Ws H D
  run s [] = s
  run s (e ∷ es) = run (step s e) es
