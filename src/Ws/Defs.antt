-- ===== src/Ws/Defs.antt =====
-- The state of a WSFactory object and its methods (frontend/public/module/ws-factory.js). Browser
-- objects enter by number: a socket is `attached` while its callbacks are set, a timeout is in
-- `timers` while it is pending, and `calls` records each invocation of a handler in order.
use web_ui.Base.{
  ℕ, ◌+◌, ◌*◌, ◌/◌, min, Bool, true, false, not, ◌&&◌, ◌||◌, Option, none, some, List, [], ◌∷◌,
  ◌++◌, map, ltb, ◌==◌, if◌then◌else◌, length, is_some,
}

pub data SockState : Type 0 where
  init opened closed error destroyed : SockState

pub data EventType : Type 0 where
  on_open on_close on_error on_message on_destroy on_bulkmessage : EventType

-- What a handler is called with: nothing, the browser's event, one message, the buffer, or `timedout`.
pub data Payload (D : Type 0) : Type 0 where
  undefined browser_event : Payload D
  message : D → Payload D
  bulk : List D → Payload D
  timed_out : Bool → Payload D

pub record Call (H D : Type 0) : Type 0 where
  pub type : EventType
  pub handler : H
  pub payload : Payload D

-- A number that is undefined or 0 is falsy in the source, and 0 here.
pub record Options : Type 0 where
  pub reconnect : Bool
  pub timeout : ℕ
  pub json_parse : Bool
  pub buffer_max : ℕ

pub record Timer : Type 0 where
  pub id : ℕ
  pub delay : ℕ

pub record Ws (H D : Type 0) : Type 0 where
  pub options : Option Options
  pub buffer_max : ℕ
  pub paused : Bool
  pub handlers : EventType → List H
  pub state : SockState
  pub message_buffer : List D
  pub ws : Option ℕ
  pub attached : List ℕ
  pub next_socket : ℕ
  pub connection_attempt : Option ℕ
  pub timers : List Timer
  pub next_timer : ℕ
  pub flush_interval : Bool
  pub calls : List (Call H D)

abbrev pub is_destroyed : SockState → Bool
is_destroyed destroyed = true
is_destroyed _ = false

abbrev pub is_open : SockState → Bool
is_open opened = true
is_open _ = false

abbrev pub is_closed : SockState → Bool
is_closed closed = true
is_closed _ = false

abbrev pub is_message : EventType → Bool
is_message on_message = true
is_message _ = false

abbrev pub same_type : EventType → EventType → Bool
same_type on_open on_open = true
same_type on_close on_close = true
same_type on_error on_error = true
same_type on_message on_message = true
same_type on_destroy on_destroy = true
same_type on_bulkmessage on_bulkmessage = true
same_type _ _ = false

-- clearTimeout
abbrev pub without_timer : Option ℕ → List Timer → List Timer
without_timer none ts = ts
without_timer (some i) [] = []
without_timer (some i) (t ∷ ts) =
    let rest = without_timer (some i) ts in if t.id == i then rest else t ∷ rest

abbrev pub without_socket : Option ℕ → List ℕ → List ℕ
without_socket none ss = ss
without_socket (some i) [] = []
without_socket (some i) (s ∷ ss) =
    let rest = without_socket (some i) ss in if s == i then rest else s ∷ rest

-- Math.round(Math.min(1.5 * delay, 60000)): half of `min (3 * delay) 120000`, rounded up at a half.
unfoldable pub next_delay : ℕ → ℕ
next_delay delay = (min (3 * delay) 120000 + 1) / 2

-- push, then shift when the buffer is longer than `bufferMax`
abbrev pub shift_over : {D : Type 0} → ℕ → List D → List D
shift_over most [] = []
shift_over most (d ∷ ds) = if ltb most (length (d ∷ ds)) then ds else d ∷ ds

-- `JSON.parse` is the language's: it is taken as a parameter, and `none` says that it threw.
abbrev pub parsed : {D : Type 0} → (D → Option D) → Option Options → D → Option D
parsed json_parse none d = some d
parsed json_parse (some o) d = if o.json_parse then json_parse d else some d

abbrev pub heard : SockState → SockState
heard s = if not (is_destroyed s) && not (is_closed s) then opened else s

module _ {H D : Type 0} where
  unfoldable pub invoke_handlers : EventType → Payload D → Ws H D → Ws H D
  invoke_handlers t p s = record s {
    calls = s.calls ++ map (λ h. record { type = t; handler = h; payload = p }) (s.handlers t);
  }

  unfoldable pub buffer_message : D → Ws H D → Ws H D
  buffer_message d s = record s {
    message_buffer = shift_over s.buffer_max (s.message_buffer ++ d ∷ []);
  }

  -- `_triggerEvent` for every type but "message", which is never buffered
  unfoldable pub trigger_event : EventType → Payload D → Ws H D → Ws H D
  trigger_event t p s = if is_destroyed s.state then s else invoke_handlers t p s

  -- `_triggerEvent('message', d)`
  unfoldable pub trigger_message : D → Ws H D → Ws H D
  trigger_message d s =
      if is_destroyed s.state
      then s
      else if ltb 0 s.buffer_max
      then buffer_message d s
      else invoke_handlers on_message (message d) s

  -- setTimeout(attempt, delay), whose number is kept as `_connectionAttempt`
  unfoldable pub schedule : ℕ → Ws H D → Ws H D
  schedule delay s = record s {
    connection_attempt = some s.next_timer;
    timers = record { id = s.next_timer; delay = delay } ∷ s.timers;
    next_timer = s.next_timer + 1;
  }

  unfoldable pub clear_attempt : Ws H D → Ws H D
  clear_attempt s = record s {
    timers = without_timer s.connection_attempt s.timers;
    connection_attempt = none;
  }

  unfoldable pub reconnect : Ws H D → Ws H D
  reconnect s = if is_some s.connection_attempt || is_destroyed s.state then s else schedule 1000 s

  -- `created` says whether `new WebSocket` returned; otherwise it threw.
  unfoldable pub connect : Bool → Ws H D → Ws H D
  connect created s =
      let s' = record s { state = init; message_buffer = [] } in
      if created
      then record s' {
        ws = some s'.next_socket;
        attached = s'.next_socket ∷ s'.attached;
        next_socket = s'.next_socket + 1;
      }
      else reconnect s'

  unfoldable pub register_handler : EventType → H → Ws H D → Ws H D
  register_handler t h s = if is_destroyed s.state then s else record s {
    handlers = λ t'. if same_type t t' then s.handlers t' ++ h ∷ [] else s.handlers t';
  }

  -- The loop of a flush with no bulk handler: every message to the message handlers.
  unfoldable pub invoke_each : List D → Ws H D → Ws H D
  invoke_each [] s = s
  invoke_each (d ∷ ds) s = invoke_each ds (invoke_handlers on_message (message d) s)

  unfoldable pub flush_message_buffer : Ws H D → Ws H D
  flush_message_buffer s =
      if s.paused
      then s
      else if length s.message_buffer == 0
      then s
      else record (if ltb 0 (length (s.handlers on_bulkmessage))
          then invoke_handlers on_bulkmessage (bulk s.message_buffer) s
          else invoke_each s.message_buffer s) { message_buffer = [] }

  unfoldable pub pause : Ws H D → Ws H D
  pause s = record s { paused = true }

  unfoldable pub unpause : Ws H D → Ws H D
  unpause s = flush_message_buffer (record s { paused = false })

  -- Clearing a timeout that `_connectionAttempt` still names does not reset the field.
  unfoldable pub destroy : Bool → Ws H D → Ws H D
  destroy timedout s =
      if is_destroyed s.state
      then s
      else let cleared = record s {
        flush_interval = false;
        timers = without_timer s.connection_attempt s.timers;
        attached = without_socket s.ws s.attached;
        ws = none;
      } in
        record (trigger_event on_destroy (timed_out timedout) cleared) {
          state = destroyed;
          options = none;
          message_buffer = [];
        }

  -- One round of `attempt`, whose timeout has fired with the closure's `delay`. With no options the
  -- source throws on `this.options.reconnect`, and nothing changes.
  unfoldable pub attempt : Bool → ℕ → Ws H D → Ws H D
  attempt created delay s = elim s.options [
    | none ↦ s
    | some o ↦
        if not o.reconnect || is_open s.state
        then clear_attempt s
        else if ltb 0 o.timeout && ltb o.timeout delay
        then destroy true (clear_attempt s)
        else schedule (next_delay delay) (connect created s)
  ]

  unfoldable pub onopen : Ws H D → Ws H D
  onopen s =
      let s' = trigger_event on_open undefined (record s { state = opened }) in
      if is_some s'.connection_attempt then clear_attempt s' else s'

  unfoldable pub onclose : Ws H D → Ws H D
  onclose s = reconnect (trigger_event on_close browser_event (record s { state = closed }))

  unfoldable pub onerror : Ws H D → Ws H D
  onerror s = trigger_event on_error browser_event (record s { state = error })

  unfoldable pub onmessage : (D → Option D) → D → Ws H D → Ws H D
  onmessage json_parse d s = elim (parsed json_parse s.options d) [
    | none ↦ s
    | some msg ↦ trigger_message msg (record s { state = heard s.state })
  ]

  -- The constructor. Before `_connect` the state is undefined, which no test tells from `init`.
  unfoldable pub create : Options → Bool → Ws H D
  create o created =
      record (connect created (record {
        options = some o;
        buffer_max = o.buffer_max;
        paused = false;
        handlers = λ _. [];
        state = init;
        message_buffer = [];
        ws = none;
        attached = [];
        next_socket = 0;
        connection_attempt = none;
        timers = [];
        next_timer = 0;
        flush_interval = false;
        calls = [];
      })) { flush_interval = ltb 0 o.buffer_max }
