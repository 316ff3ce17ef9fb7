-- ===== src/Log/Stream.antt =====
-- frontend/public/components/utils/resource-log.jsx, with the part of log-window.jsx there that is about
-- the stream.
use web_ui.Base.{ℕ, ◌+◌, Bool, true, false, ◌&&◌, ◌||◌, not, List, [], ◌∷◌, null, if◌then◌else◌}
use web_ui.Base.Text.{Text}
use web_ui.Log.Buffer.{LineBuffer, new_buffer, ingest, clear}
use web_ui.Log.Lines.{joined}

pub data Status : Type 0 where
  eof loading paused active : Status

pub data Source : Type 0 where
  restarting running terminated waiting : Source

abbrev pub is_active : Status → Bool
is_active active = true
is_active _ = false

abbrev pub is_paused : Status → Bool
is_paused paused = true
is_paused _ = false

abbrev pub is_eof : Status → Bool
is_eof eof = true
is_eof _ = false

abbrev pub is_restarting : Source → Bool
is_restarting restarting = true
is_restarting _ = false

abbrev pub is_waiting : Source → Bool
is_waiting waiting = true
is_waiting _ = false

-- The state of a log and of its buffer, whether its socket is there and not destroyed, and the content
-- that the window shows.
pub record ResourceLog : Type 0 where
  pub lines_buffer : LineBuffer
  pub error : Bool
  pub lines : List Text
  pub lines_behind : ℕ
  pub resource_status : Source
  pub stale : Bool
  pub status : Status
  pub connected : Bool
  pub content : Text

unfoldable pub new_log : ℕ → ResourceLog
new_log size = record {
  lines_buffer = new_buffer size;
  error = false;
  lines = [];
  lines_behind = 0;
  resource_status = waiting;
  stale = false;
  status = loading;
  connected = false;
  content = [];
}

-- The content is that of the lines, but while the stream is paused it stays.
unfoldable pub derive_content : ResourceLog → ResourceLog
derive_content s = record {
  lines_buffer = s.lines_buffer;
  error = s.error;
  lines = s.lines;
  lines_behind = s.lines_behind;
  resource_status = s.resource_status;
  stale = s.stale;
  status = s.status;
  connected = s.connected;
  content = if is_paused s.status then s.content else joined s.lines;
}

-- The test of the source is for a property that the state never has, so it always holds.
unfoldable pub derive_status : Source → ResourceLog → ResourceLog
derive_status next s = record {
  lines_buffer = s.lines_buffer;
  error = s.error;
  lines = s.lines;
  lines_behind = s.lines_behind;
  resource_status = next;
  stale = s.stale || (is_restarting s.resource_status && not (is_restarting next));
  status = s.status;
  connected = s.connected;
  content = s.content;
}

unfoldable pub update_status : Status → ResourceLog → ResourceLog
update_status new_status s = record {
  lines_buffer = s.lines_buffer;
  error = s.error;
  lines = s.lines;
  lines_behind = if not (is_active s.status) && is_active new_status then 0 else s.lines_behind;
  resource_status = s.resource_status;
  stale = s.stale;
  status = new_status;
  connected = s.connected;
  content = s.content;
}

unfoldable pub on_close : ResourceLog → ResourceLog
on_close s = record {
  lines_buffer = s.lines_buffer;
  error = s.error;
  lines = s.lines;
  lines_behind = s.lines_behind;
  resource_status = s.resource_status;
  stale = s.stale;
  status = eof;
  connected = s.connected;
  content = s.content;
}

unfoldable pub on_error : ResourceLog → ResourceLog
on_error s = record {
  lines_buffer = s.lines_buffer;
  error = true;
  lines = s.lines;
  lines_behind = s.lines_behind;
  resource_status = s.resource_status;
  stale = s.stale;
  status = s.status;
  connected = s.connected;
  content = s.content;
}

unfoldable pub clear_buffer : ResourceLog → ResourceLog
clear_buffer s = record {
  lines_buffer = clear s.lines_buffer;
  error = s.error;
  lines = s.lines;
  lines_behind = s.lines_behind;
  resource_status = s.resource_status;
  stale = s.stale;
  status = s.status;
  connected = s.connected;
  content = s.content;
}

unfoldable pub on_open : ResourceLog → ResourceLog
unfolding clear_buffer update_status
on_open s = update_status active (clear_buffer s)

-- `_wsDestroy` and `_wsInit`: a source that waits has no socket.
unfoldable pub restart_stream : ResourceLog → ResourceLog
restart_stream s = record {
  lines_buffer = s.lines_buffer;
  error = false;
  lines = [];
  lines_behind = 0;
  resource_status = s.resource_status;
  stale = false;
  status = loading;
  connected = not (is_waiting s.resource_status);
  content = s.content;
}

unfoldable pub toggle_streaming : ResourceLog → ResourceLog
unfolding update_status
toggle_streaming s = update_status (if is_active s.status then paused else active) s

-- `_handleScroll` of the window, by whether the lines below the visible part are there.
unfoldable pub handle_scroll : Bool → ResourceLog → ResourceLog
unfolding update_status
handle_scroll below s =
    if is_eof s.status
    then s
    else if below
    then (if not (is_paused s.status) then update_status paused s else s)
    else update_status active s

module _ (decode : Text → Text) where
  -- `ingest` with the text of a message, whose new lines count while the stream is paused.
  unfoldable pub on_text : Text → ResourceLog → ResourceLog
  on_text text s =
      let r = ingest s.lines_buffer text in
      record {
        lines_buffer = r.0;
        error = s.error;
        lines = (r.0).buffer;
        lines_behind = if is_paused s.status then s.lines_behind + r.1 else s.lines_behind;
        resource_status = s.resource_status;
        stale = s.stale;
        status = s.status;
        connected = s.connected;
        content = s.content;
      }

  unfoldable pub on_message : Text → ResourceLog → ResourceLog
  unfolding on_text
  on_message msg s = if null msg then s else on_text (decode msg) s

-- New properties: the state is derived first, then the stream starts anew for another container, or when
-- its source does not wait any longer.
unfoldable pub receive_props : Bool → Source → ResourceLog → ResourceLog
unfolding derive_status restart_stream
receive_props container_changed next s =
    let derived = derive_status next s in
    if container_changed || (is_waiting s.resource_status && not (is_waiting next))
    then restart_stream derived
    else derived

-- A new log has the status of its source before its first socket is made.
unfoldable pub mount : ℕ → Source → ResourceLog
unfolding new_log derive_status
mount size source =
    let s = derive_status source (new_log size) in
    record {
      lines_buffer = s.lines_buffer;
      error = s.error;
      lines = s.lines;
      lines_behind = s.lines_behind;
      resource_status = s.resource_status;
      stale = s.stale;
      status = s.status;
      connected = not (is_waiting source);
      content = s.content;
    }

-- The callbacks of the socket, the controls, and new properties.
pub data Event : Type 0 where
  closes fails opens retry toggle : Event
  message : Text → Event
  scroll : Bool → Event
  props : Bool → Source → Event

module _ (decode : Text → Text) where
  unfoldable pub handle : ResourceLog → Event → ResourceLog
  unfolding on_close on_error on_open on_message restart_stream toggle_streaming handle_scroll
      receive_props
  handle s closes = on_close s
  handle s fails = on_error s
  handle s opens = on_open s
  handle s retry = restart_stream s
  handle s toggle = toggle_streaming s
  handle s (message msg) = on_message decode msg s
  handle s (scroll below) = handle_scroll below s
  handle s (props container_changed next) = receive_props container_changed next s

  -- What is handled is shown.
  unfoldable pub step : ResourceLog → Event → ResourceLog
  unfolding handle derive_content
  step s e = derive_content (handle s e)

  unfoldable pub run : ResourceLog → List Event → ResourceLog
  unfolding step
  run s [] = s
  run s (e ∷ es) = run (step s e) es
