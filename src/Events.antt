-- ===== src/Events.antt =====
-- frontend/public/components/events.jsx: the stream of the events of a namespace.
use web_ui.Base.{
  ℕ, Bool, true, false, ◌&&◌, ◌||◌, not, Option, none, some, List, [], ◌∷◌, any, all, null, take,
  filter, ltb, if◌then◌else◌,
}
use web_ui.Base.Text.{Text, codes, same_text}
use web_ui.Selector.Scan.{◌>>=◌}
use web_ui.Store.Maps.{Maps}
use web_ui.Pods.Phase.{contains}
pub mod Stored
pub mod Shown
pub mod Kept
mod Tests

abbrev pub max_messages : ℕ
max_messages = 500

-- An event, with its times as texts and one text for all that is only shown.
pub record SysEvent : Type 0 where
  pub uid : Text
  pub count : ℕ
  pub last_timestamp : Text
  pub involved_name : Text
  pub involved_kind : Text
  pub reason : Text
  pub message : Text
  pub rest : Text

-- A message of the socket; every other type is only reported.
pub data Change : Type 0 where
  added modified deleted unhandled : SysEvent → Change

-- The properties that filter; `selected` is the test that `filter` stands for.
pub record Filters : Type 0 where
  pub kind : Text
  pub category : Text
  pub selected : Option (SysEvent → Bool)
  pub text_filter : Text

pub data StreamError : Type 0 where
  no_error some_error : StreamError
  error_reason : Text → StreamError

-- `lower` is `_.toLower`, and `words_of` gives the different words of a text, the longest first.
module _ (lower : Text → Text) (words_of : Text → List Text) where
  unfoldable pub category_filter : Text → SysEvent → Bool
  category_filter category e =
      let is_error =
        any (contains (lower e.reason))
          (codes "error" ∷ codes "failed" ∷ codes "unhealthy" ∷ codes "nodenotready" ∷ []) in
      if same_text category (codes "all")
      then true
      else if same_text category (codes "error")
      then is_error
      else not is_error

  unfoldable pub kind_filter : Text → SysEvent → Bool
  kind_filter kind e = same_text kind (codes "all") || same_text e.involved_kind kind

  unfoldable pub text_matches : List Text → SysEvent → Bool
  text_matches words e = all (λ w. contains e.involved_name w || contains (lower e.message) w) words

  abbrev pub selects : Option (SysEvent → Bool) → SysEvent → Bool
  selects none e = true
  selects (some p) e = p e

  unfoldable pub passes : Filters → SysEvent → Bool
  unfolding category_filter kind_filter text_matches
  passes f e =
      if not (null f.category) && not (category_filter f.category e)
      then false
      else if not (null f.kind) && not (kind_filter f.kind e)
      then false
      else if not (selects f.selected e)
      then false
      else text_matches (words_of f.text_filter) e

  unfoldable pub filter_events : Filters → List SysEvent → List SysEvent
  filter_events f es = filter (passes f) es

-- The state, with the messages that were stored by their uid, whether the socket is paused, and the
-- properties that the state was derived from. The stream is not fake.
pub record EventStream (M : Type 0) : Type 0 where
  pub messages : M
  pub active : Bool
  pub socket_paused : Bool
  pub sorted_messages : List SysEvent
  pub filtered_events : List SysEvent
  pub error : StreamError
  pub loading : Bool
  pub filters : Filters

-- The callbacks of the socket, the control, and new properties.
pub data StreamEvent : Type 0 where
  opens fails toggles : StreamEvent
  closes : Bool → Text → StreamEvent
  messages_come : List Change → StreamEvent
  filters_change : Filters → StreamEvent

module _ (maps : Maps SysEvent) where
  open maps use {Map, empty, get, set, delete}

  -- What becomes of the messages where one of the uid is stored or not.
  unfoldable pub add_message : Map → SysEvent → Option SysEvent → Map
  add_message m e none = set e.uid e m
  add_message m e (some c) = if ltb e.count c.count then m else set e.uid e m

  unfoldable pub apply_change : Map → Change → Map
  unfolding add_message
  apply_change m (added e) = add_message m e (get e.uid m)
  apply_change m (modified e) = add_message m e (get e.uid m)
  apply_change m (deleted e) = delete e.uid m
  apply_change m (unhandled e) = m

  unfoldable pub apply_changes : Map → List Change → Map
  unfolding apply_change
  apply_changes m [] = m
  apply_changes m (c ∷ cs) = apply_changes (apply_change m c) cs

  -- `_.keyBy`
  unfoldable pub key_by_uid : Map → List SysEvent → Map
  key_by_uid m [] = m
  key_by_uid m (e ∷ es) = key_by_uid (set e.uid e m) es

  unfoldable pub new_stream : Filters → EventStream Map
  new_stream f = record {
    messages = empty;
    active = true;
    socket_paused = false;
    sorted_messages = [];
    filtered_events = [];
    error = no_error;
    loading = true;
    filters = f;
  }

  -- The messages and the lists are emptied when the socket opens, closes or fails.
  unfoldable pub emptied : StreamError → Bool → EventStream Map → EventStream Map
  emptied error loading s = record {
    messages = empty;
    active = s.active;
    socket_paused = s.socket_paused;
    sorted_messages = [];
    filtered_events = [];
    error = error;
    loading = loading;
    filters = s.filters;
  }

  unfoldable pub on_open : EventStream Map → EventStream Map
  unfolding emptied
  on_open s = emptied no_error false s

  -- A close that was not clean has a reason, or is given one.
  unfoldable pub on_close : Bool → Text → EventStream Map → EventStream Map
  unfolding emptied
  on_close was_clean reason s =
      if was_clean
      then emptied s.error s.loading s
      else emptied
          (error_reason (if null reason then codes "Connection did not close cleanly." else reason))
          s.loading s

  unfoldable pub on_error : EventStream Map → EventStream Map
  unfolding emptied
  on_error s = emptied some_error s.loading s

  -- An active stream pauses its socket, and another one lets it go on.
  unfoldable pub toggle_stream : EventStream Map → EventStream Map
  toggle_stream s = record {
    messages = s.messages;
    active = not s.active;
    socket_paused = s.active;
    sorted_messages = s.sorted_messages;
    filtered_events = s.filtered_events;
    error = s.error;
    loading = s.loading;
    filters = s.filters;
  }

  -- `ordered` gives the stored messages, the latest first: `_.orderBy`, whose second key no event has.
  module _ (lower : Text → Text) (words_of : Text → List Text) (ordered : Map → List SysEvent) where
    -- With the ordered messages: the last of none has no time, which throws.
    unfoldable pub flush_sorted : List SysEvent → EventStream Map → Option (EventStream Map)
    flush_sorted [] s = none
    flush_sorted (e ∷ es) s =
        let kept = take max_messages (e ∷ es) in
        some record {
          messages = key_by_uid empty kept;
          active = s.active;
          socket_paused = s.socket_paused;
          sorted_messages = kept;
          filtered_events = filter_events lower words_of s.filters kept;
          error = s.error;
          loading = s.loading;
          filters = s.filters;
        }

    unfoldable pub on_bulk_message : List Change → EventStream Map → Option (EventStream Map)
    unfolding flush_sorted apply_changes
    on_bulk_message cs s = flush_sorted (ordered (apply_changes s.messages cs)) s

    -- New properties that differ from those of the state.
    unfoldable pub derive_filters : Filters → EventStream Map → EventStream Map
    derive_filters f s = record {
      messages = s.messages;
      active = true;
      socket_paused = s.socket_paused;
      sorted_messages = s.sorted_messages;
      filtered_events = filter_events lower words_of f s.sorted_messages;
      error = s.error;
      loading = s.loading;
      filters = f;
    }

    unfoldable pub step : EventStream Map → StreamEvent → Option (EventStream Map)
    unfolding on_open on_close on_error toggle_stream on_bulk_message derive_filters
    step s opens = some (on_open s)
    step s (closes was_clean reason) = some (on_close was_clean reason s)
    step s fails = some (on_error s)
    step s toggles = some (toggle_stream s)
    step s (messages_come cs) = on_bulk_message cs s
    step s (filters_change f) = some (derive_filters f s)

    unfoldable pub run : EventStream Map → List StreamEvent → Option (EventStream Map)
    unfolding step
    run s [] = some s
    run s (e ∷ es) = do t ← step s e; run t es
