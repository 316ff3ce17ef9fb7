-- ===== src/Watch/Cell.antt =====
-- frontend/public/module/k8s/k8s-actions.ts: what the module keeps of one id in REF_COUNTS, WS and
-- POLLs, with the sockets, timers and requests of the id that are under way in the browser.
use web_ui.Base.{
  ℕ, zero, suc, ◌+◌, ◌-◌, Bool, true, false, not, Option, none, some, List, [], ◌∷◌, ◌++◌, ltb,
  ◌==◌, if◌then◌else◌, filter, map,
}
use web_ui.Base.Text.{Text}
use web_ui.Store.Lists.{Resource, WatchEvent, added, modified, deleted_event, unknown}
use web_ui.Store.Reducer.{
  Action, watch_object, modify_object, watch_list, stop_watch, loaded_list, update_list_from_ws,
  bulk_add_to_list, errored,
}

-- Who made a socket or a timer: `watchK8sList` (its timer is a timeout) or `watchK8sObject` (an interval).
pub data Maker : Type 0 where
  by_list by_object : Maker

-- A socket or a timer, with a number of its own.
pub record Handle : Type 0 where
  pub serial : ℕ
  pub maker : Maker

-- `refs`, `socket` and `timer` are the id's fields of REF_COUNTS, WS and POLLs. `sockets` are the WSFactory
-- objects on which nobody has called `destroy`, `timers` those that are not cleared, `loads` the calls of
-- `incrementallyLoad` that wait for a page (true for the first page), and `gets` counts the requests of the
-- poller that wait. What a WSFactory does after `destroy` reaches the cell by the close handler alone.
pub record Cell : Type 0 where
  pub refs : Option ℕ
  pub socket : Option Handle
  pub sockets : List Handle
  pub timer : Option Handle
  pub timers : List Handle
  pub loads : List Bool
  pub gets : ℕ
  pub next : ℕ

unfoldable pub idle : Cell
idle = record {
  refs = none;
  socket = none;
  sockets = [];
  timer = none;
  timers = [];
  loads = [];
  gets = 0;
  next = 0;
}

abbrev pub without : ℕ → List Handle → List Handle
without n hs = filter (λ h. not (h.serial == n)) hs

-- Destroying or clearing what a field holds, if it holds something.
abbrev pub without_held : Option Handle → List Handle → List Handle
without_held none hs = hs
without_held (some h) hs = without h.serial hs

unfoldable pub set_refs : Option ℕ → Cell → Cell
set_refs n c = record {
  refs = n;
  socket = c.socket;
  sockets = c.sockets;
  timer = c.timer;
  timers = c.timers;
  loads = c.loads;
  gets = c.gets;
  next = c.next;
}

-- `WS[id] = k8sWatch(...)`
unfoldable pub open_socket : Maker → Cell → Cell
open_socket m c =
    let h : Handle = record { serial = c.next; maker = m } in
    record {
      refs = c.refs;
      socket = some h;
      sockets = h ∷ c.sockets;
      timer = c.timer;
      timers = c.timers;
      loads = c.loads;
      gets = c.gets;
      next = suc c.next;
    }

-- `POLLs[id] = setInterval(...)` and `POLLs[id] = setTimeout(...)`
unfoldable pub start_timer : Maker → Cell → Cell
start_timer m c =
    let h : Handle = record { serial = c.next; maker = m } in
    record {
      refs = c.refs;
      socket = c.socket;
      sockets = c.sockets;
      timer = some h;
      timers = h ∷ c.timers;
      loads = c.loads;
      gets = c.gets;
      next = suc c.next;
    }

-- The timer is set unless one is.
unfoldable pub ensure_timer : Cell → Option Handle → Cell
unfolding start_timer
ensure_timer c none = start_timer by_list c
ensure_timer c (some h) = c

unfoldable pub set_loads : List Bool → Cell → Cell
set_loads ls c = record {
  refs = c.refs;
  socket = c.socket;
  sockets = c.sockets;
  timer = c.timer;
  timers = c.timers;
  loads = ls;
  gets = c.gets;
  next = c.next;
}

unfoldable pub set_gets : ℕ → Cell → Cell
set_gets n c = record {
  refs = c.refs;
  socket = c.socket;
  sockets = c.sockets;
  timer = c.timer;
  timers = c.timers;
  loads = c.loads;
  gets = n;
  next = c.next;
}

-- `pollAndWatch` up to its first `await`: its count is there whenever it is called, so a request is made.
unfoldable pub poll_and_watch : Cell → Cell
poll_and_watch c = record {
  refs = c.refs;
  socket = c.socket;
  sockets = c.sockets;
  timer = none;
  timers = c.timers;
  loads = c.loads ++ true ∷ [];
  gets = c.gets;
  next = c.next;
}

-- The rest of `stopK8sWatch` once nobody watches.
unfoldable pub clean_up : Cell → Cell
clean_up c = record {
  refs = none;
  socket = none;
  sockets = without_held c.socket c.sockets;
  timer = none;
  timers = without_held c.timer c.timers;
  loads = c.loads;
  gets = c.gets;
  next = c.next;
}

-- A load has ended: its socket, unless there is one.
unfoldable pub socket_after_load : Cell → Option Handle → Cell
unfolding open_socket
socket_after_load c (some h) = c
socket_after_load c none = open_socket by_list c

abbrev pub drop_at : ℕ → List Bool → List Bool
drop_at n [] = []
drop_at zero (l ∷ ls) = ls
drop_at (suc n) (l ∷ ls) = l ∷ drop_at n ls

abbrev pub later_at : ℕ → List Bool → List Bool
later_at n [] = []
later_at zero (l ∷ ls) = false ∷ ls
later_at (suc n) (l ∷ ls) = l ∷ later_at n ls

-- Operations give the new cell and what they dispatch to the store, in order.
module _ (id : Text) where
  -- With the count that was kept; without one `undefined - 1` is NaN, which is not above 0.
  unfoldable pub stop_counted : Option ℕ → Cell → Cell × List Action
  unfolding clean_up set_refs
  stop_counted none c = (clean_up c, stop_watch id ∷ [])
  stop_counted (some n) c =
      if ltb 0 (n - 1) then (set_refs (some (n - 1)) c, []) else (clean_up c, stop_watch id ∷ [])

  unfoldable pub stop : Cell → Cell × List Action
  unfolding stop_counted
  stop c = stop_counted c.refs c

  unfoldable pub watch_list_counted : Option ℕ → Cell → Cell × List Action
  unfolding set_refs poll_and_watch
  watch_list_counted (some n) c = (set_refs (some (n + 1)) c, [])
  watch_list_counted none c = (poll_and_watch (set_refs (some 1) c), watch_list id ∷ [])

  unfoldable pub watch_object_counted : Option ℕ → Cell → Cell × List Action
  unfolding set_refs set_gets start_timer open_socket
  watch_object_counted (some n) c = (set_refs (some (n + 1)) c, [])
  watch_object_counted none c = (
    open_socket by_object (set_gets (c.gets + 1) (start_timer by_object (set_refs (some 1) c))),
    watch_object id ∷ [],
  )

  -- `incrementallyLoad` from its `await` on, with the test of the first page.
  unfoldable pub page_actions : Bool → List Resource → Bool → List Action
  page_actions first items more =
      (if first then loaded_list id items ∷ [] else [])
      ++ (if more then bulk_add_to_list id items ∷ [] else [])

  -- The page that load `n` waits for is there.
  unfoldable pub page_arrives :
      ℕ → Bool → List Resource → Bool → Cell → Option ℕ → Cell × List Action
  unfolding stop set_loads socket_after_load page_actions
  page_arrives n first items more c none = stop (set_loads (drop_at n c.loads) c)
  page_arrives n first items more c (some k) = (
    if more
        then set_loads (later_at n c.loads) c
        else socket_after_load (set_loads (drop_at n c.loads) c) c.socket,
    page_actions first items more,
  )

  unfoldable pub page_fails : ℕ → Text → Cell → Option ℕ → Cell × List Action
  unfolding stop set_loads ensure_timer
  page_fails n message c none = stop (set_loads (drop_at n c.loads) c)
  page_fails n message c (some k) =
      (ensure_timer (set_loads (drop_at n c.loads) c) c.timer, errored id message ∷ [])

  abbrev pub event_object : WatchEvent → Resource
  event_object (added r) = r
  event_object (modified r) = r
  event_object (deleted_event r) = r
  event_object (unknown r) = r

  -- `onbulkmessage`
  unfoldable pub messages : Maker → List WatchEvent → List Action
  messages by_list es = update_list_from_ws id es ∷ []
  messages by_object es = map (λ e. modify_object id (event_object e)) es

-- `ondestroy` with `timedOut`.
unfoldable pub after_destroy : Cell → Cell
unfolding ensure_timer
after_destroy c =
    ensure_timer
      record {
        refs = c.refs;
        socket = none;
        sockets = c.sockets;
        timer = c.timer;
        timers = c.timers;
        loads = c.loads;
        gets = c.gets;
        next = c.next;
      }
      c.timer

unfoldable pub destroy_socket : ℕ → Cell → Cell
destroy_socket n c = record {
  refs = c.refs;
  socket = c.socket;
  sockets = without n c.sockets;
  timer = c.timer;
  timers = c.timers;
  loads = c.loads;
  gets = c.gets;
  next = c.next;
}

-- The timeout of a socket destroys it; only that of a list hears of it.
unfoldable pub times_out : Handle → Maker → Cell → Cell
unfolding after_destroy destroy_socket
times_out h by_list c = after_destroy (destroy_socket h.serial c)
times_out h by_object c = destroy_socket h.serial c

-- `onclose` with the code 1006 destroys the socket that is stored.
unfoldable pub closes_abnormally : Maker → Option Handle → Cell → Cell
unfolding times_out
closes_abnormally by_object h c = c
closes_abnormally by_list none c = c
closes_abnormally by_list (some h) c = times_out h h.maker c

-- A timeout is over when it fires, an interval goes on.
unfoldable pub fires : Handle → Maker → Cell → Cell
unfolding set_gets poll_and_watch
fires h by_object c = set_gets (c.gets + 1) c
fires h by_list c = poll_and_watch record {
  refs = c.refs;
  socket = c.socket;
  sockets = c.sockets;
  timer = c.timer;
  timers = without h.serial c.timers;
  loads = c.loads;
  gets = c.gets;
  next = c.next;
}
