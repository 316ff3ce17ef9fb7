-- ===== src/Watch/Steps.antt =====
-- frontend/public/module/k8s/k8s-actions.ts: what can happen to a watch, in any order.
use web_ui.Base.{ℕ, zero, suc, Bool, Option, none, some, List, [], ◌∷◌, ◌++◌, get_elem?}
use web_ui.Base.Text.{Text}
use web_ui.Store.Lists.{Resource, WatchEvent}
use web_ui.Store.Reducer.{Action, modify_object, errored}
use web_ui.Watch.Cell.{
  by_list, Handle, Cell, set_gets, stop, watch_list_counted, watch_object_counted, page_arrives,
  page_fails, messages, times_out, closes_abnormally, fires,
}

-- The three calls of a client, then what the browser reports: the answers to the requests for a page of a
-- list (with whether there are more) and for an object, a timer, and a socket's closing with the code
-- 1006, its timeout and its messages. Numbers are places among the loads, timers and sockets. A socket that a
-- WSFactory of a list has replaced keeps its callbacks when the WSFactory is destroyed:
-- `replaced_socket_closes` is its closing with the code 1006, of which the handlers of its list hear, whatever
-- is stored by then. It is allowed at any time.
pub data Event : Type 0 where
  call_watch_list call_watch_object call_stop : Event
  page_comes : ℕ → List Resource → Bool → Event
  page_error : ℕ → Text → Event
  object_comes : Resource → Event
  object_error : Text → Event
  timer_goes : ℕ → Event
  socket_closes socket_times_out : ℕ → Event
  replaced_socket_closes : Event
  socket_messages : ℕ → List WatchEvent → Event

module _ (id : Text) where
  unfoldable pub with_load : Cell → Option Bool → (Bool → Cell × List Action) → Cell × List Action
  with_load c none f = (c, [])
  with_load c (some first) f = f first

  unfoldable pub with_handle :
      Cell → Option Handle → (Handle → Cell × List Action) → Cell × List Action
  with_handle c none f = (c, [])
  with_handle c (some h) f = f h

  -- The requests for an object are answered whether it is watched or not.
  unfoldable pub with_get : Cell → ℕ → Action → Cell × List Action
  unfolding set_gets
  with_get c zero a = (c, [])
  with_get c (suc n) a = (set_gets n c, a ∷ [])

  -- What happens where there is no such load, timer, socket or request changes nothing.
  unfoldable pub step : Cell → Event → Cell × List Action
  unfolding stop watch_list_counted watch_object_counted page_arrives page_fails messages times_out
      closes_abnormally fires with_load with_handle with_get
  step c call_watch_list = watch_list_counted id c.refs c
  step c call_watch_object = watch_object_counted id c.refs c
  step c call_stop = stop id c
  step c (page_comes n items more) =
      with_load c (get_elem? c.loads n) (λ first. page_arrives id n first items more c c.refs)
  step c (page_error n message) =
      with_load c (get_elem? c.loads n) (λ first. page_fails id n message c c.refs)
  step c (object_comes r) = with_get c c.gets (modify_object id r)
  step c (object_error message) = with_get c c.gets (errored id message)
  step c (timer_goes n) = with_handle c (get_elem? c.timers n) (λ h. (fires h h.maker c, []))
  step c (socket_closes n) =
      with_handle c (get_elem? c.sockets n) (λ h. (closes_abnormally h.maker c.socket c, []))
  step c (socket_times_out n) =
      with_handle c (get_elem? c.sockets n) (λ h. (times_out h h.maker c, []))
  step c replaced_socket_closes = (closes_abnormally by_list c.socket c, [])
  step c (socket_messages n es) =
      with_handle c (get_elem? c.sockets n) (λ h. (c, messages id h.maker es))

  -- All that happens, with all that is dispatched.
  unfoldable pub run : Cell → List Event → Cell × List Action
  run c [] = (c, [])
  run c (e ∷ es) = let after = step c e in let rest = run after.0 es in (rest.0, after.1 ++ rest.1)
