-- ===== src/Watch/Tests.antt =====
-- Runs of a watch, and its theorems at such runs.
use web_ui.Base.{◌≡◌, refl, true, false, none, some, List, [], ◌∷◌}
use web_ui.Base.{length}
use web_ui.Base.Text.{Text, codes, same_text}
use web_ui.Store.Lists.{Resource, get_qn}
use web_ui.Store.Views.{absent, object_seen, listed, happens_all, loaded_at}
use web_ui.Watch.Cell.{
  Cell, idle, set_refs, open_socket, start_timer, ensure_timer, set_loads, set_gets, poll_and_watch,
  clean_up, stop_counted, stop, watch_list_counted, watch_object_counted, page_actions,
  socket_after_load, page_arrives, page_fails, messages, after_destroy, destroy_socket, times_out,
  closes_abnormally, fires,
}
use web_ui.Watch.Steps.{
  Event, call_watch_list, call_watch_object, call_stop, page_comes, page_error, object_comes,
  timer_goes, socket_closes, replaced_socket_closes, with_load, with_handle, with_get, step, run,
}
use web_ui.Watch.Valid.{IsValid}
use web_ui.Watch.Invariant.{Reach, nothing_yet, and_then, Reach-IsValid}
use web_ui.Watch.Count.{count, watchers_all, count-run-idle, run-nothing_left}
use web_ui.Watch.Revival.{happens_all-revived}
use web_ui.Watch.Silence.{happens_all-run}
use web_ui.Watch.Pages.{paged, happens_all-run-paged, run-paged-ends}

watch : Unit {0}
unfolding idle set_refs open_socket start_timer ensure_timer set_loads set_gets poll_and_watch
    clean_up stop_counted stop watch_list_counted watch_object_counted page_actions
    socket_after_load page_arrives page_fails messages after_destroy destroy_socket times_out
    closes_abnormally fires with_load with_handle with_get step run
watch = tt

abbrev named : Text → Resource
named name = record {
  name = name;
  namespace = [];
  uid = name;
  created = some 1;
  version = some 1;
  deleted = false;
  rest = [];
}

abbrev pods : Text
pods = codes "pods"

-- Two watchers; the load fails, is tried again, succeeds, and the socket is lost; both stop.
abbrev a_life : List Event
a_life =
    call_watch_list
    ∷ page_error 0 (codes "503")
    ∷ call_watch_list
    ∷ timer_goes 0
    ∷ page_comes 0 (named (codes "a") ∷ []) false
    ∷ socket_closes 0
    ∷ call_stop
    ∷ call_stop
    ∷ []

-- Before the stops one timer waits and no socket is open.
waiting :
    ((run pods idle (call_watch_list ∷ page_error 0 [] ∷ [])).0.refs ≡ some 1)
    × ((run pods idle (call_watch_list ∷ page_comes 0 [] false ∷ [])).0.next ≡ 1)
unfolding watch
waiting = (refl, refl)

abbrev stopped_early : Cell
stopped_early = (step pods (step pods idle call_watch_list).0 call_stop).0

stopped_early-Reach : Reach pods stopped_early
stopped_early-Reach = and_then call_stop (and_then call_watch_list nothing_yet)

Reach-IsValid_example : IsValid stopped_early
Reach-IsValid_example = Reach-IsValid pods stopped_early stopped_early-Reach

count-run-idle_example : count (run pods idle a_life).0.refs ≡ watchers_all 0 a_life
count-run-idle_example = count-run-idle pods a_life

run-nothing_left_example :
    ((run pods idle a_life).0.sockets ≡ []) × ((run pods idle a_life).0.timers ≡ [])
run-nothing_left_example = run-nothing_left pods a_life refl

happens_all-run_example :
    happens_all pods
      (codes "a")
      absent
      (run pods stopped_early (page_comes 0 (named (codes "a") ∷ []) true ∷ [])).1
    ≡ absent
unfolding watch
happens_all-run_example =
    happens_all-run pods (codes "a") stopped_early (page_comes 0 (named (codes "a") ∷ []) true ∷ [])
      stopped_early-Reach refl refl refl

-- The last watcher stops while a request waits.
abbrev unanswered : Cell
unanswered = (run pods idle (call_watch_object ∷ call_stop ∷ [])).0

happens_all-revived_example :
    (happens_all pods
        (codes "a")
        absent
        (run pods unanswered (object_comes (named (codes "a")) ∷ replaced_socket_closes ∷ [])).1
      ≡ object_seen)
    × ((run pods unanswered
          (object_comes (named (codes "a")) ∷ replaced_socket_closes ∷ [])).0.sockets
        ≡ [])
    × ((run pods unanswered
          (object_comes (named (codes "a")) ∷ replaced_socket_closes ∷ [])).0.timers
        ≡ [])
unfolding watch
happens_all-revived_example =
    happens_all-revived pods (codes "a") unanswered (named (codes "a")) 0
      (replaced_socket_closes ∷ []) (and_then call_stop (and_then call_watch_object nothing_yet))
      refl refl refl refl

happens_all-run-paged_example :
    (happens_all pods
        (codes "b")
        absent
        (run pods idle
          (call_watch_list ∷ paged ((named (codes "a") ∷ []) ∷ []) (named (codes "b") ∷ []))).1
      ≡ listed none)
    × (happens_all pods
          (codes "b")
          absent
          (run pods idle (call_watch_list ∷ paged [] (named (codes "b") ∷ []))).1
        ≡ listed (loaded_at (codes "b") (named (codes "b") ∷ []) none))
unfolding watch same_text get_qn
happens_all-run-paged_example =
    happens_all-run-paged pods (codes "b") (named (codes "a") ∷ []) [] (named (codes "b") ∷ []) refl

run-paged-ends_example :
    ((run pods idle (call_watch_list ∷ paged ([] ∷ []) [])).0.loads ≡ [])
    × (length (run pods idle (call_watch_list ∷ paged ([] ∷ []) [])).0.sockets ≡ 1)
    × ((run pods idle (call_watch_list ∷ paged ([] ∷ []) [])).0.timers ≡ [])
    × ((run pods idle (call_watch_list ∷ paged ([] ∷ []) [])).0.refs ≡ some 1)
run-paged-ends_example = run-paged-ends pods ([] ∷ []) []
