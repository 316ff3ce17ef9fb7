-- ===== src/Watch/Pages.antt =====
-- A list that comes in pages (frontend/public/module/k8s/k8s-actions.ts, `incrementallyLoad`), and what of
-- it is in the store (frontend/public/module/k8s/k8s-reducers.ts).
use web_ui.Base.{
  ◌≡◌, refl, ap, ◌∙◌, Bool, true, false, Option, none, some, List, [], ◌∷◌, map, any, if◌then◌else◌,
  arith,
}
use web_ui.Base.Text.{Text, same_text_refl}
use web_ui.Store.Maps.{or_first}
use web_ui.Store.Lists.{Resource}
use web_ui.Store.Loading.{names_any, newest}
use web_ui.Store.Reducer.{Action, watch_list, loaded_list, bulk_add_to_list}
use web_ui.Store.Views.{absent, listed, happens, happens_all, last_named, loaded_at}
use web_ui.Base.{length}
use web_ui.Watch.Cell.{
  by_list, Cell, idle, set_refs, set_loads, poll_and_watch, watch_list_counted, socket_after_load,
  open_socket, page_arrives, page_actions,
}
use web_ui.Watch.Steps.{Event, call_watch_list, page_comes, with_load, step, run}

-- The answers to the requests of one load: some pages that have a successor, and the last.
abbrev pub paged : List (List Resource) → List Resource → List Event
paged [] last = page_comes 0 last false ∷ []
paged (p ∷ ps) last = page_comes 0 p true ∷ paged ps last

abbrev loading : Bool → Cell
loading first = record {
  refs = some 1;
  socket = none;
  sockets = [];
  timer = none;
  timers = [];
  loads = first ∷ [];
  gets = 0;
  next = 0;
}

module _ (id : Text) where
  run-later :
      (ps : List (List Resource)) (last : List Resource)
      → (run id (loading false) (paged ps last)).1 ≡ map (bulk_add_to_list id) ps
  unfolding run step with_load page_arrives page_actions set_loads socket_after_load open_socket
  run-later [] last = refl
  run-later (p ∷ ps) last = ap (λ as_done. bulk_add_to_list id p ∷ as_done) (run-later ps last)

  run-paged :
      (p : List Resource) (ps : List (List Resource)) (last : List Resource)
      → (run id idle (call_watch_list ∷ paged (p ∷ ps) last)).1
        ≡ watch_list id ∷ loaded_list id p ∷ bulk_add_to_list id p ∷ map (bulk_add_to_list id) ps
  unfolding run step with_load page_arrives page_actions set_loads socket_after_load open_socket
      idle watch_list_counted set_refs poll_and_watch
  run-paged p ps last =
      ap (λ as_done. watch_list id ∷ loaded_list id p ∷ bulk_add_to_list id p ∷ as_done)
        (run-later ps last)

  run-one :
      (last : List Resource)
      → (run id idle (call_watch_list ∷ paged [] last)).1 ≡ watch_list id ∷ loaded_list id last ∷ []
  unfolding run step with_load page_arrives page_actions set_loads socket_after_load open_socket
      idle watch_list_counted set_refs poll_and_watch
  run-one last = refl

last_named-absent :
    (k : Text) (rs : List Resource) → names_any k rs ≡ false → last_named k rs ≡ none
last_named-absent k [] h = refl
last_named-absent k (r ∷ rs) h = ground (arith, h, last_named-absent k rs)

module _ (id k : Text) where
  happens-watch_list : happens id k absent (watch_list id) ≡ listed none
  unfolding happens
  happens-watch_list = rw (same_text_refl id) refl

  happens-loaded_list :
      (rs : List Resource) (c : Option Resource)
      → happens id k (listed c) (loaded_list id rs) ≡ listed (loaded_at k rs c)
  unfolding happens
  happens-loaded_list rs c = rw (same_text_refl id) refl

  happens-bulk_absent :
      (rs : List Resource)
      → names_any k rs ≡ false
      → happens id k (listed none) (bulk_add_to_list id rs) ≡ listed none
  unfolding happens
  happens-bulk_absent rs h =
      rw (same_text_refl id) (ap (λ o. listed (or_first o none)) (last_named-absent k rs h))

  happens_all-bulk :
      (ps : List (List Resource))
      → any (names_any k) ps ≡ false
      → happens_all id k (listed none) (map (bulk_add_to_list id) ps) ≡ listed none
  unfolding happens_all
  happens_all-bulk [] h = refl
  happens_all-bulk (p ∷ ps) h =
      ap (λ o. happens_all id k o (map (bulk_add_to_list id) ps))
        (happens-bulk_absent p (ground (arith, h)))
      ∙ happens_all-bulk ps (ground (arith, h))

  -- What the first page leaves, and what the others make of it.
  happens_all-first :
      (rs : List Resource) (later : List Action)
      → happens_all id k absent (watch_list id ∷ loaded_list id rs ∷ later)
        ≡ happens_all id k (listed (loaded_at k rs none)) later
  unfolding happens_all
  happens_all-first rs later =
      ap (λ o. happens_all id k o later)
        (ap (λ o. happens id k o (loaded_list id rs)) happens-watch_list
          ∙ happens-loaded_list rs none)

-- An object that only the last of several pages has is not in the store after the list is loaded, since the
-- last page is dispatched only if it is the first. A list of one page is there as a whole.
pub happens_all-run-paged :
    (id k : Text) (p : List Resource) (ps : List (List Resource)) (last : List Resource)
    → any (names_any k) (p ∷ ps) ≡ false
    → (happens_all id k absent (run id idle (call_watch_list ∷ paged (p ∷ ps) last)).1
        ≡ listed none)
      × (happens_all id k absent (run id idle (call_watch_list ∷ paged [] last)).1
          ≡ listed (loaded_at k last none))
unfolding happens_all
happens_all-run-paged id k p ps last h = (
  ap (happens_all id k absent) (run-paged id p ps last)
      ∙ several (ground (arith, h)) (ground (arith, h)),
  one,
)
  where
    several :
        names_any k p ≡ false
        → any (names_any k) ps ≡ false
        → happens_all id k absent (
            watch_list id ∷ loaded_list id p ∷ bulk_add_to_list id p ∷ map (bulk_add_to_list id) ps)
          ≡ listed none
    several h g =
        happens_all-first id k p (map (bulk_add_to_list id) (p ∷ ps))
        ∙ ap
            (λ b.
              happens_all id k (listed (if b then newest k none p else none))
                (map (bulk_add_to_list id) (p ∷ ps)))
            h
        ∙ happens_all-bulk id k (p ∷ ps) (rw h (rw g refl))

    one :
        happens_all id k absent (run id idle (call_watch_list ∷ paged [] last)).1
        ≡ listed (loaded_at k last none)
    one = ap (happens_all id k absent) (run-one id last) ∙ happens_all-first id k last []

-- A load that is over, with the socket that it opened.
abbrev watching : Cell
watching = record {
  refs = some 1;
  socket = some record { serial = 0; maker = by_list };
  sockets = record { serial = 0; maker = by_list } ∷ [];
  timer = none;
  timers = [];
  loads = [];
  gets = 0;
  next = 1;
}

run-later_cell :
    (id : Text) (ps : List (List Resource)) (last : List Resource)
    → (run id (loading false) (paged ps last)).0 ≡ watching
unfolding run step with_load page_arrives set_loads socket_after_load open_socket
run-later_cell id [] last = refl
run-later_cell id (p ∷ ps) last = run-later_cell id ps last

run-first_cell :
    (id : Text) (ps : List (List Resource)) (last : List Resource)
    → (run id (loading true) (paged ps last)).0 ≡ watching
unfolding run step with_load page_arrives set_loads socket_after_load open_socket
run-first_cell id [] last = refl
run-first_cell id (p ∷ ps) last = run-later_cell id ps last

first_step :
    (id : Text) (ps : List (List Resource)) (last : List Resource)
    → (run id idle (call_watch_list ∷ paged ps last)).0 ≡ (run id (loading true) (paged ps last)).0
unfolding run step idle watch_list_counted set_refs poll_and_watch
first_step id ps last = refl

-- A load ends when its last page comes, however many pages come before: no request of it waits, its one
-- socket is open, and no timer is set.
pub run-paged-ends :
    (id : Text) (ps : List (List Resource)) (last : List Resource)
    → ((run id idle (call_watch_list ∷ paged ps last)).0.loads ≡ [])
      × (length (run id idle (call_watch_list ∷ paged ps last)).0.sockets ≡ 1)
      × ((run id idle (call_watch_list ∷ paged ps last)).0.timers ≡ [])
      × ((run id idle (call_watch_list ∷ paged ps last)).0.refs ≡ some 1)
run-paged-ends id ps last =
    let over : (run id idle (call_watch_list ∷ paged ps last)).0 ≡ watching =
      first_step id ps last ∙ run-first_cell id ps last in
    (
      ap (λ c. c.loads) over,
      ap (λ c. length c.sockets) over,
      ap (λ c. c.timers) over,
      ap (λ c. c.refs) over,
    )
