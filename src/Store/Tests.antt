-- ===== src/Store/Tests.antt =====
-- Runs of the store, and its theorems at such runs.
use web_ui.Base.{ℕ, ◌≡◌, refl, false, Option, none, some, List, [], ◌∷◌, if◌then◌else◌}
use web_ui.Base.Text.{Text, codes, same_text}
use web_ui.Store.Maps.{Maps, plain_maps}
use web_ui.Store.Lists.{
  Resource, get_qn, qn, more_recent, same_but_version, added, modified, deleted_event,
  remove_from_list, update_current, update_list, load_current, load_each, delete_each, load_list,
  apply_event, apply_events, collect, bulk_add,
}
use web_ui.Store.Loading.{newest, names_any, get-load_list}
use web_ui.Store.Events.{happen, happen_all, get-apply_events_stale}
use web_ui.Store.Reducer.{
  Store, Action, watch_list, loaded_list, update_list_from_ws, errored, put, put_list, set_filter,
  new_object, merge_object, modify, set_error, set_loaded, start_list, load, update_from_ws, bulk,
  reduce, reduce_all, initial,
}
use web_ui.Store.Views.{listed, view, happens, happens_all}
use web_ui.Store.Entries.{view-reduce_all}

store : Unit {0}
unfolding get_qn more_recent same_but_version remove_from_list update_current update_list
    load_current load_each delete_each load_list apply_event apply_events collect bulk_add happen
    happen_all put put_list set_filter new_object merge_object modify set_error set_loaded
    start_list load update_from_ws bulk reduce reduce_all initial happens happens_all plain_maps
store = tt

abbrev pod : Text → Text → ℕ → Text → Resource
pod name uid version rest = record {
  name = name;
  namespace = codes "ns";
  uid = uid;
  created = some 5;
  version = some version;
  deleted = false;
  rest = rest;
}

abbrev old_web : Resource
old_web = pod (codes "web") (codes "1") 10 (codes "a")

abbrev next_web : Resource
next_web = pod (codes "web") (codes "1") 20 (codes "b")

abbrev same_web : Resource
same_web = pod (codes "web") (codes "1") 30 (codes "a")

abbrev db : Resource
db = pod (codes "db") (codes "2") 7 (codes "c")

qualified : get_qn (codes "ns") (codes "web") ≡ codes "(ns)-web"
unfolding store
qualified = refl

abbrev web_key : Text
web_key = codes "(ns)-web"

abbrev maps : Maps Resource
maps = plain_maps Resource

abbrev one_stored : maps.Map
one_stored = apply_events maps maps.empty (added next_web ∷ [])

get-load_list_example : maps.get web_key (load_list maps one_stored (old_web ∷ db ∷ [])) ≡ (
    if names_any web_key (old_web ∷ db ∷ [])
    then newest web_key (maps.get web_key one_stored) (old_web ∷ db ∷ [])
    else none)
get-load_list_example = get-load_list maps web_key one_stored (old_web ∷ db ∷ [])

abbrev old_stored : maps.Map
old_stored = apply_events maps maps.empty (added old_web ∷ [])

get-apply_events_stale_example :
    (maps.get
        (qn old_web)
        (apply_events maps old_stored (modified same_web ∷ modified next_web ∷ []))
      ≡ some next_web)
    × (more_recent next_web same_web ≡ false)
unfolding store same_text
get-apply_events_stale_example =
    get-apply_events_stale maps old_stored old_web same_web next_web 10 20 30 refl refl refl refl
      refl refl refl refl refl refl refl

abbrev pods : Text
pods = codes "pods"

abbrev a_session : List Action
a_session =
    watch_list pods
    ∷ loaded_list pods (old_web ∷ db ∷ [])
    ∷ update_list_from_ws pods (modified next_web ∷ deleted_event db ∷ [])
    ∷ errored pods (codes "gone")
    ∷ []

abbrev or_initial : Option (Store maps.Map) → Store maps.Map
or_initial none = initial
or_initial (some s) = s

abbrev final : Store maps.Map
final = or_initial (reduce_all maps initial a_session)

-- The deleted object is not there, the other is there in its new form.
seen_at_end :
    (view maps final pods web_key ≡ listed (some next_web))
    × (view maps final pods (codes "(ns)-db") ≡ listed none)
unfolding store same_text
seen_at_end = (refl, refl)

view-reduce_all_example :
    view maps final pods web_key
    ≡ happens_all pods web_key (view maps initial pods web_key) a_session
unfolding store same_text
view-reduce_all_example = view-reduce_all maps initial final pods web_key a_session refl
