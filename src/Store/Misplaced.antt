-- ===== src/Store/Misplaced.antt =====
-- Where the reducer throws (frontend/public/module/k8s/k8s-reducers.ts).
use web_ui.Base.{
  ◌≡◌, refl, Bool, true, false, not, none, some, is_some, List, [], Bool-cases, inl, inr,
}
use web_ui.Base.Text.{Text}
use web_ui.Store.Maps.{Maps}
use web_ui.Store.Lists.{Resource, same_but_version, WatchEvent}
use web_ui.Store.Reducer.{
  Data, no_data, list_data, object_data, Store, Action, get_resources_in_flight, set_api_groups,
  filter_list, watch_object, modify_object, watch_list, stop_watch, loaded_list,
  update_list_from_ws, bulk_add_to_list, errored, data_of, modify, load, update_from_ws, bulk,
  reduce, only_unknown,
}

-- Which actions are out of place on which data.
abbrev pub on_data : {M : Type 0} → Bool → Bool → Bool → Data M → Bool
on_data a b c no_data = a
on_data a b c (list_data list) = b
on_data a b c (object_data o) = c

abbrev pub misplaced : {M : Type 0} → Action → Data M → Bool
misplaced (modify_object j r) d = on_data false true false d
misplaced (loaded_list j rs) d = on_data false false true d
misplaced (bulk_add_to_list j rs) d = on_data false false true d
misplaced (update_list_from_ws j es) d = on_data (not (only_unknown es)) false true d
misplaced _ d = false

abbrev pub id_of : Action → Text
id_of get_resources_in_flight = []
id_of (set_api_groups n) = []
id_of (filter_list j name value) = j
id_of (watch_object j) = j
id_of (modify_object j r) = j
id_of (watch_list j) = j
id_of (stop_watch j) = j
id_of (loaded_list j rs) = j
id_of (update_list_from_ws j es) = j
id_of (bulk_add_to_list j rs) = j
id_of (errored j m) = j

is_some-load :
    (maps : Maps Resource) (j : Text) (rs : List Resource) (s : Store maps.Map) (d : Data maps.Map)
    → is_some (load maps j rs s d) ≡ not (misplaced (loaded_list j rs) d)
unfolding load
is_some-load maps j rs s no_data = refl
is_some-load maps j rs s (list_data list) = refl
is_some-load maps j rs s (object_data o) = refl

is_some-update_from_ws :
    (maps : Maps Resource) (j : Text) (es : List WatchEvent) (s : Store maps.Map)
    (d : Data maps.Map)
    → is_some (update_from_ws maps j es s d) ≡ not (misplaced (update_list_from_ws j es) d)
unfolding update_from_ws
is_some-update_from_ws maps j es s no_data = elim (Bool-cases (only_unknown es)) [
  | inl quiet ↦ rw quiet refl
  | inr known ↦ rw known refl
]
is_some-update_from_ws maps j es s (list_data list) = refl
is_some-update_from_ws maps j es s (object_data o) = refl

is_some-bulk :
    (maps : Maps Resource) (j : Text) (rs : List Resource) (s : Store maps.Map) (d : Data maps.Map)
    → is_some (bulk maps j rs s d) ≡ not (misplaced (bulk_add_to_list j rs) d)
unfolding bulk
is_some-bulk maps j rs s no_data = refl
is_some-bulk maps j rs s (list_data list) = refl
is_some-bulk maps j rs s (object_data o) = refl

is_some-modify :
    {M : Type 0} (j : Text) (r : Resource) (s : Store M) (d : Data M)
    → is_some (modify j r s d) ≡ not (misplaced (modify_object j r) d)
unfolding modify
is_some-modify j r s no_data = refl
is_some-modify j r s (object_data none) = refl
is_some-modify j r s (object_data (some c)) = elim (Bool-cases (same_but_version c r)) [
  | inl same ↦ rw same refl
  | inr other ↦ rw other refl
]
is_some-modify j r s (list_data list) = refl

-- An action ends without a state (it throws, or works on the fields of an object) just when it is one
-- of three on a list where the data is an object, one on an object where the data is a list, or a message
-- with an event of a known type where there is no list.
pub is_some-reduce :
    (maps : Maps Resource) (s : Store maps.Map) (a : Action)
    → is_some (reduce maps s a) ≡ not (misplaced a (data_of (s.entries (id_of a))))
unfolding reduce
is_some-reduce maps s get_resources_in_flight = refl
is_some-reduce maps s (set_api_groups n) = refl
is_some-reduce maps s (filter_list j name value) = refl
is_some-reduce maps s (watch_object j) = refl
is_some-reduce maps s (modify_object j r) = is_some-modify j r s (data_of (s.entries j))
is_some-reduce maps s (watch_list j) = refl
is_some-reduce maps s (stop_watch j) = refl
is_some-reduce maps s (loaded_list j rs) = is_some-load maps j rs s (data_of (s.entries j))
is_some-reduce maps s (update_list_from_ws j es) =
    is_some-update_from_ws maps j es s (data_of (s.entries j))
is_some-reduce maps s (bulk_add_to_list j rs) = is_some-bulk maps j rs s (data_of (s.entries j))
is_some-reduce maps s (errored j m) = refl
