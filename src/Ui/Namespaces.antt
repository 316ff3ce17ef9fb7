-- ===== src/Ui/Namespaces.antt =====
-- The active namespace of the frame (frontend/public/ui/ui-reducers.js).
use web_ui.Base.{
  ◌≡◌, refl, sym, ap, ◌∙◌, ◌⊎◌, inl, inr, Bool, true, Option, none, some, List, [], ◌∷◌, null, not,
  arith, get_elem?,
}
use web_ui.Base.Text.{Text, codes, split}
use web_ui.Selector.Requirement.{trim}
use web_ui.Ui.Link.{
  slash, all_namespaces_key, match_legal_name, non_empty, Found, undefined, null_match, found,
  or_null, match_piece, namespace_of_pieces, strip_base_path, get_ns_prefix, get_namespace,
}
use web_ui.Ui.Actions.{
  Action, set_active_namespace, set_current_location, start_impersonate, stop_impersonate,
  sort_list, set_create_project_message, set_monitoring_rules, Browser, format_namespace_route,
  set_active,
}
use web_ui.Ui.Reducer.{UiState, or_text, text_of_found, initial, set_location, reduce, reduce_all}
use web_ui.Ui.Pieces.{IsLegal}
use web_ui.Ui.Routes.{get_namespace-format_namespace_route}

abbrev pub not_empty : Option Text → Bool
not_empty none = true
not_empty (some t) = not (null t)

match-not_empty : (t : Text) → not_empty (match_legal_name t) ≡ true
unfolding match_legal_name
match-not_empty [] = refl
match-not_empty (c ∷ s) = ground (arith, match-not_empty s)

match_piece-not_empty : (o : Option Text) → not_empty (text_of_found (match_piece o)) ≡ true
unfolding match_piece or_null
match_piece-not_empty none = refl
match_piece-not_empty (some t) = of_match (match_legal_name t) (match-not_empty t)
  where
    of_match : (m : Option Text) → not_empty m ≡ true → not_empty (text_of_found (or_null m)) ≡ true
    of_match none h = refl
    of_match (some u) h = h

pieces-not_empty : (ps : List Text) → not_empty (text_of_found (namespace_of_pieces ps)) ≡ true
unfolding namespace_of_pieces
pieces-not_empty ps =
    ground (arith, match_piece-not_empty (get_elem? ps 2), match_piece-not_empty (get_elem? ps 3))

get_namespace-not_empty :
    (base_path path : Text) → not_empty (text_of_found (get_namespace base_path path)) ≡ true
unfolding get_namespace
get_namespace-not_empty base_path path =
    pieces-not_empty (non_empty (split slash (strip_base_path base_path path)))

module _ (base_path : Text) where
  initial-not_empty :
      (pathname : Text) (favorite last : Option Text)
      → not_empty (initial base_path pathname favorite last).active_namespace ≡ true
  unfolding initial
  initial-not_empty pathname favorite last = falls_back _
    where
      falls_back : (o : Option Text) → not_empty (or_text o (some (codes "default"))) ≡ true
      falls_back none = unfold or_text in refl
      falls_back (some []) = unfold or_text in refl
      falls_back (some (c ∷ s)) = unfold or_text in refl

  set_location-not_empty :
      (s : UiState) (location : Text) (f : Found)
      → not_empty s.active_namespace ≡ true
      → not_empty (text_of_found f) ≡ true
      → not_empty (set_location base_path s location f).active_namespace ≡ true
  unfolding set_location
  set_location-not_empty s location undefined h k = h
  set_location-not_empty s location null_match h k = refl
  set_location-not_empty s location (found t) h k = k

  reduce-not_empty :
      (s : UiState) (a : Action)
      → not_empty s.active_namespace ≡ true
      → not_empty (reduce base_path s a).active_namespace ≡ true
  unfolding reduce
  reduce-not_empty s (set_active_namespace []) h = h
  reduce-not_empty s (set_active_namespace (c ∷ t)) h = refl
  reduce-not_empty s (set_current_location location) h =
      set_location-not_empty s location _ h (get_namespace-not_empty base_path location)
  reduce-not_empty s (start_impersonate kind name subprotocols) h = h
  reduce-not_empty s stop_impersonate h = h
  reduce-not_empty s (sort_list id field func order_by) h = h
  reduce-not_empty s (set_create_project_message message) h = h
  reduce-not_empty s (set_monitoring_rules loaded load_error rules) h = h

  reduce_all-not_empty :
      (s : UiState) (actions : List Action)
      → not_empty s.active_namespace ≡ true
      → not_empty (reduce_all base_path s actions).active_namespace ≡ true
  unfolding reduce_all
  reduce_all-not_empty s [] h = h
  reduce_all-not_empty s (a ∷ actions) h =
      reduce_all-not_empty (reduce base_path s a) actions (reduce-not_empty s a h)

-- From any path and any stored namespaces, no sequence of actions makes the active namespace the empty
-- text.
pub reduce_all-initial :
    (base_path pathname : Text) (favorite last : Option Text) (actions : List Action)
    → not_empty
        (reduce_all base_path (initial base_path pathname favorite last) actions).active_namespace
      ≡ true
reduce_all-initial base_path pathname favorite last actions =
    reduce_all-not_empty base_path (initial base_path pathname favorite last) actions
      (initial-not_empty base_path pathname favorite last)

reduce-named :
    (base_path : Text) (s : UiState) (ns : Text)
    → IsLegal ns ⊎ (ns ≡ all_namespaces_key)
    → (reduce base_path s (set_active_namespace ns)).active_namespace ≡ some ns
unfolding reduce match_legal_name
reduce-named base_path s [] (inl h) = cc
reduce-named base_path s [] (inr e) = cc
reduce-named base_path s (c ∷ t) h = refl

located :
    (base_path : Text) (s : UiState) (location ns : Text)
    → get_namespace base_path location ≡ found ns
    → (reduce base_path s (set_current_location location)).active_namespace ≡ some ns
unfolding reduce set_location
located base_path s location ns e =
    ap (λ f. (set_location base_path s location f).active_namespace) e

-- Choosing another namespace on a path under one of the prefixes: the location that is pushed, reduced
-- alone, and the action, reduced alone, make the same namespace active. The name, trimmed, is legal or
-- the key of all namespaces, and the new path is not under the base path.
pub reduce-set_active :
    (base_path prefix namespace : Text) (s t : UiState) (b : Browser)
    → get_ns_prefix base_path b.pathname ≡ some prefix
    → IsLegal (trim namespace) ⊎ (trim namespace ≡ all_namespaces_key)
    → strip_base_path base_path (format_namespace_route base_path (trim namespace) b.pathname none)
      ≡ format_namespace_route base_path (trim namespace) b.pathname none
    → (reduce base_path s (
        set_current_location
          (format_namespace_route base_path (trim namespace) b.pathname none))).active_namespace
      ≡ (reduce base_path t
          (set_active base_path t.active_namespace namespace b).1).active_namespace
unfolding set_active
reduce-set_active base_path prefix namespace s t b pre named outside =
    located base_path s (format_namespace_route base_path (trim namespace) b.pathname none)
      (trim namespace)
      (get_namespace-format_namespace_route base_path b.pathname prefix (trim namespace) pre named
        outside)
    ∙ sym (reduce-named base_path t (trim namespace) named)
