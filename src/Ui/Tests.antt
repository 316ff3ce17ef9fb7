-- ===== src/Ui/Tests.antt =====
-- The frame at concrete paths.
use web_ui.Base.{◌≡◌, refl, inl, none, []}
use web_ui.Base.Text.{Text, codes, split, split_from, join, starts_with, same_text, is_space}
use web_ui.Selector.Scan.{skip_run}
use web_ui.Selector.Requirement.{trim, trim_start, trim_end}
use web_ui.Ui.Link.{
  is_legal_char, legal_rest, match_legal_name, found, undefined, null_match, or_null, is_piece,
  match_piece, namespace_of_pieces, strip_base_path, get_ns_prefix, get_namespace,
}
use web_ui.Ui.Actions.{
  previous_namespace, kept_parts, namespace_prefix, path_tail, location_tail, new_path,
  rewrite_route, format_namespace_route, format_namespaced_route_for_resource, Browser, set_active,
}
use web_ui.Ui.Reducer.{or_text, stored_namespace, initial, set_location, reduce, reduce_all}
use web_ui.Ui.Routes.{get_namespace-format_namespace_route}

frame : Unit {0}
unfolding split split_from join starts_with same_text is_space skip_run trim trim_start trim_end
    is_legal_char legal_rest match_legal_name or_null is_piece match_piece namespace_of_pieces
    strip_base_path get_ns_prefix get_namespace previous_namespace kept_parts namespace_prefix
    path_tail location_tail new_path rewrite_route format_namespace_route
    format_namespaced_route_for_resource set_active or_text stored_namespace initial set_location
    reduce reduce_all
frame = tt

abbrev base : Text
base = codes "/console/"

abbrev pods : Text
pods = codes "/console/k8s/ns/default/pods/web"

get_namespace-format_namespace_route_example :
    get_namespace base (format_namespace_route base (codes "kube-system") pods none)
    ≡ found (codes "kube-system")
unfolding frame
get_namespace-format_namespace_route_example =
    get_namespace-format_namespace_route base pods (codes "/k8s") (codes "kube-system") refl
      (inl refl) refl

route :
    format_namespace_route base (codes "kube-system") pods none ≡ codes "/k8s/ns/kube-system/pods"
unfolding frame
route = refl

abbrev browser : Browser
browser = record { pathname = pods; search = []; hash = []; pushed = []; last_namespace = none }

-- A segment with no legal character at all is no namespace, which differs from a path that names none.
illegal : get_namespace base (codes "/k8s/ns/A/pods") ≡ null_match
unfolding frame
illegal = refl

resource :
    format_namespaced_route_for_resource (codes "pods") (codes "default")
    ≡ codes "/k8s/ns/default/pods"
unfolding frame
resource = refl

all_pods : get_namespace base (codes "/console/k8s/cluster/nodes") ≡ undefined
unfolding frame
all_pods = refl
