-- ===== src/K8s/Tests.antt =====
-- Requests and actions at concrete resources.
use web_ui.Base.{
  ◌↔◌, suc, Option, ◌≡◌, refl, arith, true, ◌==◌, none, some, [], ◌∷◌, ◌++◌, if◌then◌else◌,
}
use web_ui.Base.Text.{Text, codes, split, split_from, join, Without, same_text}
use web_ui.Base.Decimal.{show, show_from, value, value_from}
use web_ui.K8s.References.{
  KindModel, IsPlain, reference_for, reference_for_model, kind_for_reference, version_for_reference,
  api_version_for_model, api_version_for_reference, reference_for_model_lem,
}
use web_ui.K8s.Resource.{
  Model, present, slashed, is_legacy, query_text, get_k8s_api_path, resource_url, watch_url,
  located_at, WatchQuery, watch_params, k8s_watch, lowered, k8s_create,
}
use web_ui.Lodash.{plain_lodash}
use web_ui.K8s.Workloads.{JobSpec, NodeResource, is_node_ready, PodStatus}
use web_ui.K8s.Queries.{Query, K8sKind, make_redux_id, make_redux_id_iff}
use web_ui.K8s.Urls.{resource_url_injective}
use web_ui.K8s.Probe.{
  parse_cmd, flatten_cmd, http_get_command, Command, flatten_http_get, host_text, is_port,
  port_text, number, field_of, parse_http_get, parse_scheme, parse_authority, parse_host,
  split_scheme_from, port_or_default, map_lifecycle_config_to_fields,
}

requests : Unit {0}
unfolding split split_from join same_text present slashed is_legacy query_text get_k8s_api_path
    resource_url watch_url watch_params k8s_watch lowered k8s_create show show_from value value_from
    parse_cmd flatten_cmd flatten_http_get host_text is_port port_text parse_http_get parse_scheme
    parse_authority parse_host split_scheme_from port_or_default map_lifecycle_config_to_fields
    field_of is_node_ready
requests = tt

abbrev pods : Model
pods = record { api_group = none; api_version = codes "v1"; path = codes "pods" }

abbrev base : Text
base = codes "/api/kubernetes"

pod_url :
    resource_url base pods (located_at (some (codes "default")) (some (codes "web")))
    ≡ codes "/api/kubernetes/api/v1/namespaces/default/pods/web"
unfolding requests
pod_url = refl

resource_url_injective_example :
    (some (codes "a") ≡ some (codes "a")) × (some (codes "b") ≡ some (codes "b"))
resource_url_injective_example =
    resource_url_injective base pods (some (codes "a")) (some (codes "a")) (some (codes "b"))
      (some (codes "b")) ((refl, (refl, (refl, (refl, tt)))), refl) ((refl, tt), refl)
      ((refl, tt), refl) ((refl, tt), refl) ((refl, tt), refl) refl

-- An encoding that leaves no ampersand.
abbrev encode : Text → Text
encode [] = []
encode (c ∷ s) = (if c == b'&' then b'%' else c) ∷ encode s

encode-safe : (t : Text) → Without b'&' (encode t)
encode-safe [] = tt
encode-safe (c ∷ s) = (ground arith, encode-safe s)

abbrev query : WatchQuery
query = record {
  label_selector = some (codes "a=b");
  field_selector = none;
  ns = some (codes "default");
  resource_version = some (codes "7");
}

abbrev health : Text → Command
health path =
    http_get_command
      (record { host = some (codes "http://h"); path = some path; port = some (number 80) })

-- A hook's request that names no host is shown with the host `undefined`.
no_host :
    (map_lifecycle_config_to_fields (
      some (record {
        on_start = some (
            http_get_command
              (record { host = none; path = some (codes "/"); port = some (number 80) }));
        on_stop = none;
      }))).0.cmd
    ≡ codes "undefined:80/"
unfolding requests
no_host = refl

lower_name :
    (k8s_create base pods
      (record { name = some (codes "Web"); generate_name = none; namespace = none })).1.name
    ≡ some (codes "web")
unfolding requests
lower_name = refl

abbrev work : JobSpec
work = record { completions = some 3; parallelism = some 2 }

abbrev node : NodeResource
node = record {
  unschedulable = none;
  conditions = record { type = codes "Ready"; status = codes "True" } ∷ [];
}

ready : is_node_ready plain_lodash node ≡ true
unfolding requests
ready = refl

abbrev status : PodStatus
status = record {
  container_statuses = [];
  init_container_statuses = record { name = codes "a"; state = [] } ∷ [];
}

-- A printing of queries that is injective: each field ends in a zero, and its characters are raised.
raised : Text → Text → Text
raised [] rest = 0 ∷ rest
raised (c ∷ t) rest = suc c ∷ raised t rest

field : Option Text → Text → Text
field none rest = 0 ∷ rest
field (some t) rest = 1 ∷ raised t rest

raised_injective : (t u x y : Text) → raised t x ≡ raised u y → (t ≡ u) × (x ≡ y)
unfolding raised
raised_injective [] [] x y e = (refl, cc)
raised_injective [] (d ∷ u) x y e = cc
raised_injective (c ∷ t) [] x y e = cc
raised_injective (c ∷ t) (d ∷ u) x y e =
    let (s, z) = raised_injective t u x y (cc) in let h : c ≡ d = cc in (cc, z)

field_injective : (a b : Option Text) (x y : Text) → field a x ≡ field b y → (a ≡ b) × (x ≡ y)
unfolding field
field_injective none none x y e = (refl, cc)
field_injective none (some u) x y e = cc
field_injective (some t) none x y e = cc
field_injective (some t) (some u) x y e = let (s, z) = raised_injective t u x y cc in (cc, z)

printed : Query → Text
printed q = field q.label_selector (field q.ns (field q.name (field q.field_selector [])))

printed_injective : (p q : Query) → printed p ≡ printed q → p ≡ q
unfolding printed
printed_injective p q e =
    let (a, x) = field_injective p.label_selector q.label_selector _ _ e in
    let (b, y) = field_injective p.ns q.ns _ _ x in
    let (c, z) = field_injective p.name q.name _ _ y in
    let (d, w) = field_injective p.field_selector q.field_selector _ _ z in cc

abbrev pod_query : Query
pod_query = record {
  label_selector = none;
  ns = some (codes "default");
  name = none;
  field_selector = none;
}

abbrev nodes : K8sKind
nodes = record { plural = codes "nodes"; api_group = [] }

abbrev metrics : K8sKind
metrics = record { plural = codes "nodes"; api_group = codes "metrics.k8s.io" }

make_redux_id_iff_example :
    (make_redux_id printed nodes pod_query ≡ make_redux_id printed metrics pod_query)
    ↔ (codes "nodes" ≡ codes "nodes") × (pod_query ≡ pod_query)
make_redux_id_iff_example =
    make_redux_id_iff printed nodes metrics pod_query pod_query printed_injective
      (refl, (refl, (refl, (refl, (refl, tt))))) (refl, (refl, (refl, (refl, (refl, tt)))))

abbrev deployment : KindModel
deployment = record { api_group = codes "apps"; api_version = codes "v1"; kind = codes "Pod" }

deployment-IsPlain : IsPlain deployment
deployment-IsPlain = record {
  group_colon = (refl, (refl, (refl, (refl, tt))));
  version_colon = (refl, (refl, tt));
  kind_colon = (refl, (refl, (refl, tt)));
  group_slash = (refl, (refl, (refl, (refl, tt))));
  version_slash = (refl, (refl, tt));
}

reference_for_model_lem_example :
    (reference_for record { api_version = api_version_for_model deployment; kind = codes "Pod" }
      ≡ reference_for_model deployment)
    × (kind_for_reference (reference_for_model deployment) ≡ codes "Pod")
    × (version_for_reference (reference_for_model deployment) ≡ codes "v1")
    × (api_version_for_reference (reference_for_model deployment)
        ≡ codes "apps" ++ b'/' ∷ codes "v1")
reference_for_model_lem_example = reference_for_model_lem deployment deployment-IsPlain refl refl
