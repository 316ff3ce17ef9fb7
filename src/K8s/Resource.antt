-- ===== src/K8s/Resource.antt =====
-- frontend/public/module/k8s/resource.js: the addresses of resources, and the requests for them. The
-- base path of the interface and `encodeURIComponent` are parameters.
use web_ui.Base.{
  ℕ, Bool, true, ◌&&◌, Option, none, some, List, [], ◌∷◌, ◌++◌, map, if◌then◌else◌, leb, ◌+◌,
}
use web_ui.Http.Fetch.{Method, get, post, put, patch, delete}
use web_ui.Base.Text.{Text, codes, join, same_text}

pub record Model : Type 0 where
  pub api_group : Option Text
  pub api_version : Text
  pub path : Text

-- A text option, where the empty text is falsy like a missing one.
unfoldable pub present : Option Text → Option Text
present none = none
present (some []) = none
present (some (c ∷ s)) = some (c ∷ s)

-- `u += '/…'` if the option is there
unfoldable pub slashed : Option Text → Text
slashed none = []
slashed (some t) = 0x2f ∷ t

pub record UrlOptions : Type 0 where
  pub ns : Option Text
  pub name : Option Text
  pub subpath : Option Text
  pub query_params : List (Text × Text)

abbrev pub with_ns : Option Text → Text
with_ns none = []
with_ns (some ns) = codes "/namespaces" ++ 0x2f ∷ ns

unfoldable pub is_legacy : Model → Bool
is_legacy m = is_core m.api_group && same_text m.api_version (codes "v1")
  where
    is_core : Option Text → Bool
    is_core none = true
    is_core (some g) = same_text g (codes "core")

abbrev pub with_group : Option Text → Text
with_group none = []
with_group (some g) = g ++ 0x2f ∷ []

abbrev pub pair_text : Text × Text → Text
pair_text (k, v) = k ++ b'=' ∷ v

unfoldable pub query_text : List (Text × Text) → Text
query_text [] = []
query_text (p ∷ ps) = b'?' ∷ join (b'&' ∷ []) (map pair_text (p ∷ ps))

-- The fields of an object's metadata that requests read or write.
pub record Metadata : Type 0 where
  pub name : Option Text
  pub generate_name : Option Text
  pub namespace : Option Text

-- `toLowerCase`, on the ASCII names of resources
abbrev pub lower_char : ℕ → ℕ
lower_char c = if leb b'A' c && leb c b'Z' then c + 32 else c

unfoldable pub lowered : Metadata → Metadata
lowered m = record m { name = lower_unless (present m.generate_name) (present m.name) }
  where
    lower_unless : Option Text → Option Text → Option Text
    lower_unless none (some n) = some (map lower_char n)
    lower_unless _ _ = m.name

-- A request to the server.
pub record Request : Type 0 where
  pub method : Method
  pub url : Text

abbrev pub or_option : Option Text → Option Text → Option Text
or_option none t = t
or_option (some s) t = some s

abbrev pub located_at : Option Text → Option Text → UrlOptions
located_at ns name = record { ns = ns; name = name; subpath = none; query_params = [] }

-- What `k8sWatch` reads of its query; the selector is already printed.
pub record WatchQuery : Type 0 where
  pub label_selector : Option Text
  pub field_selector : Option Text
  pub ns : Option Text
  pub resource_version : Option Text

-- The options of the socket that `k8sWatch` fills in where the caller gives none.
pub record WsDefaults : Type 0 where
  pub reconnect : Bool
  pub json_parse : Bool
  pub buffer_flush_interval : ℕ
  pub buffer_max : ℕ

abbrev pub or_else {ℓ} : {A : Type ℓ} → Option A → A → A
or_else none d = d
or_else (some a) d = a

pub record WsGiven : Type 0 where
  pub reconnect : Option Bool
  pub json_parse : Option Bool
  pub buffer_flush_interval : Option ℕ
  pub buffer_max : Option ℕ

unfoldable pub ws_options : WsGiven → WsDefaults
ws_options g = record {
  reconnect = or_else g.reconnect true;
  json_parse = or_else g.json_parse true;
  buffer_flush_interval = or_else g.buffer_flush_interval 500;
  buffer_max = or_else g.buffer_max 1000;
}

-- `queryParams.k = v` if the value is there
abbrev pub param_if : Text → Option Text → List (Text × Text)
param_if k none = []
param_if k (some v) = (k, v) ∷ []

module _ (k8s_base_path : Text) where
  unfoldable pub get_k8s_api_path : Model → Text
  get_k8s_api_path m =
      let group = if is_legacy m then [] else with_group (present m.api_group) in
      let p = if is_legacy m then codes "/api/" else codes "/apis/" in
      k8s_base_path ++ (p ++ (group ++ m.api_version))

  unfoldable pub resource_url : Model → UrlOptions → Text
  resource_url m o =
      get_k8s_api_path m
      ++ (with_ns (present o.ns)
          ++ ((0x2f ∷ m.path)
              ++ (slashed (present o.name)
                  ++ (slashed (present o.subpath) ++ query_text o.query_params))))

  -- `watch` is set last, in place if the caller already gives it, which no caller does.
  unfoldable pub watch_url : Model → UrlOptions → Text
  watch_url m o =
      resource_url m
        (record o { query_params = o.query_params ++ (codes "watch", codes "true") ∷ [] })

  unfoldable pub k8s_get : Model → Option Text → Option Text → Request
  k8s_get m name ns = record { method = get; url = resource_url m (located_at ns name) }

  unfoldable pub k8s_create : Model → Metadata → Request × Metadata
  k8s_create m metadata =
      let sent = lowered metadata in
      (record { method = post; url = resource_url m (located_at sent.namespace none) }, sent)

  unfoldable pub k8s_update : Model → Metadata → Option Text → Option Text → Request
  k8s_update m metadata ns name = record {
    method = put;
    url = resource_url m (
        located_at (or_option (present ns) metadata.namespace)
          (or_option (present name) metadata.name));
  }

  unfoldable pub k8s_patch : Model → Metadata → Request
  k8s_patch m metadata = record {
    method = patch;
    url = resource_url m (located_at metadata.namespace metadata.name);
  }

  unfoldable pub k8s_kill : Model → Metadata → Request
  k8s_kill m metadata = record {
    method = delete;
    url = resource_url m (located_at metadata.namespace metadata.name);
  }

  module _ (encode_uri_component : Text → Text) where
    abbrev pub encoded : Option Text → Option Text
    encoded none = none
    encoded (some t) = some (encode_uri_component t)

    -- `params` without `ns`, with the label selector already printed
    unfoldable pub k8s_list : Model → Option Text → List (Text × Text) → Request
    k8s_list m ns params = record {
      method = get;
      url =
          resource_url m (located_at ns none)
          ++ b'?'
            ∷ join (b'&' ∷ [])
                (map (λ p. encode_uri_component p.0 ++ b'=' ∷ encode_uri_component p.1) params);
    }

    unfoldable pub watch_params : WatchQuery → List (Text × Text)
    watch_params q =
        (codes "watch", codes "true")
        ∷ (param_if (codes "labelSelector") (present (encoded q.label_selector))
            ++ (param_if (codes "fieldSelector") (encoded (present q.field_selector))
                ++ param_if (codes "resourceVersion") (encoded (present q.resource_version))))

    unfoldable pub k8s_watch : Model → WatchQuery → Text
    k8s_watch m q =
        resource_url m
          (record { ns = present q.ns; name = none; subpath = none; query_params = watch_params q })
