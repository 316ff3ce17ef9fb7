-- ===== src/Rbac/Tests.antt =====
-- Rules of roles, and the theorems at them.
use web_ui.Base.{
  ◌≡◌, ◌≢◌, Option, arith, ℕ, suc, subst, true, Bool, length, All, refl, false, none, some, List,
  [], ◌∷◌, if◌then◌else◌,
}
use web_ui.Base.Text.{Text, codes, same_text, split, split_from, join}
use web_ui.Rbac.Rule.{
  all_verbs, api_verbs, Rule, new_rule, or_none, load_names, load_rule, get_resource, verb_selected,
  is_verb_selected, resource_selected, is_resource_selected, verbs_to_toggle, toggle_verb,
  resources_to_toggle, toggle_resource, to_rule, set_non_resource_url, set_api_groups_text,
  put_rule,
}
use web_ui.Rbac.Bindings.{
  Subject, Binding, no_subject, flatten, binding_kind, binding_type, row_key_of,
}
use web_ui.Rbac.BindingForm.{
  FormData, BindingForm, with_kind, with_name, subject_or_empty, get_subject, set_subject, set_kind,
  save, type_error, refused, replace_subject,
}
use web_ui.Rbac.Requests.{IsSent, save-IsSent, request_of}
use web_ui.Rbac.Subjects.{subject_after, IsShown, row_total, flatten_lem, get_subject-set_subject}
use web_ui.Rbac.Selected.{is_verb_selected-toggle_verb}
use web_ui.Rbac.Saved.{kept, to_rule-load_rule}

rules : Unit {0}
unfolding api_verbs new_rule load_names load_rule get_resource verb_selected is_verb_selected
    resource_selected is_resource_selected verbs_to_toggle toggle_verb resources_to_toggle
    toggle_resource to_rule set_non_resource_url set_api_groups_text put_rule
rules = tt

abbrev known : List Text
known = codes "pods" ∷ codes "nodes" ∷ []

abbrev a_rule : Rule
a_rule = record {
  verbs = codes "get" ∷ codes "impersonate" ∷ [];
  resources = some (codes "nodes" ∷ codes "users" ∷ []);
  api_groups = some (codes "apps" ∷ codes "batch" ∷ []);
  non_resource_urls = none;
}

saved_again :
    ((to_rule [] known (load_rule a_rule)).verbs ≡ codes "get" ∷ [])
    × ((to_rule [] known (load_rule a_rule)).api_groups ≡ some (codes "apps" ∷ codes " batch" ∷ []))
    × ((to_rule (codes "nodes" ∷ []) known new_rule).resources ≡ some (codes "pods" ∷ []))
unfolding rules same_text split split_from join
saved_again = (refl, refl, refl)

put_again : put_rule (some 1) a_rule (a_rule ∷ []) ≡ some (a_rule ∷ a_rule ∷ [])
unfolding rules
put_again = refl

is_verb_selected-toggle_verb_example :
    is_verb_selected (toggle_verb (codes "get") false new_rule) (codes "list") ≡ (
      if same_text (codes "list") (codes "get")
      then false
      else is_verb_selected new_rule (codes "list"))
unfolding rules same_text
is_verb_selected-toggle_verb_example =
    is_verb_selected-toggle_verb new_rule (codes "get") (codes "list") false refl

to_rule-load_rule_example :
    ((to_rule [] known (load_rule a_rule)).verbs ≡ kept all_verbs a_rule.verbs)
    × ((to_rule [] known (load_rule a_rule)).resources
        ≡ some (kept known (or_none a_rule.resources)))
to_rule-load_rule_example = to_rule-load_rule [] known a_rule

bindings : Unit {0}
unfolding flatten row_key_of web_ui.Store.Lists.get_qn binding_kind binding_type
    web_ui.Base.Text.starts_with same_text get_subject set_subject set_kind save
bindings = tt

abbrev ann : Subject
ann = record {
  api_group = codes "rbac.authorization.k8s.io";
  kind = codes "User";
  name = codes "ann";
  namespace = [];
}

abbrev robot : Subject
robot = record {
  api_group = [];
  kind = codes "ServiceAccount";
  name = codes "robot";
  namespace = codes "web";
}

abbrev editors : Binding
editors = record {
  name = codes "editors";
  namespace = codes "web";
  role_name = codes "edit";
  subjects = ann ∷ robot ∷ [];
}

abbrev nobody : Binding
nobody = record {
  name = codes "nobody";
  namespace = [];
  role_name = codes "system:none";
  subjects = [];
}

abbrev cluster_data : List (List (Option Binding))
cluster_data = (some editors ∷ none ∷ []) ∷ (some nobody ∷ []) ∷ []

binding_rows :
    flatten cluster_data
    ≡ record {
      binding = editors;
      subject = ann;
      subject_index = some 0;
      row_key = some (codes "(web)-editors|User|ann");
    }
      ∷ record {
        binding = editors;
        subject = robot;
        subject_index = some 1;
        row_key = some (codes "(web)-editors|ServiceAccount|robot");
      }
      ∷ record { binding = nobody; subject = no_subject; subject_index = none; row_key = none }
      ∷ []
unfolding bindings
binding_rows = refl

binding_types :
    (binding_type (some editors) ≡ some (codes "namespace"))
    × (binding_type (some nobody) ≡ some (codes "system"))
    × (binding_kind nobody ≡ codes "ClusterRoleBinding")
unfolding bindings
binding_types = (refl, refl, refl)

flatten_lem_example :
    All IsShown (flatten cluster_data) × length (flatten cluster_data) ≡ row_total cluster_data
flatten_lem_example = flatten_lem cluster_data

abbrev form_of_editors : FormData
form_of_editors = record {
  kind = codes "RoleBinding";
  name = codes "editors";
  namespace = codes "web";
  role_kind = codes "Role";
  role_name = codes "edit";
  subjects = some ann ∷ some robot ∷ [];
}

-- Another kind of subject drops the namespace.
robot_as_user :
    get_subject 1 (set_subject 1 (with_kind (codes "User")) form_of_editors)
    ≡ some record {
      api_group = codes "rbac.authorization.k8s.io";
      kind = codes "User";
      name = codes "robot";
      namespace = [];
    }
unfolding bindings
robot_as_user = refl

cluster_wide : ((set_kind (codes "ClusterRoleBinding") form_of_editors).namespace) ≡ []
unfolding bindings
cluster_wide = refl

one≢zero : ◌≢◌ {A = ℕ} 1 0
one≢zero e = absurd (omega (arith, e))

get_subject-set_subject_example :
    (get_subject 1 (set_subject 1 (with_name (codes "bot")) form_of_editors)
      ≡ some (
          subject_after
            (with_name (codes "bot"))
            (subject_or_empty (get_subject 1 form_of_editors))))
    × (get_subject 0 (set_subject 1 (with_name (codes "bot")) form_of_editors)
        ≡ get_subject 0 form_of_editors)
get_subject-set_subject_example =
    get_subject-set_subject 1 0 (with_name (codes "bot")) form_of_editors one≢zero

abbrev binding_form : BindingForm
binding_form = record { form_data = form_of_editors; in_progress = false; error = none }

beyond_the_end : save false 5 binding_form ≡ type_error
unfolding bindings
beyond_the_end = refl

robot_sent : request_of (save false 1 binding_form) ≡ some (replace_subject 1 robot)
unfolding bindings
robot_sent = refl

save-IsSent_example :
    IsSent false 1 binding_form (get_subject 1 form_of_editors) (replace_subject 1 robot)
save-IsSent_example = save-IsSent false 1 binding_form (replace_subject 1 robot) robot_sent

abbrev unnamed_form : BindingForm
unnamed_form = record {
  form_data = record {
    kind = codes "RoleBinding";
    name = [];
    namespace = codes "web";
    role_kind = codes "Role";
    role_name = codes "edit";
    subjects = some ann ∷ [];
  };
  in_progress = false;
  error = none;
}

unnamed_refused : save true 0 unnamed_form ≡ refused unnamed_form
unfolding bindings
unnamed_refused = refl
