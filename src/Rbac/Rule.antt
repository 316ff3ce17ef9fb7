-- ===== src/Rbac/Rule.antt =====
-- frontend/public/components/RBAC/edit-rule.jsx: the state of the editor of one rule of a role.
use web_ui.Base.{
  ℕ, zero, suc, Bool, true, false, not, Option, none, some, List, [], ◌∷◌, ◌++◌, any, filter, null,
  get_elem?, if◌then◌else◌,
}
use web_ui.Base.Text.{Text, codes, same_text, split, join}

-- Sets of texts, of which only the members are asked for.
abbrev pub has : List Text → Text → Bool
has set v = any (same_text v) set

abbrev pub delete : Text → List Text → List Text
delete v set = filter (λ w. not (same_text w v)) set

abbrev pub non_resource_verbs : List Text
non_resource_verbs = codes "get" ∷ codes "post" ∷ codes "put" ∷ codes "delete" ∷ []

abbrev pub read_verbs : List Text
read_verbs = codes "get" ∷ codes "list" ∷ codes "proxy" ∷ codes "redirect" ∷ codes "watch" ∷ []

abbrev pub all_verbs : List Text
all_verbs =
    read_verbs
    ++ (codes "create"
        ∷ codes "delete"
        ∷ codes "deletecollection"
        ∷ codes "patch"
        ∷ codes "post"
        ∷ codes "put"
        ∷ codes "update"
        ∷ [])

unfoldable pub api_verbs : List Text
api_verbs = filter (λ v. not (has non_resource_verbs v)) all_verbs

pub data VerbControl : Type 0 where
  read_only every_verb custom_verbs : VerbControl

pub data ResourceControl : Type 0 where
  safe every_resource non_resource custom_resources : ResourceControl

pub record Rule : Type 0 where
  pub verbs : List Text
  pub resources : Option (List Text)
  pub api_groups : Option (List Text)
  pub non_resource_urls : Option (List Text)

pub record EditRule : Type 0 where
  pub verb_control : VerbControl
  pub resource_control : ResourceControl
  pub verbs_set : List Text
  pub resource_set : List Text
  pub non_resource_urls : Text
  pub api_groups : Text

unfoldable pub new_rule : EditRule
new_rule = record {
  verb_control = read_only;
  resource_control = safe;
  verbs_set = [];
  resource_set = [];
  non_resource_urls = [];
  api_groups = codes "*";
}

abbrev pub star : Text
star = codes "*"

-- The loop over the verbs or resources of a rule, which a star does not end.
unfoldable pub load_names : Bool × List Text → List Text → Bool × List Text
load_names s [] = s
load_names s (v ∷ vs) = load_names (if same_text v star then (true, s.1) else (s.0, v ∷ s.1)) vs

abbrev pub or_none : Option (List Text) → List Text
or_none none = []
or_none (some vs) = vs

abbrev pub comma_space : Text
comma_space = codes ", "

abbrev pub joined_or_empty : Option (List Text) → Text
joined_or_empty none = []
joined_or_empty (some vs) = join comma_space vs

unfoldable pub load_rule : Rule → EditRule
load_rule r =
    let verbs = load_names (false, []) r.verbs in
    let resources = load_names (false, []) (or_none r.resources) in
    record {
      verb_control = if verbs.0 then every_verb else custom_verbs;
      resource_control = if resources.0 then every_resource else custom_resources;
      verbs_set = verbs.1;
      resource_set = resources.1;
      non_resource_urls = joined_or_empty r.non_resource_urls;
      api_groups = joined_or_empty r.api_groups;
    }

-- The rule of the number in the address; without one, or without such a rule, the state stays.
unfoldable pub get_resource : Option ℕ → List Rule → EditRule → EditRule
get_resource none rules s = s
get_resource (some n) rules s = at_place (get_elem? rules n)
  where
    at_place : Option Rule → EditRule
    at_place none = s
    at_place (some r) = load_rule r

unfoldable pub verb_selected : VerbControl → List Text → Text → Bool
verb_selected custom_verbs set v = has set v
verb_selected read_only set v = has read_verbs v
verb_selected every_verb set v = true

unfoldable pub is_verb_selected : EditRule → Text → Bool
is_verb_selected s v = verb_selected s.verb_control s.verbs_set v

module _ (admin_resources : List Text) where
  unfoldable pub resource_selected : ResourceControl → List Text → Text → Bool
  resource_selected custom_resources set r = has set r
  resource_selected safe set r = not (has admin_resources r)
  resource_selected non_resource set r = false
  resource_selected every_resource set r = true

  unfoldable pub is_resource_selected : EditRule → Text → Bool
  is_resource_selected s r = resource_selected s.resource_control s.resource_set r

abbrev pub toggled : Text → Bool → List Text → List Text
toggled v selected set = if selected then v ∷ set else delete v set

-- The set that the toggle starts from.
unfoldable pub verbs_to_toggle : EditRule → VerbControl → List Text
verbs_to_toggle s custom_verbs = s.verbs_set
verbs_to_toggle s c = filter (is_verb_selected s) all_verbs

unfoldable pub toggle_verb : Text → Bool → EditRule → EditRule
toggle_verb v selected s = record {
  verb_control = custom_verbs;
  resource_control = s.resource_control;
  verbs_set = toggled v selected (verbs_to_toggle s s.verb_control);
  resource_set = s.resource_set;
  non_resource_urls = s.non_resource_urls;
  api_groups = s.api_groups;
}

-- With the resources of the cluster, of which there are none before they are loaded.
module _ (admin_resources all_resources : List Text) where
  unfoldable pub resources_to_toggle : EditRule → ResourceControl → List Text
  resources_to_toggle s custom_resources = s.resource_set
  resources_to_toggle s c = filter (is_resource_selected admin_resources s) all_resources

  unfoldable pub toggle_resource : Text → Bool → EditRule → EditRule
  toggle_resource r selected s = record {
    verb_control = s.verb_control;
    resource_control = custom_resources;
    verbs_set = s.verbs_set;
    resource_set = toggled r selected (resources_to_toggle s s.resource_control);
    non_resource_urls = s.non_resource_urls;
    api_groups = s.api_groups;
  }

  abbrev pub saved_verbs : EditRule → VerbControl → List Text
  saved_verbs s every_verb = star ∷ []
  saved_verbs s c = filter (is_verb_selected s) all_verbs

  abbrev pub saved_resources : EditRule → ResourceControl → List Text
  saved_resources s every_resource = star ∷ []
  saved_resources s c = filter (is_resource_selected admin_resources s) all_resources

  -- The rule that is saved.
  unfoldable pub to_rule : EditRule → Rule
  to_rule s = record {
    verbs = saved_verbs s s.verb_control;
    resources = some (saved_resources s s.resource_control);
    api_groups = some (if null s.api_groups then [] ∷ [] else split b',' s.api_groups);
    non_resource_urls =
        some (if null s.non_resource_urls then [] else split b',' s.non_resource_urls);
  }

unfoldable pub set_non_resource_url : Text → EditRule → EditRule
set_non_resource_url urls s = record {
  verb_control = s.verb_control;
  resource_control = non_resource;
  verbs_set = s.verbs_set;
  resource_set = s.resource_set;
  non_resource_urls = urls;
  api_groups = s.api_groups;
}

unfoldable pub set_api_groups_text : Text → EditRule → EditRule
set_api_groups_text groups s = record {
  verb_control = s.verb_control;
  resource_control = s.resource_control;
  verbs_set = s.verbs_set;
  resource_set = s.resource_set;
  non_resource_urls = s.non_resource_urls;
  api_groups = groups;
}

-- `role.rules[this.props.rule] = rule`, or `push`. A place behind the end would leave holes, and is `none`.
unfoldable pub put_rule : Option ℕ → Rule → List Rule → Option (List Rule)
put_rule none r rules = some (rules ++ r ∷ [])
put_rule (some zero) r [] = some (r ∷ [])
put_rule (some zero) r (old ∷ rules) = some (r ∷ rules)
put_rule (some (suc n)) r [] = none
put_rule (some (suc n)) r (old ∷ rules) = kept (put_rule (some n) r rules)
  where
    kept : Option (List Rule) → Option (List Rule)
    kept none = none
    kept (some rest) = some (old ∷ rest)
