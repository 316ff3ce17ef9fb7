-- ===== src/Rbac/Selected.antt =====
-- What toggling a verb or a resource selects (frontend/public/components/RBAC/edit-rule.jsx).
use web_ui.Base.{
  ◌≡◌, refl, sym, ap, ◌∙◌, Bool, true, false, ◌&&◌, not, List, [], ◌∷◌, filter, if◌then◌else◌,
  arith,
}
use web_ui.Base.Text.{Text, same_text, same_text_iff}
use web_ui.Rbac.Rule.{
  has, delete, all_verbs, VerbControl, read_only, every_verb, custom_verbs, ResourceControl, safe,
  every_resource, non_resource, custom_resources, EditRule, verb_selected, is_verb_selected,
  resource_selected, is_resource_selected, toggled, verbs_to_toggle, toggle_verb,
  resources_to_toggle, toggle_resource,
}

has-delete :
    (v w : Text) (set : List Text) → has (delete v set) w ≡ (has set w && not (same_text w v))
has-delete v w [] = refl
has-delete v w (x ∷ set) =
    ground (arith, has-delete v w set, same_text_iff w v, same_text_iff x v, same_text_iff w x)

-- A test cannot tell equal texts apart.
same_test : (p : Text → Bool) (w x : Text) → same_text w x ≡ true → p x ≡ p w
same_test p w x e = ap p (sym ((same_text_iff w x).0 e))

pub has-filter :
    (p : Text → Bool) (w : Text) (set : List Text) → has (filter p set) w ≡ (has set w && p w)
has-filter p w [] = refl
has-filter p w (x ∷ set) = ground (arith, has-filter p w set, same_test p w x)

has-toggled :
    (v w : Text) (b : Bool) (set : List Text)
    → has (toggled v b set) w ≡ (if same_text w v then b else has set w)
has-toggled v w true set = ground arith
has-toggled v w false set = has-delete v w set ∙ ground arith

module _ (s : EditRule) (v w : Text) (b : Bool) where
  has-verbs_to_toggle :
      (c : VerbControl)
      → s.verb_control ≡ c
      → has all_verbs w ≡ true
      → has (verbs_to_toggle s c) w ≡ is_verb_selected s w
  unfolding verbs_to_toggle is_verb_selected verb_selected
  has-verbs_to_toggle custom_verbs e h = rw e refl
  has-verbs_to_toggle read_only e h =
      has-filter (is_verb_selected s) w all_verbs ∙ ap (λ d. d && is_verb_selected s w) h
  has-verbs_to_toggle every_verb e h =
      has-filter (is_verb_selected s) w all_verbs ∙ ap (λ d. d && is_verb_selected s w) h

  -- Toggling a verb selects or deselects it, and leaves every other verb of the editor as it was, whatever
  -- was chosen before.
  pub is_verb_selected-toggle_verb :
      has all_verbs w ≡ true
      → is_verb_selected (toggle_verb v b s) w ≡ (if same_text w v then b else is_verb_selected s w)
  unfolding toggle_verb is_verb_selected verb_selected
  is_verb_selected-toggle_verb h =
      has-toggled v w b (verbs_to_toggle s s.verb_control)
      ∙ ap (λ d. if same_text w v then b else d) (has-verbs_to_toggle s.verb_control refl h)

module _ (admin_resources all_resources : List Text) (s : EditRule) (v w : Text) (b : Bool) where
  has-resources_to_toggle :
      (c : ResourceControl)
      → s.resource_control ≡ c
      → has all_resources w ≡ true
      → has (resources_to_toggle admin_resources all_resources s c) w
        ≡ is_resource_selected admin_resources s w
  unfolding resources_to_toggle is_resource_selected resource_selected
  has-resources_to_toggle custom_resources e h = rw e refl
  has-resources_to_toggle safe e h =
      has-filter (is_resource_selected admin_resources s) w all_resources
      ∙ ap (λ d. d && is_resource_selected admin_resources s w) h
  has-resources_to_toggle non_resource e h =
      has-filter (is_resource_selected admin_resources s) w all_resources
      ∙ ap (λ d. d && is_resource_selected admin_resources s w) h
  has-resources_to_toggle every_resource e h =
      has-filter (is_resource_selected admin_resources s) w all_resources
      ∙ ap (λ d. d && is_resource_selected admin_resources s w) h

  -- The same of the resources of the cluster.
  pub is_resource_selected-toggle_resource :
      has all_resources w ≡ true
      → is_resource_selected admin_resources (toggle_resource admin_resources all_resources v b s) w
        ≡ (if same_text w v then b else is_resource_selected admin_resources s w)
  unfolding toggle_resource is_resource_selected resource_selected
  is_resource_selected-toggle_resource h =
      has-toggled v w b (resources_to_toggle admin_resources all_resources s s.resource_control)
      ∙ ap (λ d. if same_text w v then b else d) (has-resources_to_toggle s.resource_control refl h)
