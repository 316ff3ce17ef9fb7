-- ===== src/Rbac/BindingForm.antt =====
-- frontend/public/components/RBAC/bindings.jsx: the form that creates a binding or edits one subject of it.
use web_ui.Base.{
  ℕ, zero, suc, Bool, true, ◌&&◌, ◌||◌, Option, none, some, List, [], ◌∷◌, null, if◌then◌else◌,
}
use web_ui.Base.Text.{Text, codes, same_text}
use web_ui.Rbac.Bindings.{Subject}

-- The binding of the form. A hole in its subjects is none.
pub record FormData : Type 0 where
  pub kind : Text
  pub name : Text
  pub namespace : Text
  pub role_kind : Text
  pub role_name : Text
  pub subjects : List (Option Subject)

pub record BindingForm : Type 0 where
  pub form_data : FormData
  pub in_progress : Bool
  pub error : Option Text

-- What one control of the form changes of the subject.
pub data SubjectPatch : Type 0 where
  with_kind with_name with_namespace : Text → SubjectPatch

abbrev pub rbac_group : Text
rbac_group = codes "rbac.authorization.k8s.io"

-- `_.get` at an index of an array: a hole is as nothing there.
unfoldable pub item_at {ℓ} : {A : Type ℓ} → ℕ → List (Option A) → Option A
item_at i [] = none
item_at zero (y ∷ ys) = y
item_at (suc i) (y ∷ ys) = item_at i ys

unfoldable pub get_subject : ℕ → FormData → Option Subject
unfolding item_at
get_subject i d = item_at i d.subjects

-- Writing at an index of an array, beyond whose end it leaves holes.
unfoldable pub write_at {ℓ} : {A : Type ℓ} → ℕ → A → List (Option A) → List (Option A)
write_at zero x [] = some x ∷ []
write_at zero x (y ∷ ys) = some x ∷ ys
write_at (suc i) x [] = none ∷ write_at i x []
write_at (suc i) x (y ∷ ys) = y ∷ write_at i x ys

abbrev pub subject_or_empty : Option Subject → Subject
subject_or_empty none = record { api_group = []; kind = []; name = []; namespace = [] }
subject_or_empty (some s) = s

abbrev pub assigned : SubjectPatch → Subject → Subject
assigned (with_kind v) s = record {
  api_group = s.api_group;
  kind = v;
  name = s.name;
  namespace = s.namespace;
}
assigned (with_name v) s = record {
  api_group = s.api_group;
  kind = s.kind;
  name = v;
  namespace = s.namespace;
}
assigned (with_namespace v) s = record {
  api_group = s.api_group;
  kind = s.kind;
  name = s.name;
  namespace = v;
}

-- Only a service account has a namespace, and every other subject the group of the roles.
unfoldable pub with_fields : Subject → Subject
with_fields s =
    if same_text s.kind (codes "ServiceAccount")
    then record { api_group = []; kind = s.kind; name = s.name; namespace = s.namespace }
    else record { api_group = rbac_group; kind = s.kind; name = s.name; namespace = [] }

unfoldable pub set_subject : ℕ → SubjectPatch → FormData → FormData
unfolding get_subject write_at with_fields
set_subject i patch d = record {
  kind = d.kind;
  name = d.name;
  namespace = d.namespace;
  role_kind = d.role_kind;
  role_name = d.role_name;
  subjects =
      write_at i (with_fields (assigned patch (subject_or_empty (get_subject i d)))) d.subjects;
}

-- A binding of the whole cluster loses its namespace.
unfoldable pub set_kind : Text → FormData → FormData
set_kind v d = record {
  kind = v;
  name = d.name;
  namespace = if same_text v (codes "ClusterRoleBinding") then [] else d.namespace;
  role_kind = d.role_kind;
  role_name = d.role_name;
  subjects = d.subjects;
}

-- What `save` asks the API for.
pub data BindingRequest : Type 0 where
  create_binding : FormData → BindingRequest
  replace_subject : ℕ → Subject → BindingRequest

pub data SaveResult : Type 0 where
  type_error : SaveResult
  saved : BindingForm → Option BindingRequest → SaveResult

-- The fields that must be filled before the subject is read.
unfoldable pub misses_field : FormData → Bool
misses_field d = null d.kind || (null d.name || (null d.role_kind || null d.role_name))

unfoldable pub misses_subject : Subject → FormData → Bool
misses_subject s d =
    null s.kind
    || (null s.name
        || (same_text d.kind (codes "RoleBinding") && null d.namespace
            || same_text s.kind (codes "ServiceAccount") && null s.namespace))

abbrev pub refused : BindingForm → SaveResult
refused f =
    saved
      (record {
        form_data = f.form_data;
        in_progress = f.in_progress;
        error = some (codes "Please complete all fields.");
      })
      none

unfoldable pub save_of : Bool → ℕ → BindingForm → Option Subject → SaveResult
unfolding misses_field misses_subject
save_of is_create i f none = if misses_field f.form_data then refused f else type_error
save_of is_create i f (some s) =
    if misses_field f.form_data || misses_subject s f.form_data
    then refused f
    else saved (record { form_data = f.form_data; in_progress = true; error = f.error })
        (some (if is_create then create_binding f.form_data else replace_subject i s))

unfoldable pub save : Bool → ℕ → BindingForm → SaveResult
unfolding save_of
save is_create i f = save_of is_create i f (get_subject i f.form_data)
