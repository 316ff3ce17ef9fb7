-- ===== src/Rbac/Bindings.antt =====
-- frontend/public/components/RBAC/bindings.jsx: the rows of the list of bindings, and the form that edits
-- one subject of a binding. A text that is missing is empty, which the code does not tell apart.
use web_ui.Base.{ℕ, zero, suc, Option, none, some, List, [], ◌∷◌, ◌++◌, null, if◌then◌else◌}
use web_ui.Base.Text.{Text, codes, starts_with}
use web_ui.Store.Lists.{get_qn}

pub record Subject : Type 0 where
  pub api_group : Text
  pub kind : Text
  pub name : Text
  pub namespace : Text

pub record Binding : Type 0 where
  pub name : Text
  pub namespace : Text
  pub role_name : Text
  pub subjects : List Subject

-- A binding with one of its subjects.
pub record BindingRow : Type 0 where
  pub binding : Binding
  pub subject : Subject
  pub subject_index : Option ℕ
  pub row_key : Option Text

abbrev pub no_subject : Subject
no_subject = record { api_group = []; kind = codes "-"; name = codes "-"; namespace = [] }

unfoldable pub row_key_of : Binding → Subject → Text
unfolding get_qn
row_key_of b s = get_qn b.namespace b.name ++ b'|' ∷ (s.kind ++ b'|' ∷ s.name)

-- The subjects from the index on: each pushes a row.
unfoldable pub push_subjects : Binding → ℕ → List Subject → List BindingRow → List BindingRow
unfolding row_key_of
push_subjects b i [] rows = rows
push_subjects b i (s ∷ ss) rows = push_subjects b (suc i) ss (
    rows
    ++ record { binding = b; subject = s; subject_index = some i; row_key = some (row_key_of b s) }
      ∷ [])

unfoldable pub push_binding : Option Binding → List BindingRow → List BindingRow
unfolding push_subjects
push_binding none rows = rows
push_binding (some b) rows =
    if null b.subjects
    then rows
      ++ record { binding = b; subject = no_subject; subject_index = none; row_key = none } ∷ []
    else push_subjects b zero b.subjects rows

unfoldable pub push_bindings : List (Option Binding) → List BindingRow → List BindingRow
unfolding push_binding
push_bindings [] rows = rows
push_bindings (b ∷ bs) rows = push_bindings bs (push_binding b rows)

-- The data of every resource; `flatMap` joins their rows.
unfoldable pub flatten : List (List (Option Binding)) → List BindingRow
unfolding push_bindings
flatten [] = []
flatten (data_of ∷ resources) = push_bindings data_of [] ++ flatten resources

unfoldable pub binding_kind : Binding → Text
binding_kind b = if null b.namespace then codes "ClusterRoleBinding" else codes "RoleBinding"

unfoldable pub binding_type : Option Binding → Option Text
binding_type none = none
binding_type (some b) =
    if starts_with b.role_name (codes "system:")
    then some (codes "system")
    else if null b.namespace
    then some (codes "cluster")
    else some (codes "namespace")
