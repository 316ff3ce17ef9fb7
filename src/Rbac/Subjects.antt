-- ===== src/Rbac/Subjects.antt =====
-- frontend/public/components/RBAC/bindings.jsx: which rows a binding has, and what the form changes.
use web_ui.Base.{
  Bool, false, ◌≢◌, length-append, append_assoc, ◌+◌, ap₂, ℕ, zero, suc, true, ◌≡◌, ◌∙◌, refl, sym,
  ap, Option, none, some, List, [], ◌∷◌, ◌++◌, null, get_elem?, if◌then◌else◌, All, All-append,
  Bool-cases, inl, inr, arith, length,
}
use web_ui.Base.Text.{codes, same_text, Text}
use web_ui.Rbac.Bindings.{
  Subject, Binding, BindingRow, no_subject, row_key_of, push_subjects, push_binding, push_bindings,
  flatten,
}
use web_ui.Rbac.BindingForm.{
  item_at, FormData, SubjectPatch, get_subject, write_at, set_subject, with_fields, rbac_group,
  with_kind, with_name, with_namespace, assigned, subject_or_empty,
}

-- A row shows the subject at its index, or else its binding has none.
abbrev pub ShowsAt : Option ℕ → Option Text → Subject → Binding → Type 0
ShowsAt none key s b = null b.subjects ≡ true × s ≡ no_subject × key ≡ none
ShowsAt (some i) key s b = get_elem? b.subjects i ≡ some s × key ≡ some (row_key_of b s)

abbrev pub IsShown : BindingRow → Type 0
IsShown r = ShowsAt r.subject_index r.row_key r.subject r.binding

get_elem?-append :
    (done : List Subject) (s : Subject) (ss : List Subject)
    → get_elem? (done ++ s ∷ ss) (length done) ≡ some s
get_elem?-append [] s ss = refl
get_elem?-append (d ∷ done) s ss = get_elem?-append done s ss

snoc_assoc :
    (done : List Subject) (s : Subject) (ss : List Subject)
    → (done ++ s ∷ []) ++ ss ≡ done ++ s ∷ ss
snoc_assoc done s ss = append_assoc done (s ∷ []) ss

push_subjects-IsShown :
    (b : Binding) (i : ℕ) (done ss : List Subject) (rows : List BindingRow)
    → length done ≡ i
    → b.subjects ≡ done ++ ss
    → All IsShown rows
    → All IsShown (push_subjects b i ss rows)
unfolding push_subjects
push_subjects-IsShown b i done [] rows n e h = h
push_subjects-IsShown b i done (s ∷ ss) rows n e h =
    push_subjects-IsShown b (suc i) (done ++ s ∷ []) ss _
      (omega (arith, n, length-append done (s ∷ []))) (e ∙ sym (snoc_assoc done s ss))
      (All-append IsShown rows _ h (
        ((
          ap (get_elem? b.subjects) (sym n)
              ∙ ap (λ us. get_elem? us (length done)) e
              ∙ get_elem?-append done s ss,
          refl,
        )),
        tt,
      ))

push_binding-IsShown :
    (b : Option Binding) (rows : List BindingRow)
    → All IsShown rows
    → All IsShown (push_binding b rows)
unfolding push_binding
push_binding-IsShown none rows h = h
push_binding-IsShown (some b) rows h = elim (Bool-cases (null b.subjects)) [
  | inl e ↦ rw e (All-append IsShown rows _ h ((e, refl, refl), tt))
  | inr e ↦ rw e (push_subjects-IsShown b zero [] b.subjects rows refl refl h)
]

push_bindings-IsShown :
    (bs : List (Option Binding)) (rows : List BindingRow)
    → All IsShown rows
    → All IsShown (push_bindings bs rows)
unfolding push_bindings
push_bindings-IsShown [] rows h = h
push_bindings-IsShown (b ∷ bs) rows h =
    push_bindings-IsShown bs (push_binding b rows) (push_binding-IsShown b rows h)

flatten-IsShown : (resources : List (List (Option Binding))) → All IsShown (flatten resources)
unfolding flatten
flatten-IsShown [] = tt
flatten-IsShown (d ∷ resources) =
    All-append IsShown (push_bindings d []) (flatten resources) (push_bindings-IsShown d [] tt)
      (flatten-IsShown resources)

-- A binding has a row for each of its subjects, and one at least.
abbrev pub row_count : Option Binding → ℕ
row_count none = 0
row_count (some b) = if null b.subjects then 1 else length b.subjects

abbrev pub row_count_all : List (Option Binding) → ℕ
row_count_all [] = 0
row_count_all (b ∷ bs) = row_count b + row_count_all bs

abbrev pub row_total : List (List (Option Binding)) → ℕ
row_total [] = 0
row_total (d ∷ resources) = row_count_all d + row_total resources

length-push_subjects :
    (b : Binding) (i : ℕ) (ss : List Subject) (rows : List BindingRow)
    → length (push_subjects b i ss rows) ≡ length rows + length ss
unfolding push_subjects
length-push_subjects b i [] rows = omega arith
length-push_subjects b i (s ∷ ss) rows =
    length-push_subjects b (suc i) ss _
    ∙ ap (λ n. n + length ss) (length-append rows _)
    ∙ omega arith

length-push_binding :
    (b : Option Binding) (rows : List BindingRow)
    → length (push_binding b rows) ≡ length rows + row_count b
unfolding push_binding
length-push_binding none rows = omega arith
length-push_binding (some b) rows = elim (Bool-cases (null b.subjects)) [
  | inl e ↦ rw e (length-append rows _)
  | inr e ↦ rw e (length-push_subjects b zero b.subjects rows)
]

length-push_bindings :
    (bs : List (Option Binding)) (rows : List BindingRow)
    → length (push_bindings bs rows) ≡ length rows + row_count_all bs
unfolding push_bindings
length-push_bindings [] rows = omega arith
length-push_bindings (b ∷ bs) rows =
    length-push_bindings bs (push_binding b rows)
    ∙ ap (λ n. n + row_count_all bs) (length-push_binding b rows)
    ∙ omega arith

length-flatten :
    (resources : List (List (Option Binding))) → length (flatten resources) ≡ row_total resources
unfolding flatten
length-flatten [] = refl
length-flatten (d ∷ resources) =
    length-append (push_bindings d []) (flatten resources)
    ∙ ap₂ ◌+◌ (length-push_bindings d [] ∙ omega arith) (length-flatten resources)

-- Each row shows the subject of its binding at its index, with its own key, or dashes where the binding
-- has no subject; and there are as many rows as the bindings have subjects, where one without counts once.
pub flatten_lem :
    (resources : List (List (Option Binding)))
    → All IsShown (flatten resources) × length (flatten resources) ≡ row_total resources
flatten_lem resources = (flatten-IsShown resources, length-flatten resources)

item_at-write_at :
    {A : Type 0} (i : ℕ) (x : A) (ys : List (Option A)) → item_at i (write_at i x ys) ≡ some x
unfolding write_at item_at
item_at-write_at zero x [] = refl
item_at-write_at zero x (y ∷ ys) = refl
item_at-write_at (suc i) x [] = item_at-write_at i x []
item_at-write_at (suc i) x (y ∷ ys) = item_at-write_at i x ys

item_at-write_at_other :
    {A : Type 0} (i j : ℕ) (x : A) (ys : List (Option A))
    → i ≢ j
    → item_at j (write_at i x ys) ≡ item_at j ys
unfolding write_at item_at
item_at-write_at_other zero zero x ys h = absurd (h refl)
item_at-write_at_other zero (suc j) x [] h = refl
item_at-write_at_other zero (suc j) x (y ∷ ys) h = refl
item_at-write_at_other (suc i) zero x [] h = refl
item_at-write_at_other (suc i) zero x (y ∷ ys) h = refl
item_at-write_at_other (suc i) (suc j) x [] h = item_at-write_at_other i j x [] (λ e. h (ap suc e))
item_at-write_at_other (suc i) (suc j) x (y ∷ ys) h =
    item_at-write_at_other i j x ys (λ e. h (ap suc e))

-- What a control gives, field by field.
abbrev pub kind_after : SubjectPatch → Subject → Text
kind_after (with_kind v) s = v
kind_after _ s = s.kind

abbrev pub name_after : SubjectPatch → Subject → Text
name_after (with_name v) s = v
name_after _ s = s.name

abbrev pub namespace_after : SubjectPatch → Subject → Text
namespace_after (with_namespace v) s = v
namespace_after _ s = s.namespace

-- A service account has a namespace and no group, and every other subject the group and no namespace.
abbrev pub subject_after : SubjectPatch → Subject → Subject
subject_after p s =
    let account = same_text (kind_after p s) (codes "ServiceAccount") in
    record {
      api_group = if account then [] else codes "rbac.authorization.k8s.io";
      kind = kind_after p s;
      name = name_after p s;
      namespace = if account then namespace_after p s else [];
    }

with_fields_lem :
    (s : Subject) (b : Bool)
    → (if b
        then (let r : Subject = record {
          api_group = [];
          kind = s.kind;
          name = s.name;
          namespace = s.namespace;
        } in
            r)
        else (let r : Subject = record {
          api_group = rbac_group;
          kind = s.kind;
          name = s.name;
          namespace = [];
        } in
            r))
      ≡ record {
        api_group = if b then [] else rbac_group;
        kind = s.kind;
        name = s.name;
        namespace = if b then s.namespace else [];
      }
with_fields_lem s true = refl
with_fields_lem s false = refl

with_fields-assigned :
    (p : SubjectPatch) (s : Subject) → with_fields (assigned p s) ≡ subject_after p s
unfolding with_fields
with_fields-assigned (with_kind v) s =
    with_fields_lem (assigned (with_kind v) s) (same_text v (codes "ServiceAccount"))
with_fields-assigned (with_name v) s =
    with_fields_lem (assigned (with_name v) s) (same_text s.kind (codes "ServiceAccount"))
with_fields-assigned (with_namespace v) s =
    with_fields_lem (assigned (with_namespace v) s) (same_text s.kind (codes "ServiceAccount"))

-- A control of the form changes its field of the subject at the form's index, where a missing subject is
-- an empty one. If the kind is then ServiceAccount, the subject has its namespace and no group, and otherwise
-- the group of the roles and no namespace; its other fields and the subjects at other indices stay.
pub get_subject-set_subject :
    (i j : ℕ) (patch : SubjectPatch) (d : FormData)
    → i ≢ j
    → (get_subject i (set_subject i patch d)
        ≡ some (subject_after patch (subject_or_empty (get_subject i d))))
      × (get_subject j (set_subject i patch d) ≡ get_subject j d)
unfolding set_subject
get_subject-set_subject i j patch d h = (
  item_at-write_at i _ d.subjects
      ∙ ap some (with_fields-assigned patch (subject_or_empty (get_subject i d))),
  item_at-write_at_other i j _ d.subjects h,
)
