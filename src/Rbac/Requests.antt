-- ===== src/Rbac/Requests.antt =====
-- frontend/public/components/RBAC/bindings.jsx: what saving the form of a binding asks the API for.
use web_ui.Base.{
  ℕ, Bool, true, false, ◌&&◌, ◌||◌, ◌≡◌, ◌∙◌, refl, sym, ap, Option, none, some, null,
  if◌then◌else◌, Bool-cases, inl, inr,
}
use mathlib.Core.Bool.{true≢false}
use mathlib.Core.Option.{some-injective, none-ne-some}
use web_ui.Base.Text.{codes, same_text}
use web_ui.Rbac.Bindings.{Subject}
use web_ui.Rbac.BindingForm.{
  misses_field, misses_subject, SaveResult, type_error, saved, BindingRequest, create_binding,
  replace_subject, refused, save_of, save, FormData, BindingForm, get_subject,
}

-- All that the API needs is filled.
abbrev pub IsComplete : Subject → FormData → Type 0
IsComplete s d =
    null d.kind ≡ false
    × null d.name ≡ false
    × null d.role_kind ≡ false
    × null d.role_name ≡ false
    × null s.kind ≡ false
    × null s.name ≡ false
    × (same_text d.kind (codes "RoleBinding") && null d.namespace) ≡ false
    × (same_text s.kind (codes "ServiceAccount") && null s.namespace) ≡ false

neither : (a b : Bool) → (a || b) ≡ false → a ≡ false × b ≡ false
neither false b h = (refl, h)
neither true b h = absurd (true≢false h)

neither_all :
    (s : Subject) (d : FormData) → (misses_field d || misses_subject s d) ≡ false → IsComplete s d
unfolding misses_field misses_subject
neither_all s d h =
    let both = neither _ _ h in
    let kind = neither _ _ both.0 in
    let name = neither _ _ kind.1 in
    let role = neither _ _ name.1 in
    let subject_kind = neither _ _ both.1 in
    let subject_name = neither _ _ subject_kind.1 in
    let namespaces = neither _ _ subject_name.1 in
    (kind.0, name.0, role.0, role.1, subject_kind.0, subject_name.0, namespaces.0, namespaces.1)

abbrev pub request_of : SaveResult → Option BindingRequest
request_of type_error = none
request_of (saved f r) = r

-- What is sent: of a form with a complete subject, its data, or the subject alone.
abbrev pub IsSent : Bool → ℕ → BindingForm → Option Subject → BindingRequest → Type 0
IsSent is_create i f none r = ⊥
IsSent is_create i f (some s) r =
    IsComplete s f.form_data
    × r ≡ (if is_create then create_binding f.form_data else replace_subject i s)

save_of-IsSent :
    (is_create : Bool) (i : ℕ) (f : BindingForm) (o : Option Subject) (r : BindingRequest)
    → request_of (save_of is_create i f o) ≡ some r
    → IsSent is_create i f o r
unfolding save_of
save_of-IsSent is_create i f none r h = elim (Bool-cases (misses_field f.form_data)) [
  | inl e ↦
      absurd
        (none-ne-some r (sym (ap (λ b. request_of (if b then refused f else type_error)) e) ∙ h))
  | inr e ↦
      absurd
        (none-ne-some r (sym (ap (λ b. request_of (if b then refused f else type_error)) e) ∙ h))
]
save_of-IsSent is_create i f (some s) r h =
    elim (Bool-cases (misses_field f.form_data || misses_subject s f.form_data)) [
      | inl e ↦ absurd (none-ne-some r (sym (ap sent e) ∙ h))
      | inr e ↦ (neither_all s f.form_data e, sym (some-injective _ r (sym (ap sent e) ∙ h)))
    ]
  where
    sent : Bool → Option BindingRequest
    sent b = request_of (
        if b
        then refused f
        else saved (record { form_data = f.form_data; in_progress = true; error = f.error })
            (some (if is_create then create_binding f.form_data else replace_subject i s)))

-- If saving the form asks the API for anything, then the subject at the form's index is there, every
-- field that it, the binding and the role need is filled, and what is asked for is to create the binding
-- of the form or to replace that subject.
pub save-IsSent :
    (is_create : Bool) (i : ℕ) (f : BindingForm) (r : BindingRequest)
    → request_of (save is_create i f) ≡ some r
    → IsSent is_create i f (get_subject i f.form_data) r
unfolding save
save-IsSent is_create i f r h = save_of-IsSent is_create i f (get_subject i f.form_data) r h
