-- ===== src/Selector/Labels.antt =====
-- Labels to requirements and back (frontend/public/module/k8s/selector.js, `toRequirements` and
-- `fromRequirements`).
use web_ui.Base.{
  ◌≡◌, refl, ◌∙◌, ap, sym, subst, true, false, Option, some, List, [], ◌∷◌, ◌++◌, map, All,
  append-nil, append_assoc, ==_refl,
}
use mathlib.Core.List.{map-append}
use web_ui.Base.Text.{Text, same_text}
use web_ui.Selector.Requirement.{Requirement, create_equals}
use web_ui.Selector.Selectors.{
  Labels, Selector, set_label, get_label, is_equals_operator, add_requirement, add_requirements,
  text_leb, insert_key, sort_keys, keys, label_requirements,
}

abbrev pub Ascending : List Text → Type 0
Ascending [] = Unit
Ascending (k ∷ []) = Unit
Ascending (k ∷ j ∷ ks) = (text_leb k j ≡ true) × Ascending (j ∷ ks)

abbrev pub Differs : Text → List Text → Type 0
Differs k ks = All (λ j. same_text k j ≡ false) ks

abbrev pub Distinct : List Text → Type 0
Distinct [] = Unit
Distinct (k ∷ ks) = Differs k ks × Distinct ks

pub same_text_refl : (s : Text) → same_text s s ≡ true
unfolding same_text
same_text_refl [] = refl
same_text_refl (c ∷ s) = rw (==_refl c) (same_text_refl s)

sort_keys_id : (ks : List Text) → Ascending ks → sort_keys ks ≡ ks
unfolding sort_keys insert_key
sort_keys_id [] h = refl
sort_keys_id (k ∷ []) h = refl
sort_keys_id (k ∷ j ∷ ks) (e, h) = rw (sort_keys_id (j ∷ ks) h, insert_key) (rw e)

-- The requirement of one entry.
abbrev pub entry_requirement : Text × Text → Requirement
entry_requirement e = create_equals e.0 e.1

get_label-skip :
    (k v : Text) (ls : Labels) (ks : List Text)
    → Differs k ks
    → map (λ j. create_equals j (get_label j ((k, v) ∷ ls))) ks
      ≡ map (λ j. create_equals j (get_label j ls)) ks
unfolding get_label
get_label-skip k v ls [] h = refl
get_label-skip k v ls (j ∷ ks) (e, h) =
    rw e (ap (create_equals j (get_label j ls) ∷◌) (get_label-skip k v ls ks h))

map-get_label :
    (ls : Labels)
    → Distinct (keys ls)
    → map (λ k. create_equals k (get_label k ls)) (keys ls) ≡ map entry_requirement ls
unfolding get_label
map-get_label [] h = refl
map-get_label ((k, v) ∷ ls) (d, h) =
    rw (same_text_refl k)
      (ap (create_equals k v ∷◌) (get_label-skip k v ls (keys ls) d ∙ map-get_label ls h))

pub label_requirements_lem :
    (ls : Labels)
    → Ascending (keys ls)
    → Distinct (keys ls)
    → label_requirements ls ≡ map entry_requirement ls
unfolding label_requirements
label_requirements_lem ls up d = rw (sort_keys_id (keys ls) up) (map-get_label ls d)

set_label-new :
    (k v : Text) (ls : Labels)
    → All (λ j. same_text j k ≡ false) (keys ls)
    → set_label k v ls ≡ ls ++ (k, v) ∷ []
unfolding set_label
set_label-new k v [] h = refl
set_label-new k v ((j, w) ∷ ls) (e, h) = rw e (ap ((j, w) ∷◌) (set_label-new k v ls h))

-- Every key before `k` differs from it.
Distinct-before :
    (ls : Labels) (k : Text) (ks : List Text)
    → Distinct (keys ls ++ k ∷ ks)
    → All (λ j. same_text j k ≡ false) (keys ls)
Distinct-before [] k ks h = tt
Distinct-before ((j, w) ∷ ls) k ks (d, h) = (last_differs (keys ls) d, Distinct-before ls k ks h)
  where
    last_differs : (js : List Text) → Differs j (js ++ k ∷ ks) → same_text j k ≡ false
    last_differs [] (e, _) = e
    last_differs (i ∷ js) (_, d') = last_differs js d'

abbrev selector : Labels → List Requirement → Selector
selector ls es = record { match_labels = ls; match_expressions = es }

abbrev pub all_some {ℓ} : {A : Type ℓ} → List A → List (Option A)
all_some xs = map (λ x. some x) xs

add_expression :
    (ls : Labels) (done : List Requirement) (r : Requirement)
    → is_equals_operator r.operator ≡ false
    → add_requirement (selector ls done) r ≡ selector ls (done ++ r ∷ [])
unfolding add_requirement
add_expression ls done r e = rw e

add_label :
    (done : Labels) (k v : Text)
    → All (λ j. same_text j k ≡ false) (keys done)
    → add_requirement (selector done []) (create_equals k v) ≡ selector (done ++ (k, v) ∷ []) []
unfolding add_requirement create_equals
add_label done k v h = ap (λ x. selector x []) (set_label-new k v done h)

add_expressions :
    (ls : Labels) (done es : List Requirement)
    → All (λ r. is_equals_operator r.operator ≡ false) es
    → add_requirements (selector ls done) (all_some es) ≡ some (selector ls (done ++ es))
unfolding add_requirements
add_expressions ls done [] h = rw append-nil
add_expressions ls done (r ∷ es) (e, h) =
    ap (λ s. add_requirements s (all_some es)) (add_expression ls done r e)
    ∙ add_expressions ls (done ++ r ∷ []) es h
    ∙ ap (λ x. some (selector ls x)) (append_assoc done (r ∷ []) es)

add_labels :
    (done ls : Labels) (es : List Requirement)
    → Distinct (keys (done ++ ls))
    → All (λ r. is_equals_operator r.operator ≡ false) es
    → add_requirements (selector done []) (all_some (map entry_requirement ls ++ es))
      ≡ some (selector (done ++ ls) es)
unfolding add_requirements
add_labels done [] es d h = rw append-nil (add_expressions done [] es h)
add_labels done ((k, v) ∷ ls) es d h =
    ap (λ s. add_requirements s (all_some (map entry_requirement ls ++ es)))
      (add_label done k v (
        Distinct-before done k (keys ls)
          (subst Distinct (map-append (λ e. e.0) done ((k, v) ∷ ls)) d)))
    ∙ add_labels (done ++ (k, v) ∷ []) ls es
        (subst (λ x. Distinct (keys x)) (sym (append_assoc done ((k, v) ∷ []) ls)) d) h
    ∙ ap (λ x. some (selector x es)) (append_assoc done ((k, v) ∷ []) ls)

pub add_requirements_lem :
    (ls : Labels) (es : List Requirement)
    → Distinct (keys ls)
    → All (λ r. is_equals_operator r.operator ≡ false) es
    → add_requirements (selector [] []) (all_some (map entry_requirement ls ++ es))
      ≡ some (selector ls es)
add_requirements_lem ls es d h = add_labels [] ls es d h
