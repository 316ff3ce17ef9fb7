-- ===== src/K8s/References.antt =====
-- frontend/public/module/k8s/k8s.ts: references of kinds, and versions of APIs.
use web_ui.Base.{
  ℕ, zero, suc, ◌≡◌, refl, ap, Bool, false, List, [], ◌∷◌, ◌++◌, length, null, ◌==◌, if◌then◌else◌,
}
use web_ui.Base.Text.{Text, codes, split, join, Without, split-join}

-- The parts of a model, of an object and of the reference to an owner that make up a reference.
pub record KindModel : Type 0 where
  pub api_group : Text
  pub api_version : Text
  pub kind : Text

pub record Referable : Type 0 where
  pub api_version : Text
  pub kind : Text

abbrev pub part_at : ℕ → List Text → Text
part_at n [] = []
part_at zero (t ∷ ts) = t
part_at (suc n) (t ∷ ts) = part_at n ts

unfoldable pub is_group_version_kind : Text → Bool
is_group_version_kind ref = length (split b':' ref) == 3

-- `groupVersionFor`: the group and the version.
abbrev pub group_and_version : List Text → Text → Text × Text
group_and_version parts v =
    if length parts == 2 then (part_at 0 parts, part_at 1 parts) else (codes "core", v)

unfoldable pub group_version_for : Text → Text × Text
group_version_for v = group_and_version (split b'/' v) v

abbrev pub reference : Text → Text → Text → Text
reference group version kind = group ++ b':' ∷ (version ++ b':' ∷ kind)

unfoldable pub reference_for : Referable → Text
reference_for o =
    if null o.kind
    then []
    else if null o.api_version
    then []
    else reference (group_version_for o.api_version).0 (group_version_for o.api_version).1 o.kind

unfoldable pub reference_for_crd : KindModel → Text
reference_for_crd c = reference c.api_group c.api_version c.kind

unfoldable pub reference_for_owner_ref : Referable → Text
reference_for_owner_ref o =
    reference (group_version_for o.api_version).0 (group_version_for o.api_version).1 o.kind

abbrev pub or_core : Text → Text
or_core group = if null group then codes "core" else group

unfoldable pub reference_for_model : KindModel → Text
reference_for_model m = reference (or_core m.api_group) m.api_version m.kind

unfoldable pub kind_for_reference : Text → Text
kind_for_reference ref = if is_group_version_kind ref then part_at 2 (split b':' ref) else ref

unfoldable pub version_for_reference : Text → Text
version_for_reference ref = part_at 1 (split b':' ref)

unfoldable pub api_version_for_model : KindModel → Text
api_version_for_model m =
    if null m.api_group then m.api_version else m.api_group ++ b'/' ∷ m.api_version

unfoldable pub api_version_for_reference : Text → Text
api_version_for_reference ref =
    if is_group_version_kind ref
    then part_at 0 (split b':' ref) ++ b'/' ∷ part_at 1 (split b':' ref)
    else ref

-- No part has the character that separates them.
pub record IsPlain (m : KindModel) : Type 0 where
  pub group_colon : Without b':' (or_core m.api_group)
  pub version_colon : Without b':' m.api_version
  pub kind_colon : Without b':' m.kind
  pub group_slash : Without b'/' (or_core m.api_group)
  pub version_slash : Without b'/' m.api_version

split-reference :
    (g v k : Text)
    → Without b':' g
    → Without b':' v
    → Without b':' k
    → split b':' (reference g v k) ≡ g ∷ v ∷ k ∷ []
unfolding join
split-reference g v k a b c = split-join b':' g (v ∷ k ∷ []) (a, (b, (c, tt)))

split-api_version :
    (g v : Text) → Without b'/' g → Without b'/' v → split b'/' (g ++ b'/' ∷ v) ≡ g ∷ v ∷ []
unfolding join
split-api_version g v a b = split-join b'/' g (v ∷ []) (a, (b, tt))

split-version : (v : Text) → Without b'/' v → split b'/' v ≡ v ∷ []
unfolding join
split-version v a = split-join b'/' v [] (a, tt)

group_version_for-api_version_for_model :
    (m : KindModel)
    → IsPlain m
    → group_version_for (api_version_for_model m) ≡ (or_core m.api_group, m.api_version)
unfolding group_version_for api_version_for_model
group_version_for-api_version_for_model m p = go m.api_group p.group_slash
  where
    go :
        (g : Text)
        → Without b'/' (or_core g)
        → group_and_version
            (split b'/' (if null g then m.api_version else g ++ b'/' ∷ m.api_version))
            (if null g then m.api_version else g ++ b'/' ∷ m.api_version)
          ≡ (or_core g, m.api_version)
    go [] a = rw (split-version m.api_version p.version_slash) refl
    go (c ∷ g) a = rw (split-api_version (c ∷ g) m.api_version a p.version_slash) refl

version_there : (g v : Text) → null v ≡ false → null (if null g then v else g ++ b'/' ∷ v) ≡ false
version_there [] v h = h
version_there (c ∷ g) v h = refl

-- The reference of a model is that of an object of its kind and version, and gives back the kind and the
-- version; the version of its API comes back with its group, for which the core group has its name.
pub reference_for_model_lem :
    (m : KindModel)
    → IsPlain m
    → null m.kind ≡ false
    → null m.api_version ≡ false
    → (reference_for record { api_version = api_version_for_model m; kind = m.kind }
        ≡ reference_for_model m)
      × (kind_for_reference (reference_for_model m) ≡ m.kind)
      × (version_for_reference (reference_for_model m) ≡ m.api_version)
      × (api_version_for_reference (reference_for_model m)
          ≡ or_core m.api_group ++ b'/' ∷ m.api_version)
unfolding reference_for reference_for_model api_version_for_model kind_for_reference
    version_for_reference api_version_for_reference is_group_version_kind
reference_for_model_lem m p k v =
    let parts : split b':' (reference (or_core m.api_group) m.api_version m.kind)
        ≡ or_core m.api_group ∷ m.api_version ∷ m.kind ∷ [] =
      split-reference (or_core m.api_group) m.api_version m.kind p.group_colon p.version_colon
        p.kind_colon in
    (
      rw k (
          rw (version_there m.api_group m.api_version v)
            (ap (λ gv. reference gv.0 gv.1 m.kind) (group_version_for-api_version_for_model m p))),
      rw parts refl,
      rw parts refl,
      rw parts refl,
    )
