-- ===== src/Pods/Grouping.antt =====
-- Which mounts a group has (frontend/public/module/k8s/pods.ts, `getVolumeMountsByPermissions`).
use web_ui.Base.{
  ℕ, suc, ◌≡◌, refl, sym, ap, subst, ◌∙◌, Bool, true, false, List, [], ◌∷◌, ◌++◌, append_assoc,
  append-nil, if◌then◌else◌, ◌==◌, ◌⊎◌, Bool-cases, inl, inr, arith,
}
use web_ui.Base.Text.{Text, same_text, same_text_iff}
use web_ui.Lodash.{Lodash}
use web_ui.Pods.Mounts.{
  VolumeMount, Container, Volume, PodSpec, Mount, MountGroup, mount_key, add_mount, mount_in,
  mount_step, container_mounts, grouped,
}

-- The mounts of the groups of a key, and how many groups there are of it.
abbrev pub mounts_at : Text → List (Text × MountGroup) → List Mount
mounts_at k [] = []
mounts_at k ((j, g) ∷ m) =
    let rest = mounts_at k m in if same_text k j then g.mounts ++ rest else rest

abbrev pub groups_at : Text → List (Text × MountGroup) → ℕ
groups_at k [] = 0
groups_at k ((j, g) ∷ m) = let rest = groups_at k m in if same_text k j then suc rest else rest

-- The specification: the mounts of a key, in the order of the containers and of their mounts.
abbrev pub container_mounts_of : Text → Container → List VolumeMount → List Mount
container_mounts_of k c [] = []
container_mounts_of k c (v ∷ vs) =
    let rest = container_mounts_of k c vs in
    if same_text k (mount_key v) then mount_in c v ∷ rest else rest

abbrev pub mounts_of : Text → List Container → List Mount
mounts_of k [] = []
mounts_of k (c ∷ cs) = container_mounts_of k c c.volume_mounts ++ mounts_of k cs

abbrev AtMostOne : List (Text × MountGroup) → Type 0
AtMostOne m = (k : Text) → (groups_at k m ≡ 0) ⊎ (groups_at k m ≡ 1)

mounts_at-none : (k : Text) (m : List (Text × MountGroup)) → groups_at k m ≡ 0 → mounts_at k m ≡ []
mounts_at-none k [] h = refl
mounts_at-none k ((j, g) ∷ m) h = ground (arith, h, mounts_at-none k m)

-- The key of an added mount has one group and its mounts with the new one behind, if it had at most one
-- group; nothing changes for another key.
groups_at-add_mount :
    (k j : Text) (mount : Mount) (fresh : MountGroup) (m : List (Text × MountGroup))
    → groups_at k (add_mount j mount fresh m)
      ≡ (if same_text k j then (if groups_at k m == 0 then 1 else groups_at k m) else groups_at k m)
unfolding add_mount
groups_at-add_mount k j mount fresh [] = ground arith
groups_at-add_mount k j mount fresh ((i, g) ∷ m) = ground (
  arith,
  groups_at-add_mount k j mount fresh m,
  same_text_iff k j,
  same_text_iff j i,
  same_text_iff k i,
)

same_both : (k j i : Text) → same_text k i ≡ true → same_text j i ≡ true → same_text k j ≡ true
same_both k j i a b =
    (same_text_iff k j).1 ((same_text_iff k i).0 a ∙ sym ((same_text_iff j i).0 b))

other_left : (k j i : Text) → same_text k i ≡ false → same_text j i ≡ true → same_text k j ≡ false
other_left k j i a b = ground (arith, a, b, same_text_iff k j, same_text_iff j i, same_text_iff k i)

other_right : (k j i : Text) → same_text k i ≡ true → same_text j i ≡ false → same_text k j ≡ false
other_right k j i a b =
    ground (arith, a, b, same_text_iff k j, same_text_iff j i, same_text_iff k i)

alone :
    (k i : Text) (g : MountGroup) (m : List (Text × MountGroup))
    → same_text k i ≡ true
    → (groups_at k ((i, g) ∷ m) ≡ 0) ⊎ (groups_at k ((i, g) ∷ m) ≡ 1)
    → groups_at k m ≡ 0
alone k i g m e one = ground (arith, e, one)

apart :
    (k i : Text) (g : MountGroup) (m : List (Text × MountGroup))
    → same_text k i ≡ false
    → (groups_at k ((i, g) ∷ m) ≡ 0) ⊎ (groups_at k ((i, g) ∷ m) ≡ 1)
    → (groups_at k m ≡ 0) ⊎ (groups_at k m ≡ 1)
apart k i g m e one =
    subst
      (λ b.
        ((if b then suc (groups_at k m) else groups_at k m) ≡ 0)
        ⊎ ((if b then suc (groups_at k m) else groups_at k m) ≡ 1))
      e one

mounts_at-add_mount :
    (k j : Text) (mount : Mount) (fresh : MountGroup) (m : List (Text × MountGroup))
    → fresh.mounts ≡ mount ∷ []
    → (groups_at k m ≡ 0) ⊎ (groups_at k m ≡ 1)
    → mounts_at k (add_mount j mount fresh m)
      ≡ (if same_text k j then mounts_at k m ++ mount ∷ [] else mounts_at k m)
unfolding add_mount
mounts_at-add_mount k j mount fresh [] f one = elim (Bool-cases (same_text k j)) [
  | inl same ↦ rw same (append-nil fresh.mounts ∙ f)
  | inr other ↦ rw other refl
]
mounts_at-add_mount k j mount fresh ((i, g) ∷ m) f one = elim (Bool-cases (same_text j i)) [
  | inl here ↦ rw here (elim (Bool-cases (same_text k i)) [
    | inl found ↦ rw found (
        rw (same_both k j i found here) (
          rw (mounts_at-none k m (alone k i g m found one)) (
            append-nil (g.mounts ++ mount ∷ [])
            ∙ ap (λ ms. ms ++ mount ∷ []) (sym (append-nil g.mounts)))))
    | inr not_found ↦ rw not_found (rw (other_left k j i not_found here) refl)
  ])
  | inr there ↦ rw there (elim (Bool-cases (same_text k i)) [
    | inl found ↦ rw found (
        rw (other_right k j i found there) (
          ap (g.mounts ++◌) (
            mounts_at-add_mount k j mount fresh m f (inl (alone k i g m found one))
            ∙ rw (other_right k j i found there) refl)))
    | inr not_found ↦
        rw not_found (mounts_at-add_mount k j mount fresh m f (apart k i g m not_found one))
  ])
]

-- Both at once, for a map that has at most one group of each key.
record Holds (k : Text) (ms : List Mount) (m : List (Text × MountGroup)) : Type 0 where
  held : mounts_at k m ≡ ms
  single : (groups_at k m ≡ 0) ⊎ (groups_at k m ≡ 1)

add_mount-Holds :
    (k : Text) (volumes : List Volume) (lodash : Lodash) (c : Container) (v : VolumeMount)
    (ms : List Mount) (m : List (Text × MountGroup))
    → Holds k ms m
    → Holds k
        (if same_text k (mount_key v) then ms ++ mount_in c v ∷ [] else ms)
        (mount_step lodash volumes c m v)
unfolding mount_step
add_mount-Holds k volumes lodash c v ms m h = record {
  held =
      mounts_at-add_mount k (mount_key v) (mount_in c v) _ m refl h.single
      ∙ ap (λ xs. if same_text k (mount_key v) then xs ++ mount_in c v ∷ [] else xs) h.held;
  single =
      subst (λ n. (n ≡ 0) ⊎ (n ≡ 1)) (sym (groups_at-add_mount k (mount_key v) (mount_in c v) _ m))
        (one_group (same_text k (mount_key v)) (groups_at k m) h.single);
}
  where
    one_group :
        (b : Bool) (n : ℕ)
        → (n ≡ 0) ⊎ (n ≡ 1)
        → ((if b then (if n == 0 then 1 else n) else n) ≡ 0)
          ⊎ ((if b then (if n == 0 then 1 else n) else n) ≡ 1)
    one_group true n (inl e) = inr (rw e refl)
    one_group true n (inr e) = inr (rw e refl)
    one_group false n o = o

module _ (lodash : Lodash) (k : Text) (volumes : List Volume) where
  each-mount_step :
      (c : Container) (vs : List VolumeMount) (ms : List Mount) (m : List (Text × MountGroup))
      → Holds k ms m
      → Holds k (ms ++ container_mounts_of k c vs) (lodash.each vs (mount_step lodash volumes c) m)
  each-mount_step c [] ms m h =
      rw (lodash.each_nil (mount_step lodash volumes c) m) (rw (append-nil ms) h)
  each-mount_step c (v ∷ vs) ms m h = rw (lodash.each_cons v vs (mount_step lodash volumes c) m) (
      subst
        (λ xs.
          Holds k xs
            (lodash.each vs (mount_step lodash volumes c) (mount_step lodash volumes c m v)))
        (moved (same_text k (mount_key v)) (container_mounts_of k c vs))
        (each-mount_step c vs _ _ (add_mount-Holds k volumes lodash c v ms m h)))
    where
      moved :
          (b : Bool) (rest : List Mount)
          → (if b then ms ++ mount_in c v ∷ [] else ms) ++ rest
            ≡ ms ++ (if b then mount_in c v ∷ rest else rest)
      moved true rest = append_assoc ms (mount_in c v ∷ []) rest
      moved false rest = refl

  each-container_mounts :
      (cs : List Container) (ms : List Mount) (m : List (Text × MountGroup))
      → Holds k ms m
      → Holds k (ms ++ mounts_of k cs) (lodash.each cs (container_mounts lodash volumes) m)
  unfolding container_mounts
  each-container_mounts [] ms m h =
      rw (lodash.each_nil (container_mounts lodash volumes) m) (rw (append-nil ms) h)
  each-container_mounts (c ∷ cs) ms m h =
      rw (lodash.each_cons c cs (container_mounts lodash volumes) m) (
        subst
          (λ xs. Holds k xs (
            lodash.each cs (container_mounts lodash volumes) (container_mounts lodash volumes m c)))
          (append_assoc ms (container_mounts_of k c c.volume_mounts) (mounts_of k cs))
          (each-container_mounts cs _ _ (each-mount_step c c.volume_mounts ms m h)))

-- Each name and permission has at most one group, whose mounts are all those of that name and permission,
-- in the order of the containers and of their mounts.
pub mounts_at-grouped :
    (lodash : Lodash) (k : Text) (s : PodSpec)
    → (mounts_at k (grouped lodash s) ≡ mounts_of k s.containers)
      × ((groups_at k (grouped lodash s) ≡ 0) ⊎ (groups_at k (grouped lodash s) ≡ 1))
unfolding grouped
mounts_at-grouped lodash k s =
    let h : Holds k (mounts_of k s.containers)
        (lodash.each s.containers (container_mounts lodash s.volumes) []) =
      each-container_mounts lodash k s.volumes s.containers [] []
        record { held = refl; single = inl refl } in
    (h.held, h.single)
