-- ===== src/K8s/Workloads.antt =====
-- Jobs, nodes and containers: frontend/public/module/k8s/job.js, node.js and docker.js there.
use web_ui.Base.{
  ℕ, ◌≡◌, refl, ◌↔◌, Bool, true, false, ◌&&◌, ◌||◌, not, Option, none, some, List, [], ◌∷◌, ◌++◌,
  is_some, if◌then◌else◌, ltb, ◌==◌, arith, Bool-cases, inl, inr, null,
}
use web_ui.Base.Text.{Text, codes, same_text}
use web_ui.Lodash.{Lodash}

-- `spec.completions` and `spec.parallelism`
pub record JobSpec : Type 0 where
  pub completions : Option ℕ
  pub parallelism : Option ℕ

pub data JobType : Type 0 where
  non_parallel fixed_completion_count work_queue : JobType

-- A count, where a missing one and 0 are falsy.
abbrev pub is_set : Option ℕ → Bool
is_set none = false
is_set (some n) = ltb 0 n

abbrev pub is_one : Option ℕ → Bool
is_one none = false
is_one (some n) = n == 1

abbrev pub count_of : Option ℕ → ℕ
count_of none = 0
count_of (some n) = n

unfoldable pub get_job_type_and_completions : JobSpec → JobType × ℕ
get_job_type_and_completions s =
    if not (is_set s.completions) && not (is_set s.parallelism)
    then (non_parallel, 1)
    else if is_set s.completions && (not (is_set s.parallelism) || is_one s.parallelism)
    then (non_parallel, count_of s.completions)
    else if is_some s.parallelism && is_set s.completions
    then (fixed_completion_count, count_of s.completions)
    else (work_queue, 1)

-- A job has a fixed count exactly if it has completions and more than one run at a time, it is a work
-- queue exactly if it has no completions and runs at a time are given, and the completions are those
-- given, or 1 where there are none.
pub get_job_type_and_completions_iff :
    (s : JobSpec)
    → (((get_job_type_and_completions s).0 ≡ fixed_completion_count)
        ↔ ((is_set s.completions && ltb 1 (count_of s.parallelism)) ≡ true))
      × (((get_job_type_and_completions s).0 ≡ work_queue)
          ↔ ((not (is_set s.completions) && is_set s.parallelism) ≡ true))
      × ((get_job_type_and_completions s).1
          ≡ (if is_set s.completions then count_of s.completions else 1))
unfolding get_job_type_and_completions
get_job_type_and_completions_iff s = of_counts s.completions s.parallelism
  where
    job : Option ℕ → Option ℕ → JobSpec
    job c p = record { completions = c; parallelism = p }

    of_counts :
        (c p : Option ℕ)
        → (((get_job_type_and_completions (job c p)).0 ≡ fixed_completion_count)
            ↔ ((is_set c && ltb 1 (count_of p)) ≡ true))
          × (((get_job_type_and_completions (job c p)).0 ≡ work_queue)
              ↔ ((not (is_set c) && is_set p) ≡ true))
          × ((get_job_type_and_completions (job c p)).1 ≡ (if is_set c then count_of c else 1))
    of_counts none none = (ground arith, ground arith, ground arith)
    of_counts none (some q) = (ground arith, ground arith, ground arith)
    of_counts (some c) none = (ground arith, ground arith, ground arith)
    of_counts (some c) (some q) = (ground arith, ground arith, ground arith)

-- A condition of a node.
pub record Condition : Type 0 where
  pub type : Text
  pub status : Text

pub record NodeResource : Type 0 where
  pub unschedulable : Option Bool
  pub conditions : List Condition

pub data Op : Type 0 where
  add replace : Op

-- The only operation of the patch, on `/spec/unschedulable`.
pub record Patch : Type 0 where
  pub op : Op
  pub value : Bool

unfoldable pub make_node_unschedulable : NodeResource → Patch
make_node_unschedulable n = record {
  op = if is_some n.unschedulable then replace else add;
  value = true;
}

unfoldable pub make_node_schedulable : NodeResource → Patch
make_node_schedulable n = record {
  op = if is_some n.unschedulable then replace else add;
  value = false;
}

-- What a JSON patch does to a field, by its standard: a field that is missing cannot be replaced.
abbrev pub apply_patch : Op → Bool → Option Bool → Option Bool
apply_patch add v field = some v
apply_patch replace v none = none
apply_patch replace v (some b) = some v

-- Whether or not the field is there, both patches apply, and leave the value that they are named for.
pub make_node_applies :
    (n : NodeResource)
    → (apply_patch (make_node_unschedulable n).op (make_node_unschedulable n).value n.unschedulable
        ≡ some true)
      × (apply_patch (make_node_schedulable n).op (make_node_schedulable n).value n.unschedulable
          ≡ some false)
unfolding make_node_unschedulable make_node_schedulable
make_node_applies n = of_field n.unschedulable
  where
    of_field :
        (f : Option Bool)
        → (apply_patch (if is_some f then replace else add) true f ≡ some true)
          × (apply_patch (if is_some f then replace else add) false f ≡ some false)
    of_field none = (refl, refl)
    of_field (some b) = (refl, refl)

-- A container's status: its name, and the kinds of its state with their fields.
pub record ContainerStatus : Type 0 where
  pub name : Text
  pub state : List (Text × List (Text × Text))

pub record PodStatus : Type 0 where
  pub container_statuses : List ContainerStatus
  pub init_container_statuses : List ContainerStatus

abbrev pub or_status : Option ContainerStatus → Option ContainerStatus → Option ContainerStatus
or_status none t = t
or_status (some s) t = some s

abbrev pub is_true : Option Condition → Bool
is_true none = false
is_true (some c) = same_text c.status (codes "True")

-- The label that comes with the fields of the state replaces the kind, as `_.assign` does.
abbrev pub assigned_label : Text → List (Text × Text) → Text
assigned_label label [] = label
assigned_label label ((k, v) ∷ fields) =
    assigned_label (if same_text k (codes "label") then v else label) fields

unfoldable pub container_label : Option ContainerStatus → Text
container_label none = codes "Unknown"
container_label (some s) = of_state s.state
  where
    of_state : List (Text × List (Text × Text)) → Text
    of_state [] = codes "Unknown"
    of_state ((key, fields) ∷ others) = assigned_label key fields

abbrev pub pull_policies : List (Text × Text)
pull_policies =
    (codes "Always", codes "Always Pull")
    ∷ (codes "IfNotPresent", codes "Pull If Needed")
    ∷ (codes "Never", codes "Never Pull")
    ∷ []

abbrev pub label_or_empty : Option (Text × Text) → Text
label_or_empty none = []
label_or_empty (some (id, label)) = label

module _ (lodash : Lodash) where
  unfoldable pub is_node_ready : NodeResource → Bool
  is_node_ready n =
      if null n.conditions
      then false
      else is_true (lodash.find n.conditions (λ c. same_text c.type (codes "Ready")))

  unfoldable pub get_container_status : PodStatus → Text → Option ContainerStatus
  get_container_status pod name =
      or_status (lodash.find pod.container_statuses (λ s. same_text s.name name))
        (lodash.find pod.init_container_statuses (λ s. same_text s.name name))

  unfoldable pub get_pull_policy_label : Text → Text
  get_pull_policy_label policy =
      label_or_empty (lodash.find pull_policies (λ p. same_text p.0 policy))

  find-append :
      (p : ContainerStatus → Bool) (xs ys : List ContainerStatus)
      → or_status (lodash.find xs p) (lodash.find ys p) ≡ lodash.find (xs ++ ys) p
  find-append p [] ys = rw (lodash.find_nil p) refl
  find-append p (x ∷ xs) ys = elim (Bool-cases (p x)) [
    | inl e ↦ rw (lodash.find_cons x xs p) (rw (lodash.find_cons x (xs ++ ys) p) (rw e refl))
    | inr e ↦
        rw (lodash.find_cons x xs p)
          (rw (lodash.find_cons x (xs ++ ys) p) (rw e (find-append p xs ys)))
  ]

-- The status of a container is that of the first one of its name among the containers and then the
-- init containers.
pub get_container_status_lem :
    (lodash : Lodash) (pod : PodStatus) (name : Text)
    → get_container_status lodash pod name
      ≡ lodash.find
          (pod.container_statuses ++ pod.init_container_statuses)
          (λ s. same_text s.name name)
unfolding get_container_status
get_container_status_lem lodash pod name =
    find-append lodash (λ s. same_text s.name name) pod.container_statuses
      pod.init_container_statuses
