-- ===== src/Operators/Counting.antt =====
-- How nodes are counted (frontend/public/components/utils/container-linux-update-operator.js).
use web_ui.Base.{
  ℕ, ◌+◌, ◌*◌, ◌≡◌, refl, ◌∙◌, ◌↔◌, Bool, true, false, ◌&&◌, ◌||◌, not, some, List, [], ◌∷◌, ltb,
  length, All, all, arith, length-append,
}
use web_ui.Lodash.{Lodash}
use web_ui.Operators.ContainerLinux.{
  Node, is_downloading, is_verifying, is_finalizing, is_updated_need_reboot, is_update_available,
  is_rebooting, is_software_up_to_date, Lists, no_lists, push_if, add_node, upgrade_count,
  all_up_to_date, overall_state, get_node_list_update_status,
}

-- How many lists that are counted as upgrading a node is pushed to.
abbrev one : Bool → ℕ
one true = 1
one false = 0

pub weight : Node → ℕ
weight n =
    one (is_downloading n.status)
    + one (is_verifying n.status)
    + one (is_finalizing n.status)
    + one (not (is_software_up_to_date n) && (not (is_rebooting n) && is_update_available n.status))
    + one (not (is_finalizing n.status) && is_updated_need_reboot n.status)
    + one (not (is_software_up_to_date n) && is_rebooting n)

pub total : List Node → ℕ
total [] = 0
total (n ∷ ns) = weight n + total ns

length-push_if :
    (b : Bool) (n : Node) (ns : List Node) → length (push_if b n ns) ≡ length ns + one b
length-push_if true n ns = length-append ns (n ∷ [])
length-push_if false n ns = omega arith

upgrade_count-add_node :
    (l : Lists) (n : Node) → upgrade_count (add_node l n) ≡ upgrade_count l + weight n
unfolding upgrade_count add_node weight
upgrade_count-add_node l n = omega (arith, length-push_if)

module _ (lodash : Lodash) where
  each-add_node :
      (ns : List Node) (l : Lists)
      → upgrade_count (lodash.each ns add_node l) ≡ upgrade_count l + total ns
  unfolding total
  each-add_node [] l = rw (lodash.each_nil add_node l) (omega arith)
  each-add_node (n ∷ ns) l =
      rw (lodash.each_cons n ns add_node l)
        (omega (arith, each-add_node ns (add_node l n), upgrade_count-add_node l n))

  pub upgrade_count_lem :
      (ns : List Node) → upgrade_count (get_node_list_update_status lodash ns) ≡ total ns
  unfolding get_node_list_update_status
  upgrade_count_lem ns = each-add_node ns no_lists ∙ nothing (total ns)
    where
      nothing : (k : ℕ) → upgrade_count no_lists + k ≡ k
      nothing k = unfold upgrade_count in omega arith

-- A node that no list counted as upgrading holds.
abbrev pub settled : Node → Bool
settled n =
    not (is_downloading n.status)
    && not (is_verifying n.status)
    && not (is_finalizing n.status)
    && not (is_updated_need_reboot n.status)
    && (is_software_up_to_date n || not (is_rebooting n) && not (is_update_available n.status))

weight_lem : (n : Node) → (ltb 0 (weight n) ≡ false) ↔ (settled n ≡ true)
unfolding weight
weight_lem n = ground arith

total_lem : (ns : List Node) → (ltb 0 (total ns) ≡ false) ↔ (all settled ns ≡ true)
unfolding total
total_lem [] = ground arith
total_lem (n ∷ ns) = ground (arith, weight_lem n, total_lem ns)

-- All nodes together are shown as up to date exactly when each of them is settled: it is not
-- downloading, verifying, finalizing or waiting for a reboot after its update, and it is up to date or
-- neither reboots nor has an update available.
pub overall_state_iff :
    (lodash : Lodash) (ns : List Node)
    → (overall_state (get_node_list_update_status lodash ns) ≡ all_up_to_date)
      ↔ (all settled ns ≡ true)
unfolding overall_state
overall_state_iff lodash ns = rw (upgrade_count_lem lodash ns) (ground (arith, total_lem ns))

abbrev pub IsRebootingUpdated : Node → Type 0
IsRebootingUpdated n =
    (n.status ≡ some "UPDATE_STATUS_UPDATED_NEED_REBOOT") × (n.reboot_in_progress ≡ some "true")

weight-IsRebootingUpdated : (n : Node) → IsRebootingUpdated n → weight n ≡ 2
unfolding weight is_downloading is_verifying is_finalizing is_software_up_to_date is_rebooting
    is_updated_need_reboot is_update_available
weight-IsRebootingUpdated n (s, r) = rw s (rw r refl)

total_twice : (ns : List Node) → All IsRebootingUpdated ns → total ns ≡ 2 * length ns
unfolding total
total_twice [] h = refl
total_twice (n ∷ ns) (x, h) = omega (arith, weight-IsRebootingUpdated n x, total_twice ns h)

-- A node that reboots after its update is counted twice: if every node does, twice as many nodes are
-- counted as upgrading as there are.
pub upgrade_count_twice :
    (lodash : Lodash) (ns : List Node)
    → All IsRebootingUpdated ns
    → upgrade_count (get_node_list_update_status lodash ns) ≡ 2 * length ns
upgrade_count_twice lodash ns h = upgrade_count_lem lodash ns ∙ total_twice ns h
