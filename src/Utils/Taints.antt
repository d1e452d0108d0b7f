-- ===== src/Utils/Taints.antt =====
-- pkg/utils/taints.go: the taints of a node.
pub mod Lists
pub mod Effects
pub mod Cluster
use fence_agents_remediation.Prelude.{
  ℕ, String, Bool, true, false, Option, none, some, List, [], ◌∷◌, ◌++◌, if◌then◌else◌,
}
use fence_agents_remediation.Errors.{Error, Result, ok, err}
use fence_agents_remediation.Objects.{Taint, Node, no_schedule, no_execute}
use fence_agents_remediation.Libraries.Failures.{FailureApi}
use fence_agents_remediation.Libraries.Marks.{MarkApi}
use fence_agents_remediation.Libraries.Client.{Client}
use fence_agents_remediation.Api.{far_no_schedule_taint_key}
use fence_agents_remediation.Utils.Nodes.{get_node_with_name}

module _ ⦃m : MarkApi⦄ where
  -- TaintExists
  unfoldable pub taint_exists : List Taint → Taint → Bool
  taint_exists [] t = false
  taint_exists (x ∷ xs) t = if m.match_taint x t then true else taint_exists xs t

  -- The loop of deleteTaint, over `newTaints` and `deleted`.
  pub delete_taint_from : List Taint → Bool → List Taint → Taint → List Taint × Bool
  delete_taint_from kept deleted [] t = (kept, deleted)
  delete_taint_from kept deleted (x ∷ xs) t =
      let hit = m.match_taint t x in
      delete_taint_from (if hit then kept else kept ++ x ∷ []) (if hit then true else deleted) xs t

  -- deleteTaint
  unfoldable pub delete_taint : List Taint → Taint → List Taint × Bool
  unfolding delete_taint_from
  delete_taint taints t = delete_taint_from [] false taints t

-- CreateRemediationTaint
unfoldable pub create_remediation_taint : Taint
create_remediation_taint = record {
  key = far_no_schedule_taint_key;
  value = "";
  effect = no_schedule;
  time_added = none;
}

-- CreateOutOfServiceTaint, at the time `now`.
unfoldable pub create_out_of_service_taint : ℕ → Taint
create_out_of_service_taint now = record {
  key = "node.kubernetes.io/out-of-service";
  value = "nodeshutdown";
  effect = no_execute;
  time_added = some now;
}

module _ {W : Type 0} ⦃f : FailureApi⦄ ⦃m : MarkApi⦄ ⦃c : Client W⦄ where
  -- AppendTaint from the point where the node has been read.
  unfoldable pub append_taint_to : Node → Taint → W → (Bool × Option Error) × W
  append_taint_to node taint w =
      if taint_exists node.taints taint
      then ((false, none), w)
      else (let (now, w1) = c.now w in
          let stamped = record taint { time_added = some now } in
          let (failure, w2) =
            c.update_node (record node { taints = node.taints ++ stamped ∷ [] }) w1 in
          elim failure [ none ↦ ((true, none), w2) | some e ↦ ((false, some e), w2) ])

  -- AppendTaint on what GetNodeWithName has returned.
  unfoldable pub append_taint_after : Taint → Result (Option Node) × W → (Bool × Option Error) × W
  append_taint_after taint (err e, w) = ((false, some e), w)
  append_taint_after taint (ok none, w) = ((false, none), w)
  append_taint_after taint (ok (some node), w) = append_taint_to node taint w

  -- AppendTaint: whether a taint was appended, and an error.
  unfoldable pub append_taint : String → Taint → W → (Bool × Option Error) × W
  unfolding append_taint_to append_taint_after
  append_taint name taint w = append_taint_after taint (get_node_with_name name w)

  -- RemoveTaint from the point where the node has been read.
  unfoldable pub remove_taint_from : Node → Taint → W → Option Error × W
  remove_taint_from node taint w =
      if taint_exists node.taints taint
      then (let (taints, deleted) = delete_taint node.taints taint in
          if deleted then c.update_node (record node { taints = taints }) w else (none, w))
      else (none, w)

  -- RemoveTaint on what GetNodeWithName has returned.
  unfoldable pub remove_taint_after : Taint → Result (Option Node) × W → Option Error × W
  remove_taint_after taint (err e, w) = (some e, w)
  remove_taint_after taint (ok none, w) = (none, w)
  remove_taint_after taint (ok (some node), w) = remove_taint_from node taint w

  -- RemoveTaint
  unfoldable pub remove_taint : String → Taint → W → Option Error × W
  unfolding remove_taint_from remove_taint_after
  remove_taint name taint w = remove_taint_after taint (get_node_with_name name w)
