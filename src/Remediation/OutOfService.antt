-- ===== src/Remediation/OutOfService.antt =====
-- When a reconciliation puts the out-of-service taint on a node.
pub mod Calls
pub mod Reconciles
use fence_agents_remediation.Prelude.{String, ◌≡◌, Bool, true, List, ◌⊎◌, ◌==◌}
use fence_agents_remediation.Errors.{ok}
use fence_agents_remediation.Objects.{Node, Taint}
use fence_agents_remediation.Libraries.Meta.{MetaApi}
use fence_agents_remediation.Libraries.Marks.{MarkApi}
use fence_agents_remediation.Libraries.Frame.{Frame}
use fence_agents_remediation.Libraries.Client.{Client}
use fence_agents_remediation.Api.{FenceAgentsRemediation, out_of_service_taint_remediation_strategy}
use fence_agents_remediation.Utils.Taints.{taint_exists, create_out_of_service_taint}
use fence_agents_remediation.Remediation.Ready.{Ready}

-- An out-of-service taint among the taints; the time at which it was added does not matter.
abbrev pub is_out_of_service : ⦃mk : MarkApi⦄ → List Taint → Bool
is_out_of_service taints = taint_exists taints (create_out_of_service_taint 0)

-- `tainted` says that a node has had the out-of-service taint. Nobody else puts it on a node, and an
-- update of a node does so only with it.
pub record TaintHistory ⦃mk : MarkApi⦄ {W : Type 0} (c : Client W) : Type 1 where
  pub tainted : W → String → Type 0
  pub frame : Frame c (λ w w'. (n : String) → tainted w' n → tainted w n)
  pub stored :
      (x : FenceAgentsRemediation) (w : W) (n : String)
      → tainted (c.update_far_status x w).1 n
      → tainted w n
  pub drained : (x : String) (w : W) (n : String) → tainted (c.delete_pods x w).1 n → tainted w n
  pub named : (n : String) (w : W) (x : Node) → (c.get_node n w).0 ≡ ok x → x.name ≡ n
  pub read :
      (n : String) (w : W) (x : Node)
      → (c.get_node n w).0 ≡ ok x
      → is_out_of_service x.taints ≡ true
      → tainted (c.get_node n w).1 n
  pub updated :
      (x : Node) (w : W) (n : String)
      → tainted (c.update_node x w).1 n
      → tainted w n ⊎ ((x.name ≡ n) × (is_out_of_service x.taints ≡ true))

-- What holds of a resource when its node gets the out-of-service taint.
pub record MayTaint ⦃m : MetaApi⦄ ⦃mk : MarkApi⦄ (far : FenceAgentsRemediation) : Type 0 where
  pub ready : Ready far
  pub by_taint : far.spec.remediation_strategy == out_of_service_taint_remediation_strategy ≡ true
