-- ===== src/Remediation/Lifecycle.antt =====
-- internal/controller/fenceagentsremediation_controller.go: the status that a reconciliation sends at
-- its end, and the reason for it.
pub mod Parts
pub mod Reconciles
pub mod Finishes
use fence_agents_remediation.Prelude.{ℕ, ◌≡◌, true, false, ◌||◌, Option, none, some, ◌⊎◌, ◌==◌}
use fence_agents_remediation.Errors.{Result, ok}
use fence_agents_remediation.Objects.{Node}
use fence_agents_remediation.Libraries.Meta.{MetaApi}
use fence_agents_remediation.Libraries.Failures.{FailureApi}
use fence_agents_remediation.Libraries.Marks.{MarkApi}
use fence_agents_remediation.Libraries.Client.{Client}
use fence_agents_remediation.Api.{
  FenceAgentsRemediation, far_finalizer, resource_deletion_remediation_strategy,
  out_of_service_taint_remediation_strategy,
}
use fence_agents_remediation.Utils.Conditions.{
  remediation_started, remediation_interrupted_by_nhc, remediation_finished_node_not_found,
  remediation_finished_successfully, update_conditions,
}
use fence_agents_remediation.Utils.Taints.{append_taint, create_out_of_service_taint}
use fence_agents_remediation.Remediation.{is_timed_out_by_nhc, is_deleting}
use fence_agents_remediation.Remediation.Ready.{Ready}

module _ ⦃mk : MarkApi⦄ where
  abbrev pub with_finalizer : FenceAgentsRemediation → FenceAgentsRemediation
  with_finalizer far = record far {
    meta = record far.meta { finalizers = mk.add_finalizer far.meta.finalizers far_finalizer };
  }

  abbrev pub without_finalizer : FenceAgentsRemediation → FenceAgentsRemediation
  without_finalizer far = record far {
    meta = record far.meta { finalizers = mk.remove_finalizer far.meta.finalizers far_finalizer };
  }

module _ {W : Type 0} (c : Client W) ⦃m : MetaApi⦄ ⦃f : FailureApi⦄ ⦃mk : MarkApi⦄ where
  -- The workload of a node has been freed, without an error, by the strategy of the resource.
  abbrev pub Freed : FenceAgentsRemediation → Node → Type 0
  Freed far n =
      (((far.spec.remediation_strategy == resource_deletion_remediation_strategy
            || far.spec.remediation_strategy == "")
          ≡ true)
        × (w : W) × ((c.delete_pods n.name w).0 ≡ none))
      ⊎ ((far.spec.remediation_strategy == out_of_service_taint_remediation_strategy ≡ true)
          × (w : W) × (now : ℕ) × ((append_taint ⦃c = c⦄ n.name (create_out_of_service_taint now)
                w).0.1
              ≡ none))

  -- The resource whose status a reconciliation of `far`, whose node is `node`, sends at its end: with
  -- the status that was read; as the API server has returned it at the addition or removal of the
  -- finalizer; or with the conditions changed for one of four reasons.
  pub data Sent (far : FenceAgentsRemediation) (node : Result (Option Node))
      (after : FenceAgentsRemediation) : Type 0 where
    unchanged : after.status ≡ far.status → Sent far node after
    released :
        (w : W)
        → is_deleting far ≡ true
        → (c.update_far (without_finalizer far) w).0 ≡ ok after
        → Sent far node after
    begun :
        (stored : FenceAgentsRemediation) (w : W) (now : ℕ)
        → mk.contains_finalizer far.meta.finalizers far_finalizer ≡ false
        → (c.update_far (with_finalizer far) w).0 ≡ ok stored
        → (after ≡ stored) ⊎ (update_conditions now remediation_started stored ≡ some after)
        → Sent far node after
    missed :
        (now : ℕ)
        → node ≡ ok none
        → update_conditions now remediation_finished_node_not_found far ≡ some after
        → Sent far node after
    interrupted :
        (now : ℕ)
        → is_timed_out_by_nhc far ≡ true
        → update_conditions now remediation_interrupted_by_nhc far ≡ some after
        → Sent far node after
    finished :
        (n : Node) (now : ℕ)
        → node ≡ ok (some n)
        → Ready far
        → Freed far n
        → update_conditions now remediation_finished_successfully far ≡ some after
        → Sent far node after
