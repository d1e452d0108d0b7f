-- ===== src/Remediation/Cleanup.antt =====
-- What the deletion of a resource leaves behind.
use fence_agents_remediation.Prelude.{
  ◌≡◌, refl, Bool, true, false, not, ◌&&◌, Option, none, some, inl, inr, ◌≢◌, ◌↔◌, ◌==◌, if-both,
  Bool-cases,
}
use fence_agents_remediation.Errors.{Error, Result, ok, err, panicked}
use fence_agents_remediation.Objects.{Node, status_true}
use fence_agents_remediation.Libraries.Meta.{MetaApi}
use fence_agents_remediation.Libraries.Failures.{FailureApi}
use fence_agents_remediation.Libraries.Marks.{MarkApi}
use fence_agents_remediation.Libraries.Client.{Client}
use fence_agents_remediation.Api.{FenceAgentsRemediation, out_of_service_taint_remediation_strategy}
use fence_agents_remediation.Utils.Conditions.{succeeded_type}
use fence_agents_remediation.Utils.Taints.{
  remove_taint, create_remediation_taint, create_out_of_service_taint,
}
use fence_agents_remediation.Cli.Routines.{remove_routine}
use fence_agents_remediation.Remediation.{State, Reply}
use fence_agents_remediation.Remediation.Deletion.{
  on_removed, finalizer_dropped, drop_finalizer, release_node, handle_far_deletion,
  reconcile_deletion, can_log_conditions,
}
use fence_agents_remediation.Remediation.Executers.{
  released, out_of_service_released, handle_far_deletion-executer,
}

module _ {W : Type 0} ⦃c : Client W⦄ where
  abbrev Returns : Reply W → Type 0
  Returns r = r.0 ≢ panicked

  on_removed-Returns :
      ⦃f : FailureApi⦄
      → (r : Option Error × W) (st : State W) (rest : State W → Reply W)
      → ((st' : State W) → Returns (rest st'))
      → Returns (on_removed r st rest)
  unfolding on_removed
  on_removed-Returns (none, w) st rest next = next (record st { world = w })
  on_removed-Returns ⦃f⦄ (some x, w) st rest next =
      if-both Returns (f.is_conflict x) (λ _ h. cc)
        (λ _.
          if-both Returns (not (f.is_not_found x)) (λ _ h. cc)
            (λ _. next (record st { world = w })))

  finalizer_dropped-Returns :
      (r : Result FenceAgentsRemediation × W) (st : State W) → Returns (finalizer_dropped r st)
  unfolding finalizer_dropped
  finalizer_dropped-Returns (err e, w) st h = cc
  finalizer_dropped-Returns (ok far, w) st h = cc

  module _ ⦃f : FailureApi⦄ ⦃mk : MarkApi⦄ where
    drop_finalizer-Returns : (st : State W) → Returns (drop_finalizer st)
    unfolding drop_finalizer
    drop_finalizer-Returns st = finalizer_dropped-Returns _ _

    release_node-Returns : (node : Node) (st : State W) → Returns (release_node node st)
    unfolding release_node
    release_node-Returns node st =
        on_removed-Returns (remove_taint node.name create_remediation_taint st.world) st
          (λ st. drop_finalizer (released node st))
          (λ st. drop_finalizer-Returns (released node st))

    handle_far_deletion-Returns :
        (node : Option Node) (st : State W) → Returns (handle_far_deletion node st)
    unfolding handle_far_deletion
    handle_far_deletion-Returns none st = drop_finalizer-Returns st
    handle_far_deletion-Returns (some node) st =
        if-both Returns
          (st.far.spec.remediation_strategy == out_of_service_taint_remediation_strategy)
          (λ _.
            on_removed-Returns
              (remove_taint node.name (create_out_of_service_taint (c.now st.world).0)
                (c.now st.world).1)
              st (λ st. release_node node (out_of_service_released node st))
              (λ st. release_node-Returns node (out_of_service_released node st)))
          (λ _. release_node-Returns node st)

    -- The deletion branch of Reconcile panics exactly if Succeeded is not True and one of the three
    -- conditions is missing. If so it does not stop the resource's fence agent and leaves the
    -- finalizer; if not it stops the agent.
    pub reconcile_deletion-panicked_iff :
        ⦃m : MetaApi⦄
        → (node : Option Node) (st : State W)
        → let unlogged : Bool =
            not (
              m.is_status_condition_present_and_equal st.far.status.conditions succeeded_type
                status_true)
            && not (can_log_conditions st.far) in
          let (reply, after) = reconcile_deletion node st in
          ((reply ≡ panicked) ↔ (unlogged ≡ true))
          × (unlogged ≡ true → after ≡ st)
          × (unlogged ≡ false → after.executer ≡ remove_routine st.executer st.far.meta.uid)
    unfolding reconcile_deletion
    reconcile_deletion-panicked_iff ⦃m⦄ node st =
        let st1 = record st { executer = remove_routine st.executer st.far.meta.uid } in
        let unlogged : Bool =
          not (
            m.is_status_condition_present_and_equal st.far.status.conditions succeeded_type
              status_true)
          && not (can_log_conditions st.far) in
        elim (Bool-cases unlogged) [
          | inl bad ↦ rw bad (((λ _. refl), (λ _. refl)), (λ _. refl), (λ h. absurd (cc h)))
          | inr good ↦ rw good (
            ((λ h. absurd (handle_far_deletion-Returns node st1 h)), (λ h. absurd (cc h))),
            (λ h. absurd (cc h)),
            (λ _. handle_far_deletion-executer node st1),
          )
        ]
