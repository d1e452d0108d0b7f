-- ===== src/Remediation/Lifecycle/Finishes.antt =====
-- internal/controller/fenceagentsremediation_controller.go: a reconciliation that finishes the
-- remediation.
use fence_agents_remediation.Prelude.{
  ℕ, String, ◌≡◌, refl, ◌∙◌, ap, Bool, true, false, not, ◌&&◌, ◌||◌, Option, none, some, ◌==◌,
  subst, arith,
}
use fence_agents_remediation.Errors.{Error, ok, returned}
use fence_agents_remediation.Objects.{Node, ObjectMeta}
use fence_agents_remediation.Libraries.Meta.{MetaApi}
use fence_agents_remediation.Libraries.Failures.{FailureApi}
use fence_agents_remediation.Libraries.Marks.{MarkApi}
use fence_agents_remediation.Libraries.Client.{Client, normal}
use fence_agents_remediation.Libraries.Template.{TemplateEngine}
use fence_agents_remediation.Libraries.Wait.{WaitApi}
use fence_agents_remediation.Api.{
  FenceAgentsRemediation, resource_deletion_remediation_strategy,
  out_of_service_taint_remediation_strategy,
}
use fence_agents_remediation.Api.Params.{get_node_name}
use fence_agents_remediation.Utils.Conditions.{
  remediation_finished_successfully, update_conditions, requested, processing_type, succeeded_type,
  fence_agent_action_succeeded_type,
}
use fence_agents_remediation.Utils.Nodes.{get_node_with_name}
use fence_agents_remediation.Utils.Taints.{
  append_taint, create_remediation_taint, create_out_of_service_taint,
}
use fence_agents_remediation.Cli.Routines.{Executer, remove_routine}
use fence_agents_remediation.Remediation.{
  State, Reply, emit, empty_result, with_updated, with_conditions, update_status, deferred_update,
}
use fence_agents_remediation.Remediation.Phases.{
  is_true, complete, pods_deleted, out_of_service, finish, proceed, tainted, remediate, with_node,
  reconcile_body, reconcile_read, reconcile,
}
use fence_agents_remediation.Utils.Conditions.Progress.{Progress, status_in}
use fence_agents_remediation.Utils.Conditions.Refinement.{IsStamped, update_conditions-Updated}
use fence_agents_remediation.Utils.Conditions.Fenced.{is_yes, has_status-is_yes}
use fence_agents_remediation.Remediation.Ready.{Ready}

module _ ⦃m : MetaApi⦄ where
  is_true-status :
      (far : FenceAgentsRemediation) (kind : String)
      → is_true far kind ≡ is_yes (status_in far.status.conditions kind)
  is_true-status far kind =
      m.is_true_lem far.status.conditions kind
      ∙ has_status-is_yes (m.find_status_condition far.status.conditions kind)

  -- What UpdateConditions makes of a resource whose remediation is finished.
  finished_conditions :
      (now : ℕ) (far after : FenceAgentsRemediation)
      → IsStamped far
      → update_conditions now remediation_finished_successfully far ≡ some after
      → (is_true after succeeded_type ≡ true)
        × (is_true after processing_type ≡ false)
        × (after.meta ≡ far.meta)
  unfolding requested
  finished_conditions now far after stamped changed =
      let (x, same, u) =
        update_conditions-Updated now remediation_finished_successfully far stamped in
      let is_after : x ≡ after = cc in
      subst
        (λ (y : FenceAgentsRemediation).
          (is_true y succeeded_type ≡ true)
          × (is_true y processing_type ≡ false)
          × (y.meta ≡ far.meta))
        is_after
        (
          is_true-status x succeeded_type ∙ ap (λ (p : Progress). is_yes p.succeeded) u.advanced,
          is_true-status x processing_type ∙ ap (λ (p : Progress). is_yes p.processing) u.advanced,
          u.meta_kept,
        )

  -- The conditions can be changed to those of a finished remediation.
  IsStamped-change :
      (now : ℕ) (far : FenceAgentsRemediation)
      → IsStamped far
      → (after : FenceAgentsRemediation) × (update_conditions now remediation_finished_successfully
            far
          ≡ some after)
  IsStamped-change now far stamped =
      let (x, same, _) =
        update_conditions-Updated now remediation_finished_successfully far stamped in
      (x, same)

module _ {W : Type 0} (c : Client W) ⦃m : MetaApi⦄ ⦃f : FailureApi⦄ ⦃mk : MarkApi⦄
    (far : FenceAgentsRemediation) where
  abbrev state : W → Executer → State W
  state w e = record { world = w; executer = e; far = far }

  -- The calls that free the workload of a node by the strategy of the resource give no error.
  pub data CanFree (n : Node) : Type 0 where
    by_deletion :
        (far.spec.remediation_strategy == resource_deletion_remediation_strategy
            || far.spec.remediation_strategy == "")
          ≡ true
        → ((w : W) → (c.delete_pods n.name w).0 ≡ none)
        → CanFree n
    by_taint :
        (far.spec.remediation_strategy == resource_deletion_remediation_strategy
            || far.spec.remediation_strategy == "")
          ≡ false
        → far.spec.remediation_strategy == out_of_service_taint_remediation_strategy ≡ true
        → ((now : ℕ) (w : W)
            → (append_taint ⦃c = c⦄ n.name (create_out_of_service_taint now) w).0.1 ≡ none)
        → CanFree n

  -- The conditions say that the remediation is finished, its agent is out of the executer's table, and
  -- there is no error.
  abbrev pub Finished : Executer → Reply W → Type 0
  Finished e r =
      (now : ℕ) × (update_conditions now remediation_finished_successfully far ≡ some r.1.far)
      × (r.1.executer ≡ remove_routine e r.1.far.meta.uid)
      × (r.0 ≡ returned (empty_result none))

  complete-Finished :
      (n : Node) (w : W) (e : Executer)
      → IsStamped far
      → Finished e (complete ⦃c = c⦄ n (state w e))
  unfolding complete with_conditions with_updated
  complete-Finished n w e stamped =
      let now = (c.now w).0 in
      let (after, same) = IsStamped-change now far stamped in rw same (now, same, refl, refl)

  pods_deleted-Finished :
      (n : Node) (r : Option Error × W) (w : W) (e : Executer)
      → IsStamped far
      → r.0 ≡ none
      → Finished e (pods_deleted ⦃c = c⦄ n r (state w e))
  unfolding pods_deleted
  pods_deleted-Finished n (none, v) w e stamped done = complete-Finished n v e stamped
  pods_deleted-Finished n (some x, v) w e stamped done = absurd (ground (arith, done))

  out_of_service-Finished :
      (n : Node) (r : (Bool × Option Error) × W) (w : W) (e : Executer)
      → IsStamped far
      → r.0.1 ≡ none
      → Finished e (out_of_service ⦃c = c⦄ n r (state w e))
  unfolding out_of_service
  out_of_service-Finished n ((true, none), v) w e stamped done = complete-Finished n _ e stamped
  out_of_service-Finished n ((false, none), v) w e stamped done = complete-Finished n v e stamped
  out_of_service-Finished n ((added, some x), v) w e stamped done = absurd (ground (arith, done))

  finish-Finished :
      (n : Node) (w : W) (e : Executer)
      → IsStamped far
      → CanFree n
      → Finished e (finish ⦃c = c⦄ n (state w e))
  unfolding finish
  finish-Finished n w e stamped (by_deletion by done) =
      let w1 =
        (emit ⦃c = c⦄ normal n.name "DeleteResources" "Manually delete pods from the unhealthy node"
          (state w e)).world in
      rw by (pods_deleted-Finished n (c.delete_pods n.name w1) w1 e stamped (done w1))
  finish-Finished n w e stamped (by_taint other by done) =
      let (now, w1) = c.now w in
      let marked = append_taint ⦃c = c⦄ n.name (create_out_of_service_taint now) w1 in
      rw (other, by) (out_of_service-Finished n marked w e stamped (done now w1))

  module _ ⦃te : TemplateEngine⦄ where
    proceed-Finished :
        (n : Node) (w : W) (e : Executer)
        → Ready far
        → IsStamped far
        → CanFree n
        → Finished e (proceed ⦃c = c⦄ n (state w e))
    unfolding proceed
    proceed-Finished n w e ready stamped free =
        let waits : (is_true far processing_type
              && not (is_true far fence_agent_action_succeeded_type))
            ≡ false =
          ground (arith, ready.fenced) in
        let ends : (is_true far fence_agent_action_succeeded_type
              && not (is_true far succeeded_type))
            ≡ true =
          ground (arith, ready.fenced, ready.not_over) in
        rw (waits, ends) (finish-Finished n w e stamped free)

    tainted-Finished :
        (n : Node) (r : (Bool × Option Error) × W) (w : W) (e : Executer)
        → Ready far
        → IsStamped far
        → CanFree n
        → r.0.1 ≡ none
        → Finished e (tainted ⦃c = c⦄ n r (state w e))
    unfolding tainted
    tainted-Finished n ((true, none), v) w e ready stamped free done =
        proceed-Finished n _ e ready stamped free
    tainted-Finished n ((false, none), v) w e ready stamped free done =
        proceed-Finished n v e ready stamped free
    tainted-Finished n ((added, some x), v) w e ready stamped free done =
        absurd (ground (arith, done))

    with_node-Finished :
        (n : Node) (w : W) (e : Executer)
        → Ready far
        → IsStamped far
        → CanFree n
        → (append_taint ⦃c = c⦄ n.name create_remediation_taint w).0.1 ≡ none
        → Finished e (with_node ⦃c = c⦄ (ok (some n)) (state w e))
    unfolding with_node remediate
    with_node-Finished n w e ready stamped free done =
        rw (ready.not_deleting, ready.not_timed_out, ready.has_finalizer)
          (tainted-Finished n (append_taint ⦃c = c⦄ n.name create_remediation_taint w) w e ready
            stamped free done)

    -- A Reconcile of a resource whose fence action has succeeded and whose remediation has not yet,
    -- which has its finalizer and is neither being deleted nor timed out, and whose update time is set
    -- if it has conditions, finishes the remediation, if the node is there and no call for its taint or
    -- its workload gives an error: the status that it sends at its end has Succeeded True and
    -- Processing not, and the agent is taken out of the executer's table.
    pub reconcile-Finished :
        ⦃wt : WaitApi f⦄
        → (namespace name : String) (w v : W) (e : Executer) (n : Node)
        → (c.get_far namespace name w).0 ≡ ok far
        → get_node_with_name ⦃c = c⦄ (get_node_name far) (c.get_far namespace name w).1
          ≡ (ok (some n), v)
        → (append_taint ⦃c = c⦄ n.name create_remediation_taint v).0.1 ≡ none
        → Ready far
        → IsStamped far
        → CanFree n
        → (after : FenceAgentsRemediation) × (u : W) × (is_true after succeeded_type ≡ true)
          × (is_true after processing_type ≡ false)
          × ((reconcile ⦃c = c⦄ namespace name w e).1
              ≡ ((update_status ⦃c = c⦄ after u).1, remove_routine e far.meta.uid))
    unfolding reconcile reconcile_read deferred_update reconcile_body
    reconcile-Finished namespace name w v e n found there done ready stamped free =
        let (_, st1) = with_node ⦃c = c⦄ (ok (some n)) (state v e) in
        let (now, same, stopped, _) = with_node-Finished n v e ready stamped free done in
        let (succeeded, idle, meta) = finished_conditions now far st1.far stamped same in
        let uid = ap (λ (x : ObjectMeta). remove_routine e x.uid) meta in
        rw (found, there)
          (
            st1.far,
            st1.world,
            succeeded,
            idle,
            ap (λ x. ((update_status ⦃c = c⦄ st1.far st1.world).1, x)) (stopped ∙ uid),
          )
