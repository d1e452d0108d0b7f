-- ===== src/Remediation/Lifecycle/Reconciles.antt =====
-- The status that a reconciliation sends at its end.
use fence_agents_remediation.Prelude.{
  String, ◌≡◌, refl, ap, Bool, true, false, not, ◌&&◌, Option, none, some, ◌==◌, if-both, arith,
}
use fence_agents_remediation.Prelude.Dict.{Dict}
use fence_agents_remediation.Errors.{Error, Result, ok, err, error_text}
use fence_agents_remediation.Objects.{Node, status_true}
use fence_agents_remediation.Libraries.Meta.{MetaApi}
use fence_agents_remediation.Libraries.Failures.{FailureApi}
use fence_agents_remediation.Libraries.Marks.{MarkApi}
use fence_agents_remediation.Libraries.Client.{Client}
use fence_agents_remediation.Libraries.Template.{TemplateEngine}
use fence_agents_remediation.Libraries.Wait.{WaitApi}
use fence_agents_remediation.Api.{FenceAgentsRemediation, far_finalizer}
use fence_agents_remediation.Api.Params.{get_node_name, error_unsupported_action}
use fence_agents_remediation.Api.Secrets.{build_fence_agent_params}
use fence_agents_remediation.Utils.Conditions.{
  processing_type, succeeded_type, fence_agent_action_succeeded_type,
}
use fence_agents_remediation.Utils.Nodes.{get_node_with_name}
use fence_agents_remediation.Utils.Taints.{append_taint, create_remediation_taint}
use fence_agents_remediation.Cli.Routines.{Executer, remove_routine, exists}
use fence_agents_remediation.Remediation.{
  State, Reply, is_timed_out_by_nhc, is_deleting, update_status, deferred_update,
}
use fence_agents_remediation.Remediation.Deletion.{reconcile_deletion, can_log_conditions}
use fence_agents_remediation.Remediation.Phases.{
  is_true, execute_params, execute, proceed, tainted, remediate, with_node, reconcile_body,
  reconcile_read, reconcile,
}
use fence_agents_remediation.Remediation.Lifecycle.{Sent, unchanged}
use fence_agents_remediation.Remediation.Lifecycle.Parts.{
  stop_by_nhc-Sent, node_missing-Sent, add_finalizer-Sent, finish-Sent, handle_far_deletion-Sent,
}

module _ {W : Type 0} (c : Client W) ⦃m : MetaApi⦄ ⦃f : FailureApi⦄ ⦃mk : MarkApi⦄
    ⦃te : TemplateEngine⦄ where
  -- The start of an agent leaves the resource alone.
  execute_params-far :
      (r : (Dict String × Bool × Option Error) × W) (st : State W)
      → (execute_params ⦃c = c⦄ r st).1.far ≡ st.far
  unfolding execute_params
  execute_params-far ((params, retry, some e), w) st =
      if-both (λ (r : Reply W). r.1.far ≡ st.far) (not retry)
        (λ _.
          if-both (λ (s : State W). s.far ≡ st.far) (error_text e == error_unsupported_action)
            (λ _. refl) (λ _. refl))
        (λ _. refl)
  execute_params-far ((params, retry, none), w) st = refl

  execute-far : (st : State W) → (execute ⦃c = c⦄ st).1.far ≡ st.far
  unfolding execute
  execute-far st =
      if-both (λ (r : Reply W). r.1.far ≡ st.far) (exists st.executer st.far.meta.uid) (λ _. refl)
        (λ _. execute_params-far (build_fence_agent_params ⦃c = c⦄ st.far st.world) st)

module _ {W : Type 0} (c : Client W) ⦃m : MetaApi⦄ ⦃f : FailureApi⦄ ⦃mk : MarkApi⦄
    ⦃te : TemplateEngine⦄ (far : FenceAgentsRemediation) where
  abbrev state : W → Executer → State W
  state w e = record { world = w; executer = e; far = far }

  reconcile_deletion-Sent :
      (node : Option Node) (w : W) (e : Executer)
      → is_deleting far ≡ true
      → Sent c far (ok node) (reconcile_deletion ⦃c = c⦄ node (state w e)).1.far
  unfolding reconcile_deletion
  reconcile_deletion-Sent node w e deleting =
      let logged =
        m.is_status_condition_present_and_equal far.status.conditions succeeded_type status_true in
      if-both (λ (r : Reply W). Sent c far (ok node) r.1.far)
        (not logged && not (can_log_conditions far)) (λ _. unchanged refl)
        (λ _.
          handle_far_deletion-Sent c far (ok node) node w (remove_routine e far.meta.uid) deleting)

  proceed-Sent :
      (n : Node) (w : W) (e : Executer)
      → is_deleting far ≡ false
      → is_timed_out_by_nhc far ≡ false
      → mk.contains_finalizer far.meta.finalizers far_finalizer ≡ true
      → Sent c far (ok (some n)) (proceed ⦃c = c⦄ n (state w e)).1.far
  unfolding proceed
  proceed-Sent n w e alive watched held =
      let P : Reply W → Type 0 = λ r. Sent c far (ok (some n)) r.1.far in
      let fenced = is_true far fence_agent_action_succeeded_type in
      let over = is_true far succeeded_type in
      if-both P (is_true far processing_type && not fenced)
        (λ _. unchanged (ap (λ x. x.status) (execute-far c (state w e))))
        (λ _.
          if-both P (fenced && not over)
            (λ t. finish-Sent c far n w e (record {
              not_deleting = alive;
              not_timed_out = watched;
              has_finalizer = held;
              fenced = ground arith;
              not_over = ground arith;
            }))
            (λ _. unchanged refl))

  tainted-Sent :
      (n : Node) (r : (Bool × Option Error) × W) (w : W) (e : Executer)
      → is_deleting far ≡ false
      → is_timed_out_by_nhc far ≡ false
      → mk.contains_finalizer far.meta.finalizers far_finalizer ≡ true
      → Sent c far (ok (some n)) (tainted ⦃c = c⦄ n r (state w e)).1.far
  unfolding tainted
  tainted-Sent n ((added, some x), v) w e alive watched held = unchanged refl
  tainted-Sent n ((true, none), v) w e alive watched held = proceed-Sent n _ e alive watched held
  tainted-Sent n ((false, none), v) w e alive watched held = proceed-Sent n v e alive watched held

  remediate-Sent :
      (node : Option Node) (w : W) (e : Executer)
      → is_deleting far ≡ false
      → is_timed_out_by_nhc far ≡ false
      → Sent c far (ok node) (remediate ⦃c = c⦄ node (state w e)).1.far
  unfolding remediate
  remediate-Sent none w e alive watched = node_missing-Sent c far w e
  remediate-Sent (some n) w e alive watched =
      if-both (λ (r : Reply W). Sent c far (ok (some n)) r.1.far)
        (mk.contains_finalizer far.meta.finalizers far_finalizer)
        (tainted-Sent n (append_taint ⦃c = c⦄ n.name create_remediation_taint w) w e alive watched)
        (add_finalizer-Sent c far (ok (some n)) w e)

  with_node-Sent :
      (node : Result (Option Node)) (w : W) (e : Executer)
      → Sent c far node (with_node ⦃c = c⦄ node (state w e)).1.far
  unfolding with_node
  with_node-Sent (err x) w e = unchanged refl
  with_node-Sent (ok node) w e =
      let P : Reply W → Type 0 = λ r. Sent c far (ok node) r.1.far in
      if-both P (is_deleting far) (reconcile_deletion-Sent node w e) (λ alive.
        if-both P (is_timed_out_by_nhc far) (stop_by_nhc-Sent c far (ok node) w e)
          (λ watched. remediate-Sent node w e alive watched))

  -- The resource whose status a Reconcile of a resource that it has read sends at its end has the
  -- status that was read, or is what the API server has returned at the addition or removal of the
  -- finalizer, or its conditions were changed for one of four reasons: the finalizer has been added;
  -- there is no such node; Node Healthcheck has timed out; or the remediation is finished, and then the
  -- fence action had succeeded and the workload of the node has been freed, without an error, by the
  -- strategy.
  pub reconcile-Sent :
      ⦃wt : WaitApi f⦄
      → (namespace name : String) (w : W) (e : Executer) → (c.get_far namespace name w).0 ≡ ok far
      → (after : FenceAgentsRemediation) × (v : W) × Sent c far
          (get_node_with_name ⦃c = c⦄ (get_node_name far) (c.get_far namespace name w).1).0
          after
        × ((reconcile ⦃c = c⦄ namespace name w e).1.0 ≡ (update_status ⦃c = c⦄ after v).1)
  unfolding reconcile reconcile_read deferred_update reconcile_body
  reconcile-Sent namespace name w e found =
      let w1 = (c.get_far namespace name w).1 in
      let (node, w2) = get_node_with_name ⦃c = c⦄ (get_node_name far) w1 in
      let (_, st1) = with_node ⦃c = c⦄ node (state w2 e) in
      rw found (st1.far, st1.world, with_node-Sent node w2 e, refl)
