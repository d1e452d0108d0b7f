-- ===== src/Operator/Reconciles.antt =====
-- What a ledger records is kept by Reconcile.
use fence_agents_remediation.Prelude.{
  String, ◌≡◌, refl, Bool, true, false, not, ◌&&◌, ◌||◌, ◌==◌, Option, none, some, if-both,
}
use fence_agents_remediation.Errors.{Error, Result, ok, err}
use fence_agents_remediation.Objects.{Node, status_true}
use fence_agents_remediation.Libraries.Meta.{MetaApi}
use fence_agents_remediation.Libraries.Failures.{FailureApi}
use fence_agents_remediation.Libraries.Marks.{MarkApi}
use fence_agents_remediation.Libraries.Client.{Client, normal}
use fence_agents_remediation.Libraries.Template.{TemplateEngine}
use fence_agents_remediation.Libraries.Wait.{WaitApi}
use fence_agents_remediation.Api.{
  FenceAgentsRemediation, far_finalizer, resource_deletion_remediation_strategy,
  out_of_service_taint_remediation_strategy,
}
use fence_agents_remediation.Api.Params.{get_node_name}
use fence_agents_remediation.Api.Secrets.{build_fence_agent_params}
use fence_agents_remediation.Utils.Conditions.{
  processing_type, succeeded_type, fence_agent_action_succeeded_type,
}
use fence_agents_remediation.Utils.Nodes.{get_node_with_name}
use fence_agents_remediation.Utils.Taints.{
  append_taint, remove_taint, create_remediation_taint, create_out_of_service_taint,
}
use fence_agents_remediation.Cli.Routines.{Executer, remove_routine, exists}
use fence_agents_remediation.Remediation.{
  State, Reply, emit, deferred_update, is_deleting, is_timed_out_by_nhc,
}
use fence_agents_remediation.Remediation.Deletion.{
  drop_finalizer, release_node, handle_far_deletion, can_log_conditions, reconcile_deletion,
}
use fence_agents_remediation.Remediation.Phases.{
  is_true, add_finalizer, finish, execute, proceed, tainted, remediate, with_node, reconcile_body,
  reconcile_read, reconcile,
}
use fence_agents_remediation.Remediation.Executers.{released, out_of_service_released}
use fence_agents_remediation.Remediation.Calls.{
  get_node_with_name-frame, update_status-frame, append_taint-frame, remove_taint-frame,
  build_fence_agent_params-frame,
}
use fence_agents_remediation.Operator.Ledger.{Kept, Honest, Ledger}
use fence_agents_remediation.Operator.Phases.{
  Sound, with_executer-Sound, with_far-Sound, moved-Sound, emit-Sound, on_removed-Sound,
  finalizer_dropped-Sound, finalizer_added-Sound, stop_by_nhc-Sound, node_missing-Sound,
  pods_deleted-Sound, out_of_service-Sound, execute_params-Sound,
}

module _ {W : Type 0} (I : W → Type 0) (B : W → String → Type 0) ⦃m : MetaApi⦄ (c : Client W)
    (l : Ledger I B c) ⦃f : FailureApi⦄ ⦃mk : MarkApi⦄ where
  abbrev Good : Reply W → Type 0
  Good r = Sound I B c l r.1

  drop_finalizer-Sound : (st : State W) → Sound I B c l st → Good (drop_finalizer ⦃c = c⦄ st)
  unfolding drop_finalizer
  drop_finalizer-Sound st s =
      finalizer_dropped-Sound I B c l _ _ (l.frame.update_far _ st.world)
        (λ far e. l.far_updated _ st.world far s.kept e) (with_far-Sound I B c l st _ s.honest s)

  release_node-Sound :
      (node : Node) (st : State W) → Sound I B c l st → Good (release_node ⦃c = c⦄ node st)
  unfolding release_node
  release_node-Sound node st s =
      on_removed-Sound I B c l (remove_taint ⦃c = c⦄ node.name create_remediation_taint st.world) st
        (λ st. drop_finalizer ⦃c = c⦄ (released ⦃c = c⦄ node st))
        (remove_taint-frame c l.frame l.update_node node.name create_remediation_taint st.world) s
        (λ st s. drop_finalizer-Sound (released ⦃c = c⦄ node st) (emit-Sound I B c l _ _ _ _ st s))

  handle_far_deletion-Sound :
      (node : Option Node) (st : State W)
      → Sound I B c l st
      → Good (handle_far_deletion ⦃c = c⦄ node st)
  unfolding handle_far_deletion
  handle_far_deletion-Sound none st s = drop_finalizer-Sound st s
  handle_far_deletion-Sound (some node) st s =
      let (now, w) = c.now st.world in
      if-both Good (st.far.spec.remediation_strategy == out_of_service_taint_remediation_strategy)
        (λ _.
          on_removed-Sound I B c l
            (remove_taint ⦃c = c⦄ node.name (create_out_of_service_taint now) w) st
            (λ st. release_node ⦃c = c⦄ node (out_of_service_released ⦃c = c⦄ node st))
            (l.frame.follow _ _ _ (l.frame.now st.world) (
              remove_taint-frame c l.frame l.update_node node.name (create_out_of_service_taint now)
                w))
            s
            (λ st s.
              release_node-Sound node (out_of_service_released ⦃c = c⦄ node st)
                (emit-Sound I B c l _ _ _ _ st s)))
        (λ _. release_node-Sound node st s)

  reconcile_deletion-Sound :
      (node : Option Node) (st : State W)
      → Sound I B c l st
      → Good (reconcile_deletion ⦃c = c⦄ node st)
  unfolding reconcile_deletion
  reconcile_deletion-Sound node st s =
      let stopped = remove_routine st.executer st.far.meta.uid in
      if-both Good
        (not (
            m.is_status_condition_present_and_equal st.far.status.conditions succeeded_type
              status_true)
          && not (can_log_conditions st.far))
        (λ _. s)
        (λ _.
          handle_far_deletion-Sound node (record st { executer = stopped })
            (with_executer-Sound I B c l st stopped s))

  add_finalizer-Sound : (st : State W) → Sound I B c l st → Good (add_finalizer ⦃c = c⦄ st)
  unfolding add_finalizer
  add_finalizer-Sound st s =
      finalizer_added-Sound I B c l _ _ (l.frame.update_far _ st.world)
        (λ far e. l.far_updated _ st.world far s.kept e) (with_far-Sound I B c l st _ s.honest s)

  finish-Sound : (node : Node) (st : State W) → Sound I B c l st → Good (finish ⦃c = c⦄ node st)
  unfolding finish
  finish-Sound node st s =
      let (now, w) = c.now st.world in
      let st1 =
        emit ⦃c = c⦄ normal node.name "DeleteResources"
          "Manually delete pods from the unhealthy node" st in
      if-both Good
        (st.far.spec.remediation_strategy == resource_deletion_remediation_strategy
          || st.far.spec.remediation_strategy == "")
        (λ _.
          pods_deleted-Sound I B c l node (c.delete_pods node.name st1.world) st1
            (l.delete_pods node.name st1.world) (emit-Sound I B c l _ _ _ _ st s))
        (λ _.
          if-both Good
            (st.far.spec.remediation_strategy == out_of_service_taint_remediation_strategy)
            (λ _.
              out_of_service-Sound I B c l node
                (append_taint ⦃c = c⦄ node.name (create_out_of_service_taint now) w) st
                (l.frame.follow _ _ _ (l.frame.now st.world) (
                  append_taint-frame c l.frame l.update_node node.name
                    (create_out_of_service_taint now) w))
                s)
            (λ _. s))

  module _ ⦃te : TemplateEngine⦄ where
    execute-Sound : (st : State W) → Sound I B c l st → Good (execute ⦃c = c⦄ st)
    unfolding execute
    execute-Sound st s =
        if-both Good (exists st.executer st.far.meta.uid) (λ _. s)
          (λ _.
            execute_params-Sound I B c l (build_fence_agent_params ⦃c = c⦄ st.far st.world) st
              (build_fence_agent_params-frame c l.frame st.far st.world) s)

    proceed-Sound : (node : Node) (st : State W) → Sound I B c l st → Good (proceed ⦃c = c⦄ node st)
    unfolding proceed
    proceed-Sound node st s =
        let fenced = is_true st.far fence_agent_action_succeeded_type in
        if-both Good (is_true st.far processing_type && not fenced) (λ _. execute-Sound st s)
          (λ _.
            if-both Good (fenced && not (is_true st.far succeeded_type))
              (λ _. finish-Sound node st s) (λ _. s))

    tainted-Sound :
        (node : Node) (r : (Bool × Option Error) × W) (st : State W)
        → Kept I B st.world r.1
        → Sound I B c l st
        → Good (tainted ⦃c = c⦄ node r st)
    unfolding tainted
    tainted-Sound node ((added, some e), w) st kept s = moved-Sound I B c l st w kept s
    tainted-Sound node ((true, none), w) st kept s =
        proceed-Sound node _ (emit-Sound I B c l _ _ _ _ _ (moved-Sound I B c l st w kept s))
    tainted-Sound node ((false, none), w) st kept s =
        proceed-Sound node _ (moved-Sound I B c l st w kept s)

    remediate-Sound :
        (node : Option Node) (st : State W) → Sound I B c l st → Good (remediate ⦃c = c⦄ node st)
    unfolding remediate
    remediate-Sound none st s = node_missing-Sound I B c l st s
    remediate-Sound (some node) st s =
        if-both Good (mk.contains_finalizer st.far.meta.finalizers far_finalizer)
          (λ _.
            tainted-Sound node _ st
              (append_taint-frame c l.frame l.update_node node.name create_remediation_taint
                st.world)
              s)
          (λ _. add_finalizer-Sound st s)

    with_node-Sound :
        (node : Result (Option Node)) (st : State W)
        → Sound I B c l st
        → Good (with_node ⦃c = c⦄ node st)
    unfolding with_node
    with_node-Sound (err e) st s = s
    with_node-Sound (ok node) st s =
        if-both Good (is_deleting st.far) (λ _. reconcile_deletion-Sound node st s)
          (λ _.
            if-both Good (is_timed_out_by_nhc st.far) (λ _. stop_by_nhc-Sound I B c l st s)
              (λ _. remediate-Sound node st s))

    read-Kept :
        ⦃wt : WaitApi f⦄
        → (r : Result FenceAgentsRemediation × W) (w : W) (e : Executer) → Kept I B w r.1
        → I w
        → ((far : FenceAgentsRemediation) → r.0 ≡ ok far → Honest I B w far)
        → I (reconcile_read ⦃c = c⦄ r e).1.0
    unfolding reconcile_read deferred_update reconcile_body
    read-Kept (err e, w1) w executer (i, b) held honest = i held
    read-Kept (ok far, w1) w executer (i, b) held honest =
        let st1 : State W = record { world = w1; executer = executer; far = far } in
        let found = get_node_with_name-frame c l.frame (get_node_name far) w1 in
        let (node, w2) = get_node_with_name ⦃c = c⦄ (get_node_name far) w1 in
        let start : Sound I B c l st1 = record {
          kept = i held;
          honest = λ e. b _ (honest far refl e);
        } in
        let s =
          with_node-Sound node (record { world = w2; executer = executer; far = far })
            (moved-Sound I B c l st1 w2 found start) in
        (update_status-frame c l.frame _ _ (l.status_written _ _ s.honest)).0 s.kept

    -- A Reconcile keeps `I`.
    pub reconcile-Kept :
        ⦃wt : WaitApi f⦄
        → (namespace name : String) (w : W) (e : Executer) → I w
        → I (reconcile ⦃c = c⦄ namespace name w e).1.0
    unfolding reconcile reconcile_body
    reconcile-Kept namespace name w e i =
        read-Kept (c.get_far namespace name w) w e (l.frame.get_far namespace name w) i
          (λ far found. l.far_read namespace name w far i found)
