-- ===== src/Remediation/Ready.antt =====
-- When a reconciliation frees the workload of a node; before that, it stays within any relation that
-- its calls keep.
use fence_agents_remediation.Prelude.{
  String, ◌≡◌, refl, ap, Bool, true, false, not, ◌&&◌, Option, none, some, arith, if-both, ◌==◌,
}
use fence_agents_remediation.Prelude.Dict.{Dict}
use fence_agents_remediation.Errors.{Error, error_text, Result, ok, err}
use fence_agents_remediation.Objects.{Node}
use fence_agents_remediation.Libraries.Meta.{MetaApi}
use fence_agents_remediation.Libraries.Failures.{FailureApi}
use fence_agents_remediation.Libraries.Marks.{MarkApi}
use fence_agents_remediation.Libraries.Client.{Client, normal, warning}
use fence_agents_remediation.Libraries.Template.{TemplateEngine}
use fence_agents_remediation.Libraries.Wait.{WaitApi}
use fence_agents_remediation.Api.{FenceAgentsRemediation, far_finalizer}
use fence_agents_remediation.Api.Params.{get_node_name, error_unsupported_action}
use fence_agents_remediation.Api.Secrets.{build_fence_agent_params}
use fence_agents_remediation.Utils.Conditions.{
  processing_type, succeeded_type, fence_agent_action_succeeded_type,
}
use fence_agents_remediation.Utils.Nodes.{get_node_with_name}
use fence_agents_remediation.Utils.Taints.{append_taint, create_remediation_taint}
use fence_agents_remediation.Cli.Routines.{Executer}
use fence_agents_remediation.Remediation.{
  State, Reply, is_timed_out_by_nhc, is_deleting, deferred_update,
}
use fence_agents_remediation.Remediation.Phases.{
  is_true, execute_params, finish, execute, proceed, tainted, remediate, with_node, reconcile_body,
  reconcile_read, reconcile,
}
use fence_agents_remediation.Remediation.Calls.{
  get_node_with_name-frame, build_fence_agent_params-frame, update_status-frame,
}
use fence_agents_remediation.Remediation.Within.{
  Moves, Within, add_finalizer-Within, stop_by_nhc-Within, node_missing-Within,
  reconcile_deletion-Within,
}

-- What holds of a resource when a reconciliation frees the workload of its node.
pub record Ready ⦃m : MetaApi⦄ ⦃mk : MarkApi⦄ (far : FenceAgentsRemediation) : Type 0 where
  pub not_deleting : is_deleting far ≡ false
  pub not_timed_out : is_timed_out_by_nhc far ≡ false
  pub has_finalizer : mk.contains_finalizer far.meta.finalizers far_finalizer ≡ true
  pub fenced : is_true far fence_agent_action_succeeded_type ≡ true
  pub not_over : is_true far succeeded_type ≡ false

module _ ⦃m : MetaApi⦄ ⦃f : FailureApi⦄ ⦃mk : MarkApi⦄ {W : Type 0} {R : W → W → Type 0}
    (c : Client W) (mv : Moves c R) ⦃te : TemplateEngine⦄ where
  open mv.frame use {stay, follow}

  execute_params-Within :
      (r : (Dict String × Bool × Option Error) × W) (st : State W)
      → R st.world r.1
      → Within R st (execute_params ⦃c = c⦄ r st)
  unfolding execute_params
  execute_params-Within ((params, retry, some e), w) st before =
      let P : Reply W → Type 0 = λ r. Within R st r in
      if-both P (not retry)
        (λ _.
          if-both (λ (s : State W). R st.world s.world) (error_text e == error_unsupported_action)
            (λ _. follow _ _ _ before (
              mv.frame.event warning st.far.meta.name "UnsupportedAction"
                "Unsupported action value in CR parameters" w))
            (λ _. before))
        (λ _. before)
  execute_params-Within ((params, retry, none), w) st before =
      follow _ _ _ before (mv.frame.event _ _ _ _ w)

  execute-Within : (st : State W) → Within R st (execute ⦃c = c⦄ st)
  unfolding execute
  execute-Within st =
      let built = build_fence_agent_params ⦃c = c⦄ st.far st.world in
      if-both (λ (r : Reply W). Within R st r) _ (λ _. stay st.world)
        (λ _.
          execute_params-Within built st
            (build_fence_agent_params-frame c mv.frame st.far st.world))

-- `ends` is what the end of a reconciliation does to the cluster, for a resource that is ready and a
-- node that has been read under its name.
module _ ⦃m : MetaApi⦄ ⦃f : FailureApi⦄ ⦃mk : MarkApi⦄ {W : Type 0} {R : W → W → Type 0}
    (c : Client W) (mv : Moves c R) ⦃te : TemplateEngine⦄ (far : FenceAgentsRemediation)
    (IsNode : Node → Type 0)
    (ends : (node : Node) (w : W) (e : Executer)
      → IsNode node
      → Ready far
      → R w (finish ⦃c = c⦄ node (record { world = w; executer = e; far = far })).1.world) where
  open mv.frame use {stay, follow}

  abbrev state : W → Executer → State W
  state w e = record { world = w; executer = e; far = far }

  proceed-Within :
      (node : Node) (w : W) (e : Executer)
      → IsNode node
      → is_deleting far ≡ false
      → is_timed_out_by_nhc far ≡ false
      → mk.contains_finalizer far.meta.finalizers far_finalizer ≡ true
      → R w (proceed ⦃c = c⦄ node (state w e)).1.world
  unfolding proceed
  proceed-Within node w e named alive watched held =
      let P : Reply W → Type 0 = λ r. R w r.1.world in
      let fenced = is_true far fence_agent_action_succeeded_type in
      let over = is_true far succeeded_type in
      if-both P (is_true far processing_type && not fenced) (λ _. execute-Within c mv (state w e))
        (λ _.
          if-both P (fenced && not over)
            (λ t. ends node w e named (record {
              not_deleting = alive;
              not_timed_out = watched;
              has_finalizer = held;
              fenced = ground arith;
              not_over = ground arith;
            }))
            (λ _. stay w))

  tainted-Within :
      (node : Node) (r : (Bool × Option Error) × W) (w : W) (e : Executer)
      → IsNode node
      → is_deleting far ≡ false
      → is_timed_out_by_nhc far ≡ false
      → mk.contains_finalizer far.meta.finalizers far_finalizer ≡ true
      → R w r.1
      → R w (tainted ⦃c = c⦄ node r (state w e)).1.world
  unfolding tainted
  tainted-Within node ((added, some x), v) w e named alive watched held before = before
  tainted-Within node ((true, none), v) w e named alive watched held before = follow _ _ _ before (
      follow _ _ _ (mv.frame.event normal node.name _ _ v)
        (proceed-Within node _ e named alive watched held))
  tainted-Within node ((false, none), v) w e named alive watched held before =
      follow _ _ _ before (proceed-Within node v e named alive watched held)

  remediate-Within :
      (node : Option Node) (w : W) (e : Executer)
      → ((x : Node) → node ≡ some x → IsNode x)
      → is_deleting far ≡ false
      → is_timed_out_by_nhc far ≡ false
      → R w (remediate ⦃c = c⦄ node (state w e)).1.world
  unfolding remediate
  remediate-Within none w e named alive watched = node_missing-Within c mv (state w e)
  remediate-Within (some node) w e named alive watched =
      if-both (λ (r : Reply W). R w r.1.world)
        (mk.contains_finalizer far.meta.finalizers far_finalizer)
        (λ held.
          tainted-Within node (append_taint ⦃c = c⦄ node.name create_remediation_taint w) w e
            (named node refl) alive watched held (mv.marked node.name w))
        (λ _. add_finalizer-Within c mv (state w e))

  with_node-Within :
      (node : Result (Option Node)) (w : W) (e : Executer)
      → ((x : Node) → node ≡ ok (some x) → IsNode x)
      → R w (with_node ⦃c = c⦄ node (state w e)).1.world
  unfolding with_node
  with_node-Within (err x) w e named = stay w
  with_node-Within (ok node) w e named =
      let P : Reply W → Type 0 = λ r. R w r.1.world in
      if-both P (is_deleting far) (λ _. reconcile_deletion-Within c mv node (state w e))
        (λ alive.
          if-both P (is_timed_out_by_nhc far) (λ _. stop_by_nhc-Within c mv (state w e))
            (λ watched. remediate-Within node w e (λ x h. named x (ap ok h)) alive watched))

  -- A Reconcile of a resource that it has read stays within the relation.
  pub reconcile-Within :
      ⦃wt : WaitApi f⦄
      → (namespace name : String) (w : W) (e : Executer) → (c.get_far namespace name w).0 ≡ ok far
      → ((x : Node) (v : W)
          → (get_node_with_name ⦃c = c⦄ (get_node_name far) v).0 ≡ ok (some x)
          → IsNode x)
      → R w (reconcile ⦃c = c⦄ namespace name w e).1.0
  unfolding reconcile reconcile_read deferred_update reconcile_body
  reconcile-Within namespace name w e found named =
      let w1 = (c.get_far namespace name w).1 in
      let (node, w2) = get_node_with_name ⦃c = c⦄ (get_node_name far) w1 in
      let (_, st1) = with_node ⦃c = c⦄ node (state w2 e) in
      rw found (
        follow _ _ _ (mv.frame.get_far namespace name w) (
          follow _ _ _ (get_node_with_name-frame c mv.frame (get_node_name far) w1) (
            follow _ _ _ (with_node-Within node w2 e (λ x h. named x w1 h))
              (update_status-frame c mv.frame st1.far st1.world (mv.stored st1.far st1.world)))))
