-- ===== src/Remediation/Starts.antt =====
-- Which reconciliation starts a fence agent, and which stops one.
use fence_agents_remediation.Prelude.{
  String, ◌≡◌, refl, sym, Bool, true, false, not, ◌&&◌, Option, none, some, ◌∷◌, ◌⊎◌, inl, inr,
  arith, if-both, Bool-cases,
}
use fence_agents_remediation.Prelude.Dict.{Dict}
use fence_agents_remediation.Errors.{Error, Result, ok, err}
use fence_agents_remediation.Objects.{Node}
use fence_agents_remediation.Libraries.Meta.{MetaApi}
use fence_agents_remediation.Libraries.Failures.{FailureApi}
use fence_agents_remediation.Libraries.Marks.{MarkApi}
use fence_agents_remediation.Libraries.Client.{Client}
use fence_agents_remediation.Libraries.Template.{TemplateEngine}
use fence_agents_remediation.Libraries.Wait.{WaitApi}
use fence_agents_remediation.Api.{FenceAgentsRemediation, far_finalizer}
use fence_agents_remediation.Api.Params.{get_node_name}
use fence_agents_remediation.Api.Secrets.{build_fence_agent_params}
use fence_agents_remediation.Utils.Conditions.{
  processing_type, succeeded_type, fence_agent_action_succeeded_type,
}
use fence_agents_remediation.Utils.Nodes.{get_node_with_name}
use fence_agents_remediation.Cli.Routines.{Executer, exists, async_execute, remove_routine}
use fence_agents_remediation.Remediation.{
  State, Reply, is_timed_out_by_nhc, is_deleting, map_to_slice_convert, deferred_update,
}
use fence_agents_remediation.Remediation.Deletion.{reconcile_deletion}
use fence_agents_remediation.Remediation.Phases.{
  is_true, execute_params, finish, execute, proceed, tainted, remediate, with_node, reconcile_body,
  reconcile_read, reconcile,
}
use fence_agents_remediation.Remediation.Executers.{
  KeepsOrStops, stop_by_nhc-executer, node_missing-executer, finish-executer,
  add_finalizer-executer, reconcile_deletion-executer,
}

-- What holds of a resource for which an agent is started.
pub record MayStart ⦃m : MetaApi⦄ ⦃mk : MarkApi⦄ (far : FenceAgentsRemediation) (e : Executer)
    : Type 0 where
  pub not_running : exists e far.meta.uid ≡ false
  pub not_deleting : is_deleting far ≡ false
  pub not_timed_out : is_timed_out_by_nhc far ≡ false
  pub has_finalizer : mk.contains_finalizer far.meta.finalizers far_finalizer ≡ true
  pub processing : is_true far processing_type ≡ true
  pub not_fenced : is_true far fence_agent_action_succeeded_type ≡ false

-- What holds of a resource whose agent is stopped.
abbrev pub MayStop : ⦃m : MetaApi⦄ → FenceAgentsRemediation → Type 0
MayStop far =
    (is_deleting far ≡ true)
    ⊎ ((is_timed_out_by_nhc far ≡ true)
        ⊎ ((is_true far fence_agent_action_succeeded_type ≡ true)
            × (is_true far succeeded_type ≡ false)))

module _ {W : Type 0} (c : Client W) ⦃m : MetaApi⦄ ⦃f : FailureApi⦄ ⦃mk : MarkApi⦄
    ⦃te : TemplateEngine⦄ where
  -- The executer after a reconciliation of `far`, whose node is `node`: as before; without the agent
  -- of the resource; or with one more, run with the parameters that BuildFenceAgentParams gives.
  pub data Change (far : FenceAgentsRemediation) (node : Result (Option Node)) (e after : Executer)
      : Type 0 where
    kept : after ≡ e → Change far node e after
    stopped : MayStop far → after ≡ remove_routine e far.meta.uid → Change far node e after
    started :
        (n : Node) (params : Dict String) (retry : Bool) (w : W)
        → node ≡ ok (some n)
        → MayStart far e
        → (build_fence_agent_params ⦃c = c⦄ far w).0 ≡ (params, retry, none)
        → after
          ≡ async_execute e far.meta.uid
              (far.spec.agent ∷ map_to_slice_convert params)
              far.spec.retry_count
              far.spec.retry_interval
              far.spec.timeout
        → Change far node e after

  KeepsOrStops-Change :
      (node : Result (Option Node)) (st : State W) (r : Reply W)
      → MayStop st.far
      → KeepsOrStops st r
      → Change st.far node st.executer r.1.executer
  KeepsOrStops-Change node st r may (inl e) = kept e
  KeepsOrStops-Change node st r may (inr e) = stopped may e

  execute_params-Change :
      (n : Node) (r : (Dict String × Bool × Option Error) × W) (st : State W) (w : W)
      → r.0 ≡ (build_fence_agent_params ⦃c = c⦄ st.far w).0
      → MayStart st.far st.executer
      → Change st.far (ok (some n)) st.executer (execute_params ⦃c = c⦄ r st).1.executer
  unfolding execute_params
  execute_params-Change n ((params, true, some e), w1) st w built may = kept refl
  execute_params-Change n ((params, false, some e), w1) st w built may = kept (ground arith)
  execute_params-Change n ((params, retry, none), w1) st w built may =
      started n params retry w refl may (sym built) refl

  execute-Change :
      (n : Node) (st : State W)
      → (exists st.executer st.far.meta.uid ≡ false → MayStart st.far st.executer)
      → Change st.far (ok (some n)) st.executer (execute ⦃c = c⦄ st).1.executer
  unfolding execute
  execute-Change n st may = elim (Bool-cases (exists st.executer st.far.meta.uid)) [
    | inl runs ↦ rw runs (kept refl)
    | inr idle ↦ rw idle (
        execute_params-Change n (build_fence_agent_params ⦃c = c⦄ st.far st.world) st st.world refl
          (may idle))
  ]

  proceed-Change :
      (n : Node) (st : State W)
      → is_deleting st.far ≡ false
      → is_timed_out_by_nhc st.far ≡ false
      → mk.contains_finalizer st.far.meta.finalizers far_finalizer ≡ true
      → Change st.far (ok (some n)) st.executer (proceed ⦃c = c⦄ n st).1.executer
  unfolding proceed
  proceed-Change n st alive watched held =
      let P : Reply W → Type 0 = λ r. Change st.far (ok (some n)) st.executer r.1.executer in
      let processing = is_true st.far processing_type in
      let fenced = is_true st.far fence_agent_action_succeeded_type in
      let over = is_true st.far succeeded_type in
      if-both P (processing && not fenced)
        (λ e. execute-Change n st (λ idle. record {
          not_running = idle;
          not_deleting = alive;
          not_timed_out = watched;
          has_finalizer = held;
          processing = ground arith;
          not_fenced = ground arith;
        }))
        (λ _.
          if-both P (fenced && not over)
            (λ e.
              KeepsOrStops-Change (ok (some n)) st (finish ⦃c = c⦄ n st)
                (inr (inr (ground arith, ground arith))) (finish-executer ⦃c = c⦄ n st))
            (λ _. kept refl))

  tainted-Change :
      (n : Node) (r : (Bool × Option Error) × W) (st : State W)
      → is_deleting st.far ≡ false
      → is_timed_out_by_nhc st.far ≡ false
      → mk.contains_finalizer st.far.meta.finalizers far_finalizer ≡ true
      → Change st.far (ok (some n)) st.executer (tainted ⦃c = c⦄ n r st).1.executer
  unfolding tainted
  tainted-Change n ((added, some e), w) st alive watched held = kept refl
  tainted-Change n ((true, none), w) st alive watched held = proceed-Change n _ alive watched held
  tainted-Change n ((false, none), w) st alive watched held = proceed-Change n _ alive watched held

  remediate-Change :
      (node : Option Node) (st : State W)
      → is_deleting st.far ≡ false
      → is_timed_out_by_nhc st.far ≡ false
      → Change st.far (ok node) st.executer (remediate ⦃c = c⦄ node st).1.executer
  unfolding remediate
  remediate-Change none st alive watched = kept (node_missing-executer ⦃c = c⦄ st)
  remediate-Change (some n) st alive watched =
      if-both (λ (r : Reply W). Change st.far (ok (some n)) st.executer r.1.executer)
        (mk.contains_finalizer st.far.meta.finalizers far_finalizer)
        (tainted-Change n _ st alive watched) (λ _. kept (add_finalizer-executer ⦃c = c⦄ st))

  with_node-Change :
      (node : Result (Option Node)) (st : State W)
      → Change st.far node st.executer (with_node ⦃c = c⦄ node st).1.executer
  unfolding with_node
  with_node-Change (err e) st = kept refl
  with_node-Change (ok node) st =
      let P : Reply W → Type 0 = λ r. Change st.far (ok node) st.executer r.1.executer in
      if-both P (is_deleting st.far)
        (λ deleting.
          KeepsOrStops-Change (ok node) st (reconcile_deletion ⦃c = c⦄ node st) (inl deleting)
            (reconcile_deletion-executer ⦃c = c⦄ node st))
        (λ alive.
          if-both P (is_timed_out_by_nhc st.far)
            (λ late. stopped (inr (inl late)) (stop_by_nhc-executer ⦃c = c⦄ st))
            (λ watched. remediate-Change node st alive watched))

  -- A Reconcile of a resource that it has read changes the executer in one of three ways: not at all;
  -- it stops the resource's fence agent, and then the resource is being deleted, is timed out by Node
  -- Healthcheck, or has its action but not its remediation succeeded; or it starts one, and then the
  -- node exists, no agent runs for the resource, the resource is neither being deleted nor timed out,
  -- has its finalizer, is in process and not yet fenced, and the command is the agent with the
  -- parameters that BuildFenceAgentParams gives.
  pub reconcile-Change :
      ⦃wt : WaitApi f⦄
      → (namespace name : String) (w : W) (e : Executer) (far : FenceAgentsRemediation)
      → (c.get_far namespace name w).0 ≡ ok far
      → Change far
          (get_node_with_name ⦃c = c⦄ (get_node_name far) (c.get_far namespace name w).1).0
          e
          (reconcile ⦃c = c⦄ namespace name w e).1.1
  unfolding reconcile reconcile_read deferred_update reconcile_body
  reconcile-Change namespace name w e far found =
      let w1 = (c.get_far namespace name w).1 in
      let (node, w2) = get_node_with_name ⦃c = c⦄ (get_node_name far) w1 in
      rw found (with_node-Change node (record { world = w2; executer = e; far = far }))
