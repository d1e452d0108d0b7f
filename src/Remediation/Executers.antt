-- ===== src/Remediation/Executers.antt =====
-- What the parts of Reconcile do to the executer.
use fence_agents_remediation.Prelude.{
  ◌≡◌, refl, Bool, true, false, Option, none, some, ◌⊎◌, inl, inr, arith, Bool-cases,
}
use fence_agents_remediation.Errors.{Error, Result, ok, err}
use fence_agents_remediation.Objects.{Node}
use fence_agents_remediation.Libraries.Meta.{MetaApi}
use fence_agents_remediation.Libraries.Failures.{FailureApi}
use fence_agents_remediation.Libraries.Marks.{MarkApi}
use fence_agents_remediation.Libraries.Client.{Client, normal}
use fence_agents_remediation.Api.{FenceAgentsRemediation}
use fence_agents_remediation.Utils.Conditions.{ConditionsChangeReason}
use fence_agents_remediation.Utils.Conditions.Identity.{update_conditions-meta}
use fence_agents_remediation.Utils.Taints.{
  append_taint, remove_taint, create_remediation_taint, create_out_of_service_taint,
}
use fence_agents_remediation.Cli.Routines.{Executer, remove_routine}
use fence_agents_remediation.Remediation.{State, Reply, emit, with_updated, with_conditions}
use fence_agents_remediation.Remediation.Deletion.{
  on_removed, finalizer_dropped, drop_finalizer, release_node, handle_far_deletion,
  reconcile_deletion,
}
use fence_agents_remediation.Remediation.Phases.{
  stop_by_nhc, node_missing, finalizer_added, complete, pods_deleted, out_of_service, add_finalizer,
  finish,
}

module _ {W : Type 0} where
  -- The executer of a reply, in terms of the state that it came from.
  abbrev pub KeepsOrStops : State W → Reply W → Type 0
  KeepsOrStops st r =
      (r.1.executer ≡ st.executer) ⊎ (r.1.executer ≡ remove_routine st.executer st.far.meta.uid)

  pub with_updated-executer :
      (o : Option FenceAgentsRemediation) (st : State W) (rest : State W → Reply W)
      (P : Executer → Type 0)
      → P st.executer
      → ((far : FenceAgentsRemediation)
          → o ≡ some far
          → P (rest (record st { far = far })).1.executer)
      → P (with_updated o st rest).1.executer
  unfolding with_updated
  with_updated-executer none st rest P kept next = kept
  with_updated-executer (some far) st rest P kept next = next far refl

module _ {W : Type 0} ⦃c : Client W⦄ where
  abbrev pub released : Node → State W → State W
  released node st =
      emit normal node.name "RemoveRemediationTaint" "Remediation taint was removed" st

  abbrev pub out_of_service_released : Node → State W → State W
  out_of_service_released node st =
      emit normal node.name "RemoveOutOfServiceTaint" "The out-of-service taint was removed" st

module _ {W : Type 0} ⦃m : MetaApi⦄ ⦃c : Client W⦄ where
  pub with_conditions-executer :
      (reason : ConditionsChangeReason) (st : State W) (rest : State W → Reply W)
      (P : Executer → Type 0)
      → P st.executer
      → ((far : FenceAgentsRemediation) (w : W)
          → far.meta ≡ st.far.meta
          → P (rest (record { world = w; executer = st.executer; far = far })).1.executer)
      → P (with_conditions reason st rest).1.executer
  unfolding with_conditions
  with_conditions-executer reason st rest P kept next =
      with_updated-executer _ _ rest P kept
        (λ far e. next far _ (update_conditions-meta (c.now st.world).0 reason st.far far e))

  pub complete-executer : (node : Node) (st : State W) → KeepsOrStops st (complete node st)
  unfolding complete
  complete-executer node st =
      with_conditions-executer _ st _
        (λ e. (e ≡ st.executer) ⊎ (e ≡ remove_routine st.executer st.far.meta.uid)) (inl refl)
        (λ far w e. inr (rw e refl))

  pub stop_by_nhc-executer :
      (st : State W) → (stop_by_nhc st).1.executer ≡ remove_routine st.executer st.far.meta.uid
  unfolding stop_by_nhc
  stop_by_nhc-executer st =
      with_conditions-executer _ _ _ (λ e. e ≡ remove_routine st.executer st.far.meta.uid) refl
        (λ far w e. refl)

  pub node_missing-executer : (st : State W) → (node_missing st).1.executer ≡ st.executer
  unfolding node_missing
  node_missing-executer st =
      with_conditions-executer _ st _ (λ e. e ≡ st.executer) refl (λ far w e. refl)

  pub finalizer_added-executer :
      (r : Result FenceAgentsRemediation × W) (st : State W)
      → (finalizer_added r st).1.executer ≡ st.executer
  unfolding finalizer_added
  finalizer_added-executer (err e, w) st = refl
  finalizer_added-executer (ok far, w) st =
      with_conditions-executer _ _ _ (λ e. e ≡ st.executer) refl (λ far w e. refl)

  pub pods_deleted-executer :
      (node : Node) (r : Option Error × W) (st : State W) → KeepsOrStops st (pods_deleted node r st)
  unfolding pods_deleted
  pods_deleted-executer node (none, w) st = complete-executer node (record st { world = w })
  pods_deleted-executer node (some e, w) st = inl refl

  pub out_of_service-executer :
      (node : Node) (r : (Bool × Option Error) × W) (st : State W)
      → KeepsOrStops st (out_of_service node r st)
  unfolding out_of_service
  out_of_service-executer node ((added, some e), w) st = inl refl
  out_of_service-executer node ((true, none), w) st = complete-executer node _
  out_of_service-executer node ((false, none), w) st = complete-executer node _

  pub on_removed-executer :
      ⦃f : FailureApi⦄
      → (r : Option Error × W) (st : State W) (rest : State W → Reply W) (e : Executer)
      → st.executer ≡ e
      → ((w : W) → (rest (record st { world = w })).1.executer ≡ e)
      → (on_removed r st rest).1.executer ≡ e
  unfolding on_removed
  on_removed-executer (none, w) st rest e here next = next w
  on_removed-executer ⦃f⦄ (some x, w) st rest e here next = elim (Bool-cases (f.is_conflict x)) [
    | inl clash ↦ rw clash here
    | inr free ↦ elim (Bool-cases (f.is_not_found x)) [
      | inl gone ↦ rw (free, gone) (next w)
      | inr other ↦ rw (free, other) here
    ]
  ]

  pub finalizer_dropped-executer :
      (r : Result FenceAgentsRemediation × W) (st : State W)
      → (finalizer_dropped r st).1.executer ≡ st.executer
  unfolding finalizer_dropped
  finalizer_dropped-executer (err e, w) st = refl
  finalizer_dropped-executer (ok far, w) st = refl

  module _ ⦃f : FailureApi⦄ ⦃mk : MarkApi⦄ where
    pub drop_finalizer-executer : (st : State W) → (drop_finalizer st).1.executer ≡ st.executer
    unfolding drop_finalizer
    drop_finalizer-executer st = finalizer_dropped-executer _ _

    pub release_node-executer :
        (node : Node) (st : State W) → (release_node node st).1.executer ≡ st.executer
    unfolding release_node
    release_node-executer node st =
        on_removed-executer (remove_taint node.name create_remediation_taint st.world) st
          (λ st. drop_finalizer (released node st)) st.executer refl
          (λ w. drop_finalizer-executer (released node (record st { world = w })))

    pub handle_far_deletion-executer :
        (node : Option Node) (st : State W) → (handle_far_deletion node st).1.executer ≡ st.executer
    unfolding handle_far_deletion
    handle_far_deletion-executer none st = drop_finalizer-executer st
    handle_far_deletion-executer (some node) st = ground (
      arith,
      release_node-executer node st,
      on_removed-executer
          (remove_taint node.name (create_out_of_service_taint (c.now st.world).0)
            (c.now st.world).1)
          st (λ st. release_node node (out_of_service_released node st)) st.executer refl
          (λ w.
            release_node-executer node (out_of_service_released node (record st { world = w }))),
    )

    pub reconcile_deletion-executer :
        (node : Option Node) (st : State W) → KeepsOrStops st (reconcile_deletion node st)
    unfolding reconcile_deletion
    reconcile_deletion-executer node st = ground (
      arith,
      handle_far_deletion-executer node
          (record st { executer = remove_routine st.executer st.far.meta.uid }),
    )

    pub add_finalizer-executer : (st : State W) → (add_finalizer st).1.executer ≡ st.executer
    unfolding add_finalizer
    add_finalizer-executer st = finalizer_added-executer _ _

    pub finish-executer : (node : Node) (st : State W) → KeepsOrStops st (finish node st)
    unfolding finish
    finish-executer node st =
        let (now, w) = c.now st.world in
        let st1 =
          emit normal node.name "DeleteResources" "Manually delete pods from the unhealthy node"
            st in
        ground (
          arith,
          pods_deleted-executer node (c.delete_pods node.name st1.world) st1,
          out_of_service-executer node (append_taint node.name (create_out_of_service_taint now) w)
              st,
        )
