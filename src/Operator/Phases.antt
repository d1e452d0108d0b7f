-- ===== src/Operator/Phases.antt =====
-- What a ledger records is kept by the ends of Reconcile's branches.
use fence_agents_remediation.Prelude.{
  String, ◌≡◌, ◌≢◌, refl, sym, Bool, true, false, not, ◌==◌, Option, none, some, inl, inr, if-both,
  subst,
}
use fence_agents_remediation.Prelude.Dict.{Dict}
use fence_agents_remediation.Errors.{Error, error_text, Result, ok, err}
use fence_agents_remediation.Objects.{Node}
use fence_agents_remediation.Libraries.Meta.{MetaApi}
use fence_agents_remediation.Libraries.Failures.{FailureApi}
use fence_agents_remediation.Libraries.Client.{Client, EventType}
use fence_agents_remediation.Api.{FenceAgentsRemediation}
use fence_agents_remediation.Api.Params.{error_unsupported_action}
use fence_agents_remediation.Utils.Conditions.{
  ConditionsChangeReason, fence_agent_succeeded, update_conditions,
}
use fence_agents_remediation.Utils.Conditions.Fenced.{update_conditions-fenced}
use fence_agents_remediation.Utils.Conditions.Identity.{update_conditions-meta}
use fence_agents_remediation.Cli.Routines.{Executer}
use fence_agents_remediation.Remediation.{State, Reply, emit, with_updated, with_conditions}
use fence_agents_remediation.Remediation.Deletion.{on_removed, finalizer_dropped}
use fence_agents_remediation.Remediation.Phases.{
  stop_by_nhc, node_missing, finalizer_added, complete, pods_deleted, out_of_service,
  execute_params,
}
use fence_agents_remediation.Operator.Ledger.{Kept, Honest, Ledger}

module _ {W : Type 0} (I : W → Type 0) (B : W → String → Type 0) ⦃m : MetaApi⦄ (c : Client W)
    (l : Ledger I B c) where
  -- The cluster keeps `I`, and the copy of the resource is honest.
  pub record Sound (st : State W) : Type 0 where
    pub kept : I st.world
    pub honest : Honest I B st.world st.far

  -- With another executer, and with another copy of the resource.
  pub with_executer-Sound :
      (st : State W) (e : Executer) → Sound st → Sound (record st { executer = e })
  with_executer-Sound st e s = record { kept = s.kept; honest = s.honest }

  pub with_far-Sound :
      (st : State W) (far : FenceAgentsRemediation)
      → Honest I B st.world far
      → Sound st
      → Sound (record st { far = far })
  with_far-Sound st far honest s = record { kept = s.kept; honest = honest }

  pub moved-Sound :
      (st : State W) (w : W) → Kept I B st.world w → Sound st → Sound (record st { world = w })
  moved-Sound st w (i, b) s = record { kept = i s.kept; honest = λ e. b _ (s.honest e) }

  pub emit-Sound :
      (kind : EventType) (n reason text : String) (st : State W)
      → Sound st
      → Sound (emit ⦃c = c⦄ kind n reason text st)
  emit-Sound kind n reason text st = moved-Sound st _ (l.frame.event kind n reason text st.world)

  pub with_updated-Sound :
      (o : Option FenceAgentsRemediation) (st : State W) (rest : State W → Reply W)
      → Sound st
      → ((far : FenceAgentsRemediation) → o ≡ some far → Honest I B st.world far)
      → ((st' : State W) → Sound st' → Sound (rest st').1)
      → Sound (with_updated o st rest).1
  unfolding with_updated
  with_updated-Sound none st rest s honest next = s
  with_updated-Sound (some far) st rest s honest next =
      next _ (with_far-Sound st far (honest far refl) s)

  pub with_conditions-Sound :
      (reason : ConditionsChangeReason) (st : State W) (rest : State W → Reply W)
      → reason ≢ fence_agent_succeeded
      → Sound st
      → ((st' : State W) → Sound st' → Sound (rest st').1)
      → Sound (with_conditions ⦃c = c⦄ reason st rest).1
  unfolding with_conditions
  with_conditions-Sound reason st rest other s next =
      let (now, w) = c.now st.world in
      let moved = moved-Sound st w (l.frame.now st.world) s in
      with_updated-Sound (update_conditions now reason st.far) (record st { world = w }) rest moved
        (λ far e true_after. elim (update_conditions-fenced now reason st.far e true_after) [
          | inl success ↦ absurd (other success)
          | inr before ↦
              subst (λ x. B w x.uid) (sym (update_conditions-meta now reason st.far far e))
                (moved.honest before)
        ])
        next

  pub on_removed-Sound :
      ⦃f : FailureApi⦄
      → (r : Option Error × W) (st : State W) (rest : State W → Reply W) → Kept I B st.world r.1
      → Sound st
      → ((st' : State W) → Sound st' → Sound (rest st').1)
      → Sound (on_removed r st rest).1
  unfolding on_removed
  on_removed-Sound (none, w) st rest kept s next = next _ (moved-Sound st w kept s)
  on_removed-Sound ⦃f⦄ (some e, w) st rest kept s next =
      let P : Reply W → Type 0 = λ r. Sound r.1 in
      let moved = moved-Sound st w kept s in
      if-both P (f.is_conflict e) (λ _. moved)
        (λ _. if-both P (not (f.is_not_found e)) (λ _. moved) (λ _. next _ moved))

  pub finalizer_dropped-Sound :
      (r : Result FenceAgentsRemediation × W) (st : State W)
      → Kept I B st.world r.1
      → ((far : FenceAgentsRemediation) → r.0 ≡ ok far → Honest I B st.world far)
      → Sound st
      → Sound (finalizer_dropped ⦃c = c⦄ r st).1
  unfolding finalizer_dropped
  finalizer_dropped-Sound (err e, w) st kept stored s = moved-Sound st w kept s
  finalizer_dropped-Sound (ok far, w) st kept stored s =
      emit-Sound _ _ _ _ (record st { world = w; far = far })
        (moved-Sound _ w kept (with_far-Sound st far (stored far refl) s))

  pub finalizer_added-Sound :
      (r : Result FenceAgentsRemediation × W) (st : State W)
      → Kept I B st.world r.1
      → ((far : FenceAgentsRemediation) → r.0 ≡ ok far → Honest I B st.world far)
      → Sound st
      → Sound (finalizer_added ⦃c = c⦄ r st).1
  unfolding finalizer_added
  finalizer_added-Sound (err e, w) st kept stored s = moved-Sound st w kept s
  finalizer_added-Sound (ok far, w) st kept stored s =
      with_conditions-Sound _ _ _ (λ e. cc)
        (emit-Sound _ _ _ _ (record st { world = w; far = far })
          (moved-Sound _ w kept (with_far-Sound st far (stored far refl) s)))
        (λ st s. emit-Sound _ _ _ _ st s)

  pub stop_by_nhc-Sound : (st : State W) → Sound st → Sound (stop_by_nhc ⦃c = c⦄ st).1
  unfolding stop_by_nhc
  stop_by_nhc-Sound st s =
      with_conditions-Sound _ _ _ (λ e. cc) (with_executer-Sound st _ s)
        (λ st s. emit-Sound _ _ _ _ st s)

  pub node_missing-Sound : (st : State W) → Sound st → Sound (node_missing ⦃c = c⦄ st).1
  unfolding node_missing
  node_missing-Sound st s =
      with_conditions-Sound _ st _ (λ e. cc) s (λ st s. emit-Sound _ _ _ _ st s)

  pub complete-Sound : (node : Node) (st : State W) → Sound st → Sound (complete ⦃c = c⦄ node st).1
  unfolding complete
  complete-Sound node st s =
      with_conditions-Sound _ st _ (λ e. cc) s
        (λ st s. emit-Sound _ _ _ _ _ (emit-Sound _ _ _ _ _ (with_executer-Sound st _ s)))

  pub pods_deleted-Sound :
      (node : Node) (r : Option Error × W) (st : State W)
      → Kept I B st.world r.1
      → Sound st
      → Sound (pods_deleted ⦃c = c⦄ node r st).1
  unfolding pods_deleted
  pods_deleted-Sound node (none, w) st kept s = complete-Sound node _ (moved-Sound st w kept s)
  pods_deleted-Sound node (some e, w) st kept s = moved-Sound st w kept s

  pub out_of_service-Sound :
      (node : Node) (r : (Bool × Option Error) × W) (st : State W)
      → Kept I B st.world r.1
      → Sound st
      → Sound (out_of_service ⦃c = c⦄ node r st).1
  unfolding out_of_service
  out_of_service-Sound node ((added, some e), w) st kept s = moved-Sound st w kept s
  out_of_service-Sound node ((true, none), w) st kept s =
      complete-Sound node _ (emit-Sound _ _ _ _ _ (moved-Sound st w kept s))
  out_of_service-Sound node ((false, none), w) st kept s =
      complete-Sound node _ (moved-Sound st w kept s)

  pub execute_params-Sound :
      (r : (Dict String × Bool × Option Error) × W) (st : State W)
      → Kept I B st.world r.1
      → Sound st
      → Sound (execute_params ⦃c = c⦄ r st).1
  unfolding execute_params
  execute_params-Sound ((params, retry, some e), w) st kept s =
      let P : Reply W → Type 0 = λ r. Sound r.1 in
      let moved = moved-Sound st w kept s in
      if-both P (not retry)
        (λ _.
          if-both Sound (error_text e == error_unsupported_action) (λ _. emit-Sound _ _ _ _ _ moved)
            (λ _. moved))
        (λ _. moved)
  execute_params-Sound ((params, retry, none), w) st kept s =
      emit-Sound _ _ _ _ _ (with_executer-Sound _ _ (moved-Sound st w kept s))
