-- ===== src/Remediation/Lifecycle/Parts.antt =====
-- The status of the resource after the parts of Reconcile that may change it.
use fence_agents_remediation.Prelude.{
  ℕ, ◌≡◌, refl, sym, Bool, true, false, not, ◌||◌, Option, none, some, inl, inr, ◌==◌, if-both,
  subst, Option-cases,
}
use fence_agents_remediation.Errors.{Error, Result, ok, Result-cases}
use fence_agents_remediation.Objects.{Node}
use fence_agents_remediation.Libraries.Meta.{MetaApi}
use fence_agents_remediation.Libraries.Failures.{FailureApi}
use fence_agents_remediation.Libraries.Marks.{MarkApi}
use fence_agents_remediation.Libraries.Client.{Client, normal}
use fence_agents_remediation.Api.{
  FenceAgentsRemediation, far_finalizer, resource_deletion_remediation_strategy,
  out_of_service_taint_remediation_strategy,
}
use fence_agents_remediation.Utils.Conditions.{
  ConditionsChangeReason, remediation_started, remediation_interrupted_by_nhc,
  remediation_finished_node_not_found, remediation_finished_successfully, update_conditions,
}
use fence_agents_remediation.Utils.Taints.{
  append_taint, remove_taint, create_remediation_taint, create_out_of_service_taint,
}
use fence_agents_remediation.Cli.Routines.{Executer}
use fence_agents_remediation.Remediation.{
  State, Reply, emit, with_updated, with_conditions, is_timed_out_by_nhc, is_deleting,
}
use fence_agents_remediation.Remediation.Deletion.{
  on_removed, finalizer_dropped, drop_finalizer, release_node, handle_far_deletion,
}
use fence_agents_remediation.Remediation.Phases.{
  stop_by_nhc, node_missing, finalizer_added, complete, pods_deleted, out_of_service, add_finalizer,
  finish,
}
use fence_agents_remediation.Remediation.Ready.{Ready}
use fence_agents_remediation.Remediation.Lifecycle.{
  with_finalizer, without_finalizer, Freed, Sent, unchanged, released, begun, missed, interrupted,
  finished,
}

module _ {W : Type 0} ⦃m : MetaApi⦄ (c : Client W) (P : FenceAgentsRemediation → Type 0) where
  -- A change of the conditions, and then what leaves the resource alone.
  with_conditions-far :
      (reason : ConditionsChangeReason) (st : State W) (rest : State W → Reply W)
      → P st.far
      → ((now : ℕ) (after : FenceAgentsRemediation)
          → update_conditions now reason st.far ≡ some after
          → P after)
      → ((st' : State W) → (rest st').1.far ≡ st'.far)
      → P (with_conditions ⦃c = c⦄ reason st rest).1.far
  unfolding with_conditions with_updated
  with_conditions-far reason st rest before changed kept =
      let (now, w) = c.now st.world in
      elim (Option-cases (update_conditions now reason st.far)) [
        | inl panics ↦ rw panics before
        | inr (after, same) ↦
            rw same
              (subst P (sym (kept (record st { world = w; far = after }))) (changed now after same))
      ]

  -- A removal of a taint, and then the rest.
  on_removed-far :
      ⦃f : FailureApi⦄
      → (r : Option Error × W) (st : State W) (rest : State W → Reply W) → P st.far
      → ((w : W) → P (rest (record st { world = w })).1.far)
      → P (on_removed r st rest).1.far
  unfolding on_removed
  on_removed-far (none, w) st rest before next = next w
  on_removed-far ⦃f⦄ (some x, w) st rest before next =
      if-both (λ (r : Reply W). P r.1.far) (f.is_conflict x) (λ _. before)
        (λ _.
          if-both (λ (r : Reply W). P r.1.far) (not (f.is_not_found x)) (λ _. before) (λ _. next w))

module _ {W : Type 0} (c : Client W) ⦃m : MetaApi⦄ ⦃f : FailureApi⦄ ⦃mk : MarkApi⦄
    (far : FenceAgentsRemediation) where
  abbrev state : W → Executer → State W
  state w e = record { world = w; executer = e; far = far }

  pub stop_by_nhc-Sent :
      (node : Result (Option Node)) (w : W) (e : Executer)
      → is_timed_out_by_nhc far ≡ true
      → Sent c far node (stop_by_nhc ⦃c = c⦄ (state w e)).1.far
  unfolding stop_by_nhc
  stop_by_nhc-Sent node w e late =
      with_conditions-far c (Sent c far node) remediation_interrupted_by_nhc _ _ (unchanged refl)
        (λ now after same. interrupted now late same) (λ st. refl)

  pub node_missing-Sent :
      (w : W) (e : Executer) → Sent c far (ok none) (node_missing ⦃c = c⦄ (state w e)).1.far
  unfolding node_missing
  node_missing-Sent w e =
      with_conditions-far c (Sent c far (ok none)) remediation_finished_node_not_found _ _
        (unchanged refl) (λ now after same. missed now refl same) (λ st. refl)

  finalizer_added-Sent :
      (node : Result (Option Node)) (w : W) (e : Executer)
      → mk.contains_finalizer far.meta.finalizers far_finalizer ≡ false
      → Sent c far node
          (finalizer_added ⦃c = c⦄
            (c.update_far (with_finalizer far) w)
            (record { world = w; executer = e; far = with_finalizer far })).1.far
  unfolding finalizer_added
  finalizer_added-Sent node w e absent =
      elim (Result-cases (c.update_far (with_finalizer far) w).0) [
        | inl (stored, updated) ↦ rw updated (
            with_conditions-far c (Sent c far node) remediation_started _ _
              (begun stored w 0 absent updated (inl refl))
              (λ now after change. begun stored w now absent updated (inr change)) (λ st. refl))
        | inr (e, failed) ↦ rw failed (unchanged refl)
      ]

  pub add_finalizer-Sent :
      (node : Result (Option Node)) (w : W) (e : Executer)
      → mk.contains_finalizer far.meta.finalizers far_finalizer ≡ false
      → Sent c far node (add_finalizer ⦃c = c⦄ (state w e)).1.far
  unfolding add_finalizer
  add_finalizer-Sent node w e absent = finalizer_added-Sent node w e absent

  complete-Sent :
      (n : Node) (w : W) (e : Executer)
      → Ready far
      → Freed c far n
      → Sent c far (ok (some n)) (complete ⦃c = c⦄ n (state w e)).1.far
  unfolding complete
  complete-Sent n w e ready freed =
      with_conditions-far c (Sent c far (ok (some n))) remediation_finished_successfully _ _
        (unchanged refl) (λ now after same. finished n now refl ready freed same) (λ st. refl)

  pods_deleted-Sent :
      (n : Node) (r : Option Error × W) (w : W) (e : Executer)
      → Ready far
      → (r.0 ≡ none → Freed c far n)
      → Sent c far (ok (some n)) (pods_deleted ⦃c = c⦄ n r (state w e)).1.far
  unfolding pods_deleted
  pods_deleted-Sent n (none, v) w e ready freed = complete-Sent n v e ready (freed refl)
  pods_deleted-Sent n (some x, v) w e ready freed = unchanged refl

  out_of_service-Sent :
      (n : Node) (r : (Bool × Option Error) × W) (w : W) (e : Executer)
      → Ready far
      → (r.0.1 ≡ none → Freed c far n)
      → Sent c far (ok (some n)) (out_of_service ⦃c = c⦄ n r (state w e)).1.far
  unfolding out_of_service
  out_of_service-Sent n ((added, some x), v) w e ready freed = unchanged refl
  out_of_service-Sent n ((true, none), v) w e ready freed = complete-Sent n _ e ready (freed refl)
  out_of_service-Sent n ((false, none), v) w e ready freed = complete-Sent n v e ready (freed refl)

  pub finish-Sent :
      (n : Node) (w : W) (e : Executer)
      → Ready far
      → Sent c far (ok (some n)) (finish ⦃c = c⦄ n (state w e)).1.far
  unfolding finish
  finish-Sent n w e ready =
      let P : Reply W → Type 0 = λ r. Sent c far (ok (some n)) r.1.far in
      let (now, w1) = c.now w in
      let w2 =
        (emit ⦃c = c⦄ normal n.name "DeleteResources" "Manually delete pods from the unhealthy node"
          (state w e)).world in
      let marked = append_taint ⦃c = c⦄ n.name (create_out_of_service_taint now) w1 in
      if-both P
        (far.spec.remediation_strategy == resource_deletion_remediation_strategy
          || far.spec.remediation_strategy == "")
        (λ by.
          pods_deleted-Sent n (c.delete_pods n.name w2) w2 e ready (λ done. inl (by, w2, done)))
        (λ _.
          if-both P (far.spec.remediation_strategy == out_of_service_taint_remediation_strategy)
            (λ by. out_of_service-Sent n marked w e ready (λ done. inr (by, w1, now, done)))
            (λ _. unchanged refl))

  -- The parts of the deletion.
  finalizer_dropped-Sent :
      (node : Result (Option Node)) (w : W) (e : Executer)
      → is_deleting far ≡ true
      → Sent c far node
          (finalizer_dropped ⦃c = c⦄
            (c.update_far (without_finalizer far) w)
            (record { world = w; executer = e; far = without_finalizer far })).1.far
  unfolding finalizer_dropped
  finalizer_dropped-Sent node w e deleting =
      elim (Result-cases (c.update_far (without_finalizer far) w).0) [
        | inl (stored, updated) ↦ rw updated (released w deleting updated)
        | inr (e, failed) ↦ rw failed (unchanged refl)
      ]

  drop_finalizer-Sent :
      (node : Result (Option Node)) (w : W) (e : Executer)
      → is_deleting far ≡ true
      → Sent c far node (drop_finalizer ⦃c = c⦄ (state w e)).1.far
  unfolding drop_finalizer
  drop_finalizer-Sent node w e deleting = finalizer_dropped-Sent node w e deleting

  release_node-Sent :
      (node : Result (Option Node)) (n : Node) (w : W) (e : Executer)
      → is_deleting far ≡ true
      → Sent c far node (release_node ⦃c = c⦄ n (state w e)).1.far
  unfolding release_node
  release_node-Sent node n w e deleting =
      on_removed-far c (Sent c far node) (remove_taint ⦃c = c⦄ n.name create_remediation_taint w)
        (state w e)
        (λ st.
          drop_finalizer ⦃c = c⦄ (
            emit ⦃c = c⦄ normal n.name "RemoveRemediationTaint" "Remediation taint was removed" st))
        (unchanged refl) (λ v. drop_finalizer-Sent node _ e deleting)

  pub handle_far_deletion-Sent :
      (node : Result (Option Node)) (o : Option Node) (w : W) (e : Executer)
      → is_deleting far ≡ true
      → Sent c far node (handle_far_deletion ⦃c = c⦄ o (state w e)).1.far
  unfolding handle_far_deletion
  handle_far_deletion-Sent node none w e deleting = drop_finalizer-Sent node w e deleting
  handle_far_deletion-Sent node (some n) w e deleting =
      let (now, w1) = c.now w in
      if-both (λ (r : Reply W). Sent c far node r.1.far)
        (far.spec.remediation_strategy == out_of_service_taint_remediation_strategy)
        (λ _.
          on_removed-far c (Sent c far node)
            (remove_taint ⦃c = c⦄ n.name (create_out_of_service_taint now) w1) (state w e)
            (λ st. release_node ⦃c = c⦄ n (
              emit ⦃c = c⦄ normal n.name "RemoveOutOfServiceTaint"
                "The out-of-service taint was removed" st))
            (unchanged refl) (λ v. release_node-Sent node n _ e deleting))
        (λ _. release_node-Sent node n w e deleting)
