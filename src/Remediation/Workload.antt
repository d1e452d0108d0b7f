-- ===== src/Remediation/Workload.antt =====
-- When a reconciliation deletes the pods of a node.
use fence_agents_remediation.Prelude.{
  String, ◌≡◌, refl, ◌∙◌, Bool, true, false, ◌||◌, Option, none, some, ◌⊎◌, inl, inr, ◌==◌, if-both,
}
use fence_agents_remediation.Errors.{Error, ok}
use fence_agents_remediation.Objects.{Node}
use fence_agents_remediation.Libraries.Meta.{MetaApi}
use fence_agents_remediation.Libraries.Failures.{FailureApi}
use fence_agents_remediation.Libraries.Marks.{MarkApi}
use fence_agents_remediation.Libraries.Frame.{Frame}
use fence_agents_remediation.Libraries.Client.{Client, Workload}
use fence_agents_remediation.Libraries.Template.{TemplateEngine}
use fence_agents_remediation.Libraries.Wait.{WaitApi}
use fence_agents_remediation.Api.{FenceAgentsRemediation, resource_deletion_remediation_strategy}
use fence_agents_remediation.Utils.Taints.{append_taint, create_out_of_service_taint}
use fence_agents_remediation.Cli.Routines.{Executer}
use fence_agents_remediation.Remediation.{State, Reply}
use fence_agents_remediation.Remediation.Phases.{out_of_service, finish, reconcile}
use fence_agents_remediation.Remediation.Calls.{append_taint-frame, remove_taint-frame}
use fence_agents_remediation.Remediation.Within.{Moves, Within, complete-Within}
use fence_agents_remediation.Remediation.Ready.{Ready, reconcile-Within}

-- What holds of a resource when the pods of its node are deleted.
pub record MayDelete ⦃m : MetaApi⦄ ⦃mk : MarkApi⦄ (far : FenceAgentsRemediation) : Type 0 where
  pub ready : Ready far
  pub by_deletion :
      (far.spec.remediation_strategy == resource_deletion_remediation_strategy
        || far.spec.remediation_strategy == "")
      ≡ true

module _ {W A : Type 0} (c : Client W) (l : Workload c A) ⦃m : MetaApi⦄ ⦃f : FailureApi⦄
    ⦃mk : MarkApi⦄ (far : FenceAgentsRemediation) where
  open l use {seen}

  -- The workload is as it was, or the resource may have its pods deleted.
  abbrev Spared : W → W → Type 0
  Spared w w' = MayDelete far ⊎ (seen w' ≡ seen w)

  Spared-trans : (u v w : W) → Spared u v → Spared v w → Spared u w
  Spared-trans u v w (inl may) q = inl may
  Spared-trans u v w (inr p) (inl may) = inl may
  Spared-trans u v w (inr p) (inr q) = inr (q ∙ p)

  kept_frame : Frame c Spared
  kept_frame = record {
    stay = λ w. inr refl;
    follow = Spared-trans;
    now = λ w. inr (l.seen-now w);
    get_node = λ n w. inr (l.seen-get_node n w);
    get_secret = λ n ns w. inr (l.seen-get_secret n ns w);
    get_far = λ ns n w. inr (l.seen-get_far ns n w);
    update_far = λ x w. inr (l.seen-update_far x w);
    event = λ kind n reason text w. inr (l.seen-event kind n reason text w);
  }

  kept_update : (x : Node) (w : W) → Spared w (c.update_node x w).1
  kept_update x w = inr (l.seen-update_node x w)

  kept_moves : Moves c Spared
  kept_moves = record {
    frame = kept_frame;
    stored = λ x w. inr (l.seen-update_far_status x w);
    marked = λ n w. append_taint-frame c kept_frame kept_update n _ w;
    released = λ n t w. remove_taint-frame c kept_frame kept_update n t w;
  }

  out_of_service-Spared :
      (node : Node) (r : (Bool × Option Error) × W) (st : State W)
      → Spared st.world r.1
      → Within Spared st (out_of_service ⦃c = c⦄ node r st)
  unfolding out_of_service
  out_of_service-Spared node ((added, some e), w) st before = before
  out_of_service-Spared node ((true, none), w) st before =
      Spared-trans _ _ _ before
        (Spared-trans _ _ _ (kept_frame.event _ _ _ _ w) (complete-Within c kept_moves node _))
  out_of_service-Spared node ((false, none), w) st before =
      Spared-trans _ _ _ before (complete-Within c kept_moves node _)

  finish-Spared :
      (node : Node) (w : W) (e : Executer)
      → Ready far
      → Spared w (finish ⦃c = c⦄ node (record { world = w; executer = e; far = far })).1.world
  unfolding finish
  finish-Spared node w e ready =
      let (now, w1) = c.now w in
      let st : State W = record { world = w; executer = e; far = far } in
      let P : Reply W → Type 0 = λ r. Spared w r.1.world in
      if-both P _ (λ by. inl (record { ready = ready; by_deletion = by }))
        (λ _.
          if-both P _
            (λ _.
              out_of_service-Spared node
                (append_taint ⦃c = c⦄ node.name (create_out_of_service_taint now) w1) st
                (Spared-trans _ _ _ (kept_frame.now w)
                  (append_taint-frame c kept_frame kept_update node.name _ w1)))
            (λ _. inr refl))

  -- A Reconcile of a resource that it has read leaves the workload of the cluster as it is, unless
  -- the resource's fence action has succeeded and its remediation has not yet, it has its finalizer,
  -- is neither being deleted nor timed out by Node Healthcheck, and has the strategy
  -- ResourceDeletion or the empty one.
  pub reconcile-seen :
      ⦃te : TemplateEngine⦄
      → ⦃wt : WaitApi f⦄ → (namespace name : String) (w : W) (e : Executer)
      → (c.get_far namespace name w).0 ≡ ok far
      → MayDelete far ⊎ (seen (reconcile ⦃c = c⦄ namespace name w e).1.0 ≡ seen w)
  reconcile-seen namespace name w e found =
      reconcile-Within c kept_moves far (λ node. Unit)
        (λ node w e _ ready. finish-Spared node w e ready) namespace name w e found (λ x v h. tt)
