-- ===== src/Remediation/OutOfService/Reconciles.antt =====
-- When a reconciliation puts the out-of-service taint on a node.
use fence_agents_remediation.Prelude.{
  String, ◌≡◌, ◌∙◌, Bool, true, false, ◌||◌, Option, none, some, ◌⊎◌, inl, inr, ◌==◌, if-both,
  arith,
}
use fence_agents_remediation.Errors.{Error, Result, ok, err}
use fence_agents_remediation.Objects.{Node}
use fence_agents_remediation.Libraries.Meta.{MetaApi}
use fence_agents_remediation.Libraries.Failures.{FailureApi}
use fence_agents_remediation.Libraries.Marks.{MarkApi}
use fence_agents_remediation.Libraries.Client.{Client, normal}
use fence_agents_remediation.Libraries.Template.{TemplateEngine}
use fence_agents_remediation.Libraries.Wait.{WaitApi}
use fence_agents_remediation.Api.{
  FenceAgentsRemediation, out_of_service_taint_remediation_strategy,
  resource_deletion_remediation_strategy,
}
use fence_agents_remediation.Api.Params.{get_node_name}
use fence_agents_remediation.Utils.Nodes.{get_node_with_name, found_or_nil}
use fence_agents_remediation.Utils.Taints.{append_taint, create_out_of_service_taint}
use fence_agents_remediation.Cli.Routines.{Executer}
use fence_agents_remediation.Remediation.{State, Reply, emit}
use fence_agents_remediation.Remediation.Phases.{pods_deleted, out_of_service, finish, reconcile}
use fence_agents_remediation.Remediation.Within.{Moves, Within, complete-Within}
use fence_agents_remediation.Remediation.Ready.{Ready, reconcile-Within}
use fence_agents_remediation.Remediation.OutOfService.{TaintHistory, MayTaint}
use fence_agents_remediation.Remediation.OutOfService.Calls.{
  append_taint-marked, remove_taint-tainted, append_taint-named,
}

found_node :
    ⦃f : FailureApi⦄ → (r : Result Node) (x : Node) → found_or_nil r ≡ ok (some x) → r ≡ ok x
unfolding found_or_nil
found_node (ok y) x h = cc
found_node ⦃f⦄ (err e) x h = ground arith

module _ {W : Type 0} ⦃m : MetaApi⦄ ⦃f : FailureApi⦄ ⦃mk : MarkApi⦄ (c : Client W)
    (h : TaintHistory c) (far : FenceAgentsRemediation) where
  open h use {tainted}

  -- A node is tainted only if it was, or it is the node of a resource that may have it tainted.
  abbrev Sparing : W → W → Type 0
  Sparing w w' =
      (n : String) → tainted w' n → tainted w n ⊎ (MayTaint far × (n ≡ get_node_name far))

  Sparing-trans : (u v w : W) → Sparing u v → Sparing v w → Sparing u w
  Sparing-trans u v w p q n now = elim (q n now) [ inl old ↦ p n old | inr may ↦ inr may ]

  sparing : (w w' : W) → ((n : String) → tainted w' n → tainted w n) → Sparing w w'
  sparing w w' back n now = inl (back n now)

  kept_moves : Moves c Sparing
  kept_moves = record {
    frame = record {
      stay = λ w. sparing w w (h.frame.stay w);
      follow = Sparing-trans;
      now = λ w. sparing _ _ (h.frame.now w);
      get_node = λ n w. sparing _ _ (h.frame.get_node n w);
      get_secret = λ n ns w. sparing _ _ (h.frame.get_secret n ns w);
      get_far = λ ns n w. sparing _ _ (h.frame.get_far ns n w);
      update_far = λ x w. sparing _ _ (h.frame.update_far x w);
      event = λ kind n reason text w. sparing _ _ (h.frame.event kind n reason text w);
    };
    stored = λ x w. sparing _ _ (h.stored x w);
    marked = λ n w. sparing _ _ (append_taint-marked c h n w);
    released = λ n t w. sparing _ _ (remove_taint-tainted c h n t w);
  }

  open kept_moves.frame use {follow}

  pods_deleted-Sparing :
      (node : Node) (r : Option Error × W) (st : State W)
      → Sparing st.world r.1
      → Within Sparing st (pods_deleted ⦃c = c⦄ node r st)
  unfolding pods_deleted
  pods_deleted-Sparing node (some e, w) st before = before
  pods_deleted-Sparing node (none, w) st before =
      follow _ _ _ before (complete-Within c kept_moves node _)

  out_of_service-Sparing :
      (node : Node) (r : (Bool × Option Error) × W) (st : State W)
      → Sparing st.world r.1
      → Within Sparing st (out_of_service ⦃c = c⦄ node r st)
  unfolding out_of_service
  out_of_service-Sparing node ((added, some e), w) st before = before
  out_of_service-Sparing node ((true, none), w) st before =
      follow _ _ _ before
        (follow _ _ _ (kept_moves.frame.event _ _ _ _ w) (complete-Within c kept_moves node _))
  out_of_service-Sparing node ((false, none), w) st before =
      follow _ _ _ before (complete-Within c kept_moves node _)

  finish-Sparing :
      (node : Node) (w : W) (e : Executer)
      → node.name ≡ get_node_name far
      → Ready far
      → Sparing w (finish ⦃c = c⦄ node (record { world = w; executer = e; far = far })).1.world
  unfolding finish
  finish-Sparing node w e name ready =
      let (now, w1) = c.now w in
      let st : State W = record { world = w; executer = e; far = far } in
      let P : Reply W → Type 0 = λ r. Sparing w r.1.world in
      let st1 : State W =
        emit ⦃c = c⦄ normal node.name "DeleteResources"
          "Manually delete pods from the unhealthy node" st in
      if-both P
        (far.spec.remediation_strategy == resource_deletion_remediation_strategy
          || far.spec.remediation_strategy == "")
        (λ _. follow _ _ _ (kept_moves.frame.event _ _ _ _ w) (
          pods_deleted-Sparing node (c.delete_pods node.name st1.world) st1
            (sparing _ _ (h.drained node.name st1.world))))
        (λ _.
          if-both P (far.spec.remediation_strategy == out_of_service_taint_remediation_strategy)
            (λ by.
              out_of_service-Sparing node
                (append_taint ⦃c = c⦄ node.name (create_out_of_service_taint now) w1) st
                (follow _ _ _ (kept_moves.frame.now w) (λ k tainted.
                  elim (append_taint-named c h node.name _ w1 k tainted) [
                    | inl old ↦ inl old
                    | inr same ↦ inr (record { ready = ready; by_taint = by }, same ∙ name)
                  ])))
            (λ _. kept_moves.frame.stay w))

  -- After a Reconcile of a resource that it has read, a node has had the out-of-service taint only if
  -- it had it before, or it is the node of the resource, whose fence action has succeeded and whose
  -- remediation has not yet, which has its finalizer, is neither being deleted nor timed out by Node
  -- Healthcheck, and has the strategy OutOfServiceTaint.
  pub reconcile-tainted :
      ⦃te : TemplateEngine⦄
      → ⦃wt : WaitApi f⦄ → (namespace name : String) (w : W) (e : Executer) (n : String)
      → (c.get_far namespace name w).0 ≡ ok far
      → tainted (reconcile ⦃c = c⦄ namespace name w e).1.0 n
      → tainted w n ⊎ (MayTaint far × (n ≡ get_node_name far))
  unfolding get_node_with_name
  reconcile-tainted namespace name w e n found =
      reconcile-Within c kept_moves far (λ node. node.name ≡ get_node_name far) finish-Sparing
        namespace name w e found
        (λ x v there. h.named (get_node_name far) v x (found_node (c.get_node _ v).0 x there)) n
