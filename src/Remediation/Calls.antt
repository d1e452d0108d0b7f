-- ===== src/Remediation/Calls.antt =====
-- AppendTaint, RemoveTaint, BuildFenceAgentParams and updateStatus within a frame.
use fence_agents_remediation.Prelude.{
  pos, String, ◌≡◌, refl, ◌&&◌, Bool, arith, true, false, not, Option, none, some, [], ◌∷◌, ◌++◌,
  inl, inr, if-both, if◌then◌else◌,
}
use fence_agents_remediation.Prelude.Dict.{Dict}
use fence_agents_remediation.Errors.{Error, Outcome, Result, ok, err, Result-cases}
use fence_agents_remediation.Objects.{Node, Taint}
use fence_agents_remediation.Libraries.Failures.{FailureApi}
use fence_agents_remediation.Libraries.Marks.{MarkApi}
use fence_agents_remediation.Libraries.Client.{Client}
use fence_agents_remediation.Libraries.Frame.{Frame}
use fence_agents_remediation.Libraries.Template.{TemplateEngine}
use fence_agents_remediation.Libraries.Wait.{WaitApi}
use fence_agents_remediation.Api.{FenceAgentsRemediation, far_finalizer}
use fence_agents_remediation.Api.Params.{get_node_name, get_nilable}
use fence_agents_remediation.Api.Secrets.{
  collect_secret_params, collect_node_secret_params, collect_shared_secret_params,
  collect_all_secret_params, build_fence_agent_params,
}
use fence_agents_remediation.Utils.Nodes.{get_node_with_name}
use fence_agents_remediation.Utils.Taints.{
  taint_exists, delete_taint, append_taint, append_taint_to, append_taint_after, remove_taint,
  remove_taint_from, remove_taint_after,
}
use fence_agents_remediation.Cli.Executer.{Attempt}
use fence_agents_remediation.Remediation.{
  is_deleting, poll_of_read, is_cached, wait_result, await_cache, update_status,
}

module _ {W : Type 0} {R : W → W → Type 0} (c : Client W) (fr : Frame c R) ⦃f : FailureApi⦄ where
  pub get_node_with_name-frame : (n : String) (w : W) → R w (get_node_with_name ⦃c = c⦄ n w).1
  unfolding get_node_with_name
  get_node_with_name-frame n w = fr.get_node n w

module _ {W : Type 0} (c : Client W) ⦃f : FailureApi⦄ ⦃mk : MarkApi⦄ where
  pub append_taint_to-world :
      (x : Node) (t : Taint) (w : W)
      → (append_taint_to ⦃c = c⦄ x t w).1 ≡ (
          if taint_exists x.taints t
          then w
          else (c.update_node
              (record x { taints = x.taints ++ record t { time_added = some (c.now w).0 } ∷ [] })
              (c.now w).1).1)
  unfolding append_taint_to
  append_taint_to-world x t w = ground arith

module _ {W : Type 0} {R : W → W → Type 0} (c : Client W) (fr : Frame c R)
    (update : (x : Node) (w : W) → R w (c.update_node x w).1) ⦃f : FailureApi⦄ ⦃mk : MarkApi⦄ where
  append_taint_to-frame : (x : Node) (t : Taint) (w : W) → R w (append_taint_to ⦃c = c⦄ x t w).1
  append_taint_to-frame x t w = rw (append_taint_to-world c x t w) (
      if-both (λ (w' : W). R w w') (taint_exists x.taints t) (λ _. fr.stay w)
        (λ _. fr.follow _ _ _ (fr.now w) (update _ (c.now w).1)))

  append_taint_after-frame :
      (t : Taint) (r : Result (Option Node) × W) → R r.1 (append_taint_after ⦃c = c⦄ t r).1
  unfolding append_taint_after
  append_taint_after-frame t (err e, w) = fr.stay w
  append_taint_after-frame t (ok none, w) = fr.stay w
  append_taint_after-frame t (ok (some x), w) = append_taint_to-frame x t w

  pub append_taint-frame : (n : String) (t : Taint) (w : W) → R w (append_taint ⦃c = c⦄ n t w).1
  unfolding append_taint
  append_taint-frame n t w =
      fr.follow _ _ _ (get_node_with_name-frame c fr n w)
        (append_taint_after-frame t (get_node_with_name ⦃c = c⦄ n w))

  remove_taint_from-frame : (x : Node) (t : Taint) (w : W) → R w (remove_taint_from ⦃c = c⦄ x t w).1
  unfolding remove_taint_from
  remove_taint_from-frame x t w =
      let P : Option Error × W → Type 0 = λ r. R w r.1 in
      if-both P (taint_exists x.taints t)
        (λ _. if-both P (delete_taint x.taints t).1 (λ _. update _ w) (λ _. fr.stay w))
        (λ _. fr.stay w)

  remove_taint_after-frame :
      (t : Taint) (r : Result (Option Node) × W) → R r.1 (remove_taint_after ⦃c = c⦄ t r).1
  unfolding remove_taint_after
  remove_taint_after-frame t (err e, w) = fr.stay w
  remove_taint_after-frame t (ok none, w) = fr.stay w
  remove_taint_after-frame t (ok (some x), w) = remove_taint_from-frame x t w

  pub remove_taint-frame : (n : String) (t : Taint) (w : W) → R w (remove_taint ⦃c = c⦄ n t w).1
  unfolding remove_taint
  remove_taint-frame n t w =
      fr.follow _ _ _ (get_node_with_name-frame c fr n w)
        (remove_taint_after-frame t (get_node_with_name ⦃c = c⦄ n w))

module _ {W : Type 0} {R : W → W → Type 0} (c : Client W) (fr : Frame c R) ⦃f : FailureApi⦄ where
  collect_secret_params-world :
      (n ns : String) (w : W) → (collect_secret_params ⦃c = c⦄ n ns w).1 ≡ (c.get_secret n ns w).1
  unfolding collect_secret_params
  collect_secret_params-world n ns w = ground arith

  collect_secret_params-frame :
      (n ns : String) (w : W) → R w (collect_secret_params ⦃c = c⦄ n ns w).1
  collect_secret_params-frame n ns w =
      rw (collect_secret_params-world n ns w) (fr.get_secret n ns w)

  collect_node_secret_params-frame :
      (o : Option String) (ns : String) (st : Dict String × Bool) (w : W)
      → R w (collect_node_secret_params ⦃c = c⦄ o ns st w).1
  unfolding collect_node_secret_params
  collect_node_secret_params-frame none ns st w = fr.stay w
  collect_node_secret_params-frame (some n) ns st w = collect_secret_params-frame n ns w

module _ {W : Type 0} {R : W → W → Type 0} (c : Client W) (fr : Frame c R) ⦃f : FailureApi⦄
    ⦃te : TemplateEngine⦄ where
  collect_shared_secret_params-frame :
      (o : Option String) (ns node : String) (w : W)
      → R w (collect_shared_secret_params ⦃c = c⦄ o ns node w).1
  unfolding collect_shared_secret_params
  collect_shared_secret_params-frame none ns node w = fr.stay w
  collect_shared_secret_params-frame (some n) ns node w = collect_secret_params-frame c fr n ns w

  collect_all_secret_params-frame :
      (far : FenceAgentsRemediation) (node : String) (w : W)
      → R w (collect_all_secret_params ⦃c = c⦄ far node w).1
  unfolding collect_all_secret_params
  collect_all_secret_params-frame far node w =
      let shared =
        collect_shared_secret_params ⦃c = c⦄ far.spec.shared_secret_name far.meta.namespace node
          w in
      let own = get_nilable far.spec.node_secret_names node in
      let before =
        collect_shared_secret_params-frame far.spec.shared_secret_name far.meta.namespace node w in
      elim (Result-cases shared.0) [
        | inl (st, found) ↦
            rw (collect_all_secret_params, found)
              (fr.follow _ _ _ before
                (collect_node_secret_params-frame c fr own far.meta.namespace st shared.1))
        | inr (e, failed) ↦ rw (collect_all_secret_params, failed) before
      ]

  pub build_fence_agent_params-frame :
      (far : FenceAgentsRemediation) (w : W) → R w (build_fence_agent_params ⦃c = c⦄ far w).1
  unfolding build_fence_agent_params
  build_fence_agent_params-frame far w = collect_all_secret_params-frame far (get_node_name far) w

module _ {W : Type 0} {R : W → W → Type 0} (c : Client W) (fr : Frame c R) ⦃f : FailureApi⦄
    ⦃mk : MarkApi⦄ ⦃wt : WaitApi f⦄ where
  poll_of_read-world :
      (far : FenceAgentsRemediation) (r : Result FenceAgentsRemediation × W)
      → (poll_of_read far r).1.world ≡ r.1
  unfolding poll_of_read
  poll_of_read-world far (err e, w) = refl
  poll_of_read-world far (ok x, w) = ground arith

  wait_result-world : (r : Option Error × Attempt W) → (wait_result r).1 ≡ r.1.world
  unfolding wait_result
  wait_result-world r = ground arith

  is_cached-frame :
      (far : FenceAgentsRemediation) (st : Attempt W)
      → R st.world (is_cached ⦃c = c⦄ far st).1.world
  unfolding is_cached
  is_cached-frame far st =
      rw (poll_of_read-world far (c.get_far far.meta.namespace far.meta.name st.world))
        (fr.get_far far.meta.namespace far.meta.name st.world)

  await_cache-frame : (r : Result FenceAgentsRemediation × W) → R r.1 (await_cache ⦃c = c⦄ r).1
  unfolding await_cache
  await_cache-frame (err e, w) = fr.stay w
  await_cache-frame (ok far, w) = rw (wait_result-world _) (
      wt.poll_until_invariant (λ (st : Attempt W). R w st.world) (pos 200000000) (pos 5000000000)
        true (is_cached ⦃c = c⦄ far) (record { world = w; crashed = false })
        (λ st kept. fr.follow _ _ _ kept (is_cached-frame far st)) (fr.stay w))

  -- updateStatus, where its call of Status().Update is kept too.
  pub update_status-frame :
      (far : FenceAgentsRemediation) (w : W)
      → R w (c.update_far_status far w).1
      → R w (update_status ⦃c = c⦄ far w).1
  unfolding update_status
  update_status-frame far w stored =
      if-both (λ (r : Outcome (Option Error) × W). R w r.1)
        (not (mk.contains_finalizer far.meta.finalizers far_finalizer) && is_deleting far)
        (λ _. fr.stay w)
        (λ _. fr.follow _ _ _ stored (await_cache-frame (c.update_far_status far w)))
