-- ===== src/Remediation/Release.antt =====
-- The node of a resource whose finalizer has been removed.
use fence_agents_remediation.Prelude.{
  ℕ, String, ◌≡◌, refl, ◌∙◌, true, false, not, Option, none, some, inl, inr, arith, ◌==◌, if-both,
  Option-cases,
}
use fence_agents_remediation.Errors.{Error, Result, ok, err}
use fence_agents_remediation.Objects.{Node, Taint}
use fence_agents_remediation.Libraries.Failures.{FailureApi}
use fence_agents_remediation.Libraries.Marks.{MarkApi}
use fence_agents_remediation.Libraries.Client.{Client, QuietNodes}
use fence_agents_remediation.Api.{
  FenceAgentsRemediation, far_finalizer, out_of_service_taint_remediation_strategy,
}
use fence_agents_remediation.Utils.Taints.Cluster.{remove_taint-absent}
use fence_agents_remediation.Utils.Taints.Effects.{remove_taint-missing}
use fence_agents_remediation.Utils.Taints.{
  taint_exists, remove_taint, create_remediation_taint, create_out_of_service_taint,
}
use fence_agents_remediation.Remediation.{State, Reply, Answer, answer}
use fence_agents_remediation.Remediation.Deletion.{
  on_removed, finalizer_dropped, drop_finalizer, release_node, handle_far_deletion,
}
use fence_agents_remediation.Remediation.Executers.{released, out_of_service_released}

module _ {W : Type 0} ⦃c : Client W⦄ ⦃f : FailureApi⦄ ⦃mk : MarkApi⦄ (q : QuietNodes f c) where
  open q use {node_at}

  -- The copy of the resource has no finalizer.
  abbrev Dropped : Reply W → Type 0
  Dropped r = mk.contains_finalizer r.1.far.meta.finalizers far_finalizer ≡ false

  -- The node is there without a taint, and what does not match it is as on `x`.
  abbrev Freed : Node → Taint → String → W → Type 0
  Freed x t name w =
      (y : Node) × (node_at w name ≡ some y)
      × (taint_exists y.taints t ≡ false)
      × ((s : Taint)
          → mk.match_taint t s ≡ false
          → taint_exists y.taints s ≡ taint_exists x.taints s)

  on_removed-both :
      (r : Option Error × W) (st : State W) (rest : State W → Reply W) (Q : Reply W → Type 0)
      → ((a : Answer) (w : W) → Q (answer a (record st { world = w })))
      → (((e : Error) → r.0 ≡ some e → f.is_not_found e ≡ true)
          → Q (rest (record st { world = r.1 })))
      → Q (on_removed r st rest)
  unfolding on_removed
  on_removed-both (none, w) st rest Q early late = late (λ e h. absurd (cc h))
  on_removed-both (some x, w) st rest Q early late =
      if-both Q (f.is_conflict x) (λ _. early _ w)
        (λ _.
          if-both Q (not (f.is_not_found x)) (λ _. early _ w) (λ gone. late (λ e h. ground arith)))

  remove_taint-Freed :
      (name : String) (t : Taint) (w : W) (x : Node)
      → node_at w name ≡ some x
      → ((e : Error) → (remove_taint name t w).0 ≡ some e → f.is_not_found e ≡ true)
      → Freed x t name (remove_taint name t w).1
  remove_taint-Freed name t w x found known = elim (Option-cases (remove_taint name t w).0) [
    | inl fine ↦
        let (y, at, free, kept, _) = remove_taint-absent q name t w x fine found in
        (y, at, free, kept)
    | inr (e, failed) ↦
        absurd (cc (remove_taint-missing q name t w e failed (known e failed), found))
  ]

  finalizer_dropped-node_at :
      (r : Result FenceAgentsRemediation × W) (st : State W) (k : String)
      → node_at (finalizer_dropped r st).1.world k ≡ node_at r.1 k
  unfolding finalizer_dropped
  finalizer_dropped-node_at (err e, w) st k = refl
  finalizer_dropped-node_at (ok far, w) st k = q.event-node_at _ _ _ _ k w

  drop_finalizer-node_at :
      (st : State W) (k : String) → node_at (drop_finalizer st).1.world k ≡ node_at st.world k
  unfolding drop_finalizer
  drop_finalizer-node_at st k = finalizer_dropped-node_at _ _ k ∙ q.update_far-node_at _ st.world k

  release_node-Freed :
      (node x : Node) (st : State W)
      → node_at st.world node.name ≡ some x
      → mk.contains_finalizer st.far.meta.finalizers far_finalizer ≡ true
      → Dropped (release_node node st)
      → Freed x create_remediation_taint node.name (release_node node st).1.world
  unfolding release_node
  release_node-Freed node x st found held =
      on_removed-both (remove_taint node.name create_remediation_taint st.world) st
        (λ st. drop_finalizer (released node st))
        (λ r. Dropped r → Freed x create_remediation_taint node.name r.1.world)
        (λ a w dropped. absurd (cc (held, dropped)))
        (λ known dropped.
          let (y, at, free, kept) =
            remove_taint-Freed node.name create_remediation_taint st.world x found known in
          (
            y,
            drop_finalizer-node_at _ node.name ∙ q.event-node_at _ _ _ _ node.name _ ∙ at,
            free,
            kept,
          ))

  remediation_apart :
      (now : ℕ) → mk.match_taint create_remediation_taint (create_out_of_service_taint now) ≡ false
  unfolding create_remediation_taint create_out_of_service_taint
  remediation_apart now =
      mk.match_taint_lem create_remediation_taint (create_out_of_service_taint now)

  -- On a quiet cluster, a handleFARDeletion for a node that is there, from a resource with its
  -- finalizer to one without it, leaves the node without the remediation taint and, under the
  -- strategy OutOfServiceTaint, without the out-of-service taint.
  pub handle_far_deletion-Freed :
      (node x : Node) (st : State W)
      → node_at st.world node.name ≡ some x
      → mk.contains_finalizer st.far.meta.finalizers far_finalizer ≡ true
      → let (_, after) = handle_far_deletion (some node) st in
        mk.contains_finalizer after.far.meta.finalizers far_finalizer ≡ false
        → (y : Node) × (node_at after.world node.name ≡ some y)
          × (taint_exists y.taints create_remediation_taint ≡ false)
          × ((st.far.spec.remediation_strategy == out_of_service_taint_remediation_strategy) ≡ true
              → taint_exists y.taints (create_out_of_service_taint (c.now st.world).0) ≡ false)
  unfolding handle_far_deletion
  handle_far_deletion-Freed node x st found held =
      let (now, w) = c.now st.world in
      let by_taint =
        st.far.spec.remediation_strategy == out_of_service_taint_remediation_strategy in
      let Q : Reply W → Type 0 = λ r.
        Dropped r
        → (y : Node) × (node_at r.1.world node.name ≡ some y)
          × (taint_exists y.taints create_remediation_taint ≡ false)
          × (by_taint ≡ true → taint_exists y.taints (create_out_of_service_taint now) ≡ false) in
      if-both Q by_taint
        (λ _.
          on_removed-both (remove_taint node.name (create_out_of_service_taint now) w) st
            (λ st. release_node node (out_of_service_released node st)) Q
            (λ a w dropped. absurd (cc (held, dropped)))
            (λ known dropped.
              let (z, at, free, _) =
                remove_taint-Freed node.name (create_out_of_service_taint now) w x
                  (q.now-node_at st.world node.name ∙ found) known in
              let (y, here, clean, kept) =
                release_node-Freed node z _ (q.event-node_at _ _ _ _ node.name _ ∙ at) held
                  dropped in
              (
                y,
                here,
                clean,
                λ _. kept (create_out_of_service_taint now) (remediation_apart now) ∙ free,
              )))
        (λ other dropped.
          let (y, here, clean, _) = release_node-Freed node x st found held dropped in
          (y, here, clean, λ by. absurd (cc (by, other))))
