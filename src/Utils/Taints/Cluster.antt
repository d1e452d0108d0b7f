-- ===== src/Utils/Taints/Cluster.antt =====
-- What AppendTaint and RemoveTaint do to the nodes of a cluster on which nobody else writes.
use fence_agents_remediation.Prelude.{
  String, ◌≡◌, ◌≢◌, ◌∙◌, true, false, none, some, arith, eq_iff, eq_refl,
}
use fence_agents_remediation.Objects.{Taint, Node}
use fence_agents_remediation.Libraries.Failures.{FailureApi}
use fence_agents_remediation.Libraries.Marks.{MarkApi}
use fence_agents_remediation.Libraries.Client.{Client, QuietNodes}
use fence_agents_remediation.Utils.Nodes.{get_node_with_name}
use fence_agents_remediation.Utils.Taints.{taint_exists, append_taint, remove_taint}
use fence_agents_remediation.Utils.Taints.Lists.{others, taint_exists-others, match_taint_refl}
use fence_agents_remediation.Utils.Taints.Effects.{
  appended, taint_exists-appended, appended-frame, others-appended, if_ne, append_taint-node_at,
  remove_taint-node_at,
}

module _ {W : Type 0} ⦃f : FailureApi⦄ ⦃m : MarkApi⦄ ⦃c : Client W⦄ (q : QuietNodes f c) where
  open q use {node_at}

  -- On a quiet cluster, an AppendTaint that gives no error leaves on the named node, if there is
  -- one, a taint with the given key and effect, whether it appended it or found it there; every
  -- other taint is there exactly if it was, and the other nodes are unchanged.
  pub append_taint-present :
      (name : String) (t : Taint) (w : W) (x : Node)
      → (append_taint name t w).0.1 ≡ none
      → node_at w name ≡ some x
      → let after = node_at (append_taint name t w).1 in
        (y : Node) × (after name ≡ some y)
        × (taint_exists y.taints t ≡ true)
        × ((s : Taint)
            → m.match_taint t s ≡ false
            → taint_exists y.taints s ≡ taint_exists x.taints s)
        × ((k : String) → k ≢ name → after k ≡ node_at w k)
  append_taint-present name t w x h found = (
    record x { taints = appended (c.now (get_node_with_name name w).1).0 t x.taints },
    append_taint-node_at q name t w name h ∙ rw (eq_refl, found),
    taint_exists-appended _ t x.taints,
    λ s other. appended-frame _ t s x.taints other,
    λ k ne. append_taint-node_at q name t w k h ∙ if_ne name k _ _ ne,
  )

  -- On a quiet cluster, a RemoveTaint that gives no error leaves no taint with the given key and
  -- effect on the named node; every other taint is there exactly if it was, and the other nodes
  -- are unchanged.
  pub remove_taint-absent :
      (name : String) (t : Taint) (w : W) (x : Node)
      → (remove_taint name t w).0 ≡ none
      → node_at w name ≡ some x
      → let after = node_at (remove_taint name t w).1 in
        (y : Node) × (after name ≡ some y)
        × (taint_exists y.taints t ≡ false)
        × ((s : Taint)
            → m.match_taint t s ≡ false
            → taint_exists y.taints s ≡ taint_exists x.taints s)
        × ((k : String) → k ≢ name → after k ≡ node_at w k)
  remove_taint-absent name t w x h found = (
    record x { taints = others x.taints t },
    remove_taint-node_at q name t w name h ∙ rw (eq_refl, found),
    taint_exists-others x.taints t t ∙ rw match_taint_refl,
    λ s other. taint_exists-others x.taints t s ∙ rw other,
    λ k ne. remove_taint-node_at q name t w k h ∙ if_ne name k _ _ ne,
  )

  -- On a quiet cluster, appending a taint that the named node does not have and then removing it,
  -- both with no error, gives every node back as it was.
  pub remove_taint-append_taint :
      (name : String) (t : Taint) (w : W) (x : Node) (k : String)
      → node_at w name ≡ some x
      → taint_exists x.taints t ≡ false
      → (append_taint name t w).0.1 ≡ none
      → (remove_taint name t (append_taint name t w).1).0 ≡ none
      → node_at (remove_taint name t (append_taint name t w).1).1 k ≡ node_at w k
  remove_taint-append_taint name t w x k found fresh h g =
      let w1 = (append_taint name t w).1 in
      let n = (c.now (get_node_with_name name w).1).0 in
      ground (
        arith,
        remove_taint-node_at q name t w1 k g,
        append_taint-node_at q name t w k h,
        append_taint-node_at q name t w name h,
        eq_iff name k,
        eq_refl name,
        others-appended n t x.taints fresh,
      )
