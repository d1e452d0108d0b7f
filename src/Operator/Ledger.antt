-- ===== src/Operator/Ledger.antt =====
-- What a reconciliation and a goroutine need of the cluster to keep a property `I` of it: a resource
-- whose fence action is True is read only if `B` holds of its UID, and may be written only then.
use fence_agents_remediation.Prelude.{String, ◌≡◌, true, List, All}
use fence_agents_remediation.Errors.{ok}
use fence_agents_remediation.Objects.{Node}
use fence_agents_remediation.Libraries.Meta.{MetaApi}
use fence_agents_remediation.Libraries.Client.{Client}
use fence_agents_remediation.Libraries.Frame.{Frame}
use fence_agents_remediation.Api.{FenceAgentsRemediation}
use fence_agents_remediation.Utils.Conditions.Fenced.{is_fenced}

module _ {W : Type 0} (I : W → Type 0) (B : W → String → Type 0) where
  abbrev pub Kept : W → W → Type 0
  Kept w w' = (I w → I w') × ((u : String) → B w u → B w' u)

  pub Kept-trans : (u v w : W) → Kept u v → Kept v w → Kept u w
  Kept-trans u v w (i, b) (j, d) = ((λ x. j (i x)), (λ n x. d n (b n x)))

  -- If a resource says that its node is fenced, `B` holds of its UID.
  abbrev pub Honest : ⦃m : MetaApi⦄ → W → FenceAgentsRemediation → Type 0
  Honest w far = is_fenced far ≡ true → B w far.meta.uid

  pub record Ledger ⦃m : MetaApi⦄ (c : Client W) : Type 0 where
    pub frame : Frame c Kept
    pub update_node : (x : Node) (w : W) → Kept w (c.update_node x w).1
    pub delete_pods : (n : String) (w : W) → Kept w (c.delete_pods n w).1
    pub list_fars : (w : W) → Kept w (c.list_fars w).1
    pub far_read :
        (ns n : String) (w : W) (far : FenceAgentsRemediation)
        → I w
        → (c.get_far ns n w).0 ≡ ok far
        → Honest w far
    pub far_updated :
        (x : FenceAgentsRemediation) (w : W) (far : FenceAgentsRemediation)
        → I w
        → (c.update_far x w).0 ≡ ok far
        → Honest w far
    pub fars_listed :
        (w : W) (fars : List FenceAgentsRemediation)
        → I w
        → (c.list_fars w).0 ≡ ok fars
        → All (Honest w) fars
    pub status_written :
        (x : FenceAgentsRemediation) (w : W) → Honest w x → Kept w (c.update_far_status x w).1
