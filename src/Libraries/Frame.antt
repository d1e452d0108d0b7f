-- ===== src/Libraries/Frame.antt =====
-- A relation that every call of the client keeps, but for Status().Update on a resource, the update of
-- a node and DeletePods: what the program does through the other calls, it does within `R`.
use fence_agents_remediation.Prelude.{String}
use fence_agents_remediation.Api.{FenceAgentsRemediation}
use fence_agents_remediation.Libraries.Client.{Client, EventType}

pub record Frame {W : Type 0} (c : Client W) (R : W → W → Type 0) : Type 0 where
  pub stay : (w : W) → R w w
  pub follow : (u v w : W) → R u v → R v w → R u w
  pub now : (w : W) → R w (c.now w).1
  pub get_node : (n : String) (w : W) → R w (c.get_node n w).1
  pub get_secret : (n ns : String) (w : W) → R w (c.get_secret n ns w).1
  pub get_far : (ns n : String) (w : W) → R w (c.get_far ns n w).1
  pub update_far : (x : FenceAgentsRemediation) (w : W) → R w (c.update_far x w).1
  pub event :
      (kind : EventType) (n reason text : String) (w : W) → R w (c.event kind n reason text w)
