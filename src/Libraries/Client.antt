-- ===== src/Libraries/Client.antt =====
-- client.Client of sigs.k8s.io/controller-runtime, and the calls that the program makes through
-- it. `W` is the cluster; every call may see it changed by others since the last one.
use fence_agents_remediation.Prelude.{
  ℕ, String, ◌≡◌, true, Option, none, some, List, ◌==◌, if◌then◌else◌,
}
use fence_agents_remediation.Errors.{Error, Result, ok, err}
use fence_agents_remediation.Objects.{Node, Secret, Pod}
use fence_agents_remediation.Api.{FenceAgentsRemediation, FenceAgentsRemediationTemplate}
use fence_agents_remediation.Libraries.Failures.{FailureApi}

pub data EventType : Type 0 where
  normal warning : EventType

-- A call names the object by its name, or by its namespace and its name. Update and
-- Status().Update return the object as the API server has stored it.
pub record Client (W : Type 0) : Type 0 where
  pub now : W → ℕ × W  -- metav1.Now
  pub get_node : String → W → Result Node × W
  pub update_node : Node → W → Option Error × W
  pub get_secret : String → String → W → Result Secret × W
  pub get_far : String → String → W → Result FenceAgentsRemediation × W
  pub update_far : FenceAgentsRemediation → W → Result FenceAgentsRemediation × W
  pub update_far_status : FenceAgentsRemediation → W → Result FenceAgentsRemediation × W
  pub list_fars : W → Result (List FenceAgentsRemediation) × W
  pub list_pods : String → String → String → W → Result (List Pod) × W
  pub get_template : String → String → W → Result FenceAgentsRemediationTemplate × W
  pub patch_template_status : FenceAgentsRemediationTemplate → W → Option Error × W
  -- The functions of commonEvents, on the name of an object, with a reason and a message.
  pub event : EventType → String → String → String → W → W
  pub delete_pods : String → W → Option Error × W  -- commonResources.DeletePods

-- The nodes of a cluster on which nobody else writes: `node_at` is what it holds.
pub record QuietNodes {W : Type 0} (f : FailureApi) (c : Client W) : Type 0 where
  pub node_at : W → String → Option Node
  pub now-node_at : (w : W) (k : String) → node_at (c.now w).1 k ≡ node_at w k
  pub get-node_at : (n k : String) (w : W) → node_at (c.get_node n w).1 k ≡ node_at w k
  pub get_ok :
      (n : String) (w : W) (x : Node)
      → (c.get_node n w).0 ≡ ok x
      → (node_at w n ≡ some x) × (x.name ≡ n)
  pub get_not_found :
      (n : String) (w : W) (e : Error)
      → (c.get_node n w).0 ≡ err e
      → f.is_not_found e ≡ true
      → node_at w n ≡ none
  pub update_ok :
      (x : Node) (w : W) (k : String)
      → (c.update_node x w).0 ≡ none
      → node_at (c.update_node x w).1 k ≡ (if x.name == k then some x else node_at w k)
  -- The API server says so only if the node is not there.
  pub update_not_found :
      (x : Node) (w : W) (e : Error)
      → (c.update_node x w).0 ≡ some e
      → f.is_not_found e ≡ true
      → node_at w x.name ≡ none
  pub event-node_at :
      (kind : EventType) (n reason text k : String) (w : W)
      → node_at (c.event kind n reason text w) k ≡ node_at w k
  pub update_far-node_at :
      (x : FenceAgentsRemediation) (w : W) (k : String)
      → node_at (c.update_far x w).1 k ≡ node_at w k

-- What only DeletePods changes, such as which pods a node runs: every other call keeps `seen`.
pub record Workload {W : Type 0} (c : Client W) (A : Type 0) : Type 0 where
  pub seen : W → A
  pub seen-now : (w : W) → seen (c.now w).1 ≡ seen w
  pub seen-get_node : (n : String) (w : W) → seen (c.get_node n w).1 ≡ seen w
  pub seen-update_node : (x : Node) (w : W) → seen (c.update_node x w).1 ≡ seen w
  pub seen-get_secret : (n ns : String) (w : W) → seen (c.get_secret n ns w).1 ≡ seen w
  pub seen-get_far : (ns n : String) (w : W) → seen (c.get_far ns n w).1 ≡ seen w
  pub seen-update_far : (x : FenceAgentsRemediation) (w : W) → seen (c.update_far x w).1 ≡ seen w
  pub seen-update_far_status :
      (x : FenceAgentsRemediation) (w : W) → seen (c.update_far_status x w).1 ≡ seen w
  pub seen-event :
      (kind : EventType) (n reason text : String) (w : W)
      → seen (c.event kind n reason text w) ≡ seen w
