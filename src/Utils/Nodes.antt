-- ===== src/Utils/Nodes.antt =====
-- pkg/utils/nodes.go.
use fence_agents_remediation.Prelude.{String, Option, none, some, [], ◌∷◌, ◌==◌, if◌then◌else◌}
use fence_agents_remediation.Errors.{Result, ok, err}
use fence_agents_remediation.Objects.{Node, no_execute}
use fence_agents_remediation.Libraries.Failures.{FailureApi}
use fence_agents_remediation.Libraries.Client.{Client}

-- No such node is a nil node, and no error.
unfoldable pub found_or_nil : ⦃f : FailureApi⦄ → Result Node → Result (Option Node)
found_or_nil (ok node) = ok (some node)
found_or_nil ⦃f⦄ (err e) = if f.is_not_found e then ok none else err e

module _ {W : Type 0} ⦃f : FailureApi⦄ ⦃c : Client W⦄ where
  -- GetNodeWithName
  unfoldable pub get_node_with_name : String → W → Result (Option Node) × W
  unfolding found_or_nil
  get_node_with_name name w = let (r, w1) = c.get_node name w in (found_or_nil r, w1)

-- medik8sLabels.ControlPlaneRole
abbrev control_plane_role : String
control_plane_role = "node-role.kubernetes.io/control-plane"

-- GetNode, which tests use to make a node.
unfoldable pub get_node : String → String → Node
get_node role name =
    if role == "control-plane"
    then record {
      name = name;
      taints =
          record { key = control_plane_role; value = ""; effect = no_execute; time_added = none }
          ∷ [];
    }
    else record { name = name; taints = [] }
