-- ===== src/Tests/Taints.antt =====
-- AppendTaint and RemoveTaint on a cluster in memory.
use fence_agents_remediation.Prelude.{String, ◌≡◌, refl, ◌≢◌, true, false, none, some, [], ◌∷◌}
use fence_agents_remediation.Prelude.Dict.{get, put}
use fence_agents_remediation.Objects.{Taint, Node, no_execute}
use fence_agents_remediation.Utils.Nodes.{get_node_with_name}
use fence_agents_remediation.Utils.Taints.{
  taint_exists, append_taint, remove_taint, delete_taint, create_remediation_taint,
}
use fence_agents_remediation.Utils.Taints.Lists.{delete_taint-others, others}
use fence_agents_remediation.Utils.Taints.Cluster.{
  append_taint-present, remove_taint-absent, remove_taint-append_taint,
}
use fence_agents_remediation.Tests.Libraries.{list_marks, simple_failures}
use fence_agents_remediation.Tests.Cluster.{World, memory, quiet_memory}

abbrev custom : Taint
custom = record { key = "custom"; value = "x"; effect = no_execute; time_added = none }

abbrev worker : Node
worker = record { name = "worker-1"; taints = custom ∷ [] }

abbrev one_node : World
one_node = record {
  nodes = ("worker-1", custom ∷ []) ∷ [];
  secrets = [];
  fars = [];
  templates = [];
  deleted_pods_of = [];
  events = [];
  clock = 3;
}

delete_taint-others_example : delete_taint (custom ∷ []) create_remediation_taint ≡ (
  others (custom ∷ []) create_remediation_taint,
  taint_exists (custom ∷ []) create_remediation_taint,
)
delete_taint-others_example = delete_taint-others (custom ∷ []) create_remediation_taint

abbrev tainted : World
tainted = (append_taint "worker-1" create_remediation_taint one_node).1

append_taint-present_example :
    let after = quiet_memory.node_at tainted in
    (y : Node) × (after "worker-1" ≡ some y)
    × (taint_exists y.taints create_remediation_taint ≡ true)
    × ((s : Taint)
        → list_marks.match_taint create_remediation_taint s ≡ false
        → taint_exists y.taints s ≡ taint_exists worker.taints s)
    × ((k : String) → k ≢ "worker-1" → after k ≡ quiet_memory.node_at one_node k)
unfolding append_taint get_node_with_name get taint_exists create_remediation_taint
append_taint-present_example =
    append_taint-present quiet_memory "worker-1" create_remediation_taint one_node worker refl refl

remove_taint-absent_example :
    let after = quiet_memory.node_at (remove_taint "worker-1" custom one_node).1 in
    (y : Node) × (after "worker-1" ≡ some y)
    × (taint_exists y.taints custom ≡ false)
    × ((s : Taint)
        → list_marks.match_taint custom s ≡ false
        → taint_exists y.taints s ≡ taint_exists worker.taints s)
    × ((k : String) → k ≢ "worker-1" → after k ≡ quiet_memory.node_at one_node k)
unfolding remove_taint get_node_with_name get taint_exists delete_taint
remove_taint-absent_example =
    remove_taint-absent quiet_memory "worker-1" custom one_node worker refl refl

remove_taint-append_taint_example :
    quiet_memory.node_at (remove_taint "worker-1" create_remediation_taint tainted).1 "worker-1"
    ≡ quiet_memory.node_at one_node "worker-1"
unfolding append_taint remove_taint get_node_with_name get put taint_exists delete_taint
    create_remediation_taint
remove_taint-append_taint_example =
    remove_taint-append_taint quiet_memory "worker-1" create_remediation_taint one_node worker
      "worker-1" refl refl refl refl
