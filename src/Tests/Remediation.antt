-- ===== src/Tests/Remediation.antt =====
-- Reconciliations at concrete inputs.
use fence_agents_remediation.Prelude.{
  pos, ◌≡◌, ◌↔◌, refl, Bool, true, false, not, ◌&&◌, ◌==◌, none, some, [], ◌∷◌, ◌⊎◌,
}
use fence_agents_remediation.Prelude.Dict.{get, put}
use fence_agents_remediation.Errors.{ok, panicked}
use fence_agents_remediation.Objects.{Node, status_true, status_unknown, no_execute, no_schedule}
use fence_agents_remediation.Api.{
  FenceAgentsRemediation, far_finalizer, out_of_service_taint_remediation_strategy,
}
use fence_agents_remediation.Api.Params.{get_node_name}
use fence_agents_remediation.Utils.Conditions.{succeeded_type}
use fence_agents_remediation.Utils.Nodes.{get_node_with_name}
use fence_agents_remediation.Utils.Taints.{
  taint_exists, create_remediation_taint, create_out_of_service_taint, delete_taint, remove_taint,
}
use fence_agents_remediation.Cli.Routines.{new_executer, async_execute, remove_routine}
use fence_agents_remediation.Remediation.{State, is_deleting, update_status}
use fence_agents_remediation.Remediation.Deletion.{
  can_log_conditions, reconcile_deletion, handle_far_deletion, on_removed, release_node,
  drop_finalizer, finalizer_dropped,
}
use fence_agents_remediation.Remediation.Phases.{reconcile}
use fence_agents_remediation.Remediation.Starts.{Change, reconcile-Change}
use fence_agents_remediation.Remediation.Workload.{MayDelete, reconcile-seen}
use fence_agents_remediation.Remediation.Cleanup.{reconcile_deletion-panicked_iff}
use fence_agents_remediation.Remediation.Release.{handle_far_deletion-Freed}
use fence_agents_remediation.Remediation.Status.{IsFresh, update_status-IsFresh}
use fence_agents_remediation.Tests.Cluster.{World, memory, quiet_memory, memory_workload}
use fence_agents_remediation.Tests.Libraries.{simple_failures, list_meta, list_marks, node_engine}
use fence_agents_remediation.Tests.Resources.{plain_meta, plain_far, ipmi_spec, condition}
use fence_agents_remediation.Tests.Waiting.{simple_wait}

-- A remediation in process.
abbrev pub processing_far : FenceAgentsRemediation
processing_far = record {
  meta = record plain_meta { finalizers = far_finalizer ∷ [] };
  spec = record ipmi_spec { node_secret_names = none; shared_secret_name = none };
  status = record {
    conditions =
        condition "Processing" status_true
        ∷ condition "FenceAgentActionSucceeded" status_unknown
        ∷ condition "Succeeded" status_unknown
        ∷ [];
    last_update_time = some 3;
  };
}

abbrev cluster : World
cluster = record {
  nodes = ("worker-1", []) ∷ [];
  secrets = [];
  fars = ("worker-1", processing_far) ∷ [];
  templates = [];
  deleted_pods_of = [];
  events = [];
  clock = 7;
}

reconcile-Change_example :
    Change memory processing_far
      (get_node_with_name (get_node_name processing_far) cluster).0
      new_executer
      (reconcile "far" "worker-1" cluster new_executer).1.1
unfolding get
reconcile-Change_example =
    reconcile-Change memory "far" "worker-1" cluster new_executer processing_far refl

reconcile-seen_example :
    MayDelete processing_far
    ⊎ ((reconcile "far" "worker-1" cluster new_executer).1.0.deleted_pods_of ≡ [])
unfolding get
reconcile-seen_example =
    reconcile-seen memory memory_workload processing_far "far" "worker-1" cluster new_executer refl

-- A resource that is deleted before it has any condition, while its agent runs.
abbrev corrupted : State World
corrupted = record {
  world = cluster;
  executer = async_execute new_executer "u1" ("fence_ipmilan" ∷ []) (pos 5) (pos 5) (pos 60);
  far = record plain_far { meta = record plain_meta { deletion_timestamp = some 9 } };
}

reconcile_deletion-panicked_iff_example :
    let unlogged : Bool =
      not (list_meta.is_status_condition_present_and_equal [] succeeded_type status_true)
      && not (can_log_conditions corrupted.far) in
    let (reply, after) = reconcile_deletion none corrupted in
    ((reply ≡ panicked) ↔ (unlogged ≡ true))
    × (unlogged ≡ true → after ≡ corrupted)
    × (unlogged ≡ false → after.executer ≡ remove_routine corrupted.executer "u1")
reconcile_deletion-panicked_iff_example = reconcile_deletion-panicked_iff none corrupted

abbrev tainted_node : Node
tainted_node = record {
  name = "worker-1";
  taints =
      record {
        key = "remediation.medik8s.io/fence-agents-remediation";
        value = "";
        effect = no_schedule;
        time_added = some 4;
      }
      ∷ record {
        key = "node.kubernetes.io/out-of-service";
        value = "nodeshutdown";
        effect = no_execute;
        time_added = some 5;
      }
      ∷ [];
}

abbrev leaving : State World
leaving = record {
  world = record cluster { nodes = ("worker-1", tainted_node.taints) ∷ [] };
  executer = new_executer;
  far = record processing_far {
    spec = record ipmi_spec { remediation_strategy = out_of_service_taint_remediation_strategy };
  };
}

handle_far_deletion-Freed_example :
    let (_, after) = handle_far_deletion (some tainted_node) leaving in
    (y : Node) × (quiet_memory.node_at after.world "worker-1" ≡ some y)
    × (taint_exists y.taints create_remediation_taint ≡ false)
    × ((out_of_service_taint_remediation_strategy == out_of_service_taint_remediation_strategy)
          ≡ true
        → taint_exists y.taints (create_out_of_service_taint 7) ≡ false)
unfolding handle_far_deletion release_node drop_finalizer finalizer_dropped on_removed remove_taint
    get get_node_with_name taint_exists create_out_of_service_taint delete_taint put
    create_remediation_taint
handle_far_deletion-Freed_example =
    handle_far_deletion-Freed quiet_memory tainted_node tainted_node leaving refl refl refl

update_status-IsFresh_example :
    ((list_marks.contains_finalizer processing_far.meta.finalizers far_finalizer ≡ false)
      × (is_deleting processing_far ≡ true))
    ⊎ ((stored : FenceAgentsRemediation) × ((memory.update_far_status processing_far cluster).0
          ≡ ok stored)
        × ((t : World) × IsFresh stored (memory.get_far stored.meta.namespace stored.meta.name t).0
            × ((update_status processing_far cluster).1
                ≡ (memory.get_far stored.meta.namespace stored.meta.name t).1)))
unfolding update_status get put
update_status-IsFresh_example = update_status-IsFresh processing_far cluster refl
