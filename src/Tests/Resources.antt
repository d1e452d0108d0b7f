-- ===== src/Tests/Resources.antt =====
-- Sample resources.
use fence_agents_remediation.Prelude.{pos, none, some, [], ◌∷◌, String}
use fence_agents_remediation.Objects.{ObjectMeta, Condition, ConditionStatus}
use fence_agents_remediation.Api.{
  FenceAgentsRemediation, FenceAgentsRemediationSpec, FenceAgentsRemediationStatus,
}

abbrev pub plain_meta : ObjectMeta
plain_meta = record {
  name = "worker-1";
  namespace = "far";
  uid = "u1";
  generation = 1;
  annotations = none;
  finalizers = [];
  creation_timestamp = some 1;
  deletion_timestamp = none;
}

abbrev pub ipmi_spec : FenceAgentsRemediationSpec
ipmi_spec = record {
  agent = "fence_ipmilan";
  retry_count = pos 5;
  retry_interval = pos 5;
  timeout = pos 60;
  shared_parameters = ("--lanplus", "") ∷ ("--ip", "{{.NodeName}}.example") ∷ [];
  node_parameters = ("--ipport", ("worker-0", "6233") ∷ ("worker-1", "6234") ∷ []) ∷ [];
  remediation_strategy = "ResourceDeletion";
  node_secret_names = some (("worker-1", "own") ∷ []);
  shared_secret_name = some "shared";
}

abbrev pub no_status : FenceAgentsRemediationStatus
no_status = record { conditions = []; last_update_time = none }

abbrev pub condition : String → ConditionStatus → Condition
condition kind status = record {
  kind = kind;
  status = status;
  reason = "";
  text = "";
  observed_generation = 0;
}

abbrev pub plain_far : FenceAgentsRemediation
plain_far = record { meta = plain_meta; spec = ipmi_spec; status = no_status }
