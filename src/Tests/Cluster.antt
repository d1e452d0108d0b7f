-- ===== src/Tests/Cluster.antt =====
-- A cluster in memory, on which every call succeeds.
use fence_agents_remediation.Prelude.{
  ℕ, ◌+◌, String, ◌≡◌, refl, subst, Option, none, some, List, [], ◌∷◌, ◌==◌, arith, eq_iff,
  if◌then◌else◌,
}
use fence_agents_remediation.Prelude.Dict.{Dict, get, put, copy, IsMap, get-put, IsMap-copy}
use fence_agents_remediation.Errors.{Error, Result, ok, err, ok-injective}
use fence_agents_remediation.Objects.{Node, Secret, Taint}
use fence_agents_remediation.Api.{FenceAgentsRemediation, FenceAgentsRemediationTemplate}
use fence_agents_remediation.Libraries.Client.{Client, QuietNodes, Workload}
use fence_agents_remediation.Api.Secrets.Layers.{SecretsAreMaps}
use fence_agents_remediation.Tests.Libraries.{not_found, simple_failures}

pub record World : Type 0 where
  pub nodes : Dict (List Taint)
  pub secrets : Dict (Dict String)
  pub fars : Dict FenceAgentsRemediation
  pub templates : Dict FenceAgentsRemediationTemplate
  pub deleted_pods_of : List String
  pub events : List String
  pub clock : ℕ

abbrev or_not_found {ℓ} : {A : Type ℓ} → Option A → Result A
or_not_found none = err not_found
or_not_found (some a) = ok a

abbrev named : String → Option (List Taint) → Option Node
named n none = none
named n (some ts) = some (record { name = n; taints = ts })

abbrev secret_named : String → Option (Dict String) → Option Secret
secret_named n none = none
secret_named n (some m) = some (record { name = n; contents = copy [] m })

instance abbrev pub memory : Client World
memory = record {
  now = λ w. (w.clock, record w { clock = w.clock + 1 });
  get_node = λ n w. (or_not_found (named n (get w.nodes n)), w);
  update_node = λ x w. (none, record w { nodes = put w.nodes x.name x.taints });
  get_secret = λ n ns w. (or_not_found (secret_named n (get w.secrets n)), w);
  get_far = λ ns n w. (or_not_found (get w.fars n), w);
  update_far = λ x w. (ok x, record w { fars = put w.fars x.meta.name x });
  update_far_status = λ x w. (ok x, record w { fars = put w.fars x.meta.name x });
  list_fars = λ w. (ok [], w);
  list_pods = λ k v ns w. (ok [], w);
  get_template = λ ns n w. (or_not_found (get w.templates n), w);
  patch_template_status = λ x w. (none, record w { templates = put w.templates x.meta.name x });
  event = λ ty n reason text w. record w { events = reason ∷ w.events };
  delete_pods = λ n w. (none, record w { deleted_pods_of = n ∷ w.deleted_pods_of });
}

pub get_ok_named :
    (n : String) (o : Option (List Taint)) (x : Node)
    → or_not_found (named n o) ≡ ok x
    → (named n o ≡ some x) × (x.name ≡ n)
get_ok_named n o x h = ground arith

pub get_not_found_named :
    (n : String) (o : Option (List Taint)) (e : Error)
    → or_not_found (named n o) ≡ err e
    → named n o ≡ none
get_not_found_named n o e h = ground arith

pub update_ok_named :
    (x : Node) (m : Dict (List Taint)) (k : String)
    → named k (get (put m x.name x.taints) k) ≡ (if x.name == k then some x else named k (get m k))
update_ok_named x m k = ground (arith, get-put m x.name k x.taints, eq_iff x.name k)

pub never : (n : String) {e : Error} (o : Option (List Taint)) → none ≡ some e → named n o ≡ none
never n o h = absurd (cc h)

abbrev pub quiet_memory : QuietNodes simple_failures memory
quiet_memory = record {
  node_at = λ w n. named n (get w.nodes n);
  now-node_at = λ w k. refl;
  get-node_at = λ n k w. refl;
  get_ok = λ n w x h. get_ok_named n (get w.nodes n) x h;
  get_not_found = λ n w e h g. get_not_found_named n (get w.nodes n) e h;
  update_ok = λ x w k h. update_ok_named x w.nodes k;
  update_not_found = λ x w e h g. never x.name (get w.nodes x.name) h;
  event-node_at = λ kind n reason text k w. refl;
  update_far-node_at = λ x w k. refl;
}

contents_of_named :
    (n : String) (o : Option (Dict String)) (s : Secret)
    → or_not_found (secret_named n o) ≡ ok s
    → IsMap s.contents
contents_of_named n (some m) s h =
    subst (λ (x : Secret). IsMap x.contents) (ok-injective h) (IsMap-copy [] m tt)
contents_of_named n none s h = cc

pub memory-SecretsAreMaps : SecretsAreMaps memory
memory-SecretsAreMaps n ns w s h = contents_of_named n (get w.secrets n) s h

-- The pods of a node are gone exactly if DeletePods has been called for it.
abbrev pub memory_workload : Workload memory (List String)
memory_workload = record {
  seen = λ w. w.deleted_pods_of;
  seen-now = λ w. refl;
  seen-get_node = λ n w. refl;
  seen-update_node = λ x w. refl;
  seen-get_secret = λ n ns w. refl;
  seen-get_far = λ ns n w. refl;
  seen-update_far = λ x w. refl;
  seen-update_far_status = λ x w. refl;
  seen-event = λ kind n reason text w. refl;
}
