-- ===== src/Tests/Pods.antt =====
-- The operator's pods at a concrete list.
use fence_agents_remediation.Prelude.{String, ◌≡◌, refl, some, List, [], ◌∷◌}
use fence_agents_remediation.Errors.{ok}
use fence_agents_remediation.Objects.{Pod, running, pending}
use fence_agents_remediation.Libraries.Client.{Client}
use fence_agents_remediation.Utils.Pods.{
  is_running, First, get_deployment_namespace, choose_pod, first_running,
  get_fence_agents_remediation_pod, get_fence_agents_remediation_pod-First,
}
use fence_agents_remediation.Tests.Cluster.{World, memory}
use fence_agents_remediation.Tests.Executer.{empty_world}

abbrev old_and_new : List Pod
old_and_new =
    record { name = "old"; phase = pending } ∷ record { name = "new"; phase = running } ∷ []

abbrev with_pods : Client World
with_pods = record memory { list_pods = λ k v ns w. (ok old_and_new, w) }

get_fence_agents_remediation_pod-First_example :
    (ns : String) × (some "far" ≡ some ns)
    × ((pods : List Pod) × ((with_pods.list_pods "app.kubernetes.io/name"
            "fence-agents-remediation-operator" ns empty_world).0
          ≡ ok pods)
        × First (λ q. is_running q.phase) (record { name = "new"; phase = running }) pods)
unfolding get_fence_agents_remediation_pod get_deployment_namespace choose_pod first_running
get_fence_agents_remediation_pod-First_example =
    get_fence_agents_remediation_pod-First ⦃c = with_pods⦄ (some "far") empty_world
      (record { name = "new"; phase = running }) refl
