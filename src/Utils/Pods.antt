-- ===== src/Utils/Pods.antt =====
-- pkg/utils/pods.go and pkg/utils/namespaces.go: the operator's own pod.
use fence_agents_remediation.Prelude.{
  String, ◌≡◌, refl, Bool, true, false, Option, none, some, List, [], ◌∷◌, subst, if-both,
  if◌then◌else◌,
}
use fence_agents_remediation.Errors.{message, wrapped, Result, ok, err, ok-injective}
use fence_agents_remediation.Objects.{Pod, PodPhase, running}
use fence_agents_remediation.Libraries.Client.{Client}

abbrev pub is_running : PodPhase → Bool
is_running running = true
is_running _ = false

-- GetDeploymentNamespace, on the value of the environment's variable DEPLOYMENT_NAMESPACE.
unfoldable pub get_deployment_namespace : Option String → Result String
get_deployment_namespace (some ns) = ok ns
get_deployment_namespace none = err (message "DEPLOYMENT_NAMESPACE must be set")

-- The loop of GetFenceAgentsRemediationPod.
unfoldable pub first_running : List Pod → Result Pod
first_running [] = err (message "no running FAR pods were found")
first_running (pod ∷ pods) = if is_running pod.phase then ok pod else first_running pods

-- GetFenceAgentsRemediationPod on what the list call has returned.
unfoldable pub choose_pod : Result (List Pod) → Result Pod
unfolding first_running
choose_pod (err e) = err (wrapped "failed fetching FAR pod - " e)
choose_pod (ok []) = err (message "no FAR pods were found")
choose_pod (ok (pod ∷ pods)) = first_running (pod ∷ pods)

module _ {W : Type 0} ⦃c : Client W⦄ where
  -- GetFenceAgentsRemediationPod; its label selector is a constant that is well formed.
  unfoldable pub get_fence_agents_remediation_pod : Option String → W → Result Pod × W
  unfolding get_deployment_namespace choose_pod
  get_fence_agents_remediation_pod env w = elim (get_deployment_namespace env) [
    | err e ↦ (err (wrapped "failed fetching FAR namespace - " e), w)
    | ok ns ↦
        let (pods, w1) =
          c.list_pods "app.kubernetes.io/name" "fence-agents-remediation-operator" ns w in
        (choose_pod pods, w1)
  ]

-- The first of a list that satisfies a test, behind ones that do not.
pub data First (test : Pod → Bool) (p : Pod) : List Pod → Type 0 where
  here : {pods : List Pod} → test p ≡ true → First test p (p ∷ pods)
  later : {q : Pod} {pods : List Pod} → test q ≡ false → First test p pods → First test p (q ∷ pods)

first_running-First :
    (pods : List Pod) (p : Pod) → first_running pods ≡ ok p → First (λ q. is_running q.phase) p pods
unfolding first_running
first_running-First [] p h = absurd (cc h)
first_running-First (q ∷ pods) p h =
    if-both (λ r. r ≡ ok p → First (λ q. is_running q.phase) p (q ∷ pods)) (is_running q.phase)
      (λ runs e.
        subst (λ x. First (λ q. is_running q.phase) x (q ∷ pods)) (ok-injective e) (here runs))
      (λ other e. later other (first_running-First pods p e)) h

choose_pod-First :
    (r : Result (List Pod)) (p : Pod)
    → choose_pod r ≡ ok p
    → (pods : List Pod) × (r ≡ ok pods) × First (λ q. is_running q.phase) p pods
unfolding choose_pod
choose_pod-First (err e) p h = absurd (cc h)
choose_pod-First (ok []) p h = absurd (cc h)
choose_pod-First (ok (q ∷ pods)) p h = (q ∷ pods, refl, first_running-First (q ∷ pods) p h)

module _ {W : Type 0} ⦃c : Client W⦄ where
  -- A pod that GetFenceAgentsRemediationPod gives is the first one that runs among those that the list
  -- call has returned for the namespace of the operator's deployment.
  pub get_fence_agents_remediation_pod-First :
      (env : Option String) (w : W) (p : Pod)
      → (get_fence_agents_remediation_pod env w).0 ≡ ok p
      → (ns : String) × (env ≡ some ns)
        × ((pods : List Pod) × ((c.list_pods "app.kubernetes.io/name"
                "fence-agents-remediation-operator" ns w).0
              ≡ ok pods)
            × First (λ q. is_running q.phase) p pods)
  unfolding get_fence_agents_remediation_pod
  get_fence_agents_remediation_pod-First none w p h = absurd (cc h)
  get_fence_agents_remediation_pod-First (some ns) w p h = (ns, refl, choose_pod-First _ p h)
