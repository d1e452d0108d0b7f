-- ===== src/Remediation.antt =====
-- internal/controller/fenceagentsremediation_controller.go: the state of a reconciliation, what it
-- replies, and the status update at its end.
pub mod Deletion
pub mod Phases
pub mod Executers
pub mod Starts
pub mod Calls
pub mod Within
pub mod Ready
pub mod Workload
pub mod OutOfService
pub mod Cleanup
pub mod Release
pub mod Status
pub mod Lifecycle
use fence_agents_remediation.Prelude.{
  ℕ, ℤ, pos, String, ◌^^◌, Bool, true, false, not, ◌&&◌, Option, none, some, List, [], ◌∷◌, ◌++◌,
  ◌==◌, ltb, eqb, is_none, if◌then◌else◌,
}
use fence_agents_remediation.Prelude.Dict.{Dict, has}
use fence_agents_remediation.Errors.{
  Error, message, wrapped, Result, ok, err, Outcome, returned, panicked,
}
use fence_agents_remediation.Libraries.Meta.{MetaApi}
use fence_agents_remediation.Libraries.Failures.{FailureApi}
use fence_agents_remediation.Libraries.Marks.{MarkApi}
use fence_agents_remediation.Libraries.Client.{Client, EventType, normal, warning}
use fence_agents_remediation.Libraries.Wait.{WaitApi, Poll, done, again, failed}
use fence_agents_remediation.Api.{FenceAgentsRemediation, far_finalizer}
use fence_agents_remediation.Utils.Conditions.{ConditionsChangeReason, update_conditions}
use fence_agents_remediation.Cli.Routines.{Executer}
use fence_agents_remediation.Cli.Executer.{Attempt}

-- What Reconcile reads and changes: the cluster, the executer and its copy of the resource.
pub record State (W : Type 0) : Type 0 where
  pub world : W
  pub executer : Executer
  pub far : FenceAgentsRemediation

-- ctrl.Result and the error that Reconcile returns.
pub record Answer : Type 0 where
  pub requeue : Bool
  pub requeue_after : ℤ
  pub error : Option Error

abbrev pub empty_result : Option Error → Answer
empty_result e = record { requeue = false; requeue_after = pos 0; error = e }

abbrev pub requeue_immediately : Answer
requeue_immediately = record { requeue = true; requeue_after = pos 0; error = none }

-- ctrl.Result{RequeueAfter: time.Second}
abbrev pub requeue_after_second : Answer
requeue_after_second = record { requeue = false; requeue_after = pos 1000000000; error = none }

abbrev pub Reply : Type 0 → Type 0
Reply W = Outcome Answer × State W

abbrev pub answer : {W : Type 0} → Answer → State W → Reply W
answer a st = (returned a, st)

-- appendParamToSlice
unfoldable pub append_param_to_slice : List String → String → String → List String
append_param_to_slice fence_agent_params name value =
    fence_agent_params ++ (if not (value == "") then name ^^ "=" ^^ value else name) ∷ []

-- The loop of mapToSliceConvert.
pub append_params : List String → Dict String → List String
append_params slice [] = slice
append_params slice ((name, value) ∷ params) =
    append_params (append_param_to_slice slice name value) params

-- mapToSliceConvert
unfoldable pub map_to_slice_convert : Dict String → List String
unfolding append_params append_param_to_slice
map_to_slice_convert params = append_params [] params

-- commonAnnotations.NhcTimedOut
abbrev pub nhc_timed_out : String
nhc_timed_out = "remediation.medik8s.io/nhc-timed-out"

-- isTimedOutByNHC
unfoldable pub is_timed_out_by_nhc : FenceAgentsRemediation → Bool
is_timed_out_by_nhc far = elim far.meta.annotations [
  | none ↦ false
  | some annotations ↦ has annotations nhc_timed_out
]

-- `!far.ObjectMeta.DeletionTimestamp.IsZero()`
abbrev pub is_deleting : FenceAgentsRemediation → Bool
is_deleting far = not (is_none far.meta.deletion_timestamp)

-- Equal or After, at two times that are set; `After` reads a nil time of `far`, which panics.
abbrev pub is_up_to_date : Option ℕ → Option ℕ → Outcome Bool
is_up_to_date none own = returned false
is_up_to_date (some t) none = panicked
is_up_to_date (some t) (some own) = returned (not (ltb t own))

abbrev pub emit :
    {W : Type 0} → ⦃c : Client W⦄ → EventType → String → String → String → State W → State W
emit ⦃c⦄ kind name reason text st = record st { world = c.event kind name reason text st.world }

module _ {W : Type 0} where
  -- utils.UpdateConditions on the copy of the resource, then the rest.
  unfoldable pub with_updated :
      Option FenceAgentsRemediation → State W → (State W → Reply W) → Reply W
  with_updated none st rest = (panicked, st)
  with_updated (some far) st rest = rest (record st { far = far })

module _ {W : Type 0} ⦃m : MetaApi⦄ ⦃c : Client W⦄ where
  unfoldable pub with_conditions : ConditionsChangeReason → State W → (State W → Reply W) → Reply W
  unfolding with_updated
  with_conditions reason st rest =
      let (now, w) = c.now st.world in
      with_updated (update_conditions now reason st.far) (record st { world = w }) rest

-- What Reconcile returns after its deferred call of updateStatus, which runs on a panic too.
pub join_status : ⦃f : FailureApi⦄ → Outcome Answer → Outcome (Option Error) → Outcome Answer
join_status panicked status = panicked
join_status (returned a) panicked = panicked
join_status (returned a) (returned none) = returned a
join_status ⦃f⦄ (returned a) (returned (some e)) =
    returned (record a { error = f.new_aggregate (some e ∷ a.error ∷ []) })

-- The error of the wait in updateStatus.
pub wait_result : {W : Type 0} → Option Error × Attempt W → Outcome (Option Error) × W
wait_result (e, st) = if st.crashed then (panicked, st.world) else (
  returned (elim e [
    | none ↦ none
    | some e ↦ some (
        wrapped
          "failed to wait for updated cache to be updated in status update after 5.000000 seconds of timeout - "
          e)
  ]),
  st.world,
)

module _ {W : Type 0} ⦃f : FailureApi⦄ where
  -- What the closure of updateStatus returns for what it has read from the cache.
  pub poll_of_read : FenceAgentsRemediation → Result FenceAgentsRemediation × W → Poll × Attempt W
  poll_of_read far (err e, w) =
      (if f.is_not_found e then done else again, record { world = w; crashed = false })
  poll_of_read far (ok read, w) =
      elim (is_up_to_date read.status.last_update_time far.status.last_update_time) [
        | panicked ↦ (failed (message "panic"), record { world = w; crashed = true })
        | returned true ↦ (done, record { world = w; crashed = false })
        | returned false ↦ (again, record { world = w; crashed = false })
      ]

module _ {W : Type 0} ⦃f : FailureApi⦄ ⦃c : Client W⦄ where
  -- The closure of updateStatus.
  pub is_cached : FenceAgentsRemediation → Attempt W → Poll × Attempt W
  unfolding poll_of_read
  is_cached far st = poll_of_read far (c.get_far far.meta.namespace far.meta.name st.world)

module _ {W : Type 0} ⦃f : FailureApi⦄ ⦃mk : MarkApi⦄ ⦃c : Client W⦄ ⦃wt : WaitApi f⦄ where
  -- updateStatus on what the call of Status().Update has returned.
  pub await_cache : Result FenceAgentsRemediation × W → Outcome (Option Error) × W
  unfolding is_cached wait_result
  await_cache (err e, w) = (returned (some e), w)
  await_cache (ok far, w) = wait_result (
      wt.poll_until_context_timeout (pos 200000000) (pos 5000000000) true (is_cached far)
        (record { world = w; crashed = false }))

  -- updateStatus
  unfoldable pub update_status : FenceAgentsRemediation → W → Outcome (Option Error) × W
  unfolding await_cache
  update_status far w =
      if not (mk.contains_finalizer far.meta.finalizers far_finalizer) && is_deleting far
      then (returned none, w)
      else await_cache (c.update_far_status far w)

  -- Reconcile from the point where the resource has been read: its body, and then the deferred call.
  unfoldable pub deferred_update : Reply W → Outcome Answer × (W × Executer)
  unfolding update_status join_status
  deferred_update (reply, st) =
      let (status, w) = update_status st.far st.world in
      (join_status reply status, (w, st.executer))
