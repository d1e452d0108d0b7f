-- ===== src/Cli/Executer.antt =====
-- pkg/cli/cliexecuter.go: what the goroutine of a fence agent does.
pub mod Attempts
pub mod Bounds
pub mod Records
use fence_agents_remediation.Prelude.{
  ℤ, String, Bool, true, false, Option, none, some, List, [], ◌∷◌, ◌==◌, if◌then◌else◌,
}
use fence_agents_remediation.Errors.{
  Error, message, Result, ok, err, Outcome, returned, panicked, is_canceled,
}
use fence_agents_remediation.Libraries.Meta.{MetaApi}
use fence_agents_remediation.Libraries.Failures.{FailureApi}
use fence_agents_remediation.Libraries.Client.{Client, normal}
use fence_agents_remediation.Libraries.Wait.{WaitApi, Poll, done, again, failed}
use fence_agents_remediation.Api.{FenceAgentsRemediation}
use fence_agents_remediation.Utils.Conditions.{
  ConditionsChangeReason, fence_agent_succeeded, fence_agent_timed_out, fence_agent_failed,
  update_conditions,
}

-- A context is asked for its error in the cluster as it is at that time.
abbrev pub Ctx : Type 0 → Type 0
Ctx W = W → Option Error

-- What runs outside the program: `runner`, with the context, the timeout of a run and the command,
-- which gives the standard output, the error output and an error; and the passing of time, between two runs
-- or between two steps of retry.DefaultBackoff.
pub record Machine (W : Type 0) : Type 0 where
  pub runner : Ctx W → ℤ → List String → W → (String × String × Option Error) × W
  pub sleep : ℤ → W → W
  pub default_pause : W → W

-- The variables of runWithRetry that its closure assigns.
pub record Run (W : Type 0) : Type 0 where
  pub world : W
  pub stdout : String
  pub stderr : String
  pub fa_err : Option Error

abbrev pub poll_of : ⦃f : FailureApi⦄ → Option Error → Poll
poll_of none = done
poll_of ⦃f⦄ (some e) = if f.interrupted e then failed e else again

module _ {W : Type 0} ⦃f : FailureApi⦄ ⦃wt : WaitApi f⦄ ⦃mc : Machine W⦄ where
  -- The closure of runWithRetry.
  unfoldable pub run_once : Ctx W → List String → ℤ → Run W → Poll × Run W
  run_once ctx command timeout st =
      let ((out, errors, failure), w) = mc.runner ctx timeout command st.world in
      (poll_of failure, record { world = w; stdout = out; stderr = errors; fa_err = failure })

  -- runWithRetry: the two outputs, retryErr and faErr.
  unfoldable pub run_with_retry :
      Ctx W → List String → ℤ → ℤ → ℤ → W → (String × String × Option Error × Option Error) × W
  run_with_retry ctx [] retry_count retry_interval timeout w =
      (("", "", none, some (message "command is empty")), w)
  run_with_retry ctx (agent ∷ args) retry_count retry_interval timeout w =
      let (retry_err, st) =
        wt.exponential_backoff (λ (st : Run W). ctx st.world)
          (λ (st : Run W). record st { world = mc.sleep retry_interval st.world }) retry_count
          (run_once ctx (agent ∷ args) timeout)
          (record { world = w; stdout = ""; stderr = ""; fa_err = none }) in
      ((st.stdout, st.stderr, retry_err, st.fa_err), st.world)

  -- SyncExecute
  unfoldable pub sync_execute :
      Ctx W → List String → ℤ → ℤ → ℤ → W → (String × String × Option Error × Option Error) × W
  unfolding run_with_retry
  sync_execute ctx command retry_count retry_interval timeout w =
      run_with_retry ctx command retry_count retry_interval timeout w

-- The reason for which updateStatus changes the conditions.
unfoldable pub reason_of : ⦃f : FailureApi⦄ → Option Error → ConditionsChangeReason
reason_of none = fence_agent_succeeded
reason_of ⦃f⦄ (some e) = if f.interrupted e then fence_agent_timed_out else fence_agent_failed

-- The loop of getFenceAgentsRemediationByUID.
unfoldable pub find_uid : List FenceAgentsRemediation → String → Option FenceAgentsRemediation
find_uid [] uid = none
find_uid (far ∷ fars) uid = if far.meta.uid == uid then some far else find_uid fars uid

-- getFenceAgentsRemediationByUID on what the list call has returned. With no error and an empty
-- list it returns a nil resource and a nil error.
unfoldable pub select_uid :
    Result (List FenceAgentsRemediation) → String → Result (Option FenceAgentsRemediation)
select_uid (err e) uid = err e
select_uid (ok []) uid = ok none
select_uid (ok (far ∷ fars)) uid = elim (find_uid (far ∷ fars) uid) [
  | some found ↦ ok (some found)
  | none ↦ err (message "could not find any FAR matching the UID")
]

abbrev pub was_canceled : Option Error → Bool
was_canceled none = false
was_canceled (some e) = is_canceled e

abbrev pub is_success : Option Error → Bool
is_success none = true
is_success (some _) = false

abbrev pub failure_of {ℓ} : {A : Type ℓ} → Result A → Option Error
failure_of (ok _) = none
failure_of (err e) = some e

-- The variables of updateStatusWithRetry's closure; `crashed` says that it has panicked.
pub record Attempt (W : Type 0) : Type 0 where
  pub world : W
  pub crashed : Bool

module _ {W : Type 0} ⦃m : MetaApi⦄ ⦃f : FailureApi⦄ ⦃c : Client W⦄ where
  -- getFenceAgentsRemediationByUID
  unfoldable pub get_fence_agents_remediation_by_uid :
      String → W → Result (Option FenceAgentsRemediation) × W
  unfolding select_uid find_uid
  get_fence_agents_remediation_by_uid uid w = let (r, w1) = c.list_fars w in (select_uid r uid, w1)

  -- updateStatus from the call of UpdateConditions on.
  unfoldable pub send_status : Option FenceAgentsRemediation → W → Outcome (Option Error) × W
  send_status none w = (panicked, w)
  send_status (some far) w =
      let (r, w1) = c.update_far_status far w in (returned (failure_of r), w1)

  -- updateStatus; a nil resource panics at its first use.
  unfoldable pub update_status :
      Option FenceAgentsRemediation → Option Error → W → Outcome (Option Error) × W
  unfolding send_status reason_of
  update_status none failure w = (panicked, w)
  update_status (some far) failure w =
      let w1 =
        if is_success failure
        then c.event normal far.meta.name "FenceAgentSucceeded" "Fence agent was succeeded" w
        else w in
      let (now, w2) = c.now w1 in send_status (update_conditions now (reason_of failure) far) w2

  abbrev pub poll_of_status : Outcome (Option Error) × W → Poll × Attempt W
  poll_of_status (panicked, w) = (failed (message "panic"), record { world = w; crashed = true })
  poll_of_status (returned none, w) = (done, record { world = w; crashed = false })
  poll_of_status (returned (some e), w) = (
    if f.interrupted e then failed e else (if f.is_conflict e then again else failed e),
    record { world = w; crashed = false },
  )

  -- The closure of updateStatusWithRetry, on what the lookup of the resource has returned.
  unfoldable pub try_found :
      Option Error → Result (Option FenceAgentsRemediation) × W → Poll × Attempt W
  unfolding update_status
  try_found failure (err e, w) = (failed e, record { world = w; crashed = false })
  try_found failure (ok far, w) = poll_of_status (update_status far failure w)

  -- The closure of updateStatusWithRetry.
  unfoldable pub try_update_status : String → Option Error → Attempt W → Poll × Attempt W
  unfolding try_found get_fence_agents_remediation_by_uid
  try_update_status uid failure st =
      try_found failure (get_fence_agents_remediation_by_uid uid st.world)

  module _ ⦃wt : WaitApi f⦄ ⦃mc : Machine W⦄ where
    -- updateStatusWithRetry, by retry.DefaultBackoff.
    unfoldable pub update_status_with_retry :
        Ctx W → String → Option Error → W → Outcome (Option Error) × W
    unfolding try_update_status
    update_status_with_retry ctx uid failure w =
        let (e, st) =
          wt.exponential_backoff (λ (st : Attempt W). ctx st.world)
            (λ (st : Attempt W). record st { world = mc.default_pause st.world }) wt.default_steps
            (try_update_status uid failure) (record { world = w; crashed = false }) in
        (if st.crashed then panicked else returned e, st.world)

    abbrev pub finish : Outcome (Option Error) × W → Outcome (Unit {0}) × W
    finish (panicked, w) = (panicked, w)
    finish (returned _, w) = (returned tt, w)

    -- fenceAgentRoutine
    unfoldable pub fence_agent_routine :
        Ctx W → String → List String → ℤ → ℤ → ℤ → W → Outcome (Unit {0}) × W
    fence_agent_routine ctx uid command retry_count retry_interval timeout w =
        let ((_, _, retry_err, cmd_err), w1) =
          run_with_retry ctx command retry_count retry_interval timeout w in
        if was_canceled retry_err
        then (returned tt, w1)
        else finish (update_status_with_retry ctx uid cmd_err w1)
