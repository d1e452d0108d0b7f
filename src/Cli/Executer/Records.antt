-- ===== src/Cli/Executer/Records.antt =====
-- Which outcome the goroutine of a fence agent records.
use fence_agents_remediation.Prelude.{
  ℕ, zero, suc, ℤ, pos_part, String, ◌≡◌, ◌≢◌, refl, sym, ap, true, false, Option, none, some, List,
  ◌∷◌, ◌⊎◌, inl, inr, arith, subst, Bool-cases, if◌then◌else◌,
}
use fence_agents_remediation.Errors.{Error, returned, is_canceled}
use fence_agents_remediation.Libraries.Meta.{MetaApi}
use fence_agents_remediation.Libraries.Failures.{FailureApi}
use fence_agents_remediation.Libraries.Client.{Client}
use fence_agents_remediation.Libraries.Wait.{WaitApi, backoff_rounds, backoff_rounds-failed}
use fence_agents_remediation.Utils.Conditions.{fence_agent_succeeded}
use fence_agents_remediation.Cli.Executer.{
  Ctx, Machine, Run, run_once, run_with_retry, reason_of, was_canceled, update_status_with_retry,
  finish, fence_agent_routine,
}
use fence_agents_remediation.Cli.Executer.Attempts.{run_with_retry-succeeded}

reason_of-succeeded :
    ⦃f : FailureApi⦄ → (e : Option Error) → reason_of e ≡ fence_agent_succeeded → e ≡ none
unfolding reason_of
reason_of-succeeded none h = refl
reason_of-succeeded (some e) h = ground arith

module _ {W : Type 0} ⦃m : MetaApi⦄ ⦃f : FailureApi⦄ ⦃c : Client W⦄ ⦃wt : WaitApi f⦄
    ⦃mc : Machine W⦄ where
  -- For a command that is not empty, a positive number of attempts and a context that is not over at
  -- the start, the goroutine of a fence agent records nothing, and then its context has been
  -- canceled; or it updates the status by an outcome, and if that outcome is FenceAgentSucceeded,
  -- the last run of the command gave no error.
  pub fence_agent_routine-recorded :
      (ctx : Ctx W) (uid agent : String) (args : List String)
      (retry_count retry_interval timeout : ℤ) (w : W)
      → pos_part retry_count ≢ 0
      → ctx w ≡ none
      → let ((_, _, retry_err, _), w1) =
          run_with_retry ctx (agent ∷ args) retry_count retry_interval timeout w in
        let routine =
          fence_agent_routine ctx uid (agent ∷ args) retry_count retry_interval timeout w in
        ((was_canceled retry_err ≡ true) × (routine ≡ (returned tt, w1)))
        ⊎ ((e : Option Error) × (routine ≡ finish (update_status_with_retry ctx uid e w1))
            × (reason_of e ≡ fence_agent_succeeded
                → (t : W) × (out : String) × (errors : String) × (mc.runner ctx timeout
                      (agent ∷ args)
                      t
                    ≡ ((out, errors, none), w1))))
  unfolding fence_agent_routine
  fence_agent_routine-recorded ctx uid agent args retry_count retry_interval timeout w positive
        alive =
      let ((out, errors, retry_err, fa_err), w1) =
        run_with_retry ctx (agent ∷ args) retry_count retry_interval timeout w in
      elim (Bool-cases (was_canceled retry_err)) [
        | inl over ↦ inl (over, rw over refl)
        | inr live ↦ inr (
          fa_err,
          rw live refl,
          λ e.
              let (_, (t, ran)) =
                run_with_retry-succeeded ctx agent args retry_count retry_interval timeout w
                  positive alive (reason_of-succeeded fa_err e) in
              (t, out, errors, ran),
        )
      ]

  -- For a command that is not empty and a number of attempts that is not positive, with a timeout
  -- error that is not a cancellation, the goroutine of a fence agent runs nothing and updates the
  -- status by FenceAgentSucceeded.
  pub fence_agent_routine_without_attempts :
      (ctx : Ctx W) (uid agent : String) (args : List String)
      (retry_count retry_interval timeout : ℤ) (w : W)
      → pos_part retry_count ≡ 0
      → is_canceled f.wait_timeout ≡ false
      → (fence_agent_routine ctx uid (agent ∷ args) retry_count retry_interval timeout w
          ≡ finish (update_status_with_retry ctx uid none w))
        × (reason_of none ≡ fence_agent_succeeded)
  unfolding fence_agent_routine run_with_retry reason_of backoff_rounds
  fence_agent_routine_without_attempts ctx uid agent args retry_count retry_interval timeout w
        zero_rounds live =
      (
        subst
            (λ (r : Option Error × Run W).
              (if was_canceled r.0
                then (returned tt, r.1.world)
                else finish (update_status_with_retry ctx uid r.1.fa_err r.1.world))
              ≡ finish (update_status_with_retry ctx uid none w))
            (sym (wt.exponential_backoff_lem _ _ retry_count _ _))
            (rw (zero_rounds, backoff_rounds, live) refl),
        refl,
      )

module _ {W : Type 0} ⦃f : FailureApi⦄ ⦃wt : WaitApi f⦄ ⦃mc : Machine W⦄ where
  -- What runWithRetry returns after its loop.
  abbrev outcome_of : Option Error × Run W → (String × String × Option Error × Option Error) × W
  outcome_of (e, st) = ((st.stdout, st.stderr, e, st.fa_err), st.world)

  rounds-interrupted :
      (ctx : Ctx W) (command : List String) (retry_interval timeout : ℤ) (w w1 : W)
      (out errors : String) (e : Error) (n : ℕ)
      → n ≢ 0
      → ctx w ≡ none
      → mc.runner ctx timeout command w ≡ ((out, errors, some e), w1)
      → f.interrupted e ≡ true
      → outcome_of (
          backoff_rounds
            (λ (st : Run W). ctx st.world)
            (λ (st : Run W). record st { world = mc.sleep retry_interval st.world })
            f.wait_timeout
            (run_once ctx command timeout)
            n
            (record { world = w; stdout = ""; stderr = ""; fa_err = none }))
        ≡ ((out, errors, some e, some e), w1)
  unfolding run_once
  rounds-interrupted ctx command retry_interval timeout w w1 out errors e zero some_round alive ran
        stop =
      absurd (some_round refl)
  rounds-interrupted ctx command retry_interval timeout w w1 out errors e (suc n) some_round alive
        ran stop =
      ap outcome_of (
        backoff_rounds-failed (λ (st : Run W). ctx st.world)
          (λ (st : Run W). record st { world = mc.sleep retry_interval st.world }) f.wait_timeout
          (run_once ctx command timeout) n _
          (record { world = w1; stdout = out; stderr = errors; fa_err = some e }) e alive
          (rw (ran, stop) refl))

  -- For a command that is not empty, a positive number of attempts and a context that is not over at
  -- the start: if the first run ends with an error that counts as an interruption, such as the timeout
  -- of the command, there is no second run, and both errors are that one.
  pub run_with_retry-interrupted :
      (ctx : Ctx W) (agent : String) (args : List String) (retry_count retry_interval timeout : ℤ)
      (w w1 : W) (out errors : String) (e : Error)
      → pos_part retry_count ≢ 0
      → ctx w ≡ none
      → mc.runner ctx timeout (agent ∷ args) w ≡ ((out, errors, some e), w1)
      → f.interrupted e ≡ true
      → run_with_retry ctx (agent ∷ args) retry_count retry_interval timeout w
        ≡ ((out, errors, some e, some e), w1)
  unfolding run_with_retry
  run_with_retry-interrupted ctx agent args retry_count retry_interval timeout w w1 out errors e
        positive alive ran stop =
      subst (λ r. outcome_of r ≡ ((out, errors, some e, some e), w1))
        (sym (wt.exponential_backoff_lem _ _ retry_count _ _))
        (rounds-interrupted ctx (agent ∷ args) retry_interval timeout w w1 out errors e
          (pos_part retry_count) positive alive ran stop)
