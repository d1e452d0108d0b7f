-- ===== src/Templates/Status.antt =====
-- The verdict of a status command, whatever the agent does.
use fence_agents_remediation.Prelude.{
  pos, String, ◌≡◌, ◌↔◌, refl, ap, sym, subst, true, false, ◌∷◌, Option, none, some, arith, ◌∙◌,
}
use fence_agents_remediation.Prelude.Dict.{Dict}
use fence_agents_remediation.Errors.{Error}
use fence_agents_remediation.Libraries.Failures.{FailureApi}
use fence_agents_remediation.Libraries.Text.{TextApi}
use fence_agents_remediation.Libraries.Wait.{
  WaitApi, Poll, done, again, failed, end_round, backoff_rounds-one,
}
use fence_agents_remediation.Cli.Executer.{
  Ctx, Machine, Run, run_once, run_with_retry, sync_execute, poll_of,
}
use fence_agents_remediation.Templates.Outputs.{IsOn, says_on_iff}
use fence_agents_remediation.Templates.{
  says_on, status_args, ParameterValidationResult, status_validation_timeout, status_command,
  judge_status, run_fence_status,
}

-- What the result of a status command that has run once is to be: after a run with no error, a success
-- exactly if its output says that the node is on; after one with an error, a failure with the text of
-- a timeout.
abbrev pub IsVerdict : ⦃tx : TextApi⦄ → String → Option Error → ParameterValidationResult → Type 0
IsVerdict stdout none result = (result.is_successful ≡ true) ↔ IsOn stdout
IsVerdict stdout (some e) result =
    (result.is_successful ≡ false) × (result.text ≡ "status command timed out after 15s")

judge_status-succeeded :
    ⦃f : FailureApi⦄
    → ⦃tx : TextApi⦄ → (stdout stderr : String)
    → (judge_status (stdout, stderr, none, none)).is_successful ≡ says_on stdout
unfolding judge_status
judge_status-succeeded stdout stderr = ground arith

module _ {W : Type 0} where
  abbrev outcome_of : Option Error × Run W → (String × String × Option Error × Option Error) × W
  outcome_of (e, st) = ((st.stdout, st.stderr, e, st.fa_err), st.world)

  end_round-state :
      (ctx_err : Run W → Option Error) (pause : Run W → Run W) (timeout : Error) (r : Poll × Run W)
      → (end_round ctx_err pause timeout r).1 ≡ r.1
  end_round-state ctx_err pause timeout (done, st) = refl
  end_round-state ctx_err pause timeout (again, st) = refl
  end_round-state ctx_err pause timeout (failed e, st) = refl

  judge_status-IsVerdict :
      ⦃f : FailureApi⦄
      → ⦃tx : TextApi⦄
      → (ctx : Ctx W) (pause : Run W → Run W) (stdout stderr : String) (failure : Option Error)
        (w : W)
      → let st : Run W = record { world = w; stdout = stdout; stderr = stderr; fa_err = failure } in
        IsVerdict stdout failure (
          judge_status
            (outcome_of (
              end_round
                (λ (st : Run W). ctx st.world)
                pause
                f.wait_timeout
                (poll_of failure, st))).0)
  unfolding judge_status
  judge_status-IsVerdict ctx pause stdout stderr none w =
      rw (judge_status-succeeded stdout stderr) (says_on_iff stdout)
  judge_status-IsVerdict ⦃f⦄ ctx pause stdout stderr (some e) w =
      ground (arith, f.interrupted-wait_timeout)

module _ {W : Type 0} ⦃f : FailureApi⦄ ⦃tx : TextApi⦄ ⦃wt : WaitApi f⦄ ⦃mc : Machine W⦄ where
  -- If its context is not over at the start, runFenceStatus runs the status command once and leaves the
  -- cluster as that run does. If the run gives no error, it succeeds exactly if the output in capitals
  -- has `STATUS: ON` or `STATUS:ON` in it, or begins with `ON` after its white space; if the run gives
  -- an error, whichever it is, it fails with the text of a timeout.
  pub run_fence_status-IsVerdict :
      (ctx : Ctx W) (agent : String) (params : Dict String) (w w1 : W) (stdout stderr : String)
      (failure : Option Error)
      → ctx w ≡ none
      → mc.runner ctx status_validation_timeout
          (agent ∷ "--action" ∷ "status" ∷ status_args params)
          w
        ≡ ((stdout, stderr, failure), w1)
      → IsVerdict stdout failure (run_fence_status ctx agent params w).0
        × ((run_fence_status ctx agent params w).1 ≡ w1)
  unfolding run_fence_status sync_execute run_with_retry run_once status_command
  run_fence_status-IsVerdict ctx agent params w w1 stdout stderr failure alive ran =
      let command = agent ∷ "--action" ∷ "status" ∷ status_args params in
      let start : Run W = record { world = w; stdout = ""; stderr = ""; fa_err = none } in
      let over : Run W = record {
        world = w1;
        stdout = stdout;
        stderr = stderr;
        fa_err = failure;
      } in
      let ctx_err : Run W → Option Error = λ st. ctx st.world in
      let pause : Run W → Run W = λ st. record st { world = mc.sleep (pos 0) st.world } in
      let once = run_once ctx command status_validation_timeout in
      subst
        (λ (r : Option Error × Run W).
          IsVerdict stdout failure (judge_status (outcome_of r).0) × ((outcome_of r).1 ≡ w1))
        (sym (
          wt.exponential_backoff_lem ctx_err pause (pos 1) once start
          ∙ backoff_rounds-one ctx_err pause f.wait_timeout once start (poll_of failure, over) alive
              (rw ran refl)))
        (
          judge_status-IsVerdict ctx pause stdout stderr failure w1,
          ap (λ (st : Run W). st.world)
              (end_round-state ctx_err pause f.wait_timeout (poll_of failure, over)),
        )
