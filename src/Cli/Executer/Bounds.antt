-- ===== src/Cli/Executer/Bounds.antt =====
-- How often the goroutine of a fence agent runs the command, and the lookup of a resource that is gone.
use fence_agents_remediation.Prelude.{
  true, false, ℕ, zero, suc, ◌+◌, ◌≤◌, ℤ, pos_part, String, ◌≡◌, refl, ◌∙◌, sym, Option, none, some,
  List, [], ◌∷◌, arith, subst, inl, inr, Option-cases, if◌then◌else◌,
}
use fence_agents_remediation.Errors.{Error, message, ok, Outcome, panicked, returned}
use fence_agents_remediation.Libraries.Meta.{MetaApi}
use fence_agents_remediation.Libraries.Failures.{FailureApi}
use fence_agents_remediation.Libraries.Client.{Client}
use fence_agents_remediation.Libraries.Wait.{
  WaitApi, Poll, done, again, failed, backoff_rounds, backoff_rounds-failed, after_poll, resume,
}
use fence_agents_remediation.Cli.Executer.{
  Ctx, Machine, Run, Attempt, run_once, run_with_retry, try_update_status,
  get_fence_agents_remediation_by_uid, select_uid, try_found, update_status,
  update_status_with_retry,
}

-- A loop whose rounds each add at most one to a measure.
module _ {S : Type 0} (ctx_err : S → Option Error) (pause : S → S) (timeout : Error)
    (condition : S → Poll × S) (measure : S → ℕ)
    (step : (s : S) → measure (condition s).1 ≤ measure s + 1)
    (rest : (s : S) → measure (pause s) ≤ measure s) where
  resume_le :
      (more : S → Option Error × S) (s : S) (n : ℕ)
      → measure (more s).1 ≤ measure s + n
      → measure (resume ctx_err pause timeout more s).1 ≤ measure s + n
  resume_le more s n h = elim (Option-cases (ctx_err s)) [
    | inl e ↦ rw (resume, e) h
    | inr (x, e) ↦ rw (resume, e) (ground arith)
  ]

  after_poll_le :
      (n k : ℕ) (more : S → Option Error × S) (r : Poll × S)
      → ((s : S) → measure (more s).1 ≤ measure s + n)
      → measure r.1 ≤ k + 1
      → measure (after_poll ctx_err pause timeout n more r).1 ≤ k + suc n
  after_poll_le n k more (done, s) H h = ground arith
  after_poll_le n k more (failed x, s) H h = ground arith
  after_poll_le zero k more (again, s) H h = ground arith
  after_poll_le (suc n) k more (again, s) H h =
      ground (arith, resume_le more (pause s) (suc n) (H (pause s)), rest s)

  backoff_rounds_le :
      (n : ℕ) (s : S)
      → measure (backoff_rounds ctx_err pause timeout condition n s).1 ≤ measure s + n
  unfolding backoff_rounds
  backoff_rounds_le zero s = ground arith
  backoff_rounds_le (suc n) s =
      resume_le
        (λ t.
          after_poll ctx_err pause timeout n (backoff_rounds ctx_err pause timeout condition n)
            (condition t))
        s (suc n)
        (after_poll_le n (measure s) (backoff_rounds ctx_err pause timeout condition n)
          (condition s) (backoff_rounds_le n) (step s))

module _ {W : Type 0} ⦃f : FailureApi⦄ ⦃wt : WaitApi f⦄ ⦃mc : Machine W⦄ where
  -- For a count of the runs, to which a run of the command adds one at most and a pause nothing,
  -- runWithRetry adds at most the number of attempts, or nothing if that is not positive.
  pub run_with_retry_le :
      (runs : W → ℕ) (ctx : Ctx W) (command : List String) (retry_count retry_interval timeout : ℤ)
      (w : W)
      → ((c : List String) (t : W) → runs (mc.runner ctx timeout c t).1 ≤ runs t + 1)
      → ((t : W) → runs (mc.sleep retry_interval t) ≤ runs t)
      → runs (run_with_retry ctx command retry_count retry_interval timeout w).1
        ≤ runs w + pos_part retry_count
  unfolding run_with_retry run_once
  run_with_retry_le runs ctx [] retry_count retry_interval timeout w one none_more = ground arith
  run_with_retry_le runs ctx (agent ∷ args) retry_count retry_interval timeout w one none_more =
      subst (λ (r : Option Error × Run W). runs r.1.world ≤ runs w + pos_part retry_count)
        (sym (wt.exponential_backoff_lem _ _ retry_count _ _))
        (backoff_rounds_le (λ (st : Run W). ctx st.world)
          (λ (st : Run W). record st { world = mc.sleep retry_interval st.world }) f.wait_timeout
          (run_once ctx (agent ∷ args) timeout) (λ (st : Run W). runs st.world)
          (λ st. one (agent ∷ args) st.world) (λ st. none_more st.world) (pos_part retry_count)
          (record { world = w; stdout = ""; stderr = ""; fa_err = none }))

module _ {W : Type 0} ⦃m : MetaApi⦄ ⦃f : FailureApi⦄ ⦃c : Client W⦄ ⦃wt : WaitApi f⦄
    ⦃mc : Machine W⦄ where
  -- If the list of resources is empty and gives no error, the context is not over and the backoff has
  -- a step, the goroutine's update of the status panics, whatever the outcome of the agent.
  pub update_status_with_retry-panicked :
      (ctx : Ctx W) (uid : String) (failure : Option Error) (w w1 : W) (n : ℕ)
      → pos_part wt.default_steps ≡ suc n
      → ctx w ≡ none
      → c.list_fars w ≡ (ok [], w1)
      → update_status_with_retry ctx uid failure w ≡ (panicked, w1)
  unfolding update_status_with_retry try_update_status get_fence_agents_remediation_by_uid
      select_uid try_found update_status
  update_status_with_retry-panicked ctx uid failure w w1 n steps alive listed =
      let ctx_err : Attempt W → Option Error = λ st. ctx st.world in
      let pause : Attempt W → Attempt W = λ st. record st { world = mc.default_pause st.world } in
      let start : Attempt W = record { world = w; crashed = false } in
      let crash : Attempt W = record { world = w1; crashed = true } in
      let attempt = try_update_status uid failure in
      let looped : wt.exponential_backoff ctx_err pause wt.default_steps attempt start
          ≡ (some (message "panic"), crash) =
        wt.exponential_backoff_lem ctx_err pause wt.default_steps attempt start
        ∙ rw steps (
            backoff_rounds-failed ctx_err pause f.wait_timeout attempt n start crash
              (message "panic") alive (rw listed refl)) in
      subst
        (λ (r : Option Error × Attempt W).
          ◌≡◌ {A = Outcome (Option Error) × W}
            ((if r.1.crashed then panicked else returned r.0), r.1.world) (panicked, w1))
        (sym looped) refl
