-- ===== src/Operator/Ends.antt =====
-- The end of a fence agent's goroutine keeps what a ledger records.
use fence_agents_remediation.Prelude.{
  ℕ, zero, suc, ℤ, pos_part, String, ◌≡◌, ◌≢◌, refl, sym, ◌∙◌, Option, none, some, List, ◌∷◌, ◌⊎◌,
  inl, inr, subst, if◌then◌else◌,
}
use fence_agents_remediation.Errors.{Error, canceled, is_canceled, Outcome, returned, panicked}
use fence_agents_remediation.Libraries.Meta.{MetaApi}
use fence_agents_remediation.Libraries.Failures.{FailureApi}
use fence_agents_remediation.Libraries.Client.{Client}
use fence_agents_remediation.Libraries.Wait.{WaitApi, Poll, backoff_rounds, resume}
use fence_agents_remediation.Cli.Executer.{
  Ctx, Machine, Run, run_once, run_with_retry, was_canceled, update_status_with_retry, finish,
  fence_agent_routine,
}
use fence_agents_remediation.Cli.Executer.Records.{fence_agent_routine-recorded}
use fence_agents_remediation.Operator.Ledger.{Ledger}
use fence_agents_remediation.Operator.Routines.{
  Runs, run_with_retry-Kept, update_status_with_retry-Ready,
}

backoff_rounds-canceled :
    {S : Type 0} (ctx_err : S → Option Error) (pause : S → S) (timeout : Error)
    (condition : S → Poll × S) (n : ℕ) (s : S)
    → n ≢ 0
    → ctx_err s ≡ some canceled
    → backoff_rounds ctx_err pause timeout condition n s ≡ (some canceled, s)
unfolding backoff_rounds
backoff_rounds-canceled ctx_err pause timeout condition zero s some_round over =
    absurd (some_round refl)
backoff_rounds-canceled ctx_err pause timeout condition (suc n) s some_round over =
    rw (resume, over) refl

module _ {W : Type 0} ⦃m : MetaApi⦄ ⦃f : FailureApi⦄ (c : Client W) ⦃wt : WaitApi f⦄
    ⦃mc : Machine W⦄ where
  finish-world : (r : Outcome (Option Error) × W) → (finish ⦃c = c⦄ r).1 ≡ r.1
  finish-world (panicked, w) = refl
  finish-world (returned e, w) = refl

  -- A goroutine whose context is canceled before it starts does nothing.
  fence_agent_routine-canceled :
      (ctx : Ctx W) (uid agent : String) (args : List String)
      (retry_count retry_interval timeout : ℤ) (w : W)
      → pos_part retry_count ≢ 0
      → ctx w ≡ some canceled
      → fence_agent_routine ⦃c = c⦄ ctx uid (agent ∷ args) retry_count retry_interval timeout w
        ≡ (returned tt, w)
  unfolding fence_agent_routine run_with_retry is_canceled
  fence_agent_routine-canceled ctx uid agent args retry_count retry_interval timeout w positive
        over =
      let ctx_err : Run W → Option Error = λ st. ctx st.world in
      let pause : Run W → Run W = λ st. record st { world = mc.sleep retry_interval st.world } in
      let start : Run W = record { world = w; stdout = ""; stderr = ""; fa_err = none } in
      let attempt = run_once ctx (agent ∷ args) timeout in
      let looped : wt.exponential_backoff ctx_err pause retry_count attempt start
          ≡ (some canceled, start) =
        wt.exponential_backoff_lem ctx_err pause retry_count attempt start
        ∙ backoff_rounds-canceled ctx_err pause f.wait_timeout attempt (pos_part retry_count) start
            positive over in
      subst
        (λ (r : Option Error × Run W).
          (if was_canceled r.0
            then (returned tt, r.1.world)
            else finish ⦃c = c⦄ (update_status_with_retry ⦃c = c⦄ ctx uid r.1.fa_err r.1.world))
          ≡ (returned tt, w))
        (sym looped) refl

module _ {W : Type 0} (I : W → Type 0) (B : W → String → Type 0) ⦃m : MetaApi⦄ (c : Client W)
    (l : Ledger I B c) ⦃f : FailureApi⦄ ⦃wt : WaitApi f⦄ ⦃mc : Machine W⦄ (rs : Runs I B mc) where
  -- The goroutine of a command that is not empty, with a positive number of attempts, whose context
  -- is not over at the start or has been canceled, keeps `I`, if a run with no error gives `B`.
  pub fence_agent_routine-Kept :
      (ctx : Ctx W) (uid agent : String) (args : List String)
      (retry_count retry_interval timeout : ℤ) (w : W)
      → pos_part retry_count ≢ 0
      → (ctx w ≡ none) ⊎ (ctx w ≡ some canceled)
      → ((t w1 : W) (out errors : String)
          → mc.runner ctx timeout (agent ∷ args) t ≡ ((out, errors, none), w1)
          → B w1 uid)
      → I w
      → I
          (fence_agent_routine ⦃c = c⦄ ctx uid
            (agent ∷ args)
            retry_count
            retry_interval
            timeout
            w).1
  fence_agent_routine-Kept ctx uid agent args retry_count retry_interval timeout w positive
        (inr over) ran i =
      rw
        (fence_agent_routine-canceled c ctx uid agent args retry_count retry_interval timeout w
          positive over)
        i
  fence_agent_routine-Kept ctx uid agent args retry_count retry_interval timeout w positive
        (inl alive) ran i =
      let w1 = (run_with_retry ctx (agent ∷ args) retry_count retry_interval timeout w).1 in
      let after =
        run_with_retry-Kept I B rs ctx (agent ∷ args) retry_count retry_interval timeout w in
      elim (fence_agent_routine-recorded ⦃c = c⦄ ctx uid agent args retry_count retry_interval
        timeout w positive alive) [
          | inl (_, silent) ↦ rw silent (after.0 i)
          | inr (e, recorded, good) ↦
              rw (recorded, finish-world c (update_status_with_retry ⦃c = c⦄ ctx uid e w1))
                (update_status_with_retry-Ready I B c l uid e rs ctx w1 (
                  after.0 i,
                  λ success. let (t, out, errors, run) = good success in ran t w1 out errors run,
                )).0
        ]
