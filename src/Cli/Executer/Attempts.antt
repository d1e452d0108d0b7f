-- ===== src/Cli/Executer/Attempts.antt =====
-- What the goroutine of a fence agent records, and whether the agent has run.
use fence_agents_remediation.Prelude.{
  ℕ, zero, suc, ℤ, pos_part, String, ◌≡◌, ◌≢◌, refl, ◌∙◌, sym, ap, Option, none, some, List, ◌∷◌,
  ◌⊎◌, inl, inr, subst, Option-cases,
}
use fence_agents_remediation.Errors.{Error}
use fence_agents_remediation.Libraries.Failures.{FailureApi}
use fence_agents_remediation.Libraries.Wait.{
  WaitApi, Poll, done, again, failed, backoff_rounds, after_poll, resume,
}
use fence_agents_remediation.Cli.Executer.{Ctx, Machine, Run, poll_of, run_once, run_with_retry}

-- The loop over any state, with a test `quiet` that holds of the state after a round only if that
-- round has ended the loop with success.
module _ {S : Type 0} (ctx_err : S → Option Error) (pause : S → S) (timeout : Error)
    (condition : S → Poll × S) (quiet : S → Type 0) where
  abbrev Ended : Option Error × S → Type 0
  Ended (e, s) = (e ≡ none) × ((t : S) × (condition t ≡ (done, s)))

  resume-both :
      (more : S → Option Error × S) (s : S) (P : Option Error × S → Type 0)
      → (ctx_err s ≡ none → P (more s))
      → ((e : Error) → ctx_err s ≡ some e → P (some e, s))
      → P (resume ctx_err pause timeout more s)
  resume-both more s P alive over = elim (Option-cases (ctx_err s)) [
    | inl e ↦ rw (resume, e) (alive e)
    | inr (x, e) ↦ rw (resume, e) (over x e)
  ]

  after_poll-Ended :
      (n : ℕ) (more : S → Option Error × S) (t : S) (r : Poll × S)
      → ((u : S) → quiet (more u).1 → Ended (more u) ⊎ quiet u)
      → ((u : S) → quiet (pause u) → quiet u)
      → condition t ≡ r
      → (quiet r.1 → r.0 ≡ done)
      → quiet (after_poll ctx_err pause timeout n more r).1
      → Ended (after_poll ctx_err pause timeout n more r)
  after_poll-Ended n more t (done, s) H paused e loud q = (refl, (t, e))
  after_poll-Ended n more t (failed x, s) H paused e loud q = absurd (cc (loud q))
  after_poll-Ended zero more t (again, s) H paused e loud q = absurd (cc (loud q))
  after_poll-Ended (suc n) more t (again, s) H paused e loud q =
      resume-both more (pause s) (λ r. quiet r.1 → Ended r)
        (λ _ q. elim (H (pause s) q) [
          | inl ended ↦ ended
          | inr q ↦ absurd (cc (loud (paused s q)))
        ])
        (λ x _ q. absurd (cc (loud (paused s q)))) q

  -- If the state is quiet after the loop, a round has ended it with success; or it was quiet before,
  -- and no round has been made.
  backoff_rounds-Ended :
      ((t : S) → quiet (condition t).1 → (condition t).0 ≡ done)
      → ((t : S) → quiet (pause t) → quiet t)
      → (n : ℕ) (s : S) → quiet (backoff_rounds ctx_err pause timeout condition n s).1
      → Ended (backoff_rounds ctx_err pause timeout condition n s)
        ⊎ (quiet s × ((n ≡ 0) ⊎ (ctx_err s ≢ none)))
  unfolding backoff_rounds
  backoff_rounds-Ended loud paused zero s q = inr (q, inl refl)
  backoff_rounds-Ended loud paused (suc n) s q =
      let rounds = backoff_rounds ctx_err pause timeout condition n in
      let H : (u : S) → quiet (rounds u).1 → Ended (rounds u) ⊎ quiet u = λ u q.
        elim (backoff_rounds-Ended loud paused n u q) [ inl e ↦ inl e | inr (q, _) ↦ inr q ] in
      resume-both (λ t. after_poll ctx_err pause timeout n rounds (condition t)) s
        (λ r. quiet r.1 → Ended r ⊎ (quiet s × ((suc n ≡ 0) ⊎ (ctx_err s ≢ none))))
        (λ _ q. inl (after_poll-Ended n rounds s (condition s) H paused refl (loud s) q))
        (λ x e q. inr (q, inr (λ free. cc))) q

poll_of_quiet : ⦃f : FailureApi⦄ → (e : Option Error) → e ≡ none → poll_of e ≡ done
poll_of_quiet none h = refl
poll_of_quiet (some x) h = absurd (cc h)

module _ {W : Type 0} ⦃f : FailureApi⦄ ⦃wt : WaitApi f⦄ ⦃mc : Machine W⦄ where
  run_once-runner :
      (ctx : Ctx W) (command : List String) (timeout : ℤ) (t st : Run W) (p : Poll)
      → run_once ctx command timeout t ≡ (p, st)
      → mc.runner ctx timeout command t.world ≡ ((st.stdout, st.stderr, st.fa_err), st.world)
  unfolding run_once
  run_once-runner ctx command timeout t st p e =
      ap (λ x. ((x.1.stdout, x.1.stderr, x.1.fa_err), x.1.world)) e

  -- What a loop of runs gives if it leaves no error of the agent.
  abbrev Succeeded : Ctx W → List String → ℤ → Option Error × Run W → Type 0
  Succeeded ctx command timeout (e, st) =
      st.fa_err ≡ none
      → (e ≡ none)
        × ((t : W) × (mc.runner ctx timeout command t ≡ ((st.stdout, st.stderr, none), st.world)))

  rounds-Succeeded :
      (ctx : Ctx W) (command : List String) (retry_interval timeout : ℤ) (w : W) (n : ℕ)
      → ctx w ≡ none
      → n ≢ 0
      → Succeeded ctx command timeout (
          backoff_rounds
            (λ (st : Run W). ctx st.world)
            (λ (st : Run W). record st { world = mc.sleep retry_interval st.world })
            f.wait_timeout
            (run_once ctx command timeout)
            n
            (record { world = w; stdout = ""; stderr = ""; fa_err = none }))
  unfolding run_once
  rounds-Succeeded ctx command retry_interval timeout w n alive some_round q =
      elim (backoff_rounds-Ended (λ (st : Run W). ctx st.world)
        (λ (st : Run W). record st { world = mc.sleep retry_interval st.world }) f.wait_timeout
        (run_once ctx command timeout) (λ st. st.fa_err ≡ none) (λ t q. poll_of_quiet _ q)
        (λ t q. q) n _ q) [
          | inl (none_left, (t, e)) ↦
              (none_left, (t.world, run_once-runner ctx command timeout t _ done e ∙ rw q refl))
          | inr (_, inl zero_rounds) ↦ absurd (some_round zero_rounds)
          | inr (_, inr over) ↦ absurd (over alive)
        ]

  -- A command that is not empty, with a positive number of attempts and a context that is not over:
  -- if runWithRetry gives a nil faErr, then the last run of the command gave no error, its outputs
  -- are the ones returned, and retryErr is nil.
  pub run_with_retry-succeeded :
      (ctx : Ctx W) (agent : String) (args : List String) (retry_count retry_interval timeout : ℤ)
      (w : W)
      → pos_part retry_count ≢ 0
      → ctx w ≡ none
      → let ((out, errors, retry_err, fa_err), after) =
          run_with_retry ctx (agent ∷ args) retry_count retry_interval timeout w in
        fa_err ≡ none
        → (retry_err ≡ none)
          × ((t : W) × (mc.runner ctx timeout (agent ∷ args) t ≡ ((out, errors, none), after)))
  unfolding run_with_retry
  run_with_retry-succeeded ctx agent args retry_count retry_interval timeout w positive alive =
      subst (Succeeded ctx (agent ∷ args) timeout)
        (sym (wt.exponential_backoff_lem _ _ retry_count _ _))
        (rounds-Succeeded ctx (agent ∷ args) retry_interval timeout w (pos_part retry_count) alive
          positive)
