-- ===== src/Libraries/Wait.antt =====
-- wait.ExponentialBackoffWithContext of k8s.io/apimachinery/pkg/util/wait, over a state `S` that
-- the condition changes and in which time passes.
use fence_agents_remediation.Prelude.{
  ℕ, ℤ, Bool, pos_part, zero, suc, ◌≡◌, refl, Option, none, some, inl, inr, Option-cases,
}
use fence_agents_remediation.Errors.{Error}
use fence_agents_remediation.Libraries.Failures.{FailureApi}

-- What a condition returns: (true, nil), (false, nil), or an error.
pub data Poll : Type 0 where
  done : Poll
  again : Poll
  failed : Error → Poll

-- The documented loop: at most so many rounds; before each round and during each pause the
-- context may end it; the condition ends it by success or by an error; when no round is left the
-- error is that of a timeout. There is no pause after the last round.
module _ {S : Type 0} (ctx_err : S → Option Error) (pause : S → S) (timeout : Error) where
  abbrev pub resume : (S → Option Error × S) → S → Option Error × S
  resume more s = elim (ctx_err s) [ some e ↦ (some e, s) | none ↦ more s ]

  abbrev pub after_poll : ℕ → (S → Option Error × S) → Poll × S → Option Error × S
  after_poll n more (done, s) = (none, s)
  after_poll n more (failed e, s) = (some e, s)
  after_poll zero more (again, s) = (some timeout, s)
  after_poll (suc _) more (again, s) = resume more (pause s)

  unfoldable pub backoff_rounds : (S → Poll × S) → ℕ → S → Option Error × S
  backoff_rounds condition zero s = (some timeout, s)
  backoff_rounds condition (suc n) s =
      resume (λ t. after_poll n (backoff_rounds condition n) (condition t)) s

  pub backoff_rounds-failed :
      (condition : S → Poll × S) (n : ℕ) (s t : S) (e : Error)
      → ctx_err s ≡ none
      → condition s ≡ (failed e, t)
      → backoff_rounds condition (suc n) s ≡ (some e, t)
  unfolding backoff_rounds
  backoff_rounds-failed condition n s t e alive over = rw (resume, alive, over) refl

  -- A loop of one round.
  abbrev pub end_round : Poll × S → Option Error × S
  end_round (done, s) = (none, s)
  end_round (again, s) = (some timeout, s)
  end_round (failed e, s) = (some e, s)

  after_poll-last : (more : S → Option Error × S) (r : Poll × S) → after_poll 0 more r ≡ end_round r
  after_poll-last more (done, s) = refl
  after_poll-last more (again, s) = refl
  after_poll-last more (failed e, s) = refl

  pub backoff_rounds-one :
      (condition : S → Poll × S) (s : S) (r : Poll × S)
      → ctx_err s ≡ none
      → condition s ≡ r
      → backoff_rounds condition 1 s ≡ end_round r
  unfolding backoff_rounds
  backoff_rounds-one condition s r alive asked =
      rw (resume, alive, asked) (after_poll-last (backoff_rounds condition 0) r)

pub record WaitApi (f : FailureApi) : Type 1 where
  pub default_steps : ℤ  -- the steps of client-go's retry.DefaultBackoff
  -- The context's error, the pause, the steps, the condition and the state.
  pub exponential_backoff :
      {S : Type 0} → (S → Option Error) → (S → S) → ℤ → (S → Poll × S) → S → Option Error × S
  pub exponential_backoff_lem :
      {S : Type 0} (ctx_err : S → Option Error) (pause : S → S) (steps : ℤ)
      (condition : S → Poll × S) (s : S)
      → exponential_backoff ctx_err pause steps condition s
        ≡ backoff_rounds ctx_err pause f.wait_timeout condition (pos_part steps) s
  -- PollUntilContextTimeout: the interval, the timeout, whether the condition is asked at once, and
  -- the condition. A nil error means that the condition has succeeded, at the state it left.
  pub poll_until_context_timeout :
      {S : Type 0} → ℤ → ℤ → Bool → (S → Poll × S) → S → Option Error × S
  pub poll_until_ok :
      {S : Type 0} (interval timeout : ℤ) (immediate : Bool) (condition : S → Poll × S) (s : S)
      → (poll_until_context_timeout interval timeout immediate condition s).0 ≡ none
      → (t : S) × (condition t
          ≡ (done, (poll_until_context_timeout interval timeout immediate condition s).1))
  -- Nothing but the condition changes the state.
  pub poll_until_invariant :
      {S : Type 0} (P : S → Type 0) (interval timeout : ℤ) (immediate : Bool)
      (condition : S → Poll × S) (s : S)
      → ((t : S) → P t → P (condition t).1)
      → P s
      → P (poll_until_context_timeout interval timeout immediate condition s).1

-- What the condition and the pause keep, the loop keeps.
module _ {S : Type 0} (ctx_err : S → Option Error) (pause : S → S) (timeout : Error)
    (P : S → Type 0) (paused : (s : S) → P s → P (pause s)) where
  resume-invariant :
      (more : S → Option Error × S) (s : S)
      → P s
      → (P s → P (more s).1)
      → P (resume ctx_err pause timeout more s).1
  resume-invariant more s h next = elim (Option-cases (ctx_err s)) [
    | inl alive ↦ rw (resume, alive) (next h)
    | inr (e, over) ↦ rw (resume, over) h
  ]

  after_poll-invariant :
      (n : ℕ) (more : S → Option Error × S) (r : Poll × S)
      → ((s : S) → P s → P (more s).1)
      → P r.1
      → P (after_poll ctx_err pause timeout n more r).1
  after_poll-invariant n more (done, s) next h = h
  after_poll-invariant n more (failed e, s) next h = h
  after_poll-invariant zero more (again, s) next h = h
  after_poll-invariant (suc n) more (again, s) next h =
      resume-invariant more (pause s) (paused s h) (next (pause s))

  pub backoff_rounds-invariant :
      (condition : S → Poll × S) (n : ℕ) (s : S)
      → ((t : S) → P t → P (condition t).1)
      → P s
      → P (backoff_rounds ctx_err pause timeout condition n s).1
  unfolding backoff_rounds
  backoff_rounds-invariant condition zero s step h = h
  backoff_rounds-invariant condition (suc n) s step h =
      let rounds = backoff_rounds ctx_err pause timeout condition n in
      resume-invariant (λ t. after_poll ctx_err pause timeout n rounds (condition t)) s h
        (λ h.
          after_poll-invariant n rounds (condition s)
            (λ t k. backoff_rounds-invariant condition n t step k) (step s h))
