-- ===== src/Tests/Waiting.antt =====
-- Loops of wait that keep the laws of the interface, and machines that run fence agents.
use fence_agents_remediation.Prelude.{
  ◌+◌, ℤ, pos, pos_part, ◌≡◌, refl, Bool, Option, none, some, eqb, if◌then◌else◌,
}
use fence_agents_remediation.Errors.{Error, foreign, deadline_exceeded}
use fence_agents_remediation.Libraries.Wait.{WaitApi, Poll, done, again, failed, backoff_rounds}
use fence_agents_remediation.Cli.Executer.{Ctx, Machine}
use fence_agents_remediation.Tests.Cluster.{World}
use fence_agents_remediation.Tests.Libraries.{simple_failures, timed_out}

module _ {S : Type 0} where
  abbrev simple_backoff : (S → Option Error) → (S → S) → ℤ → (S → Poll × S) → S → Option Error × S
  simple_backoff ctx_err pause steps condition s =
      backoff_rounds ctx_err pause timed_out condition (pos_part steps) s

  -- The condition is asked once.
  abbrev end_poll : Poll × S → Option Error × S
  end_poll (done, s) = (none, s)
  end_poll (again, s) = (some timed_out, s)
  end_poll (failed e, s) = (some e, s)

  abbrev simple_poll : ℤ → ℤ → Bool → (S → Poll × S) → S → Option Error × S
  simple_poll interval timeout immediate condition s = end_poll (condition s)

  end_poll_ok : (r : Poll × S) → (end_poll r).0 ≡ none → r ≡ (done, (end_poll r).1)
  end_poll_ok (done, s) h = refl
  end_poll_ok (again, s) h = absurd (cc h)
  end_poll_ok (failed e, s) h = absurd (cc h)

  pub simple_poll_ok :
      (interval timeout : ℤ) (immediate : Bool) (condition : S → Poll × S) (s : S)
      → (simple_poll interval timeout immediate condition s).0 ≡ none
      → (t : S) × (condition t ≡ (done, (simple_poll interval timeout immediate condition s).1))
  simple_poll_ok interval timeout immediate condition s h = (s, end_poll_ok (condition s) h)

  end_poll_keeps : (P : S → Type 0) (r : Poll × S) → P r.1 → P (end_poll r).1
  end_poll_keeps P (done, s) p = p
  end_poll_keeps P (again, s) p = p
  end_poll_keeps P (failed e, s) p = p

  pub simple_poll_invariant :
      (P : S → Type 0) (interval timeout : ℤ) (immediate : Bool) (condition : S → Poll × S) (s : S)
      → ((t : S) → P t → P (condition t).1)
      → P s
      → P (simple_poll interval timeout immediate condition s).1
  simple_poll_invariant P interval timeout immediate condition s step p =
      end_poll_keeps P (condition s) (step s p)

instance abbrev pub simple_wait : WaitApi simple_failures
simple_wait = record {
  default_steps = pos 4;
  exponential_backoff = simple_backoff;
  exponential_backoff_lem = λ ctx_err pause steps condition s. refl;
  poll_until_context_timeout = simple_poll;
  poll_until_ok = simple_poll_ok;
  poll_until_invariant = simple_poll_invariant;
}

-- A context that is never over.
abbrev pub background : Ctx World
background w = none

-- The agent fails at the time 0 and succeeds later; a pause takes one unit of time.
instance abbrev pub flaky : Machine World
flaky = record {
  runner = λ ctx timeout command w.
      if eqb w.clock 0
      then (("", "refused", some (foreign "exit status 1")), w)
      else (("Success: Rebooted", "", none), w);
  sleep = λ interval w. record w { clock = w.clock + 1 };
  default_pause = λ w. record w { clock = w.clock + 1 };
}

-- The agent never ends in time.
abbrev pub stuck : Machine World
stuck = record {
  runner = λ ctx timeout command w. (("", "", some deadline_exceeded), w);
  sleep = λ interval w. record w { clock = w.clock + 1 };
  default_pause = λ w. record w { clock = w.clock + 1 };
}
