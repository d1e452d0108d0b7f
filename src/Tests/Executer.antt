-- ===== src/Tests/Executer.antt =====
-- The executer and its goroutines at concrete inputs.
use fence_agents_remediation.Prelude.{
  ℕ, ◌+◌, ◌≤◌, arith, pos, pos_part, String, ◌≡◌, ◌≢◌, refl, true, Option, none, some, List, [],
  ◌∷◌, ◌⊎◌, if◌then◌else◌,
}
use fence_agents_remediation.Errors.{
  Error, foreign, deadline_exceeded, returned, panicked, is_canceled,
}
use fence_agents_remediation.Libraries.Wait.{backoff_rounds}
use fence_agents_remediation.Utils.Conditions.{fence_agent_succeeded}
use fence_agents_remediation.Cli.Routines.{
  Executer, new_executer, exists, async_execute, remove_routine,
}
use fence_agents_remediation.Cli.Routines.Liveness.{
  at_start, after_execute, after_remove, live, live-Reached,
}
use fence_agents_remediation.Cli.Executer.{
  Machine, run_once, run_with_retry, reason_of, was_canceled, update_status_with_retry, finish,
  fence_agent_routine,
}
use fence_agents_remediation.Cli.Executer.Attempts.{run_with_retry-succeeded}
use fence_agents_remediation.Cli.Executer.Records.{
  fence_agent_routine-recorded, fence_agent_routine_without_attempts, run_with_retry-interrupted,
}
use fence_agents_remediation.Cli.Executer.Bounds.{
  run_with_retry_le, update_status_with_retry-panicked,
}
use fence_agents_remediation.Tests.Cluster.{World, memory}
use fence_agents_remediation.Tests.Libraries.{simple_failures, list_meta}
use fence_agents_remediation.Tests.Waiting.{simple_wait, background, flaky, stuck}

abbrev command : List String
command = "fence_ipmilan" ∷ "--action=reboot" ∷ []

-- Two resources, of which the second is stopped; the first asks twice.
abbrev busy : Executer
busy =
    remove_routine
      (async_execute
        (async_execute (async_execute new_executer "u1" command (pos 5) (pos 5) (pos 60)) "u2"
          command (pos 5) (pos 5) (pos 60))
        "u1" command (pos 5) (pos 5) (pos 60))
      "u2"

live-Reached_example : live "u1" busy.goroutines ≡ (if exists busy "u1" then 1 else 0)
live-Reached_example = live-Reached busy "u1" (
    after_remove "u2" (
      after_execute "u1" command (pos 5) (pos 5) (pos 60) (
        after_execute "u2" command (pos 5) (pos 5) (pos 60)
          (after_execute "u1" command (pos 5) (pos 5) (pos 60) at_start))))

abbrev pub empty_world : World
empty_world = record {
  nodes = [];
  secrets = [];
  fars = [];
  templates = [];
  deleted_pods_of = [];
  events = [];
  clock = 0;
}

five : pos_part (pos 5) ≢ 0
five h = absurd (cc h)

run_with_retry-succeeded_example :
    let ((out, errors, retry_err, fa_err), after) =
      run_with_retry background command (pos 5) (pos 5) (pos 60) empty_world in
    (retry_err ≡ none)
    × ((t : World) × (flaky.runner background (pos 60) command t ≡ ((out, errors, none), after)))
unfolding run_with_retry run_once backoff_rounds
run_with_retry-succeeded_example =
    run_with_retry-succeeded background "fence_ipmilan" ("--action=reboot" ∷ []) (pos 5) (pos 5)
      (pos 60) empty_world five refl refl

fence_agent_routine-recorded_example :
    let ((_, _, retry_err, _), w1) =
      run_with_retry background command (pos 5) (pos 5) (pos 60) empty_world in
    let routine =
      fence_agent_routine background "u1" command (pos 5) (pos 5) (pos 60) empty_world in
    ((was_canceled retry_err ≡ true) × (routine ≡ (returned tt, w1)))
    ⊎ ((e : Option Error) × (routine ≡ finish (update_status_with_retry background "u1" e w1))
        × (reason_of e ≡ fence_agent_succeeded
            → (t : World) × (out : String) × (errors : String) × (flaky.runner background
                  (pos 60)
                  command
                  t
                ≡ ((out, errors, none), w1))))
fence_agent_routine-recorded_example =
    fence_agent_routine-recorded background "u1" "fence_ipmilan" ("--action=reboot" ∷ []) (pos 5)
      (pos 5) (pos 60) empty_world five refl

fence_agent_routine_without_attempts_example :
    (fence_agent_routine background "u1" command (pos 0) (pos 5) (pos 60) empty_world
      ≡ finish (update_status_with_retry background "u1" none empty_world))
    × (reason_of none ≡ fence_agent_succeeded)
unfolding is_canceled
fence_agent_routine_without_attempts_example =
    fence_agent_routine_without_attempts background "u1" "fence_ipmilan" ("--action=reboot" ∷ [])
      (pos 0) (pos 5) (pos 60) empty_world refl refl

run_with_retry-interrupted_example :
    run_with_retry ⦃mc = stuck⦄ background command (pos 5) (pos 5) (pos 60) empty_world
    ≡ (("", "", some deadline_exceeded, some deadline_exceeded), empty_world)
run_with_retry-interrupted_example =
    run_with_retry-interrupted ⦃mc = stuck⦄ background "fence_ipmilan" ("--action=reboot" ∷ [])
      (pos 5) (pos 5) (pos 60) empty_world empty_world "" "" deadline_exceeded five refl refl refl

-- A machine that counts the runs in the clock.
abbrev counting : Machine World
counting = record {
  runner = λ ctx timeout command w.
      (("", "refused", some (foreign "exit status 1")), record w { clock = w.clock + 1 });
  sleep = λ interval w. w;
  default_pause = λ w. w;
}

at_most_one : (n : ℕ) → n + 1 ≤ n + 1
at_most_one n = ground arith

no_more : (n : ℕ) → n ≤ n
no_more n = ground arith

run_with_retry_le_example :
    (run_with_retry ⦃mc = counting⦄ background command (pos 5) (pos 5) (pos 60) empty_world).1.clock
    ≤ 0 + 5
run_with_retry_le_example =
    run_with_retry_le ⦃mc = counting⦄ (λ w. w.clock) background command (pos 5) (pos 5) (pos 60)
      empty_world (λ c w. at_most_one w.clock) (λ w. no_more w.clock)

update_status_with_retry-panicked_example :
    update_status_with_retry background "u1" none empty_world ≡ (panicked, empty_world)
update_status_with_retry-panicked_example =
    update_status_with_retry-panicked background "u1" none empty_world empty_world 3 refl refl refl
