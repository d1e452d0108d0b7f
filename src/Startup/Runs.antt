-- ===== src/Startup/Runs.antt =====
-- cmd/main.go: what holds of a program that has started, and when the start panics.
use fence_agents_remediation.Prelude.{
  ◌≡◌, ◌≢◌, refl, ◌↔◌, ◌⊎◌, inl, inr, Bool, Option, none, some, arith,
}
use fence_agents_remediation.Errors.{Error, Result, ok, err}
use fence_agents_remediation.Libraries.Failures.{FailureApi}
use fence_agents_remediation.Libraries.Text.{TextApi}
use fence_agents_remediation.Validation.{
  ClientSet, OutOfServiceTaintValidator, new_out_of_service_taint_validator, with_version,
  is_out_of_service_taint_supported, checked_validator, new_agent_validator,
  validate_agent_existence,
}
use fence_agents_remediation.Cli.Routines.{new_executer}
use fence_agents_remediation.Startup.{
  Flags, Host, ManagerOptions, Program, Exit, goes_on, exited, crashed, Boot, continue, or_exit,
  Part, connect, watch_profile, register, manager_options, read_support, profile_of, main,
  remediation_controller, far_webhook, template_webhook, template_controller, tls_profile_watcher,
  healthz_check, readyz_check,
}

continue-eq-goes_on :
    {W A B : Type 0} (r : Exit A × W) (k : A → Boot W B) {b : B}
    → (continue r k).0 ≡ goes_on b
    → (a : A) × (r.0 ≡ goes_on a) × ((k a r.1).0 ≡ goes_on b)
continue-eq-goes_on (goes_on a, w) k h = (a, refl, h)
continue-eq-goes_on (exited, w) k h = cc
continue-eq-goes_on (crashed, w) k h = cc

crashed_is_no_start : {A : Type 0} {a : A} → crashed ≡ goes_on a → ⊥
crashed_is_no_start h = cc

-- The program ends by os.Exit, or goes on with `a`.
abbrev pub Only : {A : Type 0} → A → Exit A → Type 0
Only a e = (e ≡ exited) ⊎ (e ≡ goes_on a)

Only-crashed : {A : Type 0} (a : A) (e : Exit A) → Only a e → e ≢ crashed
Only-crashed a e (inl h) c = cc
Only-crashed a e (inr h) c = cc

Only-goes_on : {A : Type 0} (a b : A) (e : Exit A) → Only a e → e ≡ goes_on b → b ≡ a
Only-goes_on a b e (inl h) g = cc
Only-goes_on a b e (inr h) g = cc

Only-then :
    {W B : Type 0} (b : B) (r : Exit (Unit {0}) × W) (k : Boot W B)
    → Only tt r.0
    → ((w : W) → Only b (k w).0)
    → Only b (continue r (λ _. k)).0
Only-then b (goes_on _, w) k h only = only w
Only-then b (exited, w) k h only = inl refl
Only-then b (crashed, w) k h only = absurd (Only-crashed tt crashed h refl)

Only-or_exit : {W : Type 0} (call : W → Option Error × W) (w : W) → Only tt (or_exit call w).0
Only-or_exit call w = ground arith

module _ {W P : Type 0} (host : Host W P) where
  Only-watch_profile : (p : Option P) (w : W) → Only tt (watch_profile host p w).0
  Only-watch_profile none w = inr refl
  Only-watch_profile (some p) w = Only-or_exit (host.set_up tls_profile_watcher) w

  -- What `register` makes, if it does not exit.
  pub register-Only :
      (options : ManagerOptions) (p : Option P) (supported : Bool) (w : W)
      → Only
          (record {
            options = options;
            settings = record {
              agent_exists = validate_agent_existence (new_agent_validator host.os);
              is_out_of_service_taint_supported = supported;
            };
            executer = new_executer;
          })
          (register host options p supported w).0
  unfolding register
  register-Only options p supported w =
      let part = λ (x : Part) (w : W). Only-or_exit (host.set_up x) w in
      Only-then _ _ _ (part remediation_controller w) (λ w.
        Only-then _ _ _ (part far_webhook w) (λ w. Only-then _ _ _ (part template_webhook w) (λ w.
          Only-then _ _ _ (part template_controller w) (λ w.
            Only-then _ _ _ (Only-watch_profile p w) (λ w.
              Only-then _ _ _ (part healthz_check w) (λ w.
                Only-then _ _ _ (part readyz_check w)
                  (λ w. Only-then _ _ _ (Only-or_exit host.start w) (λ w. inr refl))))))))

checked_validator-cases :
    (r : Option Error × OutOfServiceTaintValidator)
    → let (v, e) = checked_validator r in
      ((v ≡ none) × (e ≢ none)) ⊎ ((x : OutOfServiceTaintValidator) × (v ≡ some x) × (e ≡ none))
checked_validator-cases (some e, v) = inl (refl, λ c. cc)
checked_validator-cases (none, v) = inr (v, refl, refl)

-- The constructor of a validator gives none exactly if it gives an error.
checked_or_error :
    ⦃t : TextApi⦄
    → (r : Option ClientSet × Option Error)
    → let (v, e) = new_out_of_service_taint_validator r in
      ((v ≡ none) × (e ≢ none)) ⊎ ((x : OutOfServiceTaintValidator) × (v ≡ some x) × (e ≡ none))
unfolding new_out_of_service_taint_validator with_version
checked_or_error (none, e) = inl (refl, λ c. cc)
checked_or_error (some cs, some e) = inl (refl, λ c. cc)
checked_or_error (some (none, e), none) = inl (refl, λ c. cc)
checked_or_error (some (some version, some e), none) = inl (refl, λ c. cc)
checked_or_error (some (some version, none), none) = checked_validator-cases _

Calm-continue :
    {W A B : Type 0} (r : Exit A × W) (k : A → Boot W B)
    → r.0 ≢ crashed
    → ((a : A) (w : W) → (k a w).0 ≢ crashed)
    → (continue r k).0 ≢ crashed
Calm-continue (goes_on a, w) k h calm = calm a w
Calm-continue (exited, w) k h calm = λ c. cc
Calm-continue (crashed, w) k h calm = absurd (h refl)

module _ {W P : Type 0} (host : Host W P) where
  profile_of-ne-crashed : ⦃f : FailureApi⦄ → (r : Result P) → profile_of host r ≢ crashed
  unfolding profile_of
  profile_of-ne-crashed (ok p) c = cc
  profile_of-ne-crashed (err e) c = ground arith

  connect-ne-crashed :
      ⦃f : FailureApi⦄ → (flags : Flags) (w : W) → (connect host flags w).0 ≢ crashed
  unfolding connect
  connect-ne-crashed flags w =
      let calm = λ (call : W → Option Error × W) (w : W). Only-crashed tt _ (Only-or_exit call w) in
      Calm-continue _ _ (calm host.get_config w) (λ _ w.
        Calm-continue _ _ (calm host.new_client w) (λ _ w.
          Calm-continue _ _ (profile_of-ne-crashed (host.fetch_tls_profile w).0) (λ p w.
            Calm-continue _ _ (calm (host.new_manager (manager_options host flags p)) w)
              (λ _ w c. cc))))

module _ {W P : Type 0} ⦃f : FailureApi⦄ ⦃t : TextApi⦄ (host : Host W P) where
  -- Main from the point where the manager has been made.
  abbrev rest_of : Flags → Option P → Boot W Program
  rest_of flags profile w =
      continue (read_support host w) (register host (manager_options host flags profile) profile)

  rest_of-crashed_iff :
      (flags : Flags) (r : Exit (Option P) × W)
      → r.0 ≢ crashed
      → ((continue r (rest_of flags)).0 ≡ crashed) ↔ (
          ((p : Option P) × (r.0 ≡ goes_on p))
          × ((new_out_of_service_taint_validator (host.new_for_config r.1).0).1 ≢ none))
  unfolding is_out_of_service_taint_supported
  rest_of-crashed_iff flags (exited, w) calm = (λ h. cc, λ h. cc)
  rest_of-crashed_iff flags (crashed, w) calm = absurd (calm refl)
  rest_of-crashed_iff flags (goes_on p, w) calm =
      elim (checked_or_error (host.new_for_config w).0) [
        | inl (nil, failed) ↦ rw nil ((λ _. ((p, refl), failed)), (λ _. refl))
        | inr (v, made, fine) ↦
            rw (made, fine)
              (
                (λ h. absurd (
                    Only-crashed _ _
                      (register-Only host (manager_options host flags p) p
                        v.is_out_of_service_taint_supported (host.new_for_config w).1)
                      h)),
                (λ h. absurd (h.1 refl)),
              )
      ]

  -- The call of kubernetes.NewForConfig in a start.
  abbrev pub validator_of : Flags → W → Option OutOfServiceTaintValidator × Option Error
  validator_of flags w =
      new_out_of_service_taint_validator (host.new_for_config (connect host flags w).1).0

  -- A start panics exactly if the manager has been made and no validator of the out-of-service taint
  -- could be made, because the version of Kubernetes could not be read; though the program
  -- means to go on without the taint.
  pub main-crashed_iff :
      (flags : Flags) (w : W)
      → ((main host flags w).0 ≡ crashed) ↔ (
          ((p : Option P) × ((connect host flags w).0 ≡ goes_on p))
          × ((validator_of flags w).1 ≢ none))
  unfolding main
  main-crashed_iff flags w =
      rest_of-crashed_iff flags (connect host flags w) (connect-ne-crashed host flags w)

  -- What a program that runs has been started with: the options for some profile, the flag of the
  -- validator, and the file system's answers on agents.
  pub main-goes_on :
      (flags : Flags) (w : W) {program : Program}
      → (main host flags w).0 ≡ goes_on program
      → (p : Option P) × (v : OutOfServiceTaintValidator) × ((validator_of flags w).0 ≡ some v)
        × (program ≡ record {
          options = manager_options host flags p;
          settings = record {
            agent_exists = validate_agent_existence (new_agent_validator host.os);
            is_out_of_service_taint_supported = v.is_out_of_service_taint_supported;
          };
          executer = new_executer;
        })
  unfolding main is_out_of_service_taint_supported
  main-goes_on flags w h =
      let (p, connected, went) = continue-eq-goes_on (connect host flags w) (rest_of flags) h in
      let w1 = (connect host flags w).1 in
      elim (checked_or_error (host.new_for_config w1).0) [
        | inl (nil, failed) ↦ absurd (crashed_is_no_start (rw nil at went))
        | inr (v, made, fine) ↦ (
          p,
          v,
          made,
          Only-goes_on _ _ _
              (register-Only host (manager_options host flags p) p
                v.is_out_of_service_taint_supported (host.new_for_config w1).1)
              (rw made at went),
        )
      ]
