-- ===== src/Tests/Startup.antt =====
-- Starts of the program and versions of Kubernetes at concrete inputs; the versions are those of
-- pkg/validation/validation_test.go.
use fence_agents_remediation.Prelude.{
  ℕ, suc, ◌≡◌, ◌≢◌, ◌↔◌, refl, ◌⊎◌, inr, Bool, true, false, String, none, some, [], ◌∷◌, ◌^^◌,
  arith, Option,
}
use fence_agents_remediation.Errors.{Error, Result, ok, err, foreign}
use fence_agents_remediation.Api.{out_of_service_taint_remediation_strategy}
use fence_agents_remediation.Admission.{validate_strategy}
use fence_agents_remediation.Validation.{
  VersionInfo, OutOfServiceTaintValidator, set_out_of_service_taint_supported_flag,
  new_out_of_service_taint_validator, is_out_of_service_taint_supported, new_agent_validator,
  validate_agent_existence,
}
use fence_agents_remediation.Cli.Routines.{new_executer}
use fence_agents_remediation.Validation.Numbers.{atoi, leading_digits}
use fence_agents_remediation.Validation.Version.{
  IsVersion, HasTaint, set_out_of_service_taint_supported_flag-HasTaint,
  set_out_of_service_taint_supported_flag-refused,
}
use fence_agents_remediation.Startup.{
  Flags, Host, Program, goes_on, crashed, connect, register, main, TlsConfig, manager_options,
}
use fence_agents_remediation.Startup.Runs.{validator_of, main-crashed_iff}
use fence_agents_remediation.Startup.Tls.{apply, offered, main-offered}
use fence_agents_remediation.Startup.Support.{validate_strategy-main}
use fence_agents_remediation.Tests.Libraries.{simple_failures}
use fence_agents_remediation.Tests.Templates.{simple_text}

abbrev unset : OutOfServiceTaintValidator
unset = record { is_out_of_service_taint_supported = false }

abbrev is_some {ℓ} : {A : Type ℓ} → Option A → Bool
is_some none = false
is_some (some _) = true

abbrev is_ok : {A : Type 0} → Result A → Bool
is_ok (ok _) = true
is_ok (err _) = false

-- Whether there is an error, and the flag.
flags_of : String → String → Bool × Bool
flags_of major minor =
    let (e, v) =
      set_out_of_service_taint_supported_flag (record { major = major; minor = minor }) unset in
    (is_some e, v.is_out_of_service_taint_supported)

valid_versions :
    (flags_of "1" "26" ≡ (false, true))
    × (flags_of "1" "24" ≡ (false, false))
    × (flags_of "1" "26+" ≡ (false, true))
    × (flags_of "1" "24+" ≡ (false, false))
    × (flags_of "1" "26.5.2#$%+" ≡ (false, true))
    × (flags_of "1" "22.5.2#$%+" ≡ (false, false))
unfolding flags_of set_out_of_service_taint_supported_flag atoi leading_digits
valid_versions = (refl, refl, refl, refl, refl, refl)

invalid_versions : (flags_of "1" "%24" ≡ (true, false)) × (flags_of "1+" "26" ≡ (true, false))
unfolding flags_of set_out_of_service_taint_supported_flag atoi leading_digits
invalid_versions = (refl, refl)

-- Atoi at the ends of its range.
atoi_ends :
    (is_ok (atoi "9223372036854775807") ≡ true)
    × (is_ok (atoi "9223372036854775808") ≡ false)
    × (is_ok (atoi "-9223372036854775808") ≡ true)
    × (is_ok (atoi "") ≡ false)
    × (is_ok (atoi "+") ≡ false)
unfolding atoi
atoi_ends = (refl, refl, refl, refl, refl)

IsVersion-1_26 : IsVersion "1" "26" "+"
IsVersion-1_26 = record {
  major_is_there = λ h. cc;
  minor_is_there = λ h. cc;
  major_digits = (refl, tt);
  minor_digits = (refl, (refl, tt));
  rest_is_apart = refl;
  major_fits = omega arith;
  minor_fits = omega arith;
}

set_out_of_service_taint_supported_flag-HasTaint_example :
    let (e, v') =
      set_out_of_service_taint_supported_flag (record { major = "1"; minor = "26" ^^ "+" }) unset in
    (e ≡ none) × ((v'.is_out_of_service_taint_supported ≡ true) ↔ HasTaint "1" "26")
set_out_of_service_taint_supported_flag-HasTaint_example =
    set_out_of_service_taint_supported_flag-HasTaint "1" "26" "+" unset IsVersion-1_26

set_out_of_service_taint_supported_flag-refused_example :
    let (e, v') =
      set_out_of_service_taint_supported_flag (record { major = "1"; minor = "%24" }) unset in
    (e ≢ none) × (v' ≡ unset)
set_out_of_service_taint_supported_flag-refused_example =
    set_out_of_service_taint_supported_flag-refused (record { major = "1"; minor = "%24" }) unset
      (inr refl)

-- The server answers a request for its version by `answer`; every other call succeeds, and the state
-- counts the calls.
abbrev host_with : Option VersionInfo × Option Error → Host ℕ String
host_with answer = record {
  os = record {
    join = λ dir name. dir ^^ "/" ^^ name;
    stat = λ path. none;
    is_not_exist = λ e. false;
  };
  get_config = λ w. (none, w);
  new_client = λ w. (none, suc w);
  fetch_tls_profile = λ w. (ok "Modern", suc w);
  is_no_match = λ e. false;
  new_tls_config = λ p c. record c { min_version = some p };
  new_manager = λ options w. (none, suc w);
  new_for_config = λ w. ((some answer, none), suc w);
  set_up = λ part w. (none, suc w);
  start = λ w. (none, suc w);
}

abbrev modern_version : VersionInfo
modern_version = record { major = "1"; minor = "26" ^^ "+" }

abbrev modern : Host ℕ String
modern = host_with (some modern_version, none)

abbrev unreachable : Host ℕ String
unreachable = host_with (none, some (foreign "Unauthorized"))

abbrev default_flags : Flags
default_flags = record {
  metrics_addr = ":8443";
  probe_addr = ":8081";
  enable_leader_election = false;
  enable_http2 = false;
}

abbrev plain_tls : TlsConfig
plain_tls = record { next_protos = "h2" ∷ []; min_version = none; cipher_suites = [] }

-- The version of Kubernetes cannot be read: the start panics.
start_panics : (main unreachable default_flags 0).0 ≡ crashed
unfolding main connect register is_out_of_service_taint_supported new_out_of_service_taint_validator
start_panics = refl

main-crashed_iff_example : ((main unreachable default_flags 0).0 ≡ crashed) ↔ (
    ((p : Option String) × ((connect unreachable default_flags 0).0 ≡ goes_on p))
    × ((validator_of unreachable default_flags 0).1 ≢ none))
main-crashed_iff_example = main-crashed_iff unreachable default_flags 0

abbrev modern_program : Program
modern_program = record {
  options = manager_options modern default_flags (some "Modern");
  settings = record {
    agent_exists = validate_agent_existence (new_agent_validator modern.os);
    is_out_of_service_taint_supported = true;
  };
  executer = new_executer;
}

modern_started : (main modern default_flags 0).0 ≡ goes_on modern_program
unfolding main connect register is_out_of_service_taint_supported new_out_of_service_taint_validator
    set_out_of_service_taint_supported_flag atoi leading_digits
modern_started = refl

keeps_protocols :
    (p : String) (c : TlsConfig) → (modern.new_tls_config p c).next_protos ≡ c.next_protos
keeps_protocols p c = refl

main-offered_example :
    ((apply modern_program.options.metrics_tls_opts plain_tls).next_protos
      ≡ offered false plain_tls)
    × ((apply modern_program.options.webhook_server.tls_opts plain_tls).next_protos
        ≡ offered false plain_tls)
main-offered_example = main-offered modern keeps_protocols default_flags 0 plain_tls modern_started

version_of_modern :
    (modern.new_for_config (connect modern default_flags 0).1).0
    ≡ (some (some modern_version, none), none)
version_of_modern = refl

validate_strategy-main_example :
    (validate_strategy modern_program.settings "OutOfServiceTaint" ≡ none)
    ↔ (("OutOfServiceTaint" ≢ out_of_service_taint_remediation_strategy) ⊎ HasTaint "1" "26")
validate_strategy-main_example =
    validate_strategy-main modern default_flags 0 "1" "26" "+" "OutOfServiceTaint" modern_started
      version_of_modern IsVersion-1_26
