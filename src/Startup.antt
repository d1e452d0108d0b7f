-- ===== src/Startup.antt =====
-- cmd/main.go: how the program starts. Logging and the version that it prints are left out.
pub mod Tls
pub mod Runs
pub mod Support
use fence_agents_remediation.Prelude.{
  String, Bool, true, false, not, ◌||◌, Option, none, some, List, [], ◌∷◌, ◌++◌, is_none,
  if◌then◌else◌,
}
use fence_agents_remediation.Errors.{Error, Result, ok, err, Outcome, returned, panicked}
use fence_agents_remediation.Libraries.Failures.{FailureApi}
use fence_agents_remediation.Libraries.Text.{TextApi}
use fence_agents_remediation.Validation.{
  OsApi, ClientSet, OutOfServiceTaintValidator, new_agent_validator, validate_agent_existence,
  new_out_of_service_taint_validator, is_out_of_service_taint_supported,
}
use fence_agents_remediation.Admission.{Settings}
use fence_agents_remediation.Cli.Routines.{Executer, new_executer}

-- The fields of tls.Config that the program or a TLS profile sets.
pub record TlsConfig : Type 0 where
  pub next_protos : List String
  pub min_version : Option String
  pub cipher_suites : List String

abbrev pub TlsOpts : Type 0
TlsOpts = List (TlsConfig → TlsConfig)

-- The flags of the command line.
pub record Flags : Type 0 where
  pub metrics_addr : String
  pub probe_addr : String
  pub enable_leader_election : Bool
  pub enable_http2 : Bool

-- The fields of webhook.Options that the program sets.
pub record WebhookOptions : Type 0 where
  pub cert_dir : String
  pub cert_name : String
  pub key_name : String
  pub tls_opts : TlsOpts

-- The fields of ctrl.Options that the program sets.
pub record ManagerOptions : Type 0 where
  pub metrics_bind_address : String
  pub secure_serving : Bool
  pub metrics_tls_opts : TlsOpts
  pub webhook_server : WebhookOptions
  pub health_probe_bind_address : String
  pub leader_election : Bool
  pub leader_election_id : String

-- What the program registers with the manager.
pub data Part : Type 0 where
  remediation_controller far_webhook template_webhook template_controller : Part
  tls_profile_watcher healthz_check readyz_check : Part

-- The calls of libraries on which the start depends; `P` is a TLS profile of OpenShift.
pub record Host (W P : Type 0) : Type 0 where
  pub os : OsApi
  pub get_config : W → Option Error × W
  pub new_client : W → Option Error × W
  pub fetch_tls_profile : W → Result P × W
  pub is_no_match : Error → Bool
  pub new_tls_config : P → TlsConfig → TlsConfig
  pub new_manager : ManagerOptions → W → Option Error × W
  pub new_for_config : W → (Option ClientSet × Option Error) × W
  pub set_up : Part → W → Option Error × W
  pub start : W → Option Error × W

-- What has been made when the program runs: the options of the manager, the variables of package
-- v1alpha1, and the executer.
pub record Program : Type 0 where
  pub options : ManagerOptions
  pub settings : Settings
  pub executer : Executer

-- The program goes on, has called os.Exit(1), or has panicked.
pub data Exit (A : Type 0) : Type 0 where
  goes_on : A → Exit A
  exited : Exit A
  crashed : Exit A

abbrev pub Boot : Type 0 → Type 0 → Type 0
Boot W A = W → Exit A × W

abbrev pub continue : {W A B : Type 0} → Exit A × W → (A → Boot W B) → Exit B × W
continue (goes_on a, w) k = k a w
continue (exited, w) k = (exited, w)
continue (crashed, w) k = (crashed, w)

infixl 5 ◌>>=◌ ◌>>◌
abbrev pub ◌>>=◌ : {W A B : Type 0} → Boot W A → (A → Boot W B) → Boot W B
(m >>= k) w = continue (m w) k

abbrev pub ◌>>◌ : {W B : Type 0} → Boot W (Unit {0}) → Boot W B → Boot W B
m >> k = m >>= λ _. k

abbrev pub give : {W A : Type 0} → A → Boot W A
give a w = (goes_on a, w)

-- `if err != nil { os.Exit(1) }`
abbrev pub or_exit : {W : Type 0} → (W → Option Error × W) → Boot W (Unit {0})
or_exit call w = (if is_none (call w).0 then goes_on tt else exited, (call w).1)

abbrev pub webhook_cert_dir : String
webhook_cert_dir = "/apiserver.local.config/certificates"

abbrev pub webhook_cert_name : String
webhook_cert_name = "apiserver.crt"

abbrev pub webhook_key_name : String
webhook_key_name = "apiserver.key"

-- The function that disables HTTP/2.
abbrev pub http1_only : TlsConfig → TlsConfig
http1_only c = record c { next_protos = "http/1.1" ∷ [] }

-- The loop of configureWebhookOpts over the certificates.
unfoldable pub certs_injected : OsApi → List String → Bool
certs_injected os [] = true
certs_injected os (fname ∷ certs) =
    if is_none (os.stat fname) then certs_injected os certs else false

-- configureWebhookOpts
unfoldable pub configure_webhook_opts : OsApi → WebhookOptions → Bool → WebhookOptions
unfolding certs_injected
configure_webhook_opts os webhook_opts enable_http2 =
    let certs =
      os.join webhook_cert_dir webhook_cert_name ∷ os.join webhook_cert_dir webhook_key_name ∷ [] in
    let opts =
      if certs_injected os certs
      then record {
        cert_dir = webhook_cert_dir;
        cert_name = webhook_cert_name;
        key_name = webhook_key_name;
        tls_opts = [];
      }
      else webhook_opts in
    if not enable_http2 then record opts { tls_opts = opts.tls_opts ++ http1_only ∷ [] } else opts

-- The zero value of webhook.Options
abbrev pub no_webhook_options : WebhookOptions
no_webhook_options = record { cert_dir = ""; cert_name = ""; key_name = ""; tls_opts = [] }

-- The TLS options of the metrics server, before those of a profile.
abbrev pub first_tls_opts : Bool → TlsOpts
first_tls_opts enable_http2 = if not enable_http2 then http1_only ∷ [] else []

-- The options that a TLS profile adds; `none` is a cluster that is not OpenShift.
abbrev pub profile_opts : {W P : Type 0} → Host W P → Option P → TlsOpts
profile_opts host none = []
profile_opts host (some profile) = host.new_tls_config profile ∷ []

-- The options that main gives to ctrl.NewManager.
unfoldable pub manager_options : {W P : Type 0} → Host W P → Flags → Option P → ManagerOptions
unfolding configure_webhook_opts
manager_options host flags profile =
    let webhook_opts = configure_webhook_opts host.os no_webhook_options flags.enable_http2 in
    record {
      metrics_bind_address = flags.metrics_addr;
      secure_serving = true;
      metrics_tls_opts = first_tls_opts flags.enable_http2 ++ profile_opts host profile;
      webhook_server = record webhook_opts {
        tls_opts = webhook_opts.tls_opts ++ profile_opts host profile;
      };
      health_probe_bind_address = flags.probe_addr;
      leader_election = flags.enable_leader_election;
      leader_election_id = "cb305759.medik8s.io";
    }

-- A panic ends the program.
abbrev pub unless_panicked : {W A : Type 0} → Outcome A → Boot W A
unless_panicked (returned a) w = (goes_on a, w)
unless_panicked panicked w = (crashed, w)

module _ {W P : Type 0} (host : Host W P) where
  -- The registration of the watcher, on OpenShift only.
  abbrev pub watch_profile : Option P → Boot W (Unit {0})
  watch_profile none = give tt
  watch_profile (some profile) = or_exit (host.set_up tls_profile_watcher)

  -- Main from the point where the flag of the validator has been read.
  unfoldable pub register : ManagerOptions → Option P → Bool → Boot W Program
  register options profile supported = do
    or_exit (host.set_up remediation_controller)
    or_exit (host.set_up far_webhook)
    or_exit (host.set_up template_webhook)
    or_exit (host.set_up template_controller)
    watch_profile profile
    or_exit (host.set_up healthz_check)
    or_exit (host.set_up readyz_check)
    or_exit host.start
    give (record {
      options = options;
      settings = record {
        agent_exists = validate_agent_existence (new_agent_validator host.os);
        is_out_of_service_taint_supported = supported;
      };
      executer = new_executer;
    })

  module _ ⦃f : FailureApi⦄ where
    -- The outcome of FetchAPIServerTLSProfile: a profile, none outside OpenShift, or the end.
    unfoldable pub profile_of : Result P → Exit (Option P)
    profile_of (ok profile) = goes_on (some profile)
    profile_of (err e) = if host.is_no_match e || f.is_not_found e then goes_on none else exited

    abbrev pub fetch_profile : Boot W (Option P)
    fetch_profile w = (profile_of (host.fetch_tls_profile w).0, (host.fetch_tls_profile w).1)

    -- Main up to the manager.
    unfoldable pub connect : Flags → Boot W (Option P)
    unfolding profile_of manager_options
    connect flags = do
      or_exit host.get_config
      or_exit host.new_client
      profile ← fetch_profile
      or_exit (host.new_manager (manager_options host flags profile))
      give profile

    module _ ⦃t : TextApi⦄ where
      -- NewOutOfServiceTaintValidator and IsOutOfServiceTaintSupported: an error is only logged.
      abbrev pub read_support : Boot W Bool
      read_support w =
          unless_panicked
            (is_out_of_service_taint_supported
              (new_out_of_service_taint_validator (host.new_for_config w).0).0)
            (host.new_for_config w).1

      -- main
      unfoldable pub main : Flags → Boot W Program
      main flags = do
        profile ← connect flags
        supported ← read_support
        register (manager_options host flags profile) profile supported
