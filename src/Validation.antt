-- ===== src/Validation.antt =====
-- pkg/validation/validation.go: whether an agent is there, and whether the cluster's version of
-- Kubernetes supports the out-of-service taint.
pub mod Numbers
pub mod Version
use fence_agents_remediation.Prelude.{
  ℕ, ℤ, pos, String, Bool, true, false, ◌&&◌, ◌||◌, Option, none, some, ltb, leb, eqb,
  if◌then◌else◌,
}
use fence_agents_remediation.Errors.{
  Error, message, wrapped, Result, ok, err, Outcome, returned, panicked,
}
use fence_agents_remediation.Libraries.Text.{TextApi}
use fence_agents_remediation.Validation.Numbers.{atoi, leading_digits}

-- What the program uses of Go's os and path/filepath.
pub record OsApi : Type 0 where
  pub join : String → String → String  -- filepath.Join
  pub stat : String → Option Error  -- the error of os.Stat
  pub is_not_exist : Error → Bool  -- os.IsNotExist

-- isAgentFileExists
unfoldable pub is_agent_file_exists : OsApi → String → Result Bool
is_agent_file_exists os agent = elim (os.stat (os.join "/usr/sbin/" agent)) [
  | none ↦ ok true
  | some e ↦ if os.is_not_exist e then ok false else err (wrapped "error checking file: " e)
]

-- validateAgentExistence
pub record AgentValidator : Type 0 where
  pub agent_exists : String → Result Bool

-- NewAgentValidator
unfoldable pub new_agent_validator : OsApi → AgentValidator
unfolding is_agent_file_exists
new_agent_validator os = record { agent_exists = is_agent_file_exists os }

-- NewCustomAgentValidator
unfoldable pub new_custom_agent_validator : (String → Result Bool) → AgentValidator
new_custom_agent_validator agent_exists = record { agent_exists = agent_exists }

-- ValidateAgentName
unfoldable pub validate_agent_existence : AgentValidator → String → Result Bool
validate_agent_existence vfe agent = vfe.agent_exists agent

-- OutOfServiceTaintValidator
pub record OutOfServiceTaintValidator : Type 0 where
  pub is_out_of_service_taint_supported : Bool

-- The fields of version.Info that the program reads.
pub record VersionInfo : Type 0 where
  pub major : String
  pub minor : String

-- A client set, by what its Discovery().ServerVersion() returns.
abbrev pub ClientSet : Type 0
ClientSet = Option VersionInfo × Option Error

abbrev pub min_k8s_major_version_out_of_service_taint : ℕ
min_k8s_major_version_out_of_service_taint = 1

abbrev pub min_k8s_minor_version_out_of_service_taint : ℕ
min_k8s_minor_version_out_of_service_taint = 26

-- `>`, `==` and `>=` on an int and a constant.
abbrev pub exceeds : ℤ → ℕ → Bool
exceeds (pos n) k = ltb k n
exceeds _ k = false

abbrev pub equals : ℤ → ℕ → Bool
equals (pos n) k = eqb n k
equals _ k = false

abbrev pub reaches : ℤ → ℕ → Bool
reaches (pos n) k = leb k n
reaches _ k = false

-- The test of setOutOfServiceTaintSupportedFlag.
unfoldable pub supports : ℤ → ℤ → Bool
supports major_ver minor_ver =
    exceeds major_ver min_k8s_major_version_out_of_service_taint
    || (equals major_ver min_k8s_major_version_out_of_service_taint
        && reaches minor_ver min_k8s_minor_version_out_of_service_taint)

-- setOutOfServiceTaintSupportedFlag on the two numbers that it has parsed.
unfoldable pub set_flag :
    Result ℤ → Result ℤ → OutOfServiceTaintValidator → Option Error × OutOfServiceTaintValidator
unfolding supports
set_flag (err e) _ v = (some e, v)
set_flag (ok major_ver) (err e) v = (some e, v)
set_flag (ok major_ver) (ok minor_ver) v =
    (none, record { is_out_of_service_taint_supported = supports major_ver minor_ver })

-- IsOutOfServiceTaintSupported, on a pointer: nil panics.
unfoldable pub is_out_of_service_taint_supported : Option OutOfServiceTaintValidator → Outcome Bool
is_out_of_service_taint_supported none = panicked
is_out_of_service_taint_supported (some v) = returned v.is_out_of_service_taint_supported

-- NewOutOfServiceTaintValidator on what setOutOfServiceTaintSupportedFlag has returned.
abbrev pub checked_validator :
    Option Error × OutOfServiceTaintValidator → Option OutOfServiceTaintValidator × Option Error
checked_validator (some e, v) = (none, some e)
checked_validator (none, v) = (some v, none)

module _ ⦃t : TextApi⦄ where
  -- setOutOfServiceTaintSupportedFlag
  unfoldable pub set_out_of_service_taint_supported_flag :
      VersionInfo → OutOfServiceTaintValidator → Option Error × OutOfServiceTaintValidator
  unfolding set_flag
  set_out_of_service_taint_supported_flag version v =
      set_flag (atoi version.major) (atoi (leading_digits version.minor)) v

  -- NewOutOfServiceTaintValidator on the version of the server.
  unfoldable pub with_version : ClientSet → Option OutOfServiceTaintValidator × Option Error
  unfolding set_out_of_service_taint_supported_flag
  with_version (none, e) = (none, some (message "k8s server version is nil"))
  with_version (some version, some e) = (none, some e)
  with_version (some version, none) = checked_validator (
      set_out_of_service_taint_supported_flag version
        (record { is_out_of_service_taint_supported = false }))

  -- NewOutOfServiceTaintValidator on what kubernetes.NewForConfig has returned.
  unfoldable pub new_out_of_service_taint_validator :
      Option ClientSet × Option Error → Option OutOfServiceTaintValidator × Option Error
  unfolding with_version
  new_out_of_service_taint_validator (none, e) = (none, some (message "k8s client set is nil"))
  new_out_of_service_taint_validator (some cs, some e) = (none, some e)
  new_out_of_service_taint_validator (some cs, none) = with_version cs
