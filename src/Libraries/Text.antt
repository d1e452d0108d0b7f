-- ===== src/Libraries/Text.antt =====
-- What the program uses of Go's strings, fmt and sort beyond what can be written on texts directly:
-- letters of all scripts, decimal numbers, quoted texts, and intstr of k8s.io/apimachinery.
use fence_agents_remediation.Prelude.{ℕ, ℤ, String, Bool, ◌≡◌, Option}
use fence_agents_remediation.Errors.{Result, ok}
use fence_agents_remediation.Api.{IntOrString, int}

pub record TextApi : Type 0 where
  pub to_upper : String → String  -- strings.ToUpper
  pub trim_space : String → String  -- strings.TrimSpace
  pub decimal : ℕ → String  -- %d
  pub quote : String → String  -- strconv.Quote
  pub sample_text : Option IntOrString → String  -- %v of a pointer to an IntOrString
  -- intstr.GetScaledValueFromIntOrPercent: a plain number stands for itself.
  pub scaled_value : IntOrString → ℕ → Bool → Result ℤ
  pub scaled_value-int :
      (n : ℤ) (total : ℕ) (round_up : Bool) → scaled_value (int n) total round_up ≡ ok n
