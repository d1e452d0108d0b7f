-- ===== src/Libraries/Meta.antt =====
-- k8s.io/apimachinery/pkg/api/meta: the list of a status's conditions.
use fence_agents_remediation.Prelude.{
  String, ◌≡◌, Bool, true, false, Option, none, some, List, ◌==◌, if◌then◌else◌,
}
use fence_agents_remediation.Objects.{
  Condition, ConditionStatus, status_true, status_false, status_unknown,
}

abbrev pub same_status : ConditionStatus → ConditionStatus → Bool
same_status status_true status_true = true
same_status status_false status_false = true
same_status status_unknown status_unknown = true
same_status _ _ = false

abbrev pub has_status : Option Condition → ConditionStatus → Bool
has_status none s = false
has_status (some c) s = same_status c.status s

pub record MetaApi : Type 0 where
  pub find_status_condition : List Condition → String → Option Condition
  pub set_status_condition : List Condition → Condition → List Condition
  pub remove_status_condition : List Condition → String → List Condition
  pub is_status_condition_true : List Condition → String → Bool
  pub is_status_condition_present_and_equal : List Condition → String → ConditionStatus → Bool
  pub find-set :
      (cs : List Condition) (c : Condition) (k : String)
      → find_status_condition (set_status_condition cs c) k
        ≡ (if c.kind == k then some c else find_status_condition cs k)
  pub find-remove :
      (cs : List Condition) (j k : String)
      → find_status_condition (remove_status_condition cs j) k
        ≡ (if j == k then none else find_status_condition cs k)
  pub is_true_lem :
      (cs : List Condition) (k : String)
      → is_status_condition_true cs k ≡ has_status (find_status_condition cs k) status_true
  pub present_and_equal_lem :
      (cs : List Condition) (k : String) (s : ConditionStatus)
      → is_status_condition_present_and_equal cs k s ≡ has_status (find_status_condition cs k) s
