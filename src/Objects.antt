-- ===== src/Objects.antt =====
-- The Kubernetes objects that the program reads and writes, with the fields that it uses
-- (k8s.io/api/core/v1, k8s.io/apimachinery/pkg/apis/meta/v1). A time is a number.
use fence_agents_remediation.Prelude.{ℕ, String, Option, List}
use fence_agents_remediation.Prelude.Dict.{Dict}

-- metav1.ObjectMeta. A nil map of annotations is `none`; a nil or zero time is `none`.
pub record ObjectMeta : Type 0 where
  pub name : String
  pub namespace : String
  pub uid : String
  pub generation : ℕ
  pub annotations : Option (Dict String)
  pub finalizers : List String
  pub creation_timestamp : Option ℕ
  pub deletion_timestamp : Option ℕ

-- metav1.ConditionStatus; the empty status, which no stored condition has, is `none` where the
-- program uses it.
pub data ConditionStatus : Type 0 where
  status_true status_false status_unknown : ConditionStatus

-- metav1.Condition, without the transition time, which the program never reads.
pub record Condition : Type 0 where
  pub kind : String
  pub status : ConditionStatus
  pub reason : String
  pub text : String
  pub observed_generation : ℕ

pub data TaintEffect : Type 0 where
  no_schedule prefer_no_schedule no_execute : TaintEffect

-- corev1.Taint
pub record Taint : Type 0 where
  pub key : String
  pub value : String
  pub effect : TaintEffect
  pub time_added : Option ℕ

-- corev1.Node
pub record Node : Type 0 where
  pub name : String
  pub taints : List Taint

-- corev1.Secret; the bytes of a value are read as a text.
pub record Secret : Type 0 where
  pub name : String
  pub contents : Dict String

pub data PodPhase : Type 0 where
  pending running succeeded failed phase_unknown : PodPhase

-- corev1.Pod
pub record Pod : Type 0 where
  pub name : String
  pub phase : PodPhase
