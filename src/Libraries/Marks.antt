-- ===== src/Libraries/Marks.antt =====
-- controllerutil's finalizers (sigs.k8s.io/controller-runtime) and `Taint.MatchTaint`
-- (k8s.io/api/core/v1): the marks that the program puts on objects.
use fence_agents_remediation.Prelude.{
  String, ◌≡◌, Bool, true, false, List, ◌&&◌, ◌==◌, if◌then◌else◌,
}
use fence_agents_remediation.Objects.{
  Taint, TaintEffect, no_schedule, prefer_no_schedule, no_execute,
}

abbrev pub same_effect : TaintEffect → TaintEffect → Bool
same_effect no_schedule no_schedule = true
same_effect prefer_no_schedule prefer_no_schedule = true
same_effect no_execute no_execute = true
same_effect _ _ = false

pub record MarkApi : Type 0 where
  pub contains_finalizer : List String → String → Bool
  pub add_finalizer : List String → String → List String
  pub remove_finalizer : List String → String → List String
  pub match_taint : Taint → Taint → Bool
  pub contains-add :
      (fs : List String) (f g : String)
      → contains_finalizer (add_finalizer fs f) g
        ≡ (if f == g then true else contains_finalizer fs g)
  pub contains-remove :
      (fs : List String) (f g : String)
      → contains_finalizer (remove_finalizer fs f) g
        ≡ (if f == g then false else contains_finalizer fs g)
  -- Taints are unique by key and effect.
  pub match_taint_lem :
      (a b : Taint) → match_taint a b ≡ ((a.key == b.key) && same_effect a.effect b.effect)
