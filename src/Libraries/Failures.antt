-- ===== src/Libraries/Failures.antt =====
-- k8s.io/apimachinery/pkg/api/errors, util/errors and util/wait: how an error is classified, and
-- how several are joined.
use fence_agents_remediation.Prelude.{String, ◌≡◌, ◌↔◌, Bool, true, false, Option, none, List, All}
use fence_agents_remediation.Errors.{Error, canceled, deadline_exceeded, message, wrapped}

pub record FailureApi : Type 0 where
  pub is_not_found : Error → Bool  -- apiErrors.IsNotFound
  pub is_conflict : Error → Bool  -- apiErrors.IsConflict
  pub interrupted : Error → Bool  -- wait.Interrupted
  pub wait_timeout : Error  -- wait.ErrWaitTimeout
  pub new_aggregate : List (Option Error) → Option Error  -- utilErrors.NewAggregate
  pub is_not_found-wrapped : (s : String) (e : Error) → is_not_found (wrapped s e) ≡ is_not_found e
  pub interrupted-canceled : interrupted canceled ≡ true
  pub interrupted-deadline : interrupted deadline_exceeded ≡ true
  pub interrupted-wait_timeout : interrupted wait_timeout ≡ true
  pub interrupted-message : (s : String) → interrupted (message s) ≡ false
  -- nil exactly if every error of the list is nil
  pub new_aggregate-eq-none_iff :
      (es : List (Option Error)) → (new_aggregate es ≡ none) ↔ All (λ e. e ≡ none) es
