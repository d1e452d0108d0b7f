-- ===== src/Cli/Routines.antt =====
-- pkg/cli/cliexecuter.go: the table of running fence agents. A goroutine is an entry of the list of
-- all that were started, the newest first; its number is its place from the end.
pub mod Liveness
use fence_agents_remediation.Prelude.{
  ℕ, ℤ, String, Bool, true, false, Option, none, some, List, [], ◌∷◌, length, if◌then◌else◌, eqb,
}
use fence_agents_remediation.Prelude.Dict.{Dict, get, has, put, remove}

pub record Goroutine : Type 0 where
  pub id : ℕ
  pub uid : String
  pub command : List String
  pub retry_count : ℤ
  pub retry_interval : ℤ
  pub timeout : ℤ
  pub canceled : Bool

-- The fields of Executer that change: `routines`, whose value is the cancel function of a
-- goroutine, here its number; and the goroutines themselves. Each operation holds the lock from its
-- first line to its return, so operations follow one another.
pub record Executer : Type 0 where
  pub routines : Dict ℕ
  pub goroutines : List Goroutine

-- NewExecuter
unfoldable pub new_executer : Executer
new_executer = record { routines = []; goroutines = [] }

-- Exists
unfoldable pub exists : Executer → String → Bool
exists e uid = has e.routines uid

-- AsyncExecute
unfoldable pub async_execute : Executer → String → List String → ℤ → ℤ → ℤ → Executer
async_execute e uid command retry_count retry_interval timeout =
    if has e.routines uid then e else record {
      routines = put e.routines uid (length e.goroutines);
      goroutines =
          record {
            id = length e.goroutines;
            uid = uid;
            command = command;
            retry_count = retry_count;
            retry_interval = retry_interval;
            timeout = timeout;
            canceled = false;
          }
          ∷ e.goroutines;
    }

-- The cancel function of the goroutine with a number.
unfoldable pub cancel : ℕ → List Goroutine → List Goroutine
cancel id [] = []
cancel id (g ∷ gs) = if eqb g.id id then record g { canceled = true } ∷ gs else g ∷ cancel id gs

-- Remove
unfoldable pub remove_routine : Executer → String → Executer
remove_routine e uid = elim (get e.routines uid) [
  | none ↦ e
  | some id ↦ record { routines = remove e.routines uid; goroutines = cancel id e.goroutines }
]
