-- ===== src/Operation/Choice.antt =====
-- What selectOperationForExecution chooses.
use koperator.Prelude.{ℕ, ◌≡◌, none, some, true, head?}
use koperator.Api.Failure.{ok}
use koperator.Api.TaskKind.{stop_execution, is_remove_disks}
use koperator.Api.Operation.{
  CruiseControlTask, current_task, current_task_operation, is_ready_for_retry_execution,
}
use koperator.Operation.Queues.{Ref, QueueMap}
use koperator.Operation.Select.{first_rebalance, with_task, Selection}
use koperator.Operation.World.{Env, World, M}

-- The reasons for which `r` is selected from the queues `q` at the time `now`.
pub data IsChoice (now : ℕ) (q : QueueMap) (r : Ref) : Type 0 where
  finalizes :
      (s : Ref) (task : CruiseControlTask)
      → head? q.for_stop_execution ≡ some s
      → current_task s.operation ≡ some task
      → r ≡ record s {
        operation = with_task s.operation (record task { operation = stop_execution });
      }
      → IsChoice now q r
  executes_first :
      head? q.for_stop_execution ≡ none → head? q.first_execution ≡ some r → IsChoice now q r
  rebalances :
      head? q.for_stop_execution ≡ none
      → (s : Ref) → head? q.retry_execution ≡ some s
      → is_remove_disks (current_task_operation s.operation) ≡ true
      → first_rebalance q.first_execution ≡ some r
      → IsChoice now q r
  retries :
      head? q.for_stop_execution ≡ none
      → head? q.retry_execution ≡ some r
      → is_ready_for_retry_execution now r.operation ≡ true
      → IsChoice now q r

module _ (env : Env) (q : QueueMap) (r : Ref) where
  abbrev Chosen : M Selection → World → Type 0
  Chosen m w = (m w).0 ≡ some (ok (some r))
