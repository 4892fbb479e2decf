-- ===== src/Examples/Panic.antt =====
-- The update of a new status operation that is refused, at concrete inputs.
use koperator.Prelude.{◌*◌, ◌≡◌, refl, none, some, true, [], ◌∷◌}
use koperator.Api.Failure.{Answer, ok, err, api, conflict}
use koperator.Api.TaskKind.{status, in_execution}
use koperator.Api.Operation.{second, CruiseControlOperation}
use koperator.Scale.{StatusTaskResult, format_summary}
use koperator.Operation.Outcome.{
  update_result, update_current_task, update_task, finish_task, archive_failed_task,
  is_failed_attempt, complete_task, start_time, record_execution,
}
use koperator.Operation.Status.{ask_status, new_task, assign_task, new_operation}
use koperator.Operation.Panic.{status_operation, ask_status-panics}
use koperator.Operation.World.{Env, Trace, read_clock}
use koperator.Examples.Data.{conflicting_env, listed_world, main_cluster, working}

-- The first write of a status is accepted, and one after a look at the clock is refused.
refuse_after_clock : Trace → CruiseControlOperation → Answer CruiseControlOperation
refuse_after_clock (read_clock ∷ _) o = err (api conflict)
refuse_after_clock _ o = ok o

abbrev busy : StatusTaskResult
busy = record { task_result = some working; status = none }

abbrev busy_env : Env
busy_env = record conflicting_env { status = λ t. ok busy; update_status = refuse_after_clock }

abbrev started : CruiseControlOperation
started = assign_task (new_task status []) (status_operation main_cluster)

abbrev running : CruiseControlOperation
running =
    assign_task
      (record (new_task status []) {
        id = "t3";
        started = some (9 * second);
        http_request = "/add_broker";
        http_response_code = some 200;
        state = in_execution;
      })
      (status_operation main_cluster)

recorded :
    update_result busy_env.parse_rfc1123 (100 * second) true (some working) started
    ≡ some (running, none)
unfolding update_result update_current_task update_task finish_task archive_failed_task
    is_failed_attempt complete_task start_time record_execution format_summary new_operation
    new_task assign_task
recorded = refl

ask_status-panics_example : (ask_status busy_env main_cluster listed_world).0 ≡ none
unfolding refuse_after_clock
ask_status-panics_example =
    ask_status-panics busy_env main_cluster listed_world (status_operation main_cluster)
      (status_operation main_cluster) started running busy (api conflict) refl refl refl refl refl
      recorded refl
