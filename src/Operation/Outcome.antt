-- ===== src/Operation/Outcome.antt =====
-- updateResult: what an answer of Cruise Control does to the status of an operation.
use koperator.Prelude.{
  ℕ, ◌+◌, String, Option, none, some, Bool, true, false, ◌&&◌, ◌||◌, not, List, [], ◌∷◌, ◌++◌, leb,
  length, is_some, if◌then◌else◌,
}
use koperator.Api.Failure.{Error, failure}
use koperator.Api.TaskKind.{
  CruiseControlUserTaskState, completed_with_error, is_completed, is_completed_with_error,
}
use koperator.Api.Operation.{
  Time, CruiseControlTask, CruiseControlOperation, CruiseControlOperationStatus, set_defaults,
  current_task_id, current_task,
}
use koperator.Scale.{Result, format_summary}

abbrev pub default_failed_tasks_history_max_length : ℕ
default_failed_tasks_history_max_length = 50

abbrev pub missing_cc_res_err : String
missing_cc_res_err = "missing Cruise Control user task result"

-- The result that stands in for one that Cruise Control no longer has.
unfoldable pub missing_result : CruiseControlOperation → Result
missing_result o = record {
  task_id = current_task_id o;
  started_at = "";
  response_status_code = 0;
  request_url = "";
  result = none;
  state = completed_with_error;
  err = some missing_cc_res_err;
}

abbrev pub result_or_missing : Option Result → CruiseControlOperation → Result
result_or_missing none o = missing_result o
result_or_missing (some res) o = res

-- FailedTasks[1:] where the history is full, then append
unfoldable pub push_failed_task :
    List CruiseControlTask → CruiseControlTask → List CruiseControlTask
push_failed_task [] task = task ∷ []
push_failed_task (oldest ∷ tasks) task =
    if leb default_failed_tasks_history_max_length (length (oldest ∷ tasks))
    then tasks ++ task ∷ []
    else (oldest ∷ tasks) ++ task ∷ []

-- A finished state sets the finish time, once.
unfoldable pub finish_task :
    Time → CruiseControlUserTaskState → CruiseControlTask → CruiseControlTask
finish_task now state task =
    if (is_completed state || is_completed_with_error state) && not (is_some task.finished)
    then record task { finished = some now }
    else task

-- The failed task that is being executed again.
unfoldable pub is_failed_attempt : Bool → CruiseControlTask → Bool
is_failed_attempt is_after_execution task =
    is_after_execution && is_some task.finished && is_completed_with_error task.state

-- res.Err.Error(), where there is an error
abbrev error_message_of : Option String → String → String
error_message_of none old = old
error_message_of (some text) old = text

-- The start time is parsed only where it is not yet known; `none` is the error of time.Parse.
unfoldable pub start_time : (String → Option Time) → Result → CruiseControlTask → Option Time
start_time parse res task = elim task.started [ none ↦ parse res.started_at | some t ↦ some t ]

-- the assignments under `if isAfterExecution`, at a known start time
unfoldable pub record_execution : Result → Time → CruiseControlTask → CruiseControlTask
record_execution res t task = record task {
  started = some t;
  id = res.task_id;
  summary = format_summary res.result;
  error_message = error_message_of res.err task.error_message;
  http_request = res.request_url;
  http_response_code = some res.response_status_code;
}

-- The status once the failed attempt, if it is one, has gone into the history.
unfoldable pub archive_failed_task :
    Bool
    → CruiseControlTask
    → CruiseControlOperationStatus
    → CruiseControlTask × CruiseControlOperationStatus
unfolding push_failed_task is_failed_attempt
archive_failed_task is_after_execution task s =
    if is_failed_attempt is_after_execution task
    then (
      set_defaults task,
      record s {
        failed_tasks = push_failed_task s.failed_tasks task;
        retry_count = s.retry_count + 1;
      },
    )
    else (task, s)

abbrev pub parse_error : Error
parse_error = failure "could not parse user task start time from Cruise Control API"

-- The task and the error with which the assignments end.
unfoldable pub complete_task :
    (String → Option Time) → Bool → Result → CruiseControlTask → CruiseControlTask × Option Error
unfolding record_execution start_time
complete_task parse false res task = (record task { state = res.state }, none)
complete_task parse true res task = elim (start_time parse res task) [
  | none ↦ (task, some parse_error)
  | some t ↦ (record (record_execution res t task) { state = res.state }, none)
]

module _ (parse : String → Option Time) (now : Time) (is_after_execution : Bool) where
  unfoldable pub update_task :
      Result
      → CruiseControlTask
      → CruiseControlOperationStatus
      → CruiseControlOperationStatus × Option Error
  unfolding finish_task archive_failed_task complete_task
  update_task res task s =
      let (task', s') = archive_failed_task is_after_execution (finish_task now res.state task) s in
      let (task'', e) = complete_task parse is_after_execution res task' in
      (record s' { current_task = some task'' }, e)

  -- `none` is the panic at an operation with no current task. On an error the operation stays as
  -- far as it was changed.
  unfoldable pub update_current_task :
      Option Result
      → CruiseControlOperation
      → Option CruiseControlTask
      → Option (CruiseControlOperation × Option Error)
  unfolding update_task missing_result
  update_current_task res o none = none
  update_current_task res o (some task) =
      let (s, e) =
        update_task (result_or_missing res o) task
          (record o.status { error_policy = o.spec.error_policy }) in
      some (record o { status = s }, e)

  unfoldable pub update_result :
      Option Result → CruiseControlOperation → Option (CruiseControlOperation × Option Error)
  unfolding update_current_task
  update_result res o = update_current_task res o (current_task o)
