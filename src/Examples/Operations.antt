-- ===== src/Examples/Operations.antt =====
-- The theorems on the CruiseControlOperation controller at concrete inputs.
use koperator.Prelude.{◌*◌, ◌≡◌, ◌≤◌, refl, inr, Option, none, some, true, [], ◌∷◌, arith, length}
use koperator.Api.Failure.{reconciled, Error}
use koperator.Api.TaskKind.{add_broker, completed_with_error, in_execution}
use koperator.Api.Operation.{
  second, CruiseControlOperation, is_waiting_for_first_execution, is_waiting_for_retry_execution,
  is_in_progress, is_current_task_running, is_paused, label, set_defaults,
}
use koperator.Scale.{format_summary}
use koperator.Operation.Queues.{enqueue, enqueue_all, sort_operations}
use koperator.Prelude.Sort.{slice_stable}
use koperator.Operation.Finalizer.{is_waiting_for_finalization}
use koperator.Operation.Order.{
  IsQueueOf, goes_to_stop, goes_to_first, goes_to_retry, goes_to_in_progress,
  sort_operations-IsQueueOf,
}
use koperator.Operation.Quiet.{Starts}
use koperator.Operation.Execute.{is_supported, run_queues, store_result}
use koperator.Operation.Reconcile.{reconcile}
use koperator.Operation.Safety.{MayStart, reconcile-Starts, run_queues-Starts_stop}
use koperator.Operation.Outcome.{
  update_result, update_current_task, update_task, finish_task, archive_failed_task,
  is_failed_attempt, push_failed_task, complete_task, start_time, record_execution,
}
use koperator.Operation.History.{
  Records, is_retried, finish_time, update_result-history, update_result-bounded,
  update_result-starts, IsStarted,
}
use koperator.Operation.Conflict.{store_result-conflict}
use koperator.Operation.World.{got_operation, updated_status, read_clock}
use koperator.Examples.Data.{
  list_finalizers, task_of, status_of, running_removal, failed_upscale, new_upscale, listed_refs,
  working, busy_status, conflicting_env, listed_world, parse_any,
}

reconcile-Starts_example :
    Starts
      (λ kind. is_supported kind ≡ true)
      (reconcile conflicting_env (record { name = "up"; namespace = "kafka" }))
reconcile-Starts_example =
    reconcile-Starts conflicting_env (record { name = "up"; namespace = "kafka" })

run_queues-Starts_stop_example :
    Starts
      (MayStart busy_status (sort_operations list_finalizers listed_refs))
      (run_queues conflicting_env busy_status (sort_operations list_finalizers listed_refs))
run_queues-Starts_stop_example =
    run_queues-Starts_stop conflicting_env busy_status (sort_operations list_finalizers listed_refs)

sort_operations-IsQueueOf_example :
    IsQueueOf
      (goes_to_stop list_finalizers)
      listed_refs
      (sort_operations list_finalizers listed_refs).for_stop_execution
    × IsQueueOf
        (goes_to_first list_finalizers)
        listed_refs
        (sort_operations list_finalizers listed_refs).first_execution
    × IsQueueOf
        (goes_to_retry list_finalizers)
        listed_refs
        (sort_operations list_finalizers listed_refs).retry_execution
    × IsQueueOf
        (goes_to_in_progress list_finalizers)
        listed_refs
        (sort_operations list_finalizers listed_refs).in_progress
sort_operations-IsQueueOf_example = sort_operations-IsQueueOf list_finalizers listed_refs

nothing_to_stop : (sort_operations list_finalizers listed_refs).for_stop_execution ≡ []
unfolding sort_operations enqueue_all enqueue is_waiting_for_finalization
    is_waiting_for_first_execution is_waiting_for_retry_execution is_in_progress
    is_current_task_running slice_stable is_paused label
nothing_to_stop = refl

upscale_waits :
    goes_to_first list_finalizers (record { pointer = 2; operation = new_upscale }) ≡ true
unfolding is_waiting_for_finalization is_waiting_for_first_execution is_current_task_running
upscale_waits = refl

attempt_failed :
    is_failed_attempt true (task_of add_broker completed_with_error "t1" (some second)) ≡ true
unfolding is_failed_attempt
attempt_failed = refl

update_result-history_example :
    let task = task_of add_broker completed_with_error "t1" (some second) in
    let finished = finish_time (100 * second) working.state task.finished in
    (r : CruiseControlOperation × Option Error) × (update_result parse_any
        (100 * second)
        true
        (some working)
        failed_upscale
      ≡ some r)
    × Records
        (is_retried (100 * second) true working.state task)
        (record task { finished = finished })
        failed_upscale.status
        r.0.status
    × (r.0.status.error_policy ≡ failed_upscale.spec.error_policy)
    × (r.0.spec ≡ failed_upscale.spec)
    × (r.0.labels ≡ failed_upscale.labels)
    × (r.0.finalizers ≡ failed_upscale.finalizers)
    × (r.0.deletion_timestamp ≡ failed_upscale.deletion_timestamp)
update_result-history_example =
    update_result-history parse_any (100 * second) true (some working)
      (task_of add_broker completed_with_error "t1" (some second)) failed_upscale refl

update_result-bounded_example :
    (r : CruiseControlOperation × Option Error) × (update_result parse_any
        (100 * second)
        true
        (some working)
        failed_upscale
      ≡ some r)
    × (length r.0.status.failed_tasks ≤ 50)
update_result-bounded_example =
    update_result-bounded parse_any (100 * second) true (some working)
      (task_of add_broker completed_with_error "t1" (some second)) failed_upscale refl (omega arith)

update_result-starts_example :
    (o' : CruiseControlOperation) × (update_result parse_any
        (100 * second)
        true
        (some working)
        failed_upscale
      ≡ some (o', none))
    × IsStarted o'
update_result-starts_example =
    update_result-starts parse_any (100 * second) working
      (task_of add_broker completed_with_error "t1" (some second)) failed_upscale (9 * second) refl
      (inr refl) refl refl (inr attempt_failed)

-- The operation as the run leaves it in memory, once its task was executed again.
abbrev retried_upscale : CruiseControlOperation
retried_upscale = record failed_upscale {
  status =
      record (status_of (record (task_of add_broker in_execution "t3" none) {
        started = some (9 * second);
        http_request = "/add_broker";
        http_response_code = some 200;
      })) {
        retry_count = 1;
        failed_tasks = task_of add_broker completed_with_error "t1" (some second) ∷ [];
      };
}

retried :
    update_result parse_any (100 * second) true (some working) failed_upscale
    ≡ some (retried_upscale, none)
unfolding update_result update_current_task update_task finish_task archive_failed_task
    is_failed_attempt push_failed_task complete_task start_time record_execution set_defaults
    format_summary
retried = refl

store_result-conflict_example : store_result conflicting_env (some working) 1 listed_world ≡ (
  some reconciled,
  record {
    items = running_removal ∷ new_upscale ∷ new_upscale ∷ [];
    trace =
        got_operation (record { name = "again"; namespace = "kafka" })
        ∷ updated_status retried_upscale
        ∷ read_clock
        ∷ [];
  },
)
store_result-conflict_example =
    store_result-conflict conflicting_env 1 listed_world failed_upscale retried_upscale new_upscale
      (some working) refl retried refl refl
