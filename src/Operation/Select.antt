-- ===== src/Operation/Select.antt =====
-- selectOperationForExecution: which operation of the queues is executed next.
use koperator.Prelude.{Option, none, some, List, [], ◌∷◌, if◌then◌else◌}
use koperator.Prelude.Dict.{insert}
use koperator.Api.Failure.{Answer, ok, err}
use koperator.Api.TaskKind.{stop_execution, is_add_broker, is_remove_disks, is_rebalance}
use koperator.Api.Operation.{
  CruiseControlOperation, CruiseControlTask, current_task, current_task_operation, pause_label,
  is_ready_for_retry_execution,
}
use koperator.Operation.Queues.{Ref, QueueMap, get_first_operation}
use koperator.Operation.World.{Env, M, pure, panic, store, update, time_now, ◌>>=◌, ◌>>◌}

abbrev pub with_task : CruiseControlOperation → CruiseControlTask → CruiseControlOperation
with_task o task = record o { status = record o.status { current_task = some task } }

-- op.CurrentTask().Operation = OperationStopExecution; `none` is the panic at a missing task
unfoldable pub stop_of :
    Option CruiseControlTask → CruiseControlOperation → Option CruiseControlOperation
stop_of none o = none
stop_of (some task) o = some (with_task o (record task { operation = stop_execution }))

unfoldable pub stop_task : CruiseControlOperation → Option CruiseControlOperation
stop_task o = stop_of (current_task o) o

-- op.Labels[PauseLabel] = "true"
unfoldable pub pause : CruiseControlOperation → CruiseControlOperation
unfolding insert
pause o = record o { labels = insert pause_label "true" o.labels }

-- the first operation of a queue that is a rebalance
unfoldable pub first_rebalance : List Ref → Option Ref
first_rebalance [] = none
first_rebalance (r ∷ rs) =
    let rest = first_rebalance rs in
    if is_rebalance (current_task_operation r.operation) then some r else rest

abbrev pub Selection : Type 0
Selection = Answer (Option Ref)

module _ (env : Env) (q : QueueMap) where
  -- the third priority at its end, and the fourth
  unfoldable pub retry_or_first : Ref → M Selection
  retry_or_first r = do
    now ← time_now env
    if is_ready_for_retry_execution now r.operation
        then pure (ok (some r))
        else pure (ok (get_first_operation q.first_execution))

  unfoldable pub pause_and_select : Ref → Ref → M Selection
  pause_and_select removal rebalance = do
    store removal.pointer (pause removal.operation)
    failed ← update env removal.pointer
    elim failed [ none ↦ pure (ok (some rebalance)) | some e ↦ pure (err e) ]

  unfoldable pub select_retry : Option Ref → M Selection
  select_retry none = pure (ok (get_first_operation q.first_execution))
  select_retry (some r) =
      if is_remove_disks (current_task_operation r.operation)
      then (elim (first_rebalance q.first_execution) [
        | some rebalance ↦ pause_and_select r rebalance
        | none ↦ retry_or_first r
      ])
      else retry_or_first r

  unfoldable pub select_first : Option Ref → M Selection
  select_first none = select_retry (get_first_operation q.retry_execution)
  select_first (some r) =
      if is_add_broker (current_task_operation r.operation)
      then pure (ok (some r))
      else select_retry (get_first_operation q.retry_execution)

  abbrev pub select_stopped : Ref → Option CruiseControlOperation → M Selection
  select_stopped r none = panic
  select_stopped r (some o) = do store r.pointer o; pure (ok (some (record r { operation = o })))

  unfoldable pub select_stop : Option Ref → M Selection
  select_stop (some r) = select_stopped r (stop_task r.operation)
  select_stop none = select_first (get_first_operation q.first_execution)

  unfoldable pub select_operation_for_execution : M Selection
  select_operation_for_execution = select_stop (get_first_operation q.for_stop_execution)
