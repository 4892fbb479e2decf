-- ===== src/Operation/Execute.antt =====
-- The last phase of Reconcile: an operation is selected, executed, and its result stored.
use koperator.Prelude.{
  ℕ, zero, suc, Option, none, some, Bool, true, false, ◌&&◌, ◌||◌, not, List, [], ◌∷◌,
  if◌then◌else◌,
}
use koperator.Api.Failure.{
  ok, err, Error, failure, Reconciled, is_conflict, requeue_after, requeue_with_error, reconciled,
}
use koperator.Api.TaskKind.{
  CruiseControlTaskOperation, stop_execution, add_broker, remove_broker, remove_disks, rebalance,
  is_stop_execution,
}
use koperator.Api.Operation.{
  CruiseControlOperation, current_task_operation, current_task_parameters,
}
use koperator.Scale.{Result, CruiseControlStatus, in_execution}
use koperator.Operation.Queues.{Ref, QueueMap}
use koperator.Operation.Select.{select_operation_for_execution}
use koperator.Operation.Sync.{update_pointer}
use koperator.Operation.World.{Env, M, pure, call, update_status, refresh, executed, ◌>>=◌}

abbrev pub default_requeue_interval_in_seconds : ℕ
default_requeue_interval_in_seconds = 10

-- DefaultBackOffForConflict.Steps of pkg/util/util.go
abbrev pub default_back_off_for_conflict_steps : ℕ
default_back_off_for_conflict_steps = 6

-- RetryOnConflict of pkg/util/util.go. wait.ExponentialBackoff calls the function at most `steps`
-- times, and stops at the first call that ends with no error or with one that is no conflict.
unfoldable pub retry_on_conflict : ℕ → M (Option Error) → M (Option Error)
retry_on_conflict zero fn = pure none
retry_on_conflict (suc zero) fn = fn
retry_on_conflict (suc (suc steps)) fn = do
  failed ← fn
  elim failed [
    | none ↦ pure none
    | some e ↦ elim (is_conflict e) [
      | true ↦ retry_on_conflict (suc steps) fn
      | false ↦ pure (some e)
    ]
  ]

abbrev pub is_nil : List Ref → Bool
is_nil [] = true
is_nil (r ∷ rs) = false

unfoldable pub is_empty : QueueMap → Bool
is_empty q =
    is_nil q.for_stop_execution
    && is_nil q.first_execution
    && is_nil q.retry_execution
    && is_nil q.in_progress

-- The kinds of operation that the scaler has a call for.
unfoldable pub is_supported : CruiseControlTaskOperation → Bool
is_supported add_broker = true
is_supported remove_broker = true
is_supported rebalance = true
is_supported remove_disks = true
is_supported stop_execution = true
is_supported _ = false

-- Cruise Control is busy, and the selected operation is not the one that stops it.
unfoldable pub must_wait : CruiseControlStatus → QueueMap → Ref → Bool
must_wait s q r =
    (in_execution s || not (is_nil q.in_progress))
    && not (is_stop_execution (current_task_operation r.operation))

module _ (env : Env) where
  unfoldable pub execute_operation : CruiseControlOperation → M (Option Result × Option Error)
  execute_operation o =
      let kind = current_task_operation o in
      let parameters = current_task_parameters o in
      if is_supported kind
      then call (executed kind parameters) (λ t. env.execute t kind parameters)
      else pure (none, some (failure "Cruise Control operation not supported"))

  -- what follows Status().Update in the function: on a conflict the operation is read again, and the
  -- error of that read takes the place of the conflict
  unfoldable pub after_update : ℕ → Option Error → M (Option Error)
  after_update p none = pure none
  after_update p (some e) = if is_conflict e then refresh env p else pure (some e)

  -- conflictRetryFunction
  unfoldable pub conflict_retry_function : Option Result → ℕ → M (Option Error)
  conflict_retry_function res p = do
    failed ← update_pointer env res true p
    elim failed [
      | some e ↦ pure (some e)
      | none ↦ do unstored ← update_status env p; after_update p unstored
    ]

  unfoldable pub store_result : Option Result → ℕ → M Reconciled
  store_result res p = do
    failed ← retry_on_conflict default_back_off_for_conflict_steps (conflict_retry_function res p)
    elim failed [ some e ↦ pure (requeue_with_error e) | none ↦ pure reconciled ]

  -- An error with no result is returned; one with a result is only logged.
  abbrev pub with_outcome : ℕ → Option Result → Option Error → M Reconciled
  with_outcome p none (some e) = pure (requeue_with_error e)
  with_outcome p res e = store_result res p

  unfoldable pub execute_selected : Ref → M Reconciled
  execute_selected r = do
    outcome ← execute_operation r.operation
    with_outcome r.pointer outcome.0 outcome.1

  unfoldable pub run_selected : CruiseControlStatus → QueueMap → Option Ref → M Reconciled
  run_selected s q none = pure (requeue_after default_requeue_interval_in_seconds)
  run_selected s q (some r) =
      if must_wait s q r
      then pure (requeue_after default_requeue_interval_in_seconds)
      else execute_selected r

  unfoldable pub run_queues : CruiseControlStatus → QueueMap → M Reconciled
  run_queues s q = if is_empty q then pure reconciled else (do
    selection ← select_operation_for_execution env q
    elim selection [
      | err e ↦ pure (requeue_after default_requeue_interval_in_seconds)
      | ok r ↦ run_selected s q r
    ])
