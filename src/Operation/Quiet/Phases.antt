-- ===== src/Operation/Quiet/Phases.antt =====
-- The selection, getStatus and the writes of the finalizer start no task.
use koperator.Prelude.{ℕ, Option, none, some, Bool, false, List, [], ◌∷◌}
use koperator.Api.Failure.{ok, err, Error}
use koperator.Api.TaskKind.{CruiseControlTaskOperation}
use koperator.Api.Cluster.{ObjectKey, KafkaCluster}
use koperator.Api.Operation.{CruiseControlOperation}
use koperator.Scale.{Result}
use koperator.Operation.Queues.{Ref, QueueMap, get_first_operation}
use koperator.Operation.Select.{
  first_rebalance, retry_or_first, pause_and_select, select_retry, select_first, select_stop,
  select_stopped, select_operation_for_execution, stop_task,
}
use koperator.Operation.Status.{
  find_status_operation, read_status_operation, create_cc_operation, record_new_status,
  start_status_operation, ask_status, get_status, or_panic,
}
use koperator.Operation.Reconcile.{
  dereference, remove_finalizer, add_finalizer, requeue_with_failure,
}
use koperator.Operation.World.{Env, pure}
use koperator.Operation.Quiet.{
  Quiet, Quiet-bind, Quiet-if, Quiet-pure, Quiet-panic, Quiet-load, quiet_rules,
}
use koperator.Operation.Quiet.Sync.{update-Quiet, update_status-Quiet, update_pointer-Quiet}

pub dereference-Quiet : (ps : List ℕ) → Quiet (dereference ps)
unfolding dereference
dereference-Quiet [] = search quiet_rules
dereference-Quiet (p ∷ ps) = Quiet-bind _ _ (Quiet-load p) λ o.
    Quiet-bind _ _ (dereference-Quiet ps)
      λ rs. Quiet-pure (record { pointer = p; operation = o } ∷ rs)

or_panic-Quiet : (o : Option Bool) → Quiet (or_panic o)
or_panic-Quiet none = Quiet-panic
or_panic-Quiet (some b) = Quiet-pure b

module _ (env : Env) (q : QueueMap) where
  retry_or_first-Quiet : (r : Ref) → Quiet (retry_or_first env q r)
  unfolding retry_or_first
  retry_or_first-Quiet r = search quiet_rules

  pause_and_select-Quiet : (r s : Ref) → Quiet (pause_and_select env q r s)
  unfolding pause_and_select
  pause_and_select-Quiet r s = Quiet-bind _ _ (search quiet_rules) λ _.
      Quiet-bind _ _ (update-Quiet env r.pointer)
        (elim [ none ↦ Quiet-pure (ok (some s)) | some e ↦ Quiet-pure (err e) ])

  retry_disks-Quiet :
      (r : Ref) (o : Option Ref)
      → Quiet (elim o [ some s ↦ pause_and_select env q r s | none ↦ retry_or_first env q r ])
  retry_disks-Quiet r none = retry_or_first-Quiet r
  retry_disks-Quiet r (some s) = pause_and_select-Quiet r s

  select_retry-Quiet : (o : Option Ref) → Quiet (select_retry env q o)
  unfolding select_retry
  select_retry-Quiet none = search quiet_rules
  select_retry-Quiet (some r) =
      Quiet-if _ _ _ (retry_disks-Quiet r (first_rebalance q.first_execution))
        (retry_or_first-Quiet r)

  select_first-Quiet : (o : Option Ref) → Quiet (select_first env q o)
  unfolding select_first
  select_first-Quiet none = select_retry-Quiet (get_first_operation q.retry_execution)
  select_first-Quiet (some r) = search (quiet_rules, select_retry-Quiet)

  select_stopped-Quiet :
      (r : Ref) (o : Option CruiseControlOperation) → Quiet (select_stopped env q r o)
  select_stopped-Quiet r none = Quiet-panic
  select_stopped-Quiet r (some o) = search quiet_rules

  select_stop-Quiet : (o : Option Ref) → Quiet (select_stop env q o)
  unfolding select_stop
  select_stop-Quiet none = select_first-Quiet (get_first_operation q.first_execution)
  select_stop-Quiet (some r) = select_stopped-Quiet r (stop_task r.operation)

  pub select_operation_for_execution-Quiet : Quiet (select_operation_for_execution env q)
  unfolding select_operation_for_execution
  select_operation_for_execution-Quiet =
      select_stop-Quiet (get_first_operation q.for_stop_execution)

module _ (env : Env) where
  requeue_with_failure-Quiet : (e : Option Error) → Quiet (requeue_with_failure e)
  requeue_with_failure-Quiet none = Quiet-pure _
  requeue_with_failure-Quiet (some e) = Quiet-pure _

  pub remove_finalizer-Quiet : (p : ℕ) → Quiet (remove_finalizer env p)
  unfolding remove_finalizer
  remove_finalizer-Quiet p = search (quiet_rules, update-Quiet, requeue_with_failure-Quiet)

  pub add_finalizer-Quiet : (p : ℕ) → Quiet (add_finalizer env p)
  unfolding add_finalizer
  add_finalizer-Quiet p = search (quiet_rules, update-Quiet)

  read_status_operation-Quiet : (p : ℕ) → Quiet (read_status_operation env p)
  unfolding read_status_operation
  read_status_operation-Quiet p = Quiet-bind _ _ (Quiet-load p) λ o.
      Quiet-bind _ _ (search quiet_rules) (elim [
        | err e ↦ Quiet-pure (err e)
        | ok res ↦ Quiet-bind _ _ (update_pointer-Quiet env res.task_result false p) (elim [
          | some e ↦ Quiet-pure (err e)
          | none ↦
              Quiet-bind _ _ (update_status-Quiet env p)
                (elim [ some e ↦ Quiet-pure (err e) | none ↦ search (quiet_rules, or_panic-Quiet) ])
        ])
      ])

  create_cc_operation-Quiet :
      (c : KafkaCluster) (ttl : Option ℕ) (kind : CruiseControlTaskOperation)
      → Quiet (create_cc_operation env c ttl kind)
  unfolding create_cc_operation
  create_cc_operation-Quiet c ttl kind = Quiet-bind _ _ (search quiet_rules) (elim [
    | err e ↦ Quiet-pure (err e)
    | ok o ↦
        Quiet-bind _ _ (search quiet_rules)
          (elim [ err e ↦ Quiet-pure (err e) | ok o ↦ search quiet_rules ])
  ])

  record_new_status-Quiet :
      (r : Option (CruiseControlOperation × Option Error)) → Quiet (record_new_status env r)
  unfolding record_new_status
  record_new_status-Quiet none = Quiet-panic
  record_new_status-Quiet (some (o, some e)) = Quiet-panic
  record_new_status-Quiet (some (o, none)) =
      Quiet-bind _ _ (search quiet_rules) (elim [ err e ↦ Quiet-panic | ok o ↦ Quiet-pure _ ])

  start_status_operation-Quiet :
      (c : KafkaCluster) (res : Option Result) → Quiet (start_status_operation env c res)
  unfolding start_status_operation
  start_status_operation-Quiet c res =
      Quiet-bind _ _ (create_cc_operation-Quiet c _ _)
        (elim [ err e ↦ Quiet-pure (err e) | ok o ↦ search (quiet_rules, record_new_status-Quiet) ])

  ask_status-Quiet : (c : KafkaCluster) → Quiet (ask_status env c)
  unfolding ask_status
  ask_status-Quiet c = Quiet-bind _ _ (search quiet_rules) (elim [
    | err e ↦ Quiet-pure (err e)
    | ok res ↦
        elim res.status
          as (λ s. Quiet (elim s [
            | some s ↦ pure (ok s)
            | none ↦ start_status_operation env c res.task_result
          ])) [ some s ↦ Quiet-pure (ok s) | none ↦ start_status_operation-Quiet c res.task_result ]
  ])

  pub get_status-Quiet : (c : KafkaCluster) (key : ObjectKey) → Quiet (get_status env c key)
  unfolding get_status
  get_status-Quiet c key = Quiet-bind _ _ (search quiet_rules) λ os.
      elim (find_status_operation key 0 os)
        as (λ p.
          Quiet (elim p [ some p ↦ read_status_operation env p | none ↦ ask_status env c ])) [
            | some p ↦ read_status_operation-Quiet p
            | none ↦ ask_status-Quiet c
          ]
