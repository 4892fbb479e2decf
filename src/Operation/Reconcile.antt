-- ===== src/Operation/Reconcile.antt =====
-- Reconcile of controllers/cruisecontroloperation_controller.go, from the request down to the queues.
use koperator.Prelude.{
  ℕ, suc, Option, none, some, Bool, ◌&&◌, not, List, [], ◌∷◌, str_eq, is_some, if◌then◌else◌,
}
use koperator.Api.Failure.{
  ok, err, api, not_found, Error, Reconciled, requeue_after, requeue_with_error, reconciled,
}
use koperator.Api.TaskKind.{is_status}
use koperator.Api.Cluster.{ObjectKey, KafkaCluster}
use koperator.Api.Operation.{
  CruiseControlOperation, current_task_operation, is_done, is_current_task_running,
  is_current_task_operation_valid,
}
use koperator.Scale.{CruiseControlStatus, is_ready}
use koperator.Operation.Finalizer.{
  has_finalizer, with_finalizer, without_finalizer, is_finalizer_needed,
}
use koperator.Operation.Queues.{Ref, sort_operations}
use koperator.Operation.Sync.{update_current_tasks}
use koperator.Operation.Status.{kafka_cluster_reference, refers_to, get_status}
use koperator.Operation.Execute.{run_queues, default_requeue_interval_in_seconds}
use koperator.Operation.World.{
  Env, M, pure, call, load, store, keep_items, items_of, update, listed, got_cluster, made_scaler,
  ◌>>=◌, ◌>>◌,
}

-- ccOperation.GetName() == request.Name && ccOperation.GetNamespace() == request.Namespace
unfoldable pub is_requested : ObjectKey → CruiseControlOperation → Bool
is_requested request o = str_eq o.name request.name && str_eq o.namespace request.namespace

-- the pointer to the first operation of the list that passes a test
unfoldable pub find_pointer :
    (CruiseControlOperation → Bool) → ℕ → List CruiseControlOperation → Option ℕ
find_pointer test p [] = none
find_pointer test p (o ∷ os) =
    let rest = find_pointer test (suc p) os in if test o then some p else rest

-- the pointers to all that pass a test
unfoldable pub filter_pointers :
    (CruiseControlOperation → Bool) → ℕ → List CruiseControlOperation → List ℕ
filter_pointers test p [] = []
filter_pointers test p (o ∷ os) =
    let rest = filter_pointers test (suc p) os in if test o then p ∷ rest else rest

-- the filter on the operations of one Kafka cluster that still have work to do
unfoldable pub is_pending : ObjectKey → CruiseControlOperation → Bool
is_pending key o = refers_to key o && is_current_task_operation_valid o && not (is_done o)

-- Pointers with the values that they have now.
unfoldable pub dereference : List ℕ → M (List Ref)
dereference [] = pure []
dereference (p ∷ ps) = do
  o ← load p
  rs ← dereference ps
  let r : Ref = record { pointer = p; operation = o }
  pure (r ∷ rs)

abbrev pub requeue_with_failure : Option Error → M Reconciled
requeue_with_failure none = pure reconciled
requeue_with_failure (some e) = pure (requeue_with_error e)

module _ (env : Env) where
  -- RemoveFinalizer, Update, and reconciled unless the update failed
  unfoldable pub remove_finalizer : ℕ → M Reconciled
  remove_finalizer p = do
    o ← load p
    store p (without_finalizer env.finalizers o)
    failed ← update env p
    requeue_with_failure failed

  unfoldable pub add_finalizer : ℕ → M (Option Error)
  add_finalizer p = do
    o ← load p
    if not (is_some o.deletion_timestamp) && not (has_finalizer env.finalizers o)
        then (do store p (with_finalizer env.finalizers o); update env p)
        else pure none

  unfoldable pub with_tasks_updated : ℕ → CruiseControlStatus → List ℕ → M Reconciled
  with_tasks_updated p s ps = do
    o ← load p
    if is_finalizer_needed env.finalizers o && not (is_current_task_running o)
        then remove_finalizer p
        else (do rs ← dereference ps; run_queues env s (sort_operations env.finalizers rs))

  unfoldable pub with_status : ℕ → ObjectKey → CruiseControlStatus → M Reconciled
  with_status p key s =
      if is_ready s
      then (do
        os ← items_of
        let ps = filter_pointers (is_pending key) 0 os
        failed ← update_current_tasks env ps
        elim failed [
          | some e ↦ pure (requeue_after default_requeue_interval_in_seconds)
          | none ↦ with_tasks_updated p s ps
        ])
      else pure (requeue_after default_requeue_interval_in_seconds)

  unfoldable pub with_scaler : ℕ → ObjectKey → KafkaCluster → M Reconciled
  with_scaler p key cluster = do
    s ← get_status env cluster key
    elim s [
      | err e ↦ pure (requeue_after default_requeue_interval_in_seconds)
      | ok s ↦ with_status p key s
    ]

  unfoldable pub with_cluster : ℕ → ObjectKey → KafkaCluster → M Reconciled
  with_cluster p key cluster = do
    failed ← add_finalizer p
    elim failed [
      | some e ↦ pure (requeue_with_error e)
      | none ↦ do
        unmade ← call (made_scaler cluster) (λ t. env.scale_factory t cluster)
        elim unmade [ some e ↦ pure (requeue_with_error e) | none ↦ with_scaler p key cluster ]
    ]

  -- the Kafka cluster could not be read
  unfoldable pub without_cluster : ℕ → Error → M Reconciled
  without_cluster p (api not_found) = do
    o ← load p
    if is_some o.deletion_timestamp then remove_finalizer p else pure reconciled
  without_cluster p e = pure (requeue_with_error e)

  unfoldable pub reconcile_reference : ℕ → ObjectKey × Option Error → M Reconciled
  reconcile_reference p (key, some e) = pure (requeue_with_error e)
  reconcile_reference p (key, none) = do
    answer ← call (got_cluster key) (λ t. env.get_cluster t key)
    elim answer [ err e ↦ without_cluster p e | ok cluster ↦ with_cluster p key cluster ]

  unfoldable pub reconcile_current : ℕ → M Reconciled
  reconcile_current p = do
    o ← load p
    if is_status (current_task_operation o)
        then pure reconciled
        else if is_finalizer_needed env.finalizers o && is_done o
        then remove_finalizer p
        else if is_current_task_operation_valid o
        then reconcile_reference p (kafka_cluster_reference o)
        else pure reconciled

  unfoldable pub reconcile_found : Option ℕ → M Reconciled
  reconcile_found none = pure reconciled
  reconcile_found (some p) = reconcile_current p

  unfoldable pub reconcile : ObjectKey → M Reconciled
  reconcile request = do
    answer ← call (listed request.namespace) (λ t. env.list_operations t request.namespace)
    elim answer [
      | err e ↦ pure (requeue_with_error e)
      | ok os ↦ do keep_items os; reconcile_found (find_pointer (is_requested request) 0 os)
    ]
