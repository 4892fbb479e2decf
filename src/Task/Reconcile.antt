-- ===== src/Task/Reconcile.antt =====
-- Reconcile of controllers/cruisecontroltask_controller.go: the phases before and after the switch.
-- When a conflict makes UpdateStatus read the cluster again, the brokers' states are read anew; the
-- rest of the cluster is taken to be unchanged in the run.
use koperator.Prelude.{
  ◌≤◌, ◌≡◌, inl, inr, refl, Option, none, some, Bool, List, [], arith, keep, length, if◌then◌else◌,
  if_both,
}
use koperator.Api.Failure.{
  Answer, ok, err, Error, api, is_not_found, Reconciled, requeue_with_error, reconciled,
}
use koperator.Api.TaskKind.{CruiseControlTaskOperation}
use koperator.Api.Cluster.{KafkaCluster}
use koperator.Api.Operation.{CruiseControlOperation}
use koperator.Task.Types.{CruiseControlTasksAndStates, is_empty}
use koperator.Task.Active.{get_active_tasks, update_active_tasks, is_owned_by}
use koperator.Task.Update.{ClusterServer, Status, update_status}
use koperator.Task.Schedule.{Surroundings, Step, schedule}
use koperator.Task.Priority.{IsTurn, turn, schedule-IsTurn}

-- What the outside answers in one run.
pub record Answers : Type 0 where
  pub cluster : Answer KafkaCluster
  pub operations : Answer (List CruiseControlOperation)
  pub equal : Status → Status → Bool
  pub first_update : ClusterServer
  pub scale_factory : Option Error
  pub around : Surroundings
  pub second_update : ClusterServer

pub record Effect : Type 0 where
  pub requested : List CruiseControlOperation
  pub result : Reconciled

abbrev pub end_with : Reconciled → Effect
end_with r = record { requested = []; result = r }

abbrev pub result_of : Option Error → Reconciled
result_of none = reconciled
result_of (some e) = requeue_with_error e

module _ (a : Answers) where
  abbrev pub after_switch : Status → Step → Option Reconciled → Effect
  after_switch m step (some r) = record { requested = step.requested; result = r }
  after_switch m step none = record {
    requested = step.requested;
    result = result_of (update_status a.second_update step.container a.equal m).error;
  }

  -- `none` is a panic in the switch
  abbrev pub with_step : Status → Option Step → Option Effect
  with_step m none = none
  with_step m (some step) = some (after_switch m step step.returns)

  abbrev pub with_scaler :
      KafkaCluster → CruiseControlTasksAndStates → Status → Option Error → Option Effect
  with_scaler c s m (some e) = some (end_with (requeue_with_error e))
  with_scaler c s m none = with_step m (schedule a.around c s)

  abbrev pub with_update :
      KafkaCluster → CruiseControlTasksAndStates → Status → Option Error → Option Effect
  with_update c s m (some e) = some (end_with (requeue_with_error e))
  with_update c s m none = with_scaler c s m a.scale_factory

  -- from the tasks, updated by the operations of the cluster
  unfoldable pub reconcile_tasks : KafkaCluster → CruiseControlTasksAndStates → Option Effect
  reconcile_tasks c s =
      let u = update_status a.first_update s a.equal c.brokers_state in
      with_update c s u.memory u.error

  abbrev pub with_operations :
      KafkaCluster
      → CruiseControlTasksAndStates
      → Answer (List CruiseControlOperation)
      → Option Effect
  with_operations c s (err e) = some (end_with (requeue_with_error e))
  with_operations c s (ok os) =
      reconcile_tasks c (update_active_tasks s (keep (is_owned_by c.name) os))

  abbrev pub with_cluster : Answer KafkaCluster → Option Effect
  with_cluster (err (api e)) =
      if is_not_found e
      then some (end_with reconciled)
      else some (end_with (requeue_with_error (api e)))
  with_cluster (err e) = some (end_with (requeue_with_error e))
  with_cluster (ok c) =
      if is_empty (get_active_tasks c.brokers_state)
      then some (end_with reconciled)
      else with_operations c (get_active_tasks c.brokers_state) a.operations

  unfoldable pub reconcile : Option Effect
  unfolding reconcile_tasks
  reconcile = with_cluster a.cluster

  abbrev pub AtMostOne : Option Effect → Type 0
  AtMostOne none = Unit
  AtMostOne (some x) = length x.requested ≤ 1

  after_switch-requested :
      (m : Status) (step : Step) (r : Option Reconciled)
      → (after_switch m step r).requested ≡ step.requested
  after_switch-requested m step none = refl
  after_switch-requested m step (some r) = refl

  turn-AtMostOne :
      (c : KafkaCluster) (s : CruiseControlTasksAndStates) (m : Status)
      (kind : Option CruiseControlTaskOperation) (step : Option Step)
      → IsTurn a.around c s kind step
      → AtMostOne (with_step m step)
  turn-AtMostOne c s m kind none h = tt
  turn-AtMostOne c s m none (some step) h =
      rw (after_switch-requested m step step.returns) (rw h (omega arith))
  turn-AtMostOne c s m (some kind) (some step) (inl h) =
      rw (after_switch-requested m step step.returns) (rw h (omega arith))
  turn-AtMostOne c s m (some kind) (some step) (inr (o, h, owned)) =
      rw (after_switch-requested m step step.returns) (rw h (omega arith))

  with_scaler-AtMostOne :
      (c : KafkaCluster) (s : CruiseControlTasksAndStates) (m : Status) (e : Option Error)
      → AtMostOne (with_scaler c s m e)
  with_scaler-AtMostOne c s m (some e) = omega arith
  with_scaler-AtMostOne c s m none =
      turn-AtMostOne c s m (turn s) (schedule a.around c s) (schedule-IsTurn a.around c s)

  with_update-AtMostOne :
      (c : KafkaCluster) (s : CruiseControlTasksAndStates) (m : Status) (e : Option Error)
      → AtMostOne (with_update c s m e)
  with_update-AtMostOne c s m (some e) = omega arith
  with_update-AtMostOne c s m none = with_scaler-AtMostOne c s m a.scale_factory

  with_operations-AtMostOne :
      (c : KafkaCluster) (s : CruiseControlTasksAndStates)
      (os : Answer (List CruiseControlOperation))
      → AtMostOne (with_operations c s os)
  unfolding reconcile_tasks
  with_operations-AtMostOne c s (err e) = omega arith
  with_operations-AtMostOne c s (ok os) = with_update-AtMostOne c _ _ _

  with_cluster-AtMostOne : (c : Answer KafkaCluster) → AtMostOne (with_cluster c)
  with_cluster-AtMostOne (err (api e)) =
      if_both AtMostOne (is_not_found e) _ _ (omega arith) (omega arith)
  with_cluster-AtMostOne (err _) = omega arith
  with_cluster-AtMostOne (ok c) =
      if_both AtMostOne (is_empty (get_active_tasks c.brokers_state)) _ _ (omega arith)
        (with_operations-AtMostOne c _ a.operations)

  -- A run of Reconcile that does not panic asks the API server to create at most one operation,
  -- whatever the API server, Cruise Control and the decoders answer.
  pub reconcile-AtMostOne : AtMostOne reconcile
  unfolding reconcile
  reconcile-AtMostOne = with_cluster-AtMostOne a.cluster
