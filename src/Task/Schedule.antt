-- ===== src/Task/Schedule.antt =====
-- The `switch` of Reconcile of controllers/cruisecontroltask_controller.go: which operation is created
-- for the tasks that are required, and what becomes of those tasks.
use koperator.Prelude.{
  ℕ, String, Option, none, some, Bool, true, false, List, [], ◌∷◌, ◌++◌, map, get_elem?, ltb,
  if◌then◌else◌,
}
use koperator.Prelude.Dict.{Dict, lookup, insert}
use koperator.Prelude.Decimal.{itoa}
use koperator.Api.Failure.{
  Answer, ok, err, failure, Reconciled, requeue_after, requeue_with_error, reconciled,
}
use koperator.Api.TaskKind.{
  CruiseControlTaskOperation, add_broker, remove_broker, remove_disks, rebalance,
}
use koperator.Api.States.{LocalObjectReference}
use koperator.Api.Cluster.{KafkaCluster}
use koperator.Api.Operation.{CruiseControlOperation}
use koperator.Task.Types.{
  CruiseControlTask, CruiseControlTasksAndStates, set_operation_ref, set_state_scheduled,
  get_active_tasks_by_op, num_active_tasks_by_op, update_all_at,
}
use koperator.Task.Brokers.{
  Merge, LogDirs, BrokerCapacity, filter_controller_only_nodes, unavailable_of, find_dir,
  unavailable_log_dirs, brokers_jbod_selector,
}
use koperator.Task.Request.{
  Server, Creation, add_brokers, remove_broker_with, remove_disks_with, rebalance_disks,
}

-- DefaultRequeueAfterTimeInSec
abbrev pub default_requeue_after_time_in_sec : ℕ
default_requeue_after_time_in_sec = 20

-- What the switch leaves: the objects requested, the tasks, and the result of an early return.
pub record Step : Type 0 where
  pub requested : List CruiseControlOperation
  pub container : CruiseControlTasksAndStates
  pub returns : Option Reconciled

pub record Surroundings : Type 0 where
  pub server : Server
  pub merge : Merge
  pub unmarshal : String → Answer (List BrokerCapacity)
  pub brokers_with_state : Answer (List String)  -- those alive or new
  pub log_dirs_by_broker : Answer LogDirs

-- the tasks behind pointers
unfoldable pub tasks_at : List CruiseControlTask → List ℕ → List CruiseControlTask
tasks_at tasks [] = []
tasks_at tasks (p ∷ ps) =
    let rest = tasks_at tasks ps in elim (get_elem? tasks p) [ none ↦ rest | some t ↦ t ∷ rest ]

abbrev pub broker_ids : List CruiseControlTask → List String
broker_ids ts = map (λ t. t.broker_id) ts

-- the reference and the state of a task whose operation was created
unfoldable pub schedule_task : LocalObjectReference → CruiseControlTask → CruiseControlTask
schedule_task r t = set_state_scheduled (set_operation_ref r t)

abbrev pub or_nothing : Option (List String) → List String
or_nothing none = []
or_nothing (some l) = l

-- brokerLogDirsToRemove, or the error at the first volume that is on no online directory
unfoldable pub log_dirs_to_remove :
    LogDirs → Dict (List String) → List CruiseControlTask → Answer (Dict (List String))
log_dirs_to_remove online found [] = ok found
log_dirs_to_remove online found (t ∷ ts) =
    elim (find_dir t.volume (or_nothing (lookup t.broker_id online))) [
      | none ↦ err (failure "log dir not found")
      | some dir ↦
          log_dirs_to_remove online
            (insert t.broker_id (or_nothing (lookup t.broker_id found) ++ dir ∷ []) found) ts
    ]

module _ (around : Surroundings) (cluster : KafkaCluster) (s : CruiseControlTasksAndStates) where
  abbrev pub stay : Reconciled → Step
  stay r = record { requested = []; container = s; returns = some r }

  abbrev pub wait : Step
  wait = stay (requeue_after default_requeue_after_time_in_sec)

  -- The tasks behind the pointers are scheduled, if the operation was created.
  unfoldable pub finish : List ℕ → Creation → Step
  finish ps c = elim c.reference [
    | err e ↦ record {
      requested = c.requested;
      container = s;
      returns = some (requeue_with_error e);
    }
    | ok r ↦ record {
      requested = c.requested;
      container = record s { tasks = update_all_at (schedule_task r) ps s.tasks };
      returns = none;
    }
  ]

  abbrev pub active : CruiseControlTaskOperation → List ℕ
  active kind = get_active_tasks_by_op kind s

  abbrev pub proceed : Step
  proceed = record { requested = []; container = s; returns = none }

  abbrev pub create_upscale : List String → Step
  create_upscale [] = proceed
  create_upscale (id ∷ ids) =
      finish (active add_broker) (add_brokers around.server cluster (id ∷ ids))

  -- with the ids of the unavailable brokers
  abbrev pub upscale_unless : List String → List String → Step
  upscale_unless (_ ∷ _) ids = wait
  upscale_unless [] ids = create_upscale ids

  abbrev pub upscale_with : Answer (List String) → List String → Step
  upscale_with (err e) ids = wait
  upscale_with (ok available) ids = upscale_unless (unavailable_of available ids) ids

  -- the ids that are left once the nodes are filtered
  unfoldable pub upscale : List String → Step
  upscale ids = upscale_with around.brokers_with_state ids

  -- `none` is a panic
  abbrev pub filtered : (List String → Step) → Option (Answer (List String)) → Option Step
  filtered k none = none
  filtered k (some (err e)) = some (stay (requeue_with_error e))
  filtered k (some (ok ids)) = some (k ids)

  unfoldable pub with_nodes : (List String → Step) → List String → Option Step
  with_nodes k ids =
      if cluster.spec.kraft_mode
      then filtered k (filter_controller_only_nodes around.merge cluster.spec ids)
      else some (k ids)

  unfoldable pub schedule_upscale : Option Step
  schedule_upscale = with_nodes upscale (broker_ids (tasks_at s.tasks (active add_broker)))

  abbrev pub downscale_task_at : ℕ → Option CruiseControlTask → Option Step
  downscale_task_at p none = none
  downscale_task_at p (some t) =
      some (finish (p ∷ []) (remove_broker_with around.server cluster t.broker_id))

  abbrev pub downscale_first : List ℕ → Option Step
  downscale_first [] = none
  downscale_first (p ∷ ps) = downscale_task_at p (get_elem? s.tasks p)

  unfoldable pub schedule_downscale : Option Step
  schedule_downscale = downscale_first (active remove_broker)

  abbrev pub create_removal : Answer (Dict (List String)) → Step
  create_removal (err e) = stay (requeue_with_error e)
  create_removal (ok dirs) =
      finish (active remove_disks) (remove_disks_with around.server cluster dirs)

  abbrev pub removal_with : Answer LogDirs → Step
  removal_with (err e) = stay (requeue_with_error e)
  removal_with (ok online) =
      create_removal (log_dirs_to_remove online [] (tasks_at s.tasks (active remove_disks)))

  unfoldable pub schedule_removal : Option Step
  schedule_removal = some (removal_with around.log_dirs_by_broker)

  abbrev pub create_rebalance : Bool → List String → Step
  create_rebalance is_jbod ids =
      finish (active rebalance) (rebalance_disks around.server cluster ids is_jbod)

  -- in KRaft mode there may be no node left to rebalance
  abbrev pub create_rebalance_of_some : Bool → List String → Step
  create_rebalance_of_some is_jbod [] = stay reconciled
  create_rebalance_of_some is_jbod (id ∷ ids) = create_rebalance is_jbod (id ∷ ids)

  unfoldable pub rebalance_filtered : Bool → List String → Step
  rebalance_filtered is_jbod ids =
      if cluster.spec.kraft_mode
      then create_rebalance_of_some is_jbod ids
      else create_rebalance is_jbod ids

  abbrev pub is_all_jbod : List String → Bool
  is_all_jbod [] = true
  is_all_jbod (_ ∷ _) = false

  -- With a broker that is not JBOD, the disks of a broker are not rebalanced among each other.
  abbrev pub rebalance_selected :
      Answer (List String × List String) → List CruiseControlTask → Option Step
  rebalance_selected (err e) ts = some (stay (requeue_with_error e))
  rebalance_selected (ok (jbod, not_jbod)) ts =
      with_nodes (rebalance_filtered (is_all_jbod not_jbod)) (broker_ids ts)

  -- with the ids of the brokers whose directories are not available
  abbrev pub rebalance_unless : List String → List CruiseControlTask → Option Step
  rebalance_unless (_ ∷ _) ts = some wait
  rebalance_unless [] ts =
      rebalance_selected
        (brokers_jbod_selector around.unmarshal (map (λ b. itoa b.id) cluster.spec.brokers)
          cluster.spec.capacity_config)
        ts

  abbrev pub rebalance_with : Answer LogDirs → List CruiseControlTask → Option Step
  rebalance_with (err e) ts = some wait
  rebalance_with (ok online) ts =
      rebalance_unless (unavailable_log_dirs online (map (λ t. (t.broker_id, t.volume)) ts)) ts

  unfoldable pub schedule_rebalance : Option Step
  schedule_rebalance =
      rebalance_with around.log_dirs_by_broker (tasks_at s.tasks (active rebalance))

  -- the switch
  unfoldable pub schedule : Option Step
  schedule =
      if ltb 0 (num_active_tasks_by_op add_broker s)
      then schedule_upscale
      else if ltb 0 (num_active_tasks_by_op remove_broker s)
      then schedule_downscale
      else if ltb 0 (num_active_tasks_by_op remove_disks s)
      then schedule_removal
      else if ltb 0 (num_active_tasks_by_op rebalance s)
      then schedule_rebalance
      else some proceed
