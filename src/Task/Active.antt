-- ===== src/Task/Active.antt =====
-- getActiveTasksFromCluster and updateActiveTasks of controllers/cruisecontroltask_controller.go. A
-- map is ranged over in the order of its Dict, so any order is covered.
use koperator.Prelude.{
  String, Option, none, some, Bool, List, [], ◌∷◌, map, str_eq, if◌then◌else◌, any_of,
}
use koperator.Prelude.Dict.{Dict}
use koperator.Api.TaskKind.{add_broker, remove_broker, remove_disks, rebalance}
use koperator.Api.States.{
  BrokerState, VolumeState, no_broker_state, no_volume_state, is_active_state, is_upscale,
  is_downscale, is_disk_rebalance, is_disk_removal,
}
use koperator.Api.Operation.{CruiseControlOperation}
use koperator.Task.Types.{CruiseControlTask, CruiseControlTasksAndStates, new_tasks_and_states, add}
use koperator.Task.Outcome.{from_result}

-- the two tasks that a broker's state can give
abbrev pub upscale_task : String → BrokerState → CruiseControlTask
upscale_task id b = record {
  broker_id = id;
  broker_state = b.graceful_action_state.cruise_control_state;
  volume = "";
  volume_state = no_volume_state;
  operation = add_broker;
  operation_reference = b.graceful_action_state.cruise_control_operation_reference;
}

abbrev pub downscale_task : String → BrokerState → CruiseControlTask
downscale_task id b = record (upscale_task id b) { operation = remove_broker }

-- the two tasks that a volume's state can give
abbrev pub rebalance_task : String → String → VolumeState → CruiseControlTask
rebalance_task id path v = record {
  broker_id = id;
  broker_state = no_broker_state;
  volume = path;
  volume_state = v.cruise_control_volume_state;
  operation = rebalance;
  operation_reference = v.cruise_control_operation_reference;
}

abbrev pub removal_task : String → String → VolumeState → CruiseControlTask
removal_task id path v = record (rebalance_task id path v) { operation = remove_disks }

unfoldable pub add_broker_task :
    String → BrokerState → CruiseControlTasksAndStates → CruiseControlTasksAndStates
add_broker_task id b s =
    let state = b.graceful_action_state.cruise_control_state in
    if is_active_state state
    then (if is_upscale state
        then add (upscale_task id b) s
        else if is_downscale state
        then add (downscale_task id b) s
        else s)
    else s

unfoldable pub add_volume_task :
    String → String → VolumeState → CruiseControlTasksAndStates → CruiseControlTasksAndStates
add_volume_task id path v s =
    if is_disk_rebalance v.cruise_control_volume_state
    then add (rebalance_task id path v) s
    else if is_disk_removal v.cruise_control_volume_state
    then add (removal_task id path v) s
    else s

unfoldable pub add_volume_tasks :
    String → Dict VolumeState → CruiseControlTasksAndStates → CruiseControlTasksAndStates
add_volume_tasks id [] s = s
add_volume_tasks id ((path, v) ∷ vs) s = add_volume_tasks id vs (add_volume_task id path v s)

unfoldable pub add_tasks :
    Dict BrokerState → CruiseControlTasksAndStates → CruiseControlTasksAndStates
add_tasks [] s = s
add_tasks ((id, b) ∷ bs) s =
    add_tasks bs
      (add_volume_tasks id b.graceful_action_state.volume_states (add_broker_task id b s))

abbrev pub get_active_tasks : Dict BrokerState → CruiseControlTasksAndStates
get_active_tasks bs = add_tasks bs new_tasks_and_states

-- ccOperationMap[name]: of operations with one name the last
unfoldable pub find_operation : String → List CruiseControlOperation → Option CruiseControlOperation
find_operation name [] = none
find_operation name (o ∷ os) =
    let rest = find_operation name os in
    elim rest [ some o' ↦ some o' | none ↦ if str_eq o.name name then some o else none ]

unfoldable pub update_active_task :
    List CruiseControlOperation → CruiseControlTask → CruiseControlTask
unfolding find_operation
update_active_task os t = elim t.operation_reference [
  | none ↦ t
  | some name ↦ from_result (find_operation name os) t
]

unfoldable pub update_active_tasks :
    CruiseControlTasksAndStates → List CruiseControlOperation → CruiseControlTasksAndStates
update_active_tasks s os = record s { tasks = map (update_active_task os) s.tasks }

-- operation.GetOwnerReferences() has one with the name of the cluster
unfoldable pub is_owned_by : String → CruiseControlOperation → Bool
is_owned_by name o = any_of (λ n. str_eq n name) o.owner_references
