-- ===== src/Task/Types.antt =====
-- CruiseControlTask and CruiseControlTasksAndStates of controllers/cruisecontroltask_types.go. A task
-- in the container is a pointer: its index in `tasks`. The container never holds a nil task.
use koperator.Prelude.{
  ℕ, String, Option, none, some, Bool, true, false, List, [], ◌∷◌, ◌++◌, length, get_elem?, set,
  if◌then◌else◌,
}
use koperator.Api.TaskKind.{
  CruiseControlTaskOperation, add_broker, remove_broker, remove_disks, rebalance, stop_execution,
  status, unset, other, is_add_broker, is_remove_broker, is_remove_disks, is_rebalance,
  is_stop_execution, is_status, is_unset,
}
use koperator.Prelude.{str_eq}
use koperator.Api.States.{
  CruiseControlState, CruiseControlVolumeState, upscale_scheduled, downscale_scheduled,
  rebalance_scheduled, removal_scheduled, is_required_state, is_volume_required_state,
  LocalObjectReference,
}

pub record CruiseControlTask : Type 0 where
  pub broker_id : String
  pub broker_state : CruiseControlState
  pub volume : String
  pub volume_state : CruiseControlVolumeState
  pub operation : CruiseControlTaskOperation
  pub operation_reference : Option LocalObjectReference

unfoldable pub is_required : CruiseControlTask → Bool
is_required t = elim t.operation [
  | add_broker ↦ is_required_state t.broker_state
  | remove_broker ↦ is_required_state t.broker_state
  | rebalance ↦ is_volume_required_state t.volume_state
  | remove_disks ↦ is_volume_required_state t.volume_state
  | _ ↦ false
]

-- SetCruiseControlOperationRef
abbrev pub set_operation_ref : LocalObjectReference → CruiseControlTask → CruiseControlTask
set_operation_ref r t = record t { operation_reference = some r }

unfoldable pub set_state_scheduled : CruiseControlTask → CruiseControlTask
set_state_scheduled t = elim t.operation [
  | add_broker ↦ record t { broker_state = upscale_scheduled }
  | remove_broker ↦ record t { broker_state = downscale_scheduled }
  | rebalance ↦ record t { volume_state = rebalance_scheduled }
  | remove_disks ↦ record t { volume_state = removal_scheduled }
  | _ ↦ t
]

-- Equality of the text of two operations, as a key of the map.
unfoldable pub same_operation : CruiseControlTaskOperation → CruiseControlTaskOperation → Bool
same_operation add_broker o = is_add_broker o
same_operation remove_broker o = is_remove_broker o
same_operation remove_disks o = is_remove_disks o
same_operation rebalance o = is_rebalance o
same_operation stop_execution o = is_stop_execution o
same_operation status o = is_status o
same_operation unset o = is_unset o
same_operation (other s) (other s') = str_eq s s'
same_operation (other s) _ = false

pub record CruiseControlTasksAndStates : Type 0 where
  pub tasks : List CruiseControlTask
  pub tasks_by_op : CruiseControlTaskOperation → List ℕ

abbrev pub new_tasks_and_states : CruiseControlTasksAndStates
new_tasks_and_states = record { tasks = []; tasks_by_op = λ o. [] }

unfoldable pub add : CruiseControlTask → CruiseControlTasksAndStates → CruiseControlTasksAndStates
add t s = record {
  tasks = s.tasks ++ t ∷ [];
  tasks_by_op = λ o.
      if same_operation t.operation o
      then s.tasks_by_op o ++ length s.tasks ∷ []
      else s.tasks_by_op o;
}

unfoldable pub is_empty : CruiseControlTasksAndStates → Bool
is_empty s = elim s.tasks [ [] ↦ true | _ ∷ _ ↦ false ]

abbrev pub is_required_at : Option CruiseControlTask → Bool
is_required_at none = false
is_required_at (some t) = is_required t

-- the pointers of a list whose task is required
unfoldable pub required_of : List CruiseControlTask → List ℕ → List ℕ
required_of tasks [] = []
required_of tasks (p ∷ ps) =
    let rest = required_of tasks ps in if is_required_at (get_elem? tasks p) then p ∷ rest else rest

unfoldable pub get_active_tasks_by_op :
    CruiseControlTaskOperation → CruiseControlTasksAndStates → List ℕ
get_active_tasks_by_op o s = required_of s.tasks (s.tasks_by_op o)

unfoldable pub num_active_tasks_by_op : CruiseControlTaskOperation → CruiseControlTasksAndStates → ℕ
unfolding get_active_tasks_by_op
num_active_tasks_by_op o s = length (get_active_tasks_by_op o s)

-- A change of the task behind a pointer.
unfoldable pub update_at :
    (CruiseControlTask → CruiseControlTask) → ℕ → List CruiseControlTask → List CruiseControlTask
update_at f p tasks = elim (get_elem? tasks p) [ none ↦ tasks | some t ↦ set tasks p (f t) ]

unfoldable pub update_all_at :
    (CruiseControlTask → CruiseControlTask)
    → List ℕ
    → List CruiseControlTask
    → List CruiseControlTask
unfolding update_at
update_all_at f [] tasks = tasks
update_all_at f (p ∷ ps) tasks = update_all_at f ps (update_at f p tasks)
