-- ===== src/Api/TaskKind.antt =====
-- The string types of a Cruise Control task: CruiseControlTaskOperation of
-- api/v1alpha1/common_types.go and CruiseControlUserTaskState of api/v1beta1/common_types.go.
-- Each constant is a constructor, `unset` is the empty string, `other` any other text.
use koperator.Prelude.{ℕ, String, Bool, true, false}

pub data CruiseControlTaskOperation : Type 0 where
  stop_execution add_broker remove_broker remove_disks rebalance status unset :
      CruiseControlTaskOperation
  other : String → CruiseControlTaskOperation

pub data CruiseControlUserTaskState : Type 0 where
  active in_execution completed completed_with_error no_state : CruiseControlUserTaskState
  other_state : String → CruiseControlUserTaskState

-- The comparisons with a constant, one for each that the code makes.
abbrev pub is_stop_execution : CruiseControlTaskOperation → Bool
is_stop_execution stop_execution = true
is_stop_execution _ = false

abbrev pub is_add_broker : CruiseControlTaskOperation → Bool
is_add_broker add_broker = true
is_add_broker _ = false

abbrev pub is_remove_broker : CruiseControlTaskOperation → Bool
is_remove_broker remove_broker = true
is_remove_broker _ = false

abbrev pub is_remove_disks : CruiseControlTaskOperation → Bool
is_remove_disks remove_disks = true
is_remove_disks _ = false

abbrev pub is_rebalance : CruiseControlTaskOperation → Bool
is_rebalance rebalance = true
is_rebalance _ = false

abbrev pub is_status : CruiseControlTaskOperation → Bool
is_status status = true
is_status _ = false

abbrev pub is_unset : CruiseControlTaskOperation → Bool
is_unset unset = true
is_unset _ = false

abbrev pub is_active : CruiseControlUserTaskState → Bool
is_active active = true
is_active _ = false

abbrev pub is_in_execution : CruiseControlUserTaskState → Bool
is_in_execution in_execution = true
is_in_execution _ = false

abbrev pub is_completed : CruiseControlUserTaskState → Bool
is_completed completed = true
is_completed _ = false

abbrev pub is_completed_with_error : CruiseControlUserTaskState → Bool
is_completed_with_error completed_with_error = true
is_completed_with_error _ = false

abbrev pub is_no_state : CruiseControlUserTaskState → Bool
is_no_state no_state = true
is_no_state _ = false

-- executionPriorityMap of controllers/cruisecontroloperation_controller.go; a missing key reads 0.
unfoldable pub execution_priority_map : CruiseControlTaskOperation → ℕ
execution_priority_map add_broker = 3
execution_priority_map remove_broker = 2
execution_priority_map remove_disks = 1
execution_priority_map rebalance = 0
execution_priority_map _ = 0
