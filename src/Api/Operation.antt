-- ===== src/Api/Operation.antt =====
-- api/v1alpha1/cruisecontroloperation_types.go. A time is the number of nanoseconds since the epoch,
-- a pointer is an Option, and a map with string keys is a Dict. Of ObjectMeta the record has what
-- the controllers read. The counters are Go's 64-bit `int`, taken as unbounded here.
use koperator.Prelude.{
  ℕ, ◌+◌, ◌*◌, String, Option, none, some, Bool, true, false, ◌&&◌, ◌||◌, not, List, [], ltb, ◌==◌,
  str_eq, is_some,
}
use koperator.Prelude.Dict.{Dict, lookup}
use koperator.Api.TaskKind.{
  CruiseControlTaskOperation, CruiseControlUserTaskState, unset, no_state, is_add_broker,
  is_rebalance, is_remove_broker, is_stop_execution, is_remove_disks, is_active, is_in_execution,
  is_completed, is_completed_with_error, is_no_state,
}

abbrev pub Time : Type 0
Time = ℕ

abbrev pub second : ℕ
second = 1000000000

abbrev pub default_retry_back_off_duration_sec : ℕ
default_retry_back_off_duration_sec = 30

abbrev pub pause_label : String
pause_label = "pause"

-- banzaiv1beta1.KafkaCRLabelKey
abbrev pub kafka_cr_label_key : String
kafka_cr_label_key = "kafka_cr"

pub data ErrorPolicyType : Type 0 where
  ignore retry no_policy : ErrorPolicyType
  other_policy : String → ErrorPolicyType

abbrev pub is_ignore : ErrorPolicyType → Bool
is_ignore ignore = true
is_ignore _ = false

abbrev pub is_retry : ErrorPolicyType → Bool
is_retry retry = true
is_retry _ = false

pub record CruiseControlTask : Type 0 where
  pub id : String
  pub started : Option Time
  pub finished : Option Time
  pub operation : CruiseControlTaskOperation
  pub parameters : Dict String
  pub http_request : String
  pub http_response_code : Option ℕ
  pub summary : Dict String
  pub state : CruiseControlUserTaskState
  pub error_message : String

pub record CruiseControlOperationSpec : Type 0 where
  pub error_policy : ErrorPolicyType
  pub ttl_seconds_after_finished : Option ℕ

pub record CruiseControlOperationStatus : Type 0 where
  pub current_task : Option CruiseControlTask
  pub error_policy : ErrorPolicyType
  pub retry_count : ℕ
  pub failed_tasks : List CruiseControlTask

pub record CruiseControlOperation : Type 0 where
  pub name : String
  pub generate_name : String
  pub namespace : String
  pub labels : Dict String
  pub finalizers : List String
  pub owner_references : List String
  pub creation_timestamp : Time
  pub deletion_timestamp : Option Time
  pub spec : CruiseControlOperationSpec
  pub status : CruiseControlOperationStatus

-- task.SetDefaults()
unfoldable pub set_defaults : CruiseControlTask → CruiseControlTask
set_defaults task = record task {
  finished = none;
  state = no_state;
  started = none;
  error_message = "";
  http_request = "";
  http_response_code = none;
  id = "";
  summary = [];
}

abbrev pub get_ttl_seconds_after_finished : CruiseControlOperation → Option ℕ
get_ttl_seconds_after_finished o = o.spec.ttl_seconds_after_finished

abbrev pub current_task : CruiseControlOperation → Option CruiseControlTask
current_task o = o.status.current_task

abbrev pub current_task_parameters : CruiseControlOperation → Dict String
current_task_parameters o = elim (current_task o) [ none ↦ [] | some t ↦ t.parameters ]

abbrev or_empty : Option String → String
or_empty none = ""
or_empty (some s) = s

-- o.GetLabels()[key]; a missing label reads as the empty string
unfoldable pub label : CruiseControlOperation → String → String
unfolding lookup
label o key = or_empty (lookup key o.labels)

unfoldable pub get_cluster_ref : CruiseControlOperation → String
unfolding label
get_cluster_ref o = label o kafka_cr_label_key

abbrev pub current_task_state : CruiseControlOperation → CruiseControlUserTaskState
current_task_state o = elim (current_task o) [ none ↦ no_state | some t ↦ t.state ]

abbrev pub current_task_id : CruiseControlOperation → String
current_task_id o = elim (current_task o) [ none ↦ "" | some t ↦ t.id ]

abbrev pub current_task_finished : CruiseControlOperation → Option Time
current_task_finished o = elim (current_task o) [ none ↦ none | some t ↦ t.finished ]

abbrev pub current_task_operation : CruiseControlOperation → CruiseControlTaskOperation
current_task_operation o = elim (current_task o) [ none ↦ unset | some t ↦ t.operation ]

unfoldable pub is_waiting_for_first_execution : CruiseControlOperation → Bool
is_waiting_for_first_execution o =
    is_no_state (current_task_state o)
    && str_eq (current_task_id o) ""
    && (o.status.retry_count == 0)

unfoldable pub is_in_progress : CruiseControlOperation → Bool
is_in_progress o =
    not (str_eq (current_task_id o) "")
    && (is_active (current_task_state o) || is_in_execution (current_task_state o))

unfoldable pub is_paused : CruiseControlOperation → Bool
is_paused o = str_eq (label o pause_label) "true"

abbrev pub is_error_policy_ignore : CruiseControlOperation → Bool
is_error_policy_ignore o = is_ignore o.spec.error_policy

abbrev pub is_error_policy_retry : CruiseControlOperation → Bool
is_error_policy_retry o = is_retry o.spec.error_policy

unfoldable pub is_finished : CruiseControlOperation → Bool
is_finished o =
    is_completed (current_task_state o)
    || (is_ignore o.spec.error_policy && is_completed_with_error (current_task_state o))

unfoldable pub is_done : CruiseControlOperation → Bool
unfolding is_finished
is_done o = (is_paused o && is_completed_with_error (current_task_state o)) || is_finished o

unfoldable pub is_waiting_for_retry_execution : CruiseControlOperation → Bool
is_waiting_for_retry_execution o =
    (not (is_paused o) && is_error_policy_retry o)
    && is_completed_with_error (current_task_state o)
    && not (str_eq (current_task_id o) "")

-- the finish time plus the backoff lies before `now`
abbrev pub back_off_elapsed : Time → Option Time → Bool
back_off_elapsed now none = false
back_off_elapsed now (some finished) =
    ltb (finished + second * default_retry_back_off_duration_sec) now

-- time.Now() is the argument `now`
unfoldable pub is_ready_for_retry_execution : Time → CruiseControlOperation → Bool
unfolding is_waiting_for_retry_execution
is_ready_for_retry_execution now o =
    is_waiting_for_retry_execution o && back_off_elapsed now (current_task_finished o)

unfoldable pub is_current_task_running : CruiseControlOperation → Bool
is_current_task_running o =
    (is_in_execution (current_task_state o) || is_active (current_task_state o))
    && not (is_some (current_task_finished o))

unfoldable pub is_current_task_finished : CruiseControlOperation → Bool
is_current_task_finished o =
    is_completed (current_task_state o) || is_completed_with_error (current_task_state o)

unfoldable pub is_current_task_operation_valid : CruiseControlOperation → Bool
is_current_task_operation_valid o =
    is_add_broker (current_task_operation o)
    || is_rebalance (current_task_operation o)
    || is_remove_broker (current_task_operation o)
    || is_stop_execution (current_task_operation o)
    || is_remove_disks (current_task_operation o)
