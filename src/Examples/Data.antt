-- ===== src/Examples/Data.antt =====
-- Test data: operations of one Kafka cluster, and an API server and a Cruise Control that answer.
use koperator.Prelude.{
  ◌*◌, String, Option, none, some, true, false, not, List, [], ◌∷◌, str_eq, any_of, keep,
}
use koperator.Api.Failure.{ok, err, api, conflict, not_found}
use koperator.Api.TaskKind.{
  CruiseControlTaskOperation, CruiseControlUserTaskState, no_state, active, in_execution,
  completed_with_error, add_broker, remove_disks,
}
use koperator.Api.Cluster.{KafkaCluster}
use koperator.Api.Operation.{
  Time, second, retry, CruiseControlTask, CruiseControlOperation, CruiseControlOperationStatus,
  kafka_cr_label_key,
}
use koperator.Scale.{Result, CruiseControlStatus}
use koperator.Operation.Finalizer.{Finalizers}
use koperator.Operation.Queues.{Ref}
use koperator.Operation.World.{Env, World}

-- The three functions on a list without duplicates.
abbrev pub list_finalizers : Finalizers
list_finalizers = record {
  contains_finalizer = λ l s. any_of (λ x. str_eq x s) l;
  add_finalizer = λ l s. s ∷ l;
  remove_finalizer = λ l s. keep (λ x. not (str_eq x s)) l;
}

abbrev pub task_of :
    CruiseControlTaskOperation
    → CruiseControlUserTaskState
    → String
    → Option Time
    → CruiseControlTask
task_of kind state id finished = record {
  id = id;
  started = none;
  finished = finished;
  operation = kind;
  parameters = [];
  http_request = "";
  http_response_code = none;
  summary = [];
  state = state;
  error_message = "";
}

abbrev pub status_of : CruiseControlTask → CruiseControlOperationStatus
status_of task = record {
  current_task = some task;
  error_policy = retry;
  retry_count = 0;
  failed_tasks = [];
}

abbrev pub operation_of : String → Time → CruiseControlTask → CruiseControlOperation
operation_of name created task = record {
  name = name;
  generate_name = "";
  namespace = "kafka";
  labels = (kafka_cr_label_key, "main") ∷ [];
  finalizers = [];
  owner_references = "main" ∷ [];
  creation_timestamp = created * second;
  deletion_timestamp = none;
  spec = record { error_policy = retry; ttl_seconds_after_finished = some 60 };
  status = status_of task;
}

abbrev pub new_upscale : CruiseControlOperation
new_upscale = operation_of "up" 7 (task_of add_broker no_state "" none)

abbrev pub failed_upscale : CruiseControlOperation
failed_upscale = operation_of "again" 3 (task_of add_broker completed_with_error "t1" (some second))

abbrev pub running_removal : CruiseControlOperation
running_removal = operation_of "disks" 5 (task_of remove_disks active "t2" none)

abbrev pub listed_refs : List Ref
listed_refs =
    record { pointer = 0; operation = running_removal }
    ∷ record { pointer = 1; operation = failed_upscale }
    ∷ record { pointer = 2; operation = new_upscale }
    ∷ []

abbrev pub working : Result
working = record {
  task_id = "t3";
  started_at = "Mon, 02 Jan 2006 15:04:05 MST";
  response_status_code = 200;
  request_url = "/add_broker";
  result = none;
  state = in_execution;
  err = none;
}

abbrev pub busy_status : CruiseControlStatus
busy_status = record {
  monitor_ready = true;
  executor_ready = false;
  analyzer_ready = true;
  proposal_ready = true;
  goals_ready = true;
}

abbrev pub idle_status : CruiseControlStatus
idle_status = record busy_status { executor_ready = true }

abbrev pub main_cluster : KafkaCluster
main_cluster = record {
  name = "main";
  namespace = "kafka";
  spec = record {
    brokers = [];
    broker_config_groups = [];
    kraft_mode = false;
    capacity_config = "";
    operation_ttl_seconds_after_finished = none;
  };
  brokers_state = [];
}

abbrev pub parse_any : String → Option Time
parse_any s = some (9 * second)

-- Every write of a status meets a conflict.
abbrev pub conflicting_env : Env
conflicting_env = record {
  finalizers = list_finalizers;
  list_operations = λ t namespace. ok (running_removal ∷ failed_upscale ∷ new_upscale ∷ []);
  get_cluster = λ t key. ok main_cluster;
  get_operation = λ t key. ok new_upscale;
  update = λ t o. ok o;
  update_status = λ t o. err (api conflict);
  create = λ t o. ok o;
  set_controller_reference = λ cluster o. ok o;
  scale_factory = λ t cluster. none;
  status = λ t. ok (record { task_result = none; status = some idle_status });
  status_task = λ t id. err (api not_found);
  user_tasks = λ t ids. ok [];
  execute = λ t kind parameters. (some working, none);
  now = λ t. 100 * second;
  parse_rfc1123 = parse_any;
}

abbrev pub listed_world : World
listed_world = record { items = running_removal ∷ failed_upscale ∷ new_upscale ∷ []; trace = [] }
