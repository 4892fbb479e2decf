-- ===== src/Operation/Status.antt =====
-- getStatus and createCCOperation: the state of Cruise Control, asked for directly or through an
-- operation of kind `status`.
use Prim.Native.Char.{code}
use Prim.Native.String.{◌++◌ as str_append}
use koperator.Prelude.{
  ℕ, suc, ◌+◌, ◌*◌, ◌==◌, String, Option, none, some, Bool, true, false, ◌&&◌, List, [], ◌∷◌, ltb,
  str_eq, if◌then◌else◌,
}
use koperator.Prelude.Dict.{Dict}
use koperator.Api.Failure.{Answer, ok, err, Error, failure}
use koperator.Api.TaskKind.{
  CruiseControlTaskOperation, stop_execution, add_broker, remove_broker, remove_disks, rebalance,
  status, unset, other, no_state, is_status,
}
use koperator.Api.Cluster.{ObjectKey, KafkaCluster}
use koperator.Api.Operation.{
  second, CruiseControlTask, CruiseControlOperation, ErrorPolicyType, no_policy, get_cluster_ref,
  current_task, current_task_id, is_current_task_running, kafka_cr_label_key,
}
use koperator.Scale.{Result, CruiseControlStatus}
use koperator.Operation.Outcome.{update_result}
use koperator.Operation.Sync.{update_pointer}
use koperator.Operation.World.{
  Env, M, pure, panic, call, load, items_of, update_status, time_now, asked_status,
  asked_status_task, owned, created, updated_status, ◌>>=◌,
}

abbrev pub default_cruise_control_status_operation_max_duration : ℕ
default_cruise_control_status_operation_max_duration = 5 * 60 * second

abbrev empty_key : ObjectKey
empty_key = record { name = ""; namespace = "" }

-- kafkaClusterReference; the key beside the error is the empty one
unfoldable pub kafka_cluster_reference : CruiseControlOperation → ObjectKey × Option Error
kafka_cluster_reference o =
    if str_eq (get_cluster_ref o) ""
    then (
      empty_key,
      some (failure "could not find kafka cluster reference label for CruiseControlOperation"),
    )
    else (record { name = get_cluster_ref o; namespace = o.namespace }, none)

-- ref.Name == kafkaClusterRef.Name && ref.Namespace == kafkaClusterRef.Namespace
unfoldable pub refers_to : ObjectKey → CruiseControlOperation → Bool
refers_to key o =
    let ref = (kafka_cluster_reference o).0 in
    str_eq ref.name key.name && str_eq ref.namespace key.namespace

abbrev has_status_task : Option CruiseControlTask → Bool
has_status_task none = false
has_status_task (some task) = is_status task.operation

-- the index of the first running status operation of the cluster
unfoldable pub find_status_operation : ObjectKey → ℕ → List CruiseControlOperation → Option ℕ
find_status_operation key p [] = none
find_status_operation key p (o ∷ os) =
    let rest = find_status_operation key (suc p) os in
    if refers_to key o && has_status_task (current_task o) && is_current_task_running o
    then some p
    else rest

-- Finished.Sub(Started.Time) > 5 minutes; `none` is the panic at a missing start time
abbrev pub took_too_long : Option CruiseControlTask → Option Bool
took_too_long none = none
took_too_long (some task) = elim task.finished [
  | none ↦ some false
  | some finished ↦ elim task.started [
    | none ↦ none
    | some started ↦
        some (ltb (started + default_cruise_control_status_operation_max_duration) finished)
  ]
]

abbrev pub or_panic : Option Bool → M Bool
or_panic none = panic
or_panic (some a) = pure a

abbrev or_failure : Option CruiseControlStatus → Error → Answer CruiseControlStatus
or_failure none e = err e
or_failure (some a) e = ok a

-- strings.ReplaceAll(s, "_", "")
unfoldable pub without_underscores : String → String
without_underscores String.[] = ""
without_underscores (String.◌∷◌ c s) =
    let rest = without_underscores s in if code c == 95 then rest else String.◌∷◌ c rest

abbrev pub operation_text : CruiseControlTaskOperation → String
operation_text stop_execution = "stop_proposal_execution"
operation_text add_broker = "add_broker"
operation_text remove_broker = "remove_broker"
operation_text remove_disks = "remove_disks"
operation_text rebalance = "rebalance"
operation_text status = "status"
operation_text unset = ""
operation_text (other s) = s

-- apiutil.LabelsForKafka
unfoldable pub labels_for_kafka : String → Dict String
labels_for_kafka name = ("app", "kafka") ∷ (kafka_cr_label_key, name) ∷ []

-- The object that createCCOperation asks the API server to create.
unfoldable pub new_operation :
    KafkaCluster → ErrorPolicyType → Option ℕ → CruiseControlTaskOperation → CruiseControlOperation
new_operation cluster policy ttl kind = record {
  name = "";
  generate_name =
      str_append cluster.name
        (str_append "-" (str_append (without_underscores (operation_text kind)) "-"));
  namespace = cluster.namespace;
  labels = labels_for_kafka cluster.name;
  finalizers = [];
  owner_references = [];
  creation_timestamp = 0;
  deletion_timestamp = none;
  spec = record { error_policy = policy; ttl_seconds_after_finished = ttl };
  status = record {
    current_task = none;
    error_policy = no_policy;
    retry_count = 0;
    failed_tasks = [];
  };
}

-- CruiseControlTask{Operation: kind, Parameters: parameters}
unfoldable pub new_task : CruiseControlTaskOperation → Dict String → CruiseControlTask
new_task kind parameters = record {
  id = "";
  started = none;
  finished = none;
  operation = kind;
  parameters = parameters;
  http_request = "";
  http_response_code = none;
  summary = [];
  state = no_state;
  error_message = "";
}

unfoldable pub assign_task : CruiseControlTask → CruiseControlOperation → CruiseControlOperation
assign_task task o = record o { status = record o.status { current_task = some task } }

module _ (env : Env) where
  unfoldable pub read_status_operation : ℕ → M (Answer CruiseControlStatus)
  read_status_operation p = do
    o ← load p
    let id = current_task_id o
    answer ← call (asked_status_task id) (λ t. env.status_task t id)
    elim answer [
      | err e ↦ pure (err e)
      | ok res ↦ do
        failed ← update_pointer env res.task_result false p
        elim failed [
          | some e ↦ pure (err e)
          | none ↦ do
            unstored ← update_status env p
            elim unstored [
              | some e ↦ pure (err e)
              | none ↦ do
                o' ← load p
                late ← or_panic (took_too_long (current_task o'))
                pure (
                    if late
                    then err (failure "the Cruise Control status operation took too long to finish")
                    else or_failure res.status (failure "could not get Cruise Control status"))
            ]
        ]
    ]

  -- createCCOperation of this controller
  unfoldable pub create_cc_operation :
      KafkaCluster → Option ℕ → CruiseControlTaskOperation → M (Answer CruiseControlOperation)
  create_cc_operation cluster ttl kind = do
    let o = new_operation cluster no_policy ttl kind
    reference ← call (owned o) (λ t. env.set_controller_reference cluster o)
    elim reference [
      | err e ↦ pure (err e)
      | ok o1 ↦ do
        creation ← call (created o1) (λ t. env.create t o1)
        elim creation [
          | err e ↦ pure (err e)
          | ok o2 ↦ do
            let o3 = assign_task (new_task kind []) o2
            call (updated_status o3) (λ t. env.update_status t o3)
        ]
    ]

  -- The new status operation with its result. The two error paths build their message from
  -- `statusOperation`, which is nil here: they panic.
  unfoldable pub record_new_status :
      Option (CruiseControlOperation × Option Error) → M (Answer CruiseControlStatus)
  record_new_status none = panic
  record_new_status (some (o, some e)) = panic
  record_new_status (some (o, none)) = do
    answer ← call (updated_status o) (λ t. env.update_status t o)
    elim answer [
      | err e ↦ panic
      | ok o' ↦
          pure (
            err (failure "could not get Cruise Control status, the operation is still in progress"))
    ]

  unfoldable pub start_status_operation :
      KafkaCluster → Option Result → M (Answer CruiseControlStatus)
  start_status_operation cluster res = do
    creation ← create_cc_operation cluster cluster.spec.operation_ttl_seconds_after_finished status
    elim creation [
      | err e ↦ pure (err e)
      | ok o ↦ do
        now ← time_now env
        record_new_status (update_result env.parse_rfc1123 now true res o)
    ]

  unfoldable pub ask_status : KafkaCluster → M (Answer CruiseControlStatus)
  ask_status cluster = do
    answer ← call asked_status env.status
    elim answer [
      | err e ↦ pure (err e)
      | ok res ↦ elim res.status [
        | some s ↦ pure (ok s)
        | none ↦ start_status_operation cluster res.task_result
      ]
    ]

  -- getStatus
  unfoldable pub get_status : KafkaCluster → ObjectKey → M (Answer CruiseControlStatus)
  get_status cluster key = do
    os ← items_of
    elim (find_status_operation key 0 os) [
      | some p ↦ read_status_operation p
      | none ↦ ask_status cluster
    ]
