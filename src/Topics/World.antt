-- ===== src/Topics/World.antt =====
-- The resource of a topic, the calls of its reconciler and who answers them, with
-- checkBrokerConnectionError of controllers/controller_common.go.
use koperator.Prelude.{String, Option, none, some, Bool, true, List}
use koperator.Prelude.Dict.{Dict, lookup}
use koperator.Prelude.Integers.{ℤ}
use koperator.Api.Failure.{Answer, Error, Reconciled, requeue_with_error, reconciled}
use koperator.Webhook.Topic.{KafkaTopic, TopicDetail, equal_folded}

-- The resource with its labels (`none` is a nil map), finalizers and status.
pub record Instance : Type 0 where
  pub topic : KafkaTopic
  pub labels : Option (Dict String)
  pub finalizers : List String
  pub managed_by : String
  pub state : String

-- the calls that change something
pub data Call : Type 0 where
  updated updated_status : Instance → Call
  ensured_partitions : String → ℤ → Call
  ensured_config : String → Dict String → Call
  created : String → ℤ → ℤ → Dict String → Call
  deleted : String → Call

abbrev pub Trace : Type 0
Trace = List Call

-- the errors of a connection that the code tells apart
pub data ConnectionError : Type 0 where
  brokers_unreachable brokers_not_ready resource_not_ready : ConnectionError
  other_error : Error → ConnectionError

-- What the API server and the Kafka client answer; an update answers with what the server keeps.
pub record Env : Type 0 where
  pub get : Trace → Answer Instance
  -- the name and the namespace of the cluster that is found
  pub lookup_kafka_cluster : Trace → String → String → Answer (String × String)
  pub update : Trace → Instance → Answer Instance
  pub update_status : Trace → Instance → Answer Instance
  pub new_kafka_from_cluster : Trace → Option ConnectionError
  pub get_topic : Trace → String → Answer (Option TopicDetail)
  pub ensure_partition_count : Trace → String → ℤ → Option Error
  pub ensure_topic_config : Trace → String → Dict String → Option Error
  pub create_topic : Trace → String → ℤ → ℤ → Dict String → Option Error
  pub delete_topic : Trace → String → Option Error

-- a panic is `none`
abbrev pub Run : Type 0
Run = Option Reconciled × Trace

unfoldable pub check_broker_connection_error : ConnectionError → Reconciled
check_broker_connection_error brokers_unreachable =
    (record { requeue = true; requeue_after = 15000000000 }, none)
check_broker_connection_error brokers_not_ready =
    (record { requeue = true; requeue_after = 15000000000 }, none)
check_broker_connection_error resource_not_ready =
    (record { requeue = true; requeue_after = 5000000000 }, none)
check_broker_connection_error (other_error e) = requeue_with_error e

abbrev pub done : Trace → Run
done t = (some reconciled, t)

abbrev pub failed : Error → Trace → Run
failed e t = (some (requeue_with_error e), t)

-- A topic without the annotation is managed.
unfoldable pub is_topic_managed_by_koperator : KafkaTopic → Bool
is_topic_managed_by_koperator topic = elim (lookup "managedBy" topic.annotations) [
  | none ↦ true
  | some manager ↦ equal_folded manager "koperator"
]
