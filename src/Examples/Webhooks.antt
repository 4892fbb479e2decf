-- ===== src/Examples/Webhooks.antt =====
-- The theorems on the webhooks at concrete inputs.
use koperator.Prelude.{
  ◌≢◌, arith, ℕ, ◌<◌, ◌≡◌, ◌≢◌, ◌↔◌, refl, true, false, none, some, List, [], ◌∷◌, String, Bool,
  Option,
}
use koperator.Prelude.Integers.{pos, negsuc}
use koperator.Api.Failure.{ok}
use koperator.Webhook.Cluster.{
  ExternalListener, ListenerSpec, duplicate_external, out_of_range,
  check_internal_and_external_listeners,
}
use koperator.Webhook.Cluster.Tls.{tls_starting_port, check-tls_refused}
use koperator.Webhook.Cluster.Valid.{Valid, check-Valid}
use koperator.Webhook.Topic.{
  KafkaTopic, ClusterMeta, TopicDetail, Env, found, validate, admitted, invalid,
  partitions_decreased,
}
use koperator.Webhook.Topic.Sound.{Sound, validate-Sound, default_partitions-refused}

abbrev listener : ℕ → ExternalListener
listener port = record {
  container_port = port;
  external_starting_port = 19090;
  ingress_controller_target_port = none;
  access_method = "LoadBalancer";
}

abbrev spec : ℕ → List ℕ → ListenerSpec
spec port ids = record {
  internal_ports = 29092 ∷ 29093 ∷ [];
  external_listeners = listener port ∷ [];
  broker_ids = ids;
  ingress_controller = "envoy";
  admin_port = none;
  health_check_port = some 8082;
}

accepted : check_internal_and_external_listeners (spec 9094 (0 ∷ 1 ∷ [])) ≡ []
unfolding check_internal_and_external_listeners
    koperator.Webhook.Cluster.check_unique_listener_container_port
    koperator.Webhook.Cluster.check_internal_ports koperator.Webhook.Cluster.count_port
    koperator.Webhook.Cluster.check_external_ports
    koperator.Webhook.Cluster.check_external_listener_starting_port
    koperator.Webhook.Cluster.check_starting_ports koperator.Webhook.Cluster.out_of_range_ids
    koperator.Webhook.Cluster.get_external_port_for_broker koperator.Webhook.Cluster.colliding_ids
    koperator.Webhook.Cluster.is_envoy
    koperator.Webhook.Cluster.check_target_ports_collision_for_envoy
    koperator.Webhook.Cluster.check_target_ports koperator.Webhook.Cluster.is_load_balancer
accepted = refl

-- the port 29093 is used twice, and broker 60000 has no external port
rejected :
    check_internal_and_external_listeners (spec 29093 (0 ∷ 60000 ∷ []))
    ≡ (duplicate_external 0 ∷ out_of_range 0 (60000 ∷ []) ∷ [])
unfolding check_internal_and_external_listeners
    koperator.Webhook.Cluster.check_unique_listener_container_port
    koperator.Webhook.Cluster.check_internal_ports koperator.Webhook.Cluster.count_port
    koperator.Webhook.Cluster.check_external_ports
    koperator.Webhook.Cluster.check_external_listener_starting_port
    koperator.Webhook.Cluster.check_starting_ports koperator.Webhook.Cluster.out_of_range_ids
    koperator.Webhook.Cluster.get_external_port_for_broker koperator.Webhook.Cluster.colliding_ids
    koperator.Webhook.Cluster.is_envoy
    koperator.Webhook.Cluster.check_target_ports_collision_for_envoy
    koperator.Webhook.Cluster.check_target_ports koperator.Webhook.Cluster.is_load_balancer
rejected = refl

check-Valid_example :
    (check_internal_and_external_listeners (spec 9094 (0 ∷ 1 ∷ [])) ≡ [])
    ↔ Valid (spec 9094 (0 ∷ 1 ∷ []))
check-Valid_example = check-Valid (spec 9094 (0 ∷ 1 ∷ []))

abbrev tls_listener : ExternalListener
tls_listener = record (listener 9094) { external_starting_port = tls_starting_port }

abbrev tls_spec : ListenerSpec
tls_spec = record (spec 9094 (0 ∷ 1 ∷ 2 ∷ [])) { external_listeners = tls_listener ∷ [] }

check-tls_refused_example : check_internal_and_external_listeners tls_spec ≢ []
check-tls_refused_example =
    check-tls_refused tls_spec tls_listener [] [] [] (1 ∷ 2 ∷ []) 0 refl refl refl (omega arith)

abbrev existing : TopicDetail
existing = record { num_partitions = pos 3; replication_factor = pos 2; config_entries = [] }

abbrev served : Env
served = record {
  lookup_kafka_cluster = λ name namespace. found (record { is_deleted = false; is_remote = false });
  list_topics = λ topic. ok [];
  new_kafka_from_cluster = none;
  get_topic = λ topic. ok (some existing);
  get_topic_cr = λ name namespace. none;
  num_brokers = 3;
  same_config = λ a b. true;
}

abbrev cluster : ClusterMeta
cluster = record { is_deleted = false; is_remote = false }

abbrev with_partitions : KafkaTopic
with_partitions = record {
  name = "orders";
  namespace = "kafka";
  annotations = [];
  is_deleted = false;
  is_remote = false;
  topic = "orders";
  partitions = pos 4;
  replication_factor = pos 2;
  config = [];
  cluster_ref = record { name = "main"; namespace = "" };
}

abbrev with_default : KafkaTopic
with_default = record with_partitions { partitions = negsuc 0 }

grown : validate served with_partitions ≡ admitted
unfolding validate koperator.Webhook.Topic.validate_kafka_topic koperator.Webhook.Topic.validate_in
    koperator.Webhook.Topic.check_existing_kafka_topic_crs koperator.Webhook.Topic.check_kafka
    koperator.Webhook.Topic.check_existing koperator.Webhook.Topic.range_errors
    koperator.Webhook.Topic.out_of_range koperator.Webhook.Topic.find_duplicate
    koperator.Webhook.Topic.check_change koperator.Prelude.Integers.less_int
    koperator.Prelude.Integers.equal_int koperator.Prelude.Integers.int16
grown = refl

default : validate served with_default ≡ invalid (partitions_decreased ∷ [])
unfolding validate koperator.Webhook.Topic.validate_kafka_topic koperator.Webhook.Topic.validate_in
    koperator.Webhook.Topic.check_existing_kafka_topic_crs koperator.Webhook.Topic.check_kafka
    koperator.Webhook.Topic.check_existing koperator.Webhook.Topic.range_errors
    koperator.Webhook.Topic.out_of_range koperator.Webhook.Topic.find_duplicate
    koperator.Webhook.Topic.check_change koperator.Prelude.Integers.less_int
    koperator.Prelude.Integers.equal_int koperator.Prelude.Integers.int16
default = refl

validate-Sound_example : Sound served with_partitions cluster [] (some existing)
validate-Sound_example =
    validate-Sound served with_partitions cluster [] (some existing) refl refl refl refl grown

default_partitions-refused_example : validate served with_default ≢ admitted
default_partitions-refused_example =
    default_partitions-refused served with_default cluster [] existing 3 refl refl refl refl refl
      refl
