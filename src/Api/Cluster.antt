-- ===== src/Api/Cluster.antt =====
-- The KafkaCluster resource of api/v1beta1/kafkacluster_types.go, with the fields that the
-- controllers modelled here read, and the names that refer to it.
use koperator.Prelude.{ℕ, String, Option, Bool, List}
use koperator.Prelude.Dict.{Dict}
use koperator.Api.States.{BrokerState}

-- client.ObjectKey, types.NamespacedName
pub record ObjectKey : Type 0 where
  pub name : String
  pub namespace : String

pub record BrokerConfig : Type 0 where
  pub roles : List String

pub record Broker : Type 0 where
  pub id : ℕ
  pub read_only_config : String
  pub broker_config_group : String
  pub broker_config : Option BrokerConfig

pub record KafkaClusterSpec : Type 0 where
  pub brokers : List Broker
  pub broker_config_groups : Dict BrokerConfig
  pub kraft_mode : Bool
  pub capacity_config : String
  pub operation_ttl_seconds_after_finished : Option ℕ  -- GetTTLSecondsAfterFinished()

pub record KafkaCluster : Type 0 where
  pub name : String
  pub namespace : String
  pub spec : KafkaClusterSpec
  pub brokers_state : Dict BrokerState  -- Status.BrokersState
