-- ===== src/Status/World.antt =====
-- A KafkaCluster as the reconcilers of its resources hold it, the calls that they make to the API
-- server, and who answers. The cluster in memory is changed in place, also by calls that fail.
use koperator.Prelude.{ℕ, String, Option, none, some, Bool, List, ◌∷◌}
use koperator.Prelude.Dict.{Dict}
use koperator.Api.Failure.{Answer, ok, err, Error}
use koperator.Api.Cluster.{Broker, BrokerConfig}
use koperator.Api.States.{BrokerState}

pub record InternalListener : Type 0 where
  pub name : String
  pub container_port : ℕ
  pub used_for_inner_broker_communication : Bool
  pub used_for_controller_communication : Bool
  pub internal_starting_port : ℕ
  pub external_listener_for_hostname : String

pub record RollingUpgradeConfig : Type 0 where
  pub failure_threshold : ℕ
  pub concurrent_broker_restart_count_per_rack : ℕ

pub record Spec : Type 0 where
  pub brokers : List Broker
  pub broker_config_groups : Dict BrokerConfig
  pub kraft_mode : Bool
  pub headless_service_enabled : Bool
  pub kubernetes_cluster_domain : String  -- GetKubernetesClusterDomain()
  pub internal_listeners : List InternalListener
  pub rolling_upgrade_config : RollingUpgradeConfig

pub record ListenerStatus : Type 0 where
  pub name : String
  pub address : String

abbrev pub ListenerStatuses : Type 0
ListenerStatuses = Dict (List ListenerStatus)

pub record Cluster : Type 0 where
  pub name : String
  pub namespace : String
  pub resource_version : ℕ
  pub spec : Spec
  pub brokers_state : Dict BrokerState
  pub state : String
  pub cruise_control_topic_status : String
  pub rolling_upgrade_last_success : String
  pub rolling_upgrade_error_count : ℕ
  pub internal_listener_statuses : ListenerStatuses
  pub external_listener_statuses : ListenerStatuses

-- the kinds of the objects that are deleted
pub data Kind : Type 0 where
  pod config_map service persistent_volume_claim : Kind

pub data Call : Type 0 where
  updated_status updated : Cluster → Call
  read_cluster : Call
  deleted : Kind → String → Call
  created_claim : String → Call
  updated_claim : String → Dict ℕ → Dict String → Call  -- with what it requests, and its labels

abbrev pub Trace : Type 0
Trace = List Call

-- An answer may depend on all calls made so far. An update answers with what the server keeps, which
-- then is the cluster in memory.
pub record Server : Type 0 where
  pub update_status : Trace → Cluster → Answer Cluster
  pub update : Trace → Cluster → Answer Cluster
  pub get : Trace → Answer Cluster
  pub delete : Trace → Kind → String → Option Error

pub record World : Type 0 where
  pub cluster : Cluster
  pub trace : Trace

-- Go's functions that only return an error
abbrev pub Action : Type 0
Action = World → Option Error × World

abbrev pub answered : Cluster → Call → Trace → Answer Cluster → Option Error × World
answered c k t (ok fresh) = (none, record { cluster = fresh; trace = k ∷ t })
answered c k t (err e) = (some e, record { cluster = c; trace = k ∷ t })

module _ (server : Server) where
  -- c.Status().Update
  unfoldable pub update_status : Action
  update_status w =
      answered w.cluster (updated_status w.cluster) w.trace (server.update_status w.trace w.cluster)

  -- c.Update
  unfoldable pub update : Action
  update w = answered w.cluster (updated w.cluster) w.trace (server.update w.trace w.cluster)

  -- c.Get into the cluster
  unfoldable pub get : Action
  get w = answered w.cluster read_cluster w.trace (server.get w.trace)

  -- c.Delete
  unfoldable pub delete : Kind → String → Action
  delete kind name w =
      (server.delete w.trace kind name, record w { trace = deleted kind name ∷ w.trace })
