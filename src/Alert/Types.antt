-- ===== src/Alert/Types.antt =====
-- What internal/alertmanager/currentalert works on: alerts, as Prometheus sends them and as they are
-- stored, and the fields of the KafkaCluster and of persistent volume claims that its commands use.
use koperator.Prelude.{ℕ, String, Option, none, some, Bool, List}
use koperator.Prelude.Dict.{Dict, lookup}
use koperator.Api.States.{BrokerState}

-- model.LabelSet
abbrev pub LabelSet : Type 0
LabelSet = Dict String

-- m[key], which is "" for a missing key
unfoldable pub value_at : String → LabelSet → String
value_at key m = elim (lookup key m) [ none ↦ "" | some v ↦ v ]

pub record AlertState : Type 0 where
  pub finger_print : ℕ
  pub status : String
  pub labels : LabelSet
  pub annotations : LabelSet

-- currentAlertStruct
pub record CurrentAlert : Type 0 where
  pub status : String
  pub labels : LabelSet
  pub annotations : LabelSet
  pub processed : Bool

pub record DisableScaling : Type 0 where
  pub up : Bool
  pub down : Bool

-- a claim with its storage class and the storage that it requests, in bytes
pub record PvcSpec : Type 0 where
  pub storage_class : Option String
  pub storage : ℕ

pub record StorageConfig : Type 0 where
  pub mount_path : String
  pub pvc_spec : Option PvcSpec

pub record BrokerConfig : Type 0 where
  pub image : String
  pub storage_configs : List StorageConfig
  pub broker_annotations : Dict String

pub record Broker : Type 0 where
  pub id : ℕ
  pub broker_config_group : String
  pub broker_config : Option BrokerConfig

pub record AlertManagerConfig : Type 0 where
  pub down_scale_limit : ℕ
  pub up_scale_limit : ℕ

pub record Cluster : Type 0 where
  pub brokers : List Broker
  pub broker_config_groups : Dict BrokerConfig
  pub alert_manager_config : Option AlertManagerConfig
  pub state : String  -- Status.State
  pub error_count : ℕ  -- Status.RollingUpgrade.ErrorCount
  pub brokers_state : Dict BrokerState

pub record Pvc : Type 0 where
  pub namespace : String
  pub labels : Dict String
  pub annotations : Dict String
  pub phase : String
