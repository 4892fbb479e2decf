-- ===== src/Status/Broker.antt =====
-- UpdateBrokerStatus and generateBrokerState of pkg/k8sutil/status.go.
pub mod Merge
use koperator.Prelude.{ℕ, String, Option, none, some, List, [], ◌∷◌}
use koperator.Prelude.Dict.{Dict, lookup, insert}
use koperator.Api.States.{
  BrokerState, GracefulActionState, VolumeState, empty_broker_state, no_broker_state,
}
use koperator.Status.World.{Cluster, Server, Action}
use koperator.Status.Update.{change_status}

-- the types that the switch on the state tells apart
pub data Part : Type 0 where
  external_listener_config_names : List String → Part
  rack_awareness_state : String → Part
  graceful_action_state : GracefulActionState → Part
  graceful_action_states : Dict GracefulActionState → Part
  configuration_state : String → Part
  per_broker_configuration_state : String → Part
  volume_states : Dict VolumeState → Part
  brokers_volume_states : Dict (Dict VolumeState) → Part
  kafka_version : String → String → Part  -- the image and the version
  other_part : Part

abbrev pub or_empty_state : Option BrokerState → BrokerState
or_empty_state none = empty_broker_state
or_empty_state (some b) = b

abbrev pub or_empty_action : Option GracefulActionState → GracefulActionState
or_empty_action none = empty_broker_state.graceful_action_state
or_empty_action (some a) = a

abbrev pub or_no_volumes : Option (Dict VolumeState) → Dict VolumeState
or_no_volumes none = []
or_no_volumes (some m) = m

-- the loop that stores volume states
unfoldable pub insert_all : Dict VolumeState → Dict VolumeState → Dict VolumeState
insert_all [] m = m
insert_all (entry ∷ rest) m = insert_all rest (insert entry.0 entry.1 m)

abbrev pub set_volumes : Dict VolumeState → BrokerState → BrokerState
set_volumes s b = record b {
  graceful_action_state = record b.graceful_action_state {
    volume_states = insert_all s b.graceful_action_state.volume_states;
  };
}

unfoldable pub set_part : String → Part → BrokerState → BrokerState
set_part id (external_listener_config_names s) b = record b { external_listener_config_names = s }
set_part id (rack_awareness_state s) b = record b { rack_awareness_state = s }
set_part id (graceful_action_state s) b = record b { graceful_action_state = s }
set_part id (graceful_action_states s) b = record b {
  graceful_action_state = or_empty_action (lookup id s);
}
set_part id (configuration_state s) b = record b { configuration_state = s }
set_part id (per_broker_configuration_state s) b = record b { per_broker_configuration_state = s }
set_part id (volume_states s) b = set_volumes s b
set_part id (brokers_volume_states s) b = set_volumes (or_no_volumes (lookup id s)) b
set_part id (kafka_version image version) b = record b { image = image; version = version }
set_part id other_part b = b

-- the loop over the ids
unfoldable pub set_parts : List String → Part → Dict BrokerState → Dict BrokerState
set_parts [] part m = m
set_parts (id ∷ ids) part m =
    set_parts ids part (insert id (set_part id part (or_empty_state (lookup id m))) m)

unfoldable pub generate_broker_state : List String → Part → Cluster → Cluster
generate_broker_state ids part c = record c { brokers_state = set_parts ids part c.brokers_state }

unfoldable pub update_broker_status : Server → List String → Part → Action
update_broker_status server ids part = change_status server (generate_broker_state ids part)
