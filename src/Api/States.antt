-- ===== src/Api/States.antt =====
-- The Cruise Control states in the status of a KafkaCluster: api/v1beta1/common_types.go.
-- `no_broker_state` and `no_volume_state` stand for the empty string, `other_…` for any other text.
use koperator.Prelude.{String, Option, none, Bool, true, false, ◌||◌, List, []}
use koperator.Prelude.Dict.{Dict}

pub data CruiseControlState : Type 0 where
  upscale_required upscale_running upscale_scheduled upscale_succeeded : CruiseControlState
  upscale_completed_with_error upscale_paused : CruiseControlState
  downscale_required downscale_scheduled downscale_running downscale_succeeded : CruiseControlState
  downscale_completed_with_error downscale_paused no_broker_state : CruiseControlState
  other_broker_state : String → CruiseControlState

pub data CruiseControlVolumeState : Type 0 where
  removal_required removal_running removal_succeeded removal_scheduled : CruiseControlVolumeState
  removal_completed_with_error removal_paused : CruiseControlVolumeState
  rebalance_required rebalance_running rebalance_succeeded : CruiseControlVolumeState
  rebalance_scheduled rebalance_completed_with_error rebalance_paused : CruiseControlVolumeState
  no_volume_state : CruiseControlVolumeState
  other_volume_state : String → CruiseControlVolumeState

unfoldable pub is_disk_rebalance_running : CruiseControlVolumeState → Bool
is_disk_rebalance_running rebalance_running = true
is_disk_rebalance_running rebalance_completed_with_error = true
is_disk_rebalance_running rebalance_paused = true
is_disk_rebalance_running rebalance_scheduled = true
is_disk_rebalance_running _ = false

unfoldable pub is_disk_removal_running : CruiseControlVolumeState → Bool
is_disk_removal_running removal_running = true
is_disk_removal_running removal_completed_with_error = true
is_disk_removal_running removal_paused = true
is_disk_removal_running removal_scheduled = true
is_disk_removal_running _ = false

unfoldable pub is_volume_required_state : CruiseControlVolumeState → Bool
is_volume_required_state rebalance_required = true
is_volume_required_state removal_required = true
is_volume_required_state _ = false

abbrev pub is_rebalance_required : CruiseControlVolumeState → Bool
is_rebalance_required rebalance_required = true
is_rebalance_required _ = false

abbrev pub is_removal_required : CruiseControlVolumeState → Bool
is_removal_required removal_required = true
is_removal_required _ = false

unfoldable pub is_disk_rebalance : CruiseControlVolumeState → Bool
unfolding is_disk_rebalance_running
is_disk_rebalance s = is_disk_rebalance_running s || is_rebalance_required s

unfoldable pub is_disk_removal : CruiseControlVolumeState → Bool
unfolding is_disk_removal_running
is_disk_removal s = is_disk_removal_running s || is_removal_required s

unfoldable pub is_disk_rebalance_succeeded : CruiseControlVolumeState → Bool
is_disk_rebalance_succeeded rebalance_succeeded = true
is_disk_rebalance_succeeded _ = false

unfoldable pub is_disk_removal_succeeded : CruiseControlVolumeState → Bool
is_disk_removal_succeeded removal_succeeded = true
is_disk_removal_succeeded _ = false

unfoldable pub is_upscale : CruiseControlState → Bool
is_upscale upscale_required = true
is_upscale upscale_succeeded = true
is_upscale upscale_running = true
is_upscale upscale_completed_with_error = true
is_upscale upscale_paused = true
is_upscale upscale_scheduled = true
is_upscale _ = false

unfoldable pub is_downscale : CruiseControlState → Bool
is_downscale downscale_required = true
is_downscale downscale_succeeded = true
is_downscale downscale_running = true
is_downscale downscale_completed_with_error = true
is_downscale downscale_paused = true
is_downscale downscale_scheduled = true
is_downscale _ = false

unfoldable pub is_running_state : CruiseControlState → Bool
is_running_state upscale_running = true
is_running_state upscale_completed_with_error = true
is_running_state upscale_paused = true
is_running_state upscale_scheduled = true
is_running_state downscale_running = true
is_running_state downscale_completed_with_error = true
is_running_state downscale_paused = true
is_running_state downscale_scheduled = true
is_running_state _ = false

unfoldable pub is_required_state : CruiseControlState → Bool
is_required_state downscale_required = true
is_required_state upscale_required = true
is_required_state _ = false

unfoldable pub is_active_state : CruiseControlState → Bool
unfolding is_running_state is_required_state
is_active_state r = is_running_state r || is_required_state r

unfoldable pub is_succeeded : CruiseControlState → Bool
is_succeeded downscale_succeeded = true
is_succeeded upscale_succeeded = true
is_succeeded _ = false

-- The name of the CruiseControlOperation that a LocalObjectReference refers to.
abbrev pub LocalObjectReference : Type 0
LocalObjectReference = String

pub record VolumeState : Type 0 where
  pub cruise_control_volume_state : CruiseControlVolumeState
  pub cruise_control_operation_reference : Option LocalObjectReference

pub record GracefulActionState : Type 0 where
  pub cruise_control_state : CruiseControlState
  pub cruise_control_operation_reference : Option LocalObjectReference
  pub volume_states : Dict VolumeState

pub record BrokerState : Type 0 where
  pub rack_awareness_state : String
  pub graceful_action_state : GracefulActionState
  pub configuration_state : String
  pub per_broker_configuration_state : String
  pub external_listener_config_names : List String
  pub version : String
  pub image : String
  pub configuration_backup : String

-- the zero value of the type
abbrev pub empty_broker_state : BrokerState
empty_broker_state = record {
  rack_awareness_state = "";
  graceful_action_state = record {
    cruise_control_state = no_broker_state;
    cruise_control_operation_reference = none;
    volume_states = [];
  };
  configuration_state = "";
  per_broker_configuration_state = "";
  external_listener_config_names = [];
  version = "";
  image = "";
  configuration_backup = "";
}
