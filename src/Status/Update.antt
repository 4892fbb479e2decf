-- ===== src/Status/Update.antt =====
-- How pkg/k8sutil/status.go writes: UpdateCRStatus, UpdateRollingUpgradeState, UpdateListenerStatuses,
-- DeleteBrokerStatus and DeleteVolumeStatus make one change each, in the same way.
pub mod Atomic
pub mod Keeps
use koperator.Prelude.{
  ℕ, String, Option, none, some, Bool, true, false, List, [], ◌∷◌, if◌then◌else◌,
}
use koperator.Prelude.Dict.{Dict, lookup, insert, remove}
use koperator.Api.Failure.{Answer, ok, err, Error, is_missing, is_conflict}
use koperator.Api.States.{BrokerState, GracefulActionState}
use koperator.Status.World.{
  Cluster, ListenerStatuses, Server, World, Action, update_status, update, get,
}

pub data CrState : Type 0 where
  cluster_state : String → CrState
  cruise_control_topic_status : String → CrState
  other_state : CrState

module _ (server : Server) where
  abbrev pub or_update : Option Error × World → Option Error × World
  or_update (none, w) = (none, w)
  or_update (some e, w) = if is_missing e then update server w else (some e, w)

  -- Status().Update, and Update where the status cannot be found
  unfoldable pub write : Action
  unfolding update_status update
  write w = or_update (update_status server w)

  abbrev pub write_again : (Cluster → Cluster) → Option Error × World → Option Error × World
  write_again change (some e, w) = (some e, w)
  write_again change (none, w) = write (record w { cluster = change w.cluster })

  abbrev pub after_write : (Cluster → Cluster) → Option Error × World → Option Error × World
  after_write change (none, w) = (none, w)
  after_write change (some e, w) =
      if is_conflict e then write_again change (get server w) else (some e, w)

  -- After a conflict the cluster is read and the change is made once more.
  unfoldable pub change_status : (Cluster → Cluster) → Action
  unfolding write
  change_status change w = after_write change (write (record w { cluster = change w.cluster }))

abbrev pub set_cr_state : CrState → Cluster → Cluster
set_cr_state (cluster_state s) c = record c { state = s }
set_cr_state (cruise_control_topic_status s) c = record c { cruise_control_topic_status = s }
set_cr_state other_state c = c

abbrev pub set_last_success : String → Cluster → Cluster
set_last_success stamp c = record c { rolling_upgrade_last_success = stamp }

abbrev pub set_listener_statuses : ListenerStatuses → ListenerStatuses → Cluster → Cluster
set_listener_statuses int ext c = record c {
  internal_listener_statuses = int;
  external_listener_statuses = ext;
}

abbrev pub without_broker : String → Cluster → Cluster
without_broker id c = record c { brokers_state = remove id c.brokers_state }

abbrev pub forget_volume : String → BrokerState → BrokerState
forget_volume mount_path b = record b {
  graceful_action_state = record b.graceful_action_state {
    volume_states = remove mount_path b.graceful_action_state.volume_states;
  };
}

abbrev pub without_volume : String → String → Cluster → Cluster
without_volume id mount_path c = elim (lookup id c.brokers_state) [
  | none ↦ c
  | some b ↦ record c { brokers_state = insert id (forget_volume mount_path b) c.brokers_state }
]

module _ (server : Server) where
  unfoldable pub update_cr_status : CrState → Action
  update_cr_status s = change_status server (set_cr_state s)

  unfoldable pub update_rolling_upgrade_state : String → Action
  update_rolling_upgrade_state stamp = change_status server (set_last_success stamp)

  unfoldable pub update_listener_statuses : ListenerStatuses → ListenerStatuses → Action
  update_listener_statuses int ext = change_status server (set_listener_statuses int ext)

  unfoldable pub delete_broker_status : String → Action
  delete_broker_status id = change_status server (without_broker id)

  unfoldable pub delete_volume_status : String → String → Action
  delete_volume_status id mount_path = change_status server (without_volume id mount_path)
