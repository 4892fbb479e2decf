-- ===== src/Examples/Alerts.antt =====
-- The theorems on the alert manager at concrete inputs.
use koperator.Prelude.{ℕ, ◌<◌, ◌≡◌, refl, true, false, none, some, List, [], ◌∷◌, All, inl, arith}
use koperator.Prelude.Dict.{lookup}
use koperator.Prelude.Decimal.{itoa}
use koperator.Api.Failure.{ok, err, failure}
use koperator.Api.States.{upscale_required}
use koperator.Alert.Types.{
  LabelSet, value_at, AlertState, CurrentAlert, Broker, Cluster, AlertManagerConfig,
}
use koperator.Alert.World.{Env, Trace, pure, got_cr, updated_cr, updated_status}
use koperator.Alert.Cluster.{get_brokers_with_pending_or_running_cc_task, busy_ids}
use koperator.Alert.Commands.{up_scale, new_broker, biggest_from}
use koperator.Alert.Process.{examine_alert}
use koperator.Alert.Stored.{CurrentAlerts, find_alert, handle_alert, dispatch}
use koperator.Alert.Once.{Survives, dispatch-once}
use koperator.Alert.Limits.{examine_alert-Limited}
use koperator.Alert.Fresh.{up_scale-adds}

abbrev broker : ℕ → Broker
broker id = record { id = id; broker_config_group = "default"; broker_config = none }

abbrev limits : AlertManagerConfig
limits = record { down_scale_limit = 1; up_scale_limit = 2 }

abbrev cluster : Cluster
cluster = record {
  brokers = broker 7 ∷ broker 3 ∷ [];
  broker_config_groups =
      ("default", record { image = ""; storage_configs = []; broker_annotations = [] }) ∷ [];
  alert_manager_config = some limits;
  state = "ClusterRunning";
  error_count = 0;
  brokers_state = [];
}

-- broker 3 waits to be filled
abbrev upscaling : Cluster
upscaling = record cluster {
  brokers_state =
      (
        "3",
        record {
          graceful_action_state = record {
            cruise_control_state = upscale_required;
            cruise_control_operation_reference = none;
            volume_states = [];
          };
          rack_awareness_state = "";
          configuration_state = "";
          per_broker_configuration_state = "";
          external_listener_config_names = [];
          version = "";
          image = "";
          configuration_backup = "";
        },
      )
      ∷ [];
}

-- a server that has one cluster
abbrev serving : Cluster → Env
serving cr = record {
  get_cr = λ t name namespace. ok cr;
  get_pvc = λ t name namespace. err (failure "no claim");
  list_pvcs = λ t namespace name. ok [];
  update_cr = λ t c. none;
  update_status = λ t c. ok c;
  least_loaded = λ t. ok "3";
  random = λ t. ok "abcdef";
  parse_quantity = λ s. none;
  parse_annotations = λ s. [];
  merge_config = λ own group. ok group;
}

abbrev kafka_labels : LabelSet
kafka_labels = ("kafka_cr", "kafka") ∷ ("namespace", "kafka") ∷ []

abbrev upscale_annotations : LabelSet
upscale_annotations = ("command", "upScale") ∷ ("brokerConfigGroup", "default") ∷ []

abbrev upscale_alert : CurrentAlert
upscale_alert = record {
  status = "firing";
  labels = kafka_labels;
  annotations = upscale_annotations;
  processed = false;
}

abbrev stored : CurrentAlerts
stored = (5, record upscale_alert { processed = true }) ∷ (9, upscale_alert) ∷ []

abbrev batch : List AlertState
batch =
    record {
      finger_print = 9;
      status = "resolved";
      labels = kafka_labels;
      annotations = upscale_annotations;
    }
    ∷ record {
      finger_print = 5;
      status = "firing";
      labels = kafka_labels;
      annotations = upscale_annotations;
    }
    ∷ []

dispatch-once_example :
    Survives 5 (dispatch (serving cluster) batch stored []).0
    × ((count : ℕ) (u : Trace)
        → handle_alert (serving cluster) 5 count stored u ≡ (some (ok stored), u))
unfolding find_alert
dispatch-once_example =
    dispatch-once 5 (serving cluster) batch stored []
      ((λ e. absurd (omega arith)), ((λ e. refl), tt))
      (record upscale_alert { processed = true }, (refl, refl))

examine_alert-Limited_example : examine_alert (serving cluster) upscale_alert 4 [] ≡ (
  some (ok false),
  updated_status (record cluster { error_count = 4 }) ∷ got_cr "kafka" "kafka" ∷ [],
)
unfolding lookup value_at
examine_alert-Limited_example =
    examine_alert-Limited (serving cluster) upscale_alert "kafka" 4 cluster
      (record cluster { error_count = 4 }) limits [] refl refl refl refl
      (inl (refl, (omega arith, omega arith)))

abbrev added : Broker
added = record { id = 8; broker_config_group = "default"; broker_config = none }

up_scale-adds_example :
    (up_scale (serving cluster) kafka_labels upscale_annotations [] ≡ (
      some (ok tt),
      updated_cr (record cluster { brokers = broker 7 ∷ broker 3 ∷ added ∷ [] })
          ∷ got_cr "kafka" "kafka"
          ∷ got_cr "kafka" "kafka"
          ∷ [],
    ))
    × All (λ o. o.id < 8) cluster.brokers
unfolding lookup value_at get_brokers_with_pending_or_running_cc_task busy_ids itoa new_broker
    biggest_from pure
up_scale-adds_example =
    up_scale-adds (serving cluster) kafka_labels upscale_annotations cluster added [] (λ u. refl)
      refl refl
