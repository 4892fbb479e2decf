-- ===== src/Alert/Process.antt =====
-- The validators, processAlert, examineAlert and getKafkaCr of internal/alertmanager/currentalert.
use koperator.Prelude.{
  ℕ, String, Option, none, some, Bool, true, false, ◌&&◌, length, str_eq, leb, ltb, is_some,
  if◌then◌else◌,
}
use koperator.Prelude.Dict.{lookup}
use koperator.Api.Failure.{Error, failure}
use koperator.Alert.Types.{LabelSet, value_at, CurrentAlert, DisableScaling, Cluster}
use koperator.Alert.World.{Env, Run, pure, fail, ◌>>=◌, ◌>>◌}
use koperator.Alert.Cluster.{get_cr, update_cr_with_rolling_upgrade}
use koperator.Alert.Commands.{get_pvc, add_pvc, resize_pvc, down_scale, up_scale}

abbrev pub command_of : CurrentAlert → String
command_of a = value_at "command" a.annotations

-- checkLabelExists
unfoldable pub check_label_exists : LabelSet → String → Bool
check_label_exists labels label = is_some (lookup label labels)

-- what validateAlert of a validator reports
unfoldable pub violation : String → String → CurrentAlert → Option Error
violation label command a =
    if check_label_exists a.labels label
    then (if str_eq (command_of a) command then none else some (failure "unsupported command"))
    else some (failure "label doesn't exist")

-- resizePvcValidator; a LabelValue is valid where it is UTF-8
unfoldable pub resize_violation : (String → Option ℕ) → CurrentAlert → Option Error
resize_violation parse_quantity a = elim (violation "persistentvolumeclaim" "resizePvc" a) [
  | some e ↦ some e
  | none ↦
      if is_some (parse_quantity (value_at "incrementBy" a.annotations))
      then none
      else some (failure "incrementBy not valid quantity")
]

-- ValidateAlert, for the one validator that each command has
abbrev pub validate_alert : Option Error → Run (Unit {0})
validate_alert none = pure tt
validate_alert (some e) = fail (failure "alert validation failed")

-- the limits that the cluster sets
unfoldable pub disable_scaling : Cluster → DisableScaling
disable_scaling cr = elim cr.alert_manager_config [
  | none ↦ record { up = false; down = false }
  | some c ↦ record {
    up = ltb 0 c.up_scale_limit && leb c.up_scale_limit (length cr.brokers);
    down = leb (length cr.brokers) c.down_scale_limit;
  }
]

module _ (env : Env) where
  abbrev pub run_add_pvc : CurrentAlert → Run Bool
  run_add_pvc a = do
    validate_alert (violation "persistentvolumeclaim" "addPvc" a)
    add_pvc env a.labels a.annotations
    pure true

  abbrev pub run_resize_pvc : CurrentAlert → Run Bool
  run_resize_pvc a = do
    validate_alert (resize_violation env.parse_quantity a)
    resize_pvc env a.labels a.annotations
    pure true

  abbrev pub run_down_scale : CurrentAlert → Bool → Run Bool
  run_down_scale a disabled = do
    validate_alert (violation "kafka_cr" "downScale" a)
    if disabled then pure false else (do down_scale env a.labels; pure true)

  abbrev pub run_up_scale : CurrentAlert → Bool → Run Bool
  run_up_scale a disabled = do
    validate_alert (violation "kafka_cr" "upScale" a)
    if disabled then pure false else (do up_scale env a.labels a.annotations; pure true)

  unfoldable pub process_alert : CurrentAlert → DisableScaling → Run Bool
  process_alert a ds =
      let command = command_of a in
      if str_eq command "addPvc"
      then run_add_pvc a
      else if str_eq command "resizePvc"
      then run_resize_pvc a
      else if str_eq command "downScale"
      then run_down_scale a ds.down
      else if str_eq command "upScale"
      then run_up_scale a ds.up
      else if str_eq command "testing"
      then pure true
      else pure false

  -- nil where the alert has neither label
  unfoldable pub get_kafka_cr : CurrentAlert → Run (Option Cluster)
  get_kafka_cr a =
      let namespace = value_at "namespace" a.labels in
      elim (lookup "kafka_cr" a.labels) [
        | some name ↦ (do cr ← get_cr env name namespace; pure (some cr))
        | none ↦ elim (lookup "persistentvolumeclaim" a.labels) [
          | none ↦ pure none
          | some name ↦ (do
            pvc ← get_pvc env name namespace
            elim (lookup "kafka_cr" pvc.labels) [
              | none ↦ fail (failure "persistentvolumeclaim doesn't contain kafka_cr label")
              | some cluster ↦ (do cr ← get_cr env cluster namespace; pure (some cr))
            ])
        ]
      ]

  unfoldable pub examine_cluster : CurrentAlert → Cluster → Run Bool
  examine_cluster a cr =
      if str_eq cr.state "ClusterRunning" then process_alert a (disable_scaling cr) else pure false

  unfoldable pub examine_alert : CurrentAlert → ℕ → Run Bool
  examine_alert a rolling_upgrade_alert_count = do
    found ← get_kafka_cr a
    elim found [
      | none ↦ fail (failure "kafkaCR is nil")
      | some cr ↦ (do
        current ← update_cr_with_rolling_upgrade env rolling_upgrade_alert_count cr
        examine_cluster a current)
    ]
