-- ===== src/Alert/Stored.antt =====
-- The stored alerts: internal/alertmanager/currentalert/current_alerts.go and
-- internal/alertmanager/dispatcher/dispatcher.go. The map of alerts by fingerprint is a list in any
-- order; `processed` is what may be written through its pointers.
use koperator.Prelude.{
  ℕ, suc, Option, none, some, Bool, false, not, List, [], ◌∷◌, map, keep, any_of, str_eq, ◌==◌,
  is_some, if◌then◌else◌,
}
use koperator.Prelude.Dict.{lookup}
use koperator.Api.Failure.{Answer, ok, err, failure}
use koperator.Alert.Types.{AlertState, CurrentAlert}
use koperator.Alert.World.{Env, Run, Trace, pure, fail, ◌>>=◌}
use koperator.Alert.Process.{examine_alert}

abbrev pub CurrentAlerts : Type 0
CurrentAlerts = List (ℕ × CurrentAlert)

-- a.alerts[fp]
unfoldable pub find_alert : ℕ → CurrentAlerts → Option CurrentAlert
find_alert fp [] = none
find_alert fp ((f, a) ∷ rows) = let rest = find_alert fp rows in if f == fp then some a else rest

unfoldable pub add_alert : AlertState → CurrentAlerts → CurrentAlerts
add_alert s alerts =
    if is_some (find_alert s.finger_print alerts)
    then alerts
    else (
      s.finger_print,
      record {
        status = s.status;
        labels = s.labels;
        annotations = s.annotations;
        processed = false;
      },
    )
      ∷ alerts

unfoldable pub delete_alert : ℕ → CurrentAlerts → CurrentAlerts
delete_alert fp alerts = keep (λ e. not (e.0 == fp)) alerts

unfoldable pub alert_gc : AlertState → CurrentAlerts → CurrentAlerts
alert_gc s alerts =
    if str_eq s.status "resolved" then delete_alert s.finger_print alerts else alerts

-- a.alerts[fp].Processed = processed
unfoldable pub set_processed : ℕ → Bool → CurrentAlerts → CurrentAlerts
set_processed fp processed [] = []
set_processed fp processed ((f, a) ∷ rows) =
    let rest = set_processed fp processed rows in
    if f == fp then (f, record a { processed = processed }) ∷ rows else (f, a) ∷ rest

-- GetRollingUpgradeAlertCount
unfoldable pub get_rolling_upgrade_alert_count : CurrentAlerts → ℕ
get_rolling_upgrade_alert_count [] = 0
get_rolling_upgrade_alert_count ((f, a) ∷ rows) =
    let rest = get_rolling_upgrade_alert_count rows in
    if is_some (lookup "rollingupgrade" a.labels) then suc rest else rest

-- alertFilter keeps the alerts whose command is one of GetCommandList.
unfoldable pub is_supported : AlertState → Bool
is_supported s = elim (lookup "command" s.annotations) [
  | none ↦ false
  | some c ↦ any_of (str_eq c) ("addPvc" ∷ "downScale" ∷ "upScale" ∷ "resizePvc" ∷ [])
]

unfoldable pub collect : List AlertState → CurrentAlerts → CurrentAlerts
collect [] alerts = alerts
collect (s ∷ ss) alerts = collect ss (alert_gc s (add_alert s alerts))

module _ (env : Env) where
  -- The alerts after HandleAlert; an error leaves them as they are.
  unfoldable pub handle_alert : ℕ → ℕ → CurrentAlerts → Run CurrentAlerts
  handle_alert fp count alerts = elim (find_alert fp alerts) [
    | none ↦ fail (failure "alert doesn't exist")
    | some a ↦
        if a.processed
        then pure alerts
        else (do processed ← examine_alert env a count; pure (set_processed fp processed alerts))
  ]

  abbrev pub after_handling : CurrentAlerts → Option (Answer CurrentAlerts) → Option CurrentAlerts
  after_handling alerts none = none
  after_handling alerts (some (err e)) = some alerts
  after_handling alerts (some (ok handled)) = some handled

  -- the second loop of Dispatcher, which logs the errors; `none` is a panic
  unfoldable pub handle_all : List ℕ → ℕ → CurrentAlerts → Trace → Option CurrentAlerts × Trace
  handle_all [] count alerts t = (some alerts, t)
  handle_all (fp ∷ fps) count alerts t =
      let (answer, u) = handle_alert fp count alerts t in
      elim (after_handling alerts answer) [
        | none ↦ (none, u)
        | some handled ↦ handle_all fps count handled u
      ]

  unfoldable pub dispatch : List AlertState → CurrentAlerts → Trace → Option CurrentAlerts × Trace
  dispatch prom_alerts alerts t =
      let stored = collect (keep is_supported prom_alerts) alerts in
      handle_all (map (λ e. e.0) stored) (get_rolling_upgrade_alert_count stored) stored t
