-- ===== src/Kafka/Rolling.antt =====
-- handleRollingUpgrade of pkg/resources/kafka/kafka.go. A panic is `none`.
pub mod Checks
pub mod Safe
use koperator.Prelude.{
  ℕ, ◌+◌, String, Option, none, some, Bool, true, false, ◌&&◌, ◌||◌, not, List, [], ◌∷◌, ◌++◌, ltb,
  leb, ◌==◌, str_eq, any_of, length, if◌then◌else◌,
}
use koperator.Prelude.Dict.{Dict, lookup}
use koperator.Api.Failure.{Answer, ok, err, Error, failure}
use koperator.Task.Brokers.{string_slice_contains}
use koperator.Status.World.{Cluster, Server, World, Trace, pod, delete}
use koperator.Status.Update.{update_cr_status, cluster_state}
use koperator.Status.Broker.{or_empty_state}
use koperator.Kafka.Pods.{
  Pod, is_pod_contains_terminated_container, is_pod_contains_evicted_container,
  is_pod_contains_shutdown_container, get_pods_in_terminating_or_pending_state,
}
use koperator.Kafka.Racks.{
  AzMap, CcStatus, get_broker_az_map, get_broker_az, label, exists_failed_broker_from_another_rack,
  exists_terminating_pod_from_another_az, check_cc_rack_aware_distribution_goal,
}

-- labels.Selector
pub record Selector : Type 0 where
  pub is_empty : Bool
  pub matches : Dict String → Bool

pub record Env : Type 0 where
  pub server : Server
  -- DefaultPatchMaker.Calculate: whether the patch from the current pod to the desired one is empty
  pub calculate : Pod → Pod → Answer Bool
  pub set_last_applied_annotation : Pod → Option Error
  -- LabelSelectorAsSelector of the taintedBrokersSelector
  pub tainted_brokers_selector : Answer Selector
  pub list_pods : Trace → Answer (List Pod)
  -- CruiseControlScalerFactory and Status
  pub rack_aware_distribution_goal : String
  pub cruise_control_status : Trace → Answer (Option CcStatus)
  pub new_kafka_client : Trace → Option Error
  pub all_offline_replicas : Trace → Answer (List ℕ)
  pub out_of_sync_replicas : Trace → Answer (List ℕ)

-- each toleration once, where it stands first; `seen` are the keys
unfoldable pub unique : List String → List String → List String
unique seen [] = []
unique seen (t ∷ ts) = elim (string_slice_contains seen t) [
  | true ↦ unique seen ts
  | false ↦ t ∷ unique (t ∷ seen) ts
]

unfoldable pub merge_tolerations : Pod → Pod → Pod
merge_tolerations desired current =
    if length desired.tolerations == 0
    then desired
    else record desired { tolerations = unique [] (desired.tolerations ++ current.tolerations) }

-- the ids of a Go set: each once
unfoldable pub distinct : List ℕ → List ℕ
distinct [] = []
distinct (id ∷ ids) =
    let rest = distinct ids in if any_of (λ j. j == id) rest then rest else id ∷ rest

abbrev pub rolling_upgrading : String
rolling_upgrading = "ClusterRollingUpgrading"

abbrev pub Result : Type 0
Result = Option (Option Error) × World

module _ (env : Env) where
  unfoldable pub is_pod_tainted : Pod → Bool
  is_pod_tainted p = elim env.tainted_brokers_selector [
    | err e ↦ false
    | ok s ↦ if s.is_empty then false else s.matches p.labels
  ]

  abbrev pub is_healthy : Cluster → Pod → Bool
  is_healthy c p =
      not (is_pod_contains_terminated_container p)
      && str_eq (or_empty_state (lookup (label "brokerId" p) c.brokers_state)).configuration_state
          "ConfigInSync"
      && not (is_pod_contains_evicted_container p)
      && not (is_pod_contains_shutdown_container p)

  -- "resource is in sync"; a patch that cannot be calculated is logged only
  unfoldable pub is_in_sync : Cluster → Pod → Pod → Bool
  is_in_sync c desired current = elim (env.calculate current desired) [
    | err e ↦ false
    | ok is_empty ↦ if is_pod_tainted current then false else (is_empty && is_healthy c current)
  ]

  abbrev pub refused : String → Option (Option Error)
  refused text = some (some (failure text))

  -- `passed` lets the pod be deleted
  abbrev pub passed : Option (Option Error)
  passed = some none

  abbrev pub impacted : List ℕ → List ℕ → List ℕ
  impacted offline out_of_sync = distinct (offline ++ out_of_sync)

  unfoldable pub check_impacted : Cluster → String → AzMap → List ℕ → Option (Option Error)
  check_impacted c az m ids =
      if leb c.spec.rolling_upgrade_config.failure_threshold
        (c.rolling_upgrade_error_count + length ids)
      then refused "cluster is not healthy"
      else if ltb 1 c.spec.rolling_upgrade_config.concurrent_broker_restart_count_per_rack
          && ltb 1 c.spec.rolling_upgrade_config.failure_threshold
          && exists_failed_broker_from_another_rack az ids m
      then refused "broker is not healthy from another AZ"
      else passed

  unfoldable pub check_replicas : World → String → AzMap → Option (Option Error)
  check_replicas w az m = elim (env.new_kafka_client w.trace) [
    | some e ↦ some (some e)
    | none ↦ elim (env.all_offline_replicas w.trace) [
      | err e ↦ some (some e)
      | ok offline ↦ elim (env.out_of_sync_replicas w.trace) [
        | err e ↦ some (some e)
        | ok out_of_sync ↦ check_impacted w.cluster az m (impacted offline out_of_sync)
      ]
    ]
  ]

  abbrev pub az_or_empty : Option String → String
  az_or_empty none = ""
  az_or_empty (some az) = az

  unfoldable pub check_azs : World → Pod → List Pod → AzMap → Option (Option Error)
  check_azs w current waiting m =
      let az = az_or_empty (get_broker_az current m) in
      if ltb 1 w.cluster.spec.rolling_upgrade_config.concurrent_broker_restart_count_per_rack
        && exists_terminating_pod_from_another_az az waiting m
      then refused "pod is still terminating or creating from another AZ"
      else check_replicas w az m

  abbrev pub check_goal : World → List Pod → Option (Option Error)
  check_goal w waiting =
      if ltb 1 w.cluster.spec.rolling_upgrade_config.concurrent_broker_restart_count_per_rack
        && ltb 0 (length waiting)
      then check_cc_rack_aware_distribution_goal env.rack_aware_distribution_goal
          (env.cruise_control_status w.trace)
      else some none

  unfoldable pub check_waiting : World → Pod → List Pod → Option (Option Error)
  check_waiting w current waiting =
      if leb w.cluster.spec.rolling_upgrade_config.concurrent_broker_restart_count_per_rack
        (length waiting)
      then refused "pod(s) is still terminating or creating"
      else elim (check_goal w waiting) [
        | none ↦ none
        | some (some e) ↦ some (some e)
        | some none ↦ elim (get_broker_az_map w.cluster.spec.brokers) [
          | none ↦ none
          | some m ↦ check_azs w current waiting m
        ]
      ]

  -- the checks before a running pod is deleted
  unfoldable pub check_upgrade : World → Pod → Option (Option Error)
  check_upgrade w current = elim (env.list_pods w.trace) [
    | err e ↦ some (some e)
    | ok pods ↦
        if ltb (length pods) (length w.cluster.spec.brokers)
        then refused "pod count differs from brokers spec"
        else check_waiting w current (get_pods_in_terminating_or_pending_state pods)
  ]

  abbrev pub delete_pod : Pod → World → Result
  delete_pod current w = let (e, u) = delete env.server pod current.name w in (some e, u)

  abbrev pub delete_after : Pod → World → Option (Option Error) → Result
  delete_after current w none = (none, w)
  delete_after current w (some (some e)) = (some (some e), w)
  delete_after current w (some none) = delete_pod current w

  abbrev pub upgrade : Pod → Option Error × World → Result
  upgrade current (some e, w) = (some (some e), w)
  upgrade current (none, w) =
      if str_eq w.cluster.state rolling_upgrading
      then delete_after current w (check_upgrade w current)
      else delete_pod current w

  unfoldable pub set_rolling_upgrading : World → Option Error × World
  set_rolling_upgrading w =
      if str_eq w.cluster.state rolling_upgrading
      then (none, w)
      else update_cr_status env.server (cluster_state rolling_upgrading) w

  unfoldable pub restart : Pod → World → Result
  restart current w =
      if is_pod_contains_terminated_container current
      then delete_pod current w
      else upgrade current (set_rolling_upgrading w)

  unfoldable pub handle_rolling_upgrade : Pod → Pod → World → Result
  handle_rolling_upgrade desired current w =
      let merged = merge_tolerations desired current in
      if is_in_sync w.cluster merged current
      then (some none, w)
      else elim (env.set_last_applied_annotation merged) [
        | some e ↦ (some (some e), w)
        | none ↦ restart current w
      ]
