-- ===== src/Kafka/Removal.antt =====
-- reconcileKafkaPodDelete of pkg/resources/kafka/kafka.go: the brokers that are no longer in the spec.
pub mod Guarded
pub mod Spared
pub mod Stuck
use Prim.Native.String.{◌++◌ as append}
use koperator.Prelude.{
  ℕ, String, Option, none, some, Bool, true, false, ◌&&◌, ◌||◌, not, List, [], ◌∷◌, ltb, str_eq,
  any_of, keep, length, map, is_some, if◌then◌else◌,
}
use koperator.Prelude.Dict.{Dict, lookup}
use koperator.Prelude.Decimal.{itoa}
use koperator.Api.Failure.{Answer, ok, err, Error, failure, is_missing}
use koperator.Api.States.{
  BrokerState, GracefulActionState, CruiseControlState, upscale_succeeded, upscale_required,
  downscale_required, downscale_succeeded,
}
use koperator.Task.Brokers.{string_slice_contains}
use koperator.Status.World.{
  Cluster, Server, World, Trace, Kind, pod, config_map, service, persistent_volume_claim, delete,
}
use koperator.Status.Update.{delete_broker_status}
use koperator.Status.Broker.{update_broker_status, graceful_action_state}
use koperator.Kafka.Pods.{Pod, Volume, has_prefix, are_pods_already_deleted}
use koperator.Kafka.Racks.{label}

pub record Env : Type 0 where
  pub server : Server
  pub list_pods : Trace → Answer (List Pod)
  -- CruiseControlScalerFactory and BrokersWithState
  pub available_brokers : Trace → Answer (List String)

-- The error of an action; a panic is `none`.
abbrev pub Outcome : Type 0
Outcome = Option (Option Error) × World

abbrev pub Step : Type 0
Step = World → Outcome

abbrev pub returned : Option Error × World → Outcome
returned (e, w) = (some e, w)

-- One step after another, unless it fails.
infixl 5 ◌then_do◌
abbrev pub ◌then_do◌ :
    {S : Type 0}
    → Option (Option Error) × S
    → (S → Option (Option Error) × S)
    → Option (Option Error) × S
(none, w) then_do next = (none, w)
(some (some e), w) then_do next = (some (some e), w)
(some none, w) then_do next = next w

abbrev pub ids_of_spec : Cluster → List String
ids_of_spec c = map (λ b. itoa b.id) c.spec.brokers

-- podsDeletedFromSpec: those with an id that the spec does not have
unfoldable pub pods_deleted_from_spec : Cluster → List Pod → List Pod
pods_deleted_from_spec c pods =
    keep
      (λ p.
        is_some (lookup "brokerId" p.labels)
        && not (string_slice_contains (ids_of_spec c) (label "brokerId" p)))
      pods

abbrev pub is_upscaled : CruiseControlState → Bool
is_upscaled upscale_succeeded = true
is_upscaled upscale_required = true
is_upscaled _ = false

abbrev pub awaits_downscale : Dict BrokerState → String → Bool
awaits_downscale m id = elim (lookup id m) [
  | none ↦ false
  | some b ↦ is_upscaled b.graceful_action_state.cruise_control_state
]

-- brokersPendingGracefulDownscale
unfoldable pub pending_graceful_downscale : Cluster → List Pod → List String → List String
pending_graceful_downscale c pods available =
    keep
      (λ id.
        string_slice_contains (map (label "brokerId") pods) id
        && awaits_downscale c.brokers_state id)
      available

abbrev pub awaiting_downscale : GracefulActionState
awaiting_downscale = record {
  cruise_control_state = downscale_required;
  cruise_control_operation_reference = none;
  volume_states = [];
}

module _ (server : Server) where
  abbrev pub mark : List String → Step
  mark [] w = (some none, w)
  mark (id ∷ ids) w =
      returned (update_broker_status server (id ∷ ids) (graceful_action_state awaiting_downscale) w)

  -- an object that is gone is no failure
  abbrev pub ignore_missing : Option Error × World → Outcome
  ignore_missing (none, w) = (some none, w)
  ignore_missing (some e, w) = if is_missing e then (some none, w) else (some (some e), w)

  abbrev pub id_of : Pod → String
  id_of p = label "brokerId" p

  abbrev pub config_map_name : Cluster → Pod → String
  config_map_name c p = append c.name (append "-config-" (id_of p))

  abbrev pub service_name : Cluster → Pod → String
  service_name c p = append c.name (append "-" (id_of p))

  abbrev pub delete_claim : Option String → Step
  delete_claim none w = (none, w)
  delete_claim (some name) w = returned (delete server persistent_volume_claim name w)

  -- The claim of a data volume is read without a look whether there is one.
  unfoldable pub delete_claims : List Volume → Step
  delete_claims [] w = (some none, w)
  delete_claims (v ∷ vs) w =
      let rest = delete_claims vs in
      if has_prefix v.name "kafka-data"
      then delete_claim v.persistent_volume_claim w then_do rest
      else rest w

  abbrev pub delete_service : Pod → Step
  delete_service p w =
      if w.cluster.spec.headless_service_enabled
      then (some none, w)
      else returned (delete server service (service_name w.cluster p) w)

  abbrev pub delete_status : Pod → Step
  delete_status p w = returned (delete_broker_status server (id_of p) w)

  -- what is deleted with a pod, then its status
  unfoldable pub delete_objects : Pod → Step
  delete_objects p w =
      ignore_missing (delete server config_map (config_map_name w.cluster p) w)
      then_do delete_service p
      then_do delete_claims p.volumes
      then_do delete_status p

  unfoldable pub delete_broker : Pod → Step
  delete_broker p w = returned (delete server pod p.name w) then_do delete_objects p

  abbrev pub is_done : CruiseControlState → Bool
  is_done downscale_succeeded = true
  is_done upscale_required = true
  is_done _ = false

  abbrev pub is_controller_only : Pod → Bool
  is_controller_only p = elim (lookup "processRoles" p.labels) [
    | none ↦ false
    | some roles ↦ str_eq roles "controller"
  ]

  abbrev pub is_unfinished : Option BrokerState → Bool
  is_unfinished none = false
  is_unfinished (some b) = not (is_done b.graceful_action_state.cruise_control_state)

  -- the pod is left for now
  unfoldable pub is_kept : Cluster → Pod → Bool
  is_kept c p =
      p.is_deleted
      || (not (is_controller_only p) && is_unfinished (lookup (id_of p) c.brokers_state))

  -- the loop over podsDeletedFromSpec
  unfoldable pub delete_brokers : List Pod → Step
  delete_brokers [] w = (some none, w)
  delete_brokers (p ∷ ps) w =
      let rest = delete_brokers ps in
      if is_kept w.cluster p then rest w else delete_broker p w then_do rest

module _ (env : Env) where
  unfoldable pub mark_for_downscale : List Pod → Step
  mark_for_downscale pods w =
      if are_pods_already_deleted pods
      then (some none, w)
      else elim (env.available_brokers w.trace) [
        | err e ↦ (some (some e), w)
        | ok available ↦ mark env.server (pending_graceful_downscale w.cluster pods available) w
      ]

  abbrev pub remove_pods : List Pod → Step
  remove_pods [] w = (some none, w)
  remove_pods (p ∷ ps) w = mark_for_downscale (p ∷ ps) w then_do delete_brokers env.server (p ∷ ps)

  unfoldable pub reconcile_kafka_pod_delete : Step
  reconcile_kafka_pod_delete w = elim (env.list_pods w.trace) [
    | err e ↦ (some (some e), w)
    | ok pods ↦ remove_pods (pods_deleted_from_spec w.cluster pods) w
  ]
