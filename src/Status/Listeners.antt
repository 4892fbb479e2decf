-- ===== src/Status/Listeners.antt =====
-- CreateInternalListenerStatuses and getHostnameForBrokerId of pkg/k8sutil/status.go, with the
-- addresses of pkg/util/client/common.go. A nil pointer that is followed gives `none`. The sums of
-- ports and ids are not cut to 32 bits.
use Prim.Native.Char.{code}
use Prim.Native.String.{◌++◌ as append}
use koperator.Prelude.{
  ℕ, ◌+◌, String, Option, none, some, Bool, true, false, ◌&&◌, not, List, [], ◌∷◌, ltb, ◌==◌,
  str_eq, if◌then◌else◌,
}
use koperator.Prelude.Dict.{lookup, insert}
use koperator.Prelude.Decimal.{itoa}
use koperator.Api.Failure.{Answer, ok, err}
use koperator.Api.Cluster.{Broker, BrokerConfig, KafkaClusterSpec}
use koperator.Task.Brokers.{Merge, get_broker_config, string_slice_contains}
use koperator.Status.World.{Cluster, InternalListener, ListenerStatus, ListenerStatuses}

-- the texts one after the other
abbrev pub concat : List String → String
concat [] = ""
concat (s ∷ ss) = append s (concat ss)

-- strings.Split(s, ":")[0]
unfoldable pub before_colon : String → String
before_colon String.[] = String.[]
before_colon (String.◌∷◌ c s) =
    let rest = before_colon s in if code c == 58 then String.[] else String.◌∷◌ c rest

unfoldable pub get_hostname_for_broker_id : List ListenerStatus → ℕ → String
get_hostname_for_broker_id [] id = ""
get_hostname_for_broker_id (s ∷ ss) id =
    let rest = get_hostname_for_broker_id ss id in
    if str_eq s.name (append "broker-" (itoa id)) then before_colon s.address else rest

abbrev pub domain : Cluster → String
domain c = concat (c.namespace ∷ ".svc." ∷ c.spec.kubernetes_cluster_domain ∷ [])

unfoldable pub generate_kafka_address_without_port : Cluster → String
generate_kafka_address_without_port c =
    if c.spec.headless_service_enabled
    then concat (c.name ∷ "-headless." ∷ domain c ∷ [])
    else concat (c.name ∷ "-all-broker." ∷ domain c ∷ [])

unfoldable pub generate_kafka_controller_address_without_port : Cluster → String
generate_kafka_controller_address_without_port c =
    if c.spec.headless_service_enabled
    then (if c.spec.kraft_mode
        then concat (c.name ∷ "-controller-headless." ∷ domain c ∷ [])
        else concat (c.name ∷ "-headless." ∷ domain c ∷ []))
    else concat (c.name ∷ "-all-broker." ∷ domain c ∷ [])

abbrev pub with_port : String → ℕ → String
with_port host port = concat (host ∷ ":" ∷ itoa port ∷ [])

module _ (merge : Merge) (c : Cluster) (external : ListenerStatuses) where
  -- the spec as GetBrokerConfig reads it
  abbrev pub config_spec : KafkaClusterSpec
  config_spec = record {
    brokers = c.spec.brokers;
    broker_config_groups = c.spec.broker_config_groups;
    kraft_mode = c.spec.kraft_mode;
    capacity_config = "";
    operation_ttl_seconds_after_finished = none;
  }

  abbrev pub role_of : String → Answer (Option BrokerConfig) → Option (Answer Bool)
  role_of role (err e) = some (err e)
  role_of role (ok none) = none
  role_of role (ok (some b)) = some (ok (string_slice_contains b.roles role))

  abbrev pub and_then : Option (Answer Bool) → Option (Answer Bool) → Option (Answer Bool)
  and_then none m = none
  and_then (some (err e)) m = some (err e)
  and_then (some (ok false)) m = some (ok false)
  and_then (some (ok true)) m = m

  abbrev pub has_role : Bool → String → Broker → Option (Answer Bool)
  has_role asked role b =
      if asked then role_of role (get_broker_config merge config_spec b) else some (ok true)

  -- whether the broker is listed: IsBrokerNode and IsControllerNode in KRaft mode
  unfoldable pub is_listed : InternalListener → Broker → Option (Answer Bool)
  is_listed l b =
      and_then (has_role (c.spec.kraft_mode && l.used_for_inner_broker_communication) "broker" b)
        (has_role (c.spec.kraft_mode && l.used_for_controller_communication) "controller" b)

  abbrev pub external_address : InternalListener → ℕ → Option (List ListenerStatus) → String
  external_address l id none = ""
  external_address l id (some statuses) =
      with_port (get_hostname_for_broker_id statuses id) (l.internal_starting_port + id)

  unfoldable pub shared_address : InternalListener → ℕ → String
  shared_address l id =
      if not (str_eq l.external_listener_for_hostname "") && ltb 0 l.internal_starting_port
      then external_address l id (lookup l.external_listener_for_hostname external)
      else ""

  unfoldable pub own_address : InternalListener → ℕ → String
  own_address l id =
      let service =
        if c.spec.kraft_mode && l.used_for_controller_communication
        then "-controller-headless."
        else "-headless." in
      let host = concat (c.name ∷ "-" ∷ itoa id ∷ "." ∷ []) in
      if c.spec.headless_service_enabled
      then with_port (concat (host ∷ c.name ∷ service ∷ domain c ∷ [])) l.container_port
      else with_port (append host (domain c)) l.container_port

  abbrev pub broker_status : InternalListener → ℕ → ListenerStatus
  broker_status l id = record {
    name = append "broker-" (itoa id);
    address = (if str_eq (shared_address l id) "" then own_address l id else shared_address l id);
  }

  abbrev pub add_status :
      ListenerStatus
      → Option (Answer Bool)
      → Option (Answer (List ListenerStatus))
      → Option (Answer (List ListenerStatus))
  add_status s none rest = none
  add_status s (some (err e)) rest = some (err e)
  add_status s (some (ok true)) (some (ok ss)) = some (ok (s ∷ ss))
  add_status s (some (ok true)) rest = rest
  add_status s (some (ok false)) rest = rest

  unfoldable pub broker_statuses :
      InternalListener → List Broker → Option (Answer (List ListenerStatus))
  broker_statuses l [] = some (ok [])
  broker_statuses l (b ∷ bs) =
      add_status (broker_status l b.id) (is_listed l b) (broker_statuses l bs)

  abbrev pub any_status : InternalListener → ListenerStatus
  any_status l = record {
    name = (if c.spec.headless_service_enabled then "headless" else "any-broker");
    address =
        (if l.used_for_controller_communication
          then with_port (generate_kafka_controller_address_without_port c) l.container_port
          else with_port (generate_kafka_address_without_port c) l.container_port);
  }

  abbrev pub Statuses : Type 0
  Statuses = ListenerStatuses × ListenerStatuses

  abbrev pub store_list : InternalListener → List ListenerStatus → Statuses → Statuses
  store_list l ss (int, controller) =
      if l.used_for_controller_communication
      then (int, insert l.name ss controller)
      else (insert l.name ss int, controller)

  -- the loop over the listeners
  unfoldable pub list_listeners : List InternalListener → Statuses → Option (Answer Statuses)
  list_listeners [] m = some (ok m)
  list_listeners (l ∷ ls) m = elim (broker_statuses l c.spec.brokers) [
    | none ↦ none
    | some (err e) ↦ some (err e)
    | some (ok ss) ↦ list_listeners ls (store_list l (any_status l ∷ ss) m)
  ]

  unfoldable pub create_internal_listener_statuses : Option (Answer Statuses)
  create_internal_listener_statuses = list_listeners c.spec.internal_listeners ([], [])
