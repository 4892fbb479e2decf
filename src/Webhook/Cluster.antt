-- ===== src/Webhook/Cluster.antt =====
-- The validation of a KafkaCluster: pkg/webhooks/kafkacluster_validator.go, with the accessors of
-- api/v1beta1/kafkacluster_types.go. An int32 is its two's complement, a number below 2 ^ 32, so that
-- negative numbers are large.
pub mod Tls
pub mod Valid
use koperator.Prelude.{
  ℕ, suc, ◌+◌, ◌%◌, ◌^◌, String, Option, none, some, Bool, true, false, ◌&&◌, ◌||◌, not, List, [],
  ◌∷◌, ◌++◌, map, ltb, ◌==◌, str_eq, if◌then◌else◌,
}

pub record ExternalListener : Type 0 where
  pub container_port : ℕ
  pub external_starting_port : ℕ
  pub ingress_controller_target_port : Option ℕ
  pub access_method : String

-- what the validation reads of the spec
pub record ListenerSpec : Type 0 where
  pub internal_ports : List ℕ  -- the container ports of the internal listeners
  pub external_listeners : List ExternalListener
  pub broker_ids : List ℕ
  pub ingress_controller : String
  pub admin_port : Option ℕ
  pub health_check_port : Option ℕ

pub data FieldError : Type 0 where
  duplicate_internal duplicate_external : ℕ → FieldError
  out_of_range colliding : ℕ → List ℕ → FieldError
  admin_is_health_check : FieldError
  target_is_admin target_is_health_check : ℕ → FieldError

abbrev pub or_default : ℕ → Option ℕ → ℕ
or_default n none = n
or_default n (some m) = m

abbrev pub get_ingress_controller_target_port : ExternalListener → ℕ
get_ingress_controller_target_port l = or_default 29092 l.ingress_controller_target_port

abbrev pub get_envoy_admin_port : ListenerSpec → ℕ
get_envoy_admin_port s = or_default 8081 s.admin_port

abbrev pub get_envoy_health_check_port : ListenerSpec → ℕ
get_envoy_health_check_port s = or_default 8080 s.health_check_port

-- GetIngressController() == "envoy", which is the default
unfoldable pub is_envoy : ListenerSpec → Bool
is_envoy s = str_eq s.ingress_controller "" || str_eq s.ingress_controller "envoy"

-- GetAccessMethod() == LoadBalancer, which is the default
unfoldable pub is_load_balancer : ExternalListener → Bool
is_load_balancer l = str_eq l.access_method "" || str_eq l.access_method "LoadBalancer"

unfoldable pub get_external_port_for_broker : ℕ → ℕ → ℕ
get_external_port_for_broker start id = (start + id) % 2 ^ 32

-- containerPorts[port] += 1
unfoldable pub count_port : ℕ → (ℕ → ℕ) → ℕ → ℕ
count_port port counts p = if p == port then suc (counts p) else counts p

-- The loops over the listeners, from the index i on: internal ports, then external ones.
unfoldable pub check_external_ports : ℕ → (ℕ → ℕ) → List ExternalListener → List FieldError
check_external_ports i counts [] = []
check_external_ports i counts (l ∷ ls) =
    let rest = check_external_ports (suc i) (count_port l.container_port counts) ls in
    if ltb 1 (count_port l.container_port counts l.container_port)
    then duplicate_external i ∷ rest
    else rest

unfoldable pub check_internal_ports : ℕ → (ℕ → ℕ) → List ℕ → List ExternalListener → List FieldError
check_internal_ports i counts [] ls = check_external_ports 0 counts ls
check_internal_ports i counts (port ∷ ports) ls =
    let rest = check_internal_ports (suc i) (count_port port counts) ports ls in
    if ltb 1 (count_port port counts port) then duplicate_internal i ∷ rest else rest

unfoldable pub check_unique_listener_container_port : ListenerSpec → List FieldError
check_unique_listener_container_port s =
    check_internal_ports 0 (λ p. 0) s.internal_ports s.external_listeners

unfoldable pub out_of_range_ids : ExternalListener → List ℕ → List ℕ
out_of_range_ids l [] = []
out_of_range_ids l (id ∷ ids) =
    let port = get_external_port_for_broker l.external_starting_port id in
    let rest = out_of_range_ids l ids in if ltb port 1 || ltb 65535 port then id ∷ rest else rest

-- A broker is listed twice where its port is that of the target and one of envoy's.
unfoldable pub colliding_ids : ListenerSpec → ExternalListener → List ℕ → List ℕ
colliding_ids s l [] = []
colliding_ids s l (id ∷ ids) =
    let port = get_external_port_for_broker l.external_starting_port id in
    let rest = colliding_ids s l ids in
    let envoys =
      if is_envoy s && (port == get_envoy_admin_port s || port == get_envoy_health_check_port s)
      then id ∷ rest
      else rest in
    if port == get_ingress_controller_target_port l then id ∷ envoys else envoys

abbrev pub error_of : (List ℕ → FieldError) → List ℕ → List FieldError
error_of make [] = []
error_of make (id ∷ ids) = make (id ∷ ids) ∷ []

unfoldable pub check_starting_ports : ListenerSpec → ℕ → List ExternalListener → List FieldError
check_starting_ports s i [] = []
check_starting_ports s i (l ∷ ls) =
    error_of (out_of_range i) (out_of_range_ids l s.broker_ids)
    ++ (error_of (colliding i) (colliding_ids s l s.broker_ids)
        ++ check_starting_ports s (suc i) ls)

unfoldable pub check_external_listener_starting_port : ListenerSpec → List FieldError
check_external_listener_starting_port s = check_starting_ports s 0 s.external_listeners

unfoldable pub check_target_ports : ListenerSpec → ℕ → List ExternalListener → List FieldError
check_target_ports s i [] = []
check_target_ports s i (l ∷ ls) =
    let rest = check_target_ports s (suc i) ls in
    let port = get_ingress_controller_target_port l in
    let health =
      if is_load_balancer l && (port == get_envoy_health_check_port s)
      then target_is_health_check i ∷ rest
      else rest in
    if is_load_balancer l && (port == get_envoy_admin_port s)
    then target_is_admin i ∷ health
    else health

unfoldable pub check_target_ports_collision_for_envoy : ListenerSpec → List FieldError
check_target_ports_collision_for_envoy s =
    let targets = check_target_ports s 0 s.external_listeners in
    if is_envoy s
    then (if get_envoy_admin_port s == get_envoy_health_check_port s
        then admin_is_health_check ∷ targets
        else targets)
    else []

-- checkInternalAndExternalListeners, which ValidateCreate and ValidateUpdate reject by
unfoldable pub check_internal_and_external_listeners : ListenerSpec → List FieldError
check_internal_and_external_listeners s =
    check_unique_listener_container_port s
    ++ (check_external_listener_starting_port s ++ check_target_ports_collision_for_envoy s)
