-- ===== src/Kafka/Racks.antt =====
-- What the rolling upgrade asks about racks: getBrokerAzMap, getBrokerAz, existsFailedBrokerFromAnotherRack,
-- existsTerminatingPodFromAnotherAz and checkCCRackAwareDistributionGoal of
-- pkg/resources/kafka/kafka.go. A map by ids is one by their texts.
use koperator.Prelude.{
  ℕ, String, Option, none, some, Bool, true, ◌&&◌, ◌||◌, not, List, [], ◌∷◌, ltb, ◌==◌, str_eq,
  any_of, length, if◌then◌else◌,
}
use koperator.Prelude.Dict.{Dict, lookup, insert}
use koperator.Prelude.Decimal.{itoa}
use koperator.Prelude.Integers.{ℤ, pos, negsuc}
use koperator.Api.Failure.{Answer, ok, err, Error, failure}
use koperator.Api.Cluster.{Broker}
use koperator.Properties.Types.{Property, Properties}
use koperator.Properties.Store as Store
use koperator.Properties.Parser.{new_from_string}
use koperator.Task.Brokers.{string_slice_contains}
use koperator.Kafka.Pods.{Pod, parse_int}

abbrev pub AzMap : Type 0
AzMap = Dict String

abbrev pub put_rack : String → Option Property → AzMap → AzMap
put_rack id none m = m
put_rack id (some p) m = insert id p.value m

abbrev pub put_rack_of : String → Answer Properties → AzMap → AzMap
put_rack_of id (err e) m = m
put_rack_of id (ok p) m = put_rack id (Store.get "broker.rack" p) m

-- the loop over the brokers; `none` where the parser leaves the bounds of a line
unfoldable pub racks : List Broker → AzMap → Option AzMap
racks [] m = some m
racks (b ∷ bs) m = elim (new_from_string b.read_only_config) [
  | none ↦ none
  | some a ↦ racks bs (put_rack_of (itoa b.id) a m)
]

abbrev pub own_racks : List Broker → AzMap → AzMap
own_racks [] m = m
own_racks (b ∷ bs) m = own_racks bs (insert (itoa b.id) (itoa b.id) m)

unfoldable pub get_broker_az_map : List Broker → Option AzMap
get_broker_az_map bs = elim (racks bs []) [
  | none ↦ none
  | some m ↦ some (if length m == length bs then m else own_racks bs m)
]

-- m[id], which reads "" where the id is no key
abbrev pub az_of : AzMap → ℕ → String
az_of m id = elim (lookup (itoa id) m) [ none ↦ "" | some az ↦ az ]

abbrev pub label : String → Pod → String
label key p = elim (lookup key p.labels) [ none ↦ "" | some value ↦ value ]

abbrev pub az_of_number : AzMap → Option ℤ → Option String
az_of_number m none = none
az_of_number m (some (pos id)) = some (az_of m id)
az_of_number m (some (negsuc n)) = some ""

-- `none` is an error
unfoldable pub get_broker_az : Pod → AzMap → Option String
get_broker_az p m = az_of_number m (parse_int (label "brokerId" p))

unfoldable pub exists_failed_broker_from_another_rack : String → List ℕ → AzMap → Bool
exists_failed_broker_from_another_rack current impacted m =
    (str_eq current "" && ltb 0 (length impacted))
    || any_of (λ id. not (str_eq current (az_of m id))) impacted

abbrev pub is_elsewhere : String → Option String → Bool
is_elsewhere current none = true
is_elsewhere current (some az) = not (str_eq current az)

unfoldable pub exists_terminating_pod_from_another_az : String → List Pod → AzMap → Bool
exists_terminating_pod_from_another_az current pods m =
    (str_eq current "" && ltb 0 (length pods))
    || any_of (λ p. is_elsewhere current (get_broker_az p m)) pods

-- the goals that are ready, and the violated goals of each recent anomaly: fixable and not
pub record CcStatus : Type 0 where
  pub ready_goals : List String
  pub recent_goal_violations : List (List String × List String)

-- `goal` is the name of the RackAwareDistributionGoal in the client of Cruise Control.
-- The answer has no state where Cruise Control takes the request for an asynchronous one: then a nil
-- pointer is followed, which gives `none`.
unfoldable pub check_cc_rack_aware_distribution_goal :
    String → Answer (Option CcStatus) → Option (Option Error)
check_cc_rack_aware_distribution_goal goal (err e) = some (some e)
check_cc_rack_aware_distribution_goal goal (ok none) = none
check_cc_rack_aware_distribution_goal goal (ok (some s)) =
    if not (string_slice_contains s.ready_goals goal)
    then some (some (failure "RackAwareDistributionGoal is not ready"))
    else if any_of (λ v. string_slice_contains v.0 goal || string_slice_contains v.1 goal)
        s.recent_goal_violations
    then some (some (failure "RackAwareDistributionGoal is violated"))
    else some none
