-- ===== src/Task/Brokers.antt =====
-- What the task controller asks about brokers: FilterControllerOnlyNodes and
-- GetBrokerFromKafkaClusterSpec of pkg/util/util.go, GetBrokerConfig and IsControllerOnlyNode of
-- api/v1beta1/kafkacluster_types.go, and getUnavailableBrokers, checkBrokerLogDirsAvailability and
-- brokersJBODSelector of controllers/cruisecontroltask_controller.go.
use Prim.Native.Char.{code}
use koperator.Prelude.{
  ℕ, String, Option, none, some, Bool, true, false, ◌&&◌, ◌||◌, not, List, [], ◌∷◌, map, ◌==◌, ltb,
  str_eq, any_of, keep, if◌then◌else◌,
}
use koperator.Prelude.Dict.{Dict, lookup, insert}
use koperator.Prelude.Decimal.{itoa}
use koperator.Api.Failure.{Answer, ok, err, failure}
use koperator.Api.Cluster.{Broker, BrokerConfig, KafkaClusterSpec}

unfoldable pub get_broker : String → List Broker → Option Broker
get_broker id [] = none
get_broker id (b ∷ bs) =
    let rest = get_broker id bs in if str_eq id (itoa b.id) then some b else rest

-- What mergo.Merge and the merges of affinity and environment make of a broker's configuration and
-- that of its group is an argument.
abbrev pub Merge : Type 0
Merge = BrokerConfig → BrokerConfig → Answer BrokerConfig

abbrev pub own_config : Option BrokerConfig → BrokerConfig
own_config none = record { roles = [] }
own_config (some c) = c

-- GetBrokerConfig; the pointer that it returns can be nil
unfoldable pub get_broker_config : Merge → KafkaClusterSpec → Broker → Answer (Option BrokerConfig)
get_broker_config merge spec b =
    if str_eq b.broker_config_group ""
    then ok b.broker_config
    else elim (lookup b.broker_config_group spec.broker_config_groups) [
      | none ↦ err (failure "missing brokerConfigGroup")
      | some group ↦ elim (merge (own_config b.broker_config) group) [
        | err e ↦ err e
        | ok c ↦ ok (some c)
      ]
    ]

-- api/util StringSliceContains
abbrev pub string_slice_contains : List String → String → Bool
string_slice_contains l s = any_of (λ v. str_eq v s) l

unfoldable pub is_controller_only_node : BrokerConfig → Bool
is_controller_only_node c =
    string_slice_contains c.roles "controller" && not (string_slice_contains c.roles "broker")

-- One turn of the loop, for the ids that are left and those found behind it. `none` is the panic at
-- a nil configuration.
abbrev pub keep_node :
    Broker
    → Answer (Option BrokerConfig)
    → Option (Answer (List String))
    → Option (Answer (List String))
keep_node b (err e) rest = some (err e)
keep_node b (ok none) rest = none
keep_node b (ok (some c)) none = none
keep_node b (ok (some c)) (some (err e)) = some (err e)
keep_node b (ok (some c)) (some (ok ids)) =
    if is_controller_only_node c then some (ok ids) else some (ok (itoa b.id ∷ ids))

-- FilterControllerOnlyNodes; an id with no broker is left out
unfoldable pub filter_controller_only_nodes :
    Merge → KafkaClusterSpec → List String → Option (Answer (List String))
filter_controller_only_nodes merge spec [] = some (ok [])
filter_controller_only_nodes merge spec (id ∷ ids) =
    let rest = filter_controller_only_nodes merge spec ids in
    elim (get_broker id spec.brokers) [
      | none ↦ rest
      | some b ↦ keep_node b (get_broker_config merge spec b) rest
    ]

-- the ids that are not available, as getUnavailableBrokers lists them
unfoldable pub unavailable_of : List String → List String → List String
unavailable_of available ids = keep (λ id. not (string_slice_contains available id)) ids

-- unicode.IsSpace
unfoldable pub is_space : ℕ → Bool
is_space c =
    (ltb 8 c && ltb c 14)
    || (c == 32)
    || (c == 133)
    || (c == 160)
    || (c == 5760)
    || (ltb 8191 c && ltb c 8203)
    || (c == 8232)
    || (c == 8233)
    || (c == 8239)
    || (c == 8287)
    || (c == 12288)

unfoldable pub trim_left : String → String
trim_left String.[] = ""
trim_left (String.◌∷◌ c s) =
    let rest = trim_left s in if is_space (code c) then rest else String.◌∷◌ c s

-- A space is dropped where nothing but spaces follows.
unfoldable pub trim_right : String → String
trim_right String.[] = ""
trim_right (String.◌∷◌ c s) =
    let rest = trim_right s in if is_space (code c) && str_eq rest "" then "" else String.◌∷◌ c rest

-- strings.TrimSpace
abbrev pub trim_space : String → String
trim_space s = trim_right (trim_left s)

-- strings.HasPrefix
unfoldable pub has_prefix : String → String → Bool
has_prefix s String.[] = true
has_prefix String.[] (String.◌∷◌ d p) = false
has_prefix (String.◌∷◌ c s) (String.◌∷◌ d p) =
    let rest = has_prefix s p in if code c == code d then rest else false

-- The log directories of the brokers that Cruise Control reports as online; a broker with no such
-- list has no entry.
abbrev pub LogDirs : Type 0
LogDirs = Dict (List String)

unfoldable pub is_on_volume : String → String → Bool
is_on_volume volume dir = has_prefix (trim_space dir) (trim_space volume)

-- the first online directory on a volume
unfoldable pub find_dir : String → List String → Option String
find_dir volume [] = none
find_dir volume (dir ∷ dirs) =
    let rest = find_dir volume dirs in if is_on_volume volume dir then some dir else rest

-- checkBrokerLogDirsAvailability, on the broker and the volume of each rebalance task
unfoldable pub unavailable_log_dirs : LogDirs → List (String × String) → List String
unavailable_log_dirs dirs [] = []
unavailable_log_dirs dirs ((id, volume) ∷ ts) =
    let rest = unavailable_log_dirs dirs ts in
    elim (lookup id dirs) [
      | none ↦ rest
      | some online ↦ if any_of (is_on_volume volume) online then rest else id ∷ rest
    ]

-- An entry of the capacity configuration as encoding/json decodes it: no JSON object, an object whose
-- broker id is no string or missing, or one with an id and what stands under capacity and DISK:
-- nothing, an object, or something else.
pub data DiskCapacity : Type 0 where
  no_disk jbod_disk other_disk : DiskCapacity

pub data BrokerCapacity : Type 0 where
  not_an_object broker_id_malformed no_broker_id : BrokerCapacity
  broker_capacity : String → DiskCapacity → BrokerCapacity

-- brokerIsJBOD[id] = jbod, where the id is a key
unfoldable pub mark : String → Bool → Dict Bool → Dict Bool
mark id jbod [] = []
mark id jbod ((i, b) ∷ m) =
    let rest = mark id jbod m in if str_eq i id then (i, jbod) ∷ rest else (i, b) ∷ rest

unfoldable pub mark_all : Bool → Dict Bool → Dict Bool
mark_all jbod m = map (λ e. (e.0, jbod)) m

unfoldable pub mark_capacity : String → DiskCapacity → Dict Bool → Dict Bool
mark_capacity id other_disk m = mark id false (if str_eq id "-1" then mark_all false m else m)
mark_capacity id jbod_disk m = mark id true m
mark_capacity id no_disk m = m

unfoldable pub mark_capacities : List BrokerCapacity → Dict Bool → Answer (Dict Bool)
mark_capacities [] m = ok m
mark_capacities (not_an_object ∷ cs) m = mark_capacities cs m
mark_capacities (no_broker_id ∷ cs) m = mark_capacities cs m
mark_capacities (broker_id_malformed ∷ cs) m =
    err (failure "could not retrieve broker Id from broker capacity configuration")
mark_capacities (broker_capacity id disk ∷ cs) m = mark_capacities cs (mark_capacity id disk m)

-- the map that has `true` under every id
unfoldable pub all_jbod : List String → Dict Bool → Dict Bool
all_jbod [] m = m
all_jbod (id ∷ ids) m = all_jbod ids (insert id true m)

unfoldable pub split_jbod : Dict Bool → List String × List String
split_jbod m = (map (λ e. e.0) (keep (λ e. e.1) m), map (λ e. e.0) (keep (λ e. not e.1) m))

-- brokersJBODSelector; `unmarshal` is json.Unmarshal into a JBODInvariantCapacityConfig
unfoldable pub brokers_jbod_selector :
    (String → Answer (List BrokerCapacity))
    → List String
    → String
    → Answer (List String × List String)
brokers_jbod_selector unmarshal ids config =
    if str_eq config "" then ok (ids, []) else elim (unmarshal config) [
      | err e ↦ err e
      | ok cs ↦ elim (mark_capacities cs (all_jbod ids [])) [
        | err e ↦ err e
        | ok m ↦ ok (split_jbod m)
      ]
    ]
