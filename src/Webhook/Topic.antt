-- ===== src/Webhook/Topic.antt =====
-- The validation of a KafkaTopic: pkg/webhooks/kafkatopic_validator.go. What the API server and the
-- Kafka cluster answer is an argument.
pub mod Sound
use Prim.Native.Char.{code}
use koperator.Prelude.{
  ℕ, ◌+◌, String, Option, none, some, Bool, true, false, ◌&&◌, ◌||◌, not, List, [], ◌∷◌, ◌++◌, ltb,
  leb, ◌==◌, str_eq, if◌then◌else◌, is_some,
}
use koperator.Prelude.Dict.{Dict, lookup}
use koperator.Prelude.Integers.{ℤ, pos, negsuc, less_int, equal_int, int16}
use koperator.Api.Failure.{Answer, ok, err, Error, failure, api, ApiError, not_found, is_not_found}

pub record ClusterRef : Type 0 where
  pub name : String
  pub namespace : String

pub record KafkaTopic : Type 0 where
  pub name : String
  pub namespace : String
  pub annotations : Dict String
  pub is_deleted : Bool  -- IsMarkedForDeletion
  pub is_remote : Bool  -- ObjectManagedByClusterRegistry
  pub topic : String  -- Spec.Name
  pub partitions : ℤ
  pub replication_factor : ℤ
  pub config : Dict String
  pub cluster_ref : ClusterRef

-- what is asked of the KafkaCluster
pub record ClusterMeta : Type 0 where
  pub is_deleted : Bool
  pub is_remote : Bool

-- sarama's description of a topic; its configuration is compared by an argument
pub record TopicDetail : Type 0 where
  pub num_partitions : ℤ
  pub replication_factor : ℤ
  pub config_entries : Dict String

pub data FieldError : Type 0 where
  partitions_out_of_range replication_out_of_range no_cluster remote_cluster duplicate_topic :
      FieldError
  not_managed partitions_differ replication_differs config_differs : FieldError
  partitions_decreased replication_changed too_few_brokers : FieldError

-- the answer of the API server to a reading
pub data Found {ℓ} (A : Type ℓ) : Type ℓ where
  found : A → Found A
  unread : ApiError → Found A

pub record Env : Type 0 where
  pub lookup_kafka_cluster : String → String → Found ClusterMeta
  -- the KafkaTopics whose spec.name is the given one
  pub list_topics : String → Answer (List KafkaTopic)
  pub new_kafka_from_cluster : Option Error
  pub get_topic : String → Answer (Option TopicDetail)
  pub get_topic_cr : String → String → Option ApiError
  pub num_brokers : ℕ
  -- cmp.Diff with EquateEmpty finds no difference
  pub same_config : Dict String → Dict String → Bool

-- an error in the list, where the test holds
abbrev pub error_if : Bool → FieldError → List FieldError
error_if true e = e ∷ []
error_if false e = []

-- below the minimum -1, or 0
unfoldable pub out_of_range : ℤ → Bool
out_of_range n = less_int n (negsuc 0) || equal_int n (pos 0)

-- unicode.ToLower, as far as its result is one of the letters of "koperator"
abbrev pub lower_code : ℕ → ℕ
lower_code c = if ltb 64 c && ltb c 91 then c + 32 else if c == 8490 then 107 else c

unfoldable pub equal_folded : String → String → Bool
equal_folded String.[] String.[] = true
equal_folded String.[] (String.◌∷◌ d t) = false
equal_folded (String.◌∷◌ c s) String.[] = false
equal_folded (String.◌∷◌ c s) (String.◌∷◌ d t) =
    let rest = equal_folded s t in if lower_code (code c) == code d then rest else false

unfoldable pub is_managed : Dict String → Bool
is_managed annotations = elim (lookup "managedBy" annotations) [
  | none ↦ false
  | some manager ↦ equal_folded manager "koperator"
]

abbrev pub cluster_namespace : KafkaTopic → String
cluster_namespace t =
    if str_eq t.cluster_ref.namespace "" then t.namespace else t.cluster_ref.namespace

-- another resource for the same topic of the same cluster
unfoldable pub is_duplicate : KafkaTopic → KafkaTopic → Bool
is_duplicate t other =
    not (str_eq other.name t.name && str_eq other.namespace t.namespace)
    && not other.is_remote
    && str_eq other.cluster_ref.name t.cluster_ref.name
    && ((str_eq other.namespace (cluster_namespace t) && str_eq other.cluster_ref.namespace "")
        || str_eq other.cluster_ref.namespace (cluster_namespace t))

unfoldable pub find_duplicate : KafkaTopic → List KafkaTopic → Option KafkaTopic
find_duplicate t [] = none
find_duplicate t (other ∷ others) =
    let rest = find_duplicate t others in if is_duplicate t other then some other else rest

-- the checks of a resource that is new for a topic that exists
unfoldable pub check_new : Env → KafkaTopic → TopicDetail → List FieldError
check_new env t existing =
    error_if (not (is_managed t.annotations)) not_managed
    ++ (error_if (not (equal_int existing.num_partitions t.partitions)) partitions_differ
        ++ (error_if (not (equal_int existing.replication_factor (int16 t.replication_factor)))
              replication_differs
            ++ error_if (not (env.same_config existing.config_entries t.config)) config_differs))

-- the checks that every change of a topic passes
unfoldable pub check_change : KafkaTopic → TopicDetail → List FieldError
check_change t existing =
    error_if (less_int t.partitions existing.num_partitions) partitions_decreased
    ++ error_if (not (equal_int existing.replication_factor (int16 t.replication_factor)))
        replication_changed

abbrev pub first_errors : List FieldError → List FieldError → List FieldError
first_errors [] later = later
first_errors (e ∷ es) later = e ∷ es

unfoldable pub check_existing : Env → KafkaTopic → TopicDetail → Answer (List FieldError)
check_existing env t existing = elim (env.get_topic_cr t.name t.namespace) [
  | none ↦ ok (check_change t existing)
  | some e ↦
      if is_not_found e
      then ok (first_errors (check_new env t existing) (check_change t existing))
      else err (api e)
]

unfoldable pub check_kafka : Env → KafkaTopic → Answer (List FieldError)
check_kafka env t = elim env.new_kafka_from_cluster [
  | some e ↦ err e
  | none ↦ elim (env.get_topic t.topic) [
    | err e ↦ err e
    | ok none ↦ ok (error_if (less_int (pos env.num_brokers) t.replication_factor) too_few_brokers)
    | ok (some existing) ↦ check_existing env t existing
  ]
]

abbrev pub appended : List FieldError → Answer (List FieldError) → Answer (List FieldError)
appended es (err e) = err e
appended es (ok more) = ok (es ++ more)

unfoldable pub check_existing_kafka_topic_crs : Env → KafkaTopic → Answer (List FieldError)
check_existing_kafka_topic_crs env t = elim (env.list_topics t.topic) [
  | err e ↦ err e
  | ok topics ↦ ok (error_if (is_some (find_duplicate t topics)) duplicate_topic)
]

unfoldable pub range_errors : KafkaTopic → List FieldError
range_errors t =
    error_if (out_of_range t.partitions) partitions_out_of_range
    ++ error_if (out_of_range t.replication_factor) replication_out_of_range

unfoldable pub validate_in : Env → KafkaTopic → ClusterMeta → Answer (List FieldError)
validate_in env t cluster =
    if cluster.is_deleted then ok [] else elim (check_existing_kafka_topic_crs env t) [
      | err e ↦ err e
      | ok duplicate ↦
          appended (range_errors t ++ (error_if cluster.is_remote remote_cluster ++ duplicate))
            (check_kafka env t)
    ]

unfoldable pub validate_kafka_topic : Env → KafkaTopic → Answer (List FieldError)
validate_kafka_topic env t =
    elim (env.lookup_kafka_cluster t.cluster_ref.name (cluster_namespace t)) [
      | found cluster ↦ validate_in env t cluster
      | unread e ↦
          if is_not_found e
          then (if t.is_deleted then ok [] else ok (range_errors t ++ (no_cluster ∷ [])))
          else err (api e)
    ]

-- what the API server is told
pub data Verdict : Type 0 where
  admitted : Verdict
  internal_error : Error → Verdict
  invalid : List FieldError → Verdict

unfoldable pub validate : Env → KafkaTopic → Verdict
validate env t = elim (validate_kafka_topic env t) [
  | err e ↦ internal_error e
  | ok [] ↦ admitted
  | ok (e ∷ es) ↦ invalid (e ∷ es)
]
