-- ===== src/Webhook/Topic/Sound.antt =====
-- What an admitted topic satisfies, and a topic that is never admitted again.
use koperator.Prelude.{
  ℕ, ◌≡◌, ◌≢◌, refl, ◌⊎◌, inl, inr, Option, none, some, Bool, true, false, not, List, [], ◌∷◌, ◌++◌,
  arith, is_some, All, Option-cases,
}
use koperator.Prelude.Integers.{ℤ, pos, negsuc, less_int, equal_int, int16}
use koperator.Api.Failure.{Answer, ok, err}
use koperator.Webhook.Topic.{
  KafkaTopic, ClusterMeta, TopicDetail, FieldError, Env, found, error_if, out_of_range, is_managed,
  cluster_namespace, is_duplicate, find_duplicate, check_new, check_change, first_errors,
  check_existing, check_kafka, appended, check_existing_kafka_topic_crs, range_errors, validate_in,
  validate_kafka_topic, Verdict, admitted, internal_error, invalid, validate, not_managed,
  partitions_decreased, replication_changed, too_few_brokers, remote_cluster, duplicate_topic,
  partitions_out_of_range, replication_out_of_range,
}

error_if-nil : (b : Bool) (e : FieldError) → error_if b e ≡ [] → b ≡ false
error_if-nil true e h = ground arith
error_if-nil false e h = refl

append-nil {ℓ} : {A : Type ℓ} (xs ys : List A) → xs ++ ys ≡ [] → (xs ≡ []) × (ys ≡ [])
append-nil [] ys h = (refl, h)
append-nil (x ∷ xs) ys h = ground arith

appended-nil :
    (es : List FieldError) (a : Answer (List FieldError))
    → appended es a ≡ ok []
    → (es ≡ []) × (a ≡ ok [])
appended-nil es (err e) h = ground arith
appended-nil [] (ok more) h = (refl, h)
appended-nil (e ∷ es) (ok more) h = ground arith

first_errors-nil :
    (es later : List FieldError) → first_errors es later ≡ [] → (es ≡ []) × (later ≡ [])
first_errors-nil [] later h = (refl, h)
first_errors-nil (e ∷ es) later h = ground arith

verdict_of : Answer (List FieldError) → Verdict
verdict_of (err e) = internal_error e
verdict_of (ok []) = admitted
verdict_of (ok (e ∷ es)) = invalid (e ∷ es)

verdict-admitted : (a : Answer (List FieldError)) → verdict_of a ≡ admitted → a ≡ ok []
unfolding verdict_of
verdict-admitted (err e) h = ground arith
verdict-admitted (ok []) h = refl
verdict-admitted (ok (e ∷ es)) h = ground arith

not_duplicate :
    (t : KafkaTopic) (topics : List KafkaTopic)
    → is_some (find_duplicate t topics) ≡ false
    → All (λ other. is_duplicate t other ≡ false) topics
unfolding find_duplicate
not_duplicate t [] h = tt
not_duplicate t (other ∷ topics) h = (ground arith, not_duplicate t topics (ground arith))

-- The topic goes with what Kafka has under its name: its partitions are not decreased and its
-- replication factor is kept, as far as 16 bits tell, and a resource that is new for it says that it
-- manages it; or there is no such topic, and the brokers suffice.
abbrev pub GoesWith : Env → KafkaTopic → Option TopicDetail → Type 0
GoesWith env t none = less_int (pos env.num_brokers) t.replication_factor ≡ false
GoesWith env t (some d) =
    (less_int t.partitions d.num_partitions ≡ false)
    × ((equal_int d.replication_factor (int16 t.replication_factor) ≡ true)
        × ((env.get_topic_cr t.name t.namespace ≡ none) ⊎ (is_managed t.annotations ≡ true)))

pub record Sound (env : Env) (t : KafkaTopic) (cluster : ClusterMeta) (topics : List KafkaTopic)
    (existing : Option TopicDetail) : Type 0 where
  pub partitions_in_range : out_of_range t.partitions ≡ false
  pub replication_in_range : out_of_range t.replication_factor ≡ false
  pub not_remote : cluster.is_remote ≡ false
  pub unique : All (λ other. is_duplicate t other ≡ false) topics
  pub goes_with : GoesWith env t existing

negative_first : (a b : ℤ) (n : ℕ) → a ≡ negsuc 0 → b ≡ pos n → less_int a b ≢ false
unfolding less_int
negative_first a b n p q h = ground arith

module _ (env : Env) (t : KafkaTopic) where
  change-kept :
      (d : TopicDetail)
      → check_change t d ≡ []
      → (less_int t.partitions d.num_partitions ≡ false)
        × (equal_int d.replication_factor (int16 t.replication_factor) ≡ true)
  unfolding check_change
  change-kept d h =
      let parts =
        append-nil (error_if (less_int t.partitions d.num_partitions) partitions_decreased)
          (error_if (not (equal_int d.replication_factor (int16 t.replication_factor)))
            replication_changed)
          h in
      let kept =
        error_if-nil (not (equal_int d.replication_factor (int16 t.replication_factor)))
          replication_changed parts.1 in
      (
        error_if-nil (less_int t.partitions d.num_partitions) partitions_decreased parts.0,
        ground arith,
      )

  new-managed : (d : TopicDetail) → check_new env t d ≡ [] → is_managed t.annotations ≡ true
  unfolding check_new
  new-managed d h =
      let parts = append-nil (error_if (not (is_managed t.annotations)) not_managed) _ h in
      let managed = error_if-nil (not (is_managed t.annotations)) not_managed parts.0 in
      ground arith

  existing-GoesWith : (d : TopicDetail) → check_existing env t d ≡ ok [] → GoesWith env t (some d)
  unfolding check_existing
  existing-GoesWith d h = elim (Option-cases (env.get_topic_cr t.name t.namespace)) [
    | inl e ↦ let kept = change-kept d (ground arith) in (kept.0, (kept.1, inl e))
    | inr (e, q) ↦
        let both = first_errors-nil (check_new env t d) (check_change t d) (ground arith) in
        let kept = change-kept d both.1 in (kept.0, (kept.1, inr (new-managed d both.0)))
  ]

  kafka-GoesWith :
      (existing : Option TopicDetail)
      → env.get_topic t.topic ≡ ok existing
      → check_kafka env t ≡ ok []
      → GoesWith env t existing
  unfolding check_kafka
  kafka-GoesWith none g h = elim (Option-cases env.new_kafka_from_cluster) [
    | inl e ↦
        error_if-nil (less_int (pos env.num_brokers) t.replication_factor) too_few_brokers
          (ground arith)
    | inr (e, q) ↦ ground arith
  ]
  kafka-GoesWith (some d) g h = elim (Option-cases env.new_kafka_from_cluster) [
    | inl e ↦ existing-GoesWith d (ground arith)
    | inr (e, q) ↦ ground arith
  ]

  duplicates-nil :
      (topics : List KafkaTopic)
      → env.list_topics t.topic ≡ ok topics
      → check_existing_kafka_topic_crs env t
        ≡ ok (error_if (is_some (find_duplicate t topics)) duplicate_topic)
  unfolding check_existing_kafka_topic_crs
  duplicates-nil topics l = ground arith

  validated-Sound :
      (cluster : ClusterMeta) (topics : List KafkaTopic) (existing : Option TopicDetail)
      → cluster.is_deleted ≡ false
      → env.list_topics t.topic ≡ ok topics
      → env.get_topic t.topic ≡ ok existing
      → validate_in env t cluster ≡ ok []
      → Sound env t cluster topics existing
  unfolding validate_in range_errors
  validated-Sound cluster topics existing alive l g h =
      let dups = error_if (is_some (find_duplicate t topics)) duplicate_topic in
      let listed = duplicates-nil topics l in
      let remote = error_if cluster.is_remote remote_cluster in
      let parts =
        appended-nil (range_errors t ++ (remote ++ dups)) (check_kafka env t) (ground arith) in
      let outer = append-nil (range_errors t) (remote ++ dups) parts.0 in
      let inner = append-nil remote dups outer.1 in
      let ranges =
        append-nil (error_if (out_of_range t.partitions) partitions_out_of_range)
          (error_if (out_of_range t.replication_factor) replication_out_of_range) outer.0 in
      record {
        partitions_in_range =
            error_if-nil (out_of_range t.partitions) partitions_out_of_range ranges.0;
        replication_in_range =
            error_if-nil (out_of_range t.replication_factor) replication_out_of_range ranges.1;
        not_remote = error_if-nil cluster.is_remote remote_cluster inner.0;
        unique =
            not_duplicate t topics
              (error_if-nil (is_some (find_duplicate t topics)) duplicate_topic inner.1);
        goes_with = kafka-GoesWith existing g parts.1;
      }

  admitted-nil : validate env t ≡ admitted → validate_kafka_topic env t ≡ ok []
  unfolding validate verdict_of
  admitted-nil h = verdict-admitted (validate_kafka_topic env t) h

  -- A topic that is admitted, where its cluster is there and is not being deleted and the other
  -- readings are answered, has a partition count and a replication factor that are -1 or positive,
  -- names no remote cluster, repeats no other resource, and goes with what Kafka has under its name: the
  -- partitions are not decreased, the replication factor is kept, up to 16 bits, and a resource that is
  -- new for an existing topic says that it manages it; or the brokers suffice for a new topic.
  pub validate-Sound :
      (cluster : ClusterMeta) (topics : List KafkaTopic) (existing : Option TopicDetail)
      → env.lookup_kafka_cluster t.cluster_ref.name (cluster_namespace t) ≡ found cluster
      → cluster.is_deleted ≡ false
      → env.list_topics t.topic ≡ ok topics
      → env.get_topic t.topic ≡ ok existing
      → validate env t ≡ admitted
      → Sound env t cluster topics existing
  unfolding validate_kafka_topic
  validate-Sound cluster topics existing c alive l g h =
      let none_found = admitted-nil h in
      validated-Sound cluster topics existing alive l g (ground arith)

  -- A topic that asks for the default number of partitions, which is -1, is never admitted once Kafka has
  -- it, where its cluster is there and is not being deleted and the resources are listed.
  pub default_partitions-refused :
      (cluster : ClusterMeta) (topics : List KafkaTopic) (d : TopicDetail) (n : ℕ)
      → env.lookup_kafka_cluster t.cluster_ref.name (cluster_namespace t) ≡ found cluster
      → cluster.is_deleted ≡ false
      → env.list_topics t.topic ≡ ok topics
      → env.get_topic t.topic ≡ ok (some d)
      → d.num_partitions ≡ pos n
      → t.partitions ≡ negsuc 0
      → validate env t ≢ admitted
  default_partitions-refused cluster topics d n c alive l g k p h =
      negative_first t.partitions d.num_partitions n p k
        (validate-Sound cluster topics (some d) c alive l g h).goes_with.0
