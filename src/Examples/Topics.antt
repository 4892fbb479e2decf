-- ===== src/Examples/Topics.antt =====
-- The theorems on the reconciler of topics at concrete inputs.
use koperator.Prelude.{
  ℕ, ◌≡◌, ◌≢◌, ◌⊎◌, refl, true, false, none, some, List, [], ◌∷◌, String, arith, length, sym, ap,
  ◌∙◌,
}
use koperator.Prelude.Integers.{pos}
use koperator.Api.Failure.{ok}
use koperator.Webhook.Topic.{KafkaTopic, TopicDetail}
use koperator.Topics.World.{Instance, Env, updated, updated_status, created, deleted}
use koperator.Topics.Finalizers.{check_finalizers, string_slice_remove}
use koperator.Topics.Reconcile.{reconcile}
use koperator.Topics.Managed.{kafka_calls, updates, StatusOnly, unmanaged-kept, released-deleted}

abbrev topic : String → KafkaTopic
topic manager = record {
  name = "orders";
  namespace = "kafka";
  annotations = ("managedBy", manager) ∷ [];
  is_deleted = true;
  is_remote = false;
  topic = "orders";
  partitions = pos 4;
  replication_factor = pos 2;
  config = [];
  cluster_ref = record { name = "main"; namespace = "" };
}

abbrev instance_of : String → Instance
instance_of manager = record {
  topic = topic manager;
  labels = none;
  finalizers = "finalizer.kafkatopics.kafka.banzaicloud.io" ∷ [];
  managed_by = "";
  state = "created";
}

abbrev detail : TopicDetail
detail = record { num_partitions = pos 4; replication_factor = pos 2; config_entries = [] }

-- a server that keeps what it is sent
abbrev served : String → Env
served manager = record {
  get = λ t. ok (instance_of manager);
  lookup_kafka_cluster = λ t name namespace. ok ("main", "kafka");
  update = λ t i. ok i;
  update_status = λ t i. ok i;
  new_kafka_from_cluster = λ t. none;
  get_topic = λ t name. ok (some detail);
  ensure_partition_count = λ t name n. none;
  ensure_topic_config = λ t name c. none;
  create_topic = λ t name n r c. none;
  delete_topic = λ t name. none;
}

-- A string that stands twice at the end of the list leads to a panic.
removed_once : string_slice_remove ("a" ∷ "b" ∷ "c" ∷ []) "b" ≡ some ("a" ∷ "c" ∷ [])
unfolding string_slice_remove koperator.Topics.Finalizers.remove_from
removed_once = refl

removed_twice : string_slice_remove ("a" ∷ "b" ∷ "b" ∷ []) "b" ≡ none
unfolding string_slice_remove koperator.Topics.Finalizers.remove_from
removed_twice = refl

status_only : StatusOnly (served "terraform")
status_only t i k h = ground arith

unmanaged-kept_example : kafka_calls (reconcile (served "terraform") []).1 ≡ []
unfolding koperator.Topics.World.is_topic_managed_by_koperator koperator.Prelude.Dict.lookup
    koperator.Webhook.Topic.equal_folded
unmanaged-kept_example =
    unmanaged-kept (served "terraform") (instance_of "terraform") [] status_only refl refl

one-not_none : (n : ℕ) → n ≡ 1 → n ≢ 0
one-not_none n k h = omega arith

-- The finalizer is removed in one update.
released_once :
    length (updates (check_finalizers (served "koperator") (instance_of "koperator") []).1) ≡ 1
unfolding check_finalizers koperator.Topics.Finalizers.finalize_kafka_topic
    koperator.Topics.Finalizers.remove_finalizer string_slice_remove
    koperator.Topics.Finalizers.remove_from koperator.Topics.World.is_topic_managed_by_koperator
    koperator.Prelude.Dict.lookup koperator.Webhook.Topic.equal_folded
released_once = refl

released : updates (check_finalizers (served "koperator") (instance_of "koperator") []).1 ≢ []
released h =
    one-not_none
      (length (updates (check_finalizers (served "koperator") (instance_of "koperator") []).1))
      released_once (ap length h)

released-deleted_example :
    ((served "koperator").get_topic [] "orders" ≡ ok none)
    ⊎ ((served "koperator").delete_topic [] "orders" ≡ none)
unfolding koperator.Topics.World.is_topic_managed_by_koperator koperator.Prelude.Dict.lookup
    koperator.Webhook.Topic.equal_folded
released-deleted_example =
    released-deleted (served "koperator") (instance_of "koperator") [] refl released
