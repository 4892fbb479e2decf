-- ===== src/Topics/Managed.antt =====
-- Which topics the reconciler changes in Kafka, and when it lets a resource go.
use koperator.Prelude.{
  String, ◌≡◌, ◌≢◌, refl, ap, ◌∙◌, ◌⊎◌, inl, inr, none, some, Bool, true, false, List, [], ◌∷◌,
  arith, str_eq, Bool-cases, Option-cases, if◌then◌else◌,
}
use koperator.Api.Failure.{ok, err, Error, Answer-cases}
use koperator.Task.Brokers.{string_slice_contains}
use koperator.Webhook.Topic.{TopicDetail, cluster_namespace}
use koperator.Topics.World.{
  Instance, Call, updated, updated_status, deleted, Trace, Env, Run, done, failed,
  is_topic_managed_by_koperator,
}
use koperator.Topics.Finalizers.{
  topic_finalizer, string_slice_remove, run_update, remove_finalizer, finalize_kafka_topic,
  check_finalizers,
}
use koperator.Topics.Reconcile.{
  reconcile_connected, manager_of, reconcile_in, reconcile_instance, reconcile,
}

-- the calls that change Kafka, and those that change the resource
abbrev pub kafka_calls : Trace → List Call
kafka_calls [] = []
kafka_calls (updated i ∷ t) = kafka_calls t
kafka_calls (updated_status i ∷ t) = kafka_calls t
kafka_calls (c ∷ t) = c ∷ kafka_calls t

abbrev pub updates : Trace → List Instance
updates [] = []
updates (updated i ∷ t) = i ∷ updates t
updates (_ ∷ t) = updates t

if-kept :
    (b : Bool) (x y : Run) (t : Trace)
    → kafka_calls x.1 ≡ kafka_calls t
    → kafka_calls y.1 ≡ kafka_calls t
    → kafka_calls (if b then x else y).1 ≡ kafka_calls t
if-kept true x y t kx ky = kx
if-kept false x y t kx ky = ky

module _ (env : Env) where
  run_update-kafka : (i : Instance) (t : Trace) → kafka_calls (run_update env i t).1 ≡ kafka_calls t
  run_update-kafka i t = elim (Answer-cases (env.update t i)) [
    | inl (k, q) ↦ rw (q, kafka_calls) refl
    | inr (e, q) ↦ rw (q, kafka_calls) refl
  ]

  remove_finalizer-kafka :
      (i : Instance) (t : Trace) → kafka_calls (remove_finalizer env i t).1 ≡ kafka_calls t
  unfolding remove_finalizer
  remove_finalizer-kafka i t =
      elim (Option-cases (string_slice_remove i.finalizers topic_finalizer)) [
        | inl q ↦ rw (q, kafka_calls) refl
        | inr (fs, q) ↦ rw (q, kafka_calls) (run_update-kafka (record i { finalizers = fs }) t)
      ]

  check_finalizers-kafka :
      (i : Instance) (t : Trace)
      → is_topic_managed_by_koperator i.topic ≡ false
      → kafka_calls (check_finalizers env i t).1 ≡ kafka_calls t
  unfolding check_finalizers
  check_finalizers-kafka i t h =
      elim (Bool-cases (string_slice_contains i.finalizers topic_finalizer)) [
        | inl q ↦ rw (q, h, kafka_calls) (remove_finalizer-kafka i t)
        | inr q ↦ rw (q, kafka_calls) refl
      ]

  connected-kafka :
      (c : String × String) (i : Instance) (t : Trace)
      → is_topic_managed_by_koperator i.topic ≡ false
      → kafka_calls (reconcile_connected env c i t).1 ≡ kafka_calls t
  unfolding reconcile_connected
  connected-kafka c i t h = elim (Option-cases (env.new_kafka_from_cluster t)) [
    | inl q ↦
        rw (q, h, kafka_calls)
          (if-kept i.topic.is_deleted (check_finalizers env i t) (done t) t
            (check_finalizers-kafka i t h) refl)
    | inr (e, q) ↦ rw (q, kafka_calls) refl
  ]

  -- What a successful update of the status answers has the spec and the metadata of what was sent.
  abbrev pub StatusOnly : Type 0
  StatusOnly = (t : Trace) (i k : Instance) → env.update_status t i ≡ ok k → k.topic ≡ i.topic

  in-kafka :
      (c : String × String) (i : Instance) (t : Trace)
      → StatusOnly
      → is_topic_managed_by_koperator i.topic ≡ false
      → kafka_calls (reconcile_in env c i t).1 ≡ kafka_calls t
  unfolding reconcile_in
  in-kafka c i t only h =
      let j = record i { managed_by = manager_of i } in
      elim (Bool-cases (str_eq i.managed_by (manager_of i))) [
        | inl s ↦ rw (s, kafka_calls) (connected-kafka c i t h)
        | inr s ↦ elim (Answer-cases (env.update_status t j)) [
          | inl (k, q) ↦
              rw (s, q, kafka_calls)
                (connected-kafka c k (updated_status j ∷ t)
                  (ap is_topic_managed_by_koperator (only t j k q) ∙ h))
          | inr (e, q) ↦ rw (s, q, kafka_calls) refl
        ]
      ]

  instance-kafka :
      (i : Instance) (t : Trace)
      → StatusOnly
      → is_topic_managed_by_koperator i.topic ≡ false
      → kafka_calls (reconcile_instance env i t).1 ≡ kafka_calls t
  unfolding reconcile_instance
  instance-kafka i t only h =
      elim (Answer-cases
        (env.lookup_kafka_cluster t i.topic.cluster_ref.name (cluster_namespace i.topic))) [
          | inl (c, q) ↦ rw (q, kafka_calls) (in-kafka c i t only h)
          | inr (e, q) ↦
              rw (q, kafka_calls)
                (if-kept i.topic.is_deleted (remove_finalizer env i t) (failed e t) t
                  (remove_finalizer-kafka i t) refl)
        ]

  -- Where an update of the status leaves the spec and the metadata as they are, a run for a topic that
  -- another manager has makes no call that changes Kafka, on any path, its deletion included.
  pub unmanaged-kept :
      (i : Instance) (t : Trace)
      → StatusOnly
      → env.get t ≡ ok i
      → is_topic_managed_by_koperator i.topic ≡ false
      → kafka_calls (reconcile env t).1 ≡ kafka_calls t
  unfolding reconcile
  unmanaged-kept i t only g h = rw (g, kafka_calls) (instance-kafka i t only h)

  finalize-unread :
      (i : Instance) (t : Trace) (e : Error)
      → env.get_topic t i.topic.topic ≡ err e
      → finalize_kafka_topic env i t ≡ (some e, t)
  unfolding finalize_kafka_topic
  finalize-unread i t e g = ground arith

  finalize-refused :
      (i : Instance) (t : Trace) (d : TopicDetail) (e : Error)
      → env.get_topic t i.topic.topic ≡ ok (some d)
      → env.delete_topic t i.topic.topic ≡ some e
      → finalize_kafka_topic env i t ≡ (some e, deleted i.topic.topic ∷ t)
  unfolding finalize_kafka_topic
  finalize-refused i t d e g k = ground arith

  -- Where the finalizers of a managed topic change the resource, Kafka had no such topic or deleted it
  -- without an error.
  pub released-deleted :
      (i : Instance) (t : Trace)
      → is_topic_managed_by_koperator i.topic ≡ true
      → updates (check_finalizers env i t).1 ≢ updates t
      → (env.get_topic t i.topic.topic ≡ ok none) ⊎ (env.delete_topic t i.topic.topic ≡ none)
  unfolding check_finalizers
  released-deleted i t h changed =
      elim (Bool-cases (string_slice_contains i.finalizers topic_finalizer)) [
        | inr q ↦ elim (changed (rw (q, updates) refl)) [ ]
        | inl q ↦ elim (Answer-cases (env.get_topic t i.topic.topic)) [
          | inr (e, g) ↦ elim (changed (rw (q, h, finalize-unread i t e g, updates) refl)) [ ]
          | inl (none, g) ↦ inl g
          | inl (some d, g) ↦ elim (Option-cases (env.delete_topic t i.topic.topic)) [
            | inl k ↦ inr k
            | inr (e, k) ↦
                elim (changed (rw (q, h, finalize-refused i t d e g k, updates) refl)) [ ]
          ]
        ]
      ]
