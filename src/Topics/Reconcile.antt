-- ===== src/Topics/Reconcile.antt =====
-- Reconcile of controllers/kafkatopic_controller.go, from its last steps to the first.
use koperator.Prelude.{String, Option, none, some, [], ◌∷◌, ◌++◌, str_eq, if◌then◌else◌}
use koperator.Prelude.Dict.{lookup}
use koperator.Prelude.Integers.{int16}
use koperator.Api.Failure.{Answer, ok, err, is_missing, failure}
use koperator.Task.Brokers.{string_slice_contains}
use koperator.Webhook.Topic.{cluster_namespace}
use koperator.Topics.World.{
  Instance, Trace, Env, Run, check_broker_connection_error, done, failed,
  is_topic_managed_by_koperator, updated, updated_status, ensured_partitions, ensured_config,
  created,
}
use koperator.Topics.Finalizers.{
  topic_finalizer, ensure_cluster_label, remove_finalizer, check_finalizers,
}

unfoldable pub set_created : Env → Instance → Trace → Run
set_created env i t =
    let j = record i { state = "created" } in
    if str_eq i.state "created" then done t else elim (env.update_status t j) [
      | err e ↦ failed e (updated_status j ∷ t)
      | ok k ↦ done (updated_status j ∷ t)
    ]

unfoldable pub ensure_finalizer : Env → Instance → Trace → Run
ensure_finalizer env i t =
    let j = record i { finalizers = i.finalizers ++ (topic_finalizer ∷ []) } in
    if string_slice_contains i.finalizers topic_finalizer
    then set_created env i t
    else elim (env.update t j) [
      | err e ↦ failed e (updated j ∷ t)
      | ok k ↦ set_created env k (updated j ∷ t)
    ]

abbrev pub after_label : Env → Answer Instance × Trace → Run
after_label env (err e, t) = failed e t
after_label env (ok i, t) = ensure_finalizer env i t

unfoldable pub ensure_existing : Env → String × String → Instance → Trace → Run
ensure_existing env c i t =
    let name = i.topic.topic in
    let u = ensured_partitions name i.topic.partitions ∷ t in
    let v = ensured_config name i.topic.config ∷ u in
    elim (env.ensure_partition_count t name i.topic.partitions) [
      | some e ↦ failed e u
      | none ↦ elim (env.ensure_topic_config u name i.topic.config) [
        | some e ↦ failed e v
        | none ↦ after_label env (ensure_cluster_label env c i v)
      ]
    ]

unfoldable pub create : Env → String × String → Instance → Trace → Run
create env c i t =
    let k = i.topic in
    let u = created k.topic k.partitions (int16 k.replication_factor) k.config ∷ t in
    elim (env.create_topic t k.topic k.partitions (int16 k.replication_factor) k.config) [
      | some e ↦ failed e u
      | none ↦ after_label env (ensure_cluster_label env c i u)
    ]

unfoldable pub reconcile_managed : Env → String × String → Instance → Trace → Run
reconcile_managed env c i t = elim (env.get_topic t i.topic.topic) [
  | err e ↦ failed e t
  | ok (some d) ↦ ensure_existing env c i t
  | ok none ↦
      if str_eq i.state "created"
      then failed (failure "topic is still creating") t
      else create env c i t
]

unfoldable pub reconcile_connected : Env → String × String → Instance → Trace → Run
reconcile_connected env c i t = elim (env.new_kafka_from_cluster t) [
  | some e ↦ (some (check_broker_connection_error e), t)
  | none ↦
      if i.topic.is_deleted
      then check_finalizers env i t
      else (if is_topic_managed_by_koperator i.topic then reconcile_managed env c i t else done t)
]

abbrev pub or_empty : Option String → String
or_empty none = ""
or_empty (some s) = s

unfoldable pub manager_of : Instance → String
manager_of i =
    if is_topic_managed_by_koperator i.topic
    then "koperator"
    else or_empty (lookup "managedBy" i.topic.annotations)

unfoldable pub reconcile_in : Env → String × String → Instance → Trace → Run
reconcile_in env c i t =
    let j = record i { managed_by = manager_of i } in
    if str_eq i.managed_by (manager_of i)
    then reconcile_connected env c i t
    else elim (env.update_status t j) [
      | err e ↦ failed e (updated_status j ∷ t)
      | ok k ↦ reconcile_connected env c k (updated_status j ∷ t)
    ]

unfoldable pub reconcile_instance : Env → Instance → Trace → Run
reconcile_instance env i t =
    elim (env.lookup_kafka_cluster t i.topic.cluster_ref.name (cluster_namespace i.topic)) [
      | err e ↦ if i.topic.is_deleted then remove_finalizer env i t else failed e t
      | ok c ↦ reconcile_in env c i t
    ]

unfoldable pub reconcile : Env → Trace → Run
reconcile env t = elim (env.get t) [
  | err e ↦ if is_missing e then done t else failed e t
  | ok i ↦ reconcile_instance env i t
]
