-- ===== src/Topics/Finalizers.antt =====
-- Labels and finalizers: ensureClusterLabel, checkFinalizers and what they call, in
-- controllers/kafkatopic_controller.go, controllers/controller_common.go and pkg/util/util.go.
use Prim.Native.String.{◌++◌ as append}
use koperator.Prelude.{
  ℕ, zero, suc, ◌-◌, String, Option, none, some, Bool, true, false, List, [], ◌∷◌, ◌++◌, leb,
  str_eq, if◌then◌else◌, take, drop, get_elem?, length,
}
use koperator.Prelude.Dict.{Dict, insert}
use koperator.Api.Failure.{Answer, ok, err, Error}
use koperator.Task.Brokers.{string_slice_contains}
use koperator.Topics.World.{
  Instance, Trace, Env, Run, done, failed, is_topic_managed_by_koperator, updated, deleted,
}

abbrev pub topic_finalizer : String
topic_finalizer = "finalizer.kafkatopics.kafka.banzaicloud.io"

-- The loop of StringSliceRemove: `array` is what is under the slice, `m` the length of the slice, and
-- the loop goes over the first length of the array.
unfoldable pub remove_from : ℕ → ℕ → List String → ℕ → String → Option (List String)
remove_from zero i array m s = some (take m array)
remove_from (suc k) i array m s =
    let moved = take i array ++ (drop (suc i) (take m array) ++ drop (m - 1) array) in
    let removed = remove_from k (suc i) moved (m - 1) s in
    let kept = remove_from k (suc i) array m s in
    elim (get_elem? array i) [
      | none ↦ none
      | some v ↦ if str_eq v s then (if leb (suc i) m then removed else none) else kept
    ]

unfoldable pub string_slice_remove : List String → String → Option (List String)
string_slice_remove list s = remove_from (length list) 0 list (length list) s

abbrev pub cluster_ref_label : String
cluster_ref_label = "kafkaCluster"

abbrev pub cluster_label_string : String × String → String
cluster_label_string c = append c.0 (append "." c.1)

-- applyClusterRefLabel: the labels, and whether they are the map it was given, which it writes into
unfoldable pub apply_cluster_ref_label : String × String → Option (Dict String) → Dict String × Bool
apply_cluster_ref_label c none = (insert cluster_ref_label (cluster_label_string c) [], false)
apply_cluster_ref_label c (some labels) =
    (insert cluster_ref_label (cluster_label_string c) labels, true)

-- reflect.DeepEqual holds of a map and itself, and of no map and nil
unfoldable pub ensure_cluster_label :
    Env → String × String → Instance → Trace → Answer Instance × Trace
ensure_cluster_label env c i t =
    let (labels, shared) = apply_cluster_ref_label c i.labels in
    let labelled = record i { labels = some labels } in
    if shared then (ok labelled, t) else (env.update t labelled, updated labelled ∷ t)

abbrev pub run_update : Env → Instance → Trace → Run
run_update env i t = elim (env.update t i) [
  | err e ↦ failed e (updated i ∷ t)
  | ok j ↦ done (updated i ∷ t)
]

unfoldable pub remove_finalizer : Env → Instance → Trace → Run
remove_finalizer env i t = elim (string_slice_remove i.finalizers topic_finalizer) [
  | none ↦ (none, t)
  | some fs ↦ run_update env (record i { finalizers = fs }) t
]

unfoldable pub finalize_kafka_topic : Env → Instance → Trace → Option Error × Trace
finalize_kafka_topic env i t = elim (env.get_topic t i.topic.topic) [
  | err e ↦ (some e, t)
  | ok none ↦ (none, t)
  | ok (some d) ↦ (env.delete_topic t i.topic.topic, deleted i.topic.topic ∷ t)
]

abbrev pub after_finalizing : Env → Instance → Option Error × Trace → Run
after_finalizing env i (some e, t) = failed e t
after_finalizing env i (none, t) = remove_finalizer env i t

unfoldable pub check_finalizers : Env → Instance → Trace → Run
check_finalizers env i t =
    if string_slice_contains i.finalizers topic_finalizer
    then (if is_topic_managed_by_koperator i.topic
        then after_finalizing env i (finalize_kafka_topic env i t)
        else remove_finalizer env i t)
    else done t
