-- ===== src/Alert/Commands.antt =====
-- The commands of internal/alertmanager/currentalert/process.go: addPvc, resizePvc, downScale and
-- upScale.
use koperator.Prelude.{
  ℕ, suc, ◌+◌, String, Option, none, some, Bool, true, false, List, [], ◌∷◌, keep, any_of, str_eq,
  ltb, is_some, if◌then◌else◌,
}
use koperator.Prelude.Dict.{Dict, lookup}
use koperator.Api.Failure.{Answer, ok, err, failure}
use koperator.Alert.Types.{LabelSet, value_at, Broker, BrokerConfig, Cluster, StorageConfig, Pvc}
use koperator.Alert.World.{
  Env, Run, got_pvc, listed_pvcs, asked_least_loaded, asked_random, pure, fail, panic, call, ◌>>=◌,
}
use koperator.Alert.Cluster.{
  is_busy, is_broker, config_or_empty, get_cr, update_cr, add_new_broker_to_cr,
  remove_broker_from_cr, add_pv_to_specific_broker,
}
use Prim.Native.String.{◌++◌ as append}

-- nil for an annotation that is missing or empty
unfoldable pub storage_class_of : LabelSet → Option String
storage_class_of annotations =
    let name = value_at "storageClass" annotations in if str_eq name "" then none else some name

-- GetBrokerConfig of pkg/api/v1beta1, with the merge as an argument
unfoldable pub config_of :
    (BrokerConfig → BrokerConfig → Answer BrokerConfig)
    → Cluster
    → Broker
    → Answer (Option BrokerConfig)
config_of merge cr b =
    if str_eq b.broker_config_group ""
    then ok b.broker_config
    else elim (lookup b.broker_config_group cr.broker_config_groups) [
      | none ↦ err (failure "missing brokerConfigGroup")
      | some group ↦ elim (merge (config_or_empty b.broker_config) group) [
        | err e ↦ err e
        | ok c ↦ ok (some c)
      ]
    ]

-- the first storage at the path is replaced, or a new one is added
unfoldable pub put_storage : String → StorageConfig → List StorageConfig → List StorageConfig
put_storage path s [] = s ∷ []
put_storage path s (c ∷ cs) =
    let rest = put_storage path s cs in if str_eq c.mount_path path then s ∷ cs else c ∷ rest

-- The loop over the storages of the merged configuration; `none` is the nil pointer of a storage that
-- is no claim.
unfoldable pub resize_storages :
    String → ℕ → List StorageConfig → List StorageConfig → Option (List StorageConfig)
resize_storages path more [] own = some own
resize_storages path more (c ∷ cs) own = elim (str_eq c.mount_path path) [
  | false ↦ resize_storages path more cs own
  | true ↦ elim c.pvc_spec [
    | none ↦ none
    | some spec ↦
        let bigger : StorageConfig = record c {
          pvc_spec = some (record spec { storage = spec.storage + more });
        } in
        resize_storages path more cs (put_storage path bigger own)
  ]
]

-- A broker without storage at the path keeps its configuration, which may be nil.
unfoldable pub resize_broker :
    String → ℕ → Answer (Option BrokerConfig) → Broker → Option (Answer Broker)
resize_broker path more (err e) b = some (err e)
resize_broker path more (ok none) b = none
resize_broker path more (ok (some c)) b =
    if any_of (λ s. str_eq s.mount_path path) c.storage_configs
    then (let own = config_or_empty b.broker_config in
        elim (resize_storages path more c.storage_configs own.storage_configs) [
          | none ↦ none
          | some cs ↦
              some (ok (record b { broker_config = some (record own { storage_configs = cs }) }))
        ])
    else some (ok b)

-- the loop over the brokers of the cluster
unfoldable pub resize_brokers :
    (BrokerConfig → BrokerConfig → Answer BrokerConfig)
    → Cluster
    → String
    → String
    → ℕ
    → List Broker
    → Option (Answer (List Broker))
resize_brokers merge cr id path more [] = some (ok [])
resize_brokers merge cr id path more (b ∷ bs) =
    let rest = resize_brokers merge cr id path more bs in
    let here =
      if is_broker id b then resize_broker path more (config_of merge cr b) b else some (ok b) in
    elim here [
      | none ↦ none
      | some (err e) ↦ some (err e)
      | some (ok done) ↦ elim rest [
        | none ↦ none
        | some (err e) ↦ some (err e)
        | some (ok others) ↦ some (ok (done ∷ others))
      ]
    ]

-- biggestId
unfoldable pub biggest_from : ℕ → List Broker → ℕ
biggest_from n [] = n
biggest_from n (b ∷ bs) = biggest_from (if ltb n b.id then b.id else n) bs

-- an early return
abbrev pub skip_if : Bool → Run (Unit {0}) → Run (Unit {0})
skip_if true m = pure tt
skip_if false m = m

-- MustParse
abbrev pub must_parse : Option ℕ → Run ℕ
must_parse none = panic
must_parse (some n) = pure n

abbrev pub annotations_of : (String → Dict String) → Option String → Dict String
annotations_of parse none = []
annotations_of parse (some raw) = if str_eq raw "" then [] else parse raw

abbrev pub lift : {A : Type 0} → Option (Answer A) → Run A
lift none = panic
lift (some (err e)) = fail e
lift (some (ok a)) = pure a

module _ (env : Env) where
  unfoldable pub get_pvc : String → String → Run Pvc
  get_pvc name namespace = call (got_pvc name namespace) (λ t. env.get_pvc t name namespace)

  unfoldable pub pending_or_running_cc_task_exists : LabelSet → String → Run Bool
  pending_or_running_cc_task_exists labels namespace = do
    cr ← get_cr env (value_at "kafka_cr" labels) namespace
    pure (is_busy cr)

  unfoldable pub unbound_pvc_on_node_exists : Pvc → String → Run Bool
  unbound_pvc_on_node_exists pvc node = do
    items ←
        call (listed_pvcs pvc.namespace (value_at "kafka_cr" pvc.labels))
          (λ t. env.list_pvcs t pvc.namespace (value_at "kafka_cr" pvc.labels))
    let on_node =
        keep (λ p. str_eq (value_at "volume.kubernetes.io/selected-node" p.annotations) node) items
    pure (any_of (λ p. str_eq p.phase "Pending") on_node)

  unfoldable pub attach_pvc : LabelSet → LabelSet → Pvc → Run (Unit {0})
  attach_pvc labels annotations pvc = do
    suffix ← call asked_random env.random
    size ← must_parse (env.parse_quantity (value_at "diskSize" annotations))
    add_pv_to_specific_broker env (value_at "brokerId" pvc.labels) (value_at "kafka_cr" pvc.labels)
        (value_at "namespace" labels)
        record {
          mount_path = append (value_at "mountPathPrefix" annotations) (append "-" suffix);
          pvc_spec = some record { storage_class = storage_class_of annotations; storage = size };
        }

  unfoldable pub add_pvc : LabelSet → LabelSet → Run (Unit {0})
  add_pvc labels annotations = do
    pvc ← get_pvc (value_at "persistentvolumeclaim" labels) (value_at "namespace" labels)
    busy ← pending_or_running_cc_task_exists pvc.labels (value_at "namespace" labels)
    skip_if busy (do
      unbound ← unbound_pvc_on_node_exists pvc (value_at "node" labels)
      skip_if unbound (attach_pvc labels annotations pvc))

  unfoldable pub resize_pvc : LabelSet → LabelSet → Run (Unit {0})
  resize_pvc labels annotations = do
    pvc ← get_pvc (value_at "persistentvolumeclaim" labels) (value_at "namespace" labels)
    cr ← get_cr env (value_at "kafka_cr" pvc.labels) (value_at "namespace" labels)
    more ← lift (elim (env.parse_quantity (value_at "incrementBy" annotations)) [
      | none ↦ some (err (failure "quantities must match the regular expression"))
      | some n ↦ some (ok n)
    ])
    bs ← lift (
        resize_brokers env.merge_config cr (value_at "brokerId" pvc.labels)
          (value_at "mountPath" pvc.annotations) more cr.brokers)
    update_cr env (record cr { brokers = bs })

  unfoldable pub broker_to_remove : LabelSet → Run String
  broker_to_remove labels = elim (lookup "brokerId" labels) [
    | some id ↦ pure id
    | none ↦ call asked_least_loaded env.least_loaded
  ]

  unfoldable pub down_scale : LabelSet → Run (Unit {0})
  down_scale labels = do
    cr ← get_cr env (value_at "kafka_cr" labels) (value_at "namespace" labels)
    skip_if (is_busy cr) (do
      id ← broker_to_remove labels
      remove_broker_from_cr env id (value_at "kafka_cr" labels) (value_at "namespace" labels))

  -- the broker that is added: of the group that the alert names, or made of its annotations
  unfoldable pub new_broker : LabelSet → Cluster → Run Broker
  new_broker annotations cr =
      if is_some (lookup (value_at "brokerConfigGroup" annotations) cr.broker_config_groups)
      then pure record {
        id = suc (biggest_from 0 cr.brokers);
        broker_config_group = value_at "brokerConfigGroup" annotations;
        broker_config = none;
      }
      else (do
        size ← must_parse (env.parse_quantity (value_at "diskSize" annotations))
        pure record {
          id = suc (biggest_from 0 cr.brokers);
          broker_config_group = "";
          broker_config = some record {
            image = value_at "image" annotations;
            storage_configs =
                record {
                  mount_path = value_at "mountPath" annotations;
                  pvc_spec =
                      some record { storage_class = storage_class_of annotations; storage = size };
                }
                ∷ [];
            broker_annotations =
                annotations_of env.parse_annotations (lookup "brokerAnnotations" annotations);
          };
        })

  unfoldable pub up_scale : LabelSet → LabelSet → Run (Unit {0})
  up_scale labels annotations = do
    cr ← get_cr env (value_at "kafka_cr" labels) (value_at "namespace" labels)
    skip_if (is_busy cr) (do
      b ← new_broker annotations cr
      add_new_broker_to_cr env b (value_at "kafka_cr" labels) (value_at "namespace" labels))
