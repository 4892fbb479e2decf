-- ===== src/Kafka/Claims.antt =====
-- reconcileKafkaPvc, handleDiskRemoval and isController of pkg/resources/kafka/kafka.go, with
-- CheckIfObjectUpdated of pkg/k8sutil/resource.go. The brokers of a Go map come in any order.
pub mod Emptied
pub mod Grown
use koperator.Prelude.{
  ℕ, zero, suc, String, Option, none, some, Bool, true, false, ◌&&◌, ◌||◌, not, List, [], ◌∷◌, ◌++◌,
  ltb, ◌==◌, str_eq, any_of, length, if◌then◌else◌,
}
use koperator.Prelude.Dict.{Dict, lookup, insert}
use koperator.Prelude.Integers.{ℤ, pos, negsuc, equal_int}
use koperator.Api.Failure.{Answer, ok, err, Error, failure}
use koperator.Api.Cluster.{Broker, BrokerConfig, KafkaClusterSpec}
use koperator.Api.States.{
  VolumeState, CruiseControlVolumeState, removal_required, rebalance_required, is_disk_removal,
  is_disk_removal_succeeded, is_disk_rebalance,
}
use koperator.Task.Brokers.{Merge, get_broker_config, string_slice_contains}
use koperator.Status.World.{
  Cluster, Server, World, Trace, persistent_volume_claim, delete, created_claim, updated_claim,
}
use koperator.Status.Update.{delete_volume_status}
use koperator.Status.Broker.{update_broker_status, brokers_volume_states, or_empty_state}
use koperator.Status.Listeners.{config_spec}
use koperator.Kafka.Pods.{parse_int}
use koperator.Kafka.Removal.{◌then_do◌}
use koperator.Kafka.Volumes.{PersistentVolumeClaim, storage_of}

pub record Env : Type 0 where
  pub server : Server
  pub merge : Merge  -- in GetBrokerConfig
  -- the claims with the labels of a broker
  pub list_claims : Trace → String → Answer (List PersistentVolumeClaim)
  pub create_claim : Trace → PersistentVolumeClaim → Option Error
  pub update_claim : Trace → PersistentVolumeClaim → Option Error
  pub set_last_applied_annotation : PersistentVolumeClaim → Option Error
  -- DefaultPatchMaker.Calculate: whether the patch from the current claim to the desired one is empty
  pub calculate : PersistentVolumeClaim → PersistentVolumeClaim → Answer Bool

-- The world, the states to be set for the volumes of the broker (brokerVolumesState), and
-- waitForDiskRemovalToFinish.
pub record Progress : Type 0 where
  pub world : World
  pub marks : Dict VolumeState
  pub waits : Bool

-- the error of a step; a panic is `none`
abbrev pub Outcome : Type 0
Outcome = Option (Option Error) × Progress

abbrev pub Step : Type 0
Step = Progress → Outcome

abbrev pub in_state : CruiseControlVolumeState → VolumeState
in_state s = record { cruise_control_volume_state = s; cruise_control_operation_reference = none }

abbrev pub returned : Progress → Option Error × World → Outcome
returned p (e, w) = (some e, record p { world = w })

abbrev pub error_of : Progress → Option Error → Outcome
error_of p e = (some e, p)

module _ (env : Env) (id : String) where
  -- a claim that is in use by the desired volumes
  abbrev pub is_desired : List PersistentVolumeClaim → PersistentVolumeClaim → Bool
  is_desired desired c = any_of (λ d. str_eq c.mount_path d.mount_path) desired

  abbrev pub wait_for : Step
  wait_for p = (some none, record p { waits = true })

  abbrev pub delete_disk : PersistentVolumeClaim → Step
  delete_disk c p =
      returned p (delete env.server persistent_volume_claim c.name p.world) then_do λ q.
      returned q (delete_volume_status env.server id c.mount_path q.world)

  -- the switch on the state of the volume
  unfoldable pub handle_volume : PersistentVolumeClaim → CruiseControlVolumeState → Step
  handle_volume c s p =
      if is_disk_removal_succeeded s
      then delete_disk c p
      else if is_disk_removal s
      then wait_for p
      else if is_disk_rebalance s
      then wait_for p
      else wait_for (record p { marks = insert c.mount_path (in_state removal_required) p.marks })

  -- one round of the loop; a volume without a state has been removed already
  unfoldable pub remove_disk : List PersistentVolumeClaim → PersistentVolumeClaim → Step
  remove_disk desired c p =
      if is_desired desired c
      then (some none, p)
      else elim (lookup id p.world.cluster.brokers_state) [
        | none ↦ (some none, p)
        | some b ↦ elim (lookup c.mount_path b.graceful_action_state.volume_states) [
          | none ↦ (some none, p)
          | some s ↦ handle_volume c s.cruise_control_volume_state p
        ]
      ]

  unfoldable pub remove_disks : List PersistentVolumeClaim → List PersistentVolumeClaim → Step
  remove_disks desired [] p = (some none, p)
  remove_disks desired (c ∷ cs) p = remove_disk desired c p then_do remove_disks desired cs

  unfoldable pub handle_disk_removal :
      List PersistentVolumeClaim → List PersistentVolumeClaim → Step
  handle_disk_removal desired claims p = remove_disks desired claims (record p { waits = false })

  abbrev pub call_create : PersistentVolumeClaim → Step
  call_create d p =
      let u = record p {
        world = record p.world { trace = created_claim d.name ∷ p.world.trace };
      } in
      elim (env.set_last_applied_annotation d) [
        | some e ↦ error_of p (some e)
        | none ↦ error_of u (env.create_claim p.world.trace d)
      ]

  unfoldable pub check_if_object_updated : PersistentVolumeClaim → PersistentVolumeClaim → Bool
  check_if_object_updated current desired = elim (env.calculate current desired) [
    | err e ↦ true
    | ok is_empty ↦ not is_empty
  ]

  abbrev pub is_desired_storage_value_invalid : PersistentVolumeClaim → PersistentVolumeClaim → Bool
  is_desired_storage_value_invalid desired current = ltb (storage_of desired) (storage_of current)

  abbrev pub call_update : PersistentVolumeClaim → PersistentVolumeClaim → Step
  call_update current d p =
      let resized = record current { requests = d.requests; labels = d.labels } in
      let u = record p {
        world = record p.world {
          trace = updated_claim current.name d.requests d.labels ∷ p.world.trace;
        };
      } in
      error_of u (env.update_claim p.world.trace resized)

  unfoldable pub resize : PersistentVolumeClaim → PersistentVolumeClaim → Step
  resize current d p =
      if check_if_object_updated current d
      then (elim (env.set_last_applied_annotation d) [
        | some e ↦ error_of p (some e)
        | none ↦
            if is_desired_storage_value_invalid d current
            then error_of p (some (failure "one can not reduce the size of a PVC"))
            else call_update current d p
      ])
      else (some none, p)

  abbrev pub is_removed : Option VolumeState → Bool
  is_removed none = true
  is_removed (some s) = is_disk_removal s.cruise_control_volume_state

  abbrev pub volume_state : World → String → Option VolumeState
  volume_state w path =
      lookup path
        (or_empty_state (lookup id w.cluster.brokers_state)).graceful_action_state.volume_states

  -- a bound volume that has no state, or that was to be removed, is to be rebalanced
  abbrev pub mark_bound : PersistentVolumeClaim → String → Progress → Progress
  mark_bound c path p =
      if c.is_bound && is_removed (volume_state p.world path)
      then record p { marks = insert path (in_state rebalance_required) p.marks }
      else p

  unfoldable pub find_claim : String → List PersistentVolumeClaim → Option PersistentVolumeClaim
  find_claim path [] = none
  find_claim path (c ∷ cs) =
      let rest = find_claim path cs in if str_eq path c.mount_path then some c else rest

  unfoldable pub ensure_claim : PersistentVolumeClaim → Step
  ensure_claim d p = elim (env.list_claims p.world.trace id) [
    | err e ↦ error_of p (some e)
    | ok claims ↦ elim (find_claim d.mount_path claims) [
      | none ↦ call_create d p
      | some c ↦ resize c d (mark_bound c d.mount_path p)
    ]
  ]

  unfoldable pub ensure_claims : List PersistentVolumeClaim → Step
  ensure_claims [] p = (some none, p)
  ensure_claims (d ∷ ds) p = ensure_claim d p then_do ensure_claims ds

  abbrev pub has_id : Option ℤ → ℕ → Bool
  has_id none n = false
  has_id (some i) n = equal_int i (pos n)

  abbrev pub config_role : Answer (Option BrokerConfig) → Option (Answer Bool)
  config_role (err e) = some (err e)
  config_role (ok none) = none
  config_role (ok (some b)) = some (ok (string_slice_contains b.roles "controller"))

  unfoldable pub is_controller : Cluster → List Broker → Option (Answer Bool)
  is_controller c [] = some (err (failure "could not find broker in the spec"))
  is_controller c (b ∷ bs) =
      let rest = is_controller c bs in
      if has_id (parse_int id) b.id
      then config_role (get_broker_config env.merge (config_spec env.merge c []) b)
      else rest

  abbrev pub first_path : List PersistentVolumeClaim → String
  first_path [] = ""
  first_path (c ∷ cs) = c.mount_path

  -- the checks of a controller's volumes
  unfoldable pub check_controller :
      List PersistentVolumeClaim → List PersistentVolumeClaim → Option Error
  check_controller desired claims =
      if not (length desired == 1)
      then some (failure "controller broker can have only one volume")
      else if (length claims == 1) && not (str_eq (first_path claims) (first_path desired))
      then some (failure "controller broker volume mount path cannot be changed")
      else none

  abbrev pub reconcile_volumes : List PersistentVolumeClaim → List PersistentVolumeClaim → Step
  reconcile_volumes desired claims p =
      (if ltb (length desired) (length claims)
        then handle_disk_removal desired claims p
        else (some none, p))
      then_do ensure_claims desired

  abbrev pub after_check :
      List PersistentVolumeClaim → List PersistentVolumeClaim → Option (Answer Bool) → Step
  after_check desired claims none p = (none, p)
  after_check desired claims (some (err e)) p = error_of p (some e)
  after_check desired claims (some (ok false)) p = reconcile_volumes desired claims p
  after_check desired claims (some (ok true)) p = elim (check_controller desired claims) [
    | some e ↦ error_of p (some e)
    | none ↦ reconcile_volumes desired claims p
  ]

  -- the body of the loop over the brokers
  unfoldable pub reconcile_broker_claims : List PersistentVolumeClaim → Step
  reconcile_broker_claims desired p = elim (env.list_claims p.world.trace id) [
    | err e ↦ error_of p (some e)
    | ok claims ↦
        after_check desired claims (is_controller p.world.cluster p.world.cluster.spec.brokers) p
  ]

module _ (env : Env) where
  -- brokersVolumesState
  abbrev pub BrokersMarks : Type 0
  BrokersMarks = Dict (Dict VolumeState)

  abbrev pub add_marks : String → Dict VolumeState → BrokersMarks → BrokersMarks
  add_marks id [] m = m
  add_marks id (e ∷ es) m = insert id (e ∷ es) m

  abbrev pub names_of : BrokersMarks → List String
  names_of [] = []
  names_of (e ∷ es) = e.0 ∷ names_of es

  abbrev pub finish : Bool → Option Error × World → Option (Option Error) × World
  finish waits (some e, w) = (some (some e), w)
  finish true (none, w) = (some (some (failure "Disk removal pending")), w)
  finish false (none, w) = (some none, w)

  unfoldable pub store_marks : Bool → BrokersMarks → World → Option (Option Error) × World
  store_marks waits [] w = finish waits (none, w)
  store_marks waits (e ∷ es) w =
      finish waits
        (update_broker_status env.server (names_of (e ∷ es)) (brokers_volume_states (e ∷ es)) w)

  -- the loop over the brokers, and what follows it; `waits` is that of the last broker which removed disks
  unfoldable pub reconcile_all :
      Dict (List PersistentVolumeClaim)
      → Bool
      → BrokersMarks
      → World
      → Option (Option Error) × World
  reconcile_all [] waits m w = store_marks waits m w
  reconcile_all (b ∷ bs) waits m w =
      let (o, p) =
        reconcile_broker_claims env b.0 b.1 (record { world = w; marks = []; waits = waits }) in
      let rest = reconcile_all bs p.waits (add_marks b.0 p.marks m) p.world in
      elim o [
        | none ↦ (none, p.world)
        | some (some e) ↦ (some (some e), p.world)
        | some none ↦ rest
      ]

  unfoldable pub reconcile_kafka_pvc :
      Dict (List PersistentVolumeClaim) → World → Option (Option Error) × World
  reconcile_kafka_pvc desired = reconcile_all desired false []
