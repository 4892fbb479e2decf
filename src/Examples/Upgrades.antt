-- ===== src/Examples/Upgrades.antt =====
-- The theorems on pods and volumes of brokers at concrete inputs.
use koperator.Prelude.{
  ℕ, ◌≡◌, ◌≢◌, refl, ap, ◌∙◌, subst, inl, inr, Option, none, some, Bool, true, false, List, [], ◌∷◌,
  String, arith, All, if◌then◌else◌,
}
use koperator.Prelude.Dict.{Dict, lookup}
use koperator.Api.Failure.{Answer, ok, err, failure}
use koperator.Api.Cluster.{Broker}
use koperator.Api.States.{
  BrokerState, empty_broker_state, CruiseControlState, downscale_running, downscale_succeeded,
  removal_succeeded, rebalance_required, removal_running, VolumeState,
}
use koperator.Status.World.{
  Cluster, Server, World, Trace, Call, pod, config_map, persistent_volume_claim, deleted,
  updated_status,
}
use koperator.Kafka.Pods.{Pod, Volume, is_pod_contains_terminated_container, parse_int}
use koperator.Kafka.Rolling as Rolling
use koperator.Kafka.Rolling.{handle_rolling_upgrade}
use koperator.Kafka.Rolling.Safe.{OnlyPermitted, handle_rolling_upgrade-Permitted}
use koperator.Kafka.Removal.{delete_brokers, delete_broker}
use koperator.Kafka.Removal.Guarded.{Steady, Unfinished, others, delete_brokers-others}
use koperator.Kafka.Removal.Stuck.{Fails, delete_broker-Fails}
use koperator.Kafka.Volumes.{
  PersistentVolumeClaim, StorageConfig, generate_data_volume_and_volume_mount, get_volumes,
}
use koperator.Kafka.Removal as Removal
use koperator.Kafka.Removal.{reconcile_kafka_pod_delete}
use koperator.Kafka.Removal.Spared.{Spares, reconcile_kafka_pod_delete-Spares}
use koperator.Kafka.Claims as Claims
use koperator.Kafka.Claims.{Progress, ensure_claims, remove_disks, reconcile_kafka_pvc}

abbrev broker : ℕ → String → Broker
broker id rack = record {
  id = id;
  read_only_config = rack;
  broker_config_group = "";
  broker_config = some (record { roles = [] });
}

abbrev cluster : List Broker → Dict BrokerState → Cluster
cluster bs states = record {
  name = "main";
  namespace = "kafka";
  resource_version = 1;
  spec = record {
    brokers = bs;
    broker_config_groups = [];
    kraft_mode = false;
    headless_service_enabled = true;
    kubernetes_cluster_domain = "cluster.local";
    internal_listeners = [];
    rolling_upgrade_config = record {
      failure_threshold = 2;
      concurrent_broker_restart_count_per_rack = 2;
    };
  };
  brokers_state = states;
  state = "ClusterRunning";
  cruise_control_topic_status = "";
  rolling_upgrade_last_success = "";
  rolling_upgrade_error_count = 0;
  internal_listener_statuses = [];
  external_listener_statuses = [];
}

abbrev pod_of : String → List Volume → Pod
pod_of id volumes = record {
  name = id;
  labels = ("brokerId", id) ∷ [];
  is_deleted = false;
  phase = "Running";
  reason = "";
  init_container_statuses = [];
  container_statuses = record { is_waiting = false; terminated = none } ∷ [];
  tolerations = [];
  volumes = volumes;
}

-- a server that keeps what it is sent
abbrev obedient : Cluster → Server
obedient c = record {
  update_status = λ t d. ok d;
  update = λ t d. ok d;
  get = λ t. ok c;
  delete = λ t kind name. none;
}

abbrev two_brokers : Cluster
two_brokers = cluster (broker 1 "broker.rack=a" ∷ broker 2 "broker.rack=b" ∷ []) []

abbrev rolling : List ℕ → Rolling.Env
rolling offline = record {
  server = obedient two_brokers;
  calculate = λ current desired. ok false;
  set_last_applied_annotation = λ p. none;
  tainted_brokers_selector = err (failure "no selector");
  list_pods = λ t. ok (pod_of "1" [] ∷ pod_of "2" [] ∷ []);
  rack_aware_distribution_goal = "RackAwareDistributionGoal";
  cruise_control_status = λ t. err (failure "not asked");
  new_kafka_client = λ t. none;
  all_offline_replicas = λ t. ok offline;
  out_of_sync_replicas = λ t. ok [];
}

abbrev start : World
start = record { cluster = two_brokers; trace = [] }

handle_rolling_upgrade-Permitted_example :
    OnlyPermitted
      (rolling [])
      start
      (pod_of "1" [])
      (handle_rolling_upgrade (rolling []) (pod_of "1" []) (pod_of "1" []) start).1
handle_rolling_upgrade-Permitted_example =
    handle_rolling_upgrade-Permitted (rolling []) (pod_of "1" []) (pod_of "1" []) start
      ((λ t c d h. ground arith), (λ t c d h. ground arith))

abbrev in_state : CruiseControlState → BrokerState
in_state s = record empty_broker_state {
  graceful_action_state = record empty_broker_state.graceful_action_state {
    cruise_control_state = s;
  };
}

-- Broker 3 is being emptied, 4 is empty; both are no longer in the spec.
abbrev shrinking : Cluster
shrinking =
    cluster [] (("3", in_state downscale_running) ∷ ("4", in_state downscale_succeeded) ∷ [])

abbrev shrink : World
shrink = record { cluster = shrinking; trace = [] }

kept :
    (c d : Cluster)
    → ok c ≡ ok d
    → Unfinished (obedient shrinking) "3" c
    → Unfinished (obedient shrinking) "3" d
kept c d h k =
    let value = λ (a : Answer Cluster). elim a as (λ b. Cluster) [ ok x ↦ x | err e ↦ shrinking ] in
    let same : c ≡ d = ap value h in subst (λ x. Unfinished (obedient shrinking) "3" x) same k

three-Unfinished : Unfinished (obedient shrinking) "3" shrinking
unfolding koperator.Prelude.Dict.lookup
three-Unfinished = refl

steady : Steady (obedient shrinking) "3"
steady = record {
  keeping = record { status = λ t c d h k. kept c d h k; object = λ t c d h k. kept c d h k };
  reads = λ t d h. kept shrinking d h three-Unfinished;
}

delete_brokers-others_example :
    delete_brokers (obedient shrinking) (pod_of "3" [] ∷ pod_of "4" [] ∷ []) shrink
    ≡ delete_brokers
        (obedient shrinking)
        (others (obedient shrinking) "3" (pod_of "3" [] ∷ pod_of "4" [] ∷ []))
        shrink
unfolding lookup
delete_brokers-others_example =
    delete_brokers-others (obedient shrinking) "3" steady (pod_of "3" [] ∷ pod_of "4" [] ∷ [])
      shrink (refl, (refl, tt)) three-Unfinished

-- Broker 3 is in the spec, 4 is not.
abbrev staying : World
staying = record {
  cluster = cluster (broker 3 "" ∷ []) (("4", in_state downscale_succeeded) ∷ []);
  trace = [];
}

abbrev removing : Removal.Env
removing = record {
  server = obedient staying.cluster;
  list_pods = λ t. ok (pod_of "3" [] ∷ pod_of "4" [] ∷ []);
  available_brokers = λ t. ok ("3" ∷ "4" ∷ []);
}

reconcile_kafka_pod_delete-Spares_example :
    Spares removing.server "3" staying (reconcile_kafka_pod_delete removing staying)
unfolding koperator.Prelude.Decimal.itoa lookup
reconcile_kafka_pod_delete-Spares_example =
    reconcile_kafka_pod_delete-Spares removing "3" (pod_of "3" [] ∷ pod_of "4" [] ∷ []) staying refl
      refl

abbrev storage : List StorageConfig
storage = record { mount_path = "/data"; has_pvc_spec = false; has_empty_dir = true } ∷ []

abbrev ephemeral : Pod
ephemeral = pod_of "4" (
    get_volumes (λ vs. vs) [] (generate_data_volume_and_volume_mount (λ s. s) [] storage).0 []
      "main")

delete_broker-Fails_example : Fails shrink (delete_broker (obedient shrinking) ephemeral shrink)
delete_broker-Fails_example =
    delete_broker-Fails (obedient shrinking) (λ s. s) (λ vs. vs) [] [] [] storage []
      (record { mount_path = "/data"; has_pvc_spec = false; has_empty_dir = true }) ephemeral shrink
      (λ f vs. refl) refl refl

abbrev claim : String → String → PersistentVolumeClaim
claim name path = record {
  name = name;
  mount_path = path;
  is_bound = true;
  labels = [];
  requests = ("storage", 10) ∷ [];
}

abbrev volume : Dict VolumeState → BrokerState
volume states = record empty_broker_state {
  graceful_action_state = record empty_broker_state.graceful_action_state {
    volume_states = states;
  };
}

-- Of broker 1 a volume is being emptied, of broker 2 one is empty.
abbrev shrinking_volumes : Cluster
shrinking_volumes = cluster (broker 1 "" ∷ broker 2 "" ∷ []) (
    (
      "1",
      volume (
          ("/a", Claims.in_state rebalance_required)
          ∷ ("/b", Claims.in_state removal_running)
          ∷ []),
    )
    ∷ (
      "2",
      volume (
          ("/a", Claims.in_state rebalance_required)
          ∷ ("/b", Claims.in_state removal_succeeded)
          ∷ []),
    )
    ∷ [])

abbrev claims : Claims.Env
claims = record {
  server = obedient shrinking_volumes;
  merge = λ a b. ok a;
  list_claims = λ t id. ok (claim "a" "/a" ∷ claim "b" "/b" ∷ []);
  create_claim = λ t c. none;
  update_claim = λ t c. none;
  set_last_applied_annotation = λ c. none;
  calculate = λ current desired. ok true;
}

abbrev volumes : World
volumes = record { cluster = shrinking_volumes; trace = [] }

-- The wait for broker 1 is forgotten where broker 2 comes after it.
forgotten :
    (reconcile_kafka_pvc claims
      (("1", claim "a" "/a" ∷ []) ∷ ("2", claim "a" "/a" ∷ []) ∷ [])
      volumes).0
    ≡ some none
unfolding reconcile_kafka_pvc Claims.reconcile_all Claims.reconcile_broker_claims
    Claims.is_controller parse_int koperator.Kafka.Pods.read_digits
    koperator.Prelude.Integers.equal_int koperator.Task.Brokers.get_broker_config
    Claims.handle_disk_removal remove_disks Claims.remove_disk lookup Claims.handle_volume
    koperator.Api.States.is_disk_removal_succeeded koperator.Api.States.is_disk_removal
    Claims.ensure_claims Claims.ensure_claim Claims.find_claim
    koperator.Api.States.is_disk_rebalance koperator.Api.States.is_disk_rebalance_running
    koperator.Api.States.is_disk_removal_running Claims.check_controller
    Claims.check_if_object_updated Claims.resize Claims.store_marks koperator.Prelude.Dict.insert
    koperator.Prelude.Dict.remove koperator.Status.Broker.generate_broker_state
    koperator.Status.Broker.insert_all koperator.Status.Broker.set_part
    koperator.Status.Broker.set_parts koperator.Status.Broker.update_broker_status
    koperator.Status.Update.change_status koperator.Status.Update.delete_volume_status
    koperator.Status.Update.write koperator.Status.World.delete koperator.Status.World.get
    koperator.Status.World.update koperator.Status.World.update_status
forgotten = refl

pending :
    (reconcile_kafka_pvc claims
      (("2", claim "a" "/a" ∷ []) ∷ ("1", claim "a" "/a" ∷ []) ∷ [])
      volumes).0
    ≡ some (some (failure "Disk removal pending"))
unfolding reconcile_kafka_pvc Claims.reconcile_all Claims.reconcile_broker_claims
    Claims.is_controller parse_int koperator.Kafka.Pods.read_digits
    koperator.Prelude.Integers.equal_int koperator.Task.Brokers.get_broker_config
    Claims.handle_disk_removal remove_disks Claims.remove_disk lookup Claims.handle_volume
    koperator.Api.States.is_disk_removal_succeeded koperator.Api.States.is_disk_removal
    Claims.ensure_claims Claims.ensure_claim Claims.find_claim
    koperator.Api.States.is_disk_rebalance koperator.Api.States.is_disk_rebalance_running
    koperator.Api.States.is_disk_removal_running Claims.check_controller
    Claims.check_if_object_updated Claims.resize Claims.store_marks koperator.Prelude.Dict.insert
    koperator.Prelude.Dict.remove koperator.Status.Broker.generate_broker_state
    koperator.Status.Broker.insert_all koperator.Status.Broker.set_part
    koperator.Status.Broker.set_parts koperator.Status.Broker.update_broker_status
    koperator.Status.Update.change_status koperator.Status.Update.delete_volume_status
    koperator.Status.Update.write koperator.Status.World.delete koperator.Status.World.get
    koperator.Status.World.update koperator.Status.World.update_status
pending = refl

abbrev desired_claims : List PersistentVolumeClaim
desired_claims = record (claim "a" "/a") { requests = ("storage", 20) ∷ [] } ∷ claim "c" "/c" ∷ []
