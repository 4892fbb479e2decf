-- ===== src/Alert/Cluster.antt =====
-- The calls on the cluster: GetCr, UpdateCr, AddNewBrokerToCr, RemoveBrokerFromCr, AddPvToSpecificBroker
-- and UpdateCrWithRollingUpgrade of pkg/k8sutil/cr.go, and GetBrokersWithPendingOrRunningCCTask of
-- pkg/resources/kafka/kafka.go.
use koperator.Prelude.{
  ℕ, String, Option, none, some, Bool, true, false, ◌&&◌, ◌||◌, not, List, [], ◌∷◌, ◌++◌, map, keep,
  str_eq, is_some, if◌then◌else◌,
}
use koperator.Prelude.Dict.{Dict, lookup}
use koperator.Prelude.Decimal.{itoa}
use koperator.Api.Failure.{Answer, ok, err, Error}
use koperator.Api.States.{
  BrokerState, VolumeState, is_required_state, is_running_state, is_disk_removal, is_disk_rebalance,
}
use koperator.Alert.Types.{Broker, BrokerConfig, Cluster, StorageConfig}
use koperator.Alert.World.{Env, Run, got_cr, updated_cr, updated_status, call, ◌>>=◌}

-- a broker's id once for each volume that is removed or rebalanced
unfoldable pub busy_volumes : ℕ → Dict VolumeState → List ℕ
busy_volumes id [] = []
busy_volumes id ((path, v) ∷ vs) =
    let rest = busy_volumes id vs in
    if is_disk_removal v.cruise_control_volume_state
      || is_disk_rebalance v.cruise_control_volume_state
    then id ∷ rest
    else rest

unfoldable pub busy_ids : ℕ → Option BrokerState → List ℕ
busy_ids id none = []
busy_ids id (some state) =
    let s = state.graceful_action_state in
    if is_required_state s.cruise_control_state
      || (is_some s.cruise_control_operation_reference && is_running_state s.cruise_control_state)
    then id ∷ []
    else busy_volumes id s.volume_states

unfoldable pub get_brokers_with_pending_or_running_cc_task : Dict BrokerState → List Broker → List ℕ
get_brokers_with_pending_or_running_cc_task states [] = []
get_brokers_with_pending_or_running_cc_task states (b ∷ bs) =
    busy_ids b.id (lookup (itoa b.id) states)
    ++ get_brokers_with_pending_or_running_cc_task states bs

abbrev pub is_busy : Cluster → Bool
is_busy cr = elim (get_brokers_with_pending_or_running_cc_task cr.brokers_state cr.brokers) [
  | [] ↦ false
  | id ∷ ids ↦ true
]

abbrev pub empty_config : BrokerConfig
empty_config = record { image = ""; storage_configs = []; broker_annotations = [] }

abbrev pub config_or_empty : Option BrokerConfig → BrokerConfig
config_or_empty none = empty_config
config_or_empty (some c) = c

abbrev pub is_broker : String → Broker → Bool
is_broker id b = str_eq (itoa b.id) id

abbrev pub with_storage : StorageConfig → Broker → Broker
with_storage s b =
    let c = config_or_empty b.broker_config in
    record b { broker_config = some (record c { storage_configs = c.storage_configs ++ (s ∷ []) }) }

unfoldable pub add_storage : String → StorageConfig → List Broker → List Broker
add_storage id s bs = map (λ b. if is_broker id b then with_storage s b else b) bs

unfoldable pub without_broker : String → List Broker → List Broker
without_broker id bs = keep (λ b. not (is_broker id b)) bs

abbrev pub done_or : Option Error → Answer (Unit {0})
done_or none = ok tt
done_or (some e) = err e

module _ (env : Env) where
  unfoldable pub get_cr : String → String → Run Cluster
  get_cr name namespace = call (got_cr name namespace) (λ t. env.get_cr t name namespace)

  unfoldable pub update_cr : Cluster → Run (Unit {0})
  update_cr cr = call (updated_cr cr) (λ t. done_or (env.update_cr t cr))

  unfoldable pub add_new_broker_to_cr : Broker → String → String → Run (Unit {0})
  add_new_broker_to_cr b name namespace = do
    cr ← get_cr name namespace
    update_cr (record cr { brokers = cr.brokers ++ (b ∷ []) })

  unfoldable pub remove_broker_from_cr : String → String → String → Run (Unit {0})
  remove_broker_from_cr id name namespace = do
    cr ← get_cr name namespace
    update_cr (record cr { brokers = without_broker id cr.brokers })

  unfoldable pub add_pv_to_specific_broker :
      String → String → String → StorageConfig → Run (Unit {0})
  add_pv_to_specific_broker id name namespace s = do
    cr ← get_cr name namespace
    update_cr (record cr { brokers = add_storage id s cr.brokers })

  unfoldable pub update_cr_with_rolling_upgrade : ℕ → Cluster → Run Cluster
  update_cr_with_rolling_upgrade n cr =
      let counted = record cr { error_count = n } in
      call (updated_status counted) (λ t. env.update_status t counted)
