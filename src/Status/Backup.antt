-- ===== src/Status/Backup.antt =====
-- UpdateBrokerConfigurationBackup of pkg/k8sutil/status.go. The compression of a configuration is an
-- argument.
pub mod Lost
use koperator.Prelude.{
  ℕ, zero, suc, String, Option, none, some, Bool, true, false, ◌||◌, not, List, [], ◌∷◌, str_eq,
  if◌then◌else◌,
}
use koperator.Prelude.Dict.{Dict, lookup, insert}
use koperator.Prelude.Decimal.{itoa}
use koperator.Api.Failure.{Answer, ok, err, Error, is_conflict}
use koperator.Api.Cluster.{Broker}
use koperator.Api.States.{BrokerState}
use koperator.Status.World.{Cluster, Server, World, Action, update_status, get}
use koperator.Status.Broker.{or_empty_state}

abbrev pub is_retried : Option Error → Bool
is_retried none = false
is_retried (some e) = is_conflict e

-- RetryOnConflict with that many steps left; the last error is returned
unfoldable pub retry_on_conflict : ℕ → Action → Action
retry_on_conflict zero fn w = fn w
retry_on_conflict (suc n) fn w =
    let (e, u) = fn w in
    let again = retry_on_conflict n fn u in if is_retried e then again else (e, u)

module _ (server : Server) (gzip_and_base64 : Broker → Answer String) where
  abbrev pub back_up : Broker → String → Dict BrokerState → Dict BrokerState
  back_up b text m =
      insert (itoa b.id)
        (record (or_empty_state (lookup (itoa b.id) m)) { configuration_backup = text }) m

  abbrev pub is_changed : Broker → String → Dict BrokerState → Bool
  is_changed b text m =
      not (str_eq text (or_empty_state (lookup (itoa b.id) m)).configuration_backup)

  -- The loop: whether the status must be written, and the states; those before an error are stored too.
  unfoldable pub back_up_all :
      List Broker → Bool → Dict BrokerState → Answer Bool × Dict BrokerState
  back_up_all [] changed m = (ok changed, m)
  back_up_all (b ∷ bs) changed m = elim (gzip_and_base64 b) [
    | err e ↦ (err e, m)
    | ok text ↦ back_up_all bs (changed || is_changed b text m) (back_up b text m)
  ]

  -- generateBrokerConfigurationBackups
  unfoldable pub generate_broker_configuration_backups : Cluster → Answer Bool × Cluster
  generate_broker_configuration_backups c =
      let (changed, m) = back_up_all c.spec.brokers false c.brokers_state in
      (changed, record c { brokers_state = m })

  -- After a conflict the error of the reading is returned, which is nil where it succeeds.
  abbrev pub after_update : Option Error × World → Option Error × World
  after_update (none, w) = (none, w)
  after_update (some e, w) = if is_conflict e then get server w else (some e, w)

  abbrev pub store_backups : Answer Bool × Cluster → World → Option Error × World
  store_backups (err e, c) w = (some e, record w { cluster = c })
  store_backups (ok false, c) w = (none, record w { cluster = c })
  store_backups (ok true, c) w = after_update (update_status server (record w { cluster = c }))

  -- updateFn
  unfoldable pub update_fn : Action
  update_fn w = store_backups (generate_broker_configuration_backups w.cluster) w

  unfoldable pub update_broker_configuration_backup : Action
  update_broker_configuration_backup = retry_on_conflict 5 update_fn
