-- ===== src/Status/Backup/Lost.antt =====
-- UpdateBrokerConfigurationBackup after a conflict.
use koperator.Prelude.{◌≡◌, refl, String, none, true, ◌∷◌}
use koperator.Api.Failure.{Answer, ok, err, api, conflict}
use koperator.Api.Cluster.{Broker}
use koperator.Status.World.{
  Cluster, updated_status, read_cluster, Server, World, update_status, get,
}
use koperator.Status.Backup.{
  retry_on_conflict, generate_broker_configuration_backups, update_fn,
  update_broker_configuration_backup,
}

module _ (server : Server) (gzip_and_base64 : Broker → Answer String) where
  update_fn-conflict :
      (w : World) (c fresh : Cluster)
      → generate_broker_configuration_backups server gzip_and_base64 w.cluster ≡ (ok true, c)
      → server.update_status w.trace c ≡ err (api conflict)
      → server.get (updated_status c ∷ w.trace) ≡ ok fresh
      → update_fn server gzip_and_base64 w
        ≡ (none, record { cluster = fresh; trace = read_cluster ∷ updated_status c ∷ w.trace })
  unfolding update_fn update_status get
  update_fn-conflict w c fresh g u r = rw (g, u, r) refl

  -- Where backups have changed, the server refuses the first update for a conflict and the cluster can be
  -- read again, UpdateBrokerConfigurationBackup returns no error, although the one update that it
  -- sent was refused and what is in memory is the cluster as read, without the backups.
  pub backup-lost :
      (w : World) (c fresh : Cluster)
      → generate_broker_configuration_backups server gzip_and_base64 w.cluster ≡ (ok true, c)
      → server.update_status w.trace c ≡ err (api conflict)
      → server.get (updated_status c ∷ w.trace) ≡ ok fresh
      → update_broker_configuration_backup server gzip_and_base64 w
        ≡ (none, record { cluster = fresh; trace = read_cluster ∷ updated_status c ∷ w.trace })
  unfolding update_broker_configuration_backup retry_on_conflict
  backup-lost w c fresh g u r = rw (update_fn-conflict w c fresh g u r) refl
