-- ===== src/Kafka/Claims/Emptied.antt =====
-- Which volumes handleDiskRemoval deletes.
use koperator.Prelude.{◌≡◌, String, some, false, List, ◌∷◌}
use koperator.Prelude.Dict.{lookup}
use koperator.Api.States.{BrokerState, VolumeState, removal_succeeded}
use koperator.Status.World.{World, persistent_volume_claim}
use koperator.Status.Update.Keeps.{deletions}
use koperator.Kafka.Volumes.{PersistentVolumeClaim}
use koperator.Kafka.Claims.{Env, Progress, is_desired, delete_disk}

module _ (env : Env) (id : String) (desired : List PersistentVolumeClaim) where
  -- The volume is in no desired place, and its state says that Cruise Control has moved all data away.
  abbrev pub Emptied : PersistentVolumeClaim → Progress → Type 0
  Emptied c p =
      (is_desired env id desired c ≡ false)
      × ((b : BrokerState) × (lookup id p.world.cluster.brokers_state ≡ some b)
          × ((s : VolumeState) × (lookup c.mount_path b.graceful_action_state.volume_states
                ≡ some s)
              × (s.cruise_control_volume_state ≡ removal_succeeded)))

  -- The ways from one state of the loop to another: the world stays as it is, or an emptied volume is
  -- deleted, alone.
  pub data Deletes : Progress → Progress → Type 0 where
    nothing : (p q : Progress) → q.world ≡ p.world → Deletes p q
    emptied :
        (c : PersistentVolumeClaim) (p q : Progress)
        → Emptied c p
        → q ≡ (delete_disk env id c p).1
        → deletions q.world.trace ≡ (persistent_volume_claim, c.name) ∷ deletions p.world.trace
        → Deletes p q
    both : (p q r : Progress) → Deletes p q → Deletes q r → Deletes p r
