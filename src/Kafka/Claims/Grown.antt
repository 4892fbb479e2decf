-- ===== src/Kafka/Claims/Grown.antt =====
-- How reconcileKafkaPvc creates and resizes the claims of a broker.
use koperator.Prelude.{◌≡◌, ◌≤◌, String, none, some, List, ◌∷◌}
use koperator.Api.Failure.{ok}
use koperator.Status.World.{World, created_claim, updated_claim}
use koperator.Kafka.Volumes.{PersistentVolumeClaim, storage_of}
use koperator.Kafka.Claims.{Env, Progress, find_claim}

module _ (env : Env) (id : String) where
  -- The ways from one state of the loop over the desired claims to another. The world stays as it is, or
  -- a claim is created in a place that no claim of the broker has, or the claim in a place gets the
  -- requests and the labels of the one desired there, which asks for no less storage.
  pub data Grows : Progress → Progress → Type 0 where
    same : (p q : Progress) → q.world ≡ p.world → Grows p q
    created :
        (d : PersistentVolumeClaim) (claims : List PersistentVolumeClaim) (p q : Progress)
        → env.list_claims p.world.trace id ≡ ok claims
        → find_claim env id d.mount_path claims ≡ none
        → q.world ≡ record p.world { trace = created_claim d.name ∷ p.world.trace }
        → Grows p q
    grown :
        (d c : PersistentVolumeClaim) (claims : List PersistentVolumeClaim) (p q : Progress)
        → env.list_claims p.world.trace id ≡ ok claims
        → find_claim env id d.mount_path claims ≡ some c
        → storage_of c ≤ storage_of d
        → q.world
          ≡ record p.world { trace = updated_claim c.name d.requests d.labels ∷ p.world.trace }
        → Grows p q
    both : (p q r : Progress) → Grows p q → Grows q r → Grows p r
