-- ===== src/Alert/World.antt =====
-- The calls that the commands make, and a monad for them: a run answers with a value, with an error,
-- or with a panic (`none`), and keeps the calls made so far, the newest first. Every answer may depend
-- on all of them.
use koperator.Prelude.{ℕ, String, Option, none, some, List, ◌∷◌}
use koperator.Prelude.Dict.{Dict}
use koperator.Api.Failure.{Answer, ok, err, Error}
use koperator.Alert.Types.{BrokerConfig, Cluster, Pvc}

pub data Call : Type 0 where
  got_cr : String → String → Call
  got_pvc : String → String → Call
  listed_pvcs : String → String → Call
  updated_cr : Cluster → Call
  updated_status : Cluster → Call
  asked_least_loaded asked_random : Call

abbrev pub Trace : Type 0
Trace = List Call

pub record Env : Type 0 where
  pub get_cr : Trace → String → String → Answer Cluster
  pub get_pvc : Trace → String → String → Answer Pvc
  -- the claims in a namespace that have the labels of a cluster
  pub list_pvcs : Trace → String → String → Answer (List Pvc)
  pub update_cr : Trace → Cluster → Option Error
  -- UpdateCRStatus, which leaves the cluster as the server has it
  pub update_status : Trace → Cluster → Answer Cluster
  -- NewCruiseControlScaler and BrokerWithLeastPartitionReplicas
  pub least_loaded : Trace → Answer String
  pub random : Trace → Answer String
  -- resource.ParseQuantity; MustParse panics where it has an error
  pub parse_quantity : String → Option ℕ
  -- json.Unmarshal into a map, which is nil where the text is no such map
  pub parse_annotations : String → Dict String
  -- mergo.Merge and the merges of affinity and environment, in GetBrokerConfig
  pub merge_config : BrokerConfig → BrokerConfig → Answer BrokerConfig

abbrev pub Run : Type 0 → Type 0
Run A = Trace → Option (Answer A) × Trace

module _ {A : Type 0} where
  unfoldable pub pure : A → Run A
  pure a t = (some (ok a), t)

  unfoldable pub fail : Error → Run A
  fail e t = (some (err e), t)

  unfoldable pub panic : Run A
  panic t = (none, t)

  unfoldable pub call : Call → (Trace → Answer A) → Run A
  call c answer t = (some (answer t), c ∷ t)

module _ {A B : Type 0} where
  abbrev pub continue : Option (Answer A) → (A → Run B) → Run B
  continue none k t = (none, t)
  continue (some (err e)) k t = (some (err e), t)
  continue (some (ok a)) k t = k a t

  infixl 5 ◌>>=◌ ◌>>◌
  unfoldable pub ◌>>=◌ : Run A → (A → Run B) → Run B
  unfolding pure fail panic call
  ◌>>=◌ m k t = let (a, u) = m t in continue a k u

  abbrev pub ◌>>◌ : Run A → Run B → Run B
  m >> k = m >>= λ _. k
