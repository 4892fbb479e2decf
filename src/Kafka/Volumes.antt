-- ===== src/Kafka/Volumes.antt =====
-- generateDataVolumeAndVolumeMount and getVolumes of pkg/resources/kafka/pod.go: the volumes of a broker.
use Prim.Native.String.{◌++◌ as append}
use koperator.Prelude.{
  ℕ, suc, String, none, some, Bool, ◌&&◌, not, List, [], ◌∷◌, ◌++◌, keep, length,
}
use koperator.Prelude.Dict.{Dict, lookup}
use koperator.Prelude.Decimal.{itoa}
use koperator.Kafka.Pods.{Volume}

pub record PersistentVolumeClaim : Type 0 where
  pub name : String
  pub mount_path : String  -- the annotation mountPath
  pub is_bound : Bool
  pub labels : Dict String
  pub requests : Dict ℕ  -- Spec.Resources.Requests

-- Requests.Storage().Value(), which is 0 where nothing is requested
abbrev pub storage_of : PersistentVolumeClaim → ℕ
storage_of c = elim (lookup "storage" c.requests) [ none ↦ 0 | some n ↦ n ]

pub record StorageConfig : Type 0 where
  pub mount_path : String
  pub has_pvc_spec : Bool
  pub has_empty_dir : Bool

pub record VolumeMount : Type 0 where
  pub name : String
  pub mount_path : String

abbrev pub volume_name : ℕ → String
volume_name i = append "kafka-data-" (itoa i)

unfoldable pub claim_volumes : ℕ → List PersistentVolumeClaim → List Volume × List VolumeMount
claim_volumes i [] = ([], [])
claim_volumes i (c ∷ cs) =
    let (vs, ms) = claim_volumes (suc i) cs in
    (
      record { name = volume_name i; persistent_volume_claim = some c.name } ∷ vs,
      record { name = volume_name i; mount_path = c.mount_path } ∷ ms,
    )

abbrev pub empty_dirs : List StorageConfig → List StorageConfig
empty_dirs storage = keep (λ s. not s.has_pvc_spec && s.has_empty_dir) storage

unfoldable pub empty_dir_volumes : ℕ → List StorageConfig → List Volume × List VolumeMount
empty_dir_volumes j [] = ([], [])
empty_dir_volumes j (s ∷ ss) =
    let (vs, ms) = empty_dir_volumes (suc j) ss in
    (
      record { name = volume_name j; persistent_volume_claim = none } ∷ vs,
      record { name = volume_name j; mount_path = s.mount_path } ∷ ms,
    )

module _ (sort : List StorageConfig → List StorageConfig) where
  -- `sort` is sort.Slice by the mount path, which need not be stable.
  unfoldable pub generate_data_volume_and_volume_mount :
      List PersistentVolumeClaim → List StorageConfig → List Volume × List VolumeMount
  generate_data_volume_and_volume_mount claims storage =
      let (vs, ms) = claim_volumes 0 claims in
      let (es, ns) = empty_dir_volumes (length vs) (sort (empty_dirs storage)) in
      (vs ++ es, ms ++ ns)

-- A volume that is not made from a claim.
abbrev pub plain : String → Volume
plain name = record { name = name; persistent_volume_claim = none }

-- the volumes that every pod of a broker has
abbrev pub fixed_volumes : String → List Volume
fixed_volumes cluster =
    plain "exitfile"
    ∷ plain "broker-config"
    ∷ plain "extensions"
    ∷ plain (append cluster "-kafka-jmx-exporter")
    ∷ plain "jmx-jar-data"
    ∷ []

-- getVolumes, with the volumes of the broker's configuration, the data volumes and those of the
-- certificates; `sort` is sort.Slice by the name.
unfoldable pub get_volumes :
    (List Volume → List Volume) → List Volume → List Volume → List Volume → String → List Volume
get_volumes sort config data_volumes certificates cluster =
    sort (config ++ (data_volumes ++ (certificates ++ fixed_volumes cluster)))
