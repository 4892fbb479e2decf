-- ===== src/Kafka/Removal/Stuck.antt =====
-- The removal of a broker with an emptyDir volume.
use Prim.Native.String.append as append_laws
use Prim.Native.String.{◌++◌ as append}
use koperator.Prelude.{
  ℕ, ◌≡◌, ◌≢◌, refl, sym, ap, ◌∙◌, subst, String, Option, none, some, Bool, true, ◌&&◌, ◌||◌, not,
  List, [], ◌∷◌, ◌++◌, arith, any_of, is_some, length, Bool-cases, inl, inr, if_both, if◌then◌else◌,
}
use koperator.Prelude.Decimal.{itoa}
use koperator.Api.Failure.{Error, is_missing}
use koperator.Status.World.{
  Server, World, Trace, pod, config_map, delete, updated_status, updated, read_cluster, deleted,
  created_claim, updated_claim,
}
use koperator.Kafka.Pods.{Pod, Volume, has_prefix}
use koperator.Kafka.Volumes.{
  PersistentVolumeClaim, StorageConfig, claim_volumes, empty_dirs, empty_dir_volumes,
  generate_data_volume_and_volume_mount, fixed_volumes, get_volumes,
}
use koperator.Kafka.Removal.{
  Outcome, Step, returned, ◌then_do◌, delete_claim, delete_claims, delete_service, delete_status,
  ignore_missing, config_map_name, delete_objects, delete_broker,
}

-- a data volume without a claim
abbrev pub is_unclaimed : Volume → Bool
is_unclaimed v = has_prefix v.name "kafka-data" && not (is_some v.persistent_volume_claim)

has_prefix-append : (s t p : String) → has_prefix s p ≡ true → has_prefix (append s t) p ≡ true
unfolding has_prefix
has_prefix-append s t String.[] h = refl
has_prefix-append String.[] t (String.◌∷◌ d p) h = ground arith
has_prefix-append (String.◌∷◌ c s) t (String.◌∷◌ d p) h =
    subst (λ u. has_prefix u (String.◌∷◌ d p) ≡ true) (sym (append_laws.cons c s t))
      (ground (arith, has_prefix-append s t p))

is_data_volume : (t : String) → has_prefix (append "kafka-data-" t) "kafka-data" ≡ true
unfolding has_prefix
is_data_volume t = has_prefix-append "kafka-data-" t "kafka-data" listed
  where
    listed : has_prefix "kafka-data-" "kafka-data" ≡ true
    listed = refl

-- the calls that write the cluster
abbrev pub status_calls : Trace → Trace
status_calls [] = []
status_calls (updated_status c ∷ t) = updated_status c ∷ status_calls t
status_calls (updated c ∷ t) = updated c ∷ status_calls t
status_calls (read_cluster ∷ t) = status_calls t
status_calls (deleted kind name ∷ t) = status_calls t
status_calls (created_claim name ∷ t) = status_calls t
status_calls (updated_claim name requests labels ∷ t) = status_calls t

-- The cluster is neither changed in memory nor written.
abbrev pub Unwritten : World → World → Type 0
Unwritten w u = (u.cluster ≡ w.cluster) × (status_calls u.trace ≡ status_calls w.trace)

-- The step does not come to its end: it fails or panics, and has not touched the status till then.
abbrev pub Fails : World → Outcome → Type 0
Fails w o = (o.0 ≢ some none) × Unwritten w o.1

Fails-after :
    (w : World) (o : Outcome) (next : Step)
    → Unwritten w o.1
    → ((v : World) → Fails v (next v))
    → Fails w (o then_do next)
Fails-after w (none, v) next u h = ((λ k. ground arith), u)
Fails-after w (some (some e), v) next u h = ((λ k. ground arith), u)
Fails-after w (some none, v) next u h = ((h v).0, ((h v).1.0 ∙ u.0, (h v).1.1 ∙ u.1))

Fails-first : (w : World) (o : Outcome) (next : Step) → Fails w o → Fails w (o then_do next)
Fails-first w (none, v) next h = ((λ k. ground arith), h.1)
Fails-first w (some (some e), v) next h = ((λ k. ground arith), h.1)
Fails-first w (some none, v) next h = absurd (h.0 refl)

then_do-Unwritten :
    (w : World) (o : Outcome) (next : Step)
    → Unwritten w o.1
    → ((v : World) → Unwritten v (next v).1)
    → Unwritten w (o then_do next).1
then_do-Unwritten w (none, v) next u h = u
then_do-Unwritten w (some (some e), v) next u h = u
then_do-Unwritten w (some none, v) next u h = ((h v).0 ∙ u.0, (h v).1 ∙ u.1)

module _ (server : Server) where
  pub claims_cons :
      (v : Volume) (vs : List Volume) (w : World)
      → delete_claims server (v ∷ vs) w ≡ (
          if has_prefix v.name "kafka-data"
          then delete_claim server v.persistent_volume_claim w then_do delete_claims server vs
          else delete_claims server vs w)
  unfolding delete_claims
  claims_cons v vs w = refl

  ignored-Unwritten :
      (w : World) (p : Option Error × World)
      → Unwritten w p.1
      → Unwritten w (ignore_missing server p).1
  ignored-Unwritten w (none, v) h = h
  ignored-Unwritten w (some e, v) h =
      if_both (λ (o : Outcome). Unwritten w o.1) (is_missing e) (some none, v) (some (some e), v) h
        h

  service-Unwritten : (p : Pod) (w : World) → Unwritten w (delete_service server p w).1
  unfolding delete
  service-Unwritten p w = elim (Bool-cases w.cluster.spec.headless_service_enabled) [
    | inl e ↦ rw e (refl, refl)
    | inr e ↦ rw e (refl, refl)
  ]

  claim-Fails :
      (claim : Option String) (vs : List Volume) (w : World)
      → (not (is_some claim) || any_of is_unclaimed vs) ≡ true
      → ((u : World) → any_of is_unclaimed vs ≡ true → Fails u (delete_claims server vs u))
      → Fails w (delete_claim server claim w then_do delete_claims server vs)
  unfolding delete
  claim-Fails none vs w h ih = ((λ k. ground arith), (refl, refl))
  claim-Fails (some name) vs w h ih =
      Fails-after w (delete_claim server (some name) w) (delete_claims server vs) (refl, refl)
        (λ u. ih u h)

  claims-Fails :
      (vs : List Volume) (w : World)
      → any_of is_unclaimed vs ≡ true
      → Fails w (delete_claims server vs w)
  claims-Fails [] w h = absurd (ground arith)
  claims-Fails (v ∷ vs) w h = elim (Bool-cases (has_prefix v.name "kafka-data")) [
    | inl e ↦
        rw (claims_cons v vs w, e)
          (claim-Fails v.persistent_volume_claim vs w (ground arith) (claims-Fails vs))
    | inr e ↦ rw (claims_cons v vs w, e) (claims-Fails vs w (ground arith))
  ]

  objects-Fails :
      (p : Pod) (w : World)
      → any_of is_unclaimed p.volumes ≡ true
      → Fails w (delete_objects server p w)
  unfolding delete_objects delete
  objects-Fails p w h =
      let configured =
        ignore_missing server (delete server config_map (config_map_name server w.cluster p) w) in
      let before = configured then_do delete_service server p in
      Fails-first w (before then_do delete_claims server p.volumes) (delete_status server p) (
        Fails-after w before (delete_claims server p.volumes)
          (then_do-Unwritten w configured (delete_service server p)
            (ignored-Unwritten w (delete server config_map (config_map_name server w.cluster p) w)
              (refl, refl))
            (service-Unwritten p))
          (λ u. claims-Fails p.volumes u h))

  broker-Fails :
      (p : Pod) (w : World)
      → any_of is_unclaimed p.volumes ≡ true
      → Fails w (delete_broker server p w)
  unfolding delete_broker delete
  broker-Fails p w h =
      Fails-after w (returned (delete server pod p.name w)) (delete_objects server p) (refl, refl)
        (λ u. objects-Fails p u h)

any_of-append :
    (f : Volume → Bool) (xs ys : List Volume) → any_of f ys ≡ true → any_of f (xs ++ ys) ≡ true
any_of-append f [] ys h = h
any_of-append f (x ∷ xs) ys h = ground (arith, any_of-append f xs ys h)

has_unclaimed :
    (j : ℕ) (s : StorageConfig) (ss : List StorageConfig)
    → any_of is_unclaimed (empty_dir_volumes j (s ∷ ss)).0 ≡ true
unfolding empty_dir_volumes
has_unclaimed j s ss = rw (is_data_volume (itoa j)) refl

append-any_of :
    (f : Volume → Bool) (xs ys : List Volume) → any_of f xs ≡ true → any_of f (xs ++ ys) ≡ true
append-any_of f [] ys h = absurd (ground arith)
append-any_of f (x ∷ xs) ys h = ground (arith, append-any_of f xs ys)

data_unclaimed :
    (sort : List StorageConfig → List StorageConfig) (claims : List PersistentVolumeClaim)
    (storage ss : List StorageConfig) (s : StorageConfig)
    → sort (empty_dirs storage) ≡ s ∷ ss
    → any_of is_unclaimed (generate_data_volume_and_volume_mount sort claims storage).0 ≡ true
unfolding generate_data_volume_and_volume_mount
data_unclaimed sort claims storage ss s h =
    ap
      (λ es. any_of is_unclaimed (
        (claim_volumes 0 claims).0 ++ (empty_dir_volumes (length (claim_volumes 0 claims).0) es).0))
      h
    ∙ any_of-append is_unclaimed (claim_volumes 0 claims).0
        (empty_dir_volumes (length (claim_volumes 0 claims).0) (s ∷ ss)).0
        (has_unclaimed (length (claim_volumes 0 claims).0) s ss)

-- Sorting leaves the volumes in the list as they are, and adds none.
abbrev pub KeepsVolumes : (List Volume → List Volume) → Type 0
KeepsVolumes sort = (f : Volume → Bool) (vs : List Volume) → any_of f (sort vs) ≡ any_of f vs

-- The pod of a broker with an emptyDir volume, as generateDataVolumeAndVolumeMount and getVolumes make
-- its volumes (`s ∷ ss` are the emptyDir volumes, sorted), cannot be removed: whatever the API server
-- answers, the removal fails or panics, and till then the status of the cluster is neither changed in
-- memory nor written, so that the state of the broker is still there.
pub delete_broker-Fails :
    (server : Server) (sort : List StorageConfig → List StorageConfig)
    (sort_volumes : List Volume → List Volume) (config certificates : List Volume)
    (claims : List PersistentVolumeClaim) (storage ss : List StorageConfig) (s : StorageConfig)
    (p : Pod) (w : World)
    → KeepsVolumes sort_volumes
    → sort (empty_dirs storage) ≡ s ∷ ss
    → p.volumes
      ≡ get_volumes sort_volumes config
          (generate_data_volume_and_volume_mount sort claims storage).0
          certificates
          w.cluster.name
    → Fails w (delete_broker server p w)
unfolding get_volumes
delete_broker-Fails server sort sort_volumes config certificates claims storage ss s p w law h k =
    let made = (generate_data_volume_and_volume_mount sort claims storage).0 in
    let others = certificates ++ fixed_volumes w.cluster.name in
    broker-Fails server p w (
      ap (any_of is_unclaimed) k
      ∙ law is_unclaimed (config ++ (made ++ others))
      ∙ any_of-append is_unclaimed config (made ++ others)
          (append-any_of is_unclaimed made others (data_unclaimed sort claims storage ss s h)))
