-- ===== src/Kafka/Removal/Spared.antt =====
-- The pods that reconcileKafkaPodDelete leaves alone.
use koperator.Prelude.{
  ◌≡◌, refl, ap, ◌∙◌, String, Option, none, some, Bool, true, false, not, ◌&&◌, List, [], ◌∷◌,
  arith, is_some, any_of, keep, str_eq, Bool-cases, inl, inr, if◌then◌else◌,
}
use koperator.Prelude.Dict.{lookup}
use koperator.Task.Brokers.{string_slice_contains}
use koperator.Api.Failure.{ok, Error, is_missing, Answer-cases}
use koperator.Status.World.{
  Cluster, Server, World, Trace, Kind, delete, pod, config_map, service, persistent_volume_claim,
}
use koperator.Status.Update.{without_broker, delete_broker_status}
use koperator.Status.Broker.{update_broker_status, generate_broker_state, graceful_action_state}
use koperator.Status.Update.Keeps.{deletions, change_status-deletions}
use koperator.Kafka.Pods.{Pod, Volume, has_prefix, are_pods_already_deleted}
use koperator.Kafka.Racks.{label}
use koperator.Kafka.Removal.{
  Env, Outcome, Step, returned, ◌then_do◌, ids_of_spec, pods_deleted_from_spec, awaiting_downscale,
  mark, pending_graceful_downscale, ignore_missing, id_of, config_map_name, delete_claim,
  delete_claims, delete_service, delete_status, delete_objects, delete_broker, is_kept,
  delete_brokers, mark_for_downscale, remove_pods, reconcile_kafka_pod_delete,
}

abbrev is_pod_named : String → Kind × String → Bool
is_pod_named name (pod, other) = str_eq other name
is_pod_named name (config_map, other) = false
is_pod_named name (service, other) = false
is_pod_named name (persistent_volume_claim, other) = false

-- how often the pod was deleted
abbrev pub pod_deletions : String → Trace → List (Kind × String)
pod_deletions name t = keep (is_pod_named name) (deletions t)

-- A pod with that name, which is not being deleted, has the id of a broker that is not in the spec.
abbrev pub is_leftover : Cluster → String → Pod → Bool
is_leftover c name p =
    str_eq p.name name
    && not p.is_deleted
    && is_some (lookup "brokerId" p.labels)
    && not (string_slice_contains (ids_of_spec c) (label "brokerId" p))

abbrev pub is_removable : String → Pod → Bool
is_removable name p = str_eq p.name name && not p.is_deleted

leftover-removable :
    (c : Cluster) (name : String) (pods : List Pod)
    → any_of (is_leftover c name) pods ≡ false
    → any_of (is_removable name) (pods_deleted_from_spec c pods) ≡ false
unfolding pods_deleted_from_spec
leftover-removable c name [] h = refl
leftover-removable c name (p ∷ ps) h =
    let ih = leftover-removable c name ps (ground arith) in ground arith

module _ (server : Server) (name : String) where
  -- The step does not delete the pod.
  abbrev pub Spares : World → Outcome → Type 0
  Spares w o = pod_deletions name o.1.trace ≡ pod_deletions name w.trace

  then_do-Spares :
      (w : World) (o : Outcome) (next : Step)
      → ((v : World) → Spares v (next v))
      → Spares w o
      → Spares w (o then_do next)
  then_do-Spares w (none, v) next h k = k
  then_do-Spares w (some (some e), v) next h k = k
  then_do-Spares w (some none, v) next h k = h v ∙ k

  ignored-Spares :
      (w : World) (p : Option Error × World)
      → pod_deletions name p.1.trace ≡ pod_deletions name w.trace
      → Spares w (ignore_missing server p)
  ignored-Spares w (none, v) h = h
  ignored-Spares w (some e, v) h =
      elim (is_missing e) as (λ b. Spares w (if b then (some none, v) else (some (some e), v))) [
        | true ↦ h
        | false ↦ h
      ]

  service-Spares : (p : Pod) (w : World) → Spares w (delete_service server p w)
  unfolding delete
  service-Spares p w = elim (Bool-cases w.cluster.spec.headless_service_enabled) [
    | inl e ↦ rw e refl
    | inr e ↦ rw e refl
  ]

  claim-Spares : (claim : Option String) (w : World) → Spares w (delete_claim server claim w)
  unfolding delete
  claim-Spares none w = refl
  claim-Spares (some other) w = refl

  claims-Spares : (vs : List Volume) (w : World) → Spares w (delete_claims server vs w)
  unfolding delete_claims
  claims-Spares [] w = refl
  claims-Spares (v ∷ vs) w = elim (Bool-cases (has_prefix v.name "kafka-data")) [
    | inl e ↦ rw e (
        then_do-Spares w (delete_claim server v.persistent_volume_claim w) (delete_claims server vs)
          (claims-Spares vs) (claim-Spares v.persistent_volume_claim w))
    | inr e ↦ rw e (claims-Spares vs w)
  ]

  status-Spares : (p : Pod) (w : World) → Spares w (delete_status server p w)
  unfolding delete_broker_status
  status-Spares p w =
      ap (keep (is_pod_named name))
        (change_status-deletions server (without_broker (id_of server p)) w)

  objects-Spares : (p : Pod) (w : World) → Spares w (delete_objects server p w)
  unfolding delete_objects delete
  objects-Spares p w =
      let configured =
        ignore_missing server (delete server config_map (config_map_name server w.cluster p) w) in
      let served = configured then_do delete_service server p in
      then_do-Spares w (served then_do delete_claims server p.volumes) (delete_status server p)
        (status-Spares p)
        (then_do-Spares w served (delete_claims server p.volumes) (claims-Spares p.volumes) (
          then_do-Spares w configured (delete_service server p) (service-Spares p) (
            ignored-Spares w (delete server config_map (config_map_name server w.cluster p) w)
              refl)))

  broker-Spares :
      (p : Pod) (w : World) → str_eq p.name name ≡ false → Spares w (delete_broker server p w)
  unfolding delete_broker delete
  broker-Spares p w h =
      then_do-Spares w (returned (delete server pod p.name w)) (delete_objects server p)
        (objects-Spares p) (rw h refl)

  kept-deleted : (c : Cluster) (p : Pod) → is_kept server c p ≡ false → p.is_deleted ≡ false
  unfolding is_kept
  kept-deleted c p h = ground arith

  brokers-Spares :
      (pods : List Pod) (w : World)
      → any_of (is_removable name) pods ≡ false
      → Spares w (delete_brokers server pods w)
  unfolding delete_brokers
  brokers-Spares [] w h = refl
  brokers-Spares (p ∷ ps) w h = elim (Bool-cases (is_kept server w.cluster p)) [
    | inl e ↦ rw e (brokers-Spares ps w (ground arith))
    | inr e ↦
        let running = kept-deleted w.cluster p e in
        rw e (
          then_do-Spares w (delete_broker server p w) (delete_brokers server ps)
            (λ v. brokers-Spares ps v (ground arith)) (broker-Spares p w (ground arith)))
  ]

  mark-Spares : (ids : List String) (w : World) → Spares w (mark server ids w)
  unfolding update_broker_status
  mark-Spares [] w = refl
  mark-Spares (id ∷ ids) w = ap (keep (is_pod_named name)) (
      change_status-deletions server
        (generate_broker_state (id ∷ ids) (graceful_action_state awaiting_downscale)) w)

module _ (env : Env) (name : String) where
  marked-Spares :
      (pods : List Pod) (w : World) → Spares env.server name w (mark_for_downscale env pods w)
  unfolding mark_for_downscale
  marked-Spares pods w = elim (Bool-cases (are_pods_already_deleted pods)) [
    | inl e ↦ rw e refl
    | inr e ↦ elim (Answer-cases (env.available_brokers w.trace)) [
      | inl (available, q) ↦
          rw (e, q)
            (mark-Spares env.server name (pending_graceful_downscale w.cluster pods available) w)
      | inr (f, q) ↦ rw (e, q) refl
    ]
  ]

  remove_pods-Spares :
      (pods : List Pod) (w : World)
      → any_of (is_removable name) pods ≡ false
      → Spares env.server name w (remove_pods env pods w)
  remove_pods-Spares [] w h = refl
  remove_pods-Spares (p ∷ ps) w h =
      then_do-Spares env.server name w (mark_for_downscale env (p ∷ ps) w)
        (delete_brokers env.server (p ∷ ps)) (λ v. brokers-Spares env.server name (p ∷ ps) v h)
        (marked-Spares (p ∷ ps) w)

  -- Whatever the API server and Cruise Control answer, and wherever it ends, reconcileKafkaPodDelete
  -- deletes no pod but one that it has listed, that is not being deleted already, and that has a broker
  -- id which is not in the spec.
  pub reconcile_kafka_pod_delete-Spares :
      (pods : List Pod) (w : World)
      → env.list_pods w.trace ≡ ok pods
      → any_of (is_leftover w.cluster name) pods ≡ false
      → Spares env.server name w (reconcile_kafka_pod_delete env w)
  unfolding reconcile_kafka_pod_delete
  reconcile_kafka_pod_delete-Spares pods w l h =
      rw (reconcile_kafka_pod_delete, l)
        (remove_pods-Spares (pods_deleted_from_spec w.cluster pods) w
          (leftover-removable w.cluster name pods h))
