-- ===== src/Kafka/Removal/Guarded.antt =====
-- reconcileKafkaPodDelete and the brokers that Cruise Control has not emptied.
use koperator.Prelude.{
  ◌≡◌, refl, sym, subst, String, Option, none, some, true, false, not, List, [], ◌∷◌, arith, All,
  keep, str_eq, eq_iff, Bool-cases, inl, inr, if◌then◌else◌,
}
use koperator.Prelude.Dict.{lookup, lookup-remove}
use koperator.Api.Failure.{ok, Error, is_missing}
use koperator.Status.World.{
  Cluster, Server, World, Trace, Kind, delete, pod, config_map, persistent_volume_claim,
}
use koperator.Status.Update.{without_broker, delete_broker_status}
use koperator.Status.Update.Keeps.{Keeping, change_status-keeps}
use koperator.Kafka.Pods.{Pod, Volume, has_prefix}
use koperator.Kafka.Removal.Stuck.{claims_cons}
use koperator.Kafka.Removal.{
  Outcome, Step, returned, ◌then_do◌, ignore_missing, id_of, config_map_name, delete_claim,
  delete_claims, delete_service, delete_status, delete_objects, delete_broker, is_controller_only,
  is_unfinished, is_kept, delete_brokers,
}

module _ (server : Server) (id : String) where
  -- Cruise Control has not removed the broker from the load, nor is it about to get any.
  abbrev pub Unfinished : Cluster → Type 0
  Unfinished c = is_unfinished server (lookup id c.brokers_state) ≡ true

  -- The answers of the server leave that as it is.
  pub record Steady : Type 0 where
    pub keeping : Keeping server Unfinished
    pub reads : (t : Trace) (d : Cluster) → server.get t ≡ ok d → Unfinished d

  -- The broker stays unfinished through a step.
  abbrev Stays : Outcome → Type 0
  Stays o = Unfinished o.1.cluster

  then_do-Stays :
      (o : Outcome) (next : Step)
      → ((w : World) → Unfinished w.cluster → Stays (next w))
      → Stays o
      → Stays (o then_do next)
  then_do-Stays (none, w) next h k = k
  then_do-Stays (some (some e), w) next h k = k
  then_do-Stays (some none, w) next h k = h w k

  returned-Stays : (p : Option Error × World) → Unfinished p.1.cluster → Stays (returned p)
  returned-Stays (e, w) h = h

  ignored-Stays :
      (p : Option Error × World) → Unfinished p.1.cluster → Stays (ignore_missing server p)
  ignored-Stays (none, w) h = h
  ignored-Stays (some e, w) h =
      elim (is_missing e) as (λ b. Stays (if b then (some none, w) else (some (some e), w))) [
        | true ↦ h
        | false ↦ h
      ]

  deleted-Stays :
      (kind : Kind) (name : String) (w : World)
      → Unfinished w.cluster
      → Unfinished (delete server kind name w).1.cluster
  unfolding delete
  deleted-Stays kind name w h = h

  service-Stays : (p : Pod) (w : World) → Unfinished w.cluster → Stays (delete_service server p w)
  unfolding delete
  service-Stays p w h = elim (Bool-cases w.cluster.spec.headless_service_enabled) [
    | inl e ↦ simp e h
    | inr e ↦ simp e h
  ]

  claim-Stays :
      (claim : Option String) (w : World)
      → Unfinished w.cluster
      → Stays (delete_claim server claim w)
  claim-Stays none w h = h
  claim-Stays (some name) w h = deleted-Stays persistent_volume_claim name w h

  no_claims : (w : World) → Unfinished w.cluster → Stays (delete_claims server [] w)
  unfolding delete_claims
  no_claims w h = h

  claims-Stays :
      (vs : List Volume) (w : World) → Unfinished w.cluster → Stays (delete_claims server vs w)
  claims-Stays [] w h = no_claims w h
  claims-Stays (v ∷ vs) w h = elim (Bool-cases (has_prefix v.name "kafka-data")) [
    | inl e ↦
        rw (claims_cons server v vs w, e)
          (then_do-Stays (delete_claim server v.persistent_volume_claim w) (delete_claims server vs)
            (claims-Stays vs) (claim-Stays v.persistent_volume_claim w h))
    | inr e ↦ rw (claims_cons server v vs w, e) (claims-Stays vs w h)
  ]

  status-Stays :
      Steady
      → (p : Pod) (w : World) → str_eq (id_of server p) id ≡ false
      → Unfinished w.cluster
      → Stays (delete_status server p w)
  unfolding delete_broker_status
  status-Stays laws p w other h =
      change_status-keeps server Unfinished laws.keeping (without_broker (id_of server p)) w
        laws.reads (λ c k. rw (lookup-remove (id_of server p) id c.brokers_state, other) k) h

  objects-Stays :
      Steady
      → (p : Pod) → str_eq (id_of server p) id ≡ false
      → (w : World) → Unfinished w.cluster
      → Stays (delete_objects server p w)
  unfolding delete_objects
  objects-Stays laws p other w h =
      let configured =
        ignore_missing server (delete server config_map (config_map_name server w.cluster p) w) in
      let served = configured then_do delete_service server p in
      then_do-Stays (served then_do delete_claims server p.volumes) (delete_status server p)
        (λ u k. status-Stays laws p u other k)
        (then_do-Stays served (delete_claims server p.volumes) (claims-Stays p.volumes) (
          then_do-Stays configured (delete_service server p) (service-Stays p) (
            ignored-Stays (delete server config_map (config_map_name server w.cluster p) w)
              (deleted-Stays config_map (config_map_name server w.cluster p) w h))))

  broker-Stays :
      Steady
      → (p : Pod) (w : World) → str_eq (id_of server p) id ≡ false
      → Unfinished w.cluster
      → Stays (delete_broker server p w)
  unfolding delete_broker
  broker-Stays laws p w other h =
      then_do-Stays (returned (delete server pod p.name w)) (delete_objects server p)
        (objects-Stays laws p other) (deleted-Stays pod p.name w h)

  same_after :
      (o : Outcome) (next next' : Step)
      → ((w : World) → Unfinished w.cluster → next w ≡ next' w)
      → Stays o
      → (o then_do next) ≡ (o then_do next')
  same_after (none, w) next next' h k = refl
  same_after (some (some e), w) next next' h k = refl
  same_after (some none, w) next next' h k = h w k

  -- the pods of other brokers
  abbrev pub others : List Pod → List Pod
  others pods = keep (λ p. not (str_eq (id_of server p) id)) pods

  brokers_cons :
      (p : Pod) (ps : List Pod) (w : World)
      → delete_brokers server (p ∷ ps) w ≡ (
          if is_kept server w.cluster p
          then delete_brokers server ps w
          else (delete_broker server p w then_do delete_brokers server ps))
  unfolding delete_brokers
  brokers_cons p ps w = refl

  kept :
      (p : Pod) (w : World)
      → str_eq (id_of server p) id ≡ true
      → is_controller_only server p ≡ false
      → Unfinished w.cluster
      → is_kept server w.cluster p ≡ true
  unfolding is_kept
  kept p w e c h =
      let same : id_of server p ≡ id = (eq_iff (id_of server p) id).0 e in
      let unfinished : is_unfinished server (lookup (id_of server p) w.cluster.brokers_state)
          ≡ true =
        subst (λ i. is_unfinished server (lookup i w.cluster.brokers_state) ≡ true) (sym same) h in
      ground arith

  -- As long as the status says that the broker `id` is neither emptied by Cruise Control nor still to be
  -- filled, and no answer of the API server changes that, the loop that removes brokers leaves its pods alone:
  -- it does what it would do if they were not there. Pods that are controllers only are excepted.
  pub delete_brokers-others :
      Steady
      → (pods : List Pod) (w : World) → All (λ p. is_controller_only server p ≡ false) pods
      → Unfinished w.cluster
      → delete_brokers server pods w ≡ delete_brokers server (others pods) w
  delete_brokers-others laws [] w a h = refl
  delete_brokers-others laws (p ∷ ps) w a h =
      let ih = delete_brokers-others laws ps in
      elim (Bool-cases (str_eq (id_of server p) id)) [
        | inl e ↦ rw (brokers_cons p ps w, kept p w e a.0 h, e) (ih w a.1 h)
        | inr e ↦ elim (Bool-cases (is_kept server w.cluster p)) [
          | inl k ↦ rw (e, brokers_cons p ps w, brokers_cons p (others ps) w, k) (ih w a.1 h)
          | inr k ↦
              rw (e, brokers_cons p ps w, brokers_cons p (others ps) w, k)
                (same_after (delete_broker server p w) (delete_brokers server ps)
                  (delete_brokers server (others ps)) (λ u g. ih u a.1 g)
                  (broker-Stays laws p w e h))
        ]
      ]
