-- ===== src/Kafka/Rolling/Safe.antt =====
-- When the rolling upgrade deletes a pod that runs.
use koperator.Prelude.{
  ◌≡◌, refl, ap, ◌∙◌, ◌⊎◌, inl, inr, Option, none, some, Bool, true, false, ◌||◌, ◌∷◌, sym, any_of,
  is_some, str_eq, eq_iff, arith, Bool-cases, Option-cases,
}
use koperator.Api.Failure.{ok, Error}
use koperator.Status.World.{Cluster, World, Trace, deleted, pod, delete}
use koperator.Status.Update.{change_status, set_cr_state, cluster_state, update_cr_status}
use koperator.Status.Update.Keeps.{deletions, change_status-deletions, change_status-makes}
use koperator.Kafka.Pods.{Pod, contains_text, is_pod_contains_terminated_container}
use koperator.Kafka.Rolling.{
  Env, check_upgrade, delete_after, upgrade, set_rolling_upgrading, restart, handle_rolling_upgrade,
  is_in_sync, merge_tolerations, rolling_upgrading,
}
use koperator.Kafka.Rolling.Checks.{Permitted, upgrade-Permitted}

module _ (env : Env) where
  -- A container has terminated, or one that prepares the pod has with an error.
  abbrev pub has_terminated : Pod → Bool
  has_terminated p =
      any_of (λ c. is_some c.terminated) p.container_statuses
      || any_of
          (λ c. elim c.terminated [ none ↦ false | some reason ↦ contains_text reason "Error" ])
          p.init_container_statuses

  terminated-has : (p : Pod) → is_pod_contains_terminated_container p ≡ has_terminated p
  unfolding is_pod_contains_terminated_container
  terminated-has p = swap (any_of (λ c. is_some c.terminated) p.container_statuses) (
      any_of (λ c. elim c.terminated [ none ↦ false | some reason ↦ contains_text reason "Error" ])
        p.init_container_statuses)
    where
      swap : (a b : Bool) → (b || a) ≡ (a || b)
      swap a b = ground arith

  -- Nothing was deleted since `w`, or the pod was, last and where that is permitted or it has terminated.
  abbrev pub OnlyPermitted : World → Pod → World → Type 0
  OnlyPermitted w current u =
      (deletions u.trace ≡ deletions w.trace)
      ⊎ ((v : World) × ((has_terminated current ≡ true) ⊎ Permitted env v current)
          × (deletions v.trace ≡ deletions w.trace)
          × (u ≡ record v { trace = deleted pod current.name ∷ v.trace }))

  deleted-Permitted :
      (w v : World) (current : Pod) (c : Option (Option Error))
      → deletions v.trace ≡ deletions w.trace
      → check_upgrade env v current ≡ c
      → OnlyPermitted w current (delete_after env current v c).1
  unfolding delete
  deleted-Permitted w v current none d h = inl d
  deleted-Permitted w v current (some (some e)) d h = inl d
  deleted-Permitted w v current (some none) d h =
      inr (v, inr (upgrade-Permitted env v current h), d, refl)

  upgraded-Permitted :
      (w : World) (current : Pod) (p : Option Error × World)
      → deletions p.1.trace ≡ deletions w.trace
      → (p.0 ≡ none → p.1.cluster.state ≡ rolling_upgrading)
      → OnlyPermitted w current (upgrade env current p).1
  upgraded-Permitted w current (some e, v) d k = inl d
  upgraded-Permitted w current (none, v) d k =
      let upgrading : str_eq v.cluster.state rolling_upgrading ≡ true =
        (eq_iff v.cluster.state rolling_upgrading).1 (k refl) in
      rw upgrading (deleted-Permitted w v current (check_upgrade env v current) d refl)

  -- The status that the server answers after an update has the state that was sent.
  abbrev pub KeepsState : Type 0
  KeepsState =
      ((t : Trace) (c d : Cluster) → env.server.update_status t c ≡ ok d → d.state ≡ c.state)
      × ((t : Trace) (c d : Cluster) → env.server.update t c ≡ ok d → d.state ≡ c.state)

  state-set :
      KeepsState
      → (w : World) → (set_rolling_upgrading env w).0 ≡ none
      → (set_rolling_upgrading env w).1.cluster.state ≡ rolling_upgrading
  unfolding set_rolling_upgrading update_cr_status
  state-set laws w = elim (Bool-cases (str_eq w.cluster.state rolling_upgrading)) [
    | inl e ↦ rw e (λ h. (eq_iff w.cluster.state rolling_upgrading).0 e)
    | inr e ↦ rw e (λ h.
        let r = change_status env.server (set_cr_state (cluster_state rolling_upgrading)) w in
        change_status-makes env.server (λ c. c.state ≡ rolling_upgrading)
          (record {
            status = λ t c d q k. laws.0 t c d q ∙ k;
            object = λ t c d q k. laws.1 t c d q ∙ k;
          })
          (set_cr_state (cluster_state rolling_upgrading)) w r.1 (λ c. refl) (ap (λ e. (e, r.1)) h))
  ]

  set-deletions : (w : World) → deletions (set_rolling_upgrading env w).1.trace ≡ deletions w.trace
  unfolding set_rolling_upgrading update_cr_status
  set-deletions w = elim (Bool-cases (str_eq w.cluster.state rolling_upgrading)) [
    | inl e ↦ rw e refl
    | inr e ↦
        rw e (change_status-deletions env.server (set_cr_state (cluster_state rolling_upgrading)) w)
  ]

  restart-Permitted :
      (current : Pod) (w : World) → KeepsState → OnlyPermitted w current (restart env current w).1
  unfolding restart delete
  restart-Permitted current w laws =
      elim (Bool-cases (is_pod_contains_terminated_container current)) [
        | inl ended ↦ rw ended (inr (w, inl (sym (terminated-has current) ∙ ended), refl, refl))
        | inr running ↦ rw running (
            upgraded-Permitted w current (set_rolling_upgrading env w) (set-deletions w)
              (state-set laws w))
      ]

  -- Where an update of the status leaves the state of the cluster as it was sent, handleRollingUpgrade
  -- deletes nothing but the pod it is called for, once, and that only if one of its containers has
  -- terminated (of those that prepare it, with an error), or these hold: there are no fewer pods than
  -- brokers in the spec; the pods being deleted and those with a waiting container, a pod that is both
  -- counted twice, are fewer than may restart at once; the reported errors and the brokers with offline
  -- or out-of-sync replicas are together fewer than the threshold; where several may restart, those pods
  -- are in the pod's rack, and Cruise Control keeps its goal on racks if there are any; and where
  -- several may fail too, those brokers are in the pod's rack.
  pub handle_rolling_upgrade-Permitted :
      (desired current : Pod) (w : World)
      → KeepsState
      → OnlyPermitted w current (handle_rolling_upgrade env desired current w).1
  unfolding handle_rolling_upgrade
  handle_rolling_upgrade-Permitted desired current w laws =
      elim (Bool-cases (is_in_sync env w.cluster (merge_tolerations desired current) current)) [
        | inl e ↦ rw e (inl refl)
        | inr e ↦
            elim (Option-cases
              (env.set_last_applied_annotation (merge_tolerations desired current))) [
                | inl q ↦ rw (e, q) (restart-Permitted current w laws)
                | inr (f, q) ↦ rw (e, q) (inl refl)
              ]
      ]
