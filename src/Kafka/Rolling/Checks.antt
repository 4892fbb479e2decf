-- ===== src/Kafka/Rolling/Checks.antt =====
-- The checks of handleRollingUpgrade before a running pod is deleted, and what they let through.
use koperator.Prelude.{
  ℕ, ◌+◌, ◌<◌, ◌≤◌, ◌≡◌, ◌≢◌, refl, sym, ◌∙◌, subst, if◌then◌else◌, ◌++◌, ◌==◌, keep, inl, inr,
  String, Option, none, some, Bool, true, false, not, ◌||◌, List, [], ◌∷◌, arith, All, All-impl,
  any_of, length, str_eq, eq_iff, Option-cases, Bool-cases,
}
use koperator.Api.Failure.{Answer, ok, err, Error, Answer-cases}
use koperator.Status.World.{Cluster, World}
use koperator.Kafka.Pods.{
  Pod, is_pod_contains_pending_container, get_pods_in_terminating_or_pending_state,
}
use koperator.Kafka.Racks.{
  AzMap, get_broker_az_map, get_broker_az, az_of, is_elsewhere, CcStatus,
  check_cc_rack_aware_distribution_goal, exists_failed_broker_from_another_rack,
  exists_terminating_pod_from_another_az,
}
use koperator.Kafka.Rolling.{
  Env, distinct, impacted, check_impacted, check_replicas, az_or_empty, check_azs, check_waiting,
  check_goal, check_upgrade,
}
use koperator.Task.Brokers.{string_slice_contains}

any_of-none {ℓ} :
    {A : Type ℓ} (p : A → Bool) (xs : List A) → any_of p xs ≡ false → All (λ x. p x ≡ false) xs
any_of-none p [] h = tt
any_of-none p (x ∷ xs) h = (ground arith, any_of-none p xs (ground arith))

-- All brokers in these are in the rack.
abbrev pub SameRack : String → AzMap → List ℕ → Type 0
SameRack az m ids = All (λ id. az_of m id ≡ az) ids

abbrev pub PodsInRack : String → AzMap → List Pod → Type 0
PodsInRack az m pods = All (λ p. get_broker_az p m ≡ some az) pods

-- no id stands twice
abbrev pub OnceEach : List ℕ → Type 0
OnceEach [] = Unit
OnceEach (id ∷ ids) = (any_of (λ j. j == id) ids ≡ false) × OnceEach ids

any_of-member :
    (f : ℕ → Bool) (id : ℕ) (ids : List ℕ)
    → any_of (λ j. j == id) ids ≡ true
    → f id ≡ true
    → any_of f ids ≡ true
any_of-member f id [] h k = absurd (ground arith)
any_of-member f id (j ∷ ids) h k = elim (Bool-cases (j == id)) [
  | inl e ↦
      let same : id ≡ j = ground arith in
      let here : f j ≡ true = subst (λ x. f x ≡ true) same k in ground arith
  | inr e ↦ ground (arith, any_of-member f id ids (ground arith) k)
]

-- A test holds of some id of the set just where it does of some id that was put in.
any_of-distinct : (f : ℕ → Bool) (ids : List ℕ) → any_of f (distinct ids) ≡ any_of f ids
unfolding distinct
any_of-distinct f [] = refl
any_of-distinct f (id ∷ ids) =
    let ih = any_of-distinct f ids in
    let seen = any_of-distinct (λ j. j == id) ids in
    elim (Bool-cases (any_of (λ j. j == id) (distinct ids))) [
      | inr e ↦ rw e (ground (arith, ih))
      | inl e ↦ rw e (elim (Bool-cases (f id)) [
        | inl k ↦ rw (k, ih) (any_of-member f id ids (sym seen ∙ e) k)
        | inr k ↦ rw (k, ih) refl
      ])
    ]

distinct-OnceEach : (ids : List ℕ) → OnceEach (distinct ids)
unfolding distinct
distinct-OnceEach [] = tt
distinct-OnceEach (id ∷ ids) = elim (Bool-cases (any_of (λ j. j == id) (distinct ids))) [
  | inl e ↦ rw e (distinct-OnceEach ids)
  | inr e ↦ rw e (e, distinct-OnceEach ids)
]

same_rack :
    (az : String) (m : AzMap) (ids : List ℕ)
    → exists_failed_broker_from_another_rack az (distinct ids) m ≡ false
    → SameRack az m ids
unfolding exists_failed_broker_from_another_rack
same_rack az m ids h =
    let apart = any_of-distinct (λ id. not (str_eq az (az_of m id))) ids in
    All-impl (λ id. not (str_eq az (az_of m id)) ≡ false) (λ id. az_of m id ≡ az) ids
      (λ id k. ground (arith, eq_iff az (az_of m id)))
      (any_of-none (λ id. not (str_eq az (az_of m id))) ids (ground arith))

-- a container waits, or the pod is being deleted
abbrev pub pending_pods : List Pod → List Pod
pending_pods pods = keep (λ p. any_of (λ c. c.is_waiting) p.container_statuses) pods

abbrev pub terminating_pods : List Pod → List Pod
terminating_pods pods = keep (λ p. p.is_deleted) pods

waiting-length :
    (pods : List Pod)
    → length (get_pods_in_terminating_or_pending_state pods)
      ≡ length (terminating_pods pods) + length (pending_pods pods)
unfolding get_pods_in_terminating_or_pending_state is_pod_contains_pending_container
waiting-length [] = refl
waiting-length (p ∷ ps) = ground (arith, waiting-length ps)

waiting_step :
    (Q : Pod → Type 0) (p : Pod) (d e : Bool) (xs ts ps : List Pod)
    → (All Q xs → All Q ts × All Q ps)
    → All Q (let pending = if e then p ∷ xs else xs in if d then p ∷ pending else pending)
    → All Q (if d then p ∷ ts else ts) × All Q (if e then p ∷ ps else ps)
waiting_step Q p true true xs ts ps ih h = ((h.0, (ih h.1.1).0), (h.1.0, (ih h.1.1).1))
waiting_step Q p true false xs ts ps ih h = ((h.0, (ih h.1).0), (ih h.1).1)
waiting_step Q p false true xs ts ps ih h = ((ih h.1).0, (h.0, (ih h.1).1))
waiting_step Q p false false xs ts ps ih h = ih h

waiting-All :
    (Q : Pod → Type 0) (pods : List Pod)
    → All Q (get_pods_in_terminating_or_pending_state pods)
    → All Q (terminating_pods pods) × All Q (pending_pods pods)
unfolding get_pods_in_terminating_or_pending_state is_pod_contains_pending_container
waiting-All Q [] h = (tt, tt)
waiting-All Q (p ∷ ps) h =
    waiting_step Q p p.is_deleted (any_of (λ c. c.is_waiting) p.container_statuses)
      (get_pods_in_terminating_or_pending_state ps) (terminating_pods ps) (pending_pods ps)
      (waiting-All Q ps) h

elsewhere-same : (az : String) (o : Option String) → is_elsewhere az o ≡ false → o ≡ some az
elsewhere-same az none h = ground arith
elsewhere-same az (some b) h = ground (arith, eq_iff az b)

pods_in_rack :
    (az : String) (m : AzMap) (pods : List Pod)
    → exists_terminating_pod_from_another_az az pods m ≡ false
    → PodsInRack az m pods
unfolding exists_terminating_pod_from_another_az
pods_in_rack az m pods h =
    All-impl (λ p. is_elsewhere az (get_broker_az p m) ≡ false) (λ p. get_broker_az p m ≡ some az)
      pods (λ p k. elsewhere-same az (get_broker_az p m) k)
      (any_of-none (λ p. is_elsewhere az (get_broker_az p m)) pods (ground arith))

-- The goal is ready, and no anomaly of late violates it.
abbrev pub GoalKept : String → CcStatus → Type 0
GoalKept goal s =
    (string_slice_contains s.ready_goals goal ≡ true)
    × All (λ v. (string_slice_contains v.0 goal ≡ false) × (string_slice_contains v.1 goal ≡ false))
        s.recent_goal_violations

goal_kept :
    (goal : String) (answer : Answer (Option CcStatus))
    → check_cc_rack_aware_distribution_goal goal answer ≡ some none
    → (s : CcStatus) × (answer ≡ ok (some s)) × GoalKept goal s
unfolding check_cc_rack_aware_distribution_goal
goal_kept goal (err e) h = absurd (ground arith)
goal_kept goal (ok none) h = absurd (ground arith)
goal_kept goal (ok (some s)) h = (
  s,
  refl,
  (
    ground arith,
    All-impl (λ v. (string_slice_contains v.0 goal || string_slice_contains v.1 goal) ≡ false)
        (λ v. (string_slice_contains v.0 goal ≡ false) × (string_slice_contains v.1 goal ≡ false))
        s.recent_goal_violations (λ v k. (ground arith, ground arith))
        (any_of-none (λ v. string_slice_contains v.0 goal || string_slice_contains v.1 goal)
          s.recent_goal_violations (ground arith)),
  ),
)

module _ (env : Env) where
  -- What is known of the cluster where a running pod is deleted: `offline` and `out_of_sync` are the
  -- brokers with such replicas, and `failed` has each of them once.
  pub record Permitted (w : World) (current : Pod) : Type 0 where
    pub pods : List Pod
    pub listed : env.list_pods w.trace ≡ ok pods
    pub offline : List ℕ
    pub offline_listed : env.all_offline_replicas w.trace ≡ ok offline
    pub out_of_sync : List ℕ
    pub out_of_sync_listed : env.out_of_sync_replicas w.trace ≡ ok out_of_sync
    pub all_present : length w.cluster.spec.brokers ≤ length pods
    pub few_waiting :
        length (terminating_pods pods) + length (pending_pods pods)
        < w.cluster.spec.rolling_upgrade_config.concurrent_broker_restart_count_per_rack
    pub failed : List ℕ
    pub failed_once : OnceEach failed
    pub failed_all :
        (id : ℕ) → any_of (λ j. j == id) failed ≡ any_of (λ j. j == id) (offline ++ out_of_sync)
    pub few_failures :
        w.cluster.rolling_upgrade_error_count + length failed
        < w.cluster.spec.rolling_upgrade_config.failure_threshold
    pub az_map : AzMap
    pub az_map_read : get_broker_az_map w.cluster.spec.brokers ≡ some az_map
    pub waiting_in_rack :
        1 < w.cluster.spec.rolling_upgrade_config.concurrent_broker_restart_count_per_rack
        → PodsInRack (az_or_empty env (get_broker_az current az_map)) az_map (terminating_pods pods)
          × PodsInRack (az_or_empty env (get_broker_az current az_map)) az_map (pending_pods pods)
    pub goal_kept_by_cruise_control :
        1 < w.cluster.spec.rolling_upgrade_config.concurrent_broker_restart_count_per_rack
        → 0 < length (terminating_pods pods) + length (pending_pods pods)
        → (s : CcStatus) × (env.cruise_control_status w.trace ≡ ok (some s))
          × GoalKept env.rack_aware_distribution_goal s
    pub failures_in_rack :
        1 < w.cluster.spec.rolling_upgrade_config.concurrent_broker_restart_count_per_rack
        → 1 < w.cluster.spec.rolling_upgrade_config.failure_threshold
        → SameRack (az_or_empty env (get_broker_az current az_map)) az_map (offline ++ out_of_sync)

  impacted-passed :
      (c : Cluster) (az : String) (m : AzMap) (ids : List ℕ)
      → check_impacted env c az m ids ≡ some none
      → (c.rolling_upgrade_error_count + length ids
          < c.spec.rolling_upgrade_config.failure_threshold)
        × (1 < c.spec.rolling_upgrade_config.concurrent_broker_restart_count_per_rack
            → 1 < c.spec.rolling_upgrade_config.failure_threshold
            → exists_failed_broker_from_another_rack az ids m ≡ false)
  unfolding check_impacted
  impacted-passed c az m ids h = (ground arith, λ a b. ground arith)

  replicas-passed :
      (w : World) (az : String) (m : AzMap)
      → check_replicas env w az m ≡ some none
      → (offline : List ℕ) × (out_of_sync : List ℕ) × (env.all_offline_replicas w.trace
          ≡ ok offline)
        × (env.out_of_sync_replicas w.trace ≡ ok out_of_sync)
        × (check_impacted env w.cluster az m (impacted env offline out_of_sync) ≡ some none)
  unfolding check_replicas
  replicas-passed w az m h = elim (Answer-cases (env.all_offline_replicas w.trace)) [
    | inr (e, q) ↦ absurd (ground arith)
    | inl (offline, q) ↦ elim (Answer-cases (env.out_of_sync_replicas w.trace)) [
      | inr (e, r) ↦ absurd (ground arith)
      | inl (out_of_sync, r) ↦ (offline, out_of_sync, q, r, ground arith)
    ]
  ]

  azs-passed :
      (w : World) (current : Pod) (waiting : List Pod) (m : AzMap)
      → check_azs env w current waiting m ≡ some none
      → (1 < w.cluster.spec.rolling_upgrade_config.concurrent_broker_restart_count_per_rack
          → exists_terminating_pod_from_another_az
              (az_or_empty env (get_broker_az current m))
              waiting
              m
            ≡ false)
        × (check_replicas env w (az_or_empty env (get_broker_az current m)) m ≡ some none)
  unfolding check_azs
  azs-passed w current waiting m h = ((λ k. ground arith), ground arith)

  waiting-passed :
      (w : World) (current : Pod) (waiting : List Pod)
      → check_waiting env w current waiting ≡ some none
      → (length waiting
          < w.cluster.spec.rolling_upgrade_config.concurrent_broker_restart_count_per_rack)
        × ((m : AzMap) × (get_broker_az_map w.cluster.spec.brokers ≡ some m)
            × (check_azs env w current waiting m ≡ some none))
        × (check_goal env w waiting ≡ some none)
  unfolding check_waiting
  waiting-passed w current waiting h = elim (Option-cases (check_goal env w waiting)) [
    | inl g ↦ absurd (ground arith)
    | inr (some e, g) ↦ absurd (ground arith)
    | inr (none, g) ↦ elim (Option-cases (get_broker_az_map w.cluster.spec.brokers)) [
      | inl q ↦ absurd (ground arith)
      | inr (m, q) ↦ (ground arith, (m, q, ground arith), g)
    ]
  ]

  goal-passed :
      (w : World) (waiting : List Pod)
      → check_goal env w waiting ≡ some none
      → 1 < w.cluster.spec.rolling_upgrade_config.concurrent_broker_restart_count_per_rack
      → 0 < length waiting
      → check_cc_rack_aware_distribution_goal env.rack_aware_distribution_goal
          (env.cruise_control_status w.trace)
        ≡ some none
  goal-passed w waiting h k l = ground arith

  present-passed :
      (w : World) (current : Pod) (pods : List Pod)
      → env.list_pods w.trace ≡ ok pods
      → check_upgrade env w current ≡ some none
      → (length w.cluster.spec.brokers ≤ length pods)
        × (check_waiting env w current (get_pods_in_terminating_or_pending_state pods) ≡ some none)
  unfolding check_upgrade
  present-passed w current pods l h = (ground arith, ground arith)

  unlisted :
      (w : World) (current : Pod) (e : Error)
      → env.list_pods w.trace ≡ err e
      → check_upgrade env w current ≢ some none
  unfolding check_upgrade
  unlisted w current e l h = ground arith

  pub upgrade-Permitted :
      (w : World) (current : Pod) → check_upgrade env w current ≡ some none → Permitted w current
  upgrade-Permitted w current h = elim (Answer-cases (env.list_pods w.trace)) [
    | inr (e, l) ↦ absurd (unlisted w current e l h)
    | inl (pods, l) ↦
        let waiting = get_pods_in_terminating_or_pending_state pods in
        let (present, more) = present-passed w current pods l h in
        let (few, (m, read, azs), goal) = waiting-passed w current waiting more in
        let (terminating, replicas) = azs-passed w current waiting m azs in
        let az = az_or_empty env (get_broker_az current m) in
        let (offline, out_of_sync, p, q, rest) = replicas-passed w az m replicas in
        let (healthy, failed) =
          impacted-passed w.cluster az m (impacted env offline out_of_sync) rest in
        record {
          pods = pods;
          listed = l;
          offline = offline;
          offline_listed = p;
          out_of_sync = out_of_sync;
          out_of_sync_listed = q;
          all_present = present;
          few_waiting = ground (arith, waiting-length pods, few);
          failed = distinct (offline ++ out_of_sync);
          failed_once = distinct-OnceEach (offline ++ out_of_sync);
          failed_all = λ id. any_of-distinct (λ j. j == id) (offline ++ out_of_sync);
          few_failures = healthy;
          az_map = m;
          az_map_read = read;
          waiting_in_rack = λ k.
              waiting-All (λ p. get_broker_az p m ≡ some az) pods
                (pods_in_rack az m waiting (terminating k));
          goal_kept_by_cruise_control = λ a b.
              goal_kept env.rack_aware_distribution_goal (env.cruise_control_status w.trace)
                (goal-passed w waiting goal a (ground (arith, waiting-length pods, b)));
          failures_in_rack = λ a b. same_rack az m (offline ++ out_of_sync) (failed a b);
        }
  ]
