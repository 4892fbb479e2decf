-- ===== src/Webhook/Cluster/Valid.antt =====
-- Which clusters checkInternalAndExternalListeners admits, by their ports.
use koperator.Prelude.{
  ℕ, suc, ◌≤◌, ◌≡◌, ◌≢◌, ◌↔◌, refl, Bool, true, false, List, [], ◌∷◌, ◌++◌, map, ltb, if◌then◌else◌,
  arith, All, Bool-cases, inl, inr,
}
use koperator.Webhook.Cluster.{
  ExternalListener, ListenerSpec, FieldError, duplicate_internal, duplicate_external, out_of_range,
  colliding, is_envoy, is_load_balancer, get_ingress_controller_target_port, get_envoy_admin_port,
  get_envoy_health_check_port, get_external_port_for_broker, count_port, check_external_ports,
  check_internal_ports, check_unique_listener_container_port, out_of_range_ids, colliding_ids,
  error_of, check_starting_ports, check_external_listener_starting_port, check_target_ports,
  check_target_ports_collision_for_envoy, check_internal_and_external_listeners,
}

-- all container ports
unfoldable pub container_ports : ListenerSpec → List ℕ
container_ports s = s.internal_ports ++ map (λ l. l.container_port) s.external_listeners

abbrev pub AllDistinct : List ℕ → Type 0
AllDistinct [] = Unit
AllDistinct (p ∷ ps) = All (λ q. q ≢ p) ps × AllDistinct ps

-- The sum of the starting port of a listener and the id of a broker, cut to 32 bits. The validation
-- takes it for the external port of the broker, whatever the access method and the starting port.
pub record ValidPort (s : ListenerSpec) (l : ExternalListener) (port : ℕ) : Type 0 where
  pub positive : 1 ≤ port
  pub bounded : port ≤ 65535
  pub not_target : port ≢ get_ingress_controller_target_port l
  pub not_admin : is_envoy s ≡ true → port ≢ get_envoy_admin_port s
  pub not_health_check : is_envoy s ≡ true → port ≢ get_envoy_health_check_port s

-- the ports at which envoy itself listens
pub record ValidTarget (s : ListenerSpec) (l : ExternalListener) : Type 0 where
  pub not_admin :
      is_load_balancer l ≡ true → get_ingress_controller_target_port l ≢ get_envoy_admin_port s
  pub not_health_check :
      is_load_balancer l ≡ true
      → get_ingress_controller_target_port l ≢ get_envoy_health_check_port s

pub record Valid (s : ListenerSpec) : Type 0 where
  pub distinct : AllDistinct (container_ports s)
  pub ports :
      All
        (λ l.
          All
            (λ id. ValidPort s l (get_external_port_for_broker l.external_starting_port id))
            s.broker_ids)
        s.external_listeners
  pub apart : is_envoy s ≡ true → get_envoy_admin_port s ≢ get_envoy_health_check_port s
  pub targets : is_envoy s ≡ true → All (ValidTarget s) s.external_listeners

append-nil_iff {ℓ} : {A : Type ℓ} (xs ys : List A) → (xs ++ ys ≡ []) ↔ ((xs ≡ []) × (ys ≡ []))
append-nil_iff [] ys = (λ h. (refl, h), λ h. h.1)
append-nil_iff (x ∷ xs) ys = (λ h. ground arith, λ h. ground arith)

module _ (s : ListenerSpec) (l : ExternalListener) where
  ids-valid :
      (ids : List ℕ)
      → ((out_of_range_ids l ids ≡ []) × (colliding_ids s l ids ≡ []))
        ↔ All (λ id. ValidPort s l (get_external_port_for_broker l.external_starting_port id)) ids
  unfolding out_of_range_ids colliding_ids
  ids-valid [] = (λ h. tt, λ h. (refl, refl))
  ids-valid (id ∷ ids) =
      let ih = ids-valid ids in
      (
        λ h. (
          record {
            positive = ground arith;
            bounded = ground arith;
            not_target = λ e. ground arith;
            not_admin = λ k e. ground arith;
            not_health_check = λ k e. ground arith;
          },
          ih.0 (ground arith, ground arith),
        ),
        λ h.
            let v = h.0 in
            let rest = ih.1 h.1 in
            (
              ground (arith, v.positive, v.bounded, rest.0),
              ground (arith, v.not_target, v.not_admin, v.not_health_check, rest.1),
            ),
      )

error_of-nil : (make : List ℕ → FieldError) (ids : List ℕ) → (error_of make ids ≡ []) ↔ (ids ≡ [])
error_of-nil make [] = (λ h. refl, λ h. refl)
error_of-nil make (id ∷ ids) = (λ h. ground arith, λ h. ground arith)

-- No port of the rest was counted before, and none stands twice.
Fresh : (ℕ → ℕ) → List ℕ → Type 0
Fresh counts ps = All (λ p. counts p ≡ 0) ps × AllDistinct ps

counted :
    (p : ℕ) (counts : ℕ → ℕ) (q : ℕ) → (count_port p counts q ≡ 0) ↔ ((q ≢ p) × (counts q ≡ 0))
unfolding count_port
counted p counts q = (λ h. ((λ e. ground arith), ground arith), λ h. ground (arith, h.0))

All-counted :
    (p : ℕ) (counts : ℕ → ℕ) (ps : List ℕ)
    → All (λ q. count_port p counts q ≡ 0) ps ↔ (All (λ q. q ≢ p) ps × All (λ q. counts q ≡ 0) ps)
All-counted p counts [] = (λ h. (tt, tt), λ h. tt)
All-counted p counts (q ∷ ps) =
    let here = counted p counts q in
    let rest = All-counted p counts ps in
    (
      λ h. (((here.0 h.0).0, (rest.0 h.1).0), ((here.0 h.0).1, (rest.0 h.1).1)),
      λ h. (here.1 (h.0.0, h.1.0), rest.1 (h.0.1, h.1.1)),
    )

Fresh-cons :
    (p : ℕ) (counts : ℕ → ℕ) (ps : List ℕ)
    → ((ltb 1 (count_port p counts p) ≡ false) × Fresh (count_port p counts) ps)
      ↔ Fresh counts (p ∷ ps)
unfolding Fresh count_port
Fresh-cons p counts ps =
    let split = All-counted p counts ps in
    (
      λ h. ((ground arith, (split.0 h.1.0).1), ((split.0 h.1.0).0, h.1.1)),
      λ h. (ground (arith, h.0.0), (split.1 (h.1.0, h.0.1), h.1.1)),
    )

if-nil {ℓ} :
    {A : Type ℓ} (b : Bool) (x : A) (xs : List A)
    → ((if b then x ∷ xs else xs) ≡ []) ↔ ((b ≡ false) × (xs ≡ []))
if-nil true x xs = (λ h. ground arith, λ h. ground arith)
if-nil false x xs = (λ h. (refl, h), λ h. h.1)

external-Fresh :
    (i : ℕ) (counts : ℕ → ℕ) (ls : List ExternalListener)
    → (check_external_ports i counts ls ≡ []) ↔ Fresh counts (map (λ l. l.container_port) ls)
unfolding check_external_ports Fresh
external-Fresh i counts [] = (λ h. (tt, tt), λ h. refl)
external-Fresh i counts (l ∷ ls) =
    let p = l.container_port in
    let here =
      if-nil (ltb 1 (count_port p counts p)) (duplicate_external i)
        (check_external_ports (suc i) (count_port p counts) ls) in
    let rest = external-Fresh (suc i) (count_port p counts) ls in
    let both = Fresh-cons p counts (map (λ l. l.container_port) ls) in
    (
      λ h. both.0 ((here.0 h).0, rest.0 (here.0 h).1),
      λ h. here.1 ((both.1 h).0, rest.1 (both.1 h).1),
    )

internal-Fresh :
    (i : ℕ) (counts : ℕ → ℕ) (ports : List ℕ) (ls : List ExternalListener)
    → (check_internal_ports i counts ports ls ≡ [])
      ↔ Fresh counts (ports ++ map (λ l. l.container_port) ls)
unfolding check_internal_ports
internal-Fresh i counts [] ls = external-Fresh 0 counts ls
internal-Fresh i counts (p ∷ ports) ls =
    let here =
      if-nil (ltb 1 (count_port p counts p)) (duplicate_internal i)
        (check_internal_ports (suc i) (count_port p counts) ports ls) in
    let rest = internal-Fresh (suc i) (count_port p counts) ports ls in
    let both = Fresh-cons p counts (ports ++ map (λ l. l.container_port) ls) in
    (
      λ h. both.0 ((here.0 h).0, rest.0 (here.0 h).1),
      λ h. here.1 ((both.1 h).0, rest.1 (both.1 h).1),
    )

abbrev no_port : ℕ → ℕ
no_port p = 0

All-zero : (ps : List ℕ) → All (λ p. no_port p ≡ 0) ps
All-zero [] = tt
All-zero (p ∷ ps) = (refl, All-zero ps)

module _ (s : ListenerSpec) where
  PortsValid : List ExternalListener → Type 0
  PortsValid ls =
      All
        (λ l.
          All (λ id. ValidPort s l (get_external_port_for_broker l.external_starting_port id))
            s.broker_ids)
        ls

  starting-valid :
      (i : ℕ) (ls : List ExternalListener) → (check_starting_ports s i ls ≡ []) ↔ PortsValid ls
  unfolding check_starting_ports PortsValid
  starting-valid i [] = (λ h. tt, λ h. refl)
  starting-valid i (l ∷ ls) =
      let first = append-nil_iff (error_of (out_of_range i) (out_of_range_ids l s.broker_ids)) (
        error_of (colliding i) (colliding_ids s l s.broker_ids)
        ++ check_starting_ports s (suc i) ls) in
      let second =
        append-nil_iff (error_of (colliding i) (colliding_ids s l s.broker_ids))
          (check_starting_ports s (suc i) ls) in
      let range = error_of-nil (out_of_range i) (out_of_range_ids l s.broker_ids) in
      let collision = error_of-nil (colliding i) (colliding_ids s l s.broker_ids) in
      let here = ids-valid s l s.broker_ids in
      let rest = starting-valid (suc i) ls in
      (
        λ h.
            let parts = second.0 (first.0 h).1 in
            (here.0 (range.0 (first.0 h).0, collision.0 parts.0), rest.0 parts.1),
        λ h.
            let ids = here.1 h.0 in
            first.1 (range.1 ids.0, second.1 (collision.1 ids.1, rest.1 h.1)),
      )

  targets-valid :
      (i : ℕ) (ls : List ExternalListener)
      → (check_target_ports s i ls ≡ []) ↔ All (ValidTarget s) ls
  unfolding check_target_ports
  targets-valid i [] = (λ h. tt, λ h. refl)
  targets-valid i (l ∷ ls) =
      let rest = targets-valid (suc i) ls in
      (
        λ h. (
          record { not_admin = λ k e. ground arith; not_health_check = λ k e. ground arith },
          rest.0 (ground arith),
        ),
        λ h.
            let v = h.0 in
            let done = rest.1 h.1 in ground (arith, v.not_admin, v.not_health_check, done),
      )

  collision-nil : Valid s → check_target_ports_collision_for_envoy s ≡ []
  unfolding check_target_ports_collision_for_envoy
  collision-nil v = elim (Bool-cases (is_envoy s)) [
    | inl e ↦
        let none_left = (targets-valid 0 s.external_listeners).1 (v.targets e) in
        let differ = v.apart e in ground (arith, none_left, differ)
    | inr e ↦ ground arith
  ]

  -- The validation finds no error in a cluster just where all container ports differ; the sum of the
  -- starting port of every external listener and the id of every broker, cut to 32 bits, is between 1
  -- and 65535 and is neither the listener's target port nor, for envoy, its admin or health-check port;
  -- and, for envoy, these two differ from each other and from the target ports of load balancers. The
  -- sum is tested whatever the access method and the starting port are.
  pub check-Valid : (check_internal_and_external_listeners s ≡ []) ↔ Valid s
  unfolding check_internal_and_external_listeners check_unique_listener_container_port
      check_external_listener_starting_port check_target_ports_collision_for_envoy container_ports
      Fresh PortsValid
  check-Valid =
      let first =
        append-nil_iff (check_unique_listener_container_port s)
          (check_external_listener_starting_port s ++ check_target_ports_collision_for_envoy s) in
      let second =
        append-nil_iff (check_external_listener_starting_port s)
          (check_target_ports_collision_for_envoy s) in
      let unique = internal-Fresh 0 no_port s.internal_ports s.external_listeners in
      let start = starting-valid 0 s.external_listeners in
      let target = targets-valid 0 s.external_listeners in
      (
        λ h.
            let a = first.0 h in
            let b = second.0 a.1 in
            record {
              distinct = (unique.0 a.0).1;
              ports = start.0 b.0;
              apart = λ k e. ground arith;
              targets = λ k. target.0 (ground arith);
            },
        λ v. first.1 (
          unique.1 (All-zero (container_ports s), v.distinct),
          second.1 (start.1 v.ports, collision-nil v),
        ),
      )
