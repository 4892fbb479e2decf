-- ===== src/Task/Apply.antt =====
-- Apply and SyncState of controllers/cruisecontroltask_types.go.
use koperator.Prelude.{
  ◌≡◌, sym, inl, inr, Bool-cases, Option-cases, refl, ap, ◌∙◌, String, Option, none, some, Bool,
  true, false, List, [], ◌∷◌, arith, str_eq, eq_iff, if◌then◌else◌,
}
use koperator.Prelude.Dict.{Dict, lookup, insert, lookup-insert}
use koperator.Api.TaskKind.{
  CruiseControlTaskOperation, add_broker, remove_broker, remove_disks, rebalance,
}
use koperator.Api.States.{BrokerState, VolumeState}
use koperator.Task.Types.{CruiseControlTask, CruiseControlTasksAndStates}

-- The state of the broker with the assignments of the first case.
unfoldable pub apply_broker : CruiseControlTask → BrokerState → BrokerState
apply_broker t b = record b {
  graceful_action_state = record b.graceful_action_state {
    cruise_control_state = t.broker_state;
    cruise_control_operation_reference = t.operation_reference;
  };
}

unfoldable pub apply_volume : CruiseControlTask → VolumeState → VolumeState
apply_volume t v = record {
  cruise_control_volume_state = t.volume_state;
  cruise_control_operation_reference = t.operation_reference;
}

-- m[key] = f(m[key]) where the key is there
unfoldable pub modify {ℓ} : {V : Type ℓ} → (V → V) → String → Dict V → Dict V
unfolding lookup insert
modify f k m = elim (lookup k m) [ none ↦ m | some v ↦ insert k (f v) m ]

-- The state of the broker with the assignment of the second case.
unfoldable pub apply_volumes : CruiseControlTask → BrokerState → BrokerState
unfolding modify apply_volume
apply_volumes t b = record b {
  graceful_action_state = record b.graceful_action_state {
    volume_states = modify (apply_volume t) t.volume b.graceful_action_state.volume_states;
  };
}

unfoldable pub apply : CruiseControlTask → Dict BrokerState → Dict BrokerState
apply t m = elim t.operation [
  | add_broker ↦ modify (apply_broker t) t.broker_id m
  | remove_broker ↦ modify (apply_broker t) t.broker_id m
  | rebalance ↦ modify (apply_volumes t) t.broker_id m
  | remove_disks ↦ modify (apply_volumes t) t.broker_id m
  | _ ↦ m
]

unfoldable pub apply_all : List CruiseControlTask → Dict BrokerState → Dict BrokerState
apply_all [] m = m
apply_all (t ∷ ts) m = apply_all ts (apply t m)

-- SyncState, on Status.BrokersState
abbrev pub sync_state : CruiseControlTasksAndStates → Dict BrokerState → Dict BrokerState
sync_state s m = apply_all s.tasks m

abbrev pub map_option {ℓ} : {V : Type ℓ} → (V → V) → Option V → Option V
map_option f none = none
map_option f (some v) = some (f v)

-- What Apply does to the state of the broker of a task.
unfoldable pub applied : CruiseControlTask → BrokerState → BrokerState
applied t b = elim t.operation [
  | add_broker ↦ apply_broker t b
  | remove_broker ↦ apply_broker t b
  | rebalance ↦ apply_volumes t b
  | remove_disks ↦ apply_volumes t b
  | _ ↦ b
]

-- A write under a key is read under that key only.
lookup_modified {ℓ} :
    {V : Type ℓ} (f : V → V) (k j : String) (m : Dict V) (o : Option V)
    → lookup k m ≡ o
    → lookup j (elim o [ none ↦ m | some v ↦ insert k (f v) m ])
      ≡ (if str_eq k j then map_option f (lookup j m) else lookup j m)
lookup_modified f k j m none e = elim (Bool-cases (str_eq k j)) [
  | inl same ↦ rw same (rw (ap (λ i. lookup i m) (sym ((eq_iff k j).0 same)) ∙ e) refl)
  | inr differs ↦ rw differs refl
]
lookup_modified f k j m (some v) e = elim (Bool-cases (str_eq k j)) [
  | inl same ↦ rw same (
      rw (ap (λ i. lookup i m) (sym ((eq_iff k j).0 same)) ∙ e)
        (lookup-insert k j (f v) m ∙ rw same refl))
  | inr differs ↦ rw differs (lookup-insert k j (f v) m ∙ rw differs refl)
]

pub lookup-modify {ℓ} :
    {V : Type ℓ} (f : V → V) (k j : String) (m : Dict V)
    → lookup j (modify f k m) ≡ (if str_eq k j then map_option f (lookup j m) else lookup j m)
unfolding modify
lookup-modify f k j m = lookup_modified f k j m (lookup k m) refl

map_option_id {ℓ} : {V : Type ℓ} (o : Option V) → map_option (λ v. v) o ≡ o
map_option_id none = refl
map_option_id (some v) = refl

if_same {ℓ} : {A : Type ℓ} (b : Bool) (x : A) → (if b then x else x) ≡ x
if_same true x = refl
if_same false x = refl

unchanged_lookup :
    (b : Bool) (o : Option BrokerState) → o ≡ (if b then map_option (λ v. v) o else o)
unchanged_lookup b o = sym (ap (λ e. if b then e else o) (map_option_id o) ∙ if_same b o)

lookup-apply_kind :
    (kind : CruiseControlTaskOperation) (t' : CruiseControlTask) (j : String) (m : Dict BrokerState)
    → let t = record t' { operation = kind } in
      lookup j (apply t m)
      ≡ (if str_eq t.broker_id j then map_option (applied t) (lookup j m) else lookup j m)
unfolding apply applied
lookup-apply_kind add_broker t j m =
    lookup-modify (apply_broker (record t { operation = add_broker })) t.broker_id j m
lookup-apply_kind remove_broker t j m =
    lookup-modify (apply_broker (record t { operation = remove_broker })) t.broker_id j m
lookup-apply_kind rebalance t j m =
    lookup-modify (apply_volumes (record t { operation = rebalance })) t.broker_id j m
lookup-apply_kind remove_disks t j m =
    lookup-modify (apply_volumes (record t { operation = remove_disks })) t.broker_id j m
lookup-apply_kind _ t j m = unchanged_lookup (str_eq t.broker_id j) (lookup j m)

-- Apply changes the state of the task's own broker only, and only if the broker is in the status.
pub lookup-apply :
    (t : CruiseControlTask) (j : String) (m : Dict BrokerState)
    → lookup j (apply t m)
      ≡ (if str_eq t.broker_id j then map_option (applied t) (lookup j m) else lookup j m)
lookup-apply t j m = lookup-apply_kind t.operation t j m

-- The assignments of a task that agree with what is there change nothing.
insert_same {ℓ} :
    {V : Type ℓ} (k : String) (v : V) (m : Dict V) → lookup k m ≡ some v → insert k v m ≡ m
unfolding lookup insert
insert_same k v [] h = ground arith
insert_same k v ((j, w) ∷ m) h = elim (Bool-cases (str_eq j k)) [
  | inl e ↦ let found = rw e at h in rw e (ap (λ p. p ∷ m) (ground (arith, (eq_iff j k).0 e)))
  | inr e ↦ rw e (ap (λ r. (j, w) ∷ r) (insert_same k v m (rw e at h)))
]

pub modify_same {ℓ} :
    {V : Type ℓ} (f : V → V) (k : String) (m : Dict V)
    → ((v : V) → lookup k m ≡ some v → f v ≡ v)
    → modify f k m ≡ m
unfolding modify
modify_same f k m h = elim (Option-cases (lookup k m)) [
  | inl e ↦ rw (e, modify) refl
  | inr (v, e) ↦ rw (e, modify) (ap (λ x. insert k x m) (h v e) ∙ insert_same k v m e)
]
