-- ===== src/Status/Broker/Merge.antt =====
-- What generateBrokerState leaves in the status.
use koperator.Prelude.{
  String, ◌≡◌, refl, ap, ◌∙◌, ◌⊎◌, subst, Option, none, some, true, false, List, [], ◌∷◌, str_eq,
  eq_iff, if◌then◌else◌, Bool-cases, inl, inr,
}
use koperator.Prelude.Dict.{Dict, lookup, insert, lookup-insert}
use koperator.Api.States.{BrokerState, GracefulActionState, VolumeState}
use koperator.Task.Brokers.{string_slice_contains}
use koperator.Status.World.{Cluster}
use koperator.Status.Broker.{
  Part, external_listener_config_names, rack_awareness_state, graceful_action_state,
  graceful_action_states, configuration_state, per_broker_configuration_state, volume_states,
  brokers_volume_states, kafka_version, other_part, or_empty_state, or_empty_action, or_no_volumes,
  insert_all, set_part, set_parts, generate_broker_state,
}

-- no id stands twice
abbrev pub DistinctIds : List String → Type 0
DistinctIds [] = Unit
DistinctIds (id ∷ ids) = (string_slice_contains ids id ≡ false) × DistinctIds ids

module _ (part : Part) (key : String) where
  abbrev merged : List String → Dict BrokerState → Option BrokerState
  merged ids m =
      if string_slice_contains ids key
      then some (set_part key part (or_empty_state (lookup key m)))
      else lookup key m

  lookup-set_parts :
      (ids : List String) (m : Dict BrokerState)
      → DistinctIds ids
      → lookup key (set_parts ids part m) ≡ merged ids m
  unfolding set_parts
  lookup-set_parts [] m h = refl
  lookup-set_parts (id ∷ ids) m h =
      let next = insert id (set_part id part (or_empty_state (lookup id m))) m in
      let ih = lookup-set_parts ids next h.1 in
      let here = lookup-insert id key (set_part id part (or_empty_state (lookup id m))) m in
      elim (Bool-cases (str_eq id key)) [
        | inl e ↦
            let same : id ≡ key = (eq_iff id key).0 e in
            let absent : string_slice_contains ids key ≡ false =
              subst (λ k. string_slice_contains ids k ≡ false) same h.0 in
            rw (ih, absent, here, e)
              (ap (λ k. some (set_part k part (or_empty_state (lookup k m)))) same)
        | inr e ↦ rw (ih, here, e) refl
      ]

-- What a part gives for each field of the state of the broker; `none` leaves the field alone.
abbrev pub given_names : Part → Option (List String)
given_names (external_listener_config_names s) = some s
given_names _ = none

abbrev pub given_rack : Part → Option String
given_rack (rack_awareness_state s) = some s
given_rack _ = none

abbrev pub given_configuration : Part → Option String
given_configuration (configuration_state s) = some s
given_configuration _ = none

abbrev pub given_per_broker : Part → Option String
given_per_broker (per_broker_configuration_state s) = some s
given_per_broker _ = none

abbrev pub given_image : Part → Option String
given_image (kafka_version image version) = some image
given_image _ = none

abbrev pub given_version : Part → Option String
given_version (kafka_version image version) = some version
given_version _ = none

-- The empty action state stands for a broker that the map lacks.
abbrev pub given_action : String → Part → Option GracefulActionState
given_action id (graceful_action_state s) = some s
given_action id (graceful_action_states m) = some (or_empty_action (lookup id m))
given_action id _ = none

abbrev pub given_volumes : String → Part → Dict VolumeState
given_volumes id (volume_states s) = s
given_volumes id (brokers_volume_states m) = or_no_volumes (lookup id m)
given_volumes id _ = []

abbrev pub or_old {ℓ} : {A : Type ℓ} → Option A → A → A
or_old none old = old
or_old (some new) old = new

-- the last state under the path, or the old one
abbrev pub last_volume : String → Dict VolumeState → Option VolumeState → Option VolumeState
last_volume path [] old = old
last_volume path ((p, v) ∷ es) old = last_volume path es (if str_eq p path then some v else old)

-- The state has what the part gives, and is as it was otherwise.
pub record Merged (id : String) (part : Part) (old new : BrokerState) : Type 0 where
  pub names :
      new.external_listener_config_names
      ≡ or_old (given_names part) old.external_listener_config_names
  pub rack : new.rack_awareness_state ≡ or_old (given_rack part) old.rack_awareness_state
  pub configuration :
      new.configuration_state ≡ or_old (given_configuration part) old.configuration_state
  pub per_broker :
      new.per_broker_configuration_state
      ≡ or_old (given_per_broker part) old.per_broker_configuration_state
  pub image_given : new.image ≡ or_old (given_image part) old.image
  pub version_given : new.version ≡ or_old (given_version part) old.version
  pub backup : new.configuration_backup ≡ old.configuration_backup
  pub action :
      new.graceful_action_state.cruise_control_state
      ≡ (or_old (given_action id part) old.graceful_action_state).cruise_control_state
  pub reference :
      new.graceful_action_state.cruise_control_operation_reference
      ≡ (or_old (given_action id part) old.graceful_action_state).cruise_control_operation_reference
  pub volumes :
      (path : String)
      → lookup path new.graceful_action_state.volume_states
        ≡ last_volume path
            (given_volumes id part)
            (lookup path (or_old (given_action id part) old.graceful_action_state).volume_states)

lookup-insert_all :
    (path : String) (es m : Dict VolumeState)
    → lookup path (insert_all es m) ≡ last_volume path es (lookup path m)
unfolding insert_all
lookup-insert_all path [] m = refl
lookup-insert_all path ((p, v) ∷ es) m =
    lookup-insert_all path es (insert p v m) ∙ ap (last_volume path es) (lookup-insert p path v m)

set_part-Merged :
    (id : String) (part : Part) (b : BrokerState) → Merged id part b (set_part id part b)
unfolding set_part
set_part-Merged id (external_listener_config_names s) b = record {
  names = refl;
  rack = refl;
  configuration = refl;
  per_broker = refl;
  image_given = refl;
  version_given = refl;
  backup = refl;
  action = refl;
  reference = refl;
  volumes = λ path. refl;
}
set_part-Merged id (rack_awareness_state s) b = record {
  names = refl;
  rack = refl;
  configuration = refl;
  per_broker = refl;
  image_given = refl;
  version_given = refl;
  backup = refl;
  action = refl;
  reference = refl;
  volumes = λ path. refl;
}
set_part-Merged id (graceful_action_state s) b = record {
  names = refl;
  rack = refl;
  configuration = refl;
  per_broker = refl;
  image_given = refl;
  version_given = refl;
  backup = refl;
  action = refl;
  reference = refl;
  volumes = λ path. refl;
}
set_part-Merged id (graceful_action_states s) b = record {
  names = refl;
  rack = refl;
  configuration = refl;
  per_broker = refl;
  image_given = refl;
  version_given = refl;
  backup = refl;
  action = refl;
  reference = refl;
  volumes = λ path. refl;
}
set_part-Merged id (configuration_state s) b = record {
  names = refl;
  rack = refl;
  configuration = refl;
  per_broker = refl;
  image_given = refl;
  version_given = refl;
  backup = refl;
  action = refl;
  reference = refl;
  volumes = λ path. refl;
}
set_part-Merged id (per_broker_configuration_state s) b = record {
  names = refl;
  rack = refl;
  configuration = refl;
  per_broker = refl;
  image_given = refl;
  version_given = refl;
  backup = refl;
  action = refl;
  reference = refl;
  volumes = λ path. refl;
}
set_part-Merged id (volume_states s) b = record {
  names = refl;
  rack = refl;
  configuration = refl;
  per_broker = refl;
  image_given = refl;
  version_given = refl;
  backup = refl;
  action = refl;
  reference = refl;
  volumes = λ path. lookup-insert_all path s b.graceful_action_state.volume_states;
}
set_part-Merged id (brokers_volume_states s) b = record {
  names = refl;
  rack = refl;
  configuration = refl;
  per_broker = refl;
  image_given = refl;
  version_given = refl;
  backup = refl;
  action = refl;
  reference = refl;
  volumes = λ path.
      lookup-insert_all path (or_no_volumes (lookup id s)) b.graceful_action_state.volume_states;
}
set_part-Merged id (kafka_version image version) b = record {
  names = refl;
  rack = refl;
  configuration = refl;
  per_broker = refl;
  image_given = refl;
  version_given = refl;
  backup = refl;
  action = refl;
  reference = refl;
  volumes = λ path. refl;
}
set_part-Merged id other_part b = record {
  names = refl;
  rack = refl;
  configuration = refl;
  per_broker = refl;
  image_given = refl;
  version_given = refl;
  backup = refl;
  action = refl;
  reference = refl;
  volumes = λ path. refl;
}

-- The states of these brokers have the part, and nothing else of the cluster is new.
abbrev pub MergesInto : List String → Part → Cluster → Cluster → Type 0
MergesInto ids part old new =
    (new ≡ record old { brokers_state = new.brokers_state })
    × ((key : String)
        → ((string_slice_contains ids key ≡ false)
            × (lookup key new.brokers_state ≡ lookup key old.brokers_state))
          ⊎ ((string_slice_contains ids key ≡ true)
              × ((b : BrokerState) × (lookup key new.brokers_state ≡ some b)
                  × Merged key part (or_empty_state (lookup key old.brokers_state)) b)))

-- After generateBrokerState with different ids each of them has a state, which has what the given part
-- says for it, of its own where the part is a map by brokers, and in all other fields what it had, or the
-- empty value if there was none; a volume has the state last given for it, or the one that it had. All
-- other brokers, and the other fields of the cluster, are as before.
pub generate_broker_state-merges :
    (ids : List String) (part : Part) (c : Cluster)
    → DistinctIds ids
    → MergesInto ids part c (generate_broker_state ids part c)
unfolding generate_broker_state
generate_broker_state-merges ids part c h = (
  refl,
  λ key.
      let set = lookup-set_parts part key ids c.brokers_state h in
      elim (Bool-cases (string_slice_contains ids key)) [
        | inl e ↦ inr (
          e,
          (
            set_part key part (or_empty_state (lookup key c.brokers_state)),
            (rw e at set),
            set_part-Merged key part (or_empty_state (lookup key c.brokers_state)),
          ),
        )
        | inr e ↦ inl (e, (rw e at set))
      ],
)
