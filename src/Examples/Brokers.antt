-- ===== src/Examples/Brokers.antt =====
-- The order of the brokers, at a cluster of two running brokers and one to be restored.
use mathlib.Core.List.{Perm}
use koperator.Prelude.{ℕ, ◌≡◌, refl, none, some, [], ◌∷◌, arith, map}
use koperator.Prelude.Dict.{lookup, insert}
use koperator.Prelude.Sort.{slice_stable}
use koperator.Prelude.Decimal.{itoa}
use koperator.Api.Cluster.{Broker}
use koperator.Api.States.{BrokerState, CruiseControlState, upscale_succeeded, downscale_running}
use koperator.Kafka.Reorder.{Input, unfinished, priorities, priority_of, reorder_brokers}
use koperator.Kafka.Ascending.{HaveOneId, handed_out, IsAscending, reorder_brokers-IsAscending}

abbrev state_of : CruiseControlState → BrokerState
state_of s = record {
  graceful_action_state = record {
    cruise_control_state = s;
    cruise_control_operation_reference = none;
    volume_states = [];
  };
  rack_awareness_state = "";
  configuration_state = "";
  per_broker_configuration_state = "";
  external_listener_config_names = [];
  version = "";
  image = "";
  configuration_backup = "backup";
}

abbrev broker : ℕ → Broker
broker id = record {
  id = id;
  read_only_config = "";
  broker_config_group = "";
  broker_config = none;
}

-- The broker 1 is the controller, and 3 was lost during its downscale.
abbrev two_brokers : Input
two_brokers = record {
  running = "1" ∷ "2" ∷ [];
  bound_claims = "3" ∷ [];
  desired = broker 1 ∷ broker 2 ∷ [];
  brokers_state =
      ("1", state_of upscale_succeeded)
      ∷ ("2", state_of upscale_succeeded)
      ∷ ("3", state_of downscale_running)
      ∷ [];
  controller = some 1;
  restore = λ text. some (broker 3);
}

order : map (λ b. b.id) (reorder_brokers two_brokers) ≡ 3 ∷ 2 ∷ 1 ∷ []
unfolding reorder_brokers slice_stable unfinished lookup priorities insert itoa priority_of
order = refl

one_id : HaveOneId (handed_out two_brokers) (handed_out two_brokers)
unfolding unfinished itoa
one_id = (
  (λ h. refl, (λ h. ground arith, (λ h. ground arith, tt))),
  (
    (λ h. ground arith, (λ h. refl, (λ h. ground arith, tt))),
    ((λ h. ground arith, (λ h. ground arith, (λ h. refl, tt))), tt),
  ),
)

reorder_brokers-IsAscending_example :
    Perm (reorder_brokers two_brokers) (handed_out two_brokers)
    × IsAscending two_brokers (reorder_brokers two_brokers)
reorder_brokers-IsAscending_example = reorder_brokers-IsAscending two_brokers one_id
