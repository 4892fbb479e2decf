-- ===== src/Kafka/Reorder.antt =====
-- reorderBrokers of pkg/resources/kafka/kafka.go. A Go set of ids is a list of them; decoding a
-- configuration backup (base64, gzip and JSON) is an argument, `none` for its error.
use koperator.Prelude.{
  ℕ, String, Option, none, some, Bool, true, false, ◌&&◌, not, List, [], ◌∷◌, ◌++◌, map, ltb, ◌==◌,
  is_some, if◌then◌else◌,
}
use koperator.Prelude.Dict.{Dict, lookup, insert}
use koperator.Prelude.Decimal.{itoa}
use koperator.Prelude.Sort.{slice_stable}
use koperator.Api.States.{BrokerState, CruiseControlState, downscale_required, downscale_running}
use koperator.Api.Cluster.{Broker}
use koperator.Task.Brokers.{string_slice_contains}

-- brokerReconcilePriority: the lower value goes first
abbrev pub missing_broker_down_scale_running_priority : ℕ
missing_broker_down_scale_running_priority = 0

abbrev pub new_broker_reconcile_priority : ℕ
new_broker_reconcile_priority = 1

abbrev pub missing_broker_reconcile_priority : ℕ
missing_broker_reconcile_priority = 2

abbrev pub non_controller_broker_reconcile_priority : ℕ
non_controller_broker_reconcile_priority = 3

abbrev pub controller_broker_reconcile_priority : ℕ
controller_broker_reconcile_priority = 4

abbrev pub is_unfinished_downscale : CruiseControlState → Bool
is_unfinished_downscale downscale_required = true
is_unfinished_downscale downscale_running = true
is_unfinished_downscale _ = false

-- `controller` is the id of the controller; `none` stands for -1.
pub record Input : Type 0 where
  pub running : List String
  pub bound_claims : List String
  pub desired : List Broker
  pub brokers_state : Dict BrokerState
  pub controller : Option ℕ
  pub restore : String → Option Broker

module _ (i : Input) where
  -- The brokers restored to go on with their downscale, each with the id it stands under.
  unfoldable pub unfinished : Dict BrokerState → List (String × Broker)
  unfinished [] = []
  unfinished ((id, state) ∷ states) =
      let rest = unfinished states in
      if not (string_slice_contains i.running id)
        && is_unfinished_downscale state.graceful_action_state.cruise_control_state
        && string_slice_contains i.bound_claims id
      then (elim (i.restore state.configuration_backup) [ none ↦ rest | some b ↦ (id, b) ∷ rest ])
      else rest

  abbrev pub all_desired : List Broker
  all_desired = i.desired ++ map (λ e. e.1) (unfinished i.brokers_state)

  abbrev pub is_controller : ℕ → Bool
  is_controller id = elim i.controller [ none ↦ false | some c ↦ id == c ]

  -- what the loop stores under the id of a broker
  unfoldable pub priority_of : ℕ → ℕ
  priority_of id =
      if string_slice_contains (map (λ e. e.0) (unfinished i.brokers_state)) (itoa id)
      then missing_broker_down_scale_running_priority
      else if not (is_some (lookup (itoa id) i.brokers_state))
      then new_broker_reconcile_priority
      else if not (string_slice_contains i.running (itoa id))
      then missing_broker_reconcile_priority
      else if is_controller id
      then controller_broker_reconcile_priority
      else non_controller_broker_reconcile_priority

  -- brokersReconcilePriority
  unfoldable pub priorities : List Broker → Dict ℕ → Dict ℕ
  priorities [] m = m
  priorities (b ∷ bs) m = priorities bs (insert (itoa b.id) (priority_of b.id) m)

-- m[id], which reads 0 where the id is no key
abbrev pub or_zero : Option ℕ → ℕ
or_zero none = 0
or_zero (some n) = n

abbrev pub rank : Dict ℕ → Broker → ℕ
rank m b = or_zero (lookup (itoa b.id) m)

-- the `less` function of the sort
unfoldable pub is_before : Dict ℕ → Broker → Broker → Bool
is_before m a b = ltb (rank m a) (rank m b)

unfoldable pub reorder_brokers : Input → List Broker
unfolding is_before
reorder_brokers i = slice_stable (is_before (priorities i (all_desired i) [])) (all_desired i)
