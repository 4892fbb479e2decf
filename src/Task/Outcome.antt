-- ===== src/Task/Outcome.antt =====
-- FromResult of controllers/cruisecontroltask_types.go. Its four inner switches have the same cases;
-- `outcome` names the case, and one function for each kind of task names the state.
use koperator.Prelude.{
  ◌≡◌, refl, Option, none, some, Bool, true, false, ◌&&◌, ◌||◌, arith, if◌then◌else◌,
}
use koperator.Api.TaskKind.{
  add_broker, remove_broker, remove_disks, rebalance, is_completed_with_error, is_active,
  is_in_execution, is_completed, is_no_state,
}
use koperator.Api.States.{
  CruiseControlState, CruiseControlVolumeState, upscale_succeeded, upscale_paused, upscale_running,
  upscale_completed_with_error, upscale_scheduled, downscale_succeeded, downscale_paused,
  downscale_running, downscale_completed_with_error, downscale_scheduled, removal_succeeded,
  removal_paused, removal_running, removal_completed_with_error, removal_scheduled,
  rebalance_succeeded, rebalance_paused, rebalance_running, rebalance_completed_with_error,
  rebalance_scheduled, is_required_state, is_volume_required_state,
}
use koperator.Api.Operation.{
  CruiseControlOperation, current_task_state, is_error_policy_ignore, is_paused, is_done,
}
use koperator.Task.Types.{CruiseControlTask, is_required}

pub data Outcome : Type 0 where
  succeeded paused running failed scheduled unchanged : Outcome

-- The cases of a switch, in their order.
unfoldable pub outcome : Option CruiseControlOperation → Outcome
outcome none = succeeded
outcome (some o) =
    let state = current_task_state o in
    if is_error_policy_ignore o && is_completed_with_error state
    then succeeded
    else if is_paused o && is_completed_with_error state
    then paused
    else if is_active state || is_in_execution state
    then running
    else if is_completed state
    then succeeded
    else if is_completed_with_error state
    then failed
    else if is_no_state state
    then scheduled
    else unchanged

unfoldable pub upscale_state : CruiseControlState → Outcome → CruiseControlState
upscale_state old succeeded = upscale_succeeded
upscale_state old paused = upscale_paused
upscale_state old running = upscale_running
upscale_state old failed = upscale_completed_with_error
upscale_state old scheduled = upscale_scheduled
upscale_state old unchanged = old

unfoldable pub downscale_state : CruiseControlState → Outcome → CruiseControlState
downscale_state old succeeded = downscale_succeeded
downscale_state old paused = downscale_paused
downscale_state old running = downscale_running
downscale_state old failed = downscale_completed_with_error
downscale_state old scheduled = downscale_scheduled
downscale_state old unchanged = old

unfoldable pub removal_state : CruiseControlVolumeState → Outcome → CruiseControlVolumeState
removal_state old succeeded = removal_succeeded
removal_state old paused = removal_paused
removal_state old running = removal_running
removal_state old failed = removal_completed_with_error
removal_state old scheduled = removal_scheduled
removal_state old unchanged = old

unfoldable pub rebalance_state : CruiseControlVolumeState → Outcome → CruiseControlVolumeState
rebalance_state old succeeded = rebalance_succeeded
rebalance_state old paused = rebalance_paused
rebalance_state old running = rebalance_running
rebalance_state old failed = rebalance_completed_with_error
rebalance_state old scheduled = rebalance_scheduled
rebalance_state old unchanged = old

unfoldable pub from_result : Option CruiseControlOperation → CruiseControlTask → CruiseControlTask
from_result o t = elim t.operation [
  | add_broker ↦ record t { broker_state = upscale_state t.broker_state (outcome o) }
  | remove_broker ↦ record t { broker_state = downscale_state t.broker_state (outcome o) }
  | remove_disks ↦ record t { volume_state = removal_state t.volume_state (outcome o) }
  | rebalance ↦ record t { volume_state = rebalance_state t.volume_state (outcome o) }
  | _ ↦ t
]

-- The state of the operation's task is one that the code knows.
abbrev pub IsKnown : Option CruiseControlOperation → Type 0
IsKnown none = Unit
IsKnown (some o) =
    is_active (current_task_state o)
      || is_in_execution (current_task_state o)
      || is_completed (current_task_state o)
      || is_completed_with_error (current_task_state o)
      || is_no_state (current_task_state o)
    ≡ true

abbrev is_unchanged : Outcome → Bool
is_unchanged unchanged = true
is_unchanged _ = false

outcome-IsKnown : (o : Option CruiseControlOperation) → IsKnown o → is_unchanged (outcome o) ≡ false
unfolding outcome
outcome-IsKnown none h = refl
outcome-IsKnown (some o) h = ground arith

upscale_not_required :
    (s : CruiseControlState) (o : Outcome)
    → is_unchanged o ≡ false
    → is_required_state (upscale_state s o) ≡ false
unfolding is_required_state upscale_state
upscale_not_required s o h = ground arith

downscale_not_required :
    (s : CruiseControlState) (o : Outcome)
    → is_unchanged o ≡ false
    → is_required_state (downscale_state s o) ≡ false
unfolding is_required_state downscale_state
downscale_not_required s o h = ground arith

removal_not_required :
    (s : CruiseControlVolumeState) (o : Outcome)
    → is_unchanged o ≡ false
    → is_volume_required_state (removal_state s o) ≡ false
unfolding is_volume_required_state removal_state
removal_not_required s o h = ground arith

rebalance_not_required :
    (s : CruiseControlVolumeState) (o : Outcome)
    → is_unchanged o ≡ false
    → is_volume_required_state (rebalance_state s o) ≡ false
unfolding is_volume_required_state rebalance_state
rebalance_not_required s o h = ground arith

-- A task that follows an operation is not required to be executed again, whatever became of the
-- operation: it is deleted, or its task has any of the states that the code knows.
pub from_result-not_required :
    (o : Option CruiseControlOperation) (t : CruiseControlTask)
    → IsKnown o
    → is_required (from_result o t) ≡ false
unfolding is_required from_result
from_result-not_required o t h =
    let known = outcome-IsKnown o h in
    let up = upscale_not_required t.broker_state (outcome o) known in
    let down = downscale_not_required t.broker_state (outcome o) known in
    let removal = removal_not_required t.volume_state (outcome o) known in
    let balance = rebalance_not_required t.volume_state (outcome o) known in ground arith

-- The states that end a task.
abbrev pub is_settled : Outcome → Bool
is_settled succeeded = true
is_settled paused = true
is_settled _ = false

-- A task that follows an operation is shown as succeeded or paused exactly when the controller of the
-- operations takes the operation for done.
pub is_settled-is_done : (o : CruiseControlOperation) → is_settled (outcome (some o)) ≡ is_done o
unfolding outcome is_done
is_settled-is_done o = ground arith
