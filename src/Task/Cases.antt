-- ===== src/Task/Cases.antt =====
-- The ways in which a broker or a volume adds a task to the container.
use koperator.Prelude.{String, if_both}
use koperator.Api.States.{BrokerState, VolumeState}
use koperator.Task.Types.{CruiseControlTasksAndStates, add}
use koperator.Task.Active.{
  upscale_task, downscale_task, rebalance_task, removal_task, add_broker_task, add_volume_task,
}

module _ (P : CruiseControlTasksAndStates → Type 0) (s : CruiseControlTasksAndStates)
    (old : P s) where
  pub add_broker_task-cases :
      (id : String) (b : BrokerState)
      → P (add (upscale_task id b) s)
      → P (add (downscale_task id b) s)
      → P (add_broker_task id b s)
  unfolding add_broker_task
  add_broker_task-cases id b up down =
      if_both P _ _ s (if_both P _ _ _ up (if_both P _ _ s down old)) old

  pub add_volume_task-cases :
      (id path : String) (v : VolumeState)
      → P (add (rebalance_task id path v) s)
      → P (add (removal_task id path v) s)
      → P (add_volume_task id path v s)
  unfolding add_volume_task
  add_volume_task-cases id path v balance removal =
      if_both P _ _ _ balance (if_both P _ _ s removal old)
