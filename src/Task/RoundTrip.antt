-- ===== src/Task/RoundTrip.antt =====
-- Tasks read from the status of a cluster and written back leave it as it was.
use koperator.Prelude.{
  ◌≡◌, refl, sym, ap, ◌∙◌, String, Option, some, List, [], ◌∷◌, All, All-append,
}
use koperator.Prelude.Dict.{Dict, lookup}
use koperator.Api.States.{BrokerState, VolumeState}
use koperator.Task.Types.{CruiseControlTask, CruiseControlTasksAndStates, add}
use koperator.Task.Apply.{
  apply, apply_broker, apply_volume, apply_volumes, apply_all, sync_state, modify, modify_same,
}
use koperator.Task.Active.{
  upscale_task, downscale_task, rebalance_task, removal_task, add_broker_task, add_volume_tasks,
  add_tasks, get_active_tasks,
}
use koperator.Task.Cases.{add_broker_task-cases, add_volume_task-cases}

-- No key of the map stands twice, and none of the maps of its volumes: each entry is the one found.
abbrev pub AreVolumes : Dict VolumeState → Dict VolumeState → Type 0
AreVolumes vs all = All (λ e. lookup e.0 all ≡ some e.1) vs

abbrev pub AreBrokers : Dict BrokerState → Dict BrokerState → Type 0
AreBrokers bs all =
    All
      (λ e.
        (lookup e.0 all ≡ some e.1)
        × AreVolumes e.1.graceful_action_state.volume_states
            e.1.graceful_action_state.volume_states)
      bs

abbrev pub IsMap : Dict BrokerState → Type 0
IsMap m = AreBrokers m m

some_injective {ℓ} : {A : Type ℓ} (o : Option A) (a b : A) → o ≡ some a → o ≡ some b → b ≡ a
some_injective o a b h k = cc

module _ (m : Dict BrokerState) (id : String) (b : BrokerState) (found : lookup id m ≡ some b) where
  -- A change that keeps the broker's state keeps the map.
  kept : (f : BrokerState → BrokerState) → f b ≡ b → modify f id m ≡ m
  kept f h = modify_same f id m (λ v e.
      ap f (some_injective (lookup id m) b v found e)
      ∙ h
      ∙ sym (some_injective (lookup id m) b v found e))

  upscale_kept : apply (upscale_task id b) m ≡ m
  unfolding apply apply_broker
  upscale_kept = kept (apply_broker (upscale_task id b)) refl

  downscale_kept : apply (downscale_task id b) m ≡ m
  unfolding apply apply_broker
  downscale_kept = kept (apply_broker (downscale_task id b)) refl

  module _ (path : String) (v : VolumeState)
      (there : lookup path b.graceful_action_state.volume_states ≡ some v) where
    volumes_kept :
        (f : VolumeState → VolumeState)
        → f v ≡ v
        → modify f path b.graceful_action_state.volume_states
          ≡ b.graceful_action_state.volume_states
    volumes_kept f h =
        let volumes = b.graceful_action_state.volume_states in
        modify_same f path volumes (λ u e.
          ap f (some_injective (lookup path volumes) v u there e)
          ∙ h
          ∙ sym (some_injective (lookup path volumes) v u there e))

    with_volumes : Dict VolumeState → BrokerState
    with_volumes vs = record b {
      graceful_action_state = record b.graceful_action_state { volume_states = vs };
    }

    rebalance_kept : apply (rebalance_task id path v) m ≡ m
    unfolding apply apply_volumes apply_volume with_volumes
    rebalance_kept =
        kept (apply_volumes (rebalance_task id path v))
          (ap with_volumes (volumes_kept (apply_volume (rebalance_task id path v)) refl))

    removal_kept : apply (removal_task id path v) m ≡ m
    unfolding apply apply_volumes apply_volume with_volumes
    removal_kept =
        kept (apply_volumes (removal_task id path v))
          (ap with_volumes (volumes_kept (apply_volume (removal_task id path v)) refl))

module _ (m : Dict BrokerState) where
  abbrev AreKept : CruiseControlTasksAndStates → Type 0
  AreKept s = All (λ t. apply t m ≡ m) s.tasks

  add-AreKept :
      (t : CruiseControlTask) (s : CruiseControlTasksAndStates)
      → apply t m ≡ m
      → AreKept s
      → AreKept (add t s)
  unfolding add
  add-AreKept t s h k = All-append (λ t. apply t m ≡ m) s.tasks (t ∷ []) k (h, tt)

  add_broker_task-AreKept :
      (id : String) (b : BrokerState) (s : CruiseControlTasksAndStates)
      → lookup id m ≡ some b
      → AreKept s
      → AreKept (add_broker_task id b s)
  add_broker_task-AreKept id b s found k =
      let up = add-AreKept _ s (upscale_kept m id b found) k in
      let down = add-AreKept _ s (downscale_kept m id b found) k in
      add_broker_task-cases AreKept s k id b up down

  add_volume_tasks-AreKept :
      (id : String) (b : BrokerState) (vs : Dict VolumeState) (s : CruiseControlTasksAndStates)
      → lookup id m ≡ some b
      → AreVolumes vs b.graceful_action_state.volume_states
      → AreKept s
      → AreKept (add_volume_tasks id vs s)
  unfolding add_volume_tasks
  add_volume_tasks-AreKept id b [] s found vols k = k
  add_volume_tasks-AreKept id b ((path, v) ∷ vs) s found vols k =
      let balance = add-AreKept _ s (rebalance_kept m id b found path v vols.0) k in
      let removal = add-AreKept _ s (removal_kept m id b found path v vols.0) k in
      add_volume_tasks-AreKept id b vs _ found vols.1
        (add_volume_task-cases AreKept s k id path v balance removal)

  add_tasks-AreKept :
      (bs : Dict BrokerState) (s : CruiseControlTasksAndStates)
      → AreBrokers bs m
      → AreKept s
      → AreKept (add_tasks bs s)
  unfolding add_tasks
  add_tasks-AreKept [] s all k = k
  add_tasks-AreKept ((id, b) ∷ bs) s all k =
      add_tasks-AreKept bs _ all.1 (
        add_volume_tasks-AreKept id b _ _ all.0.0 all.0.1
          (add_broker_task-AreKept id b s all.0.0 k))

  apply_all_kept : (ts : List CruiseControlTask) → All (λ t. apply t m ≡ m) ts → apply_all ts m ≡ m
  unfolding apply_all
  apply_all_kept [] h = refl
  apply_all_kept (t ∷ ts) h = ap (apply_all ts) h.0 ∙ apply_all_kept ts h.1

-- The tasks that are collected from the brokers' states and volumes, written back unchanged, leave
-- the status as it is, if no key of its maps stands twice.
pub sync_state-get_active_tasks :
    (m : Dict BrokerState) → IsMap m → sync_state (get_active_tasks m) m ≡ m
sync_state-get_active_tasks m h =
    apply_all_kept m (get_active_tasks m).tasks (add_tasks-AreKept m m _ h tt)
