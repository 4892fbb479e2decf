-- ===== src/Task/Index.antt =====
-- The index by operation of CruiseControlTasksAndStates agrees with its tasks.
use koperator.Prelude.{
  ℕ, suc, ◌+◌, ◌≡◌, refl, sym, ap, ◌∙◌, String, Bool, true, false, List, [], ◌∷◌, ◌++◌, arith,
  length, if◌then◌else◌,
}
use koperator.Prelude.Dict.{Dict}
use koperator.Api.TaskKind.{CruiseControlTaskOperation}
use koperator.Api.States.{BrokerState, VolumeState}
use koperator.Task.Types.{
  CruiseControlTask, CruiseControlTasksAndStates, same_operation, new_tasks_and_states, add,
}
use koperator.Task.Active.{
  upscale_task, downscale_task, rebalance_task, removal_task, add_broker_task, add_volume_tasks,
  add_tasks, get_active_tasks,
}
use koperator.Task.Cases.{add_broker_task-cases, add_volume_task-cases}

-- the pointers to the tasks of one operation, in order, the first task at `p`
abbrev pub pointers_of : CruiseControlTaskOperation → ℕ → List CruiseControlTask → List ℕ
pointers_of o p [] = []
pointers_of o p (t ∷ ts) =
    let rest = pointers_of o (suc p) ts in if same_operation t.operation o then p ∷ rest else rest

abbrev pub IsIndexed : CruiseControlTasksAndStates → Type 0
IsIndexed s = (o : CruiseControlTaskOperation) → s.tasks_by_op o ≡ pointers_of o 0 s.tasks

pull {ℓ} :
    {A : Type ℓ} (b : Bool) (x : A) (xs ys : List A)
    → x ∷ (if b then xs else ys) ≡ (if b then x ∷ xs else x ∷ ys)
pull true x xs ys = refl
pull false x xs ys = refl

pointers_of-snoc :
    (o : CruiseControlTaskOperation) (p : ℕ) (ts : List CruiseControlTask) (t : CruiseControlTask)
    → pointers_of o p (ts ++ t ∷ []) ≡ (
        if same_operation t.operation o
        then pointers_of o p ts ++ (p + length ts) ∷ []
        else pointers_of o p ts)
pointers_of-snoc o p [] t =
    ap (λ q. if same_operation t.operation o then q ∷ [] else []) (omega arith)
pointers_of-snoc o p (u ∷ ts) t =
    let ih = pointers_of-snoc o (suc p) ts t in
    let next : suc p + length ts ≡ p + suc (length ts) = omega arith in
    elim (same_operation u.operation o)
      as (λ b.
        (if b
          then p ∷ pointers_of o (suc p) (ts ++ t ∷ [])
          else pointers_of o (suc p) (ts ++ t ∷ []))
        ≡ (if same_operation t.operation o
            then (if b then p ∷ pointers_of o (suc p) ts else pointers_of o (suc p) ts)
              ++ (p + suc (length ts)) ∷ []
            else (if b then p ∷ pointers_of o (suc p) ts else pointers_of o (suc p) ts))) [
              | true ↦ rw (ih, next) (pull (same_operation t.operation o) p _ _)
              | false ↦ rw (ih, next) refl
            ]

-- Add keeps the index.
add-IsIndexed :
    (t : CruiseControlTask) (s : CruiseControlTasksAndStates) → IsIndexed s → IsIndexed (add t s)
unfolding add
add-IsIndexed t s h o =
    let l = s.tasks in
    rw (h o) (
      ap
        (λ n.
          if same_operation t.operation o then pointers_of o 0 l ++ n ∷ [] else pointers_of o 0 l)
        (omega arith)
      ∙ sym (pointers_of-snoc o 0 l t))

add_volume_tasks-IsIndexed :
    (id : String) (vs : Dict VolumeState) (s : CruiseControlTasksAndStates)
    → IsIndexed s
    → IsIndexed (add_volume_tasks id vs s)
unfolding add_volume_tasks
add_volume_tasks-IsIndexed id [] s k = k
add_volume_tasks-IsIndexed id ((path, v) ∷ vs) s k = add_volume_tasks-IsIndexed id vs _ (
    add_volume_task-cases IsIndexed s k id path v (add-IsIndexed (rebalance_task id path v) s k)
      (add-IsIndexed (removal_task id path v) s k))

add_tasks-IsIndexed :
    (bs : Dict BrokerState) (s : CruiseControlTasksAndStates)
    → IsIndexed s
    → IsIndexed (add_tasks bs s)
unfolding add_tasks
add_tasks-IsIndexed [] s k = k
add_tasks-IsIndexed ((id, b) ∷ bs) s k = add_tasks-IsIndexed bs _ (
    add_volume_tasks-IsIndexed id b.graceful_action_state.volume_states (add_broker_task id b s) (
      add_broker_task-cases IsIndexed s k id b (add-IsIndexed (upscale_task id b) s k)
        (add-IsIndexed (downscale_task id b) s k)))

-- In the container of the tasks of a cluster, the index of every operation lists exactly the tasks of
-- that operation, in the order of the tasks.
pub get_active_tasks-IsIndexed : (bs : Dict BrokerState) → IsIndexed (get_active_tasks bs)
get_active_tasks-IsIndexed bs = add_tasks-IsIndexed bs new_tasks_and_states (λ o. refl)
