-- ===== src/Operation/Sync.antt =====
-- updateCurrentTasks: the states of the user tasks, brought over from Cruise Control.
use koperator.Prelude.{
  ℕ, String, Option, none, some, Bool, false, ◌&&◌, not, List, [], ◌∷◌, str_eq, if◌then◌else◌,
}
use koperator.Prelude.Dict.{Dict, lookup, insert}
use koperator.Api.Failure.{ok, err, Error}
use koperator.Api.Operation.{CruiseControlOperation, current_task_id, is_done}
use koperator.Scale.{Result}
use koperator.Operation.Equality.{same_status}
use koperator.Operation.Outcome.{update_result}
use koperator.Operation.World.{
  Env, M, pure, panic, call, load, store, update_status, time_now, asked_user_tasks, ◌>>=◌, ◌>>◌,
}

-- the IDs of the operations that have one
unfoldable pub user_task_ids : List CruiseControlOperation → List String
user_task_ids [] = []
user_task_ids (o ∷ os) =
    let rest = user_task_ids os in
    if str_eq (current_task_id o) "" then rest else current_task_id o ∷ rest

-- taskResultsByID; a later task of the same ID replaces an earlier one
unfoldable pub task_results_by_id : Dict Result → List Result → Dict Result
task_results_by_id m [] = m
task_results_by_id m (t ∷ ts) = task_results_by_id (insert t.task_id t m) ts

-- The values that a list of pointers stands for.
unfoldable pub load_all : List ℕ → M (List CruiseControlOperation)
load_all [] = pure []
load_all (p ∷ ps) = do o ← load p; os ← load_all ps; pure (o ∷ os)

module _ (env : Env) where
  -- The operation as updateResult leaves it, written through the pointer, and its error.
  unfoldable pub write_result :
      ℕ → Option (CruiseControlOperation × Option Error) → M (Option Error)
  write_result p none = panic
  write_result p (some (o, e)) = do store p o; pure e

  -- updateResult(log, res, *p, isAfterExecution)
  unfoldable pub update_pointer : Option Result → Bool → ℕ → M (Option Error)
  update_pointer res is_after_execution p = do
    o ← load p
    now ← time_now env
    write_result p (update_result env.parse_rfc1123 now is_after_execution res o)

  -- the loop over the operations that sets their task states
  unfoldable pub set_task_states : Dict Result → List ℕ → M (Option Error)
  set_task_states results [] = pure none
  set_task_states results (p ∷ ps) = do
    o ← load p
    failed ←
        if not (str_eq (current_task_id o) "") && not (is_done o)
        then update_pointer (lookup (current_task_id o) results) false p
        else pure none
    elim failed [ some e ↦ pure (some e) | none ↦ set_task_states results ps ]

  -- the loop that stores each status that is no longer equal to its copy
  unfoldable pub store_statuses : List CruiseControlOperation → List ℕ → M (Option Error)
  store_statuses copies [] = pure none
  store_statuses [] (p ∷ ps) = panic
  store_statuses (copy ∷ copies) (p ∷ ps) = do
    o ← load p
    failed ← if same_status o.status copy.status then pure none else update_status env p
    elim failed [ some e ↦ pure (some e) | none ↦ store_statuses copies ps ]

  unfoldable pub update_current_tasks : List ℕ → M (Option Error)
  update_current_tasks ps = do
    copies ← load_all ps
    let ids = user_task_ids copies
    tasks ← call (asked_user_tasks ids) (λ t. env.user_tasks t ids)
    elim tasks [
      | err e ↦ pure (some e)
      | ok results ↦ do
        failed ← set_task_states (task_results_by_id [] results) ps
        elim failed [ some e ↦ pure (some e) | none ↦ store_statuses copies ps ]
    ]
