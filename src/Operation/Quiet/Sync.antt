-- ===== src/Operation/Quiet/Sync.antt =====
-- The quiet parts of Reconcile: writes, reads, updateCurrentTasks, the selection and getStatus.
use koperator.Prelude.{ℕ, Option, none, some, Bool, List, [], ◌∷◌}
use koperator.Prelude.Dict.{Dict}
use koperator.Api.Failure.{Answer, ok, err, Error}
use koperator.Api.Operation.{CruiseControlOperation}
use koperator.Scale.{Result}
use koperator.Operation.Sync.{
  load_all, write_result, update_pointer, set_task_states, store_statuses, update_current_tasks,
}
use koperator.Operation.World.{Env, stored, update, update_status, refresh}
use koperator.Operation.Quiet.{Quiet, Quiet-bind, Quiet-pure, quiet_rules}

stored-Quiet : (p : ℕ) (a : Answer CruiseControlOperation) → Quiet (stored p a)
unfolding stored
stored-Quiet p (ok o) = search quiet_rules
stored-Quiet p (err e) = search quiet_rules

module _ (env : Env) where
  pub update-Quiet : (p : ℕ) → Quiet (update env p)
  unfolding update
  update-Quiet p = search (quiet_rules, stored-Quiet)

  pub update_status-Quiet : (p : ℕ) → Quiet (update_status env p)
  unfolding update_status
  update_status-Quiet p = search (quiet_rules, stored-Quiet)

  pub refresh-Quiet : (p : ℕ) → Quiet (refresh env p)
  unfolding refresh
  refresh-Quiet p = search (quiet_rules, stored-Quiet)

  load_all-Quiet : (ps : List ℕ) → Quiet (load_all ps)
  unfolding load_all
  load_all-Quiet [] = search quiet_rules
  load_all-Quiet (p ∷ ps) =
      Quiet-bind _ _ (search quiet_rules)
        λ o. Quiet-bind _ _ (load_all-Quiet ps) λ os. Quiet-pure (o ∷ os)

  write_result-Quiet :
      (p : ℕ) (r : Option (CruiseControlOperation × Option Error)) → Quiet (write_result env p r)
  unfolding write_result
  write_result-Quiet p none = search quiet_rules
  write_result-Quiet p (some (o, e)) = search quiet_rules

  pub update_pointer-Quiet :
      (res : Option Result) (b : Bool) (p : ℕ) → Quiet (update_pointer env res b p)
  unfolding update_pointer
  update_pointer-Quiet res b p = search (quiet_rules, write_result-Quiet)

  set_task_states-Quiet : (m : Dict Result) (ps : List ℕ) → Quiet (set_task_states env m ps)
  unfolding set_task_states
  set_task_states-Quiet m [] = search quiet_rules
  set_task_states-Quiet m (p ∷ ps) =
      let ih = set_task_states-Quiet m ps in
      Quiet-bind _ _ (search quiet_rules) λ o.
        Quiet-bind _ _ (search (quiet_rules, update_pointer-Quiet))
          (elim [ none ↦ ih | some e ↦ Quiet-pure (some e) ])

  store_statuses-Quiet :
      (os : List CruiseControlOperation) (ps : List ℕ) → Quiet (store_statuses env os ps)
  unfolding store_statuses
  store_statuses-Quiet os [] = search quiet_rules
  store_statuses-Quiet [] (p ∷ ps) = search quiet_rules
  store_statuses-Quiet (o ∷ os) (p ∷ ps) =
      let ih = store_statuses-Quiet os ps in
      Quiet-bind _ _ (search quiet_rules) λ o'.
        Quiet-bind _ _ (search (quiet_rules, update_status-Quiet))
          (elim [ none ↦ ih | some e ↦ Quiet-pure (some e) ])

  pub update_current_tasks-Quiet : (ps : List ℕ) → Quiet (update_current_tasks env ps)
  unfolding update_current_tasks
  update_current_tasks-Quiet ps = Quiet-bind _ _ (load_all-Quiet ps) λ copies.
      Quiet-bind _ _ (search quiet_rules) (elim [
        | err e ↦ Quiet-pure (some e)
        | ok results ↦
            Quiet-bind _ _ (set_task_states-Quiet _ ps)
              (elim [ none ↦ store_statuses-Quiet copies ps | some e ↦ Quiet-pure (some e) ])
      ])
