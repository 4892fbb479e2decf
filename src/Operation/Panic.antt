-- ===== src/Operation/Panic.antt =====
-- What happens when the operation that asks for the status cannot be written.
use koperator.Prelude.{◌≡◌, refl, none, some, true, [], ◌∷◌}
use koperator.Api.Failure.{ok, err, Error}
use koperator.Api.TaskKind.{status}
use koperator.Api.Cluster.{KafkaCluster}
use koperator.Api.Operation.{CruiseControlOperation, no_policy}
use koperator.Scale.{StatusTaskResult}
use koperator.Operation.Outcome.{update_result}
use koperator.Operation.Status.{
  create_cc_operation, record_new_status, start_status_operation, ask_status, new_operation,
  new_task, assign_task,
}
use koperator.Operation.World.{
  Env, World, Trace, asked_status, owned, created, updated_status, read_clock, ◌>>=◌,
}

-- The object that createCCOperation makes to ask for the status of a cluster.
abbrev pub status_operation : KafkaCluster → CruiseControlOperation
status_operation c = new_operation c no_policy c.spec.operation_ttl_seconds_after_finished status

module _ (env : Env) (c : KafkaCluster) (w : World) (o1 o2 o3 o4 : CruiseControlOperation)
    (res : StatusTaskResult) (e : Error) (asks : env.status w.trace ≡ ok res)
    (later : res.status ≡ none) (owns : env.set_controller_reference c (status_operation c) ≡ ok o1)
    (creates : env.create (owned (status_operation c) ∷ asked_status ∷ w.trace) o1 ≡ ok o2) where
  abbrev after_create : Trace
  after_create = created o1 ∷ owned (status_operation c) ∷ asked_status ∷ w.trace

  abbrev started : CruiseControlOperation
  started = assign_task (new_task status []) o2

  abbrev at_clock : Trace
  at_clock = read_clock ∷ updated_status started ∷ after_create

  creation :
      env.update_status after_create started ≡ ok o3
      → create_cc_operation env c c.spec.operation_ttl_seconds_after_finished status
          (record w { trace = asked_status ∷ w.trace })
        ≡ (some (ok o3), record w { trace = updated_status started ∷ after_create })
  unfolding create_cc_operation ◌>>=◌
  creation stores = rw owns (rw creates (rw stores refl))

  -- Cruise Control answers the question for its status without one, the operation that waits for it
  -- is created, and updateResult succeeds on it; then the update of its status is refused. getStatus
  -- does not return this error: it follows a nil pointer.
  pub ask_status-panics :
      env.update_status after_create started ≡ ok o3
      → update_result env.parse_rfc1123
          (env.now (updated_status started ∷ after_create))
          true
          res.task_result
          o3
        ≡ some (o4, none)
      → env.update_status at_clock o4 ≡ err e
      → (ask_status env c w).0 ≡ none
  unfolding ask_status start_status_operation record_new_status ◌>>=◌
  ask_status-panics stores updates refuses =
      rw asks (rw later (rw (creation stores) (rw updates (rw refuses refl))))
