-- ===== src/Operation/Conflict.antt =====
-- What happens to the result of an executed task when its status update meets a conflict.
use koperator.Prelude.{
  ℕ, zero, suc, ◌≡◌, refl, Option, none, some, true, List, [], ◌∷◌, get_elem?, set,
}
use koperator.Api.Failure.{ok, err, api, conflict, reconciled}
use koperator.Api.Cluster.{ObjectKey}
use koperator.Api.Operation.{CruiseControlOperation}
use koperator.Scale.{Result}
use koperator.Operation.Outcome.{update_result}
use koperator.Operation.Sync.{update_pointer, write_result}
use koperator.Operation.Execute.{
  after_update, conflict_retry_function, retry_on_conflict, store_result,
}
use koperator.Operation.World.{
  Env, World, stored, update_status, refresh, updated_status, got_operation, read_clock, ◌>>=◌,
}

pub written_there :
    (xs : List CruiseControlOperation) (p : ℕ) (o o' : CruiseControlOperation)
    → get_elem? xs p ≡ some o
    → get_elem? (set xs p o') p ≡ some o'
written_there [] p o o' h = cc
written_there (x ∷ xs) zero o o' h = refl
written_there (x ∷ xs) (suc p) o o' h = written_there xs p o o' h

abbrev key_of : CruiseControlOperation → ObjectKey
key_of o = record { name = o.name; namespace = o.namespace }

module _ (env : Env) (p : ℕ) (w : World) (o o' fresh : CruiseControlOperation) (res : Option Result)
    (there : get_elem? w.items p ≡ some o)
    (updates : update_result env.parse_rfc1123 (env.now w.trace) true res o ≡ some (o', none))
    (conflicts : env.update_status (read_clock ∷ w.trace) o' ≡ err (api conflict))
    (reads : env.get_operation (updated_status o' ∷ read_clock ∷ w.trace) (key_of o')
      ≡ ok fresh) where
  abbrev after_result : World
  after_result = record { items = set w.items p o'; trace = read_clock ∷ w.trace }

  abbrev after_conflict : World
  after_conflict = record after_result { trace = updated_status o' ∷ read_clock ∷ w.trace }

  abbrev after_read : World
  after_read = record {
    items = set (set w.items p o') p fresh;
    trace = got_operation (key_of o') ∷ updated_status o' ∷ read_clock ∷ w.trace;
  }

  result_written : update_pointer env res true p w ≡ (some none, after_result)
  unfolding update_pointer write_result ◌>>=◌
  result_written = rw there (rw updates refl)

  update_refused : update_status env p after_result ≡ (some (some (api conflict)), after_conflict)
  unfolding update_status stored ◌>>=◌
  update_refused = rw (written_there w.items p o o' there) (rw conflicts refl)

  read_again : refresh env p after_conflict ≡ (some none, after_read)
  unfolding refresh stored ◌>>=◌
  read_again = rw (written_there w.items p o o' there) (rw reads refl)

  one_attempt : conflict_retry_function env res p w ≡ (some none, after_read)
  unfolding conflict_retry_function after_update ◌>>=◌
  one_attempt = rw result_written (rw update_refused read_again)

  -- The task was executed and updateResult succeeds; then the status update meets a conflict, and the
  -- operation is read again. The function that is to be retried on conflicts then reports success: the
  -- run ends as reconciled after a single update, which was refused, and in memory too the result is
  -- replaced by the operation as the server has it.
  pub store_result-conflict : store_result env res p w ≡ (
    some reconciled,
    record {
      items = set (set w.items p o') p fresh;
      trace = got_operation (key_of o') ∷ updated_status o' ∷ read_clock ∷ w.trace;
    },
  )
  unfolding store_result retry_on_conflict ◌>>=◌
  store_result-conflict = rw one_attempt refl
