-- ===== src/Task/Update.antt =====
-- UpdateStatus of controllers/cruisecontroltask_controller.go. Of the status of the KafkaCluster the
-- brokers' states are modelled; the answers of the API server come by the number of the attempt.
use koperator.Prelude.{
  ℕ, zero, suc, ◌<◌, ◌≡◌, refl, Option, none, some, Bool, false, List, [], ◌∷◌, ◌++◌, arith,
  if◌then◌else◌,
}
use koperator.Prelude.Dict.{Dict}
use koperator.Api.Failure.{Answer, ok, err, Error, api, conflict, is_conflict}
use koperator.Api.States.{BrokerState}
use koperator.Operation.Execute.{default_back_off_for_conflict_steps}
use koperator.Task.Types.{CruiseControlTasksAndStates}
use koperator.Task.Apply.{sync_state}

abbrev pub Status : Type 0
Status = Dict BrokerState

pub record ClusterServer : Type 0 where
  pub write : ℕ → Status → Option Error
  pub read : ℕ → Answer Status

-- What an update leaves: the error, the status in memory, and the statuses sent, the newest first.
pub record Update : Type 0 where
  pub error : Option Error
  pub memory : Status
  pub sent : List Status

module _ (server : ClusterServer) (s : CruiseControlTasksAndStates) where
  -- after a conflict: the conflict is the error, unless the cluster cannot be read
  abbrev pub read_again : Error → Status → Answer Status → Update
  read_again e m (err e') = record { error = some e'; memory = m; sent = m ∷ [] }
  read_again e m (ok fresh) = record { error = some e; memory = sync_state s fresh; sent = m ∷ [] }

  abbrev pub after_write : ℕ → Status → Option Error → Update
  after_write k m none = record { error = none; memory = m; sent = m ∷ [] }
  after_write k m (some e) =
      if is_conflict e
      then read_again e m (server.read k)
      else record { error = some e; memory = m; sent = m ∷ [] }

  -- conflictRetryFunction at its k-th call
  unfoldable pub conflict_retry : ℕ → Status → Update
  conflict_retry k m = after_write k m (server.write k m)

  abbrev pub is_retried : Option Error → Bool
  is_retried none = false
  is_retried (some e) = is_conflict e

  -- RetryOnConflict, with `steps` more calls after the k-th
  unfoldable pub retry_update : ℕ → ℕ → Status → Update
  unfolding conflict_retry
  retry_update zero k m = conflict_retry k m
  retry_update (suc steps) k m =
      let u = conflict_retry k m in
      let rest = retry_update steps (suc k) u.memory in
      if is_retried u.error
      then record { error = rest.error; memory = rest.memory; sent = rest.sent ++ u.sent }
      else u

  -- UpdateStatus; `equal` is reflect.DeepEqual on the status before and after
  unfoldable pub update_status : (Status → Status → Bool) → Status → Update
  unfolding retry_update
  update_status equal m =
      if equal m (sync_state s m)
      then record { error = none; memory = sync_state s m; sent = [] }
      else retry_update 5 0 (sync_state s m)

  -- The first n attempts, from the k-th on, meet a conflict and read the cluster; the next one, with
  -- what was read last, is accepted.
  abbrev pub Settles : ℕ → ℕ → Status → Status → Type 0
  Settles zero k m final = (server.write k m ≡ none) × (m ≡ final)
  Settles (suc n) k m final =
      (server.write k m ≡ some (api conflict))
      × ((fresh : Status) × (server.read k ≡ ok fresh)
          × Settles n (suc k) (sync_state s fresh) final)

  Settles-retry :
      (n steps k : ℕ) (m final : Status)
      → n < suc steps
      → Settles n k m final
      → ((retry_update steps k m).error ≡ none) × ((retry_update steps k m).memory ≡ final)
  unfolding retry_update conflict_retry
  Settles-retry zero zero k m final h (w, e) = rw w (refl, e)
  Settles-retry zero (suc steps) k m final h (w, e) = rw w (refl, e)
  Settles-retry (suc n) zero k m final h t = absurd (omega arith)
  Settles-retry (suc n) (suc steps) k m final h (w, (fresh, r, t)) =
      rw (w, r) (Settles-retry n steps (suc k) (sync_state s fresh) final (omega arith) t)

  -- An update that has something to write, and whose attempts meet at most five conflicts before one
  -- is accepted, ends without an error, and in memory is the status that was accepted: after each
  -- conflict that of the server, with the tasks applied to it.
  pub update_status-Settles :
      (equal : Status → Status → Bool) (m final : Status) (n : ℕ)
      → equal m (sync_state s m) ≡ false
      → n < default_back_off_for_conflict_steps
      → Settles n 0 (sync_state s m) final
      → ((update_status equal m).error ≡ none) × ((update_status equal m).memory ≡ final)
  unfolding update_status
  update_status-Settles equal m final n changed few h =
      rw changed (Settles-retry n 5 0 (sync_state s m) final few h)
