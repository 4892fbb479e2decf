-- ===== src/Operation/Queues.antt =====
-- sortOperations: the operations of a cluster in four queues, each sorted by priority. A pointer to an
-- operation is its index in the list that was read from the API server, beside the value found there.
use koperator.Prelude.{
  ℕ, ◌/◌, Bool, ◌&&◌, ◌||◌, List, [], ◌∷◌, ◌++◌, ltb, ◌==◌, if◌then◌else◌, Option, head?,
}
use koperator.Prelude.Sort.{slice_stable}
use koperator.Api.TaskKind.{execution_priority_map}
use koperator.Api.Operation.{
  CruiseControlOperation, second, current_task_operation, is_waiting_for_first_execution,
  is_waiting_for_retry_execution, is_in_progress,
}
use koperator.Operation.Finalizer.{Finalizers, is_waiting_for_finalization}

pub record Ref : Type 0 where
  pub pointer : ℕ
  pub operation : CruiseControlOperation

-- ccOperationQueueMap: the map with the four keys; a key that is missing is an empty queue.
pub record QueueMap : Type 0 where
  pub for_stop_execution : List Ref
  pub first_execution : List Ref
  pub retry_execution : List Ref
  pub in_progress : List Ref

abbrev pub no_queues : QueueMap
no_queues = record {
  for_stop_execution = [];
  first_execution = [];
  retry_execution = [];
  in_progress = [];
}

abbrev pub priority : Ref → ℕ
priority r = execution_priority_map (current_task_operation r.operation)

-- CreationTimestamp.Unix()
abbrev pub created : Ref → ℕ
created r = r.operation.creation_timestamp / second

-- the `less` function of the sort
unfoldable pub goes_before : Ref → Ref → Bool
goes_before a b =
    ltb (priority b) (priority a) || (priority a == priority b && ltb (created a) (created b))

module _ (f : Finalizers) where
  -- the `switch`: the first case that holds
  unfoldable pub enqueue : QueueMap → Ref → QueueMap
  enqueue q r =
      if is_waiting_for_finalization f r.operation
      then record q { for_stop_execution = q.for_stop_execution ++ r ∷ [] }
      else if is_waiting_for_first_execution r.operation
      then record q { first_execution = q.first_execution ++ r ∷ [] }
      else if is_waiting_for_retry_execution r.operation
      then record q { retry_execution = q.retry_execution ++ r ∷ [] }
      else if is_in_progress r.operation
      then record q { in_progress = q.in_progress ++ r ∷ [] }
      else q

  unfoldable pub enqueue_all : QueueMap → List Ref → QueueMap
  enqueue_all q [] = q
  enqueue_all q (r ∷ rs) = enqueue_all (enqueue q r) rs

  unfoldable pub sort_operations : List Ref → QueueMap
  sort_operations rs =
      let q = enqueue_all no_queues rs in
      record {
        for_stop_execution = slice_stable goes_before q.for_stop_execution;
        first_execution = slice_stable goes_before q.first_execution;
        retry_execution = slice_stable goes_before q.retry_execution;
        in_progress = slice_stable goes_before q.in_progress;
      }

-- getFirstOperation, on the queue under a key
abbrev pub get_first_operation : List Ref → Option Ref
get_first_operation = head?
