-- ===== src/Operation/Finalizer.antt =====
-- The finalizer of an operation. controllerutil of controller-runtime is not part of the repository:
-- its three functions are a record, with what their documentation says as laws.
use koperator.Prelude.{String, ◌≡◌, Bool, true, false, ◌&&◌, List, is_some}
use koperator.Api.Operation.{CruiseControlOperation, is_current_task_running}

pub record Finalizers : Type 0 where
  pub contains_finalizer : List String → String → Bool
  pub add_finalizer : List String → String → List String
  pub remove_finalizer : List String → String → List String

-- What AddFinalizer and RemoveFinalizer promise about ContainsFinalizer.
pub record AreLawful (f : Finalizers) : Type 0 where
  pub contains-add :
      (l : List String) (s : String) → f.contains_finalizer (f.add_finalizer l s) s ≡ true
  pub contains-remove :
      (l : List String) (s : String) → f.contains_finalizer (f.remove_finalizer l s) s ≡ false

abbrev pub cc_operation_finalizer_group : String
cc_operation_finalizer_group = "finalizer.cruisecontroloperations.kafka.banzaicloud.io"

module _ (f : Finalizers) where
  abbrev pub has_finalizer : CruiseControlOperation → Bool
  has_finalizer o = f.contains_finalizer o.finalizers cc_operation_finalizer_group

  unfoldable pub with_finalizer : CruiseControlOperation → CruiseControlOperation
  with_finalizer o = record o {
    finalizers = f.add_finalizer o.finalizers cc_operation_finalizer_group;
  }

  unfoldable pub without_finalizer : CruiseControlOperation → CruiseControlOperation
  without_finalizer o = record o {
    finalizers = f.remove_finalizer o.finalizers cc_operation_finalizer_group;
  }

  -- !operation.DeletionTimestamp.IsZero() is a timestamp that is there.
  unfoldable pub is_finalizer_needed : CruiseControlOperation → Bool
  is_finalizer_needed o = has_finalizer o && is_some o.deletion_timestamp

  unfoldable pub is_waiting_for_finalization : CruiseControlOperation → Bool
  is_waiting_for_finalization o =
      is_current_task_running o && is_some o.deletion_timestamp && has_finalizer o
