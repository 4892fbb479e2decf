-- ===== src/Operation/Equality.antt =====
-- reflect.DeepEqual on the status of an operation: equality of all the fields. (A nil map or slice
-- and an empty one are one value here, where DeepEqual tells them apart.)
use mathlib.Core.Bool.{decide, decide_iff}
use native.Mathlib.Decide.{ℕ_discrete}
use koperator.Prelude.{
  ◌≡◌, ◌↔◌, String, Bool, true, false, arith, str_eq, eq_iff, Bool-cases, inl, inr,
}
use koperator.Api.Operation.{CruiseControlOperationStatus}

differ : (a b : String) → str_eq a b ≡ false → ¬ (a ≡ b)
differ a b e p = ground (arith, eq_iff a b)

String_discrete : Discrete String
String_discrete a b = elim (Bool-cases (str_eq a b)) [
  | inl e ↦ yes ((eq_iff a b).0 e)
  | inr e ↦ no (differ a b e)
]

status_discrete : Discrete CruiseControlOperationStatus
unfolding String_discrete ℕ_discrete
status_discrete = hlevel (String_discrete, ℕ_discrete)

pub same_status : CruiseControlOperationStatus → CruiseControlOperationStatus → Bool
unfolding status_discrete
same_status a b = decide (status_discrete a b)

pub same_status_iff : (a b : CruiseControlOperationStatus) → (same_status a b ≡ true) ↔ (a ≡ b)
unfolding same_status
same_status_iff a b = decide_iff (status_discrete a b)
