-- ===== src/Api/Failure.antt =====
-- Errors as values, and what a reconciler returns: controllers/controller_common.go.
use koperator.Prelude.{
  ◌≡◌, refl, ◌⊎◌, inl, inr, ℕ, ◌*◌, String, Option, none, some, Bool, true, false,
}

-- The answers of the API server that the code tells apart (IsNotFound, IsConflict).
pub data ApiError : Type 0 where
  not_found conflict api_failure : ApiError

-- An error keeps its cause through the wrappers; `failure` is one that the code makes itself.
pub data Error : Type 0 where
  api : ApiError → Error
  scaler_failure : String → Error
  failure : String → Error

abbrev pub is_not_found : ApiError → Bool
is_not_found not_found = true
is_not_found _ = false

abbrev pub is_conflict : Error → Bool
is_conflict (api conflict) = true
is_conflict _ = false

-- apierrors.IsNotFound on an error
abbrev pub is_missing : Error → Bool
is_missing (api e) = is_not_found e
is_missing _ = false

-- The answer of a call that returns a value and an error.
pub data Answer {ℓ} (A : Type ℓ) : Type ℓ where
  ok : A → Answer A
  err : Error → Answer A

-- To split on a computed answer and keep the equation.
pub Answer-cases {ℓ} :
    {A : Type ℓ} (a : Answer A) → ((x : A) × (a ≡ ok x)) ⊎ ((e : Error) × (a ≡ err e))
Answer-cases (ok x) = inl (x, refl)
Answer-cases (err e) = inr (e, refl)

-- ctrl.Result; a duration counts nanoseconds
pub record CtrlResult : Type 0 where
  pub requeue : Bool
  pub requeue_after : ℕ

abbrev pub Reconciled : Type 0
Reconciled = CtrlResult × Option Error

abbrev pub empty_result : CtrlResult
empty_result = record { requeue = false; requeue_after = 0 }

unfoldable pub requeue_after : ℕ → Reconciled
requeue_after sec = (record { requeue = false; requeue_after = sec * 1000000000 }, none)

unfoldable pub requeue_with_error : Error → Reconciled
requeue_with_error e = (empty_result, some e)

unfoldable pub reconciled : Reconciled
reconciled = (empty_result, none)
