-- ===== src/Task/Scheduled.antt =====
-- What becomes of the tasks whose operation was created.
use koperator.Prelude.{ℕ, ◌≡◌, false, List, get_elem?}
use koperator.Task.Types.{CruiseControlTask, is_required_at}

abbrev pub IsIdleAt : List CruiseControlTask → ℕ → Type 0
IsIdleAt ts p = is_required_at (get_elem? ts p) ≡ false
