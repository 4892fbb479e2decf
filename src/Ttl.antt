-- ===== src/Ttl.antt =====
-- The cleanup of finished operations: controllers/cruisecontroloperation_ttl_controller.go. The
-- answer of the API server to Get and to Delete, and the two times that a run reads, are arguments.
use koperator.Prelude.{
  ℕ, ◌+◌, ◌-◌, ◌*◌, ◌/◌, ◌≤◌, ◌<◌, ◌≡◌, refl, Option, none, some, Bool, true, false, ◌&&◌, not,
  arith, ltb, is_some, if◌then◌else◌,
}
use koperator.Api.Failure.{
  Answer, ok, err, Error, api, is_not_found, Reconciled, requeue_after, requeue_with_error,
  reconciled,
}
use koperator.Api.Operation.{
  Time, second, CruiseControlOperation, get_ttl_seconds_after_finished, current_task_finished,
  is_finished,
}

-- What a run does: the operation that it deletes, if any, and its result.
pub record Run : Type 0 where
  pub deletes : Bool
  pub result : Reconciled

-- IsExpired; time.Since(finishedAt) is not above the limit where `finished` lies ahead of `now`
unfoldable pub is_expired : Time → ℕ → Time → Bool
is_expired now ttl finished = ltb ttl (now - finished)

abbrev pub is_missing : Error → Bool
is_missing (api e) = is_not_found e
is_missing _ = false

-- what r.delete makes of the answer to Delete
unfoldable pub delete : Option Error → Reconciled
delete none = reconciled
delete (some e) = if is_missing e then reconciled else requeue_with_error e

-- int(time.Until(cleanupTime).Seconds() + 1); 0 stands for each value that is not positive, which
-- ctrl.Result reads as no requeue
unfoldable pub seconds_until : Time → Time → ℕ
seconds_until now cleanup = if ltb cleanup now then 0 else (cleanup - now) / second + 1

-- `now` is read by IsExpired, and `later` by time.Until.
unfoldable pub reconcile_finished : Time → Time → Option Error → ℕ → Time → Run
unfolding is_expired seconds_until delete
reconcile_finished now later deleted ttl_seconds finished =
    let operation_ttl = ttl_seconds * second in
    if is_expired now operation_ttl finished
    then record { deletes = true; result = delete deleted }
    else record {
      deletes = false;
      result = requeue_after (seconds_until later (finished + operation_ttl));
    }

abbrev pub skipped : Run
skipped = record { deletes = false; result = reconciled }

abbrev pub reconcile_times : Time → Time → Option Error → Option ℕ → Option Time → Run
reconcile_times now later deleted none finished = skipped
reconcile_times now later deleted (some ttl) none = skipped
reconcile_times now later deleted (some ttl) (some t) = reconcile_finished now later deleted ttl t

unfoldable pub reconcile : Time → Time → Answer CruiseControlOperation → Option Error → Run
unfolding reconcile_finished
reconcile now later (err e) deleted =
    if is_missing e then skipped else record { deletes = false; result = requeue_with_error e }
reconcile now later (ok o) deleted =
    reconcile_times now later deleted (get_ttl_seconds_after_finished o) (current_task_finished o)

-- CreateFunc and UpdateFunc of the event filter, on the new object
unfoldable pub is_watched : CruiseControlOperation → Bool
is_watched o =
    is_finished o
    && is_some (get_ttl_seconds_after_finished o)
    && not (is_some o.deletion_timestamp)

-- The seconds end after the cleanup time, and by no more than one second.
seconds_until-bounds :
    (later cleanup : Time)
    → later ≤ cleanup
    → let wait = seconds_until later cleanup in
      (0 < wait) × (cleanup < later + wait * second) × (later + wait * second ≤ cleanup + second)
unfolding seconds_until
seconds_until-bounds later cleanup h = ground arith

module _ (o : CruiseControlOperation) (ttl : ℕ) (finished : Time)
    (limited : get_ttl_seconds_after_finished o ≡ some ttl)
    (ended : current_task_finished o ≡ some finished) where
  reconcile-eq :
      (now later : Time) (deleted : Option Error)
      → reconcile now later (ok o) deleted ≡ reconcile_finished now later deleted ttl finished
  unfolding reconcile
  reconcile-eq now later deleted = rw (limited, ended) refl

  -- A run on an operation that has a time to live and a finish time deletes it if and only if more
  -- than the time to live has passed since the finish, by the clock that IsExpired reads.
  pub reconcile-deletes :
      (now later : Time) (deleted : Option Error)
      → (reconcile now later (ok o) deleted).deletes ≡ ltb (finished + ttl * second) now
  unfolding reconcile_finished is_expired
  reconcile-deletes now later deleted = rw (reconcile-eq now later deleted) (ground arith)

  result_of_stay :
      (now later : Time) (deleted : Option Error)
      → (reconcile now later (ok o) deleted).deletes ≡ false
      → (reconcile now later (ok o) deleted).result
        ≡ requeue_after (seconds_until later (finished + ttl * second))
  unfolding reconcile_finished is_expired
  result_of_stay now later deleted stays =
      let stays' = rw (reconcile-eq now later deleted) at stays in
      rw (reconcile-eq now later deleted) (ground arith)

  -- A run that does not delete, and whose second reading of the clock is not yet past the end of the
  -- time to live, asks to be run again after some seconds: at least one, so many that the time to
  -- live has passed by then and the run at that time, or any later one, deletes the operation, and no
  -- more than one second after the end of the time to live.
  pub reconcile-returns :
      (now later : Time) (deleted : Option Error)
      → (reconcile now later (ok o) deleted).deletes ≡ false
      → later ≤ finished + ttl * second
      → (wait : ℕ) × ((reconcile now later (ok o) deleted).result ≡ requeue_after wait)
        × (0 < wait)
        × (later + wait * second ≤ finished + ttl * second + second)
        × ((again later' : Time) (deleted' : Option Error)
            → later + wait * second ≤ again
            → (reconcile again later' (ok o) deleted').deletes ≡ true)
  reconcile-returns now later deleted stays ahead =
      let cleanup = finished + ttl * second in
      let (positive, past, close) = seconds_until-bounds later cleanup ahead in
      (
        seconds_until later cleanup,
        result_of_stay now later deleted stays,
        positive,
        close,
        λ again later' deleted' h. rw (reconcile-deletes again later' deleted') (ground arith),
      )

  -- Where the clock passes the end of the time to live between the two readings, the run neither
  -- deletes the operation nor asks to be run again: it ends like a run with nothing left to do.
  pub reconcile-misses :
      (now later : Time) (deleted : Option Error)
      → now ≤ finished + ttl * second
      → finished + ttl * second < later
      → (reconcile now later (ok o) deleted).deletes ≡ false
        × ((reconcile now later (ok o) deleted).result ≡ reconciled)
  unfolding reconcile_finished is_expired requeue_after reconciled seconds_until
  reconcile-misses now later deleted early late =
      rw (reconcile-eq now later deleted) (ground arith, ground arith)
