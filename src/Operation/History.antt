-- ===== src/Operation/History.antt =====
-- What updateResult does to the retry history and to the task of an operation.
use koperator.Prelude.{
  ◌+◌, ◌≤◌, ◌<◌, ◌≡◌, refl, ap, ◌∙◌, String, Option, none, some, Bool, true, false, List, [], ◌∷◌,
  arith, str_eq, length, ◌&&◌, ◌++◌, leb, is_some, subst, length-append, if◌then◌else◌, inl, inr,
  Bool-cases, ◌⊎◌,
}
use koperator.Api.Failure.{Error}
use koperator.Api.TaskKind.{
  CruiseControlUserTaskState, active, in_execution, no_state, other_state, completed,
  completed_with_error,
}
use koperator.Api.Operation.{
  Time, CruiseControlTask, CruiseControlOperation, CruiseControlOperationStatus, set_defaults,
  current_task, is_in_progress, is_current_task_running, is_waiting_for_first_execution,
  is_waiting_for_retry_execution,
}
use koperator.Scale.{Result}
use koperator.Operation.Outcome.{
  push_failed_task, finish_task, is_failed_attempt, archive_failed_task, complete_task, update_task,
  update_current_task, update_result, result_or_missing, default_failed_tasks_history_max_length,
}

length-push :
    (l : List CruiseControlTask) (t : CruiseControlTask)
    → length l ≤ 50
    → (length (push_failed_task l t) ≤ 50) × (0 < length (push_failed_task l t))
unfolding push_failed_task
length-push [] t h = omega arith
length-push (o ∷ l) t h = ground (arith, length-append l (t ∷ []), length-append (o ∷ l) (t ∷ []))

-- The retry history after an update: the failed attempt is pushed and counted, or nothing changes.
abbrev pub RecordsAttempt :
    Bool → CruiseControlTask → CruiseControlOperationStatus → CruiseControlOperationStatus → Type 0
RecordsAttempt failed task s s' =
    (s'.failed_tasks ≡ (if failed then push_failed_task s.failed_tasks task else s.failed_tasks))
    × (s'.retry_count ≡ (if failed then s.retry_count + 1 else s.retry_count))

length-recorded :
    (failed : Bool) (task : CruiseControlTask) (s s' : CruiseControlOperationStatus)
    → RecordsAttempt failed task s s'
    → length s.failed_tasks ≤ 50
    → length s'.failed_tasks ≤ 50
length-recorded true task s s' r h = rw r.0 (length-push s.failed_tasks task h).0
length-recorded false task s s' r h = rw r.0 h

-- Cruise Control has ended its task.
abbrev is_ended : CruiseControlUserTaskState → Bool
is_ended completed = true
is_ended completed_with_error = true
is_ended _ = false

abbrev has_failed : CruiseControlUserTaskState → Bool
has_failed completed_with_error = true
has_failed _ = false

-- when the task ended: the time that was known, or now if the answer says that it has ended
abbrev pub finish_time : Time → CruiseControlUserTaskState → Option Time → Option Time
finish_time now s (some t) = some t
finish_time now s none = if is_ended s then some now else none

-- The update comes after an execution of a task that failed before and has ended.
abbrev pub is_retried : Time → Bool → CruiseControlUserTaskState → CruiseControlTask → Bool
is_retried now after s task =
    after && has_failed task.state && is_some (finish_time now s task.finished)

-- The history ends with the task, after all that it held, without the oldest of fifty or more.
abbrev pub IsPushed : CruiseControlTask → List CruiseControlTask → List CruiseControlTask → Type 0
IsPushed task before after =
    (kept : List CruiseControlTask) × (after ≡ kept ++ task ∷ [])
    × (((length before < 50) × (kept ≡ before))
        ⊎ ((50 ≤ length before) × ((oldest : CruiseControlTask) × (before ≡ oldest ∷ kept))))

abbrev pub Records :
    Bool → CruiseControlTask → CruiseControlOperationStatus → CruiseControlOperationStatus → Type 0
Records true task s s' =
    IsPushed task s.failed_tasks s'.failed_tasks × (s'.retry_count ≡ s.retry_count + 1)
Records false task s s' = (s'.failed_tasks ≡ s.failed_tasks) × (s'.retry_count ≡ s.retry_count)

push-IsPushed :
    (l : List CruiseControlTask) (t : CruiseControlTask) → IsPushed t l (push_failed_task l t)
unfolding push_failed_task
push-IsPushed [] t = ([], refl, inl (omega arith, refl))
push-IsPushed (o ∷ l) t = elim (Bool-cases (leb 50 (length (o ∷ l)))) [
  | inl e ↦ rw e (l, refl, inr (ground arith, (o, refl)))
  | inr e ↦ rw e (o ∷ l, refl, inl (ground arith, refl))
]

finish_task-finish_time :
    (now : Time) (s : CruiseControlUserTaskState) (task : CruiseControlTask)
    → finish_task now s task ≡ record task { finished = finish_time now s task.finished }
unfolding finish_task
finish_task-finish_time now s task = at s task.finished
  where
    at :
        (s : CruiseControlUserTaskState) (f : Option Time)
        → finish_task now s (record task { finished = f })
          ≡ record task { finished = finish_time now s f }
    at completed none = refl
    at completed_with_error none = refl
    at completed (some t) = refl
    at completed_with_error (some t) = refl
    at active none = refl
    at active (some t) = refl
    at in_execution none = refl
    at in_execution (some t) = refl
    at no_state none = refl
    at no_state (some t) = refl
    at (other_state x) none = refl
    at (other_state x) (some t) = refl

is_failed_attempt-is_retried :
    (now : Time) (after : Bool) (s : CruiseControlUserTaskState) (task : CruiseControlTask)
    → is_failed_attempt after (finish_task now s task) ≡ is_retried now after s task
unfolding is_failed_attempt
is_failed_attempt-is_retried now after s task =
    rw (finish_task-finish_time now s task)
      (flip after (has_failed task.state) (is_some (finish_time now s task.finished)))
  where
    flip : (a b c : Bool) → (a && c && b) ≡ (a && b && c)
    flip a b c = ground arith

Records-of :
    (failed : Bool) (task : CruiseControlTask) (s s' : CruiseControlOperationStatus)
    → RecordsAttempt failed task s s'
    → Records failed task s s'
Records-of true task s s' h = (rw h.0 (push-IsPushed s.failed_tasks task), h.1)
Records-of false task s s' h = h

-- The status that updateResult hands to the assignments.
abbrev status_before : CruiseControlOperation → CruiseControlOperationStatus
status_before o = record o.status { error_policy = o.spec.error_policy }

module _ (parse : String → Option Time) (now : Time) (after : Bool) where
  update_task-history :
      (res : Result) (task : CruiseControlTask) (s : CruiseControlOperationStatus)
      → let t = finish_task now res.state task in
        RecordsAttempt (is_failed_attempt after t) t s (update_task parse now after res task s).0
  unfolding update_task archive_failed_task
  update_task-history res task s = ground arith

  update_task-error_policy :
      (res : Result) (task : CruiseControlTask) (s : CruiseControlOperationStatus)
      → (update_task parse now after res task s).0.error_policy ≡ s.error_policy
  unfolding update_task
  update_task-error_policy res task s = ground arith

  abbrev updated :
      Option Result
      → CruiseControlTask
      → CruiseControlOperation
      → CruiseControlOperation × Option Error
  updated res task o =
      let (s, e) = update_task parse now after (result_or_missing res o) task (status_before o) in
      (record o { status = s }, e)

  update_result-eq :
      (res : Option Result) (task : CruiseControlTask) (o : CruiseControlOperation)
      → current_task o ≡ some task
      → update_result parse now after res o ≡ some (updated res task o)
  unfolding update_result
  update_result-eq res task o h = ap (update_current_task parse now after res o) h

  update_result-records :
      (res : Option Result) (task : CruiseControlTask) (o : CruiseControlOperation)
      → current_task o ≡ some task
      → let t = finish_task now (result_or_missing res o).state task in
        (r : CruiseControlOperation × Option Error) × (update_result parse now after res o ≡ some r)
        × RecordsAttempt (is_failed_attempt after t) t o.status r.0.status
        × (r.0.status.error_policy ≡ o.spec.error_policy)
        × (r.0.spec ≡ o.spec)
        × (r.0.labels ≡ o.labels)
        × (r.0.finalizers ≡ o.finalizers)
        × (r.0.deletion_timestamp ≡ o.deletion_timestamp)
  unfolding update_result
  update_result-records res task o h = (
    updated res task o,
    update_result-eq res task o h,
    update_task-history (result_or_missing res o) task (status_before o),
    update_task-error_policy (result_or_missing res o) task (status_before o),
    refl,
    refl,
    refl,
    refl,
  )

  -- updateResult on an operation with a current task always returns. After the execution of a task that
  -- has failed and ended, the task, with its finish time, is put at the end of the history, of which
  -- only the oldest goes if there are fifty or more, and the retry count grows by one; otherwise history
  -- and retry count stay. It copies the error policy of the spec, and keeps the spec, the labels, the
  -- finalizers and the deletion timestamp.
  pub update_result-history :
      (res : Option Result) (task : CruiseControlTask) (o : CruiseControlOperation)
      → current_task o ≡ some task
      → let s = (result_or_missing res o).state in
        (r : CruiseControlOperation × Option Error) × (update_result parse now after res o ≡ some r)
        × Records
            (is_retried now after s task)
            (record task { finished = finish_time now s task.finished })
            o.status
            r.0.status
        × (r.0.status.error_policy ≡ o.spec.error_policy)
        × (r.0.spec ≡ o.spec)
        × (r.0.labels ≡ o.labels)
        × (r.0.finalizers ≡ o.finalizers)
        × (r.0.deletion_timestamp ≡ o.deletion_timestamp)
  update_result-history res task o h =
      let s = (result_or_missing res o).state in
      let (r, e, recorded, p, q, u, v, x) = update_result-records res task o h in
      let t = finish_task now s task in
      (
        r,
        e,
        subst
            (λ b.
              Records b (record task { finished = finish_time now s task.finished }) o.status
                r.0.status)
            (is_failed_attempt-is_retried now after s task)
            (subst (λ u. Records (is_failed_attempt after t) u o.status r.0.status)
              (finish_task-finish_time now s task)
              (Records-of (is_failed_attempt after t) t o.status r.0.status recorded)),
        p,
        q,
        u,
        v,
        x,
      )

  -- updateResult on an operation with a current task keeps the history of failed tasks within its limit of fifty.
  pub update_result-bounded :
      (res : Option Result) (task : CruiseControlTask) (o : CruiseControlOperation)
      → current_task o ≡ some task
      → length o.status.failed_tasks ≤ default_failed_tasks_history_max_length
      → (r : CruiseControlOperation × Option Error) × (update_result parse now after res o ≡ some r)
        × (length r.0.status.failed_tasks ≤ default_failed_tasks_history_max_length)
  update_result-bounded res task o h bound =
      let t = finish_task now (result_or_missing res o).state task in
      let r = update_result-records res task o h in
      (r.0, r.1, length-recorded (is_failed_attempt after t) t o.status r.0.0.status r.2 bound)

-- A task that Cruise Control is working on.
abbrev pub IsUnderWay : CruiseControlUserTaskState → Type 0
IsUnderWay s = (s ≡ active) ⊎ (s ≡ in_execution)

abbrev pub IsStarted : CruiseControlOperation → Type 0
IsStarted o =
    (is_in_progress o ≡ true)
    × (is_current_task_running o ≡ true)
    × (is_waiting_for_first_execution o ≡ false)
    × (is_waiting_for_retry_execution o ≡ false)

IsStarted-by :
    (o : CruiseControlOperation) (task : CruiseControlTask) (res : Result)
    → current_task o ≡ some task
    → task.id ≡ res.task_id
    → task.state ≡ res.state
    → task.finished ≡ none
    → IsUnderWay res.state
    → str_eq res.task_id "" ≡ false
    → IsStarted o
unfolding is_in_progress is_current_task_running is_waiting_for_first_execution
    is_waiting_for_retry_execution
IsStarted-by o task res current id state unfinished working named =
    rw (current, id, state, unfinished) (ground arith, ground arith, ground arith, ground arith)

-- A task that Cruise Control works on gets no finish time.
finish_task-IsUnderWay :
    (now : Time) (s : CruiseControlUserTaskState) (task : CruiseControlTask)
    → IsUnderWay s
    → finish_task now s task ≡ task
unfolding finish_task
finish_task-IsUnderWay now s task h = ground arith

-- What is left to execute has no finish time: it had none, or it was reset.
finished-archive :
    (task : CruiseControlTask) (s : CruiseControlOperationStatus)
    → (task.finished ≡ none) ⊎ (is_failed_attempt true task ≡ true)
    → (archive_failed_task true task s).0.finished ≡ none
unfolding archive_failed_task set_defaults
finished-archive task s (inl e) = elim (Bool-cases (is_failed_attempt true task)) [
  | inl p ↦ rw (p, archive_failed_task)
  | inr p ↦ rw (p, archive_failed_task) e
]
finished-archive task s (inr p) = rw (p, archive_failed_task)

module _ (parse : String → Option Time) (res : Result) (t : Time)
    (parsed : parse res.started_at ≡ some t) where
  -- With a start time that parses, the assignments after an execution succeed.
  complete_task-recorded :
      (task : CruiseControlTask)
      → let r = complete_task parse true res task in
        (r.0.id ≡ res.task_id)
        × (r.0.state ≡ res.state)
        × (r.0.finished ≡ task.finished)
        × (r.1 ≡ none)
  unfolding complete_task
  complete_task-recorded task = ground arith

module _ (parse : String → Option Time) (now : Time) where
  update_task-starts :
      (res : Result) (task : CruiseControlTask) (s : CruiseControlOperationStatus) (t : Time)
      → IsUnderWay res.state
      → parse res.started_at ≡ some t
      → (task.finished ≡ none) ⊎ (is_failed_attempt true task ≡ true)
      → (task' : CruiseControlTask) × ((update_task parse now true res task s).0.current_task
          ≡ some task')
        × (task'.id ≡ res.task_id)
        × (task'.state ≡ res.state)
        × (task'.finished ≡ none)
        × ((update_task parse now true res task s).1 ≡ none)
  unfolding update_task
  update_task-starts res task s t working parsed fresh =
      let same = finish_task-IsUnderWay now res.state task working in
      let a = (archive_failed_task true (finish_task now res.state task) s).0 in
      let (id, state, finished, fine) = complete_task-recorded parse res t parsed a in
      (
        (complete_task parse true res a).0,
        refl,
        id,
        state,
        finished ∙ rw same (finished-archive task s fresh),
        fine,
      )

  -- updateResult after an execution that Cruise Control works on, under a task id that is not empty: if
  -- the task had no finish time, or was a failed attempt that is retried, and the start time parses,
  -- then the update succeeds and the operation is in progress and running, so that it waits neither
  -- for its first execution nor for a retry.
  pub update_result-starts :
      (res : Result) (task : CruiseControlTask) (o : CruiseControlOperation) (t : Time)
      → current_task o ≡ some task
      → IsUnderWay res.state
      → str_eq res.task_id "" ≡ false
      → parse res.started_at ≡ some t
      → (task.finished ≡ none) ⊎ (is_failed_attempt true task ≡ true)
      → (o' : CruiseControlOperation) × (update_result parse now true (some res) o
          ≡ some (o', none))
        × IsStarted o'
  update_result-starts res task o t h working named parsed fresh =
      let (task', current, id, state, unfinished, fine) =
        update_task-starts res task (status_before o) t working parsed fresh in
      let r = updated parse now true (some res) task o in
      (
        r.0,
        update_result-eq parse now true (some res) task o h
            ∙ ap {B = Option (CruiseControlOperation × Option Error)} (λ e. some (r.0, e)) fine,
        IsStarted-by r.0 task' res current id state unfinished working named,
      )
