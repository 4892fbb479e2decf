-- ===== src/Operation/Safety.antt =====
-- Which tasks a run of Reconcile starts.
use koperator.Prelude.{
  [], ◌⊎◌, Bool-cases, inl, inr, ◌∷◌, refl, ℕ, zero, suc, ◌≡◌, Option, none, some, true, false,
  ◌&&◌, ◌||◌, not, List, arith,
}
use koperator.Api.Failure.{ok, err, Error, api, not_found, is_conflict, reconciled, requeue_after}
use koperator.Api.TaskKind.{CruiseControlTaskOperation, stop_execution, is_status}
use koperator.Api.Cluster.{ObjectKey, KafkaCluster}
use koperator.Api.Operation.{
  CruiseControlOperation, current_task_operation, current_task_parameters, is_done,
  is_current_task_operation_valid,
}
use koperator.Scale.{Result, CruiseControlStatus, in_execution, is_ready}
use koperator.Operation.Finalizer.{is_finalizer_needed}
use koperator.Operation.Status.{kafka_cluster_reference}
use koperator.Operation.Queues.{Ref, QueueMap, sort_operations}
use koperator.Operation.Execute.{
  is_nil, is_empty, is_supported, must_wait, execute_operation, after_update,
  conflict_retry_function, retry_on_conflict, store_result, with_outcome, execute_selected,
  run_selected, run_queues, default_requeue_interval_in_seconds,
}
use koperator.Operation.Reconcile.{
  with_tasks_updated, with_status, with_scaler, with_cluster, without_cluster, reconcile_reference,
  reconcile_current, reconcile_found, reconcile, remove_finalizer,
}
use koperator.Operation.World.{Env, M, pure}
use koperator.Operation.Quiet.{
  Quiet, Quiet-bind, Quiet-pure, Quiet-load, Starts, Starts-of-Quiet, Starts-call, Quiet-items_of,
  Starts-if, Starts-bind, Starts-then, quiet_rules,
}
use koperator.Operation.Quiet.Sync.{
  update_status-Quiet, refresh-Quiet, update_pointer-Quiet, update_current_tasks-Quiet,
}
use koperator.Operation.Quiet.Phases.{
  dereference-Quiet, select_operation_for_execution-Quiet, remove_finalizer-Quiet,
  add_finalizer-Quiet, get_status-Quiet,
}

retry_on_conflict-Quiet :
    (n : ℕ) (fn : M (Option Error)) → Quiet fn → Quiet (retry_on_conflict n fn)
unfolding retry_on_conflict
retry_on_conflict-Quiet zero fn h = Quiet-pure none
retry_on_conflict-Quiet (suc zero) fn h = h
retry_on_conflict-Quiet (suc (suc n)) fn h =
    let again = retry_on_conflict-Quiet (suc n) fn h in
    Quiet-bind _ _ h (elim [
      | none ↦ Quiet-pure none
      | some e ↦
          elim (is_conflict e)
            as (λ b.
              Quiet {A = Option Error}
                (elim b [ true ↦ retry_on_conflict (suc n) fn | false ↦ pure (some e) ])) [
                  | true ↦ again
                  | false ↦ Quiet-pure (some e)
                ]
    ])

-- A task may start: nothing executes and no operation is in progress, or the task stops what does.
abbrev pub MayStart : CruiseControlStatus → QueueMap → CruiseControlTaskOperation → Type 0
MayStart s q kind =
    (is_supported kind ≡ true)
    × (((in_execution s ≡ false) × (q.in_progress ≡ [])) ⊎ (kind ≡ stop_execution))

may_start :
    (s : CruiseControlStatus) (q : QueueMap) (r : Ref)
    → must_wait s q r ≡ false
    → is_supported (current_task_operation r.operation) ≡ true
    → MayStart s q (current_task_operation r.operation)
unfolding must_wait
may_start s q r waits e = elim (Bool-cases (in_execution s || not (is_nil q.in_progress))) [
  | inl busy ↦ (e, inr (ground arith))
  | inr idle ↦ (e, inl (ground arith, empty q.in_progress (ground arith)))
]
  where
    empty : (l : List Ref) → is_nil l ≡ true → l ≡ []
    empty [] h = refl
    empty (x ∷ l) h = ground arith

module _ (env : Env) where
  after_update-Quiet : (p : ℕ) (e : Option Error) → Quiet (after_update env p e)
  unfolding after_update
  after_update-Quiet p none = Quiet-pure none
  after_update-Quiet p (some e) = search (quiet_rules, refresh-Quiet)

  conflict_retry_function-Quiet :
      (res : Option Result) (p : ℕ) → Quiet (conflict_retry_function env res p)
  unfolding conflict_retry_function
  conflict_retry_function-Quiet res p = Quiet-bind _ _ (update_pointer-Quiet env res true p) (elim [
    | some e ↦ Quiet-pure (some e)
    | none ↦ search (quiet_rules, update_status-Quiet, after_update-Quiet)
  ])

  store_result-Quiet : (res : Option Result) (p : ℕ) → Quiet (store_result env res p)
  unfolding store_result
  store_result-Quiet res p =
      Quiet-bind _ _ (retry_on_conflict-Quiet _ _ (conflict_retry_function-Quiet res p))
        (elim [ some e ↦ Quiet-pure _ | none ↦ Quiet-pure _ ])

  with_outcome-Quiet :
      (p : ℕ) (res : Option Result) (e : Option Error) → Quiet (with_outcome env p res e)
  with_outcome-Quiet p none (some e) = Quiet-pure _
  with_outcome-Quiet p none none = store_result-Quiet none p
  with_outcome-Quiet p (some r) e = store_result-Quiet (some r) p

  module _ (P : CruiseControlTaskOperation → Type 0) where
    execute_operation-Starts :
        (o : CruiseControlOperation)
        → (is_supported (current_task_operation o) ≡ true → P (current_task_operation o))
        → Starts P (execute_operation env o)
    unfolding execute_operation
    execute_operation-Starts o h =
        Starts-if P _ _ _
          (λ e. Starts-call P (current_task_operation o) (current_task_parameters o) _ (h e))
          (λ e. Starts-of-Quiet P _ (Quiet-pure _))

    execute_selected-Starts :
        (r : Ref)
        → (is_supported (current_task_operation r.operation) ≡ true
            → P (current_task_operation r.operation))
        → Starts P (execute_selected env r)
    unfolding execute_selected
    execute_selected-Starts r h =
        Starts-then P _ _ (execute_operation-Starts r.operation h)
          (λ outcome. with_outcome-Quiet r.pointer outcome.0 outcome.1)

    run_selected-Starts :
        (s : CruiseControlStatus) (q : QueueMap) (r : Option Ref)
        → ((r : Ref)
            → must_wait s q r ≡ false
            → is_supported (current_task_operation r.operation) ≡ true
            → P (current_task_operation r.operation))
        → Starts P (run_selected env s q r)
    unfolding run_selected
    run_selected-Starts s q none h = Starts-of-Quiet P _ (Quiet-pure _)
    run_selected-Starts s q (some r) h =
        Starts-if P _ _ _ (λ e. Starts-of-Quiet P _ (Quiet-pure _))
          (λ e. execute_selected-Starts r (h r e))

    run_queues-Starts :
        (s : CruiseControlStatus) (q : QueueMap)
        → ((r : Ref)
            → must_wait s q r ≡ false
            → is_supported (current_task_operation r.operation) ≡ true
            → P (current_task_operation r.operation))
        → Starts P (run_queues env s q)
    unfolding run_queues
    run_queues-Starts s q h =
        Starts-if P (is_empty q) (pure reconciled) _ (λ e. Starts-of-Quiet P _ (Quiet-pure _))
          λ e. Starts-bind P _ _ (select_operation_for_execution-Quiet env q) (elim [
            | err e ↦ Starts-of-Quiet P _ (Quiet-pure _)
            | ok r ↦ run_selected-Starts s q r h
          ])

  -- Reconcile's last phase starts one task at most, of a kind that the scaler supports. Unless Cruise
  -- Control executes nothing and no operation is in progress, it is the one that stops the execution.
  pub run_queues-Starts_stop :
      (s : CruiseControlStatus) (q : QueueMap) → Starts (MayStart s q) (run_queues env s q)
  run_queues-Starts_stop s q = run_queues-Starts (MayStart s q) s q (may_start s q)

  module _ (P : CruiseControlTaskOperation → Type 0)
      (supported : (kind : CruiseControlTaskOperation) → is_supported kind ≡ true → P kind) where
    quiet : {A : Type 0} (m : M A) → Quiet m → Starts P m
    quiet m q = Starts-of-Quiet P m q

    with_tasks_updated-Starts :
        (p : ℕ) (s : CruiseControlStatus) (ps : List ℕ) → Starts P (with_tasks_updated env p s ps)
    unfolding with_tasks_updated
    with_tasks_updated-Starts p s ps = Starts-bind P _ _ (Quiet-load p) λ o.
        Starts-if P _ _ _ (λ e. quiet _ (remove_finalizer-Quiet env p))
          λ e. Starts-bind P _ _ (dereference-Quiet ps) λ rs.
            run_queues-Starts P s (sort_operations env.finalizers rs)
              λ r waits e. supported (current_task_operation r.operation) e

    with_status-Starts :
        (p : ℕ) (key : ObjectKey) (s : CruiseControlStatus) → Starts P (with_status env p key s)
    unfolding with_status
    with_status-Starts p key s =
        Starts-if P (is_ready s) _ (pure (requeue_after default_requeue_interval_in_seconds))
          (λ e. Starts-bind P _ _ Quiet-items_of λ os.
            Starts-bind P _ _ (update_current_tasks-Quiet env _)
              (elim [ some e ↦ quiet _ (Quiet-pure _) | none ↦ with_tasks_updated-Starts p s _ ]))
          (λ e. quiet _ (Quiet-pure _))

    with_scaler-Starts :
        (p : ℕ) (key : ObjectKey) (c : KafkaCluster) → Starts P (with_scaler env p key c)
    unfolding with_scaler
    with_scaler-Starts p key c =
        Starts-bind P _ _ (get_status-Quiet env c key)
          (elim [ err e ↦ quiet _ (Quiet-pure _) | ok s ↦ with_status-Starts p key s ])

    with_cluster-Starts :
        (p : ℕ) (key : ObjectKey) (c : KafkaCluster) → Starts P (with_cluster env p key c)
    unfolding with_cluster
    with_cluster-Starts p key c = Starts-bind P _ _ (add_finalizer-Quiet env p) (elim [
      | some e ↦ quiet _ (Quiet-pure _)
      | none ↦
          Starts-bind P _ _ (search quiet_rules)
            (elim [ some e ↦ quiet _ (Quiet-pure _) | none ↦ with_scaler-Starts p key c ])
    ])

    without_cluster-Quiet : (p : ℕ) (e : Error) → Quiet (without_cluster env p e)
    unfolding without_cluster
    without_cluster-Quiet p (api not_found) = search (quiet_rules, remove_finalizer-Quiet)
    without_cluster-Quiet p _ = Quiet-pure _

    reconcile_reference-Starts :
        (p : ℕ) (r : ObjectKey × Option Error) → Starts P (reconcile_reference env p r)
    unfolding reconcile_reference
    reconcile_reference-Starts p (key, some e) = quiet _ (Quiet-pure _)
    reconcile_reference-Starts p (key, none) =
        Starts-bind P _ _ (search quiet_rules) (elim [
          | err e ↦ quiet _ (without_cluster-Quiet p e)
          | ok c ↦ with_cluster-Starts p key c
        ])

    reconcile_current-Starts : (p : ℕ) → Starts P (reconcile_current env p)
    unfolding reconcile_current
    reconcile_current-Starts p = Starts-bind P _ _ (Quiet-load p) λ o.
        Starts-if P (is_status (current_task_operation o)) (pure reconciled) _
          (λ _. quiet _ (Quiet-pure _))
          λ _.
            Starts-if P (is_finalizer_needed env.finalizers o && is_done o) (remove_finalizer env p)
              _ (λ _. quiet _ (remove_finalizer-Quiet env p))
              λ _.
                Starts-if P (is_current_task_operation_valid o)
                  (reconcile_reference env p (kafka_cluster_reference o)) (pure reconciled)
                  (λ _. reconcile_reference-Starts p _) λ _. quiet _ (Quiet-pure _)

    reconcile_found-Starts : (p : Option ℕ) → Starts P (reconcile_found env p)
    unfolding reconcile_found
    reconcile_found-Starts none = quiet _ (Quiet-pure _)
    reconcile_found-Starts (some p) = reconcile_current-Starts p

  -- A run of Reconcile, whatever the API server, Cruise Control and the clock answer, starts at most
  -- one task, and one of a kind that the scaler supports.
  pub reconcile-Starts :
      (request : ObjectKey) → Starts (λ kind. is_supported kind ≡ true) (reconcile env request)
  unfolding reconcile
  reconcile-Starts request =
      let P = λ (kind : CruiseControlTaskOperation). is_supported kind ≡ true in
      Starts-bind P _ _ (search quiet_rules) (elim [
        | err e ↦ Starts-of-Quiet P _ (Quiet-pure _)
        | ok os ↦
            Starts-bind P _ _ (search quiet_rules) λ _. reconcile_found-Starts P (λ kind e. e) _
      ])
