-- ===== src/Task/Priority.antt =====
-- What the switch of the task controller requests.
use koperator.Prelude.{
  ℕ, ◌≡◌, ◌⊎◌, inl, refl, String, Option, none, some, Bool, false, List, [], ◌∷◌, arith, ltb,
  if_both, if_related, map, get_elem?, if◌then◌else◌,
}
use koperator.Prelude.Dict.{Dict}
use koperator.Api.Failure.{Answer, ok, err}
use koperator.Api.TaskKind.{
  CruiseControlTaskOperation, add_broker, remove_broker, remove_disks, rebalance,
}
use koperator.Api.Cluster.{KafkaCluster}
use koperator.Api.Operation.{CruiseControlOperation, retry}
use koperator.Operation.Status.{new_operation}
use koperator.Task.Types.{CruiseControlTask, CruiseControlTasksAndStates, num_active_tasks_by_op}
use koperator.Task.Request.{Creation, create_cc_operation}
use koperator.Task.Brokers.{LogDirs, unavailable_log_dirs}
use koperator.Task.Schedule.{
  Step, Surroundings, finish, upscale, schedule_upscale, schedule_downscale, schedule_removal,
  rebalance_filtered, schedule_rebalance, schedule, with_nodes, filtered, downscale_first, proceed,
  downscale_task_at, upscale_unless, upscale_with, create_removal, removal_with,
  create_rebalance_of_some, is_all_jbod, rebalance_selected, rebalance_unless, rebalance_with,
}

-- The kind of task that the switch turns to: the first in its order that is required.
abbrev pub turn : CruiseControlTasksAndStates → Option CruiseControlTaskOperation
turn s =
    if ltb 0 (num_active_tasks_by_op add_broker s)
    then some add_broker
    else if ltb 0 (num_active_tasks_by_op remove_broker s)
    then some remove_broker
    else if ltb 0 (num_active_tasks_by_op remove_disks s)
    then some remove_disks
    else if ltb 0 (num_active_tasks_by_op rebalance s)
    then some rebalance
    else none

-- Two switches on the same four tests, with related branches.
switch_related :
    {A B : Type 0} (R : A → B → Type 0) (a b c d : Bool) (k l m n o : A) (v w x y z : B)
    → R k v
    → R l w
    → R m x
    → R n y
    → R o z
    → R
        (if a then k else if b then l else if c then m else if d then n else o)
        (if a then v else if b then w else if c then x else if d then y else z)
switch_related R a b c d k l m n o v w x y z p q r s t =
    if_related R a _ _ _ _ p
      (if_related R b _ _ _ _ q (if_related R c _ _ _ _ r (if_related R d _ _ _ _ s t)))

module _ (around : Surroundings) (cluster : KafkaCluster) (s : CruiseControlTasksAndStates) where
  -- Nothing is requested, or one operation of the kind, with the retry policy and owned by the cluster.
  abbrev pub RequestsOne : CruiseControlTaskOperation → List CruiseControlOperation → Type 0
  RequestsOne kind requested =
      (requested ≡ [])
      ⊎ ((o : CruiseControlOperation) × (requested ≡ o ∷ [])
          × (around.server.set_controller_reference cluster
                (new_operation cluster retry cluster.spec.operation_ttl_seconds_after_finished kind)
              ≡ ok o))

  -- Of a step, if there is one and no panic.
  abbrev Of : CruiseControlTaskOperation → Option Step → Type 0
  Of kind none = Unit
  Of kind (some step) = RequestsOne kind step.requested

  creation :
      (kind : CruiseControlTaskOperation) (ids : List String) (jbod : Bool)
      (dirs : Dict (List String))
      → RequestsOne kind (create_cc_operation around.server cluster kind ids jbod dirs).requested
  unfolding create_cc_operation
  creation kind ids jbod dirs = ground arith

  -- The step requests what the creation requested.
  finish-requested :
      (ps : List ℕ) (c : Creation) → (finish around cluster s ps c).requested ≡ c.requested
  unfolding finish
  finish-requested ps c = ground arith

  finished :
      (kind : CruiseControlTaskOperation) (ps : List ℕ) (ids : List String) (jbod : Bool)
      (dirs : Dict (List String))
      → RequestsOne kind
          (finish around cluster s ps
            (create_cc_operation around.server cluster kind ids jbod dirs)).requested
  finished kind ps ids jbod dirs =
      rw (finish-requested ps (create_cc_operation around.server cluster kind ids jbod dirs))
        (creation kind ids jbod dirs)

  filtered-Of :
      (kind : CruiseControlTaskOperation) (k : List String → Step)
      (ids : Option (Answer (List String)))
      → ((ids : List String) → RequestsOne kind (k ids).requested)
      → Of kind (filtered around cluster s k ids)
  filtered-Of kind k none h = tt
  filtered-Of kind k (some (err e)) h = inl refl
  filtered-Of kind k (some (ok ids)) h = h ids

  with_nodes-Of :
      (kind : CruiseControlTaskOperation) (k : List String → Step) (ids : List String)
      → ((ids : List String) → RequestsOne kind (k ids).requested)
      → Of kind (with_nodes around cluster s k ids)
  unfolding with_nodes
  with_nodes-Of kind k ids h =
      if_both (Of kind) cluster.spec.kraft_mode _ _ (filtered-Of kind k _ h) (h ids)

  upscale_unless-Of :
      (unavailable ids : List String)
      → RequestsOne add_broker (upscale_unless around cluster s unavailable ids).requested
  upscale_unless-Of (_ ∷ _) ids = inl refl
  upscale_unless-Of [] [] = inl refl
  upscale_unless-Of [] (id ∷ ids) = finished add_broker _ (id ∷ ids) false []

  upscale_with-Of :
      (available : Answer (List String)) (ids : List String)
      → RequestsOne add_broker (upscale_with around cluster s available ids).requested
  upscale_with-Of (err e) ids = inl refl
  upscale_with-Of (ok available) ids = upscale_unless-Of _ ids

  downscale_first-Of : (ps : List ℕ) → Of remove_broker (downscale_first around cluster s ps)
  downscale_first-Of [] = tt
  downscale_first-Of (p ∷ ps) =
      elim (get_elem? s.tasks p)
        as (λ t. Of remove_broker (downscale_task_at around cluster s p t)) [
          | none ↦ tt
          | some t ↦ finished remove_broker (p ∷ []) (t.broker_id ∷ []) false []
        ]

  create_removal-Of :
      (dirs : Answer (Dict (List String)))
      → RequestsOne remove_disks (create_removal around cluster s dirs).requested
  create_removal-Of (err e) = inl refl
  create_removal-Of (ok dirs) = finished remove_disks _ [] false dirs

  removal_with-Of :
      (online : Answer LogDirs)
      → RequestsOne remove_disks (removal_with around cluster s online).requested
  removal_with-Of (err e) = inl refl
  removal_with-Of (ok online) = create_removal-Of _

  create_rebalance_of_some-Of :
      (jbod : Bool) (ids : List String)
      → RequestsOne rebalance (create_rebalance_of_some around cluster s jbod ids).requested
  create_rebalance_of_some-Of jbod [] = inl refl
  create_rebalance_of_some-Of jbod (id ∷ ids) = finished rebalance _ (id ∷ ids) jbod []

  rebalance_filtered-Of :
      (jbod : Bool) (ids : List String)
      → RequestsOne rebalance (rebalance_filtered around cluster s jbod ids).requested
  unfolding rebalance_filtered
  rebalance_filtered-Of jbod ids =
      if_both (λ (step : Step). RequestsOne rebalance step.requested) cluster.spec.kraft_mode _ _
        (create_rebalance_of_some-Of jbod ids) (finished rebalance _ ids jbod [])

  rebalance_selected-Of :
      (selected : Answer (List String × List String)) (ts : List CruiseControlTask)
      → Of rebalance (rebalance_selected around cluster s selected ts)
  rebalance_selected-Of (err e) ts = inl refl
  rebalance_selected-Of (ok (jbod, not_jbod)) ts =
      with_nodes-Of rebalance
        (rebalance_filtered around cluster s (is_all_jbod around cluster s not_jbod)) _
        (rebalance_filtered-Of _)

  rebalance_with-Of :
      (online : Answer LogDirs) (ts : List CruiseControlTask)
      → Of rebalance (rebalance_with around cluster s online ts)
  rebalance_with-Of (err e) ts = inl refl
  rebalance_with-Of (ok online) ts =
      elim (unavailable_log_dirs online (map (λ t. (t.broker_id, t.volume)) ts))
        as (λ ids. Of rebalance (rebalance_unless around cluster s ids ts)) [
          | [] ↦ rebalance_selected-Of _ ts
          | _ ∷ _ ↦ inl refl
        ]

  -- Of the kind whose turn it is, and nothing where it is no kind's turn.
  abbrev pub IsTurn : Option CruiseControlTaskOperation → Option Step → Type 0
  IsTurn kind none = Unit
  IsTurn none (some step) = step.requested ≡ []
  IsTurn (some kind) (some step) = RequestsOne kind step.requested

  is_turn :
      (kind : CruiseControlTaskOperation) (step : Option Step)
      → Of kind step
      → IsTurn (some kind) step
  is_turn kind none h = tt
  is_turn kind (some step) h = h

  pub schedule-IsTurn : IsTurn (turn s) (schedule around cluster s)
  unfolding schedule schedule_upscale schedule_downscale schedule_removal schedule_rebalance upscale
  schedule-IsTurn =
      switch_related IsTurn (ltb 0 (num_active_tasks_by_op add_broker s))
        (ltb 0 (num_active_tasks_by_op remove_broker s))
        (ltb 0 (num_active_tasks_by_op remove_disks s)) (ltb 0 (num_active_tasks_by_op rebalance s))
        (some add_broker) (some remove_broker) (some remove_disks) (some rebalance) none
        (schedule_upscale around cluster s) (schedule_downscale around cluster s)
        (schedule_removal around cluster s) (schedule_rebalance around cluster s)
        (some (proceed around cluster s))
        (is_turn add_broker (schedule_upscale around cluster s) (
          with_nodes-Of add_broker (upscale around cluster s) _
            (upscale_with-Of around.brokers_with_state)))
        (is_turn remove_broker (schedule_downscale around cluster s) (downscale_first-Of _))
        (is_turn remove_disks (schedule_removal around cluster s) (removal_with-Of _))
        (is_turn rebalance (schedule_rebalance around cluster s) (rebalance_with-Of _ _)) refl
