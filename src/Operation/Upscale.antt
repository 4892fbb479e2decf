-- ===== src/Operation/Upscale.antt =====
-- An add_broker operation that waits for its first execution goes before all others.
use mathlib.Core.Bool.{Bool-set}
use mathlib.Core.List.{Mem, Memᴰ}
use mathlib.Core.List.Perm
use mathlib.Core.Logic.{∥∥₁_elim}
use koperator.Prelude.{
  ◌≤◌, ◌≡◌, refl, sym, ap, ◌∙◌, some, Bool, true, false, List, [], ◌∷◌, arith, if◌then◌else◌, All,
  head?, keep,
}
use koperator.Prelude.Sort.{Sorted}
use koperator.Api.Failure.{ok}
use koperator.Api.TaskKind.{is_add_broker, execution_priority_map}
use koperator.Api.Operation.{current_task_operation}
use koperator.Operation.Queues.{Ref, created, goes_before, sort_operations}
use koperator.Operation.Order.{goes_to_first, sort_operations-IsQueueOf}
use koperator.Operation.Select.{select_first, select_stop, select_operation_for_execution}
use koperator.Operation.World.{Env, World, ◌>>=◌}

-- A filter keeps a member that passes.
memᴰ-keep : (p : Ref → Bool) (r : Ref) (rs : List Ref) → p r ≡ true → Memᴰ r rs → Memᴰ r (keep p rs)
memᴰ-keep p r [] h m = elim m [ ]
memᴰ-keep p r (s ∷ rs) h (Memᴰ.head e) = rw (ap p (sym e) ∙ h) (Memᴰ.head e)
memᴰ-keep p r (s ∷ rs) h (Memᴰ.tail m) =
    let ih = memᴰ-keep p r rs h m in
    elim (p s) as (λ b. Memᴰ r (if b then s ∷ keep p rs else keep p rs)) [
      | true ↦ Memᴰ.tail ih
      | false ↦ ih
    ]

not_before :
    (s r : Ref) (rs : List Ref)
    → All (λ x. goes_before x s ≡ false) rs
    → Memᴰ r rs
    → goes_before r s ≡ false
not_before s r [] h m = elim m [ ]
not_before s r (x ∷ rs) h (Memᴰ.head e) = rw e h.0
not_before s r (x ∷ rs) h (Memᴰ.tail m) = not_before s r rs h.1 m

-- No member of a sorted queue goes before its head.
head_is_least :
    (s : Ref) (rs : List Ref) (r : Ref)
    → Sorted goes_before (s ∷ rs)
    → Memᴰ r (s ∷ rs)
    → goes_before r s ≡ false
head_is_least s rs r h (Memᴰ.head e) = rw e (unfold goes_before in ground arith)
head_is_least s rs r h (Memᴰ.tail m) = not_before s r rs h.0 m

-- What does not come after an add_broker is an add_broker, and is not younger.
add_broker_first :
    (s r : Ref)
    → goes_before r s ≡ false
    → is_add_broker (current_task_operation r.operation) ≡ true
    → (is_add_broker (current_task_operation s.operation) ≡ true) × (created s ≤ created r)
unfolding goes_before execution_priority_map
add_broker_first s r h e = ground arith

-- The first of a queue that holds an add_broker.
abbrev IsUpscale : Ref → Ref → Type 0
IsUpscale r s =
    (is_add_broker (current_task_operation s.operation) ≡ true) × (created s ≤ created r)

head_of_queue :
    (r : Ref) (queue : List Ref)
    → Sorted goes_before queue
    → is_add_broker (current_task_operation r.operation) ≡ true
    → Mem r queue
    → (s : Ref) × (head? queue ≡ some s) × IsUpscale r s
head_of_queue r [] h e m = absurd (∥∥₁_elim m (λ x y. absurd x) (λ n. elim n [ ]))
head_of_queue r (s ∷ rs) h e m =
    (s, refl, add_broker_first s r (∥∥₁_elim m (Bool-set _ _) (head_is_least s rs r h)) e)

module _ (env : Env) (rs : List Ref) where
  -- Where nothing waits for finalization and an add_broker waits for its first execution, an
  -- add_broker is selected: one that was created in no later second.
  pub select_add_broker :
      (w : World) (r : Ref)
      → (sort_operations env.finalizers rs).for_stop_execution ≡ []
      → Memᴰ r rs
      → goes_to_first env.finalizers r ≡ true
      → is_add_broker (current_task_operation r.operation) ≡ true
      → (s : Ref) × ((select_operation_for_execution env (sort_operations env.finalizers rs) w).0
          ≡ some (ok (some s)))
        × (is_add_broker (current_task_operation s.operation) ≡ true)
        × (created s ≤ created r)
  unfolding select_operation_for_execution select_stop select_first
  select_add_broker w r idle m first e =
      let queues = sort_operations-IsQueueOf env.finalizers rs in
      let q = queues.1 in
      let listed = memᴰ-keep (goes_to_first env.finalizers) r rs first m in
      let (s, top, upscale) =
        head_of_queue r (sort_operations env.finalizers rs).first_execution q.sorted e
          ((Perm.mem_iff q.same_operations).1 ∣ listed ∣₁) in
      (s, rw (ap head? idle) (rw top (rw upscale.0 (unfold ◌>>=◌ in refl))), upscale.0, upscale.1)
