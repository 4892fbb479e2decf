-- ===== src/Operation/Order.antt =====
-- What sortOperations promises of its queues.
use mathlib.Core.List.{Perm, append-nil, append_assoc}
use koperator.Prelude.{
  ℕ, ◌≤◌, ◌≡◌, refl, sym, ◌∙◌, inl, inr, Bool, true, false, ◌&&◌, not, List, [], ◌∷◌, ◌++◌, arith,
  ◌==◌, if◌then◌else◌, keep, All, Bool-cases,
}
use koperator.Prelude.Sort.{
  slice_stable, slice_stable-perm, slice_stable-All, slice_stable-Sorted, keep-slice_stable, Sorted,
  IsOrder,
}
use koperator.Api.Operation.{
  is_waiting_for_first_execution, is_waiting_for_retry_execution, is_in_progress,
}
use koperator.Operation.Finalizer.{Finalizers, is_waiting_for_finalization}
use koperator.Operation.Queues.{
  Ref, QueueMap, no_queues, priority, created, goes_before, enqueue, enqueue_all, sort_operations,
}

-- The test for each queue: its own condition, and none of those above it in the switch.
module _ (f : Finalizers) (r : Ref) where
  abbrev pub goes_to_stop : Bool
  goes_to_stop = is_waiting_for_finalization f r.operation

  abbrev pub goes_to_first : Bool
  goes_to_first = not goes_to_stop && is_waiting_for_first_execution r.operation

  abbrev pub goes_to_retry : Bool
  goes_to_retry =
      not goes_to_stop
      && not (is_waiting_for_first_execution r.operation)
      && is_waiting_for_retry_execution r.operation

  abbrev pub goes_to_in_progress : Bool
  goes_to_in_progress =
      not goes_to_stop
      && not (is_waiting_for_first_execution r.operation)
      && not (is_waiting_for_retry_execution r.operation)
      && is_in_progress r.operation

keep_snoc {ℓ} :
    {A : Type ℓ} (p : A → Bool) (acc : List A) (x : A) (xs : List A) (next : List A)
    → next ≡ (if p x then acc ++ x ∷ [] else acc)
    → next ++ keep p xs ≡ acc ++ keep p (x ∷ xs)
keep_snoc p acc x xs next e =
    rw e
      (elim (p x)
        as (λ b.
          (if b then acc ++ x ∷ [] else acc) ++ keep p xs
          ≡ acc ++ (if b then x ∷ keep p xs else keep p xs)) [
            | true ↦ append_assoc acc (x ∷ []) (keep p xs)
            | false ↦ refl
          ])

module _ (f : Finalizers) (queue : QueueMap → List Ref) (test : Ref → Bool)
    (step : (q : QueueMap) (r : Ref)
      → queue (enqueue f q r) ≡ (if test r then queue q ++ r ∷ [] else queue q)) where
  -- A queue collects the operations that pass its test, in the order in which they were listed.
  enqueue_all-keep :
      (q : QueueMap) (rs : List Ref) → queue (enqueue_all f q rs) ≡ queue q ++ keep test rs
  unfolding enqueue_all
  enqueue_all-keep q [] = sym (append-nil (queue q))
  enqueue_all-keep q (r ∷ rs) =
      enqueue_all-keep (enqueue f q r) rs
      ∙ keep_snoc test (queue q) r rs (queue (enqueue f q r)) (step q r)

-- The `less` function is a strict weak order, as sort.SliceStable asks.
pub goes_before-IsOrder : IsOrder goes_before
unfolding goes_before
goes_before-IsOrder = record {
  asymmetric = λ a b h. ground arith;
  transitive = λ a b c h k. ground arith;
}

-- The same priority and the same second of creation.
abbrev pub has_rank : ℕ → ℕ → Ref → Bool
has_rank p t r = (priority r == p) && (created r == t)

-- The order of a queue: descending priority, and at one priority ascending second of creation.
abbrev pub IsRanked : List Ref → Type 0
IsRanked [] = Unit
IsRanked (a ∷ rs) =
    All (λ b. (priority b ≤ priority a) × (priority b ≡ priority a → created a ≤ created b)) rs
    × IsRanked rs

rank_of_pair :
    (a b : Ref)
    → goes_before b a ≡ false
    → (priority b ≤ priority a) × (priority b ≡ priority a → created a ≤ created b)
unfolding goes_before
rank_of_pair a b h = ground arith

All-rank :
    (a : Ref) (rs : List Ref)
    → All (λ b. goes_before b a ≡ false) rs
    → All (λ b. (priority b ≤ priority a) × (priority b ≡ priority a → created a ≤ created b)) rs
All-rank a [] h = tt
All-rank a (b ∷ rs) h = (rank_of_pair a b h.0, All-rank a rs h.1)

-- What is sorted by the `less` function has that order.
Sorted-IsRanked : (rs : List Ref) → Sorted goes_before rs → IsRanked rs
Sorted-IsRanked [] h = tt
Sorted-IsRanked (a ∷ rs) h = (All-rank a rs h.0, Sorted-IsRanked rs h.1)

-- `queue` holds what passes `test`, sorted, and equals keep the order of the listing.
pub record IsQueueOf (test : Ref → Bool) (listed queue : List Ref) : Type 0 where
  pub same_operations : Perm queue (keep test listed)
  pub sorted : Sorted goes_before queue
  pub ranked : IsRanked queue
  pub stable : (p t : ℕ) → keep (has_rank p t) queue ≡ keep (has_rank p t) (keep test listed)
  pub passes : All (λ r. test r ≡ true) queue

rank_tie :
    (p t : ℕ) (a b : Ref) → has_rank p t a ≡ true → has_rank p t b ≡ true → goes_before a b ≡ false
unfolding goes_before
rank_tie p t a b h k = ground arith

All-keep_test : (test : Ref → Bool) (rs : List Ref) → All (λ r. test r ≡ true) (keep test rs)
All-keep_test test [] = tt
All-keep_test test (r ∷ rs) = elim (Bool-cases (test r)) [
  | inl e ↦ rw e (e, All-keep_test test rs)
  | inr e ↦ rw e (All-keep_test test rs)
]

sorted_queue :
    (test : Ref → Bool) (rs : List Ref)
    → IsQueueOf test rs (slice_stable goes_before (keep test rs))
sorted_queue test rs = record {
  same_operations = slice_stable-perm goes_before (keep test rs);
  sorted = slice_stable-Sorted goes_before goes_before-IsOrder (keep test rs);
  ranked =
      Sorted-IsRanked (slice_stable goes_before (keep test rs))
        (slice_stable-Sorted goes_before goes_before-IsOrder (keep test rs));
  stable = λ p t. keep-slice_stable goes_before (has_rank p t) (rank_tie p t) (keep test rs);
  passes = slice_stable-All goes_before (λ r. test r ≡ true) (keep test rs) (All-keep_test test rs);
}

module _ (f : Finalizers) (rs : List Ref) where
  -- Each of the four queues of sortOperations holds exactly the listed operations whose first matching
  -- case of the switch is that queue's, as often as they were listed; it is sorted by descending
  -- priority and then by ascending creation second; and operations of one priority and one second
  -- keep the order of the listing.
  pub sort_operations-IsQueueOf :
      let q = sort_operations f rs in
      IsQueueOf (goes_to_stop f) rs q.for_stop_execution
      × IsQueueOf (goes_to_first f) rs q.first_execution
      × IsQueueOf (goes_to_retry f) rs q.retry_execution
      × IsQueueOf (goes_to_in_progress f) rs q.in_progress
  unfolding sort_operations
  sort_operations-IsQueueOf = (
    rw
        (enqueue_all-keep f (λ q. q.for_stop_execution) (goes_to_stop f)
          (λ q r. unfold enqueue in ground arith) no_queues rs)
        (sorted_queue (goes_to_stop f) rs),
    rw
        (enqueue_all-keep f (λ q. q.first_execution) (goes_to_first f)
          (λ q r. unfold enqueue in ground arith) no_queues rs)
        (sorted_queue (goes_to_first f) rs),
    rw
        (enqueue_all-keep f (λ q. q.retry_execution) (goes_to_retry f)
          (λ q r. unfold enqueue in ground arith) no_queues rs)
        (sorted_queue (goes_to_retry f) rs),
    rw
        (enqueue_all-keep f (λ q. q.in_progress) (goes_to_in_progress f)
          (λ q r. unfold enqueue in ground arith) no_queues rs)
        (sorted_queue (goes_to_in_progress f) rs),
  )
