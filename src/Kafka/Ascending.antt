-- ===== src/Kafka/Ascending.antt =====
-- The order in which reorderBrokers hands out the brokers.
use mathlib.Core.List.{Perm}
use koperator.Prelude.{
  ℕ, ◌≤◌, ◌≡◌, refl, ap, subst, ◌++◌, Bool, Option, none, some, true, false, ◌&&◌, not, List, [],
  ◌∷◌, map, arith, str_eq, eq_iff, All, any_of, is_some, ◌==◌, String, if◌then◌else◌, Option-cases,
  inl, inr,
}
use koperator.Prelude.Dict.{Dict, lookup, insert, lookup-insert}
use koperator.Prelude.Decimal.{itoa}
use koperator.Prelude.Sort.{
  slice_stable, slice_stable-perm, slice_stable-All, slice_stable-Sorted, Sorted, IsOrder,
}
use koperator.Api.Cluster.{Broker}
use koperator.Api.States.{BrokerState, CruiseControlState, downscale_required, downscale_running}
use koperator.Task.Brokers.{string_slice_contains}
use koperator.Kafka.Reorder.{
  Input, unfinished, priority_of, priorities, rank, is_before, all_desired, reorder_brokers,
}

is_before-IsOrder : (m : Dict ℕ) → IsOrder (is_before m)
unfolding is_before
is_before-IsOrder m = record {
  asymmetric = λ a b h. ground arith;
  transitive = λ a b c h k. ground arith;
}

-- Two brokers whose ids read the same have the same id.
abbrev pub HasOneId : Broker → Broker → Type 0
HasOneId a b = str_eq (itoa b.id) (itoa a.id) ≡ true → b.id ≡ a.id

abbrev pub HaveOneId : List Broker → List Broker → Type 0
HaveOneId all bs = All (λ a. All (HasOneId a) all) bs

-- Without the first broker.
tails : (all bs : List Broker) (b : Broker) → HaveOneId (b ∷ all) bs → HaveOneId all bs
tails all [] b h = tt
tails all (a ∷ bs) b h = (h.0.1, tails all bs b h.1)

module _ (i : Input) where
  abbrev HasRank : Dict ℕ → Broker → Type 0
  HasRank m a = lookup (itoa a.id) m ≡ some (priority_of i a.id)

  insert-HasRank :
      (m : Dict ℕ) (a b : Broker)
      → HasOneId a b
      → HasRank m a
      → HasRank (insert (itoa b.id) (priority_of i b.id) m) a
  insert-HasRank m a b one h =
      ground (arith, lookup-insert (itoa b.id) (itoa a.id) (priority_of i b.id) m)

  own-HasRank : (m : Dict ℕ) (a : Broker) → HasRank (insert (itoa a.id) (priority_of i a.id) m) a
  own-HasRank m a = ground (
    arith,
    lookup-insert (itoa a.id) (itoa a.id) (priority_of i a.id) m,
    eq_iff (itoa a.id) (itoa a.id),
  )

  priorities-HasRank :
      (bs : List Broker) (m : Dict ℕ) (a : Broker)
      → All (HasOneId a) bs
      → HasRank m a
      → HasRank (priorities i bs m) a
  unfolding priorities
  priorities-HasRank [] m a one h = h
  priorities-HasRank (b ∷ bs) m a one h =
      priorities-HasRank bs _ a one.1 (insert-HasRank m a b one.0 h)

  -- The map holds the priority of every broker that the loop goes over.
  priorities-All :
      (bs : List Broker) (m : Dict ℕ) → HaveOneId bs bs → All (HasRank (priorities i bs m)) bs
  unfolding priorities
  priorities-All [] m one = tt
  priorities-All (b ∷ bs) m one = (
    priorities-HasRank bs _ b one.0.1 (own-HasRank m b),
    priorities-All bs _ (tails bs bs b one.1),
  )

  abbrev is_left : CruiseControlState → Bool
  is_left downscale_required = true
  is_left downscale_running = true
  is_left _ = false

  -- The downscale of the broker is not over, it does not run, and its volumes are there.
  abbrev is_left_behind : String × BrokerState → Bool
  is_left_behind (id, state) =
      is_left state.graceful_action_state.cruise_control_state
      && not (string_slice_contains i.running id)
      && string_slice_contains i.bound_claims id

  -- It is restored, since its backup can be decoded too.
  abbrev is_restored_by : String × BrokerState → Bool
  is_restored_by e = is_left_behind e && is_some (i.restore e.1.configuration_backup)

  -- those brokers, as their backups say
  abbrev pub restored_brokers : Dict BrokerState → List Broker
  restored_brokers [] = []
  restored_brokers ((id, state) ∷ states) =
      let rest = restored_brokers states in
      elim (i.restore state.configuration_backup) [
        | none ↦ rest
        | some b ↦ if is_left_behind (id, state) then b ∷ rest else rest
      ]

  -- the brokers of the spec, and those
  abbrev pub handed_out : List Broker
  handed_out = i.desired ++ restored_brokers i.brokers_state

  -- the five kinds of brokers, by what is known of the id
  pub data Kind : Type 0 where
    restored new missing follower controller : Kind

  abbrev pub kind_of : ℕ → Kind
  kind_of id =
      if any_of (λ e. str_eq e.0 (itoa id) && is_restored_by e) i.brokers_state
      then restored
      else elim (lookup (itoa id) i.brokers_state) [
        | none ↦ new
        | some state ↦
            if string_slice_contains i.running (itoa id)
            then elim i.controller [
              | none ↦ follower
              | some c ↦ if id == c then controller else follower
            ]
            else missing
      ]

  -- those that come before the kind
  abbrev pub precedes : Kind → Kind → Bool
  precedes restored restored = false
  precedes restored _ = true
  precedes new missing = true
  precedes new follower = true
  precedes new controller = true
  precedes missing follower = true
  precedes missing controller = true
  precedes follower controller = true
  precedes _ _ = false

  -- The order of the result: no broker comes after one that it goes before.
  abbrev pub IsAscending : List Broker → Type 0
  IsAscending [] = Unit
  IsAscending (a ∷ bs) =
      All (λ b. precedes (kind_of b.id) (kind_of a.id) ≡ false) bs × IsAscending bs

  abbrev position : Kind → ℕ
  position restored = 0
  position new = 1
  position missing = 2
  position follower = 3
  position controller = 4

  restored_step :
      (running left bound : Bool) (r : Option Broker) (key id : String)
      (rest : List (String × Broker)) (tail : Bool)
      → string_slice_contains (map (λ e. e.0) rest) id ≡ tail
      → string_slice_contains
          (map
            (λ e. e.0)
            (if not running && left && bound
              then (elim r [ none ↦ rest | some b ↦ (key, b) ∷ rest ])
              else rest))
          id
        ≡ (if str_eq key id && ((left && not running && bound) && is_some r) then true else tail)
  restored_step running left bound none key id rest tail h = ground arith
  restored_step running left bound (some b) key id rest tail h = ground arith

  unfinished-restored :
      (id : String) (states : Dict BrokerState)
      → string_slice_contains (map (λ e. e.0) (unfinished i states)) id
        ≡ any_of (λ e. str_eq e.0 id && is_restored_by e) states
  unfolding unfinished
  unfinished-restored id [] = refl
  unfinished-restored id ((key, state) ∷ states) =
      let ih = unfinished-restored id states in
      restored_step (string_slice_contains i.running key)
        (is_left state.graceful_action_state.cruise_control_state)
        (string_slice_contains i.bound_claims key) (i.restore state.configuration_backup) key id
        (unfinished i states) (any_of (λ e. str_eq e.0 id && is_restored_by e) states) ih

  brokers_step :
      (running left bound : Bool) (r : Option Broker) (key : String) (rest : List (String × Broker))
      (brokers : List Broker)
      → map (λ e. e.1) rest ≡ brokers
      → map
          (λ e. e.1)
          (if not running && left && bound
            then (elim r [ none ↦ rest | some b ↦ (key, b) ∷ rest ])
            else rest)
        ≡ elim r [
          | none ↦ brokers
          | some b ↦ if left && not running && bound then b ∷ brokers else brokers
        ]
  brokers_step running left bound none key rest brokers h = ground arith
  brokers_step running left bound (some b) key rest brokers h = ground arith

  unfinished-brokers :
      (states : Dict BrokerState) → map (λ e. e.1) (unfinished i states) ≡ restored_brokers states
  unfolding unfinished
  unfinished-brokers [] = refl
  unfinished-brokers ((key, state) ∷ states) =
      brokers_step (string_slice_contains i.running key)
        (is_left state.graceful_action_state.cruise_control_state)
        (string_slice_contains i.bound_claims key) (i.restore state.configuration_backup) key
        (unfinished i states) (restored_brokers states) (unfinished-brokers states)

  priority-position : (id : ℕ) → priority_of i id ≡ position (kind_of id)
  unfolding priority_of
  priority-position id =
      let restored = unfinished-restored (itoa id) i.brokers_state in
      elim (Option-cases (lookup (itoa id) i.brokers_state)) [
        | inl q ↦ ground (arith, restored, q)
        | inr (state, q) ↦ elim (Option-cases i.controller) [
          | inl c ↦ ground (arith, restored, q, c)
          | inr (k, c) ↦ ground (arith, restored, q, c)
        ]
      ]

  position-precedes : (a b : Kind) → position a ≤ position b → precedes b a ≡ false
  position-precedes a b h = ground arith

  All-ascending :
      (m : Dict ℕ) (a : Broker) (bs : List Broker)
      → HasRank m a
      → All (HasRank m) bs
      → All (λ b. is_before m b a ≡ false) bs
      → All (λ b. precedes (kind_of b.id) (kind_of a.id) ≡ false) bs
  unfolding is_before
  All-ascending m a [] h hs s = tt
  All-ascending m a (b ∷ bs) h hs s =
      let ra : rank m a ≡ priority_of i a.id = rw h refl in
      let rb : rank m b ≡ priority_of i b.id = rw hs.0 refl in
      (
        position-precedes (kind_of a.id) (kind_of b.id)
            (ground (arith, ra, rb, s.0, priority-position a.id, priority-position b.id)),
        All-ascending m a bs h hs.1 s.1,
      )

  Sorted-IsAscending :
      (m : Dict ℕ) (bs : List Broker)
      → All (HasRank m) bs
      → Sorted (is_before m) bs
      → IsAscending bs
  Sorted-IsAscending m [] hs s = tt
  Sorted-IsAscending m (a ∷ bs) hs s =
      (All-ascending m a bs hs.0 hs.1 s.0, Sorted-IsAscending m bs hs.1 s.1)

  reorders :
      HaveOneId (all_desired i) (all_desired i)
      → Perm (reorder_brokers i) (all_desired i) × IsAscending (reorder_brokers i)
  unfolding reorder_brokers
  reorders one =
      let m = priorities i (all_desired i) [] in
      (
        slice_stable-perm (is_before m) (all_desired i),
        Sorted-IsAscending m (slice_stable (is_before m) (all_desired i))
            (slice_stable-All (is_before m) (HasRank m) (all_desired i)
              (priorities-All (all_desired i) [] one))
            (slice_stable-Sorted (is_before m) (is_before-IsOrder m) (all_desired i)),
      )

  -- The brokers of the spec, and those restored from their backups (a downscale that is not over, no
  -- running pod, volumes that are there), are handed out, each as often as it stands there: first the
  -- ids restored for their downscale, then those without a state, then those that do not run, then those
  -- that do, and the controller, if it runs, last; if brokers whose ids read the same have one id.
  pub reorder_brokers-IsAscending :
      HaveOneId handed_out handed_out
      → Perm (reorder_brokers i) handed_out × IsAscending (reorder_brokers i)
  reorder_brokers-IsAscending =
      subst (λ bs. HaveOneId bs bs → Perm (reorder_brokers i) bs × IsAscending (reorder_brokers i))
        (ap (λ bs. i.desired ++ bs) (unfinished-brokers i.brokers_state)) reorders
