-- ===== src/Alert/Fresh.antt =====
-- The broker that upScale adds has an id of its own.
use koperator.Prelude.{
  ℕ, suc, ◌<◌, ◌≤◌, String, ◌≡◌, refl, sym, ap, ◌∙◌, Option, none, some, false, List, [], ◌∷◌, ◌++◌,
  arith, inl, inr, All, All-impl, ltb, is_some, if◌then◌else◌, Bool-cases, Option-cases,
}
use koperator.Prelude.Dict.{lookup}
use koperator.Api.Failure.{Answer, ok, err}
use koperator.Alert.Types.{LabelSet, value_at, Broker, Cluster}
use koperator.Alert.World.{Env, Trace, got_cr, updated_cr, pure, panic, call, ◌>>=◌}
use koperator.Alert.Cluster.{is_busy, get_cr, update_cr, add_new_broker_to_cr, done_or}
use koperator.Alert.Commands.{biggest_from, new_broker, up_scale}

biggest_from-above : (n : ℕ) (bs : List Broker) → n ≤ biggest_from n bs
unfolding biggest_from
biggest_from-above n [] = omega arith
biggest_from-above n (b ∷ bs) =
    ground (arith, biggest_from-above (if ltb n b.id then b.id else n) bs)

biggest_from-All : (n : ℕ) (bs : List Broker) → All (λ b. b.id ≤ biggest_from n bs) bs
unfolding biggest_from
biggest_from-All n [] = tt
biggest_from-All n (b ∷ bs) =
    let m = if ltb n b.id then b.id else n in
    (ground (arith, biggest_from-above m bs), biggest_from-All m bs)

abbrev id_of : Option (Answer Broker) → ℕ
id_of none = 0
id_of (some (err e)) = 0
id_of (some (ok b)) = b.id

module _ (env : Env) (annotations : LabelSet) (cr : Cluster) where
  -- The id, and that no call is made, in one: what the broker is made of does not matter.
  IsNext : Option (Answer Broker) × Trace → Trace → Type 0
  IsNext (none, u) t = u ≡ t
  IsNext (some (err e), u) t = u ≡ t
  IsNext (some (ok b), u) t = (u ≡ t) × (b.id ≡ suc (biggest_from 0 cr.brokers))

  new_broker-IsNext : (t : Trace) → IsNext (new_broker env annotations cr t) t
  unfolding new_broker pure panic ◌>>=◌ IsNext
  new_broker-IsNext t =
      elim (Bool-cases
        (is_some (lookup (value_at "brokerConfigGroup" annotations) cr.broker_config_groups))) [
          | inl e ↦ rw (new_broker, e) (refl, refl)
          | inr e ↦ elim (Option-cases (env.parse_quantity (value_at "diskSize" annotations))) [
            | inl f ↦ rw (new_broker, e, f) refl
            | inr (n, f) ↦ rw (new_broker, e, f) (refl, refl)
          ]
        ]

  IsNext-some :
      (b : Broker) (o : Option (Answer Broker) × Trace) (t : Trace)
      → o.0 ≡ some (ok b)
      → IsNext o t
      → (o.1 ≡ t) × (b.id ≡ suc (biggest_from 0 cr.brokers))
  unfolding IsNext
  IsNext-some b (none, u) t h k = absurd (ground arith)
  IsNext-some b (some (err e), u) t h k = absurd (ground arith)
  IsNext-some b (some (ok c), u) t h k = (k.0, ap id_of (sym h) ∙ k.1)

module _ (env : Env) (labels annotations : LabelSet) (cr : Cluster) where
  key_name : String
  key_name = value_at "kafka_cr" labels

  -- upScale adds one broker behind those of the cluster, with an id above all of theirs, if Cruise
  -- Control has no task for them and the cluster is the same at the second reading; what the server
  -- answers to the update is its result.
  pub up_scale-adds :
      (b : Broker) (t : Trace)
      → ((u : Trace)
          → env.get_cr u (value_at "kafka_cr" labels) (value_at "namespace" labels) ≡ ok cr)
      → is_busy cr ≡ false
      → (new_broker env annotations cr
          (got_cr (value_at "kafka_cr" labels) (value_at "namespace" labels) ∷ t)).0
        ≡ some (ok b)
      → (up_scale env labels annotations t ≡ (
        some (
            done_or (
              env.update_cr
                (got_cr (value_at "kafka_cr" labels) (value_at "namespace" labels)
                  ∷ got_cr (value_at "kafka_cr" labels) (value_at "namespace" labels)
                  ∷ t)
                (record cr { brokers = cr.brokers ++ (b ∷ []) }))),
        updated_cr (record cr { brokers = cr.brokers ++ (b ∷ []) })
            ∷ got_cr (value_at "kafka_cr" labels) (value_at "namespace" labels)
            ∷ got_cr (value_at "kafka_cr" labels) (value_at "namespace" labels)
            ∷ t,
      ))
        × All (λ o. o.id < b.id) cr.brokers
  unfolding up_scale get_cr update_cr add_new_broker_to_cr call ◌>>=◌
  up_scale-adds b t g k h =
      let here = got_cr (value_at "kafka_cr" labels) (value_at "namespace" labels) ∷ t in
      let next =
        IsNext-some env annotations cr b (new_broker env annotations cr here) here h
          (new_broker-IsNext env annotations cr here) in
      (
        rw (up_scale, g, k, h, next.0, g) refl,
        All-impl (λ o. o.id ≤ biggest_from 0 cr.brokers) (λ o. o.id < b.id) cr.brokers
            (λ o l. ground (arith, next.1)) (biggest_from-All 0 cr.brokers),
      )
