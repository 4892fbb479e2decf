-- ===== src/Alert/Limits.antt =====
-- What the commands leave alone: a cluster at its limits, and one that Cruise Control works on.
use koperator.Prelude.{
  ℕ, ◌<◌, ◌≤◌, String, ◌≡◌, refl, ◌⊎◌, none, some, Bool, true, false, ◌∷◌, length, arith, str_eq,
  inl, inr, ltb, leb, if_both,
}
use koperator.Prelude.Dict.{lookup}
use koperator.Api.Failure.{ok}
use koperator.Alert.Types.{value_at, Cluster, CurrentAlert, AlertManagerConfig, DisableScaling}
use koperator.Alert.World.{Env, Run, Trace, got_cr, updated_status, pure, fail, call, ◌>>=◌}
use koperator.Alert.Cluster.{is_busy, get_cr, update_cr_with_rolling_upgrade}
use koperator.Alert.Commands.{up_scale, down_scale}
use koperator.Alert.Process.{
  command_of, check_label_exists, violation, disable_scaling, process_alert, get_kafka_cr,
  examine_cluster, examine_alert,
}

-- The command scales in a direction in which the limit is reached.
abbrev pub Limited : CurrentAlert → AlertManagerConfig → Cluster → Type 0
Limited a c cr =
    ((command_of a ≡ "upScale") × ((0 < c.up_scale_limit) × (c.up_scale_limit ≤ length cr.brokers)))
    ⊎ ((command_of a ≡ "downScale") × (length cr.brokers ≤ c.down_scale_limit))

module _ (env : Env) (a : CurrentAlert) (name : String) where
  namespace : String
  namespace = value_at "namespace" a.labels

  violation-none :
      (command : String)
      → lookup "kafka_cr" a.labels ≡ some name
      → command_of a ≡ command
      → str_eq command command ≡ true
      → violation "kafka_cr" command a ≡ none
  unfolding violation check_label_exists
  violation-none command h k r = rw (check_label_exists, h, k, r) refl

  name_here : lookup "kafka_cr" a.labels ≡ some name → value_at "kafka_cr" a.labels ≡ name
  unfolding value_at
  name_here h = rw (value_at, h) refl

  process_alert-Limited :
      (cr : Cluster) (c : AlertManagerConfig) (t : Trace)
      → lookup "kafka_cr" a.labels ≡ some name
      → cr.alert_manager_config ≡ some c
      → Limited a c cr
      → process_alert env a (disable_scaling cr) t ≡ (some (ok false), t)
  unfolding process_alert disable_scaling pure fail ◌>>=◌
  process_alert-Limited cr c t h k (inl (e, (above, reached))) =
      let first : ltb 0 c.up_scale_limit ≡ true = ground arith in
      let second : leb c.up_scale_limit (length cr.brokers) ≡ true = ground arith in
      let valid = violation-none "upScale" h e refl in rw (e, valid, k, first, second) refl
  process_alert-Limited cr c t h k (inr (e, reached)) =
      let second : leb (length cr.brokers) c.down_scale_limit ≡ true = ground arith in
      let valid = violation-none "downScale" h e refl in rw (e, valid, k, second) refl

  -- For an alert on a cluster that has reached the limit of the alert's command, examineAlert reads the
  -- cluster and counts in its status, but executes nothing, and leaves the alert to be handled again.
  pub examine_alert-Limited :
      (n : ℕ) (cr current : Cluster) (c : AlertManagerConfig) (t : Trace)
      → lookup "kafka_cr" a.labels ≡ some name
      → env.get_cr t name (value_at "namespace" a.labels) ≡ ok cr
      → env.update_status
          (got_cr name (value_at "namespace" a.labels) ∷ t)
          (record cr { error_count = n })
        ≡ ok current
      → current.alert_manager_config ≡ some c
      → Limited a c current
      → examine_alert env a n t ≡ (
        some (ok false),
        updated_status (record cr { error_count = n })
            ∷ got_cr name (value_at "namespace" a.labels)
            ∷ t,
      )
  unfolding examine_alert get_kafka_cr get_cr update_cr_with_rolling_upgrade examine_cluster call
      pure ◌>>=◌
  examine_alert-Limited n cr current c t h g u k l =
      let skipped =
        process_alert-Limited current c
          (updated_status (record cr { error_count = n })
            ∷ got_cr name (value_at "namespace" a.labels)
            ∷ t)
          h k l in
      rw (examine_alert, get_kafka_cr, h, g, u)
        (if_both
          (λ (m : Run Bool).
            m (
              updated_status (record cr { error_count = n })
              ∷ got_cr name (value_at "namespace" a.labels)
              ∷ t)
            ≡ (
              some (ok false),
              updated_status (record cr { error_count = n })
                  ∷ got_cr name (value_at "namespace" a.labels)
                  ∷ t,
            ))
          (str_eq current.state "ClusterRunning") (process_alert env a (disable_scaling current))
          (pure false) skipped refl)

  -- While Cruise Control has a task for a broker of the cluster, a downscale or upscale that no limit
  -- forbids reads the cluster and does nothing else; yet the alert counts as processed.
  pub process_alert-busy :
      (cr : Cluster) (ds : DisableScaling) (t : Trace)
      → lookup "kafka_cr" a.labels ≡ some name
      → env.get_cr t name (value_at "namespace" a.labels) ≡ ok cr
      → is_busy cr ≡ true
      → ((command_of a ≡ "upScale") × (ds.up ≡ false))
        ⊎ ((command_of a ≡ "downScale") × (ds.down ≡ false))
      → process_alert env a ds t ≡ (some (ok true), got_cr name (value_at "namespace" a.labels) ∷ t)
  unfolding process_alert up_scale down_scale get_cr call pure fail ◌>>=◌
  process_alert-busy cr ds t h g b (inl (e, k)) =
      rw (e, violation-none "upScale" h e refl, k, up_scale, name_here h, g, b) refl
  process_alert-busy cr ds t h g b (inr (e, k)) =
      rw (e, violation-none "downScale" h e refl, k, down_scale, name_here h, g, b) refl
