-- ===== src/Alert/Once.antt =====
-- An alert that was processed is not executed again while Prometheus does not resolve it.
use koperator.Prelude.{
  ℕ, ◌≡◌, refl, sym, ap, ◌∙◌, Option, none, some, Bool, true, false, List, [], ◌∷◌, map, arith,
  keep, str_eq, ◌==◌, is_some, if_both, All, All-keep, Bool-cases, Option-cases, inl, inr,
}
use koperator.Api.Failure.{Answer, ok, err}
use koperator.Alert.Types.{AlertState, CurrentAlert}
use koperator.Alert.World.{Env, Trace, pure, fail, continue, ◌>>=◌}
use koperator.Alert.Process.{examine_alert, get_kafka_cr}
use koperator.Alert.Stored.{
  CurrentAlerts, find_alert, add_alert, delete_alert, alert_gc, set_processed, is_supported,
  collect, handle_alert, handle_all, after_handling, dispatch, get_rolling_upgrade_alert_count,
}

abbrev pub IsProcessed : ℕ → CurrentAlerts → Type 0
IsProcessed fp alerts =
    (a : CurrentAlert) × ((find_alert fp alerts ≡ some a) × (a.processed ≡ true))

-- The batch does not resolve the alert.
abbrev pub Unresolved : ℕ → AlertState → Type 0
Unresolved fp s = s.finger_print ≡ fp → str_eq s.status "resolved" ≡ false

-- processed still, where there was no panic
abbrev pub Survives : ℕ → Option CurrentAlerts → Type 0
Survives fp none = Unit
Survives fp (some alerts) = IsProcessed fp alerts

module _ (fp : ℕ) where
  add_alert-IsProcessed :
      (s : AlertState) (alerts : CurrentAlerts)
      → IsProcessed fp alerts
      → IsProcessed fp (add_alert s alerts)
  unfolding add_alert find_alert
  add_alert-IsProcessed s alerts (a, (h, k)) = (
    a,
    (
      elim (Bool-cases (s.finger_print == fp)) [
        | inl e ↦
            let same : s.finger_print ≡ fp = ground arith in
            let found : find_alert s.finger_print alerts ≡ some a =
              ap (λ f. find_alert f alerts) same ∙ h in
            rw found h
        | inr e ↦
            if_both (λ r. find_alert fp r ≡ some a) (is_some (find_alert s.finger_print alerts))
              alerts
              ((
                s.finger_print,
                record {
                  status = s.status;
                  labels = s.labels;
                  annotations = s.annotations;
                  processed = false;
                },
              )
                ∷ alerts)
              h (rw e h)
      ],
      k,
    ),
  )

  find_alert-delete :
      (other : ℕ) (alerts : CurrentAlerts)
      → (other == fp) ≡ false
      → find_alert fp (delete_alert other alerts) ≡ find_alert fp alerts
  unfolding find_alert delete_alert
  find_alert-delete other [] h = refl
  find_alert-delete other (e ∷ alerts) h = ground (arith, find_alert-delete other alerts h)

  find_alert-set_processed :
      (other : ℕ) (processed : Bool) (alerts : CurrentAlerts)
      → (other == fp) ≡ false
      → find_alert fp (set_processed other processed alerts) ≡ find_alert fp alerts
  unfolding find_alert set_processed
  find_alert-set_processed other processed [] h = refl
  find_alert-set_processed other processed (e ∷ alerts) h =
      ground (arith, find_alert-set_processed other processed alerts h)

  alert_gc-IsProcessed :
      (s : AlertState) (alerts : CurrentAlerts)
      → Unresolved fp s
      → IsProcessed fp alerts
      → IsProcessed fp (alert_gc s alerts)
  unfolding alert_gc
  alert_gc-IsProcessed s alerts u (a, (h, k)) =
      (a, (ground (arith, u, find_alert-delete s.finger_print alerts), k))

  collect-IsProcessed :
      (ss : List AlertState) (alerts : CurrentAlerts)
      → All (Unresolved fp) ss
      → IsProcessed fp alerts
      → IsProcessed fp (collect ss alerts)
  unfolding collect
  collect-IsProcessed [] alerts u p = p
  collect-IsProcessed (s ∷ ss) alerts u p =
      collect-IsProcessed ss (alert_gc s (add_alert s alerts)) u.1
        (alert_gc-IsProcessed s (add_alert s alerts) u.0 (add_alert-IsProcessed s alerts p))

  module _ (env : Env) where
    -- HandleAlert makes no call for a processed alert and leaves the alerts as they are.
    handle_alert-processed :
        (count : ℕ) (alerts : CurrentAlerts) (t : Trace)
        → IsProcessed fp alerts
        → handle_alert env fp count alerts t ≡ (some (ok alerts), t)
    unfolding handle_alert pure
    handle_alert-processed count alerts t (a, (h, k)) = rw (handle_alert, h, k) refl

    Kept : CurrentAlerts → Option (Answer CurrentAlerts) → Type 0
    Kept alerts none = Unit
    Kept alerts (some (err e)) = Unit
    Kept alerts (some (ok handled)) = IsProcessed fp handled

    Kept-continue :
        (alerts : CurrentAlerts) (answer : Option (Answer Bool)) (change : Bool → CurrentAlerts)
        (t : Trace)
        → ((b : Bool) → IsProcessed fp (change b))
        → Kept alerts (continue answer (λ b. pure (change b)) t).0
    unfolding Kept pure
    Kept-continue alerts none change t h = tt
    Kept-continue alerts (some (err e)) change t h = tt
    Kept-continue alerts (some (ok b)) change t h = h b

    Survives-step :
        (alerts : CurrentAlerts) (answer : Option (Answer CurrentAlerts))
        → Kept alerts answer
        → IsProcessed fp alerts
        → (fps : List ℕ) (count : ℕ) (u : Trace)
        → ((handled : CurrentAlerts)
            → IsProcessed fp handled
            → Survives fp (handle_all env fps count handled u).0)
        → Survives fp
            (elim (after_handling env alerts answer) as (λ _. Option CurrentAlerts × Trace) [
              | none ↦ (none, u)
              | some handled ↦ handle_all env fps count handled u
            ]).0
    unfolding Kept
    Survives-step alerts none k p fps count u rest = tt
    Survives-step alerts (some (err e)) k p fps count u rest = rest alerts p
    Survives-step alerts (some (ok handled)) k p fps count u rest = rest handled k

    -- What the alert that is handled comes to does not reach a processed one.
    set_processed-IsProcessed :
        (other : ℕ) (alerts : CurrentAlerts) (a : CurrentAlert) (b : Bool)
        → find_alert other alerts ≡ some a
        → a.processed ≡ false
        → IsProcessed fp alerts
        → IsProcessed fp (set_processed other b alerts)
    set_processed-IsProcessed other alerts a b h k (c, (found, done)) =
        elim (Bool-cases (other == fp)) [
          | inl e ↦
              let same : other ≡ fp = ground arith in
              let both : some a ≡ some c = sym h ∙ ap (λ f. find_alert f alerts) same ∙ found in
              absurd (ground arith)
          | inr e ↦ (c, (find_alert-set_processed other b alerts e ∙ found, done))
        ]

    handle_alert-Kept :
        (other count : ℕ) (alerts : CurrentAlerts) (t : Trace)
        → IsProcessed fp alerts
        → Kept alerts (handle_alert env other count alerts t).0
    unfolding handle_alert pure fail ◌>>=◌ Kept examine_alert get_kafka_cr
    handle_alert-Kept other count alerts t p = elim (Option-cases (find_alert other alerts)) [
      | inl e ↦ rw (handle_alert, e) tt
      | inr (a, e) ↦ elim (Bool-cases a.processed) [
        | inl f ↦ rw (handle_alert, e, f) p
        | inr f ↦
            rw (handle_alert, e, f)
              (let (answer, u) = examine_alert env a count t in
                Kept-continue alerts answer (λ b. set_processed other b alerts) u
                  (λ b. set_processed-IsProcessed other alerts a b e f p))
      ]
    ]

    handle_all-Survives :
        (fps : List ℕ) (count : ℕ) (alerts : CurrentAlerts) (t : Trace)
        → IsProcessed fp alerts
        → Survives fp (handle_all env fps count alerts t).0
    unfolding handle_all
    handle_all-Survives [] count alerts t p = p
    handle_all-Survives (f ∷ fps) count alerts t p =
        let (answer, u) = handle_alert env f count alerts t in
        Survives-step alerts answer (handle_alert-Kept f count alerts t p) p fps count u
          (λ handled q. handle_all-Survives fps count handled u q)

    -- An alert that was executed stays processed over a batch of alerts that does not resolve it, if
    -- the batch does not panic; and while it is processed, handling it makes no call.
    pub dispatch-once :
        (ss : List AlertState) (alerts : CurrentAlerts) (t : Trace)
        → All (Unresolved fp) ss
        → IsProcessed fp alerts
        → Survives fp (dispatch env ss alerts t).0
          × ((count : ℕ) (u : Trace) → handle_alert env fp count alerts u ≡ (some (ok alerts), u))
    unfolding dispatch
    dispatch-once ss alerts t h p =
        let stored = collect (keep is_supported ss) alerts in
        (
          handle_all-Survives (map (λ e. e.0) stored) (get_rolling_upgrade_alert_count stored)
              stored t
              (collect-IsProcessed (keep is_supported ss) alerts
                (All-keep (Unresolved fp) is_supported ss h) p),
          λ count u. handle_alert-processed count alerts u p,
        )
