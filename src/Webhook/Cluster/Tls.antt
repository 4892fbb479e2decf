-- ===== src/Webhook/Cluster/Tls.antt =====
-- checkExternalListenerStartingPort and the listeners with TLS.
use koperator.Prelude.{ℕ, zero, suc, ◌≤◌, ◌≡◌, ◌≢◌, subst, List, [], ◌∷◌, ◌++◌, All, arith}
use koperator.Webhook.Cluster.{
  ExternalListener, ListenerSpec, get_external_port_for_broker,
  check_internal_and_external_listeners,
}
use koperator.Webhook.Cluster.Valid.{ValidPort, check-Valid}

All-middle {ℓ κ} :
    {A : Type ℓ} (Q : A → Type κ) (front back : List A) (x : A) → All Q (front ++ x ∷ back) → Q x
All-middle Q [] back x h = h.0
All-middle Q (y ∷ front) back x h = All-middle Q front back x h.1

-- the starting port of a listener with TLS, -1
abbrev pub tls_starting_port : ℕ
tls_starting_port = 4294967295

no_tls_port :
    (s : ListenerSpec) (l : ExternalListener) (id : ℕ)
    → id ≤ 1
    → ValidPort s l (get_external_port_for_broker tls_starting_port id)
    → ⊥
unfolding get_external_port_for_broker
no_tls_port s l zero h v = large v.bounded
  where
    large : 4294967295 ≤ 65535 → ⊥
    large k = omega arith
no_tls_port s l (suc zero) h v = small v.positive
  where
    small : 1 ≤ 0 → ⊥
    small k = omega arith
no_tls_port s l (suc (suc id)) h v = ground arith

-- The validation rejects every cluster that has an external listener with the starting port -1, which
-- turns on TLS, and a broker whose id is 0 or 1.
pub check-tls_refused :
    (s : ListenerSpec) (l : ExternalListener) (front back : List ExternalListener)
    (before after : List ℕ) (id : ℕ)
    → s.external_listeners ≡ front ++ l ∷ back
    → l.external_starting_port ≡ tls_starting_port
    → s.broker_ids ≡ before ++ id ∷ after
    → id ≤ 1
    → check_internal_and_external_listeners s ≢ []
check-tls_refused s l front back before after id there start broker low accepted =
    let v = (check-Valid s).0 accepted in
    let ports =
      All-middle
        (λ k.
          All (λ i. ValidPort s k (get_external_port_for_broker k.external_starting_port i))
            s.broker_ids)
        front back l
        (subst
          (λ ls.
            All
              (λ k.
                All (λ i. ValidPort s k (get_external_port_for_broker k.external_starting_port i))
                  s.broker_ids)
              ls)
          there v.ports) in
    let port =
      All-middle (λ i. ValidPort s l (get_external_port_for_broker l.external_starting_port i))
        before after id
        (subst
          (λ ids.
            All (λ i. ValidPort s l (get_external_port_for_broker l.external_starting_port i)) ids)
          broker ports) in
    no_tls_port s l id low
      (subst (λ p. ValidPort s l (get_external_port_for_broker p id)) start port)
