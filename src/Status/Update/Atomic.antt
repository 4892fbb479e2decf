-- ===== src/Status/Update/Atomic.antt =====
-- What the server is sent when a status is changed, and by which version of the cluster.
use koperator.Prelude.{
  ℕ, ◌≡◌, refl, sym, ap, ◌∙◌, ◌⊎◌, inl, inr, Option, none, some, ◌∷◌, arith, Bool-cases,
}
use koperator.Api.Failure.{Answer, ok, err, Error, is_missing, is_conflict}
use koperator.Status.World.{
  Cluster, Call, updated_status, updated, read_cluster, Trace, Server, World, answered,
  update_status, update, get,
}
use koperator.Status.Update.{or_update, write, write_again, after_write, change_status}

-- Optimistic concurrency: `content v` is the cluster of the resource version v, and `version t` the
-- version that the server has after the calls t and what others have written meanwhile. An update is
-- accepted only if it carries that version, and a reading answers with some version.
pub record Optimistic (server : Server) (content : ℕ → Cluster) (version : Trace → ℕ) : Type 0 where
  pub status_accepted :
      (t : Trace) (c d : Cluster) → server.update_status t c ≡ ok d → c.resource_version ≡ version t
  pub accepted :
      (t : Trace) (c d : Cluster) → server.update t c ≡ ok d → c.resource_version ≡ version t
  pub reads : (t : Trace) (c : Cluster) → server.get t ≡ ok c → c ≡ content c.resource_version

answered-none :
    (c : Cluster) (k : Call) (t : Trace) (a : Answer Cluster) (u : World)
    → answered c k t a ≡ (none, u)
    → (a ≡ ok u.cluster) × (u.trace ≡ k ∷ t)
answered-none c k t (ok d) u h = ground arith
answered-none c k t (err e) u h = ground arith

answered-some :
    (c : Cluster) (k : Call) (t : Trace) (a : Answer Cluster) (e : Error) (u : World)
    → answered c k t a ≡ (some e, u)
    → u.cluster ≡ c
answered-some c k t (ok d) e u h = ground arith
answered-some c k t (err f) e u h = ground arith

module _ (server : Server) where
  or_update-none :
      (p : Option Error × World) (u : World)
      → or_update server p ≡ (none, u)
      → (p ≡ (none, u))
        ⊎ ((e : Error) × (v : World) × (p ≡ (some e, v)) × (update server v ≡ (none, u)))
  or_update-none (none, w) u h = inl h
  or_update-none (some e, w) u h = elim (Bool-cases (is_missing e)) [
    | inl m ↦ inr (e, w, refl, rw m at h)
    | inr m ↦ absurd (ground arith)
  ]

  after_write-none :
      (change : Cluster → Cluster) (p : Option Error × World) (u : World)
      → after_write server change p ≡ (none, u)
      → (p ≡ (none, u)) ⊎ ((v : World) × (write_again server change (get server v) ≡ (none, u)))
  after_write-none change (none, w) u h = inl h
  after_write-none change (some e, w) u h = elim (Bool-cases (is_conflict e)) [
    | inl m ↦ inr (w, rw m at h)
    | inr m ↦ absurd (ground arith)
  ]

  write_again-none :
      (change : Cluster → Cluster) (p : Option Error × World) (u : World)
      → write_again server change p ≡ (none, u)
      → (v : World) × (p ≡ (none, v))
        × (write server (record v { cluster = change v.cluster }) ≡ (none, u))
  write_again-none change (none, w) u h = (w, refl, h)
  write_again-none change (some e, w) u h = ground arith

module _ (server : Server) (content : ℕ → Cluster) (version : Trace → ℕ) where
  -- The last call wrote the change of what the server had at that moment.
  abbrev pub Written : (Cluster → Cluster) → World → Type 0
  Written change u =
      ((t : Trace) × (u.trace ≡ updated_status (change (content (version t))) ∷ t))
      ⊎ ((t : Trace) × (u.trace ≡ updated (change (content (version t))) ∷ t))

  module _ (laws : Optimistic server content version) (change : Cluster → Cluster) where
    status-Written :
        (w u : World)
        → w.cluster ≡ change (content w.cluster.resource_version)
        → update_status server w ≡ (none, u)
        → Written change u
    unfolding update_status
    status-Written w u h e =
        let kept =
          answered-none w.cluster (updated_status w.cluster) w.trace
            (server.update_status w.trace w.cluster) u e in
        let current = laws.status_accepted w.trace w.cluster u.cluster kept.0 in
        inl (
          w.trace,
          kept.1 ∙ ap (λ c. updated_status c ∷ w.trace) (h ∙ ap (λ v. change (content v)) current),
        )

    update-Written :
        (w u : World)
        → w.cluster ≡ change (content w.cluster.resource_version)
        → update server w ≡ (none, u)
        → Written change u
    unfolding update
    update-Written w u h e =
        let kept =
          answered-none w.cluster (updated w.cluster) w.trace (server.update w.trace w.cluster) u
            e in
        let current = laws.accepted w.trace w.cluster u.cluster kept.0 in
        inr (
          w.trace,
          kept.1 ∙ ap (λ c. updated c ∷ w.trace) (h ∙ ap (λ v. change (content v)) current),
        )

    write-Written :
        (w u : World)
        → w.cluster ≡ change (content w.cluster.resource_version)
        → write server w ≡ (none, u)
        → Written change u
    unfolding write update_status
    write-Written w u h e = elim (or_update-none server (update_status server w) u e) [
      | inl q ↦ status-Written w u h q
      | inr (f, v, q, r) ↦
          let same =
            answered-some w.cluster (updated_status w.cluster) w.trace
              (server.update_status w.trace w.cluster) f v q in
          update-Written v u (same ∙ h ∙ ap (λ c. change (content c.resource_version)) (sym same)) r
    ]

    -- A change that leaves the resource version alone and begins with a version of the server is, where
    -- it reports no error, the change of what the server had when it accepted the last call: after a
    -- conflict the change is made anew, and what others have written stays.
    pub change_status-Written :
        ((c : Cluster) → (change c).resource_version ≡ c.resource_version)
        → (w u : World) → w.cluster ≡ content w.cluster.resource_version
        → change_status server change w ≡ (none, u)
        → Written change u
    unfolding change_status get
    change_status-Written same w u h e =
        elim (after_write-none server change
          (write server (record w { cluster = change w.cluster })) u e) [
            | inl q ↦
                write-Written (record w { cluster = change w.cluster }) u (based w.cluster h) q
            | inr (v, q) ↦
                let (x, read, r) = write_again-none server change (get server v) u q in
                let kept =
                  answered-none v.cluster read_cluster v.trace (server.get v.trace) x read in
                write-Written (record x { cluster = change x.cluster }) u
                  (based x.cluster (laws.reads v.trace x.cluster kept.0)) r
          ]
      where
        based :
            (c : Cluster)
            → c ≡ content c.resource_version
            → change c ≡ change (content (change c).resource_version)
        based c k = ap change (k ∙ ap content (sym (same c)))
