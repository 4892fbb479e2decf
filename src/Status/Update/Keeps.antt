-- ===== src/Status/Update/Keeps.antt =====
-- What an update of the status leaves alone, whether it is accepted or not.
use koperator.Prelude.{
  ◌≡◌, refl, ◌∙◌, subst, String, Option, none, some, true, false, List, [], ◌∷◌, arith,
  if◌then◌else◌,
}
use koperator.Api.Failure.{Answer, ok, err, Error, is_missing, is_conflict}
use koperator.Status.World.{
  Cluster, Kind, Call, updated_status, updated, read_cluster, deleted, created_claim, updated_claim,
  Trace, Server, World, answered, update_status, update, get,
}
use koperator.Status.Update.{or_update, write, write_again, after_write, change_status}

-- the objects that were deleted, the newest first
abbrev pub deletions : Trace → List (Kind × String)
deletions [] = []
deletions (deleted kind name ∷ t) = (kind, name) ∷ deletions t
deletions (updated_status c ∷ t) = deletions t
deletions (updated c ∷ t) = deletions t
deletions (read_cluster ∷ t) = deletions t
deletions (created_claim name ∷ t) = deletions t
deletions (updated_claim name requests labels ∷ t) = deletions t

-- The answers of the server keep a property of the cluster.
pub record Keeping (server : Server) (P : Cluster → Type 0) : Type 0 where
  pub status : (t : Trace) (c d : Cluster) → server.update_status t c ≡ ok d → P c → P d
  pub object : (t : Trace) (c d : Cluster) → server.update t c ≡ ok d → P c → P d

module _ (P : Cluster → Type 0) where
  answered-keeps :
      (c : Cluster) (k : Call) (t : Trace) (a : Answer Cluster)
      → ((d : Cluster) → a ≡ ok d → P d)
      → P c
      → P (answered c k t a).1.cluster
  answered-keeps c k t (ok d) h p = h d refl
  answered-keeps c k t (err e) h p = p

answered-deletions :
    (c : Cluster) (k : Call) (t : Trace) (a : Answer Cluster)
    → deletions (k ∷ t) ≡ deletions t
    → deletions (answered c k t a).1.trace ≡ deletions t
answered-deletions c k t (ok d) h = h
answered-deletions c k t (err e) h = h

module _ (server : Server) where
  or_update-deletions :
      (p : Option Error × World) → deletions (or_update server p).1.trace ≡ deletions p.1.trace
  unfolding update
  or_update-deletions (none, w) = refl
  or_update-deletions (some e, w) =
      elim (is_missing e)
        as (λ b.
          deletions (if b then update server w else (some e, w)).1.trace ≡ deletions w.trace) [
            | true ↦
                answered-deletions w.cluster (updated w.cluster) w.trace
                  (server.update w.trace w.cluster) refl
            | false ↦ refl
          ]

  write-deletions : (w : World) → deletions (write server w).1.trace ≡ deletions w.trace
  unfolding write update_status
  write-deletions w =
      or_update-deletions (update_status server w)
      ∙ answered-deletions w.cluster (updated_status w.cluster) w.trace
          (server.update_status w.trace w.cluster) refl

  write_again-deletions :
      (change : Cluster → Cluster) (p : Option Error × World)
      → deletions (write_again server change p).1.trace ≡ deletions p.1.trace
  write_again-deletions change (some e, w) = refl
  write_again-deletions change (none, w) = write-deletions (record w { cluster = change w.cluster })

  after_write-deletions :
      (change : Cluster → Cluster) (p : Option Error × World)
      → deletions (after_write server change p).1.trace ≡ deletions p.1.trace
  unfolding get
  after_write-deletions change (none, w) = refl
  after_write-deletions change (some e, w) =
      elim (is_conflict e)
        as (λ b.
          deletions (if b then write_again server change (get server w) else (some e, w)).1.trace
          ≡ deletions w.trace) [
            | true ↦
                write_again-deletions change (get server w)
                ∙ answered-deletions w.cluster read_cluster w.trace (server.get w.trace) refl
            | false ↦ refl
          ]

  -- An update of the status deletes nothing.
  pub change_status-deletions :
      (change : Cluster → Cluster) (w : World)
      → deletions (change_status server change w).1.trace ≡ deletions w.trace
  unfolding change_status
  change_status-deletions change w =
      after_write-deletions change (write server (record w { cluster = change w.cluster }))
      ∙ write-deletions (record w { cluster = change w.cluster })

module _ (server : Server) (P : Cluster → Type 0) (laws : Keeping server P) where
  or_update-keeps : (p : Option Error × World) → P p.1.cluster → P (or_update server p).1.cluster
  unfolding update
  or_update-keeps (none, w) h = h
  or_update-keeps (some e, w) h =
      elim (is_missing e) as (λ b. P (if b then update server w else (some e, w)).1.cluster) [
        | true ↦
            answered-keeps P w.cluster (updated w.cluster) w.trace (server.update w.trace w.cluster)
              (λ d q. laws.object w.trace w.cluster d q h) h
        | false ↦ h
      ]

  write-keeps : (w : World) → P w.cluster → P (write server w).1.cluster
  unfolding write update_status
  write-keeps w h = or_update-keeps (update_status server w) (
      answered-keeps P w.cluster (updated_status w.cluster) w.trace
        (server.update_status w.trace w.cluster) (λ d q. laws.status w.trace w.cluster d q h) h)

  write_again-keeps :
      (change : Cluster → Cluster) (p : Option Error × World)
      → ((c : Cluster) → P c → P (change c))
      → P p.1.cluster
      → P (write_again server change p).1.cluster
  write_again-keeps change (some e, w) step h = h
  write_again-keeps change (none, w) step h =
      write-keeps (record w { cluster = change w.cluster }) (step w.cluster h)

  after_write-keeps :
      (change : Cluster → Cluster) (p : Option Error × World)
      → ((t : Trace) (d : Cluster) → server.get t ≡ ok d → P d)
      → ((c : Cluster) → P c → P (change c))
      → P p.1.cluster
      → P (after_write server change p).1.cluster
  unfolding get
  after_write-keeps change (none, w) reads step h = h
  after_write-keeps change (some e, w) reads step h =
      elim (is_conflict e)
        as (λ b.
          P (if b then write_again server change (get server w) else (some e, w)).1.cluster) [
            | true ↦ write_again-keeps change (get server w) step (
                answered-keeps P w.cluster read_cluster w.trace (server.get w.trace)
                  (λ d q. reads w.trace d q) h)
            | false ↦ h
          ]

  -- What the server keeps and reads, and the change keeps, holds afterwards if it held before.
  pub change_status-keeps :
      (change : Cluster → Cluster) (w : World)
      → ((t : Trace) (d : Cluster) → server.get t ≡ ok d → P d)
      → ((c : Cluster) → P c → P (change c))
      → P w.cluster
      → P (change_status server change w).1.cluster
  unfolding change_status
  change_status-keeps change w reads step h =
      after_write-keeps change (write server (record w { cluster = change w.cluster })) reads step
        (write-keeps (record w { cluster = change w.cluster }) (step w.cluster h))

  write_again-makes :
      (change : Cluster → Cluster) (p : Option Error × World) (u : World)
      → ((c : Cluster) → P (change c))
      → write_again server change p ≡ (none, u)
      → P u.cluster
  write_again-makes change (some e, w) u made h = ground arith
  write_again-makes change (none, w) u made h =
      subst (λ (r : Option Error × World). P r.1.cluster) h
        (write-keeps (record w { cluster = change w.cluster }) (made w.cluster))

  after_write-makes :
      (change : Cluster → Cluster) (p : Option Error × World) (u : World)
      → ((c : Cluster) → P (change c))
      → P p.1.cluster
      → after_write server change p ≡ (none, u)
      → P u.cluster
  after_write-makes change (none, w) u made k h =
      subst (λ (r : Option Error × World). P r.1.cluster) h k
  after_write-makes change (some e, w) u made k h =
      elim (is_conflict e)
          as (λ b.
            (if b then write_again server change (get server w) else (some e, w)) ≡ (none, u)
            → P u.cluster) [
              | true ↦ λ q. write_again-makes change (get server w) u made q
              | false ↦ λ q. ground arith
            ]
        h

  -- What every change makes and the server keeps holds after a change without an error.
  pub change_status-makes :
      (change : Cluster → Cluster) (w u : World)
      → ((c : Cluster) → P (change c))
      → change_status server change w ≡ (none, u)
      → P u.cluster
  unfolding change_status
  change_status-makes change w u made h =
      after_write-makes change (write server (record w { cluster = change w.cluster })) u made
        (write-keeps (record w { cluster = change w.cluster }) (made w.cluster)) h
