-- ===== src/Replication/Unchanged.antt =====
-- A write that misses the majority changes nothing.
use private_mesh.Prelude.{
  ℕ, ◌+◌, ◌-◌, ◌^◌, ◌==◌, ◌<◌, ◌≡◌, refl, ◌∙◌, ap, false, List, [], ◌∷◌, arith, Result, ok, err,
  lt→ltb,
}
use private_mesh.Document.{Mutation}
use private_mesh.Election.{Election, validate}
use private_mesh.Replication.{
  Entry, Status, Replica, Primary, Error, append_peers, acknowledged, quorum, on_acknowledged,
  replicate_entry, write_entry, write_at, write, quorum_unavailable, succeeded,
}

-- What a replica promises: an append that fails changes nothing, and a rollback behind an append
-- that succeeded undoes it.
pub record IsLawful {S : Type 0} (replica_of : Replica S) : Type 0 where
  pub keeps :
      (entry : Entry) (s s' : S) (e : Error) → replica_of.append entry s ≡ (err e, s') → s' ≡ s
  pub undoes :
      (entry : Entry) (s s' : S)
      → replica_of.append entry s ≡ (ok tt, s')
      → (replica_of.rollback entry.offset s').1 ≡ s

room_left : (n : ℕ) → n < 2 ^ 64 - 1 → (n == 2 ^ 64 - 1) ≡ false
room_left n h = ground arith

module _ {S : Type 0} (replica_of : Replica S) (lawful : IsLawful replica_of) where
  rolled_back :
      (entry : Entry) (peers : List S)
      → on_acknowledged (replica_of.rollback entry.offset) (append_peers replica_of entry peers)
        ≡ peers
  unfolding on_acknowledged append_peers
  rolled_back entry [] = refl
  rolled_back entry (s ∷ peers) =
      from (replica_of.append entry s) refl ∙ ap (λ (xs : List S). s ∷ xs) (rolled_back entry peers)
    where
      undone : List S
      undone =
          on_acknowledged (replica_of.rollback entry.offset) (append_peers replica_of entry peers)

      from :
          (r : Result Error (Unit {0}) × S)
          → replica_of.append entry s ≡ r
          → on_acknowledged
              (replica_of.rollback entry.offset)
              ((succeeded r.0, r.1) ∷ append_peers replica_of entry peers)
            ≡ s ∷ undone
      from (ok u, s') made = ap (λ (x : S). x ∷ undone) (lawful.undoes entry s s' made)
      from (err e, s') made = ap (λ (x : S). x ∷ undone) (lawful.keeps entry s s' e made)

  -- With replicas that keep their promises, a `Write` under the lease whose local append succeeds
  -- and which too few peers acknowledge answers ErrQuorumUnavailable, and every replica is as it was
  -- before.
  pub write-unchanged :
      (now : ℕ) (e : Election) (m : Mutation) (p : Primary S) (s : Status) (local : S)
      → validate now p.node_id p.term e ≡ ok tt
      → replica_of.status p.local ≡ ok s
      → s.applied_offset < 2 ^ 64 - 1
      → replica_of.append (record { offset = s.applied_offset + 1; mutation = m }) p.local
        ≡ (ok tt, local)
      → 1
          + acknowledged (
              append_peers replica_of
                (record { offset = s.applied_offset + 1; mutation = m })
                p.peers)
        < quorum p
      → write replica_of now e m p ≡ (err quorum_unavailable, p)
  unfolding write write_at write_entry replicate_entry
  write-unchanged now e m p s local valid known room appended few =
      let entry : Entry = record { offset = s.applied_offset + 1; mutation = m } in
      rw (valid, write)
        (rw known (
          rw (room_left s.applied_offset room) (
            rw (appended, write_entry)
              (rw (lt→ltb _ _ few) (
                ap
                  (λ (x : Result Error (Unit {0}) × S).
                    refused (replica_of.rollback entry.offset x.1).1 (undone p.peers))
                  appended
                ∙ ap (λ (x : S). refused x (undone p.peers))
                    (lawful.undoes entry p.local local appended)
                ∙ ap (λ (xs : List S). refused p.local xs) (rolled_back entry p.peers))))))
    where
      refused : S → List S → Result Error ℕ × Primary S
      refused s peers = (err quorum_unavailable, record p { local = s; peers = peers })

      undone : List S → List S
      undone peers =
          on_acknowledged (replica_of.rollback (s.applied_offset + 1))
            (append_peers replica_of (record { offset = s.applied_offset + 1; mutation = m }) peers)
