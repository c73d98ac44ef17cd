-- ===== src/Replication/Quorum.antt =====
-- A write that succeeds has reached a majority.
use private_mesh.Prelude.{
  ℕ, ◌+◌, ◌*◌, ◌/◌, ◌-◌, ◌^◌, ◌==◌, ◌<◌, ◌≡◌, refl, ap, Bool, Bool-cases, inl, inr, List, length,
  ltb, arith, Result, ok, err,
}
use private_mesh.Document.{Mutation}
use private_mesh.Election as E
use private_mesh.Election.{Election, validate}
use private_mesh.Replication.{
  Entry, Status, Replica, Primary, Error, append_peers, acknowledged, quorum, commit_entry,
  replicate_entry, write_entry, write_at, write, states, on_acknowledged, not_leader,
}

module _ {S : Type 0} where
  absurd_err :
      {e : Error} {o : ℕ} {p p' : Primary S} {P : Type 0}
      → ◌≡◌ {A = Result Error ℕ × Primary S} (err e, p) (ok o, p')
      → P
  absurd_err h = ground arith

module _ {S : Type 0} (replica_of : Replica S) where
  -- What has happened to an entry that is written.
  pub record Replicated (entry : Entry) (p : Primary S) : Type 0 where
    pub local : S
    pub appended : replica_of.append entry p.local ≡ (ok tt, local)
    pub majority :
        length p.peers + 1 < 2 * (1 + acknowledged (append_peers replica_of entry p.peers))
    pub committed : (replica_of.commit entry.offset local).0 ≡ ok tt

  commit_entry-ok :
      (offset o : ℕ) (local : S) (peers : List (Bool × S)) (p p' : Primary S)
      → commit_entry replica_of offset local peers p ≡ (ok o, p')
      → (o ≡ offset) × ((replica_of.commit offset local).0 ≡ ok tt)
  unfolding commit_entry
  commit_entry-ok offset o local peers p p' h = from (replica_of.commit offset local) refl h
    where
      from :
          (r : Result Error (Unit {0}) × S)
          → replica_of.commit offset local ≡ r
          → ◌≡◌ {A = Result Error ℕ × Primary S}
              (elim r.0 [
                | err e ↦ (err e, record p { local = r.1; peers = states peers })
                | ok u ↦ (
                  ok offset,
                  record p {
                    local = r.1;
                    peers = on_acknowledged (replica_of.commit offset) peers;
                  },
                )
              ])
              (ok o, p')
          → (o ≡ offset) × ((replica_of.commit offset local).0 ≡ ok tt)
      from (err e, s) made same = ground arith
      from (ok u, s) made same = (ground arith, ap (λ (x : Result Error (Unit {0}) × S). x.0) made)

  write_entry-ok :
      (entry : Entry) (o : ℕ) (p p' : Primary S)
      → write_entry replica_of entry p ≡ (ok o, p')
      → (o ≡ entry.offset) × Replicated entry p
  unfolding write_entry replicate_entry quorum
  write_entry-ok entry o p p' h = from (replica_of.append entry p.local) refl h
    where
      from :
          (r : Result Error (Unit {0}) × S)
          → replica_of.append entry p.local ≡ r
          → ◌≡◌ {A = Result Error ℕ × Primary S}
              (elim r.0 [
                | err e ↦ (err e, record p { local = r.1 })
                | ok u ↦ replicate_entry replica_of entry r.1 p
              ])
              (ok o, p')
          → (o ≡ entry.offset) × Replicated entry p
      from (err e, s) made same = ground arith
      from (ok u, s) made same =
          elim (Bool-cases (
            ltb (1 + acknowledged (append_peers replica_of entry p.peers))
              ((length p.peers + 1) / 2 + 1))) [
                | inl t ↦ absurd_err (rw t at same)
                | inr f ↦
                    let (offset, done) = commit_entry-ok entry.offset o s _ p p' (rw f at same) in
                    (
                      offset,
                      record {
                        local = s;
                        appended = made;
                        majority = ground arith;
                        committed = done;
                      },
                    )
              ]

  -- A `Write` that answers an offset had the lease when it began; the offset is the one behind the
  -- local replica's last, the local replica has appended and committed the entry, and a majority of
  -- all replicas has acknowledged it.
  pub write-Replicated :
      (now o : ℕ) (e : Election) (m : Mutation) (p p' : Primary S)
      → write replica_of now e m p ≡ (ok o, p')
      → (validate now p.node_id p.term e ≡ ok tt)
        × ((s : Status) × (replica_of.status p.local ≡ ok s)
            × (o ≡ s.applied_offset + 1)
            × Replicated (record { offset = s.applied_offset + 1; mutation = m }) p)
  unfolding write write_at
  write-Replicated now o e m p p' h = validated (validate now p.node_id p.term e) refl h
    where
      Outcome : Type 0
      Outcome =
          (s : Status) × (replica_of.status p.local ≡ ok s)
          × (o ≡ s.applied_offset + 1)
          × Replicated (record { offset = s.applied_offset + 1; mutation = m }) p

      known :
          (r : Result Error Status)
          → replica_of.status p.local ≡ r
          → write_at replica_of r m p ≡ (ok o, p')
          → Outcome
      known (err x) made same = absurd_err same
      known (ok s) made same = elim (Bool-cases (s.applied_offset == 2 ^ 64 - 1)) [
        | inl t ↦ absurd_err (rw t at same)
        | inr f ↦
            let entry : Entry = record { offset = s.applied_offset + 1; mutation = m } in
            let (offset, done) = write_entry-ok entry o p p' (rw f at same) in
            (s, made, offset, done)
      ]

      validated :
          (r : Result E.Error (Unit {0}))
          → validate now p.node_id p.term e ≡ r
          → ◌≡◌ {A = Result Error ℕ × Primary S}
              (elim r [
                | err x ↦ (err not_leader, p)
                | ok u ↦ write_at replica_of (replica_of.status p.local) m p
              ])
              (ok o, p')
          → (validate now p.node_id p.term e ≡ ok tt) × Outcome
      validated (err x) made same = absurd_err same
      validated (ok u) made same = (made, known (replica_of.status p.local) refl same)
