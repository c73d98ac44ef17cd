-- ===== src/Replication.antt =====
-- internal/replication/protocol.go: quorum writes and catching up. A replica is an object of an
-- interface: its methods are parameters, functions of its state. The peers of a primary are distinct
-- objects, so the order in which their acknowledgments come in does not matter. The context that the
-- methods take is left to them.
pub mod Quorum
pub mod Unchanged
pub mod Fenced
mod Tests
use private_mesh.Prelude.{
  Option, none, some, ℕ, zero, suc, ◌+◌, ◌-◌, ◌/◌, ◌^◌, ◌==◌, Bool, true, false, List, [], ◌∷◌,
  length, ltb, leb, if◌then◌else◌, Result, ok, err, Option, some,
}
use private_mesh.Text.{Text}
use private_mesh.Document.{Document, Mutation}
use private_mesh.Election.{Election, validate}

pub record Entry : Type 0 where
  pub offset : ℕ
  pub mutation : Mutation

pub record Status : Type 0 where
  pub applied_offset : ℕ
  pub committed_offset : ℕ

pub record Snapshot : Type 0 where
  pub offset : ℕ
  pub documents : List Document

-- `replica` is any failure that a replica answers.
pub data Error : Type 0 where
  not_leader offset_exhausted quorum_unavailable target_ahead replica : Error

-- `Replica`: each method answers and leaves a state. `entries` answers `none` where the entries are
-- not available any more.
pub record Replica (S : Type 0) : Type 0 where
  pub append : Entry → S → Result Error (Unit {0}) × S
  pub commit : ℕ → S → Result Error (Unit {0}) × S
  pub rollback : ℕ → S → Result Error (Unit {0}) × S
  pub status : S → Result Error Status
  pub entries : ℕ → S → Result Error (Option (List Entry))
  pub snapshot : S → Result Error Snapshot
  pub install_snapshot : Snapshot → S → Result Error (Unit {0}) × S

pub record Primary (S : Type 0) : Type 0 where
  pub node_id : Text
  pub term : ℕ
  pub local : S
  pub peers : List S

abbrev pub succeeded : Result Error (Unit {0}) → Bool
succeeded (ok u) = true
succeeded (err e) = false

module _ {S : Type 0} where
  unfoldable pub acknowledged : List (Bool × S) → ℕ
  acknowledged [] = 0
  acknowledged ((true, s) ∷ peers) = suc (acknowledged peers)
  acknowledged ((false, s) ∷ peers) = acknowledged peers

  -- A call, whose error is dropped, on those that have acknowledged.
  unfoldable pub on_acknowledged : (S → Result Error (Unit {0}) × S) → List (Bool × S) → List S
  on_acknowledged f [] = []
  on_acknowledged f ((true, s) ∷ peers) = (f s).1 ∷ on_acknowledged f peers
  on_acknowledged f ((false, s) ∷ peers) = s ∷ on_acknowledged f peers

  unfoldable pub states : List (Bool × S) → List S
  states [] = []
  states ((b, s) ∷ peers) = s ∷ states peers

  unfoldable pub quorum : Primary S → ℕ
  quorum p = (length p.peers + 1) / 2 + 1

module _ {S : Type 0} (replica_of : Replica S) where
  -- The appends at the peers: whether each has acknowledged, and its state then.
  unfoldable pub append_peers : Entry → List S → List (Bool × S)
  append_peers entry [] = []
  append_peers entry (s ∷ peers) =
      let (r, s') = replica_of.append entry s in (succeeded r, s') ∷ append_peers entry peers

  -- The commits, with the quorum reached.
  unfoldable pub commit_entry : ℕ → S → List (Bool × S) → Primary S → Result Error ℕ × Primary S
  commit_entry offset local peers p =
      let (r, local') = replica_of.commit offset local in
      elim r [
        | err e ↦ (err e, record p { local = local'; peers = states peers })
        | ok u ↦ (
          ok offset,
          record p { local = local'; peers = on_acknowledged (replica_of.commit offset) peers },
        )
      ]

  -- `Write` behind the append at the local replica.
  unfoldable pub replicate_entry : Entry → S → Primary S → Result Error ℕ × Primary S
  replicate_entry entry local p =
      let peers = append_peers entry p.peers in
      if ltb (1 + acknowledged peers) (quorum p)
      then (
        err quorum_unavailable,
        record p {
          local = (replica_of.rollback entry.offset local).1;
          peers = on_acknowledged (replica_of.rollback entry.offset) peers;
        },
      )
      else commit_entry entry.offset local peers p

  -- `Write` behind the status of the local replica.
  unfoldable pub write_entry : Entry → Primary S → Result Error ℕ × Primary S
  write_entry entry p =
      let (r, local) = replica_of.append entry p.local in
      elim r [ err e ↦ (err e, record p { local = local }) | ok u ↦ replicate_entry entry local p ]

  unfoldable pub write_at : Result Error Status → Mutation → Primary S → Result Error ℕ × Primary S
  write_at (err e) m p = (err e, p)
  write_at (ok s) m p =
      if s.applied_offset == 2 ^ 64 - 1
      then (err offset_exhausted, p)
      else write_entry (record { offset = s.applied_offset + 1; mutation = m }) p

  -- `Write` at the clock reading `now`, under the state of the election then.
  unfoldable pub write : ℕ → Election → Mutation → Primary S → Result Error ℕ × Primary S
  write now e m p = elim (validate now p.node_id p.term e) [
    | err x ↦ (err not_leader, p)
    | ok u ↦ write_at (replica_of.status p.local) m p
  ]

  -- The loop of `CatchUp`.
  unfoldable pub append_through : ℕ → List Entry → S → Result Error (Unit {0}) × S
  append_through committed [] target = (ok tt, target)
  append_through committed (entry ∷ entries) target =
      if ltb committed entry.offset
      then (ok tt, target)
      else (let (r, target') = replica_of.append entry target in
          elim r [ err e ↦ (err e, target') | ok u ↦ append_through committed entries target' ])

  -- `CatchUp` behind the rollback, by what the source has.
  unfoldable pub transfer :
      Result Error (Option (List Entry)) → ℕ → S → S → Result Error (Unit {0}) × S
  transfer (err e) committed source target = (err e, target)
  transfer (ok none) committed source target = elim (replica_of.snapshot source) [
    | err e ↦ (err e, target)
    | ok snapshot ↦ replica_of.install_snapshot snapshot target
  ]
  transfer (ok (some entries)) committed source target =
      let (r, target') = append_through committed entries target in
      elim r [ err e ↦ (err e, target') | ok u ↦ replica_of.commit committed target' ]

  unfoldable pub roll_back_pending : Status → S → Result Error (Unit {0}) × S
  roll_back_pending s target =
      if ltb s.committed_offset s.applied_offset
      then replica_of.rollback (s.committed_offset + 1) target
      else (ok tt, target)

  unfoldable pub catch_up_from : Status → Status → S → S → Result Error (Unit {0}) × S
  catch_up_from from to source target =
      if ltb from.committed_offset to.committed_offset
      then (err target_ahead, target)
      else if to.committed_offset == from.committed_offset
      then (ok tt, target)
      else (let (r, target') = roll_back_pending to target in
          elim r [
            | err e ↦ (err e, target')
            | ok u ↦
                transfer (replica_of.entries to.committed_offset source) from.committed_offset
                  source target'
          ])

  -- The state that `CatchUp` leaves the target in.
  unfoldable pub catch_up : S → S → Result Error (Unit {0}) × S
  catch_up source target = elim (replica_of.status source) [
    | err e ↦ (err e, target)
    | ok from ↦ elim (replica_of.status target) [
      | err e ↦ (err e, target)
      | ok to ↦ catch_up_from from to source target
    ]
  ]
