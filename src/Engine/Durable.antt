-- ===== src/Engine/Durable.antt =====
-- `Upsert` and `Delete` of the engine on a healthy log.
use private_mesh.Prelude.{
  ℕ, ◌+◌, ◌^◌, ◌<◌, ◌≡◌, refl, ap, ◌∙◌, false, List, [], ◌∷◌, ◌++◌, Result, ok, err, arith,
}
use private_mesh.Text.{Text, trim_space, is_empty}
use private_mesh.Text.Maps.{put, remove}
use private_mesh.Document.{Mutation}
use private_mesh.Wal.Record.RoundTrip.{CanStore}
use private_mesh.Wal.Disk.{Disk}
use private_mesh.Wal.Scan.Items.{Item, appends, commits, last_of}
use private_mesh.Wal.Log.{Log, append, trimmed}
use private_mesh.Wal.Log.Spec.{
  state, file, healthy, IsLog, last_of-append, committed_of-append, committed_bounds,
}
use private_mesh.Wal.Log.Writes.{append-state, commit-state}
use private_mesh.Engine.Interfaces.{Parts, Error}
use private_mesh.Engine.{
  Engine, Outcome, Stored, log_mutation, finish, after_append, after_commit, apply_document,
  upsert_document, delete_document, remove_document, with_media_type,
}
use private_mesh.Engine.Recovery.{HasState}
use private_mesh.Engine.Applied.{IsApplied, apply_document-IsApplied}

-- The records of a log behind a mutation and its commit.
abbrev pub logged : ℕ → List Item → Mutation → List Item
logged base items m =
    (items ++ (appends (trimmed m) ∷ [])) ++ (commits (last_of base items + 1) ∷ [])

module _ {Vectors : Type 0} (base : ℕ) (items : List Item) (m : Mutation) where
  -- `Append` and `Commit` of a mutation that fits a record, on an engine with a healthy log.
  log_mutation-state :
      (change : ℕ → Engine Vectors → Result Error (Unit {0}) × Engine Vectors) (e : Engine Vectors)
      (durable : Text)
      → e.log ≡ state base items
      → IsLog base items
      → CanStore (trimmed m)
      → last_of base items + 1 < 2 ^ 64
      → (log_mutation m change e (healthy (file base items) durable)
          ≡ finish
              (last_of base items + 1)
              (healthy (file base (logged base items m)) (file base (logged base items m)))
              (change
                (last_of base items + 1)
                (record e { log = state base (logged base items m) })))
        × IsLog base (logged base items m)
  unfolding log_mutation after_append after_commit
  log_mutation-state change e durable opened valid can fits =
      let appended = append-state base items m durable valid can fits in
      let committed =
        commit-state base (items ++ (appends (trimmed m) ∷ [])) (last_of base items + 1) durable
          appended.1
          (omega (
            arith,
            committed_of-append base items (appends (trimmed m) ∷ []),
            committed_bounds base base items (omega arith) valid.1,
          ))
          (omega (arith, last_of-append base items (appends (trimmed m) ∷ []))) fits in
      (
        ap (λ l. after_append change e (append m l (healthy (file base items) durable))) opened
            ∙ ap (after_append change e) appended.0
            ∙ ap (after_commit change (last_of base items + 1) e) committed.0,
        committed.1,
      )

-- The mutations of `Upsert` and of `Delete`.
abbrev pub upsertion : Stored → Mutation
upsertion document =
    private_mesh.Document.upsert
      (record { id = trim_space document.id; title = document.title; body = document.content })

abbrev pub deletion : Text → Mutation
deletion id = private_mesh.Document.delete (trim_space id)

-- The document that `Upsert` keeps of its argument.
abbrev pub accepted : Stored → Stored
accepted document = record document {
  id = trim_space document.id;
  media_type = with_media_type (trim_space document.media_type);
}

module _ {Vector Vectors Score : Type 0} (parts : Parts Vector Vectors Score) where
  -- The outcome of `Upsert`, by that of the change of the indexes: `l` and `d` are the log and its
  -- file behind the commit.
  abbrev pub IsUpserted :
      ℕ
      → Log
      → Disk
      → Stored
      → Engine Vectors
      → Result Error (Unit {0}) × Engine Vectors
      → Outcome Vectors ℕ
      → Type 0
  IsUpserted sequence l d document e (ok u, e') outcome =
      (outcome ≡ (ok sequence, record e' { offset = sequence }, d))
      × HasState parts (record e' { offset = sequence }) l (put document.id document e.documents)
          sequence
  IsUpserted sequence l d document e (err x, e') outcome =
      (outcome ≡ (err x, e', d)) × HasState parts e' l e.documents e.offset

  finish-IsUpserted :
      (sequence : ℕ) (l : Log) (d : Disk) (document : Stored) (e : Engine Vectors)
      (changed : Result Error (Unit {0}) × Engine Vectors)
      → IsApplied parts document (record e { log = l }) changed
      → IsUpserted sequence l d document e changed (finish sequence d changed)
  unfolding finish IsApplied
  finish-IsUpserted sequence l d document e (ok u, e') h = (
    refl,
    record { same_log = h.same_log; same_documents = h.same_documents; same_offset = refl },
  )
  finish-IsUpserted sequence l d document e (err x, e') h = (refl, h)

  -- `Upsert` and `Delete` with an ID that is not blank and a mutation that fits a record, on an engine
  -- with a healthy log. The log and its file then stand for the old records with the mutation and
  -- its commit behind them, and all of the file is durable. If the change of the indexes succeeds,
  -- as that of `Delete` does, the answer is the next sequence, which is the new offset, and the
  -- document is put or removed. If it fails, its error is the answer, the documents and the offset
  -- are as before, and the mutation is durable all the same.
  pub writes_commit :
      (base : ℕ) (items : List Item) (now : ℕ) (document : Stored) (id : Text) (e : Engine Vectors)
      (durable : Text)
      → e.log ≡ state base items
      → IsLog base items
      → last_of base items + 1 < 2 ^ 64
      → is_empty (trim_space document.id) ≡ false
      → CanStore (trimmed (upsertion document))
      → is_empty (trim_space id) ≡ false
      → CanStore (trimmed (deletion id))
      → IsUpserted
          (last_of base items + 1)
          (state base (logged base items (upsertion document)))
          (healthy
            (file base (logged base items (upsertion document)))
            (file base (logged base items (upsertion document))))
          (accepted document)
          e
          (apply_document parts now
            (accepted document)
            (record e { log = state base (logged base items (upsertion document)) }))
          (upsert_document parts now document e (healthy (file base items) durable))
        × IsLog base (logged base items (upsertion document))
        × ((e' : Engine Vectors) × (delete_document parts id e (healthy (file base items) durable)
              ≡ (
                ok (last_of base items + 1),
                e',
                healthy
                    (file base (logged base items (deletion id)))
                    (file base (logged base items (deletion id))),
              ))
            × HasState parts e'
                (state base (logged base items (deletion id)))
                (remove (trim_space id) e.documents)
                (last_of base items + 1))
        × IsLog base (logged base items (deletion id))
  unfolding upsert_document delete_document remove_document finish
  writes_commit base items now document id e durable opened valid fits named can named' can' =
      let (upserts, valid1) =
        log_mutation-state base items (upsertion document)
          (λ sequence. apply_document parts now (accepted document)) e durable opened valid can
          fits in
      let (deletes, valid2) =
        log_mutation-state base items (deletion id)
          (λ sequence e'. (ok tt, remove_document parts (trim_space id) e')) e durable opened valid
          can' fits in
      (
        rw (named, upsert_document, upserts)
            (finish-IsUpserted (last_of base items + 1)
              (state base (logged base items (upsertion document)))
              (healthy (file base (logged base items (upsertion document)))
                (file base (logged base items (upsertion document))))
              (accepted document) e _ (apply_document-IsApplied parts now (accepted document) _)),
        valid1,
        (
          record (remove_document parts (trim_space id)
              (record e { log = state base (logged base items (deletion id)) })) {
                offset = last_of base items + 1;
              },
          rw (named', delete_document) deletes,
          record { same_log = refl; same_documents = refl; same_offset = refl },
        ),
        valid2,
      )
