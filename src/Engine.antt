-- ===== src/Engine.antt =====
-- internal/searchnode/engine.go: the data of a collection engine and the operations that change it.
-- The log, the lexical index and the enforcer are those of Wal, Search and Authorization; Interfaces
-- has what the engine takes from elsewhere.
pub mod Interfaces
pub mod Query
pub mod Recovery
pub mod Answers
pub mod Applied
pub mod Durable
pub mod Sample
mod Tests
use private_mesh.Prelude.{
  ℕ, Bool, List, [], ◌∷◌, ◌++◌, Option, none, some, Result, ok, err, if◌then◌else◌, ◌||◌,
}
use private_mesh.Text.{Text, trim_space, is_empty, ascii}
use private_mesh.Text.Maps.{Map, put, remove}
use private_mesh.Document.{Mutation}
use private_mesh.Wal.Scan.{Entry}
use private_mesh.Wal.Disk.{Disk, close_file}
use private_mesh.Wal.Log.{Log, open_log, append, commit, replay, close}
use private_mesh.Search.Index.{Index, new_index, upsert, delete}
use private_mesh.Engine.Interfaces.{
  Error, Parts, collection_required, id_required, embedding_failed, unexpected_vectors,
  vectors_failed, log_failed, lexical_failed,
}

-- The `Document` of the engine.
pub record Stored : Type 0 where
  pub id : Text
  pub title : Text
  pub content : Text
  pub media_type : Text

abbrev pub default_media_type : Text
default_media_type = ascii "text/plain; charset=utf-8"

-- `Engine`; `Vectors` is the vector index.
pub record Engine (Vectors : Type 0) : Type 0 where
  pub collection_id : Text
  pub log : Log
  pub lexical : Index
  pub vectors : Vectors
  pub documents : Map Stored
  pub offset : ℕ

-- The result of a method, the engine and the file of its log.
abbrev pub Outcome : Type 0 → Type 0 → Type 0
Outcome Vectors A = Result Error A × Engine Vectors × Disk

-- The document that `apply` makes of a mutation, whose media type the log does not have.
abbrev pub stored_of : Mutation → Stored
stored_of m = record {
  id = m.document.id;
  title = m.document.title;
  content = m.document.body;
  media_type = default_media_type;
}

unfoldable pub with_media_type : Text → Text
with_media_type media_type = if is_empty media_type then default_media_type else media_type

-- `log.Close()`, whose error is dropped.
unfoldable pub close_after : {A : Type 0} → Error → Log → Disk → Result Error A × Disk
close_after x l d = let (r, l', d') = close l d in (err x, d')

module _ {Vectors : Type 0} where
  abbrev pub new_engine : Text → Vectors → Log → Engine Vectors
  new_engine collection vectors l = record {
    collection_id = collection;
    log = l;
    lexical = new_index;
    vectors = vectors;
    documents = [];
    offset = 0;
  }

  -- The end of `Upsert` and of `Delete`, by the outcome of the change of the indexes.
  unfoldable pub finish : ℕ → Disk → Result Error (Unit {0}) × Engine Vectors → Outcome Vectors ℕ
  finish sequence d (ok u, e) = (ok sequence, record e { offset = sequence }, d)
  finish sequence d (err x, e) = (err x, e, d)

  -- What follows `Commit`, and what follows `Append`; `change` is the change of the indexes.
  unfoldable pub after_commit :
      (ℕ → Engine Vectors → Result Error (Unit {0}) × Engine Vectors)
      → ℕ
      → Engine Vectors
      → Result private_mesh.Wal.Error.Error (Unit {0}) × Log × Disk
      → Outcome Vectors ℕ
  after_commit change sequence e (err x, l, d) = (err (log_failed x), record e { log = l }, d)
  after_commit change sequence e (ok u, l, d) =
      finish sequence d (change sequence (record e { log = l }))

  unfoldable pub after_append :
      (ℕ → Engine Vectors → Result Error (Unit {0}) × Engine Vectors)
      → Engine Vectors
      → Result private_mesh.Wal.Error.Error ℕ × Log × Disk
      → Outcome Vectors ℕ
  after_append change e (err x, l, d) = (err (log_failed x), record e { log = l }, d)
  after_append change e (ok sequence, l, d) = after_commit change sequence e (commit sequence l d)

  -- `Append` and `Commit` of a mutation, and the change of the indexes.
  unfoldable pub log_mutation :
      Mutation
      → (ℕ → Engine Vectors → Result Error (Unit {0}) × Engine Vectors)
      → Engine Vectors
      → Disk
      → Outcome Vectors ℕ
  log_mutation m change e d = after_append change e (append m e.log d)

  unfoldable pub close_engine : Engine Vectors → Disk → Outcome Vectors (Unit {0})
  close_engine e d =
      let (r, l, d') = close e.log d in
      elim r [
        | ok u ↦ (ok tt, record e { log = l }, d')
        | err x ↦ (err (log_failed x), record e { log = l }, d')
      ]

module _ {Vector Vectors Score : Type 0} (parts : Parts Vector Vectors Score) where
  -- The end of `applyDocument`, by the answer of the vector index.
  unfoldable pub record_document :
      Stored → Bool × Vectors → Engine Vectors → Result Error (Unit {0}) × Engine Vectors
  record_document document (stored, vectors) e =
      if stored
      then (ok tt, record e { vectors = vectors; documents = put document.id document e.documents })
      else (err vectors_failed, record e { vectors = vectors })

  -- `applyDocument` behind the embedding, of the vectors that it answers.
  unfoldable pub index_document :
      Stored → List Vector → Engine Vectors → Result Error (Unit {0}) × Engine Vectors
  index_document document [] e = (err unexpected_vectors, e)
  index_document document (v ∷ w ∷ more) e = (err unexpected_vectors, e)
  index_document document (v ∷ []) e =
      let (r, lexical) =
        upsert parts.tokenize
          (record { id = document.id; title = document.title; body = document.content })
          e.lexical in
      elim r [
        | err x ↦ (err (lexical_failed x), record e { lexical = lexical })
        | ok u ↦
            record_document document (parts.upsert_vector document.id v e.vectors)
              (record e { lexical = lexical })
      ]

  unfoldable pub apply_document :
      ℕ → Stored → Engine Vectors → Result Error (Unit {0}) × Engine Vectors
  apply_document now document e =
      elim (parts.embed now ((document.title ++ (10 ∷ document.content)) ∷ [])) [
        | none ↦ (err embedding_failed, e)
        | some vectors ↦ index_document document vectors e
      ]

  unfoldable pub remove_document : Text → Engine Vectors → Engine Vectors
  remove_document id e = record e {
    lexical = (delete id e.lexical).1;
    vectors = parts.delete_vector id e.vectors;
    documents = remove id e.documents;
  }

  unfoldable pub apply : ℕ → Mutation → Engine Vectors → Result Error (Unit {0}) × Engine Vectors
  apply now m e =
      if m.deleted
      then (ok tt, remove_document m.document.id e)
      else apply_document now (stored_of m) e

  -- The loop of `Open`; `clock` is the clock reading at the entry of a sequence.
  unfoldable pub recover : (ℕ → ℕ) → List Entry → Engine Vectors → Result Error (Engine Vectors)
  recover clock [] e = ok e
  recover clock (entry ∷ entries) e =
      let (r, e') = apply (clock entry.sequence) entry.mutation e in
      elim r [
        | err x ↦ err x
        | ok u ↦ recover clock entries (record e' { offset = entry.sequence })
      ]

  -- `Open` behind wal.Open.
  unfoldable pub replay_into :
      (ℕ → ℕ) → Text → List Bool → Vectors → Log → Disk → Result Error (Engine Vectors) × Disk
  replay_into clock collection polls vectors l d =
      let (r, l', d') = replay polls l d in
      elim r [
        | err x ↦ close_after (log_failed x) l' d'
        | ok entries ↦ elim (recover clock entries (new_engine collection vectors l')) [
          | err x ↦ close_after x l' d'
          | ok e ↦ (ok e, d')
        ]
      ]

  -- `Open` with an embedder and an authorizer, on the file of the collection's log.
  unfoldable pub open_engine :
      (ℕ → ℕ) → List Bool → Text → Text → Disk → Result Error (Engine Vectors) × Disk
  open_engine clock polls collection directory d =
      let id = trim_space collection in
      let folder = trim_space directory in
      if is_empty id || is_empty folder
      then (err collection_required, d)
      else elim parts.new_vectors [
        | none ↦ (err vectors_failed, d)
        | some vectors ↦
            let (r, d') = open_log (parts.log_path folder id) d in
            elim r [
              | err x ↦ (err (log_failed x), d')
              | ok l ↦ replay_into clock id polls vectors l d'
            ]
      ]

  unfoldable pub upsert_document : ℕ → Stored → Engine Vectors → Disk → Outcome Vectors ℕ
  upsert_document now document e d =
      let id = trim_space document.id in
      let trimmed : Stored = record document {
        id = id;
        media_type = with_media_type (trim_space document.media_type);
      } in
      if is_empty id
      then (err id_required, e, d)
      else log_mutation
          (private_mesh.Document.upsert
            (record { id = id; title = document.title; body = document.content }))
          (λ sequence. apply_document now trimmed) e d

  unfoldable pub delete_document : Text → Engine Vectors → Disk → Outcome Vectors ℕ
  delete_document document_id e d =
      let id = trim_space document_id in
      if is_empty id
      then (err id_required, e, d)
      else log_mutation (private_mesh.Document.delete id)
          (λ sequence e'. (ok tt, remove_document id e')) e d
