-- ===== src/Engine/Recovery.antt =====
-- What a restart of a search node makes of the file of a collection's log.
use private_mesh.Prelude.{
  ℕ, zero, suc, ◌+◌, ◌-◌, ◌≤◌, ◌≡◌, refl, ap, ◌∙◌, true, false, List, [], ◌∷◌, ◌++◌, length,
  if◌then◌else◌, some, Result, ok, err, Bool-cases, inl, inr, arith, take, All, either_branch,
}
use private_mesh.Text.{Text, trim_space, is_empty}
use private_mesh.Text.Maps.{Map, put, remove}
use private_mesh.Document.{Mutation}
use private_mesh.Wal.Scan.{Entry}
use private_mesh.Wal.Scan.Items.{Item, appends, commits, IsValid, entries_of, committed_of}
use private_mesh.Wal.Log.{Log}
use private_mesh.Wal.Log.Spec.{state, file, healthy, IsLog}
use private_mesh.Wal.Log.Crash.{at_rest}
use private_mesh.Wal.Record.RoundTrip.{stored}
use private_mesh.Wal.Log.Recovery.{open_log_after_crash, replayed}
use private_mesh.Wal.Log.Reads.{replay-state}
use private_mesh.Wal.Disk.{Disk}
use private_mesh.Search.Index.{upsert}
use private_mesh.Engine.Interfaces.{Parts, Error}
use private_mesh.Engine.{
  Engine, Stored, stored_of, apply, apply_document, index_document, record_document,
  remove_document, recover, new_engine, replay_into, open_engine,
}

-- The documents that mutations leave.
unfoldable pub documents_of : List Entry → Map Stored → Map Stored
documents_of [] documents = documents
documents_of (entry ∷ entries) documents = documents_of entries (
    if entry.mutation.deleted
    then remove entry.mutation.document.id documents
    else put entry.mutation.document.id (stored_of entry.mutation) documents)

unfoldable pub offset_of : List Entry → ℕ → ℕ
offset_of [] offset = offset
offset_of (entry ∷ entries) offset = offset_of entries entry.sequence

abbrev HasId : Entry → Type 0
HasId entry = is_empty (trim_space entry.mutation.document.id) ≡ false

stored-HasId :
    (m : Mutation)
    → is_empty (trim_space m.document.id) ≡ false
    → is_empty (trim_space (stored m).document.id) ≡ false
stored-HasId m h =
    either_branch (λ (x : Mutation). is_empty (trim_space x.document.id) ≡ false) m.deleted _ _ h h

entries_of-HasId :
    (last committed : ℕ) (items : List Item)
    → IsValid last committed items
    → All HasId (entries_of last items)
entries_of-HasId last c [] v = tt
entries_of-HasId last c (appends m ∷ items) (can, fits, v) =
    (stored-HasId m can.has_id, entries_of-HasId (last + 1) c items v)
entries_of-HasId last c (commits c' ∷ items) (above, below, fits, v) =
    entries_of-HasId last c' items v

take-All : {A : Type 0} (P : A → Type 0) (n : ℕ) (xs : List A) → All P xs → All P (take n xs)
take-All P zero xs h = tt
take-All P (suc n) [] h = tt
take-All P (suc n) (x ∷ xs) h = (h.0, take-All P n xs h.1)

-- An embedder and a vector index that never fail.
pub record IsWorking {Vector Vectors Score : Type 0} (parts : Parts Vector Vectors Score)
    : Type 0 where
  pub embeds :
      (now : ℕ) (text : Text) → (v : Vector) × (parts.embed now (text ∷ []) ≡ some (v ∷ []))
  pub stores :
      (id : Text) (v : Vector) (vectors : Vectors)
      → (vectors' : Vectors) × (parts.upsert_vector id v vectors ≡ (true, vectors'))

module _ {Vector Vectors Score : Type 0} (parts : Parts Vector Vectors Score) where
  -- An engine with these documents, this log and this offset.
  pub record HasState (e : Engine Vectors) (l : Log) (documents : Map Stored) (offset : ℕ)
      : Type 0 where
    pub same_log : e.log ≡ l
    pub same_documents : e.documents ≡ documents
    pub same_offset : e.offset ≡ offset

  recover-cons :
      (clock : ℕ → ℕ) (entry : Entry) (entries : List Entry) (e e' : Engine Vectors)
      → apply parts (clock entry.sequence) entry.mutation e ≡ (ok tt, e')
      → recover parts clock (entry ∷ entries) e
        ≡ recover parts clock entries (record e' { offset = entry.sequence })
  unfolding recover
  recover-cons clock entry entries e e' applied =
      ap
        (λ (x : Result Error (Unit {0}) × Engine Vectors). elim x.0 [
          | err y ↦ err y
          | ok u ↦ recover parts clock entries (record x.1 { offset = entry.sequence })
        ])
        applied

  module _ (working : IsWorking parts) where
    index_document-ok :
        (document : Stored) (v : Vector) (e : Engine Vectors)
        → is_empty (trim_space document.id) ≡ false
        → (e' : Engine Vectors) × (index_document parts document (v ∷ []) e ≡ (ok tt, e'))
          × HasState e' e.log (put document.id document e.documents) e.offset
    unfolding index_document record_document upsert
    index_document-ok document v e has_id =
        let (vectors', stores) = working.stores document.id v e.vectors in
        rw (has_id, stores, index_document, record_document, upsert)
          (_, refl, record { same_log = refl; same_documents = refl; same_offset = refl })

    apply-ok :
        (now : ℕ) (m : Mutation) (e : Engine Vectors)
        → is_empty (trim_space m.document.id) ≡ false
        → (e' : Engine Vectors) × (apply parts now m e ≡ (ok tt, e'))
          × HasState e' e.log
              (if m.deleted
                then remove m.document.id e.documents
                else put m.document.id (stored_of m) e.documents)
              e.offset
    unfolding apply apply_document remove_document
    apply-ok now m e has_id = elim (Bool-cases m.deleted) [
      | inl t ↦
          rw t (_, refl, record { same_log = refl; same_documents = refl; same_offset = refl })
      | inr f ↦
          let (v, embeds) = working.embeds now (m.document.title ++ (10 ∷ m.document.body)) in
          rw (f, embeds, apply_document) (index_document-ok (stored_of m) v e has_id)
    ]

    recover-ok :
        (clock : ℕ → ℕ) (entries : List Entry) (e : Engine Vectors)
        → All HasId entries
        → (e' : Engine Vectors) × (recover parts clock entries e ≡ ok e')
          × HasState e' e.log (documents_of entries e.documents) (offset_of entries e.offset)
    unfolding recover documents_of offset_of
    recover-ok clock [] e h =
        (e, refl, record { same_log = refl; same_documents = refl; same_offset = refl })
    recover-ok clock (entry ∷ entries) e h =
        let (e1, applied, a) = apply-ok (clock entry.sequence) entry.mutation e h.0 in
        let (e2, recovered, b) =
          recover-ok clock entries (record e1 { offset = entry.sequence }) h.1 in
        (
          e2,
          recover-cons clock entry entries e e1 applied ∙ recovered,
          record {
            same_log = b.same_log ∙ a.same_log;
            same_documents = b.same_documents ∙ ap (documents_of entries) a.same_documents;
            same_offset = b.same_offset;
          },
        )

    replay_into-ok :
        (clock : ℕ → ℕ) (collection : Text) (vectors : Vectors) (base : ℕ) (items : List Item)
        → IsLog base items
        → (e : Engine Vectors) × (replay_into parts clock collection [] vectors
              (state base items)
              (healthy (file base items) (file base items))
            ≡ (ok e, healthy (file base items) (file base items)))
          × HasState e
              (state base items)
              (documents_of (take (committed_of base items - base) (entries_of base items)) [])
              (offset_of (take (committed_of base items - base) (entries_of base items)) 0)
    unfolding replay_into
    replay_into-ok clock collection vectors base items valid =
        let entries = take (committed_of base items - base) (entries_of base items) in
        let (e, recovered, same) =
          recover-ok clock entries (new_engine collection vectors (state base items))
            (take-All HasId _ (entries_of base items) (entries_of-HasId base base items valid.1)) in
        (e, ground (arith, replay-state base items (file base items) valid, recovered), same)

    -- If the embedder and the vector index never fail, a restart loses no committed mutation: let the
    -- log's file hold records up to a commit of `c`, made durable by it, and any valid records
    -- behind them, and let a crash cut the file anywhere behind the commit. Then `Open` of the
    -- collection succeeds, its log stands for those records and the whole ones left behind them, and
    -- its documents are those that the mutations in all these records, in order, through their last
    -- commit leave; the first of these mutations are those through `c`. Its offset is the sequence
    -- of the last of them.
    pub open_engine_after_crash :
        (clock : ℕ → ℕ) (collection directory : Text) (vectors : Vectors) (base c k : ℕ)
        (items pending : List Item)
        → is_empty (trim_space collection) ≡ false
        → is_empty (trim_space directory) ≡ false
        → is_empty (trim_space (parts.log_path (trim_space directory) (trim_space collection)))
          ≡ false
        → parts.new_vectors ≡ some vectors
        → IsLog base ((items ++ (commits c ∷ [])) ++ pending)
        → length (file base (items ++ (commits c ∷ []))) ≤ k
        → (e : Engine Vectors) × (d : Disk) × (kept : List Item) × (lost : List Item) × (more : List
            Entry)
          × (pending ≡ kept ++ lost)
          × (open_engine parts clock [] collection directory
                (at_rest (take k (file base ((items ++ (commits c ∷ [])) ++ pending))))
              ≡ (ok e, d))
          × (e.log ≡ state base ((items ++ (commits c ∷ [])) ++ kept))
          × (take
                (committed_of base ((items ++ (commits c ∷ [])) ++ kept) - base)
                (entries_of base ((items ++ (commits c ∷ [])) ++ kept))
              ≡ take (c - base) (entries_of base items) ++ more)
          × (e.documents
              ≡ documents_of
                  (take
                    (committed_of base ((items ++ (commits c ∷ [])) ++ kept) - base)
                    (entries_of base ((items ++ (commits c ∷ [])) ++ kept)))
                  [])
          × (e.offset
              ≡ offset_of
                  (take
                    (committed_of base ((items ++ (commits c ∷ [])) ++ kept) - base)
                    (entries_of base ((items ++ (commits c ∷ [])) ++ kept)))
                  0)
    unfolding open_engine
    open_engine_after_crash clock collection directory vectors base c k items pending has_id
          has_directory has_path made valid far =
        let safe = items ++ (commits c ∷ []) in
        let (kept, lost, splits, kept_valid, opens) =
          open_log_after_crash (parts.log_path (trim_space directory) (trim_space collection)) base
            k safe pending has_path valid far in
        let (e, replays, same) =
          replay_into-ok clock (trim_space collection) vectors base (safe ++ kept) kept_valid in
        let (more, front) = replayed base c items kept kept_valid in
        (
          e,
          healthy (file base (safe ++ kept)) (file base (safe ++ kept)),
          kept,
          lost,
          more,
          splits,
          ground (arith, has_id, has_directory, made, opens, replays),
          same.same_log,
          front,
          same.same_documents,
          same.same_offset,
        )
