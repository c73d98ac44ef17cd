-- ===== src/Segment/Store.antt =====
-- internal/segment/store.go: the segments of one directory. `tokenize` and `digest` are those of Codec,
-- and the random name of a temporary file is an argument. The mutex makes each method one step.
pub mod Merging
pub mod Kept
pub mod Steps
pub mod Compacting
use private_mesh.Prelude.{
  ℕ, ◌+◌, ◌%◌, ◌^◌, Bool, true, false, List, [], ◌∷◌, map, length, ltb, leb, if◌then◌else◌, Result,
  ok, err,
}
use private_mesh.Text.{Text, text_eq, text_lt, trim_space, is_empty}
use private_mesh.Text.Maps.{Map, put, remove}
use private_mesh.Document.{Document, Mutation}
use private_mesh.Segment.Codec.{
  Error, Record, FileSegment, invalid, io, directory_required, no_mutations, bad_limit,
}
use private_mesh.Segment.Codec.Write.{encode_segment}
use private_mesh.Segment.Codec.Read.{decode_segment}
use private_mesh.Segment.Directory.{
  Action, ◌>>=◌, ◌>>◌, continue, return, fail, of_result, call, same, temporary_suffix,
  segment_name, has_suffix, is_segment_name,
}

-- `storedSegment`; the path is the directory's with the name.
pub record Stored : Type 0 where
  pub name : Text
  pub segment : FileSegment

-- The file is closed, and an error of the decoder comes first.
unfoldable pub close_with : Result Error FileSegment → Action FileSegment
close_with (err e) d = (err e, (call io same d).1)
close_with (ok s) d = continue (call io same d) (λ _. return s)

module _ (digest : Text → Text) where
  -- One file of the loop of `listLocked`: opened, read and closed.
  unfoldable pub load : Text → Text → Action Stored
  load name content = do
    call io same
    call invalid same
    segment ← close_with (decode_segment digest content)
    if text_eq name (segment_name segment.generation)
        then return (record { name = name; segment = segment })
        else fail invalid

  unfoldable pub load_all : Map Text → Action (List Stored)
  load_all [] = return []
  load_all ((name, content) ∷ files) =
      let rest = load_all files in
      if is_segment_name name
      then (do stored ← load name content; others ← rest; return (stored ∷ others))
      else rest

-- slices.SortFunc by generation.
unfoldable pub insert_stored : Stored → List Stored → List Stored
insert_stored s [] = s ∷ []
insert_stored s (t ∷ ts) =
    let rest = insert_stored s ts in
    if ltb t.segment.generation s.segment.generation then t ∷ rest else s ∷ t ∷ ts

unfoldable pub sort_stored : List Stored → List Stored
sort_stored [] = []
sort_stored (s ∷ ss) = insert_stored s (sort_stored ss)

unfoldable pub segments_of : List Stored → List FileSegment
segments_of [] = []
segments_of (s ∷ ss) = s.segment ∷ segments_of ss

unfoldable pub next_generation : List Stored → ℕ
next_generation [] = 1
next_generation (s ∷ []) = (s.segment.generation + 1) % 2 ^ 64
next_generation (s ∷ t ∷ ss) = next_generation (t ∷ ss)

-- The loops of `Documents` and of `Compact` over the segments: the last record of every ID.
unfoldable pub put_records : List Record → Map Record → Map Record
put_records [] current = current
put_records (r ∷ rs) current = put_records rs (put r.document.id r current)

unfoldable pub current_records : List FileSegment → Map Record → Map Record
current_records [] current = current
current_records (s ∷ segments) current = current_records segments (put_records s.records current)

-- The records that are not deleted.
unfoldable pub live_records : Map Record → List Record
live_records [] = []
live_records ((id, r) ∷ current) =
    let rest = live_records current in if r.deleted then rest else r ∷ rest

unfoldable pub insert_document : Document → List Document → List Document
insert_document a [] = a ∷ []
insert_document a (b ∷ bs) =
    let rest = insert_document a bs in if text_lt b.id a.id then b ∷ rest else a ∷ b ∷ bs

unfoldable pub sort_documents : List Record → List Document
sort_documents [] = []
sort_documents (r ∷ rs) = insert_document r.document (sort_documents rs)

abbrev pub trimmed : Mutation → Record
trimmed m = record m { document = record (m.document) { id = trim_space m.document.id } }

-- The loop of `recoverLocked`.
unfoldable pub remove_temporaries : Map Text → Action (Unit {0})
remove_temporaries [] = return tt
remove_temporaries ((name, content) ∷ files) =
    let rest = remove_temporaries files in
    if has_suffix name temporary_suffix then (call io (remove name) >> rest) else rest

-- `NewStore`, on a directory that is there or is made.
unfoldable pub new_store : Text → Action (Unit {0})
new_store directory =
    if is_empty (trim_space directory)
    then fail directory_required
    else (do call io same; call io same; λ d. remove_temporaries d.files d)

-- The loop of `Compact` over the merged segments.
unfoldable pub remove_merged : List Stored → Action (Unit {0})
remove_merged [] = return tt
remove_merged (s ∷ ss) = let rest = remove_merged ss in call io (remove s.name) >> rest

unfoldable pub sync_directory : Action (Unit {0})
sync_directory = do call io same; call io same

module _ (tokenize : Text → List Text) (digest : Text → Text) where
  unfoldable pub list_locked : Action (List Stored)
  list_locked = do
    call io same
    stored ← λ d. load_all digest d.files d
    return (sort_stored stored)

  -- The calls of `publishLocked` behind CreateTemp.
  unfoldable pub publish_file : Text → ℕ → List Record → Action (Unit {0})
  publish_file temporary generation records = do
    call io same
    content ← of_result (encode_segment tokenize digest generation records)
    call io same
    call io same
    call io same
    call io same
    call io (λ files. put (segment_name generation) content (remove temporary files))
    sync_directory

  -- `publishLocked`: after an error the temporary file is removed, if it can be.
  unfoldable pub publish_locked : Text → ℕ → List Record → Action (Unit {0})
  publish_locked temporary generation records = do
    call io (put temporary [])
    λ d.
        let (r, d') = publish_file temporary generation records d in
        elim r [ ok u ↦ (ok u, d') | err e ↦ (err e, (call io (remove temporary) d').1) ]

  unfoldable pub publish : Text → List Mutation → Action ℕ
  publish temporary [] = fail no_mutations
  publish temporary (m ∷ ms) = do
    stored ← list_locked
    publish_locked temporary (next_generation stored) (map trimmed (m ∷ ms))
    return (next_generation stored)

  unfoldable pub documents : Action (List Document)
  documents = do
    stored ← list_locked
    return (sort_documents (live_records (current_records (segments_of stored) [])))

  unfoldable pub compact : Text → ℕ → Action Bool
  compact temporary max_segments = if ltb max_segments 1 then fail bad_limit else (do
    stored ← list_locked
    if leb (length stored) max_segments then return false else (do
      publish_locked temporary (next_generation stored)
          (live_records (current_records (segments_of stored) []))
      remove_merged stored
      sync_directory
      return true))
