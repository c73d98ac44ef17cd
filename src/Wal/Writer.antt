-- ===== src/Wal/Writer.antt =====
-- What the log writes: `writeHeader`, `appendRecord`, `initialize` and `rewrite`, as actions on its
-- file.
use private_mesh.Prelude.{ℕ, ◌==◌, true, List, [], ◌∷◌, length, ltb, if◌then◌else◌, ok, err}
use private_mesh.Text.{Text}
use private_mesh.Wal.Error.{record_too_large}
use private_mesh.Wal.Record.{encode_mutation, encode_commit}
use private_mesh.Wal.Frame.{header, record_header, is_bad_size}
use private_mesh.Wal.Scan.{Entry, Scan}
use private_mesh.Wal.Disk.{
  Disk, Action, ◌>>=◌, ◌>>◌, return, fail, call, write, sync, seek_end, truncate_file, close_file,
  scan_log,
}

unfoldable pub write_header : ℕ → Action (Unit {0})
write_header base = write (header base)

-- The header and the payload are two writes.
unfoldable pub append_record : Text → Action (Unit {0})
append_record payload =
    if is_bad_size (length payload)
    then fail record_too_large
    else do write (record_header payload); write payload

unfoldable pub initialize : Action Scan
initialize = do
  call
  λ d. (if length d.content == 0 then (do write_header 0; sync) else return tt) d
  s ← scan_log []
  if s.incomplete_tail then (do truncate_file s.valid_offset; sync) else return tt
  seek_end
  return s

unfoldable pub write_entries : List Entry → Action (Unit {0})
write_entries [] = return tt
write_entries (e ∷ entries) =
    let rest = write_entries entries in
    elim (encode_mutation e.sequence e.mutation) [
      | ok payload ↦ append_record payload >> rest
      | err x ↦ fail x
    ]

-- The calls on the temporary file, from Chmod to Close.
unfoldable pub write_temporary : ℕ → List Entry → ℕ → Action (Unit {0})
write_temporary base entries committed = do
  call
  write_header base
  write_entries entries
  if ltb base committed then append_record (encode_commit committed) else return tt
  sync
  close_file

-- An empty file of the same environment.
abbrev temporary : Disk → Disk
temporary d = record { content = []; position = 0; is_open = true; durable = []; faults = d.faults }

-- os.Rename: the path names what the temporary file held.
unfoldable pub rename : Text → Action (Unit {0})
rename content = do call; λ d. (ok tt, record d { content = content })

-- syncDirectory: the directory is opened and synced, and with it the rename.
unfoldable pub sync_directory : Action (Unit {0})
sync_directory = do call; call; λ d. (ok tt, record d { durable = d.content })

unfoldable pub reopen : Action (Unit {0})
reopen = do call; λ d. (ok tt, record d { is_open = true; position = 0 })

-- CreateTemp, the temporary file, and its way to the log's path. A temporary file that is not
-- renamed is removed.
unfoldable pub rewrite : ℕ → List Entry → ℕ → Action (Unit {0})
rewrite base entries committed = do
  call
  content ← λ d.
      let (r, t) = write_temporary base entries committed (temporary d) in
      (elim r [ ok u ↦ ok t.content | err e ↦ err e ], record d { faults = t.faults })
  close_file
  rename content
  sync_directory
  reopen
  seek_end
