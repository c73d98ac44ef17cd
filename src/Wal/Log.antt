-- ===== src/Wal/Log.antt =====
-- The methods of `Log`. A method is a function of the log's fields and its file; the mutex makes
-- each one step. `has_file` is `l.file != nil`.
pub mod Spec
pub mod Healthy
pub mod Writes
pub mod Reads
pub mod Crash
pub mod Recovery
pub mod Cancel
pub mod Truncate
mod Tests
use private_mesh.Prelude.{
  ℕ, ◌+◌, ◌-◌, ◌^◌, ◌==◌, Bool, true, false, not, ◌||◌, List, [], ◌∷◌, ltb, leb, if◌then◌else◌,
  Result, ok, err, refuse_if,
}
use private_mesh.Text.{Text, trim_space, is_empty}
use private_mesh.Document.{Mutation}
use private_mesh.Wal.Error.{
  Error, path_required, closed, id_required, sequence_exhausted, commit_range, truncate_range,
}
use private_mesh.Wal.Record.{encode_mutation, encode_commit}
use private_mesh.Wal.Scan.{Entry, Scan}
use private_mesh.Wal.Disk.{Disk, Action, ◌>>=◌, ◌>>◌, return, call, sync, close_file, scan_log}
use private_mesh.Wal.Writer.{append_record, initialize, rewrite}

pub record Log : Type 0 where
  pub has_file : Bool
  pub base_sequence : ℕ
  pub last_sequence : ℕ
  pub committed_sequence : ℕ

-- The outcome of a method: its result, the log and the file.
abbrev pub Outcome : Type 0 → Type 0
Outcome A = Result Error A × Log × Disk

-- A method that ends with calls on the file, and changes the log only if they succeed.
abbrev pub conclude : {A B : Type 0} → Result Error A × Disk → (A → B × Log) → Log → Outcome B
conclude (ok a, d) f l = let (b, l') = f a in (ok b, l', d)
conclude (err e, d) f l = (err e, l, d)

-- os.OpenFile on a file that is there or is created empty.
unfoldable pub open_file : Action (Unit {0})
open_file = do call; λ d. (ok tt, record d { is_open = true; position = 0 })

abbrev pub log_of : Scan → Log
log_of s = record {
  has_file = true;
  base_sequence = s.base_sequence;
  last_sequence = s.last_sequence;
  committed_sequence = s.committed_sequence;
}

-- `Open`, on the file that the path names. After an error the handle is closed.
unfoldable pub open_log : Text → Disk → Result Error Log × Disk
open_log path d =
    if is_empty (trim_space path)
    then (err path_required, d)
    else (let (r, d') = (do call; open_file; initialize) d in
        elim r [ ok s ↦ (ok (log_of s), d') | err e ↦ (err e, record d' { is_open = false }) ])

abbrev pub trimmed : Mutation → Mutation
trimmed m = record m { document = record (m.document) { id = trim_space m.document.id } }

-- The checks of `Append`, and the payload that it writes.
unfoldable pub append_payload : Mutation → Log → Result Error Text
append_payload m l =
    if not l.has_file
    then err closed
    else if is_empty (trim_space m.document.id)
    then err id_required
    else if l.last_sequence == 2 ^ 64 - 1
    then err sequence_exhausted
    else encode_mutation (l.last_sequence + 1) (trimmed m)

unfoldable pub append : Mutation → Log → Disk → Outcome ℕ
append m l d = elim (append_payload m l) [
  | err e ↦ (err e, l, d)
  | ok payload ↦
      conclude (append_record payload d)
        (λ _. (l.last_sequence + 1, record l { last_sequence = l.last_sequence + 1 })) l
]

unfoldable pub commit : ℕ → Log → Disk → Outcome (Unit {0})
commit sequence l d =
    if not l.has_file
    then (err closed, l, d)
    else if ltb sequence l.committed_sequence || ltb l.last_sequence sequence
    then (err commit_range, l, d)
    else if sequence == l.committed_sequence
    then conclude (sync d) (λ _. (tt, l)) l
    else conclude ((do append_record (encode_commit sequence); sync) d)
        (λ _. (tt, record l { committed_sequence = sequence })) l

-- The loop of `Replay`.
unfoldable pub entries_through : ℕ → List Entry → List Entry
entries_through sequence [] = []
entries_through sequence (e ∷ entries) =
    let rest = entries_through sequence entries in
    if leb e.sequence sequence then e ∷ rest else rest

unfoldable pub replay : List Bool → Log → Disk → Outcome (List Entry)
replay polls l d =
    if not l.has_file
    then (err closed, l, d)
    else conclude (scan_log polls d) (λ s. (entries_through s.committed_sequence s.entries, l)) l

-- The loop of `Truncate`.
unfoldable pub entries_after : ℕ → List Entry → List Entry
entries_after sequence [] = []
entries_after sequence (e ∷ entries) =
    let rest = entries_after sequence entries in if ltb sequence e.sequence then e ∷ rest else rest

unfoldable pub truncate : ℕ → Log → Disk → Outcome (Unit {0})
truncate sequence l d =
    if not l.has_file
    then (err closed, l, d)
    else if ltb sequence l.base_sequence || ltb l.committed_sequence sequence
    then (err truncate_range, l, d)
    else conclude
        ((do
          s ← scan_log []
          rewrite sequence (entries_after sequence s.entries) s.committed_sequence
          return s)
          d)
        (λ s. (
          tt,
          record {
            has_file = true;
            base_sequence = sequence;
            last_sequence = s.last_sequence;
            committed_sequence = s.committed_sequence;
          },
        ))
        l

unfoldable pub close : Log → Disk → Outcome (Unit {0})
close l d =
    if not l.has_file
    then (ok tt, l, d)
    else conclude (close_file d) (λ _. (tt, record l { has_file = false })) l
