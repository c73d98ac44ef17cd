-- ===== src/Wal/Scan.antt =====
-- `scanLog`: the whole file is read from its start. `polls` are the answers of `ctx.Err() != nil`,
-- one a round, with no cancellation behind the last.
pub mod Items
pub mod Contents
pub mod Fuel
use private_mesh.Prelude.{
  ℕ, zero, suc, ◌+◌, ◌%◌, ◌^◌, Bool, true, false, not, ◌&&◌, ◌||◌, List, [], ◌∷◌, ◌++◌, drop,
  length, min, ltb, ◌==◌, if◌then◌else◌, Result, ok, err, ◌>>=◌, ◌>>◌, refuse_if,
}
use private_mesh.Text.{Text}
use private_mesh.Document.{Mutation}
use private_mesh.Wal.Error.{Error, corrupt, canceled}
use private_mesh.Wal.Record.{record_upsert, record_delete, record_commit, decode_record}
use private_mesh.Wal.Frame.{
  read_header, read_frame, at_end, partial, refused, payload, header_size, record_header_size,
}

pub record Entry : Type 0 where
  pub sequence : ℕ
  pub mutation : Mutation

-- `scanResult`
pub record Scan : Type 0 where
  pub base_sequence : ℕ
  pub last_sequence : ℕ
  pub committed_sequence : ℕ
  pub valid_offset : ℕ
  pub incomplete_tail : Bool
  pub entries : List Entry

-- The result behind the header.
abbrev pub start : ℕ → Scan
start base = record {
  base_sequence = base;
  last_sequence = base;
  committed_sequence = base;
  valid_offset = header_size;
  incomplete_tail = false;
  entries = [];
}

-- The `switch` on the kind of a record.
unfoldable pub take_record : ℕ → ℕ → Mutation → Scan → Result Error Scan
take_record kind sequence m s =
    if kind == record_upsert || kind == record_delete
    then (if sequence == (s.last_sequence + 1) % 2 ^ 64
        then ok (record s {
          entries = s.entries ++ (record { sequence = sequence; mutation = m } ∷ []);
          last_sequence = sequence;
        })
        else err corrupt)
    else if kind == record_commit
    then (if ltb sequence s.committed_sequence || ltb s.last_sequence sequence
        then err corrupt
        else ok (record s { committed_sequence = sequence }))
    else err corrupt

-- What a round does with a payload whose checksum is right.
unfoldable pub accept : Text → Scan → Result Error Scan
unfolding take_record
accept p s = do
  (kind, sequence, m) ← decode_record p
  s' ← take_record kind sequence m s
  ok (record s' { valid_offset = s'.valid_offset + (record_header_size + length p) })

-- How a scan ends: with a result, the file read to its end, or with an error and the offset that
-- it leaves the file at. `out_of_fuel` is no end of the Go loop.
pub data Stop : Type 0 where
  finished : Scan → Stop
  failed : Error → ℕ → Stop
  out_of_fuel : Stop

abbrev pub is_canceled : List Bool → Bool
is_canceled [] = false
is_canceled (p ∷ polls) = p

abbrev pub later_polls : List Bool → List Bool
later_polls [] = []
later_polls (p ∷ polls) = polls

-- The `for` loop, over the bytes that are not read yet.
unfoldable pub scan_records : ℕ → List Bool → Text → Scan → Stop
scan_records zero polls bytes s = out_of_fuel
scan_records (suc fuel) polls bytes s = elim (is_canceled polls) [
  | true ↦ failed canceled s.valid_offset
  | false ↦ elim (read_frame bytes) [
    | at_end ↦ finished s
    | partial ↦ finished (record s { incomplete_tail = true })
    | refused n ↦ failed corrupt (s.valid_offset + n)
    | payload p rest ↦ elim (accept p s) [
      | ok s' ↦ scan_records fuel (later_polls polls) rest s'
      | err e ↦ failed e (s.valid_offset + (record_header_size + length p))
    ]
  ]
]

-- Each round takes a byte at least, so one round more than there are bytes is enough.
unfoldable pub scan : List Bool → Text → Stop
unfolding scan_records accept
scan polls bytes = elim (read_header bytes) [
  | ok base ↦ scan_records (suc (length bytes)) polls (drop header_size bytes) (start base)
  | err e ↦ failed e (min header_size (length bytes))
]
