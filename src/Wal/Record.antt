-- ===== src/Wal/Record.antt =====
-- The payload of a record: `encodeMutation`, `encodeCommit`, `decodeRecord`.
pub mod Strings
pub mod RoundTrip
pub mod Limits
use private_mesh.Prelude.{
  ℕ, zero, suc, ◌+◌, ◌-◌, ◌*◌, ◌^◌, Bool, true, false, not, ◌&&◌, ◌||◌, List, [], ◌∷◌, ◌++◌, take,
  drop, length, ltb, ◌==◌, if◌then◌else◌, Result, ok, err, ◌>>=◌, ◌>>◌, refuse_if,
}
use private_mesh.Text.{Text, trim_space, is_empty}
use private_mesh.Binary.{put_be, get_be, put_uvarint, read_uvarint}
use private_mesh.Document.{Document, Mutation, no_mutation}
use private_mesh.Wal.Error.{Error, id_required, record_too_large, corrupt, max_record_size}

abbrev pub record_upsert : ℕ
record_upsert = 1

abbrev pub record_delete : ℕ
record_delete = 2

abbrev pub record_commit : ℕ
record_commit = 3

unfoldable pub write_string : Text → Text
write_string value = put_uvarint (length value) ++ value

read_bytes : ℕ → Text → Result Error (Text × Text)
read_bytes n bytes = if ltb (length bytes) n then err corrupt else ok (take n bytes, drop n bytes)

-- The string and the bytes behind it. Every failure is wrapped in ErrCorruptLog.
pub read_string : Text → Result Error (Text × Text)
unfolding read_bytes
read_string bytes = elim (read_uvarint bytes) [
  | ok (n, rest) ↦ if ltb max_record_size n then err corrupt else read_bytes n rest
  | err e ↦ err corrupt
]

-- The loop over `remaining`.
fit : ℕ → List Text → Bool
fit remaining [] = true
fit remaining (value ∷ values) =
    if ltb remaining (length value) then false else fit (remaining - length value) values

-- What `encodeMutation` writes once its checks have passed.
unfoldable pub mutation_payload : ℕ → Mutation → Text
unfolding write_string
mutation_payload sequence m =
    (if m.deleted then record_delete else record_upsert) ∷ put_be 8 sequence
    ++ (write_string m.document.id
        ++ (if m.deleted
            then []
            else write_string m.document.title ++ write_string m.document.body))

unfoldable pub encode_mutation : ℕ → Mutation → Result Error Text
unfolding fit mutation_payload
encode_mutation sequence m = do
  refuse_if (is_empty (trim_space m.document.id)) id_required
  refuse_if
      (not (fit (max_record_size - 32) (m.document.id ∷ m.document.title ∷ m.document.body ∷ [])))
      record_too_large
  refuse_if (ltb max_record_size (length (mutation_payload sequence m))) record_too_large
  ok (mutation_payload sequence m)

unfoldable pub encode_commit : ℕ → Text
encode_commit sequence = record_commit ∷ put_be 8 sequence

-- The title and the body, which a deletion does not have, and the bytes that are left.
read_fields : Bool → Text → Result Error (Text × Text × Text)
unfolding read_string
read_fields true bytes = ok ([], [], bytes)
read_fields false bytes = do
  (title, after_title) ← read_string bytes
  (body, after_body) ← read_string after_title
  ok (title, body, after_body)

read_mutation : Bool → Text → Result Error Mutation
unfolding read_fields
read_mutation deleted bytes = do
  (id, after_id) ← read_string bytes
  (title, body, rest) ← read_fields deleted after_id
  refuse_if (not (is_empty rest) || is_empty (trim_space id)) corrupt
  ok (record { document = record { id = id; title = title; body = body }; deleted = deleted })

-- The cases of a payload of 9 bytes at least: its kind, its sequence and what follows.
decode_parts : ℕ → ℕ → Text → Result Error (ℕ × ℕ × Mutation)
unfolding read_mutation
decode_parts kind sequence rest =
    if sequence == 0
    then err corrupt
    else if kind == record_commit
    then (if is_empty rest then ok (kind, sequence, no_mutation) else err corrupt)
    else if not (kind == record_upsert) && not (kind == record_delete)
    then err corrupt
    else do m ← read_mutation (kind == record_delete) rest; ok (kind, sequence, m)

unfoldable pub decode_record : Text → Result Error (ℕ × ℕ × Mutation)
unfolding decode_parts
decode_record [] = err corrupt
decode_record (kind ∷ rest) =
    if ltb (length rest) 8
    then err corrupt
    else decode_parts kind (get_be (take 8 rest)) (drop 8 rest)
