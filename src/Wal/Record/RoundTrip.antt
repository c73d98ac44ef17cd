-- ===== src/Wal/Record/RoundTrip.antt =====
-- `decodeRecord` reads back what `encodeMutation` and `encodeCommit` wrote.
use mathlib.Core.List.{append-nil}
use private_mesh.Prelude.{
  ℕ, ◌+◌, ◌-◌, ◌^◌, ◌≤◌, ◌<◌, ◌≡◌, ap, sym, ◌∙◌, Bool, true, false, [], ◌∷◌, ◌++◌, length,
  length-append, take-append_exact, drop-append_exact, ok, arith, if◌then◌else◌,
}
use private_mesh.Text.{Text, trim_space, is_empty}
use private_mesh.Binary.{put_be}
use private_mesh.Binary.BigEndian.{length-put_be, get_be-put_be}
use private_mesh.Document.{Mutation, no_mutation}
use private_mesh.Wal.Error.{max_record_size}
use private_mesh.Wal.Record.{
  record_upsert, record_delete, record_commit, write_string, read_string, read_mutation,
  decode_parts, decode_record, mutation_payload, encode_commit,
}
use private_mesh.Wal.Record.Strings.{read-write_string}

-- What the log can hold: an ID that is not blank, and 32 bytes left below the size limit.
pub record CanStore (m : Mutation) : Type 0 where
  pub has_id : is_empty (trim_space m.document.id) ≡ false
  pub fits :
      length m.document.id + length m.document.title + length m.document.body ≤ max_record_size - 32

-- A deletion keeps only the ID.
abbrev pub stored : Mutation → Mutation
stored m =
    if m.deleted then record m { document = record (m.document) { title = []; body = [] } } else m

abbrev pub kind_of : Mutation → ℕ
kind_of m = if m.deleted then record_delete else record_upsert

abbrev fields_of : Mutation → Text
fields_of m =
    if m.deleted then [] else write_string m.document.title ++ write_string m.document.body

read-write_string_end :
    (value : Text)
    → length value ≤ max_record_size
    → read_string (write_string value) ≡ ok (value, [])
read-write_string_end value h = rw append-nil at (read-write_string value [] h)

-- By the value of the flag, which the payload's kind carries.
read-fields :
    (id title body : Text) (deleted : Bool)
    → is_empty (trim_space id) ≡ false
    → length id + length title + length body ≤ max_record_size - 32
    → read_mutation deleted
        (write_string id ++ (if deleted then [] else write_string title ++ write_string body))
      ≡ ok (
          stored (record {
            document = record { id = id; title = title; body = body };
            deleted = deleted;
          }))
unfolding read_mutation is_empty
read-fields id title body true blank h = ground (arith, read-write_string id [])
read-fields id title body false blank h = ground (
  arith,
  read-write_string id (write_string title ++ write_string body),
  read-write_string title (write_string body),
  read-write_string_end body,
)

decode-parts :
    (kind sequence : ℕ) (rest : Text)
    → sequence < 2 ^ 64
    → decode_record (kind ∷ put_be 8 sequence ++ rest) ≡ decode_parts kind sequence rest
unfolding decode_record
decode-parts kind sequence rest h = ground (
  arith,
  length-append (put_be 8 sequence) rest,
  length-put_be 8 sequence,
  get_be-put_be 8 sequence,
  take-append_exact 8 (put_be 8 sequence) rest,
  drop-append_exact 8 (put_be 8 sequence) rest,
)

-- The payload of a mutation under a positive uint64 decodes to its kind, its sequence and what the
-- log stores of it.
pub decode-mutation_payload :
    (sequence : ℕ) (m : Mutation)
    → 0 < sequence
    → sequence < 2 ^ 64
    → CanStore m
    → decode_record (mutation_payload sequence m) ≡ ok (kind_of m, sequence, stored m)
unfolding mutation_payload decode_parts
decode-mutation_payload sequence m pos fits c = ground (
  arith,
  decode-parts (kind_of m) sequence (write_string m.document.id ++ fields_of m),
  read-fields m.document.id m.document.title m.document.body m.deleted c.has_id c.fits,
)

-- A commit record decodes to its sequence.
pub decode-encode_commit :
    (sequence : ℕ)
    → 0 < sequence
    → sequence < 2 ^ 64
    → decode_record (encode_commit sequence) ≡ ok (record_commit, sequence, no_mutation)
unfolding encode_commit decode_parts is_empty
decode-encode_commit sequence pos fits =
    ap (λ t. decode_record (record_commit ∷ t)) (sym (append-nil (put_be 8 sequence)))
    ∙ decode-parts record_commit sequence [] fits
    ∙ ground arith
