-- ===== src/Segment/Codec/Read.antt =====
-- `readSegment` and what it calls: a segment from its bytes.
use private_mesh.Prelude.{
  ℕ, zero, suc, ◌+◌, ◌-◌, ◌^◌, Bool, true, false, not, ◌&&◌, ◌||◌, List, [], ◌∷◌, take, drop,
  length, ltb, leb, ◌==◌, if◌then◌else◌, Option, none, some, get_elem?, Result, ok, err, ◌>>=◌,
  ◌>>◌, refuse_if,
}
use private_mesh.Text.{Text, text_eq, text_lt, trim_space, is_empty}
use private_mesh.Text.Maps.{Map}
use private_mesh.Binary.{get_be, read_uvarint}
use private_mesh.Segment.Codec.{
  Error, file_magic, format_version, header_size, max_payload_size, max_string_size,
  max_record_count, max_term_count, delete_flag, present_flag, Record, Posting, FileSegment,
  invalid, checksum_mismatch, unsupported_version,
}

unfoldable pub read_number : Text → Result Error (ℕ × Text)
read_number bytes = elim (read_uvarint bytes) [ ok (n, rest) ↦ ok (n, rest) | err e ↦ err invalid ]

unfoldable pub read_count : ℕ → Text → Result Error (ℕ × Text)
read_count maximum bytes = do
  (n, rest) ← read_number bytes
  refuse_if (ltb maximum n) invalid
  ok (n, rest)

unfoldable pub read_string : Text → Result Error (Text × Text)
read_string bytes = do
  (n, rest) ← read_number bytes
  refuse_if (ltb max_string_size n) invalid
  refuse_if (ltb (length rest) n) invalid
  ok (take n rest, drop n rest)

unfoldable pub read_flag : Text → Result Error (ℕ × Text)
read_flag [] = err invalid
read_flag (b ∷ bytes) =
    if not (b == present_flag) && not (b == delete_flag) then err invalid else ok (b, bytes)

-- `records[len(records)-1].document.ID >= id`, and the same of the terms.
unfoldable pub out_of_order : Option Text → Text → Bool
out_of_order none id = false
out_of_order (some previous) id = not (text_lt previous id)

-- The title and the body, which a deletion does not have.
unfoldable pub read_fields : Bool → Text → Result Error (Text × Text × Text)
read_fields true bytes = ok ([], [], bytes)
read_fields false bytes = do
  (title, after_title) ← read_string bytes
  (body, after_body) ← read_string after_title
  ok (title, body, after_body)

unfoldable pub read_record : Option Text → Text → Result Error (Record × Text)
read_record previous bytes = do
  (flag, after_flag) ← read_flag bytes
  (id, after_id) ← read_string after_flag
  refuse_if (is_empty (trim_space id)) invalid
  refuse_if (out_of_order previous id) invalid
  (title, body, rest) ← read_fields (flag == delete_flag) after_id
  ok (
    record {
      document = record { id = id; title = title; body = body };
      deleted = flag == delete_flag;
    },
    rest,
  )

unfoldable pub read_records : ℕ → Option Text → Text → Result Error (List Record × Text)
read_records zero previous bytes = ok ([], bytes)
read_records (suc n) previous bytes = do
  (r, after_record) ← read_record previous bytes
  (rs, rest) ← read_records n (some r.document.id) after_record
  ok (r ∷ rs, rest)

-- `delta` undone, with its checks.
unfoldable pub next_ordinal : Option ℕ → ℕ → Result Error ℕ
next_ordinal none d = ok d
next_ordinal (some previous) d = do
  refuse_if (ltb (2 ^ 64 - 1 - previous) d) invalid
  refuse_if (leb (previous + d) previous) invalid
  ok (previous + d)

-- A record that is there and not deleted.
unfoldable pub is_present : List Record → ℕ → Bool
is_present records ordinal = elim (get_elem? records ordinal) [
  | none ↦ false
  | some r ↦ not r.deleted
]

unfoldable pub read_posting : List Record → Option ℕ → Text → Result Error (Posting × Text)
read_posting records previous bytes = do
  (d, after_delta) ← read_number bytes
  ordinal ← next_ordinal previous d
  refuse_if (not (is_present records ordinal)) invalid
  (titles, after_titles) ← read_number after_delta
  (bodies, rest) ← read_number after_titles
  refuse_if (titles == 0 && bodies == 0) invalid
  ok (record { ordinal = ordinal; title_frequency = titles; body_frequency = bodies }, rest)

unfoldable pub read_postings :
    ℕ → List Record → Option ℕ → Text → Result Error (List Posting × Text)
read_postings zero records previous bytes = ok ([], bytes)
read_postings (suc n) records previous bytes = do
  (p, after_posting) ← read_posting records previous bytes
  (ps, rest) ← read_postings n records (some p.ordinal) after_posting
  ok (p ∷ ps, rest)

unfoldable pub read_term :
    List Record → Option Text → Text → Result Error ((Text × List Posting) × Text)
read_term records previous bytes = do
  (term, after_term) ← read_string bytes
  refuse_if (is_empty term || out_of_order previous term) invalid
  (n, after_count) ← read_count (length records) after_term
  (ps, rest) ← read_postings n records none after_count
  ok ((term, ps), rest)

unfoldable pub read_terms :
    ℕ → List Record → Option Text → Text → Result Error (Map (List Posting) × Text)
read_terms zero records previous bytes = ok ([], bytes)
read_terms (suc n) records previous bytes = do
  (entry, after_entry) ← read_term records previous bytes
  (entries, rest) ← read_terms n records (some entry.0) after_entry
  ok (entry ∷ entries, rest)

unfoldable pub decode_payload : Text → Result Error (List Record × Map (List Posting))
decode_payload payload = do
  (record_count, after_count) ← read_count max_record_count payload
  (records, after_records) ← read_records record_count none after_count
  (term_count, after_terms) ← read_count max_term_count after_records
  (entries, rest) ← read_terms term_count records none after_terms
  refuse_if (not (is_empty rest)) invalid
  ok (records, entries)

-- `bytes[from:to]`
abbrev slice : ℕ → ℕ → Text → Text
slice from to bytes = take (to - from) (drop from bytes)

unfoldable pub decode_segment : (Text → Text) → Text → Result Error FileSegment
decode_segment digest bytes = do
  refuse_if (ltb (length bytes) header_size) invalid
  refuse_if (not (text_eq (slice 0 8 bytes) file_magic)) invalid
  refuse_if (not (get_be (slice 8 10 bytes) == format_version)) unsupported_version
  refuse_if (not (get_be (slice 10 12 bytes) == header_size)) invalid
  let generation = get_be (slice 12 20 bytes)
  refuse_if (generation == 0) invalid
  let size = get_be (slice 20 28 bytes)
  refuse_if (ltb max_payload_size size) invalid
  let payload = drop header_size bytes
  refuse_if (not (length payload == size)) invalid
  refuse_if (not (text_eq (digest payload) (slice 28 60 bytes))) checksum_mismatch
  (records, entries) ← decode_payload payload
  ok (record { generation = generation; records = records; postings = entries })
