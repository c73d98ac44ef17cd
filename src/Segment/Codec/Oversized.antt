-- ===== src/Segment/Codec/Oversized.antt =====
-- `writeSegment` has no limit on a single string, and `readSegment` has one.
use mathlib.Core.List.{append_assoc, append-nil}
use private_mesh.Prelude.{
  ℕ, ◌^◌, ◌≤◌, ◌<◌, ◌≡◌, refl, ◌∙◌, ap, sym, Bool, true, false, not, ◌&&◌, ◌||◌, List, [], ◌∷◌,
  ◌++◌, length, length-append, Option, none, some, ok, err, Result, ◌>>◌, refuse_if, arith,
  if◌then◌else◌, ltb,
}
use private_mesh.Text.{Text}
use private_mesh.Binary.{put_uvarint}
use private_mesh.Binary.Uvarint.{length-put_uvarint}
use private_mesh.Text.Maps.{Map}
use private_mesh.Segment.Codec.{Posting}
use private_mesh.Segment.Codec.{
  Error, Record, max_string_size, max_payload_size, max_record_count, invalid, is_empty, trim_space,
}
use private_mesh.Segment.Codec.Write.{
  write_string, write_record, write_records, write_payload, write_terms, insert_record,
  sort_records, encode_payload, check_records, by_terms, build_postings,
}
use private_mesh.Segment.Codec.Read.{
  read_count, read_string, read_flag, read_fields, read_record, read_records, decode_payload,
  out_of_order,
}
use private_mesh.Segment.Codec.Records.{read_number-put, read-write_string, kept}

-- A record with a string that is longer than `readSegment` accepts.
unfoldable pub is_oversized : Record → Bool
is_oversized r =
    ltb max_string_size (length r.document.id)
    || not r.deleted
      && (ltb max_string_size (length r.document.title)
          || ltb max_string_size (length r.document.body))

unfoldable pub any_oversized : List Record → Bool
any_oversized [] = false
any_oversized (r ∷ rs) = is_oversized r || any_oversized rs

any_oversized-insert_record :
    (r : Record) (rs : List Record) → any_oversized (insert_record r rs) ≡ any_oversized (r ∷ rs)
unfolding any_oversized insert_record
any_oversized-insert_record r [] = refl
any_oversized-insert_record r (s ∷ rs) = ground (arith, any_oversized-insert_record r rs)

any_oversized-sort_records : (rs : List Record) → any_oversized (sort_records rs) ≡ any_oversized rs
unfolding any_oversized sort_records
any_oversized-sort_records [] = refl
any_oversized-sort_records (r ∷ rs) =
    any_oversized-insert_record r (sort_records rs)
    ∙ ap (λ (b : Bool). is_oversized r || b) (any_oversized-sort_records rs)

read-write_string_long :
    (value rest : Text)
    → max_string_size < length value
    → length value < 2 ^ 64
    → read_string (write_string value ++ rest) ≡ err invalid
unfolding read_string write_string
read-write_string_long value rest long fits =
    rw append_assoc (ground (arith, read_number-put (length value) (value ++ rest)))

-- What a string reads as: itself, or a refusal if it is too long.
read_string_cases :
    (value rest : Text)
    → length value < 2 ^ 64
    → read_string (write_string value ++ rest)
      ≡ (if ltb max_string_size (length value) then err invalid else ok (value, rest))
read_string_cases value rest fits =
    ground (arith, read-write_string value rest, read-write_string_long value rest)

-- A record from its fields.
record_of : Bool → Text → Text → Text → Record
record_of deleted id title body = record {
  document = record { id = id; title = title; body = body };
  deleted = deleted;
}

-- What `decodePayload` makes of the bytes of any record.
reading : Option Text → Record → Text → Result Error (Record × Text)
reading previous r rest =
    if is_oversized r || is_empty (trim_space r.document.id) || out_of_order previous r.document.id
    then err invalid
    else ok (kept r, rest)

length-write_string : (value : Text) → length value < length (write_string value)
unfolding write_string
length-write_string value =
    omega (
      arith,
      length-append (put_uvarint (length value)) value,
      (length-put_uvarint (length value)).0,
    )

read-record_of :
    (deleted : Bool) (id title body : Text) (previous : Option Text) (rest : Text)
    → length (write_record (record_of deleted id title body)) < 2 ^ 64
    → read_record previous (write_record (record_of deleted id title body) ++ rest)
      ≡ reading previous (record_of deleted id title body) rest
unfolding reading read_record write_record read_flag read_fields record_of is_oversized
read-record_of true id title body previous rest h =
    let fits : length id < 2 ^ 64 =
      omega (arith, length-append (write_string id) [], length-write_string id) in
    simp append-nil (ground (arith, read_string_cases id rest fits))
read-record_of false id title body previous rest h =
    let sizes : (length id < 2 ^ 64) × (length title < 2 ^ 64) × (length body < 2 ^ 64) = omega (
      arith,
      length-append (write_string id) (write_string title ++ write_string body),
      length-append (write_string title) (write_string body),
      length-write_string id,
      length-write_string title,
      length-write_string body,
    ) in
    simp append_assoc (
      ground (
        arith,
        read_string_cases id (write_string title ++ (write_string body ++ rest)) sizes.0,
        read_string_cases title (write_string body ++ rest) sizes.1,
        read_string_cases body rest sizes.2,
      ))

read-record_cases :
    (r : Record) (previous : Option Text) (rest : Text)
    → length (write_record r) < 2 ^ 64
    → read_record previous (write_record r ++ rest) ≡ reading previous r rest
unfolding record_of
read-record_cases r previous rest h =
    read-record_of r.deleted r.document.id r.document.title r.document.body previous rest h

read-records_oversized :
    (rs : List Record) (previous : Option Text) (rest : Text)
    → length (write_records rs) < 2 ^ 64
    → any_oversized rs ≡ true
    → read_records (length rs) previous (write_records rs ++ rest) ≡ err invalid
unfolding read_records write_records any_oversized reading
read-records_oversized [] previous rest fits h = ground arith
read-records_oversized (r ∷ rs) previous rest fits h =
    rw (append_assoc (write_record r) (write_records rs) rest) (
      rw
        (read-record_cases r previous (write_records rs ++ rest)
          (omega (arith, length-append (write_record r) (write_records rs))))
        (ground (
          arith,
          length-append (write_record r) (write_records rs),
          read-records_oversized rs (some r.document.id) rest,
        )))

length-write_records : (rs : List Record) → length rs ≤ length (write_records rs)
unfolding write_records write_record
length-write_records [] = omega arith
length-write_records (r ∷ rs) =
    omega (arith, length-append (write_record r) (write_records rs), length-write_records rs)

read-count_cases :
    (n maximum : ℕ) (rest : Text)
    → n < 2 ^ 64
    → read_count maximum (put_uvarint n ++ rest)
      ≡ (if ltb maximum n then err invalid else ok (n, rest))
unfolding read_count
read-count_cases n maximum rest h = ground (arith, read_number-put n rest)

decode-oversized :
    (rs : List Record) (entries : Map (List Posting))
    → any_oversized rs ≡ true
    → length (write_payload rs entries) ≤ max_payload_size
    → decode_payload (write_payload rs entries) ≡ err invalid
unfolding decode_payload write_payload
decode-oversized rs entries h small =
    let back = put_uvarint (length entries) ++ write_terms entries in
    let fits : length (write_records rs) < 2 ^ 64 = omega (
      arith,
      length-append (put_uvarint (length rs)) (write_records rs ++ back),
      length-append (write_records rs) back,
    ) in
    rw
      (read-count_cases (length rs) max_record_count (write_records rs ++ back)
        (omega (arith, length-write_records rs)))
      (ground (arith, read-records_oversized rs none back fits h))

checked-ok :
    (r : Result Error (Unit {0})) (b : Bool) (p q : Text)
    → (r >> (refuse_if b invalid >> ok p)) ≡ ok q
    → (b ≡ false) × (p ≡ q)
checked-ok (err e) b p q h = ground arith
checked-ok (ok u) true p q h = ground arith
checked-ok (ok u) false p q h = (refl, ground arith)

-- Every segment that `encodePayload` makes of records with a string over the size limit of
-- `readString` is refused by `decodePayload`, so what `Publish` has reported as stored cannot be read.
pub decode-encode_oversized :
    (tokenize : Text → List Text) (records : List Record) (payload : Text)
    → encode_payload tokenize records ≡ ok payload
    → any_oversized records ≡ true
    → decode_payload payload ≡ err invalid
unfolding encode_payload
decode-encode_oversized tokenize records payload encoded long =
    let sorted = sort_records records in
    let entries = by_terms (build_postings tokenize 0 sorted []) in
    let (small, written) =
      checked-ok (check_records none sorted)
        (ltb max_payload_size (length (write_payload sorted entries)))
        (write_payload sorted entries) payload encoded in
    sym (ap decode_payload written)
    ∙ decode-oversized sorted entries (any_oversized-sort_records records ∙ long) (ground arith)
