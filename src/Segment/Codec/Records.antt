-- ===== src/Segment/Codec/Records.antt =====
-- Numbers, strings and records of a segment are read back, with whatever follows them.
use mathlib.Core.List.{append_assoc, append-nil}
use private_mesh.Prelude.{
  ℕ, ◌^◌, ◌≤◌, ◌<◌, ◌≡◌, refl, Bool, true, false, List, [], ◌∷◌, ◌++◌, map, length, length-append,
  Option, some, take-append_exact, drop-append_exact, ok, arith, if◌then◌else◌,
}
use private_mesh.Text.{Text, trim_space, is_empty}
use private_mesh.Binary.{put_uvarint}
use private_mesh.Binary.Uvarint.{read-put_uvarint}
use private_mesh.Segment.Codec.{Record, max_string_size}
use private_mesh.Segment.Codec.Write.{write_string, write_record, write_records}
use private_mesh.Segment.Codec.Read.{
  read_number, read_count, read_string, read_flag, read_fields, read_record, read_records,
  out_of_order,
}

pub read_number-put :
    (n : ℕ) (rest : Text) → n < 2 ^ 64 → read_number (put_uvarint n ++ rest) ≡ ok (n, rest)
unfolding read_number
read_number-put n rest h = ground (arith, read-put_uvarint n rest)

pub read_count-put :
    (n maximum : ℕ) (rest : Text)
    → n ≤ maximum
    → n < 2 ^ 64
    → read_count maximum (put_uvarint n ++ rest) ≡ ok (n, rest)
unfolding read_count
read_count-put n maximum rest le h = ground (arith, read_number-put n rest)

pub read-write_string :
    (value rest : Text)
    → length value ≤ max_string_size
    → read_string (write_string value ++ rest) ≡ ok (value, rest)
unfolding write_string read_string
read-write_string value rest h = rw append_assoc (
    ground (
      arith,
      read_number-put (length value) (value ++ rest) (omega arith),
      length-append value rest,
      take-append_exact (length value) value rest refl,
      drop-append_exact (length value) value rest refl,
    ))

-- What a segment can hold of a record: an ID that is not blank, and strings of a bounded size. A
-- deletion has no title and no body.
pub record IsStorable (r : Record) : Type 0 where
  pub has_id : is_empty (trim_space r.document.id) ≡ false
  pub id_fits : length r.document.id ≤ max_string_size
  pub title_fits : length r.document.title ≤ max_string_size
  pub body_fits : length r.document.body ≤ max_string_size

-- What is left of a record in a segment.
abbrev pub kept : Record → Record
kept r = record r {
  document = record (r.document) {
    title = if r.deleted then [] else r.document.title;
    body = if r.deleted then [] else r.document.body;
  };
}

record_of : Bool → Text → Text → Text → Record
record_of deleted id title body = record {
  document = record { id = id; title = title; body = body };
  deleted = deleted;
}

-- By the value of the flag.
read-record_of :
    (previous : Option Text) (id title body rest : Text) (deleted : Bool)
    → IsStorable (record_of deleted id title body)
    → out_of_order previous id ≡ false
    → read_record previous (write_record (record_of deleted id title body) ++ rest)
      ≡ ok (kept (record_of deleted id title body), rest)
unfolding read_record write_record read_flag read_fields record_of
read-record_of previous id title body rest true s ordered =
    simp append-nil (ground (arith, read-write_string id rest))
read-record_of previous id title body rest false s ordered = simp append_assoc (
    ground (
      arith,
      read-write_string id (write_string title ++ (write_string body ++ rest)),
      read-write_string title (write_string body ++ rest),
      read-write_string body rest,
    ))

pub read-write_record :
    (previous : Option Text) (r : Record) (rest : Text)
    → IsStorable r
    → out_of_order previous r.document.id ≡ false
    → read_record previous (write_record r ++ rest) ≡ ok (kept r, rest)
unfolding record_of
read-write_record previous r rest s ordered =
    read-record_of previous r.document.id r.document.title r.document.body rest r.deleted s ordered

-- Records by ascending IDs, the first of them behind `previous`.
abbrev pub AreStorable : Option Text → List Record → Type 0
AreStorable previous [] = Unit {0}
AreStorable previous (r ∷ rs) =
    IsStorable r
    × (out_of_order previous r.document.id ≡ false)
    × AreStorable (some r.document.id) rs

pub read-write_records :
    (previous : Option Text) (rs : List Record) (rest : Text)
    → AreStorable previous rs
    → read_records (length rs) previous (write_records rs ++ rest) ≡ ok (map kept rs, rest)
unfolding read_records write_records
read-write_records previous [] rest s = refl
read-write_records previous (r ∷ rs) rest s =
    rw (append_assoc (write_record r) (write_records rs) rest) (
      rw (read-write_record previous r (write_records rs ++ rest) s.0 s.1)
        (ground (arith, read-write_records (some r.document.id) rs rest)))
