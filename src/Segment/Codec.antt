-- ===== src/Segment/Codec.antt =====
-- internal/segment/codec.go: the file of a segment, written by Write and read by Read. `tokenize` (internal/search/tokenizer.go, which
-- rests on the Unicode tables of another package) and `digest` (SHA-256) are parameters. A record is
-- a mutation with an ID that is stored as it is.
pub mod Sealed
pub mod Write
pub mod Read
pub mod Records
pub mod Postings
pub mod Checksum
pub mod Oversized
use private_mesh.Prelude.{
  ℕ, zero, suc, ◌+◌, ◌-◌, ◌*◌, ◌%◌, ◌^◌, Bool, true, false, not, ◌&&◌, ◌||◌, List, [], ◌∷◌, ◌++◌,
  map, take, drop, length, ltb, leb, ◌==◌, if◌then◌else◌, Option, none, some, get_elem?, Result, ok,
  err, ◌>>=◌, ◌>>◌, refuse_if,
}
use private_mesh.Text.{Text, ascii, text_eq, text_lt, trim_space, is_empty}
use private_mesh.Text.Sets.{insert}
use private_mesh.Text.Maps.{Map, find, put}
use private_mesh.Binary.{put_be, get_be, put_uvarint, read_uvarint}
use private_mesh.Document.{Document, Mutation}

-- `invalid` is ErrInvalidSegment under any message, `io` an error of the operating system.
pub data Error : Type 0 where
  invalid checksum_mismatch unsupported_version io : Error
  directory_required no_mutations bad_limit : Error

abbrev pub file_magic : Text
file_magic = ascii "PMSGMNT1"

abbrev pub format_version : ℕ
format_version = 1

abbrev pub header_size : ℕ
header_size = 60

abbrev pub max_payload_size : ℕ
max_payload_size = 512 * 2 ^ 20

abbrev pub max_string_size : ℕ
max_string_size = 16 * 2 ^ 20

abbrev pub max_record_count : ℕ
max_record_count = 10_000_000

abbrev pub max_term_count : ℕ
max_term_count = 50_000_000

abbrev pub delete_flag : ℕ
delete_flag = 1

abbrev pub present_flag : ℕ
present_flag = 0

-- `record`
abbrev pub Record : Type 0
Record = Mutation

-- `termPosting`
pub record Posting : Type 0 where
  pub ordinal : ℕ
  pub title_frequency : ℕ
  pub body_frequency : ℕ

-- `fileSegment`
pub record FileSegment : Type 0 where
  pub generation : ℕ
  pub records : List Record
  pub postings : Map (List Posting)
