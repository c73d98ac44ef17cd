-- ===== src/Wal/Frame.antt =====
-- The file header and the header of a record: the bytes that `writeHeader` and `appendRecord` write
-- and that `scanLog` reads.
pub mod Reading
use private_mesh.Prelude.{
  ℕ, ◌+◌, ◌-◌, Bool, true, false, not, ◌&&◌, ◌||◌, List, [], ◌∷◌, ◌++◌, take, drop, length, ltb,
  ◌==◌, if◌then◌else◌, Result, ok, err, ◌>>=◌, ◌>>◌, refuse_if,
}
use private_mesh.Text.{Text, ascii, text_eq}
use private_mesh.Binary.{put_be, get_be, checksum}
use private_mesh.Wal.Error.{Error, corrupt, unsupported_version, max_record_size}

abbrev pub file_magic : Text
file_magic = ascii "PMWAL001"

abbrev pub format_version : ℕ
format_version = 1

abbrev pub header_size : ℕ
header_size = 20

abbrev pub record_header_size : ℕ
record_header_size = 8

-- The bytes that `writeHeader` writes.
unfoldable pub header : ℕ → Text
header base_sequence =
    file_magic ++ (put_be 2 format_version ++ (put_be 2 header_size ++ put_be 8 base_sequence))

-- `bytes[from:to]`
abbrev slice : ℕ → ℕ → Text → Text
slice from to bytes = take (to - from) (drop from bytes)

-- The first part of `scanLog`: the base sequence of a file.
unfoldable pub read_header : Text → Result Error ℕ
read_header bytes = do
  refuse_if (ltb (length bytes) header_size) corrupt
  refuse_if (not (text_eq (slice 0 8 bytes) file_magic)) corrupt
  refuse_if (not (get_be (slice 8 10 bytes) == format_version)) unsupported_version
  refuse_if (not (get_be (slice 10 12 bytes) == header_size)) corrupt
  ok (get_be (slice 12 20 bytes))

-- The test of `appendRecord` on its payload.
unfoldable pub is_bad_size : ℕ → Bool
is_bad_size n = n == 0 || ltb max_record_size n

unfoldable pub record_header : Text → Text
record_header payload = put_be 4 (length payload) ++ put_be 4 (checksum payload)

-- What a successful `appendRecord` adds to the file.
unfoldable pub frame : Text → Text
frame payload = record_header payload ++ payload

-- What the reads of one round of `scanLog` find: the end of the file, a record that the file ends
-- inside of, a record that is refused after so many bytes, or a payload and the bytes behind it.
pub data Found : Type 0 where
  at_end partial : Found
  refused : ℕ → Found
  payload : Text → Text → Found

unfoldable pub read_payload : ℕ → ℕ → Text → Found
unfolding is_bad_size
read_payload size expected body =
    if is_bad_size size
    then refused record_header_size
    else if ltb (length body) size
    then partial
    else if checksum (take size body) == expected
    then payload (take size body) (drop size body)
    else refused (record_header_size + size)

unfoldable pub read_frame : Text → Found
unfolding read_payload
read_frame [] = at_end
read_frame (b ∷ bs) =
    if ltb (length (b ∷ bs)) record_header_size
    then partial
    else read_payload (get_be (take 4 (b ∷ bs))) (get_be (take 4 (drop 4 (b ∷ bs))))
        (drop 8 (b ∷ bs))
