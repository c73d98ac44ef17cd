-- ===== src/Wal/Record/Strings.antt =====
-- A string is read back with whatever follows it.
use mathlib.Core.List.{append_assoc}
use private_mesh.Prelude.{
  ◌+◌, ◌≤◌, ◌≡◌, refl, ◌++◌, length, length-append, take-append_exact, drop-append_exact, ok, arith,
}
use private_mesh.Text.{Text}
use private_mesh.Binary.{put_uvarint}
use private_mesh.Binary.Uvarint.{read-put_uvarint, length-put_uvarint_small}
use private_mesh.Wal.Error.{max_record_size}
use private_mesh.Wal.Record.{write_string, read_string, read_bytes}

read_bytes-append :
    (value rest : Text) → read_bytes (length value) (value ++ rest) ≡ ok (value, rest)
unfolding read_bytes
read_bytes-append value rest = ground (
  arith,
  length-append value rest,
  take-append_exact (length value) value rest refl,
  drop-append_exact (length value) value rest refl,
)

pub read-write_string :
    (value rest : Text)
    → length value ≤ max_record_size
    → read_string (write_string value ++ rest) ≡ ok (value, rest)
unfolding write_string read_string
read-write_string value rest h = rw append_assoc (
    ground (
      arith,
      read-put_uvarint (length value) (value ++ rest) (omega arith),
      read_bytes-append value rest,
    ))

pub length-write_string :
    (value : Text) → length value ≤ max_record_size → length (write_string value) ≤ length value + 4
unfolding write_string
length-write_string value h = omega (
  arith,
  length-append (put_uvarint (length value)) value,
  length-put_uvarint_small (length value) (omega arith),
)
