-- ===== src/Wal/Record/Limits.antt =====
-- What `encodeMutation` accepts, exactly.
use native.Mathlib.Decide.{dec_le}
use private_mesh.Prelude.{
  ℕ, ◌+◌, ◌-◌, ◌≤◌, ◌<◌, ◌≡◌, ◌⊎◌, Bool-cases, inl, inr, true, false, [], ◌++◌, length,
  length-append, ok, err, arith, if◌then◌else◌,
}
use private_mesh.Text.{trim_space, is_empty}
use private_mesh.Binary.{put_be}
use private_mesh.Binary.BigEndian.{length-put_be}
use private_mesh.Document.{Mutation}
use private_mesh.Wal.Error.{record_too_large, id_required, max_record_size}
use private_mesh.Wal.Record.{write_string, mutation_payload, encode_mutation, encode_commit}
use private_mesh.Wal.Record.Strings.{length-write_string}
use private_mesh.Wal.Record.RoundTrip.{CanStore}

pub length-mutation_payload :
    (sequence : ℕ) (m : Mutation)
    → length m.document.id + length m.document.title + length m.document.body ≤ max_record_size - 32
    → (0 < length (mutation_payload sequence m))
      × (length (mutation_payload sequence m) ≤ max_record_size)
unfolding mutation_payload
length-mutation_payload sequence m h = ground (
  arith,
  length-put_be 8 sequence,
  length-append (put_be 8 sequence) (
      write_string m.document.id
      ++ (if m.deleted then [] else write_string m.document.title ++ write_string m.document.body)),
  length-append (write_string m.document.id)
      (if m.deleted then [] else write_string m.document.title ++ write_string m.document.body),
  length-append (write_string m.document.title) (write_string m.document.body),
  length-write_string m.document.id,
  length-write_string m.document.title,
  length-write_string m.document.body,
)

pub length-encode_commit : (sequence : ℕ) → length (encode_commit sequence) ≡ 9
unfolding encode_commit
length-encode_commit sequence = omega (arith, length-put_be 8 sequence)

-- A mutation that the log can hold is encoded: the last size check never fails.
pub encode_mutation-ok :
    (sequence : ℕ) (m : Mutation)
    → CanStore m
    → encode_mutation sequence m ≡ ok (mutation_payload sequence m)
unfolding encode_mutation
encode_mutation-ok sequence m c = ground (arith, length-mutation_payload sequence m)

-- `encodeMutation` refuses a blank ID first, then a size over the limit, and encodes every mutation
-- that the log can hold; there is no other case.
encode_mutation_cases :
    (sequence : ℕ) (m : Mutation)
    → ((is_empty (trim_space m.document.id) ≡ true)
        × (encode_mutation sequence m ≡ err id_required))
      ⊎ ((is_empty (trim_space m.document.id) ≡ false)
          × (max_record_size - 32
              < length m.document.id + length m.document.title + length m.document.body)
          × (encode_mutation sequence m ≡ err record_too_large))
      ⊎ (CanStore m × (encode_mutation sequence m ≡ ok (mutation_payload sequence m)))
unfolding encode_mutation
encode_mutation_cases sequence m = elim (Bool-cases (is_empty (trim_space m.document.id))) [
  | inl blank ↦ inl (blank, rw blank)
  | inr filled ↦
      elim (dec_le (length m.document.id + length m.document.title + length m.document.body)
        (max_record_size - 32)) [
          | yes fits ↦
              let c : CanStore m = record { has_id = filled; fits = fits } in
              inr (inr (c, encode_mutation-ok sequence m c))
          | no over ↦ inr (inl (filled, omega arith, ground arith))
        ]
]
