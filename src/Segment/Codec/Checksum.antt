-- ===== src/Segment/Codec/Checksum.antt =====
-- A segment file is opened only with the payload that its checksum was made of.
use private_mesh.Prelude.{
  ℕ, ◌^◌, ◌≤◌, ◌<◌, ◌≡◌, ◌⊎◌, List, length, length-append, if◌then◌else◌, Result, ok, err,
  Bool-cases, inl, inr, arith, drop-append_exact, take-append_exact,
}
use private_mesh.Text.{Text, text_eq}
use private_mesh.Text.Equality.{text_eq_refl, text_eq_sound}
use private_mesh.Text.Maps.{Map}
use private_mesh.Binary.{put_be, get_be}
use private_mesh.Binary.BigEndian.{get_be-put_be}
use private_mesh.Segment.Codec.{
  Error, file_magic, Record, Posting, FileSegment, checksum_mismatch, max_payload_size,
}
use private_mesh.Segment.Codec.Write.{sealed}
use private_mesh.Segment.Codec.Read.{decode_segment, decode_payload}

-- The segment of a payload that has been decoded.
abbrev pub segment_of :
    ℕ → Result Error (List Record × Map (List Posting)) → Result Error FileSegment
segment_of generation (ok (records, entries)) =
    ok (record { generation = generation; records = records; postings = entries })
segment_of generation (err e) = err e

module _ (digest : Text → Text) (generation : ℕ) (sum payload : Text) (size : length sum ≡ 32)
    (positive : 0 < generation) (fits : generation < 2 ^ 64)
    (small : length payload ≤ max_payload_size) where
  decoded_if : decode_segment digest (sealed generation sum payload) ≡ (
      if text_eq (digest payload) sum
      then segment_of generation (decode_payload payload)
      else err checksum_mismatch)
  unfolding decode_segment sealed put_be get_be
  decoded_if =
      simp
        (
          drop-append_exact 32 sum payload size,
          take-append_exact 32 sum payload size,
          get_be-put_be 8 generation fits,
          get_be-put_be 8 (length payload) (omega arith),
        )
        (ground (arith, length-append sum payload, text_eq_refl file_magic))

  -- A segment file of a positive generation, with a payload of at most the maximal size and any
  -- checksum. If the checksum is the digest of the payload, the outcome is that of decodePayload: the
  -- segment of this generation with the records and the postings that it answers, or its error. If
  -- the checksum is another, the file is refused with ErrChecksumMismatch.
  pub decode-sealed :
      ((digest payload ≡ sum)
        × (decode_segment digest (sealed generation sum payload)
            ≡ segment_of generation (decode_payload payload)))
      ⊎ ((¬ (digest payload ≡ sum))
          × (decode_segment digest (sealed generation sum payload) ≡ err checksum_mismatch))
  decode-sealed = elim (Bool-cases (text_eq (digest payload) sum)) [
    | inl same ↦ inl (text_eq_sound (digest payload) sum same, rw same at decoded_if)
    | inr differs ↦
        inr (λ same. cc (rw (same, text_eq_refl sum) at differs), rw differs at decoded_if)
  ]
