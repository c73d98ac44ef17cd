-- ===== src/Segment/Codec/Sealed.antt =====
-- The bytes of a segment that is encoded.
use private_mesh.Prelude.{
  ℕ, ◌==◌, ◌≡◌, sym, ap, Bool, true, false, List, [], none, length, ltb, Result, ok, err, ◌>>=◌,
  ◌>>◌, refuse_if,
}
use private_mesh.Text.{Text}
use private_mesh.Segment.Codec.{Error, Record, invalid, max_payload_size}
use private_mesh.Segment.Codec.Write.{
  encode_segment, encode_payload, sealed, write_payload, by_terms, build_postings, check_records,
  sort_records,
}

-- The payload of records.
abbrev pub payload_of : (Text → List Text) → List Record → Text
payload_of tokenize records =
    write_payload (sort_records records)
      (by_terms (build_postings tokenize 0 (sort_records records) []))

sealed_ok :
    (absent big : Bool) (checked : Result Error (Unit {0})) (payload content : Text)
    (seal : Text → Text)
    → (refuse_if absent invalid
        >> ((checked >> (refuse_if big invalid >> ok payload)) >>= λ x. ok (seal x)))
      ≡ ok content
    → content ≡ seal payload
sealed_ok true big checked payload content seal h = absurd (cc h)
sealed_ok false big (err e) payload content seal h = absurd (cc h)
sealed_ok false true (ok u) payload content seal h = absurd (cc h)
sealed_ok false false (ok u) payload content seal h =
    sym (ap (λ (r : Result Error Text). elim r [ ok x ↦ x | err e ↦ content ]) h)

pub encode_segment-sealed :
    (tokenize : Text → List Text) (digest : Text → Text) (generation : ℕ) (records : List Record)
    (content : Text)
    → encode_segment tokenize digest generation records ≡ ok content
    → content
      ≡ sealed generation (digest (payload_of tokenize records)) (payload_of tokenize records)
unfolding encode_segment encode_payload
encode_segment-sealed tokenize digest generation records content h =
    sealed_ok (generation == 0) (ltb max_payload_size (length (payload_of tokenize records)))
      (check_records none (sort_records records)) (payload_of tokenize records) content
      (λ payload. sealed generation (digest payload) payload) h
