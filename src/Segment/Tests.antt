-- ===== src/Segment/Tests.antt =====
-- Concrete segments, and the theorems at concrete inputs.
use private_mesh.Text.Terms.{frequencies, keys, insert_all}
use private_mesh.Prelude.{
  ℕ, zero, suc, ◌+◌, ◌≤◌, ◌≡◌, refl, true, false, List, [], ◌∷◌, ◌++◌, map, length, length-append,
  replicate, none, some, arith, ok, err, ap, ◌⊎◌, inl, ◌∙◌, inr,
}
use private_mesh.Text.{Text, ascii, text_eq, text_lt, trim_space, is_empty}
use private_mesh.Text.Maps.{Map}
use private_mesh.Binary.{put_uvarint}
use private_mesh.Binary.Uvarint.{length-put_uvarint}
use private_mesh.Segment.Codec.{
  Record, Posting, FileSegment, max_string_size, max_payload_size, invalid, checksum_mismatch,
}
use private_mesh.Segment.Codec.Write.{
  encode_payload, write_payload, sealed, sort_records, insert_record, check_records, repeats,
  by_terms, build_postings, index_record, sorted_entries, add_postings, write_records, write_record,
  write_string, write_terms,
}
use private_mesh.Segment.Codec.Read.{decode_payload, decode_segment, out_of_order, is_present}
use private_mesh.Segment.Codec.Records.{kept, IsStorable}
use private_mesh.Segment.Codec.Postings.{decode-write_payload}
use private_mesh.Segment.Codec.Checksum.{segment_of, decode-sealed}
use private_mesh.Segment.Codec.Oversized.{any_oversized, is_oversized, decode-encode_oversized}
use private_mesh.Segment.Directory.{Directory, segment_name, is_segment_name}
use private_mesh.Segment.Store.Merging.{merged_records}

abbrev one : Record
one = record {
  document = record { id = ascii "a"; title = ascii "T"; body = ascii "x y" };
  deleted = false;
}

abbrev gone : Record
gone = record { document = record { id = ascii "b"; title = []; body = [] }; deleted = true }

abbrev postings : Map (List Posting)
postings =
    (ascii "x", record { ordinal = 0; title_frequency = 0; body_frequency = 1 } ∷ [])
    ∷ (ascii "y", record { ordinal = 0; title_frequency = 0; body_frequency = 1 } ∷ [])
    ∷ []

one-IsStorable : IsStorable one
unfolding trim_space is_empty
one-IsStorable = record {
  has_id = refl;
  id_fits = omega arith;
  title_fits = omega arith;
  body_fits = omega arith;
}

gone-IsStorable : IsStorable gone
unfolding trim_space is_empty
gone-IsStorable = record {
  has_id = refl;
  id_fits = omega arith;
  title_fits = omega arith;
  body_fits = omega arith;
}

a_b : out_of_order (some (ascii "a")) (ascii "b") ≡ false
unfolding out_of_order text_lt
a_b = refl

x_y : out_of_order (some (ascii "x")) (ascii "y") ≡ false
unfolding out_of_order text_lt
x_y = refl

first : (t : Text) → out_of_order none t ≡ false
unfolding out_of_order
first t = refl

named : is_empty (ascii "x") ≡ false
unfolding is_empty
named = refl

named_y : is_empty (ascii "y") ≡ false
unfolding is_empty
named_y = refl

here : is_present (map kept (one ∷ gone ∷ [])) 0 ≡ true
unfolding is_present
here = refl

decode-write_payload_example :
    decode_payload (write_payload (one ∷ gone ∷ []) postings)
    ≡ ok (map kept (one ∷ gone ∷ []), postings)
decode-write_payload_example =
    decode-write_payload (one ∷ gone ∷ []) postings
      (one-IsStorable, first (ascii "a"), (gone-IsStorable, a_b, tt))
      (
        named,
        first (ascii "x"),
        omega arith,
        omega arith,
        (
          record {
            present = here;
            ordinal_fits = omega arith;
            title_fits = omega arith;
            body_fits = omega arith;
            occurs = omega arith;
          },
          tt,
          tt,
        ),
        (
          named_y,
          x_y,
          omega arith,
          omega arith,
          (
            record {
              present = here;
              ordinal_fits = omega arith;
              title_fits = omega arith;
              body_fits = omega arith;
              occurs = omega arith;
            },
            tt,
            tt,
          ),
          tt,
        ),
      )
      (omega arith) (omega arith)

-- A digest of 32 bytes.
abbrev digest : Text → Text
digest payload = replicate 32 (length payload)

-- The payload of the records above, under its digest.
abbrev payload : Text
payload = write_payload (one ∷ gone ∷ []) postings

decode-sealed_example :
    ((digest payload ≡ digest payload)
      × (decode_segment digest (sealed 7 (digest payload) payload)
          ≡ segment_of 7 (decode_payload payload)))
    ⊎ ((¬ (digest payload ≡ digest payload))
        × (decode_segment digest (sealed 7 (digest payload) payload) ≡ err checksum_mismatch))
unfolding write_payload put_uvarint write_records write_record write_string write_terms
    private_mesh.Segment.Codec.Write.write_postings private_mesh.Segment.Codec.Write.delta
decode-sealed_example =
    decode-sealed digest 7 (digest payload) payload refl (omega arith) (omega arith) (omega arith)

-- That file is opened.
opened :
    decode_segment digest (sealed 7 (digest payload) payload)
    ≡ ok (record { generation = 7; records = map kept (one ∷ gone ∷ []); postings = postings })
opened = elim decode-sealed_example [
  | inl (same, e) ↦ e ∙ ap (segment_of 7) decode-write_payload_example
  | inr (differs, e) ↦ absurd (differs refl)
]

length-replicate : (n a : ℕ) → length (replicate n a) ≡ n
length-replicate zero a = refl
length-replicate (suc n) a = ap suc (length-replicate n a)

-- A text of one byte more than a segment can hold.
huge : Text
huge = replicate (max_string_size + 1) 97

length-huge : length huge ≡ max_string_size + 1
unfolding huge
length-huge = length-replicate (max_string_size + 1) 97

abbrev no_terms : Text → List Text
no_terms text = []

big : Record
big = record { document = record { id = ascii "a"; title = []; body = huge }; deleted = false }

big_oversized : any_oversized (big ∷ []) ≡ true
unfolding any_oversized is_oversized big
big_oversized = ground (arith, length-huge)

length-write_string : (value : Text) → length (write_string value) ≤ length value + 10
unfolding write_string
length-write_string value =
    omega
      (arith, length-append (put_uvarint (length value)) value, length-put_uvarint (length value))

length-big : length (write_payload (big ∷ []) []) ≤ max_payload_size
unfolding write_payload write_records write_record write_terms big
length-big =
    let id = write_string (ascii "a") in
    let fields = write_string [] ++ write_string huge in
    let back = put_uvarint 0 ++ [] in
    omega (
      arith,
      length-huge,
      length-put_uvarint 0,
      length-put_uvarint 1,
      length-write_string (ascii "a"),
      length-write_string [],
      length-write_string huge,
      length-append (put_uvarint 1) (((0 ∷ id ++ fields) ++ []) ++ back),
      length-append ((0 ∷ id ++ fields) ++ []) back,
      length-append (0 ∷ id ++ fields) [],
      length-append id fields,
      length-append (write_string []) (write_string huge),
      length-append (put_uvarint 0) [],
    )

big_written : encode_payload no_terms (big ∷ []) ≡ ok (write_payload (big ∷ []) [])
unfolding encode_payload sort_records insert_record check_records repeats by_terms build_postings
    index_record frequencies keys insert_all sorted_entries add_postings trim_space is_empty big
big_written = ground (arith, length-big)

decode-encode_oversized_example : decode_payload (write_payload (big ∷ []) []) ≡ err invalid
decode-encode_oversized_example =
    decode-encode_oversized no_terms (big ∷ []) (write_payload (big ∷ []) []) big_written
      big_oversized

abbrev old : List FileSegment
old =
    record { generation = 1; records = one ∷ (record gone { deleted = false }) ∷ []; postings = [] }
    ∷ record { generation = 2; records = gone ∷ []; postings = [] }
    ∷ []

abbrev merged : FileSegment
merged = record { generation = 3; records = merged_records old; postings = [] }

-- Two segments, which are more than one.
abbrev two_segments : Directory
two_segments = record {
  files =
      (segment_name 1, sealed 1 (digest payload) payload)
      ∷ (segment_name 2, sealed 2 (digest payload) payload)
      ∷ [];
  faults = false ∷ false ∷ true ∷ [];
}

name_7 : is_segment_name (segment_name 7) ≡ true
unfolding is_segment_name segment_name text_eq
name_7 = refl
