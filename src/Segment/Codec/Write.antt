-- ===== src/Segment/Codec/Write.antt =====
-- `writeSegment` and what it calls: the bytes of a segment.
use private_mesh.Text.Terms.{frequency, frequencies, keys, insert_all}
use private_mesh.Prelude.{
  ℕ, ◌+◌, ◌-◌, ◌%◌, ◌^◌, Bool, false, List, [], ◌∷◌, ◌++◌, length, ltb, ◌==◌, if◌then◌else◌, Option,
  none, some, Result, ok, ◌>>=◌, ◌>>◌, refuse_if,
}
use private_mesh.Text.{Text, text_eq, text_lt, trim_space, is_empty}
use private_mesh.Text.Maps.{Map, find, put}
use private_mesh.Binary.{put_be, put_uvarint}
use private_mesh.Segment.Codec.{
  Error, file_magic, format_version, header_size, max_payload_size, delete_flag, present_flag,
  Record, Posting, invalid,
}

-- slices.SortFunc by ID.
unfoldable pub insert_record : Record → List Record → List Record
insert_record r [] = r ∷ []
insert_record r (s ∷ rs) =
    let rest = insert_record r rs in
    if text_lt s.document.id r.document.id then s ∷ rest else r ∷ s ∷ rs

unfoldable pub sort_records : List Record → List Record
unfolding insert_record
sort_records [] = []
sort_records (r ∷ rs) = insert_record r (sort_records rs)

-- `records[position-1].document.ID == current.document.ID`
unfoldable pub repeats : Option Text → Text → Bool
repeats none id = false
repeats (some previous) id = text_eq previous id

-- The first loop of `encodePayload`, over the sorted records.
unfoldable pub check_records : Option Text → List Record → Result Error (Unit {0})
check_records previous [] = ok tt
check_records previous (r ∷ rs) = do
  refuse_if (is_empty (trim_space r.document.id)) invalid
  refuse_if (repeats previous r.document.id) invalid
  check_records (some r.document.id) rs

unfoldable pub postings_at : Text → Map (List Posting) → List Posting
postings_at term m = elim (find term m) [ none ↦ [] | some ps ↦ ps ]

-- The postings of one document, for its terms.
unfoldable pub add_postings :
    ℕ → Map ℕ → Map ℕ → List Text → Map (List Posting) → Map (List Posting)
add_postings ordinal titles bodies [] m = m
add_postings ordinal titles bodies (term ∷ terms) m = add_postings ordinal titles bodies terms (
    put term
      (postings_at term m
        ++ (record {
          ordinal = ordinal;
          title_frequency = frequency term titles;
          body_frequency = frequency term bodies;
        }
            ∷ []))
      m)

module _ (tokenize : Text → List Text) where
  unfoldable pub index_record : ℕ → Record → Map (List Posting) → Map (List Posting)
  index_record ordinal r m =
      let titles = frequencies (tokenize r.document.title) [] in
      let bodies = frequencies (tokenize r.document.body) [] in
      if r.deleted
      then m
      else add_postings ordinal titles bodies
          (insert_all (keys bodies) (insert_all (keys titles) [])) m

  unfoldable pub build_postings : ℕ → List Record → Map (List Posting) → Map (List Posting)
  build_postings ordinal [] m = m
  build_postings ordinal (r ∷ rs) m = build_postings (ordinal + 1) rs (index_record ordinal r m)

unfoldable pub write_string : Text → Text
write_string value = put_uvarint (length value) ++ value

unfoldable pub write_record : Record → Text
write_record r =
    (if r.deleted then delete_flag else present_flag) ∷ write_string r.document.id
    ++ (if r.deleted then [] else write_string r.document.title ++ write_string r.document.body)

unfoldable pub write_records : List Record → Text
write_records [] = []
write_records (r ∷ rs) = write_record r ++ write_records rs

-- The difference to the ordinal before, on uint64.
unfoldable pub delta : Option ℕ → ℕ → ℕ
delta none ordinal = ordinal
delta (some previous) ordinal = (ordinal + 2 ^ 64 - previous) % 2 ^ 64

unfoldable pub write_postings : Option ℕ → List Posting → Text
write_postings previous [] = []
write_postings previous (p ∷ ps) =
    put_uvarint (delta previous p.ordinal)
    ++ (put_uvarint p.title_frequency
        ++ (put_uvarint p.body_frequency ++ write_postings (some p.ordinal) ps))

unfoldable pub write_terms : Map (List Posting) → Text
write_terms [] = []
write_terms ((term, ps) ∷ m) =
    write_string term ++ (put_uvarint (length ps) ++ (write_postings none ps ++ write_terms m))

-- The entries of the postings by ascending terms.
unfoldable pub sorted_entries : List Text → Map (List Posting) → Map (List Posting)
sorted_entries [] m = []
sorted_entries (term ∷ terms) m = (term, postings_at term m) ∷ sorted_entries terms m

unfoldable pub by_terms : Map (List Posting) → Map (List Posting)
by_terms m = sorted_entries (insert_all (keys m) []) m

-- What `encodePayload` writes, for sorted records and entries.
unfoldable pub write_payload : List Record → Map (List Posting) → Text
write_payload records entries =
    put_uvarint (length records)
    ++ (write_records records ++ (put_uvarint (length entries) ++ write_terms entries))

module _ (tokenize : Text → List Text) where
  unfoldable pub encode_payload : List Record → Result Error Text
  encode_payload records = do
    let sorted = sort_records records
    check_records none sorted
    let payload = write_payload sorted (by_terms (build_postings tokenize 0 sorted []))
    refuse_if (ltb max_payload_size (length payload)) invalid
    ok payload

-- The two writes of `writeSegment`: the header, which ends with the checksum, and the payload.
unfoldable pub sealed : ℕ → Text → Text → Text
sealed generation checksum payload =
    file_magic
    ++ (put_be 2 format_version
        ++ (put_be 2 header_size
            ++ (put_be 8 generation ++ (put_be 8 (length payload) ++ (checksum ++ payload)))))

unfoldable pub encode_segment :
    (Text → List Text) → (Text → Text) → ℕ → List Record → Result Error Text
encode_segment tokenize digest generation records = do
  refuse_if (generation == 0) invalid
  payload ← encode_payload tokenize records
  ok (sealed generation (digest payload) payload)
