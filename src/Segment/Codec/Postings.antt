-- ===== src/Segment/Codec/Postings.antt =====
-- A whole payload is read back: postings refer to records by the differences of their ordinals.
use mathlib.Core.List.{append_assoc, append-nil}
use private_mesh.Prelude.{
  ℕ, ◌+◌, ◌^◌, ◌≤◌, ◌<◌, ◌≡◌, refl, true, false, List, [], ◌∷◌, ◌++◌, map, length, length-map,
  Option, none, some, ok, arith,
}
use private_mesh.Text.{Text, is_empty}
use private_mesh.Text.Maps.{Map}
use private_mesh.Binary.{put_uvarint}
use private_mesh.Segment.Codec.{Record, Posting, max_string_size, max_record_count, max_term_count}
use private_mesh.Segment.Codec.Write.{
  write_records, delta, write_postings, write_terms, write_payload,
}
use private_mesh.Segment.Codec.Read.{
  next_ordinal, is_present, read_posting, read_postings, read_term, read_terms, out_of_order,
  decode_payload,
}
use private_mesh.Segment.Codec.Records.{
  read_number-put, read_count-put, read-write_string, AreStorable, kept, read-write_records,
}

-- The ordinal comes behind the one before it.
abbrev pub Behind : Option ℕ → ℕ → Type 0
Behind none ordinal = Unit {0}
Behind (some previous) ordinal = previous < ordinal

next_ordinal-delta :
    (previous : Option ℕ) (ordinal : ℕ)
    → Behind previous ordinal
    → ordinal < 2 ^ 64
    → (next_ordinal previous (delta previous ordinal) ≡ ok ordinal)
      × (delta previous ordinal < 2 ^ 64)
unfolding next_ordinal delta
next_ordinal-delta none ordinal b h = (refl, h)
next_ordinal-delta (some previous) ordinal b h = ground arith

-- A posting of a record that is there, with a frequency that is not 0.
pub record Refers (records : List Record) (p : Posting) : Type 0 where
  pub present : is_present records p.ordinal ≡ true
  pub ordinal_fits : p.ordinal < 2 ^ 64
  pub title_fits : p.title_frequency < 2 ^ 64
  pub body_fits : p.body_frequency < 2 ^ 64
  pub occurs : 0 < p.title_frequency + p.body_frequency

abbrev pub ArePostings : List Record → Option ℕ → List Posting → Type 0
ArePostings records previous [] = Unit {0}
ArePostings records previous (p ∷ ps) =
    Refers records p × Behind previous p.ordinal × ArePostings records (some p.ordinal) ps

read-write_postings :
    (records : List Record) (previous : Option ℕ) (ps : List Posting) (rest : Text)
    → ArePostings records previous ps
    → read_postings (length ps) records previous (write_postings previous ps ++ rest)
      ≡ ok (ps, rest)
unfolding read_postings read_posting write_postings
read-write_postings records previous [] rest v = refl
read-write_postings records previous (p ∷ ps) rest v =
    let (counted, fits) = next_ordinal-delta previous p.ordinal v.1 (v.0.ordinal_fits) in
    simp append_assoc (
      ground (
        arith,
        counted,
        v.0.present,
        v.0.occurs,
        read_number-put (delta previous p.ordinal) (
            put_uvarint p.title_frequency
            ++ (put_uvarint p.body_frequency ++ (write_postings (some p.ordinal) ps ++ rest))),
        read_number-put p.title_frequency
            (put_uvarint p.body_frequency ++ (write_postings (some p.ordinal) ps ++ rest)),
        read_number-put p.body_frequency (write_postings (some p.ordinal) ps ++ rest),
        read-write_postings records (some p.ordinal) ps rest v.2,
      ))

-- Terms in ascending order, each with postings.
abbrev pub AreTerms : List Record → Option Text → Map (List Posting) → Type 0
AreTerms records previous [] = Unit {0}
AreTerms records previous ((term, ps) ∷ m) =
    (is_empty term ≡ false)
    × (out_of_order previous term ≡ false)
    × (length term ≤ max_string_size)
    × (length ps ≤ length records)
    × ArePostings records none ps
    × AreTerms records (some term) m

read-write_terms :
    (records : List Record) (previous : Option Text) (m : Map (List Posting)) (rest : Text)
    → length records ≤ max_record_count
    → AreTerms records previous m
    → read_terms (length m) records previous (write_terms m ++ rest) ≡ ok (m, rest)
unfolding read_terms read_term write_terms
read-write_terms records previous [] rest few v = refl
read-write_terms records previous ((term, ps) ∷ m) rest few v = simp append_assoc (
    ground (
      arith,
      v.0,
      v.1,
      read-write_string term
          (put_uvarint (length ps) ++ (write_postings none ps ++ (write_terms m ++ rest))),
      read_count-put (length ps) (length records)
          (write_postings none ps ++ (write_terms m ++ rest)),
      read-write_postings records none ps (write_terms m ++ rest) v.4,
      read-write_terms records (some term) m rest few v.5,
    ))

-- What `encodePayload` writes for storable records by ascending IDs, and for postings by ascending
-- terms that refer to them, `decodePayload` reads back, without the titles and the bodies of
-- deletions.
pub decode-write_payload :
    (records : List Record) (entries : Map (List Posting))
    → AreStorable none records
    → AreTerms (map kept records) none entries
    → length records ≤ max_record_count
    → length entries ≤ max_term_count
    → decode_payload (write_payload records entries) ≡ ok (map kept records, entries)
unfolding decode_payload write_payload is_empty
decode-write_payload records entries storable terms few few_terms = ground (
  arith,
  length-map kept records,
  read_count-put (length records) max_record_count
      (write_records records ++ (put_uvarint (length entries) ++ write_terms entries)),
  read-write_records none records (put_uvarint (length entries) ++ write_terms entries) storable,
  read_count-put (length entries) max_term_count (write_terms entries),
  append-nil (write_terms entries),
  read-write_terms (map kept records) none entries [] (rw (length-map kept records) few) terms,
)
