-- ===== src/Wal/Scan/Contents.antt =====
-- `scanLog` reads from the bytes of a log what they stand for, up to a record that is cut short.
use mathlib.Core.List.{append_assoc, append-nil}
use private_mesh.Prelude.{
  ℕ, zero, suc, ◌+◌, ◌^◌, ◌≤◌, ◌<◌, ◌≡◌, Bool, true, false, List, [], ◌∷◌, ◌++◌, length, ok, arith,
  refl, length-append, ap, ◌∙◌, drop-append_exact,
}
use private_mesh.Text.{Text}
use private_mesh.Document.{Mutation}
use private_mesh.Wal.Record.{mutation_payload, encode_commit}
use private_mesh.Wal.Record.RoundTrip.{
  CanStore, stored, decode-mutation_payload, decode-encode_commit,
}
use private_mesh.Wal.Record.Limits.{length-mutation_payload, length-encode_commit}
use private_mesh.Wal.Frame.{
  Found, frame, read_frame, is_bad_size, at_end, partial, payload, header, header_size,
}
use private_mesh.Wal.Frame.Reading.{
  length-frame, read_frame-frame, read_header-header, length-header,
}
use private_mesh.Wal.Scan.{Entry, Scan, accept, take_record, scan_records, finished, scan, start}
use private_mesh.Wal.Scan.Items.{
  Item, bytes_of, last_of, committed_of, entries_of, appends, commits, IsValid,
}

abbrev pub entry_of : ℕ → Mutation → Entry
entry_of sequence m = record { sequence = sequence; mutation = stored m }

accept-mutation_payload :
    (s : Scan) (m : Mutation)
    → CanStore m
    → s.last_sequence + 1 < 2 ^ 64
    → accept (mutation_payload (s.last_sequence + 1) m) s
      ≡ ok (record s {
        last_sequence = s.last_sequence + 1;
        valid_offset = s.valid_offset + length (frame (mutation_payload (s.last_sequence + 1) m));
        entries = s.entries ++ (entry_of (s.last_sequence + 1) m ∷ []);
      })
unfolding accept take_record
accept-mutation_payload s m c fits =
    rw (decode-mutation_payload (s.last_sequence + 1) m (omega arith) fits c)
      (ground (arith, length-frame (mutation_payload (s.last_sequence + 1) m)))

accept-encode_commit :
    (s : Scan) (c : ℕ)
    → s.committed_sequence < c
    → c ≤ s.last_sequence
    → c < 2 ^ 64
    → accept (encode_commit c) s
      ≡ ok (record s {
        committed_sequence = c;
        valid_offset = s.valid_offset + length (frame (encode_commit c));
      })
unfolding accept take_record
accept-encode_commit s c above below fits =
    rw (decode-encode_commit c (omega arith) fits) (ground (arith, length-frame (encode_commit c)))

pub good_mutation_size :
    (sequence : ℕ) (m : Mutation)
    → CanStore m
    → is_bad_size (length (mutation_payload sequence m)) ≡ false
unfolding is_bad_size
good_mutation_size sequence m c = ground (arith, length-mutation_payload sequence m c.fits)

pub good_commit_size : (c : ℕ) → is_bad_size (length (encode_commit c)) ≡ false
unfolding is_bad_size
good_commit_size c = ground (arith, length-encode_commit c)

-- The result once the records have been read.
abbrev pub after : List Item → Scan → Scan
after items s = record s {
  last_sequence = last_of s.last_sequence items;
  committed_sequence = committed_of s.committed_sequence items;
  valid_offset = s.valid_offset + length (bytes_of s.last_sequence items);
  entries = s.entries ++ entries_of s.last_sequence items;
}

-- What follows the records: nothing that is left of a record, or a piece of one.
abbrev pub tail_found : Bool → Found
tail_found cut = elim cut [ true ↦ partial | false ↦ at_end ]

abbrev pub close : Bool → Scan → Scan
close cut s = elim cut [ true ↦ record s { incomplete_tail = true } | false ↦ s ]

scan_records_end :
    (fuel : ℕ) (cut : Bool) (tail : Text) (s : Scan)
    → read_frame tail ≡ tail_found cut
    → scan_records (suc fuel) [] tail s ≡ finished (close cut s)
unfolding scan_records
scan_records_end fuel true tail s h = rw (h, scan_records)
scan_records_end fuel false tail s h = rw (h, scan_records)

scan_records_step :
    (fuel : ℕ) (bytes p rest : Text) (s s' : Scan)
    → read_frame bytes ≡ payload p rest
    → accept p s ≡ ok s'
    → scan_records (suc fuel) [] bytes s ≡ scan_records fuel [] rest s'
unfolding scan_records
scan_records_step fuel bytes p rest s s' h e = ground arith

bytes_of-nil : (last : ℕ) → bytes_of last [] ≡ []
unfolding bytes_of
bytes_of-nil last = refl

bytes_of-appends :
    (last : ℕ) (m : Mutation) (items : List Item) (tail : Text)
    → bytes_of last (appends m ∷ items) ++ tail
      ≡ frame (mutation_payload (last + 1) m) ++ (bytes_of (last + 1) items ++ tail)
unfolding bytes_of
bytes_of-appends last m items tail = append_assoc (frame (mutation_payload (last + 1) m)) _ tail

bytes_of-commits :
    (last c : ℕ) (items : List Item) (tail : Text)
    → bytes_of last (commits c ∷ items) ++ tail
      ≡ frame (encode_commit c) ++ (bytes_of last items ++ tail)
unfolding bytes_of
bytes_of-commits last c items tail = append_assoc (frame (encode_commit c)) _ tail

after-nil : (s : Scan) → s ≡ after [] s
unfolding bytes_of
after-nil s = ground (arith, append-nil s.entries)

after-appends :
    (s : Scan) (m : Mutation) (items : List Item)
    → after items (record s {
      last_sequence = s.last_sequence + 1;
      valid_offset = s.valid_offset + length (frame (mutation_payload (s.last_sequence + 1) m));
      entries = s.entries ++ (entry_of (s.last_sequence + 1) m ∷ []);
    })
      ≡ after (appends m ∷ items) s
unfolding bytes_of
after-appends s m items = ground (
  arith,
  append_assoc s.entries (entry_of (s.last_sequence + 1) m ∷ [])
      (entries_of (s.last_sequence + 1) items),
  length-append (frame (mutation_payload (s.last_sequence + 1) m))
      (bytes_of (s.last_sequence + 1) items),
)

after-commits :
    (s : Scan) (c : ℕ) (items : List Item)
    → after items (record s {
      committed_sequence = c;
      valid_offset = s.valid_offset + length (frame (encode_commit c));
    })
      ≡ after (commits c ∷ items) s
unfolding bytes_of
after-commits s c items =
    ground (arith, length-append (frame (encode_commit c)) (bytes_of s.last_sequence items))

length-items : (last : ℕ) (items : List Item) → length items ≤ length (bytes_of last items)
unfolding bytes_of
length-items last [] = omega arith
length-items last (appends m ∷ items) = omega (
  arith,
  length-items (last + 1) items,
  length-frame (mutation_payload (last + 1) m),
  length-append (frame (mutation_payload (last + 1) m)) (bytes_of (last + 1) items),
)
length-items last (commits c ∷ items) = omega (
  arith,
  length-items last items,
  length-frame (encode_commit c),
  length-append (frame (encode_commit c)) (bytes_of last items),
)

-- The loop reads the bytes of valid records as those records, and stops at what follows them.
scan_records-bytes_of :
    (items : List Item) (fuel : ℕ) (cut : Bool) (tail : Text) (s : Scan)
    → IsValid s.last_sequence s.committed_sequence items
    → length items < fuel
    → read_frame tail ≡ tail_found cut
    → scan_records fuel [] (bytes_of s.last_sequence items ++ tail) s
      ≡ finished (close cut (after items s))
scan_records-bytes_of items zero cut tail s v enough h = absurd (omega arith)
scan_records-bytes_of [] (suc fuel) cut tail s v enough h =
    ap (λ t. scan_records (suc fuel) [] (t ++ tail) s) (bytes_of-nil s.last_sequence)
    ∙ scan_records_end fuel cut tail s h
    ∙ ap (λ t. finished (close cut t)) (after-nil s)
scan_records-bytes_of (appends m ∷ items) (suc fuel) cut tail s (c, fits, v) enough h =
    let p = mutation_payload (s.last_sequence + 1) m in
    let rest = bytes_of (s.last_sequence + 1) items ++ tail in
    scan_records_step fuel _ p rest s _
      (ap read_frame (bytes_of-appends s.last_sequence m items tail)
        ∙ read_frame-frame p rest (good_mutation_size (s.last_sequence + 1) m c))
      (accept-mutation_payload s m c fits)
    ∙ scan_records-bytes_of items fuel cut tail _ v (omega arith) h
    ∙ ap (λ t. finished (close cut t)) (after-appends s m items)
scan_records-bytes_of (commits c ∷ items) (suc fuel) cut tail s (above, below, fits, v) enough h =
    let p = encode_commit c in
    let rest = bytes_of s.last_sequence items ++ tail in
    scan_records_step fuel _ p rest s _
      (ap read_frame (bytes_of-commits s.last_sequence c items tail)
        ∙ read_frame-frame p rest (good_commit_size c))
      (accept-encode_commit s c above below fits)
    ∙ scan_records-bytes_of items fuel cut tail _ v (omega arith) h
    ∙ ap (λ t. finished (close cut t)) (after-commits s c items)

pub scan_headed :
    (polls : List Bool) (base : ℕ) (bytes : Text)
    → base < 2 ^ 64
    → scan polls (header base ++ bytes)
      ≡ scan_records (suc (length (header base ++ bytes))) polls bytes (start base)
unfolding scan
scan_headed polls base bytes fits =
    rw (read_header-header base bytes fits, scan)
      (rw (drop-append_exact header_size (header base) bytes (length-header base)))

-- A file that holds the header and the bytes of valid records, and behind them nothing or a piece
-- of a record, scans to those records; the tail is reported exactly where there is one.
pub scan-bytes_of :
    (base : ℕ) (items : List Item) (cut : Bool) (tail : Text)
    → base < 2 ^ 64
    → IsValid base base items
    → read_frame tail ≡ tail_found cut
    → scan [] (header base ++ (bytes_of base items ++ tail))
      ≡ finished (close cut (after items (start base)))
scan-bytes_of base items cut tail fits v h =
    let bytes = bytes_of base items ++ tail in
    scan_headed [] base bytes fits
    ∙ scan_records-bytes_of items _ cut tail (start base) v
        (omega (
          arith,
          length-items base items,
          length-append (header base) bytes,
          length-append (bytes_of base items) tail,
        ))
        h
