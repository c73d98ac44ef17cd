-- ===== src/Wal/Log/Crash.antt =====
-- `Open` on a file that a crash has cut short behind what was durable.
use mathlib.Core.List.{append_assoc, append-nil}
use native.Mathlib.Decide.{dec_lt}
use private_mesh.Prelude.{
  ℕ, ◌+◌, ◌-◌, ◌≡◌, ◌⊎◌, inl, inr, refl, ap, sym, ◌∙◌, Bool, true, false, List, [], ◌∷◌, ◌++◌,
  length, length-append, take, take_all, take-append_beyond, take-append_exact, take-append_short,
  ok, arith,
}
use private_mesh.Text.{Text, trim_space, is_empty}
use private_mesh.Wal.Record.{mutation_payload, encode_commit}
use private_mesh.Wal.Frame.{
  header, frame, read_frame, read_payload, is_bad_size, at_end, partial, header_size,
}
use private_mesh.Wal.Frame.Reading.{length-header, read_frame-take}
use private_mesh.Wal.Scan.{start}
use private_mesh.Wal.Scan.Items.{Item, appends, commits, bytes_of, IsValid}
use private_mesh.Wal.Scan.Contents.{
  after, close, tail_found, scan-bytes_of, good_mutation_size, good_commit_size,
}
use private_mesh.Wal.Disk.{Disk, scan_log, call, seek_start, seek_end, truncate_file, sync}
use private_mesh.Wal.Writer.{initialize}
use private_mesh.Wal.Log.{open_log, open_file}
use private_mesh.Wal.Log.Spec.{
  state, file, healthy, IsLog, bytes_of-nil, bytes_of-appends_cons, bytes_of-commits_cons,
}

-- What a cut leaves of the bytes of records: whole records, and behind them nothing or a piece of
-- the next one.
pub record Cut (last : ℕ) (items : List Item) (k : ℕ) : Type 0 where
  pub kept : List Item
  pub lost : List Item
  pub tail : Text
  pub cut : Bool
  pub splits : items ≡ kept ++ lost
  pub bytes : take k (bytes_of last items) ≡ bytes_of last kept ++ tail
  pub found : read_frame tail ≡ tail_found cut

found_of :
    (t : Text)
    → (read_frame t ≡ at_end) ⊎ (read_frame t ≡ partial)
    → (cut : Bool) × (read_frame t ≡ tail_found cut)
found_of t (inl h) = (false, h)
found_of t (inr h) = (true, h)

Cut-none : (last k : ℕ) → Cut last [] k
unfolding bytes_of read_frame
Cut-none last k = record {
  kept = [];
  lost = [];
  tail = [];
  cut = false;
  splits = refl;
  bytes = take_all k [] (omega arith);
  found = refl;
}

-- One record in front: the cut falls inside of it, or behind it.
Cut-item :
    (item : Item) (items : List Item) (last last' k : ℕ) (p : Text)
    → ((more : List Item) → bytes_of last (item ∷ more) ≡ frame p ++ bytes_of last' more)
    → is_bad_size (length p) ≡ false
    → Cut last' items (k - length (frame p))
    → Cut last (item ∷ items) k
Cut-item item items last last' k p same good rest = elim (dec_lt k (length (frame p))) [
  | yes short ↦
      let (cut, found) = found_of (take k (frame p)) (read_frame-take k p good short) in
      record {
        kept = [];
        lost = item ∷ items;
        tail = take k (frame p);
        cut = cut;
        splits = refl;
        bytes =
            ap (take k) (same items)
            ∙ take-append_short k (frame p) (bytes_of last' items) (omega arith)
            ∙ ap (λ t. t ++ take k (frame p)) (sym (bytes_of-nil last));
        found = found;
      }
  | no long ↦ record {
    kept = item ∷ rest.kept;
    lost = rest.lost;
    tail = rest.tail;
    cut = rest.cut;
    splits = ap (λ t. item ∷ t) rest.splits;
    bytes =
        ap (take k) (same items)
        ∙ take-append_beyond (length (frame p)) k (frame p) (bytes_of last' items) refl
            (omega arith)
        ∙ ap (λ t. frame p ++ t) rest.bytes
        ∙ sym (append_assoc (frame p) (bytes_of last' rest.kept) rest.tail)
        ∙ ap (λ t. t ++ rest.tail) (sym (same rest.kept));
    found = rest.found;
  }
]

pub Cut-bytes : (k last c : ℕ) (items : List Item) → IsValid last c items → Cut last items k
Cut-bytes k last c [] v = Cut-none last k
Cut-bytes k last c (appends m ∷ items) (can, fits, v) =
    let p = mutation_payload (last + 1) m in
    Cut-item (appends m) items last (last + 1) k p (bytes_of-appends_cons last m)
      (good_mutation_size (last + 1) m can) (Cut-bytes (k - length (frame p)) (last + 1) c items v)
Cut-bytes k last c (commits c' ∷ items) (above, below, fits, v) =
    let p = encode_commit c' in
    Cut-item (commits c') items last last k p (bytes_of-commits_cons last c') (good_commit_size c')
      (Cut-bytes (k - length (frame p)) last c' items v)

-- A file at rest, after a crash or a close: what it holds is what is durable.
abbrev pub at_rest : Text → Disk
at_rest content = record {
  content = content;
  position = 0;
  is_open = false;
  durable = content;
  faults = [];
}

read_frame-at_end : (t : Text) → read_frame t ≡ at_end → t ≡ []
unfolding read_frame read_payload
read_frame-at_end [] h = refl
read_frame-at_end (b ∷ bs) h = ground arith

abbrev opened : Text → Disk
opened content = record (at_rest content) { is_open = true }

module _ (base : ℕ) (items : List Item) (valid : IsLog base items) where
  length-file : length (file base items) ≡ header_size + length (bytes_of base items)
  length-file = omega (arith, length-header base, length-append (header base) (bytes_of base items))

  scan_log-tail :
      (cut : Bool) (tail : Text)
      → read_frame tail ≡ tail_found cut
      → scan_log [] (opened (file base items ++ tail)) ≡ (
        ok (close cut (after items (start base))),
        record (opened (file base items ++ tail)) { position = length (file base items ++ tail) },
      )
  unfolding scan_log seek_start
  scan_log-tail cut tail found = ground (
    arith,
    append_assoc (header base) (bytes_of base items) tail,
    scan-bytes_of base items cut tail valid.0 valid.1 found,
  )

  initialize-tail :
      (cut : Bool) (tail : Text)
      → read_frame tail ≡ tail_found cut
      → initialize (opened (file base items ++ tail))
        ≡ (ok (close cut (after items (start base))), healthy (file base items) (file base items))
  unfolding initialize seek_end truncate_file sync call
  initialize-tail true tail found = ground (
    arith,
    scan_log-tail true tail found,
    length-file,
    length-append (file base items) tail,
    take-append_exact (header_size + length (bytes_of base items)) (file base items) tail
        length-file,
  )
  initialize-tail false tail found =
      rw (read_frame-at_end tail found, append-nil)
        (ground (
          arith,
          scan_log-tail false [] (rw (read_frame-at_end tail found) at found),
          append-nil (file base items),
          length-file,
        ))

-- `Open` on the bytes of a log with a piece of a record behind them cuts that piece off, makes the
-- rest durable, and stands for the whole records.
pub open_log-tail :
    (path : Text) (base : ℕ) (items : List Item) (cut : Bool) (tail : Text)
    → is_empty (trim_space path) ≡ false
    → IsLog base items
    → read_frame tail ≡ tail_found cut
    → open_log path (at_rest (file base items ++ tail))
      ≡ (ok (state base items), healthy (file base items) (file base items))
unfolding open_log open_file call
open_log-tail path base items true tail named valid found =
    ground (arith, initialize-tail base items valid true tail found)
open_log-tail path base items false tail named valid found =
    ground (arith, initialize-tail base items valid false tail found)
