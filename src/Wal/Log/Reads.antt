-- ===== src/Wal/Log/Reads.antt =====
-- `Replay` on a healthy log: the mutations through the last commit, in order.
use mathlib.Core.List.{append-nil}
use native.Mathlib.Decide.{dec_lt}
use private_mesh.Prelude.{
  ℕ, zero, suc, ◌+◌, ◌-◌, ◌≡◌, refl, ap, sym, ◌∙◌, false, List, [], ◌∷◌, ◌++◌, take, ok, arith,
  leb_of_le, leb_of_gt,
}
use private_mesh.Text.{Text}
use private_mesh.Wal.Frame.{header, read_frame}
use private_mesh.Wal.Scan.{Entry, scan, start, finished}
use private_mesh.Wal.Scan.Items.{Item, appends, commits, bytes_of, committed_of, entries_of}
use private_mesh.Wal.Scan.Contents.{after, scan-bytes_of, entry_of}
use private_mesh.Wal.Disk.{scan_log, seek_start}
use private_mesh.Wal.Log.{replay, entries_through}
use private_mesh.Wal.Log.Spec.{state, file, healthy, IsLog}

module _ (base : ℕ) (items : List Item) (valid : IsLog base items) where
  scan-file : scan [] (file base items) ≡ finished (after items (start base))
  unfolding read_frame
  scan-file =
      ap (λ t. scan [] (header base ++ t)) (sym (append-nil (bytes_of base items)))
      ∙ scan-bytes_of base items false [] valid.0 valid.1 refl

  pub scan_log-healthy :
      (durable : Text)
      → scan_log [] (healthy (file base items) durable)
        ≡ (ok (after items (start base)), healthy (file base items) durable)
  unfolding scan_log seek_start
  scan_log-healthy durable = ground (arith, scan-file)

take-no_entries : (n : ℕ) → take {A = Entry} n [] ≡ []
take-no_entries zero = refl
take-no_entries (suc n) = refl

-- Of entries numbered from `last + 1` on, those through `sequence` stand in front.
entries_through-entries_of :
    (sequence last : ℕ) (items : List Item)
    → entries_through sequence (entries_of last items)
      ≡ take (sequence - last) (entries_of last items)
unfolding entries_through
entries_through-entries_of sequence last [] = sym (take-no_entries (sequence - last))
entries_through-entries_of sequence last (appends m ∷ items) =
    let ih = entries_through-entries_of sequence (last + 1) items in
    let first = entry_of (last + 1) m in
    let rest = entries_of (last + 1) items in
    elim (dec_lt last sequence) [
      | yes p ↦
          let e : sequence - last ≡ suc (sequence - (last + 1)) = omega arith in
          rw (e, leb_of_le (last + 1) sequence (omega arith), ih)
      | no p ↦
          let e : sequence - last ≡ 0 = omega arith in
          let e' : sequence - (last + 1) ≡ 0 = omega arith in
          rw (e, leb_of_gt (last + 1) sequence (omega arith), ih, e')
    ]
entries_through-entries_of sequence last (commits c ∷ items) =
    entries_through-entries_of sequence last items

-- `Replay` on a healthy log answers the mutations behind the base sequence through the last
-- commit, with their sequences and in order, and nothing that is not committed; the log and its
-- file are as before.
pub replay-state :
    (base : ℕ) (items : List Item) (durable : Text)
    → IsLog base items
    → replay [] (state base items) (healthy (file base items) durable) ≡ (
      ok (take (committed_of base items - base) (entries_of base items)),
      state base items,
      healthy (file base items) durable,
    )
unfolding replay
replay-state base items durable valid = ground (
  arith,
  scan_log-healthy base items valid durable,
  entries_through-entries_of (committed_of base items) base items,
)
