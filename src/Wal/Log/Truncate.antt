-- ===== src/Wal/Log/Truncate.antt =====
-- `Truncate` on a healthy log: the mutations through the checkpoint go, all else stays.
pub mod Kept
pub mod Rewrite
pub mod Replayed
use mathlib.Core.List.{append_assoc, append-nil}
use native.Mathlib.Decide.{dec_lt}
use private_mesh.Prelude.{
  ℕ, zero, suc, ◌+◌, ◌-◌, ◌^◌, ◌≤◌, ◌<◌, ◌≡◌, refl, ap, sym, ◌∙◌, Bool, true, false, List, [], ◌∷◌,
  ◌++◌, length, take, drop, ok, arith, if◌then◌else◌, ltb, Bool-cases, inl, inr,
}
use private_mesh.Text.{Text, is_empty, trim_space}
use private_mesh.Document.{Mutation}
use private_mesh.Wal.Record.{mutation_payload, encode_mutation, encode_commit}
use private_mesh.Wal.Record.RoundTrip.{CanStore, stored}
use private_mesh.Wal.Record.Limits.{encode_mutation-ok}
use private_mesh.Wal.Frame.{header, frame}
use private_mesh.Wal.Scan.{Entry, start}
use private_mesh.Wal.Scan.Items.{
  Item, appends, commits, bytes_of, IsValid, last_of, committed_of, entries_of,
}
use private_mesh.Wal.Scan.Contents.{after, entry_of, good_mutation_size, good_commit_size}
use private_mesh.Wal.Disk.{Disk, call, close_file, seek_end, scan_log, return}
use private_mesh.Wal.Writer.{
  write_entries, write_header, write_temporary, rename, sync_directory, reopen, rewrite,
}
use private_mesh.Wal.Log.{Log, truncate, entries_after, append_record}
use private_mesh.Wal.Log.Spec.{
  state, file, healthy, IsLog, bytes_of-nil, bytes_of-appends_cons, bytes_of-append,
  bytes_of-commits_one, IsValid-append, last_of-append, committed_of-append, committed_bounds,
}
use private_mesh.Wal.Log.Healthy.{append_record-healthy, write-healthy, sync-healthy}
use private_mesh.Wal.Log.Writes.{file-commits}
use private_mesh.Wal.Log.Reads.{scan_log-healthy}
use Kept.{truncated, entries_from, kept_facts, state-truncated, committed_fits, truncated-IsValid}
use Rewrite.{rewrite-healthy}

-- `Truncate` on a healthy log, at a checkpoint between the base and the last commit, answers no
-- error; the log then starts at the checkpoint, keeps the mutations behind it and the last commit,
-- and its whole file is durable.
pub truncate-state :
    (base c : ℕ) (items : List Item) (durable : Text)
    → IsLog base items
    → base ≤ c
    → c ≤ committed_of base items
    → (truncate c (state base items) (healthy (file base items) durable) ≡ (
      ok tt,
      state c (truncated base c items),
      healthy (file c (truncated base c items)) (file c (truncated base c items)),
    ))
      × IsLog c (truncated base c items)
unfolding truncate
truncate-state base c items durable (fits, v) from to = (
  ground (
    arith,
    scan_log-healthy base items (fits, v) durable,
    entries_from base c items v from to,
    rewrite-healthy c (committed_of base items) (c - base) items (file base items) durable
        (kept_facts base c items v from to).0,
    state-truncated base c items v from to,
  ),
  (omega (arith, committed_fits base items fits v), truncated-IsValid base c items fits v from to),
)
