-- ===== src/Wal/Log/Tests.antt =====
-- Concrete runs of the log, and its theorems at concrete inputs.
use private_mesh.Prelude.{
  ◌+◌, ◌-◌, ◌≡◌, ◌≢◌, refl, true, false, List, [], ◌∷◌, ◌++◌, length, take, drop, Result, ok, err,
  arith,
}
use private_mesh.Text.{Text, ascii, trim_space, is_empty}
use private_mesh.Document.{Mutation}
use private_mesh.Wal.Error.{Error, canceled, corrupt}
use private_mesh.Wal.Record.{mutation_payload, decode_record}
use private_mesh.Wal.Record.RoundTrip.{CanStore, stored, kind_of, decode-mutation_payload}
use private_mesh.Wal.Frame.{header, read_frame, partial}
use private_mesh.Wal.Scan.{Entry, scan, start, finished, out_of_fuel}
use private_mesh.Wal.Scan.Fuel.{scan-ne-out_of_fuel}
use private_mesh.Wal.Scan.Items.{Item, appends, commits, bytes_of, entries_of}
use private_mesh.Wal.Scan.Contents.{after, close, scan-bytes_of}
use private_mesh.Wal.Disk.{Disk}
use private_mesh.Wal.Log.{Log, open_log, append, commit, replay, truncate, trimmed}
use private_mesh.Wal.Log.Spec.{state, file, healthy, IsLog}
use private_mesh.Wal.Log.Writes.{append-state, commit-state}
use private_mesh.Wal.Log.Reads.{replay-state}
use private_mesh.Wal.Log.Crash.{at_rest}
use private_mesh.Wal.Log.Recovery.{open_log_after_crash, replay_after_crash}
use private_mesh.Wal.Log.Cancel.{append_after_canceled_replay}
use private_mesh.Wal.Log.Truncate.{truncate-state}
use private_mesh.Wal.Log.Truncate.Kept.{truncated}
use private_mesh.Wal.Log.Truncate.Replayed.{replay-truncate}

abbrev path : Text
path = ascii "mutations.wal"

path_named : is_empty (trim_space path) ≡ false
unfolding is_empty trim_space
path_named = refl

abbrev raw : Mutation
raw = record {
  document = record { id = ascii " a"; title = ascii "T"; body = ascii "B" };
  deleted = false;
}

abbrev doc_a : Mutation
doc_a = record raw { document = record (raw.document) { id = ascii "a" } }

abbrev gone_a : Mutation
gone_a = record doc_a { deleted = true }

doc_a_fits : CanStore doc_a
unfolding is_empty trim_space
doc_a_fits = record { has_id = refl; fits = omega arith }

gone_a_fits : CanStore gone_a
unfolding is_empty trim_space
gone_a_fits = record { has_id = refl; fits = omega arith }

raw_fits : CanStore (trimmed raw)
unfolding is_empty trim_space
raw_fits = record { has_id = refl; fits = omega arith }

-- Two mutations, of which the first is committed.
abbrev one : List Item
one = appends doc_a ∷ []

abbrev two : List Item
two = appends doc_a ∷ commits 1 ∷ appends gone_a ∷ []

one-IsLog : IsLog 0 one
one-IsLog = (omega arith, (doc_a_fits, omega arith, tt))

two-IsLog : IsLog 0 two
two-IsLog = (
  omega arith,
  (
    doc_a_fits,
    omega arith,
    (omega arith, omega arith, omega arith, (gone_a_fits, omega arith, tt)),
  ),
)

decode-mutation_payload_example :
    decode_record (mutation_payload 7 gone_a) ≡ ok (kind_of gone_a, 7, stored gone_a)
decode-mutation_payload_example =
    decode-mutation_payload 7 gone_a (omega arith) (omega arith) gone_a_fits

scan-ne-out_of_fuel_example : scan (false ∷ true ∷ []) (ascii "PMWAL001") ≢ out_of_fuel
scan-ne-out_of_fuel_example = scan-ne-out_of_fuel (false ∷ true ∷ []) (ascii "PMWAL001")

-- Three bytes of a record header.
piece_is_partial : read_frame (0 ∷ 0 ∷ 0 ∷ []) ≡ partial
unfolding read_frame
piece_is_partial = refl

scan-bytes_of_example :
    scan [] (header 0 ++ (bytes_of 0 two ++ (0 ∷ 0 ∷ 0 ∷ [])))
    ≡ finished (close true (after two (start 0)))
scan-bytes_of_example =
    scan-bytes_of 0 two true (0 ∷ 0 ∷ 0 ∷ []) (omega arith) two-IsLog.1 piece_is_partial

append-state_example :
    (append raw (state 0 one) (healthy (file 0 one) []) ≡ (
      ok 2,
      state 0 (one ++ (appends doc_a ∷ [])),
      healthy (file 0 (one ++ (appends doc_a ∷ []))) [],
    ))
    × IsLog 0 (one ++ (appends doc_a ∷ []))
unfolding trim_space
append-state_example = append-state 0 one raw [] one-IsLog raw_fits (omega arith)

commit-state_example :
    (commit 1 (state 0 one) (healthy (file 0 one) []) ≡ (
      ok tt,
      state 0 (one ++ (commits 1 ∷ [])),
      healthy (file 0 (one ++ (commits 1 ∷ []))) (file 0 (one ++ (commits 1 ∷ []))),
    ))
    × IsLog 0 (one ++ (commits 1 ∷ []))
commit-state_example = commit-state 0 one 1 [] one-IsLog (omega arith) (omega arith) (omega arith)

replay-state_example :
    replay [] (state 0 two) (healthy (file 0 two) [])
    ≡ (ok (take 1 (entries_of 0 two)), state 0 two, healthy (file 0 two) [])
replay-state_example = replay-state 0 two [] two-IsLog

truncate-state_example :
    (truncate 1 (state 0 two) (healthy (file 0 two) []) ≡ (
      ok tt,
      state 1 (truncated 0 1 two),
      healthy (file 1 (truncated 0 1 two)) (file 1 (truncated 0 1 two)),
    ))
    × IsLog 1 (truncated 0 1 two)
truncate-state_example = truncate-state 0 1 two [] two-IsLog (omega arith) (omega arith)

replay-truncate_example :
    (l : Log) × (d : Disk) × (truncate 1 (state 0 two) (healthy (file 0 two) []) ≡ (ok tt, l, d))
    × (replay [] l d ≡ (ok (take (1 - 1) (drop (1 - 0) (entries_of 0 two))), l, d))
replay-truncate_example = replay-truncate 0 1 two [] two-IsLog (omega arith) (omega arith)

abbrev committed_one : List Item
committed_one = one ++ (commits 1 ∷ [])

open_log_after_crash_example :
    (kept : List Item) × (lost : List Item) × (appends gone_a ∷ [] ≡ kept ++ lost)
    × IsLog 0 (committed_one ++ kept)
    × (open_log path (
          at_rest (
            take
              (length (file 0 committed_one) + 3)
              (file 0 (committed_one ++ (appends gone_a ∷ [])))))
        ≡ (
          ok (state 0 (committed_one ++ kept)),
          healthy (file 0 (committed_one ++ kept)) (file 0 (committed_one ++ kept)),
        ))
open_log_after_crash_example =
    open_log_after_crash path 0 (length (file 0 committed_one) + 3) committed_one
      (appends gone_a ∷ []) path_named two-IsLog (omega arith)

replay_after_crash_example :
    (l : Log) × (d : Disk) × (more : List Entry) × (open_log path (
        at_rest (
          take
            (length (file 0 committed_one) + 3)
            (file 0 (committed_one ++ (appends gone_a ∷ [])))))
      ≡ (ok l, d))
    × (replay [] l d ≡ (ok (take (1 - 0) (entries_of 0 one) ++ more), l, d))
replay_after_crash_example =
    replay_after_crash path 0 1 (length (file 0 committed_one) + 3) one (appends gone_a ∷ [])
      path_named two-IsLog (omega arith)

append_after_canceled_replay_example :
    (l : Log) × (d d' : Disk) × (replay (true ∷ []) (state 0 two) (healthy (file 0 two) [])
      ≡ (err canceled, state 0 two, d))
    × (append raw (state 0 two) d ≡ (ok 3, l, d'))
    × ((open_log path (at_rest d'.content)).0 ≡ err corrupt)
append_after_canceled_replay_example =
    append_after_canceled_replay path 0 two [] raw [] path_named (omega arith) raw_fits
      (omega arith)

-- From an empty file: two appends, a commit of the first, and what `Replay` answers then.
abbrev session : Result Error (List Entry)
session =
    let (r, d) = open_log path (at_rest []) in
    elim r [
      | ok l ↦
          (let (_, l, d) = append raw l d in
            let (_, l, d) = append gone_a l d in let (_, l, d) = commit 1 l d in (replay [] l d).0)
      | err e ↦ err e
    ]
