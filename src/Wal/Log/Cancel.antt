-- ===== src/Wal/Log/Cancel.antt =====
-- A `Replay` that its context cancels leaves the file at the place that it had reached, and the next
-- `Append` writes there.
use mathlib.Core.List.{append_assoc}
use private_mesh.Prelude.{
  ℕ, ◌+◌, ◌-◌, ◌^◌, ◌<◌, ◌≡◌, refl, ap, sym, ◌∙◌, Bool, true, false, List, [], ◌∷◌, ◌++◌, length,
  length-append, drop, take-append_exact, drop-append_beyond, ok, err, arith,
}
use private_mesh.Text.{Text, trim_space, is_empty}
use private_mesh.Document.{Mutation}
use private_mesh.Wal.Error.{canceled, corrupt}
use private_mesh.Wal.Record.{mutation_payload}
use private_mesh.Wal.Record.RoundTrip.{CanStore, decode-mutation_payload}
use private_mesh.Wal.Frame.{header, frame, record_header, header_size, is_bad_size}
use private_mesh.Wal.Frame.Reading.{length-header, read_frame-frame}
use private_mesh.Wal.Scan.{start, scan, scan_records, accept, take_record, failed}
use private_mesh.Wal.Scan.Items.{Item, bytes_of, last_of}
use private_mesh.Wal.Scan.Contents.{scan_headed, good_mutation_size}
use private_mesh.Wal.Disk.{Disk, overwrite, write, scan_log, seek_start, call}
use private_mesh.Wal.Writer.{append_record, initialize}
use private_mesh.Wal.Log.{Log, open_log, open_file, append, replay, trimmed}
use private_mesh.Wal.Log.Writes.{append_payload-state}
use private_mesh.Wal.Log.Spec.{state, file, healthy}
use private_mesh.Wal.Log.Crash.{at_rest}

-- The file of a canceled scan.
abbrev behind_header : ℕ → List Item → Text → Disk
behind_header base items durable = record (healthy (file base items) durable) {
  position = header_size;
}

overwrite_inside :
    (front back bytes : Text)
    → overwrite (front ++ back) (length front) bytes ≡ front ++ (bytes ++ drop (length bytes) back)
unfolding overwrite
overwrite_inside front back bytes =
    let gap : length front - length (front ++ back) ≡ 0 = omega (arith, length-append front back) in
    simp (
      take-append_exact (length front) front back refl,
      drop-append_beyond (length bytes) front back,
      gap,
    )

scan-canceled :
    (base : ℕ) (polls : List Bool) (bytes : Text)
    → base < 2 ^ 64
    → scan (true ∷ polls) (header base ++ bytes) ≡ failed canceled header_size
unfolding scan_records
scan-canceled base polls bytes fits = scan_headed (true ∷ polls) base bytes fits ∙ refl

replay-canceled :
    (base : ℕ) (items : List Item) (polls : List Bool) (durable : Text)
    → base < 2 ^ 64
    → replay (true ∷ polls) (state base items) (healthy (file base items) durable)
      ≡ (err canceled, state base items, behind_header base items durable)
unfolding replay scan_log seek_start
replay-canceled base items polls durable fits = ground (
  arith,
  scan-canceled base polls (bytes_of base items) fits,
  length-header base,
  length-append (header base) (bytes_of base items),
)

overwrite_second :
    (front head left payload : Text)
    → overwrite (front ++ (head ++ left)) (length front + length head) payload
      ≡ front ++ ((head ++ payload) ++ drop (length payload) left)
overwrite_second front head left payload =
    ap (λ t. overwrite t (length front + length head) payload) (sym (append_assoc front head left))
    ∙ ap (λ n. overwrite ((front ++ head) ++ left) n payload) (sym (length-append front head))
    ∙ overwrite_inside (front ++ head) left payload
    ∙ append_assoc front head _
    ∙ ap (λ t. front ++ t) (sym (append_assoc head payload _))

-- What `appendRecord` makes of a file at such a place: the record covers what stood there.
append_record-inside :
    (front back payload durable : Text)
    → is_bad_size (length payload) ≡ false
    → (rest : Text) × (p : ℕ) × (append_record payload
          (record (healthy (front ++ back) durable) { position = length front })
        ≡ (ok tt, record (healthy (front ++ (frame payload ++ rest)) durable) { position = p }))
unfolding append_record write frame
append_record-inside front back payload durable good =
    let head = record_header payload in
    let left = drop (length head) back in
    let rest = drop (length payload) left in
    let first : overwrite (front ++ back) (length front) head ≡ front ++ (head ++ left) =
      overwrite_inside front back head in
    let second : overwrite (front ++ (head ++ left)) (length front + length head) payload
        ≡ front ++ ((head ++ payload) ++ rest) =
      overwrite_second front head left payload in
    (rest, length front + length head + length payload, rw good (simp (first, second)))

append-inside :
    (base : ℕ) (items : List Item) (m : Mutation) (durable : Text)
    → CanStore (trimmed m)
    → last_of base items + 1 < 2 ^ 64
    → (rest : Text) × (p : ℕ) × (append m (state base items) (behind_header base items durable) ≡ (
      ok (last_of base items + 1),
      record (state base items) { last_sequence = last_of base items + 1 },
      record (healthy
          (header base ++ (frame (mutation_payload (last_of base items + 1) (trimmed m)) ++ rest))
          durable) { position = p },
    ))
unfolding append
append-inside base items m durable can fits =
    let payload = mutation_payload (last_of base items + 1) (trimmed m) in
    let (rest, p, e) =
      append_record-inside (header base) (bytes_of base items) payload durable
        (good_mutation_size (last_of base items + 1) (trimmed m) can) in
    let e' = rw length-header at e in
    (rest, p, ground (arith, append_payload-state base items m can fits, e'))

accept-gap :
    (base sequence : ℕ) (m : Mutation)
    → base + 1 < sequence
    → sequence < 2 ^ 64
    → CanStore m
    → accept (mutation_payload sequence m) (start base) ≡ err corrupt
unfolding accept take_record
accept-gap base sequence m gap fits can =
    ground (arith, decode-mutation_payload sequence m (omega arith) fits can)

-- A first record under another sequence than the one behind the base is refused.
scan-gap :
    (base sequence : ℕ) (m : Mutation) (rest : Text)
    → base + 1 < sequence
    → sequence < 2 ^ 64
    → CanStore m
    → (n : ℕ) × (scan [] (header base ++ (frame (mutation_payload sequence m) ++ rest))
        ≡ failed corrupt n)
unfolding scan_records
scan-gap base sequence m rest gap fits can =
    let p = mutation_payload sequence m in
    (
      header_size + (8 + length p),
      scan_headed [] base (frame p ++ rest) (omega arith)
          ∙ ground (
            arith,
            read_frame-frame p rest (good_mutation_size sequence m can),
            accept-gap base sequence m gap fits can,
          ),
    )

open_log-failed :
    (path content : Text) (n : ℕ)
    → is_empty (trim_space path) ≡ false
    → 0 < length content
    → scan [] content ≡ failed corrupt n
    → (open_log path (at_rest content)).0 ≡ err corrupt
unfolding open_log open_file initialize scan_log call seek_start
open_log-failed path content n named filled h = ground arith

-- On a healthy log with at least one appended mutation, a `Replay` whose context is canceled answers
-- the context's error; an `Append` right after it answers its sequence as if it had succeeded, and
-- from then on `Open` refuses the file as corrupt, so all that was committed is out of reach.
pub append_after_canceled_replay :
    (path : Text) (base : ℕ) (items : List Item) (polls : List Bool) (m : Mutation) (durable : Text)
    → is_empty (trim_space path) ≡ false
    → base < last_of base items
    → CanStore (trimmed m)
    → last_of base items + 1 < 2 ^ 64
    → (l : Log) × (d d' : Disk) × (replay
          (true ∷ polls)
          (state base items)
          (healthy (file base items) durable)
        ≡ (err canceled, state base items, d))
      × (append m (state base items) d ≡ (ok (last_of base items + 1), l, d'))
      × ((open_log path (at_rest d'.content)).0 ≡ err corrupt)
append_after_canceled_replay path base items polls m durable named some_mutation can fits =
    let (rest, p, e) = append-inside base items m durable can fits in
    let payload = mutation_payload (last_of base items + 1) (trimmed m) in
    let content = header base ++ (frame payload ++ rest) in
    let (n, s) = scan-gap base (last_of base items + 1) (trimmed m) rest (omega arith) fits can in
    (
      record (state base items) { last_sequence = last_of base items + 1 },
      behind_header base items durable,
      record (healthy content durable) { position = p },
      replay-canceled base items polls durable (omega arith),
      e,
      open_log-failed path content n named
          (omega (arith, length-header base, length-append (header base) (frame payload ++ rest)))
          s,
    )
