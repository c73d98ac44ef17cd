-- ===== src/Wal/Log/Truncate/Rewrite.antt =====
-- The temporary file of `rewrite`, and the log's file once it has taken its place.
use mathlib.Core.List.{append_assoc, append-nil}
use private_mesh.Prelude.{
  ℕ, zero, suc, ◌+◌, ◌≡◌, ap, sym, ◌∙◌, false, List, [], ◌∷◌, ◌++◌, ok, arith, if◌then◌else◌, ltb,
  Bool-cases, inl, inr,
}
use private_mesh.Text.{Text}
use private_mesh.Document.{Mutation}
use private_mesh.Wal.Record.{mutation_payload, encode_mutation, encode_commit}
use private_mesh.Wal.Record.RoundTrip.{CanStore, stored}
use private_mesh.Wal.Record.Limits.{encode_mutation-ok}
use private_mesh.Wal.Frame.{header, frame}
use private_mesh.Wal.Scan.{Entry}
use private_mesh.Wal.Scan.Items.{Item, appends, commits, bytes_of, IsValid, entries_of}
use private_mesh.Wal.Scan.Contents.{entry_of, good_mutation_size, good_commit_size}
use private_mesh.Wal.Disk.{Disk, call, close_file, seek_end, return}
use private_mesh.Wal.Writer.{
  write_entries, write_header, write_temporary, rename, sync_directory, reopen, rewrite,
}
use private_mesh.Wal.Log.{append_record}
use private_mesh.Wal.Log.Spec.{file, healthy, bytes_of-nil, bytes_of-appends_cons}
use private_mesh.Wal.Log.Healthy.{append_record-healthy, write-healthy, sync-healthy}
use private_mesh.Wal.Log.Writes.{file-commits}
use private_mesh.Wal.Log.Truncate.Kept.{mutations_after, commit_from}

CanStore-stored : (m : Mutation) → CanStore m → CanStore (stored m)
CanStore-stored m can = ground (arith, can.has_id, can.fits)

payload-stored :
    (sequence : ℕ) (m : Mutation)
    → mutation_payload sequence (stored m) ≡ mutation_payload sequence m
unfolding mutation_payload
payload-stored sequence m = ground arith

encode-stored :
    (sequence : ℕ) (m : Mutation)
    → CanStore m
    → encode_mutation sequence (stored m) ≡ ok (mutation_payload sequence m)
encode-stored sequence m can =
    encode_mutation-ok sequence (stored m) (CanStore-stored m can)
    ∙ ap ok (payload-stored sequence m)

write_entries-cons :
    (sequence : ℕ) (m : Mutation) (entries : List Entry) (content durable : Text)
    → CanStore m
    → write_entries (entry_of sequence m ∷ entries) (healthy content durable)
      ≡ write_entries entries (healthy (content ++ frame (mutation_payload sequence m)) durable)
unfolding write_entries
write_entries-cons sequence m entries content durable can = ground (
  arith,
  encode-stored sequence m can,
  append_record-healthy (mutation_payload sequence m) content durable
      (good_mutation_size sequence m can),
)

write_entries-healthy :
    (n last c : ℕ) (items : List Item) (content durable : Text)
    → IsValid last c (mutations_after n items)
    → write_entries (entries_of last (mutations_after n items)) (healthy content durable)
      ≡ (ok tt, healthy (content ++ bytes_of last (mutations_after n items)) durable)
unfolding write_entries mutations_after
write_entries-healthy n last c [] content durable v =
    ap (λ t. (ok tt, healthy t durable))
      (sym (append-nil content) ∙ ap (λ t. content ++ t) (sym (bytes_of-nil last)))
write_entries-healthy zero last c (appends m ∷ items) content durable (can, fits, v) =
    let p = mutation_payload (last + 1) m in
    write_entries-cons (last + 1) m _ content durable can
    ∙ (write_entries-healthy zero (last + 1) c items (content ++ frame p) durable v
        ∙ ap (λ t. (ok tt, healthy t durable))
            (append_assoc content (frame p) _
              ∙ ap (λ t. content ++ t)
                  (sym (bytes_of-appends_cons last m (mutations_after zero items)))))
write_entries-healthy (suc n) last c (appends m ∷ items) content durable v =
    write_entries-healthy n last c items content durable v
write_entries-healthy zero last c (commits c' ∷ items) content durable v =
    write_entries-healthy zero last c items content durable v
write_entries-healthy (suc n) last c (commits c' ∷ items) content durable v =
    write_entries-healthy (suc n) last c items content durable v

write_last_commit :
    (base c : ℕ) (items : List Item) (durable : Text)
    → (if ltb base c then append_record (encode_commit c) else return tt)
        (healthy (file base items) durable)
      ≡ (ok tt, healthy (file base (items ++ commit_from base c)) durable)
write_last_commit base c items durable = elim (Bool-cases (ltb base c)) [
  | inl above ↦
      rw
        (
          above,
          append_record-healthy (encode_commit c) (file base items) durable (good_commit_size c),
        )
        (ap (λ t. (ok tt, healthy t durable)) (file-commits base items c))
  | inr same ↦ rw (same, append-nil)
]

write_header-healthy :
    (base : ℕ) → write_header base (healthy [] []) ≡ (ok tt, healthy (header base) [])
unfolding write_header
write_header-healthy base = write-healthy (header base) [] []

abbrev closed_file : Text → Disk
closed_file content = record (healthy content content) { is_open = false }

-- The temporary file of a rewrite holds the new base, the mutations and the last commit.
write_temporary-healthy :
    (base c n : ℕ) (items : List Item)
    → IsValid base base (mutations_after n items)
    → write_temporary base (entries_of base (mutations_after n items)) c (healthy [] [])
      ≡ (ok tt, closed_file (file base (mutations_after n items ++ commit_from base c)))
unfolding write_temporary call close_file
write_temporary-healthy base c n items v =
    let kept = mutations_after n items in
    ground (
      arith,
      write_header-healthy base,
      write_entries-healthy n base base items (header base) [] v,
      write_last_commit base c kept [],
      sync-healthy (file base (kept ++ commit_from base c)) [],
    )

pub rewrite-healthy :
    (base c n : ℕ) (items : List Item) (content durable : Text)
    → IsValid base base (mutations_after n items)
    → rewrite base (entries_of base (mutations_after n items)) c (healthy content durable) ≡ (
      ok tt,
      healthy
          (file base (mutations_after n items ++ commit_from base c))
          (file base (mutations_after n items ++ commit_from base c)),
    )
unfolding rewrite rename sync_directory reopen call close_file seek_end
rewrite-healthy base c n items content durable v =
    ground (arith, write_temporary-healthy base c n items v)
