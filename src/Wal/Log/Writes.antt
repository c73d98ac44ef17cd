-- ===== src/Wal/Log/Writes.antt =====
-- `Append` and `Commit` on a healthy log: the abstract log grows by one record.
use mathlib.Core.List.{append_assoc}
use private_mesh.Prelude.{ℕ, ◌+◌, ◌^◌, ◌≤◌, ◌<◌, ◌≡◌, ap, sym, ◌∙◌, List, [], ◌∷◌, ◌++◌, ok, arith}
use private_mesh.Text.{Text}
use private_mesh.Text.Trim.{trim_space-trim_space}
use private_mesh.Document.{Mutation}
use private_mesh.Wal.Record.{mutation_payload, encode_commit}
use private_mesh.Wal.Record.RoundTrip.{CanStore}
use private_mesh.Wal.Record.Limits.{encode_mutation-ok}
use private_mesh.Wal.Frame.{frame, header}
use private_mesh.Wal.Scan.Items.{Item, appends, commits, bytes_of, last_of, committed_of}
use private_mesh.Wal.Scan.Contents.{good_mutation_size, good_commit_size}
use private_mesh.Wal.Log.{append, append_payload, commit, trimmed}
use private_mesh.Wal.Log.Spec.{
  state, file, healthy, IsLog, last_of-append, committed_of-append, bytes_of-append,
  bytes_of-appends_one, bytes_of-commits_one, IsValid-append,
}
use private_mesh.Wal.Log.Healthy.{append_record-healthy, append_record-sync}

module _ (base : ℕ) (items : List Item) where
  file-snoc :
      (item : Item)
      → file base items ++ bytes_of (last_of base items) (item ∷ [])
        ≡ file base (items ++ (item ∷ []))
  file-snoc item =
      append_assoc (header base) (bytes_of base items) _
      ∙ ap (λ t. header base ++ t) (sym (bytes_of-append base items (item ∷ [])))

  state-appends :
      (m : Mutation)
      → record (state base items) { last_sequence = last_of base items + 1 }
        ≡ state base (items ++ (appends m ∷ []))
  state-appends m = ground (
    arith,
    last_of-append base items (appends m ∷ []),
    committed_of-append base items (appends m ∷ []),
  )

  state-commits :
      (c : ℕ)
      → record (state base items) { committed_sequence = c }
        ≡ state base (items ++ (commits c ∷ []))
  state-commits c = ground (
    arith,
    last_of-append base items (commits c ∷ []),
    committed_of-append base items (commits c ∷ []),
  )

  file-appends :
      (m : Mutation)
      → file base items ++ frame (mutation_payload (last_of base items + 1) m)
        ≡ file base (items ++ (appends m ∷ []))
  file-appends m =
      ap (λ t. file base items ++ t) (sym (bytes_of-appends_one (last_of base items) m))
      ∙ file-snoc (appends m)

  pub file-commits :
      (c : ℕ) → file base items ++ frame (encode_commit c) ≡ file base (items ++ (commits c ∷ []))
  file-commits c =
      ap (λ t. file base items ++ t) (sym (bytes_of-commits_one (last_of base items) c))
      ∙ file-snoc (commits c)

  pub append_payload-state :
      (m : Mutation)
      → CanStore (trimmed m)
      → last_of base items + 1 < 2 ^ 64
      → append_payload m (state base items)
        ≡ ok (mutation_payload (last_of base items + 1) (trimmed m))
  unfolding append_payload
  append_payload-state m can fits = ground (
    arith,
    can.has_id,
    trim_space-trim_space m.document.id,
    encode_mutation-ok (last_of base items + 1) (trimmed m) can,
  )

  -- `Append` on a healthy log, of a mutation that fits a record once its ID is trimmed, answers the
  -- next sequence; the log and its file then stand for the old records with that mutation behind
  -- them, and what the last sync has made durable is still that.
  pub append-state :
      (m : Mutation) (durable : Text)
      → IsLog base items
      → CanStore (trimmed m)
      → last_of base items + 1 < 2 ^ 64
      → (append m (state base items) (healthy (file base items) durable) ≡ (
        ok (last_of base items + 1),
        state base (items ++ (appends (trimmed m) ∷ [])),
        healthy (file base (items ++ (appends (trimmed m) ∷ []))) durable,
      ))
        × IsLog base (items ++ (appends (trimmed m) ∷ []))
  unfolding append
  append-state m durable (base_fits, v) can fits =
      let payload = mutation_payload (last_of base items + 1) (trimmed m) in
      (
        ground (
          arith,
          append_payload-state m can fits,
          append_record-healthy payload (file base items) durable
              (good_mutation_size (last_of base items + 1) (trimmed m) can),
          file-appends (trimmed m),
          state-appends (trimmed m),
        ),
        (base_fits, IsValid-append base base items (appends (trimmed m) ∷ []) v (can, fits, tt)),
      )

  -- `Commit` of a sequence above the last commit and not above the last sequence adds its record
  -- and makes the whole file durable.
  pub commit-state :
      (c : ℕ) (durable : Text)
      → IsLog base items
      → committed_of base items < c
      → c ≤ last_of base items
      → c < 2 ^ 64
      → (commit c (state base items) (healthy (file base items) durable) ≡ (
        ok tt,
        state base (items ++ (commits c ∷ [])),
        healthy (file base (items ++ (commits c ∷ []))) (file base (items ++ (commits c ∷ []))),
      ))
        × IsLog base (items ++ (commits c ∷ []))
  unfolding commit
  commit-state c durable (base_fits, v) above below fits = (
    ground (
      arith,
      append_record-sync (encode_commit c) (file base items) durable (good_commit_size c),
      file-commits c,
      state-commits c,
    ),
    (base_fits, IsValid-append base base items (commits c ∷ []) v (above, below, fits, tt)),
  )
