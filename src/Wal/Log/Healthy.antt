-- ===== src/Wal/Log/Healthy.antt =====
-- The calls on a healthy file.
use mathlib.Core.List.{append_assoc, append-nil}
use private_mesh.Prelude.{
  ◌+◌, ◌-◌, ◌≡◌, refl, false, ◌++◌, length, length-append, take_all, drop_all, ok, arith,
}
use private_mesh.Text.{Text}
use private_mesh.Wal.Frame.{frame, record_header, is_bad_size}
use private_mesh.Wal.Disk.{overwrite, write, sync, ◌>>◌}
use private_mesh.Wal.Writer.{append_record}
use private_mesh.Wal.Log.Spec.{healthy}

overwrite_end : (content bytes : Text) → overwrite content (length content) bytes ≡ content ++ bytes
unfolding overwrite
overwrite_end content bytes =
    let gap : length content - length content ≡ 0 = omega arith in
    simp (
      take_all (length content) content (omega arith),
      drop_all (length content + length bytes) content (omega arith),
      append-nil,
      gap,
    )

pub write-healthy :
    (bytes content durable : Text)
    → write bytes (healthy content durable) ≡ (ok tt, healthy (content ++ bytes) durable)
unfolding write
write-healthy bytes content durable =
    ground (arith, overwrite_end content bytes, length-append content bytes)

pub sync-healthy :
    (content durable : Text) → sync (healthy content durable) ≡ (ok tt, healthy content content)
unfolding sync
sync-healthy content durable = refl

pub append_record-healthy :
    (payload content durable : Text)
    → is_bad_size (length payload) ≡ false
    → append_record payload (healthy content durable)
      ≡ (ok tt, healthy (content ++ frame payload) durable)
unfolding append_record frame
append_record-healthy payload content durable good = rw (
  good,
  write-healthy (record_header payload) content durable,
  write-healthy payload (content ++ record_header payload) durable,
  append_assoc content (record_header payload) payload,
)

-- A commit is its record and a sync: then nothing in the file can be lost.
pub append_record-sync :
    (payload content durable : Text)
    → is_bad_size (length payload) ≡ false
    → (append_record payload >> sync) (healthy content durable)
      ≡ (ok tt, healthy (content ++ frame payload) (content ++ frame payload))
append_record-sync payload content durable good = rw (
  append_record-healthy payload content durable good,
  sync-healthy (content ++ frame payload) durable,
)
