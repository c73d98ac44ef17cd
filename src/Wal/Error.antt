-- ===== src/Wal/Error.antt =====
-- The errors of internal/wal/log.go, and its size limit.
use private_mesh.Prelude.{ℕ, ◌*◌, ◌^◌}

-- `corrupt` is ErrCorruptLog under any message, `io` an error of the operating system, `canceled`
-- the error of the caller's context.
pub data Error : Type 0 where
  path_required closed id_required sequence_exhausted record_too_large : Error
  commit_range truncate_range corrupt unsupported_version canceled io : Error

abbrev pub max_record_size : ℕ
max_record_size = 32 * 2 ^ 20
