-- ===== src/Rpc.antt =====
-- The status codes of google.golang.org/grpc/codes.
pub data Code : Type 0 where
  no_error canceled unknown invalid_argument deadline_exceeded not_found already_exists : Code
  permission_denied resource_exhausted failed_precondition aborted out_of_range : Code
  unimplemented internal unavailable data_loss unauthenticated : Code
