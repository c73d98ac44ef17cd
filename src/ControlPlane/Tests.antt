-- ===== src/ControlPlane/Tests.antt =====
-- A node that registers, renews its lease and releases it, and what it is answered then.
use private_mesh.Prelude.{◌≡◌, refl, [], some, ok, err}
use private_mesh.Text.{text_eq, trim_space, is_empty, ascii}
use private_mesh.Text.Maps.{find, put, remove}
use private_mesh.Text.Sets.{string_set, insert}
use private_mesh.Registry.{
  Registry, register, admit, heartbeat, extend, deregister, release, remove_expired, unexpired,
  expired_count,
}
use private_mesh.Rpc.{not_found, permission_denied}
use private_mesh.ControlPlane.{
  register_node, renew_lease, deregister_node, answer_register, answer_heartbeat, answer_deregister,
  registry_status,
}

abbrev empty : Registry
empty = record { ttl = 10; revision = 0; nodes = [] }

abbrev joined : Registry
joined =
    (register_node 1 (some (ascii "l"))
      (some
        (record { node_id = ascii " n"; address = ascii "h:1"; collection_ids = []; labels = [] }))
      empty).1

abbrev left : Registry
left = (deregister_node 5 (some (record { node_id = ascii "n"; lease_id = ascii "l" })) joined).1

renewed :
    (renew_lease 5
      (some (record { node_id = ascii "n"; lease_id = ascii "l"; applied_log_offset = 3 }))
      joined).0
    ≡ ok (record { expires_at = 15; registry_revision = 1 })
unfolding register_node answer_register register admit renew_lease answer_heartbeat heartbeat extend
    remove_expired unexpired expired_count find put string_set insert text_eq trim_space is_empty
renewed = refl

refused :
    (renew_lease 5
      (some (record { node_id = ascii "n"; lease_id = ascii "x"; applied_log_offset = 3 }))
      joined).0
    ≡ err permission_denied
unfolding register_node answer_register register admit renew_lease answer_heartbeat heartbeat extend
    registry_status remove_expired unexpired expired_count find put string_set insert text_eq
    trim_space is_empty
refused = refl

gone :
    (renew_lease 6
      (some (record { node_id = ascii "n"; lease_id = ascii "l"; applied_log_offset = 3 }))
      left).0
    ≡ err not_found
unfolding register_node answer_register register admit renew_lease answer_heartbeat heartbeat extend
    deregister_node answer_deregister deregister release registry_status remove_expired unexpired
    expired_count find put remove string_set insert text_eq trim_space is_empty
gone = refl
