-- ===== src/ControlPlane.antt =====
-- internal/controlplane/service.go: the requests of search nodes to the registry, with the status codes of
-- their errors. A request that is not there is `none`; `now` and `lease_id` are as in Registry.
mod Tests
use private_mesh.Prelude.{ℕ, Option, none, some, Result, ok, err, List}
use private_mesh.Text.{Text, trim_space}
use private_mesh.Rpc.{Code, invalid_argument, not_found, permission_denied, internal}
use private_mesh.Registry.{
  Error, node_not_found, lease_mismatch, Node, Lease, Registry, register, heartbeat, deregister,
}

pub record NodeDescriptor : Type 0 where
  pub node_id : Text
  pub address : Text
  pub collection_ids : List Text
  pub labels : List (Text × Text)

pub record HeartbeatRequest : Type 0 where
  pub node_id : Text
  pub lease_id : Text
  pub applied_log_offset : ℕ

pub record DeregisterRequest : Type 0 where
  pub node_id : Text
  pub lease_id : Text

pub record HeartbeatResponse : Type 0 where
  pub expires_at : ℕ
  pub registry_revision : ℕ

unfoldable pub registry_status : Error → Code
registry_status node_not_found = not_found
registry_status lease_mismatch = permission_denied
registry_status e = internal

-- The outcome of `Register` and of `Heartbeat` as an answer.
unfoldable pub answer_register : Result Error Lease × Registry → Result Code Lease × Registry
answer_register (ok lease, r) = (ok lease, r)
answer_register (err e, r) = (err invalid_argument, r)

unfoldable pub answer_heartbeat :
    Result Error Lease × Registry → Result Code HeartbeatResponse × Registry
answer_heartbeat (ok lease, r) =
    (ok (record { expires_at = lease.expires_at; registry_revision = lease.revision }), r)
answer_heartbeat (err e, r) = (err (registry_status e), r)

unfoldable pub answer_deregister :
    Result Error (Unit {0}) × Registry → Result Code (Unit {0}) × Registry
answer_deregister (ok u, r) = (ok tt, r)
answer_deregister (err e, r) = (err (registry_status e), r)

-- A request without a node descriptor is one that is not there.
unfoldable pub register_node :
    ℕ → Option Text → Option NodeDescriptor → Registry → Result Code Lease × Registry
register_node now lease_id none r = (err invalid_argument, r)
register_node now lease_id (some n) r = answer_register (
    register now lease_id
      (record {
        id = trim_space n.node_id;
        address = trim_space n.address;
        collection_ids = n.collection_ids;
        labels = n.labels;
        applied_log_offset = 0;
      })
      r)

unfoldable pub renew_lease :
    ℕ → Option HeartbeatRequest → Registry → Result Code HeartbeatResponse × Registry
renew_lease now none r = (err invalid_argument, r)
renew_lease now (some q) r =
    answer_heartbeat (heartbeat now q.node_id q.lease_id q.applied_log_offset r)

unfoldable pub deregister_node :
    ℕ → Option DeregisterRequest → Registry → Result Code (Unit {0}) × Registry
deregister_node now none r = (err invalid_argument, r)
deregister_node now (some q) r = answer_deregister (deregister now q.node_id q.lease_id r)
