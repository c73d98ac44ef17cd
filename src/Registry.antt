-- ===== src/Registry.antt =====
-- internal/registry/registry.go: the active search nodes and their leases.
-- `now` is the reading of the clock that a method takes, `lease_id` what `newID` answers, with
-- `none` for a failure of the random source. The mutex makes each method one step. Labels are the
-- entries of their map; copies are values. `revision++` wraps at 64 bits.
pub mod Active
pub mod Leases
pub mod Invariant
pub mod Listing
pub mod Owners
mod Tests
use private_mesh.Prelude.{
  ℕ, zero, suc, ◌+◌, ◌%◌, ◌^◌, Bool, true, false, not, ◌&&◌, ◌||◌, List, [], ◌∷◌, ltb, ◌==◌,
  if◌then◌else◌, Option, none, some, Result, ok, err,
}
use private_mesh.Text.{Text, text_eq, text_lt, trim_space, is_empty}
use private_mesh.Text.Sets.{string_set, contains}
use private_mesh.Text.Maps.{Map, find, put, remove}

pub data Error : Type 0 where
  ttl_not_positive node_id_required address_required no_lease_id : Error
  node_not_found lease_mismatch : Error

pub record Node : Type 0 where
  pub id : Text
  pub address : Text
  pub collection_ids : List Text
  pub labels : List (Text × Text)
  pub applied_log_offset : ℕ

pub record Lease : Type 0 where
  pub id : Text
  pub expires_at : ℕ
  pub revision : ℕ

pub record Registration : Type 0 where
  pub node : Node
  pub lease_id : Text
  pub expires_at : ℕ

pub record Registry : Type 0 where
  pub ttl : ℕ
  pub revision : ℕ
  pub nodes : Map Registration

unfoldable pub new_registry : ℕ → Result Error Registry
new_registry ttl =
    if ttl == 0 then err ttl_not_positive else ok (record { ttl = ttl; revision = 0; nodes = [] })

-- The loop of `removeExpiredLocked`: the entries that it keeps, and how many it deletes.
unfoldable pub unexpired : ℕ → Map Registration → Map Registration
unexpired now [] = []
unexpired now ((k, c) ∷ nodes) =
    let rest = unexpired now nodes in if ltb now c.expires_at then (k, c) ∷ rest else rest

unfoldable pub expired_count : ℕ → Map Registration → ℕ
expired_count now [] = 0
expired_count now ((k, c) ∷ nodes) =
    let rest = expired_count now nodes in if ltb now c.expires_at then rest else suc rest

unfoldable pub remove_expired : ℕ → Registry → Registry
unfolding unexpired expired_count
remove_expired now r = record r {
  revision = (r.revision + expired_count now r.nodes) % 2 ^ 64;
  nodes = unexpired now r.nodes;
}

-- The node that `Register` stores.
abbrev pub normalized : Node → Node
normalized n = record n {
  id = trim_space n.id;
  address = trim_space n.address;
  collection_ids = string_set n.collection_ids;
}

-- `Register` behind its checks.
unfoldable pub admit : ℕ → Text → Node → Registry → Lease × Registry
admit now lease_id n r =
    let swept = remove_expired now r in
    let revision = (swept.revision + 1) % 2 ^ 64 in
    let added : Registration = record { node = n; lease_id = lease_id; expires_at = now + r.ttl } in
    let lease : Lease = record { id = lease_id; expires_at = now + r.ttl; revision = revision } in
    (lease, record swept { revision = revision; nodes = put n.id added swept.nodes })

unfoldable pub register : ℕ → Option Text → Node → Registry → Result Error Lease × Registry
register now lease_id n r =
    if is_empty (trim_space n.id)
    then (err node_id_required, r)
    else if is_empty (trim_space n.address)
    then (err address_required, r)
    else elim lease_id [
      | none ↦ (err no_lease_id, r)
      | some id ↦ (let (lease, r') = admit now id (normalized n) r in (ok lease, r'))
    ]

-- `Heartbeat` for a registration that is found, in the registry without the expired ones.
unfoldable pub extend : ℕ → Text → ℕ → Registration → Registry → Result Error Lease × Registry
extend now lease_id offset current r =
    if not (text_eq current.lease_id (trim_space lease_id))
    then (err lease_mismatch, r)
    else (let renewed : Registration = record current {
      node = record (current.node) { applied_log_offset = offset };
      expires_at = now + r.ttl;
    } in
        (
          ok (record { id = current.lease_id; expires_at = now + r.ttl; revision = r.revision }),
          record r { nodes = put current.node.id renewed r.nodes },
        ))

unfoldable pub heartbeat : ℕ → Text → Text → ℕ → Registry → Result Error Lease × Registry
heartbeat now node_id lease_id offset r =
    let swept = remove_expired now r in
    elim (find (trim_space node_id) swept.nodes) [
      | none ↦ (err node_not_found, swept)
      | some current ↦ extend now lease_id offset current swept
    ]

-- `Deregister` for a registration that is found.
unfoldable pub release : Text → Text → Registration → Registry → Result Error (Unit {0}) × Registry
release node_id lease_id current r =
    if not (text_eq current.lease_id (trim_space lease_id))
    then (err lease_mismatch, r)
    else (ok tt, record r { nodes = remove node_id r.nodes; revision = (r.revision + 1) % 2 ^ 64 })

unfoldable pub deregister : ℕ → Text → Text → Registry → Result Error (Unit {0}) × Registry
deregister now node_id lease_id r =
    let swept = remove_expired now r in
    elim (find (trim_space node_id) swept.nodes) [
      | none ↦ (err node_not_found, swept)
      | some current ↦ release (trim_space node_id) lease_id current swept
    ]

unfoldable pub intersects : List Text → List Text → Bool
intersects [] requested = false
intersects (value ∷ values) requested = contains value requested || intersects values requested

-- The test of the loop of `Nodes`.
unfoldable pub is_requested : List Text → Node → Bool
is_requested [] n = true
is_requested (c ∷ requested) n = intersects n.collection_ids (c ∷ requested)

unfoldable pub selected : List Text → Map Registration → List Node
selected requested [] = []
selected requested ((k, c) ∷ nodes) =
    let rest = selected requested nodes in
    if is_requested requested c.node then c.node ∷ rest else rest

-- sort.Slice by ID.
unfoldable pub insert_node : Node → List Node → List Node
insert_node n [] = n ∷ []
insert_node n (m ∷ ns) =
    let rest = insert_node n ns in if text_lt m.id n.id then m ∷ rest else n ∷ m ∷ ns

unfoldable pub sort_nodes : List Node → List Node
sort_nodes [] = []
sort_nodes (n ∷ ns) = insert_node n (sort_nodes ns)

unfoldable pub nodes : ℕ → List Text → Registry → List Node × Registry
nodes now collection_ids r =
    let swept = remove_expired now r in
    (sort_nodes (selected (string_set collection_ids) swept.nodes), swept)

unfoldable pub current_revision : ℕ → Registry → ℕ × Registry
current_revision now r = let swept = remove_expired now r in (swept.revision, swept)

-- The calls that change the registry, with the clock reading of each; `Nodes` and `Revision` sweep.
pub data Event : Type 0 where
  registers : ℕ → Option Text → Node → Event
  heartbeats : ℕ → Text → Text → ℕ → Event
  deregisters : ℕ → Text → Text → Event
  sweeps : ℕ → Event

unfoldable pub step : Event → Registry → Registry
step (registers now lease_id n) r = (register now lease_id n r).1
step (heartbeats now node_id lease_id offset) r = (heartbeat now node_id lease_id offset r).1
step (deregisters now node_id lease_id) r = (deregister now node_id lease_id r).1
step (sweeps now) r = remove_expired now r

unfoldable pub run : List Event → Registry → Registry
run [] r = r
run (ev ∷ evs) r = run evs (step ev r)
