-- ===== src/Registry/Tests.antt =====
-- Concrete registries, and the theorems at concrete inputs.
use private_mesh.Prelude.{
  ◌+◌, ◌≡◌, refl, true, false, List, [], ◌∷◌, none, some, arith, ok, err, sym,
}
use private_mesh.Text.{ascii, text_eq, trim_space, is_empty}
use private_mesh.Text.Maps.{find}
use private_mesh.Text.Maps.Finding.{Unique}
use private_mesh.Registry.{
  Node, Lease, Registration, Registry, Event, run, registers, heartbeats, deregisters, sweeps,
  heartbeat, deregister, remove_expired, node_not_found, lease_mismatch,
}
use private_mesh.Registry.Active.{active, live}
use private_mesh.Registry.Leases.{replaced, refused_without_lease, active-heartbeat}
use private_mesh.Registry.{is_requested, intersects, nodes}
use private_mesh.Text.Sets.{string_set, contains, insert}
use private_mesh.Registry.Listing.{IsAscending, Listed, nodes-Listed}
use private_mesh.Registry.Invariant.{IsWellFormed, run-IsWellFormed}

abbrev node_b : Node
node_b = record {
  id = ascii " b";
  address = ascii "b:1";
  collection_ids = ascii "docs" ∷ [];
  labels = [];
  applied_log_offset = 0;
}

abbrev at_a : Registration
at_a = record {
  node = record node_b { id = ascii "a"; address = ascii "a:1" };
  lease_id = ascii "l1";
  expires_at = 110;
}

-- One node, whose lease ends at 110.
abbrev one : Registry
one = record { ttl = 100; revision = 1; nodes = (ascii "a", at_a) ∷ [] }

one-Unique : Unique one.nodes
unfolding Unique find
one-Unique = (refl, tt)

a_active : active 60 (trim_space (ascii "a ")) one ≡ some at_a
unfolding active live find text_eq trim_space
a_active = refl

a_trimmed : trim_space (ascii "a ") ≡ ascii "a"
unfolding trim_space
a_trimmed = refl

b_named : is_empty (trim_space node_b.id) ≡ false
unfolding trim_space is_empty
b_named = refl

b_located : is_empty (trim_space node_b.address) ≡ false
unfolding trim_space is_empty
b_located = refl

lease_matches : text_eq at_a.lease_id (trim_space (ascii "l1")) ≡ true
unfolding trim_space text_eq
lease_matches = refl

refused_without_lease_example :
    ((active 60 (trim_space (ascii "b")) one ≡ none)
      → (heartbeat 60 (ascii "b") (ascii "l1") 7 one ≡ (err node_not_found, remove_expired 60 one))
        × (deregister 60 (ascii "b") (ascii "l1") one
            ≡ (err node_not_found, remove_expired 60 one)))
    × ((c : Registration)
        → active 60 (trim_space (ascii "b")) one ≡ some c
        → text_eq c.lease_id (trim_space (ascii "l1")) ≡ false
        → (heartbeat 60 (ascii "b") (ascii "l1") 7 one
            ≡ (err lease_mismatch, remove_expired 60 one))
          × (deregister 60 (ascii "b") (ascii "l1") one
              ≡ (err lease_mismatch, remove_expired 60 one)))
refused_without_lease_example = refused_without_lease 60 7 (ascii "b") (ascii "l1") one one-Unique

active-heartbeat_example :
    (lease : Lease) × (r' : Registry) × (heartbeat 60 (ascii "a ") (ascii "l1") 7 one
      ≡ (ok lease, r'))
    × (lease ≡ record { id = at_a.lease_id; expires_at = 60 + 100; revision = r'.revision })
    × (active 120 (ascii "a") r'
        ≡ replaced
            (trim_space (ascii "a "))
            (ascii "a")
            (live 120 (
              some (record {
                node = record (at_a.node) { applied_log_offset = 7 };
                lease_id = at_a.lease_id;
                expires_at = 60 + 100;
              })))
            (active 120 (ascii "a") one))
active-heartbeat_example =
    active-heartbeat 60 120 7 (ascii "a ") (ascii "l1") (ascii "a") at_a one one-Unique
      (omega arith) a_active lease_matches (sym a_trimmed)

abbrev empty : Registry
empty = record { ttl = 100; revision = 0; nodes = [] }

empty-IsWellFormed : IsWellFormed empty
unfolding Unique find
empty-IsWellFormed = record { unique = tt; keyed = λ id c found. ground arith }

abbrev calls : List Event
calls =
    registers 10 (some (ascii "l1")) (at_a.node)
    ∷ registers 20 (some (ascii "l2")) node_b
    ∷ heartbeats 50 (ascii "a") (ascii "l1") 7
    ∷ sweeps 130
    ∷ deregisters 140 (ascii "a") (ascii "l1")
    ∷ []

run-IsWellFormed_example : IsWellFormed (run calls empty)
run-IsWellFormed_example = run-IsWellFormed calls empty empty-IsWellFormed

a_requested : is_requested (string_set (ascii "docs " ∷ [])) at_a.node ≡ true
unfolding is_requested intersects contains string_set insert text_eq trim_space is_empty
a_requested = refl

a_found : active 60 (ascii "a") one ≡ some at_a
unfolding active live find text_eq
a_found = refl

nodes-Listed_example :
    IsAscending (nodes 60 (ascii "docs " ∷ []) one).0
    × Listed at_a.node (nodes 60 (ascii "docs " ∷ []) one).0
nodes-Listed_example =
    nodes-Listed 60 (ascii "docs " ∷ []) (ascii "a") at_a one one-Unique a_found a_requested
