-- ===== src/Registry/Leases.antt =====
-- What `Register`, `Heartbeat` and `Deregister` do to the active registrations.
use private_mesh.Prelude.{
  ℕ, ◌+◌, ◌≤◌, ◌≡◌, refl, true, false, Bool-cases, inl, inr, Option, none, some, if◌then◌else◌, ok,
  err, ◌∙◌, ap,
}
use private_mesh.Text.{Text, text_eq, trim_space, is_empty}
use private_mesh.Text.Maps.{find, put}
use private_mesh.Text.Maps.Finding.{Unique, find-put, find-remove}
use private_mesh.Registry.{
  Node, Lease, Registration, Registry, register, heartbeat, deregister, admit, extend, release,
  normalized, remove_expired, node_not_found, lease_mismatch,
}
use private_mesh.Registry.Active.{active, live, active-remove_expired, find-unexpired}

-- The active registrations with one of them replaced.
abbrev pub replaced : Text → Text → Option Registration → Option Registration → Option Registration
replaced key id c before = if text_eq key id then c else before

live-replaced :
    (later : ℕ) (key id : Text) (c before : Option Registration)
    → live later (if text_eq key id then c else before)
      ≡ replaced key id (live later c) (live later before)
live-replaced later key id c before = elim (Bool-cases (text_eq key id)) [
  | inl t ↦ rw t refl
  | inr f ↦ rw f refl
]

active-put :
    (later revision : ℕ) (key id : Text) (c : Registration) (r : Registry)
    → active later id (record r { revision = revision; nodes = put key c r.nodes })
      ≡ replaced key id (live later (some c)) (active later id r)
unfolding active
active-put later revision key id c r =
    rw (find-put key id c r.nodes) (live-replaced later key id (some c) (find id r.nodes))

-- `Register` of a node with an ID and an address, at `now`, answers a lease until `now + ttl`. The
-- node, normalized, is then active under that lease until it ends, in the place of any registration
-- it had, and every other node is as active as it was.
active-register :
    (now later : ℕ) (lease_id id : Text) (n : Node) (r : Registry)
    → Unique r.nodes
    → now ≤ later
    → is_empty (trim_space n.id) ≡ false
    → is_empty (trim_space n.address) ≡ false
    → (revision : ℕ) × (r' : Registry) × (register now (some lease_id) n r
        ≡ (ok (record { id = lease_id; expires_at = now + r.ttl; revision = revision }), r'))
      × (revision ≡ r'.revision)
      × (active later id r'
          ≡ replaced
              (trim_space n.id)
              id
              (live later (
                some
                  (record { node = normalized n; lease_id = lease_id; expires_at = now + r.ttl })))
              (active later id r))
unfolding register admit
active-register now later lease_id id n r u h has_id has_address = (
  (admit now lease_id (normalized n) r).0.revision,
  (admit now lease_id (normalized n) r).1,
  rw has_id (rw has_address refl),
  refl,
  active-put later _ (trim_space n.id) id _ (remove_expired now r)
      ∙ ap (replaced (trim_space n.id) id _) (active-remove_expired now later id r u h),
)

-- What `Heartbeat` and `Deregister` find: the active registration.
find-remove_expired :
    (now : ℕ) (id : Text) (r : Registry)
    → Unique r.nodes
    → find id (remove_expired now r).nodes ≡ active now id r
unfolding remove_expired active
find-remove_expired now id r u = find-unexpired now id r.nodes u

-- Without an active registration `Heartbeat` and `Deregister` answer ErrNodeNotFound, and with an
-- active one under another lease ErrLeaseMismatch; either way only expired registrations go.
pub refused_without_lease :
    (now offset : ℕ) (node_id lease_id : Text) (r : Registry)
    → Unique r.nodes
    → ((active now (trim_space node_id) r ≡ none)
        → (heartbeat now node_id lease_id offset r ≡ (err node_not_found, remove_expired now r))
          × (deregister now node_id lease_id r ≡ (err node_not_found, remove_expired now r)))
      × ((c : Registration)
          → active now (trim_space node_id) r ≡ some c
          → text_eq c.lease_id (trim_space lease_id) ≡ false
          → (heartbeat now node_id lease_id offset r ≡ (err lease_mismatch, remove_expired now r))
            × (deregister now node_id lease_id r ≡ (err lease_mismatch, remove_expired now r)))
unfolding heartbeat deregister extend release
refused_without_lease now offset node_id lease_id r u = (
  λ gone.
      (let e = find-remove_expired now (trim_space node_id) r u ∙ gone in
        (rw (e, heartbeat) refl, rw (e, deregister) refl)),
  λ c found other.
      (let e = find-remove_expired now (trim_space node_id) r u ∙ found in
        (rw (e, heartbeat) (rw other refl), rw (e, deregister) (rw other refl))),
)

-- With an active registration under the given lease, stored under its ID, `Heartbeat` at `now`
-- moves the end of the lease to `now + ttl` and records the offset; every other node is as active
-- as it was.
pub active-heartbeat :
    (now later offset : ℕ) (node_id lease_id id : Text) (c : Registration) (r : Registry)
    → Unique r.nodes
    → now ≤ later
    → active now (trim_space node_id) r ≡ some c
    → text_eq c.lease_id (trim_space lease_id) ≡ true
    → c.node.id ≡ trim_space node_id
    → (lease : Lease) × (r' : Registry) × (heartbeat now node_id lease_id offset r ≡ (ok lease, r'))
      × (lease ≡ record { id = c.lease_id; expires_at = now + r.ttl; revision = r'.revision })
      × (active later id r'
          ≡ replaced
              (trim_space node_id)
              id
              (live later (
                some (record {
                  node = record (c.node) { applied_log_offset = offset };
                  lease_id = c.lease_id;
                  expires_at = now + r.ttl;
                })))
              (active later id r))
unfolding heartbeat extend remove_expired
active-heartbeat now later offset node_id lease_id id c r u h found same keyed = (
  record { id = c.lease_id; expires_at = now + r.ttl; revision = (remove_expired now r).revision },
  (extend now lease_id offset c (remove_expired now r)).1,
  rw (find-remove_expired now (trim_space node_id) r u ∙ found, heartbeat) (rw same refl),
  rw same refl,
  rw same (
      active-put later _ c.node.id id _ (remove_expired now r)
      ∙ ap (replaced c.node.id id _) (active-remove_expired now later id r u h)
      ∙ ap
          (λ (key : Text).
            replaced key id
              (live later (
                some (record {
                  node = record (c.node) { applied_log_offset = offset };
                  lease_id = c.lease_id;
                  expires_at = now + r.ttl;
                })))
              (active later id r))
          keyed),
)

-- With an active registration under the given lease, `Deregister` ends it: the node is not active
-- any more, and every other node is as active as it was.
active-deregister :
    (now later : ℕ) (node_id lease_id id : Text) (c : Registration) (r : Registry)
    → Unique r.nodes
    → now ≤ later
    → active now (trim_space node_id) r ≡ some c
    → text_eq c.lease_id (trim_space lease_id) ≡ true
    → (r' : Registry) × (deregister now node_id lease_id r ≡ (ok tt, r'))
      × (active later id r' ≡ replaced (trim_space node_id) id none (active later id r))
unfolding deregister release active
active-deregister now later node_id lease_id id c r u h found same = (
  (release (trim_space node_id) lease_id c (remove_expired now r)).1,
  rw (find-remove_expired now (trim_space node_id) r u ∙ found, deregister) (rw same refl),
  rw same (
      rw (find-remove (trim_space node_id) id (remove_expired now r).nodes) (
        live-replaced later (trim_space node_id) id none (find id (remove_expired now r).nodes)
        ∙ ap (replaced (trim_space node_id) id none) (active-remove_expired now later id r u h))),
)
