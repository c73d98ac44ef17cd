-- ===== src/Election/Lease.antt =====
-- The lease excludes other nodes until it expires, and no longer.
use private_mesh.Prelude.{ℕ, ◌+◌, ◌<◌, ◌≡◌, ◌≢◌, ◌↔◌, ◌⊎◌, false, ok, err, arith}
use private_mesh.Text.{Text, trim_space, is_empty}
use private_mesh.Text.Equality.{text_eq_iff}
use private_mesh.Election.{Leadership, Election, campaign, renew, validate, not_leader}

-- While `Validate` accepts one node, `Campaign` refuses every other node and changes nothing.
pub campaign_excludes :
    (now t : ℕ) (holder other : Text) (e : Election)
    → validate now holder t e ≡ ok tt
    → is_empty (trim_space other) ≡ false
    → trim_space other ≢ trim_space holder
    → campaign now other e ≡ (err not_leader, e)
unfolding campaign validate
campaign_excludes now t holder other e v filled differs = ground (
  arith,
  text_eq_iff e.current.node_id (trim_space holder),
  text_eq_iff e.current.node_id (trim_space other),
)

-- After a successful `Campaign` at `now`, `Validate` accepts exactly the winner, under the granted
-- term, at the clock readings before `now + duration`.
validate-campaign :
    (now later t : ℕ) (node_id claimant : Text) (e e' : Election) (l : Leadership)
    → campaign now node_id e ≡ (ok l, e')
    → (validate later claimant t e' ≡ ok tt)
      ↔ ((trim_space claimant ≡ trim_space node_id) × (t ≡ l.term) × (later < now + e.duration))
unfolding campaign validate
validate-campaign now later t node_id claimant e e' l h = ground (
  arith,
  text_eq_iff (trim_space node_id) (trim_space claimant),
  text_eq_iff e'.current.node_id (trim_space claimant),
)

-- `Renew` succeeds exactly where `Validate` does; it then keeps the node and the term and moves
-- the end of the lease to `now + duration`, and otherwise it changes nothing.
renew-validate :
    (now t : ℕ) (node_id : Text) (e : Election)
    → ((validate now node_id t e ≡ ok tt)
        × (renew now node_id t e ≡ (
            let l : Leadership = record (e.current) { expires_at = now + e.duration } in
            (ok l, record e { current = l }))))
      ⊎ ((validate now node_id t e ≡ err not_leader)
          × (renew now node_id t e ≡ (err not_leader, e)))
unfolding renew validate
renew-validate now t node_id e = ground arith
