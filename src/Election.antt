-- ===== src/Election.antt =====
-- internal/replication/election.go: leadership leases with fencing terms.
-- Instants and durations are numbers (the zero time is 0); `now` is the reading of the clock that
-- the Go method takes first. The mutex makes each method one step, so a method is a function of
-- the state. `Term++` wraps at 64 bits.
pub mod Fencing
pub mod Lease
mod Tests
use private_mesh.Prelude.{
  ℕ, ◌+◌, ◌%◌, ◌^◌, Bool, true, false, not, ◌&&◌, ◌||◌, List, [], ◌∷◌, ltb, ◌==◌, if◌then◌else◌,
  Result, ok, err,
}
use private_mesh.Text.{Text, text_eq, trim_space, is_empty}

pub data Error : Type 0 where
  duration_not_positive node_id_required not_leader : Error

pub record Leadership : Type 0 where
  pub node_id : Text
  pub term : ℕ
  pub expires_at : ℕ

-- `Leadership{}`
abbrev pub no_leadership : Leadership
no_leadership = record { node_id = []; term = 0; expires_at = 0 }

pub record Election : Type 0 where
  pub duration : ℕ
  pub current : Leadership

pub new_election : ℕ → Result Error Election
new_election duration =
    if duration == 0
    then err duration_not_positive
    else ok (record { duration = duration; current = no_leadership })

-- `now.Before(e.current.ExpiresAt)`
is_live : ℕ → Election → Bool
is_live now e = ltb now e.current.expires_at

-- The assignments of `Campaign` behind its checks, for the trimmed node.
grant : ℕ → Text → Election → Leadership
unfolding is_live
grant now node e = record {
  node_id = node;
  term =
      if not (text_eq e.current.node_id node) || not (is_live now e)
      then (e.current.term + 1) % 2 ^ 64
      else e.current.term;
  expires_at = now + e.duration;
}

pub campaign : ℕ → Text → Election → Result Error Leadership × Election
unfolding grant
campaign now node_id e =
    let node = trim_space node_id in
    if is_empty node
    then (err node_id_required, e)
    else if is_live now e && not (text_eq e.current.node_id node)
    then (err not_leader, e)
    else (ok (grant now node e), record e { current = grant now node e })

-- The test that `Renew` and `Validate` share.
owns : ℕ → Text → ℕ → Election → Bool
unfolding is_live
owns now node_id term e =
    text_eq e.current.node_id (trim_space node_id) && e.current.term == term && is_live now e

pub renew : ℕ → Text → ℕ → Election → Result Error Leadership × Election
unfolding owns
renew now node_id term e =
    if owns now node_id term e
    then (let l : Leadership = record (e.current) { expires_at = now + e.duration } in
        (ok l, record e { current = l }))
    else (err not_leader, e)

unfoldable pub validate : ℕ → Text → ℕ → Election → Result Error (Unit {0})
unfolding owns
validate now node_id term e = if owns now node_id term e then ok tt else err not_leader

pub current_leadership : ℕ → Election → Leadership
unfolding is_live
current_leadership now e = if is_live now e then e.current else no_leadership

-- The calls that change the state, with the clock reading of each.
pub data Event : Type 0 where
  campaigns : ℕ → Text → Event
  renews : ℕ → Text → ℕ → Event

pub step : Event → Election → Election
unfolding campaign renew
step (campaigns now node_id) e = (campaign now node_id e).1
step (renews now node_id term) e = (renew now node_id term e).1

-- Any interleaving of calls from any nodes.
pub run : List Event → Election → Election
unfolding step
run [] e = e
run (ev ∷ evs) e = run evs (step ev e)
