-- ===== src/Replication/Fenced.antt =====
-- A primary whose term has been passed cannot write.
use private_mesh.Prelude.{ℕ, ◌+◌, ◌^◌, ◌<◌, ◌≡◌, refl, List, length, err}
use private_mesh.Document.{Mutation}
use private_mesh.Election.{Election, Event, run}
use private_mesh.Election.Fencing.{run_deposes}
use private_mesh.Replication.{Replica, Primary, write, not_leader}

-- Once the election has passed a primary's term, its `Write` answers ErrNotLeader and touches no
-- replica, whatever calls the election takes first and whatever the clock reads; as long as the
-- term does not wrap at 64 bits.
pub write_deposed :
    {S : Type 0} (replica_of : Replica S) (evs : List Event) (now : ℕ) (e : Election) (m : Mutation)
    (p : Primary S)
    → p.term < e.current.term
    → e.current.term + length evs < 2 ^ 64
    → write replica_of now (run evs e) m p ≡ (err not_leader, p)
unfolding write
write_deposed replica_of evs now e m p behind fits =
    rw (run_deposes evs e now p.term p.node_id behind fits, write) refl
