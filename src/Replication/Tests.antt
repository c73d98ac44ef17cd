-- ===== src/Replication/Tests.antt =====
-- Replicas that keep their log as a list, and the theorems at concrete inputs.
use private_mesh.Prelude.{
  ◌+◌, ◌≡◌, ◌<◌, refl, Bool, true, false, List, [], ◌∷◌, length, arith, none, Result, ok, err, sym,
  ap,
}
use private_mesh.Text.{ascii, trim_space, text_eq}
use private_mesh.Document.{no_mutation}
use private_mesh.Election.{Election, campaigns, validate, run}
use private_mesh.Replication as R
use private_mesh.Replication.{
  Entry, Status, Replica, Primary, append_peers, acknowledged, quorum, write, quorum_unavailable,
  not_leader, on_acknowledged, states, commit_entry, replicate_entry, write_entry, write_at,
}
use private_mesh.Replication.Quorum.{Replicated, write-Replicated}
use private_mesh.Replication.Unchanged.{IsLawful, write-unchanged}
use private_mesh.Replication.Fenced.{write_deposed}

-- A replica that is up or down, with its entries, the last one first.
abbrev Memory : Type 0
Memory = Bool × List Entry

abbrev append_memory : Entry → Memory → Result R.Error (Unit {0}) × Memory
append_memory entry (true, entries) = (ok tt, (true, entry ∷ entries))
append_memory entry (false, entries) = (err R.replica, (false, entries))

abbrev tail : List Entry → List Entry
tail [] = []
tail (x ∷ xs) = xs

abbrev memory : Replica Memory
memory = record {
  append = append_memory;
  commit = λ offset s. (ok tt, s);
  rollback = λ offset s. (ok tt, (s.0, tail s.1));
  status = λ s. ok (record { applied_offset = length s.1; committed_offset = 0 });
  entries = λ after s. ok none;
  snapshot = λ s. err R.replica;
  install_snapshot = λ snapshot s. (err R.replica, s);
}

memory-IsLawful : IsLawful memory
memory-IsLawful = record { keeps = keeps; undoes = undoes }
  where
    keeps :
        (entry : Entry) (s s' : Memory) (e : R.Error) → append_memory entry s ≡ (err e, s') → s' ≡ s
    keeps entry (true, entries) s' e h = ground arith
    keeps entry (false, entries) s' e h =
        sym (ap (λ (x : Result R.Error (Unit {0}) × Memory). x.1) h)

    undoes :
        (entry : Entry) (s s' : Memory)
        → append_memory entry s ≡ (ok tt, s')
        → ◌≡◌ {A = Memory} (s'.0, tail s'.1) s
    undoes entry (true, entries) s' h =
        sym (ap (λ (x : Result R.Error (Unit {0}) × Memory). (x.1.0, tail x.1.1)) h)
    undoes entry (false, entries) s' h = ground arith

abbrev led : Election
led = record {
  duration = 100;
  current = record { node_id = ascii "a"; term = 2; expires_at = 110 };
}

abbrev primary : Bool → Primary Memory
primary up = record {
  node_id = ascii "a";
  term = 2;
  local = (true, []);
  peers = (up, []) ∷ (false, []) ∷ [];
}

abbrev first : Entry
first = record { offset = 0 + 1; mutation = no_mutation }

abbrev written : Primary Memory
written = record (primary true) {
  local = (true, first ∷ []);
  peers = (true, first ∷ []) ∷ (false, []) ∷ [];
}

written_once : write memory 50 led no_mutation (primary true) ≡ (ok 1, written)
unfolding write write_at write_entry replicate_entry commit_entry append_peers acknowledged
    on_acknowledged quorum validate text_eq trim_space
written_once = refl

write-Replicated_example :
    (validate 50 (ascii "a") 2 led ≡ ok tt)
    × ((s : Status) × (memory.status (primary true).local ≡ ok s)
        × (1 ≡ s.applied_offset + 1)
        × Replicated memory
            (record { offset = s.applied_offset + 1; mutation = no_mutation })
            (primary true))
write-Replicated_example =
    write-Replicated memory 50 1 led no_mutation (primary true) written written_once

led_valid : validate 50 (ascii "a") 2 led ≡ ok tt
unfolding validate text_eq trim_space
led_valid = refl

too_few :
    1 + acknowledged (append_peers memory first (primary false).peers) < quorum (primary false)
unfolding acknowledged append_peers quorum
too_few = omega arith

write-unchanged_example :
    write memory 50 led no_mutation (primary false) ≡ (err quorum_unavailable, primary false)
write-unchanged_example =
    write-unchanged memory memory-IsLawful 50 led no_mutation (primary false)
      (record { applied_offset = 0; committed_offset = 0 }) (true, first ∷ []) led_valid refl
      (omega arith) refl too_few

write_deposed_example :
    write memory 130
      (run (campaigns 120 (ascii "b") ∷ []) led)
      no_mutation
      (record (primary true) { term = 1 })
    ≡ (err not_leader, record (primary true) { term = 1 })
write_deposed_example =
    write_deposed memory (campaigns 120 (ascii "b") ∷ []) 130 led no_mutation
      (record (primary true) { term = 1 }) (omega arith) (omega arith)
