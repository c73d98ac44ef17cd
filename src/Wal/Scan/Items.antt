-- ===== src/Wal/Scan/Items.antt =====
-- The records of a log as data: what the bytes of a log stand for, independently of `scanLog`.
use private_mesh.Prelude.{ℕ, ◌+◌, ◌^◌, ◌≤◌, ◌<◌, List, [], ◌∷◌, ◌++◌}
use private_mesh.Text.{Text}
use private_mesh.Document.{Mutation}
use private_mesh.Wal.Record.{mutation_payload, encode_commit}
use private_mesh.Wal.Record.RoundTrip.{CanStore, stored}
use private_mesh.Wal.Frame.{frame}
use private_mesh.Wal.Scan.{Entry}

pub data Item : Type 0 where
  appends : Mutation → Item
  commits : ℕ → Item

-- The bytes of the records, for a log whose last sequence is `last`.
unfoldable pub bytes_of : ℕ → List Item → Text
bytes_of last [] = []
bytes_of last (appends m ∷ items) =
    frame (mutation_payload (last + 1) m) ++ bytes_of (last + 1) items
bytes_of last (commits c ∷ items) = frame (encode_commit c) ++ bytes_of last items

-- Sequences follow one another below 2 ^ 64, and commits go up, behind what they commit.
abbrev pub IsValid : ℕ → ℕ → List Item → Type 0
IsValid last committed [] = Unit {0}
IsValid last committed (appends m ∷ items) =
    CanStore m × (last + 1 < 2 ^ 64) × IsValid (last + 1) committed items
IsValid last committed (commits c ∷ items) =
    (committed < c) × (c ≤ last) × (c < 2 ^ 64) × IsValid last c items

abbrev pub last_of : ℕ → List Item → ℕ
last_of last [] = last
last_of last (appends m ∷ items) = last_of (last + 1) items
last_of last (commits c ∷ items) = last_of last items

abbrev pub committed_of : ℕ → List Item → ℕ
committed_of committed [] = committed
committed_of committed (appends m ∷ items) = committed_of committed items
committed_of committed (commits c ∷ items) = committed_of c items

-- The mutations with their sequences.
abbrev pub entries_of : ℕ → List Item → List Entry
entries_of last [] = []
entries_of last (appends m ∷ items) =
    record { sequence = last + 1; mutation = stored m } ∷ entries_of (last + 1) items
entries_of last (commits c ∷ items) = entries_of last items
