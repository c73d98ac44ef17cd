-- ===== src/Wal/Log/Spec.antt =====
-- The abstract log: a base sequence and the records behind it. `state` and `file` are the fields and
-- the bytes that stand for it; `healthy` is an open file, at its end, with no failure to come.
use mathlib.Core.List.{append_assoc, append-nil}
use private_mesh.Prelude.{
  ℕ, ◌+◌, ◌^◌, ◌≤◌, ◌<◌, ◌≡◌, refl, ap, ◌∙◌, true, List, [], ◌∷◌, ◌++◌, length, arith, sym,
}
use private_mesh.Text.{Text}
use private_mesh.Document.{Mutation}
use private_mesh.Wal.Record.{mutation_payload, encode_commit}
use private_mesh.Wal.Frame.{header, frame}
use private_mesh.Wal.Scan.Items.{
  Item, appends, commits, bytes_of, IsValid, last_of, committed_of, entries_of,
}
use private_mesh.Wal.Scan.Contents.{entry_of}
use private_mesh.Wal.Disk.{Disk}
use private_mesh.Wal.Log.{Log}

abbrev pub state : ℕ → List Item → Log
state base items = record {
  has_file = true;
  base_sequence = base;
  last_sequence = last_of base items;
  committed_sequence = committed_of base items;
}

abbrev pub file : ℕ → List Item → Text
file base items = header base ++ bytes_of base items

abbrev pub healthy : Text → Text → Disk
healthy content durable = record {
  content = content;
  position = length content;
  is_open = true;
  durable = durable;
  faults = [];
}

-- The records are as a scan accepts them.
abbrev pub IsLog : ℕ → List Item → Type 0
IsLog base items = (base < 2 ^ 64) × IsValid base base items

pub bytes_of-append :
    (last : ℕ) (items more : List Item)
    → bytes_of last (items ++ more) ≡ bytes_of last items ++ bytes_of (last_of last items) more
unfolding bytes_of
bytes_of-append last [] more = refl
bytes_of-append last (appends m ∷ items) more =
    ap (λ t. frame (mutation_payload (last + 1) m) ++ t) (bytes_of-append (last + 1) items more)
    ∙ sym (append_assoc (frame (mutation_payload (last + 1) m)) _ _)
bytes_of-append last (commits c ∷ items) more =
    ap (λ t. frame (encode_commit c) ++ t) (bytes_of-append last items more)
    ∙ sym (append_assoc (frame (encode_commit c)) _ _)

module _ (last : ℕ) where
  pub bytes_of-nil : bytes_of last [] ≡ []
  unfolding bytes_of
  bytes_of-nil = refl

  pub bytes_of-appends_cons :
      (m : Mutation) (items : List Item)
      → bytes_of last (appends m ∷ items)
        ≡ frame (mutation_payload (last + 1) m) ++ bytes_of (last + 1) items
  unfolding bytes_of
  bytes_of-appends_cons m items = refl

  pub bytes_of-commits_cons :
      (c : ℕ) (items : List Item)
      → bytes_of last (commits c ∷ items) ≡ frame (encode_commit c) ++ bytes_of last items
  unfolding bytes_of
  bytes_of-commits_cons c items = refl

pub bytes_of-appends_one :
    (last : ℕ) (m : Mutation)
    → bytes_of last (appends m ∷ []) ≡ frame (mutation_payload (last + 1) m)
unfolding bytes_of
bytes_of-appends_one last m = append-nil _

pub bytes_of-commits_one : (last c : ℕ) → bytes_of last (commits c ∷ []) ≡ frame (encode_commit c)
unfolding bytes_of
bytes_of-commits_one last c = append-nil _

pub IsValid-append :
    (last c : ℕ) (items more : List Item)
    → IsValid last c items
    → IsValid (last_of last items) (committed_of c items) more
    → IsValid last c (items ++ more)
IsValid-append last c [] more v w = w
IsValid-append last c (appends m ∷ items) more (can, fits, v) w =
    (can, fits, IsValid-append (last + 1) c items more v w)
IsValid-append last c (commits c' ∷ items) more (above, below, fits, v) w =
    (above, below, fits, IsValid-append last c' items more v w)

pub IsValid-front :
    (last c : ℕ) (items more : List Item) → IsValid last c (items ++ more) → IsValid last c items
IsValid-front last c [] more v = tt
IsValid-front last c (appends m ∷ items) more (can, fits, v) =
    (can, fits, IsValid-front (last + 1) c items more v)
IsValid-front last c (commits c' ∷ items) more (above, below, fits, v) =
    (above, below, fits, IsValid-front last c' items more v)

-- Commits stay between the sequence that they start from and the last one.
pub committed_bounds :
    (last c : ℕ) (items : List Item)
    → c ≤ last
    → IsValid last c items
    → (c ≤ committed_of c items)
      × (committed_of c items ≤ last_of last items)
      × (last ≤ last_of last items)
committed_bounds last c [] le v = (omega arith, omega arith, omega arith)
committed_bounds last c (appends m ∷ items) le (can, fits, v) =
    omega (arith, committed_bounds (last + 1) c items (omega arith) v)
committed_bounds last c (commits c' ∷ items) le (above, below, fits, v) =
    omega (arith, committed_bounds last c' items below v)

pub entries_of-append :
    (last : ℕ) (items more : List Item)
    → entries_of last (items ++ more)
      ≡ entries_of last items ++ entries_of (last_of last items) more
entries_of-append last [] more = refl
entries_of-append last (appends m ∷ items) more =
    ap (λ t. entry_of (last + 1) m ∷ t) (entries_of-append (last + 1) items more)
entries_of-append last (commits c ∷ items) more = entries_of-append last items more

pub length-entries_of :
    (last : ℕ) (items : List Item) → length (entries_of last items) + last ≡ last_of last items
length-entries_of last [] = omega arith
length-entries_of last (appends m ∷ items) = omega (arith, length-entries_of (last + 1) items)
length-entries_of last (commits c ∷ items) = length-entries_of last items

pub last_of-append :
    (last : ℕ) (items more : List Item)
    → last_of last (items ++ more) ≡ last_of (last_of last items) more
last_of-append last [] more = refl
last_of-append last (appends m ∷ items) more = last_of-append (last + 1) items more
last_of-append last (commits c ∷ items) more = last_of-append last items more

pub committed_of-append :
    (c : ℕ) (items more : List Item)
    → committed_of c (items ++ more) ≡ committed_of (committed_of c items) more
committed_of-append c [] more = refl
committed_of-append c (appends m ∷ items) more = committed_of-append c items more
committed_of-append c (commits c' ∷ items) more = committed_of-append c' items more

pub IsValid-back :
    (last c : ℕ) (items more : List Item)
    → IsValid last c (items ++ more)
    → IsValid (last_of last items) (committed_of c items) more
IsValid-back last c [] more v = v
IsValid-back last c (appends m ∷ items) more (can, fits, v) = IsValid-back (last + 1) c items more v
IsValid-back last c (commits c' ∷ items) more (above, below, fits, v) =
    IsValid-back last c' items more v
