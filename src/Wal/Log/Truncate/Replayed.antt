-- ===== src/Wal/Log/Truncate/Replayed.antt =====
-- What `Replay` answers behind a `Truncate`.
use private_mesh.Prelude.{
  ℕ, zero, suc, ◌+◌, ◌-◌, ◌≤◌, ◌≡◌, refl, ap, ◌∙◌, List, [], ◌∷◌, ◌++◌, take, drop, ok, arith,
}
use mathlib.Core.List.{append-nil}
use private_mesh.Text.{Text}
use private_mesh.Wal.Scan.Items.{Item, appends, commits, last_of, committed_of, entries_of, IsValid}
use private_mesh.Wal.Disk.{Disk}
use private_mesh.Wal.Log.{Log, truncate, replay}
use private_mesh.Wal.Log.Spec.{state, file, healthy, IsLog, entries_of-append, committed_bounds}
use private_mesh.Wal.Log.Reads.{replay-state}
use private_mesh.Wal.Log.Truncate.{truncate-state}
use private_mesh.Wal.Log.Truncate.Kept.{
  mutations_after, commit_from, truncated, state-truncated, last_of-grows,
}

entries_of-mutations_after :
    (n last from : ℕ) (items : List Item)
    → from ≡ last + n
    → from ≤ last_of last items
    → entries_of from (mutations_after n items) ≡ drop n (entries_of last items)
unfolding mutations_after
entries_of-mutations_after zero last from [] e h = refl
entries_of-mutations_after (suc n) last from [] e h = refl
entries_of-mutations_after zero last from (appends m ∷ items) e h =
    let same : from ≡ last = omega arith in
    let ih =
      entries_of-mutations_after zero (last + 1) (from + 1) items (omega arith)
        (omega (arith, last_of-grows (last + 1) items)) in
    ground (arith, same, ih)
entries_of-mutations_after (suc n) last from (appends m ∷ items) e h =
    entries_of-mutations_after n (last + 1) from items (omega arith) h
entries_of-mutations_after zero last from (commits c ∷ items) e h =
    entries_of-mutations_after zero last from items e h
entries_of-mutations_after (suc n) last from (commits c ∷ items) e h =
    entries_of-mutations_after (suc n) last from items e h

no_entries : (last base c : ℕ) → entries_of last (commit_from base c) ≡ []
no_entries last base c = ground arith

replayed :
    (base c : ℕ) (items : List Item)
    → IsValid base base items
    → base ≤ c
    → c ≤ committed_of base items
    → entries_of c (truncated base c items) ≡ drop (c - base) (entries_of base items)
replayed base c items v from to =
    let kept = mutations_after (c - base) items in
    entries_of-append c kept (commit_from c (committed_of base items))
    ∙ ap (λ t. entries_of c kept ++ t) (no_entries (last_of c kept) c (committed_of base items))
    ∙ append-nil (entries_of c kept)
    ∙ entries_of-mutations_after (c - base) base c items (omega arith)
        (omega (arith, committed_bounds base base items (omega arith) v))

-- After `Truncate` at a checkpoint between the base and the last commit, `Replay` answers the
-- mutations behind the checkpoint through the last commit: what it answered before, without the
-- mutations through the checkpoint.
pub replay-truncate :
    (base c : ℕ) (items : List Item) (durable : Text)
    → IsLog base items
    → base ≤ c
    → c ≤ committed_of base items
    → (l : Log) × (d : Disk) × (truncate c (state base items) (healthy (file base items) durable)
        ≡ (ok tt, l, d))
      × (replay [] l d ≡ (
        ok (take (committed_of base items - c) (drop (c - base) (entries_of base items))),
        l,
        d,
      ))
replay-truncate base c items durable (fits, v) from to =
    let (e, valid) = truncate-state base c items durable (fits, v) from to in
    (
      state c (truncated base c items),
      healthy (file c (truncated base c items)) (file c (truncated base c items)),
      e,
      replay-state c (truncated base c items) (file c (truncated base c items)) valid
          ∙ ground (arith, state-truncated base c items v from to, replayed base c items v from to),
    )
