-- ===== src/Wal/Log/Recovery.antt =====
-- What a crash cannot take away.
use mathlib.Core.List.{append_assoc}
use private_mesh.Prelude.{
  ℕ, ◌-◌, ◌≤◌, ◌≡◌, refl, ap, sym, ◌∙◌, false, List, [], ◌∷◌, ◌++◌, length, take, take_front,
  take-append_beyond, take-append_short, ok, arith,
}
use private_mesh.Text.{Text, trim_space, is_empty}
use private_mesh.Wal.Frame.{header}
use private_mesh.Wal.Scan.{Entry}
use private_mesh.Wal.Scan.Items.{
  Item, commits, bytes_of, IsValid, last_of, committed_of, entries_of,
}
use private_mesh.Wal.Log.{Log, open_log, replay, Disk}
use private_mesh.Wal.Log.Spec.{
  state, file, healthy, IsLog, IsValid-front, IsValid-back, bytes_of-append, entries_of-append,
  length-entries_of, committed_of-append, committed_bounds,
}
use private_mesh.Wal.Log.Reads.{replay-state}
use private_mesh.Wal.Log.Crash.{at_rest, Cut, Cut-bytes, open_log-tail}

take-file :
    (base k : ℕ) (safe pending : List Item)
    → length (file base safe) ≤ k
    → take k (file base (safe ++ pending))
      ≡ file base safe ++ take (k - length (file base safe)) (bytes_of (last_of base safe) pending)
take-file base k safe pending far =
    ap (λ t. take k (header base ++ t)) (bytes_of-append base safe pending)
    ∙ ap (take k) (sym (append_assoc (header base) (bytes_of base safe) _))
    ∙ take-append_beyond (length (file base safe)) k (file base safe) _ refl far

file-kept :
    (base : ℕ) (safe kept : List Item) (tail : Text)
    → file base safe ++ (bytes_of (last_of base safe) kept ++ tail)
      ≡ file base (safe ++ kept) ++ tail
file-kept base safe kept tail =
    sym (append_assoc (file base safe) (bytes_of (last_of base safe) kept) tail)
    ∙ ap (λ t. t ++ tail)
        (append_assoc (header base) (bytes_of base safe) _
          ∙ ap (λ t. header base ++ t) (sym (bytes_of-append base safe kept)))

-- A crash leaves of a log's file at least the bytes that were durable, those of the records `safe`,
-- and possibly more, up to any byte of the records behind them. `Open` on what is left answers a
-- log that stands for all of `safe` and for the whole records behind them that are left.
pub open_log_after_crash :
    (path : Text) (base k : ℕ) (safe pending : List Item)
    → is_empty (trim_space path) ≡ false
    → IsLog base (safe ++ pending)
    → length (file base safe) ≤ k
    → (kept : List Item) × (lost : List Item) × (pending ≡ kept ++ lost)
      × IsLog base (safe ++ kept)
      × (open_log path (at_rest (take k (file base (safe ++ pending)))) ≡ (
        ok (state base (safe ++ kept)),
        healthy (file base (safe ++ kept)) (file base (safe ++ kept)),
      ))
open_log_after_crash path base k safe pending named (fits, v) far =
    let left = k - length (file base safe) in
    let c : Cut (last_of base safe) pending left =
      Cut-bytes left (last_of base safe) (committed_of base safe) pending
        (IsValid-back base base safe pending v) in
    let whole : IsValid base base ((safe ++ c.kept) ++ c.lost) = rw (append_assoc, ← c.splits) v in
    let valid : IsLog base (safe ++ c.kept) =
      (fits, IsValid-front base base (safe ++ c.kept) c.lost whole) in
    (
      c.kept,
      c.lost,
      c.splits,
      valid,
      ap (λ t. open_log path (at_rest t))
            (take-file base k safe pending far
              ∙ ap (λ t. file base safe ++ t) c.bytes
              ∙ file-kept base safe c.kept c.tail)
          ∙ open_log-tail path base (safe ++ c.kept) c.cut c.tail named valid c.found,
    )

-- The entries through a commit are the first ones, whatever is recorded behind it.
take-entries_of :
    (base c n : ℕ) (items more : List Item)
    → c ≤ last_of base items
    → c ≤ n
    → (rest : List Entry) × (take (n - base) (entries_of base (items ++ more))
        ≡ take (c - base) (entries_of base items) ++ rest)
take-entries_of base c n items more le len =
    let (rest, e) =
      take_front (c - base) (n - base) (entries_of base (items ++ more)) (omega arith) in
    (
      rest,
      e
          ∙ ap (λ t. take (c - base) t ++ rest) (entries_of-append base items more)
          ∙ ap (λ t. t ++ rest)
              (take-append_short (c - base) (entries_of base items) _
                (omega (arith, length-entries_of base items))),
    )

committed_through :
    (base c : ℕ) (items kept : List Item)
    → IsLog base (items ++ (commits c ∷ kept))
    → (c ≤ last_of base items) × (c ≤ committed_of base (items ++ (commits c ∷ kept)))
committed_through base c items kept (fits, v) =
    let (above, below, _, rest) = IsValid-back base base items (commits c ∷ kept) v in
    (
      below,
      omega (
        arith,
        committed_of-append base items (commits c ∷ kept),
        committed_bounds (last_of base items) c kept below rest,
      ),
    )

pub replayed :
    (base c : ℕ) (items kept : List Item)
    → IsLog base ((items ++ (commits c ∷ [])) ++ kept)
    → (rest : List Entry) × (take
          (committed_of base ((items ++ (commits c ∷ [])) ++ kept) - base)
          (entries_of base ((items ++ (commits c ∷ [])) ++ kept))
        ≡ take (c - base) (entries_of base items) ++ rest)
replayed base c items kept valid =
    let e : (items ++ (commits c ∷ [])) ++ kept ≡ items ++ (commits c ∷ kept) =
      append_assoc items (commits c ∷ []) kept in
    let (below, through) = committed_through base c items kept (rw e at valid) in
    rw e (
      take-entries_of base c (committed_of base (items ++ (commits c ∷ kept))) items
        (commits c ∷ kept) below through)

-- After `Commit` of sequence `c` has succeeded, no crash takes a committed mutation away: whatever
-- records are added behind it, and wherever the crash cuts the file behind what the commit made
-- durable, `Open` and `Replay` succeed and `Replay` answers first the mutations through `c`, in
-- order and as they were appended.
pub replay_after_crash :
    (path : Text) (base c k : ℕ) (items pending : List Item)
    → is_empty (trim_space path) ≡ false
    → IsLog base ((items ++ (commits c ∷ [])) ++ pending)
    → length (file base (items ++ (commits c ∷ []))) ≤ k
    → (l : Log) × (d : Disk) × (more : List Entry) × (open_log path
          (at_rest (take k (file base ((items ++ (commits c ∷ [])) ++ pending))))
        ≡ (ok l, d))
      × (replay [] l d ≡ (ok (take (c - base) (entries_of base items) ++ more), l, d))
replay_after_crash path base c k items pending named valid far =
    let safe = items ++ (commits c ∷ []) in
    let (kept, lost, splits, kept_valid, opens) =
      open_log_after_crash path base k safe pending named valid far in
    let (rest, e) = replayed base c items kept kept_valid in
    (
      state base (safe ++ kept),
      healthy (file base (safe ++ kept)) (file base (safe ++ kept)),
      rest,
      opens,
      replay-state base (safe ++ kept) (file base (safe ++ kept)) kept_valid
          ∙ ap
              (λ t. (
                ok t,
                state base (safe ++ kept),
                healthy (file base (safe ++ kept)) (file base (safe ++ kept)),
              ))
              e,
    )
