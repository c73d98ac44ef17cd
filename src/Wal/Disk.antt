-- ===== src/Wal/Disk.antt =====
-- The file of a log and the calls of the operating system that the log makes.
-- `faults` are the outcomes of the calls to come: `none` is a success, `some n` a failure after `n`
-- bytes; behind the last one every call succeeds. `durable` is what the file held at the last
-- successful sync, so what a crash cannot take away. An action is a function of the disk.
use private_mesh.Prelude.{
  ℕ, ◌+◌, ◌-◌, Bool, false, List, [], ◌∷◌, ◌++◌, Option, none, some, take, drop, length, replicate,
  min, Result, ok, err, if◌then◌else◌, ltb,
}
use private_mesh.Text.{Text}
use private_mesh.Wal.Error.{Error, io, corrupt}
use private_mesh.Wal.Frame.{header_size}
use private_mesh.Wal.Scan.{Scan, Stop, finished, failed, out_of_fuel, scan}

abbrev pub Faults : Type 0
Faults = List (Option ℕ)

-- `content` is the file that the path names; `is_open` says whether the handle is usable.
pub record Disk : Type 0 where
  pub content : Text
  pub position : ℕ
  pub is_open : Bool
  pub durable : Text
  pub faults : Faults

abbrev pub Action : Type 0 → Type 0
Action A = Disk → Result Error A × Disk

abbrev pub continue :
    {A B S : Type 0} → Result Error A × S → (A → S → Result Error B × S) → Result Error B × S
continue (ok a, s) f = f a s
continue (err e, s) f = (err e, s)

infixl 5 ◌>>=◌ ◌>>◌
abbrev pub ◌>>=◌ : {A B : Type 0} → Action A → (A → Action B) → Action B
◌>>=◌ m f d = continue (m d) f

abbrev pub ◌>>◌ : {A B : Type 0} → Action A → Action B → Action B
m >> k = m >>= λ _. k

abbrev pub return : {A : Type 0} → A → Action A
return a d = (ok a, d)

abbrev pub fail : {A : Type 0} → Error → Action A
fail e d = (err e, d)

abbrev next_fault : Faults → Option ℕ
next_fault [] = none
next_fault (f ∷ fs) = f

abbrev later_faults : Faults → Faults
later_faults [] = []
later_faults (f ∷ fs) = fs

-- The bytes from `position` on are overwritten; a gap behind the end is filled with zeros.
unfoldable pub overwrite : Text → ℕ → Text → Text
overwrite content position bytes =
    take position content
    ++ (replicate (position - length content) 0
        ++ (bytes ++ drop (position + length bytes) content))

put_bytes : Text → Disk → Disk
unfolding overwrite
put_bytes bytes d = record d {
  content = overwrite d.content d.position bytes;
  position = d.position + length bytes;
}

-- A call that succeeds or fails with no other effect: Stat, Seek, MkdirAll, OpenFile and the like.
unfoldable pub call : Action (Unit {0})
call d =
    let d' : Disk = record d { faults = later_faults d.faults } in
    elim (next_fault d.faults) [ none ↦ (ok tt, d') | some n ↦ (err io, d') ]

-- A call on the handle, which fails once the handle is closed.
unfoldable pub on_handle : {A : Type 0} → Action A → Action A
on_handle m d = if d.is_open then m d else (err io, d)

-- file.Write
unfoldable pub write : Text → Action (Unit {0})
unfolding put_bytes on_handle
write bytes = on_handle (λ d.
    let d' : Disk = record d { faults = later_faults d.faults } in
    elim (next_fault d.faults) [
      | none ↦ (ok tt, put_bytes bytes d')
      | some n ↦ (err io, put_bytes (take n bytes) d')
    ])

-- file.Sync
unfoldable pub sync : Action (Unit {0})
unfolding call on_handle
sync = on_handle (do call; λ d. (ok tt, record d { durable = d.content }))

-- file.Seek
unfoldable pub seek_start : Action (Unit {0})
unfolding call on_handle
seek_start = on_handle (do call; λ d. (ok tt, record d { position = 0 }))

unfoldable pub seek_end : Action (Unit {0})
unfolding call on_handle
seek_end = on_handle (do call; λ d. (ok tt, record d { position = length d.content }))

-- file.Truncate
unfoldable pub truncate_file : ℕ → Action (Unit {0})
unfolding call on_handle
truncate_file n = on_handle (do call; λ d. (ok tt, record d { content = take n d.content }))

-- file.Close: the handle is gone, whatever Close answers.
unfoldable pub close_file : Action (Unit {0})
unfolding call on_handle
close_file = on_handle (λ d. call (record d { is_open = false }))

-- The reads of `scanLog` behind its Seek: the file is read to its end or to the record that is
-- refused. A failing read leaves the file at an offset that the environment chooses, and may come
-- before or behind what the scan would refuse; in the header it is wrapped in ErrCorruptLog.
after_scan : Stop → Action Scan
after_scan (finished s) d = (ok s, record d { position = length d.content })
after_scan (failed e n) d = (err e, record d { position = min n (length d.content) })
after_scan out_of_fuel d = (err io, d)

unfoldable pub scan_log : List Bool → Action Scan
unfolding on_handle after_scan
scan_log polls = do
  seek_start
  on_handle (λ d.
      let d' : Disk = record d { faults = later_faults d.faults } in
      elim (next_fault d.faults) [
        | none ↦ after_scan (scan polls d.content) d'
        | some n ↦ (
          err (if ltb n header_size then corrupt else io),
          record d' { position = min n (length d.content) },
        )
      ])
