-- ===== src/Wal/Scan/Fuel.antt =====
-- The loop of `scanLog` ends on every file.
use private_mesh.Prelude.{
  ℕ, zero, suc, ◌+◌, ◌<◌, ◌≡◌, ◌≢◌, refl, Bool, true, List, length, drop, length-drop, ok, err,
  arith, Bool-cases, inl, inr, Result, min,
}
use private_mesh.Text.{Text}
use private_mesh.Wal.Frame.{
  Found, read_frame, read_header, payload, at_end, partial, refused, header_size,
  record_header_size,
}
use private_mesh.Wal.Frame.Reading.{read_frame_shrinks}
use private_mesh.Wal.Error.{Error, corrupt, canceled}
use private_mesh.Wal.Scan.{
  Scan, Stop, accept, scan_records, scan, start, out_of_fuel, finished, failed, is_canceled,
  later_polls,
}

-- One round ends the loop, or goes on with fewer bytes.
data Round (fuel : ℕ) (polls : List Bool) (bytes : Text) (stop : Stop) : Type 0 where
  ends : stop ≢ out_of_fuel → Round fuel polls bytes stop
  goes_on :
      (rest : Text) (s' : Scan)
      → length rest < length bytes
      → stop ≡ scan_records fuel (later_polls polls) rest s'
      → Round fuel polls bytes stop

finished-ne : (s : Scan) → finished s ≢ out_of_fuel
finished-ne s e = cc

failed-ne : (e : Error) (n : ℕ) → failed e n ≢ out_of_fuel
failed-ne e n h = cc

module _ (fuel : ℕ) (polls : List Bool) (bytes : Text) (s : Scan) where
  accepted :
      (p rest : Text)
      → length rest < length bytes
      → (r : Result Error Scan)
      → Round fuel polls bytes (elim r [
        | ok s' ↦ scan_records fuel (later_polls polls) rest s'
        | err e ↦ failed e (s.valid_offset + (record_header_size + length p))
      ])
  accepted p rest shorter (ok s') = goes_on rest s' shorter refl
  accepted p rest shorter (err e) = ends (failed-ne e _)

  reads :
      (found : Found)
      → read_frame bytes ≡ found
      → Round fuel polls bytes (elim found [
        | at_end ↦ finished s
        | partial ↦ finished (record s { incomplete_tail = true })
        | refused n ↦ failed corrupt (s.valid_offset + n)
        | payload p rest ↦ elim (accept p s) [
          | ok s' ↦ scan_records fuel (later_polls polls) rest s'
          | err e ↦ failed e (s.valid_offset + (record_header_size + length p))
        ]
      ])
  reads at_end h = ends (finished-ne s)
  reads partial h = ends (finished-ne _)
  reads (refused n) h = ends (failed-ne corrupt _)
  reads (payload p rest) h =
      accepted p rest (omega (arith, read_frame_shrinks bytes p rest h)) (accept p s)

  round : Round fuel polls bytes (scan_records (suc fuel) polls bytes s)
  unfolding scan_records
  round = elim (Bool-cases (is_canceled polls)) [
    | inl yes_canceled ↦ rw (yes_canceled, scan_records) (ends (failed-ne canceled _))
    | inr not_canceled ↦ rw (not_canceled, scan_records) (reads (read_frame bytes) refl)
  ]

scan_records-ne-out_of_fuel :
    (fuel : ℕ) (polls : List Bool) (bytes : Text) (s : Scan)
    → length bytes < fuel
    → scan_records fuel polls bytes s ≢ out_of_fuel
scan_records-ne-out_of_fuel zero polls bytes s h = absurd (omega arith)
scan_records-ne-out_of_fuel (suc fuel) polls bytes s h = elim (round fuel polls bytes s) [
  | ends done ↦ done
  | goes_on rest s' shorter e ↦
      rw e (scan_records-ne-out_of_fuel fuel (later_polls polls) rest s' (omega arith))
]

-- On every file and under every context the scan ends with a result or with an error.
pub scan-ne-out_of_fuel : (polls : List Bool) (bytes : Text) → scan polls bytes ≢ out_of_fuel
unfolding scan
scan-ne-out_of_fuel polls bytes = headed (read_header bytes)
  where
    headed :
        (r : Result Error ℕ)
        → elim r [
          | ok base ↦ scan_records (suc (length bytes)) polls (drop header_size bytes) (start base)
          | err e ↦ failed e (min header_size (length bytes))
        ]
          ≢ out_of_fuel
    headed (ok base) =
        scan_records-ne-out_of_fuel (suc (length bytes)) polls (drop header_size bytes) (start base)
          (omega (arith, length-drop header_size bytes))
    headed (err e) = failed-ne e _
