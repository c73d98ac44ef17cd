-- ===== src/Wal/Frame/Reading.antt =====
-- Headers and records are read back; a record that is cut short is seen to be.
use mathlib.Core.List.{append_assoc}
use native.Mathlib.Decide.{dec_lt}
use private_mesh.Prelude.{
  ℕ, ◌+◌, ◌-◌, ◌^◌, ◌≤◌, ◌<◌, ◌≡◌, ◌⊎◌, inl, inr, refl, ap, ◌∙◌, false, [], ◌∷◌, ◌++◌, length, take,
  length-append, length-take, take-append_exact, drop-append_exact, ok, arith, take-append_beyond,
  drop, length-drop,
}
use private_mesh.Text.{Text, text_eq}
use private_mesh.Binary.{put_be, get_be, checksum, checksum-lt}
use private_mesh.Binary.BigEndian.{length-put_be, get_be-put_be}
use private_mesh.Wal.Error.{max_record_size}
use private_mesh.Wal.Frame.{
  header, read_header, frame, record_header, read_frame, read_payload, is_bad_size, at_end, partial,
  payload, header_size,
}

pub length-header : (base : ℕ) → length (header base) ≡ header_size
unfolding header
length-header base = ground (
  arith,
  length-put_be 8 base,
  length-put_be 2 1,
  length-put_be 2 20,
  length-append (put_be 2 20) (put_be 8 base),
  length-append (put_be 2 1) (put_be 2 20 ++ put_be 8 base),
)

pub length-frame : (p : Text) → length (frame p) ≡ 8 + length p
unfolding frame record_header
length-frame p = ground (
  arith,
  length-put_be 4 (length p),
  length-put_be 4 (checksum p),
  length-append (put_be 4 (length p)) (put_be 4 (checksum p)),
  length-append (record_header p) p,
  length-append (put_be 4 (length p) ++ put_be 4 (checksum p)) p,
)

-- The base sequence is read back, whatever records follow.
pub read_header-header :
    (base : ℕ) (rest : Text) → base < 2 ^ 64 → read_header (header base ++ rest) ≡ ok base
unfolding header read_header put_be text_eq get_be
read_header-header base rest h = ground (arith, get_be-put_be 8 base)

in_bounds : (n : ℕ) → is_bad_size n ≡ false → (0 < n) × (n ≤ max_record_size)
unfolding is_bad_size
in_bounds n h = ground arith

read_frame-header :
    (p rest : Text)
    → is_bad_size (length p) ≡ false
    → read_frame (record_header p ++ rest) ≡ read_payload (length p) (checksum p) rest
unfolding read_frame record_header put_be get_be
read_frame-header p rest h = ground (
  arith,
  in_bounds (length p),
  checksum-lt p,
  get_be-put_be 4 (length p),
  get_be-put_be 4 (checksum p),
)

read_payload_whole :
    (p rest : Text)
    → is_bad_size (length p) ≡ false
    → read_payload (length p) (checksum p) (p ++ rest) ≡ payload p rest
unfolding read_payload
read_payload_whole p rest h =
    rw (h, take-append_exact (length p) p rest refl, drop-append_exact (length p) p rest refl)
      (ground (arith, length-append p rest))

-- A record is read back, whatever follows it.
pub read_frame-frame :
    (p rest : Text) → is_bad_size (length p) ≡ false → read_frame (frame p ++ rest) ≡ payload p rest
unfolding frame
read_frame-frame p rest h =
    ap read_frame (append_assoc (record_header p) p rest)
    ∙ read_frame-header p (p ++ rest) h
    ∙ read_payload_whole p rest h

read_frame_short : (t : Text) → length t < 8 → (read_frame t ≡ at_end) ⊎ (read_frame t ≡ partial)
unfolding read_frame
read_frame_short [] h = inl refl
read_frame_short (b ∷ bs) h = inr (ground arith)

read_payload_cut :
    (p body : Text)
    → is_bad_size (length p) ≡ false
    → length body < length p
    → read_payload (length p) (checksum p) body ≡ partial
unfolding read_payload
read_payload_cut p body h short = rw h (ground arith)

pub length-record_header : (p : Text) → length (record_header p) ≡ 8
unfolding record_header
length-record_header p = ground (
  arith,
  length-put_be 4 (length p),
  length-put_be 4 (checksum p),
  length-append (put_be 4 (length p)) (put_be 4 (checksum p)),
)

-- Of a record that is cut short, anywhere, `scanLog` sees the end of the file or a partial record.
pub read_frame-take :
    (k : ℕ) (p : Text)
    → is_bad_size (length p) ≡ false
    → k < length (frame p)
    → (read_frame (take k (frame p)) ≡ at_end) ⊎ (read_frame (take k (frame p)) ≡ partial)
unfolding frame
read_frame-take k p h short = elim (dec_lt k 8) [
  | yes few ↦ read_frame_short (take k (frame p)) (omega (arith, length-take k (frame p)))
  | no many ↦
      let e : take k (frame p) ≡ record_header p ++ take (k - 8) p =
        take-append_beyond 8 k (record_header p) p (length-record_header p) (omega arith) in
      inr (
        rw e (
          read_frame-header p (take (k - 8) p) h
          ∙ read_payload_cut p (take (k - 8) p) h
              (omega (arith, length-take (k - 8) p, length-frame p))))
]

-- A payload is not empty, and its header stands before it.
pub read_frame_shrinks :
    (bytes p rest : Text)
    → read_frame bytes ≡ payload p rest
    → 8 + length p + length rest ≡ length bytes
unfolding read_frame read_payload is_bad_size
read_frame_shrinks [] p rest h = cc
read_frame_shrinks (b ∷ bs) p rest h = ground (
  arith,
  length-take (get_be (take 4 (b ∷ bs))) (drop 8 (b ∷ bs)),
  length-drop (get_be (take 4 (b ∷ bs))) (drop 8 (b ∷ bs)),
  length-drop 8 (b ∷ bs),
)
