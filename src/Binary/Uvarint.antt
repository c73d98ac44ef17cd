-- ===== src/Binary/Uvarint.antt =====
-- Variable-length integers are read back, with whatever follows them.
use native.Mathlib.Nat.{pow-suc, div-add-mod}
use private_mesh.Prelude.{
  ℕ, zero, suc, ◌+◌, ◌*◌, ◌/◌, ◌%◌, ◌^◌, ◌≤◌, ◌<◌, ◌≡◌, ap, ◌++◌, length, ok, arith, ltb,
  Bool-cases, inl, inr,
}
use private_mesh.Text.{Text}
use private_mesh.Binary.{put_groups, put_uvarint, read_groups, read_uvarint}

length-put_groups : (k v : ℕ) → (1 ≤ length (put_groups k v)) × (length (put_groups k v) ≤ suc k)
unfolding put_groups
length-put_groups zero v = omega arith
length-put_groups (suc k) v = ground (arith, length-put_groups k (v / 128))

split_group : (v unit : ℕ) → v * unit ≡ v % 128 * unit + v / 128 * (unit * 128)
split_group v unit = omega (arith, ap (λ (t : ℕ). t * unit) (div-add-mod v 128))

split_unit : (k unit : ℕ) → unit * 128 ^ suc k ≡ unit * 128 * 128 ^ k
split_unit k unit = omega (arith, ap (λ (t : ℕ). unit * t) (pow-suc 128 k))

read-put_groups :
    (k v acc unit : ℕ) (rest : Text)
    → unit * 128 ^ k ≡ 2 ^ 63
    → acc + v * unit < 2 ^ 64
    → read_groups (suc k) acc unit (put_groups k v ++ rest) ≡ ok (acc + v * unit, rest)
unfolding put_groups read_groups
read-put_groups zero v acc unit rest hu h = ground arith
read-put_groups (suc k) v acc unit rest hu h = elim (Bool-cases (ltb v 128)) [
  | inl last ↦ rw last (ground arith)
  | inr more ↦ ground (
    arith,
    split_group v unit,
    split_unit k unit,
    read-put_groups k (v / 128) (acc + v % 128 * unit) (unit * 128) rest,
  )
]

pub read-put_uvarint :
    (v : ℕ) (rest : Text) → v < 2 ^ 64 → read_uvarint (put_uvarint v ++ rest) ≡ ok (v, rest)
unfolding read_uvarint put_uvarint
read-put_uvarint v rest h = ground (arith, read-put_groups 9 v 0 1 rest)

-- Ten bytes at most.
pub length-put_uvarint : (v : ℕ) → (1 ≤ length (put_uvarint v)) × (length (put_uvarint v) ≤ 10)
unfolding put_uvarint
length-put_uvarint v = length-put_groups 9 v

length-put_groups_small : (k j v : ℕ) → v < 128 ^ suc j → length (put_groups k v) ≤ suc j
unfolding put_groups
length-put_groups_small zero j v h = omega arith
length-put_groups_small (suc k) zero v h = ground arith
length-put_groups_small (suc k) (suc j) v h =
    ground (arith, length-put_groups_small k j (v / 128) (omega (arith, pow-suc 128 (suc j))))

-- Four bytes hold 28 bits.
pub length-put_uvarint_small : (v : ℕ) → v < 2 ^ 28 → length (put_uvarint v) ≤ 4
unfolding put_uvarint
length-put_uvarint_small v h = length-put_groups_small 9 3 v (omega arith)
