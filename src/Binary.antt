-- ===== src/Binary.antt =====
-- The parts of Go's standard library that write numbers as bytes: `encoding/binary` (BigEndian,
-- PutUvarint, ReadUvarint) and `hash/crc32` with the Castagnoli polynomial. A byte is a number.
pub mod BigEndian
pub mod Uvarint
use Prim.Native.Nat.{bit_xor}
use private_mesh.Prelude.{
  ℕ, zero, suc, ◌+◌, ◌-◌, ◌*◌, ◌/◌, ◌%◌, ◌^◌, Bool, true, false, ◌&&◌, List, [], ◌∷◌, ◌++◌, ltb,
  ◌==◌, if◌then◌else◌, Result, ok, err, ◌≡◌, refl, ◌<◌, arith,
}
use private_mesh.Text.{Text}

-- The `k` low bytes of `v`, the highest of them first: PutUint16, PutUint32, PutUint64.
unfoldable pub put_be : ℕ → ℕ → Text
put_be zero v = []
put_be (suc k) v = put_be k (v / 256) ++ (v % 256 ∷ [])

be_from : ℕ → Text → ℕ
be_from acc [] = acc
be_from acc (b ∷ bs) = be_from (acc * 256 + b) bs

-- Uint16, Uint32, Uint64 of a slice of 2, 4, 8 bytes.
unfoldable pub get_be : Text → ℕ
unfolding be_from
get_be bs = be_from 0 bs

-- Seven bits a byte, the lowest first, the top bit set on every byte but the last; `k` is the
-- number of bytes that may follow the next.
put_groups : ℕ → ℕ → Text
put_groups zero v = v % 256 ∷ []
put_groups (suc k) v =
    let rest = put_groups k (v / 128) in if ltb v 128 then v ∷ [] else (v % 128 + 128) ∷ rest

-- A uint64 takes MaxVarintLen64 = 10 bytes at most.
unfoldable pub put_uvarint : ℕ → Text
unfolding put_groups
put_uvarint v = put_groups 9 v

pub data VarintError : Type 0 where
  end_of_input overflow : VarintError

-- `k` is the number of bytes that may still be read, `acc` the value so far and `unit` the weight
-- of the next bit, so `acc | b << s` is `acc + b * unit`.
read_groups : ℕ → ℕ → ℕ → Text → Result VarintError (ℕ × Text)
read_groups zero acc unit bs = err overflow
read_groups (suc k) acc unit [] = err end_of_input
read_groups (suc k) acc unit (b ∷ bs) =
    let more = read_groups k ((acc + b % 128 * unit) % 2 ^ 64) (unit * 128) bs in
    if ltb b 128
    then if k == 0 && ltb 1 b then err overflow else ok ((acc + b * unit) % 2 ^ 64, bs)
    else more

-- The value and the bytes behind it.
unfoldable pub read_uvarint : Text → Result VarintError (ℕ × Text)
unfolding read_groups
read_uvarint bs = read_groups 10 0 1 bs

-- One bit of the division by the reflected polynomial.
crc_bit : ℕ → ℕ
crc_bit c = if c % 2 == 1 then bit_xor (c / 2) 0x82f63b78 else c / 2

crc_byte : ℕ → ℕ → ℕ
unfolding crc_bit
crc_byte c b =
    crc_bit (crc_bit (crc_bit (crc_bit (crc_bit (crc_bit (crc_bit (crc_bit (bit_xor c b))))))))

crc_bytes : ℕ → Text → ℕ
crc_bytes c [] = c
crc_bytes c (b ∷ bs) = crc_bytes (crc_byte c b) bs

-- crc32.Checksum(bs, crc32.MakeTable(crc32.Castagnoli)): a uint32.
unfoldable pub checksum : Text → ℕ
unfolding crc_bytes crc_byte
checksum bs = bit_xor (crc_bytes 0xffff_ffff bs) 0xffff_ffff % 2 ^ 32

checksum_check : checksum (49 ∷ 50 ∷ 51 ∷ 52 ∷ 53 ∷ 54 ∷ 55 ∷ 56 ∷ 57 ∷ []) ≡ 0xe306_9283
unfolding checksum
checksum_check = refl

pub checksum-lt : (bs : Text) → checksum bs < 2 ^ 32
unfolding checksum
checksum-lt bs = omega arith
