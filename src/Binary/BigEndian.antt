-- ===== src/Binary/BigEndian.antt =====
-- Big-endian numbers are read back.
use native.Mathlib.Nat.{pow-suc}
use private_mesh.Prelude.{
  ℕ, zero, suc, ◌+◌, ◌*◌, ◌/◌, ◌%◌, ◌^◌, ◌<◌, ◌≡◌, refl, ◌∙◌, [], ◌∷◌, ◌++◌, length, length-append,
  arith,
}
use private_mesh.Text.{Text}
use private_mesh.Binary.{put_be, be_from, get_be}

pub length-put_be : (k v : ℕ) → length (put_be k v) ≡ k
unfolding put_be
length-put_be zero v = refl
length-put_be (suc k) v =
    length-append (put_be k (v / 256)) (v % 256 ∷ []) ∙ omega (arith, length-put_be k (v / 256))

be_from-append : (acc b : ℕ) (bs : Text) → be_from acc (bs ++ (b ∷ [])) ≡ be_from acc bs * 256 + b
unfolding be_from
be_from-append acc b [] = refl
be_from-append acc b (c ∷ bs) = be_from-append (acc * 256 + c) b bs

-- What `put_be` wrote is read back, if it fits `k` bytes.
pub get_be-put_be : (k v : ℕ) → v < 256 ^ k → get_be (put_be k v) ≡ v
unfolding put_be get_be
get_be-put_be zero v h = omega arith
get_be-put_be (suc k) v h =
    be_from-append 0 (v % 256) (put_be k (v / 256))
    ∙ omega (arith, get_be-put_be k (v / 256) (omega (arith, pow-suc 256 k)))
