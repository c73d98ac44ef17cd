-- ===== src/Text.antt =====
-- Go strings as lists of bytes, with the operations of the standard library that the program
-- uses on them: `==`, `<`, `strings.TrimSpace`.
pub mod Trim
pub mod Equality
pub mod Sets
pub mod Maps
pub mod Terms
use Prim.Native.Char.{code}
use Prim.Native.String.{String}
use private_mesh.Prelude.{
  ℕ, zero, suc, Bool, true, false, ◌&&◌, ◌||◌, List, [], ◌∷◌, reverse, ltb, leb, ◌==◌,
  if◌then◌else◌,
}

abbrev pub Text : Type 0
Text = List ℕ

unfoldable pub text_eq : Text → Text → Bool
text_eq [] [] = true
text_eq [] (b ∷ t) = false
text_eq (a ∷ s) [] = false
text_eq (a ∷ s) (b ∷ t) = a == b && text_eq s t

-- `<` of Go strings: by bytes, a proper prefix first.
unfoldable pub text_lt : Text → Text → Bool
text_lt [] [] = false
text_lt [] (b ∷ t) = true
text_lt (a ∷ s) [] = false
text_lt (a ∷ s) (b ∷ t) = if a == b then text_lt s t else ltb a b

-- The white space of `unicode.IsSpace`, by the length of its UTF-8 encoding.
is_space_1 : ℕ → Bool
is_space_1 a = leb 9 a && leb a 13 || a == 32

is_space_2 : ℕ → ℕ → Bool
is_space_2 a b = a == 0xc2 && (b == 0x85 || b == 0xa0)

is_space_3 : ℕ → ℕ → ℕ → Bool
is_space_3 a b c =
    a == 0xe1 && b == 0x9a && c == 0x80
    || a == 0xe2 && b == 0x80 && (leb 0x80 c && leb c 0x8a || c == 0xa8 || c == 0xa9 || c == 0xaf)
    || a == 0xe2 && b == 0x81 && c == 0x9f
    || a == 0xe3 && b == 0x80 && c == 0x80

-- The bytes of the white space character that a text starts with, 0 if it starts with none.
width_front : Text → ℕ
width_front [] = 0
width_front (a ∷ []) = if is_space_1 a then 1 else 0
width_front (a ∷ b ∷ []) = if is_space_1 a then 1 else if is_space_2 a b then 2 else 0
width_front (a ∷ b ∷ c ∷ s) =
    if is_space_1 a then 1 else if is_space_2 a b then 2 else if is_space_3 a b c then 3 else 0

-- The same at the end of a text that is given backwards.
width_back : Text → ℕ
width_back [] = 0
width_back (c ∷ []) = if is_space_1 c then 1 else 0
width_back (c ∷ b ∷ []) = if is_space_1 c then 1 else if is_space_2 b c then 2 else 0
width_back (c ∷ b ∷ a ∷ s) =
    if is_space_1 c then 1 else if is_space_2 b c then 2 else if is_space_3 a b c then 3 else 0

-- Drops `k` bytes, then white space characters as `width` measures them.
strip : (Text → ℕ) → ℕ → Text → Text
strip width k [] = []
strip width (suc k) (a ∷ s) = strip width k s
strip width zero (a ∷ s) = elim (width (a ∷ s)) [ zero ↦ a ∷ s | suc k ↦ strip width k s ]

-- strings.TrimSpace
unfoldable pub trim_space : Text → Text
unfolding strip width_front width_back is_space_1 is_space_2 is_space_3
trim_space s = reverse (strip width_back 0 (reverse (strip width_front 0 s)))

-- strings.TrimSpace(s) == ""
unfoldable pub is_empty : Text → Bool
is_empty [] = true
is_empty (a ∷ s) = false

-- The bytes of an ASCII text, for constants of the source and for tests.
abbrev pub ascii : String → Text
ascii String.[] = []
ascii (String.◌∷◌ c s) = code c ∷ ascii s
