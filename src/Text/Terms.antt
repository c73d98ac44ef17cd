-- ===== src/Text/Terms.antt =====
-- Sets of terms by insertion of many keys, and how often a term occurs in a list of tokens: the
-- loops that internal/segment/codec.go and internal/search/index.go share.
pub mod Counting
use private_mesh.Prelude.{ℕ, ◌+◌, ◌%◌, ◌^◌, List, [], ◌∷◌, Option, none, some, Bool, false, true}
use private_mesh.Text.{Text}
use private_mesh.Text.Sets.{insert}
use private_mesh.Text.Maps.{Map, find, put}

unfoldable pub frequency : Text → Map ℕ → ℕ
frequency term m = elim (find term m) [ none ↦ 0 | some n ↦ n ]

unfoldable pub frequencies : List Text → Map ℕ → Map ℕ
frequencies [] m = m
frequencies (term ∷ terms) m = frequencies terms (put term ((frequency term m + 1) % 2 ^ 64) m)

unfoldable pub keys : {A : Type 0} → Map A → List Text
keys [] = []
keys ((k, a) ∷ m) = k ∷ keys m

-- `slices.Sort` of distinct keys, and the union of two sets of keys.
unfoldable pub insert_all : List Text → List Text → List Text
insert_all [] set = set
insert_all (k ∷ ks) set = insert_all ks (insert k set)

-- `_, ok := m[key]`
unfoldable pub has_key : {A : Type 0} → Text → Map A → Bool
has_key key m = elim (find key m) [ none ↦ false | some a ↦ true ]
