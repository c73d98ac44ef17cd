-- ===== src/Text/Maps.antt =====
-- Maps with string keys (`map[string]A`), as lists of their entries in some order, with one entry
-- a key at most.
pub mod Finding
use private_mesh.Prelude.{ℕ, Bool, true, false, List, [], ◌∷◌, Option, none, some, if◌then◌else◌}
use private_mesh.Text.{Text, text_eq}

abbrev pub Map : Type 0 → Type 0
Map A = List (Text × A)

unfoldable pub find : {A : Type 0} → Text → Map A → Option A
find key [] = none
find key ((k, a) ∷ m) = if text_eq k key then some a else find key m

-- `m[key] = a`
unfoldable pub put : {A : Type 0} → Text → A → Map A → Map A
put key a [] = (key, a) ∷ []
put key a ((k, b) ∷ m) =
    let rest = put key a m in if text_eq k key then (k, a) ∷ m else (k, b) ∷ rest

-- `delete(m, key)`
unfoldable pub remove : {A : Type 0} → Text → Map A → Map A
remove key [] = []
remove key ((k, b) ∷ m) = let rest = remove key m in if text_eq k key then rest else (k, b) ∷ rest
