-- ===== src/Text/Sets.antt =====
-- Sets of strings (`map[string]struct{}`), as the ascending list of their keys.
use private_mesh.Prelude.{Bool, false, ◌||◌, List, [], ◌∷◌, if◌then◌else◌}
use private_mesh.Text.{Text, text_eq, text_lt, trim_space, is_empty}

unfoldable pub insert : Text → List Text → List Text
insert value [] = value ∷ []
insert value (v ∷ values) =
    let rest = insert value values in
    if text_eq value v then v ∷ values else if text_lt value v then value ∷ v ∷ values else v ∷ rest

unfoldable pub contains : Text → List Text → Bool
contains target [] = false
contains target (value ∷ values) = text_eq value target || contains target values

-- The loop of `stringSet` and of `normalizedCollectionIDs`: trimmed, without the blank strings.
unfoldable pub string_set : List Text → List Text
unfolding insert
string_set [] = []
string_set (value ∷ values) =
    let rest = string_set values in
    if is_empty (trim_space value) then rest else insert (trim_space value) rest
