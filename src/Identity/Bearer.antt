-- ===== src/Identity/Bearer.antt =====
-- The bearer token of an authorization value, as `TokenAuthenticator.Authenticate` of
-- internal/searchnode/service.go and `BearerAuthenticator.Authenticate` of
-- internal/coordinator/api.go take it from the value.
use private_mesh.Prelude.{
  ℕ, ◌+◌, Bool, true, false, not, ◌&&◌, ◌||◌, [], ◌∷◌, leb, ◌==◌, map, if◌then◌else◌, Option, none,
  some,
}
use private_mesh.Text.{Text, text_eq, trim_space, is_empty, ascii}

abbrev pub space : ℕ
space = 32

unfoldable pub cut_cons : ℕ → Option (Text × Text) → Option (Text × Text)
cut_cons b none = none
cut_cons b (some (before, behind)) = some (b ∷ before, behind)

-- strings.Cut at a byte: what is before it and behind it, if it is there.
unfoldable pub cut : ℕ → Text → Option (Text × Text)
cut separator [] = none
cut separator (b ∷ text) = elim (b == separator) [
  | true ↦ some ([], text)
  | false ↦ cut_cons b (cut separator text)
]

unfoldable pub lower : ℕ → ℕ
lower b = if leb 65 b && leb b 90 then b + 32 else b

-- strings.EqualFold with an ASCII text without `k` and `s`, whose letters have no other foldings.
unfoldable pub equal_fold : Text → Text → Bool
equal_fold s t = text_eq (map lower s) (map lower t)

unfoldable pub token_of : Text × Text → Option Text
token_of (scheme, token) =
    if not (equal_fold scheme (ascii "Bearer")) || is_empty (trim_space token)
    then none
    else some (trim_space token)

unfoldable pub bearer_token : Text → Option Text
bearer_token value = elim (cut space value) [ none ↦ none | some parts ↦ token_of parts ]
