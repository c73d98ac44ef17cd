-- ===== src/Planner/Features.antt =====
-- `ExtractFeatures` of internal/planner/planner.go.
use private_mesh.Prelude.{
  ℕ, Bool, true, false, not, ◌&&◌, ◌||◌, List, [], ◌∷◌, length, ltb, leb, ◌==◌,
}
use private_mesh.Text.{Text, trim_space, ascii}

-- `runes` are the characters of a string, `is_space` and `is_digit` the tests of package unicode.
pub record Words : Type 0 where
  pub fields : Text → List Text
  pub runes : Text → List ℕ
  pub to_lower : Text → Text
  pub is_space : ℕ → Bool
  pub is_digit : ℕ → Bool

pub record Features : Type 0 where
  pub token_count : ℕ
  pub rune_count : ℕ
  pub has_quoted_phrase : Bool
  pub looks_like_id : Bool
  pub looks_natural : Bool

-- strings.HasPrefix and strings.HasSuffix of an ASCII text.
unfoldable pub has_prefix : Text → Text → Bool
has_prefix text [] = true
has_prefix [] (p ∷ prefix) = false
has_prefix (b ∷ text) (p ∷ prefix) = b == p && has_prefix text prefix

unfoldable pub ends_with : ℕ → Text → Bool
ends_with c [] = false
ends_with c (b ∷ []) = b == c
ends_with c (b ∷ d ∷ text) = ends_with c (d ∷ text)

unfoldable pub is_separator : ℕ → Bool
is_separator rune = rune == 45 || rune == 95 || rune == 58 || rune == 47

unfoldable pub has_space : Text → Bool
has_space [] = false
has_space (b ∷ text) = b == 32 || has_space text

unfoldable pub any_rune : (ℕ → Bool) → List ℕ → Bool
any_rune test [] = false
any_rune test (rune ∷ runes) = test rune || any_rune test runes

module _ (words : Words) where
  -- The loop of `hasQuotedPhrase`.
  unfoldable pub quoted_from : Bool → Bool → List ℕ → Bool
  quoted_from opened content [] = false
  quoted_from opened content (value ∷ values) = elim (value == 34) [
    | true ↦ elim (opened && content) [
      | true ↦ true
      | false ↦ quoted_from (not opened) false values
    ]
    | false ↦ quoted_from opened (content || opened && not (words.is_space value)) values
  ]

  unfoldable pub has_quoted : Text → Bool
  has_quoted query = quoted_from false false (words.runes query)

  unfoldable pub is_like_id : Text → Bool
  is_like_id value =
      not (ltb (length value) 4 || has_space value)
      && any_rune is_separator (words.runes value)
      && any_rune words.is_digit (words.runes value)

  unfoldable pub one_like_id : List Text → Bool
  one_like_id [] = false
  one_like_id (a ∷ []) = is_like_id a
  one_like_id (a ∷ b ∷ tokens) = false

  unfoldable pub is_natural : Text → ℕ → Bool
  is_natural query tokens =
      let lower = words.to_lower query in
      leb 6 tokens
      || ends_with 63 query
      || has_prefix lower (ascii "how ")
      || has_prefix lower (ascii "why ")
      || has_prefix lower (ascii "what ")
      || has_prefix lower (ascii "which ")

  unfoldable pub extract_features : Text → Features
  extract_features query =
      let trimmed = trim_space query in
      let tokens = words.fields trimmed in
      record {
        token_count = length tokens;
        rune_count = length (words.runes trimmed);
        has_quoted_phrase = has_quoted trimmed;
        looks_like_id = one_like_id tokens;
        looks_natural = is_natural trimmed (length tokens);
      }
