-- ===== src/Search/Described/Matching.antt =====
-- The documents that `matchingDocuments` finds.
use private_mesh.Prelude.{
  ℕ, ◌≡◌, refl, Bool, true, false, ◌&&◌, ◌||◌, List, [], ◌∷◌, ◌==◌, if◌then◌else◌, Option, none,
  some, Bool-cases, inl, inr, arith,
}
use private_mesh.Text.{Text, text_eq}
use private_mesh.Text.Sets.{contains}
use private_mesh.Text.Maps.{Map, find}
use private_mesh.Text.Equality.{text_eq_sound}
use private_mesh.Text.Terms.{keys, insert_all, has_key}
use private_mesh.Text.Terms.Counting.{contains-keys, contains-insert_all}
use private_mesh.Document.{Document}
use private_mesh.Search.Index.{Index, Posting, documents_with}
use private_mesh.Search.Described.{posting_in, has_term, IsDescribed}
use private_mesh.Search.Index.{kept_in, match_some, match_every, matching_documents, match_any}
use private_mesh.Text.Terms.Counting.{contains-insert_all, contains-keys}

contains-kept_in :
    (id : Text) (m : Map Posting) (ids : List Text)
    → contains id (kept_in m ids) ≡ (contains id ids && has_key id m)
unfolding contains kept_in
contains-kept_in id m [] = refl
contains-kept_in id m (x ∷ ids) = elim (Bool-cases (text_eq x id)) [
  | inl same ↦ ground (arith, contains-kept_in id m ids, text_eq_sound x id same)
  | inr differs ↦ ground (arith, contains-kept_in id m ids)
]

module _ (tokenize : Text → List Text) where
  -- Whether a document has one of the terms, and whether it has them all.
  unfoldable pub has_some_term : List Text → Option Document → Bool
  has_some_term [] o = false
  has_some_term (term ∷ terms) o = has_term tokenize term o || has_some_term terms o

  unfoldable pub has_every_term : List Text → Option Document → Bool
  has_every_term [] o = true
  has_every_term (term ∷ terms) o = has_term tokenize term o && has_every_term terms o

  unfoldable pub is_match : ℕ → List Text → Option Document → Bool
  is_match mode terms o =
      if mode == match_any then has_some_term terms o else has_every_term terms o

  has_posting :
      (term : Text) (o : Option Document) (m : Map Posting) (id : Text)
      → find id m ≡ posting_in tokenize term o
      → has_key id m ≡ has_term tokenize term o
  unfolding has_key posting_in has_term
  has_posting term none m id e = ground arith
  has_posting term (some d) m id e = ground arith

  module _ (i : Index) (v : IsDescribed tokenize i) (id : Text) where
    has_key-documents_with :
        (term : Text)
        → has_key id (documents_with term i.postings) ≡ has_term tokenize term (find id i.documents)
    has_key-documents_with term =
        has_posting term (find id i.documents) _ id (v.described_postings id term)

    contains-match_some :
        (terms matches : List Text)
        → contains id (match_some terms i.postings matches)
          ≡ (has_some_term terms (find id i.documents) || contains id matches)
    unfolding match_some has_some_term
    contains-match_some [] matches = refl
    contains-match_some (term ∷ terms) matches = ground (
      arith,
      contains-match_some terms (insert_all (keys (documents_with term i.postings)) matches),
      contains-insert_all id (keys (documents_with term i.postings)) matches,
      contains-keys id (documents_with term i.postings),
      has_key-documents_with term,
    )

    contains-match_every :
        (terms matches : List Text)
        → contains id (match_every terms i.postings matches)
          ≡ (has_every_term terms (find id i.documents) && contains id matches)
    unfolding match_every has_every_term
    contains-match_every [] matches = refl
    contains-match_every (term ∷ terms) matches = ground (
      arith,
      contains-match_every terms (kept_in (documents_with term i.postings) matches),
      contains-kept_in id (documents_with term i.postings) matches,
      has_key-documents_with term,
    )

    pub contains-matching_documents :
        (term : Text) (terms : List Text) (mode : ℕ)
        → contains id (matching_documents (term ∷ terms) mode i.postings)
          ≡ is_match mode (term ∷ terms) (find id i.documents)
    unfolding matching_documents is_match has_every_term contains
    contains-matching_documents term terms mode = ground (
      arith,
      contains-match_some (term ∷ terms) [],
      contains-match_every terms (insert_all (keys (documents_with term i.postings)) []),
      contains-insert_all id (keys (documents_with term i.postings)) [],
      contains-keys id (documents_with term i.postings),
      has_key-documents_with term,
    )
