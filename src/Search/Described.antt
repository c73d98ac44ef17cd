-- ===== src/Search/Described.antt =====
-- What the fields of an index are, told of its documents alone: `IsDescribed`.
pub mod Deleting
pub mod Storing
pub mod History
pub mod Matching
use private_mesh.Prelude.{
  ℕ, zero, suc, ◌+◌, ◌-◌, ◌%◌, ◌^◌, ◌≤◌, ◌<◌, ◌≡◌, ◌≢◌, ◌↔◌, ◌⊎◌, refl, sym, ap, ◌∙◌, Bool, true,
  false, not, ◌&&◌, ◌||◌, List, [], ◌∷◌, ◌++◌, map, length, ◌==◌, ltb, leb, if◌then◌else◌, Option,
  none, some, Result, ok, err, Bool-cases, Option-cases, inl, inr, arith, either_branch,
}
use private_mesh.Text.{Text, text_eq, trim_space, is_empty}
use private_mesh.Text.Sets.{contains}
use private_mesh.Text.Maps.{Map, find, put, remove}
use private_mesh.Text.Maps.Finding.{find-remove, find-put}
use private_mesh.Text.Equality.{text_eq_sound, text_eq_refl}
use private_mesh.Text.Terms.{frequency, frequencies, keys, insert_all, has_key}
use private_mesh.Text.Terms.Counting.{
  count, frequency-frequencies, has_key-frequencies, contains-keys, contains-insert_all,
}
use private_mesh.Document.{Document}
use private_mesh.Search.Index.{
  Index, Posting, FieldLengths, new_index, documents_with, terms_of, delete_locked, delete,
  store_document, upsert, analyze, merge_terms, without,
}
use private_mesh.Search.Postings.{find-drop_postings, find-add_postings}

module _ (tokenize : Text → List Text) where
  unfoldable pub term_in : Text → Document → Bool
  term_in term d = contains term (tokenize d.title) || contains term (tokenize d.body)

  -- What the postings have for a document and a term.
  unfoldable pub posting_in : Text → Option Document → Option Posting
  posting_in term none = none
  posting_in term (some d) =
      if term_in term d
      then some (record {
        title_frequency = count term (tokenize d.title) % 2 ^ 64;
        body_frequency = count term (tokenize d.body) % 2 ^ 64;
      })
      else none

  unfoldable pub has_term : Text → Option Document → Bool
  has_term term none = false
  has_term term (some d) = term_in term d

  unfoldable pub lengths_in : Option Document → Option FieldLengths
  lengths_in none = none
  lengths_in (some d) = some (record {
    title = length (tokenize d.title) % 2 ^ 64;
    body = length (tokenize d.body) % 2 ^ 64;
  })

  pub record IsDescribed (i : Index) : Type 0 where
    pub described_postings :
        (id term : Text)
        → find id (documents_with term i.postings) ≡ posting_in term (find id i.documents)
    pub described_terms :
        (id term : Text)
        → contains term (terms_of id i.document_terms) ≡ has_term term (find id i.documents)
    pub described_lengths : (id : Text) → find id i.lengths ≡ lengths_in (find id i.documents)
    pub described_ids :
        (id : Text) (d : Document) → find id i.documents ≡ some d → text_eq d.id id ≡ true

  pub new_index-IsDescribed : IsDescribed new_index
  unfolding find documents_with terms_of posting_in has_term lengths_in contains
  new_index-IsDescribed = record {
    described_postings = λ id term. refl;
    described_terms = λ id term. refl;
    described_lengths = λ id. refl;
    described_ids = λ id d e. cc;
  }

  -- A term that a document lacks has no posting of it.
  pub posting_in-lacking :
      (term : Text) (o : Option Document) → has_term term o ≡ false → posting_in term o ≡ none
  unfolding posting_in has_term
  posting_in-lacking term none h = refl
  posting_in-lacking term (some d) h = ground (arith)

  abbrev pub terms_in : Document → List Text
  terms_in d = merge_terms ((analyze tokenize d.title).0 ∷ (analyze tokenize d.body).0 ∷ [])

  pub contains-terms_in : (term : Text) (d : Document) → contains term (terms_in d) ≡ term_in term d
  unfolding analyze merge_terms term_in contains has_key find
  contains-terms_in term d = ground (
    arith,
    contains-insert_all term (keys (frequencies (tokenize d.title) []))
        (insert_all (keys (frequencies (tokenize d.body) [])) []),
    contains-insert_all term (keys (frequencies (tokenize d.body) [])) [],
    contains-keys term (frequencies (tokenize d.title) []),
    contains-keys term (frequencies (tokenize d.body) []),
    has_key-frequencies term (tokenize d.title) [],
    has_key-frequencies term (tokenize d.body) [],
  )

  pub frequency-terms :
      (term : Text) (tokens : List Text)
      → frequency term (frequencies tokens []) ≡ count term tokens % 2 ^ 64
  unfolding frequency find
  frequency-terms term tokens = omega (arith, frequency-frequencies term tokens [] (omega arith))

  abbrev pub own_lengths : Document → FieldLengths
  own_lengths d = record {
    title = length (tokenize d.title) % 2 ^ 64;
    body = length (tokenize d.body) % 2 ^ 64;
  }

  pub has_term-remove :
      (id id' term : Text) (m : Map Document)
      → has_term term (find id' (remove id m))
        ≡ (if text_eq id id' then false else has_term term (find id' m))
  unfolding has_term
  has_term-remove id id' term m = ground (arith, find-remove id id' m)
