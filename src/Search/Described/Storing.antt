-- ===== src/Search/Described/Storing.antt =====
-- The store behind the checks of `Upsert` keeps an index described by its documents.
use private_mesh.Prelude.{◌≡◌, sym, ap, true, List, [], none, some, Bool-cases, inl, inr, arith}
use private_mesh.Text.{Text, text_eq}
use private_mesh.Text.Sets.{contains}
use private_mesh.Text.Maps.{find}
use private_mesh.Text.Maps.Finding.{find-put}
use private_mesh.Text.Equality.{text_eq_sound, text_eq_refl}
use private_mesh.Text.Terms.{frequencies}
use private_mesh.Document.{Document}
use private_mesh.Search.Index.{Index, documents_with, terms_of, store_document, analyze}
use private_mesh.Search.Postings.{find-add_postings}
use private_mesh.Search.Described.{
  posting_in, has_term, lengths_in, IsDescribed, terms_in, contains-terms_in, frequency-terms,
  own_lengths,
}

module _ (tokenize : Text → List Text) (i : Index) (v : IsDescribed tokenize i) where
  module _ (d : Document) (absent : find d.id i.documents ≡ none) where
    stored-own :
        (term : Text)
        → find d.id (documents_with term (store_document tokenize d i).postings)
          ≡ posting_in tokenize term (find d.id (store_document tokenize d i).documents)
    unfolding store_document analyze posting_in
    stored-own term = ground (
      arith,
      find-put d.id d.id d i.documents,
      text_eq_refl d.id,
      find-add_postings d.id (frequencies (tokenize d.title) []) (frequencies (tokenize d.body) [])
          (terms_in tokenize d) d.id term i.postings,
      contains-terms_in tokenize term d,
      frequency-terms tokenize term (tokenize d.title),
      frequency-terms tokenize term (tokenize d.body),
      v.described_postings d.id term,
      ap (posting_in tokenize term) absent,
    )

    stored-posting :
        (id term : Text)
        → find id (documents_with term (store_document tokenize d i).postings)
          ≡ posting_in tokenize term (find id (store_document tokenize d i).documents)
    unfolding store_document analyze posting_in
    stored-posting id term = elim (Bool-cases (text_eq d.id id)) [
      | inl same ↦ rw (sym (text_eq_sound d.id id same)) (stored-own term)
      | inr differs ↦ ground (
        arith,
        find-put d.id id d i.documents,
        find-add_postings d.id (frequencies (tokenize d.title) [])
            (frequencies (tokenize d.body) []) (terms_in tokenize d) id term i.postings,
        v.described_postings id term,
      )
    ]

    stored-terms :
        (id term : Text)
        → contains term (terms_of id (store_document tokenize d i).document_terms)
          ≡ has_term tokenize term (find id (store_document tokenize d i).documents)
    unfolding store_document terms_of has_term
    stored-terms id term = ground (
      arith,
      find-put d.id id d i.documents,
      find-put d.id id (terms_in tokenize d) i.document_terms,
      contains-terms_in tokenize term d,
      v.described_terms id term,
    )

    stored-lengths :
        (id : Text)
        → find id (store_document tokenize d i).lengths
          ≡ lengths_in tokenize (find id (store_document tokenize d i).documents)
    unfolding store_document analyze lengths_in
    stored-lengths id = ground (
      arith,
      find-put d.id id d i.documents,
      find-put d.id id (own_lengths tokenize d) i.lengths,
      v.described_lengths id,
    )

    stored-ids :
        (id : Text) (d' : Document)
        → find id (store_document tokenize d i).documents ≡ some d'
        → text_eq d'.id id ≡ true
    unfolding store_document
    stored-ids id d' e = elim (Bool-cases (text_eq d.id id)) [
      | inl same ↦ ground (arith, find-put d.id id d i.documents)
      | inr differs ↦ v.described_ids id d' (ground (arith, find-put d.id id d i.documents))
    ]

    pub store_document-IsDescribed : IsDescribed tokenize (store_document tokenize d i)
    store_document-IsDescribed = record {
      described_postings = stored-posting;
      described_terms = stored-terms;
      described_lengths = stored-lengths;
      described_ids = stored-ids;
    }
