-- ===== src/Search/Described/Deleting.antt =====
-- `Delete` keeps an index described by its documents.
use private_mesh.Prelude.{
  ◌≡◌, sym, true, false, not, ◌&&◌, List, if◌then◌else◌, none, some, Bool-cases, Option-cases, inl,
  inr, arith,
}
use private_mesh.Text.{Text, text_eq, trim_space, is_empty}
use private_mesh.Text.Sets.{contains}
use private_mesh.Text.Maps.{Map, find}
use private_mesh.Text.Maps.Finding.{find-remove}
use private_mesh.Text.Equality.{text_eq_sound, text_eq_refl}
use private_mesh.Text.Terms.{has_key}
use private_mesh.Document.{Document}
use private_mesh.Search.Index.{Index, documents_with, terms_of, delete_locked, delete, without}
use private_mesh.Search.Postings.{find-drop_postings}
use private_mesh.Search.Described.{
  posting_in, has_term, lengths_in, IsDescribed, posting_in-lacking, has_term-remove,
}

find_absent :
    (id id' : Text) (m : Map Document)
    → has_key id m ≡ false
    → text_eq id id' ≡ true
    → find id' m ≡ none
unfolding has_key
find_absent id id' m e same =
    rw (sym (text_eq_sound id id' same)) (elim (Option-cases (find id m)) [
      | inl absent ↦ absent
      | inr (d, found) ↦ absurd (cc (e, found))
    ])

module _ (tokenize : Text → List Text) (i : Index) (v : IsDescribed tokenize i) where
  without-own :
      (id term : Text)
      → find id (documents_with term (without id i).postings)
        ≡ posting_in tokenize term (find id (without id i).documents)
  unfolding without posting_in
  without-own id term = elim (Bool-cases (contains term (terms_of id i.document_terms))) [
    | inl t ↦ ground (
      arith,
      find-drop_postings id (terms_of id i.document_terms) id term i.postings,
      find-remove id id i.documents,
      text_eq_refl id,
    )
    | inr f ↦ ground (
      arith,
      find-drop_postings id (terms_of id i.document_terms) id term i.postings,
      find-remove id id i.documents,
      text_eq_refl id,
      v.described_postings id term,
      posting_in-lacking tokenize term (find id i.documents),
      v.described_terms id term,
    )
  ]

  without-posting :
      (id id' term : Text)
      → find id' (documents_with term (without id i).postings)
        ≡ posting_in tokenize term (find id' (without id i).documents)
  unfolding without
  without-posting id id' term = elim (Bool-cases (text_eq id id')) [
    | inl same ↦ rw (sym (text_eq_sound id id' same)) (without-own id term)
    | inr differs ↦ ground (
      arith,
      find-drop_postings id (terms_of id i.document_terms) id' term i.postings,
      v.described_postings id' term,
      find-remove id id' i.documents,
    )
  ]

  without-terms :
      (id id' term : Text)
      → contains term (terms_of id' (without id i).document_terms)
        ≡ has_term tokenize term (find id' (without id i).documents)
  unfolding without terms_of contains
  without-terms id id' term = ground (
    arith,
    has_term-remove tokenize id id' term i.documents,
    find-remove id id' i.document_terms,
    v.described_terms id' term,
  )

  without-lengths :
      (id id' : Text)
      → find id' (without id i).lengths ≡ lengths_in tokenize (find id' (without id i).documents)
  unfolding without lengths_in
  without-lengths id id' =
      ground (
        arith,
        find-remove id id' i.documents,
        find-remove id id' i.lengths,
        v.described_lengths id',
      )

  without-ids :
      (id id' : Text) (d : Document)
      → find id' (without id i).documents ≡ some d
      → text_eq d.id id' ≡ true
  unfolding without
  without-ids id id' d e = elim (Bool-cases (text_eq id id')) [
    | inl same ↦ ground (arith, find-remove id id' i.documents)
    | inr differs ↦ v.described_ids id' d (ground (arith, find-remove id id' i.documents))
  ]

  without-IsDescribed : (id : Text) → IsDescribed tokenize (without id i)
  without-IsDescribed id = record {
    described_postings = without-posting id;
    described_terms = without-terms id;
    described_lengths = without-lengths id;
    described_ids = without-ids id;
  }

  pub delete_locked-IsDescribed : (id : Text) → IsDescribed tokenize (delete_locked id i).1
  unfolding delete_locked
  delete_locked-IsDescribed id = elim (Bool-cases (has_key id i.documents)) [
    | inl e ↦ rw e (without-IsDescribed id)
    | inr e ↦ rw e v
  ]

  pub delete-IsDescribed : (id : Text) → IsDescribed tokenize (delete id i).1
  unfolding delete
  delete-IsDescribed id = elim (Bool-cases (is_empty (trim_space id))) [
    | inl e ↦ rw e v
    | inr e ↦ rw e (delete_locked-IsDescribed (trim_space id))
  ]

  pub find-delete_locked :
      (id id' : Text)
      → find id' (delete_locked id i).1.documents
        ≡ (if text_eq id id' then none else find id' i.documents)
  unfolding delete_locked without
  find-delete_locked id id' = elim (Bool-cases (has_key id i.documents)) [
    | inl e ↦ rw e (find-remove id id' i.documents)
    | inr e ↦ rw e (ground (arith, find_absent id id' i.documents e))
  ]

  pub find-delete :
      (id id' : Text)
      → find id' (delete id i).1.documents ≡ (
          if not (is_empty (trim_space id)) && text_eq (trim_space id) id'
          then none
          else find id' i.documents)
  unfolding delete
  find-delete id id' = ground (arith, find-delete_locked (trim_space id) id')
