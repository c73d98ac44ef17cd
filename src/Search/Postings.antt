-- ===== src/Search/Postings.antt =====
-- What the postings answer for a term and a document after the loops of `deleteLocked` and `Upsert`.
use private_mesh.Prelude.{
  ℕ, ◌≡◌, refl, sym, ◌&&◌, List, [], ◌∷◌, if◌then◌else◌, none, some, Bool-cases, inl, inr, arith,
}
use private_mesh.Text.{Text, text_eq}
use private_mesh.Text.Sets.{contains}
use private_mesh.Text.Equality.{text_eq_sound, text_eq_refl}
use private_mesh.Text.Maps.{Map, find, put, remove}
use private_mesh.Text.Maps.Finding.{find-put, find-remove}
use private_mesh.Text.Terms.{frequency}
use private_mesh.Search.Index.{
  Posting, documents_with, is_nil, drop_posting, drop_postings, add_postings,
}

documents_with-put :
    (term other : Text) (ps : Map Posting) (m : Map (Map Posting))
    → documents_with other (put term ps m)
      ≡ (if text_eq term other then ps else documents_with other m)
unfolding documents_with
documents_with-put term other ps m = ground (arith, find-put term other ps m)

documents_with-remove :
    (term other : Text) (m : Map (Map Posting))
    → documents_with other (remove term m)
      ≡ (if text_eq term other then [] else documents_with other m)
unfolding documents_with
documents_with-remove term other m = ground (arith, find-remove term other m)

put_or_remove :
    (term other : Text) (ps : Map Posting) (m : Map (Map Posting))
    → documents_with other (if is_nil ps then remove term m else put term ps m)
      ≡ (if text_eq term other then ps else documents_with other m)
unfolding is_nil
put_or_remove term other [] m = documents_with-remove term other m
put_or_remove term other (p ∷ ps) m = documents_with-put term other (p ∷ ps) m

find-drop_posting :
    (id term id' term' : Text) (m : Map (Map Posting))
    → find id' (documents_with term' (drop_posting id term m))
      ≡ (if text_eq term term' && text_eq id id' then none else find id' (documents_with term' m))
unfolding drop_posting
find-drop_posting id term id' term' m = elim (Bool-cases (text_eq term term')) [
  | inl same ↦ ground (
    arith,
    put_or_remove term term' (remove id (documents_with term m)) m,
    find-remove id id' (documents_with term m),
    text_eq_sound term term' same,
  )
  | inr differs ↦ ground (arith, put_or_remove term term' (remove id (documents_with term m)) m)
]

pub find-drop_postings :
    (id : Text) (terms : List Text) (id' term' : Text) (m : Map (Map Posting))
    → find id' (documents_with term' (drop_postings id terms m))
      ≡ (if contains term' terms && text_eq id id' then none else find id' (documents_with term' m))
unfolding drop_postings contains
find-drop_postings id [] id' term' m = refl
find-drop_postings id (term ∷ terms) id' term' m = ground (
  arith,
  find-drop_postings id terms id' term' (drop_posting id term m),
  find-drop_posting id term id' term' m,
)

module _ (id : Text) (titles bodies : Map ℕ) where
  abbrev pub posting_of : Text → Posting
  posting_of term = record {
    title_frequency = frequency term titles;
    body_frequency = frequency term bodies;
  }

  find-add_posting :
      (term id' term' : Text) (m : Map (Map Posting))
      → find id'
          (documents_with term' (put term (put id (posting_of term) (documents_with term m)) m))
        ≡ (if text_eq term term' && text_eq id id'
            then some (posting_of term')
            else find id' (documents_with term' m))
  find-add_posting term id' term' m = elim (Bool-cases (text_eq term term')) [
    | inl same ↦ rw (sym (text_eq_sound term term' same)) (
        ground (
          arith,
          documents_with-put term term (put id (posting_of term) (documents_with term m)) m,
          find-put id id' (posting_of term) (documents_with term m),
          text_eq_refl term,
        ))
    | inr differs ↦
        ground (
          arith,
          documents_with-put term term' (put id (posting_of term) (documents_with term m)) m,
        )
  ]

  pub find-add_postings :
      (terms : List Text) (id' term' : Text) (m : Map (Map Posting))
      → find id' (documents_with term' (add_postings id titles bodies terms m)) ≡ (
          if contains term' terms && text_eq id id'
          then some (posting_of term')
          else find id' (documents_with term' m))
  unfolding add_postings contains
  find-add_postings [] id' term' m = refl
  find-add_postings (term ∷ terms) id' term' m = ground (
    arith,
    find-add_postings terms id' term'
        (put term (put id (posting_of term) (documents_with term m)) m),
    find-add_posting term id' term' m,
  )
