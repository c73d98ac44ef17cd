-- ===== src/Search/Described/History.antt =====
-- The indexes that a history of calls makes out of the empty one.
use private_mesh.Prelude.{
  ◌≡◌, refl, ap, ◌∙◌, not, ◌&&◌, List, [], ◌∷◌, if◌then◌else◌, Option, none, some, Bool-cases, inl,
  inr, arith,
}
use private_mesh.Text.{Text, text_eq, trim_space, is_empty}
use private_mesh.Text.Maps.{find}
use private_mesh.Text.Maps.Finding.{find-put}
use private_mesh.Text.Equality.{text_eq_refl}
use private_mesh.Document.{Document}
use private_mesh.Search.Index.{Index, new_index, delete_locked, delete, store_document, upsert}
use private_mesh.Search.Described.{IsDescribed, new_index-IsDescribed}
use private_mesh.Search.Described.Deleting.{
  delete-IsDescribed, delete_locked-IsDescribed, find-delete, find-delete_locked,
}
use private_mesh.Search.Described.Storing.{store_document-IsDescribed}

pub data Change : Type 0 where
  upserts : Document → Change
  deletes : Text → Change

-- The document of an ID after the changes, by the changes alone.
unfoldable pub document_after : Text → List Change → Option Document → Option Document
document_after id [] o = o
document_after id (upserts d ∷ changes) o = document_after id changes (
    if not (is_empty (trim_space d.id)) && text_eq (trim_space d.id) id
    then some (record d { id = trim_space d.id })
    else o)
document_after id (deletes x ∷ changes) o =
    document_after id changes
      (if not (is_empty (trim_space x)) && text_eq (trim_space x) id then none else o)

module _ (tokenize : Text → List Text) where
  unfoldable pub index_after : List Change → Index → Index
  index_after [] i = i
  index_after (upserts d ∷ changes) i = index_after changes (upsert tokenize d i).1
  index_after (deletes id ∷ changes) i = index_after changes (delete id i).1

  module _ (i : Index) (v : IsDescribed tokenize i) where
    upsert-IsDescribed : (d : Document) → IsDescribed tokenize (upsert tokenize d i).1
    unfolding upsert
    upsert-IsDescribed d = elim (Bool-cases (is_empty (trim_space d.id))) [
      | inl e ↦ rw e v
      | inr e ↦ rw e (
          store_document-IsDescribed tokenize (delete_locked (trim_space d.id) i).1
            (delete_locked-IsDescribed tokenize i v (trim_space d.id))
            (record d { id = trim_space d.id })
            (ground (
              arith,
              find-delete_locked tokenize i v (trim_space d.id) (trim_space d.id),
              text_eq_refl (trim_space d.id),
            )))
    ]

    find-upsert :
        (d : Document) (id : Text)
        → find id (upsert tokenize d i).1.documents ≡ (
            if not (is_empty (trim_space d.id)) && text_eq (trim_space d.id) id
            then some (record d { id = trim_space d.id })
            else find id i.documents)
    unfolding upsert store_document
    find-upsert d id = ground (
      arith,
      find-put (trim_space d.id) id (record d { id = trim_space d.id })
          (delete_locked (trim_space d.id) i).1.documents,
      find-delete_locked tokenize i v (trim_space d.id) id,
    )

  index_after-IsDescribed :
      (changes : List Change) (i : Index)
      → IsDescribed tokenize i
      → IsDescribed tokenize (index_after changes i)
        × ((id : Text)
            → find id (index_after changes i).documents
              ≡ document_after id changes (find id i.documents))
  unfolding index_after document_after
  index_after-IsDescribed [] i v = (v, λ id. refl)
  index_after-IsDescribed (upserts d ∷ changes) i v =
      let (w, same) =
        index_after-IsDescribed changes (upsert tokenize d i).1 (upsert-IsDescribed i v d) in
      (w, λ id. same id ∙ ap (document_after id changes) (find-upsert i v d id))
  index_after-IsDescribed (deletes x ∷ changes) i v =
      let (w, same) =
        index_after-IsDescribed changes (delete x i).1 (delete-IsDescribed tokenize i v x) in
      (w, λ id. same id ∙ ap (document_after id changes) (find-delete tokenize i v x id))

  -- After any calls of `Upsert` and `Delete` on the index that `NewIndex` makes, the documents are
  -- those that the calls leave, each under its trimmed ID, the calls with a blank ID without effect;
  -- the postings of a term have a document if and only if the term is a token of its title or its
  -- body, with its number of occurrences in each, modulo 2^64; the terms and the lengths kept for a
  -- document are the terms and the lengths of its texts, and no other document has any.
  pub index_after-new_index :
      (changes : List Change)
      → IsDescribed tokenize (index_after changes new_index)
        × ((id : Text)
            → find id (index_after changes new_index).documents ≡ document_after id changes none)
  unfolding find
  index_after-new_index changes =
      index_after-IsDescribed changes new_index (new_index-IsDescribed tokenize)
