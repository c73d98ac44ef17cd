-- ===== src/Engine/Applied.antt =====
-- What the change of the indexes for a document leaves of an engine.
use private_mesh.Prelude.{
  ℕ, refl, Bool, true, false, List, [], ◌∷◌, ◌++◌, Option, none, some, Result, ok, err,
}
use private_mesh.Text.Maps.{put}
use private_mesh.Search.Index.{Index, upsert}
use private_mesh.Engine.Interfaces.{Parts, Error, lexical_failed, embedding_failed}
use private_mesh.Engine.{Engine, Stored, record_document, index_document, apply_document}
use private_mesh.Engine.Recovery.{HasState}

module _ {Vector Vectors Score : Type 0} (parts : Parts Vector Vectors Score) where
  -- What the change of the indexes for a document leaves: the log and the offset as they were, and
  -- the document among the others unless it failed.
  unfoldable pub IsApplied :
      Stored → Engine Vectors → Result Error (Unit {0}) × Engine Vectors → Type 0
  IsApplied document e (ok u, e') =
      HasState parts e' e.log (put document.id document e.documents) e.offset
  IsApplied document e (err x, e') = HasState parts e' e.log e.documents e.offset

  record_document-IsApplied :
      (document : Stored) (answer : Bool × Vectors) (e : Engine Vectors)
      → IsApplied document e (record_document parts document answer e)
  unfolding record_document IsApplied
  record_document-IsApplied document (true, vectors) e = record {
    same_log = refl;
    same_documents = refl;
    same_offset = refl;
  }
  record_document-IsApplied document (false, vectors) e = record {
    same_log = refl;
    same_documents = refl;
    same_offset = refl;
  }

  indexed-IsApplied :
      (document : Stored) (v : Vector) (e : Engine Vectors)
      (added : Result private_mesh.Search.Index.Error (Unit {0}) × Index)
      → IsApplied document e (elim added.0 [
        | err x ↦ (err (lexical_failed x), record e { lexical = added.1 })
        | ok u ↦
            record_document parts document
              (parts.upsert_vector document.id v e.vectors)
              (record e { lexical = added.1 })
      ])
  unfolding IsApplied
  indexed-IsApplied document v e (err x, lexical) = record {
    same_log = refl;
    same_documents = refl;
    same_offset = refl;
  }
  indexed-IsApplied document v e (ok u, lexical) =
      record_document-IsApplied document (parts.upsert_vector document.id v e.vectors)
        (record e { lexical = lexical })

  index_document-IsApplied :
      (document : Stored) (vectors : List Vector) (e : Engine Vectors)
      → IsApplied document e (index_document parts document vectors e)
  unfolding index_document IsApplied
  index_document-IsApplied document [] e = record {
    same_log = refl;
    same_documents = refl;
    same_offset = refl;
  }
  index_document-IsApplied document (v ∷ w ∷ more) e = record {
    same_log = refl;
    same_documents = refl;
    same_offset = refl;
  }
  index_document-IsApplied document (v ∷ []) e = indexed-IsApplied document v e (
      upsert parts.tokenize
        (record { id = document.id; title = document.title; body = document.content }) e.lexical)

  embedded-IsApplied :
      (document : Stored) (e : Engine Vectors) (answer : Option (List Vector))
      → IsApplied document e (elim answer [
        | none ↦ (err embedding_failed, e)
        | some vectors ↦ index_document parts document vectors e
      ])
  unfolding IsApplied
  embedded-IsApplied document e none = record {
    same_log = refl;
    same_documents = refl;
    same_offset = refl;
  }
  embedded-IsApplied document e (some vectors) = index_document-IsApplied document vectors e

  pub apply_document-IsApplied :
      (now : ℕ) (document : Stored) (e : Engine Vectors)
      → IsApplied document e (apply_document parts now document e)
  unfolding apply_document
  apply_document-IsApplied now document e =
      embedded-IsApplied document e
        (parts.embed now ((document.title ++ (10 ∷ document.content)) ∷ []))
