-- ===== src/Service/Writes.antt =====
-- Who changes the documents of a search node.
use private_mesh.Prelude.{
  ℕ, ◌≤◌, ◌≡◌, ◌⊎◌, refl, sym, ap, ◌∙◌, Bool, true, false, not, List, length, ltb, Option, none,
  some, ok, err, Result-cases, bind_ok, refused_not, bind_ok, refused_not, inl, inr, arith,
}
use private_mesh.Text.{Text, text_eq}
use private_mesh.Rpc.{Code, invalid_argument}
use private_mesh.Wal.Disk.{Disk}
use private_mesh.Authorization.Policy.{Principal}
use private_mesh.Engine.Interfaces.{Parts}
use private_mesh.Engine.{Stored, upsert_document, delete_document}
use private_mesh.Service.{
  Service, UpsertRequest, DocumentRequest, write_scope, maximum_content_size, has_scope, or_code,
}
use private_mesh.Service.Handlers.{
  admit_write, check_document, check_upsert, check_delete, answer_offset, serve_upsert,
  serve_delete,
}

or_code_ok : {A : Type 0} (c : Code) (o : Option A) (a : A) → or_code c o ≡ ok a → o ≡ some a
or_code_ok c none a h = absurd (cc h)
or_code_ok c (some x) a h = cc h

holds_if_not : (b : Bool) → not b ≡ false → b ≡ true
holds_if_not b h = ground arith

not_longer : (m n : ℕ) → ltb m n ≡ false → n ≤ m
not_longer m n h = ground arith

module _ {Vectors : Type 0} (now : ℕ) (values : List Text) (s : Service Vectors) where
  -- A principal with the scope writes to the collection of the node.
  pub record IsWriter (collection_id : Text) : Type 0 where
    pub principal : Principal
    pub authenticated : s.authenticate now values ≡ some principal
    pub in_scope : has_scope principal.scopes write_scope ≡ true
    pub owned : text_eq collection_id s.engine.collection_id ≡ true

  -- What `UpsertDocument` asks of a request, and what `DeleteDocument` does.
  pub record IsUpsert (request : Option UpsertRequest) (document : Stored) : Type 0 where
    pub message : UpsertRequest
    pub received : request ≡ some message
    pub has_document : message.document ≡ some document
    pub writer : IsWriter message.collection_id
    pub bounded : ltb maximum_content_size (length document.content) ≡ false

  pub record IsDelete (request : Option DocumentRequest) (document_id : Text) : Type 0 where
    pub message : DocumentRequest
    pub received : request ≡ some message
    pub names_document : message.document_id ≡ document_id
    pub writer : IsWriter message.collection_id

  admit_write_sound :
      (p : Principal)
      → admit_write now values s ≡ ok p
      → (s.authenticate now values ≡ some p) × (has_scope p.scopes write_scope ≡ true)
  unfolding admit_write
  admit_write_sound p h =
      let (p', e1, h1) = bind_ok _ _ _ h in
      let (_, e2, h2) = bind_ok _ _ _ h1 in
      let same : p' ≡ p = cc h2 in
      (
        or_code_ok _ _ _ e1 ∙ ap some same,
        ap (λ x. has_scope x.scopes write_scope) (sym same) ∙ holds_if_not _ (refused_not _ _ e2),
      )

  check_document_sound :
      (collection_id : Text) (o : Option Stored) (document : Stored)
      → check_document now values s collection_id o ≡ ok document
      → (o ≡ some document)
        × (text_eq collection_id s.engine.collection_id ≡ true)
        × (ltb maximum_content_size (length document.content) ≡ false)
  unfolding check_document
  check_document_sound collection_id none document h = absurd (cc h)
  check_document_sound collection_id (some x) document h =
      let (_, e1, h1) = bind_ok _ _ _ h in
      let (_, e2, h2) = bind_ok _ _ _ h1 in
      let same : x ≡ document = cc h2 in
      (
        ap some same,
        holds_if_not _ (refused_not _ _ e1),
        ap (λ d. ltb maximum_content_size (length d.content)) (sym same) ∙ refused_not _ _ e2,
      )

  check_upsert-IsUpsert :
      (request : Option UpsertRequest) (document : Stored)
      → check_upsert now values s request ≡ ok document
      → IsUpsert request document
  unfolding check_upsert
  check_upsert-IsUpsert none document h =
      let (p, e, h1) =
        bind_ok {A = Principal} (admit_write now values s) (λ p. err invalid_argument) document h in
      absurd (cc h1)
  check_upsert-IsUpsert (some request) document h =
      let (p, e, h1) = bind_ok _ _ _ h in
      let (known, scoped) = admit_write_sound p e in
      let (given, owned, bounded) =
        check_document_sound request.collection_id request.document document h1 in
      record {
        message = request;
        received = refl;
        has_document = given;
        writer = record { principal = p; authenticated = known; in_scope = scoped; owned = owned };
        bounded = bounded;
      }

  check_delete-IsDelete :
      (request : Option DocumentRequest) (document_id : Text)
      → check_delete now values s request ≡ ok document_id
      → IsDelete request document_id
  unfolding check_delete
  check_delete-IsDelete none document_id h =
      let (p, e, h1) =
        bind_ok {A = Principal} (admit_write now values s) (λ p. err invalid_argument) document_id
          h in
      absurd (cc h1)
  check_delete-IsDelete (some request) document_id h =
      let (p, e, h1) = bind_ok _ _ _ h in
      let (known, scoped) = admit_write_sound p e in
      let (_, e2, h2) = bind_ok _ _ _ h1 in
      record {
        message = request;
        received = refl;
        names_document = cc h2;
        writer = record {
          principal = p;
          authenticated = known;
          in_scope = scoped;
          owned = holds_if_not _ (refused_not _ _ e2);
        };
      }

  IsUpsert-check_upsert :
      (request : Option UpsertRequest) (document : Stored)
      → IsUpsert request document
      → check_upsert now values s request ≡ ok document
  unfolding check_upsert admit_write check_document
  IsUpsert-check_upsert request document x =
      rw
        (
          x.received, x.has_document, x.writer.authenticated, x.writer.in_scope, x.writer.owned,
          x.bounded,
        )
        refl

  IsDelete-check_delete :
      (request : Option DocumentRequest) (document_id : Text)
      → IsDelete request document_id
      → check_delete now values s request ≡ ok document_id
  unfolding check_delete admit_write
  IsDelete-check_delete request document_id x =
      rw (x.received, x.writer.authenticated, x.writer.in_scope, x.writer.owned, x.names_document)
        refl

  module _ {Vector Score : Type 0} (parts : Parts Vector Vectors Score) (later : ℕ) (d : Disk) where
    -- An upsert or a deletion is what the engine makes of it, exactly if the authenticator knows a
    -- principal with the scope documents.write for the metadata, the request names the collection
    -- of the engine and, for an upsert, it has a document whose content is not too large; otherwise
    -- the answer is an error, and the engine and the file of its log are as before.
    pub writes_need_scope :
        (upsert : Option UpsertRequest) (deletion : Option DocumentRequest)
        → (((c : Code) × (serve_upsert parts now later values upsert s d ≡ (err c, s, d)))
            ⊎ ((document : Stored) × IsUpsert upsert document))
          × ((document : Stored)
              → IsUpsert upsert document
              → serve_upsert parts now later values upsert s d
                ≡ answer_offset s (upsert_document parts later document s.engine d))
          × (((c : Code) × (serve_delete parts now values deletion s d ≡ (err c, s, d)))
              ⊎ ((document_id : Text) × IsDelete deletion document_id))
          × ((document_id : Text)
              → IsDelete deletion document_id
              → serve_delete parts now values deletion s d
                ≡ answer_offset s (delete_document parts document_id s.engine d))
    unfolding serve_upsert serve_delete
    writes_need_scope upsert deletion = (
      elim (Result-cases (check_upsert now values s upsert)) [
        | inl (c, refused) ↦ inl (c, rw (refused, serve_upsert) refl)
        | inr (document, passed) ↦ inr (document, check_upsert-IsUpsert upsert document passed)
      ],
      λ document x. rw (IsUpsert-check_upsert upsert document x, serve_upsert) refl,
      elim (Result-cases (check_delete now values s deletion)) [
        | inl (c, refused) ↦ inl (c, rw (refused, serve_delete) refl)
        | inr (document_id, passed) ↦
            inr (document_id, check_delete-IsDelete deletion document_id passed)
      ],
      λ document_id x. rw (IsDelete-check_delete deletion document_id x, serve_delete) refl,
    )
