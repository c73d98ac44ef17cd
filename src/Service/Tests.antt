-- ===== src/Service/Tests.antt =====
-- A search node with one document: a search, an upsert without the scope, and what the theorems say
-- there.
use private_mesh.Prelude.{ℕ, ◌≡◌, ◌⊎◌, refl, true, List, [], ◌∷◌, Option, none, some, err}
use private_mesh.Text.{Text, ascii, text_eq, trim_space, is_empty}
use private_mesh.Rpc.{Code, permission_denied}
use private_mesh.Wal.Disk.{Disk}
use private_mesh.Wal.Log.Spec.{file, healthy}
use private_mesh.Authorization.Policy.{Principal}
use private_mesh.Identity.Bearer.{bearer_token, token_of, cut, cut_cons, equal_fold, lower}
use private_mesh.Engine.{Stored, upsert_document, delete_document}
use private_mesh.Engine.Sample.{parts, reader, en, stored_a, with_a}
use private_mesh.Service.{
  Service, SearchRequest, UpsertRequest, DocumentRequest, write_scope, has_scope,
}
use private_mesh.Service.Handlers.{
  serve_search, serve_get, serve_upsert, serve_delete, check_upsert, admit_write, answer_offset,
}
use private_mesh.Service.Writes.{IsUpsert, IsDelete, writes_need_scope}
use private_mesh.Service.Reads.{Discloses, Reveals, reads_disclose_allowed}

abbrev writer : Principal
writer = record reader { scopes = write_scope ∷ [] }

-- Whoever gives an authorization value is the writer, and nobody else is known.
abbrev writer_if : List Text → Option Principal
writer_if [] = none
writer_if (v ∷ values) = some writer

abbrev node : Service ℕ
node = record {
  node_id = ascii "n";
  engine = with_a;
  authenticate = λ now values. writer_if values;
}

abbrev read_only : Service ℕ
read_only = record node { authenticate = λ now values. some reader }

abbrev bearer : List Text
bearer = ascii "Bearer t" ∷ []

abbrev disk : Disk
disk = healthy (file 0 []) []

abbrev upsert : UpsertRequest
upsert = record { collection_id = ascii "c"; document = some stored_a }

abbrev deletion : DocumentRequest
deletion = record { request_id = ascii "r"; collection_id = ascii "c"; document_id = ascii "a" }

abbrev query : SearchRequest
query = record {
  request_id = ascii "r";
  query = ascii "T";
  mode = 2;
  limit = 5;
  collection_ids = [];
}

token_taken : bearer_token (ascii "bEARER  t ") ≡ some (ascii "t")
unfolding bearer_token token_of cut cut_cons equal_fold lower text_eq trim_space is_empty
token_taken = refl

upsert_denied :
    serve_upsert parts 1 2 bearer (some upsert) read_only disk
    ≡ (err permission_denied, read_only, disk)
unfolding serve_upsert check_upsert admit_write has_scope text_eq
upsert_denied = refl

writes_need_scope_example :
    (((c : Code) × (serve_upsert parts 1 2 bearer (some upsert) node disk ≡ (err c, node, disk)))
      ⊎ ((document : Stored) × IsUpsert 1 bearer node (some upsert) document))
    × ((document : Stored)
        → IsUpsert 1 bearer node (some upsert) document
        → serve_upsert parts 1 2 bearer (some upsert) node disk
          ≡ answer_offset node (upsert_document parts 2 document with_a disk))
    × (((c : Code) × (serve_delete parts 1 bearer (some deletion) node disk ≡ (err c, node, disk)))
        ⊎ ((document_id : Text) × IsDelete 1 bearer node (some deletion) document_id))
    × ((document_id : Text)
        → IsDelete 1 bearer node (some deletion) document_id
        → serve_delete parts 1 bearer (some deletion) node disk
          ≡ answer_offset node (delete_document parts document_id with_a disk))
writes_need_scope_example =
    writes_need_scope 1 bearer node parts 2 disk (some upsert) (some deletion)

reads_disclose_allowed_example :
    (((c : Code) × (serve_search parts en node 1 2 (λ n. n) bearer (some query) [] ≡ (err c, [])))
      ⊎ ((p : Principal) × (writer_if bearer ≡ some p)
          × Discloses parts en node p
              (ascii "r")
              (serve_search parts en node 1 2 (λ n. n) bearer (some query) []).0))
    × (((c : Code) × (serve_get parts en node 1 2 bearer (some deletion) [] ≡ (err c, [])))
        ⊎ ((p : Principal) × (writer_if bearer ≡ some p)
            × (text_eq (ascii "c") (ascii "c") ≡ true)
            × Reveals parts en node p
                (ascii "r")
                (ascii "a")
                (serve_get parts en node 1 2 bearer (some deletion) []).0))
reads_disclose_allowed_example =
    reads_disclose_allowed parts en node 1 2 (λ n. n) bearer [] query deletion
