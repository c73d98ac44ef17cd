-- ===== src/Service.antt =====
-- internal/searchnode/service.go: the requests to the engine of a search node, with the status
-- codes of their errors. A request that is not there is `none`; `values` are the authorization
-- values of the incoming metadata. `now` is the clock reading at Authenticate, `later` at the call
-- of the engine.
pub mod Handlers
pub mod Writes
pub mod Reads
mod Tests
use private_mesh.Prelude.{
  ℕ, ◌+◌, ◌*◌, ◌^◌, Bool, true, false, not, ◌||◌, List, [], ◌∷◌, ◌++◌, length, ltb, ◌==◌,
  if◌then◌else◌, Option, none, some, Result, ok, err, ◌>>=◌, ◌>>◌, refuse_if, pos,
}
use private_mesh.Text.{Text, text_eq, trim_space, is_empty, ascii}
use private_mesh.Rpc.{
  Code, invalid_argument, unauthenticated, permission_denied, not_found, resource_exhausted,
  internal,
}
use private_mesh.Wal.Disk.{Disk}
use private_mesh.Authorization.Policy.{Principal}
use private_mesh.Authorization.Enforcer.{Enforcer, Request, AuditEvent}
use private_mesh.Identity.{Formats, Verifier, verify}
use private_mesh.Identity.Bearer.{bearer_token}
use private_mesh.Engine.Interfaces.{Parts}
use private_mesh.Engine.{Engine, Stored, Outcome, upsert_document, delete_document}
use private_mesh.Engine.Query.{
  Hit, retrieval_lexical, retrieval_vector, retrieval_hybrid, search_documents, get_document,
}

abbrev pub maximum_result_limit : ℕ
maximum_result_limit = 100

abbrev pub maximum_content_size : ℕ
maximum_content_size = 16 * 2 ^ 20

abbrev pub write_scope : Text
write_scope = ascii "documents.write"

pub data AuthenticationError : Type 0 where
  one_value_required bearer_token_required : AuthenticationError
  token_refused : private_mesh.Identity.Error → AuthenticationError

-- `Authenticate` of a TokenAuthenticator.
unfoldable pub verify_bearer :
    Formats → Verifier → ℕ → Option Text → Result AuthenticationError Principal
verify_bearer formats verifier now none = err bearer_token_required
verify_bearer formats verifier now (some token) = elim (verify formats verifier now token) [
  | err x ↦ err (token_refused x)
  | ok principal ↦ ok principal
]

unfoldable pub authenticate_token :
    Formats → Verifier → ℕ → List Text → Result AuthenticationError Principal
authenticate_token formats verifier now [] = err one_value_required
authenticate_token formats verifier now (v ∷ w ∷ more) = err one_value_required
authenticate_token formats verifier now (v ∷ []) =
    verify_bearer formats verifier now (bearer_token v)

-- `authenticate` is the Authenticator, whose errors the service does not look at.
pub record Service (Vectors : Type 0) : Type 0 where
  pub node_id : Text
  pub engine : Engine Vectors
  pub authenticate : ℕ → List Text → Option Principal

pub record SearchRequest : Type 0 where
  pub request_id : Text
  pub query : Text
  pub mode : ℕ
  pub limit : ℕ
  pub collection_ids : List Text

pub record SearchResult (Score : Type 0) : Type 0 where
  pub document_id : Text
  pub collection_id : Text
  pub node_id : Text
  pub title : Text
  pub snippet : Text
  pub score : Score
  pub rank : ℕ

pub record SearchResponse (Score : Type 0) : Type 0 where
  pub request_id : Text
  pub results : List (SearchResult Score)
  pub searched_shard_ids : List Text
  pub complete : Bool

pub record DocumentRequest : Type 0 where
  pub request_id : Text
  pub collection_id : Text
  pub document_id : Text

-- The `Stored` of an upsert is the Document of the message.
pub record UpsertRequest : Type 0 where
  pub collection_id : Text
  pub document : Option Stored

pub record DocumentResponse : Type 0 where
  pub document_id : Text
  pub media_type : Text
  pub content : Text

-- `NewService` with an engine and an authenticator; the result says whether it succeeds.
unfoldable pub new_service :
    {Vectors : Type 0}
    → Text
    → Engine Vectors
    → (ℕ → List Text → Option Principal)
    → Option (Service Vectors)
new_service node_id engine authenticate =
    if is_empty (trim_space node_id)
    then none
    else some
        (record { node_id = trim_space node_id; engine = engine; authenticate = authenticate })

-- The modes of a request are 1 for lexical, 2 for vector, 3 for hybrid and 4 for auto.
unfoldable pub retrieval_mode : ℕ → Option ℕ
retrieval_mode mode =
    if mode == 1
    then some retrieval_lexical
    else if mode == 2
    then some retrieval_vector
    else if mode == 3 || mode == 4
    then some retrieval_hybrid
    else none

unfoldable pub has_collection : Text → List Text → Bool
has_collection collection_id [] = false
has_collection collection_id (candidate ∷ requested) =
    text_eq (trim_space candidate) collection_id || has_collection collection_id requested

unfoldable pub serves_collection : Text → List Text → Bool
serves_collection collection_id [] = true
serves_collection collection_id (candidate ∷ requested) =
    has_collection collection_id (candidate ∷ requested)

unfoldable pub has_scope : List Text → Text → Bool
has_scope [] scope = false
has_scope (candidate ∷ scopes) scope = text_eq candidate scope || has_scope scopes scope

-- An optional value or a code.
abbrev pub or_code : {A : Type 0} → Code → Option A → Result Code A
or_code c none = err c
or_code c (some a) = ok a

-- What a principal asks of the engine; the engine puts in the action and the document.
abbrev pub asked_by : Principal → Text → Request
asked_by principal request_id = record {
  request_id = request_id;
  principal = principal;
  action = [];
  collection_id = [];
  document_id = [];
}
