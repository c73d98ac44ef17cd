-- ===== src/Service/Handlers.antt =====
-- The four handlers of internal/searchnode/service.go. `clock` gives the clock readings of the
-- calls of the authorizer, `events` is its audit log. A response to a search is what is sent on the
-- stream.
use private_mesh.Prelude.{
  ℕ, ◌+◌, true, not, ◌||◌, List, [], ◌∷◌, ◌++◌, length, ltb, ◌==◌, if◌then◌else◌, Option, none,
  some, Result, ok, err, ◌>>=◌, ◌>>◌, refuse_if, pos,
}
use private_mesh.Text.{Text, text_eq}
use private_mesh.Rpc.{
  Code, invalid_argument, unauthenticated, permission_denied, not_found, resource_exhausted,
  internal,
}
use private_mesh.Wal.Disk.{Disk}
use private_mesh.Authorization.Policy.{Principal}
use private_mesh.Authorization.Enforcer.{Enforcer, AuditEvent}
use private_mesh.Engine.Interfaces.{Parts}
use private_mesh.Engine.{Engine, Stored, Outcome, upsert_document, delete_document}
use private_mesh.Engine.Query.{Hit, search_documents, get_document}
use private_mesh.Service.{
  Service, SearchRequest, SearchResult, SearchResponse, DocumentRequest, UpsertRequest,
  DocumentResponse, maximum_result_limit, maximum_content_size, write_scope, retrieval_mode,
  serves_collection, has_scope, or_code, asked_by,
}

module _ {Vectors : Type 0} (now : ℕ) (values : List Text) (s : Service Vectors) where
  -- The two checks that `UpsertDocument` and `DeleteDocument` begin with.
  unfoldable pub admit_write : Result Code Principal
  admit_write = do
    principal ← or_code unauthenticated (s.authenticate now values)
    refuse_if (not (has_scope principal.scopes write_scope)) permission_denied
    ok principal

  unfoldable pub check_document : Text → Option Stored → Result Code Stored
  check_document collection_id none = err invalid_argument
  check_document collection_id (some document) = do
    refuse_if (not (text_eq collection_id s.engine.collection_id)) invalid_argument
    refuse_if (ltb maximum_content_size (length document.content)) resource_exhausted
    ok document

  -- The checks of `UpsertDocument`, and those of `DeleteDocument`.
  unfoldable pub check_upsert : Option UpsertRequest → Result Code Stored
  check_upsert none = do principal ← admit_write; err invalid_argument
  check_upsert (some request) = do
    principal ← admit_write
    check_document request.collection_id request.document

  unfoldable pub check_delete : Option DocumentRequest → Result Code Text
  check_delete none = do principal ← admit_write; err invalid_argument
  check_delete (some request) = do
    principal ← admit_write
    refuse_if (not (text_eq request.collection_id s.engine.collection_id)) invalid_argument
    ok request.document_id

-- The outcome of a method of the engine, as the answer of a handler.
unfoldable pub answer_offset :
    {Vectors : Type 0}
    → Service Vectors
    → Outcome Vectors ℕ
    → Result Code ℕ × Service Vectors × Disk
answer_offset s (ok offset, e, d) = (ok offset, record s { engine = e }, d)
answer_offset s (err x, e, d) = (err invalid_argument, record s { engine = e }, d)

unfoldable pub serve_delete :
    {Vector Vectors Score : Type 0}
    → Parts Vector Vectors Score
    → ℕ
    → List Text
    → Option DocumentRequest
    → Service Vectors
    → Disk
    → Result Code ℕ × Service Vectors × Disk
serve_delete parts now values request s d = elim (check_delete now values s request) [
  | err c ↦ (err c, s, d)
  | ok document_id ↦ answer_offset s (delete_document parts document_id s.engine d)
]

unfoldable pub serve_upsert :
    {Vector Vectors Score : Type 0}
    → Parts Vector Vectors Score
    → (now later : ℕ) → List Text
    → Option UpsertRequest
    → Service Vectors
    → Disk
    → Result Code ℕ × Service Vectors × Disk
serve_upsert parts now later values request s d = elim (check_upsert now values s request) [
  | err c ↦ (err c, s, d)
  | ok document ↦ answer_offset s (upsert_document parts later document s.engine d)
]

module _ {Vectors Score : Type 0} (s : Service Vectors) where
  -- The loop of `Search`, from an index on.
  unfoldable pub results_from : ℕ → List (Hit Score) → List (SearchResult Score)
  results_from index [] = []
  results_from index (hit ∷ hits) =
      record {
        document_id = hit.document_id;
        collection_id = s.engine.collection_id;
        node_id = s.node_id;
        title = hit.title;
        snippet = hit.snippet;
        score = hit.score;
        rank = index + 1;
      }
      ∷ results_from (index + 1) hits

  abbrev pub not_served : Text → SearchResponse Score
  not_served request_id = record {
    request_id = request_id;
    results = [];
    searched_shard_ids = [];
    complete = true;
  }

  abbrev pub served : Text → List (Hit Score) → SearchResponse Score
  served request_id hits = record {
    request_id = request_id;
    results = results_from 0 hits;
    searched_shard_ids = (s.node_id ++ (58 ∷ s.engine.collection_id)) ∷ [];
    complete = true;
  }

  -- The end of `Search`, by the answer of the engine.
  unfoldable pub answer_search :
      {E : Type 0}
      → Text
      → Result E (List (Hit Score)) × List AuditEvent
      → Result Code (SearchResponse Score) × List AuditEvent
  answer_search request_id (err x, events) = (err invalid_argument, events)
  answer_search request_id (ok hits, events) = (ok (served request_id hits), events)

-- The end of `GetDocument`, by the answer of the engine.
unfoldable pub get_code : private_mesh.Engine.Interfaces.Error → Code
get_code private_mesh.Engine.Interfaces.permission_denied = permission_denied
get_code x = internal

unfoldable pub answer_get :
    Result private_mesh.Engine.Interfaces.Error (Option Stored) × List AuditEvent
    → Result Code DocumentResponse × List AuditEvent
answer_get (err x, events) = (err (get_code x), events)
answer_get (ok none, events) = (err not_found, events)
answer_get (ok (some document), events) = (
  ok (record {
    document_id = document.id;
    media_type = document.media_type;
    content = document.content;
  }),
  events,
)

module _ {Vector Vectors Score : Type 0} (parts : Parts Vector Vectors Score) (en : Enforcer)
    (s : Service Vectors) where
  -- `Search` of an authenticated principal.
  unfoldable pub search_as :
      ℕ
      → (ℕ → ℕ)
      → Principal
      → SearchRequest
      → List AuditEvent
      → Result Code (SearchResponse Score) × List AuditEvent
  search_as later clock principal request events =
      if not (serves_collection s.engine.collection_id request.collection_ids)
      then (ok (not_served s request.request_id), events)
      else elim (retrieval_mode request.mode) [
        | none ↦ (err invalid_argument, events)
        | some mode ↦
            if request.limit == 0 || ltb maximum_result_limit request.limit
            then (err invalid_argument, events)
            else answer_search s request.request_id (
                search_documents parts later clock en (asked_by principal request.request_id)
                  request.query mode (pos request.limit) s.engine events)
      ]

  unfoldable pub serve_search :
      (now later : ℕ)
      → (ℕ → ℕ)
      → List Text
      → Option SearchRequest
      → List AuditEvent
      → Result Code (SearchResponse Score) × List AuditEvent
  serve_search now later clock values none events = (err invalid_argument, events)
  serve_search now later clock values (some request) events = elim (s.authenticate now values) [
    | none ↦ (err unauthenticated, events)
    | some principal ↦ search_as later clock principal request events
  ]

  unfoldable pub serve_get :
      (now later : ℕ)
      → List Text
      → Option DocumentRequest
      → List AuditEvent
      → Result Code DocumentResponse × List AuditEvent
  serve_get now later values none events = (err not_found, events)
  serve_get now later values (some request) events =
      if not (text_eq request.collection_id s.engine.collection_id)
      then (err not_found, events)
      else elim (s.authenticate now values) [
        | none ↦ (err unauthenticated, events)
        | some principal ↦ answer_get (
            get_document later en (asked_by principal request.request_id) request.document_id
              s.engine events)
      ]
