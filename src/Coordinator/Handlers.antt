-- ===== src/Coordinator/Handlers.antt =====
-- The handlers of internal/coordinator/api.go. `body` is what decodeJSON reads, `request_id` what
-- the random source gives for the ID of the request; both may fail.
use private_mesh.Prelude.{
  ℕ, Bool, true, false, not, ◌||◌, List, [], ◌∷◌, Option, none, some, Result, ok, err, ◌>>=◌, ◌>>◌,
  refuse_if,
}
use private_mesh.Text.{Text, trim_space, is_empty}
use private_mesh.Rpc.{Code}
use private_mesh.Authorization.Policy.{Principal}
use private_mesh.Registry.{Node, Registry, nodes}
use private_mesh.Engine.{Stored}
use private_mesh.Service.{DocumentResponse}
use private_mesh.Distributed.Merge.{Ranks, Update}
use private_mesh.Distributed.Execute.{Query, Event, checked, execute}
use private_mesh.Coordinator.{
  Api, SearchRequest, SearchResponse, DocumentRequest, WriteResponse, GetResponse, NodeResponse,
  limit_or_default, timeout_or_default, is_between, maximum_search_limit, maximum_search_timeout,
  select_mode, http_status, owning_node,
}

abbrev pub or_status : {A : Type 0} → ℕ → Option A → Result ℕ A
or_status status none = err status
or_status status (some a) = ok a

-- The end of a handler that calls a node: the ID of the request, the call and the reply.
unfoldable pub reply_of : {A B : Type 0} → (A → B) → Result Code A → Result ℕ B
reply_of reply (err c) = err (http_status c)
reply_of reply (ok a) = ok (reply a)

unfoldable pub with_request_id : {B : Type 0} → Option Text → (Text → Result ℕ B) → Result ℕ B
with_request_id none next = err 500
with_request_id (some request_id) next = next request_id

-- A call of the owner of a collection.
unfoldable pub at_owner :
    {B : Type 0} → ℕ → Text → Registry → (Node → Result ℕ B) → Result ℕ B × Registry
at_owner later collection_id r next =
    let (owner, r') = owning_node later collection_id r in (owner >>= next, r')

module _ (api : Api) (now later : ℕ) (header : Text) (request_id : Option Text) where
  -- The checks of `upsertDocument`.
  unfoldable pub check_document_request :
      Option DocumentRequest → Result ℕ (Principal × DocumentRequest)
  check_document_request body = do
    principal ← or_status 401 (api.authenticate now header)
    input ← or_status 400 body
    refuse_if (is_empty (trim_space input.collection_id) || is_empty (trim_space input.document_id))
        400
    ok (
      principal,
      record input {
        collection_id = trim_space input.collection_id;
        document_id = trim_space input.document_id;
      },
    )

  abbrev pub document_of : DocumentRequest → Stored
  document_of input = record {
    id = input.document_id;
    title = input.title;
    content = input.content;
    media_type = input.media_type;
  }

  abbrev pub write_reply : ℕ → Node → Text → ℕ → WriteResponse
  write_reply status node id offset = record {
    status = status;
    request_id = id;
    node_id = node.id;
    committed_offset = offset;
  }

  unfoldable pub upsert_on : Principal → DocumentRequest → Node → Result ℕ WriteResponse
  upsert_on principal input node = with_request_id request_id λ id.
      reply_of (write_reply 201 node id)
        (api.node_client.upsert_at node principal id input.collection_id (document_of input))

  unfoldable pub delete_on : Principal → Text → Text → Node → Result ℕ WriteResponse
  delete_on principal collection_id document_id node = with_request_id request_id λ id.
      reply_of (write_reply 200 node id)
        (api.node_client.delete_at node principal id collection_id document_id)

  abbrev pub got : Text → DocumentResponse → GetResponse
  got id document = record {
    request_id = id;
    document_id = document.document_id;
    media_type = document.media_type;
    content = document.content;
  }

  unfoldable pub get_on : Principal → Text → Text → Node → Result ℕ GetResponse
  get_on principal collection_id document_id node =
      with_request_id request_id
        λ id. reply_of (got id) (api.node_client.get_at node principal id collection_id document_id)

  unfoldable pub upsert_api : Option DocumentRequest → Registry → Result ℕ WriteResponse × Registry
  upsert_api body r = elim (check_document_request body) [
    | err status ↦ (err status, r)
    | ok checked ↦ at_owner later checked.1.collection_id r (upsert_on checked.0 checked.1)
  ]

  unfoldable pub delete_api : Text → Text → Registry → Result ℕ WriteResponse × Registry
  delete_api collection_id document_id r = elim (api.authenticate now header) [
    | none ↦ (err 401, r)
    | some principal ↦
        at_owner later (trim_space collection_id) r
          (delete_on principal (trim_space collection_id) (trim_space document_id))
  ]

  unfoldable pub get_api : Text → Text → Registry → Result ℕ GetResponse × Registry
  get_api collection_id document_id r = elim (api.authenticate now header) [
    | none ↦ (err 401, r)
    | some principal ↦
        at_owner later (trim_space collection_id) r
          (get_on principal (trim_space collection_id) (trim_space document_id))
  ]

unfoldable pub node_responses : List Node → List NodeResponse
node_responses [] = []
node_responses (node ∷ nodes) =
    record {
      id = node.id;
      collection_ids = node.collection_ids;
      labels = node.labels;
      applied_log_offset = node.applied_log_offset;
    }
    ∷ node_responses nodes

unfoldable pub list_nodes_api :
    Api → (now later : ℕ) → Text → Registry → Result ℕ (List NodeResponse) × Registry
list_nodes_api api now later header r = elim (api.authenticate now header) [
  | none ↦ (err 401, r)
  | some principal ↦ (let (all, r') = nodes later [] r in (ok (node_responses all), r'))
]

-- The query of a search, but for its mode and its ID.
abbrev pub sought_by : Api → Principal → SearchRequest → Query
sought_by api principal input = record {
  request_id = [];
  text = trim_space input.query;
  mode = api.to_lower (trim_space input.mode);
  limit = limit_or_default input.limit;
  collection_ids = input.collection_ids;
  timeout = timeout_or_default input.timeout_ms;
  principal = principal;
}

-- The checks of `search` before the registry is asked.
unfoldable pub check_search : Api → ℕ → Text → Option SearchRequest → Result ℕ Query
check_search api now header body = do
  principal ← or_status 401 (api.authenticate now header)
  input ← or_status 400 body
  refuse_if (is_empty (trim_space input.query)) 400
  refuse_if (not (is_between 1 maximum_search_limit (limit_or_default input.limit))) 400
  refuse_if (not (is_between 1 maximum_search_timeout (timeout_or_default input.timeout_ms))) 400
  ok (sought_by api principal input)

-- The query with the selected mode and the ID, over the nodes that are there.
unfoldable pub prepare : Api → Option Text → Query → List Node → Result ℕ Query
prepare api request_id q [] = err 503
prepare api request_id q (node ∷ more) = do
  mode ← or_status 400 (select_mode api q.mode q.text q.timeout (node ∷ more))
  id ← or_status 500 request_id
  ok (record q { mode = mode; request_id = id })

module _ {Score : Type 0} where
  abbrev pub no_update : Update Score
  no_update = record {
    request_id = [];
    results = [];
    searched_shard_ids = [];
    unavailable_shard_ids = [];
    complete = false;
  }

  unfoldable pub final_update : Update Score → List (Update Score) → Update Score
  final_update final [] = final
  final_update final (u ∷ updates) = final_update u updates

  abbrev pub search_reply : Text → Update Score → SearchResponse Score
  search_reply mode final = record {
    request_id = final.request_id;
    mode = mode;
    results = final.results;
    searched_shard_ids = final.searched_shard_ids;
    unavailable_shard_ids = final.unavailable_shard_ids;
  }

  -- What is answered once the channel of the updates is closed; before that there is no answer.
  unfoldable pub collect_updates :
      {E : Type 0}
      → Text
      → Result E (List (Update Score) × Bool)
      → Option (Result ℕ (SearchResponse Score))
  collect_updates mode (err e) = some (err 400)
  collect_updates mode (ok (updates, false)) = none
  collect_updates mode (ok (updates, true)) =
      some (ok (search_reply mode (final_update no_update updates)))

-- The registry behind the call of `Nodes` of the executor, for a query that passes its checks.
unfoldable pub swept_by : {E : Type 0} → ℕ → Result E Query → Registry → Registry
swept_by at (err e) r = r
swept_by at (ok q) r = (nodes at q.collection_ids r).1

-- `search`; the executor takes the nodes from the registry at `at`, and `events` is what happens
-- then.
unfoldable pub search_api :
    {Score : Type 0}
    → Ranks Score
    → Api
    → (now later at : ℕ) → Text
    → Option Text
    → Option SearchRequest
    → List (Event Score)
    → Registry
    → Option (Result ℕ (SearchResponse Score)) × Registry
search_api ranks api now later at header request_id body events r =
    elim (check_search api now header body) [
      | err status ↦ (some (err status), r)
      | ok sought ↦
          let (available, r') = nodes later sought.collection_ids r in
          elim (prepare api request_id sought available) [
            | err status ↦ (some (err status), r')
            | ok q ↦ (
              collect_updates q.mode (execute ranks (λ ids. (nodes at ids r').0) q events),
              swept_by at (checked q) r',
            )
          ]
    ]
