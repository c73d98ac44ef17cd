-- ===== src/Coordinator.antt =====
-- internal/coordinator/api.go: the requests of browsers to a coordinator. An answer is the HTTP
-- status of an error, or a reply. `header` is the Authorization header of the request, and `now`
-- the clock reading at Authenticate; `later` and `at` are those of the calls of the registry.
pub mod Handlers
pub mod Owner
pub mod Prepared
pub mod Covers
pub mod Coverage
mod Tests
use private_mesh.Prelude.{
  ℕ, ◌+◌, ◌*◌, ◌-◌, ◌^◌, ◌%◌, Bool, true, false, not, ◌&&◌, ◌||◌, List, [], ◌∷◌, length, ltb, leb,
  ◌==◌, if◌then◌else◌, Option, none, some, Result, ok, err, ◌>>=◌, ◌>>◌, refuse_if, ℤ, pos, negsuc,
}
use private_mesh.Text.{Text, text_eq, trim_space, is_empty, ascii}
use private_mesh.Text.Maps.{find}
use private_mesh.Rpc.{
  Code, invalid_argument, unauthenticated, permission_denied, not_found, resource_exhausted,
}
use private_mesh.Authorization.Policy.{Principal}
use private_mesh.Registry.{Node, Registry, nodes}
use private_mesh.Identity.{Formats, Verifier}
use private_mesh.Identity.Bearer.{bearer_token}
use private_mesh.Engine.{Stored}
use private_mesh.Service.{AuthenticationError, verify_bearer, DocumentResponse}
use private_mesh.Distributed.Merge.{Hit}
use private_mesh.Planner.{Reals}
use private_mesh.Planner.Features.{Words}
use private_mesh.Planner.Select.{Planner, select}

abbrev pub default_search_limit : ℤ
default_search_limit = pos 10

abbrev pub maximum_search_limit : ℕ
maximum_search_limit = 100

-- In nanoseconds.
abbrev pub millisecond : ℕ
millisecond = 10 ^ 6

abbrev pub default_search_timeout : ℤ
default_search_timeout = pos (1500 * millisecond)

abbrev pub maximum_search_timeout : ℕ
maximum_search_timeout = 10 * 10 ^ 9

-- `Authenticate` of a BearerAuthenticator, and of a StaticAuthenticator.
unfoldable pub authenticate_bearer :
    Formats → Verifier → ℕ → Text → Result AuthenticationError Principal
authenticate_bearer formats verifier now header =
    verify_bearer formats verifier now (bearer_token header)

unfoldable pub authenticate_static : Principal → Option Principal
authenticate_static principal =
    if is_empty (trim_space principal.subject) then none else some principal

-- `NodeClient`; the arguments are the node, the principal, and the IDs of the request and the
-- collection.
pub record NodeClient : Type 0 where
  pub upsert_at : Node → Principal → Text → Text → Stored → Result Code ℕ
  pub delete_at : Node → Principal → Text → Text → Text → Result Code ℕ
  pub get_at : Node → Principal → Text → Text → Text → Result Code DocumentResponse

-- `plan` is what the planner selects, as in `plan_of`, by the query, the deadline, and the numbers
-- of nodes and of those that have vectors; `to_lower` is strings.ToLower.
pub record Api : Type 0 where
  pub plan : Text → ℤ → ℕ → ℕ → Option Text
  pub node_client : NodeClient
  pub authenticate : ℕ → Text → Option Principal
  pub to_lower : Text → Text

pub record SearchRequest : Type 0 where
  pub query : Text
  pub mode : Text
  pub limit : ℤ
  pub collection_ids : List Text
  pub timeout_ms : ℤ

pub record SearchResponse (Score : Type 0) : Type 0 where
  pub request_id : Text
  pub mode : Text
  pub results : List (Hit Score)
  pub searched_shard_ids : List Text
  pub unavailable_shard_ids : List Text

pub record DocumentRequest : Type 0 where
  pub collection_id : Text
  pub document_id : Text
  pub title : Text
  pub content : Text
  pub media_type : Text

pub record WriteResponse : Type 0 where
  pub status : ℕ
  pub request_id : Text
  pub node_id : Text
  pub committed_offset : ℕ

pub record GetResponse : Type 0 where
  pub request_id : Text
  pub document_id : Text
  pub media_type : Text
  pub content : Text

pub record NodeResponse : Type 0 where
  pub id : Text
  pub collection_ids : List Text
  pub labels : List (Text × Text)
  pub applied_log_offset : ℕ

-- An int64 of these bits.
unfoldable pub signed : ℕ → ℤ
signed u = if ltb u (2 ^ 63) then pos u else negsuc (2 ^ 64 - 1 - u)

-- `time.Duration(ms) * time.Millisecond`
unfoldable pub duration_of : ℤ → ℤ
duration_of (pos n) = signed (n * millisecond % 2 ^ 64)
duration_of (negsuc n) = signed ((2 ^ 64 - (n + 1) * millisecond % 2 ^ 64) % 2 ^ 64)

unfoldable pub is_zero : ℤ → Bool
is_zero (pos n) = n == 0
is_zero (negsuc n) = false

unfoldable pub is_between : ℕ → ℕ → ℤ → Bool
is_between least most (pos n) = leb least n && leb n most
is_between least most (negsuc n) = false

unfoldable pub limit_or_default : ℤ → ℤ
limit_or_default limit = if is_zero limit then default_search_limit else limit

unfoldable pub timeout_or_default : ℤ → ℤ
timeout_or_default ms = if is_zero ms then default_search_timeout else duration_of ms

unfoldable pub is_vector_ready : Node → Bool
is_vector_ready node = elim (find (ascii "vector") node.labels) [
  | none ↦ true
  | some label ↦ not (text_eq label (ascii "disabled"))
]

unfoldable pub vector_ready : List Node → ℕ
vector_ready [] = 0
vector_ready (node ∷ nodes) =
    let rest = vector_ready nodes in if is_vector_ready node then 1 + rest else rest

unfoldable pub is_mode_name : Text → Bool
is_mode_name mode =
    text_eq mode (ascii "lexical") || text_eq mode (ascii "vector") || text_eq mode (ascii "hybrid")

-- `plan` of a planner; all nodes that the registry answers are available.
unfoldable pub plan_of :
    {Real : Type 0} → Reals Real → Words → Planner Real → Text → ℤ → ℕ → ℕ → Option Text
plan_of reals words planner query timeout total ready =
    elim (select reals words planner (record {
      query = query;
      deadline = timeout;
      health = record {
        total_nodes = pos total;
        available_nodes = pos total;
        vector_ready_nodes = pos ready;
      };
    })) [ err e ↦ none | ok plan ↦ some plan.strategy ]

unfoldable pub select_mode : Api → Text → Text → ℤ → List Node → Option Text
select_mode api requested query timeout nodes =
    if is_empty requested || text_eq requested (ascii "auto")
    then api.plan query timeout (length nodes) (vector_ready nodes)
    else if is_mode_name requested
    then some requested
    else none

unfoldable pub http_status : Code → ℕ
http_status invalid_argument = 400
http_status unauthenticated = 401
http_status permission_denied = 403
http_status not_found = 404
http_status resource_exhausted = 413
http_status code = 502

unfoldable pub first_node : List Node → Result ℕ Node
first_node [] = err 503
first_node (node ∷ nodes) = ok node

unfoldable pub owning_node : ℕ → Text → Registry → Result ℕ Node × Registry
owning_node later collection_id r =
    if is_empty collection_id
    then (err 400, r)
    else (let (owners, r') = nodes later (collection_id ∷ []) r in (first_node owners, r'))
