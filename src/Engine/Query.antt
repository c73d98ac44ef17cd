-- ===== src/Engine/Query.antt =====
-- `Search` and `Get` of internal/searchnode/engine.go. `clock` gives the clock reading of each call of
-- `Authorize`, by the number of calls before it.
use private_mesh.Prelude.{
  ℕ, ◌+◌, ◌==◌, Bool, true, false, not, ◌||◌, List, [], ◌∷◌, Option, none, some, Result, ok, err,
  if◌then◌else◌, ℤ, pos, negsuc, false, ◌-◌,
}
use private_mesh.Text.{Text, trim_space, is_empty}
use private_mesh.Text.Maps.{Map, find, put}
use private_mesh.Authorization.Policy.{action_search, action_read}
use private_mesh.Authorization.Enforcer.{Enforcer, Request, Decision, AuditEvent, authorize}
use private_mesh.Search.Index.{match_any}
use private_mesh.Search.Ranking.{Match, search}
use private_mesh.Engine.Interfaces.{
  Error, Parts, query_required, unsupported_mode, ids_required, permission_denied, embedding_failed,
  unexpected_vectors, vectors_failed, lexical_failed, authorizer_failed,
}
use private_mesh.Engine.{Engine, Stored}

-- `RetrievalMode`, of any value a uint8 has.
abbrev pub retrieval_lexical : ℕ
retrieval_lexical = 1

abbrev pub retrieval_vector : ℕ
retrieval_vector = 2

abbrev pub retrieval_hybrid : ℕ
retrieval_hybrid = 3

pub record Hit (Score : Type 0) : Type 0 where
  pub document_id : Text
  pub title : Text
  pub snippet : Text
  pub score : Score

-- `limit <= 0`
unfoldable pub is_limit : ℤ → Bool
is_limit (pos n) = not (n == 0)
is_limit (negsuc n) = false

unfoldable pub limit_of : ℤ → ℕ
limit_of (pos n) = n
limit_of (negsuc n) = 0

unfoldable pub is_mode : ℕ → Bool
is_mode mode = mode == retrieval_lexical || mode == retrieval_vector || mode == retrieval_hybrid

-- The request to the authorizer; `q` carries the arguments of the method.
abbrev pub request_for : {Vectors : Type 0} → Request → Engine Vectors → Text → Text → Request
request_for q e action id = record q {
  action = action;
  collection_id = e.collection_id;
  document_id = id;
}

-- `Get` of a document that is there, by the answer of the authorizer.
unfoldable pub disclose :
    Stored
    → Result private_mesh.Authorization.Enforcer.Error Decision × List AuditEvent
    → Result Error (Option Stored) × List AuditEvent
disclose document (err x, events) = (err (authorizer_failed x), events)
disclose document (ok decision, events) =
    if decision.allowed then (ok (some document), events) else (err permission_denied, events)

module _ {Score : Type 0} where
  unfoldable pub lexical_ids : List (Match Score) → List Text
  lexical_ids [] = []
  lexical_ids (m ∷ ms) = m.document.id ∷ lexical_ids ms

  unfoldable pub lexical_scores : List (Match Score) → Map Score → Map Score
  lexical_scores [] scores = scores
  lexical_scores (m ∷ ms) scores = lexical_scores ms (put m.document.id m.score scores)

  unfoldable pub vector_ids : List (Text × Score) → List Text
  vector_ids [] = []
  vector_ids ((id, score) ∷ results) = id ∷ vector_ids results

  unfoldable pub vector_scores : List (Text × Score) → Map Score → Map Score
  vector_scores [] scores = scores
  vector_scores ((id, score) ∷ results) scores = vector_scores results (put id score scores)

  unfoldable pub add_hit :
      Hit Score
      → Result Error (List (Hit Score)) × List AuditEvent
      → Result Error (List (Hit Score)) × List AuditEvent
  add_hit hit (ok hits, events) = (ok (hit ∷ hits), events)
  add_hit hit (err x, events) = (err x, events)

module _ {Vector Vectors Score : Type 0} (parts : Parts Vector Vectors Score) where
  -- `vectorSearch` behind the embedding of the query.
  unfoldable pub search_embedded : List Vector → Engine Vectors → Result Error (List (Text × Score))
  search_embedded [] e = err unexpected_vectors
  search_embedded (v ∷ w ∷ more) e = err unexpected_vectors
  search_embedded (v ∷ []) e = elim (parts.search_vectors v e.vectors) [
    | none ↦ err vectors_failed
    | some results ↦ ok results
  ]

  unfoldable pub vector_search : ℕ → Text → Engine Vectors → Result Error (List (Text × Score))
  vector_search now query e = elim (parts.embed now (query ∷ [])) [
    | none ↦ err embedding_failed
    | some vectors ↦ search_embedded vectors e
  ]

  unfoldable pub score_at : Text → Map Score → Score
  score_at id scores = elim (find id scores) [ none ↦ parts.no_score | some s ↦ s ]

  unfoldable pub scores_to_ranking : List Text → Map Score → List (Text × Score)
  scores_to_ranking [] scores = []
  scores_to_ranking (id ∷ ids) scores = (id, score_at id scores) ∷ scores_to_ranking ids scores

  -- The ranking of the mode, of the lexical and the vector results.
  unfoldable pub ranking : ℕ → List (Match Score) → List (Text × Score) → List (Text × Score)
  ranking mode lexical vectors =
      if mode == retrieval_lexical
      then scores_to_ranking (lexical_ids lexical) (lexical_scores lexical [])
      else if mode == retrieval_vector
      then scores_to_ranking (vector_ids vectors) (vector_scores vectors [])
      else parts.fuse (lexical_ids lexical ∷ vector_ids vectors ∷ [])

  abbrev pub hit_of : Stored → Score → Hit Score
  hit_of document score = record {
    document_id = document.id;
    title = document.title;
    snippet = parts.snippet document.content;
    score = score;
  }

  -- The loop of `Search`, with `room` for this many hits more.
  unfoldable pub authorized_hits :
      (ℕ → ℕ)
      → Enforcer
      → Request
      → Engine Vectors
      → (round room : ℕ) → List (Text × Score)
      → List AuditEvent
      → Result Error (List (Hit Score)) × List AuditEvent
  authorized_hits clock en q e round room [] events = (ok [], events)
  authorized_hits clock en q e round room ((id, score) ∷ ranked) events =
      let (r, events') = authorize (clock round) en (request_for q e action_search id) events in
      elim r [
        | err x ↦ (err (authorizer_failed x), events')
        | ok decision ↦ elim decision.allowed [
          | false ↦ authorized_hits clock en q e (round + 1) room ranked events'
          | true ↦ elim (find id e.documents) [
            | none ↦ authorized_hits clock en q e (round + 1) room ranked events'
            | some document ↦ elim (room == 1) [
              | true ↦ (ok (hit_of document score ∷ []), events')
              | false ↦
                  add_hit (hit_of document score)
                    (authorized_hits clock en q e (round + 1) (room - 1) ranked events')
            ]
          ]
        ]
      ]

  -- `Search` behind its checks; `query` is trimmed.
  unfoldable pub search_checked :
      ℕ
      → (ℕ → ℕ)
      → Enforcer
      → Request
      → Text
      → (mode limit : ℕ) → Engine Vectors
      → List AuditEvent
      → Result Error (List (Hit Score)) × List AuditEvent
  search_checked now clock en q query mode limit e events =
      elim (search parts.scoring parts.tokenize query match_any (pos 0) e.lexical) [
        | err x ↦ (err (lexical_failed x), events)
        | ok lexical ↦ elim (vector_search now query e) [
          | err x ↦ (err x, events)
          | ok vectors ↦ authorized_hits clock en q e 0 limit (ranking mode lexical vectors) events
        ]
      ]

  unfoldable pub search_documents :
      ℕ
      → (ℕ → ℕ)
      → Enforcer
      → Request
      → Text
      → ℕ
      → ℤ
      → Engine Vectors
      → List AuditEvent
      → Result Error (List (Hit Score)) × List AuditEvent
  search_documents now clock en q query mode limit e events =
      if is_empty (trim_space q.request_id) || is_empty (trim_space query) || not (is_limit limit)
      then (err query_required, events)
      else if not (is_mode mode)
      then (err unsupported_mode, events)
      else search_checked now clock en q (trim_space query) mode (limit_of limit) e events

unfoldable pub get_document :
    {Vectors : Type 0}
    → ℕ
    → Enforcer
    → Request
    → Text
    → Engine Vectors
    → List AuditEvent
    → Result Error (Option Stored) × List AuditEvent
get_document now en q document_id e events =
    if is_empty (trim_space q.request_id) || is_empty (trim_space document_id)
    then (err ids_required, events)
    else elim (find (trim_space document_id) e.documents) [
      | none ↦ (ok none, events)
      | some document ↦
          disclose document (authorize now en (request_for q e action_read document.id) events)
    ]
