-- ===== src/Service/Reads.antt =====
-- Whom a search node discloses its documents to.
use private_mesh.Prelude.{
  ℕ, ◌≤◌, ◌≡◌, ◌⊎◌, refl, true, false, ◌||◌, List, [], ◌==◌, ltb, Option, none, some, Result, ok,
  err, Bool-cases, Option-cases, inl, inr, arith, pos,
}
use private_mesh.Text.{Text, text_eq, trim_space}
use private_mesh.Text.Maps.{find}
use private_mesh.Rpc.{Code, unauthenticated, not_found}
use private_mesh.Authorization.Policy.{Principal, action_read}
use private_mesh.Authorization.Enforcer.{Enforcer, AuditEvent}
use private_mesh.Engine.Interfaces.{Parts}
use private_mesh.Engine.{Stored}
use private_mesh.Engine.Query.{Hit, request_for, limit_of}
use private_mesh.Engine.Answers.{IsAnswer, IsGranted, Allows, discloses_only_allowed}
use private_mesh.Service.{
  Service, SearchRequest, SearchResponse, DocumentRequest, DocumentResponse, maximum_result_limit,
  serves_collection, retrieval_mode, asked_by,
}
use private_mesh.Service.Handlers.{
  results_from, answer_search, search_as, serve_search, answer_get, serve_get,
}

within_limit : (limit : ℕ) → (limit == 0 || ltb 100 limit) ≡ false → limit ≤ 100
within_limit limit h = ground arith

module _ {Vector Vectors Score : Type 0} (parts : Parts Vector Vectors Score) (en : Enforcer)
    (s : Service Vectors) where
  module _ (principal : Principal) (request_id : Text) where
    -- The results show documents that the policies let the principal search, at most 100, in order.
    unfoldable pub Discloses : Result Code (SearchResponse Score) → Type 0
    Discloses (err c) = Unit {0}
    Discloses (ok response) =
        (hits : List (Hit Score)) × IsAnswer parts en (asked_by principal request_id) s.engine
          maximum_result_limit (ok hits)
        × (response.results ≡ results_from s 0 hits)

    -- The document that is answered is one of the engine that the policies let the principal read.
    unfoldable pub Reveals : Text → Result Code DocumentResponse → Type 0
    Reveals document_id (err c) = Unit {0}
    Reveals document_id (ok response) =
        (document : Stored) × (find (trim_space document_id) s.engine.documents ≡ some document)
        × Allows en (request_for (asked_by principal request_id) s.engine action_read document.id)
        × (response ≡ record {
          document_id = document.id;
          media_type = document.media_type;
          content = document.content;
        })

    answer_search-Discloses :
        (limit : ℕ)
        (r : Result private_mesh.Engine.Interfaces.Error (List (Hit Score)) × List AuditEvent)
        → limit ≤ maximum_result_limit
        → IsAnswer parts en (asked_by principal request_id) s.engine limit r.0
        → Discloses (answer_search s request_id r).0
    unfolding Discloses answer_search IsAnswer
    answer_search-Discloses limit (err x, events) le a = tt
    answer_search-Discloses limit (ok hits, events) le a =
        (hits, (a.0, omega (arith, a.1, le)), refl)

    answer_get-Reveals :
        (document_id : Text)
        (r : Result private_mesh.Engine.Interfaces.Error (Option Stored) × List AuditEvent)
        → IsGranted parts en (asked_by principal request_id) s.engine document_id r.0
        → Reveals document_id (answer_get r).0
    unfolding Reveals answer_get IsGranted
    answer_get-Reveals document_id (err x, events) a = tt
    answer_get-Reveals document_id (ok none, events) a = tt
    answer_get-Reveals document_id (ok (some document), events) a = (document, a.0, a.1, refl)

  search_as-Discloses :
      (later : ℕ) (clock : ℕ → ℕ) (principal : Principal) (request : SearchRequest)
      (events : List AuditEvent)
      → Discloses principal request.request_id
          (search_as parts en s later clock principal request events).0
  unfolding search_as Discloses IsAnswer limit_of results_from
  search_as-Discloses later clock principal request events =
      elim (Bool-cases (serves_collection s.engine.collection_id request.collection_ids)) [
        | inr elsewhere ↦ rw (elsewhere, search_as) ([], (tt, omega arith), refl)
        | inl here ↦ elim (Option-cases (retrieval_mode request.mode)) [
          | inl unknown ↦ rw (here, unknown, search_as) tt
          | inr (mode, known) ↦
              elim (Bool-cases (request.limit == 0 || ltb maximum_result_limit request.limit)) [
                | inl beyond ↦ rw (here, known, beyond, search_as) tt
                | inr within ↦
                    rw (here, known, within, search_as)
                      (answer_search-Discloses principal request.request_id request.limit _
                        (within_limit request.limit within)
                        (discloses_only_allowed parts en (asked_by principal request.request_id)
                          s.engine later clock request.query mode (pos request.limit) [] events).0)
              ]
        ]
      ]

  -- What a search node answers to a search, or to a request of a document, is an error, or it is
  -- for a principal that the authenticator knows for the metadata: the response to the search has
  -- at most 100 results, numbered from 1, each of a document of the engine that the policies allow
  -- this principal to search, and the document that is answered is the one of the trimmed ID, in
  -- the collection that the request names, which the policies allow this principal to read.
  pub reads_disclose_allowed :
      (now later : ℕ) (clock : ℕ → ℕ) (values : List Text) (events : List AuditEvent)
      (sought : SearchRequest) (wanted : DocumentRequest)
      → (((c : Code) × (serve_search parts en s now later clock values (some sought) events
              ≡ (err c, events)))
          ⊎ ((p : Principal) × (s.authenticate now values ≡ some p)
              × Discloses p sought.request_id
                  (serve_search parts en s now later clock values (some sought) events).0))
        × (((c : Code) × (serve_get parts en s now later values (some wanted) events
                ≡ (err c, events)))
            ⊎ ((p : Principal) × (s.authenticate now values ≡ some p)
                × (text_eq wanted.collection_id s.engine.collection_id ≡ true)
                × Reveals p wanted.request_id wanted.document_id
                    (serve_get parts en s now later values (some wanted) events).0))
  unfolding serve_search serve_get
  reads_disclose_allowed now later clock values events sought wanted =
      elim (Option-cases (s.authenticate now values)) [
        | inl unknown ↦ (
          inl (unauthenticated, rw (unknown, serve_search) refl),
          elim (Bool-cases (text_eq wanted.collection_id s.engine.collection_id)) [
            | inr elsewhere ↦ inl (not_found, rw (elsewhere, serve_get) refl)
            | inl here ↦ inl (unauthenticated, rw (here, unknown, serve_get) refl)
          ],
        )
        | inr (p, known) ↦ (
          inr (
            p,
            known,
            rw (known, serve_search) (search_as-Discloses later clock p sought events),
          ),
          elim (Bool-cases (text_eq wanted.collection_id s.engine.collection_id)) [
            | inr elsewhere ↦ inl (not_found, rw (elsewhere, serve_get) refl)
            | inl here ↦ inr (
              p,
              known,
              here,
              rw (here, known, serve_get)
                  (answer_get-Reveals p wanted.request_id wanted.document_id _
                    (discloses_only_allowed parts en (asked_by p wanted.request_id) s.engine later
                      clock [] 0 (pos 0) wanted.document_id events).1),
            )
          ],
        )
      ]
