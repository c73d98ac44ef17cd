-- ===== src/Coordinator/Coverage.antt =====
-- A search of a coordinator is answered, and accounts for every shard of the active nodes.
use private_mesh.Prelude.{
  ℕ, ◌≤◌, ◌≡◌, ◌⊎◌, refl, ap, ◌∙◌, List, [], All, Option, some, Result, ok, err, Result-cases, inl,
  inr,
}
use private_mesh.Text.{Text}
use private_mesh.Text.Sets.{string_set}
use private_mesh.Authorization.Policy.{Principal}
use private_mesh.Registry.{Registry, nodes}
use private_mesh.Registry.Invariant.{IsWellFormed}
use private_mesh.Distributed.Merge.{Ranks, Update}
use private_mesh.Distributed.Execute.{Error, Query, Event, limit_of, pending_from, checked, execute}
use private_mesh.Distributed.Answers.{Settles, IsAsked, execute_completes}
use private_mesh.Coordinator.{Api, SearchRequest, SearchResponse}
use private_mesh.Coordinator.Handlers.{
  check_search, prepare, final_update, no_update, search_reply, collect_updates, search_api,
}
use private_mesh.Coordinator.Prepared.{
  final_update-last, checked_keeps, prepare_keeps, within, check_search_facts,
}
use private_mesh.Coordinator.Covers.{Covers, asked, reply-Covers}

module _ {Score : Type 0} (ranks : Ranks Score) (api : Api) (now later at : ℕ) (header : Text)
    (request_id : Option Text) (events : List (Event Score)) (r : Registry) where
  -- An answer of the search: an error with a reason, or a reply to a known principal.
  abbrev pub IsReply :
      (ℕ → Type 0) → SearchRequest → Option (Result ℕ (SearchResponse Score)) → Type 0
  IsReply Reason input outcome =
      ((status : ℕ) × (outcome ≡ some (err status)) × Reason status)
      ⊎ ((principal : Principal) × (reply : SearchResponse Score) × (api.authenticate now header
            ≡ some principal)
          × (outcome ≡ some (ok reply))
          × Covers events later at r (string_set input.collection_ids) reply)

  -- The query that the executor refuses.
  abbrev pub IsRefused : Query → ℕ → Type 0
  IsRefused q status = (e : Error) × (checked q ≡ err e) × (status ≡ 400)

  -- Why a search is answered by an error: its checks, or those behind the first look at the
  -- registry, give this status, or the executor refuses the query.
  unfoldable pub IsRejected : SearchRequest → ℕ → Type 0
  IsRejected input status =
      (check_search api now header (some input) ≡ err status)
      ⊎ ((sought : Query) × (check_search api now header (some input) ≡ ok sought)
          × ((prepare api request_id sought (nodes later sought.collection_ids r).0 ≡ err status)
              ⊎ ((q : Query) × (prepare api request_id sought
                      (nodes later sought.collection_ids r).0
                    ≡ ok q)
                  × IsRefused q status)))

  IsRejected-early :
      (input : SearchRequest) (status : ℕ)
      → check_search api now header (some input) ≡ err status
      → IsRejected input status
  unfolding IsRejected
  IsRejected-early input status refused = inl refused

  IsRejected-then :
      (input : SearchRequest) (sought : Query) (status : ℕ)
      → check_search api now header (some input) ≡ ok sought
      → prepare api request_id sought (nodes later sought.collection_ids r).0 ≡ err status
      → IsRejected input status
  unfolding IsRejected
  IsRejected-then input sought status passed refused = inr (sought, passed, inl refused)

  IsRejected-late :
      (input : SearchRequest) (sought q : Query) (status : ℕ)
      → check_search api now header (some input) ≡ ok sought
      → prepare api request_id sought (nodes later sought.collection_ids r).0 ≡ ok q
      → IsRefused q status
      → IsRejected input status
  unfolding IsRejected
  IsRejected-late input sought q status passed prepared because =
      inr (sought, passed, inr (q, prepared, because))

  IsReply-because :
      (P Q : ℕ → Type 0) (input : SearchRequest)
      (outcome : Option (Result ℕ (SearchResponse Score)))
      → ((status : ℕ) → P status → Q status)
      → IsReply P input outcome
      → IsReply Q input outcome
  IsReply-because P Q input outcome h (inl (status, e, p)) = inl (status, e, h status p)
  IsReply-because P Q input outcome h (inr reply) = inr reply

  collect_updates-IsReply :
      (input : SearchRequest) (p : Principal) (q : Query)
      → api.authenticate now header ≡ some p
      → q.collection_ids ≡ input.collection_ids
      → limit_of q.limit ≤ 100
      → IsWellFormed r
      → later ≤ at
      → All
          (Settles events)
          (asked events later at r input.collection_ids (string_set input.collection_ids))
      → All
          (IsAsked (
            pending_from
              (asked events later at r input.collection_ids (string_set input.collection_ids))
              []))
          events
      → IsReply (IsRefused q) input (
          collect_updates q.mode (
            execute ranks
              (λ ids. (nodes at ids (nodes later input.collection_ids r).1).0)
              q
              events))
  unfolding collect_updates execute
  collect_updates-IsReply input p q known same limited w le settles answers =
      elim (Result-cases (checked q)) [
        | inl (e, refused) ↦ inl (400, rw (refused, execute) refl, (e, refused, refl))
        | inr (q', passes) ↦
            let (ids, limit) = checked_keeps q q' passes in
            let e : q'.collection_ids ≡ string_set input.collection_ids =
              ids ∙ ap string_set same in
            let (updates, executed, (front, last, split, incomplete, complete, reports, few)) =
              execute_completes ranks
                (λ ids. (nodes at ids (nodes later input.collection_ids r).1).0) q q' events passes
                (rw e settles) (rw e answers) in
            inr (
              p,
              search_reply q.mode last,
              known,
              ap (collect_updates q.mode) executed
                  ∙ ap
                      (λ (us : List (Update Score)).
                        some (ok (search_reply q.mode (final_update no_update us))))
                      split
                  ∙ ap (λ (u : Update Score). some (ok (search_reply q.mode u)))
                      (final_update-last no_update front last),
              rw e at (
                  reply-Covers events later at r input.collection_ids q.mode q' last w le
                    (rw limit limited) reports),
            )
      ]

  -- A search, once every node that is asked has answered or the context has ended, is answered: by
  -- an error, if its checks, the choice of a mode or an ID or the executor refuses it, or else by a
  -- reply to the principal that the authenticator knows. The reply has 100 results at most and
  -- accounts for every shard of every node that is active when the executor asks the registry and
  -- owns one of the requested collections, as searched or as unavailable; a shard is searched only
  -- if a node that serves it has answered with hits. The registry has the invariant, the executor
  -- does not ask it before the handler does, and an answer under the ID of a node that is asked is
  -- its own.
  pub search_covers :
      (input : SearchRequest)
      → IsWellFormed r
      → later ≤ at
      → All
          (Settles events)
          (asked events later at r input.collection_ids (string_set input.collection_ids))
      → All
          (IsAsked (
            pending_from
              (asked events later at r input.collection_ids (string_set input.collection_ids))
              []))
          events
      → IsReply
          (IsRejected input)
          input
          (search_api ranks api now later at header request_id (some input) events r).0
  unfolding search_api
  search_covers input w le settles answers =
      elim (Result-cases (check_search api now header (some input))) [
        | inl (status, refused) ↦
            inl (status, rw (refused, search_api) refl, IsRejected-early input status refused)
        | inr (sought, passed) ↦
            let (known, ids, limited, timed) =
              check_search_facts api now header input sought passed in
            elim (Result-cases
              (prepare api request_id sought (nodes later sought.collection_ids r).0)) [
                | inl (status, refused) ↦ inl (
                  status,
                  rw (passed, refused, search_api) refl,
                  IsRejected-then input sought status passed refused,
                )
                | inr (q, prepared) ↦
                    let (ids', limit, timeout, principal) =
                      prepare_keeps api request_id sought (nodes later sought.collection_ids r).0 q
                        prepared in
                    rw (passed, prepared, search_api)
                      (IsReply-because (IsRefused q) (IsRejected input) input _
                        (λ status because.
                          IsRejected-late input sought q status passed prepared because)
                        (rw ids (
                          collect_updates-IsReply input sought.principal q known (ids' ∙ ids)
                            (rw limit (within sought.limit limited)) w le settles answers)))
              ]
      ]
