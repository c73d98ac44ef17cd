-- ===== src/Engine/Answers.antt =====
-- What `Search` and `Get` disclose.
use private_mesh.Prelude.{
  ℕ, ◌+◌, ◌-◌, ◌≤◌, ◌<◌, ◌≡◌, refl, sym, ap, ◌∙◌, Bool, true, false, not, ◌||◌, List, [], ◌∷◌,
  length, ◌==◌, Option, none, some, Result, ok, err, Bool-cases, Option-cases, inl, inr, arith, All,
  Result-cases, ℤ, pos, negsuc, either_branch,
}
use private_mesh.Text.{Text, trim_space, is_empty}
use private_mesh.Text.Maps.{find}
use private_mesh.Authorization.Policy.{action_search, action_read}
use private_mesh.Authorization.Enforcer.{
  Enforcer, Request, Decision, AuditEvent, authorize, evaluate, trimmed,
}
use private_mesh.Authorization.Enforcer.Audited.{authorize-Audited}
use private_mesh.Search.Index.{match_any}
use private_mesh.Search.Ranking.{search}
use private_mesh.Engine.Interfaces.{Error, Parts}
use private_mesh.Engine.{Engine, Stored}
use private_mesh.Engine.Query.{
  Hit, hit_of, request_for, add_hit, authorized_hits, search_checked, search_documents, is_limit,
  limit_of, disclose, get_document, is_mode, vector_search, ranking,
}

-- The policies allow the request, once it is trimmed.
abbrev pub Allows : Enforcer → Request → Type 0
Allows en q = (d : Decision) × (evaluate en (trimmed q) ≡ ok d) × (d.allowed ≡ true)

authorize-Allows :
    (now : ℕ) (en : Enforcer) (q : Request) (events : List AuditEvent) (d : Decision)
    → (authorize now en q events).0 ≡ ok d
    → d.allowed ≡ true
    → Allows en q
authorize-Allows now en q events d decided allowed = elim (authorize-Audited now en q events) [
  | inl (d', outcome, evaluated, accepted) ↦
      (d, evaluated ∙ sym (ap (λ x. x.0) outcome) ∙ decided, allowed)
  | inr (x, outcome) ↦ absurd (cc (ap (λ y. y.0) outcome, decided))
]

last_test : (a b c : Bool) → (a || b || not c) ≡ false → c ≡ true
last_test a b c h = ground arith

above_one : (room : ℕ) → 0 < room → (room == 1) ≡ false → 1 < room
above_one room positive more = ground arith

module _ {Vector Vectors Score : Type 0} (parts : Parts Vector Vectors Score) (en : Enforcer)
    (q : Request) (e : Engine Vectors) where
  -- A hit shows a document of the engine under an ID that the policies let the principal search.
  unfoldable pub IsDisclosed : Hit Score → Type 0
  IsDisclosed hit =
      (id : Text) × (document : Stored) × (score : Score) × (find id e.documents ≡ some document)
      × (hit ≡ hit_of parts document score)
      × Allows en (request_for q e action_search id)

  -- The hits of an answer are disclosed, and this many at most.
  unfoldable pub IsAnswer : ℕ → Result Error (List (Hit Score)) → Type 0
  IsAnswer room (err x) = Unit {0}
  IsAnswer room (ok hits) = All IsDisclosed hits × (length hits ≤ room)

  add_hit-IsAnswer :
      (room : ℕ) (hit : Hit Score) (rest : Result Error (List (Hit Score)) × List AuditEvent)
      → 1 < room
      → IsDisclosed hit
      → IsAnswer (room - 1) rest.0
      → IsAnswer room (add_hit hit rest).0
  unfolding IsAnswer add_hit
  add_hit-IsAnswer room hit (err x, events) more h a = tt
  add_hit-IsAnswer room hit (ok hits, events) more h a = ((h, a.0), omega (arith, a.1))

  authorized_hits-IsAnswer :
      (clock : ℕ → ℕ) (round room : ℕ) (ranked : List (Text × Score)) (events : List AuditEvent)
      → 0 < room
      → IsAnswer room (authorized_hits parts clock en q e round room ranked events).0
  unfolding IsAnswer authorized_hits IsDisclosed
  authorized_hits-IsAnswer clock round room [] events positive = (tt, omega arith)
  authorized_hits-IsAnswer clock round room ((id, score) ∷ ranked) events positive =
      let request = request_for q e action_search id in
      let events' = (authorize (clock round) en request events).1 in
      let skip = authorized_hits-IsAnswer clock (round + 1) room ranked events' positive in
      elim (Result-cases (authorize (clock round) en request events).0) [
        | inl (x, failed) ↦ rw (failed, authorized_hits) tt
        | inr (d, decided) ↦ elim (Bool-cases d.allowed) [
          | inr denied ↦ rw (decided, denied, authorized_hits) skip
          | inl allowed ↦ elim (Option-cases (find id e.documents)) [
            | inl missing ↦ rw (decided, allowed, missing, authorized_hits) skip
            | inr (document, found) ↦
                let disclosed : IsDisclosed (hit_of parts document score) = (
                  id,
                  document,
                  score,
                  found,
                  refl,
                  authorize-Allows (clock round) en request events d decided allowed,
                ) in
                elim (Bool-cases (room == 1)) [
                  | inl last ↦
                      rw (decided, allowed, found, last, authorized_hits)
                        ((disclosed, tt), positive)
                  | inr more ↦
                      rw (decided, allowed, found, more, authorized_hits)
                        (add_hit-IsAnswer room (hit_of parts document score) _
                          (above_one room positive more) disclosed
                          (authorized_hits-IsAnswer clock (round + 1) (room - 1) ranked events'
                            (omega (arith, above_one room positive more))))
                ]
          ]
        ]
      ]

  search_checked-IsAnswer :
      (now : ℕ) (clock : ℕ → ℕ) (query : Text) (mode limit : ℕ) (events : List AuditEvent)
      → 0 < limit
      → IsAnswer limit (search_checked parts now clock en q query mode limit e events).0
  unfolding search_checked IsAnswer
  search_checked-IsAnswer now clock query mode limit events positive =
      elim (Result-cases (search parts.scoring parts.tokenize query match_any (pos 0) e.lexical)) [
        | inl (x, failed) ↦ rw (failed, search_checked) tt
        | inr (lexical, found) ↦ elim (Result-cases (vector_search parts now query e)) [
          | inl (x, failed) ↦ rw (found, failed, search_checked) tt
          | inr (vectors, found') ↦
              rw (found, found', search_checked)
                (authorized_hits-IsAnswer clock 0 limit (ranking parts mode lexical vectors) events
                  positive)
        ]
      ]

  limit_of-positive : (limit : ℤ) → is_limit limit ≡ true → 0 < limit_of limit
  unfolding is_limit limit_of
  limit_of-positive (pos n) h = ground arith
  limit_of-positive (negsuc n) h = absurd (cc h)

  search_documents-IsAnswer :
      (now : ℕ) (clock : ℕ → ℕ) (query : Text) (mode : ℕ) (limit : ℤ) (events : List AuditEvent)
      → IsAnswer
          (limit_of limit)
          (search_documents parts now clock en q query mode limit e events).0
  unfolding search_documents IsAnswer
  search_documents-IsAnswer now clock query mode limit events =
      elim (Bool-cases (
        is_empty (trim_space q.request_id)
        || is_empty (trim_space query)
        || not (is_limit limit))) [
          | inl t ↦ rw (t, search_documents) tt
          | inr f ↦
              rw (f, search_documents)
                (either_branch
                  (λ (x : Result Error (List (Hit Score)) × List AuditEvent).
                    IsAnswer (limit_of limit) x.0)
                  (not (is_mode mode)) _ _ tt
                  (search_checked-IsAnswer now clock (trim_space query) mode (limit_of limit) events
                    (limit_of-positive limit (
                      last_test (is_empty (trim_space q.request_id)) (is_empty (trim_space query))
                        (is_limit limit) f))))
        ]

  -- What `Get` may answer.
  unfoldable pub IsGranted : Text → Result Error (Option Stored) → Type 0
  IsGranted id (err x) = Unit {0}
  IsGranted id (ok none) = find (trim_space id) e.documents ≡ none
  IsGranted id (ok (some document)) =
      (find (trim_space id) e.documents ≡ some document)
      × Allows en (request_for q e action_read document.id)

  disclose-IsGranted :
      (now : ℕ) (id : Text) (document : Stored) (events : List AuditEvent)
      → find (trim_space id) e.documents ≡ some document
      → IsGranted id
          (disclose document (authorize now en (request_for q e action_read document.id) events)).0
  unfolding IsGranted disclose
  disclose-IsGranted now id document events found =
      elim (Result-cases (authorize now en (request_for q e action_read document.id) events).0) [
        | inl (x, failed) ↦ rw (failed, disclose) tt
        | inr (d, decided) ↦ elim (Bool-cases d.allowed) [
          | inr denied ↦ rw (decided, denied, disclose) tt
          | inl allowed ↦
              rw (decided, allowed, disclose)
                (
                  found,
                  authorize-Allows now en (request_for q e action_read document.id) events d decided
                      allowed,
                )
        ]
      ]

  get_document-IsGranted :
      (now : ℕ) (id : Text) (events : List AuditEvent)
      → IsGranted id (get_document now en q id e events).0
  unfolding IsGranted get_document
  get_document-IsGranted now id events =
      either_branch (λ (x : Result Error (Option Stored) × List AuditEvent). IsGranted id x.0)
        (is_empty (trim_space q.request_id) || is_empty (trim_space id)) _ _ tt
        (elim (Option-cases (find (trim_space id) e.documents)) [
          | inl missing ↦ rw (missing, get_document) missing
          | inr (document, found) ↦
              rw (found, get_document) (disclose-IsGranted now id document events found)
        ])

  -- Nothing but what the policies allow is disclosed, whatever the indexes and the embedder answer:
  -- `Search`, of any query, mode and limit, answers an error, or `limit` hits at most, each showing a
  -- document of the engine under an ID whose search the policies allow to the principal; `Get`
  -- answers an error, or that there is no document of the trimmed ID, or the document of that ID,
  -- if the policies allow the principal to read it.
  pub discloses_only_allowed :
      (now : ℕ) (clock : ℕ → ℕ) (query : Text) (mode : ℕ) (limit : ℤ) (id : Text)
      (events : List AuditEvent)
      → IsAnswer
          (limit_of limit)
          (search_documents parts now clock en q query mode limit e events).0
        × IsGranted id (get_document now en q id e events).0
  discloses_only_allowed now clock query mode limit id events = (
    search_documents-IsAnswer now clock query mode limit events,
    get_document-IsGranted now id events,
  )
