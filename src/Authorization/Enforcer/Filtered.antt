-- ===== src/Authorization/Enforcer/Filtered.antt =====
-- `Filter` keeps the permitted documents, in order, and audits each.
use private_mesh.Prelude.{
  ℕ, ◌≡◌, refl, sym, ap, ◌∙◌, Bool, true, false, List, [], ◌∷◌, ◌++◌, if◌then◌else◌, Result, ok,
  err, inl, inr, arith,
}
use mathlib.Core.List.{append_assoc, append-nil}
use private_mesh.Text.{Text}
use private_mesh.Authorization.Policy.{resource_key}
use private_mesh.Authorization.Enforcer.{
  Enforcer, Request, Decision, Error, AuditEvent, evaluate, trimmed, authorize, filter, collect,
  keep_if, event_of, fingerprint,
}
use private_mesh.Authorization.Enforcer.Audited.{Audited, authorize-Audited}

abbrev allows : Result Error Decision → Bool
allows (ok d) = d.allowed
allows (err e) = false

-- The documents that the policies permit.
unfoldable pub permitted : Enforcer → Request → List (ℕ × Text) → List Text
permitted en q [] = []
permitted en q ((now, id) ∷ documents) =
    let rest = permitted en q documents in
    if allows (evaluate en (trimmed (record q { document_id = id }))) then id ∷ rest else rest

-- What a round that ends well has done.
record Collected (id : Text) (outcome : Result Error Decision × List AuditEvent)
    (rest : List AuditEvent → Result Error (List Text) × List AuditEvent) (ids : List Text)
    (events' : List AuditEvent) : Type 0 where
  d : Decision
  events : List AuditEvent
  later : List Text
  decided : outcome ≡ (ok d, events)
  went_on : rest events ≡ (ok later, events')
  gathered : ids ≡ (if d.allowed then id ∷ later else later)

collect-Collected :
    (id : Text) (outcome : Result Error Decision × List AuditEvent)
    (rest : List AuditEvent → Result Error (List Text) × List AuditEvent) (ids : List Text)
    (events' : List AuditEvent)
    → collect id outcome rest ≡ (ok ids, events')
    → Collected id outcome rest ids events'
unfolding keep_if
collect-Collected id (err e, events) rest ids events' h = ground arith
collect-Collected id (ok d, events) rest ids events' h = from (rest events) refl h
  where
    from :
        (r : Result Error (List Text) × List AuditEvent)
        → rest events ≡ r
        → ◌≡◌ {A = Result Error (List Text) × List AuditEvent}
            (keep_if d.allowed id r.0, r.1)
            (ok ids, events')
        → Collected id (ok d, events) rest ids events'
    from (err e, events'') h same = ground arith
    from (ok later, events'') h same = record {
      d = d;
      events = events;
      later = later;
      decided = refl;
      went_on = h ∙ ap (λ (x : Result Error (List Text) × List AuditEvent). (ok later, x.1)) same;
      gathered = sym (
          ap
            (λ (x : Result Error (List Text) × List AuditEvent). elim x.0 [
              | ok found ↦ found
              | err e ↦ []
            ])
            same);
    }

-- An event of the sink for the audit of a request: the decision of the policies, at the time.
pub record IsAudit (now : ℕ) (en : Enforcer) (q : Request) (event : AuditEvent) : Type 0 where
  pub decision : Decision
  pub decided : evaluate en q ≡ ok decision
  pub recorded : event ≡ record {
    time = now;
    request_id = q.request_id;
    action = q.action;
    allowed = decision.allowed;
    reason = decision.reason;
    subject_hash = fingerprint en q.principal.subject;
    resource_hash = fingerprint en (resource_key q.collection_id q.document_id);
  }
  pub taken : en.accepts event ≡ true

-- The events are those of the documents, one for each and in their order.
unfoldable pub Audits : Enforcer → Request → List (ℕ × Text) → List AuditEvent → Type 0
Audits en q [] [] = Unit {0}
Audits en q [] (event ∷ events) = ⊥
Audits en q (document ∷ documents) [] = ⊥
Audits en q ((now, id) ∷ documents) (event ∷ events) =
    IsAudit now en (trimmed (record q { document_id = id })) event × Audits en q documents events

-- A round that decides: the decision is that of the policies, and its event is new.
round :
    (now : ℕ) (en : Enforcer) (q : Request) (events events' : List AuditEvent) (d : Decision)
    (outcome : Result Error Decision × List AuditEvent)
    → Audited now en q events outcome
    → outcome ≡ (ok d, events')
    → (evaluate en q ≡ ok d)
      × (event : AuditEvent) × IsAudit now en q event
      × (events' ≡ events ++ (event ∷ []))
round now en q events events' d outcome (inl (d', answered, made, taken)) decided =
    let same = sym decided ∙ answered in
    (
      made ∙ sym (ap (λ (x : Result Error Decision × List AuditEvent). x.0) same),
      event_of now en q d',
      record { decision = d'; decided = made; recorded = refl; taken = taken },
      ap (λ (x : Result Error Decision × List AuditEvent). x.1) same,
    )
round now en q events events' d outcome (inr (e, answered)) decided = ground arith

-- If `Filter` answers, then exactly the documents that the policies permit, in the order asked for,
-- and behind the old events the sink has taken one event for each document, permitted or not, in
-- that order: the one with the decision of the policies for this document, and at its time.
pub filter-permitted :
    (en : Enforcer) (q : Request) (documents : List (ℕ × Text)) (events events' : List AuditEvent)
    (ids : List Text)
    → filter en q documents events ≡ (ok ids, events')
    → (ids ≡ permitted en q documents)
      × (new : List AuditEvent) × (events' ≡ events ++ new)
      × Audits en q documents new
unfolding filter permitted Audits
filter-permitted en q [] events events' ids h = (
  ground arith,
  [],
  sym (ap (λ (x : Result Error (List Text) × List AuditEvent). x.1) h) ∙ sym (append-nil events),
  tt,
)
filter-permitted en q ((now, id) ∷ documents) events events' ids h =
    let r = record q { document_id = id } in
    let c =
      collect-Collected id (authorize now en r events) (filter en q documents) ids events' h in
    let (made, event, audit, grown) =
      round now en (trimmed r) events c.events c.d (authorize now en r events)
        (authorize-Audited now en r events) c.decided in
    let (rest, new, behind, audits) =
      filter-permitted en q documents c.events events' c.later c.went_on in
    (
      rw made
          (c.gathered ∙ ap (λ (later : List Text). if c.d.allowed then id ∷ later else later) rest),
      event ∷ new,
      behind ∙ ap (λ es. es ++ new) grown ∙ append_assoc events (event ∷ []) new,
      (audit, audits),
    )
