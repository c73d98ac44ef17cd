-- ===== src/Authorization/Enforcer.antt =====
-- The enforcer of internal/authorization/policy.go. The store and the audit sink are interfaces:
-- each may fail. The events that the sink has taken are its state. `now` is the clock reading of a
-- decision. `hmac` is HMAC-SHA256 under a key, in hexadecimal.
pub mod Audited
pub mod Permitting
pub mod Filtered
mod Tests
use private_mesh.Prelude.{
  ℕ, ltb, Bool, true, false, not, ◌&&◌, ◌||◌, List, [], ◌∷◌, ◌++◌, if◌then◌else◌, Option, none,
  some, Result, ok, err, length,
}
use private_mesh.Text.{Text, text_eq, trim_space, is_empty}
use private_mesh.Authorization.Policy.{
  Principal, Policy, MemoryStore, evaluate_policy, is_action, resource_key, collection_policy,
  document_policy,
}

pub data Error : Type 0 where
  ids_missing unsupported_action store_failed audit_failed key_too_short : Error

pub data Reason : Type 0 where
  unauthenticated collection_default_deny collection_policy_denied : Reason
  document_policy_denied policy_allowed : Reason

pub record Decision : Type 0 where
  pub allowed : Bool
  pub reason : Reason

pub record Request : Type 0 where
  pub request_id : Text
  pub principal : Principal
  pub action : Text
  pub collection_id : Text
  pub document_id : Text

pub record AuditEvent : Type 0 where
  pub time : ℕ
  pub request_id : Text
  pub action : Text
  pub allowed : Bool
  pub reason : Reason
  pub subject_hash : Text
  pub resource_hash : Text

-- `Store`: a policy, that there is none, or a failure.
pub record Store : Type 0 where
  pub load_collection : Text → Result Error (Option Policy)
  pub load_document : Text → Text → Result Error (Option Policy)

-- `MemoryStore` as a `Store`.
abbrev pub in_memory : MemoryStore → Store
in_memory s = record {
  load_collection = λ c. ok (collection_policy c s);
  load_document = λ c d. ok (document_policy c d s);
}

-- `accepts` says whether `Record` of the sink succeeds on an event.
pub record Enforcer : Type 0 where
  pub store : Store
  pub accepts : AuditEvent → Bool
  pub key : Text
  pub hmac : Text → Text → Text

-- The enforcer of a store and a sink that are there.
unfoldable pub new_enforcer :
    Store → (AuditEvent → Bool) → (Text → Text → Text) → Text → Result Error Enforcer
new_enforcer store accepts hmac key =
    if ltb (length key) 16
    then err key_too_short
    else ok (record { store = store; accepts = accepts; key = key; hmac = hmac })

abbrev pub fingerprint : Enforcer → Text → Text
fingerprint en value = en.hmac en.key value

abbrev pub deny : Reason → Decision
deny reason = record { allowed = false; reason = reason }

abbrev pub allow : Decision
allow = record { allowed = true; reason = policy_allowed }

-- The end of `evaluate`, by what the store answers for the document.
unfoldable pub decide_document : Result Error (Option Policy) → Request → Result Error Decision
decide_document (err e) q = err e
decide_document (ok none) q = ok allow
decide_document (ok (some policy)) q =
    if evaluate_policy policy q.principal q.action
    then ok allow
    else ok (deny document_policy_denied)

-- `evaluate` for an authenticated subject, by what the store answers for the collection.
unfoldable pub decide_collection :
    Result Error (Option Policy) → Enforcer → Request → Result Error Decision
unfolding decide_document
decide_collection (err e) en q = err e
decide_collection (ok none) en q = ok (deny collection_default_deny)
decide_collection (ok (some policy)) en q =
    if evaluate_policy policy q.principal q.action
    then decide_document (en.store.load_document q.collection_id q.document_id) q
    else ok (deny collection_policy_denied)

unfoldable pub evaluate : Enforcer → Request → Result Error Decision
evaluate en q =
    if is_empty q.principal.subject
    then ok (deny unauthenticated)
    else decide_collection (en.store.load_collection q.collection_id) en q

abbrev pub trimmed : Request → Request
trimmed q = record q {
  request_id = trim_space q.request_id;
  collection_id = trim_space q.collection_id;
  document_id = trim_space q.document_id;
  principal = record (q.principal) { subject = trim_space q.principal.subject };
}

abbrev pub event_of : ℕ → Enforcer → Request → Decision → AuditEvent
event_of now en q d = record {
  time = now;
  request_id = q.request_id;
  action = q.action;
  allowed = d.allowed;
  reason = d.reason;
  subject_hash = fingerprint en q.principal.subject;
  resource_hash = fingerprint en (resource_key q.collection_id q.document_id);
}

-- The audit of a decision, which a failing sink takes back.
unfoldable pub audit :
    ℕ
    → Enforcer
    → Request
    → Result Error Decision
    → List AuditEvent
    → Result Error Decision × List AuditEvent
audit now en q (err e) events = (err e, events)
audit now en q (ok d) events =
    if en.accepts (event_of now en q d)
    then (ok d, events ++ (event_of now en q d ∷ []))
    else (err audit_failed, events)

unfoldable pub authorize :
    ℕ → Enforcer → Request → List AuditEvent → Result Error Decision × List AuditEvent
authorize now en request events =
    let q = trimmed request in
    if is_empty q.request_id || is_empty q.collection_id || is_empty q.document_id
    then (err ids_missing, events)
    else if not (is_action q.action)
    then (err unsupported_action, events)
    else audit now en q (evaluate en q) events

unfoldable pub keep_if : Bool → Text → Result Error (List Text) → Result Error (List Text)
keep_if allowed id (err e) = err e
keep_if allowed id (ok ids) = ok (if allowed then id ∷ ids else ids)

-- What the loop of `Filter` makes of one decision and of the rest of its rounds.
abbrev pub collect :
    Text
    → Result Error Decision × List AuditEvent
    → (List AuditEvent → Result Error (List Text) × List AuditEvent)
    → Result Error (List Text) × List AuditEvent
collect id (err e, events) rest = (err e, events)
collect id (ok d, events) rest = let (r, events') = rest events in (keep_if d.allowed id r, events')

-- `Filter`, on the document IDs with the clock reading of each round; `q` carries the other
-- arguments.
unfoldable pub filter :
    Enforcer
    → Request
    → List (ℕ × Text)
    → List AuditEvent
    → Result Error (List Text) × List AuditEvent
filter en q [] events = (ok [], events)
filter en q ((now, id) ∷ documents) events =
    collect id (authorize now en (record q { document_id = id }) events) (filter en q documents)
