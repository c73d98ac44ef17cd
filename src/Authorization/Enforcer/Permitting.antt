-- ===== src/Authorization/Enforcer/Permitting.antt =====
-- Only the policies of the collection and of the document allow.
use private_mesh.Prelude.{
  ◌≡◌, ◌⊎◌, ◌↔◌, refl, ap, Bool, true, false, Bool-cases, inl, inr, Option, none, some, ok, err,
  Result, if◌then◌else◌,
}
use private_mesh.Text.{is_empty}
use private_mesh.Authorization.Policy.{Policy, evaluate_policy}
use private_mesh.Authorization.Enforcer.{
  Enforcer, Request, Decision, Reason, Error, deny, allow, evaluate, decide_collection,
  decide_document, collection_policy_denied, document_policy_denied,
}

-- The store answered a policy that allows the request.
abbrev pub Allowing : Result Error (Option Policy) → Request → Type 0
Allowing answer q =
    (policy : Policy) × (answer ≡ ok (some policy))
    × (evaluate_policy policy q.principal q.action ≡ true)

-- What a request needs to be allowed.
pub record IsPermitted (en : Enforcer) (q : Request) : Type 0 where
  pub has_subject : is_empty q.principal.subject ≡ false
  pub by_collection : Allowing (en.store.load_collection q.collection_id) q
  pub by_document :
      (en.store.load_document q.collection_id q.document_id ≡ ok none)
      ⊎ Allowing (en.store.load_document q.collection_id q.document_id) q

allowed_of : Result Error Decision → Bool
allowed_of (ok d) = d.allowed
allowed_of (err e) = false

branch_allows :
    (b : Bool) (x : Result Error Decision) (reason : Reason)
    → (if b then x else ok (deny reason)) ≡ ok allow
    → (b ≡ true) × (x ≡ ok allow)
unfolding allowed_of
branch_allows true x reason h = (refl, h)
branch_allows false x reason h = cc (ap allowed_of h)

document_allows :
    (answer : Result Error (Option Policy)) (q : Request)
    → decide_document answer q ≡ ok allow
    → (answer ≡ ok none) ⊎ Allowing answer q
unfolding decide_document allowed_of
document_allows (err e) q h = cc (ap allowed_of h)
document_allows (ok none) q h = inl refl
document_allows (ok (some policy)) q h =
    inr (policy, refl, (branch_allows _ (ok allow) document_policy_denied h).0)

collection_allows :
    (answer : Result Error (Option Policy)) (en : Enforcer) (q : Request)
    → decide_collection answer en q ≡ ok allow
    → Allowing answer q
      × (decide_document (en.store.load_document q.collection_id q.document_id) q ≡ ok allow)
unfolding decide_collection allowed_of
collection_allows (err e) en q h = cc (ap allowed_of h)
collection_allows (ok none) en q h = cc (ap allowed_of h)
collection_allows (ok (some policy)) en q h =
    let (t, rest) = branch_allows _ _ collection_policy_denied h in ((policy, refl, t), rest)

evaluate_sound : (en : Enforcer) (q : Request) → evaluate en q ≡ ok allow → IsPermitted en q
unfolding evaluate allowed_of
evaluate_sound en q h = elim (Bool-cases (is_empty q.principal.subject)) [
  | inl t ↦ cc (ap allowed_of h, t)
  | inr f ↦
      let by_evaluation = collection_allows _ en q (rw f at h) in
      record {
        has_subject = f;
        by_collection = by_evaluation.0;
        by_document = document_allows _ q by_evaluation.1;
      }
]

evaluate_complete : (en : Enforcer) (q : Request) → IsPermitted en q → evaluate en q ≡ ok allow
unfolding evaluate decide_collection decide_document
evaluate_complete en q p =
    let (policy, loaded, allows) = p.by_collection in
    rw (p.has_subject) (
      rw loaded (
        rw allows (elim (p.by_document) [
          | inl absent ↦ rw absent refl
          | inr (policy', loaded', allows') ↦ rw loaded' (rw allows' refl)
        ])))

-- A request is allowed exactly if its subject is not blank, the collection has a policy that allows
-- it, and the document has none or one that allows it too.
pub evaluate-IsPermitted :
    (en : Enforcer) (q : Request) → (evaluate en q ≡ ok allow) ↔ IsPermitted en q
evaluate-IsPermitted en q = (evaluate_sound en q, evaluate_complete en q)
