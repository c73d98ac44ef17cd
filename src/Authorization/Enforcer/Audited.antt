-- ===== src/Authorization/Enforcer/Audited.antt =====
-- Every decision is audited.
use private_mesh.Prelude.{
  ℕ, ◌≡◌, ◌⊎◌, refl, true, Bool-cases, either_branch, inl, inr, List, [], ◌∷◌, ◌++◌, ok, err,
  Result,
}
use private_mesh.Authorization.Enforcer.{
  Enforcer, Request, Decision, AuditEvent, Error, trimmed, event_of, evaluate, audit, authorize,
  audit_failed, ids_missing, unsupported_action,
}

-- What `Authorize` may answer: a decision that the policies make and that the sink has taken, as
-- the one new event; or an error, with no event.
abbrev pub Audited :
    ℕ → Enforcer → Request → List AuditEvent → Result Error Decision × List AuditEvent → Type 0
Audited now en q events outcome =
    ((d : Decision) × (outcome ≡ (ok d, events ++ (event_of now en q d ∷ [])))
      × (evaluate en q ≡ ok d)
      × (en.accepts (event_of now en q d) ≡ true))
    ⊎ ((e : Error) × (outcome ≡ (err e, events)))

audit-Audited :
    (now : ℕ) (en : Enforcer) (q : Request) (events : List AuditEvent) (r : Result Error Decision)
    → evaluate en q ≡ r
    → Audited now en q events (audit now en q r events)
unfolding audit
audit-Audited now en q events (err e) h = inr (e, refl)
audit-Audited now en q events (ok d) h = elim (Bool-cases (en.accepts (event_of now en q d))) [
  | inl t ↦ inl (d, rw t refl, h, t)
  | inr f ↦ inr (audit_failed, rw f refl)
]

-- `Authorize` answers a decision only if it is the one that the policies make for the trimmed
-- request, and the sink has taken its event; otherwise it answers an error, and no event is new.
pub authorize-Audited :
    (now : ℕ) (en : Enforcer) (request : Request) (events : List AuditEvent)
    → Audited now en (trimmed request) events (authorize now en request events)
unfolding authorize
authorize-Audited now en request events =
    either_branch (Audited now en (trimmed request) events) _ _ _ (inr (ids_missing, refl)) (
      either_branch (Audited now en (trimmed request) events) _ _ _ (inr (unsupported_action, refl))
        (audit-Audited now en (trimmed request) events (evaluate en (trimmed request)) refl))
