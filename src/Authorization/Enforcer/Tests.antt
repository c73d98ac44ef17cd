-- ===== src/Authorization/Enforcer/Tests.antt =====
-- A store with one policy, and the theorems at concrete inputs.
use private_mesh.Prelude.{ℕ, ◌≡◌, ◌↔◌, refl, true, false, List, [], ◌∷◌, ◌++◌, ok}
use private_mesh.Text.{Text, ascii, text_eq, trim_space, is_empty}
use private_mesh.Text.Maps.{find}
use private_mesh.Authorization.Policy.{
  Principal, Rule, Policy, MemoryStore, effect_allow, effect_deny, action_search, contains,
  contains_action, contains_all, any_group, is_nil, rule_matches, evaluate_rules, evaluate_policy,
  is_action, check_actions, check_rules, no_rule, validate_policy, resource_key, collection_policy,
  document_policy,
}
use private_mesh.Authorization.Policy.Stored.{has_nul}
use private_mesh.Authorization.Enforcer.{
  Enforcer, Request, AuditEvent, in_memory, allow, evaluate, decide_collection, decide_document,
  trimmed, audit, authorize, filter, keep_if,
}
use private_mesh.Authorization.Enforcer.Audited.{Audited, authorize-Audited}
use private_mesh.Authorization.Enforcer.Permitting.{IsPermitted, evaluate-IsPermitted}
use private_mesh.Authorization.Enforcer.Filtered.{permitted, Audits, filter-permitted}

abbrev ann : Principal
ann = record { subject = ascii "ann"; groups = ascii "dev" ∷ []; scopes = ascii "docs" ∷ [] }

abbrev allow_dev : Rule
allow_dev = record {
  effect = effect_allow;
  actions = action_search ∷ [];
  subjects = [];
  groups = ascii " dev" ∷ [];
  scopes = [];
}

abbrev deny_ann : Rule
deny_ann = record allow_dev { effect = effect_deny; subjects = ascii "ann" ∷ []; groups = [] }

abbrev open_policy : Policy
open_policy = record { version = ascii "v1"; rules = allow_dev ∷ [] }

abbrev closed_policy : Policy
closed_policy = record { version = ascii "v1"; rules = allow_dev ∷ deny_ann ∷ [] }

open_policy_valid : validate_policy open_policy ≡ ok tt
unfolding validate_policy check_rules check_actions no_rule is_nil is_action trim_space is_empty
    text_eq
open_policy_valid = refl

abbrev empty : MemoryStore
empty = record { collections = []; documents = [] }

abbrev c : Text
c = ascii "c"

abbrev d : Text
d = ascii " d"

c_named : is_empty (trim_space c) ≡ false
unfolding trim_space is_empty
c_named = refl

d_named : is_empty (trim_space d) ≡ false
unfolding trim_space is_empty
d_named = refl

c_plain : has_nul (trim_space c) ≡ false
unfolding trim_space has_nul
c_plain = refl

-- The collection allows all its documents but "x", which denies to ann.
abbrev store : MemoryStore
store = record {
  collections = (c, open_policy) ∷ [];
  documents = (ascii "c" ++ (0 ∷ ascii "x"), closed_policy) ∷ [];
}

abbrev en : Enforcer
en = record {
  store = in_memory store;
  accepts = λ event. true;
  key = ascii "0123456789abcdef";
  hmac = λ key value. value;
}

abbrev q : Request
q = record {
  request_id = ascii "r";
  principal = ann;
  action = action_search;
  collection_id = c;
  document_id = ascii "x";
}

authorize-Audited_example : Audited 5 en (trimmed q) [] (authorize 5 en q [])
authorize-Audited_example = authorize-Audited 5 en q []

evaluate-IsPermitted_example : (evaluate en q ≡ ok allow) ↔ IsPermitted en q
evaluate-IsPermitted_example = evaluate-IsPermitted en q

abbrev no_events : List AuditEvent
no_events = []

abbrev asked : List (ℕ × Text)
asked = (5, ascii "a") ∷ (6, ascii "x") ∷ (7, ascii "b") ∷ []

abbrev audited : List AuditEvent
audited = (filter en q asked []).1

filtered : filter en q asked [] ≡ (ok (ascii "a" ∷ ascii "b" ∷ []), audited)
unfolding filter authorize audit evaluate decide_collection decide_document keep_if evaluate_policy
    evaluate_rules rule_matches contains contains_action contains_all any_group is_nil is_action
    trim_space is_empty text_eq resource_key collection_policy document_policy find
filtered = refl

filter-permitted_example :
    (ascii "a" ∷ ascii "b" ∷ [] ≡ permitted en q asked)
    × (new : List AuditEvent) × (audited ≡ no_events ++ new)
    × Audits en q asked new
filter-permitted_example =
    filter-permitted en q asked no_events audited (ascii "a" ∷ ascii "b" ∷ []) filtered
