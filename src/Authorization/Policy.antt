-- ===== src/Authorization/Policy.antt =====
-- internal/authorization/policy.go: rules, policies and the store in memory. Actions and effects
-- are strings, as in the source; a copy of a policy is the policy.
pub mod Deciding
pub mod Stored
use private_mesh.Prelude.{
  ℕ, ◌==◌, Bool, true, false, not, ◌&&◌, ◌||◌, List, [], ◌∷◌, ◌++◌, if◌then◌else◌, Option, none,
  some, Result, ok, err, ◌>>=◌, ◌>>◌, refuse_if,
}
use private_mesh.Text.{Text, ascii, text_eq, trim_space, is_empty}
use private_mesh.Text.Maps.{Map, find, put}

-- Principal of internal/identity/token.go.
pub record Principal : Type 0 where
  pub subject : Text
  pub groups : List Text
  pub scopes : List Text

abbrev pub action_search : Text
action_search = ascii "search"

abbrev pub action_read : Text
action_read = ascii "read"

abbrev pub effect_allow : Text
effect_allow = ascii "allow"

abbrev pub effect_deny : Text
effect_deny = ascii "deny"

pub record Rule : Type 0 where
  pub effect : Text
  pub actions : List Text
  pub subjects : List Text
  pub groups : List Text
  pub scopes : List Text

pub record Policy : Type 0 where
  pub version : Text
  pub rules : List Rule

unfoldable pub contains : List Text → Text → Bool
contains [] target = false
contains (value ∷ values) target = text_eq (trim_space value) target || contains values target

unfoldable pub contains_action : List Text → Text → Bool
contains_action [] target = false
contains_action (value ∷ values) target = text_eq value target || contains_action values target

unfoldable pub contains_all : List Text → List Text → Bool
contains_all values [] = true
contains_all values (requirement ∷ required) =
    contains values (trim_space requirement) && contains_all values required

-- The loop of `ruleMatches` over the groups.
unfoldable pub any_group : List Text → List Text → Bool
any_group groups [] = false
any_group groups (group ∷ member_of) = contains groups group || any_group groups member_of

unfoldable pub is_nil : List Text → Bool
is_nil [] = true
is_nil (v ∷ vs) = false

unfoldable pub rule_matches : Rule → Principal → Text → Bool
rule_matches rule p action =
    if not (contains_action rule.actions action) || not (contains_all p.scopes rule.scopes)
    then false
    else if is_nil rule.subjects && is_nil rule.groups
    then true
    else if contains rule.subjects p.subject
    then true
    else any_group rule.groups p.groups

-- The loop of `evaluatePolicy`; `allowed` is its variable.
unfoldable pub evaluate_rules : List Rule → Principal → Text → Bool → Bool
evaluate_rules [] p action allowed = allowed
evaluate_rules (rule ∷ rules) p action allowed = elim (rule_matches rule p action) [
  | false ↦ evaluate_rules rules p action allowed
  | true ↦ elim (text_eq rule.effect effect_deny) [
    | true ↦ false
    | false ↦ evaluate_rules rules p action true
  ]
]

unfoldable pub evaluate_policy : Policy → Principal → Text → Bool
evaluate_policy policy p action = evaluate_rules policy.rules p action false

pub data PolicyError : Type 0 where
  version_required no_rules bad_effect no_actions bad_action : PolicyError
  collection_required ids_required : PolicyError

unfoldable pub is_action : Text → Bool
is_action action = text_eq action action_search || text_eq action action_read

unfoldable pub check_actions : List Text → Result PolicyError (Unit {0})
check_actions [] = ok tt
check_actions (action ∷ actions) =
    let rest = check_actions actions in if not (is_action action) then err bad_action else rest

unfoldable pub check_rules : List Rule → Result PolicyError (Unit {0})
check_rules [] = ok tt
check_rules (rule ∷ rules) = do
  refuse_if (not (text_eq rule.effect effect_allow) && not (text_eq rule.effect effect_deny))
      bad_effect
  refuse_if (is_nil rule.actions) no_actions
  check_actions rule.actions
  check_rules rules

unfoldable pub no_rule : List Rule → Bool
no_rule [] = true
no_rule (rule ∷ rules) = false

unfoldable pub validate_policy : Policy → Result PolicyError (Unit {0})
validate_policy policy = do
  refuse_if (is_empty (trim_space policy.version)) version_required
  refuse_if (no_rule policy.rules) no_rules
  check_rules policy.rules

pub record MemoryStore : Type 0 where
  pub collections : Map Policy
  pub documents : Map Policy

unfoldable pub resource_key : Text → Text → Text
resource_key collection_id document_id = trim_space collection_id ++ (0 ∷ trim_space document_id)

unfoldable pub set_collection_policy : Text → Policy → MemoryStore → Result PolicyError MemoryStore
set_collection_policy collection_id policy s = do
  refuse_if (is_empty (trim_space collection_id)) collection_required
  validate_policy policy
  ok (record s { collections = put (trim_space collection_id) policy s.collections })

unfoldable pub set_document_policy :
    Text → Text → Policy → MemoryStore → Result PolicyError MemoryStore
set_document_policy collection_id document_id policy s = do
  refuse_if (is_empty (trim_space collection_id) || is_empty (trim_space document_id)) ids_required
  validate_policy policy
  ok (record s {
    documents =
        put (resource_key (trim_space collection_id) (trim_space document_id)) policy s.documents;
  })

unfoldable pub collection_policy : Text → MemoryStore → Option Policy
collection_policy collection_id s = find (trim_space collection_id) s.collections

unfoldable pub document_policy : Text → Text → MemoryStore → Option Policy
document_policy collection_id document_id s =
    find (resource_key collection_id document_id) s.documents
