-- ===== src/Authorization/Policy/Deciding.antt =====
-- How a policy decides, and that the order of its rules does not matter.
use mathlib.Core.List.{Permᴰ}
use private_mesh.Prelude.{
  ◌≡◌, refl, sym, ◌∙◌, ap, Bool, true, false, not, ◌&&◌, ◌||◌, List, [], ◌∷◌, arith,
}
use private_mesh.Text.{Text, text_eq}
use private_mesh.Authorization.Policy.{
  Principal, Rule, Policy, effect_deny, rule_matches, evaluate_rules, evaluate_policy,
}

unfoldable pub any_rule : (Rule → Bool) → List Rule → Bool
any_rule f [] = false
any_rule f (rule ∷ rules) = f rule || any_rule f rules

-- The rules that match, and those that match and deny.
abbrev pub matching : Principal → Text → Rule → Bool
matching p action rule = rule_matches rule p action

abbrev pub denying : Principal → Text → Rule → Bool
denying p action rule = rule_matches rule p action && text_eq rule.effect effect_deny

evaluate_rules-any_rule :
    (rules : List Rule) (p : Principal) (action : Text) (allowed : Bool)
    → evaluate_rules rules p action allowed
      ≡ ((allowed || any_rule (matching p action) rules) && not (any_rule (denying p action) rules))
unfolding evaluate_rules any_rule
evaluate_rules-any_rule [] p action allowed = ground arith
evaluate_rules-any_rule (rule ∷ rules) p action allowed = ground (
  arith,
  evaluate_rules-any_rule rules p action allowed,
  evaluate_rules-any_rule rules p action true,
)

-- A policy allows an action exactly if a rule matches and no rule that matches denies.
evaluate_policy-any_rule :
    (policy : Policy) (p : Principal) (action : Text)
    → evaluate_policy policy p action ≡ (
        any_rule (matching p action) policy.rules && not (any_rule (denying p action) policy.rules))
unfolding evaluate_policy
evaluate_policy-any_rule policy p action = evaluate_rules-any_rule policy.rules p action false

any_rule-Permᴰ :
    (rules rules' : List Rule) (f : Rule → Bool)
    → Permᴰ rules rules'
    → any_rule f rules ≡ any_rule f rules'
unfolding any_rule
any_rule-Permᴰ _ _ f Permᴰ.nil = refl
any_rule-Permᴰ _ _ f (Permᴰ.cons {a} {b} {l₁} {l₂} e d) =
    ap (λ (c : Rule). f c || any_rule f l₁) e
    ∙ ap (λ (t : Bool). f b || t) (any_rule-Permᴰ l₁ l₂ f d)
any_rule-Permᴰ _ _ f (Permᴰ.swap {a} {b} {a'} {b'} {l} e e') =
    rw (sym e) (rw (sym e') (ground arith))
any_rule-Permᴰ _ _ f (Permᴰ.trans {l₁} {l₂} {l₃} d d') =
    any_rule-Permᴰ l₁ l₂ f d ∙ any_rule-Permᴰ l₂ l₃ f d'

-- Policies with the same rules in another order decide alike.
evaluate_policy-Permᴰ :
    (policy policy' : Policy) (p : Principal) (action : Text)
    → Permᴰ policy.rules policy'.rules
    → evaluate_policy policy p action ≡ evaluate_policy policy' p action
evaluate_policy-Permᴰ policy policy' p action d = rw (evaluate_policy-any_rule policy p action) (
    rw (evaluate_policy-any_rule policy' p action) (
      rw (any_rule-Permᴰ policy.rules policy'.rules (matching p action) d)
        (rw (any_rule-Permᴰ policy.rules policy'.rules (denying p action) d) refl)))
