-- ===== src/Planner/Sorting.antt =====
-- The sorting of the candidates.
use private_mesh.Prelude.{
  ◌≡◌, ◌⊎◌, ap, ◌∙◌, false, List, [], ◌∷◌, Option, none, some, Bool-cases, inl, inr,
}
use private_mesh.Planner.{Reals}
use private_mesh.Planner.Order.{
  IsOrdered, plan_before_irreflexive, plan_before_trans, plan_before_asym,
}
use private_mesh.Planner.Select.{Plan, cons_if, plan_before, insert_plan, sort_plans}

unfoldable pub Among : {A : Type 0} → A → List A → Type 0
Among a [] = ⊥
Among a (b ∷ bs) = (a ≡ b) ⊎ Among a bs

pub Among-cons_if :
    {Real : Type 0} (x : Plan Real) (o : Option (Plan Real)) (ps : List (Plan Real))
    → Among x ps
    → Among x (cons_if o ps)
unfolding Among
Among-cons_if x none ps k = k
Among-cons_if x (some p) ps k = inr k

module _ {Real : Type 0} (reals : Reals Real) where
  Among-insert_plan :
      (x a : Plan Real) (bs : List (Plan Real))
      → (x ≡ a) ⊎ Among x bs
      → Among x (insert_plan reals a bs)
  unfolding Among insert_plan
  Among-insert_plan x a [] h = h
  Among-insert_plan x a (b ∷ bs) h = elim (Bool-cases (plan_before reals b a)) [
    | inr f ↦ rw f h
    | inl t ↦ rw t (elim h [
      | inl e ↦ inr (Among-insert_plan x a bs (inl e))
      | inr (inl e) ↦ inl e
      | inr (inr k) ↦ inr (Among-insert_plan x a bs (inr k))
    ])
  ]

  insert_plan-Among :
      (x a : Plan Real) (bs : List (Plan Real))
      → Among x (insert_plan reals a bs)
      → (x ≡ a) ⊎ Among x bs
  unfolding Among insert_plan
  insert_plan-Among x a [] h = h
  insert_plan-Among x a (b ∷ bs) h = elim (Bool-cases (plan_before reals b a)) [
    | inr f ↦ rw f at h
    | inl t ↦ elim (rw t at h) [
      | inl e ↦ inr (inl e)
      | inr k ↦ elim (insert_plan-Among x a bs k) [ inl e ↦ inl e | inr l ↦ inr (inr l) ]
    ]
  ]

  pub Among-sort_plans :
      (x : Plan Real) (ps : List (Plan Real)) → Among x ps → Among x (sort_plans reals ps)
  unfolding Among sort_plans
  Among-sort_plans x [] h = h
  Among-sort_plans x (a ∷ more) (inl e) = Among-insert_plan x a (sort_plans reals more) (inl e)
  Among-sort_plans x (a ∷ more) (inr k) =
      Among-insert_plan x a (sort_plans reals more) (inr (Among-sort_plans x more k))

  pub sort_plans-Among :
      (x : Plan Real) (ps : List (Plan Real)) → Among x (sort_plans reals ps) → Among x ps
  unfolding Among sort_plans
  sort_plans-Among x [] h = h
  sort_plans-Among x (a ∷ more) h = elim (insert_plan-Among x a (sort_plans reals more) h) [
    | inl e ↦ inl e
    | inr k ↦ inr (sort_plans-Among x more k)
  ]

  -- No plan goes before the first of sorted ones.
  abbrev pub IsFirst : List (Plan Real) → Type 0
  IsFirst [] = Unit {0}
  IsFirst (a ∷ bs) = (x : Plan Real) → Among x (a ∷ bs) → plan_before reals x a ≡ false

  insert_plan-IsFirst :
      (a : Plan Real) (bs : List (Plan Real))
      → IsOrdered reals
      → IsFirst bs
      → IsFirst (insert_plan reals a bs)
  unfolding insert_plan Among
  insert_plan-IsFirst a [] ordered first = λ x h. elim h [
    | inl e ↦ ap (λ p. plan_before reals p a) e ∙ plan_before_irreflexive reals ordered a
    | inr k ↦ absurd k
  ]
  insert_plan-IsFirst a (b ∷ bs) ordered first = elim (Bool-cases (plan_before reals b a)) [
    | inl t ↦ rw t λ x h. elim h [
      | inl e ↦ first x (inl e)
      | inr k ↦ elim (insert_plan-Among x a bs k) [
        | inl e ↦ ap (λ p. plan_before reals p b) e ∙ plan_before_asym reals ordered a b t
        | inr l ↦ first x (inr l)
      ]
    ]
    | inr f ↦ rw f λ x h. elim h [
      | inl e ↦ ap (λ p. plan_before reals p a) e ∙ plan_before_irreflexive reals ordered a
      | inr k ↦ plan_before_trans reals ordered a b x (first x k) f
    ]
  ]

  pub sort_plans-IsFirst : (ps : List (Plan Real)) → IsOrdered reals → IsFirst (sort_plans reals ps)
  unfolding sort_plans
  sort_plans-IsFirst [] ordered = tt
  sort_plans-IsFirst (a ∷ more) ordered =
      insert_plan-IsFirst a (sort_plans reals more) ordered (sort_plans-IsFirst more ordered)
