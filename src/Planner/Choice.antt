-- ===== src/Planner/Choice.antt =====
-- What `Select` chooses.
use private_mesh.Prelude.{
  ◌≡◌, ◌⊎◌, refl, sym, ap, ◌∙◌, true, false, not, ◌||◌, List, [], ◌∷◌, some, Result, ok, Bool-cases,
  Option-cases, inl, inr, arith, ℤ,
}
use private_mesh.Text.{trim_space, is_empty}
use private_mesh.Text.Maps.{Map, find}
use private_mesh.Distributed.Execute.{is_positive}
use private_mesh.Planner.{Reals, Error, Baseline, Strategy, strategies, snapshot, less}
use private_mesh.Planner.Features.{Words, Features, extract_features}
use private_mesh.Planner.Order.{IsOrdered}
use private_mesh.Planner.Select.{
  Health, Request, Plan, Planner, is_healthy, is_valid, candidate, candidates, and_then,
  fallback_for, candidates_for, plan_before, sort_plans, choose, select, planned, adjusted_latency,
}
use private_mesh.Planner.Sorting.{
  Among, Among-cons_if, Among-sort_plans, sort_plans-Among, IsFirst, sort_plans-IsFirst,
}

module _ {Real : Type 0} (reals : Reals Real) where
  module _ (f : Features) (h : Health) (budget : ℤ) (baselines : Map (Baseline Real)) where
    -- A plan of one of the strategies, by its baseline.
    abbrev pub IsCandidateOf : List Strategy → Plan Real → Type 0
    IsCandidateOf ss plan =
        (s : Strategy) × (b : Baseline Real) × Among s ss
        × (find s baselines ≡ some b)
        × (candidate reals f h budget s b ≡ some plan)

    behind :
        (s : Strategy) (ss : List Strategy) (plan : Plan Real)
        → IsCandidateOf ss plan
        → IsCandidateOf (s ∷ ss) plan
    unfolding Among
    behind s ss plan (s', b, k, found, made) = (s', b, inr k, found, made)

    Among-candidates :
        (ss : List Strategy) (plan : Plan Real)
        → IsCandidateOf ss plan
        → Among plan (candidates reals f h budget baselines ss)
    unfolding Among candidates
    Among-candidates [] plan (s, b, k, found, made) = absurd k
    Among-candidates (s' ∷ ss) plan (s, b, inl e, found, made) =
        rw
          (
            ap (λ t. find t baselines) (sym e) ∙ found,
            ap (λ t. candidate reals f h budget t b) (sym e) ∙ made,
          )
          (inl refl)
    Among-candidates (s' ∷ ss) plan (s, b, inr k, found, made) =
        Among-cons_if plan (and_then (find s' baselines) (candidate reals f h budget s')) _
          (Among-candidates ss plan (s, b, k, found, made))

    candidates-Among :
        (ss : List Strategy) (plan : Plan Real)
        → Among plan (candidates reals f h budget baselines ss)
        → IsCandidateOf ss plan
    unfolding Among candidates
    candidates-Among [] plan c = absurd c
    candidates-Among (s' ∷ ss) plan c = elim (Option-cases (find s' baselines)) [
      | inl missing ↦ behind s' ss plan (candidates-Among ss plan (rw missing at c))
      | inr (b, found) ↦ elim (Option-cases (candidate reals f h budget s' b)) [
        | inl unfit ↦ behind s' ss plan (candidates-Among ss plan (rw (found, unfit) at c))
        | inr (p, made) ↦ elim (rw (found, made) at c) [
          | inl e ↦ (s', b, inl refl, found, made ∙ ap some (sym e))
          | inr k ↦ behind s' ss plan (candidates-Among ss plan k)
        ]
      ]
    ]

  candidate_fits :
      (f : Features) (h : Health) (budget : ℤ) (s : Strategy) (b : Baseline Real) (plan : Plan Real)
      → candidate reals f h budget s b ≡ some plan
      → (is_healthy plan.strategy h ≡ true) × (less budget plan.estimated_latency ≡ false)
  unfolding candidate
  candidate_fits f h budget s b plan made =
      elim (Bool-cases (not b.available || not (is_healthy s h))) [
        | inl t ↦ absurd (cc (rw (t, candidate) at made))
        | inr g ↦ elim (Bool-cases (less budget (adjusted_latency reals s b.p95 h))) [
          | inl t ↦ absurd (cc (rw (g, t, candidate) at made))
          | inr k ↦
              let equal : planned reals f h s b ≡ plan = cc (rw (g, k, candidate) at made) in
              (
                ap (λ (x : Plan Real). is_healthy x.strategy h) (sym equal) ∙ ground (arith, g),
                ap (λ (x : Plan Real). less budget x.estimated_latency) (sym equal) ∙ k,
              )
        ]
      ]

  module _ (words : Words) (p : Planner Real) (request : Request) where
    -- A plan within the budget, of a strategy that the nodes are ready for.
    abbrev pub Fits : Plan Real → Type 0
    Fits =
        IsCandidateOf (extract_features words (trim_space request.query)) request.health
          (reals.budget_of request.deadline p.margin) (snapshot reals p.tracker) strategies

    -- The first of the sorted candidates, or the fallback.
    abbrev pub IsBest : Result Error (Plan Real) → Type 0
    IsBest outcome =
        ((plan : Plan Real) × (outcome ≡ ok plan)
          × Fits plan
          × (is_healthy plan.strategy request.health ≡ true)
          × (less (reals.budget_of request.deadline p.margin) plan.estimated_latency ≡ false)
          × ((other : Plan Real) → Fits other → plan_before reals other plan ≡ false))
        ⊎ (((other : Plan Real) → Fits other → ⊥) × (outcome ≡ fallback_for reals words p request))

    choose-IsBest :
        (sorted : List (Plan Real))
        → sort_plans reals (candidates_for reals words p request) ≡ sorted
        → IsFirst reals sorted
        → IsBest (choose (fallback_for reals words p request) sorted)
    unfolding choose Among candidates_for
    choose-IsBest [] e first = inr (
      λ other c. rw e at (
          Among-sort_plans reals other (candidates_for reals words p request)
            (Among-candidates _ _ _ _ strategies other c)),
      refl,
    )
    choose-IsBest (plan ∷ plans) e first =
        let fits =
          candidates-Among _ _ _ _ strategies plan (
            sort_plans-Among reals plan (candidates_for reals words p request) (rw e (inl refl))) in
        let (s, b, k, found, made) = fits in
        inl (
          plan,
          refl,
          fits,
          (candidate_fits _ _ _ s b plan made).0,
          (candidate_fits _ _ _ s b plan made).1,
          λ other c. first other (
              rw e at (
                Among-sort_plans reals other (candidates_for reals words p request)
                  (Among-candidates _ _ _ _ strategies other c))),
        )

    -- A request with a query, a positive deadline and valid numbers of nodes is answered, where the
    -- qualities are ordered like numbers, by the plan of a strategy with a baseline that the nodes
    -- are ready for, whose latency is within the budget, and no other such plan goes before it; and
    -- where there is none, by the fallback.
    pub select-IsBest :
        IsOrdered reals
        → is_empty (trim_space request.query) ≡ false
        → is_positive request.deadline ≡ true
        → is_valid request.health ≡ true
        → IsBest (select reals words p request)
    unfolding select
    select-IsBest ordered asks ahead valid =
        rw (asks, ahead, valid, select)
          (choose-IsBest _ refl
            (sort_plans-IsFirst reals (candidates_for reals words p request) ordered))
