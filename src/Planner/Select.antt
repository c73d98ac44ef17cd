-- ===== src/Planner/Select.antt =====
-- `Select` of internal/planner/planner.go.
use private_mesh.Prelude.{
  ℕ, ◌+◌, Bool, false, not, ◌&&◌, ◌||◌, List, [], ◌∷◌, ltb, ◌==◌, if◌then◌else◌, Option, none, some,
  Result, ok, err, refuse_if, ◌>>◌, ℤ, pos, negsuc,
}
use private_mesh.Text.{Text, text_eq, trim_space, is_empty}
use private_mesh.Text.Maps.{Map, find}
use private_mesh.Distributed.Execute.{is_positive}
use private_mesh.Planner.{
  Reals, Error, Baseline, Tracker, Strategy, lexical, vector, hybrid, strategies, snapshot, less,
  query_required, deadline_not_positive, invalid_health, no_strategy, invalid_margin,
}
use private_mesh.Planner.Features.{Words, Features, extract_features}

pub record Health : Type 0 where
  pub total_nodes : ℤ
  pub available_nodes : ℤ
  pub vector_ready_nodes : ℤ

pub record Request : Type 0 where
  pub query : Text
  pub deadline : ℤ
  pub health : Health

pub data Reason : Type 0 where
  within_deadline exceeds_margin : Reason

pub record Plan (Real : Type 0) : Type 0 where
  pub strategy : Strategy
  pub features : Features
  pub estimated_quality : Real
  pub estimated_latency : ℤ
  pub reason : Reason

pub record Planner (Real : Type 0) : Type 0 where
  pub tracker : Tracker Real
  pub margin : Real

-- `a <= b`
unfoldable pub at_most : ℤ → ℤ → Bool
at_most a b = not (less b a)

unfoldable pub count_of : ℤ → ℕ
count_of (pos n) = n
count_of (negsuc n) = 0

unfoldable pub is_valid : Health → Bool
is_valid h =
    is_positive h.total_nodes
    && at_most (pos 0) h.available_nodes
    && at_most h.available_nodes h.total_nodes
    && at_most (pos 0) h.vector_ready_nodes
    && at_most h.vector_ready_nodes h.available_nodes

unfoldable pub is_healthy : Strategy → Health → Bool
is_healthy s h =
    if count_of h.available_nodes == 0
    then false
    else text_eq s lexical || is_positive h.vector_ready_nodes

unfoldable pub order_in : ℕ → Strategy → List Strategy → ℕ
order_in index s [] = index
order_in index s (candidate ∷ candidates) =
    let rest = order_in (index + 1) s candidates in if text_eq s candidate then index else rest

unfoldable pub strategy_order : Strategy → ℕ
strategy_order s = order_in 0 s strategies

module _ {Real : Type 0} where
  -- `New` with a tracker.
  unfoldable pub new_planner : (Real → Bool) → Tracker Real → Real → Result Error (Planner Real)
  new_planner is_margin tracker margin =
      if is_margin margin
      then ok (record { tracker = tracker; margin = margin })
      else err invalid_margin

  abbrev pub cons_if : Option (Plan Real) → List (Plan Real) → List (Plan Real)
  cons_if none plans = plans
  cons_if (some plan) plans = plan ∷ plans

  abbrev pub and_then :
      Option (Baseline Real) → (Baseline Real → Option (Plan Real)) → Option (Plan Real)
  and_then none next = none
  and_then (some b) next = next b

  -- The end of `Select`: the first of the sorted candidates.
  unfoldable pub choose : Result Error (Plan Real) → List (Plan Real) → Result Error (Plan Real)
  choose otherwise [] = otherwise
  choose otherwise (plan ∷ plans) = ok plan

module _ {Real : Type 0} (reals : Reals Real) where
  unfoldable pub for_exact : Strategy → Real → Real
  for_exact s quality =
      if text_eq s lexical
      then reals.plus quality (reals.hundredths 8)
      else if text_eq s vector
      then reals.minus quality (reals.hundredths 8)
      else if text_eq s hybrid
      then reals.minus quality (reals.hundredths 6)
      else quality

  unfoldable pub for_natural : Strategy → Real → Real
  for_natural s quality =
      if text_eq s lexical
      then reals.minus quality (reals.hundredths 2)
      else if text_eq s vector
      then reals.plus quality (reals.hundredths 5)
      else if text_eq s hybrid
      then reals.plus quality (reals.hundredths 4)
      else quality

  unfoldable pub for_health : Strategy → Health → Real → Real
  for_health s h quality =
      if text_eq s vector || text_eq s hybrid
      then reals.portion quality (count_of h.vector_ready_nodes) (count_of h.available_nodes)
      else quality

  unfoldable pub adjusted_quality : Strategy → Real → Features → Health → Real
  adjusted_quality s baseline f h =
      let exact =
        if f.has_quoted_phrase || f.looks_like_id then for_exact s baseline else baseline in
      let natural = if f.looks_natural then for_natural s exact else exact in
      reals.clamp (for_health s h natural)

  unfoldable pub adjusted_latency : Strategy → ℤ → Health → ℤ
  adjusted_latency s latency h =
      if text_eq s lexical
      then latency
      else reals.stretch latency (count_of h.vector_ready_nodes) (count_of h.available_nodes)

  abbrev pub planned : Features → Health → Strategy → Baseline Real → Plan Real
  planned f h s b = record {
    strategy = s;
    features = f;
    estimated_quality = adjusted_quality s b.quality f h;
    estimated_latency = adjusted_latency s b.p95 h;
    reason = within_deadline;
  }

  -- The plan of a strategy, if it is a candidate.
  unfoldable pub candidate : Features → Health → ℤ → Strategy → Baseline Real → Option (Plan Real)
  candidate f h budget s b =
      if not b.available || not (is_healthy s h)
      then none
      else if less budget (adjusted_latency s b.p95 h)
      then none
      else some (planned f h s b)

  unfoldable pub candidates :
      Features → Health → ℤ → Map (Baseline Real) → List Strategy → List (Plan Real)
  candidates f h budget baselines [] = []
  candidates f h budget baselines (s ∷ more) =
      cons_if (and_then (find s baselines) (candidate f h budget s))
        (candidates f h budget baselines more)

  unfoldable pub fallback : Features → Health → Map (Baseline Real) → Result Error (Plan Real)
  fallback f h baselines = elim (find lexical baselines) [
    | none ↦ err no_strategy
    | some b ↦ ok (record {
      strategy = lexical;
      features = f;
      estimated_quality = adjusted_quality lexical b.quality f h;
      estimated_latency = b.p95;
      reason = exceeds_margin;
    })
  ]

  -- The order of sort.SliceStable.
  unfoldable pub plan_before : Plan Real → Plan Real → Bool
  plan_before a b =
      if not (reals.same a.estimated_quality b.estimated_quality)
      then reals.greater a.estimated_quality b.estimated_quality
      else if not (
          less a.estimated_latency b.estimated_latency
          || less b.estimated_latency a.estimated_latency)
      then ltb (strategy_order a.strategy) (strategy_order b.strategy)
      else less a.estimated_latency b.estimated_latency

  unfoldable pub insert_plan : Plan Real → List (Plan Real) → List (Plan Real)
  insert_plan a [] = a ∷ []
  insert_plan a (b ∷ bs) =
      let rest = insert_plan a bs in if plan_before b a then b ∷ rest else a ∷ b ∷ bs

  unfoldable pub sort_plans : List (Plan Real) → List (Plan Real)
  sort_plans [] = []
  sort_plans (a ∷ more) = insert_plan a (sort_plans more)

  unfoldable pub candidates_for : Words → Planner Real → Request → List (Plan Real)
  candidates_for words p request =
      candidates (extract_features words (trim_space request.query)) request.health
        (reals.budget_of request.deadline p.margin) (snapshot reals p.tracker) strategies

  unfoldable pub fallback_for : Words → Planner Real → Request → Result Error (Plan Real)
  fallback_for words p request =
      fallback (extract_features words (trim_space request.query)) request.health
        (snapshot reals p.tracker)

  unfoldable pub select : Words → Planner Real → Request → Result Error (Plan Real)
  select words p request = do
    refuse_if (is_empty (trim_space request.query)) query_required
    refuse_if (not (is_positive request.deadline)) deadline_not_positive
    refuse_if (not (is_valid request.health)) invalid_health
    choose (fallback_for words p request) (sort_plans (candidates_for words p request))
