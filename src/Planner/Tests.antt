-- ===== src/Planner/Tests.antt =====
-- A planner of percentages: what it chooses, what a tracker keeps, and what the theorems say there.
use private_mesh.Prelude.{
  ◌++◌, ℕ, ◌+◌, ◌*◌, ◌-◌, ◌/◌, ◌≤◌, ◌≡◌, refl, true, [], ◌∷◌, length, Result, ok, err, ltb, leb,
  ◌==◌, ◌&&◌, if◌then◌else◌, ℤ, pos, negsuc, List, replicate, ◌⊎◌,
}
use private_mesh.Text.{Text, ascii, is_empty, trim_space, text_eq}
use private_mesh.Text.Maps.{Map, find}
use private_mesh.Distributed.Execute.{is_positive}
use private_mesh.Planner.{
  Reals, Baseline, Observation, Tracker, lexical, vector, hybrid, less, valid_strategy, is_prior,
  cloned, new_tracker, observed, snapshot, baselines_of, baseline_of, Strategy,
}
use private_mesh.Planner.Features.{
  Words, extract_features, has_quoted, quoted_from, is_like_id, one_like_id, is_natural, ends_with,
  has_prefix, has_space, any_rune, is_separator,
}
use private_mesh.Planner.Select.{
  Request, Plan, Planner, select, is_valid, at_most, count_of, is_healthy, candidate, candidates,
  candidates_for, fallback_for, adjusted_quality, adjusted_latency, for_exact, for_natural,
  for_health, plan_before, insert_plan, sort_plans, choose, strategy_order, order_in,
}
use private_mesh.Planner.Order.{IsOrdered}
use private_mesh.Planner.Choice.{IsBest, select-IsBest}
use private_mesh.Planner.Window.{record_all, valid_for, record_all-window}

-- A number is a percentage.
abbrev reals : Reals ℕ
reals = record {
  hundredths = λ n. n;
  plus = λ a b. a + b;
  minus = λ a b. a - b;
  divide = λ a n. a / n;
  portion = λ a m n. a * m / n;
  clamp = λ a. if leb a 100 then a else 100;
  in_unit = λ a. leb a 100;
  same = λ a b. a == b;
  greater = λ a b. ltb b a;
  budget_of = λ d q. elim d [ pos n ↦ pos (n * q / 100) | negsuc n ↦ negsuc n ];
  stretch = λ d m n. elim d [ pos k ↦ pos (k * n / m) | negsuc k ↦ negsuc k ];
}

reals-IsOrdered : IsOrdered reals
reals-IsOrdered = record { level = λ a. a; same_level = λ a b. refl; greater_level = λ a b. refl }

-- A text is a single word of ASCII.
abbrev words : Words
words = record {
  fields = λ text. text ∷ [];
  runes = λ text. text;
  to_lower = λ text. text;
  is_space = λ rune. rune == 32;
  is_digit = λ rune. leb 48 rune && leb rune 57;
}

abbrev prior : ℕ → ℕ → Baseline ℕ
prior quality latency = record {
  quality = quality;
  p95 = pos latency;
  samples = 0;
  available = true;
}

abbrev priors : Map (Baseline ℕ)
priors = (lexical, prior 60 10) ∷ (vector, prior 70 40) ∷ (hybrid, prior 80 90) ∷ []

abbrev tracker : Tracker ℕ
tracker = record { observations = []; priors = priors }

abbrev planner : Planner ℕ
planner = record { tracker = tracker; margin = 80 }

abbrev request : ℤ → Request
request deadline = record {
  query = ascii " mesh";
  deadline = deadline;
  health = record { total_nodes = pos 2; available_nodes = pos 2; vector_ready_nodes = pos 2 };
}

made : new_tracker reals priors ≡ ok tracker
unfolding new_tracker cloned is_prior valid_strategy is_positive text_eq
made = refl

abbrev strategy_of : {E : Type 0} → Result E (Plan ℕ) → Text
strategy_of (ok plan) = plan.strategy
strategy_of (err e) = []

-- The hybrid plan is better, and is beyond the budget of the shorter deadline.
chosen : strategy_of (select reals words planner (request (pos 200))) ≡ hybrid
unfolding is_empty trim_space text_eq find is_positive less snapshot baselines_of baseline_of
    observed extract_features has_quoted quoted_from is_like_id one_like_id is_natural ends_with
    has_prefix has_space any_rune is_separator select is_valid at_most count_of is_healthy candidate
    candidates candidates_for fallback_for adjusted_quality adjusted_latency for_exact for_natural
    for_health plan_before insert_plan sort_plans choose strategy_order order_in
chosen = refl

chosen_in_time : strategy_of (select reals words planner (request (pos 100))) ≡ vector
unfolding is_empty trim_space text_eq find is_positive less snapshot baselines_of baseline_of
    observed extract_features has_quoted quoted_from is_like_id one_like_id is_natural ends_with
    has_prefix has_space any_rune is_separator select is_valid at_most count_of is_healthy candidate
    candidates candidates_for fallback_for adjusted_quality adjusted_latency for_exact for_natural
    for_health plan_before insert_plan sort_plans choose strategy_order order_in
chosen_in_time = refl

abbrev seen : Observation ℕ
seen = record { latency = pos 20; quality = 90 }

abbrev refused : Observation ℕ
refused = record { latency = pos 0; quality = 90 }

-- More calls than the window holds.
abbrev calls : List (Strategy × Observation ℕ)
calls = (vector, refused) ∷ (hybrid, seen) ∷ replicate 300 (vector, seen)

record_all-window_example :
    (dropped : List (Observation ℕ)) × (valid_for reals vector calls
      ≡ dropped ++ observed vector (record_all reals calls tracker).observations)
    × (length (observed vector (record_all reals calls tracker).observations) ≤ 256)
    × ((dropped ≡ [])
        ⊎ (length (observed vector (record_all reals calls tracker).observations) ≡ 256))
    × ((record_all reals calls tracker).priors ≡ priors)
record_all-window_example = record_all-window reals vector calls priors tracker made

select-IsBest_example :
    IsBest reals words planner (request (pos 100)) (select reals words planner (request (pos 100)))
unfolding trim_space is_empty is_positive is_valid at_most less
select-IsBest_example =
    select-IsBest reals words planner (request (pos 100)) reals-IsOrdered refl refl refl
