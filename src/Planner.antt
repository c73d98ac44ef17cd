-- ===== src/Planner.antt =====
-- internal/planner/planner.go: the choice of a retrieval strategy. Qualities are floating-point
-- numbers: their type and the operations on them are the parameter `Reals`, and what the standard
-- library says of a query, by the tables of Unicode, is the parameter `Words`. A duration is a
-- number of nanoseconds.
pub mod Features
pub mod Select
pub mod Window
pub mod Order
pub mod Sorting
pub mod Choice
mod Tests
use private_mesh.Prelude.{
  ℕ, ◌+◌, ◌*◌, ◌-◌, ◌/◌, Bool, true, false, not, ◌&&◌, ◌||◌, List, [], ◌∷◌, ◌++◌, length, ltb, leb,
  ◌==◌, drop, if◌then◌else◌, Option, none, some, Result, ok, err, ◌>>=◌, refuse_if, ◌>>◌, ℤ, pos,
  negsuc,
}
use private_mesh.Text.{Text, text_eq, trim_space, is_empty, ascii}
use private_mesh.Text.Maps.{Map, find, put}
use private_mesh.Distributed.Execute.{is_positive}

abbrev pub observation_window : ℕ
observation_window = 256

abbrev pub Strategy : Type 0
Strategy = Text

abbrev pub lexical : Strategy
lexical = ascii "lexical"

abbrev pub vector : Strategy
vector = ascii "vector"

abbrev pub hybrid : Strategy
hybrid = ascii "hybrid"

abbrev pub strategies : List Strategy
strategies = lexical ∷ vector ∷ hybrid ∷ []

-- `hundredths n` is `n / 100`, `in_unit` tells the numbers from 0 to 1, `divide q n` is `q / n` and
-- `portion q m n` is `q * (m / n)`; `clamp` is the nearest number from 0 to 1. `budget_of d q` is
-- the duration `d * q`, and `stretch d m n` the duration `d / (m / n)`.
pub record Reals (Real : Type 0) : Type 0 where
  pub hundredths : ℕ → Real
  pub plus : Real → Real → Real
  pub minus : Real → Real → Real
  pub divide : Real → ℕ → Real
  pub portion : Real → ℕ → ℕ → Real
  pub clamp : Real → Real
  pub in_unit : Real → Bool
  pub same : Real → Real → Bool
  pub greater : Real → Real → Bool
  pub budget_of : ℤ → Real → ℤ
  pub stretch : ℤ → ℕ → ℕ → ℤ

pub data Error : Type 0 where
  priors_required invalid_baseline invalid_observation invalid_margin : Error
  query_required deadline_not_positive invalid_health no_strategy : Error

pub record Baseline (Real : Type 0) : Type 0 where
  pub quality : Real
  pub p95 : ℤ
  pub samples : ℕ
  pub available : Bool

pub record Observation (Real : Type 0) : Type 0 where
  pub latency : ℤ
  pub quality : Real

pub record Tracker (Real : Type 0) : Type 0 where
  pub observations : Map (List (Observation Real))
  pub priors : Map (Baseline Real)

-- `a < b`
unfoldable pub less : ℤ → ℤ → Bool
less (pos a) (pos b) = ltb a b
less (pos a) (negsuc b) = false
less (negsuc a) (pos b) = true
less (negsuc a) (negsuc b) = ltb b a

-- `sort.Slice` of the latencies.
unfoldable pub insert_latency : ℤ → List ℤ → List ℤ
insert_latency a [] = a ∷ []
insert_latency a (b ∷ bs) =
    let rest = insert_latency a bs in if less b a then b ∷ rest else a ∷ b ∷ bs

-- The element at an index, which is within the list.
unfoldable pub latency_at : ℕ → List ℤ → ℤ
latency_at n [] = pos 0
latency_at n (a ∷ rest) = elim (n == 0) [ true ↦ a | false ↦ latency_at (n - 1) rest ]

unfoldable pub valid_strategy : Strategy → Bool
valid_strategy s = text_eq s lexical || text_eq s vector || text_eq s hybrid

module _ {Real : Type 0} where
  -- The observations of a strategy that was not seen are none.
  unfoldable pub observed : Strategy → Map (List (Observation Real)) → List (Observation Real)
  observed s observations = elim (find s observations) [ none ↦ [] | some values ↦ values ]

  -- The last observations, of the window.
  unfoldable pub last_of_window : List (Observation Real) → List (Observation Real)
  last_of_window values = drop (length values - observation_window) values

  unfoldable pub latencies : List (Observation Real) → List ℤ
  latencies [] = []
  latencies (v ∷ values) = insert_latency v.latency (latencies values)

-- `int(math.Ceil(float64(n)*0.95)) - 1`, where the rounding of float64 does not change the ceiling
-- for the numbers up to the window.
unfoldable pub p95_index : ℕ → ℕ
p95_index n = (19 * n + 19) / 20 - 1

module _ {Real : Type 0} (reals : Reals Real) where
  unfoldable pub is_prior : Strategy → Baseline Real → Bool
  is_prior s b = valid_strategy s && reals.in_unit b.quality && is_positive b.p95

  unfoldable pub cloned : Map (Baseline Real) → Result Error (Map (Baseline Real))
  cloned [] = ok []
  cloned ((s, b) ∷ priors) = do
    refuse_if (not (is_prior s b)) invalid_baseline
    rest ← cloned priors
    ok ((s, record b { samples = 0; available = true }) ∷ rest)

  unfoldable pub new_tracker : Map (Baseline Real) → Result Error (Tracker Real)
  new_tracker [] = err priors_required
  new_tracker (prior ∷ priors) = do
    copies ← cloned (prior ∷ priors)
    ok (record { observations = []; priors = copies })

  unfoldable pub is_observation : Strategy → Observation Real → Bool
  is_observation s o = valid_strategy s && is_positive o.latency && reals.in_unit o.quality

  unfoldable pub record_observation :
      Strategy → Observation Real → Tracker Real → Result Error (Unit {0}) × Tracker Real
  record_observation s o t = if not (is_observation s o) then (err invalid_observation, t) else (
    ok tt,
    record t {
      observations = put s (last_of_window (observed s t.observations ++ (o ∷ []))) t.observations;
    },
  )

  unfoldable pub sum_quality : Real → List (Observation Real) → Real
  sum_quality total [] = total
  sum_quality total (v ∷ values) = sum_quality (reals.plus total v.quality) values

  unfoldable pub baseline_of : Baseline Real → List (Observation Real) → Baseline Real
  baseline_of prior [] = prior
  baseline_of prior (v ∷ values) = record {
    quality = reals.divide (sum_quality (reals.hundredths 0) (v ∷ values)) (length (v ∷ values));
    p95 = latency_at (p95_index (length (v ∷ values))) (latencies (v ∷ values));
    samples = length (v ∷ values);
    available = true;
  }

  unfoldable pub baselines_of :
      Map (List (Observation Real)) → Map (Baseline Real) → Map (Baseline Real)
  baselines_of observations [] = []
  baselines_of observations ((s, prior) ∷ priors) =
      (s, baseline_of prior (observed s observations)) ∷ baselines_of observations priors

  unfoldable pub snapshot : Tracker Real → Map (Baseline Real)
  snapshot t = baselines_of t.observations t.priors
