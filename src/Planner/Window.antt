-- ===== src/Planner/Window.antt =====
-- What a `Tracker` keeps of the observations.
use private_mesh.Prelude.{
  ◌-◌, ◌≤◌, ◌≡◌, refl, sym, ap, ◌∙◌, not, ◌&&◌, List, [], ◌∷◌, ◌++◌, length, length-append, drop,
  drop_again, drop-append_short, length-drop, if◌then◌else◌, Result, ok, Bool-cases, Result-cases,
  inl, inr, arith, either_branch, ◌⊎◌, take, take-append-drop, leb,
}
use mathlib.Core.List.{append_assoc, append-nil}
use private_mesh.Text.{text_eq}
use private_mesh.Text.Maps.{Map, find}
use private_mesh.Text.Maps.Finding.{find-put}
use private_mesh.Text.Equality.{text_eq_sound}
use private_mesh.Planner.{
  Reals, Error, Baseline, Observation, Tracker, Strategy, observation_window, observed,
  last_of_window, is_observation, record_observation, new_tracker, cloned,
}

module _ {Real : Type 0} (reals : Reals Real) where
  -- The calls of `Record`, in order.
  unfoldable pub record_all : List (Strategy × Observation Real) → Tracker Real → Tracker Real
  record_all [] t = t
  record_all ((s, o) ∷ calls) t = record_all calls (record_observation reals s o t).1

  -- The valid observations of a strategy among them.
  unfoldable pub valid_for : Strategy → List (Strategy × Observation Real) → List (Observation Real)
  valid_for s [] = []
  valid_for s ((s', o) ∷ calls) =
      let rest = valid_for s calls in
      if text_eq s' s && is_observation reals s' o then o ∷ rest else rest

  nothing_observed : (s : Strategy) → observed {Real = Real} s [] ≡ last_of_window []
  unfolding observed find last_of_window
  nothing_observed s = refl

  window_again :
      (xs : List (Observation Real)) (o : Observation Real)
      → last_of_window (last_of_window xs ++ (o ∷ [])) ≡ last_of_window (xs ++ (o ∷ []))
  unfolding last_of_window
  window_again xs o =
      let k = length xs - observation_window in
      let behind = drop-append_short k xs (o ∷ []) (omega arith) in
      rw (sym behind) (
        drop_again k (length (drop k (xs ++ (o ∷ []))) - observation_window) (xs ++ (o ∷ []))
        ∙ ap (λ n. drop n (xs ++ (o ∷ [])))
            (omega (arith, length-drop k (xs ++ (o ∷ [])), length-append xs (o ∷ []))))

  observed-record_observation :
      (s s' : Strategy) (o : Observation Real) (t : Tracker Real)
      → observed s (record_observation reals s' o t).1.observations ≡ (
          if text_eq s' s && is_observation reals s' o
          then last_of_window (observed s t.observations ++ (o ∷ []))
          else observed s t.observations)
  unfolding record_observation observed
  observed-record_observation s s' o t = elim (Bool-cases (is_observation reals s' o)) [
    | inr refused ↦ ground (arith, refused)
    | inl valid ↦ elim (Bool-cases (text_eq s' s)) [
      | inl same ↦
          rw (valid, same, record_observation)
            (ground (
              arith,
              find-put s' s (last_of_window (observed s' t.observations ++ (o ∷ [])))
                  t.observations,
              same,
              text_eq_sound s' s same,
            ))
      | inr differs ↦
          rw (valid, differs, record_observation)
            (ground (
              arith,
              find-put s' s (last_of_window (observed s' t.observations ++ (o ∷ [])))
                  t.observations,
              differs,
            ))
    ]
  ]

  observed-record_all :
      (s : Strategy) (calls : List (Strategy × Observation Real)) (t : Tracker Real)
      (before : List (Observation Real))
      → observed s t.observations ≡ last_of_window before
      → observed s (record_all calls t).observations ≡ last_of_window (before ++ valid_for s calls)
  unfolding record_all valid_for
  observed-record_all s [] t before h = h ∙ ap last_of_window (sym (append-nil before))
  observed-record_all s ((s', o) ∷ calls) t before h =
      elim (Bool-cases (text_eq s' s && is_observation reals s' o)) [
        | inl taken ↦ rw taken (
            observed-record_all s calls (record_observation reals s' o t).1 (before ++ (o ∷ [])) (
              observed-record_observation s s' o t
              ∙ rw taken (ap (λ xs. last_of_window (xs ++ (o ∷ []))) h ∙ window_again before o))
            ∙ ap last_of_window (append_assoc before (o ∷ []) (valid_for s calls)))
        | inr left ↦ rw left (
            observed-record_all s calls (record_observation reals s' o t).1 before
              (observed-record_observation s s' o t ∙ rw left h))
      ]

  -- The first values are those that the others are behind; the others are 256, or all values.
  record IsWindow (values dropped kept : List (Observation Real)) : Type 0 where
    pub in_order : values ≡ dropped ++ kept
    pub bounded : length kept ≤ 256
    pub full : (dropped ≡ []) ⊎ (length kept ≡ 256)

  last_of_window-IsWindow :
      (values : List (Observation Real))
      → (dropped : List (Observation Real)) × IsWindow values dropped (last_of_window values)
  unfolding last_of_window
  last_of_window-IsWindow values =
      let k = length values - observation_window in
      (
        take k values,
        record {
          in_order = sym (take-append-drop k values);
          bounded = omega (arith, length-drop k values);
          full = elim (Bool-cases (leb (length values) observation_window)) [
            | inl short ↦ inl (ap (λ n. take n values) {x = k} {y = 0} (ground (arith, short)))
            | inr long ↦ inr (ground (arith, long, length-drop k values))
          ];
        },
      )

  record_all-priors :
      (calls : List (Strategy × Observation Real)) (t : Tracker Real)
      → (record_all calls t).priors ≡ t.priors
  unfolding record_all record_observation
  record_all-priors [] t = refl
  record_all-priors ((s, o) ∷ calls) t =
      record_all-priors calls (record_observation reals s o t).1
      ∙ either_branch (λ (x : Result Error (Unit {0}) × Tracker Real). x.1.priors ≡ t.priors)
          (not (is_observation reals s o)) _ _ refl refl

  new_tracker-observed :
      (s : Strategy) (priors : Map (Baseline Real)) (t : Tracker Real)
      → new_tracker reals priors ≡ ok t
      → observed s t.observations ≡ last_of_window []
  unfolding new_tracker
  new_tracker-observed s [] t made = absurd (cc made)
  new_tracker-observed s (prior ∷ priors) t made =
      elim (Result-cases (cloned reals (prior ∷ priors))) [
        | inl (e, refused) ↦ absurd (cc (rw (refused, new_tracker) at made))
        | inr (copies, copied) ↦
            let empty : Tracker Real = record { observations = []; priors = copies } in
            let equal : empty ≡ t = cc (rw (copied, new_tracker) at made) in
            ap (λ (x : Tracker Real). observed s x.observations) (sym equal) ∙ nothing_observed s
      ]

  -- What a new tracker has kept of a strategy, after any calls of `Record`, are the last of the valid
  -- observations of this strategy, in the order of the calls: only earlier ones are dropped, it
  -- keeps at most 256, and it drops some only if it keeps 256. Its priors are those that it was
  -- made with.
  pub record_all-window :
      (s : Strategy) (calls : List (Strategy × Observation Real)) (priors : Map (Baseline Real))
      (t : Tracker Real)
      → new_tracker reals priors ≡ ok t
      → (dropped : List (Observation Real)) × (valid_for s calls
          ≡ dropped ++ observed s (record_all calls t).observations)
        × (length (observed s (record_all calls t).observations) ≤ 256)
        × ((dropped ≡ []) ⊎ (length (observed s (record_all calls t).observations) ≡ 256))
        × ((record_all calls t).priors ≡ t.priors)
  record_all-window s calls priors t made =
      let kept = observed-record_all s calls t [] (new_tracker-observed s priors t made) in
      let (dropped, window) = last_of_window-IsWindow (valid_for s calls) in
      (
        dropped,
        rw kept window.in_order,
        rw kept window.bounded,
        rw kept window.full,
        record_all-priors calls t,
      )
