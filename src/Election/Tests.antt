-- ===== src/Election/Tests.antt =====
-- Concrete runs of the election, and its theorems at concrete inputs.
use private_mesh.Prelude.{◌≡◌, ◌≢◌, refl, List, [], ◌∷◌, false, ok, err, arith}
use private_mesh.Text.{ascii, trim_space, text_eq, is_empty}
use private_mesh.Election.{
  Leadership, Election, Event, campaigns, renews, campaign, validate, run, new_election,
  no_leadership, not_leader,
}
use private_mesh.Election.Fencing.{Fenced, run-Fenced, run_deposes}
use private_mesh.Election.Lease.{campaign_excludes}

abbrev fresh : Election
fresh = record { duration = 100; current = no_leadership }

abbrev lead_a : Leadership
lead_a = record { node_id = ascii "a"; term = 1; expires_at = 110 }

abbrev led_by_a : Election
led_by_a = record { duration = 100; current = lead_a }

new_election_100 : new_election 100 ≡ ok fresh
unfolding new_election
new_election_100 = refl

campaign_a : campaign 10 (ascii " a ") fresh ≡ (ok lead_a, led_by_a)
unfolding campaign trim_space is_empty text_eq
campaign_a = refl

validate_a : validate 109 (ascii "a") 1 led_by_a ≡ ok tt
unfolding validate trim_space text_eq
validate_a = refl

abbrev takeover : List Event
takeover =
    renews 50 (ascii "a") 1
    ∷ campaigns 149 (ascii "b")
    ∷ campaigns 150 (ascii "b")
    ∷ renews 160 (ascii "a") 1
    ∷ []

takeover_leader :
    (run takeover led_by_a).current ≡ record { node_id = ascii "b"; term = 2; expires_at = 250 }
unfolding run trim_space is_empty text_eq
takeover_leader = refl

run-Fenced_example : Fenced 4 led_by_a (run takeover led_by_a)
run-Fenced_example = run-Fenced takeover led_by_a (omega arith)

run_deposes_example : validate 20 (ascii "a") 0 (run takeover led_by_a) ≡ err not_leader
run_deposes_example = run_deposes takeover led_by_a 20 0 (ascii "a") (omega arith) (omega arith)

b_is_filled : is_empty (trim_space (ascii "b")) ≡ false
unfolding trim_space is_empty
b_is_filled = refl

b_is_not_a : trim_space (ascii "b") ≢ trim_space (ascii "a")
unfolding trim_space
b_is_not_a e = ground arith

campaign_excludes_example : campaign 109 (ascii "b") led_by_a ≡ (err not_leader, led_by_a)
campaign_excludes_example =
    campaign_excludes 109 1 (ascii "a") (ascii "b") led_by_a validate_a b_is_filled b_is_not_a
