-- ===== src/Election/Fencing.antt =====
-- A term belongs to one node: what any run of `Campaign` and `Renew` keeps.
use private_mesh.Prelude.{ℕ, ◌+◌, ◌^◌, ◌≤◌, ◌<◌, ◌≡◌, ◌∙◌, refl, List, [], ◌∷◌, length, err, arith}
use private_mesh.Text.{Text, trim_space}
use private_mesh.Text.Equality.{text_eq_iff}
use private_mesh.Election.{Election, Event, campaigns, renews, step, run, validate, not_leader}

-- From `e` to `e'` the term grew by `n` at most, and it is another node's only if it grew.
pub record Fenced (n : ℕ) (e e' : Election) : Type 0 where
  pub grows : e.current.term ≤ e'.current.term
  pub bounded : e'.current.term ≤ e.current.term + n
  pub same_node : e.current.term ≡ e'.current.term → e.current.node_id ≡ e'.current.node_id

step-Fenced : (ev : Event) (e : Election) → e.current.term + 1 < 2 ^ 64 → Fenced 1 e (step ev e)
unfolding step
step-Fenced (campaigns now n) e h = ground (arith, text_eq_iff e.current.node_id (trim_space n))
step-Fenced (renews now n t) e h = ground arith

Fenced-trans : (n m : ℕ) {a b c : Election} → Fenced n a b → Fenced m b c → Fenced (n + m) a c
Fenced-trans n m {a} {b} {c} p q = record {
  grows = omega arith;
  bounded = omega arith;
  same_node = λ e. p.same_node (omega arith) ∙ q.same_node (omega arith);
}

-- Over any calls, from any nodes and at any clock readings, the term never falls, grows by one a
-- call at most, and while it is the same it belongs to the same node; as long as the term does
-- not wrap at 64 bits.
pub run-Fenced :
    (evs : List Event) (e : Election)
    → e.current.term + length evs < 2 ^ 64
    → Fenced (length evs) e (run evs e)
unfolding run
run-Fenced [] e h = record { grows = omega arith; bounded = omega arith; same_node = λ _. refl }
run-Fenced (ev ∷ evs) e h =
    let first : Fenced 1 e (step ev e) = step-Fenced ev e (omega arith) in
    let rest = run-Fenced evs (step ev e) (omega arith) in
    let both = Fenced-trans 1 (length evs) first rest in
    record { grows = both.grows; bounded = omega arith; same_node = both.same_node }

-- Once the term has passed `t`, no call that follows lets any node write again under term `t`:
-- `Validate` answers `ErrNotLeader` at every clock reading; as long as the term does not wrap.
pub run_deposes :
    (evs : List Event) (e : Election) (now t : ℕ) (node_id : Text)
    → t < e.current.term
    → e.current.term + length evs < 2 ^ 64
    → validate now node_id t (run evs e) ≡ err not_leader
unfolding validate
run_deposes evs e now t node_id h fits = ground (arith, run-Fenced evs e fits)
