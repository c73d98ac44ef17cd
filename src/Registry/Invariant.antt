-- ===== src/Registry/Invariant.antt =====
-- The registry holds one registration a node, under the node's own ID.
use private_mesh.Prelude.{
  ℕ, ◌≡◌, refl, Bool-cases, inl, inr, List, [], ◌∷◌, Option, none, some, if◌then◌else◌, arith,
  Result, ok, err, ◌∙◌, sym, ap,
}
use private_mesh.Text.{Text, text_eq, trim_space, is_empty}
use private_mesh.Text.Equality.{text_eq_sound}
use private_mesh.Text.Maps.{Map, find, put, remove}
use private_mesh.Text.Maps.Finding.{Unique, find-put, find-remove, put-Unique, remove-Unique}
use private_mesh.Registry.{
  Node, Registration, Registry, Event, step, run, registers, heartbeats, deregisters, sweeps,
  register, heartbeat, deregister, admit, extend, release, normalized, remove_expired, no_lease_id,
  node_not_found, Lease, Error,
}
use private_mesh.Registry.Active.{live, find-unexpired, unexpired-Unique}

abbrev pub Keyed : Map Registration → Type 0
Keyed nodes = (id : Text) (c : Registration) → find id nodes ≡ some c → c.node.id ≡ id

pub record IsWellFormed (r : Registry) : Type 0 where
  pub unique : Unique r.nodes
  pub keyed : Keyed r.nodes

-- What a call leaves behind is well-formed.
abbrev KeepsIt : {A : Type 0} → Result Error A × Registry → Type 0
KeepsIt outcome = IsWellFormed outcome.1

replaced-Keyed :
    (key id : Text) (before after : Option Registration) (c : Registration)
    → ((d : Registration) → after ≡ some d → d.node.id ≡ key)
    → ((d : Registration) → before ≡ some d → d.node.id ≡ id)
    → (if text_eq key id then after else before) ≡ some c
    → c.node.id ≡ id
replaced-Keyed key id before after c new old found = elim (Bool-cases (text_eq key id)) [
  | inl t ↦ new c (rw t at found) ∙ text_eq_sound key id t
  | inr f ↦ old c (rw f at found)
]

put-Keyed :
    (key : Text) (c : Registration) (nodes : Map Registration)
    → c.node.id ≡ key
    → Keyed nodes
    → Keyed (put key c nodes)
put-Keyed key c nodes own keyed id d found =
    replaced-Keyed key id (find id nodes) (some c) d
      (λ x e.
        sym (ap (λ (o : Option Registration). elim o [ some y ↦ y.node.id | none ↦ key ]) e) ∙ own)
      (keyed id) (sym (find-put key id c nodes) ∙ found)

remove-Keyed : (key : Text) (nodes : Map Registration) → Keyed nodes → Keyed (remove key nodes)
remove-Keyed key nodes keyed id d found =
    replaced-Keyed key id (find id nodes) none d (λ x e. ground arith) (keyed id)
      (sym (find-remove key id nodes) ∙ found)

pub live-some :
    (now : ℕ) (c : Option Registration) (d : Registration) → live now c ≡ some d → c ≡ some d
unfolding live
live-some now none d h = h
live-some now (some c) d h = ground arith

pub remove_expired-IsWellFormed :
    (now : ℕ) (r : Registry) → IsWellFormed r → IsWellFormed (remove_expired now r)
unfolding remove_expired
remove_expired-IsWellFormed now r w = record {
  unique = unexpired-Unique now r.nodes w.unique;
  keyed = λ id c found.
      w.keyed id c
        (live-some now (find id r.nodes) c (sym (find-unexpired now id r.nodes w.unique) ∙ found));
}

put-IsWellFormed :
    (revision : ℕ) (key : Text) (c : Registration) (r : Registry)
    → c.node.id ≡ key
    → IsWellFormed r
    → IsWellFormed (record r { revision = revision; nodes = put key c r.nodes })
put-IsWellFormed revision key c r own w = record {
  unique = put-Unique key c r.nodes w.unique;
  keyed = put-Keyed key c r.nodes own w.keyed;
}

register-IsWellFormed :
    (now : ℕ) (lease_id : Option Text) (n : Node) (r : Registry)
    → IsWellFormed r
    → IsWellFormed (register now lease_id n r).1
unfolding register admit
register-IsWellFormed now lease_id n r w = elim (Bool-cases (is_empty (trim_space n.id))) [
  | inl t ↦ rw t w
  | inr f ↦ rw f (elim (Bool-cases (is_empty (trim_space n.address))) [
    | inl t ↦ rw t w
    | inr g ↦ rw g (admitted lease_id)
  ])
]
  where
    admitted :
        (o : Option Text)
        → KeepsIt {A = Lease} (elim o [
          | none ↦ (err no_lease_id, r)
          | some id ↦ (let (lease, r') = admit now id (normalized n) r in (ok lease, r'))
        ])
    admitted none = w
    admitted (some id) =
        put-IsWellFormed _ (trim_space n.id) _ (remove_expired now r) refl
          (remove_expired-IsWellFormed now r w)

extend-IsWellFormed :
    (now offset : ℕ) (lease_id : Text) (c : Registration) (r : Registry)
    → IsWellFormed r
    → IsWellFormed (extend now lease_id offset c r).1
unfolding extend
extend-IsWellFormed now offset lease_id c r w =
    elim (Bool-cases (text_eq c.lease_id (trim_space lease_id))) [
      | inl t ↦ rw t (put-IsWellFormed r.revision c.node.id _ r refl w)
      | inr f ↦ rw f w
    ]

heartbeat-IsWellFormed :
    (now offset : ℕ) (node_id lease_id : Text) (r : Registry)
    → IsWellFormed r
    → IsWellFormed (heartbeat now node_id lease_id offset r).1
unfolding heartbeat
heartbeat-IsWellFormed now offset node_id lease_id r w =
    found (find (trim_space node_id) (remove_expired now r).nodes)
  where
    found :
        (o : Option Registration)
        → KeepsIt {A = Lease} (elim o [
          | none ↦ (err node_not_found, remove_expired now r)
          | some c ↦ extend now lease_id offset c (remove_expired now r)
        ])
    found none = remove_expired-IsWellFormed now r w
    found (some c) =
        extend-IsWellFormed now offset lease_id c (remove_expired now r)
          (remove_expired-IsWellFormed now r w)

release-IsWellFormed :
    (node_id lease_id : Text) (c : Registration) (r : Registry)
    → IsWellFormed r
    → IsWellFormed (release node_id lease_id c r).1
unfolding release
release-IsWellFormed node_id lease_id c r w =
    elim (Bool-cases (text_eq c.lease_id (trim_space lease_id))) [
      | inl t ↦ rw t (record {
        unique = remove-Unique node_id r.nodes w.unique;
        keyed = remove-Keyed node_id r.nodes w.keyed;
      })
      | inr f ↦ rw f w
    ]

deregister-IsWellFormed :
    (now : ℕ) (node_id lease_id : Text) (r : Registry)
    → IsWellFormed r
    → IsWellFormed (deregister now node_id lease_id r).1
unfolding deregister
deregister-IsWellFormed now node_id lease_id r w =
    found (find (trim_space node_id) (remove_expired now r).nodes)
  where
    found :
        (o : Option Registration)
        → KeepsIt {A = Unit {0}} (elim o [
          | none ↦ (err node_not_found, remove_expired now r)
          | some c ↦ release (trim_space node_id) lease_id c (remove_expired now r)
        ])
    found none = remove_expired-IsWellFormed now r w
    found (some c) =
        release-IsWellFormed (trim_space node_id) lease_id c (remove_expired now r)
          (remove_expired-IsWellFormed now r w)

-- Over any calls at any clock readings the registry keeps one registration a node at most, each
-- stored under the ID of its node.
pub run-IsWellFormed : (evs : List Event) (r : Registry) → IsWellFormed r → IsWellFormed (run evs r)
unfolding run step
run-IsWellFormed [] r w = w
run-IsWellFormed (registers now lease_id n ∷ evs) r w =
    run-IsWellFormed evs _ (register-IsWellFormed now lease_id n r w)
run-IsWellFormed (heartbeats now node_id lease_id offset ∷ evs) r w =
    run-IsWellFormed evs _ (heartbeat-IsWellFormed now offset node_id lease_id r w)
run-IsWellFormed (deregisters now node_id lease_id ∷ evs) r w =
    run-IsWellFormed evs _ (deregister-IsWellFormed now node_id lease_id r w)
run-IsWellFormed (sweeps now ∷ evs) r w =
    run-IsWellFormed evs _ (remove_expired-IsWellFormed now r w)
