-- ===== src/Registry/Active.antt =====
-- The registrations that are active at a clock reading, and how sweeping the expired ones keeps
-- them.
use private_mesh.Prelude.{
  ℕ, ◌≤◌, ◌≡◌, refl, Bool-cases, inl, inr, [], ◌∷◌, Option, none, some, if◌then◌else◌, arith, ltb,
  ap, sym, ◌∙◌,
}
use private_mesh.Text.{Text, text_eq}
use private_mesh.Text.Equality.{text_eq_sound}
use private_mesh.Text.Maps.{Map, find}
use private_mesh.Text.Maps.Finding.{Unique}
use private_mesh.Registry.{Registration, Registry, unexpired, remove_expired}

-- A registration that has not expired at `now`.
unfoldable pub live : ℕ → Option Registration → Option Registration
live now none = none
live now (some c) = if ltb now c.expires_at then some c else none

-- The registration of a node that a client can count on at `now`.
unfoldable pub active : ℕ → Text → Registry → Option Registration
unfolding live
active now id r = live now (find id r.nodes)

pub find-unexpired-none :
    (now : ℕ) (id : Text) (nodes : Map Registration)
    → find id nodes ≡ none
    → find id (unexpired now nodes) ≡ none
unfolding find unexpired
find-unexpired-none now id [] h = refl
find-unexpired-none now id ((k, c) ∷ nodes) h = elim (Bool-cases (text_eq k id)) [
  | inl t ↦ ground (arith, h)
  | inr f ↦ ground (arith, find-unexpired-none now id nodes)
]

pub find-unexpired :
    (now : ℕ) (id : Text) (nodes : Map Registration)
    → Unique nodes
    → find id (unexpired now nodes) ≡ live now (find id nodes)
unfolding find unexpired live Unique
find-unexpired now id [] u = refl
find-unexpired now id ((k, c) ∷ nodes) u = elim (Bool-cases (text_eq k id)) [
  | inl t ↦ ground (
    arith,
    find-unexpired-none now id nodes
        (ap (λ (key : Text). find key nodes) (sym (text_eq_sound k id t)) ∙ u.0),
  )
  | inr f ↦ ground (arith, find-unexpired now id nodes u.1)
]

pub unexpired-Unique :
    (now : ℕ) (nodes : Map Registration) → Unique nodes → Unique (unexpired now nodes)
unfolding Unique unexpired
unexpired-Unique now [] u = tt
unexpired-Unique now ((k, c) ∷ nodes) u = elim (Bool-cases (ltb now c.expires_at)) [
  | inl t ↦ rw t (find-unexpired-none now k nodes u.0, unexpired-Unique now nodes u.1)
  | inr f ↦ rw f (unexpired-Unique now nodes u.1)
]

pub live-live :
    (now later : ℕ) (c : Option Registration) → now ≤ later → live later (live now c) ≡ live later c
unfolding live
live-live now later none h = refl
live-live now later (some c) h = ground arith

-- A sweep takes nothing that is active then or later.
pub active-remove_expired :
    (now later : ℕ) (id : Text) (r : Registry)
    → Unique r.nodes
    → now ≤ later
    → active later id (remove_expired now r) ≡ active later id r
unfolding active remove_expired
active-remove_expired now later id r u h =
    rw (find-unexpired now id r.nodes u) (live-live now later (find id r.nodes) h)
