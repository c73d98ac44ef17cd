-- ===== src/Registry/Owners.antt =====
-- The nodes that `Nodes` answers are active, and each is found by its ID among them.
use private_mesh.Prelude.{
  ℕ, ◌≡◌, ◌⊎◌, refl, sym, ap, ◌∙◌, true, List, [], ◌∷◌, none, some, Bool-cases, inl, inr,
}
use private_mesh.Text.{Text, text_eq}
use private_mesh.Text.Equality.{text_eq_sound, text_eq_refl}
use private_mesh.Text.Sets.{string_set}
use private_mesh.Text.Maps.{Map, find}
use private_mesh.Text.Maps.Finding.{Unique}
use private_mesh.Registry.{
  Node, Registration, Registry, nodes, selected, is_requested, insert_node, sort_nodes,
  remove_expired, unexpired, text_lt,
}
use private_mesh.Registry.Active.{active, live, find-unexpired, unexpired-Unique}
use private_mesh.Registry.Invariant.{IsWellFormed, live-some}
use private_mesh.Registry.Listing.{Listed}

Listed-insert_node :
    (y n : Node) (ns : List Node) → Listed y (insert_node n ns) → (y ≡ n) ⊎ Listed y ns
unfolding insert_node Listed
Listed-insert_node y n [] h = h
Listed-insert_node y n (m ∷ ns) h = elim (Bool-cases (text_lt m.id n.id)) [
  | inr f ↦ rw f at h
  | inl t ↦ elim (rw t at h) [
    | inl e ↦ inr (inl e)
    | inr l ↦ elim (Listed-insert_node y n ns l) [ inl e ↦ inl e | inr l' ↦ inr (inr l') ]
  ]
]

sort_nodes-Listed : (y : Node) (ns : List Node) → Listed y (sort_nodes ns) → Listed y ns
unfolding sort_nodes Listed
sort_nodes-Listed y [] h = h
sort_nodes-Listed y (n ∷ ns) h = elim (Listed-insert_node y n (sort_nodes ns) h) [
  | inl e ↦ inl e
  | inr l ↦ inr (sort_nodes-Listed y ns l)
]

find_behind :
    (k id : Text) (d c : Registration) (ns : Map Registration)
    → find k ns ≡ none
    → find id ns ≡ some c
    → find id ((k, d) ∷ ns) ≡ some c
unfolding find
find_behind k id d c ns free found = elim (Bool-cases (text_eq k id)) [
  | inl same ↦ absurd (cc (ap (λ key. find key ns) (text_eq_sound k id same), free, found))
  | inr differs ↦ rw differs found
]

-- A node that is selected is that of an entry.
selected-Listed :
    (requested : List Text) (y : Node) (ns : Map Registration)
    → Unique ns
    → Listed y (selected requested ns)
    → (id : Text) × (c : Registration) × (find id ns ≡ some c)
      × (c.node ≡ y)
      × (is_requested requested y ≡ true)
unfolding selected find Listed Unique
selected-Listed requested y [] u h = absurd h
selected-Listed requested y ((k, d) ∷ ns) u h = elim (Bool-cases (is_requested requested d.node)) [
  | inl t ↦ elim (rw t at h) [
    | inl e ↦ (k, d, rw (text_eq_refl k) refl, sym e, rw e t)
    | inr l ↦
        (let (id, c, found, same, h') = selected-Listed requested y ns u.1 l in
          (id, c, find_behind k id d c ns u.0 found, same, h'))
  ]
  | inr f ↦
      (let (id, c, found, same, h') = selected-Listed requested y ns u.1 (rw f at h) in
        (id, c, find_behind k id d c ns u.0 found, same, h'))
]

-- A node that `Nodes` answers is active under its ID and owns one of the requested collections, if
-- any is requested.
pub nodes-active :
    (now : ℕ) (collection_ids : List Text) (y : Node) (r : Registry)
    → IsWellFormed r
    → Listed y (nodes now collection_ids r).0
    → (c : Registration) × (active now y.id r ≡ some c)
      × (c.node ≡ y)
      × (is_requested (string_set collection_ids) y ≡ true)
unfolding nodes remove_expired active
nodes-active now collection_ids y r w l =
    let (id, c, found, same, h) =
      selected-Listed (string_set collection_ids) y (unexpired now r.nodes)
        (unexpired-Unique now r.nodes w.unique)
        (sort_nodes-Listed y (selected (string_set collection_ids) (unexpired now r.nodes)) l) in
    let alive = sym (find-unexpired now id r.nodes w.unique) ∙ found in
    let own : y.id ≡ id =
      ap (λ (n : Node). n.id) (sym same) ∙ w.keyed id c (live-some now (find id r.nodes) c alive) in
    (c, ap (λ key. live now (find key r.nodes)) own ∙ alive, same, h)

-- Among them, the one of an active node's ID is this node.
pub nodes-alone :
    (now : ℕ) (collection_ids : List Text) (id : Text) (c : Registration) (y : Node) (r : Registry)
    → IsWellFormed r
    → active now id r ≡ some c
    → Listed y (nodes now collection_ids r).0
    → y.id ≡ c.node.id
    → y ≡ c.node
unfolding active
nodes-alone now collection_ids id c y r w found l e =
    let (c', alive, same, h) = nodes-active now collection_ids y r w l in
    let own : c.node.id ≡ id = w.keyed id c (live-some now (find id r.nodes) c found) in
    let both : some c' ≡ some c =
      sym alive ∙ ap (λ key. live now (find key r.nodes)) (e ∙ own) ∙ found in
    let equal : c' ≡ c = cc both in sym same ∙ ap (λ (x : Registration). x.node) equal
