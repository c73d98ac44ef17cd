-- ===== src/Registry/Listing.antt =====
-- What `Nodes` answers.
use private_mesh.Prelude.{
  ℕ, ◌≡◌, ◌⊎◌, refl, sym, ap, ◌∙◌, true, false, Bool-cases, inl, inr, List, [], ◌∷◌, Option, none,
  some, arith,
}
use private_mesh.Text.{Text, text_eq, text_lt}
use private_mesh.Text.Sets.{string_set}
use private_mesh.Text.Maps.{Map, find}
use private_mesh.Text.Maps.Finding.{Unique}
use private_mesh.Registry.{
  Node, Registration, Registry, nodes, selected, is_requested, insert_node, sort_nodes,
  remove_expired, unexpired,
}
use private_mesh.Registry.Active.{active, find-unexpired}

text_lt_asym : (s t : Text) → text_lt s t ≡ true → text_lt t s ≡ false
unfolding text_lt
text_lt_asym [] [] h = ground arith
text_lt_asym [] (b ∷ t) h = refl
text_lt_asym (a ∷ s) [] h = ground arith
text_lt_asym (a ∷ s) (b ∷ t) h = ground (arith, text_lt_asym s t)

-- No node has a smaller ID than the one before it.
unfoldable pub IsAscending : List Node → Type 0
IsAscending [] = Unit {0}
IsAscending (n ∷ []) = Unit {0}
IsAscending (n ∷ m ∷ ns) = (text_lt m.id n.id ≡ false) × IsAscending (m ∷ ns)

unfoldable pub Listed : Node → List Node → Type 0
Listed n [] = ⊥
Listed n (m ∷ ns) = (n ≡ m) ⊎ Listed n ns

insert-IsAscending : (n : Node) (ns : List Node) → IsAscending ns → IsAscending (insert_node n ns)
unfolding insert_node IsAscending
insert-IsAscending n [] u = tt
insert-IsAscending n (m ∷ []) u = elim (Bool-cases (text_lt m.id n.id)) [
  | inl t ↦ rw t (text_lt_asym m.id n.id t, tt)
  | inr f ↦ rw f (f, tt)
]
insert-IsAscending n (m ∷ k ∷ ns) u = elim (Bool-cases (text_lt m.id n.id)) [
  | inr f ↦ rw f (f, u)
  | inl t ↦ rw t (elim (Bool-cases (text_lt k.id n.id)) [
    | inl t' ↦ rw t' (u.0, rw t' at (insert-IsAscending n (k ∷ ns) u.1))
    | inr f' ↦ rw f' (text_lt_asym m.id n.id t, (f', u.1))
  ])
]

sort_nodes-IsAscending : (ns : List Node) → IsAscending (sort_nodes ns)
unfolding sort_nodes IsAscending
sort_nodes-IsAscending [] = tt
sort_nodes-IsAscending (n ∷ ns) = insert-IsAscending n (sort_nodes ns) (sort_nodes-IsAscending ns)

Listed-insert : (x n : Node) (ns : List Node) → (x ≡ n) ⊎ Listed x ns → Listed x (insert_node n ns)
unfolding insert_node Listed
Listed-insert x n [] h = h
Listed-insert x n (m ∷ ns) h = elim (Bool-cases (text_lt m.id n.id)) [
  | inr f ↦ rw f h
  | inl t ↦ rw t (elim h [
    | inl e ↦ inr (Listed-insert x n ns (inl e))
    | inr (inl e) ↦ inl e
    | inr (inr l) ↦ inr (Listed-insert x n ns (inr l))
  ])
]

Listed-sort_nodes : (x : Node) (ns : List Node) → Listed x ns → Listed x (sort_nodes ns)
unfolding sort_nodes Listed
Listed-sort_nodes x [] h = h
Listed-sort_nodes x (n ∷ ns) (inl e) = Listed-insert x n (sort_nodes ns) (inl e)
Listed-sort_nodes x (n ∷ ns) (inr l) =
    Listed-insert x n (sort_nodes ns) (inr (Listed-sort_nodes x ns l))

Listed-selected :
    (requested : List Text) (id : Text) (c : Registration) (ns : Map Registration)
    → find id ns ≡ some c
    → is_requested requested c.node ≡ true
    → Listed c.node (selected requested ns)
unfolding selected find Listed
Listed-selected requested id c [] found h = ground arith
Listed-selected requested id c ((k, d) ∷ ns) found h = elim (Bool-cases (text_eq k id)) [
  | inl t ↦
      let same =
        ap (λ (o : Option Registration). elim o [ some y ↦ y.node | none ↦ c.node ])
          (rw t at found) in
      rw (ap (is_requested requested) same ∙ h) (inl (sym same))
  | inr f ↦ elim (Bool-cases (is_requested requested d.node)) [
    | inl t ↦ rw t (inr (Listed-selected requested id c ns (rw f at found) h))
    | inr g ↦ rw g (Listed-selected requested id c ns (rw f at found) h)
  ]
]

-- `Nodes` answers its nodes by ascending IDs, and among them every active node that owns one of the
-- requested collections, or every active node where none is requested.
pub nodes-Listed :
    (now : ℕ) (collection_ids : List Text) (id : Text) (c : Registration) (r : Registry)
    → Unique r.nodes
    → active now id r ≡ some c
    → is_requested (string_set collection_ids) c.node ≡ true
    → IsAscending (nodes now collection_ids r).0 × Listed c.node (nodes now collection_ids r).0
unfolding nodes remove_expired active
nodes-Listed now collection_ids id c r u found h = (
  sort_nodes-IsAscending _,
  Listed-sort_nodes c.node _ (
      Listed-selected (string_set collection_ids) id c (unexpired now r.nodes)
        (find-unexpired now id r.nodes u ∙ found) h),
)
