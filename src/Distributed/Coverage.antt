-- ===== src/Distributed/Coverage.antt =====
-- Every shard that is asked is accounted for.
use private_mesh.Prelude.{
  ℕ, ◌+◌, ◌≡◌, ◌⊎◌, refl, ap, Bool, true, false, ◌||◌, List, [], ◌∷◌, Option, none, some,
  Bool-cases, inl, inr, arith,
}
use private_mesh.Text.{Text, text_eq}
use private_mesh.Text.Sets.{contains, insert}
use private_mesh.Text.Maps.{Map, find}
use private_mesh.Text.Terms.{insert_all}
use private_mesh.Text.Terms.Counting.{contains-insert_all}
use private_mesh.Registry.{Node}
use private_mesh.Distributed.Merge.{
  Ranks, Hit, MergeState, mark_unavailable, merge, merge_hits, add_hit, shard_ids, from_node,
  hit_key,
}
use private_mesh.Distributed.Execute.{Query, Event, responds, ends, absorb, mark_all}

-- Every shard of the node is searched or unavailable.
abbrev pub IsCovered : List Text → List Text → List Text → Node → Type 0
IsCovered requested searched unavailable node =
    (shard : Text)
    → contains shard (shard_ids node requested) ≡ true
    → (contains shard searched || contains shard unavailable) ≡ true

-- Whether a node has answered with hits for the shard.
unfoldable pub is_served : {Score : Type 0} → List Text → Text → List (Event Score) → Bool
is_served requested shard [] = false
is_served requested shard (responds node (some hits) ∷ events) =
    contains shard (shard_ids node requested) || is_served requested shard events
is_served requested shard (responds node none ∷ events) = is_served requested shard events
is_served requested shard (ends ∷ events) = is_served requested shard events

module _ {Score : Type 0} (ranks : Ranks Score) where
  pub merge_hits-shards :
      (node_id : Text) (position : ℕ) (seen : List Text) (hits : List (Hit Score))
      (s : MergeState Score)
      → ((merge_hits ranks node_id position seen hits s).searched ≡ s.searched)
        × ((merge_hits ranks node_id position seen hits s).unavailable ≡ s.unavailable)
  unfolding merge_hits add_hit
  merge_hits-shards node_id position seen [] s = (refl, refl)
  merge_hits-shards node_id position seen (hit ∷ hits) s = ground (
    arith,
    merge_hits-shards node_id (position + 1) seen hits s,
    merge_hits-shards node_id (position + 1) (insert (hit_key hit) seen) hits
        (add_hit ranks (hit_key hit) position (from_node node_id hit) s),
  )

module _ {Score : Type 0} (ranks : Ranks Score) (q : Query) where
  -- What an answer adds to the two sets.
  pub absorb-searched :
      (shard : Text) (node : Node) (hits : List (Hit Score)) (s : MergeState Score)
      → (contains shard (absorb ranks q node (some hits) s).searched
          ≡ (contains shard (shard_ids node q.collection_ids) || contains shard s.searched))
        × ((absorb ranks q node (some hits) s).unavailable ≡ s.unavailable)
  unfolding absorb merge
  absorb-searched shard node hits s = ground (
    arith,
    merge_hits-shards ranks node.id 0 [] hits
        (record s { searched = insert_all (shard_ids node q.collection_ids) s.searched }),
    contains-insert_all shard (shard_ids node q.collection_ids) s.searched,
  )

  pub absorb-unavailable :
      (shard : Text) (node : Node) (s : MergeState Score)
      → (contains shard (absorb ranks q node none s).unavailable
          ≡ (contains shard (shard_ids node q.collection_ids) || contains shard s.unavailable))
        × ((absorb ranks q node none s).searched ≡ s.searched)
  unfolding absorb mark_unavailable
  absorb-unavailable shard node s =
      (contains-insert_all shard (shard_ids node q.collection_ids) s.unavailable, refl)

  -- The first part: what was accounted for stays so, and the node that answers is.
  pub absorb-IsCovered :
      (node other : Node) (answer : Option (List (Hit Score))) (s : MergeState Score)
      → ((node ≡ other) ⊎ IsCovered q.collection_ids s.searched s.unavailable other)
      → IsCovered q.collection_ids
          (absorb ranks q node answer s).searched
          (absorb ranks q node answer s).unavailable
          other
  absorb-IsCovered node other none s (inl same) shard h = ground (
    arith,
    absorb-unavailable shard node s,
    ap (λ n. contains shard (shard_ids n q.collection_ids)) same,
    h,
  )
  absorb-IsCovered node other none s (inr covered) shard h =
      ground (arith, absorb-unavailable shard node s, covered shard h)
  absorb-IsCovered node other (some hits) s (inl same) shard h = ground (
    arith,
    absorb-searched shard node hits s,
    ap (λ n. contains shard (shard_ids n q.collection_ids)) same,
    h,
  )
  absorb-IsCovered node other (some hits) s (inr covered) shard h =
      ground (arith, absorb-searched shard node hits s, covered shard h)

  pub mark_all-IsCovered :
      (pending : Map Node) (other : Node) (s : MergeState Score)
      → IsCovered q.collection_ids s.searched s.unavailable other
      → IsCovered q.collection_ids
          (mark_all pending q.collection_ids s).searched
          (mark_all pending q.collection_ids s).unavailable
          other
  unfolding mark_all mark_unavailable
  mark_all-IsCovered [] other s covered = covered
  mark_all-IsCovered ((id, node) ∷ pending) other s covered =
      mark_all-IsCovered pending other (mark_unavailable node q.collection_ids s) λ shard h.
        ground (
          arith,
          contains-insert_all shard (shard_ids node q.collection_ids) s.unavailable,
          covered shard h,
        )

  pub mark_all-searched :
      (pending : Map Node) (s : MergeState Score)
      → (mark_all pending q.collection_ids s).searched ≡ s.searched
  unfolding mark_all mark_unavailable
  mark_all-searched [] s = refl
  mark_all-searched ((id, node) ∷ pending) s =
      mark_all-searched pending (mark_unavailable node q.collection_ids s)

  -- At the end of the context the nodes that are pending are accounted for as well.
  pub mark_all-found :
      (id : Text) (node : Node) (pending : Map Node) (s : MergeState Score)
      → find id pending ≡ some node
      → IsCovered q.collection_ids
          (mark_all pending q.collection_ids s).searched
          (mark_all pending q.collection_ids s).unavailable
          node
  unfolding mark_all mark_unavailable find
  mark_all-found id node [] s h = absurd (cc h)
  mark_all-found id node ((k, n) ∷ pending) s h = elim (Bool-cases (text_eq k id)) [
    | inl same ↦ mark_all-IsCovered pending node (mark_unavailable n q.collection_ids s) λ shard g.
        ground
          (arith, contains-insert_all shard (shard_ids n q.collection_ids) s.unavailable, h, same)
    | inr differs ↦
        mark_all-found id node pending (mark_unavailable n q.collection_ids s)
          (ground (arith, h, differs))
  ]
