-- ===== src/Coordinator/Covers.antt =====
-- What a reply says of the shards of the active nodes.
use private_mesh.Prelude.{ℕ, ◌≤◌, ◌≡◌, ◌∙◌, true, List, [], length, some, inl, arith}
use private_mesh.Text.{Text}
use private_mesh.Text.Sets.{string_set, contains}
use private_mesh.Text.Maps.{find}
use private_mesh.Registry.{Node, Registration, Registry, nodes, is_requested, remove_expired}
use private_mesh.Registry.Active.{active, active-remove_expired}
use private_mesh.Registry.Invariant.{IsWellFormed, remove_expired-IsWellFormed}
use private_mesh.Registry.Listing.{nodes-Listed}
use private_mesh.Registry.Owners.{nodes-alone}
use private_mesh.Distributed.Merge.{Update}
use private_mesh.Distributed.Execute.{Query, Event, limit_of, pending_from}
use private_mesh.Distributed.Coverage.{IsCovered, is_served}
use private_mesh.Distributed.Answers.{Reports}
use private_mesh.Coordinator.{SearchResponse}
use private_mesh.Coordinator.Handlers.{search_reply}
use private_mesh.Coordinator.Prepared.{pending_from-find}

module _ {Score : Type 0} (events : List (Event Score)) (later at : ℕ) (r : Registry) where
  -- What a reply says of the shards of the nodes that are active when the executor asks the
  -- registry.
  pub record Covers (requested : List Text) (reply : SearchResponse Score) : Type 0 where
    pub all_active :
        (id : Text) (c : Registration)
        → active at id r ≡ some c
        → is_requested (string_set requested) c.node ≡ true
        → IsCovered requested reply.searched_shard_ids reply.unavailable_shard_ids c.node
    pub only_served :
        (shard : Text)
        → contains shard reply.searched_shard_ids ≡ true
        → is_served requested shard events ≡ true
    pub bounded : length reply.results ≤ 100

  -- The nodes that are asked, by the registry that the first call of `Nodes` leaves.
  abbrev pub asked : List Text → List Text → List Node
  asked ids requested = (nodes at requested (nodes later ids r).1).0

  asked-find :
      (ids requested : List Text) (id : Text) (c : Registration)
      → IsWellFormed r
      → later ≤ at
      → active at id r ≡ some c
      → is_requested (string_set requested) c.node ≡ true
      → find c.node.id (pending_from (asked ids requested) []) ≡ some c.node
  unfolding nodes
  asked-find ids requested id c w le found owns =
      let swept = remove_expired later r in
      let w' = remove_expired-IsWellFormed later r w in
      let found' = active-remove_expired later at id r w.unique le ∙ found in
      pending_from-find c.node (nodes at requested swept).0 []
        (λ y l e. nodes-alone at requested id c y swept w' found' l e)
        (inl (nodes-Listed at requested id c swept w'.unique found' owns).1)

  pub reply-Covers :
      (ids : List Text) (mode : Text) (q : Query) (u : Update Score)
      → IsWellFormed r
      → later ≤ at
      → limit_of q.limit ≤ 100
      → Reports events q (pending_from (asked ids q.collection_ids) []) u
      → Covers q.collection_ids (search_reply mode u)
  reply-Covers ids mode q u w le limited (covered, only, bound) = record {
    all_active = λ id c found owns.
        covered c.node.id c.node (asked-find ids q.collection_ids id c w le found owns);
    only_served = only;
    bounded = omega (arith, bound, limited);
  }
