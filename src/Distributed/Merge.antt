-- ===== src/Distributed/Merge.antt =====
-- `mergeState` and its methods. Scores are floating-point numbers: their type and the operations on
-- them are the parameter `Ranks`.
use private_mesh.Prelude.{
  ℕ, ◌+◌, Bool, true, false, not, ◌||◌, List, [], ◌∷◌, ◌++◌, take, if◌then◌else◌, Option, none,
  some,
}
use private_mesh.Text.{Text, text_eq, text_lt, trim_space, is_empty}
use private_mesh.Text.Sets.{insert, contains}
use private_mesh.Text.Maps.{Map, find, put}
use private_mesh.Text.Terms.{insert_all}
use private_mesh.Registry.{Node}

-- `add_rank s k` is `s + 1 / (60 + k)`.
pub record Ranks (Score : Type 0) : Type 0 where
  pub no_score : Score
  pub add_rank : Score → ℕ → Score
  pub same_score : Score → Score → Bool
  pub higher : Score → Score → Bool

pub record Hit (Score : Type 0) : Type 0 where
  pub document_id : Text
  pub collection_id : Text
  pub node_id : Text
  pub title : Text
  pub snippet : Text
  pub score : Score
  pub rank : ℕ

pub record Update (Score : Type 0) : Type 0 where
  pub request_id : Text
  pub results : List (Hit Score)
  pub searched_shard_ids : List Text
  pub unavailable_shard_ids : List Text
  pub complete : Bool

-- Both sets of shards are the ascending lists of their elements.
pub record MergeState (Score : Type 0) : Type 0 where
  pub hits : Map (Hit Score)
  pub scores : Map Score
  pub searched : List Text
  pub unavailable : List Text

-- `sort.Strings`
unfoldable pub insert_text : Text → List Text → List Text
insert_text a [] = a ∷ []
insert_text a (b ∷ bs) = let rest = insert_text a bs in if text_lt b a then b ∷ rest else a ∷ b ∷ bs

unfoldable pub sort_texts : List Text → List Text
sort_texts [] = []
sort_texts (a ∷ more) = insert_text a (sort_texts more)

-- The first loop of `shardIDs`.
unfoldable pub requested_set : List Text → List Text
requested_set [] = []
requested_set (c ∷ collections) = insert (trim_space c) (requested_set collections)

unfoldable pub is_wanted : List Text → Text → Bool
is_wanted [] c = true
is_wanted (r ∷ requested) c = contains c (r ∷ requested)

abbrev pub colon : ℕ
colon = 58

unfoldable pub shards_of : Text → List Text → List Text → List Text
shards_of node_id requested [] = []
shards_of node_id requested (c ∷ collections) =
    let rest = shards_of node_id requested collections in
    if is_wanted requested c then (node_id ++ (colon ∷ c)) ∷ rest else rest

unfoldable pub or_whole : Text → List Text → List Text
or_whole node_id [] = node_id ∷ []
or_whole node_id (s ∷ shards) = s ∷ shards

unfoldable pub shard_ids : Node → List Text → List Text
shard_ids node requested =
    sort_texts (or_whole node.id (shards_of node.id (requested_set requested) node.collection_ids))

module _ {Score : Type 0} where
  abbrev pub no_hits : MergeState Score
  no_hits = record { hits = []; scores = []; searched = []; unavailable = [] }

  unfoldable pub mark_unavailable : Node → List Text → MergeState Score → MergeState Score
  mark_unavailable node requested s = record s {
    unavailable = insert_all (shard_ids node requested) s.unavailable;
  }

  unfoldable pub hit_key : Hit Score → Text
  hit_key hit = hit.collection_id ++ (0 ∷ hit.document_id)

  unfoldable pub from_node : Text → Hit Score → Hit Score
  from_node node_id hit = if is_empty hit.node_id then record hit { node_id = node_id } else hit

  -- `!exists || hit.NodeID < current.NodeID`
  unfoldable pub replaces : Hit Score → Option (Hit Score) → Bool
  replaces hit none = true
  replaces hit (some current) = text_lt hit.node_id current.node_id

module _ {Score : Type 0} (ranks : Ranks Score) where
  unfoldable pub score_of : Text → Map Score → Score
  score_of key scores = elim (find key scores) [ none ↦ ranks.no_score | some s ↦ s ]

  -- The end of the loop of `merge`, for a hit that is not skipped.
  unfoldable pub add_hit : Text → ℕ → Hit Score → MergeState Score → MergeState Score
  add_hit key position hit s = record s {
    hits = if replaces hit (find key s.hits) then put key hit s.hits else s.hits;
    scores = put key (ranks.add_rank (score_of key s.scores) (position + 1)) s.scores;
  }

  unfoldable pub merge_hits :
      Text → ℕ → List Text → List (Hit Score) → MergeState Score → MergeState Score
  merge_hits node_id position seen [] s = s
  merge_hits node_id position seen (hit ∷ hits) s =
      elim (is_empty hit.document_id || contains (hit_key hit) seen) [
        | true ↦ merge_hits node_id (position + 1) seen hits s
        | false ↦
            merge_hits node_id (position + 1) (insert (hit_key hit) seen) hits
              (add_hit (hit_key hit) position (from_node node_id hit) s)
      ]

  unfoldable pub merge : Node → List (Hit Score) → List Text → MergeState Score → MergeState Score
  merge node hits requested s =
      merge_hits node.id 0 [] hits
        (record s { searched = insert_all (shard_ids node requested) s.searched })

  unfoldable pub scored : Map (Hit Score) → Map Score → List (Hit Score)
  scored [] scores = []
  scored ((key, hit) ∷ hits) scores =
      record hit { score = score_of key scores } ∷ scored hits scores

  -- The order of sort.Slice in `update`.
  unfoldable pub ranks_before : Hit Score → Hit Score → Bool
  ranks_before a b =
      if not (ranks.same_score a.score b.score)
      then ranks.higher a.score b.score
      else if text_eq a.collection_id b.collection_id
      then text_lt a.document_id b.document_id
      else text_lt a.collection_id b.collection_id

  unfoldable pub insert_hit : Hit Score → List (Hit Score) → List (Hit Score)
  insert_hit a [] = a ∷ []
  insert_hit a (b ∷ bs) =
      let rest = insert_hit a bs in if ranks_before b a then b ∷ rest else a ∷ b ∷ bs

  unfoldable pub sort_hits : List (Hit Score) → List (Hit Score)
  sort_hits [] = []
  sort_hits (a ∷ more) = insert_hit a (sort_hits more)

  unfoldable pub ranked_from : ℕ → List (Hit Score) → List (Hit Score)
  ranked_from position [] = []
  ranked_from position (hit ∷ hits) =
      record hit { rank = position + 1 } ∷ ranked_from (position + 1) hits

  -- `update`, for a limit that is not negative.
  unfoldable pub update : Text → ℕ → Bool → MergeState Score → Update Score
  update request_id limit complete s = record {
    request_id = request_id;
    results = ranked_from 0 (take limit (sort_hits (scored s.hits s.scores)));
    searched_shard_ids = s.searched;
    unavailable_shard_ids = s.unavailable;
    complete = complete;
  }
