-- ===== src/Distributed/Tests.antt =====
-- A query to two nodes, of which one answers before the context ends.
use private_mesh.Prelude.{ℕ, ◌≡◌, refl, true, false, List, [], ◌∷◌, some, ok, err, ℤ, pos}
use private_mesh.Text.{Text, ascii, is_empty, trim_space, text_eq, text_lt}
use private_mesh.Text.Sets.{contains, insert, string_set}
use private_mesh.Text.Maps.{find, put, remove}
use private_mesh.Text.Terms.{has_key, insert_all}
use private_mesh.Registry.{Node}
use private_mesh.Distributed.Merge.{
  Hit, Update, update, ranked_from, merge, mark_unavailable, add_hit, from_node, hit_key,
  insert_hit, insert_text, is_wanted, merge_hits, or_whole, ranks_before, replaces, requested_set,
  score_of, scored, shard_ids, shards_of, sort_hits, sort_texts,
}
use private_mesh.Distributed.Execute.{
  Query, Event, responds, ends, limit_not_positive, execute, checked, is_positive, is_negative,
  limit_of, run, rounds, is_done, pending_from, absorb, mark_all,
}
use private_mesh.Distributed.Loop.{IsFinal, has_end, has_answer}
use private_mesh.Distributed.Sample.{ranks, node_a, node_b, hit}
use private_mesh.Distributed.Answers.{Reports, execute_completes}

abbrev catalog : List Text → List Node
catalog collections = node_a ∷ node_b ∷ []

abbrev query_for : ℤ → Query
query_for limit = record {
  request_id = ascii " r1";
  text = ascii "mesh ";
  mode = ascii "hybrid";
  limit = limit;
  collection_ids = ascii "docs" ∷ [];
  timeout = pos 0;
  principal = record { subject = ascii "u"; groups = []; scopes = [] };
}

abbrev sent : Query
sent = record (query_for (pos 5)) { request_id = ascii "r1"; text = ascii "mesh" }

abbrev events : List (Event ℕ)
events =
    responds node_a (some (hit (ascii "x") ∷ hit (ascii "y") ∷ hit (ascii "x") ∷ [])) ∷ ends ∷ []

abbrev asked : List Node
asked = node_a ∷ node_b ∷ []

abbrev found : Text → ℕ → Hit ℕ
found id rank = record (hit id) { node_id = ascii "a"; score = rank; rank = rank }

abbrev updates : List (Update ℕ)
updates =
    record {
      request_id = ascii "r1";
      results = found (ascii "x") 1 ∷ found (ascii "y") 2 ∷ [];
      searched_shard_ids = ascii "a:docs" ∷ [];
      unavailable_shard_ids = [];
      complete = false;
    }
    ∷ record {
      request_id = ascii "r1";
      results = found (ascii "x") 1 ∷ found (ascii "y") 2 ∷ [];
      searched_shard_ids = ascii "a:docs" ∷ [];
      unavailable_shard_ids = ascii "b" ∷ [];
      complete = true;
    }
    ∷ []

execute_run : execute ranks catalog (query_for (pos 5)) events ≡ ok (updates, true)
unfolding execute checked is_positive is_negative limit_of run rounds is_done pending_from absorb
    mark_all update ranked_from merge mark_unavailable add_hit from_node hit_key insert_hit
    insert_text is_wanted merge_hits or_whole ranks_before replaces requested_set score_of scored
    shard_ids shards_of sort_hits sort_texts is_empty trim_space text_eq text_lt contains insert
    string_set find put remove has_key insert_all
execute_run = refl

execute_refused : execute ranks catalog (query_for (pos 0)) events ≡ err limit_not_positive
unfolding execute checked is_empty trim_space is_positive
execute_refused = refl

execute_completes_example :
    (updates : List (Update ℕ)) × (execute ranks catalog (query_for (pos 5)) events
      ≡ ok (updates, true))
    × IsFinal 3 (Reports events sent (pending_from asked [])) updates
unfolding checked is_empty trim_space is_positive is_negative text_eq text_lt insert string_set
    pending_from has_key find put has_end has_answer
execute_completes_example =
    execute_completes ranks catalog (query_for (pos 5)) sent events refl (refl, (refl, tt))
      (λ h. refl, (tt, tt))
