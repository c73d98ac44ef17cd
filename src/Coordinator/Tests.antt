-- ===== src/Coordinator/Tests.antt =====
-- A coordinator with one search node: a search, an upsert, and what the theorems say there.
use private_mesh.Prelude.{
  ℕ, ◌≡◌, ◌∙◌, sym, ap, refl, inl, inr, Bool-cases, arith, List, [], ◌∷◌, Option, none, some, ok,
  err, pos,
}
use private_mesh.Text.{Text, ascii, is_empty, trim_space, text_eq, text_lt}
use private_mesh.Text.Equality.{text_eq_sound}
use private_mesh.Text.Sets.{contains, insert, string_set}
use private_mesh.Text.Maps.{find, put, remove}
use private_mesh.Text.Maps.Finding.{Unique}
use private_mesh.Text.Terms.{has_key, insert_all}
use private_mesh.Rpc.{not_found}
use private_mesh.Authorization.Policy.{Principal}
use private_mesh.Registry.{
  Registration, Registry, nodes, selected, is_requested, intersects, insert_node, sort_nodes,
  remove_expired, unexpired, expired_count,
}
use private_mesh.Registry.Invariant.{IsWellFormed}
use private_mesh.Distributed.Merge.{
  update, ranked_from, merge, mark_unavailable, add_hit, from_node, hit_key, insert_hit,
  insert_text, is_wanted, merge_hits, or_whole, ranks_before, replaces, requested_set, score_of,
  scored, shard_ids, shards_of, sort_hits, sort_texts,
}
use private_mesh.Distributed.Execute.{
  Event, responds, execute, checked, is_positive, is_negative, limit_of, run, rounds, is_done,
  pending_from, absorb, mark_all,
}
use private_mesh.Distributed.Loop.{has_end, has_answer}
use private_mesh.Distributed.Sample.{ranks, node_a, hit}
use private_mesh.Coordinator.{
  Api, SearchRequest, SearchResponse, DocumentRequest, duration_of, signed, is_between, is_zero,
  limit_or_default, timeout_or_default, select_mode, vector_ready, is_vector_ready, first_node,
  owning_node,
}
use private_mesh.Coordinator.Handlers.{
  check_search, prepare, collect_updates, final_update, search_api, swept_by, upsert_api,
  check_document_request, at_owner, upsert_on, with_request_id, reply_of,
}
use private_mesh.Coordinator.Coverage.{IsReply, IsRejected, search_covers}

abbrev ann : Principal
ann = record { subject = ascii "ann"; groups = []; scopes = [] }

abbrev known_if : Text → Option Principal
known_if [] = none
known_if (b ∷ header) = some ann

abbrev api : Api
api = record {
  plan = λ query deadline total ready. some (ascii "hybrid");
  node_client = record {
    upsert_at = λ node principal id collection document. ok 7;
    delete_at = λ node principal id collection document. ok 8;
    get_at = λ node principal id collection document. err not_found;
  };
  authenticate = λ now header. known_if header;
  to_lower = λ text. text;
}

abbrev registry : Registry
registry = record {
  ttl = 100;
  revision = 1;
  nodes = (ascii "a", record { node = node_a; lease_id = ascii "l"; expires_at = 110 }) ∷ [];
}

registry-IsWellFormed : IsWellFormed registry
unfolding Unique find
registry-IsWellFormed = record {
  unique = (refl, tt);
  keyed = λ id c found. elim (Bool-cases (text_eq (ascii "a") id)) [
    | inl same ↦
        sym (
          ap (λ (o : Option Registration). elim o [ some y ↦ y.node.id | none ↦ ascii "a" ])
            (rw same at found))
        ∙ text_eq_sound (ascii "a") id same
    | inr differs ↦ absurd (cc (rw differs at found))
  ];
}

abbrev input : SearchRequest
input = record {
  query = ascii " mesh";
  mode = [];
  limit = pos 0;
  collection_ids = ascii "docs" ∷ [];
  timeout_ms = pos 0;
}

abbrev events : List (Event ℕ)
events = responds node_a (some (hit (ascii "x") ∷ [])) ∷ []

abbrev document : DocumentRequest
document = record {
  collection_id = ascii "docs ";
  document_id = ascii "x";
  title = [];
  content = ascii "B";
  media_type = [];
}

abbrev replied : SearchResponse ℕ
replied = record {
  request_id = ascii "r";
  mode = ascii "hybrid";
  results = record (hit (ascii "x")) { node_id = ascii "a"; score = 1; rank = 1 } ∷ [];
  searched_shard_ids = ascii "a:docs" ∷ [];
  unavailable_shard_ids = [];
}

searched :
    (search_api ranks api 1 2 3 (ascii "t") (some (ascii "r")) (some input) events registry).0
    ≡ some (ok replied)
unfolding is_empty trim_space text_eq text_lt contains insert string_set find put remove has_key
    insert_all nodes selected is_requested intersects insert_node sort_nodes remove_expired
    unexpired expired_count update ranked_from merge mark_unavailable add_hit from_node hit_key
    insert_hit insert_text is_wanted merge_hits or_whole ranks_before replaces requested_set
    score_of scored shard_ids shards_of sort_hits sort_texts execute checked is_positive is_negative
    limit_of run rounds is_done pending_from absorb mark_all is_between is_zero limit_or_default
    timeout_or_default select_mode vector_ready is_vector_ready check_search prepare collect_updates
    final_update search_api swept_by
searched = refl

upserted :
    (upsert_api api 1 2 (ascii "t") (some (ascii "r")) (some document) registry).0
    ≡ ok
        (record { status = 201; request_id = ascii "r"; node_id = ascii "a"; committed_offset = 7 })
unfolding is_empty trim_space text_eq contains insert string_set nodes selected is_requested
    intersects insert_node sort_nodes remove_expired unexpired expired_count first_node owning_node
    upsert_api check_document_request at_owner upsert_on with_request_id reply_of
upserted = refl

-- A timeout of more than 10000 milliseconds that overflows to 384 microseconds.
timeout_wraps : duration_of (pos 18446744073709552) ≡ pos 384000
unfolding duration_of signed
timeout_wraps = refl

search_covers_example :
    IsReply ranks api 1 2 3
      (ascii "t")
      (some (ascii "r"))
      events
      registry
      (IsRejected ranks api 1 2 3 (ascii "t") (some (ascii "r")) events registry input)
      input
      (search_api ranks api 1 2 3 (ascii "t") (some (ascii "r")) (some input) events registry).0
unfolding string_set insert nodes selected is_requested intersects insert_node sort_nodes
    remove_expired unexpired expired_count has_end has_answer pending_from has_key find put contains
    text_eq trim_space is_empty
search_covers_example =
    search_covers ranks api 1 2 3 (ascii "t") (some (ascii "r")) events registry input
      registry-IsWellFormed (omega arith) (refl, tt) (λ h. refl, tt)
