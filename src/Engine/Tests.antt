-- ===== src/Engine/Tests.antt =====
-- Runs of a collection engine and the witnesses.
use private_mesh.Prelude.{
  ℕ, ◌+◌, ◌-◌, ◌≡◌, refl, false, List, [], ◌∷◌, ◌++◌, length, ok, arith, pos, take,
}
use private_mesh.Text.{Text, ascii, trim_space, is_empty, text_eq}
use private_mesh.Document.{Mutation}
use private_mesh.Wal.Disk.{Disk}
use private_mesh.Wal.Scan.{Entry}
use private_mesh.Wal.Scan.Items.{Item, appends, commits, entries_of, committed_of}
use private_mesh.Wal.Record.RoundTrip.{CanStore}
use private_mesh.Wal.Log.Spec.{state, file, healthy, IsLog}
use private_mesh.Wal.Log.Crash.{at_rest}
use private_mesh.Authorization.Policy.{
  Principal, Policy, Rule, action_search, action_read, effect_allow, evaluate_policy,
  evaluate_rules, rule_matches, contains, contains_action, contains_all, any_group, is_action,
}
use private_mesh.Authorization.Enforcer.{
  Request, authorize, audit, evaluate, decide_collection, decide_document,
}
use private_mesh.Text.Maps.{find, put}
use private_mesh.Search.Ranking.{search, search_terms}
use private_mesh.Engine.Query.{
  retrieval_vector, search_documents, get_document, is_limit, limit_of, is_mode, search_checked,
  vector_search, search_embedded, ranking, scores_to_ranking, score_at, vector_ids, vector_scores,
  authorized_hits, add_hit, lexical_ids, lexical_scores,
}
use private_mesh.Engine.{
  Engine, open_engine, trim_space, Mutation, is_empty, apply_document, Stored, upsert_document,
  delete_document, remove,
}
use private_mesh.Engine.Recovery.{
  IsWorking, documents_of, offset_of, open_engine_after_crash, HasState,
}
use private_mesh.Engine.Sample.{parts, fresh, reader, en, with_a}
use private_mesh.Engine.Durable.{logged, upsertion, deletion, accepted, IsUpserted, writes_commit}
use private_mesh.Engine.Answers.{IsAnswer, IsGranted, discloses_only_allowed}

parts-IsWorking : IsWorking parts
parts-IsWorking = record {
  embeds = λ now text. (0, refl);
  stores = λ id v vectors. (vectors + 1, refl);
}

abbrev doc_a : Mutation
doc_a = record {
  document = record { id = ascii "a"; title = ascii "T"; body = ascii "B" };
  deleted = false;
}

doc_a_fits : CanStore doc_a
unfolding trim_space is_empty
doc_a_fits = record { has_id = refl; fits = omega arith }

none-IsLog : IsLog 0 []
none-IsLog = (omega arith, tt)

abbrev stored_a : Stored
stored_a = record {
  id = ascii "a ";
  title = ascii "T";
  content = ascii "B";
  media_type = ascii "t";
}

deletion_fits : CanStore (private_mesh.Wal.Log.trimmed (deletion (ascii " a")))
unfolding trim_space is_empty private_mesh.Document.delete
deletion_fits = record { has_id = refl; fits = omega arith }

upsertion_fits : CanStore (private_mesh.Wal.Log.trimmed (upsertion stored_a))
unfolding trim_space is_empty private_mesh.Document.upsert
upsertion_fits = record { has_id = refl; fits = omega arith }

writes_commit_example :
    IsUpserted parts 1
      (state 0 (logged 0 [] (upsertion stored_a)))
      (healthy
        (file 0 (logged 0 [] (upsertion stored_a)))
        (file 0 (logged 0 [] (upsertion stored_a))))
      (accepted stored_a)
      fresh
      (apply_document parts 1
        (accepted stored_a)
        (record fresh { log = state 0 (logged 0 [] (upsertion stored_a)) }))
      (upsert_document parts 1 stored_a fresh (healthy (file 0 []) []))
    × IsLog 0 (logged 0 [] (upsertion stored_a))
    × ((e' : Engine ℕ) × (delete_document parts (ascii " a") fresh (healthy (file 0 []) []) ≡ (
      ok 1,
      e',
      healthy
          (file 0 (logged 0 [] (deletion (ascii " a"))))
          (file 0 (logged 0 [] (deletion (ascii " a")))),
    ))
        × HasState parts e'
            (state 0 (logged 0 [] (deletion (ascii " a"))))
            (remove (trim_space (ascii " a")) [])
            1)
    × IsLog 0 (logged 0 [] (deletion (ascii " a")))
unfolding trim_space is_empty
writes_commit_example =
    writes_commit parts 0 [] 1 stored_a (ascii " a") fresh [] refl none-IsLog (omega arith) refl
      upsertion_fits refl deletion_fits

logged-IsLog : IsLog 0 (((appends doc_a ∷ []) ++ (commits 1 ∷ [])) ++ [])
logged-IsLog = (omega arith, (doc_a_fits, omega arith, (omega arith, omega arith, omega arith, tt)))

open_engine_after_crash_example :
    (e : Engine ℕ) × (d : Disk) × (kept : List Item) × (lost : List Item) × (more : List Entry)
    × ([] ≡ kept ++ lost)
    × (open_engine parts
          (λ n. n)
          []
          (ascii "c")
          (ascii "d")
          (at_rest (
            take
              (length (file 0 ((appends doc_a ∷ []) ++ (commits 1 ∷ []))))
              (file 0 (((appends doc_a ∷ []) ++ (commits 1 ∷ [])) ++ []))))
        ≡ (ok e, d))
    × (e.log ≡ state 0 (((appends doc_a ∷ []) ++ (commits 1 ∷ [])) ++ kept))
    × (take
          (committed_of 0 (((appends doc_a ∷ []) ++ (commits 1 ∷ [])) ++ kept) - 0)
          (entries_of 0 (((appends doc_a ∷ []) ++ (commits 1 ∷ [])) ++ kept))
        ≡ take (1 - 0) (entries_of 0 (appends doc_a ∷ [])) ++ more)
    × (e.documents
        ≡ documents_of
            (take
              (committed_of 0 (((appends doc_a ∷ []) ++ (commits 1 ∷ [])) ++ kept) - 0)
              (entries_of 0 (((appends doc_a ∷ []) ++ (commits 1 ∷ [])) ++ kept)))
            [])
    × (e.offset
        ≡ offset_of
            (take
              (committed_of 0 (((appends doc_a ∷ []) ++ (commits 1 ∷ [])) ++ kept) - 0)
              (entries_of 0 (((appends doc_a ∷ []) ++ (commits 1 ∷ [])) ++ kept)))
            0)
unfolding trim_space is_empty
open_engine_after_crash_example =
    open_engine_after_crash parts parts-IsWorking (λ n. n) (ascii "c") (ascii "d") 0 0 1
      (length (file 0 ((appends doc_a ∷ []) ++ (commits 1 ∷ [])))) (appends doc_a ∷ []) [] refl refl
      refl refl logged-IsLog (omega arith)

abbrev q : Request
q = record {
  request_id = ascii "r";
  principal = reader;
  action = [];
  collection_id = [];
  document_id = [];
}

searched :
    (search_documents parts 1 (λ n. n) en q (ascii "T") retrieval_vector (pos 5) with_a []).0
    ≡ ok
        (record { document_id = ascii "a"; title = ascii "T"; snippet = ascii "B"; score = 1 } ∷ [])
unfolding search_documents is_limit limit_of is_mode search_checked search search_terms
    private_mesh.Search.Index.is_nil private_mesh.Authorization.Policy.is_nil vector_search
    search_embedded ranking scores_to_ranking score_at vector_ids vector_scores authorized_hits
    add_hit authorize audit evaluate decide_collection decide_document evaluate_policy
    evaluate_rules rule_matches contains contains_action contains_all any_group is_action trim_space
    is_empty text_eq find put private_mesh.Search.Index.unique_terms
    private_mesh.Search.Index.unique_from private_mesh.Text.Sets.insert
    private_mesh.Text.Sets.contains lexical_ids lexical_scores
searched = refl

discloses_only_allowed_example :
    IsAnswer parts en q with_a 5
      (search_documents parts 1 (λ n. n) en q (ascii "T") retrieval_vector (pos 5) with_a []).0
    × IsGranted parts en q with_a (ascii "a") (get_document 1 en q (ascii "a") with_a []).0
unfolding limit_of
discloses_only_allowed_example =
    discloses_only_allowed parts en q with_a 1 (λ n. n) (ascii "T") retrieval_vector (pos 5)
      (ascii "a") []
