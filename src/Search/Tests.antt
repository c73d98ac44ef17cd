-- ===== src/Search/Tests.antt =====
-- Runs of the index and the witnesses.
use private_mesh.Prelude.{ℕ, ◌≡◌, pos, refl, not, ◌&&◌, List, [], ◌∷◌, ◌==◌, ltb, none, ok, inr}
use private_mesh.Text.{Text, ascii, trim_space, is_empty, text_eq, text_lt}
use private_mesh.Search.Index.{
  Index, match_any, new_index, upsert, delete, is_nil, unique_terms, unique_from,
  matching_documents, match_some, documents_with, store_document, delete_locked, without, analyze,
  merge_terms, add_postings, drop_postings, drop_posting, terms_of, lengths_of,
}
use private_mesh.Text.Terms.{keys, has_key, insert_all, frequencies, frequency}
use private_mesh.Text.Sets.{insert, contains}
use private_mesh.Text.Maps.{find, put, remove}
use private_mesh.Search.Described.History.{Change, upserts, deletes, index_after, document_after}
use private_mesh.Search.Ranking.{
  Scoring, Match, search, limited, search_terms, sort_results, insert_result, results_of,
  document_at,
}
use private_mesh.Search.Described.{IsDescribed}
use private_mesh.Search.Described.Matching.{is_match}
use private_mesh.Search.Ranking.Results.{ids_of}
use private_mesh.Search.Answers.{search_after_changes}

-- Every byte is a term, every document scores alike.
abbrev by_bytes : Text → List Text
by_bytes [] = []
by_bytes (b ∷ text) = (b ∷ []) ∷ by_bytes text

abbrev alike : Scoring ℕ
alike = record { score_of = λ i id terms. 0; same_score = λ a b. a == b; higher = λ a b. ltb b a }

abbrev history : List Change
history =
    upserts (record { id = ascii " a"; title = ascii "xy"; body = ascii "y" })
    ∷ (upserts (record { id = ascii "b"; title = []; body = ascii "z" })
        ∷ (deletes (ascii "b") ∷ []))

abbrev after : Index
after = index_after by_bytes history new_index

found_by_y :
    search alike by_bytes (ascii "yq") match_any (pos 0) after
    ≡ ok (
        record {
          document = record { id = ascii "a"; title = ascii "xy"; body = ascii "y" };
          score = 0;
        }
        ∷ [])
unfolding search search_terms is_nil unique_terms unique_from insert contains matching_documents
    match_some keys documents_with index_after upsert store_document delete delete_locked without
    has_key find put remove analyze merge_terms insert_all frequencies frequency add_postings
    drop_postings drop_posting terms_of lengths_of trim_space is_empty text_eq text_lt limited
    sort_results insert_result results_of document_at
found_by_y = refl

search_after_changes_example :
    IsDescribed by_bytes after
    × ((results : List (Match ℕ)) × ((n : ℕ)
          → search alike by_bytes (ascii "y") match_any (pos n) after ≡ ok (limited n results))
        × ((id : Text)
            → contains id (ids_of results) ≡ (
                not (is_nil (unique_terms (by_bytes (ascii "y"))))
                && is_match by_bytes match_any
                    (unique_terms (by_bytes (ascii "y")))
                    (document_after id history none))))
search_after_changes_example =
    search_after_changes alike by_bytes history (ascii "y") match_any (inr refl)
