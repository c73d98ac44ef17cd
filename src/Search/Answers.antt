-- ===== src/Search/Answers.antt =====
-- `Search` after any history of an index.
use private_mesh.Prelude.{ℕ, ◌≡◌, ◌⊎◌, ap, ◌∙◌, not, ◌&&◌, List, none, ok, pos}
use private_mesh.Text.{Text}
use private_mesh.Text.Sets.{contains}
use private_mesh.Search.Index.{new_index, is_nil, unique_terms, match_all, match_any}
use private_mesh.Search.Described.{IsDescribed}
use private_mesh.Search.Described.History.{
  Change, document_after, index_after, index_after-new_index,
}
use private_mesh.Search.Described.Matching.{is_match}
use private_mesh.Search.Ranking.{Scoring, Match, limited, search}
use private_mesh.Search.Ranking.Results.{ids_of, search_matches}

-- After any calls of `Upsert` and `Delete` on the index that `NewIndex` makes, the index is described
-- by its documents: the postings of a term have a document if and only if the term is a token of
-- its title or its body, with its number of occurrences in each, modulo 2^64, and the terms and
-- the lengths kept for a document are those of its texts. And `Search` of a supported mode and a
-- limit that is not negative answers the first `limit` results, or all of them if it is 0, of a
-- list that does not depend on the limit and has exactly the documents that match among those that
-- the calls leave: if the query has a term, those with every term of it under `MatchAll` and those
-- with some term of it under `MatchAny`.
pub search_after_changes :
    {Score : Type 0} (scoring : Scoring Score) (tokenize : Text → List Text) (changes : List Change)
    (query : Text) (mode : ℕ)
    → (mode ≡ match_all) ⊎ (mode ≡ match_any)
    → IsDescribed tokenize (index_after tokenize changes new_index)
      × ((results : List (Match Score)) × ((n : ℕ)
            → search scoring tokenize query mode (pos n) (index_after tokenize changes new_index)
              ≡ ok (limited n results))
          × ((id : Text)
              → contains id (ids_of results) ≡ (
                  not (is_nil (unique_terms (tokenize query)))
                  && is_match tokenize mode
                      (unique_terms (tokenize query))
                      (document_after id changes none))))
search_after_changes scoring tokenize changes query mode supported =
    let (described, same) = index_after-new_index tokenize changes in
    let (results, answers, complete) =
      search_matches scoring tokenize (index_after tokenize changes new_index) described query mode
        supported in
    (
      described,
      (
        results,
        answers,
        λ id.
            complete id
            ∙ ap
                (λ o.
                  not (is_nil (unique_terms (tokenize query)))
                  && is_match tokenize mode (unique_terms (tokenize query)) o)
                (same id),
      ),
    )
