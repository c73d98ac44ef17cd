-- ===== src/Search/Ranking.antt =====
-- `Search` of internal/search/ranking.go. Scores are floating-point numbers: their type, the score of
-- a document for some terms, `==` and `>` are parameters.
pub mod Results
use private_mesh.Prelude.{
  ℕ, Bool, not, ◌&&◌, ◌||◌, List, [], ◌∷◌, ◌==◌, take, if◌then◌else◌, Option, none, some, Result,
  ok, err, ℤ, pos, negsuc,
}
use private_mesh.Text.{Text, text_lt}
use private_mesh.Text.Maps.{find}
use private_mesh.Document.{Document}
use private_mesh.Search.Index.{
  Index, Error, invalid_match_mode, invalid_limit, match_all, match_any, is_nil, matching_documents,
  unique_terms,
}

-- The floating-point part of a search.
pub record Scoring (Score : Type 0) : Type 0 where
  pub score_of : Index → Text → List Text → Score
  pub same_score : Score → Score → Bool
  pub higher : Score → Score → Bool

-- `Result`
pub record Match (Score : Type 0) : Type 0 where
  pub document : Document
  pub score : Score

-- `i.documents[id]`
unfoldable pub document_at : Text → Index → Document
document_at id i = elim (find id i.documents) [
  | none ↦ record { id = []; title = []; body = [] }
  | some d ↦ d
]

-- `results[:limit]`, of a limit that is not zero.
unfoldable pub limited : {A : Type 0} → ℕ → List A → List A
limited n results = if n == 0 then results else take n results

module _ {Score : Type 0} (scoring : Scoring Score) where
  unfoldable pub results_of : Index → List Text → List Text → List (Match Score)
  results_of i terms [] = []
  results_of i terms (id ∷ ids) =
      record { document = document_at id i; score = scoring.score_of i id terms }
      ∷ results_of i terms ids

  -- The order of sort.Slice.
  unfoldable pub ranks_before : Match Score → Match Score → Bool
  ranks_before a b =
      if scoring.same_score a.score b.score
      then text_lt a.document.id b.document.id
      else scoring.higher a.score b.score

  unfoldable pub insert_result : Match Score → List (Match Score) → List (Match Score)
  insert_result a [] = a ∷ []
  insert_result a (b ∷ bs) =
      let rest = insert_result a bs in if ranks_before b a then b ∷ rest else a ∷ b ∷ bs

  unfoldable pub sort_results : List (Match Score) → List (Match Score)
  sort_results [] = []
  sort_results (a ∷ more) = insert_result a (sort_results more)

  -- `Search` behind its checks, of the unique terms of the query.
  unfoldable pub search_terms : List Text → ℕ → ℕ → Index → List (Match Score)
  search_terms terms mode limit i =
      if is_nil terms || is_nil i.documents
      then []
      else limited limit
          (sort_results (results_of i terms (matching_documents terms mode i.postings)))

  unfoldable pub search :
      (Text → List Text) → Text → ℕ → ℤ → Index → Result Error (List (Match Score))
  search tokenize query mode limit i =
      if not (mode == match_all) && not (mode == match_any)
      then err invalid_match_mode
      else elim limit [
        | negsuc n ↦ err invalid_limit
        | pos n ↦ ok (search_terms (unique_terms (tokenize query)) mode n i)
      ]
