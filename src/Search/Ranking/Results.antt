-- ===== src/Search/Ranking/Results.antt =====
-- The documents that `Search` answers.
use private_mesh.Prelude.{
  ℕ, zero, suc, ◌≡◌, ◌⊎◌, refl, sym, ap, ◌∙◌, true, false, not, ◌&&◌, ◌||◌, List, [], ◌∷◌, ◌==◌,
  if◌then◌else◌, none, ok, Bool-cases, Option-cases, inl, inr, arith, pos,
}
use private_mesh.Text.{Text, text_eq}
use private_mesh.Text.Sets.{contains}
use private_mesh.Text.Maps.{Map, find}
use private_mesh.Text.Equality.{text_eq_sound, text_eq_refl}
use private_mesh.Document.{Document}
use private_mesh.Search.Index.{
  Index, is_nil, unique_terms, matching_documents, match_all, match_any,
}
use private_mesh.Search.Described.{IsDescribed, has_term}
use private_mesh.Search.Described.Matching.{
  is_match, has_some_term, has_every_term, contains-matching_documents,
}
use private_mesh.Search.Ranking.{
  Scoring, Match, document_at, limited, results_of, insert_result, sort_results, search_terms,
  search,
}

unfoldable pub ids_of : {Score : Type 0} → List (Match Score) → List Text
ids_of [] = []
ids_of (m ∷ ms) = m.document.id ∷ ids_of ms

supported_mode :
    {A : Type 0} (mode : ℕ) (x y w : A)
    → (mode ≡ match_all) ⊎ (mode ≡ match_any)
    → x ≡ y
    → (if not (mode == match_all) && not (mode == match_any) then w else x) ≡ y
supported_mode mode x y w (inl m) e = ground (arith, m, e)
supported_mode mode x y w (inr m) e = ground (arith, m, e)

limited-nil : {A : Type 0} (n : ℕ) → limited {A = A} n [] ≡ []
unfolding limited
limited-nil zero = refl
limited-nil (suc n) = ground arith

find-is_nil : (id : Text) (m : Map Document) → is_nil m ≡ true → find id m ≡ none
unfolding is_nil find
find-is_nil id [] h = refl
find-is_nil id (x ∷ m) h = cc

module _ {Score : Type 0} (scoring : Scoring Score) where
  contains-insert_result :
      (id : Text) (a : Match Score) (ms : List (Match Score))
      → contains id (ids_of (insert_result scoring a ms))
        ≡ (text_eq a.document.id id || contains id (ids_of ms))
  unfolding contains ids_of insert_result
  contains-insert_result id a [] = refl
  contains-insert_result id a (b ∷ ms) = ground (arith, contains-insert_result id a ms)

  contains-sort_results :
      (id : Text) (ms : List (Match Score))
      → contains id (ids_of (sort_results scoring ms)) ≡ contains id (ids_of ms)
  unfolding contains ids_of sort_results
  contains-sort_results id [] = refl
  contains-sort_results id (a ∷ ms) =
      ground
        (arith, contains-insert_result id a (sort_results scoring ms), contains-sort_results id ms)

  contains-results_of :
      (i : Index) (terms : List Text) (id : Text) (ids : List Text)
      → ((x : Text) → contains x ids ≡ true → text_eq (document_at x i).id x ≡ true)
      → contains id (ids_of (results_of scoring i terms ids)) ≡ contains id ids
  unfolding contains ids_of results_of
  contains-results_of i terms id [] h = refl
  contains-results_of i terms id (x ∷ ids) h =
      let same : (document_at x i).id ≡ x =
        text_eq_sound (document_at x i).id x (h x (ground (arith, text_eq_refl x))) in
      rw same (ground (arith, contains-results_of i terms id ids (λ y e. h y (ground (arith, e)))))

  module _ (tokenize : Text → List Text) (i : Index) (v : IsDescribed tokenize i) where
    has_some_term-none : (terms : List Text) → has_some_term tokenize terms none ≡ false
    unfolding has_some_term has_term
    has_some_term-none [] = refl
    has_some_term-none (term ∷ terms) = has_some_term-none terms

    is_match-none :
        (mode : ℕ) (term : Text) (terms : List Text)
        → is_match tokenize mode (term ∷ terms) none ≡ false
    unfolding is_match has_every_term has_some_term has_term
    is_match-none mode term terms = ground (arith, has_some_term-none terms)

    matched-document :
        (mode : ℕ) (term : Text) (terms : List Text) (id : Text)
        → contains id (matching_documents (term ∷ terms) mode i.postings) ≡ true
        → text_eq (document_at id i).id id ≡ true
    unfolding document_at
    matched-document mode term terms id h = elim (Option-cases (find id i.documents)) [
      | inl absent ↦ absurd (
          cc (
            contains-matching_documents tokenize i v id term terms mode,
            is_match-none mode term terms,
            h,
            absent,
          ))
      | inr (d, found) ↦ rw (found, document_at) (v.described_ids id d found)
    ]

    search_terms-limited :
        (terms : List Text) (mode n : ℕ)
        → search_terms scoring terms mode n i ≡ limited n (search_terms scoring terms mode 0 i)
    unfolding search_terms limited
    search_terms-limited terms mode n = elim (Bool-cases (is_nil terms || is_nil i.documents)) [
      | inl e ↦ rw e (sym (limited-nil n))
      | inr e ↦ rw e refl
    ]

    contains-search_terms :
        (terms : List Text) (mode : ℕ) (id : Text)
        → contains id (ids_of (search_terms scoring terms mode 0 i))
          ≡ (not (is_nil terms) && is_match tokenize mode terms (find id i.documents))
    unfolding search_terms limited is_nil contains ids_of
    contains-search_terms [] mode id = refl
    contains-search_terms (term ∷ terms) mode id = elim (Bool-cases (is_nil i.documents)) [
      | inl e ↦ rw (e, find-is_nil id i.documents e) (sym (is_match-none mode term terms))
      | inr e ↦ rw e (
          contains-sort_results id _
          ∙ contains-results_of i (term ∷ terms) id _ (matched-document mode term terms)
          ∙ contains-matching_documents tokenize i v id term terms mode)
    ]

    -- `Search` of a supported mode and of a limit that is not negative answers the first `limit`
    -- results, or all of them if it is 0, of a list that the limit does not change and that has
    -- exactly the documents that match: if the query has a term, those with every term of it under
    -- `MatchAll` and those with some term of it under `MatchAny`. The index is described by its
    -- documents, as every index is that calls of `Upsert` and `Delete` make.
    pub search_matches :
        (query : Text) (mode : ℕ)
        → (mode ≡ match_all) ⊎ (mode ≡ match_any)
        → (results : List (Match Score)) × ((n : ℕ)
            → search scoring tokenize query mode (pos n) i ≡ ok (limited n results))
          × ((id : Text)
              → contains id (ids_of results) ≡ (
                  not (is_nil (unique_terms (tokenize query)))
                  && is_match tokenize mode (unique_terms (tokenize query)) (find id i.documents)))
    unfolding search
    search_matches query mode supported = (
      search_terms scoring (unique_terms (tokenize query)) mode 0 i,
      λ n.
          supported_mode mode _ _ _ supported
            (ap (λ t. ok t) (search_terms-limited (unique_terms (tokenize query)) mode n)),
      contains-search_terms (unique_terms (tokenize query)) mode,
    )
