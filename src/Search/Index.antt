-- ===== src/Search/Index.antt =====
-- internal/search/index.go: the methods of `Index`, each one step under its mutex. `tokenize` is a
-- parameter, as it stands on the Unicode tables of the standard library and of a third party.
use private_mesh.Prelude.{
  ℕ, ◌+◌, ◌-◌, ◌%◌, ◌^◌, Bool, true, false, List, [], ◌∷◌, length, ◌==◌, if◌then◌else◌, Option,
  none, some, Result, ok, err,
}
use private_mesh.Text.{Text, trim_space, is_empty}
use private_mesh.Text.Sets.{insert, contains}
use private_mesh.Text.Maps.{Map, find, put, remove}
use private_mesh.Text.Terms.{frequency, frequencies, keys, insert_all, has_key}
use private_mesh.Document.{Document}

pub data Error : Type 0 where
  document_id_required invalid_match_mode invalid_limit : Error

-- `MatchMode`, of any value a uint8 has.
abbrev pub match_all : ℕ
match_all = 1

abbrev pub match_any : ℕ
match_any = 2

pub record Posting : Type 0 where
  pub title_frequency : ℕ
  pub body_frequency : ℕ

pub record FieldLengths : Type 0 where
  pub title : ℕ
  pub body : ℕ

pub record Index : Type 0 where
  pub documents : Map Document
  pub postings : Map (Map Posting)
  pub document_terms : Map (List Text)
  pub lengths : Map FieldLengths
  pub total_title_terms : ℕ
  pub total_body_terms : ℕ

abbrev pub new_index : Index
new_index = record {
  documents = [];
  postings = [];
  document_terms = [];
  lengths = [];
  total_title_terms = 0;
  total_body_terms = 0;
}

-- `i.postings[term]`, the nil map being the empty one.
unfoldable pub documents_with : Text → Map (Map Posting) → Map Posting
documents_with term m = elim (find term m) [ none ↦ [] | some ps ↦ ps ]

unfoldable pub terms_of : Text → Map (List Text) → List Text
terms_of id m = elim (find id m) [ none ↦ [] | some terms ↦ terms ]

unfoldable pub lengths_of : Text → Map FieldLengths → FieldLengths
lengths_of id m = elim (find id m) [ none ↦ record { title = 0; body = 0 } | some l ↦ l ]

unfoldable pub is_nil : {A : Type 0} → List A → Bool
is_nil [] = true
is_nil (x ∷ xs) = false

-- The body of the first loop of `deleteLocked`.
unfoldable pub drop_posting : Text → Text → Map (Map Posting) → Map (Map Posting)
drop_posting id term m =
    let left = remove id (documents_with term m) in
    let kept = put term left m in
    let dropped = remove term m in if is_nil left then dropped else kept

unfoldable pub drop_postings : Text → List Text → Map (Map Posting) → Map (Map Posting)
drop_postings id [] m = m
drop_postings id (term ∷ terms) m = drop_postings id terms (drop_posting id term m)

-- `total -= length` on uint64.
abbrev pub less : ℕ → ℕ → ℕ
less total n = (total + 2 ^ 64 - n) % 2 ^ 64

-- `deleteLocked` behind its check.
unfoldable pub without : Text → Index → Index
without id i = record {
  documents = remove id i.documents;
  postings = drop_postings id (terms_of id i.document_terms) i.postings;
  document_terms = remove id i.document_terms;
  lengths = remove id i.lengths;
  total_title_terms = less i.total_title_terms (lengths_of id i.lengths).title;
  total_body_terms = less i.total_body_terms (lengths_of id i.lengths).body;
}

unfoldable pub delete_locked : Text → Index → Bool × Index
delete_locked id i = if has_key id i.documents then (true, without id i) else (false, i)

unfoldable pub delete : Text → Index → Bool × Index
delete id i = if is_empty (trim_space id) then (false, i) else delete_locked (trim_space id) i

unfoldable pub get : Text → Index → Option Document
get id i = find (trim_space id) i.documents

unfoldable pub size : Index → ℕ
size i = length i.documents

unfoldable pub merge_terms : List (Map ℕ) → List Text
merge_terms [] = []
merge_terms (field ∷ fields) = insert_all (keys field) (merge_terms fields)

-- The last loop of `Upsert`, over the merged terms.
unfoldable pub add_postings :
    Text → Map ℕ → Map ℕ → List Text → Map (Map Posting) → Map (Map Posting)
add_postings id titles bodies [] m = m
add_postings id titles bodies (term ∷ terms) m = add_postings id titles bodies terms (
    put term
      (put id
        (record { title_frequency = frequency term titles; body_frequency = frequency term bodies })
        (documents_with term m))
      m)

module _ (tokenize : Text → List Text) where
  unfoldable pub analyze : Text → Map ℕ × ℕ
  analyze text = (frequencies (tokenize text) [], length (tokenize text) % 2 ^ 64)

  -- `Upsert` behind its check and its call of `deleteLocked`.
  unfoldable pub store_document : Document → Index → Index
  store_document d i =
      let (titles, title_length) = analyze d.title in
      let (bodies, body_length) = analyze d.body in
      let terms = merge_terms (titles ∷ bodies ∷ []) in
      record {
        documents = put d.id d i.documents;
        postings = add_postings d.id titles bodies terms i.postings;
        document_terms = put d.id terms i.document_terms;
        lengths = put d.id (record { title = title_length; body = body_length }) i.lengths;
        total_title_terms = (i.total_title_terms + title_length) % 2 ^ 64;
        total_body_terms = (i.total_body_terms + body_length) % 2 ^ 64;
      }

  unfoldable pub upsert : Document → Index → Result Error (Unit {0}) × Index
  upsert d i =
      let id = trim_space d.id in
      if is_empty id
      then (err document_id_required, i)
      else (ok tt, store_document (record d { id = id }) (delete_locked id i).1)

-- Sets of IDs: those of a set that postings have.
unfoldable pub kept_in : Map Posting → List Text → List Text
kept_in m [] = []
kept_in m (id ∷ ids) = let rest = kept_in m ids in if has_key id m then id ∷ rest else rest

unfoldable pub match_some : List Text → Map (Map Posting) → List Text → List Text
match_some [] m matches = matches
match_some (term ∷ terms) m matches =
    match_some terms m (insert_all (keys (documents_with term m)) matches)

-- An empty set of matches stays empty, which is where the source leaves the loop.
unfoldable pub match_every : List Text → Map (Map Posting) → List Text → List Text
match_every [] m matches = matches
match_every (term ∷ terms) m matches = match_every terms m (kept_in (documents_with term m) matches)

-- `matchingDocuments`. Of no terms the source would panic, for which `Search` has a guard.
unfoldable pub matching_documents : List Text → ℕ → Map (Map Posting) → List Text
matching_documents [] mode m = []
matching_documents (term ∷ terms) mode m =
    let some_term = match_some (term ∷ terms) m [] in
    let every_term = match_every terms m (insert_all (keys (documents_with term m)) []) in
    if mode == match_any then some_term else every_term

unfoldable pub unique_from : List Text → List Text → List Text
unique_from seen [] = []
unique_from seen (term ∷ terms) =
    let rest = unique_from (insert term seen) terms in
    if contains term seen then rest else term ∷ rest

unfoldable pub unique_terms : List Text → List Text
unique_terms = unique_from []
