-- ===== src/Engine/Sample.antt =====
-- A collection engine with one document that everyone may search and read. The embedder answers one
-- vector a text, the vector index is a number, and every document scores alike.
use private_mesh.Prelude.{ℕ, ◌+◌, true, List, [], ◌∷◌, ◌++◌, map, ◌==◌, ltb, none, some, ok}
use private_mesh.Text.{Text, ascii}
use private_mesh.Wal.Log.Spec.{state}
use private_mesh.Authorization.Policy.{Principal, Policy, action_search, action_read, effect_allow}
use private_mesh.Authorization.Enforcer.{Enforcer}
use private_mesh.Engine.Interfaces.{Parts}
use private_mesh.Engine.{Engine, Stored, new_engine}

abbrev pub one_term : Text → List Text
one_term text = text ∷ []

abbrev pub parts : Parts ℕ ℕ ℕ
parts = record {
  tokenize = one_term;
  log_path = λ directory collection. directory ++ collection;
  embed = λ now texts. some (map (λ t. 0) texts);
  new_vectors = some 0;
  upsert_vector = λ id v vectors. (true, vectors + 1);
  delete_vector = λ id vectors. vectors;
  search_vectors = λ v vectors. some ((ascii "a", 1) ∷ []);
  scoring = record {
    score_of = λ i id terms. 0;
    same_score = λ a b. a == b;
    higher = λ a b. ltb b a;
  };
  no_score = 0;
  fuse = λ rankings. [];
  snippet = λ content. content;
}

abbrev pub fresh : Engine ℕ
fresh = new_engine (ascii "c") 0 (state 0 [])

abbrev pub reader : Principal
reader = record { subject = ascii "u"; groups = []; scopes = [] }

-- Everyone may search and read.
abbrev pub everyone : Policy
everyone = record {
  version = ascii "v";
  rules =
      record {
        effect = effect_allow;
        actions = action_search ∷ action_read ∷ [];
        subjects = [];
        groups = [];
        scopes = [];
      }
      ∷ [];
}

abbrev pub en : Enforcer
en = record {
  store = record { load_collection = λ c. ok (some everyone); load_document = λ c d. ok none };
  accepts = λ event. true;
  key = ascii "0123456789abcdef";
  hmac = λ key value. value;
}

abbrev pub stored_a : Stored
stored_a = record { id = ascii "a"; title = ascii "T"; content = ascii "B"; media_type = [] }

abbrev pub with_a : Engine ℕ
with_a = record fresh { documents = (ascii "a", stored_a) ∷ [] }
