-- ===== src/Engine/Interfaces.antt =====
-- What a collection engine takes from elsewhere: the embedder and the vector index, which are Go
-- interfaces, the tokenizer, and the floating-point and text functions of its answers.
use private_mesh.Prelude.{ℕ, Bool, List, Option}
use private_mesh.Text.{Text}
use private_mesh.Search.Ranking.{Scoring}

pub data Error : Type 0 where
  collection_required id_required embedding_failed unexpected_vectors vectors_failed : Error
  query_required unsupported_mode ids_required permission_denied : Error
  log_failed : private_mesh.Wal.Error.Error → Error
  lexical_failed : private_mesh.Search.Index.Error → Error
  authorizer_failed : private_mesh.Authorization.Enforcer.Error → Error

pub record Parts (Vector Vectors Score : Type 0) : Type 0 where
  pub tokenize : Text → List Text
  -- `filepath.Join` of the data directory, the collection ID and the name of the log.
  pub log_path : Text → Text → Text
  -- `Embed` at a clock reading, or its failure.
  pub embed : ℕ → List Text → Option (List Vector)
  -- `NewHNSWIndex` of the engine's options, and the methods of `SearchIndex`. `Upsert` says whether it
  -- succeeded.
  pub new_vectors : Option Vectors
  pub upsert_vector : Text → Vector → Vectors → Bool × Vectors
  pub delete_vector : Text → Vectors → Vectors
  pub search_vectors : Vector → Vectors → Option (List (Text × Score))
  pub scoring : Scoring Score
  -- `0.0`, which a map answers for a missing key.
  pub no_score : Score
  -- `ReciprocalRankFusion` and `snippet`.
  pub fuse : List (List Text) → List (Text × Score)
  pub snippet : Text → Text
