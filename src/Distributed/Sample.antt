-- ===== src/Distributed/Sample.antt =====
-- Two search nodes and a hit.
use private_mesh.Prelude.{ℕ, ◌+◌, ◌==◌, ltb, List, [], ◌∷◌}
use private_mesh.Text.{Text, ascii}
use private_mesh.Registry.{Node}
use private_mesh.Distributed.Merge.{Ranks, Hit}

-- The ranks are summed up in place of their reciprocals, and less is better.
abbrev pub ranks : Ranks ℕ
ranks = record {
  no_score = 0;
  add_rank = λ s k. s + k;
  same_score = λ a b. a == b;
  higher = λ a b. ltb a b;
}

abbrev pub node : Text → List Text → Node
node id collections = record {
  id = id;
  address = [];
  collection_ids = collections;
  labels = [];
  applied_log_offset = 0;
}

abbrev pub node_a : Node
node_a = node (ascii "a") (ascii "docs" ∷ ascii "mail" ∷ [])

abbrev pub node_b : Node
node_b = node (ascii "b") []

abbrev pub hit : Text → Hit ℕ
hit id = record {
  document_id = id;
  collection_id = ascii "docs";
  node_id = [];
  title = [];
  snippet = [];
  score = 0;
  rank = 0;
}
