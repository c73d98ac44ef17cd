-- ===== src/Document.antt =====
-- The document of internal/search/index.go and the mutation of internal/segment/codec.go, which
-- the write-ahead log and the replicas carry.
use private_mesh.Prelude.{Bool, true, false, []}
use private_mesh.Text.{Text, trim_space}

pub record Document : Type 0 where
  pub id : Text
  pub title : Text
  pub body : Text

pub record Mutation : Type 0 where
  pub document : Document
  pub deleted : Bool

-- `Mutation{}`
abbrev pub no_mutation : Mutation
no_mutation = record { document = record { id = []; title = []; body = [] }; deleted = false }

unfoldable pub upsert : Document → Mutation
upsert d = record { document = record d { id = trim_space d.id }; deleted = false }

unfoldable pub delete : Text → Mutation
delete id = record {
  document = record { id = trim_space id; title = []; body = [] };
  deleted = true;
}
