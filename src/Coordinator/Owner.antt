-- ===== src/Coordinator/Owner.antt =====
-- The requests for a document go to an active node that owns the collection.
use private_mesh.Prelude.{ℕ, ◌≡◌, ◌⊎◌, true, false, [], ◌∷◌, Option, none, some, Result, ok, err}
use private_mesh.Text.{Text, trim_space}
use private_mesh.Text.Sets.{string_set}
use private_mesh.Rpc.{Code}
use private_mesh.Authorization.Policy.{Principal}
use private_mesh.Registry.{Node, Registration, Registry, is_requested}
use private_mesh.Registry.Active.{active}
use private_mesh.Coordinator.{Api, DocumentRequest, WriteResponse, GetResponse, http_status}

-- What comes of a call of a node under the ID of the request: 500 if there is no ID, the status for
-- the error of the call, or the reply that is made of its answer.
abbrev pub Relays :
    {A B : Type 0} → Option Text → (Text → Result Code A) → (Text → A → B) → Result ℕ B → Type 0
Relays {A} {B} request_id call reply outcome =
    ((request_id ≡ none) × (outcome ≡ err 500))
    ⊎ ((id : Text) × (request_id ≡ some id)
        × (((c : Code) × (call id ≡ err c) × (outcome ≡ err (http_status c)))
            ⊎ ((a : A) × (call id ≡ ok a) × (outcome ≡ ok (reply id a)))))

module _ (later : ℕ) (collection_id : Text) (r : Registry) where
  -- No active node owns the collection.
  abbrev pub IsUnowned : Type 0
  IsUnowned =
      (id : Text) (c : Registration)
      → active later id r ≡ some c
      → is_requested (string_set (collection_id ∷ [])) c.node ≡ false

  -- An active node that owns the collection.
  pub record IsOwner (node : Node) : Type 0 where
    pub registration : Registration
    pub alive : active later node.id r ≡ some registration
    pub same : registration.node ≡ node
    pub owns : is_requested (string_set (collection_id ∷ [])) node ≡ true

  -- The outcome is one that an owner allows, or 503 where there is none.
  abbrev pub Reaches : {B : Type 0} → (Node → Result ℕ B → Type 0) → Result ℕ B → Type 0
  Reaches Allows outcome =
      (IsUnowned × (outcome ≡ err 503)) ⊎ ((node : Node) × IsOwner node × Allows node outcome)

module _ (api : Api) (now later : ℕ) (header : Text) (request_id : Option Text) where
  abbrev pub trimmed_input : DocumentRequest → DocumentRequest
  trimmed_input input = record input {
    collection_id = trim_space input.collection_id;
    document_id = trim_space input.document_id;
  }

  -- What the call of a node for an upsert, a delete or a get comes to, under a principal.
  abbrev pub AllowsUpsert : Principal → DocumentRequest → Node → Result ℕ WriteResponse → Type 0
  AllowsUpsert principal input node =
      Relays request_id
        (λ id.
          api.node_client.upsert_at node principal id (trim_space input.collection_id) (record {
            id = trim_space input.document_id;
            title = input.title;
            content = input.content;
            media_type = input.media_type;
          }))
        (λ id offset. record {
          status = 201;
          request_id = id;
          node_id = node.id;
          committed_offset = offset;
        })

  abbrev pub AllowsDelete : Principal → DocumentRequest → Node → Result ℕ WriteResponse → Type 0
  AllowsDelete principal input node =
      Relays request_id
        (λ id.
          api.node_client.delete_at node principal id (trim_space input.collection_id)
            (trim_space input.document_id))
        (λ id offset. record {
          status = 200;
          request_id = id;
          node_id = node.id;
          committed_offset = offset;
        })

  abbrev pub AllowsGet : Principal → DocumentRequest → Node → Result ℕ GetResponse → Type 0
  AllowsGet principal input node =
      Relays request_id
        (λ id.
          api.node_client.get_at node principal id (trim_space input.collection_id)
            (trim_space input.document_id))
        (λ id found. record {
          request_id = id;
          document_id = found.document_id;
          media_type = found.media_type;
          content = found.content;
        })
