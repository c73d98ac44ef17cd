-- ===== src/Distributed/Execute.antt =====
-- `Execute` and the goroutine `execute`. What the select of its loop receives is a list of events,
-- in the order of the rounds: the answer of a node, its hits or an error, or the end of the
-- context, by its timeout or by the caller. After the last event of the list the loop waits.
use private_mesh.Prelude.{
  ℕ, ◌==◌, Bool, true, false, not, List, [], ◌∷◌, if◌then◌else◌, Option, none, some, Result, ok,
  err, ℤ, pos, negsuc,
}
use private_mesh.Text.{Text, trim_space, is_empty}
use private_mesh.Text.Sets.{string_set}
use private_mesh.Text.Maps.{Map, put, remove}
use private_mesh.Text.Terms.{has_key}
use private_mesh.Authorization.Policy.{Principal}
use private_mesh.Registry.{Node}
use private_mesh.Distributed.Merge.{
  Ranks, Hit, Update, MergeState, no_hits, mark_unavailable, merge, update,
}

pub data Error : Type 0 where
  request_id_required text_required limit_not_positive timeout_negative : Error

-- The timeout is in nanoseconds.
pub record Query : Type 0 where
  pub request_id : Text
  pub text : Text
  pub mode : Text
  pub limit : ℤ
  pub collection_ids : List Text
  pub timeout : ℤ
  pub principal : Principal

pub data Event (Score : Type 0) : Type 0 where
  responds : Node → Option (List (Hit Score)) → Event Score
  ends : Event Score

unfoldable pub is_positive : ℤ → Bool
is_positive (pos n) = not (n == 0)
is_positive (negsuc n) = false

unfoldable pub is_negative : ℤ → Bool
is_negative (pos n) = false
is_negative (negsuc n) = true

unfoldable pub limit_of : ℤ → ℕ
limit_of (pos n) = n
limit_of (negsuc n) = 0

-- The checks of `Execute`, and the query that it sends.
unfoldable pub checked : Query → Result Error Query
checked q =
    if is_empty (trim_space q.request_id)
    then err request_id_required
    else if is_empty (trim_space q.text)
    then err text_required
    else if not (is_positive q.limit)
    then err limit_not_positive
    else if is_negative q.timeout
    then err timeout_negative
    else ok (record q {
      request_id = trim_space q.request_id;
      text = trim_space q.text;
      collection_ids = string_set q.collection_ids;
    })

-- `pending`, of the selected nodes.
unfoldable pub pending_from : List Node → Map Node → Map Node
pending_from [] pending = pending
pending_from (node ∷ nodes) pending = pending_from nodes (put node.id node pending)

unfoldable pub is_done : {A : Type 0} → Map A → Bool
is_done [] = true
is_done (entry ∷ entries) = false

module _ {Score : Type 0} where
  -- The loop at the end of the context.
  unfoldable pub mark_all : Map Node → List Text → MergeState Score → MergeState Score
  mark_all [] requested s = s
  mark_all ((id, node) ∷ pending) requested s =
      mark_all pending requested (mark_unavailable node requested s)

module _ {Score : Type 0} (ranks : Ranks Score) (q : Query) where
  abbrev pub report : Bool → MergeState Score → Update Score
  report = update ranks q.request_id (limit_of q.limit)

  unfoldable pub absorb : Node → Option (List (Hit Score)) → MergeState Score → MergeState Score
  absorb node none s = mark_unavailable node q.collection_ids s
  absorb node (some hits) s = merge ranks node hits q.collection_ids s

  abbrev pub followed_by : Update Score → List (Update Score) × Bool → List (Update Score) × Bool
  followed_by u (updates, ended) = (u ∷ updates, ended)

  -- The loop: its updates, and whether it has ended, which closes the channel.
  unfoldable pub rounds :
      List (Event Score) → Map Node → MergeState Score → List (Update Score) × Bool
  rounds [] pending s = ([], is_done pending)
  rounds (responds node answer ∷ events) pending s = elim (is_done pending) [
    | true ↦ ([], true)
    | false ↦ elim (has_key node.id pending) [
      | false ↦ rounds events pending s
      | true ↦
          followed_by (report (is_done (remove node.id pending)) (absorb node answer s))
            (rounds events (remove node.id pending) (absorb node answer s))
    ]
  ]
  rounds (ends ∷ events) pending s = elim (is_done pending) [
    | true ↦ ([], true)
    | false ↦ (report true (mark_all pending q.collection_ids s) ∷ [], true)
  ]

  unfoldable pub run : List Node → List (Event Score) → List (Update Score) × Bool
  run [] events = (report true no_hits ∷ [], true)
  run (node ∷ nodes) events = rounds events (pending_from (node ∷ nodes) []) no_hits

-- `Execute` over a catalog: the nodes that it selects are asked the checked query, and `events` is
-- what happens then.
unfoldable pub execute :
    {Score : Type 0}
    → Ranks Score
    → (List Text → List Node)
    → Query
    → List (Event Score)
    → Result Error (List (Update Score) × Bool)
execute ranks catalog query events = elim (checked query) [
  | err e ↦ err e
  | ok q ↦ ok (run ranks q (catalog q.collection_ids) events)
]
