-- ===== src/Distributed/Answers.antt =====
-- `Execute` completes, and its last update accounts for every shard.
use private_mesh.Prelude.{
  ◌+◌, ◌≡◌, sym, ap, Bool, true, ◌||◌, List, [], ◌∷◌, length, All, none, some, ok, Bool-cases, inl,
  inr, arith, ◌≤◌,
}
use private_mesh.Text.{Text, text_eq}
use private_mesh.Text.Sets.{contains}
use private_mesh.Text.Equality.{text_eq_sound}
use private_mesh.Text.Maps.{Map, find, put}
use private_mesh.Text.Terms.{has_key}
use private_mesh.Text.Terms.Counting.{has_key-put}
use private_mesh.Registry.{Node}
use private_mesh.Distributed.Merge.{Ranks, Update, no_hits, update}
use private_mesh.Distributed.Execute.{
  Query, Event, responds, ends, pending_from, report, run, checked, execute, limit_of,
}
use private_mesh.Distributed.Loop.{
  has_end, has_answer, IsSettled, IsFinal, IsEnded, ends_here, rounds-IsEnded,
}
use private_mesh.Distributed.Coverage.{IsCovered, is_served}
use private_mesh.Distributed.Completing.{
  IsAnswer, Inv, Accounts, first-pending, no_key, is_done-has_key, length-pending_from, keeps,
  at_last, at_end, at_start, report_bounded,
}

module _ {Score : Type 0} where
  -- An answer under the ID of a node that is asked is that node's.
  abbrev pub IsAsked : Map Node → Event Score → Type 0
  IsAsked asked ends = Unit {0}
  IsAsked asked (responds node answer) =
      has_key node.id asked ≡ true → find node.id asked ≡ some node

  All-IsAnswer :
      (ranks : Ranks Score) (q : Query) (asked : Map Node) (served : Text → Bool)
      (events : List (Event Score))
      → ((shard : Text) → is_served q.collection_ids shard events ≡ true → served shard ≡ true)
      → All (IsAsked asked) events
      → All (IsAnswer ranks q asked served) events
  unfolding is_served
  All-IsAnswer ranks q asked served [] more all = tt
  All-IsAnswer ranks q asked served (ends ∷ events) more all =
      (tt, All-IsAnswer ranks q asked served events more all.1)
  All-IsAnswer ranks q asked served (responds node none ∷ events) more all =
      (all.0, All-IsAnswer ranks q asked served events more all.1)
  All-IsAnswer ranks q asked served (responds node (some hits) ∷ events) more all = (
    (all.0, λ shard h. more shard (ground (arith, h))),
    All-IsAnswer ranks q asked served events (λ shard h. more shard (ground (arith, h))) all.1,
  )

  module _ (events : List (Event Score)) where
    -- The context ends, or this node answers.
    abbrev pub Settles : Node → Type 0
    Settles node = (has_end events || has_answer node.id events) ≡ true

    pending_from-IsSettled :
        (nodes : List Node) (m : Map Node)
        → All Settles nodes
        → IsSettled events m
        → IsSettled events (pending_from nodes m)
    unfolding pending_from
    pending_from-IsSettled [] m all settled = settled
    pending_from-IsSettled (node ∷ nodes) m all settled =
        pending_from-IsSettled nodes (put node.id node m) all.1 λ id h.
          elim (Bool-cases (text_eq node.id id)) [
            | inl same ↦ rw (sym (text_eq_sound node.id id same)) all.0
            | inr differs ↦ settled id (ground (arith, has_key-put node.id id node m, h, differs))
          ]

    -- What the last update says: no more results than the limit, every shard of a node that is
    -- asked is searched or unavailable, and only those of nodes that have answered are searched.
    abbrev pub Reports : Query → Map Node → Update Score → Type 0
    Reports q asked u =
        ((id : Text) (node : Node)
          → find id asked ≡ some node
          → IsCovered q.collection_ids u.searched_shard_ids u.unavailable_shard_ids node)
        × ((shard : Text)
            → contains shard u.searched_shard_ids ≡ true
            → is_served q.collection_ids shard events ≡ true)
        × (length u.results ≤ limit_of q.limit)

    nothing_to_report :
        (ranks : Ranks Score) (q : Query)
        → Reports q (pending_from [] []) (report ranks q true no_hits)
    unfolding pending_from update contains find
    nothing_to_report ranks q =
        (λ id node h. absurd (cc h), λ shard h. absurd (cc h), report_bounded ranks q true no_hits)

    run-IsEnded :
        (ranks : Ranks Score) (q : Query) (nodes : List Node)
        → All Settles nodes
        → All (IsAsked (pending_from nodes [])) events
        → IsEnded ranks q
            (Reports q (pending_from nodes []))
            (length nodes + 1)
            (run ranks q nodes events)
    unfolding run
    run-IsEnded ranks q [] all answers =
        ends_here ranks q (Reports q (pending_from [] [])) (0 + 1) no_hits (omega arith)
          (nothing_to_report ranks q)
    run-IsEnded ranks q (node ∷ nodes) all answers =
        let asked = pending_from (node ∷ nodes) [] in
        let served = λ (shard : Text). is_served q.collection_ids shard events in
        let ((front, last, e, incomplete, complete, p, le), over) =
          rounds-IsEnded ranks q (IsAnswer ranks q asked served) (Inv ranks q asked served)
            (Accounts ranks q asked served) (keeps ranks q asked served)
            (at_last ranks q asked served) (at_end ranks q asked served) events asked no_hits
            (is_done-has_key node.id asked (first-pending node nodes))
            (pending_from-IsSettled (node ∷ nodes) [] all (λ id h. absurd (no_key id h)))
            (All-IsAnswer ranks q asked served events (λ shard h. h) answers)
            (at_start ranks q asked served) in
        (
          (
            front,
            last,
            e,
            incomplete,
            complete,
            (p.all_covered, p.no_more, p.bounded),
            omega (arith, length-pending_from (node ∷ nodes) []),
          ),
          over,
        )

-- Once every node that is asked has answered, or the context has ended, whatever else happens and
-- in whatever order, the goroutine of an `Execute` that passes its checks has ended and closed the
-- channel, if an answer under the ID of a node that is asked is of that node: it has sent updates
-- of which the last one, and only that one, is complete, and no more than the channel holds, so
-- that it has not waited for a reader. In the last one there are no more results than the limit,
-- every shard of every node that is asked is searched or unavailable, and a shard is searched only
-- if a node that serves it has answered with hits.
pub execute_completes :
    {Score : Type 0} (ranks : Ranks Score) (catalog : List Text → List Node) (query q : Query)
    (events : List (Event Score))
    → checked query ≡ ok q
    → All (Settles events) (catalog q.collection_ids)
    → All (IsAsked (pending_from (catalog q.collection_ids) [])) events
    → (updates : List (Update Score)) × (execute ranks catalog query events ≡ ok (updates, true))
      × IsFinal
          (length (catalog q.collection_ids) + 1)
          (Reports events q (pending_from (catalog q.collection_ids) []))
          updates
unfolding execute
execute_completes ranks catalog query q events passes all answers =
    let (final, over) = run-IsEnded events ranks q (catalog q.collection_ids) all answers in
    (
      (run ranks q (catalog q.collection_ids) events).0,
      rw (passes, execute)
          (ap (λ b. ok ((run ranks q (catalog q.collection_ids) events).0, b)) over),
      final,
    )
