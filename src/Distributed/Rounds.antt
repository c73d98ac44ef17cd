-- ===== src/Distributed/Rounds.antt =====
-- One round of the loop of `execute`.
use private_mesh.Prelude.{◌≡◌, refl, true, false, List, [], ◌∷◌, Option}
use private_mesh.Text.Maps.{Map, remove}
use private_mesh.Text.Terms.{has_key}
use private_mesh.Registry.{Node}
use private_mesh.Distributed.Merge.{Ranks, Hit, MergeState}
use private_mesh.Distributed.Execute.{
  Query, Event, responds, ends, is_done, rounds, followed_by, absorb, mark_all, report,
}

module _ {Score : Type 0} (ranks : Ranks Score) (q : Query) where
  pub rounds_over :
      (events : List (Event Score)) (pending : Map Node) (s : MergeState Score)
      → is_done pending ≡ true
      → rounds ranks q events pending s ≡ ([], true)
  unfolding rounds
  rounds_over [] pending s h = rw h refl
  rounds_over (responds node answer ∷ more) pending s h = rw (h, rounds) refl
  rounds_over (ends ∷ more) pending s h = rw (h, rounds) refl

  module _ (events : List (Event Score)) (pending : Map Node) (s : MergeState Score) where
    module _ (waiting : is_done pending ≡ false) where
      pub rounds_end :
          rounds ranks q (ends ∷ events) pending s
          ≡ (report ranks q true (mark_all pending q.collection_ids s) ∷ [], true)
      unfolding rounds
      rounds_end = rw (waiting, rounds) refl

      pub rounds_skip :
          (node : Node) (answer : Option (List (Hit Score)))
          → has_key node.id pending ≡ false
          → rounds ranks q (responds node answer ∷ events) pending s
            ≡ rounds ranks q events pending s
      unfolding rounds
      rounds_skip node answer unknown = rw (waiting, unknown, rounds) refl

      pub rounds_take :
          (node : Node) (answer : Option (List (Hit Score)))
          → has_key node.id pending ≡ true
          → rounds ranks q (responds node answer ∷ events) pending s
            ≡ followed_by ranks q
                (report ranks q (is_done (remove node.id pending)) (absorb ranks q node answer s))
                (rounds ranks q events (remove node.id pending) (absorb ranks q node answer s))
      unfolding rounds
      rounds_take node answer known = rw (waiting, known, rounds) refl
