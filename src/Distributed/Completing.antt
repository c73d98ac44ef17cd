-- ===== src/Distributed/Completing.antt =====
-- The invariant of the loop: every node that is asked is pending or accounted for.
use private_mesh.Prelude.{
  ◌+◌, ◌≤◌, ◌≡◌, ◌⊎◌, refl, Bool, true, false, List, [], ◌∷◌, length, Option, none, some,
  Bool-cases, inl, inr, arith, take, ℕ, length-take,
}
use private_mesh.Text.{Text, text_eq}
use private_mesh.Text.Sets.{contains}
use private_mesh.Text.Equality.{text_eq_refl, text_eq_sound}
use private_mesh.Text.Maps.{Map, find, put, remove}
use private_mesh.Text.Maps.Finding.{find-remove}
use private_mesh.Text.Terms.{has_key}
use private_mesh.Text.Terms.Counting.{has_key-put}
use private_mesh.Registry.{Node}
use private_mesh.Distributed.Merge.{
  Ranks, Hit, Update, MergeState, no_hits, update, shard_ids, ranked_from, sort_hits, scored,
}
use private_mesh.Distributed.Execute.{
  Query, Event, responds, ends, pending_from, is_done, absorb, mark_all, report, limit_of,
}
use private_mesh.Distributed.Coverage.{
  IsCovered, absorb-searched, absorb-unavailable, absorb-IsCovered, mark_all-IsCovered,
  mark_all-searched, mark_all-found,
}

find-has_key :
    {A : Type 0} (key : Text) (a : A) (m : Map A) → find key m ≡ some a → has_key key m ≡ true
unfolding has_key
find-has_key key a m h = rw (h, has_key) refl

length-put : {A : Type 0} (key : Text) (a : A) (m : Map A) → length (put key a m) ≤ length m + 1
unfolding put
length-put key a [] = omega arith
length-put key a ((k, b) ∷ m) = ground (arith, length-put key a m)

pub length-pending_from :
    (nodes : List Node) (m : Map Node) → length (pending_from nodes m) ≤ length nodes + length m
unfolding pending_from
length-pending_from [] m = omega arith
length-pending_from (node ∷ nodes) m =
    omega (arith, length-pending_from nodes (put node.id node m), length-put node.id node m)

pub has_key-pending_from :
    (id : Text) (nodes : List Node) (m : Map Node)
    → has_key id m ≡ true
    → has_key id (pending_from nodes m) ≡ true
unfolding pending_from
has_key-pending_from id [] m h = h
has_key-pending_from id (node ∷ nodes) m h =
    has_key-pending_from id nodes (put node.id node m)
      (ground (arith, has_key-put node.id id node m, h))

pub is_done-has_key : {A : Type 0} (id : Text) (m : Map A) → has_key id m ≡ true → is_done m ≡ false
unfolding is_done has_key find
is_done-has_key id [] h = absurd (cc h)
is_done-has_key id (x ∷ m) h = refl

pub first-pending :
    (node : Node) (nodes : List Node) → has_key node.id (pending_from (node ∷ nodes) []) ≡ true
unfolding pending_from
first-pending node nodes =
    has_key-pending_from node.id nodes (put node.id node [])
      (ground (arith, has_key-put node.id node.id node [], text_eq_refl node.id))

pub no_key : (id : Text) → has_key {A = Node} id [] ≡ true → ⊥
unfolding has_key find
no_key id h = cc h

length-ranked_from :
    {Score : Type 0} (ranks : Ranks Score) (position : ℕ) (hits : List (Hit Score))
    → length (ranked_from ranks position hits) ≡ length hits
unfolding ranked_from
length-ranked_from ranks position [] = refl
length-ranked_from ranks position (hit ∷ hits) =
    omega (arith, length-ranked_from ranks (position + 1) hits)

pub report_bounded :
    {Score : Type 0} (ranks : Ranks Score) (q : Query) (complete : Bool) (s : MergeState Score)
    → length (report ranks q complete s).results ≤ limit_of q.limit
unfolding update
report_bounded ranks q complete s = omega (
  arith,
  length-ranked_from ranks 0
      (take (limit_of q.limit) (sort_hits ranks (scored ranks s.hits s.scores))),
  length-take (limit_of q.limit) (sort_hits ranks (scored ranks s.hits s.scores)),
)

module _ {Score : Type 0} (ranks : Ranks Score) (q : Query) (asked : Map Node)
    (served : Text → Bool) where
  -- An answer carries the node that was asked under its ID, and its hits serve the node's shards.
  abbrev pub IsAnswer : Event Score → Type 0
  IsAnswer ends = Unit {0}
  IsAnswer (responds node none) = has_key node.id asked ≡ true → find node.id asked ≡ some node
  IsAnswer (responds node (some hits)) =
      (has_key node.id asked ≡ true → find node.id asked ≡ some node)
      × ((shard : Text)
          → contains shard (shard_ids node q.collection_ids) ≡ true
          → served shard ≡ true)

  pub record Inv (pending : Map Node) (s : MergeState Score) : Type 0 where
    still_asked :
        (id : Text) (node : Node) → find id pending ≡ some node → find id asked ≡ some node
    accounted :
        (id : Text) (node : Node)
        → find id asked ≡ some node
        → (find id pending ≡ some node) ⊎ IsCovered q.collection_ids s.searched s.unavailable node
    only_served : (shard : Text) → contains shard s.searched ≡ true → served shard ≡ true

  -- What the last update says of the shards.
  pub record Accounts (u : Update Score) : Type 0 where
    pub all_covered :
        (id : Text) (node : Node)
        → find id asked ≡ some node
        → IsCovered q.collection_ids u.searched_shard_ids u.unavailable_shard_ids node
    pub no_more : (shard : Text) → contains shard u.searched_shard_ids ≡ true → served shard ≡ true
    pub bounded : length u.results ≤ limit_of q.limit

  node_of :
      (node : Node) (answer : Option (List (Hit Score)))
      → IsAnswer (responds node answer)
      → has_key node.id asked ≡ true
      → find node.id asked ≡ some node
  node_of node none a = a
  node_of node (some hits) a = a.0

  is_asked :
      (node other : Node) (answer : Option (List (Hit Score)))
      → IsAnswer (responds node answer)
      → find node.id asked ≡ some other
      → node ≡ other
  is_asked node other answer a h =
      cc (node_of node answer a (find-has_key node.id other asked h), h)

  absorb-served :
      (node : Node) (answer : Option (List (Hit Score))) (s : MergeState Score)
      → IsAnswer (responds node answer)
      → ((shard : Text) → contains shard s.searched ≡ true → served shard ≡ true)
      → (shard : Text) → contains shard (absorb ranks q node answer s).searched ≡ true
      → served shard ≡ true
  absorb-served node none s a h shard c =
      h shard (ground (arith, absorb-unavailable ranks q shard node s, c))
  absorb-served node (some hits) s a h shard c =
      ground (arith, absorb-searched ranks q shard node hits s, c, a.1 shard, h shard)

  keeps_account :
      (node : Node) (answer : Option (List (Hit Score))) (pending : Map Node) (s : MergeState Score)
      → IsAnswer (responds node answer)
      → Inv pending s
      → (id : Text) (other : Node) → find id asked ≡ some other
      → (find id (remove node.id pending) ≡ some other)
        ⊎ IsCovered q.collection_ids
            (absorb ranks q node answer s).searched
            (absorb ranks q node answer s).unavailable
            other
  keeps_account node answer pending s a inv id other h = elim (inv.accounted id other h) [
    | inr covered ↦ inr (absorb-IsCovered ranks q node other answer s (inr covered))
    | inl found ↦ elim (Bool-cases (text_eq node.id id)) [
      | inl same ↦ inr (
          absorb-IsCovered ranks q node other answer s
            (inl (is_asked node other answer a (rw (text_eq_sound node.id id same) h))))
      | inr differs ↦ inl (ground (arith, find-remove node.id id pending, found, differs))
    ]
  ]

  pub keeps :
      (node : Node) (answer : Option (List (Hit Score))) (pending : Map Node) (s : MergeState Score)
      → IsAnswer (responds node answer)
      → has_key node.id pending ≡ true
      → Inv pending s
      → Inv (remove node.id pending) (absorb ranks q node answer s)
  keeps node answer pending s a known inv = record {
    still_asked =
        λ id n h. inv.still_asked id n (ground (arith, find-remove node.id id pending, h));
    accounted = keeps_account node answer pending s a inv;
    only_served = absorb-served node answer s a inv.only_served;
  }

  pub at_last :
      (pending : Map Node) (s : MergeState Score)
      → is_done pending ≡ true
      → Inv pending s
      → Accounts (report ranks q true s)
  unfolding update
  at_last pending s over inv = record {
    all_covered = λ id node h. elim (inv.accounted id node h) [
      | inl found ↦
          absurd (cc (is_done-has_key id pending (find-has_key id node pending found), over))
      | inr covered ↦ covered
    ];
    no_more = inv.only_served;
    bounded = report_bounded ranks q true s;
  }

  pub at_end :
      (pending : Map Node) (s : MergeState Score)
      → Inv pending s
      → Accounts (report ranks q true (mark_all pending q.collection_ids s))
  unfolding update
  at_end pending s inv = record {
    all_covered = λ id node h. elim (inv.accounted id node h) [
      | inl found ↦ mark_all-found ranks q id node pending s found
      | inr covered ↦ mark_all-IsCovered ranks q pending node s covered
    ];
    no_more =
        λ shard c. inv.only_served shard (ground (arith, mark_all-searched ranks q pending s, c));
    bounded = report_bounded ranks q true (mark_all pending q.collection_ids s);
  }

  pub at_start : Inv asked no_hits
  unfolding contains
  at_start = record {
    still_asked = λ id node h. h;
    accounted = λ id node h. inl h;
    only_served = λ shard c. absurd (cc c);
  }
