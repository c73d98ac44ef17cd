-- ===== src/Distributed/Loop.antt =====
-- The loop of `execute` ends, with one update that is complete, and an invariant of its rounds
-- tells of that update.
use private_mesh.Prelude.{
  ℕ, ◌≤◌, ◌<◌, ◌≡◌, refl, ap, Bool, true, false, ◌||◌, List, [], ◌∷◌, ◌++◌, length, All,
  if◌then◌else◌, Option, Bool-cases, inl, inr, arith,
}
use private_mesh.Text.{Text, text_eq}
use private_mesh.Text.Equality.{text_eq_refl, text_eq_sound}
use private_mesh.Text.Maps.{Map, find, remove}
use private_mesh.Text.Maps.Finding.{find-remove}
use private_mesh.Text.Terms.{has_key}
use private_mesh.Registry.{Node}
use private_mesh.Distributed.Merge.{Ranks, Hit, Update, MergeState, update}
use private_mesh.Distributed.Rounds.{rounds_end, rounds_skip, rounds_take, rounds_over}
use private_mesh.Distributed.Execute.{
  Query, Event, responds, ends, is_done, rounds, followed_by, absorb, mark_all, report,
}

module _ {Score : Type 0} where
  -- Whether the context ends, and whether a node of this ID answers.
  unfoldable pub has_end : List (Event Score) → Bool
  has_end [] = false
  has_end (responds node answer ∷ events) = has_end events
  has_end (ends ∷ events) = true

  unfoldable pub has_answer : Text → List (Event Score) → Bool
  has_answer id [] = false
  has_answer id (responds node answer ∷ events) = text_eq node.id id || has_answer id events
  has_answer id (ends ∷ events) = has_answer id events

  -- The context ends or every node that is pending answers.
  abbrev pub IsSettled : List (Event Score) → Map Node → Type 0
  IsSettled events pending =
      (id : Text) → has_key id pending ≡ true → (has_end events || has_answer id events) ≡ true

  -- Updates, `n` at most, of which the last one alone is complete, and is as `P` says.
  abbrev pub IsFinal : ℕ → (Update Score → Type 0) → List (Update Score) → Type 0
  IsFinal n P updates =
      (front : List (Update Score)) × (last : Update Score) × (updates ≡ front ++ (last ∷ []))
      × All (λ u. u.complete ≡ false) front
      × (last.complete ≡ true)
      × P last
      × (length updates ≤ n)

length-remove : {A : Type 0} (key : Text) (m : Map A) → length (remove key m) ≤ length m
unfolding remove
length-remove key [] = omega arith
length-remove key ((k, a) ∷ m) = ground (arith, length-remove key m)

length-remove_key :
    {A : Type 0} (key : Text) (m : Map A) → has_key key m ≡ true → length (remove key m) < length m
unfolding remove has_key find
length-remove_key key [] h = absurd (cc h)
length-remove_key key ((k, a) ∷ m) h = elim (Bool-cases (text_eq k key)) [
  | inl same ↦ rw same (omega (arith, length-remove key m))
  | inr differs ↦ rw differs (omega (arith, length-remove_key key m (ground (arith, h, differs))))
]

pub has_key-remove :
    {A : Type 0} (key other : Text) (m : Map A)
    → has_key other (remove key m) ≡ (if text_eq key other then false else has_key other m)
unfolding has_key
has_key-remove key other m = ground (arith, find-remove key other m)

has_first_key : {A : Type 0} (m : Map A) → is_done m ≡ false → (id : Text) × (has_key id m ≡ true)
unfolding is_done has_key find
has_first_key [] h = absurd (cc h)
has_first_key ((k, a) ∷ m) h = (k, ground (arith, text_eq_refl k))

nonempty : {A : Type 0} (m : Map A) → is_done m ≡ false → 0 < length m
unfolding is_done
nonempty [] h = absurd (cc h)
nonempty (x ∷ m) h = omega arith

module _ {Score : Type 0} (ranks : Ranks Score) (q : Query) (P : Update Score → Type 0) where
  abbrev pub IsEnded : ℕ → List (Update Score) × Bool → Type 0
  IsEnded n outcome = IsFinal n P outcome.0 × (outcome.1 ≡ true)

  pub ends_here :
      (n : ℕ) (s : MergeState Score)
      → 0 < n
      → P (report ranks q true s)
      → IsEnded n (report ranks q true s ∷ [], true)
  unfolding update
  ends_here n s h p = (([], report ranks q true s, refl, tt, refl, p, omega arith), refl)

  goes_on :
      (n k : ℕ) (s : MergeState Score) (outcome : List (Update Score) × Bool)
      → k < n
      → IsEnded k outcome
      → IsEnded n (followed_by ranks q (report ranks q false s) outcome)
  unfolding update
  goes_on n k s (updates, ended) h ((front, last, e, incomplete, complete, p, le), over) = (
    (
      report ranks q false s ∷ front,
      last,
      ap (λ t. report ranks q false s ∷ t) e,
      (refl, incomplete),
      complete,
      p,
      omega arith,
    ),
    over,
  )

module _ {Score : Type 0} where
  IsSettled-skip :
      (node : Node) (answer : Option (List (Hit Score))) (events : List (Event Score))
      (pending : Map Node)
      → has_key node.id pending ≡ false
      → IsSettled (responds node answer ∷ events) pending
      → IsSettled events pending
  unfolding has_end has_answer
  IsSettled-skip node answer events pending unknown settled id h =
      elim (Bool-cases (text_eq node.id id)) [
        | inl same ↦
            absurd (cc (ap (λ k. has_key k pending) (text_eq_sound node.id id same), h, unknown))
        | inr differs ↦ ground (arith, settled id h)
      ]

  IsSettled-take :
      (node : Node) (answer : Option (List (Hit Score))) (events : List (Event Score))
      (pending : Map Node)
      → IsSettled (responds node answer ∷ events) pending
      → IsSettled events (remove node.id pending)
  unfolding has_end has_answer
  IsSettled-take node answer events pending settled id h =
      ground (arith, has_key-remove node.id id pending, settled id)

-- The rule of the loop: an invariant of the pending nodes and the merged state, kept by every
-- answer that is as `E` says, gives `P` of the last update.
module _ {Score : Type 0} (ranks : Ranks Score) (q : Query) (E : Event Score → Type 0)
    (Inv : Map Node → MergeState Score → Type 0) (P : Update Score → Type 0)
    (keeps : (node : Node) (answer : Option (List (Hit Score))) (pending : Map Node)
        (s : MergeState Score)
      → E (responds node answer)
      → has_key node.id pending ≡ true
      → Inv pending s
      → Inv (remove node.id pending) (absorb ranks q node answer s))
    (at_last : (pending : Map Node) (s : MergeState Score)
      → is_done pending ≡ true
      → Inv pending s
      → P (report ranks q true s))
    (at_end : (pending : Map Node) (s : MergeState Score)
      → Inv pending s
      → P (report ranks q true (mark_all pending q.collection_ids s))) where
  pub rounds-IsEnded :
      (events : List (Event Score)) (pending : Map Node) (s : MergeState Score)
      → is_done pending ≡ false
      → IsSettled events pending
      → All E events
      → Inv pending s
      → IsEnded ranks q P (length pending) (rounds ranks q events pending s)
  unfolding has_end has_answer
  rounds-IsEnded [] pending s waiting settled all inv =
      let (id, h) = has_first_key pending waiting in absurd (cc (settled id h))
  rounds-IsEnded (ends ∷ events) pending s waiting settled all inv =
      rw (rounds_end ranks q events pending s waiting)
        (ends_here ranks q P (length pending) _ (nonempty pending waiting) (at_end pending s inv))
  rounds-IsEnded (responds node answer ∷ events) pending s waiting settled all inv =
      elim (Bool-cases (has_key node.id pending)) [
        | inr unknown ↦ rw (rounds_skip ranks q events pending s waiting node answer unknown) (
            rounds-IsEnded events pending s waiting
              (IsSettled-skip node answer events pending unknown settled) all.1 inv)
        | inl known ↦
            let inv' = keeps node answer pending s all.0 known inv in
            elim (Bool-cases (is_done (remove node.id pending))) [
              | inl last ↦
                  rw
                    (
                      rounds_take ranks q events pending s waiting node answer known,
                      last,
                      rounds_over ranks q events (remove node.id pending)
                          (absorb ranks q node answer s) last,
                    )
                    (ends_here ranks q P (length pending) _ (nonempty pending waiting)
                      (at_last (remove node.id pending) (absorb ranks q node answer s) last inv'))
              | inr more ↦
                  rw (rounds_take ranks q events pending s waiting node answer known, more)
                    (goes_on ranks q P (length pending) (length (remove node.id pending)) _ _
                      (length-remove_key node.id pending known)
                      (rounds-IsEnded events (remove node.id pending) (absorb ranks q node answer s)
                        more (IsSettled-take node answer events pending settled) all.1 inv'))
            ]
      ]
