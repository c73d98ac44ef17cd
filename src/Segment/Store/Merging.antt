-- ===== src/Segment/Store/Merging.antt =====
-- Merging segments keeps the visible record of every ID, at every step of `Compact`.
use private_mesh.Prelude.{
  ℕ, zero, suc, ◌≡◌, refl, sym, ◌∙◌, ap, Bool-cases, inl, inr, List, [], ◌∷◌, ◌++◌, drop, Option,
  none, some, arith, if◌then◌else◌,
}
use private_mesh.Text.{Text, text_eq}
use private_mesh.Text.Equality.{text_eq_sound}
use private_mesh.Text.Maps.{Map, find, put}
use private_mesh.Text.Maps.Finding.{Unique, find-put, put-Unique, text_eq_trans, text_eq_sym}
use private_mesh.Segment.Codec.{Record, FileSegment}
use private_mesh.Segment.Codec.Write.{insert_record, sort_records}
use private_mesh.Segment.Store.{put_records, current_records, live_records}

-- What a client can see of an ID: its record, unless it is deleted.
unfoldable pub visible : Option Record → Option Record
visible none = none
visible (some r) = if r.deleted then none else some r

-- The last record of an ID, before which `old` was current.
last_record : Text → List Record → Option Record → Option Record
last_record id [] old = old
last_record id (r ∷ rs) old = last_record id rs (if text_eq r.document.id id then some r else old)

last_of_all : Text → List FileSegment → Option Record → Option Record
last_of_all id [] old = old
last_of_all id (s ∷ segments) old = last_of_all id segments (last_record id s.records old)

find-put_records :
    (id : Text) (rs : List Record) (current : Map Record)
    → find id (put_records rs current) ≡ last_record id rs (find id current)
unfolding put_records last_record
find-put_records id [] current = refl
find-put_records id (r ∷ rs) current =
    find-put_records id rs (put r.document.id r current)
    ∙ ap (last_record id rs) (find-put r.document.id id r current)

find-current_records :
    (id : Text) (segments : List FileSegment) (current : Map Record)
    → find id (current_records segments current) ≡ last_of_all id segments (find id current)
unfolding current_records last_of_all
find-current_records id [] current = refl
find-current_records id (s ∷ segments) current =
    find-current_records id segments (put_records s.records current)
    ∙ ap (last_of_all id segments) (find-put_records id s.records current)

-- Every entry stands under the ID of its record.
abbrev Keyed : Map Record → Type 0
Keyed [] = Unit {0}
Keyed ((id, r) ∷ m) = (r.document.id ≡ id) × Keyed m

put-Keyed : (r : Record) (m : Map Record) → Keyed m → Keyed (put r.document.id r m)
unfolding put
put-Keyed r [] k = (refl, tt)
put-Keyed r ((id, s) ∷ m) k = elim (Bool-cases (text_eq id r.document.id)) [
  | inl t ↦ rw t (sym (text_eq_sound id r.document.id t), k.1)
  | inr f ↦ rw f (k.0, put-Keyed r m k.1)
]

put_records-Keyed :
    (rs : List Record) (m : Map Record)
    → Keyed m × Unique m
    → Keyed (put_records rs m) × Unique (put_records rs m)
unfolding put_records
put_records-Keyed [] m k = k
put_records-Keyed (r ∷ rs) m k =
    put_records-Keyed rs (put r.document.id r m)
      (put-Keyed r m k.0, put-Unique r.document.id r m k.1)

current_records-Keyed :
    (segments : List FileSegment) (m : Map Record)
    → Keyed m × Unique m
    → Keyed (current_records segments m) × Unique (current_records segments m)
unfolding current_records
current_records-Keyed [] m k = k
current_records-Keyed (s ∷ segments) m k =
    current_records-Keyed segments (put_records s.records m) (put_records-Keyed s.records m k)

abbrev or_else : Option Record → Option Record → Option Record
or_else none old = old
or_else (some r) old = some r

last_record-or_else :
    (id : Text) (rs : List Record) (old : Option Record)
    → last_record id rs old ≡ or_else (last_record id rs none) old
unfolding last_record
last_record-or_else id [] old = refl
last_record-or_else id (r ∷ rs) old =
    ground (arith, last_record-or_else id rs old, last_record-or_else id rs (some r))

last_of_all-or_else :
    (id : Text) (segments : List FileSegment) (old : Option Record)
    → last_of_all id segments old ≡ or_else (last_of_all id segments none) old
unfolding last_of_all
last_of_all-or_else id [] old = refl
last_of_all-or_else id (s ∷ segments) old = ground (
  arith,
  last_record-or_else id s.records old,
  last_of_all-or_else id segments (last_record id s.records old),
  last_of_all-or_else id segments (last_record id s.records none),
)

last_of_all-drop :
    (id : Text) (k : ℕ) (segments : List FileSegment) (old : Option Record)
    → (before : Option Record) × (last_of_all id segments old
        ≡ last_of_all id (drop k segments) before)
unfolding last_of_all
last_of_all-drop id zero segments old = (old, refl)
last_of_all-drop id (suc k) [] old = (old, refl)
last_of_all-drop id (suc k) (s ∷ segments) old =
    last_of_all-drop id k segments (last_record id s.records old)

last_of_all-append :
    (id : Text) (segments more : List FileSegment) (old : Option Record)
    → last_of_all id (segments ++ more) old ≡ last_of_all id more (last_of_all id segments old)
unfolding last_of_all
last_of_all-append id [] more old = refl
last_of_all-append id (s ∷ segments) more old =
    last_of_all-append id segments more (last_record id s.records old)

-- A list has one record of an ID at most.
Distinct : List Record → Type 0
Distinct [] = Unit {0}
Distinct (r ∷ rs) = (last_record r.document.id rs none ≡ none) × Distinct rs

last_record-insert_record :
    (id : Text) (r : Record) (rs : List Record)
    → last_record r.document.id rs none ≡ none
    → last_record id (insert_record r rs) none
      ≡ (if text_eq r.document.id id then some r else last_record id rs none)
unfolding last_record insert_record
last_record-insert_record id r [] h = refl
last_record-insert_record id r (s ∷ rs) h = elim (Bool-cases (text_eq r.document.id id)) [
  | inl t ↦
      let h' =
        ap (λ (x : Text). last_record x (s ∷ rs) none) (sym (text_eq_sound r.document.id id t))
        ∙ h in
      ground (
        arith,
        h',
        text_eq_trans r.document.id id s.document.id t,
        text_eq_sym s.document.id r.document.id,
        text_eq_sym s.document.id id,
        last_record-or_else id rs (some s),
        last_record-or_else r.document.id rs (some s),
        last_record-or_else id (insert_record r rs) (some s),
        last_record-or_else id (s ∷ rs) (some r),
        last_record-insert_record id r rs,
      )
  | inr f ↦ ground (
    arith,
    last_record-or_else id rs (some s),
    last_record-or_else r.document.id rs (some s),
    last_record-or_else id (insert_record r rs) (some s),
    last_record-insert_record id r rs,
  )
]

last_record-sort_records :
    (id : Text) (rs : List Record)
    → Distinct rs
    → last_record id (sort_records rs) none ≡ last_record id rs none
unfolding Distinct sort_records last_record
last_record-sort_records id [] d = refl
last_record-sort_records id (r ∷ rs) d = elim (Bool-cases (text_eq r.document.id id)) [
  | inl t ↦
      let absent =
        ap (λ (x : Text). last_record x rs none) (sym (text_eq_sound r.document.id id t)) ∙ d.0 in
      ground (
        arith,
        absent,
        last_record-sort_records r.document.id rs d.1 ∙ d.0,
        last_record-insert_record id r (sort_records rs),
        last_record-or_else id rs (some r),
      )
  | inr f ↦ ground (
    arith,
    last_record-sort_records r.document.id rs d.1 ∙ d.0,
    last_record-sort_records id rs d.1,
    last_record-insert_record id r (sort_records rs),
  )
]

last_record-live_records :
    (id : Text) (m : Map Record)
    → Keyed m
    → Unique m
    → last_record id (live_records m) none ≡ visible (find id m)
unfolding last_record live_records find visible Unique
last_record-live_records id [] k u = refl
last_record-live_records id ((i, r) ∷ m) k u =
    let own : text_eq r.document.id id ≡ text_eq i id = ap (λ (x : Text). text_eq x id) k.0 in
    let ih = last_record-live_records id m k.1 u.1 in
    elim (Bool-cases (text_eq i id)) [
      | inl t ↦
          let absent = ap (λ (x : Text). find x m) (sym (text_eq_sound i id t)) ∙ u.0 in
          ground (arith, own, ih, absent, last_record-or_else id (live_records m) (some r))
      | inr f ↦ ground (arith, own, ih)
    ]

live_records-Distinct : (m : Map Record) → Keyed m → Unique m → Distinct (live_records m)
unfolding Distinct live_records Unique visible
live_records-Distinct [] k u = tt
live_records-Distinct ((i, r) ∷ m) k u = elim (Bool-cases r.deleted) [
  | inl t ↦ rw t (live_records-Distinct m k.1 u.1)
  | inr f ↦ rw f (
    last_record-live_records r.document.id m k.1 u.1
        ∙ ap (λ (x : Text). visible (find x m)) k.0
        ∙ ap visible u.0,
    live_records-Distinct m k.1 u.1,
  )
]

-- The records that `Compact` publishes for segments, in the order that the file has them.
abbrev pub merged_records : List FileSegment → List Record
merged_records segments = sort_records (live_records (current_records segments []))

visible-visible : (r : Option Record) → visible (visible r) ≡ visible r
unfolding visible
visible-visible none = refl
visible-visible (some r) = ground arith

visible-merged :
    (before behind merged : Option Record)
    → merged ≡ visible (or_else behind before)
    → visible (or_else merged behind) ≡ visible (or_else behind before)
unfolding visible
visible-merged none none merged e = rw e refl
visible-merged (some b) none merged e = rw e (ground arith)
visible-merged before (some r) merged e = rw e (ground arith)

last_record-merged_records :
    (id : Text) (segments : List FileSegment)
    → last_record id (merged_records segments) none
      ≡ visible (find id (current_records segments []))
unfolding Unique
last_record-merged_records id segments =
    let (keyed, unique) = current_records-Keyed segments [] (tt, tt) in
    last_record-sort_records id _ (live_records-Distinct (current_records segments []) keyed unique)
    ∙ last_record-live_records id (current_records segments []) keyed unique

-- Once `Compact` has published the merged segment, and whichever of the old segments it has removed
-- then, the oldest first, every ID has the visible record that it had before.
pub compact-visible :
    (id : Text) (k : ℕ) (segments : List FileSegment) (merged : FileSegment)
    → merged.records ≡ merged_records segments
    → visible (find id (current_records (drop k segments ++ (merged ∷ [])) []))
      ≡ visible (find id (current_records segments []))
unfolding last_of_all find
compact-visible id k segments merged e =
    let (before, dropped) = last_of_all-drop id k segments none in
    let behind = last_of_all id (drop k segments) none in
    let was : find id (current_records segments []) ≡ or_else behind before =
      find-current_records id segments []
      ∙ dropped
      ∙ last_of_all-or_else id (drop k segments) before in
    let published : last_record id merged.records none ≡ visible (or_else behind before) =
      ap (λ (rs : List Record). last_record id rs none) e
      ∙ last_record-merged_records id segments
      ∙ ap visible was in
    ap visible (
      find-current_records id (drop k segments ++ (merged ∷ [])) []
      ∙ last_of_all-append id (drop k segments) (merged ∷ []) none
      ∙ last_record-or_else id merged.records behind)
    ∙ visible-merged before behind (last_record id merged.records none) published
    ∙ ap visible (sym was)
