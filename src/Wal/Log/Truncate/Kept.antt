-- ===== src/Wal/Log/Truncate/Kept.antt =====
-- What `Truncate` keeps: the mutations behind the checkpoint and the last commit.
use private_mesh.Prelude.{
  ℕ, zero, suc, ◌+◌, ◌-◌, ◌^◌, ◌≤◌, ◌<◌, ◌≡◌, refl, ap, sym, ◌∙◌, true, false, List, [], ◌∷◌, ◌++◌,
  arith, if◌then◌else◌, ltb, Bool-cases, inl, inr,
}
use private_mesh.Wal.Scan.Items.{Item, appends, commits, IsValid, last_of, committed_of, entries_of}
use private_mesh.Wal.Log.{entries_after}
use private_mesh.Wal.Log.Spec.{
  state, IsValid-append, last_of-append, committed_of-append, committed_bounds,
}

-- The mutations behind the first `n`, without the commits.
unfoldable pub mutations_after : ℕ → List Item → List Item
mutations_after n [] = []
mutations_after zero (appends m ∷ items) = appends m ∷ mutations_after zero items
mutations_after (suc n) (appends m ∷ items) = mutations_after n items
mutations_after n (commits c ∷ items) = mutations_after n items

-- The last commit `c`, unless the base has reached it.
abbrev pub commit_from : ℕ → ℕ → List Item
commit_from base c = if ltb base c then commits c ∷ [] else []

-- The records of the new file: the mutations that stay, and the last commit unless the checkpoint
-- has reached it.
abbrev pub truncated : ℕ → ℕ → List Item → List Item
truncated base c items = mutations_after (c - base) items ++ commit_from c (committed_of base items)

entries_after-late :
    (c last : ℕ) (items : List Item)
    → c ≤ last
    → entries_after c (entries_of last items) ≡ entries_of last (mutations_after zero items)
unfolding entries_after mutations_after
entries_after-late c last [] h = refl
entries_after-late c last (appends m ∷ items) h =
    ground (arith, entries_after-late c (last + 1) items)
entries_after-late c last (commits c' ∷ items) h = entries_after-late c last items h

pub entries_after-entries_of :
    (n last : ℕ) (items : List Item)
    → last + n ≤ last_of last items
    → entries_after (last + n) (entries_of last items)
      ≡ entries_of (last + n) (mutations_after n items)
unfolding entries_after mutations_after
entries_after-entries_of zero last items h =
    let e : last + 0 ≡ last = omega arith in rw e (entries_after-late last last items (omega arith))
entries_after-entries_of (suc n) last [] h = absurd (omega arith)
entries_after-entries_of (suc n) last (appends m ∷ items) h =
    let e : last + suc n ≡ last + 1 + n = omega arith in
    let skip : ltb (last + suc n) (last + 1) ≡ false = ground arith in
    rw skip (
      ap (λ t. entries_after t (entries_of (last + 1) items)) e
      ∙ entries_after-entries_of n (last + 1) items (omega arith)
      ∙ ap (λ t. entries_of t (mutations_after n items)) (sym e))
entries_after-entries_of (suc n) last (commits c' ∷ items) h =
    entries_after-entries_of (suc n) last items h

pub last_of-grows : (last : ℕ) (items : List Item) → last ≤ last_of last items
last_of-grows last [] = omega arith
last_of-grows last (appends m ∷ items) = omega (arith, last_of-grows (last + 1) items)
last_of-grows last (commits c ∷ items) = last_of-grows last items

-- The mutations that stay are as valid as before, behind any commit.
pub mutations_after-IsValid :
    (n last from c k : ℕ) (items : List Item)
    → IsValid last c items
    → from ≡ last + n
    → from ≤ last_of last items
    → IsValid from k (mutations_after n items)
      × (last_of from (mutations_after n items) ≡ last_of last items)
      × (committed_of k (mutations_after n items) ≡ k)
unfolding mutations_after
mutations_after-IsValid n last from c k [] v e h = (tt, omega arith, refl)
mutations_after-IsValid zero last from c k (appends m ∷ items) (can, fits, v) e h =
    let (v', l, c') =
      mutations_after-IsValid zero (last + 1) (from + 1) c k items v (omega arith)
        (before_last v) in
    ((can, omega arith, v'), l, c')
  where
    before_last : IsValid (last + 1) c items → from + 1 ≤ last_of (last + 1) items
    before_last w = omega (arith, last_of-grows (last + 1) items)
mutations_after-IsValid (suc n) last from c k (appends m ∷ items) (can, fits, v) e h =
    mutations_after-IsValid n (last + 1) from c k items v (omega arith) h
mutations_after-IsValid zero last from c k (commits c' ∷ items) (above, below, fits, v) e h =
    mutations_after-IsValid zero last from c' k items v e h
mutations_after-IsValid (suc n) last from c k (commits c' ∷ items) (above, below, fits, v) e h =
    mutations_after-IsValid (suc n) last from c' k items v e h

module _ (base c : ℕ) (items : List Item) (v : IsValid base base items) (from : base ≤ c)
    (to : c ≤ committed_of base items) where
  abbrev pub kept : List Item
  kept = mutations_after (c - base) items

  below_last : c ≤ last_of base items
  below_last = omega (arith, committed_bounds base base items (omega arith) v)

  pub kept_facts :
      IsValid c c kept × (last_of c kept ≡ last_of base items) × (committed_of c kept ≡ c)
  kept_facts = mutations_after-IsValid (c - base) base c base c items v (omega arith) below_last

  pub entries_from : entries_after c (entries_of base items) ≡ entries_of c kept
  entries_from =
      let e : c ≡ base + (c - base) = omega arith in
      ap (λ t. entries_after t (entries_of base items)) e
      ∙ entries_after-entries_of (c - base) base items (omega (arith, below_last))
      ∙ ap (λ t. entries_of t kept) (sym e)

  pub state-truncated : state c (truncated base c items) ≡ record {
    has_file = true;
    base_sequence = c;
    last_sequence = last_of base items;
    committed_sequence = committed_of base items;
  }
  state-truncated = ground (
    arith,
    kept_facts,
    last_of-append c kept (commit_from c (committed_of base items)),
    committed_of-append c kept (commit_from c (committed_of base items)),
  )

last_fits :
    (last c : ℕ) (items : List Item)
    → last < 2 ^ 64
    → IsValid last c items
    → last_of last items < 2 ^ 64
last_fits last c [] fits v = fits
last_fits last c (appends m ∷ items) fits (can, fits', v) = last_fits (last + 1) c items fits' v
last_fits last c (commits c' ∷ items) fits (above, below, fits', v) = last_fits last c' items fits v

pub committed_fits :
    (base : ℕ) (items : List Item)
    → base < 2 ^ 64
    → IsValid base base items
    → (committed_of base items ≤ last_of base items) × (committed_of base items < 2 ^ 64)
committed_fits base items fits v =
    omega
      (arith, committed_bounds base base items (omega arith) v, last_fits base base items fits v)

commit_from-IsValid :
    (last c to : ℕ) → c ≤ to → to ≤ last → to < 2 ^ 64 → IsValid last c (commit_from c to)
commit_from-IsValid last c to from below fits = elim (Bool-cases (ltb c to)) [
  | inl above ↦ rw above (ground arith, below, fits, tt)
  | inr same ↦ rw same tt
]

pub truncated-IsValid :
    (base c : ℕ) (items : List Item)
    → base < 2 ^ 64
    → (v : IsValid base base items) → base ≤ c
    → c ≤ committed_of base items
    → IsValid c c (truncated base c items)
truncated-IsValid base c items fits v from to =
    let (valid, last, committed) = kept_facts base c items v from to in
    let (below, small) = committed_fits base items fits v in
    IsValid-append c c (mutations_after (c - base) items) (commit_from c (committed_of base items))
      valid
      (rw (last, committed)
        (commit_from-IsValid (last_of base items) c (committed_of base items) to below small))
