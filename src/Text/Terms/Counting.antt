-- ===== src/Text/Terms/Counting.antt =====
-- What the sets and the frequencies of terms hold, told of the lists that they are made from.
use private_mesh.Prelude.{
  ℕ, ◌+◌, ◌%◌, ◌^◌, ◌<◌, ◌≡◌, refl, sym, ◌||◌, List, [], ◌∷◌, if◌then◌else◌, Bool-cases, inl, inr,
  arith,
}
use private_mesh.Text.{Text, text_eq}
use private_mesh.Text.Equality.{text_eq_sound}
use private_mesh.Text.Sets.{insert, contains}
use private_mesh.Text.Maps.{Map, find, put}
use private_mesh.Text.Maps.Finding.{find-put, text_eq_trans}
use private_mesh.Text.Terms.{frequency, frequencies, keys, insert_all, has_key}

-- How often a term stands in a list.
unfoldable pub count : Text → List Text → ℕ
count term [] = 0
count term (v ∷ vs) = let rest = count term vs in if text_eq v term then 1 + rest else rest

pub contains-insert :
    (term value : Text) (set : List Text)
    → contains term (insert value set) ≡ (text_eq value term || contains term set)
unfolding contains insert
contains-insert term value [] = refl
contains-insert term value (v ∷ set) = elim (Bool-cases (text_eq value v)) [
  | inl same ↦ ground (arith, text_eq_trans value v term same)
  | inr differs ↦ ground (arith, contains-insert term value set)
]

pub contains-insert_all :
    (term : Text) (ks set : List Text)
    → contains term (insert_all ks set) ≡ (contains term ks || contains term set)
unfolding contains insert_all
contains-insert_all term [] set = refl
contains-insert_all term (k ∷ ks) set =
    ground (arith, contains-insert_all term ks (insert k set), contains-insert term k set)

pub contains-keys : {A : Type 0} (term : Text) (m : Map A) → contains term (keys m) ≡ has_key term m
unfolding contains keys has_key find
contains-keys term [] = refl
contains-keys term ((k, a) ∷ m) = ground (arith, contains-keys term m)

pub has_key-put :
    {A : Type 0} (key other : Text) (a : A) (m : Map A)
    → has_key other (put key a m) ≡ (text_eq key other || has_key other m)
unfolding has_key
has_key-put key other a m = ground (arith, find-put key other a m)

pub has_key-frequencies :
    (term : Text) (tokens : List Text) (m : Map ℕ)
    → has_key term (frequencies tokens m) ≡ (contains term tokens || has_key term m)
unfolding contains frequencies
has_key-frequencies term [] m = refl
has_key-frequencies term (t ∷ tokens) m = ground (
  arith,
  has_key-frequencies term tokens (put t ((frequency t m + 1) % 2 ^ 64) m),
  has_key-put t term ((frequency t m + 1) % 2 ^ 64) m,
)

frequency-put :
    (term t : Text) (n : ℕ) (m : Map ℕ)
    → frequency term (put t n m) ≡ (if text_eq t term then n else frequency term m)
unfolding frequency
frequency-put term t n m = ground (arith, find-put t term n m)

pub frequency-frequencies :
    (term : Text) (tokens : List Text) (m : Map ℕ)
    → frequency term m < 2 ^ 64
    → frequency term (frequencies tokens m) ≡ (frequency term m + count term tokens) % 2 ^ 64
unfolding frequencies count
frequency-frequencies term [] m fits = omega arith
frequency-frequencies term (t ∷ tokens) m fits =
    let m' : Map ℕ = put t ((frequency t m + 1) % 2 ^ 64) m in
    let put_value : frequency term m'
        ≡ (if text_eq t term then (frequency t m + 1) % 2 ^ 64 else frequency term m) =
      frequency-put term t _ m in
    elim (Bool-cases (text_eq t term)) [
      | inl same ↦
          let value : frequency term m' ≡ (frequency term m + 1) % 2 ^ 64 =
            rw (sym (text_eq_sound t term same))
              (ground (arith, put_value, same, text_eq_sound t term same)) in
          let rest = frequency-frequencies term tokens m' (omega (arith, value)) in
          rw same (omega (arith, value, rest))
      | inr differs ↦
          let value : frequency term m' ≡ frequency term m = ground (arith, put_value) in
          let rest = frequency-frequencies term tokens m' (omega (arith, value)) in
          rw differs (omega (arith, value, rest))
    ]
