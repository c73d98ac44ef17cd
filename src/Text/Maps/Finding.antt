-- ===== src/Text/Maps/Finding.antt =====
-- What a map answers for a key after an update.
use private_mesh.Prelude.{
  ◌≡◌, refl, true, false, Bool-cases, inl, inr, [], ◌∷◌, none, some, if◌then◌else◌, arith,
}
use private_mesh.Text.{Text, text_eq}
use private_mesh.Text.Equality.{text_eq_sound, text_eq_refl}
use private_mesh.Text.Maps.{Map, find, put, remove}

pub text_eq_trans : (a b c : Text) → text_eq a b ≡ true → text_eq a c ≡ text_eq b c
text_eq_trans a b c h = rw (text_eq_sound a b h) refl

pub text_eq_apart : (a b c : Text) → text_eq a b ≡ false → text_eq a c ≡ true → text_eq b c ≡ false
text_eq_apart a b c apart same = elim (Bool-cases (text_eq b c)) [
  | inl t ↦ cc (text_eq_sound a c same, text_eq_sound b c t, text_eq_refl c, apart)
  | inr f ↦ f
]

pub text_eq_sym : (a b : Text) → text_eq a b ≡ text_eq b a
unfolding text_eq
text_eq_sym [] [] = refl
text_eq_sym [] (b ∷ t) = refl
text_eq_sym (a ∷ s) [] = refl
text_eq_sym (a ∷ s) (b ∷ t) = ground (arith, text_eq_sym s t)

-- A key has one entry at most.
unfoldable pub Unique : {A : Type 0} → Map A → Type 0
unfolding find
Unique [] = Unit {0}
Unique ((k, a) ∷ m) = (find k m ≡ none) × Unique m

pub find-put :
    {A : Type 0} (key other : Text) (a : A) (m : Map A)
    → find other (put key a m) ≡ (if text_eq key other then some a else find other m)
unfolding find put
find-put key other a [] = refl
find-put key other a ((k, b) ∷ m) = elim (Bool-cases (text_eq k key)) [
  | inl same ↦ ground (arith, text_eq_trans k key other same)
  | inr differs ↦ elim (Bool-cases (text_eq k other)) [
    | inl t ↦ ground (arith, text_eq_apart k key other differs t)
    | inr f ↦ ground (arith, find-put key other a m)
  ]
]

pub find-remove :
    {A : Type 0} (key other : Text) (m : Map A)
    → find other (remove key m) ≡ (if text_eq key other then none else find other m)
unfolding find remove
find-remove key other [] = ground arith
find-remove key other ((k, b) ∷ m) = elim (Bool-cases (text_eq k key)) [
  | inl same ↦ ground (arith, text_eq_trans k key other same, find-remove key other m)
  | inr differs ↦ elim (Bool-cases (text_eq k other)) [
    | inl t ↦ ground (arith, text_eq_apart k key other differs t)
    | inr f ↦ ground (arith, find-remove key other m)
  ]
]

pub put-Unique : {A : Type 0} (key : Text) (a : A) (m : Map A) → Unique m → Unique (put key a m)
unfolding Unique put find
put-Unique key a [] u = (refl, tt)
put-Unique key a ((k, b) ∷ m) u = elim (Bool-cases (text_eq k key)) [
  | inl same ↦ rw same u
  | inr differs ↦
      rw differs
        (ground (arith, find-put key k a m, text_eq_sym key k, u.0), put-Unique key a m u.1)
]

pub remove-Unique : {A : Type 0} (key : Text) (m : Map A) → Unique m → Unique (remove key m)
unfolding Unique remove find
remove-Unique key [] u = tt
remove-Unique key ((k, b) ∷ m) u = elim (Bool-cases (text_eq k key)) [
  | inl same ↦ rw same (remove-Unique key m u.1)
  | inr differs ↦ rw differs (ground (arith, find-remove key k m, u.0), remove-Unique key m u.1)
]
