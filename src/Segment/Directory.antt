-- ===== src/Segment/Directory.antt =====
-- The directory of internal/segment/store.go and the names of its files. The directory maps the names
-- of its files to their bytes; `faults` says which of the calls of the operating system to come fail,
-- and behind the last one every call succeeds.
use private_mesh.Prelude.{
  ℕ, zero, suc, ◌+◌, ◌-◌, ◌*◌, ◌/◌, ◌%◌, ◌^◌, Bool, false, ◌&&◌, List, [], ◌∷◌, ◌++◌, take, drop,
  length, ltb, leb, ◌==◌, if◌then◌else◌, Option, none, some, Result, ok, err,
}
use private_mesh.Text.{Text, ascii, text_eq}
use private_mesh.Text.Maps.{Map}
use private_mesh.Segment.Codec.{Error}

pub record Directory : Type 0 where
  pub files : Map Text
  pub faults : List Bool

abbrev pub Action : Type 0 → Type 0
Action A = Directory → Result Error A × Directory

abbrev pub continue :
    {A B : Type 0} → Result Error A × Directory → (A → Action B) → Result Error B × Directory
continue (err e, d) next = (err e, d)
continue (ok a, d) next = next a d

infixl 5 ◌>>=◌ ◌>>◌
abbrev pub ◌>>=◌ : {A B : Type 0} → Action A → (A → Action B) → Action B
◌>>=◌ action next d = continue (action d) next

abbrev pub ◌>>◌ : {A B : Type 0} → Action A → Action B → Action B
first >> second = first >>= λ _. second

abbrev pub return : {A : Type 0} → A → Action A
return a d = (ok a, d)

abbrev pub fail : {A : Type 0} → Error → Action A
fail e d = (err e, d)

abbrev pub of_result : {A : Type 0} → Result Error A → Action A
of_result r d = (r, d)

abbrev is_fault : List Bool → Bool
is_fault [] = false
is_fault (f ∷ fs) = f

abbrev later_faults : List Bool → List Bool
later_faults [] = []
later_faults (f ∷ fs) = fs

-- A call that answers `e` if it fails, and does `change` to the files if it succeeds.
unfoldable pub call : Error → (Map Text → Map Text) → Action (Unit {0})
call e change d =
    let fs = later_faults d.faults in
    if is_fault d.faults
    then (err e, record d { faults = fs })
    else (ok tt, record { files = change d.files; faults = fs })

abbrev pub same : Map Text → Map Text
same files = files

-- `%020d`, for numbers of 20 digits at most.
unfoldable pub digits : ℕ → ℕ → Text
digits zero n = []
digits (suc k) n = digits k (n / 10) ++ ((48 + n % 10) ∷ [])

abbrev pub segment_prefix : Text
segment_prefix = ascii "segment-"

abbrev pub segment_suffix : Text
segment_suffix = ascii ".pmseg"

abbrev pub temporary_suffix : Text
temporary_suffix = ascii ".tmp"

unfoldable pub segment_name : ℕ → Text
unfolding digits
segment_name generation = segment_prefix ++ (digits 20 generation ++ segment_suffix)

unfoldable pub has_suffix : Text → Text → Bool
has_suffix name suffix =
    leb (length suffix) (length name) && text_eq (drop (length name - length suffix) name) suffix

-- strconv.ParseUint of a text of digits.
unfoldable pub parse_digits : ℕ → Text → Option ℕ
parse_digits acc [] = some acc
parse_digits acc (b ∷ bs) =
    if leb 48 b && leb b 57 then parse_digits (acc * 10 + (b - 48)) bs else none

-- What stands between the prefix and the suffix.
abbrev pub raw_generation : Text → Text
raw_generation name =
    let rest = drop (length segment_prefix) name in take (length rest - length segment_suffix) rest

unfoldable pub is_segment_name : Text → Bool
unfolding has_suffix parse_digits
is_segment_name name =
    text_eq (take (length segment_prefix) name) segment_prefix
    && has_suffix name segment_suffix
    && length (raw_generation name) == 20
    && elim (parse_digits 0 (raw_generation name)) [ none ↦ false | some n ↦ ltb n (2 ^ 64) ]
