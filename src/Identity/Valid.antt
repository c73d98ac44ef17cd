-- ===== src/Identity/Valid.antt =====
-- The claims and the signatures that `Verify` accepts, described without its checks.
use private_mesh.Prelude.{
  ℕ, ◌+◌, ◌*◌, ◌≤◌, ◌<◌, ◌≡◌, ◌⊎◌, refl, Bool, true, false, not, ◌||◌, List, [], ◌∷◌, ok,
  Bool-cases, bind_ok, refused_not, bind_ok, refused_not, inl, inr, arith, ℤ, pos, negsuc,
}
use private_mesh.Text.{Text, text_eq, trim_space, is_empty}
use private_mesh.Text.Sets.{contains}
use private_mesh.Text.Equality.{text_eq_sound, text_eq_refl}
use private_mesh.Identity.{
  Formats, Verifier, TokenClaims, PublicKey, ed25519_key, rsa_key, other_key, eddsa, rs256, second,
  first_wrapped, is_before, is_ahead, is_zero, validate_claims, verify_eddsa, verify_rs256,
  verify_signature,
}

-- A list has the text.
unfoldable pub Names : Text → List Text → Type 0
Names target [] = ⊥
Names target (value ∷ values) = (value ≡ target) ⊎ Names target values

contains_sound :
    (target : Text) (values : List Text) → contains target values ≡ true → Names target values
unfolding contains Names
contains_sound target [] h = cc h
contains_sound target (value ∷ values) h = elim (Bool-cases (text_eq value target)) [
  | inl same ↦ inl (text_eq_sound value target same)
  | inr differs ↦ inr (contains_sound target values (rw differs at h))
]

contains_complete :
    (target : Text) (values : List Text) → Names target values → contains target values ≡ true
unfolding contains Names
contains_complete target [] h = elim h [ ]
contains_complete target (value ∷ values) (inl same) = rw (same, text_eq_refl target) refl
contains_complete target (value ∷ values) (inr later) =
    ground (arith, contains_complete target values later)

-- A time in seconds that is not over at the clock reading: not zero, not one that wraps around,
-- and ahead of the clock once the skew is added.
unfoldable pub IsOpen : ℕ → ℕ → ℤ → Type 0
IsOpen now skew (pos t) = (0 < t) × (t < first_wrapped) × (now < t * second + skew)
IsOpen now skew (negsuc t) = now + (t + 1) * second < skew

-- A time in seconds that is absent, has wrapped around or is not ahead of the clock with the skew.
unfoldable pub IsPast : ℕ → ℕ → ℤ → Type 0
IsPast now skew (pos t) = (t ≡ 0) ⊎ ((first_wrapped ≤ t) ⊎ (t * second ≤ now + skew))
IsPast now skew (negsuc t) = Unit {0}

is_before-IsOpen :
    (now skew : ℕ) (t : ℤ) → is_zero t ≡ false → is_before now t skew ≡ true → IsOpen now skew t
unfolding is_zero is_before IsOpen
is_before-IsOpen now skew (pos t) h k = ground arith
is_before-IsOpen now skew (negsuc t) h k = ground arith

IsOpen-is_before :
    (now skew : ℕ) (t : ℤ) → IsOpen now skew t → (is_zero t ≡ false) × (is_before now t skew ≡ true)
unfolding is_zero is_before IsOpen
IsOpen-is_before now skew (pos t) h = ground arith
IsOpen-is_before now skew (negsuc t) h = ground arith

is_ahead-IsPast : (now skew : ℕ) (t : ℤ) → is_ahead now t skew ≡ false → IsPast now skew t
unfolding is_ahead IsPast
is_ahead-IsPast now skew (pos t) h = ground arith
is_ahead-IsPast now skew (negsuc t) h = tt

IsPast-is_ahead : (now skew : ℕ) (t : ℤ) → IsPast now skew t → is_ahead now t skew ≡ false
unfolding is_ahead IsPast
IsPast-is_ahead now skew (pos t) h = ground arith
IsPast-is_ahead now skew (negsuc t) h = refl

-- Claims of the verifier's issuer and for an audience with it, with a subject, that have not
-- expired and that have begun and been issued, each within the skew.
pub record IsValid (v : Verifier) (now : ℕ) (claims : TokenClaims) : Type 0 where
  pub right_issuer : claims.issuer ≡ v.issuer
  pub right_audience : Names v.audience claims.audience
  pub has_subject : ¬ (trim_space claims.subject ≡ [])
  pub not_expired : IsOpen now v.skew claims.expires_at
  pub begun : IsPast now v.skew claims.not_before
  pub issued : IsPast now v.skew claims.issued_at

is_empty_sound : (text : Text) → is_empty text ≡ false → ¬ (text ≡ [])
unfolding is_empty
is_empty_sound [] h e = cc h
is_empty_sound (b ∷ text) h e = cc e

is_empty_complete : (text : Text) → ¬ (text ≡ []) → is_empty text ≡ false
unfolding is_empty
is_empty_complete [] h = absurd (h refl)
is_empty_complete (b ∷ text) h = refl

tests_false : (a b c : Bool) → (not a || not b || c) ≡ false → (a ≡ true) × (b ≡ true) × (c ≡ false)
tests_false a b c h = ground arith

test_false : (a b : Bool) → (a || not b) ≡ false → (a ≡ false) × (b ≡ true)
test_false a b h = ground arith

pub validate_claims_sound :
    (v : Verifier) (now : ℕ) (claims : TokenClaims)
    → validate_claims v now claims ≡ ok tt
    → IsValid v now claims
unfolding validate_claims
validate_claims_sound v now claims h =
    let (_, named, h1) = bind_ok _ _ _ h in
    let (_, timed, h2) = bind_ok _ _ _ h1 in
    let (_, begins, h3) = bind_ok _ _ _ h2 in
    let (same_issuer, same_audience, subject) = tests_false _ _ _ (refused_not _ _ named) in
    let (ends, expires) = test_false _ _ (refused_not _ _ timed) in
    record {
      right_issuer = text_eq_sound claims.issuer v.issuer same_issuer;
      right_audience = contains_sound v.audience claims.audience same_audience;
      has_subject = is_empty_sound (trim_space claims.subject) subject;
      not_expired = is_before-IsOpen now v.skew claims.expires_at ends expires;
      begun = is_ahead-IsPast now v.skew claims.not_before (refused_not _ _ begins);
      issued = is_ahead-IsPast now v.skew claims.issued_at (refused_not _ _ h3);
    }

pub validate_claims_complete :
    (v : Verifier) (now : ℕ) (claims : TokenClaims)
    → IsValid v now claims
    → validate_claims v now claims ≡ ok tt
unfolding validate_claims
validate_claims_complete v now claims valid =
    let (ends, expires) = IsOpen-is_before now v.skew claims.expires_at valid.not_expired in
    rw
      (
        valid.right_issuer,
        text_eq_refl v.issuer,
        contains_complete v.audience claims.audience valid.right_audience,
        is_empty_complete (trim_space claims.subject) valid.has_subject,
        ends,
        expires,
        IsPast-is_ahead now v.skew claims.not_before valid.begun,
        IsPast-is_ahead now v.skew claims.issued_at valid.issued,
      )
      refl

module _ (formats : Formats) where
  -- A signature that the key verifies under the algorithm: EdDSA with an Ed25519 key of the message,
  -- or RS256 with an RSA key of its digest, and no other.
  abbrev pub IsSigned : Text → PublicKey → Text → Text → Type 0
  IsSigned algorithm key message signature =
      ((k : Text) × (algorithm ≡ eddsa)
        × (key ≡ ed25519_key k)
        × (formats.verify_ed25519 k message signature ≡ true))
      ⊎ ((k : Text) × (algorithm ≡ rs256)
          × (key ≡ rsa_key k)
          × (formats.verify_rsa k (formats.sha256 message) signature ≡ true))

  eddsa_sound :
      (key : PublicKey) (message signature : Text)
      → verify_eddsa formats key message signature ≡ true
      → (k : Text) × (key ≡ ed25519_key k) × (formats.verify_ed25519 k message signature ≡ true)
  unfolding verify_eddsa
  eddsa_sound (ed25519_key k) message signature h = (k, refl, h)
  eddsa_sound (rsa_key k) message signature h = cc h
  eddsa_sound other_key message signature h = cc h

  rs256_sound :
      (key : PublicKey) (message signature : Text)
      → verify_rs256 formats key message signature ≡ true
      → (k : Text) × (key ≡ rsa_key k)
        × (formats.verify_rsa k (formats.sha256 message) signature ≡ true)
  unfolding verify_rs256
  rs256_sound (rsa_key k) message signature h = (k, refl, h)
  rs256_sound (ed25519_key k) message signature h = cc h
  rs256_sound other_key message signature h = cc h

  pub verify_signature_sound :
      (algorithm : Text) (key : PublicKey) (message signature : Text)
      → verify_signature formats algorithm key message signature ≡ true
      → IsSigned algorithm key message signature
  unfolding verify_signature
  verify_signature_sound algorithm key message signature h =
      elim (Bool-cases (text_eq algorithm eddsa)) [
        | inl named ↦
            let (k, is_key, verified) = eddsa_sound key message signature (rw named at h) in
            inl (k, text_eq_sound algorithm eddsa named, is_key, verified)
        | inr other ↦ elim (Bool-cases (text_eq algorithm rs256)) [
          | inl named ↦
              let (k, is_key, verified) =
                rs256_sound key message signature (rw (other, named) at h) in
              inr (k, text_eq_sound algorithm rs256 named, is_key, verified)
          | inr unknown ↦ absurd (cc (rw (other, unknown) at h))
        ]
      ]

  pub verify_signature_complete :
      (algorithm : Text) (key : PublicKey) (message signature : Text)
      → IsSigned algorithm key message signature
      → verify_signature formats algorithm key message signature ≡ true
  unfolding verify_signature verify_eddsa verify_rs256 text_eq
  verify_signature_complete algorithm key message signature (inl (k, named, is_key, verified)) =
      rw (named, is_key) verified
  verify_signature_complete algorithm key message signature (inr (k, named, is_key, verified)) =
      rw (named, is_key) verified
