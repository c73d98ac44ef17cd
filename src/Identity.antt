-- ===== src/Identity.antt =====
-- internal/identity/token.go: the principal tokens. What the standard library does, base64, JSON, the
-- signatures, SHA-256 and `strings.Fields`, is in the parameter `Formats`. `now` is the clock reading in
-- nanoseconds since 1970, a time in a token is in seconds, of 64 bits with a sign.
pub mod Bearer
pub mod Valid
pub mod Accepted
pub mod Signing
mod Tests
use private_mesh.Prelude.{
  ℕ, ◌+◌, ◌*◌, ◌/◌, ◌^◌, ◌-◌, Bool, true, false, not, ◌&&◌, ◌||◌, List, [], ◌∷◌, ◌++◌, length, ltb,
  ◌==◌, if◌then◌else◌, Option, none, some, Result, ok, err, ◌>>=◌, ◌>>◌, refuse_if, ℤ, pos, negsuc,
}
use private_mesh.Text.{Text, text_eq, trim_space, is_empty, ascii}
use private_mesh.Text.Sets.{insert, contains}
use private_mesh.Authorization.Policy.{Principal}

-- `encoding_failed` and `signing_failed` are the errors of json.Marshal and of the signature.
pub data Error : Type 0 where
  invalid_token token_expired names_required negative_skew : Error
  invalid_key lifetime_not_positive subject_required encoding_failed signing_failed : Error

abbrev pub max_token_size : ℕ
max_token_size = 16 * 2 ^ 10

-- `crypto.PublicKey` by its Go type.
pub data PublicKey : Type 0 where
  ed25519_key rsa_key : Text → PublicKey
  other_key : PublicKey

pub record TokenHeader : Type 0 where
  pub algorithm : Text
  pub key_id : Text
  pub type : Text

pub record TokenClaims : Type 0 where
  pub issuer : Text
  pub audience : List Text
  pub subject : Text
  pub groups : List Text
  pub scope : Text
  pub issued_at : ℤ
  pub not_before : ℤ
  pub expires_at : ℤ

-- `decode_part` is base64.RawURLEncoding.DecodeString, `read_header` and `read_claims` json.Unmarshal.
pub record Formats : Type 0 where
  pub decode_part : Text → Option Text
  pub encode_part : Text → Text
  pub read_header : Text → Option TokenHeader
  pub read_claims : Text → Option TokenClaims
  pub write_header : TokenHeader → Option Text
  pub write_claims : TokenClaims → Option Text
  pub verify_ed25519 : Text → Text → Text → Bool
  pub verify_rsa : Text → Text → Text → Bool
  pub sha256 : Text → Text
  pub sign_ed25519 : Text → Text → Option Text
  pub fields : Text → List Text

-- `keys` is the source of verification keys, which may have none.
pub record Verifier : Type 0 where
  pub issuer : Text
  pub audience : Text
  pub keys : Text → Option PublicKey
  pub skew : ℕ

-- `NewVerifier` with a source of keys.
unfoldable pub new_verifier : Text → Text → (Text → Option PublicKey) → ℤ → Result Error Verifier
new_verifier issuer audience keys skew =
    if is_empty (trim_space issuer) || is_empty (trim_space audience)
    then err names_required
    else elim skew [
      | negsuc n ↦ err negative_skew
      | pos n ↦ ok (record {
        issuer = trim_space issuer;
        audience = trim_space audience;
        keys = keys;
        skew = n;
      })
    ]

-- strings.Split at a byte.
unfoldable pub split_cons : Bool → ℕ → List Text → List Text
split_cons true b parts = [] ∷ parts
split_cons false b [] = (b ∷ []) ∷ []
split_cons false b (part ∷ parts) = (b ∷ part) ∷ parts

unfoldable pub split : ℕ → Text → List Text
split separator [] = [] ∷ []
split separator (b ∷ text) = split_cons (b == separator) b (split separator text)

abbrev pub dot : ℕ
dot = 46

unfoldable pub three_parts : List Text → Result Error (Text × Text × Text)
three_parts (a ∷ (b ∷ (c ∷ []))) = ok (a, b, c)
three_parts parts = err invalid_token

abbrev pub of_option : {A : Type 0} → Option A → Result Error A
of_option none = err invalid_token
of_option (some a) = ok a

-- `time.Unix` counts from the year 1, 62135596800 seconds before 1970, in 64 bits: from this second
-- on its sum wraps around, to a time that is far in the past, also with a skew added.
abbrev pub first_wrapped : ℕ
first_wrapped = 2 ^ 63 - 62135596800

-- The seconds of a time, in nanoseconds, are before or behind the clock reading.
abbrev pub second : ℕ
second = 10 ^ 9

-- `now.Before(time.Unix(t, 0).Add(skew))`
unfoldable pub is_before : ℕ → ℤ → ℕ → Bool
is_before now (pos t) skew = ltb t first_wrapped && ltb now (t * second + skew)
is_before now (negsuc t) skew = ltb (now + (t + 1) * second) skew

-- `t != 0 && now.Add(skew).Before(time.Unix(t, 0))`, where `t` is zero or not.
unfoldable pub is_ahead : ℕ → ℤ → ℕ → Bool
is_ahead now (pos t) skew = not (t == 0) && ltb t first_wrapped && ltb (now + skew) (t * second)
is_ahead now (negsuc t) skew = false

unfoldable pub is_zero : ℤ → Bool
is_zero (pos t) = t == 0
is_zero (negsuc t) = false

unfoldable pub validate_claims : Verifier → ℕ → TokenClaims → Result Error (Unit {0})
validate_claims v now claims = do
  refuse_if
      (not (text_eq claims.issuer v.issuer)
        || not (contains v.audience claims.audience)
        || is_empty (trim_space claims.subject))
      invalid_token
  refuse_if (is_zero claims.expires_at || not (is_before now claims.expires_at v.skew))
      token_expired
  refuse_if (is_ahead now claims.not_before v.skew) invalid_token
  refuse_if (is_ahead now claims.issued_at v.skew) invalid_token

unfoldable pub normalize_from : List Text → List Text → List Text
normalize_from seen [] = []
normalize_from seen (value ∷ values) =
    let v = trim_space value in
    elim (is_empty v || contains v seen) [
      | true ↦ normalize_from seen values
      | false ↦ v ∷ normalize_from (insert v seen) values
    ]

unfoldable pub normalize_values : List Text → List Text
normalize_values = normalize_from []

abbrev pub eddsa : Text
eddsa = ascii "EdDSA"

abbrev pub rs256 : Text
rs256 = ascii "RS256"

abbrev pub is_refused : Text → Bool
is_refused token =
    is_empty token || ltb max_token_size (length token) || not (text_eq (trim_space token) token)

module _ (formats : Formats) where
  unfoldable pub verify_eddsa : PublicKey → Text → Text → Bool
  verify_eddsa (ed25519_key key) message signature = formats.verify_ed25519 key message signature
  verify_eddsa (rsa_key key) message signature = false
  verify_eddsa other_key message signature = false

  unfoldable pub verify_rs256 : PublicKey → Text → Text → Bool
  verify_rs256 (rsa_key key) message signature =
      formats.verify_rsa key (formats.sha256 message) signature
  verify_rs256 (ed25519_key key) message signature = false
  verify_rs256 other_key message signature = false

  -- Whether `verifySignature` answers no error.
  unfoldable pub verify_signature : Text → PublicKey → Text → Text → Bool
  verify_signature algorithm key message signature =
      if text_eq algorithm eddsa
      then verify_eddsa key message signature
      else if text_eq algorithm rs256
      then verify_rs256 key message signature
      else false

  unfoldable pub principal_of : TokenClaims → Principal
  principal_of claims = record {
    subject = trim_space claims.subject;
    groups = normalize_values claims.groups;
    scopes = normalize_values (formats.fields claims.scope);
  }

  -- `Verify` of the parts of a token.
  unfoldable pub verify_parts : Verifier → ℕ → Text → Text → Text → Result Error Principal
  verify_parts v now a b c = do
    header_bytes ← of_option (formats.decode_part a)
    claims_bytes ← of_option (formats.decode_part b)
    signature ← of_option (formats.decode_part c)
    header ← of_option (formats.read_header header_bytes)
    refuse_if (is_empty header.key_id) invalid_token
    key ← of_option (v.keys header.key_id)
    refuse_if (not (verify_signature header.algorithm key (a ++ (dot ∷ b)) signature)) invalid_token
    claims ← of_option (formats.read_claims claims_bytes)
    validate_claims v now claims
    ok (principal_of claims)

  unfoldable pub verify : Verifier → ℕ → Text → Result Error Principal
  verify v now token = do
    refuse_if (is_refused token) invalid_token
    parts ← three_parts (split dot token)
    let (a, b, c) = parts in verify_parts v now a b c
