-- ===== src/Identity/Signing.antt =====
-- `NewSigner` and `Sign` of internal/identity/token.go.
use private_mesh.Prelude.{
  ℕ, ◌+◌, ◌/◌, not, ◌||◌, List, [], ◌∷◌, ◌++◌, length, ◌==◌, if◌then◌else◌, Option, none, some,
  Result, ok, err, ◌>>=◌, ◌>>◌, refuse_if, ℤ, pos, negsuc,
}
use private_mesh.Text.{Text, trim_space, is_empty, ascii}
use private_mesh.Authorization.Policy.{Principal}
use private_mesh.Identity.{
  Error, names_required, invalid_key, lifetime_not_positive, subject_required, encoding_failed,
  signing_failed, Formats, TokenHeader, TokenClaims, eddsa, dot, second, normalize_values,
}

-- `Signer`; the key is an Ed25519 private key, the lifetime in nanoseconds.
pub record Signer : Type 0 where
  pub issuer : Text
  pub audience : Text
  pub key_id : Text
  pub key : Text
  pub lifetime : ℕ

unfoldable pub new_signer : Text → Text → Text → Text → ℤ → Result Error Signer
new_signer issuer audience key_id key lifetime =
    if is_empty (trim_space issuer)
      || is_empty (trim_space audience)
      || is_empty (trim_space key_id)
    then err names_required
    else if not (length key == 64)
    then err invalid_key
    else elim lifetime [
      | negsuc n ↦ err lifetime_not_positive
      | pos n ↦
          if n == 0
          then err lifetime_not_positive
          else ok (record {
            issuer = trim_space issuer;
            audience = trim_space audience;
            key_id = trim_space key_id;
            key = key;
            lifetime = n;
          })
    ]

-- `strings.Join(values, " ")`
unfoldable pub join : List Text → Text
join [] = []
join (value ∷ []) = value
join (value ∷ other ∷ values) = value ++ (32 ∷ join (other ∷ values))

abbrev pub header_for : Signer → TokenHeader
header_for s = record { algorithm = eddsa; key_id = s.key_id; type = ascii "JWT" }

abbrev pub claims_for : Signer → ℕ → Principal → TokenClaims
claims_for s now p = record {
  issuer = s.issuer;
  audience = s.audience ∷ [];
  subject = trim_space p.subject;
  groups = normalize_values p.groups;
  scope = join (normalize_values p.scopes);
  issued_at = pos (now / second);
  not_before = pos (now / second);
  expires_at = pos ((now + s.lifetime) / second);
}

abbrev pub or_fail : {A : Type 0} → Error → Option A → Result Error A
or_fail e none = err e
or_fail e (some a) = ok a

unfoldable pub sign : Formats → Signer → ℕ → Principal → Result Error Text
sign formats s now p = do
  refuse_if (is_empty (trim_space p.subject)) subject_required
  header_bytes ← or_fail encoding_failed (formats.write_header (header_for s))
  claims_bytes ← or_fail encoding_failed (formats.write_claims (claims_for s now p))
  let unsigned = formats.encode_part header_bytes ++ (dot ∷ formats.encode_part claims_bytes)
  signature ← or_fail signing_failed (formats.sign_ed25519 s.key unsigned)
  ok (unsigned ++ (dot ∷ formats.encode_part signature))
