-- ===== src/Identity/Accepted.antt =====
-- The tokens that `Verify` accepts.
use private_mesh.Prelude.{
  ℕ, ◌≡◌, ◌↔◌, refl, ap, Bool, true, false, not, ◌∷◌, ◌++◌, Option, none, some, ok, err, arith,
  bind_ok, refused_not,
}
use private_mesh.Text.{Text, is_empty}
use private_mesh.Identity.Valid.{
  IsValid, IsSigned, validate_claims_sound, validate_claims_complete, verify_signature_sound,
  verify_signature_complete,
}
use private_mesh.Authorization.Policy.{Principal}
use private_mesh.Identity.{
  Formats, Verifier, TokenHeader, TokenClaims, PublicKey, split, dot, three_parts, of_option,
  principal_of, is_refused, verify_parts, verify,
}

of_option_ok : {A : Type 0} (o : Option A) (a : A) → of_option o ≡ ok a → o ≡ some a
of_option_ok none a h = absurd (cc h)
of_option_ok (some x) a h = ap (λ r. elim r [ ok y ↦ some y | err e ↦ none ]) h

negated : (b : Bool) → not b ≡ false → b ≡ true
negated b h = ground arith

module _ (formats : Formats) (v : Verifier) (now : ℕ) where
  -- A token of three parts, signed under a known key, with claims that are valid now; `p` is the
  -- principal of its claims.
  pub record IsAccepted (token : Text) (p : Principal) : Type 0 where
    pub not_refused : is_refused token ≡ false
    pub a : Text
    pub b : Text
    pub c : Text
    pub in_parts : three_parts (split dot token) ≡ ok (a, b, c)
    pub header_bytes : Text
    pub claims_bytes : Text
    pub signature : Text
    pub header_decoded : formats.decode_part a ≡ some header_bytes
    pub claims_decoded : formats.decode_part b ≡ some claims_bytes
    pub signature_decoded : formats.decode_part c ≡ some signature
    pub header : TokenHeader
    pub header_read : formats.read_header header_bytes ≡ some header
    pub has_key_id : is_empty header.key_id ≡ false
    pub key : PublicKey
    pub key_known : v.keys header.key_id ≡ some key
    pub signed : IsSigned formats header.algorithm key (a ++ (dot ∷ b)) signature
    pub claims : TokenClaims
    pub claims_read : formats.read_claims claims_bytes ≡ some claims
    pub claims_valid : IsValid v now claims
    pub of_claims : principal_of formats claims ≡ p

  verify_sound :
      (token : Text) (p : Principal) → verify formats v now token ≡ ok p → IsAccepted token p
  unfolding verify verify_parts
  verify_sound token p h =
      let (_, candidate, h0) = bind_ok _ _ _ h in
      let ((a, b, c), parts, h1) = bind_ok _ _ _ h0 in
      let (header_bytes, e1, h2) = bind_ok _ _ _ h1 in
      let (claims_bytes, e2, h3) = bind_ok _ _ _ h2 in
      let (signature, e3, h4) = bind_ok _ _ _ h3 in
      let (header, e4, h5) = bind_ok _ _ _ h4 in
      let (_, e5, h6) = bind_ok _ _ _ h5 in
      let (key, e6, h7) = bind_ok _ _ _ h6 in
      let (_, e7, h8) = bind_ok _ _ _ h7 in
      let (claims, e8, h9) = bind_ok _ _ _ h8 in
      let (_, e9, h10) = bind_ok _ _ _ h9 in
      record {
        not_refused = refused_not _ _ candidate;
        a = a;
        b = b;
        c = c;
        in_parts = parts;
        header_bytes = header_bytes;
        claims_bytes = claims_bytes;
        signature = signature;
        header_decoded = of_option_ok _ _ e1;
        claims_decoded = of_option_ok _ _ e2;
        signature_decoded = of_option_ok _ _ e3;
        header = header;
        header_read = of_option_ok _ _ e4;
        has_key_id = refused_not _ _ e5;
        key = key;
        key_known = of_option_ok _ _ e6;
        signed =
            verify_signature_sound formats header.algorithm key (a ++ (dot ∷ b)) signature
              (negated _ (refused_not _ _ e7));
        claims = claims;
        claims_read = of_option_ok _ _ e8;
        claims_valid = validate_claims_sound v now claims e9;
        of_claims = ap (λ r. elim r [ ok x ↦ x | err e ↦ p ]) h10;
      }

  verify_complete :
      (token : Text) (p : Principal) → IsAccepted token p → verify formats v now token ≡ ok p
  unfolding verify verify_parts
  verify_complete token p x =
      rw
        (
          x.not_refused,
          x.in_parts,
          x.header_decoded,
          x.claims_decoded,
          x.signature_decoded,
          x.header_read,
          x.has_key_id,
          x.key_known,
          verify_signature_complete formats x.header.algorithm x.key (x.a ++ (dot ∷ x.b))
              x.signature x.signed,
          x.claims_read,
          validate_claims_complete v now x.claims x.claims_valid,
          x.of_claims,
        )
        refl

  -- `Verify` answers a principal exactly for a token that is not empty, too long or padded, that has
  -- three parts of base64, a header that names a known key, a signature of the first two parts, by
  -- EdDSA that an Ed25519 key verifies or by RS256 that an RSA key verifies of the SHA-256 digest,
  -- and claims of the verifier's issuer and of an audience with it, with a subject, that are not
  -- expired, begun and issued, each within the skew; a time at which `time.Unix` wraps around is
  -- one that is long past. The principal is then that of the claims.
  pub verify-IsAccepted :
      (token : Text) (p : Principal) → (verify formats v now token ≡ ok p) ↔ IsAccepted token p
  verify-IsAccepted token p = (verify_sound token p, verify_complete token p)
