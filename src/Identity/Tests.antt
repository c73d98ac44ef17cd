-- ===== src/Identity/Tests.antt =====
-- A run of `Verify` and the witness. The formats are simple ones: a part stands for itself, every header
-- names the key "k", and the signature of a message is the message.
use private_mesh.Prelude.{◌≡◌, ◌↔◌, refl, false, [], ◌∷◌, some, ok, pos}
use private_mesh.Text.{text_eq, trim_space, is_empty, ascii}
use private_mesh.Text.Sets.{contains, insert}
use private_mesh.Authorization.Policy.{Principal}
use private_mesh.Identity.{
  Formats, Verifier, ed25519_key, TokenClaims, verify, verify_parts, verify_signature, verify_eddsa,
  validate_claims, is_before, is_ahead, is_zero, split, split_cons, three_parts, principal_of,
  normalize_values, normalize_from, eddsa,
}
use private_mesh.Identity.Accepted.{IsAccepted, verify-IsAccepted}

abbrev claims_of_ann : TokenClaims
claims_of_ann = record {
  issuer = ascii "i";
  audience = ascii "x" ∷ (ascii "m" ∷ []);
  subject = ascii " ann";
  groups = ascii "dev" ∷ (ascii "dev " ∷ []);
  scope = ascii "search";
  issued_at = pos 10;
  not_before = pos 10;
  expires_at = pos 20;
}

abbrev formats : Formats
formats = record {
  decode_part = λ part. some part;
  encode_part = λ bytes. bytes;
  read_header = λ bytes. some (record { algorithm = eddsa; key_id = ascii "k"; type = [] });
  read_claims = λ bytes. some claims_of_ann;
  write_header = λ header. some (ascii "h");
  write_claims = λ claims. some (ascii "c");
  verify_ed25519 = λ key message signature. text_eq signature (ascii "s");
  verify_rsa = λ key message signature. false;
  sha256 = λ message. message;
  sign_ed25519 = λ key message. some (ascii "s");
  fields = λ scope. scope ∷ [];
}

abbrev verifier : Verifier
verifier = record {
  issuer = ascii "i";
  audience = ascii "m";
  keys = λ key_id. some (ed25519_key (ascii "key"));
  skew = 0;
}

abbrev ann : Principal
ann = record { subject = ascii "ann"; groups = ascii "dev" ∷ []; scopes = ascii "search" ∷ [] }

verified : verify formats verifier (15000000000) (ascii "h.c.s") ≡ ok ann
unfolding verify verify_parts verify_signature verify_eddsa validate_claims is_before is_ahead
    is_zero split split_cons three_parts principal_of normalize_values normalize_from contains
    insert text_eq trim_space is_empty
verified = refl

verify-IsAccepted_example :
    (verify formats verifier (15000000000) (ascii "h.c.s") ≡ ok ann)
    ↔ IsAccepted formats verifier (15000000000) (ascii "h.c.s") ann
verify-IsAccepted_example = verify-IsAccepted formats verifier (15000000000) (ascii "h.c.s") ann
