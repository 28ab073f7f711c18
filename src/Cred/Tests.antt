-- ===== src/Cred/Tests.antt =====
-- Verification of small credentials, with stand-ins for the cryptographic library.
use fido2_manage.Prelude.{◌≡◌, ◌↔◌, refl, [], ◌∷◌, ◌++◌, none, some, bytes_eq}
use fido2_manage.Err.{fido_ok, err_invalid_param, err_invalid_sig}
use fido2_manage.Assert.{
  Crypto, opt_omit, cose_es256, fido_check_flags, fido_check_rp_id, fido_get_signed_hash,
  hash_decoded, get_es256_hash,
}
use fido2_manage.Cred.{
  CredExt, Cred, Attester, packed, fido_u2f, cose_unspec, check_cred_extensions,
  get_signed_hash_u2f, verify_attstmt, fido_cred_verify, fido_cred_verify_self,
}
use fido2_manage.Cred.Exact.{IsAttested, cred_verify-exact}
use fido2_manage.Cred.Own.{IsSelfAttested, cred_verify_self-exact}

-- A digest is the message itself here, a CBOR byte string is its content behind one byte, and a
-- signature is the key followed by the digest.
abbrev toy : Crypto
toy = record {
  sha256 = some;
  sha384 = some;
  load_bytestring = λ bs. elim bs [ [] ↦ none | x ∷ xs ↦ some xs ];
  verify_sig = λ alg dgst key sig. bytes_eq sig (key ++ dgst);
}

-- The key of a certificate is its bytes.
abbrev attester : Attester
attester = record {
  crypto = toy;
  cert_key = some;
  verify_cert_sig = λ alg dgst key sig. bytes_eq sig (key ++ dgst);
  sha1 = some;
}

abbrev no_ext : CredExt
no_ext = record { mask = 0; prot = 0; minpinlen = 0 }

-- The user was present; the authenticator data are 5 and 6, and the hash of the client data is 7.
abbrev cred : Cred
cred = record {
  cdh = some (7 ∷ []);
  rp_id = some (9 ∷ []);
  uv = opt_omit;
  ext = record { mask = 0x04; prot = 0; minpinlen = 0 };
  fmt = some packed;
  authdata_ext = no_ext;
  authdata_cbor = some (0x42 ∷ 5 ∷ 6 ∷ []);
  authdata_raw = none;
  rp_id_hash = 9 ∷ [];
  flags = 0x01;
  id = some (3 ∷ []);
  type = cose_es256;
  pubkey = 2 ∷ [];
  n = [];
  x = [];
  y = [];
  x5c = some ((1 ∷ []) ∷ []);
  sig = some (1 ∷ 5 ∷ 6 ∷ 7 ∷ []);
  alg = cose_unspec;
  certinfo = none;
  pubarea = none;
}

accepted : fido_cred_verify attester cred ≡ fido_ok
unfolding fido_cred_verify verify_attstmt check_cred_extensions fido_check_flags fido_check_rp_id
    fido_get_signed_hash hash_decoded get_es256_hash
accepted = refl

absent_user : fido_cred_verify attester (record cred { flags = 0x04 }) ≡ err_invalid_param
unfolding fido_cred_verify verify_attstmt check_cred_extensions fido_check_flags fido_check_rp_id
    fido_get_signed_hash hash_decoded get_es256_hash
absent_user = refl

other_key : fido_cred_verify attester (record cred { x5c = some ((2 ∷ []) ∷ []) }) ≡ err_invalid_sig
unfolding fido_cred_verify verify_attstmt check_cred_extensions fido_check_flags fido_check_rp_id
    fido_get_signed_hash hash_decoded get_es256_hash
other_key = refl

cred_verify-exact_example : (fido_cred_verify attester cred ≡ fido_ok) ↔ IsAttested attester cred
cred_verify-exact_example = cred_verify-exact attester cred

-- With the credential's own key, and the format of U2F.
abbrev own_cred : Cred
own_cred = record cred { fmt = some fido_u2f; x5c = none; sig = some (2 ∷ 0 ∷ 9 ∷ 7 ∷ 3 ∷ 4 ∷ []) }

own_accepted : fido_cred_verify_self toy own_cred ≡ fido_ok
unfolding fido_cred_verify_self check_cred_extensions fido_check_flags fido_check_rp_id
    get_signed_hash_u2f
own_accepted = refl

cred_verify_self-exact_example :
    (fido_cred_verify_self toy own_cred ≡ fido_ok) ↔ IsSelfAttested toy own_cred
cred_verify_self-exact_example = cred_verify_self-exact toy own_cred
