-- ===== src/Assert/Tests.antt =====
-- Verification of a small assertion, with stand-ins for the cryptographic library.
use fido2_manage.Prelude.{◌≡◌, ◌↔◌, refl, List, [], ◌∷◌, ◌++◌, none, some, bytes_eq, arith}
use fido2_manage.Err.{fido_ok, err_invalid_param, err_invalid_sig, err_invalid_argument}
use fido2_manage.Assert.{
  Assert, Stmt, Crypto, opt_omit, opt_true, cose_es256, fido_check_flags, check_extensions,
  get_es256_hash, hash_decoded, fido_get_signed_hash, fido_check_rp_id, verify_digest, verify_stmt,
  fido_assert_verify,
}
use fido2_manage.Assert.Exact.{IsGenuine, verify-exact}
use fido2_manage.Assert.Setup.{
  Call, set_clientdata, set_clientdata_hash, allow_cred, set_rp, calls, IsPaired, calls-IsPaired,
}

-- A digest is the message itself here, a CBOR byte string is its content behind one byte, and a
-- signature is the key followed by the digest.
abbrev toy : Crypto
toy = record {
  sha256 = some;
  sha384 = some;
  load_bytestring = λ bs. elim bs [ [] ↦ none | x ∷ xs ↦ some xs ];
  verify_sig = λ alg dgst key sig. bytes_eq sig (key ++ dgst);
}

-- The user was present; the authenticator data are 5 and 6, and the hash of the client data is 7.
abbrev stmt : Stmt
stmt = record {
  id = none;
  rp_id_hash = 9 ∷ [];
  flags = 0x01;
  sigcount = 0;
  authdata_ext_mask = 0x01;
  authdata_cbor = some (0x42 ∷ 5 ∷ 6 ∷ []);
  authdata_raw = none;
  sig = some (1 ∷ 5 ∷ 6 ∷ 7 ∷ []);
}

-- largeBlobKey is asked for too, and is not part of the statement's extensions.
abbrev assertion : Assert
assertion = record {
  rp_id = some (9 ∷ []);
  cd = none;
  cdh = some (7 ∷ []);
  allow_list = [];
  up = opt_true;
  uv = opt_omit;
  ext_mask = 0x05;
  hmac_salt = none;
  stmt = stmt ∷ [];
  stmt_len = 1;
}

accepted : fido_assert_verify toy assertion 0 cose_es256 (some (1 ∷ [])) ≡ fido_ok
unfolding fido_assert_verify verify_stmt fido_check_flags check_extensions fido_check_rp_id
    fido_get_signed_hash hash_decoded get_es256_hash verify_digest
accepted = refl

wrong_key : fido_assert_verify toy assertion 0 cose_es256 (some (2 ∷ [])) ≡ err_invalid_sig
unfolding fido_assert_verify verify_stmt fido_check_flags check_extensions fido_check_rp_id
    fido_get_signed_hash hash_decoded get_es256_hash verify_digest
wrong_key = refl

not_verified :
    fido_assert_verify toy (record assertion { uv = opt_true }) 0 cose_es256 (some (1 ∷ []))
    ≡ err_invalid_param
unfolding fido_assert_verify verify_stmt fido_check_flags
not_verified = refl

no_stmt : fido_assert_verify toy assertion 1 cose_es256 (some (1 ∷ [])) ≡ err_invalid_argument
unfolding fido_assert_verify
no_stmt = refl

verify-exact_example :
    (fido_assert_verify toy assertion 0 cose_es256 (some (1 ∷ [])) ≡ fido_ok)
    ↔ IsGenuine toy assertion 0 cose_es256 (some (1 ∷ []))
verify-exact_example = verify-exact toy assertion 0 cose_es256 (some (1 ∷ []))

-- The second call is refused, since client data are set.
abbrev some_calls : List Call
some_calls =
    set_clientdata (3 ∷ 4 ∷ [])
    ∷ set_clientdata_hash (8 ∷ [])
    ∷ set_rp none
    ∷ allow_cred (some [])
    ∷ []

calls-IsPaired_example :
    IsPaired toy
      (calls toy (record assertion { cdh = none }) some_calls).cd
      (calls toy (record assertion { cdh = none }) some_calls).cdh
calls-IsPaired_example =
    calls-IsPaired toy (record assertion { cdh = none }) some_calls
      (λ d e. absurd (ground (arith, e)))
