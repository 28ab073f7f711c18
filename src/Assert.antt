-- ===== src/Assert.antt =====
-- src/assert.c: the parameters of an assertion, and its verification.
pub mod Digest
pub mod Exact
pub mod Setup
pub mod Stmts
pub mod Names
mod Tests
use fido2_manage.Prelude.{
  leb, ℕ, ◌+◌, ◌-◌, Bool, true, false, not, ◌&&◌, ◌||◌, List, ◌++◌, Option, none, some, length,
  get_elem?, bit_and, ltb, ◌==◌, eqb_ℤ, ℤ, pos, negsuc, bytes_eq, if◌then◌else◌,
}
use fido2_manage.Err.{
  fido_ok, err_invalid_param, err_invalid_sig, err_invalid_argument, err_internal,
  err_unsupported_option,
}
use fido2_manage.Blob.{Blob, size_max}

-- `fido_opt_t`
pub data Opt : Type 0 where
  opt_omit : Opt
  opt_false : Opt
  opt_true : Opt

-- A statement, as far as it is set and verified: the credential, the decoded authenticator data
-- (`fido_authdata_t`), the mask of the decoded extensions, and the bytes of the data.
pub record Stmt : Type 0 where
  pub id : Blob
  pub rp_id_hash : List ℕ
  pub flags : ℕ
  pub sigcount : ℕ
  pub authdata_ext_mask : ℕ
  pub authdata_cbor : Blob
  pub authdata_raw : Blob
  pub sig : Blob

-- `fido_assert_t`; `stmt` are the `stmt_cnt` statements that are allocated.
pub record Assert : Type 0 where
  pub rp_id : Option (List ℕ)
  pub cd : Blob
  pub cdh : Blob
  pub allow_list : List Blob
  pub up : Opt
  pub uv : Opt
  pub ext_mask : ℕ
  pub hmac_salt : Blob
  pub stmt : List Stmt
  pub stmt_len : ℕ

-- The cryptographic library and the CBOR decoder: the digests (`none` if they fail), the bytes of a
-- definite byte string, and for each COSE algorithm whether a key accepts a signature of a digest.
pub record Crypto : Type 0 where
  pub sha256 : List ℕ → Option (List ℕ)
  pub sha384 : List ℕ → Option (List ℕ)
  pub load_bytestring : List ℕ → Option (List ℕ)
  pub verify_sig : ℤ → List ℕ → List ℕ → List ℕ → Bool

-- The algorithms of src/fido/param.h.
abbrev pub cose_es256 : ℤ
cose_es256 = negsuc 6

abbrev pub cose_eddsa : ℤ
cose_eddsa = negsuc 7

abbrev pub cose_es384 : ℤ
cose_es384 = negsuc 34

abbrev pub cose_rs256 : ℤ
cose_rs256 = negsuc 256

abbrev pub is_true : Opt → Bool
is_true opt_omit = false
is_true opt_false = false
is_true opt_true = true

-- `true` for the C value 0.
unfoldable pub fido_check_flags : ℕ → Opt → Opt → Bool
fido_check_flags flags up uv =
    if is_true up && bit_and flags 0x01 == 0
    then false
    else if is_true uv && bit_and flags 0x04 == 0
    then false
    else true

-- `ext & ~FIDO_EXT_LARGEBLOB_KEY`, on a mask of 32 bits.
unfoldable pub check_extensions : ℕ → ℕ → Bool
check_extensions authdata_ext ext = authdata_ext == bit_and ext 0xfffffffb

-- `dgst_len` is the room for the digest.
unfoldable pub get_es256_hash : Crypto → ℕ → List ℕ → List ℕ → Option (List ℕ)
get_es256_hash c dgst_len clientdata authdata =
    if ltb dgst_len 32 then none else c.sha256 (authdata ++ clientdata)

unfoldable pub get_es384_hash : Crypto → ℕ → List ℕ → List ℕ → Option (List ℕ)
get_es384_hash c dgst_len clientdata authdata =
    if ltb dgst_len 48 then none else c.sha384 (authdata ++ clientdata)

unfoldable pub get_eddsa_hash : ℕ → List ℕ → List ℕ → Option (List ℕ)
get_eddsa_hash dgst_len clientdata authdata =
    if ltb (size_max - length authdata) (length clientdata)
      || ltb dgst_len (length authdata + length clientdata)
    then none
    else some (authdata ++ clientdata)

-- The switch on the algorithm, once the authenticator data was decoded.
unfoldable pub hash_decoded : Crypto → ℤ → ℕ → List ℕ → Option (List ℕ) → Option (List ℕ)
hash_decoded c cose_alg dgst_len clientdata none = none
hash_decoded c cose_alg dgst_len clientdata (some authdata) =
    if eqb_ℤ cose_alg cose_es256 || eqb_ℤ cose_alg cose_rs256
    then get_es256_hash c dgst_len clientdata authdata
    else if eqb_ℤ cose_alg cose_es384
    then get_es384_hash c dgst_len clientdata authdata
    else if eqb_ℤ cose_alg cose_eddsa
    then get_eddsa_hash dgst_len clientdata authdata
    else none

unfoldable pub fido_get_signed_hash : Crypto → ℤ → ℕ → List ℕ → List ℕ → Option (List ℕ)
fido_get_signed_hash c cose_alg dgst_len clientdata authdata_cbor =
    hash_decoded c cose_alg dgst_len clientdata (c.load_bytestring authdata_cbor)

-- src/cred.c; `true` for the C value 0.
abbrev pub same_hash : Option (List ℕ) → List ℕ → Bool
same_hash none obtained = false
same_hash (some expected) obtained = bytes_eq expected obtained

unfoldable pub fido_check_rp_id : Crypto → List ℕ → List ℕ → Bool
fido_check_rp_id c id obtained_hash = same_hash (c.sha256 id) obtained_hash

-- The second switch.
unfoldable pub verify_digest : Crypto → ℤ → List ℕ → List ℕ → List ℕ → ℤ
verify_digest c cose_alg dgst pk sig =
    if eqb_ℤ cose_alg cose_es256
      || eqb_ℤ cose_alg cose_es384
      || eqb_ℤ cose_alg cose_rs256
      || eqb_ℤ cose_alg cose_eddsa
    then (if c.verify_sig cose_alg dgst pk sig then fido_ok else err_invalid_sig)
    else err_unsupported_option

abbrev pub with_digest : Crypto → ℤ → List ℕ → List ℕ → Option (List ℕ) → ℤ
with_digest c cose_alg pk sig none = err_internal
with_digest c cose_alg pk sig (some dgst) = verify_digest c cose_alg dgst pk sig

-- With everything that is needed; `buf` has 1024 bytes.
unfoldable pub verify_stmt :
    Crypto → Assert → ℤ → List ℕ → Stmt → List ℕ → List ℕ → List ℕ → List ℕ → ℤ
verify_stmt c a cose_alg pk st cdh id authdata_cbor sig =
    if not (fido_check_flags st.flags a.up a.uv)
    then err_invalid_param
    else if not (check_extensions st.authdata_ext_mask a.ext_mask)
    then err_invalid_param
    else if not (fido_check_rp_id c id st.rp_id_hash)
    then err_invalid_param
    else with_digest c cose_alg pk sig (fido_get_signed_hash c cose_alg 1024 cdh authdata_cbor)

-- `do we have everything we need?`
abbrev pub with_everything :
    Crypto → Assert → ℤ → List ℕ → Stmt → Blob → Option (List ℕ) → Blob → Blob → ℤ
with_everything c a cose_alg pk st (some cdh) (some id) (some authdata_cbor) (some sig) =
    verify_stmt c a cose_alg pk st cdh id authdata_cbor sig
with_everything c a cose_alg pk st (some cdh) (some id) (some authdata_cbor) none =
    err_invalid_argument
with_everything c a cose_alg pk st (some cdh) (some id) none sig = err_invalid_argument
with_everything c a cose_alg pk st (some cdh) none authdata_cbor sig = err_invalid_argument
with_everything c a cose_alg pk st none id authdata_cbor sig = err_invalid_argument

abbrev pub with_stmt : Crypto → Assert → ℤ → Option (List ℕ) → Option Stmt → ℤ
with_stmt c a cose_alg pk none = err_invalid_argument
with_stmt c a cose_alg none (some st) = err_invalid_argument
with_stmt c a cose_alg (some pk) (some st) =
    with_everything c a cose_alg pk st a.cdh a.rp_id st.authdata_cbor st.sig

-- The statements received are the first of those allocated.
unfoldable pub fido_assert_verify : Crypto → Assert → ℕ → ℤ → Option (List ℕ) → ℤ
fido_assert_verify c a idx cose_alg pk =
    if leb a.stmt_len idx
    then err_invalid_argument
    else with_stmt c a cose_alg pk (get_elem? a.stmt idx)
