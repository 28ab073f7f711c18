-- ===== src/Cred.antt =====
-- src/cred.c: the verification of a new credential, by the certificate of its authenticator or by the
-- credential's own key.
pub mod Checks
pub mod Exact
pub mod Own
mod Tests
use fido2_manage.Prelude.{
  ℕ, ◌^◌, Bool, true, false, not, ◌&&◌, ◌||◌, List, [], ◌∷◌, ◌++◌, Option, none, some, length, ltb,
  ◌==◌, bytes_eq, bit_and, ℤ, pos, negsuc, eqb_ℤ, if◌then◌else◌, ◌-◌,
}
use fido2_manage.Err.{
  fido_ok, err_invalid_argument, err_invalid_param, err_invalid_sig, err_internal,
  err_unsupported_option,
}
use fido2_manage.Blob.{Blob}
use fido2_manage.Tpm.{fido_get_signed_hash_tpm, cose_rs1}
use fido2_manage.Assert.{
  Opt, opt_true, Crypto, cose_es256, cose_es384, cose_rs256, cose_eddsa, fido_check_flags,
  fido_check_rp_id, fido_get_signed_hash,
}

-- `fido_cred_ext_t`
pub record CredExt : Type 0 where
  pub mask : ℕ
  pub prot : ℕ
  pub minpinlen : ℕ

-- `fido_cred_t`, as far as it is verified. `x5c` are the certificates of the attestation; `type` is
-- the algorithm of the credential, `pubkey` its key, with `x` and `y` those of a
-- P-256 key and `n` the modulus of an RSA key.
pub record Cred : Type 0 where
  pub cdh : Blob
  pub rp_id : Option (List ℕ)
  pub uv : Opt
  pub ext : CredExt
  pub fmt : Option (List ℕ)
  pub authdata_ext : CredExt
  pub authdata_cbor : Blob
  pub authdata_raw : Blob
  pub rp_id_hash : List ℕ
  pub flags : ℕ
  pub id : Blob
  pub type : ℤ
  pub pubkey : List ℕ
  pub n : List ℕ
  pub x : List ℕ
  pub y : List ℕ
  pub x5c : Option (List (List ℕ))
  pub sig : Blob
  pub alg : ℤ
  pub certinfo : Blob
  pub pubarea : Blob

-- What cred.c calls: the digests and the CBOR decoder, the key in a certificate, whether that key
-- accepts a signature of a digest, and SHA-1.
pub record Attester : Type 0 where
  pub crypto : Crypto
  pub cert_key : List ℕ → Option (List ℕ)
  pub verify_cert_sig : ℤ → List ℕ → List ℕ → List ℕ → Bool
  pub sha1 : List ℕ → Option (List ℕ)

abbrev pub cose_unspec : ℤ
cose_unspec = pos 0

-- "packed"
abbrev pub packed : List ℕ
packed = 112 ∷ 97 ∷ 99 ∷ 107 ∷ 101 ∷ 100 ∷ []

-- "fido-u2f"
abbrev pub fido_u2f : List ℕ
fido_u2f = 102 ∷ 105 ∷ 100 ∷ 111 ∷ 45 ∷ 117 ∷ 50 ∷ 102 ∷ []

-- "tpm"
abbrev pub tpm : List ℕ
tpm = 116 ∷ 112 ∷ 109 ∷ []

-- `true` for the C value 0; the largeBlobKey bit of the mask is left out.
unfoldable pub check_cred_extensions : CredExt → CredExt → Bool
check_cred_extensions authdata_ext ext =
    authdata_ext.mask == bit_and ext.mask 0xfffffffb
    && authdata_ext.prot == ext.prot
    && authdata_ext.minpinlen == ext.minpinlen

-- The digest has room.
unfoldable pub get_signed_hash_u2f :
    Crypto → List ℕ → List ℕ → List ℕ → List ℕ → List ℕ → Option (List ℕ)
get_signed_hash_u2f c rp_id_hash clientdata id x y =
    c.sha256 (0 ∷ (rp_id_hash ++ clientdata ++ id ++ (4 ∷ (x ++ y))))

-- The switch of `verify_attstmt`.
abbrev pub known_alg : ℤ → Bool
known_alg alg =
    eqb_ℤ alg cose_unspec
    || eqb_ℤ alg cose_es256
    || eqb_ℤ alg cose_es384
    || eqb_ℤ alg cose_rs256
    || eqb_ℤ alg cose_rs1
    || eqb_ℤ alg cose_eddsa

abbrev pub with_cert_key : Attester → List ℕ → Cred → List ℕ → Option (List ℕ) → Bool
with_cert_key v dgst cred sig none = false
with_cert_key v dgst cred sig (some key) =
    known_alg cred.alg && v.verify_cert_sig cred.alg dgst key sig

-- `true` for the C value 0; the first certificate is that of the key.
unfoldable pub verify_attstmt : Attester → List ℕ → Cred → List (List ℕ) → List ℕ → Bool
verify_attstmt v dgst cred [] sig = false
verify_attstmt v dgst cred (cert ∷ certs) sig =
    if ltb (2 ^ 31 - 1) (length cert)
    then false
    else with_cert_key v dgst cred sig (v.cert_key cert)

-- `fido_get_signed_hash_tpm` on the parts of a credential.
abbrev pub signed_hash_tpm : Attester → Cred → List ℕ → Option (List ℕ)
signed_hash_tpm v cred cdh =
    fido_get_signed_hash_tpm (record { sha1 = v.sha1; sha256 = v.crypto.sha256 }) cdh
      cred.authdata_raw
      (record {
        alg = cred.alg;
        certinfo = cred.certinfo;
        pubarea = cred.pubarea;
        type = cred.type;
        x = cred.x;
        y = cred.y;
        n = cred.n;
      })

-- `do we have everything we need?`
abbrev pub need : {A : Type 0} → Option A → (A → ℤ) → ℤ
need none rest = err_invalid_argument
need (some a) rest = rest a

-- A pointer that must be NULL.
abbrev pub need_none : {A : Type 0} → Option A → ℤ → ℤ
need_none none rest = rest
need_none (some a) rest = err_invalid_argument

abbrev pub or_internal : Option (List ℕ) → (List ℕ → ℤ) → ℤ
or_internal none rest = err_internal
or_internal (some dgst) rest = rest dgst

-- The checks of the name, the flags and the extensions.
abbrev pub checked : Crypto → Cred → List ℕ → ℤ → ℤ
checked c cred id rest =
    if not (fido_check_rp_id c id cred.rp_id_hash)
    then err_invalid_param
    else if not (fido_check_flags cred.flags opt_true cred.uv)
    then err_invalid_param
    else if not (check_cred_extensions cred.authdata_ext cred.ext)
    then err_invalid_param
    else rest

abbrev pub attestation_alg : Cred → ℤ
attestation_alg cred = if eqb_ℤ cred.alg cose_unspec then cose_es256 else cred.alg

-- The digest by the format, in a buffer of 1024 bytes.
abbrev pub attested : Attester → Cred → List ℕ → List ℕ → List ℕ → List ℕ → (List ℕ → ℤ) → ℤ
attested v cred fmt cdh cbor id rest =
    if bytes_eq fmt packed
    then or_internal (fido_get_signed_hash v.crypto (attestation_alg cred) 1024 cdh cbor) rest
    else if bytes_eq fmt fido_u2f
    then or_internal (get_signed_hash_u2f v.crypto cred.rp_id_hash cdh id cred.x cred.y) rest
    else if bytes_eq fmt tpm
    then or_internal (signed_hash_tpm v cred cdh) rest
    else err_invalid_argument

unfoldable pub fido_cred_verify : Attester → Cred → ℤ
fido_cred_verify v cred = need cred.cdh λ cdh. need cred.authdata_cbor λ cbor. need cred.x5c λ x5c.
    need cred.sig λ sig. need cred.fmt λ fmt. need cred.id λ id. need cred.rp_id λ rp_id.
      checked v.crypto cred rp_id (
        attested v cred fmt cdh cbor id
          (λ dgst. if verify_attstmt v dgst cred x5c sig then fido_ok else err_invalid_sig))

abbrev pub self_attested : Crypto → Cred → List ℕ → List ℕ → List ℕ → List ℕ → (List ℕ → ℤ) → ℤ
self_attested c cred fmt cdh cbor id rest =
    if bytes_eq fmt packed
    then or_internal (fido_get_signed_hash c cred.type 1024 cdh cbor) rest
    else if bytes_eq fmt fido_u2f
    then or_internal (get_signed_hash_u2f c cred.rp_id_hash cdh id cred.x cred.y) rest
    else err_invalid_argument

-- The switch on the type of the credential's key.
abbrev pub verify_own : Crypto → Cred → List ℕ → List ℕ → ℤ
verify_own c cred sig dgst =
    if eqb_ℤ cred.type cose_es256
      || eqb_ℤ cred.type cose_es384
      || eqb_ℤ cred.type cose_rs256
      || eqb_ℤ cred.type cose_eddsa
    then (if c.verify_sig cred.type dgst cred.pubkey sig then fido_ok else err_invalid_sig)
    else err_unsupported_option

unfoldable pub fido_cred_verify_self : Crypto → Cred → ℤ
fido_cred_verify_self c cred = need cred.cdh λ cdh. need cred.authdata_cbor λ cbor.
    need_none cred.x5c (
      need cred.sig λ sig. need cred.fmt λ fmt. need cred.id λ id. need cred.rp_id λ rp_id.
        checked c cred rp_id (self_attested c cred fmt cdh cbor id (verify_own c cred sig)))
