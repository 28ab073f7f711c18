-- ===== src/GetAssert/Request.antt =====
-- src/assert.c and src/cbor.c: the request for an assertion.
use fido2_manage.Prelude.{
  ℕ, Bool, true, not, ◌&&◌, ◌||◌, List, [], ◌∷◌, Option, none, some, length, ◌==◌, if◌then◌else◌,
}
use fido2_manage.Err.{err_internal, err_invalid_argument}
use fido2_manage.Try.{Try, ◌>>=◌, give, throw, try_option}
use fido2_manage.Device.{Dev}
use fido2_manage.Flags.{fido_dev_supports_permissions}
use fido2_manage.Blob.{Blob}
use fido2_manage.Assert.{Assert, Opt, opt_omit, is_true}
use fido2_manage.Cbor.{Value, Pairs, uint, bytestring, string, boolean, cbor_flatten_vector}
use fido2_manage.Cbor.Auth.{pin_protocol, cbor_encode_pin_auth}
use fido2_manage.Cbor.Encode.{
  Chars, Es256Pk, definite_map_of, cbor_add, add_if, has_ext, ext_cred_blob, ext_hmac_secret,
  ext_largeblob_key, es256_pk_encode, cbor_encode_pubkey_list, cbor_encode_assert_opt,
}
use fido2_manage.Ctap.{Calls, send_frame, aes256_cbc_enc}
use fido2_manage.Pin.{cbor_add_uv_params}
use fido2_manage.Credman.{is_set}

-- Our public key and the secret that is shared with the device, if there are any.
abbrev pub Key : Type 0
Key = Option (Es256Pk × List ℕ)

abbrev protocol_arg : ℕ → Option Value
protocol_arg prot = if prot == 1 then none else some (uint 1 prot)

-- `ecdh == NULL || pk == NULL || salt->ptr == NULL`, and the length of the salt.
abbrev pub salted : Key → Blob → Option ((Es256Pk × List ℕ) × List ℕ)
salted none salt = none
salted (some k) none = none
salted (some k) (some salt) =
    if not (length salt == 32) && not (length salt == 64) then none else some (k, salt)

unfoldable pub cbor_encode_hmac_secret_param : Calls → Dev → Pairs → Key → Blob → Try Pairs
cbor_encode_hmac_secret_param c d item key salt = do
  s ← try_option err_internal (salted key salt)
  enc ← aes256_cbc_enc c d s.0.1 s.1
  prot ← try_option err_internal (pin_protocol d)
  auth ← try_option err_internal (cbor_encode_pin_auth c.hmac_sha256 d s.0.1 enc)
  param ← try_option err_internal (
      cbor_flatten_vector (
        some (es256_pk_encode s.0.0 true)
        ∷ some (bytestring enc)
        ∷ some auth
        ∷ protocol_arg prot
        ∷ []))
  give (cbor_add item "hmac-secret" (definite_map_of param))

abbrev pub add_hmac_secret : Calls → Dev → ℕ → Blob → Key → Pairs → Try Pairs
add_hmac_secret c d mask salt key item =
    if has_ext mask ext_hmac_secret
    then cbor_encode_hmac_secret_param c d item key salt
    else give item

abbrev with_largeblob_key : ℕ → Pairs → Value
with_largeblob_key mask item =
    definite_map_of (add_if (has_ext mask ext_largeblob_key) item "largeBlobKey" (boolean true))

abbrev pub any_extension : ℕ → Bool
any_extension mask =
    has_ext mask ext_cred_blob || has_ext mask ext_hmac_secret || has_ext mask ext_largeblob_key

-- The only caller of this gives FIDO_ERR_INTERNAL if it fails.
unfoldable pub cbor_encode_assert_ext : Calls → Dev → ℕ → Blob → Key → Try Value
cbor_encode_assert_ext c d mask salt key =
    if any_extension mask
    then (do
      item ←
          add_hmac_secret c d mask salt key
            (add_if (has_ext mask ext_cred_blob) [] "credBlob" (boolean true))
      give (with_largeblob_key mask item))
    else throw err_internal

-- `assert->uv == FIDO_OPT_TRUE && fido_dev_supports_permissions(dev)`, or a PIN.
abbrev pub wants_token : Dev → Assert → Chars → Bool
wants_token d a pin = is_set pin || (is_true a.uv && fido_dev_supports_permissions d)

abbrev allowed : List Blob → Option Value
allowed [] = none
allowed (b ∷ bs) = some (cbor_encode_pubkey_list (b ∷ bs))

abbrev options : Opt → Opt → Option Value
options opt_omit opt_omit = none
options opt_omit uv = some (cbor_encode_assert_opt opt_omit uv)
options up uv = some (cbor_encode_assert_opt up uv)

abbrev pub cbor_assert : ℕ
cbor_assert = 0x02

-- The authentication of the request and its protocol; the keys are there whenever one is wanted.
abbrev pub add_token : Calls → Dev → Assert → Key → Chars → List ℕ → List ℕ → Try (Value × Value)
add_token c d a key pin rp_id cdh = do
  k ← try_option err_internal key
  cbor_add_uv_params c d cbor_assert cdh k.0 k.1 pin (some rp_id)

abbrev pub encode_ext : Calls → Dev → Assert → Key → Try (Option Value)
encode_ext c d a key =
    if a.ext_mask == 0
    then give none
    else (do v ← cbor_encode_assert_ext c d a.ext_mask a.hmac_salt key; give (some v))

-- The last three arguments of the request.
abbrev pub encode_uv :
    Calls → Dev → Assert → Key → Chars → List ℕ → List ℕ → Try (List (Option Value))
encode_uv c d a key pin rp_id cdh =
    if wants_token d a pin
    then (do
      p ← add_token c d a key pin rp_id cdh
      give (options a.up opt_omit ∷ some p.0 ∷ some p.1 ∷ []))
    else give (options a.up a.uv ∷ none ∷ none ∷ [])

unfoldable pub fido_dev_get_assert_tx : Calls → Dev → Assert → Key → Chars → Try (Unit {0})
fido_dev_get_assert_tx c d a key pin = do
  rp_id ← try_option err_invalid_argument a.rp_id
  cdh ← try_option err_invalid_argument a.cdh
  ext ← encode_ext c d a key
  uv ← encode_uv c d a key pin rp_id cdh
  send_frame c d cbor_assert
      (some (string rp_id) ∷ some (bytestring cdh) ∷ allowed a.allow_list ∷ ext ∷ uv)
