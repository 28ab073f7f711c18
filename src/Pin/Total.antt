-- ===== src/Pin/Total.antt =====
-- src/pin.c: asking for a token ends, whatever the device answers.
use fido2_manage.Prelude.{ℕ, List, none, some, Bool-cases, inl, inr, take}
use fido2_manage.Platform.{World}
use fido2_manage.Err.{err_rx, err_internal, err_invalid_argument, err_pin_required}
use fido2_manage.Try.{val, err, give-Ends}
use fido2_manage.Ends.{Ends, return-Ends}
use fido2_manage.Device.{Dev}
use fido2_manage.Flags.{fido_dev_supports_permissions, fido_dev_has_uv}
use fido2_manage.Blob.{blob_bytes}
use fido2_manage.Cbor.Auth.{cbor_encode_pin_auth, cbor_encode_pin_opt}
use fido2_manage.Cbor.Encode.{Chars, Es256Pk}
use fido2_manage.Ctap.{Calls, aes256_cbc_dec, cbor_client_pin}
use fido2_manage.Ctap.Total.{
  IsPlain, AnyCode, AnyRet, any_option, any_then, any_parsed, send_frame-Ends, aes256_cbc_enc-Ends,
}
use fido2_manage.Pin.{
  pin_sha256_enc, ctap20_args, ctap20_uv_token_tx, hash_or_uv, ctap21_args, ctap21_uv_token_tx,
  encode_uv_permission, non_empty, parse_uv_token, uv_token_rx, fido_dev_get_uv_token,
  cbor_add_uv_params,
}

module _ (c : Calls) (d : Dev) (plain : IsPlain c d) where
  pub sha256_enc-Ends :
      (shared pin : List ℕ) (w : World) → Ends AnyRet (pin_sha256_enc c d shared pin w)
  unfolding pin_sha256_enc
  sha256_enc-Ends shared pin w =
      any_then _ _ (any_option err_internal (c.sha256 pin) w)
        λ ph w1. aes256_cbc_enc-Ends c d plain shared (take 16 ph) w1

  tx20-Ends :
      (pin : Chars) (ecdh : List ℕ) (pk : Es256Pk) (w : World)
      → Ends AnyRet (ctap20_uv_token_tx c d pin ecdh pk w)
  unfolding ctap20_uv_token_tx
  tx20-Ends pin ecdh pk w = any_then _ _ (any_option err_pin_required pin w) λ chars w1.
      any_then _ _ (any_option err_invalid_argument (non_empty chars) w1) λ p w2.
        any_then _ _ (sha256_enc-Ends ecdh p w2) λ phe w3.
          any_then _ _ (any_option err_internal (cbor_encode_pin_opt d) w3)
            λ opt w4. send_frame-Ends c d plain cbor_client_pin (ctap20_args opt pk phe) w4

  hash-Ends : (pin : Chars) (ecdh : List ℕ) (w : World) → Ends AnyRet (hash_or_uv c d pin ecdh w)
  unfolding hash_or_uv
  hash-Ends none ecdh w = elim (Bool-cases (fido_dev_has_uv d)) [
    | inl verifies ↦ rw verifies (return-Ends (val none) w tt)
    | inr not ↦ rw not (return-Ends (err err_pin_required) w tt)
  ]
  hash-Ends (some pin) ecdh w =
      any_then _ _ (any_option err_invalid_argument (non_empty pin) w) λ p w1.
        any_then _ _ (sha256_enc-Ends ecdh p w1) λ phe w2. give-Ends AnyCode (some phe) w2 tt

  tx21-Ends :
      (pin : Chars) (ecdh : List ℕ) (pk : Es256Pk) (cmd : ℕ) (rpid : Chars) (w : World)
      → Ends AnyRet (ctap21_uv_token_tx c d pin ecdh pk cmd rpid w)
  unfolding ctap21_uv_token_tx
  tx21-Ends pin ecdh pk cmd rpid w = any_then _ _ (hash-Ends pin ecdh w) λ phe w1.
      any_then _ _ (any_option err_internal (cbor_encode_pin_opt d) w1) λ opt w2.
        any_then _ _ (any_option err_internal (encode_uv_permission cmd) w2)
          λ perm w3. send_frame-Ends c d plain cbor_client_pin (ctap21_args opt pk phe perm rpid) w3

  pub uv_token-Ends :
      (cmd : ℕ) (pin : Chars) (ecdh : List ℕ) (pk : Es256Pk) (rpid : Chars) (w : World)
      → Ends AnyRet (fido_dev_get_uv_token c d cmd pin ecdh pk rpid w)
  unfolding fido_dev_get_uv_token uv_token_rx
  uv_token-Ends cmd pin ecdh pk rpid w =
      let answer = λ (v : World).
        any_then _ _ (any_parsed c d plain parse_uv_token none v)
          λ aes_token v1. any_option err_rx (aes256_cbc_dec c d ecdh (blob_bytes aes_token)) v1 in
      elim (Bool-cases (fido_dev_supports_permissions d)) [
        | inl perms ↦ rw perms (any_then _ _ (tx21-Ends pin ecdh pk cmd rpid w) λ u w1. answer w1)
        | inr old ↦ rw old (any_then _ _ (tx20-Ends pin ecdh pk w) λ u w1. answer w1)
      ]

  pub add_uv_params-Ends :
      (cmd : ℕ) (hmac : List ℕ) (pk : Es256Pk) (ecdh : List ℕ) (pin rpid : Chars) (w : World)
      → Ends AnyRet (cbor_add_uv_params c d cmd hmac pk ecdh pin rpid w)
  unfolding cbor_add_uv_params
  add_uv_params-Ends cmd hmac pk ecdh pin rpid w =
      any_then _ _ (uv_token-Ends cmd pin ecdh pk rpid w) λ token w1.
        any_then _ _ (any_option err_internal (cbor_encode_pin_auth c.hmac_sha256 d token hmac) w1)
          λ auth w2.
            any_then _ _ (any_option err_internal (cbor_encode_pin_opt d) w2)
              λ opt w3. give-Ends AnyCode (auth, opt) w3 tt
