-- ===== src/Pin/Change.antt =====
-- src/pin.c: setting and changing the PIN, and the counters of what attempts are left.
use fido2_manage.Prelude.{
  ℕ, true, without, List, [], ◌∷◌, Option, none, some, ltb, ◌==◌, bit_or, if◌then◌else◌,
}
use fido2_manage.Err.{err_internal, err_invalid_argument}
use fido2_manage.Try.{Try, ◌>>=◌, ◌>>◌, give, try_option}
use fido2_manage.Device.{Dev}
use fido2_manage.Flags.{has, dev_pin_set, dev_pin_unset}
use fido2_manage.Cbor.{Parser}
use fido2_manage.Cbor.Auth.{cbor_encode_pin_auth, cbor_encode_pin_opt, cbor_encode_change_pin_auth}
use fido2_manage.Cbor.Encode.{Chars, es256_pk_encode}
use fido2_manage.Cbor.Decode.{by_number, cbor_decode_uint64}
use fido2_manage.Cbor.Keys.{int_max}
use fido2_manage.Ctap.{
  Calls, send_frame, receive_parsed, fido_do_ecdh, cbor_client_pin, device_accepts, with_timeout,
}
use fido2_manage.Pin.{pin_pad64_enc, pin_sha256_enc, non_empty, byte, bytes}

unfoldable pub fido_dev_change_pin_tx : Calls → Dev → List ℕ → List ℕ → Try (Unit {0})
fido_dev_change_pin_tx c d pin oldpin = do
  opin ← try_option err_invalid_argument (non_empty oldpin)
  (pk, ecdh) ← fido_do_ecdh c d
  ppine ← pin_pad64_enc c d ecdh pin
  opinhe ← pin_sha256_enc c d ecdh opin
  opt ← try_option err_internal (cbor_encode_pin_opt d)
  auth ← try_option err_internal (cbor_encode_change_pin_auth c.hmac_sha256 d ecdh ppine opinhe)
  send_frame c d cbor_client_pin (
      some opt
      ∷ byte 4
      ∷ some (es256_pk_encode pk true)
      ∷ some auth
      ∷ bytes ppine
      ∷ bytes opinhe
      ∷ [])

unfoldable pub fido_dev_set_pin_tx : Calls → Dev → List ℕ → Try (Unit {0})
fido_dev_set_pin_tx c d pin = do
  (pk, ecdh) ← fido_do_ecdh c d
  ppine ← pin_pad64_enc c d ecdh pin
  opt ← try_option err_internal (cbor_encode_pin_opt d)
  auth ← try_option err_internal (cbor_encode_pin_auth c.hmac_sha256 d ecdh ppine)
  send_frame c d cbor_client_pin
      (some opt ∷ byte 3 ∷ some (es256_pk_encode pk true) ∷ some auth ∷ bytes ppine ∷ [])

abbrev pub set_or_change : Calls → Dev → List ℕ → Chars → Try (Unit {0})
set_or_change c d pin none = fido_dev_set_pin_tx c d pin
set_or_change c d pin (some oldpin) = fido_dev_change_pin_tx c d pin oldpin

-- A device that had no PIN has one now.
unfoldable pub pin_now_set : Dev → Dev
pin_now_set d =
    if has dev_pin_unset d.flags
    then record d { flags = bit_or (without dev_pin_unset d.flags) dev_pin_set }
    else d

-- The device afterwards, as the library sees it.
unfoldable pub fido_dev_set_pin : Calls → Dev → List ℕ → Chars → Try Dev
fido_dev_set_pin c d pin oldpin =
    with_timeout d (do set_or_change c d pin oldpin; device_accepts c d; give (pin_now_set d))

abbrev pub retries_of : Option ℕ → Option ℕ
retries_of none = none
retries_of (some n) = if ltb int_max n then none else some n

unfoldable pub parse_retry_count : ℕ → Parser ℕ
parse_retry_count keyval =
    by_number λ n v retries. if n == keyval then retries_of (cbor_decode_uint64 v) else some retries

unfoldable pub fido_dev_get_retry_count_tx : Calls → Dev → ℕ → Try (Unit {0})
fido_dev_get_retry_count_tx c d subcmd = send_frame c d cbor_client_pin (byte 1 ∷ byte subcmd ∷ [])

unfoldable pub fido_dev_get_retry_count : Calls → Dev → Try ℕ
fido_dev_get_retry_count c d =
    with_timeout d
      (do fido_dev_get_retry_count_tx c d 1; receive_parsed c d (parse_retry_count 3) 0)

unfoldable pub fido_dev_get_uv_retry_count : Calls → Dev → Try ℕ
fido_dev_get_uv_retry_count c d =
    with_timeout d
      (do fido_dev_get_retry_count_tx c d 7; receive_parsed c d (parse_retry_count 5) 0)
